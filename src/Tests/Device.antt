-- ===== src/Tests/Device.antt =====
-- A device with one register, behind every address: a read gives its low word, and a
-- read-modify-write is not supported and throws.
use rap_cpp.Base.{ℕ, ◌%◌, ◌^◌, refl, true, List, [], ◌∷◌, length, arith}
use rap_cpp.Configuration.{Cfg, IsUsable, example_rap_cfg}
use rap_cpp.Result.{ok, throw, base_exception}
use rap_cpp.Interfaces.{IRegisterTarget}
use rap_cpp.Serdes.Fields.{FitsIn}
use rap_cpp.ServerAdapter.Target.{IsTarget, IsSpan}
use native.Mathlib.Nat.{mod-lt, one-le-pow}

abbrev pub all_features : Cfg
all_features = record example_rap_cfg { feature_read_modify_write = true; feature_increment = true }

pub all_features-IsUsable : IsUsable all_features
all_features-IsUsable = ground arith

abbrev pub low_word : ℕ → ℕ
low_word s = s % 256 ^ 4

abbrev pub fill : ℕ → List ℕ → List ℕ
fill s [] = []
fill s (o ∷ out) = low_word s ∷ fill s out

abbrev pub device : IRegisterTarget ℕ
device = record {
  target_write = λ addr word s. (word, ok tt);
  target_read = λ addr s. (s, ok (low_word s));
  target_read_modify_write = λ addr word mask s. (s, throw base_exception);
  target_seq_write = λ addr words increment s. (length words, ok tt);
  target_seq_read = λ addr out increment s. (s, ok (fill s out));
  target_fifo_write = λ addr words s. (length words, ok tt);
  target_fifo_read = λ addr out s. (s, ok (fill s out));
  target_comp_write = λ addr_data s. (length addr_data, ok tt);
  target_comp_read = λ addrs out s. (s, ok (fill s out));
}

-- A register target whose methods all throw, for a base class.
abbrev pub throwing : {S : Type 0} → IRegisterTarget S
throwing = record {
  target_write = λ addr word s. (s, throw base_exception);
  target_read = λ addr s. (s, throw base_exception);
  target_read_modify_write = λ addr word mask s. (s, throw base_exception);
  target_seq_write = λ addr words increment s. (s, throw base_exception);
  target_seq_read = λ addr out increment s. (s, throw base_exception);
  target_fifo_write = λ addr words s. (s, throw base_exception);
  target_fifo_read = λ addr out s. (s, throw base_exception);
  target_comp_write = λ addr_data s. (s, throw base_exception);
  target_comp_read = λ addrs out s. (s, throw base_exception);
}

low_word_fits : (s : ℕ) → FitsIn 4 (low_word s)
low_word_fits s = mod-lt s (one-le-pow 4 256 (omega arith))

fill-IsSpan : (s : ℕ) (out : List ℕ) → IsSpan all_features (length out) (fill s out)
fill-IsSpan s [] = (refl, tt)
fill-IsSpan s (o ∷ out) =
    let (same, fits) = fill-IsSpan s out in (omega (arith, same), (low_word_fits s, fits))

pub device-IsTarget : IsTarget all_features device
device-IsTarget = record {
  write_sound = λ a v s. tt;
  read_sound = λ a s. low_word_fits s;
  read_modify_write_sound = λ a v m s. tt;
  seq_write_sound = λ a vs i s. tt;
  seq_read_sound = λ a out i s. fill-IsSpan s out;
  comp_write_sound = λ ads s. tt;
  comp_read_sound = λ addrs out s. fill-IsSpan s out;
}
