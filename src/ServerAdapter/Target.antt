-- ===== src/ServerAdapter/Target.antt =====
-- What the server relies on in the register target that it drives.
use rap_cpp.Base.{ℕ, ◌≡◌, List, length, All}
use rap_cpp.Configuration.{Cfg}
use rap_cpp.Result.{Ensures}
use rap_cpp.Interfaces.{IRegisterTarget}
use rap_cpp.Serdes.Fields.{FitsIn}

module _ (cfg : Cfg) where
  -- A span of `count` words: the target writes into it and cannot resize it.
  abbrev pub IsSpan : ℕ → List ℕ → Type 0
  IsSpan count words = (length words ≡ count) × All (FitsIn cfg.data_bytes) words

  -- Each method returns or throws, a word has no more than the bytes that go over the wire, and
  -- a read leaves the span of the caller at its length.
  pub record IsTarget {S : Type 0} (target : IRegisterTarget S) : Type 0 where
    pub write_sound : (a v : ℕ) (s : S) → Ensures (λ _. Unit {0}) (target.target_write a v s).1
    pub read_sound : (a : ℕ) (s : S) → Ensures (FitsIn cfg.data_bytes) (target.target_read a s).1
    pub read_modify_write_sound :
        (a v m : ℕ) (s : S) → Ensures (λ _. Unit {0}) (target.target_read_modify_write a v m s).1
    pub seq_write_sound :
        (a : ℕ) (vs : List ℕ) (i : ℕ) (s : S)
        → Ensures (λ _. Unit {0}) (target.target_seq_write a vs i s).1
    pub seq_read_sound :
        (a : ℕ) (out : List ℕ) (i : ℕ) (s : S)
        → Ensures (IsSpan (length out)) (target.target_seq_read a out i s).1
    pub comp_write_sound :
        (ads : List (ℕ × ℕ)) (s : S) → Ensures (λ _. Unit {0}) (target.target_comp_write ads s).1
    pub comp_read_sound :
        (addrs out : List ℕ) (s : S)
        → Ensures (IsSpan (length out)) (target.target_comp_read addrs out s).1
