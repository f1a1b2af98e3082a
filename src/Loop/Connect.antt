-- ===== src/Loop/Connect.antt =====
-- The constructors of client and server on the two ends of a new paired transport.
use rap_cpp.Base.{ℕ, ◌%◌, ◌<◌, ◌≡◌, ◌⊎◌, inl, inr, refl, lt→ltb, le→ltb_false, lt_of_not_le, arith}
use rap_cpp.Result.{ok, throw, base_exception}
use rap_cpp.Serdes.Size.{Serdes, make_serdes}
use rap_cpp.Serdes.Limits.{IsSerdes}
use rap_cpp.PairedIpc.{make_sync_paired_ipc_transport, get_max_message_size}
use rap_cpp.ServerAdapter.{make_rap_server_adapter}
use rap_cpp.RegisterTarget.Exchange.{make_rap_register_target}
use rap_cpp.Loop.{Connection}
use rap_cpp.Loop.Exchange.{idle}
use native.Mathlib.Decide.{dec_le}

-- The client's view of the first end.
abbrev pub first_end : {S : Type 0} → ℕ → S → Connection S
first_end size s = record { ipc = (make_sync_paired_ipc_transport size).0; device = s }

-- On the two ends of a paired transport of any size, client and server have the same limit, of
-- which only the low 16 bits of the size are left: it is at least 32, the connection is idle and
-- the first id is 0; or it is less than 32, and both constructors throw.
pub make_rap_register_target-make_sync_paired_ipc_transport :
    {S : Type 0} (size : ℕ) (s : S)
    → let ends = make_sync_paired_ipc_transport size in
      let limit : Serdes = record { max_message_size = size % 65536 } in
      (IsSerdes limit
        × (make_rap_register_target (get_max_message_size ends.0) (first_end size s)
            ≡ ok (idle size 0 s, limit))
        × (make_rap_server_adapter (get_max_message_size ends.1) ≡ ok limit))
      ⊎ ((size % 65536 < 32)
          × (make_rap_register_target (get_max_message_size ends.0) (first_end size s)
              ≡ throw base_exception)
          × (make_rap_server_adapter (get_max_message_size ends.1) ≡ throw base_exception))
unfolding make_sync_paired_ipc_transport get_max_message_size make_rap_register_target
    make_rap_server_adapter make_serdes
make_rap_register_target-make_sync_paired_ipc_transport size s = elim (dec_le 32 (size % 65536)) [
  | yes large ↦
      let e = le→ltb_false (size % 65536) 32 large in
      inl (
        record { large = large; is_size_t = omega arith },
        rw (make_rap_register_target, make_serdes, e) refl,
        rw e refl,
      )
  | no small ↦
      let less = lt_of_not_le (size % 65536) 32 small in
      let e = lt→ltb (size % 65536) 32 less in
      inr (less, rw (make_rap_register_target, make_serdes, e) refl, rw e refl)
]
