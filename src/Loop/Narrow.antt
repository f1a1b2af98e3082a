-- ===== src/Loop/Narrow.antt =====
-- RegisterTarget.h: `seqRead` of a span that is longer than a `LengthType` can count, over a
-- connection.
use rap_cpp.Base.{ℕ, ◌+◌, ◌^◌, ◌%◌, ◌≡◌, refl, true, List, length, ==_refl, arith}
use rap_cpp.Configuration.{Cfg, IsUsable}
use rap_cpp.Result.{Ensures-weaken}
use rap_cpp.Interfaces.{IRegisterTarget}
use rap_cpp.Messages.Response.{read_seq_ack}
use rap_cpp.Messages.Relationship.{to_read_seq}
use rap_cpp.Serdes.Size.{Serdes, to_unsigned}
use rap_cpp.Serdes.Buffer.{Calculate, IsCrc}
use rap_cpp.Serdes.Limits.{IsSerdes}
use rap_cpp.Serdes.Command.Wire.{IsWire, Sendable}
use rap_cpp.ServerAdapter.{answer, zeros}
use rap_cpp.ServerAdapter.Target.{IsTarget}
use rap_cpp.ServerAdapter.Answers.{length-zeros}
use rap_cpp.RegisterTarget.Exchange.{Client, visit, get_next_txn_id, check_ifs}
use rap_cpp.RegisterTarget.Methods.{client_seq_read}
use rap_cpp.RegisterTarget.Overflow.{asked}
use rap_cpp.Loop.{Connection, connection}
use rap_cpp.Loop.Copy.{over, copied_over}
use rap_cpp.Loop.Exchange.{idle, settled, exchange_settles}
use native.Mathlib.Nat.{mod-le}

module _ (calculate : Calculate) (cfg : Cfg) (lawful : IsCrc calculate) (u : IsUsable cfg)
    (serdes : Serdes) (v : IsSerdes serdes) {S : Type 0} (target : IRegisterTarget S)
    (t : IsTarget cfg target) (size : ℕ) (base : IRegisterTarget (Client (Connection S))) where
  -- On an idle connection, if the features allow the increment and the command of a `seqRead`, with
  -- count and increment narrowed to a `LengthType`, fits the wire and the limit, the target of the
  -- server is asked for as many words as are left of the count and with what is left of the
  -- increment. If it returns them, so does `seqRead`, with the rest of the span of its caller as it
  -- was: a span that is too long for a `LengthType` is filled only in part, without an exception.
  pub client_seq_read_narrows :
      (n start_addr : ℕ) (out_data : List ℕ) (increment : ℕ) (s : S)
      → check_ifs cfg increment ≡ true
      → IsWire cfg (asked cfg n start_addr increment (length out_data))
      → Sendable cfg serdes (asked cfg n start_addr increment (length out_data))
      → let count = length out_data % 256 ^ cfg.length_size in
        let m =
          target.target_seq_read start_addr (zeros count) (increment % 256 ^ cfg.length_size) s in
        client_seq_read calculate cfg serdes
          (connection calculate cfg serdes target)
          base
          start_addr
          out_data
          increment
          (idle size n s)
        ≡ (idle size (to_unsigned 1 (n + 1)) m.0, settled (λ ws. over ws out_data) m.1)
  unfolding client_seq_read get_next_txn_id answer visit
  client_seq_read_narrows n start_addr out_data increment s feature fits room =
      let count = length out_data % 256 ^ cfg.length_size in
      let m =
        target.target_seq_read start_addr (zeros count) (increment % 256 ^ cfg.length_size) s in
      let settles =
        exchange_settles calculate cfg lawful u serdes v target t size to_read_seq
          (asked cfg n start_addr increment (length out_data)) (to_unsigned 1 (n + 1)) s
          (λ ws. record { transaction_id = n; values = ws }) read_seq_ack _ m refl
          (λ x. rw ==_refl refl) (rw ==_refl refl) room fits in
      rw (feature, settles)
        (copied_over _ out_data m.1 _ (λ r. r.values) (λ x. refl)
          (Ensures-weaken _ _ m.1
            (t.seq_read_sound start_addr (zeros count) (increment % 256 ^ cfg.length_size) s)
            λ ws h.
              omega
                (arith, h.0, length-zeros count, mod-le (length out_data) (256 ^ cfg.length_size))))
