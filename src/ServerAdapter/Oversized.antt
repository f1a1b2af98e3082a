-- ===== src/ServerAdapter/Oversized.antt =====
-- ServerAdapter.h: a command whose response is beyond the limit of the server.
use rap_cpp.Base.{ℕ, ◌+◌, ◌*◌, ◌≤◌, ◌≡◌, ap, subst, ◌∙◌, List, length, arith}
use rap_cpp.Configuration.{Cfg, IsUsable, IsUsable-Widths}
use rap_cpp.Result.{ok, throw, message_size, Ensures-eq-ok}
use rap_cpp.Interfaces.{IRegisterTarget}
use rap_cpp.Messages.{ReadSeqCommand, read_seq}
use rap_cpp.Messages.Response.{read_seq_ack}
use rap_cpp.Serdes.Size.{Serdes, numeric_max}
use rap_cpp.Serdes.Buffer.{Calculate, IsCrc}
use rap_cpp.Serdes.Limits.{IsSerdes}
use rap_cpp.Serdes.Writers.{lengths}
use rap_cpp.Serdes.Command.Wire.{wire, IsWire, Sendable}
use rap_cpp.Serdes.Command.Decoded.{decode_command-wire}
use rap_cpp.Serdes.Response.Encoded.{encode_response_refuses}
use rap_cpp.ServerAdapter.{answer, work_on, zeros}
use rap_cpp.ServerAdapter.Target.{IsTarget, IsSpan}
use rap_cpp.ServerAdapter.Answers.{length-zeros}

module _ (calculate : Calculate) (cfg : Cfg) (lawful : IsCrc calculate) (u : IsUsable cfg)
    (serdes : Serdes) (v : IsSerdes serdes) {S : Type 0} (target : IRegisterTarget S) where
  -- If a sequential read of more words than the limit of the server allows has its fields in
  -- range and is performed by the target, then `encodeResponse` throws a `MessageSizeException`
  -- into `backgroundWork`, which has no handler there, and the target is as the read left it.
  pub work_on_oversized :
      IsTarget cfg target
      → (c : ReadSeqCommand) (s after : S) (words : List ℕ) → IsWire cfg (read_seq c)
      → ¬ Sendable cfg serdes (read_seq c)
      → target.target_seq_read c.start_addr (zeros c.count) c.increment s ≡ (after, ok words)
      → work_on target calculate cfg serdes (wire calculate cfg (read_seq c)) s
        ≡ (after, throw message_size)
  unfolding work_on answer
  work_on_oversized t c s after words fits no_room done =
      let w = IsUsable-Widths u in
      let span : IsSpan cfg (length (zeros c.count)) words =
        Ensures-eq-ok (IsSpan cfg (length (zeros c.count))) _
          (t.seq_read_sound c.start_addr (zeros c.count) c.increment s) (ap (λ x. x.1) done) in
      let same : length words ≡ c.count = span.0 ∙ length-zeros c.count in
      rw (
        decode_command-wire cfg w calculate lawful (read_seq c) fits,
        done,
        encode_response_refuses calculate cfg lawful w serdes v
            (read_seq_ack (record { transaction_id = c.transaction_id; values = words }))
            λ room. no_room (
              let sized = simp lengths at room.0 in
              let counted = room.1 in
              (
                subst
                    (λ n.
                      2 + cfg.length_bytes + n * cfg.data_bytes + cfg.crc_bytes
                      ≤ serdes.max_message_size)
                    same (omega (arith, sized)),
                subst (λ n. n ≤ numeric_max cfg.length_size) same counted,
              )),
      )
