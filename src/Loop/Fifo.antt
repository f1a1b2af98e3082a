-- ===== src/Loop/Fifo.antt =====
-- The methods of the client on a FIFO, over a connection.
use rap_cpp.Base.{ap, ℕ, ◌+◌, ◌≡◌, refl, ◌∙◌, true, List, length, ==_refl}
use rap_cpp.Configuration.{Cfg, IsUsable, IsUsable-Widths}
use rap_cpp.Result.{Ensures-weaken}
use rap_cpp.Calls.{Call}
use rap_cpp.Interfaces.{IRegisterTarget}
use rap_cpp.Messages.Response.{read_seq_ack, write_seq_ack}
use rap_cpp.Messages.Relationship.{to_read_seq, to_write_seq}
use rap_cpp.Serdes.Size.{Serdes, to_unsigned}
use rap_cpp.Serdes.Buffer.{Calculate, IsCrc}
use rap_cpp.Serdes.Limits.{IsSerdes}
use rap_cpp.Serdes.Command.Wire.{IsWire, Sendable}
use rap_cpp.ServerAdapter.{answer, zeros}
use rap_cpp.ServerAdapter.Target.{IsTarget}
use rap_cpp.ServerAdapter.Answers.{length-zeros}
use rap_cpp.RegisterTarget.Exchange.{Client, visit, get_next_txn_id}
use rap_cpp.RegisterTarget.Methods.{client_fifo_write, client_fifo_read}
use rap_cpp.Loop.{Connection, connection}
use rap_cpp.Loop.Exchange.{idle, exchange_settles}
use rap_cpp.Loop.Methods.{supported, remote, returned}
use rap_cpp.Loop.Copy.{copied}
use rap_cpp.Loop.Arrays.{length_kept, seq_write_command, seq_read_command}

module _ (calculate : Calculate) (cfg : Cfg) (lawful : IsCrc calculate) (u : IsUsable cfg)
    (serdes : Serdes) (v : IsSerdes serdes) {S : Type 0} (target : IRegisterTarget S)
    (t : IsTarget cfg target) (size : ℕ) (base : IRegisterTarget (Client (Connection S))) where
  -- On an idle connection, with the feature, and if all fields fit the wire and the packet is
  -- within the limit, `fifoWrite` does what `seqWrite` of increment 0 on the target of the server
  -- does, and returns if it returns; if it throws, `fifoWrite` throws `OperationNakException` with
  -- status 0xFD.
  pub client_fifo_write-remote :
      (n fifo_addr : ℕ) (words : List ℕ) (s : S)
      → cfg.feature_fifo ≡ true
      → IsWire cfg (seq_write_command n fifo_addr 0 words)
      → Sendable cfg serdes (seq_write_command n fifo_addr 0 words)
      → client_fifo_write calculate cfg serdes
          (connection calculate cfg serdes target)
          base
          fifo_addr
          words
          (idle size n s)
        ≡ remote size n (target.target_seq_write fifo_addr words 0 s)
  unfolding client_fifo_write get_next_txn_id answer visit
  client_fifo_write-remote n fifo_addr words s feature fits room =
      let settles =
        exchange_settles calculate cfg lawful u serdes v target t size to_write_seq
          (seq_write_command n fifo_addr 0 words) (to_unsigned 1 (n + 1)) s
          (λ _. record { transaction_id = n }) write_seq_ack _
          (target.target_seq_write fifo_addr words 0 s) refl (λ x. rw ==_refl refl)
          (rw ==_refl refl) room fits in
      ap (λ (f : Call (Client (Connection S)) (Unit {0})). f (idle size n s))
        (supported feature _ _)
      ∙ rw settles
          (returned _ _ (λ _. tt) (target.target_seq_write fifo_addr words 0 s).1 (λ x. refl))

  -- On an idle connection, if all fields fit the wire and the response is within the limit,
  -- `fifoRead` does what `seqRead` of increment 0 on the target of the server does with a span of
  -- zeros, and returns the words that it reads; if it throws, `fifoRead` throws
  -- `OperationNakException` with status 0xFD. The feature is not asked for.
  pub client_fifo_read-remote :
      (n fifo_addr : ℕ) (out_data : List ℕ) (s : S)
      → IsWire cfg (seq_read_command n fifo_addr 0 (length out_data))
      → Sendable cfg serdes (seq_read_command n fifo_addr 0 (length out_data))
      → client_fifo_read calculate cfg serdes
          (connection calculate cfg serdes target)
          base
          fifo_addr
          out_data
          (idle size n s)
        ≡ remote size n (target.target_seq_read fifo_addr (zeros (length out_data)) 0 s)
  unfolding client_fifo_read get_next_txn_id answer visit
  client_fifo_read-remote n fifo_addr out_data s fits room =
      let m = target.target_seq_read fifo_addr (zeros (length out_data)) 0 s in
      let w = IsUsable-Widths u in
      let settles =
        exchange_settles calculate cfg lawful u serdes v target t size to_read_seq
          (seq_read_command n fifo_addr 0 (length out_data)) (to_unsigned 1 (n + 1)) s
          (λ ws. record { transaction_id = n; values = ws }) read_seq_ack _ m refl
          (λ x. rw ==_refl refl) (rw ==_refl refl) room fits in
      rw (length_kept cfg w (length out_data) fits.3, settles)
        (copied _ out_data m.1 _ (λ r. r.values) (λ x. refl)
          (Ensures-weaken _ _ m.1 (t.seq_read_sound fifo_addr (zeros (length out_data)) 0 s)
            λ ws h. h.0 ∙ length-zeros (length out_data)))
