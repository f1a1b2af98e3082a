-- ===== src/Loop/Arrays.antt =====
-- The methods of the client that carry arrays, over a connection.
use rap_cpp.Base.{ℕ, ◌+◌, ◌≡◌, refl, ◌∙◌, true, false, List, length, ==_refl, arith}
use rap_cpp.Configuration.{Cfg, Widths, IsUsable, IsUsable-Widths}
use rap_cpp.Result.{Ensures-weaken}
use rap_cpp.Interfaces.{IRegisterTarget}
use rap_cpp.Messages.{Command, read_seq, write_seq}
use rap_cpp.Messages.Response.{read_seq_ack, write_seq_ack}
use rap_cpp.Messages.Relationship.{to_read_seq, to_write_seq}
use rap_cpp.Serdes.Size.{Serdes, to_unsigned}
use rap_cpp.Serdes.Buffer.{Calculate, IsCrc}
use rap_cpp.Serdes.Fields.{FitsIn}
use rap_cpp.Serdes.Limits.{IsSerdes}
use rap_cpp.Serdes.Command.Wire.{IsWire, Sendable}
use rap_cpp.ServerAdapter.{answer, zeros}
use rap_cpp.ServerAdapter.Target.{IsTarget}
use rap_cpp.ServerAdapter.Answers.{length-zeros}
use rap_cpp.RegisterTarget.Exchange.{Client, visit, get_next_txn_id, check_ifs}
use rap_cpp.RegisterTarget.Methods.{client_seq_write, client_seq_read}
use rap_cpp.Loop.{Connection, connection}
use rap_cpp.Loop.Exchange.{idle, exchange_settles}
use rap_cpp.Loop.Methods.{remote, returned}
use rap_cpp.Loop.Copy.{copied}
use native.Mathlib.Nat.{mod-eq_of_lt, pow-le-pow_right}

-- The commands that the methods send, with the id `n`.
abbrev pub seq_write_command : (n start_addr increment : ℕ) → List ℕ → Command
seq_write_command n start_addr increment words = write_seq (record {
  transaction_id = n;
  posted = false;
  start_addr = start_addr;
  increment = increment;
  values = words;
})

abbrev pub seq_read_command : (n start_addr increment count : ℕ) → Command
seq_read_command n start_addr increment count =
    read_seq
      (record { transaction_id = n; start_addr = start_addr; increment = increment; count = count })

-- A length that fits its bytes is not changed by the conversion to `LengthType`.
pub length_kept :
    (cfg : Cfg)
    → Widths cfg
    → (x : ℕ) → FitsIn cfg.length_bytes x
    → to_unsigned cfg.length_size x ≡ x
length_kept cfg w x h = mod-eq_of_lt (
    omega (
      arith,
      pow-le-pow_right {n = 256} (omega arith) {i = cfg.length_bytes} {j = cfg.length_size}
          w.length_wire.1,
    ))

module _ (calculate : Calculate) (cfg : Cfg) (lawful : IsCrc calculate) (u : IsUsable cfg)
    (serdes : Serdes) (v : IsSerdes serdes) {S : Type 0} (target : IRegisterTarget S)
    (t : IsTarget cfg target) (size : ℕ) (base : IRegisterTarget (Client (Connection S))) where
  -- On an idle connection, if the features allow the increment, all fields fit the wire and the
  -- packet is within the limit, then `seqWrite` does what the target of the server does, and
  -- returns if it returns; if it throws, `seqWrite` throws `OperationNakException` with status
  -- 0xFD.
  pub client_seq_write-remote :
      (n start_addr : ℕ) (words : List ℕ) (increment : ℕ) (s : S)
      → check_ifs cfg increment ≡ true
      → IsWire cfg (seq_write_command n start_addr increment words)
      → Sendable cfg serdes (seq_write_command n start_addr increment words)
      → client_seq_write calculate cfg serdes
          (connection calculate cfg serdes target)
          base
          start_addr
          words
          increment
          (idle size n s)
        ≡ remote size n (target.target_seq_write start_addr words increment s)
  unfolding client_seq_write get_next_txn_id answer visit
  client_seq_write-remote n start_addr words increment s feature fits room =
      let settles =
        exchange_settles calculate cfg lawful u serdes v target t size to_write_seq
          (seq_write_command n start_addr increment words) (to_unsigned 1 (n + 1)) s
          (λ _. record { transaction_id = n }) write_seq_ack _
          (target.target_seq_write start_addr words increment s) refl (λ x. rw ==_refl refl)
          (rw ==_refl refl) room fits in
      rw (feature, length_kept cfg (IsUsable-Widths u) increment fits.2, settles)
        (returned _ _ (λ _. tt) (target.target_seq_write start_addr words increment s).1
          (λ x. refl))

  -- On an idle connection, if the features allow the increment, all fields fit the wire and the
  -- response is within the limit, then `seqRead` does what the target of the server does with a
  -- span of zeros, and returns the words that it reads; if it throws, `seqRead` throws
  -- `OperationNakException` with status 0xFD.
  pub client_seq_read-remote :
      (n start_addr : ℕ) (out_data : List ℕ) (increment : ℕ) (s : S)
      → check_ifs cfg increment ≡ true
      → IsWire cfg (seq_read_command n start_addr increment (length out_data))
      → Sendable cfg serdes (seq_read_command n start_addr increment (length out_data))
      → client_seq_read calculate cfg serdes
          (connection calculate cfg serdes target)
          base
          start_addr
          out_data
          increment
          (idle size n s)
        ≡ remote size n (target.target_seq_read start_addr (zeros (length out_data)) increment s)
  unfolding client_seq_read get_next_txn_id answer visit
  client_seq_read-remote n start_addr out_data increment s feature fits room =
      let m = target.target_seq_read start_addr (zeros (length out_data)) increment s in
      let w = IsUsable-Widths u in
      let settles =
        exchange_settles calculate cfg lawful u serdes v target t size to_read_seq
          (seq_read_command n start_addr increment (length out_data)) (to_unsigned 1 (n + 1)) s
          (λ ws. record { transaction_id = n; values = ws }) read_seq_ack _ m refl
          (λ x. rw ==_refl refl) (rw ==_refl refl) room fits in
      rw
        (
          feature,
          length_kept cfg w increment fits.2,
          length_kept cfg w (length out_data) fits.3,
          settles,
        )
        (copied _ out_data m.1 _ (λ r. r.values) (λ x. refl)
          (Ensures-weaken _ _ m.1
            (t.seq_read_sound start_addr (zeros (length out_data)) increment s)
            λ ws h. h.0 ∙ length-zeros (length out_data)))
