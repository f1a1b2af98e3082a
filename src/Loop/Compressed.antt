-- ===== src/Loop/Compressed.antt =====
-- The compressed methods of the client, over a connection.
use rap_cpp.Base.{ℕ, ◌+◌, ◌≡◌, refl, ap, ◌∙◌, true, false, List, length, ◌==◌, ==_refl}
use rap_cpp.Configuration.{Cfg, IsUsable}
use rap_cpp.Result.{Ensures-weaken}
use rap_cpp.Calls.{Call}
use rap_cpp.Interfaces.{IRegisterTarget}
use rap_cpp.Messages.{Command, read_comp, write_comp}
use rap_cpp.Messages.Response.{read_comp_ack, write_comp_ack}
use rap_cpp.Messages.Relationship.{to_read_comp, to_write_comp}
use rap_cpp.Serdes.Size.{Serdes, to_unsigned}
use rap_cpp.Serdes.Buffer.{Calculate, IsCrc}
use rap_cpp.Serdes.Limits.{IsSerdes}
use rap_cpp.Serdes.Command.Wire.{IsWire, Sendable}
use rap_cpp.ServerAdapter.{answer, zeros}
use rap_cpp.ServerAdapter.Target.{IsTarget}
use rap_cpp.ServerAdapter.Answers.{length-zeros}
use rap_cpp.RegisterTarget.Exchange.{Client, visit, get_next_txn_id}
use rap_cpp.RegisterTarget.Methods.{client_comp_write, client_comp_read}
use rap_cpp.Loop.{Connection, connection}
use rap_cpp.Loop.Exchange.{idle, exchange_settles}
use rap_cpp.Loop.Methods.{remote, returned, supported}
use rap_cpp.Loop.Copy.{copied}

-- The commands that the methods send, with the id `n`.
abbrev pub comp_write_command : ℕ → List (ℕ × ℕ) → Command
comp_write_command n addr_data =
    write_comp (record { transaction_id = n; posted = false; addr_data = addr_data })

abbrev pub comp_read_command : ℕ → List ℕ → Command
comp_read_command n addresses = read_comp (record { transaction_id = n; addresses = addresses })

module _ (calculate : Calculate) (cfg : Cfg) (lawful : IsCrc calculate) (u : IsUsable cfg)
    (serdes : Serdes) (v : IsSerdes serdes) {S : Type 0} (target : IRegisterTarget S)
    (t : IsTarget cfg target) (size : ℕ) (base : IRegisterTarget (Client (Connection S))) where
  -- On an idle connection, with the feature, and if all fields fit the wire and the packet is
  -- within the limit, `compWrite` does what the target of the server does, and returns if it
  -- returns; if it throws, `compWrite` throws `OperationNakException` with status 0xFD.
  pub client_comp_write-remote :
      (n : ℕ) (addr_data : List (ℕ × ℕ)) (s : S)
      → cfg.feature_compressed ≡ true
      → IsWire cfg (comp_write_command n addr_data)
      → Sendable cfg serdes (comp_write_command n addr_data)
      → client_comp_write calculate cfg serdes
          (connection calculate cfg serdes target)
          base
          addr_data
          (idle size n s)
        ≡ remote size n (target.target_comp_write addr_data s)
  unfolding client_comp_write get_next_txn_id answer visit
  client_comp_write-remote n addr_data s feature fits room =
      let settles =
        exchange_settles calculate cfg lawful u serdes v target t size to_write_comp
          (comp_write_command n addr_data) (to_unsigned 1 (n + 1)) s
          (λ _. record { transaction_id = n }) write_comp_ack _
          (target.target_comp_write addr_data s) refl (λ x. rw ==_refl refl) (rw ==_refl refl) room
          fits in
      ap (λ (f : Call (Client (Connection S)) (Unit {0})). f (idle size n s))
        (supported feature _ _)
      ∙ rw settles (returned _ _ (λ _. tt) (target.target_comp_write addr_data s).1 (λ x. refl))

  -- On an idle connection, with the feature, for a span as long as the list of addresses, and if all
  -- fields fit the wire and command and response are within the limit, `compRead` does what the
  -- target of the server does with a span of zeros, and returns the words that it reads; if it
  -- throws, `compRead` throws `OperationNakException` with status 0xFD.
  pub client_comp_read-remote :
      (n : ℕ) (addresses out_data : List ℕ) (s : S)
      → cfg.feature_compressed ≡ true
      → length addresses ≡ length out_data
      → IsWire cfg (comp_read_command n addresses)
      → Sendable cfg serdes (comp_read_command n addresses)
      → client_comp_read calculate cfg serdes
          (connection calculate cfg serdes target)
          base
          addresses
          out_data
          (idle size n s)
        ≡ remote size n (target.target_comp_read addresses (zeros (length addresses)) s)
  unfolding client_comp_read get_next_txn_id answer visit
  client_comp_read-remote n addresses out_data s feature same fits room =
      let m = target.target_comp_read addresses (zeros (length addresses)) s in
      let settles =
        exchange_settles calculate cfg lawful u serdes v target t size to_read_comp
          (comp_read_command n addresses) (to_unsigned 1 (n + 1)) s
          (λ ws. record { transaction_id = n; values = ws }) read_comp_ack _ m refl
          (λ x. rw ==_refl refl) (rw ==_refl refl) room fits in
      let asserted : (length addresses == length out_data) ≡ true = rw (same, ==_refl) refl in
      rw asserted (
        ap (λ (f : Call (Client (Connection S)) (List ℕ)). f (idle size n s))
          (supported feature _ _)
        ∙ rw settles (
            copied _ out_data m.1 _ (λ r. r.values) (λ x. refl)
              (Ensures-weaken _ _ m.1 (t.comp_read_sound addresses (zeros (length addresses)) s)
                λ ws h. h.0 ∙ length-zeros (length addresses) ∙ same)))

  -- On an idle connection, with the feature, for a span as long as the list of addresses, and if all
  -- fields fit the wire and all packets are within the limit, `compWrite` does what the target of
  -- the server does, and `compRead` what it does with a span of zeros, of which it returns the words.
  -- If the target throws, both throw `OperationNakException` with status 0xFD.
  pub client_comp_write-client_comp_read :
      (n : ℕ) (addr_data : List (ℕ × ℕ)) (addresses out_data : List ℕ) (s : S)
      → cfg.feature_compressed ≡ true
      → length addresses ≡ length out_data
      → IsWire cfg (comp_write_command n addr_data)
      → Sendable cfg serdes (comp_write_command n addr_data)
      → IsWire cfg (comp_read_command n addresses)
      → Sendable cfg serdes (comp_read_command n addresses)
      → let link = connection calculate cfg serdes target in
        (client_comp_write calculate cfg serdes link base addr_data (idle size n s)
          ≡ remote size n (target.target_comp_write addr_data s))
        × (client_comp_read calculate cfg serdes link base addresses out_data (idle size n s)
            ≡ remote size n (target.target_comp_read addresses (zeros (length addresses)) s))
  client_comp_write-client_comp_read n addr_data addresses out_data s feature same fits room fits'
        room' =
      (
        client_comp_write-remote n addr_data s feature fits room,
        client_comp_read-remote n addresses out_data s feature same fits' room',
      )
