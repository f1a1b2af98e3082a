-- ===== src/Loop/Methods.antt =====
-- The methods of the client for one word, over a connection.
use rap_cpp.Base.{ℕ, ◌+◌, ◌<◌, ◌≡◌, refl, ap, ◌∙◌, Bool, true, false, not, if◌then◌else◌, ==_refl}
use rap_cpp.Configuration.{Cfg, IsUsable}
use rap_cpp.Result.{Result, ok, throw, abort}
use rap_cpp.Calls.{Call, and_then, return}
use rap_cpp.Interfaces.{IRegisterTarget}
use rap_cpp.Messages.{read_single, write_single, read_modify_write}
use rap_cpp.Messages.Response.{read_single_ack, write_single_ack, rmw_ack}
use rap_cpp.Messages.Relationship.{to_read_single, to_write_single, to_read_modify_write}
use rap_cpp.Serdes.Size.{Serdes, to_unsigned}
use rap_cpp.Serdes.Buffer.{Calculate, IsCrc}
use rap_cpp.Serdes.Fields.{FitsIn}
use rap_cpp.Serdes.Limits.{IsSerdes}
use rap_cpp.ServerAdapter.{answer}
use rap_cpp.ServerAdapter.Target.{IsTarget}
use rap_cpp.RegisterTarget.Exchange.{Client, visit, get_next_txn_id}
use rap_cpp.RegisterTarget.Methods.{client_write, client_read, client_read_modify_write}
use rap_cpp.Loop.{Connection, connection}
use rap_cpp.Loop.Exchange.{idle, settled, exchange_settles}

-- What a call of the client does, if a call of the target does `m`: the target is then in the same
-- state, the id is the next one, the result is the same, and an exception of the target arrives
-- as an `OperationNakException` of status 0xFD.
abbrev pub remote : {S X : Type 0} → ℕ → ℕ → S × Result X → Client (Connection S) × Result X
remote size n m = (idle size (to_unsigned 1 (n + 1)) m.0, settled (λ x. x) m.1)

-- A method of a feature that the configuration has.
pub supported :
    {A : Type 0} {feature : Bool} → feature ≡ true → (x y : A) → (if not feature then x else y) ≡ y
supported {feature = true} h x y = refl
supported {feature = false} h x y = cc

-- Of the acknowledgement the method keeps `g`.
pub returned :
    {C A X : Type 0} (c : C) (mk : X → A) (g : A → X) (r : Result X)
    → ((x : X) → g (mk x) ≡ x)
    → and_then (c, settled mk r) (λ a. return (g a)) ≡ (c, settled (λ x. x) r)
returned c mk g (ok x) h = ap (λ y. (c, ok y)) (h x)
returned c mk g (throw e) h = refl
returned c mk g (abort x) h = refl

module _ (calculate : Calculate) (cfg : Cfg) (lawful : IsCrc calculate) (u : IsUsable cfg)
    (serdes : Serdes) (v : IsSerdes serdes) {S : Type 0} (target : IRegisterTarget S)
    (t : IsTarget cfg target) (size : ℕ) (base : IRegisterTarget (Client (Connection S))) where
  -- On an idle connection, `write` of an address and a word that fit the wire does what the target
  -- of the server does, and returns if it returns; if it throws, `write` throws
  -- `OperationNakException` with status 0xFD.
  pub client_write-remote :
      (n addr word : ℕ) (s : S)
      → n < 256
      → FitsIn cfg.address_bytes addr
      → FitsIn cfg.data_bytes word
      → client_write calculate cfg serdes
          (connection calculate cfg serdes target)
          base
          addr
          word
          (idle size n s)
        ≡ remote size n (target.target_write addr word s)
  unfolding client_write get_next_txn_id answer visit
  client_write-remote n addr word s byte fits_addr fits_word =
      let settles =
        exchange_settles calculate cfg lawful u serdes v target t size to_write_single
          (write_single (record { transaction_id = n; posted = false; addr = addr; value = word }))
          (to_unsigned 1 (n + 1)) s (λ _. record { transaction_id = n }) write_single_ack _
          (target.target_write addr word s) refl (λ x. rw ==_refl refl) (rw ==_refl refl) tt
          (byte, fits_addr, fits_word) in
      rw settles (returned _ _ (λ _. tt) (target.target_write addr word s).1 (λ x. refl))

  -- On an idle connection, `read` of an address that fits the wire does what the target of the
  -- server does, and returns the word that it returns; if it throws, `read` throws
  -- `OperationNakException` with status 0xFD.
  pub client_read-remote :
      (n addr : ℕ) (s : S)
      → n < 256
      → FitsIn cfg.address_bytes addr
      → client_read calculate cfg serdes
          (connection calculate cfg serdes target)
          base
          addr
          (idle size n s)
        ≡ remote size n (target.target_read addr s)
  unfolding client_read get_next_txn_id answer visit
  client_read-remote n addr s byte fits_addr =
      let settles =
        exchange_settles calculate cfg lawful u serdes v target t size to_read_single
          (read_single (record { transaction_id = n; addr = addr })) (to_unsigned 1 (n + 1)) s
          (λ w. record { transaction_id = n; value = w }) read_single_ack _
          (target.target_read addr s) refl (λ x. rw ==_refl refl) (rw ==_refl refl) tt
          (byte, fits_addr) in
      rw settles (returned _ _ (λ r. r.value) (target.target_read addr s).1 (λ x. refl))

  -- On an idle connection, and with the feature, `readModifyWrite` of an address, a word and a mask
  -- that fit the wire does what the target of the server does, and returns if it returns; if it
  -- throws, `readModifyWrite` throws `OperationNakException` with status 0xFD.
  pub client_read_modify_write-remote :
      (n addr word mask : ℕ) (s : S)
      → cfg.feature_read_modify_write ≡ true
      → n < 256
      → FitsIn cfg.address_bytes addr
      → FitsIn cfg.data_bytes word
      → FitsIn cfg.data_bytes mask
      → client_read_modify_write calculate cfg serdes
          (connection calculate cfg serdes target)
          base
          addr
          word
          mask
          (idle size n s)
        ≡ remote size n (target.target_read_modify_write addr word mask s)
  unfolding client_read_modify_write get_next_txn_id answer visit
  client_read_modify_write-remote n addr word mask s feature byte fits_addr fits_word fits_mask =
      let settles =
        exchange_settles calculate cfg lawful u serdes v target t size to_read_modify_write
          (read_modify_write
            (record { transaction_id = n; posted = false; addr = addr; value = word; mask = mask }))
          (to_unsigned 1 (n + 1)) s (λ _. record { transaction_id = n }) rmw_ack _
          (target.target_read_modify_write addr word mask s) refl (λ x. rw ==_refl refl)
          (rw ==_refl refl) tt (byte, fits_addr, fits_word, fits_mask) in
      ap (λ (f : Call (Client (Connection S)) (Unit {0})). f (idle size n s))
        (supported feature _ _)
      ∙ rw settles
          (returned _ _ (λ _. tt) (target.target_read_modify_write addr word mask s).1 (λ x. refl))
