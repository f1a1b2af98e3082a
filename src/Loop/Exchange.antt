-- ===== src/Loop/Exchange.antt =====
-- `doCmdResp` over a connection.
use rap_cpp.Base.{ℕ, ◌≡◌, refl, sym, ap, ◌∙◌, []}
use rap_cpp.Configuration.{Cfg, IsUsable, IsUsable-Widths}
use rap_cpp.Result.{Result, ok, throw, abort, operation_nak, ok-injective}
use rap_cpp.Calls.{and_then, or_else, return}
use rap_cpp.Interfaces.{IRegisterTarget}
use rap_cpp.Messages.{Command}
use rap_cpp.Messages.Response.{Response}
use rap_cpp.Messages.Relationship.{Answer}
use rap_cpp.Serdes.Size.{Serdes}
use rap_cpp.Serdes.Buffer.{Calculate, IsCrc}
use rap_cpp.Serdes.Limits.{IsSerdes}
use rap_cpp.Serdes.Command.Wire.{IsWire, Sendable, id_of}
use rap_cpp.Serdes.Command.Encoded.{encode_command-wire}
use rap_cpp.Serdes.Response.Decoded.{decode_response-wire}
use rap_cpp.PairedIpc.{ipc_send, ipc_recv, push, pop, one_year}
use rap_cpp.ServerAdapter.{answer, background_work}
use rap_cpp.ServerAdapter.Target.{IsTarget}
use rap_cpp.ServerAdapter.Answers.{work_on_answers}
use rap_cpp.RegisterTarget.Exchange.{Client, visit, do_cmd_resp}
use rap_cpp.Loop.{Connection, connection, connection_send, connection_recv}

-- A client whose connection is idle: no buffer is under way.
abbrev pub idle : {S : Type 0} → ℕ → ℕ → S → Client (Connection S)
idle size n s = record {
  next_txn_id = n;
  link = record {
    ipc = record { tx_queue = []; rx_queue = []; max_message_size = size; timeout = one_year };
    device = s;
  };
}

-- The result of a method of the target as it arrives at the client.
abbrev pub settled : {X A : Type 0} → (X → A) → Result X → Result A
settled mk (ok x) = ok (mk x)
settled mk (throw e) = throw (operation_nak 0xfd)
settled mk (abort x) = abort x

module _ (calculate : Calculate) (cfg : Cfg) (lawful : IsCrc calculate) (u : IsUsable cfg)
    (serdes : Serdes) (v : IsSerdes serdes) {S : Type 0} (target : IRegisterTarget S)
    (t : IsTarget cfg target) (size : ℕ) where
  exchange :
      {Ack : Type 0} (relationship : Response → Answer Ack) (cmd : Command) (n : ℕ) (s : S)
      → Sendable cfg serdes cmd
      → IsWire cfg cmd
      → (r : Response) × ((answer target cmd s).1 ≡ ok r)
        × (do_cmd_resp calculate cfg serdes
              (connection calculate cfg serdes target)
              relationship
              cmd
              (idle size n s)
            ≡ (idle size n (answer target cmd s).0, visit relationship (id_of cmd) r))
  unfolding do_cmd_resp connection_send connection_recv background_work ipc_send ipc_recv push pop
  exchange relationship cmd n s room fits =
      let w = IsUsable-Widths u in
      let (r, e, sent, is_reply) =
        work_on_answers calculate cfg lawful u serdes v target t cmd s room fits in
      (
        r,
        ap (λ x. x.1) e,
        rw (
          encode_command-wire calculate cfg lawful w serdes v cmd room,
          sent,
          decode_response-wire cfg w calculate lawful r is_reply.fits,
        ),
      )

  -- What `doCmdResp` returns, if the server calls `m` and answers by `ack` or by `nak`.
  pub exchange_settles :
      {X Ack : Type 0} (relationship : Response → Answer Ack) (cmd : Command) (n : ℕ) (s : S)
      (mk : X → Ack) (ack : Ack → Response) (nak : Response) (m : S × Result X)
      → answer target cmd s ≡ or_else (and_then m (λ x. return (mk x))) ack nak
      → ((x : X) → visit relationship (id_of cmd) (ack (mk x)) ≡ ok (mk x))
      → visit relationship (id_of cmd) nak ≡ throw (operation_nak 0xfd)
      → Sendable cfg serdes cmd
      → IsWire cfg cmd
      → do_cmd_resp calculate cfg serdes
          (connection calculate cfg serdes target)
          relationship
          cmd
          (idle size n s)
        ≡ (idle size n m.0, settled mk m.1)
  exchange_settles relationship cmd n s mk ack nak (s', ok x) called acked naked room fits =
      let (r, e, done) = exchange relationship cmd n s room fits in
      let same : ack (mk x) ≡ r = ok-injective (ap (λ p. p.1) (sym called) ∙ e) in
      done ∙ rw (called, ← same, acked x) refl
  exchange_settles relationship cmd n s mk ack nak (s', throw x) called acked naked room fits =
      let (r, e, done) = exchange relationship cmd n s room fits in
      let same : nak ≡ r = ok-injective (ap (λ p. p.1) (sym called) ∙ e) in
      done ∙ rw (called, ← same, naked) refl
  exchange_settles relationship cmd n s mk ack nak (s', abort x) called acked naked room fits =
      let (r, e, done) = exchange relationship cmd n s room fits in
      absurd (let bad : abort x ≡ ok r = ap (λ p. p.1) (sym called) ∙ e in cc)
