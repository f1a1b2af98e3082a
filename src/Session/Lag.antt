-- ===== src/Session/Lag.antt =====
-- Which response `doCmdResp` takes for a command, after so many timeouts.
use rap_cpp.Base.{
  ℕ, suc, ◌+◌, ◌%◌, ◌<◌, ◌≡◌, refl, sym, ap, ◌∙◌, ◌≢◌, subst, map, map-append, List, [], ◌∷◌, ◌++◌,
  All, arith,
}
use rap_cpp.Configuration.{Cfg, IsUsable, IsUsable-Widths}
use rap_cpp.Result.{ok, throw, rap_protocol}
use rap_cpp.Interfaces.{IRegisterTarget}
use rap_cpp.Messages.{Command}
use rap_cpp.Messages.Response.{Response}
use rap_cpp.Messages.Relationship.{Answer, is_other}
use rap_cpp.Serdes.Size.{Serdes}
use rap_cpp.Serdes.Buffer.{Buffer, Calculate, IsCrc}
use rap_cpp.Serdes.Limits.{IsSerdes}
use rap_cpp.Serdes.Command.Wire.{id_of}
use rap_cpp.Serdes.Response.Decode.{decode_response}
use rap_cpp.Serdes.Response.Decoded.{decode_response-wire}
use rap_cpp.Serdes.Response.Wire.{response_id, response_wire}
use rap_cpp.PairedIpc.{IpcTransportQueue, pop}
use rap_cpp.RegisterTarget.Exchange.{visit}
use rap_cpp.RegisterTarget.Visit.{Accepts, visit_other, visit_own}
use rap_cpp.ServerAdapter.Target.{IsTarget}
use rap_cpp.ServerAdapter.Answers.{IsKind, IsReply}
use rap_cpp.Session.System.{Sent, Session, waiting, init, tail_of, Reach}
use rap_cpp.Session.Pending.{IsSent, Ascending, Ascending-last, IsLag}
use rap_cpp.Session.Flow.{Flow-of, Flow-oldest}
use rap_cpp.Session.Invariant.{Inv, IsLag-of, pop_ok}
use rap_cpp.Session.Reachable.{Reach-Inv}
use rap_cpp.Session.Log.{Performed, Performed-entry, entry_at, hand}
use rap_cpp.Session.LogWorker.{map-cons}
use rap_cpp.Session.LogClient.{Reach-Log}

All-last : (P : Sent → Type 0) (xs : List Sent) (x : Sent) → All P (xs ++ (x ∷ [])) → P x
All-last P [] x h = h.0
All-last P (y ∷ ys) x h = All-last P ys x h.1

-- After a timeout the oldest pending command is older than the one that the client waits for.
lag_some :
    (x y : Sent) (ys : List Sent) (timeouts hi : ℕ)
    → 0 < timeouts
    → IsLag (waiting x) (y ∷ ys) timeouts
    → Ascending 0 (y ∷ ys) hi
    → y.serial < x.serial
lag_some x y ys timeouts hi some ([], whole, count) up = absurd (omega arith)
lag_some x y ys timeouts hi some (z ∷ zs, whole, count) up =
    let e : ys ≡ zs ++ (x ∷ []) = cc in
    omega (
      arith,
      Ascending-last (suc y.serial) zs x hi (subst (λ l. Ascending (suc y.serial) l hi) e up.1),
    )

last_of :
    {x y : Sent} {ys : List Sent} (stale : List Sent)
    → y ∷ ys ≡ stale ++ (x ∷ [])
    → y.serial < x.serial
    → (skipped : List Sent) × (ys ≡ skipped ++ (x ∷ []))
last_of {x} {y} [] whole older =
    let same : y ≡ x = cc in absurd (omega (arith, older, ap (λ z. z.serial) same))
last_of (z ∷ zs) whole older = (zs, cc)

module _ (calculate : Calculate) (cfg : Cfg) (lawful : IsCrc calculate) (u : IsUsable cfg)
    (serdes : Serdes) (v : IsSerdes serdes) {S : Type 0} (target : IRegisterTarget S)
    (t : IsTarget cfg target) (s : S) (w : Session S)
    (reached : Reach calculate cfg serdes target (init s) w) (x : Sent) (buf : Buffer)
    (rest : IpcTransportQueue) (held : w.client ≡ waiting x)
    (popped : pop w.server.replies ≡ (rest, ok buf)) where
  inv : Inv calculate cfg serdes w
  inv = Reach-Inv calculate cfg lawful u serdes v target t s w reached

  -- The buffer is the packet of a reply to the oldest pending command.
  oldest :
      (y : Sent) × (w.pending ≡ y ∷ tail_of w.pending)
      × ((r : Response) × (decode_response calculate cfg buf ≡ ok r)
          × IsReply cfg serdes y.command r)
  oldest =
      let (y, split, (r, whole, is_reply), rest_flow) =
        Flow-oldest calculate cfg serdes buf rest w.server.worker w.server.commands w.pending (
          Flow-of calculate cfg serdes w.server w.pending inv.flow (pop_ok w.server.replies popped)
            refl refl) in
      (
        y,
        split,
        (
          r,
          ap (decode_response calculate cfg) whole
              ∙ decode_response-wire cfg (IsUsable-Widths u) calculate lawful r is_reply.fits,
          is_reply,
        ),
      )

  id_waiting : id_of x.command ≡ x.serial % 256
  id_waiting =
      let (stale, whole, count) = IsLag-of inv held in
      (All-last (IsSent cfg serdes) stale x (subst (All (IsSent cfg serdes)) whole inv.sent)).id

  module _ (y : Sent) (ys : List Sent) (pending : w.pending ≡ y ∷ ys) where
    reply_to_first :
        (r : Response) × (decode_response calculate cfg buf ≡ ok r)
        × IsReply cfg serdes y.command r
        × (response_id r ≡ y.serial % 256)
    reply_to_first =
        let (z, split, (r, decoded, is_reply)) = oldest in
        let same : z ≡ y = cc in
        let sent = subst (All (IsSent cfg serdes)) pending inv.sent in
        let reply = subst (λ c. IsReply cfg serdes c.command r) same is_reply in
        (r, decoded, reply, reply.same_id ∙ sent.0.id)

    -- Let the fields of all commands that were sent fit the wire. After any timeout the buffer that
    -- the client takes is decoded to a reply to an earlier command, the oldest that it has not
    -- taken the response of; and if fewer than 256 ids were drawn from that one on, `doCmdResp`
    -- throws a `RapProtocolException` on it.
    pub out_of_sync :
        {Ack : Type 0} (relationship : Response → Answer Ack)
        → 0 < w.timeouts
        → x.serial < y.serial + 256
        → (r : Response) × (decode_response calculate cfg buf ≡ ok r)
          × IsReply cfg serdes y.command r
          × (y.serial < x.serial)
          × (visit relationship (id_of x.command) r ≡ throw rap_protocol)
    out_of_sync relationship late near =
        let (r, decoded, is_reply, id) = reply_to_first in
        let older : y.serial < x.serial =
          lag_some x y ys w.timeouts w.drawn late
            (subst (λ p. IsLag (waiting x) p w.timeouts) pending (IsLag-of inv held))
            (subst (λ p. Ascending 0 p w.drawn) pending inv.ascending) in
        (
          r,
          decoded,
          is_reply,
          older,
          visit_other relationship (id_of x.command) r (λ e. omega (arith, id_waiting, id, e)),
        )

    newest : y.serial < x.serial → (skipped : List Sent) × (ys ≡ skipped ++ (x ∷ []))
    newest older =
        let (stale, whole, count) = IsLag-of inv held in last_of stale (sym pending ∙ whole) older

    -- Let the fields of all commands that were sent fit the wire, let the oldest command whose
    -- response the client has not taken be 256 ids before the one that it waits for, and let the
    -- newer call take the kinds of response that answer the older command, as a call of the same
    -- method does. Then the buffer that it takes is decoded to the response that the target
    -- performed the older command with, a command that stands before the newer one among the
    -- calls, and `doCmdResp` accepts it for the newer one: it returns the acknowledgement, or
    -- throws the `OperationNakException` with the status of the negative acknowledgement.
    pub stale_accepted :
        {Ack : Type 0} (relationship : Response → Answer Ack)
        → ((r : Response) → IsKind y.command r → relationship r ≢ is_other)
        → x.serial ≡ y.serial + 256
        → (log : List (Command × Response)) × (later : List (Command × Response)) × (skipped : List
            Command)
          × (r : Response) × Performed cfg serdes target s
              (log ++ ((y.command, r) ∷ later))
              w.server.device
          × (w.calls ≡ map (λ e. e.0) log ++ (y.command ∷ (skipped ++ (x.command ∷ []))))
          × (decode_response calculate cfg buf ≡ ok r)
          × Accepts relationship (id_of x.command) r
    stale_accepted relationship same_kind far =
        let (skipped, last) = newest (omega (arith, far)) in
        let (took, l) = Reach-Log calculate cfg lawful u serdes v target t s w reached in
        let whole : buf ∷ (rest ++ hand w.server.worker)
            ≡ map (response_wire calculate cfg) l.outstanding =
          ap (λ q. q ++ hand w.server.worker) (sym (pop_ok w.server.replies popped)) ∙ l.replies in
        let (r, rs, split, head, tail) =
          map-cons (response_wire calculate cfg) l.outstanding whole in
        let calls : w.calls ≡ l.settled ++ (y.command ∷ map (λ z. z.command) ys) =
          l.order ∙ ap (λ p. l.settled ++ map (λ z. z.command) p) pending in
        let (log, later, entries, settled) =
          entry_at l.log (l.dropped ++ l.queued) l.settled (map (λ z. z.command) ys) y.command
            l.before rs r (sym l.calls ∙ calls) (l.responses ∙ ap (λ p. l.before ++ p) split)
            l.level in
        let performed =
          subst (λ es. Performed cfg serdes target s es w.server.device) entries l.performed in
        let reply =
          Performed-entry cfg serdes target s w.server.device log y.command r later performed in
        let sent = subst (All (IsSent cfg serdes)) pending inv.sent in
        (
          log,
          later,
          map (λ z. z.command) skipped,
          r,
          performed,
          calls
              ∙ ap (λ p. l.settled ++ (y.command ∷ map (λ z. z.command) p)) last
              ∙ ap (λ p. l.settled ++ (y.command ∷ p))
                  (map-append (λ z. z.command) skipped (x ∷ []))
              ∙ ap (λ p. p ++ (y.command ∷ (map (λ z. z.command) skipped ++ (x.command ∷ []))))
                  (sym settled),
          ap (decode_response calculate cfg) head
              ∙ decode_response-wire cfg (IsUsable-Widths u) calculate lawful r reply.fits,
          visit_own relationship (id_of x.command) r
              (omega (arith, id_waiting, far, reply.same_id, sent.0.id))
              (same_kind r reply.same_kind),
        )
