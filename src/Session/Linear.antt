-- ===== src/Session/Linear.antt =====
-- A session as a sequence of commands that the target performs.
use rap_cpp.Base.{
  ◌+◌, ◌≡◌, refl, sym, ap, ◌∙◌, subst, List, [], ◌∷◌, ◌++◌, append-nil, map, map-append, length,
  length-append, eq-nil_of_length, arith,
}
use rap_cpp.Configuration.{Cfg, IsUsable, IsUsable-Widths}
use rap_cpp.Result.{ok}
use rap_cpp.Interfaces.{IRegisterTarget}
use rap_cpp.Messages.{Command}
use rap_cpp.Messages.Response.{Response}
use rap_cpp.Serdes.Size.{Serdes}
use rap_cpp.Serdes.Buffer.{Buffer, Calculate, IsCrc}
use rap_cpp.Serdes.Limits.{IsSerdes}
use rap_cpp.Serdes.Response.Wire.{response_wire}
use rap_cpp.Serdes.Response.Decode.{decode_response}
use rap_cpp.Serdes.Response.Decoded.{decode_response-wire}
use rap_cpp.PairedIpc.{IpcTransportQueue, pop}
use rap_cpp.ServerAdapter.Target.{IsTarget}
use rap_cpp.ServerAdapter.Answers.{IsReply}
use rap_cpp.Session.System.{Sent, Session, waiting, init, Reach}
use rap_cpp.Session.Invariant.{IsLag-of, pop_ok}
use rap_cpp.Session.Log.{Performed, Performed-entry, IsLastCall, hand}
use rap_cpp.Session.LogWorker.{map-cons}
use rap_cpp.Session.Reachable.{Reach-Inv}
use rap_cpp.Session.LogClient.{Reach-Log}

-- The last entry of a log, from its last command and its last response.
last_entry :
    (log : List (Command × Response)) (earlier : List Command) (c : Command)
    (before : List Response) (r : Response)
    → map (λ e. e.0) log ≡ earlier ++ (c ∷ [])
    → map (λ e. e.1) log ≡ before ++ (r ∷ [])
    → (log' : List (Command × Response)) × (log ≡ log' ++ ((c, r) ∷ []))
last_entry [] [] c before r h k = absurd (cc)
last_entry [] (d ∷ ds) c before r h k = absurd (cc)
last_entry (e ∷ []) [] c [] r h k = ([], cc)
last_entry (e ∷ f ∷ log) (d ∷ ds) c (q ∷ qs) r h k =
    let (log', split) = last_entry (f ∷ log) ds c qs r (cc) (cc) in
    (e ∷ log', ap (λ l. e ∷ l) split)
last_entry (e ∷ []) (d ∷ ds) c before r h k =
    absurd (omega (arith, ap length h, length-append ds (c ∷ [])))
last_entry (e ∷ f ∷ log) [] c before r h k = absurd (cc)
last_entry (e ∷ []) [] c (q ∷ qs) r h k =
    absurd (omega (arith, ap length k, length-append qs (r ∷ [])))
last_entry (e ∷ f ∷ log) (d ∷ ds) c [] r h k = absurd (cc)

module _ (calculate : Calculate) (cfg : Cfg) (lawful : IsCrc calculate) (u : IsUsable cfg)
    (serdes : Serdes) (v : IsSerdes serdes) {S : Type 0} (target : IRegisterTarget S)
    (t : IsTarget cfg target) (s : S) where
  -- In any interleaving in which the client has sent only commands whose fields fit the wire and
  -- has not timed out yet, the target has performed the commands of all calls, one after the other
  -- in the order of the calls, starting in the state `s`; the buffer that the client takes is
  -- decoded to the response that the last of them, its own, was performed with, which is a reply
  -- to it.
  pub linearized :
      (w : Session S) (x : Sent) (buf : Buffer) (rest : IpcTransportQueue)
      → Reach calculate cfg serdes target (init s) w
      → w.client ≡ waiting x
      → pop w.server.replies ≡ (rest, ok buf)
      → w.timeouts ≡ 0
      → (log : List (Command × Response)) × (r : Response) × Performed cfg serdes target s
          (log ++ ((x.command, r) ∷ []))
          w.server.device
        × (w.calls ≡ map (λ e. e.0) log ++ (x.command ∷ []))
        × (decode_response calculate cfg buf ≡ ok r)
        × IsReply cfg serdes x.command r
  linearized w x buf rest reached held popped none =
      let (took, l) = Reach-Log calculate cfg lawful u serdes v target t s w reached in
      let (stale, pending, late) =
        IsLag-of (Reach-Inv calculate cfg lawful u serdes v target t s w reached) held in
      let whole : buf ∷ (rest ++ hand w.server.worker)
          ≡ map (response_wire calculate cfg) l.outstanding =
        ap (λ q. q ++ hand w.server.worker) (sym (pop_ok w.server.replies popped)) ∙ l.replies in
      let (r, rs, split, head, tail) = map-cons (response_wire calculate cfg) l.outstanding whole in
      let one : length rs + length l.dropped + length l.queued ≡ 0 = omega (
        arith,
        l.count,
        ap length split,
        ap length pending,
        length-append stale (x ∷ []),
        late,
        none,
      ) in
      let no_more : rs ≡ [] = eq-nil_of_length rs (omega (arith, one)) in
      let no_dropped : l.dropped ≡ [] = eq-nil_of_length l.dropped (omega (arith, one)) in
      let no_queued : l.queued ≡ [] = eq-nil_of_length l.queued (omega (arith, one)) in
      let (earlier, made) = subst (λ pc. IsLastCall pc w.calls) held l.last in
      let calls : w.calls ≡ map (λ e. e.0) l.log =
        l.calls ∙ rw (no_dropped, no_queued, append-nil) refl in
      let (log, entries) =
        last_entry l.log earlier x.command l.before r (sym calls ∙ made)
          (l.responses ∙ rw (split, no_more) refl) in
      let performed =
        subst (λ es. Performed cfg serdes target s es w.server.device) entries l.performed in
      let is_reply =
        Performed-entry cfg serdes target s w.server.device log x.command r [] performed in
      (
        log,
        r,
        performed,
        calls ∙ ap (λ es. map (λ e. e.0) es) entries ∙ rw (map-append) refl,
        ap (decode_response calculate cfg) head
            ∙ decode_response-wire cfg (IsUsable-Widths u) calculate lawful r is_reply.fits,
        is_reply,
      )
