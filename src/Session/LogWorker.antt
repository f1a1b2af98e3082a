-- ===== src/Session/LogWorker.antt =====
-- The log of a session over the steps of the worker.
use rap_cpp.Base.{
  ◌≡◌, ◌≢◌, ◌⊎◌, inl, inr, refl, sym, ap, ◌∙◌, subst, List, [], ◌∷◌, ◌++◌, append_assoc, append-nil,
  map, map-append, All, length, length-append, arith,
}
use rap_cpp.Configuration.{Cfg, IsUsable}
use rap_cpp.Result.{ok, throw, ok-injective}
use rap_cpp.Interfaces.{IRegisterTarget}
use rap_cpp.Serdes.Size.{Serdes}
use rap_cpp.Serdes.Buffer.{Buffer, Calculate, IsCrc}
use rap_cpp.Serdes.Limits.{IsSerdes}
use rap_cpp.Serdes.Command.Wire.{wire}
use rap_cpp.Serdes.Response.Wire.{response_wire}
use rap_cpp.PairedIpc.{push, pop_or_stop}
use rap_cpp.ServerAdapter.{answer, work_on}
use rap_cpp.ServerAdapter.Target.{IsTarget}
use rap_cpp.ServerAdapter.Answers.{work_on_answers}
use rap_cpp.Session.Server.{
  Server, WorkerPc, listening, sending, returned, terminated, WorkerStep, take_command, work_throws,
  send_response, recv_throws, stop, stop_after_recv,
}
use rap_cpp.Session.System.{Session}
use rap_cpp.Session.Invariant.{pop_ok}
use rap_cpp.Session.Log.{Log, Performed-append, CanBeSent, hand}

-- What a list is mapped from that is mapped to a list with a head.
pub map-cons :
    {A B : Type 0} (f : A → B) (xs : List A) {b : B} {bs : List B}
    → b ∷ bs ≡ map f xs
    → (x : A) × (rest : List A) × (xs ≡ x ∷ rest) × (b ≡ f x) × (bs ≡ map f rest)
map-cons f [] h = absurd (cc)
map-cons f (x ∷ xs) h = (x, xs, refl, cc, cc)

nothing_dropped :
    {A : Type 0} {xs : List A} (pc : WorkerPc) {pc' : WorkerPc}
    → pc ≡ pc'
    → pc' ≢ returned
    → (pc ≡ returned) ⊎ (xs ≡ [])
    → xs ≡ []
nothing_dropped pc held other (inl e) = absurd (other (sym held ∙ e))
nothing_dropped pc held other (inr e) = e

module _ (calculate : Calculate) (cfg : Cfg) (lawful : IsCrc calculate) (u : IsUsable cfg)
    (serdes : Serdes) (v : IsSerdes serdes) {S : Type 0} (target : IRegisterTarget S)
    (t : IsTarget cfg target) (s : S) (took : List Buffer) where
  -- The worker takes the command `c`, and the target performs it.
  Log-take :
      {w : Session S} {buf out : Buffer} {rest : List Buffer} {after : S}
      → w.server.worker ≡ listening
      → w.server.commands ≡ buf ∷ rest
      → work_on target calculate cfg serdes buf w.server.device ≡ (after, ok out)
      → Log calculate cfg serdes target s took w
      → Log calculate cfg serdes target s took (record w {
        server = record w.server { worker = sending out; commands = rest; device = after };
      })
  Log-take {w} {buf} {out} {rest} {after} held queue worked l =
      let (c, cs, split, head, tail) =
        map-cons (wire calculate cfg) l.queued (sym queue ∙ l.queue) in
      let fits = subst (All (CanBeSent cfg serdes)) split l.fits in
      let (r, called, done, is_reply) =
        work_on_answers calculate cfg lawful u serdes v target t c w.server.device fits.0.0
          fits.0.1 in
      let same : ((answer target c w.server.device).0, ok (response_wire calculate cfg r))
          ≡ (after, ok out) =
        sym done
        ∙ ap (λ b. work_on target calculate cfg serdes b w.server.device) (sym head)
        ∙ worked in
      let state : (answer target c w.server.device).0 ≡ after = ap (λ p. p.0) same in
      let sent : response_wire calculate cfg r ≡ out = ok-injective (ap (λ p. p.1) same) in
      let none : l.dropped ≡ [] = nothing_dropped w.server.worker held (λ e. cc) l.kept in
      let plain : w.server.replies ≡ map (response_wire calculate cfg) l.outstanding =
        sym (append-nil w.server.replies)
        ∙ subst
            (λ pc. w.server.replies ++ hand pc ≡ map (response_wire calculate cfg) l.outstanding)
            held l.replies in
      record {
        log = l.log ++ ((c, r) ∷ []);
        dropped = [];
        queued = cs;
        settled = l.settled;
        before = l.before;
        outstanding = l.outstanding ++ (r ∷ []);
        performed =
            Performed-append cfg serdes target s w.server.device after l.log c r l.performed
              (called ∙ ap (λ a. (a, ok r)) state) is_reply;
        calls = l.calls ∙ rw (none, split, map-append, append_assoc) refl;
        queue = tail;
        fits = fits.1;
        kept = inr refl;
        responses = rw (map-append, l.responses, append_assoc) refl;
        replies = rw (plain, map-append, sent) refl;
        order = l.order;
        packets = l.packets;
        level = l.level;
        count =
            omega (
              arith,
              l.count,
              ap length none,
              ap length split,
              length-append l.outstanding (r ∷ []),
            );
        last = l.last;
      }

  -- The worker ends while it listens.
  Log-leave :
      {w : Session S} (pc : WorkerPc)
      → w.server.worker ≡ listening
      → hand pc ≡ []
      → Log calculate cfg serdes target s took w
      → Log calculate cfg serdes target s took
          (record w { server = record w.server { worker = pc } })
  Log-leave {w} pc held empty l = record {
    log = l.log;
    dropped = l.dropped;
    queued = l.queued;
    settled = l.settled;
    before = l.before;
    outstanding = l.outstanding;
    performed = l.performed;
    calls = l.calls;
    queue = l.queue;
    fits = l.fits;
    kept = inr (nothing_dropped w.server.worker held (λ e. cc) l.kept);
    responses = l.responses;
    replies = ap (λ h. w.server.replies ++ h) (empty ∙ ap hand (sym held)) ∙ l.replies;
    order = l.order;
    packets = l.packets;
    level = l.level;
    count = l.count;
    last = l.last;
  }

  -- It ends with a command that it has taken and does not perform.
  Log-drop :
      {w : Session S} {buf : Buffer} {rest : List Buffer}
      → w.server.worker ≡ listening
      → w.server.commands ≡ buf ∷ rest
      → Log calculate cfg serdes target s took w
      → Log calculate cfg serdes target s took
          (record w { server = record w.server { worker = returned; commands = rest } })
  Log-drop {w} {buf} {rest} held queue l =
      let (c, cs, split, head, tail) =
        map-cons (wire calculate cfg) l.queued (sym queue ∙ l.queue) in
      let none : l.dropped ≡ [] = nothing_dropped w.server.worker held (λ e. cc) l.kept in
      record {
        log = l.log;
        dropped = c ∷ [];
        queued = cs;
        settled = l.settled;
        before = l.before;
        outstanding = l.outstanding;
        performed = l.performed;
        calls = l.calls ∙ rw (none, split) refl;
        queue = tail;
        fits = (subst (All (CanBeSent cfg serdes)) split l.fits).1;
        kept = inl refl;
        responses = l.responses;
        replies = ap (λ h. w.server.replies ++ h) (ap hand (sym held)) ∙ l.replies;
        order = l.order;
        packets = l.packets;
        level = l.level;
        count = omega (arith, l.count, ap length none, ap length split);
        last = l.last;
      }

  pub WorkerStep-Log :
      {w : Session S} {q : Server S}
      → WorkerStep calculate cfg serdes target w.server q
      → Log calculate cfg serdes target s took w
      → Log calculate cfg serdes target s took (record w { server = q })
  unfolding push pop_or_stop
  WorkerStep-Log {w} (take_command held popped worked) l =
      Log-take held (pop_ok w.server.commands popped) worked l
  WorkerStep-Log {w} (work_throws {buf} {e} held popped worked) l =
      let (c, cs, split, head, tail) =
        map-cons (wire calculate cfg) l.queued (sym (pop_ok w.server.commands popped) ∙ l.queue) in
      let fits = subst (All (CanBeSent cfg serdes)) split l.fits in
      let (r, called, done, is_reply) =
        work_on_answers calculate cfg lawful u serdes v target t c w.server.device fits.0.0
          fits.0.1 in
      let same : (work_on target calculate cfg serdes (wire calculate cfg c) w.server.device).1
          ≡ throw e =
        ap (λ b. (work_on target calculate cfg serdes b w.server.device).1) (sym head)
        ∙ ap (λ p. p.1) worked in
      let bad : ok (response_wire calculate cfg r) ≡ throw e = sym (ap (λ p. p.1) done) ∙ same in
      absurd (cc)
  WorkerStep-Log {w} (send_response {out} held) l = record {
    log = l.log;
    dropped = l.dropped;
    queued = l.queued;
    settled = l.settled;
    before = l.before;
    outstanding = l.outstanding;
    performed = l.performed;
    calls = l.calls;
    queue = l.queue;
    fits = l.fits;
    kept = inr (nothing_dropped w.server.worker held (λ e. cc) l.kept);
    responses = l.responses;
    replies =
        append-nil (w.server.replies ++ (out ∷ []))
        ∙ subst
            (λ pc. w.server.replies ++ hand pc ≡ map (response_wire calculate cfg) l.outstanding)
            held l.replies;
    order = l.order;
    packets = l.packets;
    level = l.level;
    count = l.count;
    last = l.last;
  }
  WorkerStep-Log {w} (recv_throws {e} held popped) l = Log-leave (terminated e) held refl l
  WorkerStep-Log {w} (stop held) l = Log-leave returned held refl l
  WorkerStep-Log {w} (stop_after_recv {buf} {rest} held popped) l =
      Log-drop held (pop_ok w.server.commands popped) l
