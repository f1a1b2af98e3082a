-- ===== src/Session/LogClient.antt =====
-- The log of a session over the steps of the client, and over those of both threads.
use rap_cpp.Base.{
  ℕ, suc, ◌<◌, ◌≡◌, inr, refl, sym, ap, ◌∙◌, List, [], ◌∷◌, ◌++◌, append_assoc, map, map-append,
  All-append, length, length-append, arith,
}
use rap_cpp.Result.{ok}
use rap_cpp.Serdes.Command.Wire.{wire}
use rap_cpp.Configuration.{Cfg, IsUsable}
use rap_cpp.Interfaces.{IRegisterTarget}
use rap_cpp.Serdes.Size.{Serdes}
use rap_cpp.Serdes.Buffer.{Buffer, Calculate, IsCrc}
use rap_cpp.Serdes.Limits.{IsSerdes}
use rap_cpp.Serdes.Command.Bounds.{encode_command_ok}
use rap_cpp.Serdes.Response.Wire.{response_wire}
use rap_cpp.PairedIpc.{IpcTransportQueue, push, pop}
use rap_cpp.ServerAdapter.Target.{IsTarget}
use rap_cpp.Session.System.{
  Sent, ClientPc, idle, Session, init, tail_of, ClientStep, refuse, send, take_response, time_out,
  Reach, here, client_then, worker_then,
}
use rap_cpp.Session.Invariant.{pop_ok}
use rap_cpp.Session.Log.{Log, CanBeSent, IsLastCall, hand}
use rap_cpp.Session.LogWorker.{WorkerStep-Log, map-cons}

length-tail_of : (xs : List Sent) {n : ℕ} → length xs ≡ suc n → length (tail_of xs) ≡ n
length-tail_of [] h = absurd (omega arith)
length-tail_of (x ∷ xs) h = omega arith

first_of : (xs : List Sent) → 0 < length xs → (z : Sent) × (xs ≡ z ∷ tail_of xs)
first_of [] h = absurd (omega arith)
first_of (x ∷ xs) h = (x, refl)

module _ (calculate : Calculate) (cfg : Cfg) (serdes : Serdes) {S : Type 0}
    (target : IRegisterTarget S) (s : S) {took : List Buffer} {w : Session S} where
  -- What the client does on its own.
  pub Log-own :
      (n drawn timeouts : ℕ) (pc : ClientPc)
      → IsLastCall pc w.calls
      → Log calculate cfg serdes target s took w
      → Log calculate cfg serdes target s took
          (record w { next_txn_id = n; drawn = drawn; timeouts = timeouts; client = pc })
  Log-own n drawn timeouts pc last l = record {
    log = l.log;
    dropped = l.dropped;
    queued = l.queued;
    settled = l.settled;
    before = l.before;
    outstanding = l.outstanding;
    performed = l.performed;
    calls = l.calls;
    queue = l.queue;
    fits = l.fits;
    kept = l.kept;
    responses = l.responses;
    replies = l.replies;
    order = l.order;
    packets = l.packets;
    level = l.level;
    count = l.count;
    last = last;
  }

  -- It sends the packet of a command.
  pub Log-send :
      (n drawn : ℕ) (pc : ClientPc) (x : Sent) (buf : Buffer)
      → CanBeSent cfg serdes x.command
      → buf ≡ wire calculate cfg x.command
      → IsLastCall pc (w.calls ++ (x.command ∷ []))
      → Log calculate cfg serdes target s took w
      → Log calculate cfg serdes target s took (record w {
        next_txn_id = n;
        drawn = drawn;
        client = pc;
        server = record w.server { commands = (push buf w.server.commands).0 };
        pending = w.pending ++ (x ∷ []);
        calls = w.calls ++ (x.command ∷ []);
      })
  unfolding push
  Log-send n drawn pc x buf can whole last l = record {
    log = l.log;
    dropped = l.dropped;
    queued = l.queued ++ (x.command ∷ []);
    settled = l.settled;
    before = l.before;
    outstanding = l.outstanding;
    performed = l.performed;
    calls = ap (λ cs. cs ++ (x.command ∷ [])) l.calls ∙ rw (append_assoc, append_assoc) refl;
    queue = rw (l.queue, whole, map-append) refl;
    fits = All-append (CanBeSent cfg serdes) l.queued (x.command ∷ []) l.fits (can, tt);
    kept = l.kept;
    responses = l.responses;
    replies = l.replies;
    order = ap (λ cs. cs ++ (x.command ∷ [])) l.order ∙ rw (append_assoc, map-append) refl;
    packets = l.packets;
    level = l.level;
    count =
        omega (
          arith,
          l.count,
          length-append l.queued (x.command ∷ []),
          length-append w.pending (x ∷ []),
        );
    last = last;
  }

  -- It takes a response.
  pub Log-recv :
      {buf : Buffer} {rest : IpcTransportQueue}
      → pop w.server.replies ≡ (rest, ok buf)
      → Log calculate cfg serdes target s took w
      → Log calculate cfg serdes target s (took ++ (buf ∷ [])) (record w {
        client = idle;
        server = record w.server { replies = rest };
        pending = tail_of w.pending;
      })
  Log-recv {buf} {rest} popped l =
      let whole : buf ∷ (rest ++ hand w.server.worker)
          ≡ map (response_wire calculate cfg) l.outstanding =
        ap (λ q. q ++ hand w.server.worker) (sym (pop_ok w.server.replies popped)) ∙ l.replies in
      let (r, rs, split, head, tail) = map-cons (response_wire calculate cfg) l.outstanding whole in
      let (z, first) = first_of w.pending (omega (arith, l.count, ap length split)) in
      record {
        log = l.log;
        dropped = l.dropped;
        queued = l.queued;
        settled = l.settled ++ (z.command ∷ []);
        before = l.before ++ (r ∷ []);
        outstanding = rs;
        performed = l.performed;
        calls = l.calls;
        queue = l.queue;
        fits = l.fits;
        kept = l.kept;
        responses = l.responses ∙ rw (split, append_assoc) refl;
        replies = tail;
        order =
            l.order ∙ ap (λ p. l.settled ++ map (λ y. y.command) p) first ∙ rw (append_assoc) refl;
        packets = rw (l.packets, map-append, head) refl;
        level = omega (
          arith,
          l.level,
          length-append l.settled (z.command ∷ []),
          length-append l.before (r ∷ []),
        );
        count = length-tail_of w.pending (omega (arith, l.count, ap length split));
        last = tt;
      }

module _ (calculate : Calculate) (cfg : Cfg) (lawful : IsCrc calculate) (u : IsUsable cfg)
    (serdes : Serdes) (v : IsSerdes serdes) {S : Type 0} (target : IRegisterTarget S)
    (t : IsTarget cfg target) (s : S) where
  ClientStep-Log :
      {w w' : Session S} {took : List Buffer}
      → ClientStep calculate cfg serdes w w'
      → Log calculate cfg serdes target s took w
      → (took' : List Buffer) × Log calculate cfg serdes target s took' w'
  ClientStep-Log {w} {w'} {took} (refuse cmd free id refused) l =
      (took, Log-own calculate cfg serdes target s _ _ _ w.client l.last l)
  ClientStep-Log {w} {w'} {took} (send cmd {buf} free id fits encoded) l =
      let (room, whole) = encode_command_ok calculate cfg lawful u serdes v cmd encoded in
      (
        took,
        Log-send calculate cfg serdes target s _ _ _ _ buf (room, fits) whole (w.calls, refl) l,
      )
  ClientStep-Log {w} {w'} {took} (take_response {x} {buf} held popped) l =
      (took ++ (buf ∷ []), Log-recv calculate cfg serdes target s popped l)
  ClientStep-Log {w} {w'} {took} (time_out held popped) l =
      (took, Log-own calculate cfg serdes target s _ _ _ idle tt l)

  pub init-Log : Log calculate cfg serdes target s [] (init s)
  init-Log = record {
    log = [];
    dropped = [];
    queued = [];
    settled = [];
    before = [];
    outstanding = [];
    performed = refl;
    calls = refl;
    queue = refl;
    fits = tt;
    kept = inr refl;
    responses = refl;
    replies = refl;
    order = refl;
    packets = refl;
    level = refl;
    count = refl;
    last = tt;
  }

  pub Reach-Log :
      (w : Session S)
      → Reach calculate cfg serdes target (init s) w
      → (took : List Buffer) × Log calculate cfg serdes target s took w
  Reach-Log w here = ([], init-Log)
  Reach-Log w (client_then r st) = ClientStep-Log st (Reach-Log _ r).1
  Reach-Log w (worker_then r st) =
      let (took, l) = Reach-Log _ r in
      (took, WorkerStep-Log calculate cfg lawful u serdes v target t s took st l)
