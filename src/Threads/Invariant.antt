-- ===== src/Threads/Invariant.antt =====
-- What holds of several threads after each of their steps and each of the worker's.
use rap_cpp.Base.{
  ℕ, ◌%◌, ◌≡◌, refl, sym, ap, ◌∙◌, subst, ◌==◌, if◌then◌else◌, true, false, List, [], ◌∷◌, ◌++◌,
  All, All-append, append_assoc, map, map-append, some, get_elem?, get_elem?-append_left,
  get_elem?-length, length, arith,
}
use rap_cpp.Configuration.{Cfg, IsUsable}
use rap_cpp.Interfaces.{IRegisterTarget}
use rap_cpp.Serdes.Size.{Serdes}
use rap_cpp.Serdes.Buffer.{Buffer, Calculate, IsCrc}
use rap_cpp.Serdes.Limits.{IsSerdes}
use rap_cpp.Serdes.Command.Wire.{wire}
use rap_cpp.Serdes.Command.Bounds.{encode_command_ok}
use rap_cpp.PairedIpc.{push}
use rap_cpp.ServerAdapter.Target.{IsTarget}
use rap_cpp.Session.System.{Sent}
use rap_cpp.Session.Pending.{IsSent}
use rap_cpp.Session.Flow.{ServerFlow, Flow-of, Flow, Flow-send, Flow-oldest, IsReplyTo}
use rap_cpp.Session.Invariant.{pop_ok}
use rap_cpp.Session.LogWorker.{map-cons}
use rap_cpp.Session.WorkerSteps.{WorkerStep-Flow}
use rap_cpp.Threads.{Threads, ThreadPc, ready, encoded, awaiting, taken, set, all_ready}
use rap_cpp.Threads.History.{Answered, Answered-append}
use rap_cpp.Threads.Steps.{
  ThreadStep, encode, refuse, send, take_response, time_out, finish, ThreadsReach, here,
  thread_then, server_then,
}

module _ (calculate : Calculate) (cfg : Cfg) (serdes : Serdes) where
  -- What is to hold of thread `i`, where these buffers were taken.
  abbrev pub IsThread : List (ℕ × Buffer) → ℕ → ThreadPc → Type 0
  IsThread takes i ready = Unit
  IsThread takes i (encoded x buf) = IsSent cfg serdes x × (buf ≡ wire calculate cfg x.command)
  IsThread takes i (awaiting x) = Unit
  IsThread takes i (taken x buf) = (k : ℕ) × (get_elem? takes k ≡ some (i, buf))

  -- The commands that were sent are those whose response was taken, then the pending ones.
  pub record ThreadsInv {S : Type 0} (s : Threads S) : Type 0 where
    pub answered : List (ℕ × Sent)
    pub waiting : List (ℕ × Sent)
    pub counter : s.next_txn_id ≡ s.drawn % 256
    pub threads : (i : ℕ) → IsThread s.takes i (s.thread i)
    pub sent : All (IsSent cfg serdes) s.pending
    pub flow : ServerFlow calculate cfg serdes s.server s.pending
    pub sends : s.sends ≡ answered ++ waiting
    pub pending : s.pending ≡ map (λ e. e.1) waiting
    pub replies : Answered calculate cfg serdes answered s.takes

  set-IsThread :
      (takes : List (ℕ × Buffer)) (thread : ℕ → ThreadPc) (i : ℕ) (pc : ThreadPc)
      → ((j : ℕ) → IsThread takes j (thread j))
      → IsThread takes i pc
      → (j : ℕ) → IsThread takes j (set thread i pc j)
  unfolding set
  set-IsThread takes thread i pc all one j =
      (elim (j == i) as (λ b. (j == i) ≡ b → IsThread takes j (if b then pc else thread j)) [
        | true ↦ λ e. (let same : i ≡ j = ground arith in subst (λ n. IsThread takes n pc) same one)
        | false ↦ λ e. all j
      ])
        refl

  -- A thread is not concerned when one takes a buffer.
  IsThread-append :
      (takes : List (ℕ × Buffer)) (b : ℕ × Buffer) (i : ℕ) (pc : ThreadPc)
      → IsThread takes i pc
      → IsThread (takes ++ (b ∷ [])) i pc
  IsThread-append takes b i ready h = h
  IsThread-append takes b i (encoded x buf) h = h
  IsThread-append takes b i (awaiting x) h = h
  IsThread-append takes b i (taken x buf) (k, found) =
      (k, get_elem?-append_left takes (b ∷ []) k found)

module _ (calculate : Calculate) (cfg : Cfg) (lawful : IsCrc calculate) (u : IsUsable cfg)
    (serdes : Serdes) (v : IsSerdes serdes) {S : Type 0} where
  ThreadStep-Inv :
      {s t : Threads S}
      → ThreadStep calculate cfg serdes s t
      → ThreadsInv calculate cfg serdes s
      → ThreadsInv calculate cfg serdes t
  unfolding push
  ThreadStep-Inv {s} (encode i cmd free id fits done) inv =
      let (room, whole) = encode_command_ok calculate cfg lawful u serdes v cmd done in
      record {
        answered = inv.answered;
        waiting = inv.waiting;
        counter = omega (arith, inv.counter);
        threads =
            set-IsThread calculate cfg serdes s.takes s.thread i _ inv.threads
              (record { sendable = room; fits = fits; id = id ∙ inv.counter }, whole);
        sent = inv.sent;
        flow = inv.flow;
        sends = inv.sends;
        pending = inv.pending;
        replies = inv.replies;
      }
  ThreadStep-Inv {s} (refuse i cmd free id refused) inv = record {
    answered = inv.answered;
    waiting = inv.waiting;
    counter = omega (arith, inv.counter);
    threads = inv.threads;
    sent = inv.sent;
    flow = inv.flow;
    sends = inv.sends;
    pending = inv.pending;
    replies = inv.replies;
  }
  ThreadStep-Inv {s} (send i {x} {buf} held) inv =
      let (is_sent, whole) = subst (IsThread calculate cfg serdes s.takes i) held (inv.threads i) in
      record {
        answered = inv.answered;
        waiting = inv.waiting ++ ((i, x) ∷ []);
        counter = inv.counter;
        threads = set-IsThread calculate cfg serdes s.takes s.thread i (awaiting x) inv.threads tt;
        sent = All-append (IsSent cfg serdes) s.pending (x ∷ []) inv.sent (is_sent, tt);
        flow =
            subst
              (λ b.
                Flow calculate cfg serdes s.server.replies s.server.worker
                  (s.server.commands ++ (b ∷ [])) (s.pending ++ (x ∷ [])))
              (sym whole)
              (Flow-send calculate cfg serdes s.server.replies s.server.worker s.server.commands
                s.pending x inv.flow);
        sends = ap (λ es. es ++ ((i, x) ∷ [])) inv.sends ∙ append_assoc inv.answered inv.waiting _;
        pending = ap (λ xs. xs ++ (x ∷ [])) inv.pending ∙ sym (map-append (λ e. e.1) inv.waiting _);
        replies = inv.replies;
      }
  ThreadStep-Inv {s} (take_response i {x} {buf} {rest} held popped) inv =
      let (y, split, reply, flow) =
        Flow-oldest calculate cfg serdes buf rest s.server.worker s.server.commands s.pending (
          Flow-of calculate cfg serdes s.server s.pending inv.flow (pop_ok s.server.replies popped)
            refl refl) in
      let sent = subst (All (IsSent cfg serdes)) split inv.sent in
      let (e, more, waits, head, tail) =
        map-cons (λ z. z.1) inv.waiting (sym split ∙ inv.pending) in
      let reply_to = subst (λ z. IsReplyTo calculate cfg serdes z.command buf) head reply in
      let is_sent = subst (IsSent cfg serdes) head sent.0 in
      record {
        answered = inv.answered ++ (e ∷ []);
        waiting = more;
        counter = inv.counter;
        threads =
            set-IsThread calculate cfg serdes (s.takes ++ ((i, buf) ∷ [])) s.thread i (taken x buf)
              (λ j.
                IsThread-append calculate cfg serdes s.takes (i, buf) j (s.thread j)
                  (inv.threads j))
              (length s.takes, get_elem?-length s.takes [] (i, buf));
        sent = sent.1;
        flow = flow;
        sends =
            inv.sends
            ∙ ap (λ es. inv.answered ++ es) waits
            ∙ sym (append_assoc inv.answered (e ∷ []) more);
        pending = tail;
        replies =
            Answered-append calculate cfg serdes inv.answered s.takes e (i, buf) inv.replies
              (is_sent, reply_to);
      }
  ThreadStep-Inv {s} (time_out i held popped) inv = record {
    answered = inv.answered;
    waiting = inv.waiting;
    counter = inv.counter;
    threads = set-IsThread calculate cfg serdes s.takes s.thread i ready inv.threads tt;
    sent = inv.sent;
    flow = inv.flow;
    sends = inv.sends;
    pending = inv.pending;
    replies = inv.replies;
  }
  ThreadStep-Inv {s} (finish i held) inv = record {
    answered = inv.answered;
    waiting = inv.waiting;
    counter = inv.counter;
    threads = set-IsThread calculate cfg serdes s.takes s.thread i ready inv.threads tt;
    sent = inv.sent;
    flow = inv.flow;
    sends = inv.sends;
    pending = inv.pending;
    replies = inv.replies;
  }

  module _ (target : IRegisterTarget S) (t : IsTarget cfg target) where
    pub ThreadsReach-Inv :
        (s : S) (w : Threads S)
        → ThreadsReach calculate cfg serdes target (all_ready s) w
        → ThreadsInv calculate cfg serdes w
    ThreadsReach-Inv s w here = record {
      answered = [];
      waiting = [];
      counter = refl;
      threads = λ i. tt;
      sent = tt;
      flow = tt;
      sends = refl;
      pending = refl;
      replies = tt;
    }
    ThreadsReach-Inv s w (thread_then r st) = ThreadStep-Inv st (ThreadsReach-Inv s _ r)
    ThreadsReach-Inv s w (server_then r st) =
        let inv = ThreadsReach-Inv s _ r in
        record {
          answered = inv.answered;
          waiting = inv.waiting;
          counter = inv.counter;
          threads = inv.threads;
          sent = inv.sent;
          flow = WorkerStep-Flow calculate cfg lawful u serdes v target t _ inv.sent st inv.flow;
          sends = inv.sends;
          pending = inv.pending;
          replies = inv.replies;
        }
