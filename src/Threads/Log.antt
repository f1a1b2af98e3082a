-- ===== src/Threads/Log.antt =====
-- Several threads against a target that performs commands one after the other.
use rap_cpp.Base.{sym, subst, List, [], ◌∷◌, ◌++◌, map, map-append, ℕ}
use rap_cpp.Configuration.{Cfg, IsUsable}
use rap_cpp.Interfaces.{IRegisterTarget}
use rap_cpp.Messages.{Command}
use rap_cpp.Serdes.Size.{Serdes}
use rap_cpp.Serdes.Buffer.{Buffer, Calculate, IsCrc}
use rap_cpp.Serdes.Limits.{IsSerdes}
use rap_cpp.PairedIpc.{push}
use rap_cpp.ServerAdapter.Target.{IsTarget}
use rap_cpp.Session.System.{Sent, Session, idle, tail_of}
use rap_cpp.Session.Log.{Log}
use rap_cpp.Session.LogWorker.{WorkerStep-Log}
use rap_cpp.Session.LogClient.{Log-own, Log-send, Log-recv, init-Log}
use rap_cpp.Threads.{Threads, all_ready}
use rap_cpp.Threads.Invariant.{IsThread, ThreadsInv, ThreadsReach-Inv}
use rap_cpp.Threads.Steps.{
  ThreadStep, encode, refuse, send, take_response, time_out, finish, ThreadsReach, here,
  thread_then, server_then,
}

abbrev pub commands_of : List (ℕ × Sent) → List Command
commands_of sends = map (λ e. e.1.command) sends

abbrev pub buffers_of : List (ℕ × Buffer) → List Buffer
buffers_of takes = map (λ b. b.1) takes

-- To the server all threads are one client.
abbrev pub as_session : {S : Type 0} → Threads S → Session S
as_session w = record {
  next_txn_id = w.next_txn_id;
  client = idle;
  server = w.server;
  drawn = w.drawn;
  pending = w.pending;
  timeouts = 0;
  calls = commands_of w.sends;
}

module _ (calculate : Calculate) (cfg : Cfg) (serdes : Serdes) {S : Type 0}
    (target : IRegisterTarget S) (s : S) where
  abbrev pub ThreadsLog : Threads S → Type 0
  ThreadsLog w = Log calculate cfg serdes target s (buffers_of w.takes) (as_session w)

  ThreadStep-Log :
      {w w' : Threads S}
      → ThreadStep calculate cfg serdes w w'
      → ThreadsInv calculate cfg serdes w
      → ThreadsLog w
      → ThreadsLog w'
  ThreadStep-Log (encode i cmd free id fits done) inv l =
      Log-own calculate cfg serdes target s _ _ 0 idle tt l
  ThreadStep-Log (refuse i cmd free id refused) inv l =
      Log-own calculate cfg serdes target s _ _ 0 idle tt l
  ThreadStep-Log {w} (send i {x} {buf} held) inv l =
      let (is_sent, whole) = subst (IsThread calculate cfg serdes w.takes i) held (inv.threads i) in
      let sent =
        Log-send calculate cfg serdes target s w.next_txn_id w.drawn idle x buf
          (is_sent.sendable, is_sent.fits) whole tt l in
      subst
        (λ cs. Log calculate cfg serdes target s (buffers_of w.takes) (record (as_session w) {
          server = record w.server { commands = (push buf w.server.commands).0 };
          pending = w.pending ++ (x ∷ []);
          calls = cs;
        }))
        (sym (map-append (λ e. e.1.command) w.sends ((i, x) ∷ []))) sent
  ThreadStep-Log {w} (take_response i {x} {buf} {rest} held popped) inv l =
      subst
        (λ took. Log calculate cfg serdes target s took (record (as_session w) {
          server = record w.server { replies = rest };
          pending = tail_of w.pending;
        }))
        (sym (map-append (λ b. b.1) w.takes ((i, buf) ∷ [])))
        (Log-recv calculate cfg serdes target s popped l)
  ThreadStep-Log (time_out i held popped) inv l = l
  ThreadStep-Log (finish i held) inv l = l

module _ (calculate : Calculate) (cfg : Cfg) (lawful : IsCrc calculate) (u : IsUsable cfg)
    (serdes : Serdes) (v : IsSerdes serdes) {S : Type 0} (target : IRegisterTarget S)
    (t : IsTarget cfg target) (s : S) where
  pub ThreadsReach-Log :
      (w : Threads S)
      → ThreadsReach calculate cfg serdes target (all_ready s) w
      → ThreadsLog calculate cfg serdes target s w
  ThreadsReach-Log w here = init-Log calculate cfg lawful u serdes v target t s
  ThreadsReach-Log w (thread_then {t = m} r st) =
      ThreadStep-Log calculate cfg serdes target s st
        (ThreadsReach-Inv calculate cfg lawful u serdes v target t s m r) (ThreadsReach-Log m r)
  ThreadsReach-Log w (server_then {t = m} r st) =
      WorkerStep-Log calculate cfg lawful u serdes v target t s (buffers_of m.takes) st
        (ThreadsReach-Log m r)
