-- ===== src/Session/Bound.antt =====
-- How many steps are left to a session if the client makes no further call.
use rap_cpp.Base.{ℕ, zero, suc, ◌+◌, ◌*◌, ◌≤◌, ◌≡◌, ap, [], ◌∷◌, length, length-append, arith}
use rap_cpp.Configuration.{Cfg}
use rap_cpp.Interfaces.{IRegisterTarget}
use rap_cpp.Serdes.Size.{Serdes}
use rap_cpp.Serdes.Buffer.{Calculate}
use rap_cpp.PairedIpc.{push, pop_or_stop}
use rap_cpp.Session.Server.{
  Server, WorkerPc, listening, sending, returned, terminated, WorkerStep, take_command, work_throws,
  send_response, recv_throws, stop, stop_after_recv,
}
use rap_cpp.Session.System.{
  Sent, Session, ClientPc, idle, waiting, ClientStep, refuse, send, take_response, time_out,
}
use rap_cpp.Session.Invariant.{pop_ok}

abbrev client_weight : ClientPc → ℕ
client_weight idle = 0
client_weight (waiting x) = 1

abbrev worker_weight : WorkerPc → ℕ
worker_weight listening = 1
worker_weight (sending out) = 3
worker_weight returned = 0
worker_weight (terminated e) = 0

-- A command costs three steps: it is taken, answered, and its response is taken.
abbrev server_weight : {S : Type 0} → Server S → ℕ
server_weight p = 3 * length p.commands + worker_weight p.worker + length p.replies

abbrev pub weight : {S : Type 0} → Session S → ℕ
weight s = server_weight s.server + client_weight s.client

module _ (calculate : Calculate) (cfg : Cfg) (serdes : Serdes) {S : Type 0}
    (target : IRegisterTarget S) where
  -- Steps of the worker, and of a client that waits.
  pub data Runs (s : Session S) : ℕ → Session S → Type 0 where
    none : Runs s zero s
    client_more :
        {n : ℕ} {t w : Session S} {x : Sent}
        → Runs s n t
        → t.client ≡ waiting x
        → ClientStep calculate cfg serdes t w
        → Runs s (suc n) w
    worker_more :
        {n : ℕ} {t : Session S} {v : Server S}
        → Runs s n t
        → WorkerStep calculate cfg serdes target t.server v
        → Runs s (suc n) (record t { server = v })

  client_step :
      {s t : Session S} {x : Sent}
      → s.client ≡ waiting x
      → ClientStep calculate cfg serdes s t
      → suc (weight t) ≤ weight s
  client_step held (refuse cmd free id refused) = absurd (cc)
  client_step held (send cmd free id fits encoded) = absurd (cc)
  client_step {s} held (take_response held' popped) =
      omega (arith, ap client_weight held, ap length (pop_ok s.server.replies popped))
  client_step held (time_out held' popped) = omega (arith, ap client_weight held)

  worker_step :
      {p q : Server S}
      → WorkerStep calculate cfg serdes target p q
      → suc (server_weight q) ≤ server_weight p
  unfolding push pop_or_stop
  worker_step {p} (take_command held popped worked) =
      omega (arith, ap worker_weight held, ap length (pop_ok p.commands popped))
  worker_step {p} (work_throws held popped worked) =
      omega (arith, ap worker_weight held, ap length (pop_ok p.commands popped))
  worker_step {p} (send_response {out} held) =
      omega (arith, ap worker_weight held, length-append p.replies (out ∷ []))
  worker_step (recv_throws held popped) = omega (arith, ap worker_weight held)
  worker_step {p} (stop_after_recv held popped) =
      omega (arith, ap worker_weight held, ap length (pop_ok p.commands popped))
  worker_step (stop held) = omega (arith, ap worker_weight held)

  -- Between two calls of the client no schedule runs for ever: from any state, the worker and a
  -- client that waits make no more steps, in any order, than three for each command in the queue,
  -- one for each response, and up to four for what the two threads have in hand.
  pub Runs-bounded : {s : Session S} {n : ℕ} {t : Session S} → Runs s n t → n + weight t ≤ weight s
  Runs-bounded none = omega arith
  Runs-bounded (client_more runs held st) = omega (arith, Runs-bounded runs, client_step held st)
  Runs-bounded (worker_more runs st) = omega (arith, Runs-bounded runs, worker_step st)
