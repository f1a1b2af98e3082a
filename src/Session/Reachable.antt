-- ===== src/Session/Reachable.antt =====
-- The states that a session reaches.
use rap_cpp.Base.{refl, arith}
use rap_cpp.Configuration.{Cfg, IsUsable}
use rap_cpp.Interfaces.{IRegisterTarget}
use rap_cpp.Serdes.Size.{Serdes}
use rap_cpp.Serdes.Buffer.{Calculate, IsCrc}
use rap_cpp.Serdes.Limits.{IsSerdes}
use rap_cpp.ServerAdapter.Target.{IsTarget}
use rap_cpp.Session.System.{Session, init, Reach, here, client_then, worker_then}
use rap_cpp.Session.Invariant.{Inv}
use rap_cpp.Session.ClientSteps.{ClientStep-Inv}
use rap_cpp.Session.WorkerSteps.{WorkerStep-Inv}

module _ (calculate : Calculate) (cfg : Cfg) (lawful : IsCrc calculate) (u : IsUsable cfg)
    (serdes : Serdes) (v : IsSerdes serdes) {S : Type 0} (target : IRegisterTarget S)
    (t : IsTarget cfg target) where
  init-Inv : (s : S) → Inv calculate cfg serdes (init s)
  init-Inv s = record { counter = refl; sent = tt; ascending = omega arith; lag = refl; flow = tt }

  -- In every state that a client, whose commands have fields that fit the wire, and the worker
  -- reach from the start, by any interleaving of their calls on the two queues and with any
  -- timeouts: the id counter is the number of ids drawn modulo 256; the serials of the pending
  -- commands go up; there are as many pending commands as the client gave up, and one more, the
  -- last, while it waits; and the response queue, the buffer in hand and the command queue hold, in
  -- order, for each pending command either the packet of a reply to it or its own packet, less at
  -- most one that the worker has dropped as it returned. The worker ends by no exception but a
  -- timeout of its own.
  pub Reach-Inv :
      (s : S) (w : Session S)
      → Reach calculate cfg serdes target (init s) w
      → Inv calculate cfg serdes w
  Reach-Inv s w here = init-Inv s
  Reach-Inv s w (client_then r st) =
      ClientStep-Inv calculate cfg lawful u serdes v st (Reach-Inv s _ r)
  Reach-Inv s w (worker_then r st) =
      WorkerStep-Inv calculate cfg lawful u serdes v target t st (Reach-Inv s _ r)
