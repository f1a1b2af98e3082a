-- ===== src/Loop.antt =====
-- A client and a server at the two ends of a paired transport. A `recv` of the client lets the
-- worker of the server take what has been sent, one buffer after the other.
pub mod Exchange
pub mod Methods
pub mod Copy
pub mod Arrays
pub mod Connect
pub mod Fifo
pub mod Compressed
pub mod Narrow
use rap_cpp.Base.{ℕ, List, [], ◌++◌, map}
use rap_cpp.Configuration.{Cfg}
use rap_cpp.Result.{Result, ok, throw, abort, uncaught_exception}
use rap_cpp.Calls.{Call}
use rap_cpp.Interfaces.{ISyncWireTransport, IRegisterTarget}
use rap_cpp.Serdes.Size.{Serdes}
use rap_cpp.Serdes.Buffer.{Buffer, Calculate}
use rap_cpp.PairedIpc.{PairedIpcTransport, ipc_send, ipc_recv}
use rap_cpp.ServerAdapter.{Run, received, background_work}

-- The client's end of the transport, and the register target of the server.
pub record Connection (S : Type 0) : Type 0 where
  pub ipc : PairedIpcTransport
  pub device : S

abbrev with_ipc : {S A : Type 0} → S → PairedIpcTransport × Result A → Connection S × Result A
with_ipc s (t, r) = (record { ipc = t; device = s }, r)

-- An exception that the worker does not catch ends the program.
abbrev worker_ended : {S A : Type 0} → Result (Unit {0}) → S × Result A → S × Result A
worker_ended (ok x) m = m
worker_ended (throw e) m = (m.0, abort uncaught_exception)
worker_ended (abort x) m = (m.0, abort x)

module _ (calculate : Calculate) (cfg : Cfg) (serdes : Serdes) {S : Type 0}
    (target : IRegisterTarget S) where
  abbrev serve_all : PairedIpcTransport → S → Run target calculate cfg serdes
  serve_all t s = background_work target calculate cfg serdes (map received t.tx_queue) s

  -- What the worker sends arrives in the order in which it is sent.
  abbrev delivered : PairedIpcTransport → Run target calculate cfg serdes → PairedIpcTransport
  delivered t run = record t { tx_queue = []; rx_queue = t.rx_queue ++ run.sent }

  unfoldable pub connection_recv : Call (Connection S) Buffer
  unfolding ipc_recv background_work
  connection_recv c =
      let run = serve_all c.ipc c.device in
      worker_ended run.ended (with_ipc run.after (ipc_recv (delivered c.ipc run)))

  unfoldable pub connection_send : Buffer → Call (Connection S) (Unit {0})
  unfolding ipc_send
  connection_send buf c = with_ipc c.device (ipc_send buf c.ipc)

  abbrev pub connection : ISyncWireTransport (Connection S)
  connection = record { send = connection_send; recv = connection_recv }
