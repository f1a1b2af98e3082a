-- ===== src/Session/Server.antt =====
-- The server of a session and the two queues: one step for each call of the transport, with what
-- the worker does on its own before or after it. A push or a pop holds the lock of the queue, so
-- it is one step.
use rap_cpp.Base.{◌≡◌, false, []}
use rap_cpp.Configuration.{Cfg}
use rap_cpp.Result.{ok, throw, Exception}
use rap_cpp.Interfaces.{IRegisterTarget}
use rap_cpp.Serdes.Size.{Serdes}
use rap_cpp.Serdes.Buffer.{Buffer, Calculate}
use rap_cpp.PairedIpc.{IpcTransportQueue, push, pop_or_stop}
use rap_cpp.ServerAdapter.{work_on}

-- In `transport->recv(stop_token)`; before `transport->send(resp_buf)`; returned; or ended by an
-- exception that nothing catches, which ends the program.
pub data WorkerPc : Type 0 where
  listening : WorkerPc
  sending : Buffer → WorkerPc
  returned : WorkerPc
  terminated : Exception → WorkerPc

-- The worker, the queue that it receives from, the one that it sends to, and its target.
pub record Server (S : Type 0) : Type 0 where
  pub worker : WorkerPc
  pub commands : IpcTransportQueue
  pub replies : IpcTransportQueue
  pub device : S

abbrev pub started : {S : Type 0} → S → Server S
started s = record { worker = listening; commands = []; replies = []; device = s }

module _ (calculate : Calculate) (cfg : Cfg) (serdes : Serdes) {S : Type 0}
    (target : IRegisterTarget S) where
  -- A round of the worker: its `recv` and what it does up to its `send`, and the `send`. A stop may
  -- be requested while it waits, or after its `recv` has taken a command, which is then dropped.
  pub data WorkerStep (s : Server S) : Server S → Type 0 where
    take_command :
        {buf out : Buffer} {rest : IpcTransportQueue} {after : S}
        → s.worker ≡ listening
        → pop_or_stop false s.commands ≡ (rest, ok buf)
        → work_on target calculate cfg serdes buf s.device ≡ (after, ok out)
        → WorkerStep s (record s { worker = sending out; commands = rest; device = after })
    work_throws :
        {buf : Buffer} {e : Exception} {rest : IpcTransportQueue} {after : S}
        → s.worker ≡ listening
        → pop_or_stop false s.commands ≡ (rest, ok buf)
        → work_on target calculate cfg serdes buf s.device ≡ (after, throw e)
        → WorkerStep s (record s { worker = terminated e; commands = rest; device = after })
    send_response :
        {out : Buffer}
        → s.worker ≡ sending out
        → WorkerStep s (record s { worker = listening; replies = (push out s.replies).0 })
    recv_throws :
        {e : Exception} {rest : IpcTransportQueue}
        → s.worker ≡ listening
        → pop_or_stop false s.commands ≡ (rest, throw e)
        → WorkerStep s (record s { worker = terminated e })
    stop : s.worker ≡ listening → WorkerStep s (record s { worker = returned })
    stop_after_recv :
        {buf : Buffer} {rest : IpcTransportQueue}
        → s.worker ≡ listening
        → pop_or_stop false s.commands ≡ (rest, ok buf)
        → WorkerStep s (record s { worker = returned; commands = rest })
