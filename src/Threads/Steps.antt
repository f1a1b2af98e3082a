-- ===== src/Threads/Steps.antt =====
-- The steps of the threads: one for each access to the id counter or to the transport.
use rap_cpp.Base.{ℕ, ◌≡◌, [], ◌∷◌, ◌++◌}
use rap_cpp.Configuration.{Cfg}
use rap_cpp.Result.{ok, throw, Exception}
use rap_cpp.Interfaces.{IRegisterTarget}
use rap_cpp.Messages.{Command}
use rap_cpp.Serdes.Size.{Serdes}
use rap_cpp.Serdes.Buffer.{Buffer, Calculate}
use rap_cpp.Serdes.Command.Encode.{encode_command}
use rap_cpp.Serdes.Command.Wire.{IsWire, id_of}
use rap_cpp.PairedIpc.{IpcTransportQueue, push, pop}
use rap_cpp.Session.Server.{Server, WorkerStep}
use rap_cpp.Session.System.{Sent, tail_of}
use rap_cpp.Threads.{Threads, ready, encoded, awaiting, taken, goes_on, fetch_add}

module _ (calculate : Calculate) (cfg : Cfg) (serdes : Serdes) {S : Type 0} where
  -- A thread draws an id and encodes its command, whose fields fit, or throws; sends it; takes a
  -- buffer, or finds none until its time is over; and ends its call.
  pub data ThreadStep (s : Threads S) : Threads S → Type 0 where
    encode :
        (i : ℕ) (cmd : Command) {buf : Buffer}
        → s.thread i ≡ ready
        → id_of cmd ≡ s.next_txn_id
        → IsWire cfg cmd
        → encode_command calculate cfg serdes cmd ≡ ok buf
        → ThreadStep s
            (fetch_add (goes_on s i (encoded (record { serial = s.drawn; command = cmd }) buf)))
    refuse :
        (i : ℕ) (cmd : Command) {e : Exception}
        → s.thread i ≡ ready
        → id_of cmd ≡ s.next_txn_id
        → encode_command calculate cfg serdes cmd ≡ throw e
        → ThreadStep s (fetch_add s)
    send :
        (i : ℕ) {x : Sent} {buf : Buffer}
        → s.thread i ≡ encoded x buf
        → ThreadStep s (record (goes_on s i (awaiting x)) {
          server = record s.server { commands = (push buf s.server.commands).0 };
          pending = s.pending ++ (x ∷ []);
          sends = s.sends ++ ((i, x) ∷ []);
        })
    take_response :
        (i : ℕ) {x : Sent} {buf : Buffer} {rest : IpcTransportQueue}
        → s.thread i ≡ awaiting x
        → pop s.server.replies ≡ (rest, ok buf)
        → ThreadStep s (record (goes_on s i (taken x buf)) {
          server = record s.server { replies = rest };
          pending = tail_of s.pending;
          takes = s.takes ++ ((i, buf) ∷ []);
        })
    time_out :
        (i : ℕ) {x : Sent} {e : Exception} {rest : IpcTransportQueue}
        → s.thread i ≡ awaiting x
        → pop s.server.replies ≡ (rest, throw e)
        → ThreadStep s (goes_on s i ready)
    finish :
        (i : ℕ) {x : Sent} {buf : Buffer}
        → s.thread i ≡ taken x buf
        → ThreadStep s (goes_on s i ready)

  module _ (target : IRegisterTarget S) where
    pub data ThreadsReach (s : Threads S) : Threads S → Type 0 where
      here : ThreadsReach s s
      thread_then : {t w : Threads S} → ThreadsReach s t → ThreadStep t w → ThreadsReach s w
      server_then :
          {t : Threads S} {v : Server S}
          → ThreadsReach s t
          → WorkerStep calculate cfg serdes target t.server v
          → ThreadsReach s (record t { server = v })
