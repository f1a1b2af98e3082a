-- ===== src/Session/System.antt =====
-- A session of one client thread with a server: one step for each call of the transport, with what
-- a thread does on its own before or after it.
use rap_cpp.Base.{ℕ, suc, ◌+◌, ◌≡◌, List, [], ◌∷◌, ◌++◌}
use rap_cpp.Configuration.{Cfg}
use rap_cpp.Result.{ok, throw, Exception}
use rap_cpp.Interfaces.{IRegisterTarget}
use rap_cpp.Messages.{Command}
use rap_cpp.Serdes.Size.{Serdes, to_unsigned}
use rap_cpp.Serdes.Buffer.{Buffer, Calculate}
use rap_cpp.Serdes.Command.Encode.{encode_command}
use rap_cpp.Serdes.Command.Wire.{IsWire, id_of}
use rap_cpp.Session.Server.{Server, started, WorkerStep}
use rap_cpp.PairedIpc.{IpcTransportQueue, push, pop}

-- A command with its place among the transaction ids that the client has drawn, which the code
-- keeps modulo 256 only.
pub record Sent : Type 0 where
  pub serial : ℕ
  pub command : Command

-- Between two calls of the client, or in `transport->recv()` of `doCmdResp`.
pub data ClientPc : Type 0 where
  idle : ClientPc
  waiting : Sent → ClientPc

-- The last four fields are the history, which no code reads: how many ids were drawn, the
-- commands whose response the client has not taken, oldest first, how often it gave up, and all
-- commands that it sent.
pub record Session (S : Type 0) : Type 0 where
  pub next_txn_id : ℕ
  pub client : ClientPc
  pub server : Server S
  pub drawn : ℕ
  pub pending : List Sent
  pub timeouts : ℕ
  pub calls : List Command

abbrev pub init : {S : Type 0} → S → Session S
init s = record {
  next_txn_id = 0;
  client = idle;
  server = started s;
  drawn = 0;
  pending = [];
  timeouts = 0;
  calls = [];
}

abbrev pub draw : {S : Type 0} → Session S → Session S
draw s = record s { next_txn_id = to_unsigned 1 (s.next_txn_id + 1); drawn = s.drawn + 1 }

abbrev pub tail_of : List Sent → List Sent
tail_of [] = []
tail_of (x ∷ xs) = xs

module _ (calculate : Calculate) (cfg : Cfg) (serdes : Serdes) where
  -- A call of the client, up to its `send`; the fields of a caller fit their bytes. Then its
  -- `recv`, which takes a buffer, or finds none until its time is over.
  pub data ClientStep {S : Type 0} (s : Session S) : Session S → Type 0 where
    refuse :
        (cmd : Command) {e : Exception}
        → s.client ≡ idle
        → id_of cmd ≡ s.next_txn_id
        → encode_command calculate cfg serdes cmd ≡ throw e
        → ClientStep s (draw s)
    send :
        (cmd : Command) {buf : Buffer}
        → s.client ≡ idle
        → id_of cmd ≡ s.next_txn_id
        → IsWire cfg cmd
        → encode_command calculate cfg serdes cmd ≡ ok buf
        → ClientStep s (record (draw s) {
          client = waiting (record { serial = s.drawn; command = cmd });
          server = record s.server { commands = (push buf s.server.commands).0 };
          pending = s.pending ++ (record { serial = s.drawn; command = cmd } ∷ []);
          calls = s.calls ++ (cmd ∷ []);
        })
    take_response :
        {x : Sent} {buf : Buffer} {rest : IpcTransportQueue}
        → s.client ≡ waiting x
        → pop s.server.replies ≡ (rest, ok buf)
        → ClientStep s (record s {
          client = idle;
          server = record s.server { replies = rest };
          pending = tail_of s.pending;
        })
    time_out :
        {x : Sent} {e : Exception} {rest : IpcTransportQueue}
        → s.client ≡ waiting x
        → pop s.server.replies ≡ (rest, throw e)
        → ClientStep s (record s { client = idle; timeouts = suc s.timeouts })

  module _ {S : Type 0} (target : IRegisterTarget S) where
    pub data Reach (s : Session S) : Session S → Type 0 where
      here : Reach s s
      client_then : {t w : Session S} → Reach s t → ClientStep t w → Reach s w
      worker_then :
          {t : Session S} {v : Server S}
          → Reach s t
          → WorkerStep calculate cfg serdes target t.server v
          → Reach s (record t { server = v })
