-- ===== src/Threads.antt =====
-- RegisterTarget.h with several threads: methods of one client run in any number of threads, which
-- share the id counter and the transport, against the worker of a server. `doCmdResp` holds no
-- lock between its `send` and its `recv`.
pub mod Steps
pub mod History
pub mod Invariant
pub mod Taken
pub mod Log
pub mod Linear
pub mod Swap
use rap_cpp.Base.{ℕ, ◌+◌, ◌≡◌, ◌==◌, List, [], if◌then◌else◌}
use rap_cpp.Serdes.Size.{to_unsigned}
use rap_cpp.Serdes.Buffer.{Buffer}
use rap_cpp.Session.Server.{Server, started}
use rap_cpp.Session.System.{Sent}

-- Outside of `doCmdResp`; with an encoded command, before `transport->send`; in
-- `transport->recv()`; with the buffer that it has taken.
pub data ThreadPc : Type 0 where
  ready : ThreadPc
  encoded : Sent → Buffer → ThreadPc
  awaiting : Sent → ThreadPc
  taken : Sent → Buffer → ThreadPc

-- The last four fields are the history, which no code reads: how many ids were drawn; the commands
-- that were sent and whose response was not taken, in the order in which they were sent; all
-- commands that were sent, and all buffers that were taken, each with its thread, in that order.
pub record Threads (S : Type 0) : Type 0 where
  pub next_txn_id : ℕ
  pub thread : ℕ → ThreadPc
  pub server : Server S
  pub drawn : ℕ
  pub pending : List Sent
  pub sends : List (ℕ × Sent)
  pub takes : List (ℕ × Buffer)

abbrev pub all_ready : {S : Type 0} → S → Threads S
all_ready s = record {
  next_txn_id = 0;
  thread = λ i. ready;
  server = started s;
  drawn = 0;
  pending = [];
  sends = [];
  takes = [];
}

-- Thread `i` goes on.
unfoldable pub set : (ℕ → ThreadPc) → ℕ → ThreadPc → ℕ → ThreadPc
set thread i pc j = if j == i then pc else thread j

abbrev pub goes_on : {S : Type 0} → Threads S → ℕ → ThreadPc → Threads S
goes_on s i pc = record s { thread = set s.thread i pc }

abbrev pub fetch_add : {S : Type 0} → Threads S → Threads S
fetch_add s = record s { next_txn_id = to_unsigned 1 (s.next_txn_id + 1); drawn = s.drawn + 1 }
