-- ===== src/Session.antt =====
-- One client thread and the worker of a server, interleaved in any order over the two queues of a
-- paired transport: `doCmdResp` of RegisterTarget.h against `backgroundWork` of ServerAdapter.h.
pub mod Server
pub mod System
pub mod Pending
pub mod Flow
pub mod Invariant
pub mod ClientSteps
pub mod WorkerSteps
pub mod Reachable
pub mod Log
pub mod LogWorker
pub mod LogClient
pub mod Linear
pub mod Lag
pub mod Bound
pub mod Progress
