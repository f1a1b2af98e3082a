-- ===== src/Udp/Asio.antt =====
-- The calls of the library asio, which is not part of the repository: resolver, socket and
-- execution context, with their state in `S`.
use rap_cpp.Base.{ℕ, Bool, Option, List}
use rap_cpp.Result.{Result}
use rap_cpp.Serdes.Buffer.{Buffer}
use rap_cpp.Calls.{Call}

pub record Network (Host Endpoint S : Type 0) : Type 0 where
  pub resolve : Host → (port : ℕ) → Result (List Endpoint)
  pub open_socket : (local : Endpoint) → Result S
  pub connect : (remote : Endpoint) → Call S (Unit {0})

-- What an asynchronous receive ends in: an error code, 0 for none, the buffer that it was given as
-- it is then, and the number of bytes received.
pub record Completion : Type 0 where
  pub ec : ℕ
  pub filled : Buffer
  pub recvd_bytes : ℕ

-- A receive returns the buffer that it was given as it is then, and the number of bytes. `run_for`
-- and `run` run the handler of a completed receive, if there is one; a handler that another thread
-- stops stays behind.
pub record Socket (S : Type 0) : Type 0 where
  pub socket_send : Buffer → Call S (Unit {0})
  pub receive : Buffer → Call S (Buffer × ℕ)
  pub async_receive : Buffer → S → S
  pub restart : S → S
  pub run_for : (timeout : ℕ) → Call S (Option Completion)
  pub stopped : S → Bool
  pub cancel : S → S
  pub stop : S → S
  pub run : Call S (Option Completion)
