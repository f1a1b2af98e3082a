-- ===== src/Udp.antt =====
-- SyncUdpTransport.cpp: the transport over UDP. The library asio is not part of the repository.
pub mod Asio
pub mod Construct
pub mod Made
pub mod Delivery
pub mod Silence
use rap_cpp.Base.{
  ℕ, zero, suc, Bool, true, false, Option, none, some, List, [], ◌∷◌, ◌==◌, if◌then◌else◌,
}
use rap_cpp.Result.{Result, ok, throw, error_code}
use rap_cpp.Serdes.Size.{to_unsigned}
use rap_cpp.Serdes.Buffer.{Buffer}
use rap_cpp.Calls.{Call, and_then, lift, return, ◌>>=◌, ◌>>◌}
use rap_cpp.Interfaces.{ISyncWireTransport}
use rap_cpp.Udp.Asio.{Socket, Completion}

-- The state of socket and execution context is in `io_socket`. The timeout is in microseconds.
pub record UdpTransport (S : Type 0) : Type 0 where
  pub timeout : ℕ
  pub max_message_size : ℕ
  pub io_socket : S

-- `Buffer buffer(n);`
unfoldable pub zero_bytes : ℕ → Buffer
zero_bytes zero = []
zero_bytes (suc n) = 0 ∷ zero_bytes n

-- `buffer.resize(n)`
unfoldable pub resize : ℕ → Buffer → Buffer
resize zero buf = []
resize (suc n) [] = 0 ∷ resize n []
resize (suc n) (b ∷ buf) = b ∷ resize n buf

abbrev with_socket : {S A : Type 0} → UdpTransport S → S × Result A → UdpTransport S × Result A
with_socket t (s, r) = (record t { io_socket = s }, r)

unfoldable pub udp_get_max_message_size : {S : Type 0} → UdpTransport S → ℕ
udp_get_max_message_size t = to_unsigned 2 t.max_message_size

unfoldable pub udp_set_timeout : {S : Type 0} → ℕ → UdpTransport S → UdpTransport S
udp_set_timeout new_timeout t = record t { timeout = new_timeout }

-- The handler of `async_receive`, where it runs: the buffer and `received_bytes` afterwards.
unfoldable pub handle : Option Completion → Buffer × ℕ → Result (Buffer × ℕ)
handle none b = ok b
handle (some c) b = if c.ec == 0 then ok (c.filled, c.recvd_bytes) else throw (error_code c.ec)

module _ {S : Type 0} (socket : Socket S) where
  unfoldable pub udp_send : Buffer → Call (UdpTransport S) (Unit {0})
  udp_send buffer t = with_socket t (socket.socket_send buffer t.io_socket)

  -- `recv()`, which waits for as long as the socket does.
  unfoldable pub udp_recv : Call (UdpTransport S) Buffer
  udp_recv t = with_socket t (
      and_then (socket.receive (zero_bytes t.max_message_size) t.io_socket)
        (λ b. return (resize b.1 b.0)))

  -- What follows `run_for`, unless the context is stopped.
  abbrev run_rest : Buffer × ℕ → Call S (Buffer × ℕ)
  run_rest b s = elim (socket.stopped s) [
    | true ↦ (s, ok b)
    | false ↦ and_then (socket.run (socket.cancel s)) (λ m. lift (handle m b))
  ]

  -- What the stop callback does at once if a stop is already requested. If one is requested later,
  -- the callback does the same while `run_for` runs.
  abbrev pub on_stop : Bool → S → S
  on_stop true s = socket.stop (socket.cancel s)
  on_stop false s = s

  -- `run(timeout, stoken)`, by whether a stop is requested when it begins.
  unfoldable pub run_io : Bool → ℕ → Buffer × ℕ → Call S (Buffer × ℕ)
  unfolding handle
  run_io stop_requested timeout b s =
      and_then (socket.run_for timeout (on_stop stop_requested (socket.restart s)))
        (λ m. lift (handle m b) >>= λ b'. run_rest b')

  -- `recv(stop_token)`
  unfoldable pub udp_recv_or_stop : Bool → Call (UdpTransport S) Buffer
  unfolding run_io
  udp_recv_or_stop stop_requested t =
      let buffer = zero_bytes t.max_message_size in
      with_socket t (
        and_then
          (run_io stop_requested t.timeout (buffer, 0) (socket.async_receive buffer t.io_socket))
          (λ b. return (resize b.1 b.0)))

  -- The transport as its users see it.
  abbrev pub udp_transport : ISyncWireTransport (UdpTransport S)
  udp_transport = record { send = udp_send; recv = udp_recv }
