-- ===== src/Udp/Silence.antt =====
-- `recv(stop_token)` of a UDP transport for as long as no datagram comes.
use rap_cpp.Base.{◌≡◌, ◌≢◌, refl, true, false, ◌==◌, none, some, List, [], ◌∷◌, arith}
use rap_cpp.Configuration.{Cfg}
use rap_cpp.Result.{ok, throw, error_code, transport_timeout}
use rap_cpp.Interfaces.{IRegisterTarget}
use rap_cpp.Serdes.Size.{Serdes}
use rap_cpp.Serdes.Buffer.{Calculate}
use rap_cpp.ServerAdapter.{Event, recv_throws, background_work}
use rap_cpp.Udp.{
  UdpTransport, zero_bytes, handle, run_io, udp_recv_or_stop, run_rest, on_stop, resize,
}
use rap_cpp.Udp.Asio.{Socket, Completion}

-- The time is over before a datagram has come, and nothing has stopped the context.
abbrev pub TimesOut : {S : Type 0} → Socket S → UdpTransport S → S → Type 0
TimesOut socket t waited =
    let buffer = zero_bytes t.max_message_size in
    (socket.run_for t.timeout (socket.restart (socket.async_receive buffer t.io_socket))
      ≡ (waited, ok none))
    × (socket.stopped waited ≡ false)

-- A stop is requested: the context, which is stopped, runs no handler.
abbrev pub IsStopped : {S : Type 0} → Socket S → UdpTransport S → S → Type 0
IsStopped socket t stopped =
    let buffer = zero_bytes t.max_message_size in
    let opened = socket.restart (socket.async_receive buffer t.io_socket) in
    (socket.run_for t.timeout (socket.stop (socket.cancel opened)) ≡ (stopped, ok none))
    × (socket.stopped stopped ≡ true)

-- A receive that is cancelled completes, with an error.
abbrev pub IsCancelled : {S : Type 0} → Socket S → S → S → Completion → Type 0
IsCancelled socket waited after c =
    (socket.run (socket.cancel waited) ≡ (after, ok (some c))) × (c.ec ≢ 0)

-- If the timeout passes without a datagram and without a stop, `recv(stop_token)` cancels the
-- receive and throws the error code that the receive then ends with, which is no
-- `TransportTimeoutException`. The worker of a server does not catch it and ends with it, having
-- sent nothing and called nothing of its target. If a stop is already requested,
-- `recv(stop_token)` returns an empty buffer.
pub udp_recv_or_stop_idle :
    {S D : Type 0} (socket : Socket S) (t : UdpTransport S) (waited after stopped : S)
    (c : Completion) (target : IRegisterTarget D) (calculate : Calculate) (cfg : Cfg)
    (serdes : Serdes) (device : D) (events : List (Event target calculate cfg serdes))
    → TimesOut socket t waited
    → IsCancelled socket waited after c
    → IsStopped socket t stopped
    → (udp_recv_or_stop socket false t ≡ (record t { io_socket = after }, throw (error_code c.ec)))
      × (error_code c.ec ≢ transport_timeout)
      × (udp_recv_or_stop socket true t ≡ (record t { io_socket = stopped }, ok []))
      × (background_work target calculate cfg serdes (recv_throws (error_code c.ec) ∷ events) device
          ≡ record { after = device; sent = []; ended = throw (error_code c.ec) })
unfolding udp_recv_or_stop run_io handle background_work resize
udp_recv_or_stop_idle socket t waited after stopped c target calculate cfg serdes device events
      quiet cancelled halted =
    let (ran, running) = quiet in
    let (ended, failed) = cancelled in
    let (stopped_run, is_stopped) = halted in
    let other : (c.ec == 0) ≡ false = ground arith in
    (
      rw (ran, run_rest, running, ended, other) refl,
      (λ e. cc),
      rw (on_stop, stopped_run, run_rest, is_stopped) refl,
      refl,
    )
