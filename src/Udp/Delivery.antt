-- ===== src/Udp/Delivery.antt =====
-- A datagram that the socket delivers.
use rap_cpp.Base.{
  ℕ, zero, suc, ◌+◌, ◌≤◌, ◌<◌, ◌≡◌, refl, sym, ap, ◌∙◌, ◌⊎◌, inl, inr, min, true, false, some, [],
  ◌∷◌, length, arith,
}
use rap_cpp.Configuration.{Cfg, IsUsable}
use rap_cpp.Result.{ok, ok-injective}
use rap_cpp.Messages.{Command}
use rap_cpp.Messages.Response.{Response}
use rap_cpp.Serdes.Size.{Serdes, make_serdes}
use rap_cpp.Serdes.Buffer.{Buffer, Calculate, IsCrc}
use rap_cpp.Serdes.Limits.{IsSerdes}
use rap_cpp.Serdes.Command.Encode.{encode_command}
use rap_cpp.Serdes.Command.Wire.{id_of}
use rap_cpp.Serdes.Command.Bounds.{encode_command_total}
use rap_cpp.Serdes.Response.Encode.{encode_response}
use rap_cpp.Serdes.Response.Wire.{response_id}
use rap_cpp.Serdes.Response.Bounds.{encode_response_total}
use rap_cpp.Udp.{
  UdpTransport, run_rest, zero_bytes, resize, handle, run_io, udp_recv, udp_recv_or_stop, run_rest,
  udp_get_max_message_size,
}
use rap_cpp.Udp.Asio.{Network, Socket}
use rap_cpp.Udp.Construct.{make_sync_udp_transport}
use rap_cpp.Udp.Made.{made-IsFresh, made_serdes}

-- A datagram at the front of a buffer, as much of it as there is room for.
abbrev pub overlay : Buffer → Buffer → Buffer
overlay [] buffer = buffer
overlay (d ∷ ds) [] = []
overlay (d ∷ ds) (b ∷ buffer) = d ∷ overlay ds buffer

resize-overlay :
    (datagram : Buffer) (n : ℕ)
    → length datagram ≤ n
    → resize (length datagram) (overlay datagram (zero_bytes n)) ≡ datagram
unfolding resize zero_bytes
resize-overlay [] n h = refl
resize-overlay (d ∷ ds) zero h = absurd (omega arith)
resize-overlay (d ∷ ds) (suc n) h = ap (λ ds'. d ∷ ds') (resize-overlay ds n (omega arith))

module _ {S : Type 0} (socket : Socket S) (datagram : Buffer) (s after : S) where
  -- `receive` returns with the datagram, whatever buffer it is given.
  abbrev pub Receives : Type 0
  Receives =
      (buffer : Buffer)
      → socket.receive buffer s
        ≡ (after, ok (overlay datagram buffer, min (length datagram) (length buffer)))

  -- `run_for` runs the handler of `async_receive` on the datagram and is then out of work.
  abbrev pub Completes : ℕ → Type 0
  Completes timeout =
      (buffer : Buffer)
      → (socket.run_for timeout (socket.restart (socket.async_receive buffer s)) ≡ (
        after,
        ok (
            some (record {
              ec = 0;
              filled = overlay datagram buffer;
              recvd_bytes = min (length datagram) (length buffer);
            })),
      ))
        × (socket.stopped after ≡ true)

-- The buffer is the packet of a command or of a response.
module _ (calculate : Calculate) (cfg : Cfg) (serdes : Serdes) where
  abbrev pub IsEncoded : Buffer → Type 0
  IsEncoded buf =
      ((cmd : Command) × (id_of cmd < 256) × (encode_command calculate cfg serdes cmd ≡ ok buf))
      ⊎ ((r : Response) × (response_id r < 256) × (encode_response calculate cfg serdes r ≡ ok buf))

  IsEncoded-length :
      IsCrc calculate
      → IsUsable cfg
      → IsSerdes serdes
      → (buf : Buffer) → IsEncoded buf
      → length buf ≤ serdes.max_message_size
  IsEncoded-length lawful u v buf (inl (cmd, byte, e)) =
      elim (encode_command_total calculate cfg lawful u serdes v cmd byte) [
        | inl (room, whole, short, bytes) ↦
            let same = ok-injective (sym e ∙ whole) in omega (arith, ap length same, short)
        | inr (no_room, refused) ↦ absurd (cc)
      ]
  IsEncoded-length lawful u v buf (inr (r, byte, e)) =
      elim (encode_response_total calculate cfg lawful u serdes v r byte) [
        | inl (room, whole, short, bytes) ↦
            let same = ok-injective (sym e ∙ whole) in omega (arith, ap length same, short)
        | inr (no_room, refused) ↦ absurd (cc)
      ]

length-zero_bytes : (n : ℕ) → length (zero_bytes n) ≡ n
unfolding zero_bytes
length-zero_bytes zero = refl
length-zero_bytes (suc n) = ap suc (length-zero_bytes n)

-- What both receives do with the buffer and the count that the socket leaves.
received :
    (buf : Buffer) (n : ℕ)
    → length buf ≤ n
    → resize (min (length buf) (length (zero_bytes n))) (overlay buf (zero_bytes n)) ≡ buf
received buf n h =
    let count : min (length buf) (length (zero_bytes n)) ≡ length buf =
      omega (arith, length-zero_bytes n) in
    rw count (resize-overlay buf n h)

module _ {S : Type 0} (socket : Socket S) (buf : Buffer) (t : UdpTransport S) (s : S)
    (room : length buf ≤ t.max_message_size) where
  udp_recv_whole :
      (after : S)
      → Receives socket buf s after
      → udp_recv socket (record t { io_socket = s }) ≡ (record t { io_socket = after }, ok buf)
  unfolding udp_recv
  udp_recv_whole after receives =
      rw (receives (zero_bytes t.max_message_size), received buf t.max_message_size room) refl

  udp_recv_or_stop_whole :
      (after : S)
      → Completes socket buf s after t.timeout
      → udp_recv_or_stop socket false (record t { io_socket = s })
        ≡ (record t { io_socket = after }, ok buf)
  unfolding udp_recv_or_stop run_io handle
  udp_recv_or_stop_whole after completes =
      let (ran, stopped) = completes (zero_bytes t.max_message_size) in
      rw (ran, run_rest, stopped, received buf t.max_message_size room) refl

-- With a `Serdes` for the maximum that a UDP transport reports, every command and every response
-- that is encoded fits, with the headers of IPv6 and UDP, in the 1500 bytes of a frame; and where
-- the socket of a UDP transport delivers it, over the front of the buffer that it is given, both
-- `recv()` and `recv(stop_token)` return exactly its bytes.
pub udp_recv-make_sync_udp_transport :
    {Host Endpoint S : Type 0} (net : Network Host Endpoint S) (socket : Socket S)
    (remote_host : Host) (remote_port : ℕ) (local_host : Host) (local_port : ℕ) (t : UdpTransport S)
    (calculate : Calculate) (cfg : Cfg)
    → IsCrc calculate
    → IsUsable cfg
    → make_sync_udp_transport net remote_host remote_port local_host local_port ≡ ok t
    → (serdes : Serdes) (buf : Buffer) → make_serdes (udp_get_max_message_size t) ≡ ok serdes
    → IsEncoded calculate cfg serdes buf
    → (s after_recv after_run : S) → Receives socket buf s after_recv
    → Completes socket buf s after_run t.timeout
    → (length buf + 40 + 8 ≤ 1_500)
      × (udp_recv socket (record t { io_socket = s })
          ≡ (record t { io_socket = after_recv }, ok buf))
      × (udp_recv_or_stop socket false (record t { io_socket = s })
          ≡ (record t { io_socket = after_run }, ok buf))
udp_recv-make_sync_udp_transport net socket remote_host remote_port local_host local_port t
      calculate cfg lawful u made serdes buf serdes_made encoded s after_recv after_run receives
      completes =
    let size = (made-IsFresh net remote_host remote_port local_host local_port made).0 in
    let same : serdes.max_message_size ≡ 1_452 =
      ap (λ x. x.max_message_size)
        (ok-injective
          (sym serdes_made ∙ made_serdes net remote_host remote_port local_host local_port made)) in
    let short =
      IsEncoded-length calculate cfg serdes lawful u
        (record { large = omega (arith, same); is_size_t = omega (arith, same) }) buf encoded in
    (
      omega (arith, short, same),
      udp_recv_whole socket buf t s (omega (arith, short, same, size)) after_recv receives,
      udp_recv_or_stop_whole socket buf t s (omega (arith, short, same, size)) after_run completes,
    )
