-- ===== src/Udp/Made.antt =====
-- A transport that the constructor has made.
use rap_cpp.Base.{subst, ℕ, ◌≡◌, refl}
use rap_cpp.Result.{ok, OnReturn, OnReturn-then}
use rap_cpp.Serdes.Size.{make_serdes}
use rap_cpp.Udp.{UdpTransport, udp_get_max_message_size}
use rap_cpp.Udp.Asio.{Network}
use rap_cpp.Udp.Construct.{make_sync_udp_transport, resolve_endpoint, connected}

-- A second of timeout, and the maximum for a frame of 1500 bytes.
abbrev pub IsFresh : {S : Type 0} → UdpTransport S → Type 0
IsFresh t = (t.max_message_size ≡ 1_452) × (t.timeout ≡ 1_000_000)

module _ {Host Endpoint S : Type 0} (net : Network Host Endpoint S) (remote_host : Host)
    (remote_port : ℕ) (local_host : Host) (local_port : ℕ) where
  make_sync_udp_transport-OnReturn :
      OnReturn IsFresh (make_sync_udp_transport net remote_host remote_port local_host local_port)
  unfolding make_sync_udp_transport
  make_sync_udp_transport-OnReturn =
      OnReturn-then IsFresh (resolve_endpoint net remote_host remote_port) _ λ remote.
        OnReturn-then IsFresh (resolve_endpoint net local_host local_port) _ λ local.
          OnReturn-then IsFresh (net.open_socket local) _ λ opened.
            OnReturn-then IsFresh (connected (net.connect remote opened)) _ λ s. (refl, refl)

  pub made-IsFresh :
      {t : UdpTransport S}
      → make_sync_udp_transport net remote_host remote_port local_host local_port ≡ ok t
      → IsFresh t
  made-IsFresh made = subst (OnReturn IsFresh) made make_sync_udp_transport-OnReturn

  pub made_serdes :
      {t : UdpTransport S}
      → make_sync_udp_transport net remote_host remote_port local_host local_port ≡ ok t
      → make_serdes (udp_get_max_message_size t) ≡ ok (record { max_message_size = 1_452 })
  unfolding make_serdes udp_get_max_message_size
  made_serdes made = rw ((made-IsFresh made).0) refl
