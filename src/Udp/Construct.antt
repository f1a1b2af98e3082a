-- ===== src/Udp/Construct.antt =====
-- SyncUdpTransport.cpp: the constructor, in the order in which the members are declared.
use rap_cpp.Base.{ℕ, ◌+◌, ◌-◌, ◌^◌, List, [], ◌∷◌}
use rap_cpp.Result.{Result, ok, throw, abort, out_of_range, ◌>>=◌}
use rap_cpp.Serdes.Size.{to_unsigned}
use rap_cpp.Udp.{UdpTransport}
use rap_cpp.Udp.Asio.{Network}

-- `*endpoints.begin()`
abbrev pub first_of : {Endpoint : Type 0} → List Endpoint → Result Endpoint
first_of [] = abort out_of_range
first_of (endpoint ∷ endpoints) = ok endpoint

abbrev pub connected : {S : Type 0} → S × Result (Unit {0}) → Result S
connected (s, ok x) = ok s
connected (s, throw e) = throw e
connected (s, abort x) = abort x

-- `mtu - 40 - 8` on `size_t`: the headers of IPv6 and of UDP.
abbrev pub size_for : ℕ → ℕ
size_for mtu = to_unsigned 8 (mtu + 256 ^ 8 - 40 - 8)

module _ {Host Endpoint S : Type 0} (net : Network Host Endpoint S) where
  unfoldable pub resolve_endpoint : Host → ℕ → Result Endpoint
  resolve_endpoint host port = net.resolve host port >>= first_of

  -- The timeout is one second.
  unfoldable pub make_udp_transport : Host → ℕ → Host → ℕ → ℕ → Result (UdpTransport S)
  unfolding resolve_endpoint
  make_udp_transport remote_host remote_port local_host local_port mtu = do
    io_remote_ep ← resolve_endpoint remote_host remote_port
    io_local_ep ← resolve_endpoint local_host local_port
    opened ← net.open_socket io_local_ep
    io_socket ← connected (net.connect io_remote_ep opened)
    ok (record { timeout = 1_000_000; max_message_size = size_for mtu; io_socket = io_socket })

  unfoldable pub make_sync_udp_transport : Host → ℕ → Host → ℕ → Result (UdpTransport S)
  unfolding make_udp_transport
  make_sync_udp_transport remote_host remote_port local_host local_port =
      make_udp_transport remote_host remote_port local_host local_port 1500
