-- ===== src/Tests/Udp.antt =====
-- A UDP transport over a socket that is a list of datagrams.
use rap_cpp.Base.{
  if◌then◌else◌, ℕ, ◌+◌, ◌≤◌, ◌≡◌, ◌≢◌, refl, min, Bool, true, false, Option, none, some, List, [],
  ◌∷◌, length, inl, arith,
}
use rap_cpp.Configuration.{IsUsable-Widths}
use rap_cpp.Result.{Result, ok, throw, error_code, transport_timeout}
use rap_cpp.Messages.{Command, read_seq}
use rap_cpp.Serdes.Size.{Serdes, make_serdes}
use rap_cpp.Serdes.Buffer.{Buffer}
use rap_cpp.Serdes.Command.Encode.{encode_command}
use rap_cpp.Serdes.Command.Wire.{wire}
use rap_cpp.Serdes.Command.Encoded.{encode_command-wire}
use rap_cpp.Serdes.Tests.{sum_crc, sum_crc-IsCrc, serdes}
use rap_cpp.ServerAdapter.{recv_throws, background_work}
use rap_cpp.Udp.{zero_bytes, UdpTransport, udp_recv, udp_recv_or_stop, udp_get_max_message_size}
use rap_cpp.Udp.Asio.{Network, Socket, Completion}
use rap_cpp.Udp.Construct.{make_sync_udp_transport}
use rap_cpp.Udp.Delivery.{overlay, udp_recv-make_sync_udp_transport}
use rap_cpp.Udp.Silence.{udp_recv_or_stop_idle}
use rap_cpp.Tests.Device.{all_features, all_features-IsUsable, device}

-- The datagrams that are there, the buffer of an open receive, and whether the context is out of
-- work.
record Datagrams : Type 0 where
  inbox : List Buffer
  open_receive : Option Buffer
  out_of_work : Bool

abbrev silent : Datagrams
silent = record { inbox = []; open_receive = none; out_of_work = false }

abbrev receive_from : Buffer → List Buffer → Datagrams × Result (Buffer × ℕ)
receive_from buffer [] = (silent, throw (error_code 11))
receive_from buffer (d ∷ ds) =
    (record silent { inbox = ds }, ok (overlay d buffer, min (length d) (length buffer)))

abbrev complete : List Buffer → Option Buffer → Datagrams × Result (Option Completion)
complete (d ∷ ds) (some buffer) = (
  record { inbox = ds; open_receive = none; out_of_work = true },
  ok (
      some (record {
        ec = 0;
        filled = overlay d buffer;
        recvd_bytes = min (length d) (length buffer);
      })),
)
complete ds receive = (record { inbox = ds; open_receive = receive; out_of_work = false }, ok none)

-- A cancelled receive ends with the code 125.
abbrev cancelled : Datagrams → Option Buffer → Datagrams × Result (Option Completion)
cancelled s none = (s, ok none)
cancelled s (some buffer) = (
  record s { open_receive = none; out_of_work = true },
  ok (some (record { ec = 125; filled = buffer; recvd_bytes = 0 })),
)

abbrev datagrams : Socket Datagrams
datagrams = record {
  socket_send = λ buffer s. (s, ok tt);
  receive = λ buffer s. receive_from buffer s.inbox;
  async_receive = λ buffer s. record s { open_receive = some buffer };
  restart = λ s. record s { out_of_work = false };
  run_for = λ timeout s. if s.out_of_work then (s, ok none) else complete s.inbox s.open_receive;
  stopped = λ s. s.out_of_work;
  cancel = λ s. s;
  stop = λ s. record s { out_of_work = true };
  run = λ s. cancelled s s.open_receive;
}

abbrev network : Network ℕ ℕ Datagrams
network = record {
  resolve = λ host port. ok ((host + port) ∷ []);
  open_socket = λ local. ok silent;
  connect = λ remote s. (s, ok tt);
}

abbrev transport : UdpTransport Datagrams
transport = record { timeout = 1_000_000; max_message_size = 1_452; io_socket = silent }

transport_made : make_sync_udp_transport network 1 2 3 4 ≡ ok transport
unfolding make_sync_udp_transport
transport_made = refl

abbrev udp_serdes : Serdes
udp_serdes = record { max_message_size = 1_452 }

udp_serdes_made : make_serdes (udp_get_max_message_size transport) ≡ ok udp_serdes
unfolding make_serdes udp_get_max_message_size
udp_serdes_made = refl

abbrev read_two : Command
read_two = read_seq (record { transaction_id = 7; start_addr = 16; increment = 4; count = 2 })

abbrev packet : Buffer
packet = wire sum_crc all_features read_two

read_two_encoded : encode_command sum_crc all_features udp_serdes read_two ≡ ok packet
read_two_encoded =
    encode_command-wire sum_crc all_features sum_crc-IsCrc (IsUsable-Widths all_features-IsUsable)
      udp_serdes (record { large = omega arith; is_size_t = omega arith }) read_two
      (omega arith, omega arith)

abbrev arrived : Datagrams
arrived = record silent { inbox = packet ∷ [] }

udp_recv-make_sync_udp_transport_example :
    (length packet + 40 + 8 ≤ 1_500)
    × (udp_recv datagrams (record transport { io_socket = arrived }) ≡ (transport, ok packet))
    × (udp_recv_or_stop datagrams false (record transport { io_socket = arrived })
        ≡ (record transport { io_socket = record silent { out_of_work = true } }, ok packet))
udp_recv-make_sync_udp_transport_example =
    udp_recv-make_sync_udp_transport network datagrams 1 2 3 4 transport sum_crc all_features
      sum_crc-IsCrc all_features-IsUsable transport_made udp_serdes packet udp_serdes_made
      (inl (read_two, omega arith, read_two_encoded)) arrived silent
      (record silent { out_of_work = true }) (λ buffer. refl) (λ buffer. (refl, refl))

-- The receive that is open while nothing comes, and what it ends in.
abbrev waiting : Datagrams
waiting = record silent { open_receive = some (zero_bytes 1_452) }

abbrev aborted : Completion
aborted = record { ec = 125; filled = zero_bytes 1_452; recvd_bytes = 0 }

udp_recv_or_stop_idle_example :
    (udp_recv_or_stop datagrams false transport ≡ (
      record transport { io_socket = record silent { out_of_work = true } },
      throw (error_code 125),
    ))
    × (error_code 125 ≢ transport_timeout)
    × (udp_recv_or_stop datagrams true transport
        ≡ (record transport { io_socket = record waiting { out_of_work = true } }, ok []))
    × (background_work device sum_crc all_features serdes (recv_throws (error_code 125) ∷ []) 42
        ≡ record { after = 42; sent = []; ended = throw (error_code 125) })
udp_recv_or_stop_idle_example =
    udp_recv_or_stop_idle datagrams transport waiting (record silent { out_of_work = true })
      (record waiting { out_of_work = true }) aborted device sum_crc all_features serdes 42 []
      (refl, refl) (refl, omega arith) (refl, refl)
