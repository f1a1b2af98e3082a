-- ===== src/Tests/Client.antt =====
-- The server's worker, the client's exchange and the transport at concrete packets.
use rap_cpp.Base.{◌⊎◌, ◌<◌, ℕ, ◌+◌, ◌≡◌, ◌↔◌, refl, true, false, List, [], ◌∷◌, length, map, arith}
use rap_cpp.Result.{base_exception, ok, throw, abort, message_size, out_of_range, transport_timeout}
use rap_cpp.Interfaces.{ISyncWireTransport}
use rap_cpp.Messages.{Command, ReadSeqCommand, read_seq}
use rap_cpp.Messages.Response.{Response, ReadSeqAckResponse, read_seq_ack}
use rap_cpp.Messages.Relationship.{is_ack, to_read_seq}
use rap_cpp.Serdes.Buffer.{Buffer}
use rap_cpp.Serdes.Limits.{IsSerdes}
use rap_cpp.Serdes.Command.Wire.{wire}
use rap_cpp.Serdes.Response.Wire.{response_wire, response_id, IsWireResponse}
use rap_cpp.Serdes.Tests.{sum_crc, sum_crc-IsCrc, serdes, serdes-IsSerdes}
use rap_cpp.Loop.Connect.{first_end, make_rap_register_target-make_sync_paired_ipc_transport}
use rap_cpp.Loop.Exchange.{idle}
use rap_cpp.PairedIpc.{
  make_sync_paired_ipc_transport, get_max_message_size, PairedIpcTransport, ipc_recv,
  ipc_recv_or_stop, peer,
}
use rap_cpp.PairedIpc.Order.{send_all, recv_all, recv_all-send_all}
use rap_cpp.ServerAdapter.{make_rap_server_adapter, answer, work_on, zeros}
use rap_cpp.ServerAdapter.Answers.{IsReply, work_on_answers}
use rap_cpp.ServerAdapter.Oversized.{work_on_oversized}
use rap_cpp.ServerAdapter.Worker.{AreReplies, run_on, background_work_answers}
use rap_cpp.RegisterTarget.Exchange.{make_rap_register_target, Client, do_cmd_resp, check_ifs}
use rap_cpp.RegisterTarget.Methods.{client_seq_read}
use rap_cpp.RegisterTarget.Outcomes.{do_cmd_resp_iff}
use rap_cpp.RegisterTarget.Overflow.{client_seq_read_overflows}
use rap_cpp.Tests.Device.{
  throwing, all_features, all_features-IsUsable, device, device-IsTarget, fill,
}

abbrev read_two : Command
read_two = read_seq (record { transaction_id = 7; start_addr = 16; increment = 4; count = 2 })

abbrev read_many : ReadSeqCommand
read_many = record { transaction_id = 7; start_addr = 16; increment = 4; count = 200 }

work_on_answers_example :
    (r : Response) × (answer device read_two 42 ≡ ((answer device read_two 42).0, ok r))
    × (work_on device sum_crc all_features serdes (wire sum_crc all_features read_two) 42
        ≡ ((answer device read_two 42).0, ok (response_wire sum_crc all_features r)))
    × IsReply all_features serdes read_two r
work_on_answers_example =
    work_on_answers sum_crc all_features sum_crc-IsCrc all_features-IsUsable serdes serdes-IsSerdes
      device device-IsTarget read_two 42 (omega arith, omega arith) (ground arith)

background_work_answers_example :
    ((run_on sum_crc all_features serdes device (read_two ∷ read_two ∷ []) 42).ended ≡ ok tt)
    × ((rs : List Response) × ((run_on sum_crc all_features serdes device
            (read_two ∷ read_two ∷ [])
            42).sent
          ≡ map (response_wire sum_crc all_features) rs)
        × AreReplies all_features serdes (read_two ∷ read_two ∷ []) rs)
background_work_answers_example =
    background_work_answers sum_crc all_features sum_crc-IsCrc all_features-IsUsable serdes
      serdes-IsSerdes device device-IsTarget (read_two ∷ read_two ∷ []) 42
      ((omega arith, omega arith), ((omega arith, omega arith), tt)) (ground arith)

work_on_oversized_example :
    work_on device sum_crc all_features serdes (wire sum_crc all_features (read_seq read_many)) 42
    ≡ (42, throw message_size)
work_on_oversized_example =
    work_on_oversized sum_crc all_features sum_crc-IsCrc all_features-IsUsable serdes
      serdes-IsSerdes device device-IsTarget read_many 42 42 (fill 42 (zeros 200)) (ground arith)
      (λ room. absurd (omega (arith, room.0))) refl

-- A transport that delivers one packet again and again.
abbrev three_words : ReadSeqAckResponse
three_words = record { transaction_id = 7; values = 1 ∷ 2 ∷ 3 ∷ [] }

abbrev three_words_packet : List ℕ
three_words_packet = 7 ∷ 133 ∷ 3 ∷ 0 ∷ 1 ∷ 0 ∷ 0 ∷ 0 ∷ 2 ∷ 0 ∷ 0 ∷ 0 ∷ 3 ∷ 0 ∷ 0 ∷ 0 ∷ 149 ∷ 0 ∷ []

abbrev delivering : ISyncWireTransport ℕ
delivering = record {
  send = λ buf s. (s + 1, ok tt);
  recv = λ s. (s, ok (response_wire sum_crc all_features (read_seq_ack three_words)));
}

abbrev replaying : ISyncWireTransport ℕ
replaying = record { send = λ buf s. (s + 1, ok tt); recv = λ s. (s, ok three_words_packet) }

abbrev client : Client ℕ
client = record { next_txn_id = 7; link = 0 }

do_cmd_resp_iff_example :
    ((do_cmd_resp sum_crc all_features serdes replaying to_read_seq read_two client).1
      ≡ ok three_words)
    ↔ ((r : Response) × (three_words_packet ≡ response_wire sum_crc all_features r)
        × IsWireResponse all_features r
        × (response_id r ≡ 7)
        × (to_read_seq r ≡ is_ack three_words))
do_cmd_resp_iff_example =
    do_cmd_resp_iff sum_crc all_features sum_crc-IsCrc all_features-IsUsable serdes serdes-IsSerdes
      replaying to_read_seq read_two client 1 1 three_words_packet three_words
      (omega arith, omega arith) refl refl (ground arith)

increments : check_ifs all_features 4 ≡ true
unfolding check_ifs
increments = refl

client_seq_read_overflows_example :
    (client_seq_read sum_crc all_features serdes delivering throwing 16 (0 ∷ 0 ∷ []) 4 client).1
    ≡ abort out_of_range
client_seq_read_overflows_example =
    client_seq_read_overflows sum_crc all_features sum_crc-IsCrc all_features-IsUsable serdes
      serdes-IsSerdes delivering throwing 16 (0 ∷ 0 ∷ []) 4 client 1 1 three_words increments
      (omega arith, omega arith) refl refl (ground arith) refl (omega arith)

abbrev an_end : PairedIpcTransport
an_end = record { tx_queue = []; rx_queue = (9 ∷ []) ∷ []; max_message_size = 512; timeout = 1_000 }

abbrev two_buffers : List Buffer
two_buffers = (1 ∷ 2 ∷ []) ∷ (3 ∷ []) ∷ []

recv_all-send_all_example :
    let there = recv_all (length two_buffers) (peer (send_all two_buffers an_end).0) in
    (there.1 ≡ ok two_buffers)
    × (there.0 ≡ peer an_end)
    × (ipc_recv there.0 ≡ (peer an_end, throw transport_timeout))
    × (ipc_recv_or_stop false there.0 ≡ (peer an_end, throw transport_timeout))
    × (ipc_recv_or_stop true there.0 ≡ (peer an_end, ok []))
recv_all-send_all_example = recv_all-send_all two_buffers an_end refl

make_rap_register_target-make_sync_paired_ipc_transport_example :
    let ends = make_sync_paired_ipc_transport 512 in
    (IsSerdes serdes
      × (make_rap_register_target (get_max_message_size ends.0) (first_end {S = ℕ} 512 42)
          ≡ ok (idle 512 0 42, serdes))
      × (make_rap_server_adapter (get_max_message_size ends.1) ≡ ok serdes))
    ⊎ ((512 < 32)
        × (make_rap_register_target (get_max_message_size ends.0) (first_end {S = ℕ} 512 42)
            ≡ throw base_exception)
        × (make_rap_server_adapter (get_max_message_size ends.1) ≡ throw base_exception))
make_rap_register_target-make_sync_paired_ipc_transport_example =
    make_rap_register_target-make_sync_paired_ipc_transport {S = ℕ} 512 42
