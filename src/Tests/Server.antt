-- ===== src/Tests/Server.antt =====
-- The server's worker on bytes that no client has sent, and a client with short lengths.
use rap_cpp.Base.{ℕ, ◌≤◌, ◌≡◌, ◌⊎◌, refl, true, List, [], ◌∷◌, length, map, arith}
use rap_cpp.Configuration.{Cfg, IsUsable}
use rap_cpp.Result.{ok, throw, Exception, message_size, malformed_packet}
use rap_cpp.Messages.{Command, read_seq}
use rap_cpp.Messages.Response.{Response}
use rap_cpp.Serdes.Command.Decode.{decode_command}
use rap_cpp.Serdes.Command.Wire.{wire, IsWire}
use rap_cpp.Serdes.Response.Wire.{response_wire, SendableResponse}
use rap_cpp.Serdes.Reject.{decode_short}
use rap_cpp.Serdes.Tests.{sum_crc, sum_crc-IsCrc, serdes, serdes-IsSerdes}
use rap_cpp.ServerAdapter.{answer, work_on, received, background_work, zeros}
use rap_cpp.ServerAdapter.Target.{IsTarget}
use rap_cpp.ServerAdapter.Untrusted.{IsAnswer, work_on_outcomes}
use rap_cpp.ServerAdapter.Worker.{AreReplies}
use rap_cpp.ServerAdapter.Malformed.{background_work_stops}
use rap_cpp.RegisterTarget.Exchange.{check_ifs}
use rap_cpp.RegisterTarget.Methods.{client_seq_read}
use rap_cpp.Loop.{connection}
use rap_cpp.Loop.Exchange.{idle}
use rap_cpp.Loop.Narrow.{client_seq_read_narrows}
use rap_cpp.Tests.Device.{throwing, all_features, all_features-IsUsable, device, device-IsTarget}

abbrev three_bytes : List ℕ
three_bytes = 1 ∷ 2 ∷ 3 ∷ []

work_on_outcomes_example :
    ((cmd : Command) × (r : Response) × (three_bytes ≡ wire sum_crc all_features cmd)
      × IsWire all_features cmd
      × (answer device cmd 42 ≡ ((answer device cmd 42).0, ok r))
      × IsAnswer all_features cmd r
      × (((work_on device sum_crc all_features serdes three_bytes 42
              ≡ ((answer device cmd 42).0, ok (response_wire sum_crc all_features r)))
            × (length (response_wire sum_crc all_features r) ≤ 512))
          ⊎ ((¬ SendableResponse all_features serdes r)
              × (work_on device sum_crc all_features serdes three_bytes 42
                  ≡ ((answer device cmd 42).0, throw message_size)))))
    ⊎ ((e : Exception) × (decode_command sum_crc all_features three_bytes ≡ throw e)
        × (work_on device sum_crc all_features serdes three_bytes 42 ≡ (42, throw e)))
work_on_outcomes_example =
    work_on_outcomes sum_crc all_features sum_crc-IsCrc all_features-IsUsable serdes serdes-IsSerdes
      device device-IsTarget three_bytes 42 (ground arith)

abbrev read_two : Command
read_two = read_seq (record { transaction_id = 7; start_addr = 16; increment = 4; count = 2 })

background_work_stops_example :
    let run =
      background_work device sum_crc all_features serdes
        (received (wire sum_crc all_features read_two)
          ∷ (received three_bytes ∷ (received (wire sum_crc all_features read_two) ∷ [])))
        42 in
    (run.ended ≡ throw malformed_packet)
    × ((rs : List Response) × (run.sent ≡ map (response_wire sum_crc all_features) rs)
        × AreReplies all_features serdes (read_two ∷ []) rs)
background_work_stops_example =
    background_work_stops sum_crc all_features sum_crc-IsCrc all_features-IsUsable serdes
      serdes-IsSerdes device device-IsTarget (read_two ∷ []) 42 three_bytes malformed_packet
      (received (wire sum_crc all_features read_two) ∷ []) ((omega arith, omega arith), tt)
      (ground arith) (decode_short sum_crc all_features three_bytes (omega arith)).0

-- A configuration whose lengths have one byte.
abbrev short_lengths : Cfg
short_lengths = record all_features { length_size = 1; length_bytes = 1 }

short_lengths-IsUsable : IsUsable short_lengths
short_lengths-IsUsable = ground arith

short_lengths-IsTarget : IsTarget short_lengths device
short_lengths-IsTarget = record {
  write_sound = device-IsTarget.write_sound;
  read_sound = device-IsTarget.read_sound;
  read_modify_write_sound = device-IsTarget.read_modify_write_sound;
  seq_write_sound = device-IsTarget.seq_write_sound;
  seq_read_sound = device-IsTarget.seq_read_sound;
  comp_write_sound = device-IsTarget.comp_write_sound;
  comp_read_sound = device-IsTarget.comp_read_sound;
}

increments : check_ifs short_lengths 4 ≡ true
unfolding check_ifs
increments = refl

-- Of a span of 257 words one is read.
client_seq_read_narrows_example :
    client_seq_read sum_crc short_lengths serdes
      (connection sum_crc short_lengths serdes device)
      throwing
      16
      (zeros 257)
      4
      (idle 512 7 42)
    ≡ (idle 512 8 42, ok (42 ∷ zeros 256))
client_seq_read_narrows_example =
    client_seq_read_narrows sum_crc short_lengths sum_crc-IsCrc short_lengths-IsUsable serdes
      serdes-IsSerdes device short_lengths-IsTarget 512 throwing 7 16 (zeros 257) 4 42 increments
      (ground arith) (omega arith, omega arith)
