-- ===== src/Tests/Threads.antt =====
-- The theorems on threads: two threads read from the device.
use rap_cpp.Base.{ℕ, ◌≡◌, refl, List, ◌++◌, map, some, get_elem?, arith}
use rap_cpp.Result.{ok, throw, rap_protocol}
use rap_cpp.Messages.{Command}
use rap_cpp.Messages.Response.{Response}
use rap_cpp.Messages.Relationship.{to_read_seq}
use rap_cpp.Serdes.Response.Decode.{decode_response}
use rap_cpp.Serdes.Response.Wire.{response_wire}
use rap_cpp.Serdes.Tests.{sum_crc, sum_crc-IsCrc, serdes, serdes-IsSerdes}
use rap_cpp.RegisterTarget.Exchange.{visit}
use rap_cpp.ServerAdapter.Answers.{IsReply}
use rap_cpp.Session.System.{Sent}
use rap_cpp.Session.Pending.{IsSent}
use rap_cpp.PairedIpc.{push, pop, pop_or_stop}
use rap_cpp.Session.Server.{take_command, send_response}
use rap_cpp.Tests.Runs.{read_at, read_at_encoded, answered, first, first_out}
use rap_cpp.Threads.{Threads, ready, taken, set, all_ready}
use rap_cpp.Threads.Steps.{
  encode, send, take_response, ThreadsReach, here, thread_then, server_then,
}
use rap_cpp.Threads.Taken.{taken_decodes}
use rap_cpp.Session.Log.{Performed}
use rap_cpp.Threads.Linear.{taken-Performed}
use rap_cpp.Threads.Swap.{quiet, swapped_responses}
use rap_cpp.Tests.Device.{all_features, all_features-IsUsable, device, device-IsTarget}

abbrev Swapped : Type 0
Swapped =
    (after : Threads ℕ) × (r : Response) × (r' : Response) × ThreadsReach sum_crc all_features
      serdes device (quiet 0 (λ i. ready) 0 42) after
    × (after.thread 3
        ≡ taken (record { serial = 0; command = read_at 0 16 })
            (response_wire sum_crc all_features r'))
    × (after.thread 5
        ≡ taken (record { serial = 1; command = read_at 1 32 })
            (response_wire sum_crc all_features r))
    × IsReply all_features serdes (read_at 0 16) r
    × IsReply all_features serdes (read_at 1 32) r'
    × (visit to_read_seq 0 r' ≡ throw rap_protocol)
    × (visit to_read_seq 1 r ≡ throw rap_protocol)

swapped_responses_example : Swapped
swapped_responses_example =
    swapped_responses sum_crc all_features sum_crc-IsCrc all_features-IsUsable serdes
      serdes-IsSerdes device device-IsTarget to_read_seq to_read_seq 0 (λ i. ready) 0 42 3 5
      (read_at 0 16) (read_at 1 32) (omega arith) refl refl refl refl (ground arith) (ground arith)
      (omega arith, omega arith) (omega arith, omega arith)

-- The state that the threads reach, and what one of them has taken there.
swapped : Swapped
swapped =
    swapped_responses sum_crc all_features sum_crc-IsCrc all_features-IsUsable serdes
      serdes-IsSerdes device device-IsTarget to_read_seq to_read_seq 0 (λ i. ready) 0 42 3 5
      (read_at 0 16) (read_at 1 32) (omega arith) refl refl refl refl (ground arith) (ground arith)
      (omega arith, omega arith) (omega arith, omega arith)

taken_decodes_example :
    (k : ℕ) × (j : ℕ) × (y : Sent) × (get_elem? swapped.0.takes k
      ≡ some (3, response_wire sum_crc all_features swapped.2))
    × (get_elem? swapped.0.sends k ≡ some (j, y))
    × IsSent all_features serdes y
    × ((r : Response) × (decode_response sum_crc all_features
            (response_wire sum_crc all_features swapped.2)
          ≡ ok r)
        × IsReply all_features serdes y.command r)
taken_decodes_example =
    taken_decodes sum_crc all_features sum_crc-IsCrc all_features-IsUsable serdes serdes-IsSerdes
      device device-IsTarget 42 swapped.0 3 (record { serial = 0; command = read_at 0 16 })
      (response_wire sum_crc all_features swapped.2) swapped.3 swapped.4

-- One thread reads, and takes its response.
one_taken :
    (w : Threads ℕ) × ThreadsReach sum_crc all_features serdes device (all_ready 42) w
    × (get_elem? w.takes 0 ≡ some (3, first_out))
unfolding push pop pop_or_stop set
one_taken =
    let sent =
      thread_then
        (thread_then here (encode 3 (read_at 0 16) refl refl (ground arith) (read_at_encoded 0 16)))
        (send 3 {x = first} refl) in
    let served =
      server_then
        (server_then sent (
          take_command {out = first_out} refl refl
            (answered 0 16 42 (omega arith) (omega arith)).2))
        (send_response refl) in
    (_, thread_then served (take_response 3 {x = first} {buf = first_out} refl refl), refl)

taken-Performed_example :
    (log : List (Command × Response)) × (unperformed : List Command) × (c : Command)
    × (r : Response) × Performed all_features serdes device 42 log one_taken.0.server.device
    × (map (λ e. e.1.command) one_taken.0.sends ≡ map (λ e. e.0) log ++ unperformed)
    × (get_elem? log 0 ≡ some (c, r))
    × (decode_response sum_crc all_features first_out ≡ ok r)
taken-Performed_example =
    taken-Performed sum_crc all_features sum_crc-IsCrc all_features-IsUsable serdes serdes-IsSerdes
      device device-IsTarget 42 one_taken.0 0 3 first_out one_taken.1 one_taken.2
