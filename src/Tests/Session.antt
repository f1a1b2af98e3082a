-- ===== src/Tests/Session.antt =====
-- The theorems on sessions: a client reads, gives up, and reads again.
use rap_cpp.Base.{List, ◌++◌, map, ℕ, ◌+◌, ◌<◌, ◌≤◌, ◌≡◌, refl, inl, [], ◌∷◌, arith}
use rap_cpp.Result.{ok, throw, rap_protocol}
use rap_cpp.Messages.Response.{Response}
use rap_cpp.Messages.Relationship.{to_read_seq}
use rap_cpp.Serdes.Response.Decode.{decode_response}
use rap_cpp.Serdes.Tests.{sum_crc, sum_crc-IsCrc, serdes, serdes-IsSerdes}
use rap_cpp.PairedIpc.{push, pop, pop_or_stop}
use rap_cpp.RegisterTarget.Exchange.{visit}
use rap_cpp.RegisterTarget.Visit.{Accepts}
use rap_cpp.ServerAdapter.Answers.{IsReply}
use rap_cpp.Session.Server.{take_command, send_response}
use rap_cpp.Session.System.{Session, idle, take_response, Reach}
use rap_cpp.Session.Invariant.{Inv}
use rap_cpp.Session.Reachable.{Reach-Inv}
use rap_cpp.Session.Log.{Performed}
use rap_cpp.Session.Linear.{linearized}
use rap_cpp.Messages.{Command}
use rap_cpp.Session.Lag.{out_of_sync, stale_accepted}
use rap_cpp.Session.Bound.{none, client_more, worker_more, weight, Runs-bounded}
use rap_cpp.Session.Progress.{IsAnswered, response_arrives}
use rap_cpp.Tests.Device.{all_features, all_features-IsUsable, device, device-IsTarget}
use rap_cpp.Tests.Runs.{
  answered, first, sent_first, sent_first-Reached, first_out, first_after, first_served,
  first_served-Reached, one_reply, second, behind, behind_next, behind_wrapped,
}

Reach-Inv_example : Inv sum_crc all_features serdes sent_first
Reach-Inv_example =
    Reach-Inv sum_crc all_features sum_crc-IsCrc all_features-IsUsable serdes serdes-IsSerdes device
      device-IsTarget 42 sent_first sent_first-Reached

response_arrives_example :
    (after : Session ℕ) × Reach sum_crc all_features serdes device sent_first after
    × IsAnswered sent_first after
response_arrives_example =
    response_arrives sum_crc all_features sum_crc-IsCrc all_features-IsUsable serdes serdes-IsSerdes
      device device-IsTarget 42 sent_first first sent_first-Reached refl (inl refl)

linearized_example :
    (log : List (Command × Response)) × (r : Response) × Performed all_features serdes device 42
      (log ++ ((first.command, r) ∷ []))
      first_after
    × ((first.command ∷ []) ≡ map (λ e. e.0) log ++ (first.command ∷ []))
    × (decode_response sum_crc all_features first_out ≡ ok r)
    × IsReply all_features serdes first.command r
linearized_example =
    linearized sum_crc all_features sum_crc-IsCrc all_features-IsUsable serdes serdes-IsSerdes
      device device-IsTarget 42 first_served first first_out [] first_served-Reached refl one_reply
      refl

Runs-bounded_example :
    3
      + weight (record first_served {
        client = idle;
        server = record first_served.server { replies = [] };
        pending = [];
      })
    ≤ weight sent_first
unfolding push pop pop_or_stop
Runs-bounded_example = Runs-bounded sum_crc all_features serdes device {s = sent_first} {n = 3} (
    client_more
      (worker_more
        (worker_more none (
          take_command {out = first_out} refl refl
            (answered 0 16 42 (omega arith) (omega arith)).2))
        (send_response refl))
      refl (take_response {x = first} refl refl))

out_of_sync_example :
    (r : Response) × (decode_response sum_crc all_features first_out ≡ ok r)
    × IsReply all_features serdes first.command r
    × (0 < 1)
    × (visit to_read_seq 1 r ≡ throw rap_protocol)
out_of_sync_example =
    out_of_sync sum_crc all_features sum_crc-IsCrc all_features-IsUsable serdes serdes-IsSerdes
      device device-IsTarget 42 (behind 0 1) behind_next (second 0 1) first_out [] refl one_reply
      first (second 0 1 ∷ []) refl to_read_seq (omega arith) (omega arith)

stale_accepted_example :
    (log : List (Command × Response)) × (later : List (Command × Response)) × (skipped : List
      Command)
    × (r : Response) × Performed all_features serdes device 42
        (log ++ ((first.command, r) ∷ later))
        first_after
    × ((first.command ∷ (second 255 0).command ∷ [])
        ≡ map (λ e. e.0) log ++ (first.command ∷ (skipped ++ ((second 255 0).command ∷ []))))
    × (decode_response sum_crc all_features first_out ≡ ok r)
    × Accepts to_read_seq 0 r
stale_accepted_example =
    stale_accepted sum_crc all_features sum_crc-IsCrc all_features-IsUsable serdes serdes-IsSerdes
      device device-IsTarget 42 (behind 255 0) behind_wrapped (second 255 0) first_out [] refl
      one_reply first (second 255 0 ∷ []) refl to_read_seq (λ r kind. kind) refl
