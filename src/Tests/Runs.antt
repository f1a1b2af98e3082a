-- ===== src/Tests/Runs.antt =====
-- Sessions of a client with the device, step by step.
use rap_cpp.Base.{ℕ, false, zero, suc, ◌<◌, ◌≡◌, refl, ap, ◌∙◌, List, [], ◌∷◌, ◌++◌, arith}
use rap_cpp.Configuration.{IsUsable-Widths}
use rap_cpp.Result.{ok}
use rap_cpp.Messages.{Command, read_seq}
use rap_cpp.Messages.Response.{Response}
use rap_cpp.Serdes.Buffer.{Buffer}
use rap_cpp.Serdes.Command.Encode.{encode_command}
use rap_cpp.Serdes.Command.Wire.{wire}
use rap_cpp.Serdes.Command.Encoded.{encode_command-wire, encode_command_refuses}
use rap_cpp.Serdes.Response.Wire.{response_wire}
use rap_cpp.Serdes.Tests.{sum_crc, sum_crc-IsCrc, serdes, serdes-IsSerdes}
use rap_cpp.PairedIpc.{push, pop, pop_or_stop}
use rap_cpp.ServerAdapter.{work_on}
use rap_cpp.ServerAdapter.Answers.{work_on_answers}
use rap_cpp.Session.Server.{started, listening, take_command, send_response}
use rap_cpp.Session.System.{
  Sent, Session, idle, waiting, init, draw, refuse, send, time_out, Reach, here, client_then,
  worker_then,
}
use rap_cpp.Tests.Device.{all_features, all_features-IsUsable, device, device-IsTarget}

-- A read of two words, with an id.
abbrev pub read_at : ℕ → ℕ → Command
read_at id addr =
    read_seq (record { transaction_id = id; start_addr = addr; increment = 4; count = 2 })

abbrev pub packet_of : Command → Buffer
packet_of cmd = wire sum_crc all_features cmd

abbrev pub Reached : Session ℕ → Type 0
Reached w = Reach sum_crc all_features serdes device (init 42) w

pub read_at_encoded :
    (id addr : ℕ)
    → encode_command sum_crc all_features serdes (read_at id addr)
      ≡ ok (packet_of (read_at id addr))
read_at_encoded id addr =
    encode_command-wire sum_crc all_features sum_crc-IsCrc (IsUsable-Widths all_features-IsUsable)
      serdes serdes-IsSerdes (read_at id addr) (omega arith, omega arith)

-- What the worker makes of such a packet.
pub answered :
    (id addr s : ℕ)
    → id < 256
    → addr < 256
    → (r : Response) × (after : ℕ) × (work_on device sum_crc all_features serdes
          (packet_of (read_at id addr))
          s
        ≡ (after, ok (response_wire sum_crc all_features r)))
answered id addr s small near =
    let (r, e, worked, is_reply) =
      work_on_answers sum_crc all_features sum_crc-IsCrc all_features-IsUsable serdes
        serdes-IsSerdes device device-IsTarget (read_at id addr) s (omega arith, omega arith)
        (ground arith) in
    (r, _, worked)

abbrev pub first : Sent
first = record { serial = 0; command = read_at 0 16 }

-- The first read is sent.
abbrev pub sent_first : Session ℕ
sent_first = record (draw (init 42)) {
  client = waiting first;
  server = record (started 42) { commands = packet_of first.command ∷ [] };
  pending = first ∷ [];
  calls = first.command ∷ [];
}

pub sent_first-Reached : Reached sent_first
unfolding push
sent_first-Reached =
    client_then here (send first.command refl refl (ground arith) (read_at_encoded 0 16))

-- The worker takes a command and pushes its response.
abbrev pub served : Session ℕ → List Buffer → ℕ → Buffer → Session ℕ
served w cs after out = record w {
  server = record {
    worker = listening;
    commands = cs;
    replies = w.server.replies ++ (out ∷ []);
    device = after;
  };
}

abbrev pub out_of : (id addr : ℕ) → id < 256 → addr < 256 → Buffer
out_of id addr small near = response_wire sum_crc all_features (answered id addr 42 small near).0

pub serve :
    (w : Session ℕ) (cs : List Buffer) (id addr : ℕ) (small : id < 256) (near : addr < 256)
    → Reached w
    → w.server.worker ≡ listening
    → w.server.commands ≡ packet_of (read_at id addr) ∷ cs
    → w.server.device ≡ 42
    → Reached (served w cs (answered id addr 42 small near).1 (out_of id addr small near))
unfolding push pop pop_or_stop
serve w cs id addr small near reached free queue at =
    let (r, after, worked) = answered id addr 42 small near in
    worker_then
      (worker_then reached (
        take_command free (ap (pop_or_stop false) queue) (
          ap (work_on device sum_crc all_features serdes (packet_of (read_at id addr))) at
          ∙ worked)))
      (send_response refl)

abbrev pub first_out : Buffer
first_out = out_of 0 16 (omega arith) (omega arith)

abbrev pub first_after : ℕ
first_after = (answered 0 16 42 (omega arith) (omega arith)).1

abbrev pub first_served : Session ℕ
first_served = served sent_first [] first_after first_out

pub first_served-Reached : Reached first_served
first_served-Reached =
    serve sent_first [] 0 16 (omega arith) (omega arith) sent_first-Reached refl refl refl

pub one_reply : pop (first_out ∷ []) ≡ ([], ok first_out)
unfolding pop
one_reply = refl

-- The client gives the first read up and sends another, with ids drawn in between.
abbrev pub given_up : Session ℕ
given_up = record sent_first { client = idle; timeouts = 1 }

pub given_up-Reached : Reached given_up
unfolding pop
given_up-Reached = client_then sent_first-Reached (time_out refl refl)

-- The ids that calls draw whose command is refused.
abbrev pub draws : ℕ → Session ℕ → Session ℕ
draws zero w = w
draws (suc n) w = draw (draws n w)

pub draws-idle : (n : ℕ) (w : Session ℕ) → w.client ≡ idle → (draws n w).client ≡ idle
draws-idle zero w free = free
draws-idle (suc n) w free = draws-idle n w free

abbrev pub read_many : ℕ → Command
read_many id =
    read_seq (record { transaction_id = id; start_addr = 16; increment = 4; count = 200 })

pub draws-Reached : (n : ℕ) (w : Session ℕ) → w.client ≡ idle → Reached w → Reached (draws n w)
draws-Reached zero w free reached = reached
draws-Reached (suc n) w free reached = client_then (draws-Reached n w free reached) (
    refuse (read_many (draws n w).next_txn_id) (draws-idle n w free) refl (
      encode_command_refuses sum_crc all_features sum_crc-IsCrc
        (IsUsable-Widths all_features-IsUsable) serdes serdes-IsSerdes _
        (λ room. absurd (omega (arith, room.0)))))

abbrev pub later : ℕ → Session ℕ
later n = draws n given_up

abbrev pub second : ℕ → ℕ → Sent
second n id = record { serial = (later n).drawn; command = read_at id 32 }

-- The second read is sent, and the worker answers the first.
abbrev pub sent_second : ℕ → ℕ → Session ℕ
sent_second n id = record (draw (later n)) {
  client = waiting (second n id);
  server = record (later n).server {
    commands = (push (packet_of (second n id).command) (later n).server.commands).0;
  };
  pending = (later n).pending ++ (second n id ∷ []);
  calls = (later n).calls ++ ((second n id).command ∷ []);
}

pub sent_second-Reached :
    (n id : ℕ) → id < 256 → id ≡ (later n).next_txn_id → Reached (sent_second n id)
sent_second-Reached n id small same =
    client_then (draws-Reached n given_up refl given_up-Reached) (
      send (read_at id 32) (draws-idle n given_up refl) same (ground arith) (read_at_encoded id 32))

-- With the next id, and with the one that is 256 ids later.
abbrev pub behind : ℕ → ℕ → Session ℕ
behind n id = served (sent_second n id) (packet_of (second n id).command ∷ []) first_after first_out

pub behind_next : Reached (behind 0 1)
unfolding push
behind_next =
    serve (sent_second 0 1) _ 0 16 (omega arith) (omega arith)
      (sent_second-Reached 0 1 (omega arith) refl) refl refl refl

pub behind_wrapped : Reached (behind 255 0)
unfolding push
behind_wrapped =
    serve (sent_second 255 0) _ 0 16 (omega arith) (omega arith)
      (sent_second-Reached 255 0 (omega arith) refl) refl refl refl
