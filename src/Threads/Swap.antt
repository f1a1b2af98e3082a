-- ===== src/Threads/Swap.antt =====
-- Two threads in `doCmdResp` at once.
use rap_cpp.Base.{ℕ, ◌+◌, ◌<◌, ◌≡◌, ◌≢◌, refl, sym, ◌∙◌, ◌==◌, ==_refl, false, [], arith}
use rap_cpp.Configuration.{Cfg, IsUsable, IsUsable-Widths}
use rap_cpp.Result.{ok, throw, rap_protocol}
use rap_cpp.Interfaces.{IRegisterTarget}
use rap_cpp.Messages.{Command}
use rap_cpp.Messages.Response.{Response}
use rap_cpp.Messages.Relationship.{Answer}
use rap_cpp.Serdes.Size.{Serdes, to_unsigned}
use rap_cpp.Serdes.Buffer.{Buffer, Calculate, IsCrc}
use rap_cpp.Serdes.Limits.{IsSerdes}
use rap_cpp.Serdes.Command.Wire.{wire, IsWire, Sendable, id_of}
use rap_cpp.Serdes.Command.Encoded.{encode_command-wire}
use rap_cpp.Serdes.Response.Wire.{response_wire}
use rap_cpp.PairedIpc.{push, pop, pop_or_stop}
use rap_cpp.RegisterTarget.Exchange.{visit}
use rap_cpp.RegisterTarget.Visit.{visit_other}
use rap_cpp.ServerAdapter.{answer, work_on}
use rap_cpp.ServerAdapter.Target.{IsTarget}
use rap_cpp.ServerAdapter.Answers.{IsReply, work_on_answers}
use rap_cpp.ServerAdapter.Untrusted.{IsWire-id}
use rap_cpp.Session.Server.{started, take_command, send_response}
use rap_cpp.Session.System.{Sent}
use rap_cpp.Threads.{Threads, ThreadPc, ready, encoded, awaiting, taken, set}
use rap_cpp.Threads.Steps.{
  encode, send, take_response, ThreadsReach, here, thread_then, server_then,
}

set_same : (thread : ℕ → ThreadPc) (i : ℕ) (pc : ThreadPc) → set thread i pc i ≡ pc
unfolding set
set_same thread i pc = rw ==_refl refl

set_other : (thread : ℕ → ThreadPc) (i j : ℕ) (pc : ThreadPc) → i ≢ j → set thread i pc j ≡ thread j
unfolding set
set_other thread i j pc other = let e : (j == i) ≡ false = ground arith in rw e refl

-- No call is under way; the next id is `n`.
abbrev pub quiet : {S : Type 0} → ℕ → (ℕ → ThreadPc) → ℕ → S → Threads S
quiet n thread drawn s = record {
  next_txn_id = n;
  thread = thread;
  server = started s;
  drawn = drawn;
  pending = [];
  sends = [];
  takes = [];
}

-- Both commands are sent before either response is taken, and the second thread takes first.
module _ (thread : ℕ → ThreadPc) (i j : ℕ) (x y : Sent) (a b c d : Buffer) where
  abbrev first_sent : ℕ → ThreadPc
  first_sent = set (set thread i (encoded x a)) i (awaiting x)

  abbrev both_sent : ℕ → ThreadPc
  both_sent = set (set first_sent j (encoded y b)) j (awaiting y)

  abbrev both_taken : ℕ → ThreadPc
  both_taken = set (set both_sent j (taken y c)) i (taken x d)

  untouched : i ≢ j → thread j ≡ ready → first_sent j ≡ ready
  untouched apart free = set_other _ i j _ apart ∙ set_other thread i j _ apart ∙ free

  still_awaiting : i ≢ j → set both_sent j (taken y c) i ≡ awaiting x
  still_awaiting apart =
      let apart' : j ≢ i = λ e. apart (sym e) in
      set_other _ j i _ apart'
      ∙ set_other _ j i _ apart'
      ∙ set_other _ j i _ apart'
      ∙ set_same _ i (awaiting x)

  second_taken : i ≢ j → both_taken j ≡ taken y c
  second_taken apart = set_other _ i j _ apart ∙ set_same _ j (taken y c)

module _ (calculate : Calculate) (cfg : Cfg) (lawful : IsCrc calculate) (u : IsUsable cfg)
    (serdes : Serdes) (v : IsSerdes serdes) {S : Type 0} (target : IRegisterTarget S)
    (t : IsTarget cfg target) where
  -- The two threads' steps and the two rounds of the worker between them.
  swap :
      (n : ℕ) (thread : ℕ → ThreadPc) (drawn : ℕ) (s s' s'' : S) (i j : ℕ) (p q : Command)
      (r r' : Response)
      → i ≢ j
      → thread i ≡ ready
      → thread j ≡ ready
      → id_of p ≡ n
      → id_of q ≡ to_unsigned 1 (n + 1)
      → IsWire cfg p
      → IsWire cfg q
      → Sendable cfg serdes p
      → Sendable cfg serdes q
      → work_on target calculate cfg serdes (wire calculate cfg p) s
        ≡ (s', ok (response_wire calculate cfg r))
      → work_on target calculate cfg serdes (wire calculate cfg q) s'
        ≡ (s'', ok (response_wire calculate cfg r'))
      → (after : Threads S) × ThreadsReach calculate cfg serdes target
          (quiet n thread drawn s)
          after
        × (after.thread i
            ≡ taken (record { serial = drawn; command = p }) (response_wire calculate cfg r'))
        × (after.thread j
            ≡ taken (record { serial = drawn + 1; command = q }) (response_wire calculate cfg r))
  unfolding push pop pop_or_stop
  swap n thread drawn s s' s'' i j p q r r' apart free free' id id' fits fits' room room' worked
        worked' =
      let w = IsUsable-Widths u in
      let x : Sent = record { serial = drawn; command = p } in
      let y : Sent = record { serial = drawn + 1; command = q } in
      let a = wire calculate cfg p in
      let b = wire calculate cfg q in
      let c = response_wire calculate cfg r in
      let d = response_wire calculate cfg r' in
      let one_sent =
        thread_then
          (thread_then here
            (encode i p free id fits (encode_command-wire calculate cfg lawful w serdes v p room)))
          (send i (set_same thread i (encoded x a))) in
      let two_sent =
        thread_then
          (thread_then one_sent (
            encode j q (untouched thread i j x y a b c d apart free') id' fits'
              (encode_command-wire calculate cfg lawful w serdes v q room')))
          (send j (set_same _ j (encoded y b))) in
      let one_served =
        server_then (server_then two_sent (take_command refl refl worked)) (send_response refl) in
      let two_served =
        server_then (server_then one_served (take_command refl refl worked'))
          (send_response refl) in
      (
        _,
        thread_then
            (thread_then two_served
              (take_response j {x = y} {buf = c} (set_same _ j (awaiting y)) refl))
            (take_response i {x = x} {buf = d} (still_awaiting thread i j x y a b c d apart) refl),
        set_same _ i (taken x d),
        second_taken thread i j x y a b c d apart,
      )

  -- If no call is under way and two threads call methods of one client with commands that can be
  -- sent and whose fields fit the wire, then there is an interleaving without any timeout in which
  -- the worker answers both commands, each of the two threads takes the response to the other's
  -- command, and `doCmdResp` throws a `RapProtocolException` in both.
  pub swapped_responses :
      {Ack Ack' : Type 0} (relationship : Response → Answer Ack)
      (relationship' : Response → Answer Ack') (n : ℕ) (thread : ℕ → ThreadPc) (drawn : ℕ) (s : S)
      (i j : ℕ) (p q : Command)
      → i ≢ j
      → thread i ≡ ready
      → thread j ≡ ready
      → id_of p ≡ n
      → id_of q ≡ to_unsigned 1 (n + 1)
      → IsWire cfg p
      → IsWire cfg q
      → Sendable cfg serdes p
      → Sendable cfg serdes q
      → (after : Threads S) × (r : Response) × (r' : Response) × ThreadsReach calculate cfg serdes
          target
          (quiet n thread drawn s)
          after
        × (after.thread i
            ≡ taken (record { serial = drawn; command = p }) (response_wire calculate cfg r'))
        × (after.thread j
            ≡ taken (record { serial = drawn + 1; command = q }) (response_wire calculate cfg r))
        × IsReply cfg serdes p r
        × IsReply cfg serdes q r'
        × (visit relationship (id_of p) r' ≡ throw rap_protocol)
        × (visit relationship' (id_of q) r ≡ throw rap_protocol)
  swapped_responses relationship relationship' n thread drawn s i j p q apart free free' id id' fits
        fits' room room' =
      let s' = (answer target p s).0 in
      let (r, e, worked, reply) =
        work_on_answers calculate cfg lawful u serdes v target t p s room fits in
      let (r', e', worked', reply') =
        work_on_answers calculate cfg lawful u serdes v target t q s' room' fits' in
      let (after, reached, first, second) =
        swap n thread drawn s s' _ i j p q r r' apart free free' id id' fits fits' room room' worked
          worked' in
      let small : id_of p < 256 = IsWire-id cfg p fits in
      (
        after,
        r,
        r',
        reached,
        first,
        second,
        reply,
        reply',
        visit_other relationship (id_of p) r'
            (λ same. omega (arith, same, reply'.same_id, id, id', small)),
        visit_other relationship' (id_of q) r
            (λ same. omega (arith, same, reply.same_id, id, id', small)),
      )
