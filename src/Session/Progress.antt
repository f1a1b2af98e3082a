-- ===== src/Session/Progress.antt =====
-- How a client that waits comes to its response.
use rap_cpp.Base.{ℕ, ◌≡◌, ◌⊎◌, inl, inr, refl, ap, subst, false, List, [], ◌∷◌, ◌++◌, List-cases}
use rap_cpp.Configuration.{Cfg, IsUsable}
use rap_cpp.Result.{ok}
use rap_cpp.Interfaces.{IRegisterTarget}
use rap_cpp.Serdes.Size.{Serdes}
use rap_cpp.Serdes.Buffer.{Buffer, Calculate, IsCrc}
use rap_cpp.Serdes.Limits.{IsSerdes}
use rap_cpp.PairedIpc.{push, pop, pop_or_stop}
use rap_cpp.ServerAdapter.{work_on}
use rap_cpp.ServerAdapter.Target.{IsTarget}
use rap_cpp.Session.Server.{listening, sending, take_command, send_response}
use rap_cpp.Session.System.{
  Sent, Session, idle, waiting, init, take_response, Reach, here, client_then, worker_then,
}
use rap_cpp.Session.Pending.{IsLag}
use rap_cpp.Session.Flow.{Flow-of, Queued, Flow-head}
use rap_cpp.Session.Invariant.{Inv, IsLag-of}
use rap_cpp.Session.WorkerSteps.{work_on-IsReplyTo}
use rap_cpp.Session.Reachable.{Reach-Inv}

-- The client has its response, and no further timeout is behind it.
abbrev pub IsAnswered : {S : Type 0} → Session S → Session S → Type 0
IsAnswered w after = (after.client ≡ idle) × (after.timeouts ≡ w.timeouts)

module _ (calculate : Calculate) (cfg : Cfg) (serdes : Serdes) {S : Type 0}
    (target : IRegisterTarget S) where
  with_reply :
      (s w : Session S) (x : Sent) (b : Buffer) (bs : List Buffer)
      → Reach calculate cfg serdes target s w
      → w.client ≡ waiting x
      → w.server.replies ≡ b ∷ bs
      → (after : Session S) × Reach calculate cfg serdes target s after × IsAnswered w after
  unfolding pop
  with_reply s w x b bs r held queue =
      (_, client_then r (take_response held (ap pop queue)), (refl, refl))

  with_response :
      (s w : Session S) (x : Sent) (out : Buffer)
      → Reach calculate cfg serdes target s w
      → w.client ≡ waiting x
      → w.server.worker ≡ sending out
      → (after : Session S) × Reach calculate cfg serdes target s after × IsAnswered w after
  unfolding push
  with_response s w x out r held busy = elim (List-cases w.server.replies) [
    | inl e ↦
        with_reply s _ x out [] (worker_then r (send_response busy)) held
          (ap (λ q. q ++ (out ∷ [])) e)
    | inr (b, bs, e) ↦ with_reply s w x b bs r held e
  ]

  -- While the worker listens, it takes the command at the head of its queue and answers it.
  with_command :
      (lawful : IsCrc calculate) (u : IsUsable cfg) (v : IsSerdes serdes) (t : IsTarget cfg target)
      (s w : Session S) (x : Sent) (c : Buffer) (cs : List Buffer)
      → Reach calculate cfg serdes target s w
      → Inv calculate cfg serdes w
      → w.client ≡ waiting x
      → w.server.worker ≡ listening
      → w.server.commands ≡ c ∷ cs
      → (after : Session S) × Reach calculate cfg serdes target s after × IsAnswered w after
  unfolding pop pop_or_stop
  with_command lawful u v t s w x c cs r inv held free queue =
      let (y, sent, whole) =
        Flow-head calculate cfg serdes w.server.replies c cs w.pending inv.sent
          (Flow-of calculate cfg serdes w.server w.pending inv.flow refl free queue) in
      let (out, worked, reply) =
        work_on-IsReplyTo calculate cfg lawful u serdes v target t y w.server.device c sent whole in
      let m = work_on target calculate cfg serdes c w.server.device in
      let whole_call : m ≡ (m.0, ok out) = ap (λ r. (m.0, r)) worked in
      with_response s _ x out
        (worker_then r (take_command free (ap (pop_or_stop false) queue) whole_call)) held refl

  Queued-some :
      (cs : List Buffer) (y : Sent) (ys : List Sent)
      → Queued calculate cfg serdes cs (y ∷ ys)
      → (c : Buffer) × (rest : List Buffer) × (cs ≡ c ∷ rest)
  Queued-some [] y ys h = absurd h
  Queued-some (c ∷ rest) y ys h = (c, rest, refl)

IsLag-some :
    (x : Sent) (pending : List Sent) (timeouts : ℕ)
    → IsLag (waiting x) pending timeouts
    → (y : Sent) × (ys : List Sent) × (pending ≡ y ∷ ys)
IsLag-some x pending timeouts ([], whole, count) = (x, [], whole)
IsLag-some x pending timeouts (z ∷ zs, whole, count) = (z, zs ++ (x ∷ []), whole)

module _ (calculate : Calculate) (cfg : Cfg) (lawful : IsCrc calculate) (u : IsUsable cfg)
    (serdes : Serdes) (v : IsSerdes serdes) {S : Type 0} (target : IRegisterTarget S)
    (t : IsTarget cfg target) where
  -- There is no deadlock: in every state that is reached with commands whose fields fit the wire,
  -- with the client waiting and the worker not ended, the two threads have a schedule on which the
  -- client takes a buffer, without any timeout before.
  pub response_arrives :
      (s : S) (w : Session S) (x : Sent)
      → Reach calculate cfg serdes target (init s) w
      → w.client ≡ waiting x
      → (w.server.worker ≡ listening) ⊎ ((out : Buffer) × (w.server.worker ≡ sending out))
      → (after : Session S) × Reach calculate cfg serdes target w after × IsAnswered w after
  response_arrives s w x r held (inr (out, busy)) =
      with_response calculate cfg serdes target w w x out here held busy
  response_arrives s w x r held (inl free) = elim (List-cases w.server.replies) [
    | inr (b, bs, e) ↦ with_reply calculate cfg serdes target w w x b bs here held e
    | inl e ↦
        let inv = Reach-Inv calculate cfg lawful u serdes v target t s w r in
        let (y, ys, split) = IsLag-some x w.pending w.timeouts (IsLag-of inv held) in
        let queued =
          subst (Queued calculate cfg serdes w.server.commands) split
            (Flow-of calculate cfg serdes w.server w.pending inv.flow e free refl) in
        let (c, cs, queue) =
          Queued-some calculate cfg serdes target w.server.commands y ys queued in
        with_command calculate cfg serdes target lawful u v t w w x c cs here inv held free queue
  ]
