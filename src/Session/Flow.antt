-- ===== src/Session/Flow.antt =====
-- The buffers of a session against the commands whose responses the client has not taken: first
-- those whose responses are in the queue, then the one in hand, then those in the other queue.
use rap_cpp.Base.{subst, ◌⊎◌, inl, inr, ◌≡◌, refl, List, [], ◌∷◌, ◌++◌, All}
use rap_cpp.Configuration.{Cfg}
use rap_cpp.Result.{transport_timeout}
use rap_cpp.Messages.{Command}
use rap_cpp.Messages.Response.{Response}
use rap_cpp.Serdes.Size.{Serdes}
use rap_cpp.Serdes.Buffer.{Buffer, Calculate}
use rap_cpp.Serdes.Command.Wire.{wire}
use rap_cpp.Serdes.Response.Wire.{response_wire}
use rap_cpp.ServerAdapter.Answers.{IsReply}
use rap_cpp.Session.Server.{Server, WorkerPc, listening, sending, returned, terminated}
use rap_cpp.Session.System.{Sent, tail_of}
use rap_cpp.Session.Pending.{IsSent}

module _ (calculate : Calculate) (cfg : Cfg) (serdes : Serdes) where
  -- The buffer is the packet of a response to the command.
  abbrev pub IsReplyTo : Command → Buffer → Type 0
  IsReplyTo cmd buf =
      (r : Response) × (buf ≡ response_wire calculate cfg r) × IsReply cfg serdes cmd r

  abbrev pub Queued : List Buffer → List Sent → Type 0
  Queued [] [] = Unit
  Queued (c ∷ cs) (x ∷ xs) = (c ≡ wire calculate cfg x.command) × Queued cs xs
  Queued _ _ = ⊥

  -- A worker that has returned may have dropped the command that it took last.
  abbrev pub Left : List Buffer → List Sent → Type 0
  Left cs [] = Queued cs []
  Left cs (x ∷ xs) = Queued cs (x ∷ xs) ⊎ Queued cs xs

  abbrev pub InHand : WorkerPc → List Buffer → List Sent → Type 0
  InHand (sending out) cs [] = ⊥
  InHand (sending out) cs (x ∷ xs) = IsReplyTo x.command out × Queued cs xs
  InHand listening cs xs = Queued cs xs
  InHand returned cs xs = Left cs xs
  InHand (terminated e) cs xs = (e ≡ transport_timeout) × Queued cs xs

  abbrev pub Flow : List Buffer → WorkerPc → List Buffer → List Sent → Type 0
  Flow [] w cs xs = InHand w cs xs
  Flow (b ∷ bs) w cs [] = ⊥
  Flow (b ∷ bs) w cs (x ∷ xs) = IsReplyTo x.command b × Flow bs w cs xs

  -- The same of the queues and the worker of a server.
  abbrev pub ServerFlow : {S : Type 0} → Server S → List Sent → Type 0
  ServerFlow p xs = Flow p.replies p.worker p.commands xs

  Queued-append :
      (cs : List Buffer) (xs : List Sent) (x : Sent)
      → Queued cs xs
      → Queued (cs ++ (wire calculate cfg x.command ∷ [])) (xs ++ (x ∷ []))
  Queued-append [] [] x h = (refl, tt)
  Queued-append (c ∷ cs) (y ∷ ys) x h = (h.0, Queued-append cs ys x h.1)
  Queued-append [] (y ∷ ys) x h = absurd h
  Queued-append (c ∷ cs) [] x h = absurd h

  Left-append :
      (cs : List Buffer) (xs : List Sent) (x : Sent)
      → Left cs xs
      → Left (cs ++ (wire calculate cfg x.command ∷ [])) (xs ++ (x ∷ []))
  Left-append cs [] x h = inl (Queued-append cs [] x h)
  Left-append cs (y ∷ ys) x (inl h) = inl (Queued-append cs (y ∷ ys) x h)
  Left-append cs (y ∷ ys) x (inr h) = inr (Queued-append cs ys x h)

  pub Left-all : (cs : List Buffer) (xs : List Sent) → Queued cs xs → Left cs xs
  Left-all cs [] h = h
  Left-all cs (x ∷ xs) h = inl h

  InHand-append :
      (w : WorkerPc) (cs : List Buffer) (xs : List Sent) (x : Sent)
      → InHand w cs xs
      → InHand w (cs ++ (wire calculate cfg x.command ∷ [])) (xs ++ (x ∷ []))
  InHand-append (sending out) cs (y ∷ ys) x h = (h.0, Queued-append cs ys x h.1)
  InHand-append (sending out) cs [] x h = absurd h
  InHand-append listening cs xs x h = Queued-append cs xs x h
  InHand-append returned cs xs x h = Left-append cs xs x h
  InHand-append (terminated e) cs xs x h = (h.0, Queued-append cs xs x h.1)

  -- A command is sent.
  pub Flow-send :
      (bs : List Buffer) (w : WorkerPc) (cs : List Buffer) (xs : List Sent) (x : Sent)
      → Flow bs w cs xs
      → Flow bs w (cs ++ (wire calculate cfg x.command ∷ [])) (xs ++ (x ∷ []))
  Flow-send [] w cs xs x h = InHand-append w cs xs x h
  Flow-send (b ∷ bs) w cs (y ∷ ys) x h = (h.0, Flow-send bs w cs ys x h.1)
  Flow-send (b ∷ bs) w cs [] x h = absurd h

  -- A response is sent.
  pub Flow-reply :
      (bs : List Buffer) (out : Buffer) (cs : List Buffer) (xs : List Sent)
      → Flow bs (sending out) cs xs
      → Flow (bs ++ (out ∷ [])) listening cs xs
  Flow-reply [] out cs (x ∷ xs) h = h
  Flow-reply (b ∷ bs) out cs (x ∷ xs) h = (h.0, Flow-reply bs out cs xs h.1)
  Flow-reply [] out cs [] h = absurd h
  Flow-reply (b ∷ bs) out cs [] h = absurd h

  -- The worker leaves its loop while it listens.
  pub Flow-leave :
      (bs : List Buffer) (w : WorkerPc) (cs : List Buffer) (xs : List Sent)
      → ((ys : List Sent) → Queued cs ys → InHand w cs ys)
      → Flow bs listening cs xs
      → Flow bs w cs xs
  Flow-leave [] w cs xs k h = k xs h
  Flow-leave (b ∷ bs) w cs (x ∷ xs) k h = (h.0, Flow-leave bs w cs xs k h.1)
  Flow-leave (b ∷ bs) w cs [] k h = absurd h

  -- It leaves with a command that it has taken.
  pub Flow-drop :
      (bs : List Buffer) (c : Buffer) (cs : List Buffer) (xs : List Sent)
      → Flow bs listening (c ∷ cs) xs
      → Flow bs returned cs xs
  Flow-drop [] c cs (x ∷ xs) h = inr h.1
  Flow-drop (b ∷ bs) c cs (x ∷ xs) h = (h.0, Flow-drop bs c cs xs h.1)
  Flow-drop [] c cs [] h = absurd h
  Flow-drop (b ∷ bs) c cs [] h = absurd h

  -- The worker has a buffer in hand for the command at the head of its queue.
  pub Flow-take :
      (bs : List Buffer) (c : Buffer) (cs : List Buffer) (xs : List Sent) (out : Buffer)
      → All (IsSent cfg serdes) xs
      → ((x : Sent)
          → IsSent cfg serdes x
          → c ≡ wire calculate cfg x.command
          → IsReplyTo x.command out)
      → Flow bs listening (c ∷ cs) xs
      → Flow bs (sending out) cs xs
  Flow-take [] c cs (x ∷ xs) out sent k h = (k x sent.0 h.0, h.1)
  Flow-take (b ∷ bs) c cs (x ∷ xs) out sent k h = (h.0, Flow-take bs c cs xs out sent.1 k h.1)
  Flow-take [] c cs [] out sent k h = absurd h
  Flow-take (b ∷ bs) c cs [] out sent k h = absurd h

  -- What the worker listens for is the packet of a command that was sent.
  pub Flow-head :
      (bs : List Buffer) (c : Buffer) (cs : List Buffer) (xs : List Sent)
      → All (IsSent cfg serdes) xs
      → Flow bs listening (c ∷ cs) xs
      → (x : Sent) × IsSent cfg serdes x × (c ≡ wire calculate cfg x.command)
  Flow-head [] c cs (x ∷ xs) sent h = (x, sent.0, h.0)
  Flow-head (b ∷ bs) c cs (x ∷ xs) sent h = Flow-head bs c cs xs sent.1 h.1
  Flow-head [] c cs [] sent h = absurd h
  Flow-head (b ∷ bs) c cs [] sent h = absurd h

  -- What the client takes is the packet of a response to the oldest command.
  pub Flow-oldest :
      (b : Buffer) (bs : List Buffer) (w : WorkerPc) (cs : List Buffer) (xs : List Sent)
      → Flow (b ∷ bs) w cs xs
      → (y : Sent) × (xs ≡ y ∷ tail_of xs) × IsReplyTo y.command b × Flow bs w cs (tail_of xs)
  Flow-oldest b bs w cs [] h = absurd h
  Flow-oldest b bs w cs (x ∷ xs) h = (x, refl, h.0, h.1)

module _ (calculate : Calculate) (cfg : Cfg) (serdes : Serdes) {S : Type 0} where
  pub Flow-of :
      (p : Server S) (xs : List Sent) {bs cs : List Buffer} {w : WorkerPc}
      → ServerFlow calculate cfg serdes p xs
      → p.replies ≡ bs
      → p.worker ≡ w
      → p.commands ≡ cs
      → Flow calculate cfg serdes bs w cs xs
  Flow-of p xs {bs} {cs} {w} h e f g =
      subst (λ q. Flow calculate cfg serdes bs w q xs) g
        (subst (λ pc. Flow calculate cfg serdes bs pc p.commands xs) f
          (subst (λ q. Flow calculate cfg serdes q p.worker p.commands xs) e h))
