-- ===== src/Session/Log.antt =====
-- A target that performs commands one after the other, and what is to hold of a session against it:
-- a call's command is among those performed, dropped by the worker, or in the queue.
use rap_cpp.Base.{
  ◌+◌, ◌≡◌, ◌⊎◌, refl, ap, ◌∙◌, List, [], ◌∷◌, ◌++◌, map, All, length, arith, ℕ, zero, suc, subst,
  some, some-injective, get_elem?,
}
use rap_cpp.Configuration.{Cfg}
use rap_cpp.Result.{ok}
use rap_cpp.Interfaces.{IRegisterTarget}
use rap_cpp.Messages.{Command}
use rap_cpp.Messages.Response.{Response}
use rap_cpp.Serdes.Size.{Serdes}
use rap_cpp.Serdes.Buffer.{Buffer, Calculate}
use rap_cpp.Serdes.Command.Wire.{wire, IsWire, Sendable}
use rap_cpp.Serdes.Response.Wire.{response_wire}
use rap_cpp.ServerAdapter.{answer}
use rap_cpp.ServerAdapter.Answers.{IsReply}
use rap_cpp.Session.Server.{WorkerPc, listening, sending, returned, terminated}
use rap_cpp.Session.System.{Session, ClientPc, idle, waiting}

module _ (cfg : Cfg) (serdes : Serdes) {S : Type 0} (target : IRegisterTarget S) where
  -- From one state to the other the target performs these commands, with these responses.
  abbrev pub Performed : S → List (Command × Response) → S → Type 0
  Performed s [] s' = s ≡ s'
  Performed s (e ∷ log) s' =
      (m : S) × (answer target e.0 s ≡ (m, ok e.1))
      × IsReply cfg serdes e.0 e.1
      × Performed m log s'

  pub Performed-append :
      (s m m' : S) (log : List (Command × Response)) (c : Command) (r : Response)
      → Performed s log m
      → answer target c m ≡ (m', ok r)
      → IsReply cfg serdes c r
      → Performed s (log ++ ((c, r) ∷ [])) m'
  Performed-append s m m' [] c r done called reply =
      (m', ap (answer target c) done ∙ called, reply, refl)
  Performed-append s m m' (e ∷ log) c r (k, first, is_reply, done) called reply =
      (k, first, is_reply, Performed-append k m m' log c r done called reply)

  pub Performed-entry :
      (s m : S) (log : List (Command × Response)) (c : Command) (r : Response)
      (later : List (Command × Response))
      → Performed s (log ++ ((c, r) ∷ later)) m
      → IsReply cfg serdes c r
  Performed-entry s m [] c r later done = done.2
  Performed-entry s m (e ∷ log) c r later done = Performed-entry done.0 m log c r later done.3

  pub Performed-at :
      (s m : S) (log : List (Command × Response)) (k : ℕ) {e : Command × Response}
      → Performed s log m
      → get_elem? log k ≡ some e
      → IsReply cfg serdes e.0 e.1
  Performed-at s m [] k done found = absurd (cc)
  Performed-at s m (d ∷ log) zero done found =
      subst (λ e. IsReply cfg serdes e.0 e.1) (some-injective _ _ found) done.2
  Performed-at s m (d ∷ log) (suc k) done found = Performed-at done.0 m log k done.3 found

-- The log up to the response at some place, where the commands up to that place are known.
pub entry_at :
    (log : List (Command × Response)) (more settled cs : List Command) (c : Command)
    (before rs : List Response) (r : Response)
    → map (λ e. e.0) log ++ more ≡ settled ++ (c ∷ cs)
    → map (λ e. e.1) log ≡ before ++ (r ∷ rs)
    → length settled ≡ length before
    → (log' : List (Command × Response)) × (later : List (Command × Response)) × (log
        ≡ log' ++ ((c, r) ∷ later))
      × (map (λ e. e.0) log' ≡ settled)
entry_at [] more settled cs c [] rs r h k same = absurd (cc)
entry_at [] more settled cs c (q ∷ qs) rs r h k same = absurd (cc)
entry_at (e ∷ log) more [] cs c [] rs r h k same = ([], log, cc, refl)
entry_at (e ∷ log) more [] cs c (q ∷ qs) rs r h k same = absurd (omega (arith, same))
entry_at (e ∷ log) more (d ∷ ds) cs c [] rs r h k same = absurd (omega (arith, same))
entry_at (e ∷ log) more (d ∷ ds) cs c (q ∷ qs) rs r h k same =
    let (log', later, split, first) =
      entry_at log more ds cs c qs rs r (cc) (cc) (omega (arith, same)) in
    (e ∷ log', later, ap (λ l. e ∷ l) split, cc)

abbrev pub hand : WorkerPc → List Buffer
hand (sending out) = out ∷ []
hand listening = []
hand returned = []
hand (terminated e) = []

-- A client that waits waits for the response to its last call.
abbrev pub IsLastCall : ClientPc → List Command → Type 0
IsLastCall idle calls = Unit
IsLastCall (waiting x) calls = (earlier : List Command) × (calls ≡ earlier ++ (x.command ∷ []))

abbrev pub CanBeSent : Cfg → Serdes → Command → Type 0
CanBeSent cfg serdes c = Sendable cfg serdes c × IsWire cfg c

-- After the client's side has taken these buffers.
pub record Log (calculate : Calculate) (cfg : Cfg) (serdes : Serdes) {S : Type 0}
    (target : IRegisterTarget S) (s : S) (took : List Buffer) (w : Session S) : Type 0 where
  pub log : List (Command × Response)
  pub dropped : List Command
  pub queued : List Command
  pub settled : List Command
  pub before : List Response
  pub outstanding : List Response
  pub performed : Performed cfg serdes target s log w.server.device
  pub calls : w.calls ≡ map (λ e. e.0) log ++ (dropped ++ queued)
  pub queue : w.server.commands ≡ map (wire calculate cfg) queued
  pub fits : All (CanBeSent cfg serdes) queued
  pub kept : (w.server.worker ≡ returned) ⊎ (dropped ≡ [])
  pub responses : map (λ e. e.1) log ≡ before ++ outstanding
  pub replies :
      w.server.replies ++ hand w.server.worker ≡ map (response_wire calculate cfg) outstanding
  -- The calls that are settled, whose response the client has taken, stand before the pending ones.
  pub order : w.calls ≡ settled ++ map (λ x. x.command) w.pending
  pub packets : took ≡ map (response_wire calculate cfg) before
  pub level : length settled ≡ length before
  pub count : length w.pending ≡ length outstanding + length dropped + length queued
  pub last : IsLastCall w.client w.calls
