-- ===== src/Threads/History.antt =====
-- The history of several threads: the commands that they sent against the buffers that they took.
use rap_cpp.Base.{ℕ, zero, suc, ◌≡◌, refl, subst, List, [], ◌∷◌, ◌++◌, some, get_elem?}
use rap_cpp.Configuration.{Cfg}
use rap_cpp.Serdes.Size.{Serdes}
use rap_cpp.Serdes.Buffer.{Buffer, Calculate}
use rap_cpp.Session.System.{Sent}
use rap_cpp.Session.Pending.{IsSent}
use rap_cpp.Session.Flow.{IsReplyTo}

module _ (calculate : Calculate) (cfg : Cfg) (serdes : Serdes) where
  abbrev pub IsAnswer : ℕ × Sent → ℕ × Buffer → Type 0
  IsAnswer e b = IsSent cfg serdes e.1 × IsReplyTo calculate cfg serdes e.1.command b.1

  -- Each buffer is the packet of a reply to the command in its place.
  abbrev pub Answered : List (ℕ × Sent) → List (ℕ × Buffer) → Type 0
  Answered [] [] = Unit
  Answered (e ∷ es) (b ∷ bs) = IsAnswer e b × Answered es bs
  Answered _ _ = ⊥

  pub Answered-append :
      (es : List (ℕ × Sent)) (bs : List (ℕ × Buffer)) (e : ℕ × Sent) (b : ℕ × Buffer)
      → Answered es bs
      → IsAnswer e b
      → Answered (es ++ (e ∷ [])) (bs ++ (b ∷ []))
  Answered-append [] [] e b h one = (one, tt)
  Answered-append (d ∷ es) (a ∷ bs) e b h one = (h.0, Answered-append es bs e b h.1 one)
  Answered-append [] (a ∷ bs) e b h one = absurd h
  Answered-append (d ∷ es) [] e b h one = absurd h

  -- The command that a buffer answers is found in the buffer's place, also when others follow.
  pub Answered-at :
      (es more : List (ℕ × Sent)) (bs : List (ℕ × Buffer)) (k i : ℕ) (buf : Buffer)
      → Answered es bs
      → get_elem? bs k ≡ some (i, buf)
      → (j : ℕ) × (y : Sent) × (get_elem? (es ++ more) k ≡ some (j, y)) × IsAnswer (j, y) (i, buf)
  Answered-at [] more [] k i buf h found = absurd (cc)
  Answered-at [] more (b ∷ bs) k i buf h found = absurd h
  Answered-at (e ∷ es) more [] k i buf h found = absurd h
  Answered-at ((j, y) ∷ es) more (b ∷ bs) zero i buf h found =
      let same : b ≡ (i, buf) = cc in (j, y, refl, subst (IsAnswer (j, y)) same h.0)
  Answered-at (e ∷ es) more (b ∷ bs) (suc k) i buf h found =
      Answered-at es more bs k i buf h.1 found
