-- ===== src/Loop/Copy.antt =====
-- The copy of the words of an acknowledgement into the span of the caller, after an exchange.
use rap_cpp.Base.{ℕ, ◌≤◌, ◌≡◌, refl, ap, ◌∙◌, List, [], ◌∷◌, ◌++◌, length, drop, arith}
use rap_cpp.Result.{Result, ok, throw, abort, Ensures}
use rap_cpp.Calls.{and_then, lift}
use rap_cpp.RegisterTarget.Exchange.{copy}
use rap_cpp.Loop.Exchange.{settled}

-- Words over the front of a span.
abbrev pub over : List ℕ → List ℕ → List ℕ
over words out = words ++ drop (length words) out

pub copy-over :
    (words out : List ℕ) → length words ≤ length out → copy words out ≡ ok (over words out)
unfolding copy
copy-over [] out h = refl
copy-over (d ∷ ds) [] h = absurd (omega arith)
copy-over (d ∷ ds) (o ∷ out) h = rw (copy-over ds out (omega arith)) refl

pub copied_over :
    {C A : Type 0} (c : C) (out : List ℕ) (r : Result (List ℕ)) (mk : List ℕ → A) (g : A → List ℕ)
    → ((ws : List ℕ) → g (mk ws) ≡ ws)
    → Ensures (λ ws. length ws ≤ length out) r
    → and_then (c, settled mk r) (λ a. lift (copy (g a) out)) ≡ (c, settled (λ ws. over ws out) r)
copied_over c out (ok ws) mk g h short = rw (h ws, copy-over ws out short) refl
copied_over c out (throw e) mk g h short = refl
copied_over c out (abort x) mk g h short = refl

-- As many words as the span has are what it holds then.
over_whole : (words out : List ℕ) → length words ≡ length out → over words out ≡ words
over_whole [] [] h = refl
over_whole [] (o ∷ out) h = absurd (omega arith)
over_whole (d ∷ ds) [] h = absurd (omega arith)
over_whole (d ∷ ds) (o ∷ out) h = ap (λ ws. d ∷ ws) (over_whole ds out (omega arith))

pub copied :
    {C A : Type 0} (c : C) (out : List ℕ) (r : Result (List ℕ)) (mk : List ℕ → A) (g : A → List ℕ)
    → ((ws : List ℕ) → g (mk ws) ≡ ws)
    → Ensures (λ ws. length ws ≡ length out) r
    → and_then (c, settled mk r) (λ a. lift (copy (g a) out)) ≡ (c, settled (λ x. x) r)
copied c out (ok ws) mk g h same =
    copied_over c out (ok ws) mk g h (omega (arith, same))
    ∙ ap (λ ws'. (c, ok ws')) (over_whole ws out same)
copied c out (throw e) mk g h same = refl
copied c out (abort x) mk g h same = refl
