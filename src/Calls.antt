-- ===== src/Calls.antt =====
-- Calls that change a state and may throw: the methods of an object, with the object's state.
use rap_cpp.Base.{◌≡◌, refl}
use rap_cpp.Result.{Result, ok, throw, abort, Ensures, Returns, ok-injective}

abbrev pub Call : Type 0 → Type 0 → Type 0
Call S A = S → S × Result A

-- The state that a call has reached stays, whether it returns or throws.
abbrev pub and_then : {S A B : Type 0} → S × Result A → (A → Call S B) → S × Result B
and_then (s, ok a) f = f a s
and_then (s, throw e) f = (s, throw e)
and_then (s, abort x) f = (s, abort x)

infixl 5 ◌>>=◌ ◌>>◌
abbrev pub ◌>>=◌ : {S A B : Type 0} → Call S A → (A → Call S B) → Call S B
m >>= f = λ s. and_then (m s) f

abbrev pub ◌>>◌ : {S B : Type 0} → Call S (Unit {0}) → Call S B → Call S B
m >> k = m >>= λ _. k

-- A call that changes nothing.
abbrev pub lift : {S A : Type 0} → Result A → Call S A
lift r = λ s. (s, r)

abbrev pub return : {S A : Type 0} → A → Call S A
return a = lift (ok a)

-- `try { ... } catch (...) { return other; }`: a fault is not caught.
abbrev pub or_else : {S A B : Type 0} → S × Result A → (A → B) → B → S × Result B
or_else (s, ok a) f other = (s, ok (f a))
or_else (s, throw e) f other = (s, ok other)
or_else (s, abort x) f other = (s, abort x)

pub return-Ensures :
    {S A B : Type 0} (Q : B → Type 0) (g : A → B) (m : S × Result A)
    → Ensures (λ a. Q (g a)) m.1
    → Ensures Q (and_then m (λ a. return (g a))).1
return-Ensures Q g (s, ok a) h = h
return-Ensures Q g (s, throw e) h = tt
return-Ensures Q g (s, abort x) h = h

-- A call within bounds that is caught returns.
pub or_else-Returns :
    {S A B : Type 0} (P : B → Type 0) (m : S × Result A) (f : A → B) (other : B)
    → Ensures (λ a. P (f a)) m.1
    → P other
    → Returns P (or_else m f other).1
or_else-Returns P (s, ok a) f other h k = h
or_else-Returns P (s, throw e) f other h k = k
or_else-Returns P (s, abort x) f other h k = h

pub and_then_ok :
    {S A B : Type 0} (m : S × Result A) (f : A → Call S B) {a : A}
    → m.1 ≡ ok a
    → and_then m f ≡ f a m.0
and_then_ok (s, ok a) f h = let e = ok-injective h in rw e refl
and_then_ok (s, throw e) f h = cc
and_then_ok (s, abort x) f h = cc
