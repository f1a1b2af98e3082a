-- ===== src/Result.antt =====
-- Types.h and the exception of Transports.h: what a call can end in, and how calls are chained.
use rap_cpp.Base.{◌⊎◌, inl, inr, ℕ, ◌≡◌, refl, subst, Bool, true, false, Option, none, some}

-- The classes of exceptions, with the fields that a handler can read, in the order in which
-- the constructors take them. `base_exception` is `Exception` itself, which the code throws
-- for an array whose size is not as announced and for a small `max_message_size`. The last one is
-- `std::error_code`, which SyncUdpTransport.cpp throws as it gets it from asio.
pub data Exception : Type 0 where
  base_exception : Exception
  crc_mismatch : (expected actual : ℕ) → Exception
  operation_nak : (status : ℕ) → Exception
  unexpected_message_type : Exception
  malformed_packet : Exception
  rap_protocol : Exception
  message_size : Exception
  transport_timeout : Exception
  error_code : (value : ℕ) → Exception

-- What no handler sees: a read or a write outside of a buffer, a failed `assert`, a division
-- by zero, the end of a function that should have returned a value, and the end of the program by
-- an exception that a thread does not catch.
pub data Fault : Type 0 where
  out_of_range assertion_failed division_by_zero no_return uncaught_exception : Fault

pub data Result {ℓ} (A : Type ℓ) : Type ℓ where
  ok : A → Result A
  throw : Exception → Result A
  abort : Fault → Result A

infixl 5 ◌>>=◌ ◌>>◌
abbrev pub ◌>>=◌ {ℓ κ} : {A : Type ℓ} {B : Type κ} → Result A → (A → Result B) → Result B
ok a >>= f = f a
throw e >>= f = throw e
abort x >>= f = abort x

abbrev pub ◌>>◌ {ℓ} : {B : Type ℓ} → Result (Unit {0}) → Result B → Result B
m >> k = m >>= λ _. k

-- If the call returns a value, `P` holds of it.
abbrev pub OnReturn {ℓ} : {A : Type ℓ} → (A → Type 0) → Result A → Type 0
OnReturn P (ok a) = P a
OnReturn P _ = Unit

-- What the last call of a chain returns is what the chain returns.
pub OnReturn-then {ℓ κ} :
    {A : Type ℓ} {B : Type κ} (P : B → Type 0) (first : Result A) (rest : A → Result B)
    → ((a : A) → OnReturn P (rest a))
    → OnReturn P (first >>= rest)
OnReturn-then P (ok a) rest each = each a
OnReturn-then P (throw e) rest each = tt
OnReturn-then P (abort x) rest each = tt

-- `if (test) throw e;`
abbrev pub throw_if : Bool → Exception → Result (Unit {0})
throw_if true e = throw e
throw_if false e = ok tt

-- `assert(test);`
abbrev pub assert : Bool → Result (Unit {0})
assert true = ok tt
assert false = abort assertion_failed

-- A read that has to be in range.
abbrev pub in_range {ℓ} : {A : Type ℓ} → Option A → Result A
in_range none = abort out_of_range
in_range (some a) = ok a

pub ok-injective {ℓ} : {A : Type ℓ} {a b : A} → ok a ≡ ok b → a ≡ b
ok-injective h = cc

-- The call stays within what the language defines: it throws, or it returns a value with `P`.
abbrev pub Ensures {ℓ} : {A : Type ℓ} → (A → Type 0) → Result A → Type 0
Ensures P (ok a) = P a
Ensures P (throw e) = Unit
Ensures P (abort x) = ⊥

pub Ensures->>= {ℓ κ} :
    {A : Type ℓ} {B : Type κ} (P : A → Type 0) (Q : B → Type 0) (m : Result A) (f : A → Result B)
    → Ensures P m
    → ((a : A) → P a → Ensures Q (f a))
    → Ensures Q (m >>= f)
Ensures->>= P Q (ok a) f h k = k a h
Ensures->>= P Q (throw e) f h k = tt
Ensures->>= P Q (abort x) f h k = h

pub Ensures-weaken {ℓ} :
    {A : Type ℓ} (P Q : A → Type 0) (r : Result A)
    → Ensures P r
    → ((a : A) → P a → Q a)
    → Ensures Q r
Ensures-weaken P Q (ok a) h k = k a h
Ensures-weaken P Q (throw e) h k = tt
Ensures-weaken P Q (abort x) h k = h

pub Ensures-cases {ℓ} :
    {A : Type ℓ} (P : A → Type 0) (r : Result A)
    → Ensures P r
    → ((a : A) × (r ≡ ok a) × P a) ⊎ ((e : Exception) × (r ≡ throw e))
Ensures-cases P (ok a) h = inl (a, refl, h)
Ensures-cases P (throw e) h = inr (e, refl)
Ensures-cases P (abort x) h = absurd h

pub Ensures-eq-ok {ℓ} :
    {A : Type ℓ} (P : A → Type 0) (r : Result A) {a : A} → Ensures P r → r ≡ ok a → P a
Ensures-eq-ok P (ok a) h e = subst P (ok-injective e) h
Ensures-eq-ok P (throw e') h e = cc
Ensures-eq-ok P (abort x) h e = cc

-- What follows a guard may rely on it.
pub Ensures-throw_if {ℓ} :
    {A : Type ℓ} (Q : A → Type 0) (test : Bool) (e : Exception) (m : Result A)
    → (test ≡ false → Ensures Q m)
    → Ensures Q (throw_if test e >> m)
Ensures-throw_if Q true e m h = tt
Ensures-throw_if Q false e m h = h refl

-- The outermost constructor that a `switch` puts around a result.
pub Ensures-map {ℓ κ} :
    {A : Type ℓ} {B : Type κ} (Q : B → Type 0) (g : A → B) (m : Result A)
    → Ensures (λ a. Q (g a)) m
    → Ensures Q (m >>= λ a. ok (g a))
Ensures-map Q g (ok a) h = h
Ensures-map Q g (throw e) h = tt
Ensures-map Q g (abort x) h = h

-- The call returns a value with `P`.
abbrev pub Returns {ℓ} : {A : Type ℓ} → (A → Type 0) → Result A → Type 0
Returns P (ok a) = P a
Returns P (throw e) = ⊥
Returns P (abort x) = ⊥

pub Returns-ok {ℓ} :
    {A : Type ℓ} (P : A → Type 0) (r : Result A) → Returns P r → (a : A) × (r ≡ ok a) × P a
Returns-ok P (ok a) h = (a, refl, h)
Returns-ok P (throw e) h = absurd h
Returns-ok P (abort x) h = absurd h
