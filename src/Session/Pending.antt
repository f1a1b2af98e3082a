-- ===== src/Session/Pending.antt =====
-- The history of a session: commands in the order of their serials.
use rap_cpp.Base.{ℕ, suc, ◌+◌, ◌≤◌, ◌≡◌, ◌%◌, List, [], ◌∷◌, ◌++◌, length, arith}
use rap_cpp.Configuration.{Cfg}
use rap_cpp.Serdes.Size.{Serdes}
use rap_cpp.Serdes.Command.Wire.{IsWire, Sendable, id_of}
use rap_cpp.Session.System.{Sent, ClientPc, idle, waiting}

-- What a client sends: a command that can be sent, whose fields fit, and with its serial as id.
pub record IsSent (cfg : Cfg) (serdes : Serdes) (x : Sent) : Type 0 where
  pub sendable : Sendable cfg serdes x.command
  pub fits : IsWire cfg x.command
  pub id : id_of x.command ≡ x.serial % 256

-- The serials go up, from `lo` on and below `hi`.
abbrev pub Ascending : ℕ → List Sent → ℕ → Type 0
Ascending lo [] hi = lo ≤ hi
Ascending lo (x ∷ xs) hi = (lo ≤ x.serial) × Ascending (suc x.serial) xs hi

pub Ascending-append :
    (lo : ℕ) (xs : List Sent) (hi : ℕ) (x : Sent)
    → x.serial ≡ hi
    → Ascending lo xs hi
    → Ascending lo (xs ++ (x ∷ [])) (hi + 1)
Ascending-append lo [] hi x e h = (omega arith, omega arith)
Ascending-append lo (y ∷ ys) hi x e h = (h.0, Ascending-append (suc y.serial) ys hi x e h.1)

pub Ascending-raise :
    (lo : ℕ) (xs : List Sent) (hi : ℕ) → Ascending lo xs hi → Ascending lo xs (hi + 1)
Ascending-raise lo [] hi h = omega arith
Ascending-raise lo (y ∷ ys) hi h = (h.0, Ascending-raise (suc y.serial) ys hi h.1)

pub Ascending-lower :
    (lo : ℕ) (xs : List Sent) (hi lo' : ℕ) → lo' ≤ lo → Ascending lo xs hi → Ascending lo' xs hi
Ascending-lower lo [] hi lo' e h = omega arith
Ascending-lower lo (y ∷ ys) hi lo' e h = (omega (arith, h.0), h.1)

-- The last of several has a later serial than the first.
pub Ascending-last :
    (lo : ℕ) (xs : List Sent) (x : Sent) (hi : ℕ) → Ascending lo (xs ++ (x ∷ [])) hi → lo ≤ x.serial
Ascending-last lo [] x hi h = h.0
Ascending-last lo (y ∷ ys) x hi h = omega (arith, h.0, Ascending-last (suc y.serial) ys x hi h.1)

-- A waiting client waits for the response to the last pending command, and the others are the
-- commands that it gave up: as many as its timeouts.
abbrev pub IsLag : ClientPc → List Sent → ℕ → Type 0
IsLag idle pending timeouts = length pending ≡ timeouts
IsLag (waiting x) pending timeouts =
    (stale : List Sent) × (pending ≡ stale ++ (x ∷ [])) × (length stale ≡ timeouts)
