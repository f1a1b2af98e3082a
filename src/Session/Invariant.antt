-- ===== src/Session/Invariant.antt =====
-- What is to hold of a session.
use rap_cpp.Base.{◌%◌, ◌≡◌, refl, subst, [], ◌∷◌, All}
use rap_cpp.Configuration.{Cfg}
use rap_cpp.Result.{ok, throw, Exception, transport_timeout}
use rap_cpp.Serdes.Size.{Serdes}
use rap_cpp.Serdes.Buffer.{Buffer, Calculate}
use rap_cpp.PairedIpc.{IpcTransportQueue, pop}
use rap_cpp.Session.System.{Session, ClientPc}
use rap_cpp.Session.Pending.{IsSent, Ascending, IsLag}
use rap_cpp.Session.Flow.{ServerFlow}

pub record Inv (calculate : Calculate) (cfg : Cfg) (serdes : Serdes) {S : Type 0} (s : Session S)
    : Type 0 where
  pub counter : s.next_txn_id ≡ s.drawn % 256
  pub sent : All (IsSent cfg serdes) s.pending
  pub ascending : Ascending 0 s.pending s.drawn
  pub lag : IsLag s.client s.pending s.timeouts
  pub flow : ServerFlow calculate cfg serdes s.server s.pending

pub pop_ok :
    (q : IpcTransportQueue) {rest : IpcTransportQueue} {buf : Buffer}
    → pop q ≡ (rest, ok buf)
    → q ≡ buf ∷ rest
unfolding pop
pop_ok [] h = cc
pop_ok (b ∷ q) h = cc

pub pop_throws :
    (q : IpcTransportQueue) {rest : IpcTransportQueue} {e : Exception}
    → pop q ≡ (rest, throw e)
    → (q ≡ []) × (e ≡ transport_timeout)
unfolding pop
pop_throws [] h = (refl, cc)
pop_throws (b ∷ q) h = absurd (cc)

module _ {calculate : Calculate} {cfg : Cfg} {serdes : Serdes} {S : Type 0} where
  pub IsLag-of :
      {s : Session S} {pc : ClientPc}
      → Inv calculate cfg serdes s
      → s.client ≡ pc
      → IsLag pc s.pending s.timeouts
  IsLag-of {s} inv e = subst (λ c. IsLag c s.pending s.timeouts) e inv.lag
