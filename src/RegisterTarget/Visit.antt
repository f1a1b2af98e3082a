-- ===== src/RegisterTarget/Visit.antt =====
-- RegisterTarget.h: what `doCmdResp` does with a response of another id, and with one of its own.
use rap_cpp.Base.{ℕ, ◌≡◌, ◌≢◌, ◌⊎◌, inl, inr, refl, true, false, ◌==◌, arith}
use rap_cpp.Result.{ok, throw, rap_protocol, operation_nak}
use rap_cpp.Messages.Response.{Response}
use rap_cpp.Messages.Relationship.{Answer, is_ack, is_nak, is_other}
use rap_cpp.Serdes.Size.{to_unsigned}
use rap_cpp.Serdes.Response.Wire.{response_id}
use rap_cpp.RegisterTarget.Exchange.{visit}

pub visit_other :
    {Ack : Type 0} (relationship : Response → Answer Ack) (txn_id : ℕ) (r : Response)
    → txn_id ≢ response_id r
    → visit relationship txn_id r ≡ throw rap_protocol
unfolding visit
visit_other relationship txn_id r other =
    let e : (txn_id == response_id r) ≡ false = ground arith in rw e refl

-- The end of `doCmdResp` on a response: the acknowledgement, or an `OperationNakException`.
abbrev pub Accepts : {Ack : Type 0} → (Response → Answer Ack) → ℕ → Response → Type 0
Accepts {Ack} relationship txn_id r =
    ((ack : Ack) × (relationship r ≡ is_ack ack) × (visit relationship txn_id r ≡ ok ack))
    ⊎ ((status : ℕ) × (relationship r ≡ is_nak status)
        × (visit relationship txn_id r ≡ throw (operation_nak (to_unsigned 4 status))))

pub visit_own :
    {Ack : Type 0} (relationship : Response → Answer Ack) (txn_id : ℕ) (r : Response)
    → txn_id ≡ response_id r
    → relationship r ≢ is_other
    → Accepts relationship txn_id r
unfolding visit
visit_own {Ack} relationship txn_id r same kind =
    let e : (txn_id == response_id r) ≡ true = ground arith in
    (elim (relationship r)
        as (λ (a : Answer Ack). relationship r ≡ a → Accepts relationship txn_id r) [
          | is_ack ack ↦ λ k. inl (ack, k, rw (e, k) refl)
          | is_nak status ↦ λ k. inr (status, k, rw (e, k) refl)
          | is_other ↦ λ k. absurd (kind k)
        ])
      refl
