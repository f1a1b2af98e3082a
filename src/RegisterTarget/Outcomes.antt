-- ===== src/RegisterTarget/Outcomes.antt =====
-- RegisterTarget.h: the outcomes of `doCmdResp`, whatever the transport delivers.
use rap_cpp.Base.{
  ℕ, ◌≡◌, ◌↔◌, refl, sym, ap, Bool, true, false, not, if◌then◌else◌, ==_iff, List, ◌==◌,
}
use rap_cpp.Configuration.{Cfg, IsUsable, IsUsable-Widths}
use rap_cpp.Result.{
  Result, ok, throw, abort, rap_protocol, operation_nak, unexpected_message_type, ok-injective,
}
use rap_cpp.Calls.{and_then, lift}
use rap_cpp.Serdes.Response.RoundTrip.{decode_response_iff}
use rap_cpp.Interfaces.{ISyncWireTransport}
use rap_cpp.Messages.{Command}
use rap_cpp.Messages.Response.{Response}
use rap_cpp.Messages.Relationship.{Answer, is_ack, is_nak, is_other}
use rap_cpp.Serdes.Size.{Serdes, to_unsigned}
use rap_cpp.Serdes.Buffer.{Calculate, IsCrc}
use rap_cpp.Serdes.Bytes.{IsBytes}
use rap_cpp.Serdes.Limits.{IsSerdes}
use rap_cpp.Serdes.Command.Wire.{wire, Sendable, id_of}
use rap_cpp.Serdes.Command.Encoded.{encode_command-wire}
use rap_cpp.Serdes.Response.Decode.{decode_response}
use rap_cpp.Serdes.Response.Wire.{response_wire, response_id, IsWireResponse}
use rap_cpp.RegisterTarget.Exchange.{Client, visit, do_cmd_resp}

is_ack-injective : {Ack : Type 0} {a b : Ack} → is_ack a ≡ is_ack b → a ≡ b
is_ack-injective h = cc

chosen_iff :
    {Ack : Type 0} (a : Answer Ack) (ack : Ack)
    → (elim a [
      | is_ack x ↦ ok x
      | is_nak status ↦ throw (operation_nak (to_unsigned 4 status))
      | is_other ↦ throw unexpected_message_type
    ]
        ≡ ok ack)
      ↔ (a ≡ is_ack ack)
chosen_iff (is_ack x) ack = (λ h. ap is_ack (ok-injective h), λ h. ap ok (is_ack-injective h))
chosen_iff (is_nak status) ack = (λ h. cc, λ h. cc)
chosen_iff is_other ack = (λ h. cc, λ h. cc)

guarded :
    {Ack : Type 0} (test : Bool) (m : Result Ack) {a : Ack} {x y : ℕ} {B : Type 0}
    → (test ≡ true) ↔ (x ≡ y)
    → (m ≡ ok a) ↔ B
    → ((if not test then throw rap_protocol else m) ≡ ok a) ↔ ((y ≡ x) × B)
guarded true m same h = (λ e. (sym (same.0 refl), h.0 e), λ p. h.1 p.1)
guarded false m same h = (λ e. cc, λ p. absurd (let q = same.1 (sym p.0) in cc))

-- `doCmdResp` returns from `std::visit` exactly on the acknowledgement with the same id.
pub visit_iff :
    {Ack : Type 0} (relationship : Response → Answer Ack) (txn_id : ℕ) (r : Response) (ack : Ack)
    → (visit relationship txn_id r ≡ ok ack)
      ↔ ((response_id r ≡ txn_id) × (relationship r ≡ is_ack ack))
unfolding visit
visit_iff relationship txn_id r ack =
    guarded (txn_id == response_id r) _ (==_iff txn_id (response_id r))
      (chosen_iff (relationship r) ack)

picked :
    {T Ack : Type 0} (relationship : Response → Answer Ack) (txn_id : ℕ) (c : T) (ack : Ack)
    (decoded : Result Response)
    → ((and_then (c, decoded) (λ r. lift (visit relationship txn_id r))).1 ≡ ok ack) ↔ (
        (r : Response) × (decoded ≡ ok r)
        × (response_id r ≡ txn_id)
        × (relationship r ≡ is_ack ack))
picked relationship txn_id c ack (ok r) = (
  λ h. let (i, a) = (visit_iff relationship txn_id r ack).0 h in (r, refl, i, a),
  λ p. (visit_iff relationship txn_id r ack).1 (let e = ok-injective p.1 in rw e (p.2, p.3)),
)
picked relationship txn_id c ack (throw e) = (λ h. cc, λ p. cc)
picked relationship txn_id c ack (abort x) = (λ h. cc, λ p. cc)

module _ (calculate : Calculate) (cfg : Cfg) (lawful : IsCrc calculate) (u : IsUsable cfg)
    (serdes : Serdes) (v : IsSerdes serdes) {T : Type 0} (transport : ISyncWireTransport T) where
  -- Suppose that a command can be sent, that the transport takes its packet, and that it then
  -- delivers some bytes. `doCmdResp` returns an acknowledgement exactly if the bytes are the
  -- packet of a response which carries the command's transaction id and is that acknowledgement.
  pub do_cmd_resp_iff :
      {Ack : Type 0} (relationship : Response → Answer Ack) (cmd : Command) (c : Client T)
      (l l' : T) (buf : List ℕ) (ack : Ack)
      → Sendable cfg serdes cmd
      → transport.send (wire calculate cfg cmd) c.link ≡ (l, ok tt)
      → transport.recv l ≡ (l', ok buf)
      → IsBytes buf
      → ((do_cmd_resp calculate cfg serdes transport relationship cmd c).1 ≡ ok ack) ↔ (
          (r : Response) × (buf ≡ response_wire calculate cfg r)
          × IsWireResponse cfg r
          × (response_id r ≡ id_of cmd)
          × (relationship r ≡ is_ack ack))
  unfolding do_cmd_resp
  do_cmd_resp_iff relationship cmd c l l' buf ack room sent delivered bytes =
      let w = IsUsable-Widths u in
      let reached : Client T = record { next_txn_id = c.next_txn_id; link = l' } in
      let pick = picked relationship (id_of cmd) reached ack (decode_response calculate cfg buf) in
      let packet = λ (r : Response). decode_response_iff calculate cfg lawful u buf r bytes in
      rw (encode_command-wire calculate cfg lawful w serdes v cmd room, sent, delivered)
        (
          λ h.
              let (r, e, i, a) = pick.0 h in
              let (whole, fits) = (packet r).0 e in (r, whole, fits, i, a),
          λ p. pick.1 (p.0, (packet p.0).1 (p.1, p.2), p.3, p.4),
        )
