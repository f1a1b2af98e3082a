-- ===== src/ServerAdapter/Answers.antt =====
-- What `backgroundWork` of ServerAdapter.h does with one command.
use rap_cpp.Base.{List, ℕ, zero, suc, ◌^◌, ◌<◌, ◌≡◌, ◌≢◌, refl, sym, subst, ap, ◌∙◌, length, arith}
use rap_cpp.Configuration.{Cfg, Widths, IsUsable, IsUsable-Widths}
use rap_cpp.Result.{Result, ok, Ensures, Ensures-weaken, Returns, Returns-ok}
use rap_cpp.Calls.{return, or_else, and_then, and_then_ok, return-Ensures, or_else-Returns}
use rap_cpp.Interfaces.{IRegisterTarget}
use rap_cpp.Messages.{
  Command, read_single, write_single, read_seq, write_seq, read_comp, write_comp, read_modify_write,
}
use rap_cpp.Messages.Response.{
  Response, read_single_ack, write_single_ack, read_seq_ack, write_seq_ack, read_comp_ack,
  write_comp_ack, rmw_ack,
}
use rap_cpp.Messages.Relationship.{
  is_other, to_read_single, to_write_single, to_read_seq, to_write_seq, to_read_comp, to_write_comp,
  to_read_modify_write,
}
use rap_cpp.Serdes.Size.{Serdes}
use rap_cpp.Serdes.Buffer.{Calculate, IsCrc}
use rap_cpp.Serdes.Fields.{FitsIn}
use rap_cpp.Serdes.Limits.{IsSerdes}
use rap_cpp.Serdes.Writers.{lengths}
use rap_cpp.Serdes.Command.Wire.{wire, IsWire, Sendable, id_of}
use rap_cpp.Serdes.Command.Decoded.{decode_command-wire}
use rap_cpp.Serdes.Response.Wire.{response_wire, response_id, IsWireResponse, SendableResponse}
use rap_cpp.Serdes.Response.Encoded.{encode_response-wire}
use rap_cpp.ServerAdapter.{answer, work_on, zeros}
use native.Mathlib.Nat.{one-le-pow}
use rap_cpp.ServerAdapter.Target.{IsTarget, IsSpan}

-- The response is the acknowledgement or the negative acknowledgement of the command.
abbrev pub IsKind : Command → Response → Type 0
IsKind (read_single c) r = to_read_single r ≢ is_other
IsKind (write_single c) r = to_write_single r ≢ is_other
IsKind (read_seq c) r = to_read_seq r ≢ is_other
IsKind (write_seq c) r = to_write_seq r ≢ is_other
IsKind (read_comp c) r = to_read_comp r ≢ is_other
IsKind (write_comp c) r = to_write_comp r ≢ is_other
IsKind (read_modify_write c) r = to_read_modify_write r ≢ is_other

-- A response that answers the command and that goes over the wire as it is.
pub record IsReply (cfg : Cfg) (serdes : Serdes) (cmd : Command) (r : Response) : Type 0 where
  pub same_id : response_id r ≡ id_of cmd
  pub same_kind : IsKind cmd r
  pub fits : IsWireResponse cfg r
  pub room : SendableResponse cfg serdes r

pub length-zeros : (n : ℕ) → length (zeros n) ≡ n
length-zeros zero = refl
length-zeros (suc n) = ap suc (length-zeros n)

pub status_fits : (n : ℕ) → 0 < n → 0xfd < 256 ^ n
status_fits zero h = absurd (omega arith)
status_fits (suc n) h = omega (arith, one-le-pow n 256 (omega arith))

module _ (cfg : Cfg) (w : Widths cfg) (serdes : Serdes) {S : Type 0} (target : IRegisterTarget S)
    (t : IsTarget cfg target) where
  reply :
      (cmd : Command) (r : Response)
      → response_id r ≡ id_of cmd
      → IsKind cmd r
      → IsWireResponse cfg r
      → SendableResponse cfg serdes r
      → IsReply cfg serdes cmd r
  reply cmd r i k f h = record { same_id = i; same_kind = k; fits = f; room = h }

  -- What a command ends in: a method of the target, then one of two responses.
  answered :
      {X A : Type 0} (cmd : Command) (mk : X → A) (ack : A → Response) (nak : Response)
      (Q : X → Type 0) (m : S × Result X)
      → Ensures Q m.1
      → ((x : X) → Q x → IsReply cfg serdes cmd (ack (mk x)))
      → IsReply cfg serdes cmd nak
      → Returns (IsReply cfg serdes cmd) (or_else (and_then m (λ x. return (mk x))) ack nak).1
  answered cmd mk ack nak Q m h k refused =
      or_else-Returns (IsReply cfg serdes cmd) (and_then m (λ x. return (mk x))) ack nak
        (return-Ensures (λ a. IsReply cfg serdes cmd (ack a)) mk m
          (Ensures-weaken Q (λ x. IsReply cfg serdes cmd (ack (mk x))) m.1 h k))
        refused

  status : FitsIn cfg.data_bytes 0xfd
  status = status_fits cfg.data_bytes w.data_wire.0

  pub answer-Returns :
      (cmd : Command) (s : S)
      → Sendable cfg serdes cmd
      → IsWire cfg cmd
      → Returns (IsReply cfg serdes cmd) (answer target cmd s).1
  unfolding answer
  answer-Returns (read_single c) s room fits =
      answered (read_single c) (λ v. record { transaction_id = c.transaction_id; value = v })
        read_single_ack _ _ _ (t.read_sound c.addr s)
        (λ v h. reply _ _ refl (λ e. cc) (fits.0, h) tt)
        (reply _ _ refl (λ e. cc) (fits.0, status) tt)
  answer-Returns (read_seq c) s room fits =
      answered (read_seq c) (λ vs. record { transaction_id = c.transaction_id; values = vs })
        read_seq_ack _ _ _ (t.seq_read_sound c.start_addr (zeros c.count) c.increment s)
        (λ (vs : List ℕ) (h : IsSpan cfg (length (zeros c.count)) vs).
          let same : length vs ≡ c.count = h.0 ∙ length-zeros c.count in
          reply _ _ refl (λ e. cc) (fits.0, subst (FitsIn cfg.length_bytes) (sym same) fits.3, h.1)
            (simp lengths (rw same (omega (arith, room.0), room.1))))
        (reply _ _ refl (λ e. cc) (fits.0, status) tt)
  answer-Returns (read_comp c) s room fits =
      answered (read_comp c) (λ vs. record { transaction_id = c.transaction_id; values = vs })
        read_comp_ack _ _ _ (t.comp_read_sound c.addresses (zeros (length c.addresses)) s)
        (λ (vs : List ℕ) (h : IsSpan cfg (length (zeros (length c.addresses))) vs).
          let same : length vs ≡ length c.addresses = h.0 ∙ length-zeros (length c.addresses) in
          reply _ _ refl (λ e. cc) (fits.0, subst (FitsIn cfg.length_bytes) (sym same) fits.1, h.1)
            (let sized = simp lengths at room.0 in
              simp lengths (rw same (omega (arith, room.1), omega (arith, sized), room.2))))
        (reply _ _ refl (λ e. cc) (fits.0, status) tt)
  answer-Returns (write_single c) s room fits =
      answered (write_single c) (λ _. record { transaction_id = c.transaction_id }) write_single_ack
        _ _ _ (t.write_sound c.addr c.value s) (λ _ _. reply _ _ refl (λ e. cc) fits.0 tt)
        (reply _ _ refl (λ e. cc) (fits.0, status) tt)
  answer-Returns (write_seq c) s room fits =
      answered (write_seq c) (λ _. record { transaction_id = c.transaction_id }) write_seq_ack _ _ _
        (t.seq_write_sound c.start_addr c.values c.increment s)
        (λ _ _. reply _ _ refl (λ e. cc) fits.0 tt) (reply _ _ refl (λ e. cc) (fits.0, status) tt)
  answer-Returns (write_comp c) s room fits =
      answered (write_comp c) (λ _. record { transaction_id = c.transaction_id }) write_comp_ack _ _
        _ (t.comp_write_sound c.addr_data s) (λ _ _. reply _ _ refl (λ e. cc) fits.0 tt)
        (reply _ _ refl (λ e. cc) (fits.0, status) tt)
  answer-Returns (read_modify_write c) s room fits =
      answered (read_modify_write c) (λ _. record { transaction_id = c.transaction_id }) rmw_ack _ _
        _ (t.read_modify_write_sound c.addr c.value c.mask s)
        (λ _ _. reply _ _ refl (λ e. cc) fits.0 tt) (reply _ _ refl (λ e. cc) (fits.0, status) tt)

module _ (calculate : Calculate) (cfg : Cfg) (lawful : IsCrc calculate) (u : IsUsable cfg)
    (serdes : Serdes) (v : IsSerdes serdes) {S : Type 0} (target : IRegisterTarget S) where
  -- The packet of a command that a client can send is answered: `backgroundWork` decodes it, calls
  -- the target once, and sends the packet of a response which carries the command's transaction
  -- id, which is its acknowledgement or its negative acknowledgement, and whose fields fit. No
  -- exception reaches the loop, whatever the target throws.
  pub work_on_answers :
      IsTarget cfg target
      → (cmd : Command) (s : S) → Sendable cfg serdes cmd
      → IsWire cfg cmd
      → (r : Response) × (answer target cmd s ≡ ((answer target cmd s).0, ok r))
        × (work_on target calculate cfg serdes (wire calculate cfg cmd) s
            ≡ ((answer target cmd s).0, ok (response_wire calculate cfg r)))
        × IsReply cfg serdes cmd r
  unfolding work_on
  work_on_answers t cmd s room fits =
      let w = IsUsable-Widths u in
      let (r, e, is_reply) =
        Returns-ok (IsReply cfg serdes cmd) _
          (answer-Returns cfg w serdes target t cmd s room fits) in
      (
        r,
        ap (λ x. ((answer target cmd s).0, x)) e,
        rw (
          decode_command-wire cfg w calculate lawful cmd fits,
          and_then_ok (answer target cmd s) _ e,
          encode_response-wire calculate cfg lawful w serdes v r is_reply.room,
        ),
        is_reply,
      )
