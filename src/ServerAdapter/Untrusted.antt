-- ===== src/ServerAdapter/Untrusted.antt =====
-- ServerAdapter.h: what a round of `backgroundWork` makes of any bytes that it receives.
use rap_cpp.Base.{ℕ, ◌+◌, ◌*◌, ◌≤◌, ◌<◌, ◌≡◌, ◌⊎◌, inl, inr, refl, ap, ◌∙◌, List, length, arith}
use rap_cpp.Configuration.{Cfg, Widths, IsUsable, IsUsable-Widths}
use rap_cpp.Result.{ok, throw, Exception, message_size, Ensures-cases, Returns-ok}
use rap_cpp.Calls.{and_then_ok}
use rap_cpp.Interfaces.{IRegisterTarget}
use rap_cpp.Messages.{
  Command, read_single, write_single, read_seq, write_seq, read_comp, write_comp, read_modify_write,
}
use rap_cpp.Messages.Response.{Response}
use rap_cpp.Serdes.Size.{Serdes, numeric_max}
use rap_cpp.Serdes.Buffer.{Calculate, IsCrc}
use rap_cpp.Serdes.Bytes.{IsBytes}
use rap_cpp.Serdes.Limits.{IsSerdes}
use rap_cpp.Serdes.Fields.{FitsIn}
use rap_cpp.Serdes.Command.Decode.{decode_command}
use rap_cpp.Serdes.Command.Wire.{wire, payload, IsWire, Sendable, id_of}
use rap_cpp.Serdes.Command.Sound.{decode_command-Ensures}
use rap_cpp.Serdes.Response.Encode.{encode_response}
use rap_cpp.Serdes.Response.Wire.{response_wire, response_id, IsWireResponse, SendableResponse}
use rap_cpp.Serdes.Response.Bounds.{encode_response_total}
use rap_cpp.ServerAdapter.{answer, work_on}
use rap_cpp.ServerAdapter.Target.{IsTarget}
use rap_cpp.ServerAdapter.Answers.{IsKind, IsReply, answer-Returns}
use native.Mathlib.Nat.{le_refl, pow-le-pow_right}

pub IsWire-id : (cfg : Cfg) (cmd : Command) → IsWire cfg cmd → id_of cmd < 256
IsWire-id cfg (read_single c) fits = fits.0
IsWire-id cfg (write_single c) fits = fits.0
IsWire-id cfg (read_seq c) fits = fits.0
IsWire-id cfg (write_seq c) fits = fits.0
IsWire-id cfg (read_comp c) fits = fits.0
IsWire-id cfg (write_comp c) fits = fits.0
IsWire-id cfg (read_modify_write c) fits = fits.0

-- The lengths that are read off the wire are within a `LengthType`.
length_in_type :
    (cfg : Cfg) → Widths cfg → (x : ℕ) → FitsIn cfg.length_bytes x → x ≤ numeric_max cfg.length_size
length_in_type cfg w x h = omega (
  arith,
  pow-le-pow_right {n = 256} (omega arith) {i = cfg.length_bytes} {j = cfg.length_size}
      w.length_wire.1,
)

-- A command off the wire can be sent with a limit that is large enough.
roomy :
    (cfg : Cfg)
    → Widths cfg
    → (cmd : Command) → IsWire cfg cmd
    → (big : Serdes) × Sendable cfg big cmd
roomy cfg w (read_single c) fits = (record { max_message_size = 0 }, tt)
roomy cfg w (write_single c) fits = (record { max_message_size = 0 }, tt)
roomy cfg w (read_modify_write c) fits = (record { max_message_size = 0 }, tt)
roomy cfg w (read_seq c) fits =
    (record { max_message_size = _ }, (le_refl _, length_in_type cfg w c.count fits.3))
roomy cfg w (write_seq c) fits =
    (record { max_message_size = _ }, (le_refl _, length_in_type cfg w (length c.values) fits.3))
roomy cfg w (read_comp c) fits = (
  record {
    max_message_size =
        (2 + length (payload cfg (read_comp c)) + cfg.crc_bytes)
        + (2 + cfg.length_bytes + length c.addresses * cfg.data_bytes + cfg.crc_bytes);
  },
  (omega arith, omega arith, length_in_type cfg w (length c.addresses) fits.1),
)
roomy cfg w (write_comp c) fits =
    (record { max_message_size = _ }, (le_refl _, length_in_type cfg w (length c.addr_data) fits.1))

-- A response that answers the command, with fields that fit, of any size.
pub record IsAnswer (cfg : Cfg) (cmd : Command) (r : Response) : Type 0 where
  pub same_id : response_id r ≡ id_of cmd
  pub same_kind : IsKind cmd r
  pub fits : IsWireResponse cfg r

answer-IsAnswer :
    (cfg : Cfg) (w : Widths cfg) {S : Type 0} (target : IRegisterTarget S)
    → IsTarget cfg target
    → (cmd : Command) (s : S) → IsWire cfg cmd
    → (r : Response) × ((answer target cmd s).1 ≡ ok r) × IsAnswer cfg cmd r
answer-IsAnswer cfg w target t cmd s fits =
    let (big, room) = roomy cfg w cmd fits in
    let (r, e, is_reply) =
      Returns-ok (IsReply cfg big cmd) _ (answer-Returns cfg w big target t cmd s room fits) in
    (
      r,
      e,
      record { same_id = is_reply.same_id; same_kind = is_reply.same_kind; fits = is_reply.fits },
    )

module _ (calculate : Calculate) (cfg : Cfg) (lawful : IsCrc calculate) (u : IsUsable cfg)
    (serdes : Serdes) (v : IsSerdes serdes) {S : Type 0} (target : IRegisterTarget S)
    (t : IsTarget cfg target) where
  -- On any bytes, a round of `backgroundWork` ends in one of three ways. The bytes are the packet
  -- of a command whose fields fit, the target is called once for it, and the packet of a response
  -- is sent, within the limit, with the command's id and of its kind; or the same, but that
  -- response is beyond the limit, and a `MessageSizeException` is thrown after the call; or
  -- `decodeCommand` throws, which the round passes on, and the target is not called. Nothing is
  -- read out of range and no assertion fails.
  pub work_on_outcomes :
      (buf : List ℕ) (s : S)
      → IsBytes buf
      → ((cmd : Command) × (r : Response) × (buf ≡ wire calculate cfg cmd)
          × IsWire cfg cmd
          × (answer target cmd s ≡ ((answer target cmd s).0, ok r))
          × IsAnswer cfg cmd r
          × (((work_on target calculate cfg serdes buf s
                  ≡ ((answer target cmd s).0, ok (response_wire calculate cfg r)))
                × (length (response_wire calculate cfg r) ≤ serdes.max_message_size))
              ⊎ ((¬ SendableResponse cfg serdes r)
                  × (work_on target calculate cfg serdes buf s
                      ≡ ((answer target cmd s).0, throw message_size)))))
        ⊎ ((e : Exception) × (decode_command calculate cfg buf ≡ throw e)
            × (work_on target calculate cfg serdes buf s ≡ (s, throw e)))
  unfolding work_on
  work_on_outcomes buf s bytes =
      let w = IsUsable-Widths u in
      elim (Ensures-cases (λ cmd. (buf ≡ wire calculate cfg cmd) × IsWire cfg cmd) _
        (decode_command-Ensures calculate cfg lawful w buf bytes)) [
          | inr (e, refused) ↦ inr (e, refused, rw refused refl)
          | inl (cmd, decoded, (whole, fits)) ↦
              let (r, e, is_answer) = answer-IsAnswer cfg w target t cmd s fits in
              let m = answer target cmd s in
              let work : work_on target calculate cfg serdes buf s
                  ≡ (m.0, encode_response calculate cfg serdes r) =
                rw decoded (and_then_ok m _ e) in
              let byte : response_id r < 256 =
                omega (arith, is_answer.same_id, IsWire-id cfg cmd fits) in
              inl (
                cmd,
                r,
                whole,
                fits,
                ap (λ x. (m.0, x)) e,
                is_answer,
                elim (encode_response_total calculate cfg lawful u serdes v r byte) [
                  | inl (room, encoded, short, is_bytes) ↦
                      inl (work ∙ ap (λ x. (m.0, x)) encoded, short)
                  | inr (no_room, refused) ↦ inr (no_room, work ∙ ap (λ x. (m.0, x)) refused)
                ],
              )
        ]
