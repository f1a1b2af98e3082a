-- ===== src/Serdes/Accept.antt =====
-- `open_packet` of Packet.antt on any bytes at all.
use rap_cpp.Base.{
  ℕ, ◌+◌, ◌-◌, ◌≤◌, ◌<◌, ◌≡◌, refl, sym, ap, ◌∙◌, false, Option, List, [], ◌∷◌, ◌++◌, append-nil,
  length, drop, not, ◌==◌, lt→ltb, le→ltb_false, ltb, length-drop, take-append-drop, All-take,
  All-drop, arith,
}
use rap_cpp.Configuration.{Cfg, Widths}
use rap_cpp.Result.{ok, Ensures, Ensures->>=, Ensures-throw_if, malformed_packet, crc_mismatch}
use rap_cpp.Messages.MessageType.{MessageType, from_byte}
use rap_cpp.Serdes.Buffer.{Calculate, IsCrc, extract_crc, extract_byte, gather_bytes}
use rap_cpp.Serdes.Packet.{open_packet}
use rap_cpp.Serdes.Bytes.{IsByte, IsBytes, to_le, from_le, to_le-from_le, gather_bytes_lem}
use rap_cpp.Serdes.Frame.{crc_of, frame, calculate_crc_lem}
use native.Mathlib.Decide.{dec_lt}

checked : (a b : ℕ) → not (a == b) ≡ false → a ≡ b
checked a b h = ground arith

record IsByteRead (buf : List ℕ) (p : ℕ × List ℕ) : Type 0 where
  whole : buf ≡ p.0 ∷ p.1
  is_byte : p.0 < 256
  rest_bytes : IsBytes p.1

extract_byte-Ensures : (buf : List ℕ) → IsBytes buf → Ensures (IsByteRead buf) (extract_byte buf)
unfolding extract_byte
extract_byte-Ensures [] bytes = tt
extract_byte-Ensures (b ∷ buf) (byte, bytes) =
    rw (le→ltb_false (length (b ∷ buf)) 1 (omega arith))
      (record { whole = refl; is_byte = byte; rest_bytes = bytes })

record IsCrcRead (cfg : Cfg) (buf : List ℕ) (p : ℕ × List ℕ) : Type 0 where
  whole : buf ≡ p.1 ++ to_le cfg.crc_bytes p.0
  rest_bytes : IsBytes p.1

-- `r` is what an accepted buffer is taken for.
pub record IsPacket (calculate : Calculate) (cfg : Cfg) (buf : List ℕ)
    (r : ℕ × Option MessageType × List ℕ) : Type 0 where
  pub type_byte : ℕ
  pub whole : buf ≡ frame calculate cfg (r.0 ∷ type_byte ∷ r.2)
  pub msg_type : from_byte type_byte ≡ r.1
  pub id_byte : r.0 < 256
  pub payload_bytes : IsBytes r.2

module _ (cfg : Cfg) (w : Widths cfg) where
  extract_crc-Ensures :
      (buf : List ℕ) → IsBytes buf → Ensures (IsCrcRead cfg buf) (extract_crc cfg buf)
  unfolding extract_crc
  extract_crc-Ensures buf bytes = elim (dec_lt (length buf) cfg.crc_bytes) [
    | yes short ↦ rw (lt→ltb (length buf) cfg.crc_bytes short) tt
    | no enough ↦ split (omega arith)
  ]
    where
      split : cfg.crc_bytes ≤ length buf → Ensures (IsCrcRead cfg buf) (extract_crc cfg buf)
      split long =
          let at = length buf - cfg.crc_bytes in
          let end = drop at buf in
          let len : length end ≡ cfg.crc_bytes = omega (arith, length-drop at buf) in
          let end_bytes = All-drop IsByte at buf bytes in
          let read : gather_bytes cfg.crc_size cfg.crc_bytes 0 end 0 ≡ ok (from_le end) =
            gather_bytes_lem cfg.crc_size cfg.crc_bytes 0 end end [] 0 (sym (append-nil end)) len
              (omega (arith, w.crc_wire)) (omega arith) end_bytes
            ∙ ap ok (omega arith) in
          rw (le→ltb_false (length buf) cfg.crc_bytes long, read)
            (record {
              whole =
                  rw (to_le-from_le cfg.crc_bytes end len end_bytes)
                    (sym (take-append-drop at buf));
              rest_bytes = All-take IsByte at buf bytes;
            })

  module _ (calculate : Calculate) (lawful : IsCrc calculate) where
    pub open_packet-Ensures :
        (buf : List ℕ)
        → IsBytes buf
        → Ensures (IsPacket calculate cfg buf) (open_packet calculate cfg buf)
    unfolding open_packet frame
    open_packet-Ensures buf bytes =
        let Accepted = IsPacket calculate cfg buf in
        Ensures-throw_if Accepted (ltb (length buf) (2 + cfg.crc_bytes)) malformed_packet _ λ _.
          Ensures->>= (IsCrcRead cfg buf) Accepted (extract_crc cfg buf) _
            (extract_crc-Ensures buf bytes)
            λ p crc. rw (calculate_crc_lem calculate cfg lawful w) (
              Ensures-throw_if Accepted (not (p.0 == crc_of calculate cfg p.1))
                (crc_mismatch (crc_of calculate cfg p.1) p.0) _
                λ same.
                  Ensures->>= (IsByteRead p.1) Accepted (extract_byte p.1) _
                    (extract_byte-Ensures p.1 crc.rest_bytes)
                    λ q txn.
                      Ensures->>= (IsByteRead q.1) Accepted (extract_byte q.1) _
                        (extract_byte-Ensures q.1 txn.rest_bytes)
                        λ r code. record {
                          type_byte = r.0;
                          whole =
                              crc.whole
                              ∙ rw (checked p.0 (crc_of calculate cfg p.1) same) (
                                  ap (frame calculate cfg)
                                    (txn.whole ∙ ap (λ (t : List ℕ). q.0 ∷ t) code.whole));
                          msg_type = refl;
                          id_byte = txn.is_byte;
                          payload_bytes = code.rest_bytes;
                        })
