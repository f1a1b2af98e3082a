-- ===== src/Serdes/Frame.antt =====
-- A packet as header, payload and checksum, next to `finish` of Buffer.antt and `open_packet` of
-- Packet.antt.
use rap_cpp.Base.{
  ℕ, zero, suc, ◌+◌, ◌-◌, ◌*◌, ◌/◌, ◌^◌, ◌≤◌, ◌<◌, ◌≡◌, refl, sym, ap, ◌∙◌, none, some, List, [],
  ◌∷◌, ◌++◌, append-nil, length, ==_refl, le→ltb_false, length-append, take-append_left,
  drop-append_left, All-append, arith,
}
use rap_cpp.Configuration.{Cfg, Widths}
use rap_cpp.Result.{ok}
use rap_cpp.Messages.MessageType.{MessageType, to_byte, from_byte-to_byte}
use rap_cpp.Serdes.Buffer.{
  Calculate, CrcParameters, IsCrc, crc_parameters, calculate_crc, append_crc, finish, extract_crc,
  extract_byte, gather_bytes,
}
use rap_cpp.Serdes.Packet.{open_packet}
use rap_cpp.Serdes.Bytes.{
  IsByte, IsBytes, to_le, length-to_le, to_le-IsBytes, from_le-to_le, append_shifted_lem,
  gather_bytes_lem,
}

-- The widths that `calculateCrc` asks for are those of the checksum on the wire.
crc_parameters_lem :
    (n : ℕ)
    → 0 < n
    → n ≤ 4
    → (p : CrcParameters) × (crc_parameters n ≡ some p) × (2 ^ p.width ≡ 256 ^ n)
unfolding crc_parameters
crc_parameters_lem zero h k = absurd (omega arith)
crc_parameters_lem (suc zero) h k = (_, refl, refl)
crc_parameters_lem (suc (suc zero)) h k = (_, refl, refl)
crc_parameters_lem (suc (suc (suc zero))) h k = (_, refl, refl)
crc_parameters_lem (suc (suc (suc (suc zero)))) h k = (_, refl, refl)
crc_parameters_lem (suc (suc (suc (suc (suc n))))) h k = absurd (omega arith)

module _ (calculate : Calculate) (cfg : Cfg) where
  -- The checksum of a packet without its checksum.
  unfoldable pub crc_of : List ℕ → ℕ
  crc_of body = elim (crc_parameters cfg.crc_bytes) [ none ↦ 0 | some p ↦ calculate p body ]

  unfoldable pub frame : List ℕ → List ℕ
  frame body = body ++ to_le cfg.crc_bytes (crc_of body)

  pub length-frame : (body : List ℕ) → length (frame body) ≡ length body + cfg.crc_bytes
  unfolding frame
  length-frame body = omega (
    arith,
    length-append body (to_le cfg.crc_bytes (crc_of body)),
    length-to_le cfg.crc_bytes (crc_of body),
  )

  pub frame-IsBytes : (body : List ℕ) → IsBytes body → IsBytes (frame body)
  unfolding frame
  frame-IsBytes body h =
      All-append IsByte body (to_le cfg.crc_bytes (crc_of body)) h
        (to_le-IsBytes cfg.crc_bytes (crc_of body))

module _ (calculate : Calculate) (cfg : Cfg) (lawful : IsCrc calculate) (w : Widths cfg) where
  pub calculate_crc_lem :
      (body : List ℕ) → calculate_crc calculate cfg body ≡ ok (crc_of calculate cfg body)
  unfolding calculate_crc crc_of
  calculate_crc_lem body =
      let (p, e, width) = crc_parameters_lem cfg.crc_bytes w.crc_wire.0 w.crc_max in
      rw (e, calculate_crc, crc_of)

  crc_of-lt : (body : List ℕ) → crc_of calculate cfg body < 256 ^ cfg.crc_bytes
  unfolding crc_of
  crc_of-lt body =
      let (p, e, width) = crc_parameters_lem cfg.crc_bytes w.crc_wire.0 w.crc_max in
      rw (e, crc_of, ← width) (lawful.fits p body)

  -- `appendCrc` and the assertion after it, where the size was computed right.
  pub finish_lem :
      (sz : ℕ) (body : List ℕ)
      → length body + cfg.crc_bytes ≡ sz
      → finish calculate cfg sz body ≡ ok (frame calculate cfg body)
  unfolding finish append_crc frame
  finish_lem sz body h =
      let crc = crc_of calculate cfg body in
      let unshifted : crc / 2 ^ (0 * 8) ≡ crc = omega arith in
      let size : length (body ++ to_le cfg.crc_bytes crc) ≡ sz =
        omega
          (arith, length-append body (to_le cfg.crc_bytes crc), length-to_le cfg.crc_bytes crc) in
      rw (calculate_crc_lem, append_shifted_lem, unshifted, size, ==_refl)

  pub extract_crc-append :
      (body : List ℕ) (crc : ℕ)
      → crc < 256 ^ cfg.crc_bytes
      → extract_crc cfg (body ++ to_le cfg.crc_bytes crc) ≡ ok (crc, body)
  unfolding extract_crc
  extract_crc-append body crc fits =
      let end = to_le cfg.crc_bytes crc in
      let whole = length-append body end in
      let len = length-to_le cfg.crc_bytes crc in
      let before : length (body ++ end) - cfg.crc_bytes ≡ length body = omega (arith, whole, len) in
      let read : gather_bytes cfg.crc_size cfg.crc_bytes 0 end 0 ≡ ok crc =
        gather_bytes_lem cfg.crc_size cfg.crc_bytes 0 end end [] 0 (sym (append-nil end)) len
          (omega (arith, w.crc_wire)) (omega arith) (to_le-IsBytes cfg.crc_bytes crc)
        ∙ ap ok (omega (arith, from_le-to_le cfg.crc_bytes crc fits)) in
      rw (
        le→ltb_false (length (body ++ end)) cfg.crc_bytes (omega (arith, whole, len)),
        before,
        drop-append_left body end,
        take-append_left body end,
        read,
      )

  extract_crc-frame :
      (body : List ℕ)
      → extract_crc cfg (frame calculate cfg body) ≡ ok (crc_of calculate cfg body, body)
  unfolding frame
  extract_crc-frame body = extract_crc-append body (crc_of calculate cfg body) (crc_of-lt body)

  extract_byte-cons : (b : ℕ) (rest : List ℕ) → extract_byte (b ∷ rest) ≡ ok (b, rest)
  unfolding extract_byte
  extract_byte-cons b rest = rw (le→ltb_false (length (b ∷ rest)) 1 (omega arith))

  pub open_packet-frame :
      (txn_id : ℕ) (m : MessageType) (payload : List ℕ)
      → open_packet calculate cfg (frame calculate cfg (txn_id ∷ to_byte m ∷ payload))
        ≡ ok (txn_id, some m, payload)
  unfolding open_packet
  open_packet-frame txn_id m payload =
      let body : List ℕ = txn_id ∷ to_byte m ∷ payload in
      rw (
        le→ltb_false (length (frame calculate cfg body)) (2 + cfg.crc_bytes)
            (omega (arith, length-frame calculate cfg body)),
        extract_crc-frame body,
        calculate_crc_lem,
        ==_refl,
        extract_byte-cons,
        extract_byte-cons,
        from_byte-to_byte,
      )
