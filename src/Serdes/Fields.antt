-- ===== src/Serdes/Fields.antt =====
-- `extract_value` of Buffer.antt, next to little-endian bytes.
use rap_cpp.Base.{
  ℕ, ◌^◌, ◌≤◌, ◌<◌, ◌≡◌, refl, sym, ap, ◌∙◌, List, [], ◌++◌, append-nil, lt→ltb, le→ltb_false,
  length, take, drop, length-append, length-take, take-append-drop, drop-append_left, All-take,
  All-drop, arith,
}
use rap_cpp.Result.{ok, throw, malformed_packet, Ensures}
use rap_cpp.Serdes.Buffer.{extract_value, gather_bytes}
use rap_cpp.Serdes.Bytes.{
  IsByte, IsBytes, to_le, from_le, length-to_le, to_le-IsBytes, from_le-to_le, from_le-lt,
  to_le-from_le, gather_bytes_lem,
}
use native.Mathlib.Decide.{dec_lt}

abbrev pub FitsIn : ℕ → ℕ → Type 0
FitsIn n v = v < 256 ^ n

-- `p` is a value and the view that is left once the value was read from `buf`.
pub record IsRead {ℓ} {A : Type ℓ} (wire : A → List ℕ) (Fits : A → Type 0) (buf : List ℕ)
    (p : A × List ℕ) : Type 0 where
  pub whole : buf ≡ wire p.0 ++ p.1
  pub fits : Fits p.0
  pub rest_bytes : IsBytes p.1

module _ (size n : ℕ) (fits : n ≤ size) where
  extract_value-front :
      (xs rest : List ℕ)
      → length xs ≡ n
      → IsBytes xs
      → extract_value size n (xs ++ rest) ≡ ok (from_le xs, rest)
  unfolding extract_value
  extract_value-front xs rest len bytes =
      let long : n ≤ length (xs ++ rest) = omega (arith, length-append xs rest) in
      let left : drop n (xs ++ rest) ≡ rest = rw (← len) (drop-append_left xs rest) in
      let read : gather_bytes size n 0 (xs ++ rest) 0 ≡ ok (from_le xs) =
        gather_bytes_lem size n 0 (xs ++ rest) xs rest 0 refl len (omega arith) (omega arith) bytes
        ∙ ap ok (omega arith) in
      rw (le→ltb_false (length (xs ++ rest)) n long, read, left)

  extract_value-enough :
      (buf : List ℕ)
      → IsBytes buf
      → n ≤ length buf
      → extract_value size n buf ≡ ok (from_le (take n buf), drop n buf)
  extract_value-enough buf bytes h = rw (take-append-drop n buf) at (
      extract_value-front (take n buf) (drop n buf) (length-take n buf h)
        (All-take IsByte n buf bytes))

  pub extract_value-short :
      (buf : List ℕ) → length buf < n → extract_value size n buf ≡ throw malformed_packet
  unfolding extract_value
  extract_value-short buf h = rw (lt→ltb (length buf) n h) refl

  -- What was written is read back, and what follows it is left.
  pub extract_value-to_le :
      (v : ℕ) (rest : List ℕ)
      → v < 256 ^ n
      → extract_value size n (to_le n v ++ rest) ≡ ok (v, rest)
  extract_value-to_le v rest h =
      extract_value-front (to_le n v) rest (length-to_le n v) (to_le-IsBytes n v)
      ∙ rw (from_le-to_le n v h)

  pub extract_value-to_le_last :
      (v : ℕ) → v < 256 ^ n → extract_value size n (to_le n v) ≡ ok (v, [])
  extract_value-to_le_last v h = rw append-nil at (extract_value-to_le v [] h)

  -- What was read stands in the buffer, in front of what is left, and the read is in range.
  pub extract_value-Ensures :
      (buf : List ℕ)
      → IsBytes buf
      → Ensures (IsRead (to_le n) (FitsIn n) buf) (extract_value size n buf)
  extract_value-Ensures buf bytes = elim (dec_lt (length buf) n) [
    | yes short ↦ rw (extract_value-short buf short) tt
    | no enough ↦ rw (extract_value-enough buf bytes (omega arith)) (split (omega arith))
  ]
    where
      split : n ≤ length buf → IsRead (to_le n) (FitsIn n) buf (from_le (take n buf), drop n buf)
      split long =
          let len = length-take n buf long in
          let front = All-take IsByte n buf bytes in
          record {
            whole = rw (to_le-from_le n (take n buf) len front) (sym (take-append-drop n buf));
            fits = from_le-lt n (take n buf) len front;
            rest_bytes = All-drop IsByte n buf bytes;
          }
