-- ===== src/Serdes/Bytes.antt =====
-- Little-endian bytes, the independent description of what the loops of `Serdes` write and read.
use rap_cpp.Base.{
  ℕ, zero, suc, ◌+◌, ◌*◌, ◌/◌, ◌%◌, ◌^◌, ◌≤◌, ◌<◌, bit_or, ◌≡◌, refl, sym, ap, ◌∙◌, List, [], ◌∷◌,
  ◌++◌, append_assoc, append-nil, length, drop, All, get_elem?-drop, arith,
}
use rap_cpp.Base.Bits.{and_low_byte, or_shifted}
use rap_cpp.Result.{ok}
use rap_cpp.Serdes.Buffer.{append_low_bytes, append_shifted, gather_bytes}
use rap_cpp.Serdes.Size.{to_unsigned}
use native.Mathlib.Nat.{
  pow-suc, pow-le-pow_right, mod-eq_of_lt, mod-lt, div-add-mod, add-mul-mod_self_left, one-le-pow,
  div-div-eq-div-mul,
}
use native.Mathlib.Numerals.{towards_suc, add-one}

abbrev pub IsByte : ℕ → Type 0
IsByte b = b < 256

abbrev pub IsBytes : List ℕ → Type 0
IsBytes = All IsByte

-- The low `n` bytes of `v`, lowest first.
unfoldable pub to_le : ℕ → ℕ → List ℕ
to_le zero v = []
to_le (suc n) v = (v % 256) ∷ to_le n (v / 256)

unfoldable pub from_le : List ℕ → ℕ
from_le [] = 0
from_le (b ∷ bs) = b + from_le bs * 256

pub length-to_le : (n v : ℕ) → length (to_le n v) ≡ n
unfolding to_le
length-to_le zero v = refl
length-to_le (suc n) v = ap suc (length-to_le n (v / 256))

pub to_le-IsBytes : (n v : ℕ) → IsBytes (to_le n v)
unfolding to_le
to_le-IsBytes zero v = tt
to_le-IsBytes (suc n) v = (omega arith, to_le-IsBytes n (v / 256))

pub from_le-to_le : (n v : ℕ) → v < 256 ^ n → from_le (to_le n v) ≡ v
unfolding to_le from_le
from_le-to_le zero v h = omega arith
from_le-to_le (suc n) v h =
    omega (arith, pow-suc 256 n, from_le-to_le n (v / 256) (omega (arith, pow-suc 256 n)))

pub from_le-lt : (n : ℕ) (bs : List ℕ) → length bs ≡ n → IsBytes bs → from_le bs < 256 ^ n
unfolding from_le
from_le-lt zero [] len h = omega arith
from_le-lt zero (b ∷ bs) len h = absurd (omega arith)
from_le-lt (suc n) [] len h = absurd (omega arith)
from_le-lt (suc n) (b ∷ bs) len (hb, h) =
    omega (arith, pow-suc 256 n, from_le-lt n bs (omega arith) h)

pub to_le-from_le : (n : ℕ) (bs : List ℕ) → length bs ≡ n → IsBytes bs → to_le n (from_le bs) ≡ bs
unfolding to_le from_le
to_le-from_le zero [] len h = refl
to_le-from_le zero (b ∷ bs) len h = absurd (omega arith)
to_le-from_le (suc n) [] len h = absurd (omega arith)
to_le-from_le (suc n) (b ∷ bs) len (hb, h) =
    let low : (b + from_le bs * 256) % 256 ≡ b = omega arith in
    let high : (b + from_le bs * 256) / 256 ≡ from_le bs = omega arith in
    rw (low, high, to_le-from_le n bs (omega arith) h)

-- The writing loops.
pub append_low_bytes_lem :
    (n : ℕ) (buf : List ℕ) (v : ℕ) → append_low_bytes n buf v ≡ buf ++ to_le n v
unfolding append_low_bytes to_le
append_low_bytes_lem zero buf v = sym (append-nil buf)
append_low_bytes_lem (suc n) buf v = rw (append_low_bytes_lem n, append_assoc, and_low_byte)

shift_next : (i : ℕ) → 2 ^ ((i + 1) * 8) ≡ 2 ^ (i * 8) * 256
shift_next i =
    let eight_more : (i + 1) * 8 ≡ i * 8 + 8 = omega arith in
    rw eight_more (simp towards_suc (omega arith))

pub shift_bytes : (i : ℕ) → 2 ^ (i * 8) ≡ 256 ^ i
shift_bytes zero = refl
shift_bytes (suc i) =
    omega
      (arith, ap (λ (k : ℕ). 2 ^ (k * 8)) (add-one i), shift_next i, shift_bytes i, pow-suc 256 i)

pub append_shifted_lem :
    (left i : ℕ) (buf : List ℕ) (crc : ℕ)
    → append_shifted left i buf crc ≡ buf ++ to_le left (crc / 2 ^ (i * 8))
unfolding append_shifted to_le
append_shifted_lem zero i buf crc = sym (append-nil buf)
append_shifted_lem (suc left) i buf crc =
    rw (append_shifted_lem left, append_assoc, shift_next, ← div-div-eq-div-mul)

-- One round of a reading loop: `v |= b << (i * 8)` puts a byte above the `i` bytes of `v`.
gather_step :
    (size i v b : ℕ)
    → i < size
    → v < 2 ^ (i * 8)
    → b < 256
    → (to_unsigned size (bit_or v (b * 2 ^ (i * 8))) ≡ v + b * 2 ^ (i * 8))
      × (v + b * 2 ^ (i * 8) < 2 ^ ((i + 1) * 8))
gather_step size i v b hi hv hb = (rw (or_shifted (i * 8) v b hv) (mod-eq_of_lt within), bound)
  where
    bound : v + b * 2 ^ (i * 8) < 2 ^ ((i + 1) * 8)
    bound = rw shift_next (grind arith)

    within : v + b * 2 ^ (i * 8) < 256 ^ size
    within = omega (
      arith,
      bound,
      shift_bytes (i + 1),
      pow-le-pow_right {n = 256} (omega arith) {i = i + 1} {j = size} (omega arith),
    )

-- The reading loop gives the number that the bytes `xs` at `i` stand for, above what it began with.
pub gather_bytes_lem :
    (size left i : ℕ) (buf xs rest : List ℕ) (v : ℕ)
    → drop i buf ≡ xs ++ rest
    → length xs ≡ left
    → i + left ≤ size
    → v < 2 ^ (i * 8)
    → IsBytes xs
    → gather_bytes size left i buf v ≡ ok (v + from_le xs * 2 ^ (i * 8))
unfolding gather_bytes from_le
gather_bytes_lem size zero i buf [] rest v here len fits small bytes = ap ok (omega arith)
gather_bytes_lem size zero i buf (x ∷ xs) rest v here len fits small bytes = absurd (omega arith)
gather_bytes_lem size (suc left) i buf [] rest v here len fits small bytes = absurd (omega arith)
gather_bytes_lem size (suc left) i buf (x ∷ xs) rest v here len fits small (byte, bytes) =
    let (head, tail) = get_elem?-drop i buf here in
    let (value, bound) = gather_step size i v x (omega arith) small byte in
    rw (head, value)
      (gather_bytes_lem size left (i + 1) buf xs rest (v + x * 2 ^ (i * 8)) (rw add-one tail)
          (omega arith) (omega arith) bound bytes
        ∙ ap ok (omega (arith, ap (λ (t : ℕ). from_le xs * t) (shift_next i))))

low_digits : (v p : ℕ) → 0 < p → v % (p * 256) ≡ (v / 256) % p * 256 + v % 256
low_digits v p pos =
    let low = (v / 256) % p * 256 + v % 256 in
    let q = v / 256 / p in
    let split : v ≡ low + p * 256 * q =
      omega (arith, ap (λ (t : ℕ). t * 256) (div-add-mod (v / 256) p)) in
    let small : low < p * 256 = omega (arith, mod-lt (v / 256) pos) in
    ap (λ (t : ℕ). t % (p * 256)) split ∙ add-mul-mod_self_left low (p * 256) q ∙ mod-eq_of_lt small

-- A conversion to a type of `size` bytes does not change the low `n ≤ size` bytes.
pub to_le-to_unsigned : (n size v : ℕ) → n ≤ size → to_le n (to_unsigned size v) ≡ to_le n v
unfolding to_le
to_le-to_unsigned zero size v h = refl
to_le-to_unsigned (suc n) zero v h = absurd (omega arith)
to_le-to_unsigned (suc n) (suc size) v h =
    let digits : to_unsigned (suc size) v ≡ to_unsigned size (v / 256) * 256 + v % 256 =
      ap (λ (t : ℕ). v % t) (pow-suc 256 size)
      ∙ low_digits v (256 ^ size) (one-le-pow size 256 (omega arith)) in
    let low : to_unsigned (suc size) v % 256 ≡ v % 256 = omega (arith, digits) in
    let high : to_unsigned (suc size) v / 256 ≡ to_unsigned size (v / 256) =
      omega (arith, digits) in
    rw (low, high, to_le-to_unsigned n size (v / 256) (omega arith))
