-- ===== src/Serdes/ArrayFields.antt =====
-- The vectors of a message: the loops of `Arrays` and the `extract…Array` functions against the
-- bytes of each element one after the other.
use rap_cpp.Base.{
  ℕ, zero, suc, ◌+◌, ◌*◌, ◌≤◌, ◌≡◌, refl, sym, ap, ◌∙◌, List, [], ◌∷◌, ◌++◌, append_assoc,
  append-nil, length, All, All-append, length-append, arith,
}
use rap_cpp.Configuration.{Cfg, Widths}
use rap_cpp.Result.{ok, Ensures, Ensures->>=}
use rap_cpp.Serdes.Buffer.{
  extract_value, extract_values, append_data, append_address, extract_address_data_array,
  extract_address, extract_data,
}
use rap_cpp.Serdes.Arrays.{append_data_array, append_address_array, append_address_data_array}
use rap_cpp.Serdes.Bytes.{IsByte, to_le-IsBytes, IsBytes, to_le, length-to_le, append_low_bytes_lem}
use rap_cpp.Serdes.Fields.{FitsIn, IsRead, extract_value-to_le, extract_value-Ensures}

unfoldable pub array_le : ℕ → List ℕ → List ℕ
array_le n [] = []
array_le n (v ∷ vs) = to_le n v ++ array_le n vs

-- An address of `n` bytes and a word of `m` bytes each.
unfoldable pub pairs_le : ℕ → ℕ → List (ℕ × ℕ) → List ℕ
pairs_le n m [] = []
pairs_le n m ((a, d) ∷ ads) = to_le n a ++ (to_le m d ++ pairs_le n m ads)

abbrev pub PairFitsIn : ℕ → ℕ → ℕ × ℕ → Type 0
PairFitsIn n m p = FitsIn n p.0 × FitsIn m p.1

-- A vector of `count` elements that fit their fields.
abbrev pub Counted : ℕ → ℕ → List ℕ → Type 0
Counted n count vs = (length vs ≡ count) × All (FitsIn n) vs

abbrev pub CountedPairs : ℕ → ℕ → ℕ → List (ℕ × ℕ) → Type 0
CountedPairs n m count ads = (length ads ≡ count) × All (PairFitsIn n m) ads

pub length-array_le : (n : ℕ) (vs : List ℕ) → length (array_le n vs) ≡ length vs * n
unfolding array_le
length-array_le n [] = omega arith
length-array_le n (v ∷ vs) =
    omega (arith, length-append (to_le n v) (array_le n vs), length-to_le n v, length-array_le n vs)

pub length-pairs_le :
    (n m : ℕ) (ads : List (ℕ × ℕ)) → length (pairs_le n m ads) ≡ length ads * (n + m)
unfolding pairs_le
length-pairs_le n m [] = omega arith
length-pairs_le n m ((a, d) ∷ ads) = omega (
  arith,
  length-append (to_le n a) (to_le m d ++ pairs_le n m ads),
  length-append (to_le m d) (pairs_le n m ads),
  length-to_le n a,
  length-to_le m d,
  length-pairs_le n m ads,
)

pub array_le-IsBytes : (n : ℕ) (vs : List ℕ) → IsBytes (array_le n vs)
unfolding array_le
array_le-IsBytes n [] = tt
array_le-IsBytes n (v ∷ vs) =
    All-append IsByte (to_le n v) (array_le n vs) (to_le-IsBytes n v) (array_le-IsBytes n vs)

pub pairs_le-IsBytes : (n m : ℕ) (ads : List (ℕ × ℕ)) → IsBytes (pairs_le n m ads)
unfolding pairs_le
pairs_le-IsBytes n m [] = tt
pairs_le-IsBytes n m ((a, d) ∷ ads) =
    All-append IsByte (to_le n a) (to_le m d ++ pairs_le n m ads) (to_le-IsBytes n a) (
      All-append IsByte (to_le m d) (pairs_le n m ads) (to_le-IsBytes m d)
        (pairs_le-IsBytes n m ads))

module _ (cfg : Cfg) where
  pub append_data_array_lem :
      (buf : List ℕ) (vs : List ℕ)
      → append_data_array cfg buf vs ≡ buf ++ array_le cfg.data_bytes vs
  unfolding append_data_array append_data array_le
  append_data_array_lem buf [] = sym (append-nil buf)
  append_data_array_lem buf (v ∷ vs) =
      append_data_array_lem (append_data cfg buf v) vs ∙ rw (append_low_bytes_lem, append_assoc)

  pub append_address_array_lem :
      (buf : List ℕ) (vs : List ℕ)
      → append_address_array cfg buf vs ≡ buf ++ array_le cfg.address_bytes vs
  unfolding append_address_array append_address array_le
  append_address_array_lem buf [] = sym (append-nil buf)
  append_address_array_lem buf (v ∷ vs) =
      append_address_array_lem (append_address cfg buf v) vs
      ∙ rw (append_low_bytes_lem, append_assoc)

  pub append_address_data_array_lem :
      (buf : List ℕ) (ads : List (ℕ × ℕ))
      → append_address_data_array cfg buf ads ≡ buf ++ pairs_le cfg.address_bytes cfg.data_bytes ads
  unfolding append_address_data_array append_address append_data pairs_le
  append_address_data_array_lem buf [] = sym (append-nil buf)
  append_address_data_array_lem buf ((a, d) ∷ ads) =
      append_address_data_array_lem (append_data cfg (append_address cfg buf a) d) ads
      ∙ simp (append_low_bytes_lem, append_assoc)

module _ (size n : ℕ) (fits : n ≤ size) where
  pub extract_values-array_le :
      (vs rest : List ℕ)
      → All (FitsIn n) vs
      → extract_values size n (length vs) (array_le n vs ++ rest) ≡ ok (vs, rest)
  unfolding extract_values array_le
  extract_values-array_le [] rest h = refl
  extract_values-array_le (v ∷ vs) rest (hv, h) = rw (
    append_assoc,
    extract_value-to_le size n fits v (array_le n vs ++ rest) hv,
    extract_values-array_le vs rest h,
  )

  pub extract_values-Ensures :
      (count : ℕ) (buf : List ℕ)
      → IsBytes buf
      → Ensures (IsRead (array_le n) (Counted n count) buf) (extract_values size n count buf)
  unfolding extract_values array_le
  extract_values-Ensures zero buf bytes = record {
    whole = refl;
    fits = (refl, tt);
    rest_bytes = bytes;
  }
  extract_values-Ensures (suc count) buf bytes =
      Ensures->>= (IsRead (to_le n) (FitsIn n) buf) _ (extract_value size n buf) _
        (extract_value-Ensures size n fits buf bytes)
        λ p one.
          Ensures->>= (IsRead (array_le n) (Counted n count) p.1) _
            (extract_values size n count p.1) _ (extract_values-Ensures count p.1 one.rest_bytes)
            λ q more. record {
              whole = one.whole ∙ rw (more.whole, append_assoc);
              fits = (ap suc more.fits.0, (one.fits, more.fits.1));
              rest_bytes = more.rest_bytes;
            }

module _ (cfg : Cfg) (w : Widths cfg) where
  pub extract_pairs-pairs_le :
      (ads : List (ℕ × ℕ)) (rest : List ℕ)
      → All (PairFitsIn cfg.address_bytes cfg.data_bytes) ads
      → extract_address_data_array cfg
          (length ads)
          (pairs_le cfg.address_bytes cfg.data_bytes ads ++ rest)
        ≡ ok (ads, rest)
  unfolding extract_address_data_array pairs_le
  extract_pairs-pairs_le [] rest h = refl
  extract_pairs-pairs_le ((a, d) ∷ ads) rest (hp, h) =
      let tail = pairs_le cfg.address_bytes cfg.data_bytes ads in
      rw (
        append_assoc,
        append_assoc,
        extract_value-to_le cfg.address_size cfg.address_bytes w.address_wire.1 a
            (to_le cfg.data_bytes d ++ (tail ++ rest)) hp.0,
        extract_value-to_le cfg.data_size cfg.data_bytes w.data_wire.1 d (tail ++ rest) hp.1,
        extract_pairs-pairs_le ads rest h,
      )

  pub extract_pairs-Ensures :
      (count : ℕ) (buf : List ℕ)
      → IsBytes buf
      → Ensures
          (IsRead
            (pairs_le cfg.address_bytes cfg.data_bytes)
            (CountedPairs cfg.address_bytes cfg.data_bytes count)
            buf)
          (extract_address_data_array cfg count buf)
  unfolding extract_address_data_array pairs_le
  extract_pairs-Ensures zero buf bytes = record {
    whole = refl;
    fits = (refl, tt);
    rest_bytes = bytes;
  }
  extract_pairs-Ensures (suc count) buf bytes =
      let n = cfg.address_bytes in
      let m = cfg.data_bytes in
      Ensures->>= (IsRead (to_le n) (FitsIn n) buf) _ (extract_address cfg buf) _
        (extract_value-Ensures cfg.address_size n w.address_wire.1 buf bytes)
        λ p addr.
          Ensures->>= (IsRead (to_le m) (FitsIn m) p.1) _ (extract_data cfg p.1) _
            (extract_value-Ensures cfg.data_size m w.data_wire.1 p.1 addr.rest_bytes)
            λ q word.
              Ensures->>= (IsRead (pairs_le n m) (CountedPairs n m count) q.1) _
                (extract_address_data_array cfg count q.1) _
                (extract_pairs-Ensures count q.1 word.rest_bytes)
                λ r more. record {
                  whole = addr.whole ∙ rw (word.whole, more.whole, append_assoc, append_assoc);
                  fits = (ap suc more.fits.0, ((addr.fits, word.fits), more.fits.1));
                  rest_bytes = more.rest_bytes;
                }
