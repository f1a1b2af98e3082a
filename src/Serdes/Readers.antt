-- ===== src/Serdes/Readers.antt =====
-- The `extract…` functions of a configuration, next to the bytes of a field.
use rap_cpp.Base.{◌∷◌, refl, arith, ℕ, ◌≡◌, List, [], ◌++◌, append-nil, length, All}
use rap_cpp.Configuration.{Cfg, Widths}
use rap_cpp.Result.{Result, ok, Ensures, Ensures->>=, ◌>>=◌, ◌>>◌}
use rap_cpp.Serdes.Packet.{end_of_packet}
use rap_cpp.Serdes.Buffer.{
  extract_address, extract_data, extract_length, extract_address_array, extract_data_array,
  extract_address_data_array,
}
use rap_cpp.Serdes.Bytes.{IsBytes, to_le}
use rap_cpp.Serdes.Fields.{
  FitsIn, IsRead, extract_value-to_le, extract_value-to_le_last, extract_value-Ensures,
}
use rap_cpp.Serdes.ArrayFields.{
  array_le, pairs_le, PairFitsIn, Counted, CountedPairs, extract_values-array_le,
  extract_values-Ensures, extract_pairs-Ensures, extract_pairs-pairs_le,
}

module _ (cfg : Cfg) (w : Widths cfg) where
  pub extract_address_lem :
      (v : ℕ) (rest : List ℕ)
      → FitsIn cfg.address_bytes v
      → extract_address cfg (to_le cfg.address_bytes v ++ rest) ≡ ok (v, rest)
  unfolding extract_address
  extract_address_lem = extract_value-to_le cfg.address_size cfg.address_bytes w.address_wire.1

  pub extract_address_last :
      (v : ℕ)
      → FitsIn cfg.address_bytes v
      → extract_address cfg (to_le cfg.address_bytes v) ≡ ok (v, [])
  unfolding extract_address
  extract_address_last =
      extract_value-to_le_last cfg.address_size cfg.address_bytes w.address_wire.1

  pub extract_data_lem :
      (v : ℕ) (rest : List ℕ)
      → FitsIn cfg.data_bytes v
      → extract_data cfg (to_le cfg.data_bytes v ++ rest) ≡ ok (v, rest)
  unfolding extract_data
  extract_data_lem = extract_value-to_le cfg.data_size cfg.data_bytes w.data_wire.1

  pub extract_data_last :
      (v : ℕ) → FitsIn cfg.data_bytes v → extract_data cfg (to_le cfg.data_bytes v) ≡ ok (v, [])
  unfolding extract_data
  extract_data_last = extract_value-to_le_last cfg.data_size cfg.data_bytes w.data_wire.1

  pub extract_length_lem :
      (v : ℕ) (rest : List ℕ)
      → FitsIn cfg.length_bytes v
      → extract_length cfg (to_le cfg.length_bytes v ++ rest) ≡ ok (v, rest)
  unfolding extract_length
  extract_length_lem = extract_value-to_le cfg.length_size cfg.length_bytes w.length_wire.1

  pub extract_length_last :
      (v : ℕ)
      → FitsIn cfg.length_bytes v
      → extract_length cfg (to_le cfg.length_bytes v) ≡ ok (v, [])
  unfolding extract_length
  extract_length_last = extract_value-to_le_last cfg.length_size cfg.length_bytes w.length_wire.1

  pub extract_address_array_last :
      (vs : List ℕ)
      → All (FitsIn cfg.address_bytes) vs
      → extract_address_array cfg (length vs) (array_le cfg.address_bytes vs) ≡ ok (vs, [])
  unfolding extract_address_array
  extract_address_array_last vs h =
      rw append-nil at
        (extract_values-array_le cfg.address_size cfg.address_bytes w.address_wire.1 vs [] h)

  pub extract_data_array_last :
      (vs : List ℕ)
      → All (FitsIn cfg.data_bytes) vs
      → extract_data_array cfg (length vs) (array_le cfg.data_bytes vs) ≡ ok (vs, [])
  unfolding extract_data_array
  extract_data_array_last vs h =
      rw append-nil at (extract_values-array_le cfg.data_size cfg.data_bytes w.data_wire.1 vs [] h)

  pub extract_address_data_array_last :
      (ads : List (ℕ × ℕ))
      → All (PairFitsIn cfg.address_bytes cfg.data_bytes) ads
      → extract_address_data_array cfg (length ads) (pairs_le cfg.address_bytes cfg.data_bytes ads)
        ≡ ok (ads, [])
  extract_address_data_array_last ads h = rw append-nil at (extract_pairs-pairs_le cfg w ads [] h)

-- What follows a read from any bytes may rely on what was read.
module _ {ℓ} {A : Type ℓ} (cfg : Cfg) (w : Widths cfg) (Q : A → Type 0) (buf : List ℕ)
    (bytes : IsBytes buf) where
  pub extract_address_then :
      (k : ℕ × List ℕ → Result A)
      → ((p : ℕ × List ℕ)
          → IsRead (to_le cfg.address_bytes) (FitsIn cfg.address_bytes) buf p
          → Ensures Q (k p))
      → Ensures Q (extract_address cfg buf >>= k)
  unfolding extract_address
  extract_address_then k =
      Ensures->>= (IsRead (to_le cfg.address_bytes) (FitsIn cfg.address_bytes) buf) Q
        (extract_address cfg buf) k
        (extract_value-Ensures cfg.address_size cfg.address_bytes w.address_wire.1 buf bytes)

  pub extract_data_then :
      (k : ℕ × List ℕ → Result A)
      → ((p : ℕ × List ℕ)
          → IsRead (to_le cfg.data_bytes) (FitsIn cfg.data_bytes) buf p
          → Ensures Q (k p))
      → Ensures Q (extract_data cfg buf >>= k)
  unfolding extract_data
  extract_data_then k =
      Ensures->>= (IsRead (to_le cfg.data_bytes) (FitsIn cfg.data_bytes) buf) Q
        (extract_data cfg buf) k
        (extract_value-Ensures cfg.data_size cfg.data_bytes w.data_wire.1 buf bytes)

  pub extract_length_then :
      (k : ℕ × List ℕ → Result A)
      → ((p : ℕ × List ℕ)
          → IsRead (to_le cfg.length_bytes) (FitsIn cfg.length_bytes) buf p
          → Ensures Q (k p))
      → Ensures Q (extract_length cfg buf >>= k)
  unfolding extract_length
  extract_length_then k =
      Ensures->>= (IsRead (to_le cfg.length_bytes) (FitsIn cfg.length_bytes) buf) Q
        (extract_length cfg buf) k
        (extract_value-Ensures cfg.length_size cfg.length_bytes w.length_wire.1 buf bytes)

  pub extract_address_array_then :
      (count : ℕ) (k : List ℕ × List ℕ → Result A)
      → ((p : List ℕ × List ℕ)
          → IsRead (array_le cfg.address_bytes) (Counted cfg.address_bytes count) buf p
          → Ensures Q (k p))
      → Ensures Q (extract_address_array cfg count buf >>= k)
  unfolding extract_address_array
  extract_address_array_then count k =
      Ensures->>= (IsRead (array_le cfg.address_bytes) (Counted cfg.address_bytes count) buf) Q
        (extract_address_array cfg count buf) k
        (extract_values-Ensures cfg.address_size cfg.address_bytes w.address_wire.1 count buf bytes)

  pub extract_data_array_then :
      (count : ℕ) (k : List ℕ × List ℕ → Result A)
      → ((p : List ℕ × List ℕ)
          → IsRead (array_le cfg.data_bytes) (Counted cfg.data_bytes count) buf p
          → Ensures Q (k p))
      → Ensures Q (extract_data_array cfg count buf >>= k)
  unfolding extract_data_array
  extract_data_array_then count k =
      Ensures->>= (IsRead (array_le cfg.data_bytes) (Counted cfg.data_bytes count) buf) Q
        (extract_data_array cfg count buf) k
        (extract_values-Ensures cfg.data_size cfg.data_bytes w.data_wire.1 count buf bytes)

  pub extract_address_data_array_then :
      (count : ℕ) (k : List (ℕ × ℕ) × List ℕ → Result A)
      → ((p : List (ℕ × ℕ) × List ℕ)
          → IsRead
              (pairs_le cfg.address_bytes cfg.data_bytes)
              (CountedPairs cfg.address_bytes cfg.data_bytes count)
              buf
              p
          → Ensures Q (k p))
      → Ensures Q (extract_address_data_array cfg count buf >>= k)
  extract_address_data_array_then count k =
      Ensures->>=
        (IsRead (pairs_le cfg.address_bytes cfg.data_bytes)
          (CountedPairs cfg.address_bytes cfg.data_bytes count) buf)
        Q (extract_address_data_array cfg count buf) k (extract_pairs-Ensures cfg w count buf bytes)

-- What follows the end of a packet may rely on an empty view.
pub end_of_packet_then {ℓ} :
    {A : Type ℓ} (Q : A → Type 0) (buf : List ℕ) (m : Result A)
    → (buf ≡ [] → Ensures Q m)
    → Ensures Q (end_of_packet buf >> m)
end_of_packet_then Q [] m h = h refl
end_of_packet_then Q (b ∷ buf) m h = ground arith
