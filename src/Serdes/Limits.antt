-- ===== src/Serdes/Limits.antt =====
-- The sizes and counts that a valid `Serdes` allows.
use rap_cpp.Base.{
  ℕ, ◌+◌, ◌-◌, ◌*◌, ◌/◌, ◌^◌, ◌≤◌, ◌<◌, ◌≡◌, ap, false, ◌↔◌, min, ◌==◌, le→ltb_false, arith,
}
use rap_cpp.Configuration.{Cfg, Widths}
use rap_cpp.Result.{Result, ok}
use rap_cpp.Serdes.Size.{
  Serdes, to_unsigned, numeric_max, calc_size, get_max_seq_read_count, get_max_seq_write_count,
  get_max_comp_read_count, get_max_comp_write_count,
}
use native.Mathlib.Nat.{mod-eq_of_lt, one-le-pow}

-- What the constructor checks, and that the size is a `size_t`.
pub record IsSerdes (s : Serdes) : Type 0 where
  pub large : 32 ≤ s.max_message_size
  pub is_size_t : s.max_message_size < 256 ^ 8

-- `bytes` for each of `n` elements after `overhead` bytes fit into `total`.
limit_iff :
    (total overhead bytes top n : ℕ)
    → 0 < bytes
    → overhead ≤ total
    → (n ≤ min ((total - overhead) / bytes) top) ↔ ((overhead + n * bytes ≤ total) × (n ≤ top))
limit_iff total overhead bytes top n pos h = grind arith

to_unsigned-min :
    (size a : ℕ) → to_unsigned size (min a (numeric_max size)) ≡ min a (numeric_max size)
to_unsigned-min size a = mod-eq_of_lt (omega (arith, one-le-pow size 256 (omega arith)))

-- `r` returns a number, and `P` holds up to it and not beyond.
abbrev pub IsLimit : Result ℕ → (ℕ → Type 0) → Type 0
IsLimit r P = (limit : ℕ) × (r ≡ ok limit) × ((n : ℕ) → (n ≤ limit) ↔ P n)

pos→==zero : (b : ℕ) → 0 < b → (b == 0) ≡ false
pos→==zero b h = ground arith

-- The size of a packet with so many addresses, words and lengths.
abbrev pub size_of : Cfg → ℕ → ℕ → ℕ → ℕ
size_of cfg a d l =
    2 + a * cfg.address_bytes + d * cfg.data_bytes + l * cfg.length_bytes + cfg.crc_bytes

module _ (cfg : Cfg) (s : Serdes) (w : Widths cfg) (v : IsSerdes s) where
  pub calc_size_lem :
      (a d l : ℕ)
      → size_of cfg a d l ≤ s.max_message_size
      → calc_size cfg s a d l ≡ ok (size_of cfg a d l)
  unfolding calc_size
  calc_size_lem a d l h =
      let small : size_of cfg a d l < 256 ^ 8 = omega (arith, v.is_size_t) in
      rw (mod-eq_of_lt small, le→ltb_false s.max_message_size (size_of cfg a d l) h)

  -- How many elements of `bytes` bytes each still fit, and a `LengthType` can hold.
  abbrev pub room : ℕ → ℕ → ℕ
  room overhead bytes = min ((s.max_message_size - overhead) / bytes) (numeric_max cfg.length_size)

  room_iff :
      (overhead bytes n : ℕ)
      → 0 < bytes
      → overhead ≤ s.max_message_size
      → (n ≤ room overhead bytes)
        ↔ ((overhead + n * bytes ≤ s.max_message_size) × (n ≤ numeric_max cfg.length_size))
  room_iff overhead bytes n =
      limit_iff s.max_message_size overhead bytes (numeric_max cfg.length_size) n

  get_max_seq_read_count_lem :
      get_max_seq_read_count cfg s ≡ ok (room (size_of cfg 0 0 1) cfg.data_bytes)
  unfolding get_max_seq_read_count
  get_max_seq_read_count_lem = rw (
    calc_size_lem 0 0 1 (omega (arith, w, v.large)),
    pos→==zero cfg.data_bytes w.data_wire.0,
    to_unsigned-min,
  )

  get_max_seq_write_count_lem :
      get_max_seq_write_count cfg s ≡ ok (room (size_of cfg 1 0 2) cfg.data_bytes)
  unfolding get_max_seq_write_count
  get_max_seq_write_count_lem = rw (
    calc_size_lem 1 0 2 (omega (arith, w, v.large)),
    pos→==zero cfg.data_bytes w.data_wire.0,
    to_unsigned-min,
  )

  get_max_comp_read_count_lem :
      get_max_comp_read_count cfg s
      ≡ ok (
          min
            (room (size_of cfg 0 0 1) cfg.address_bytes)
            (room (size_of cfg 0 0 1) cfg.data_bytes))
  unfolding get_max_comp_read_count
  get_max_comp_read_count_lem =
      rw
        (
          calc_size_lem 0 0 1 (omega (arith, w, v.large)),
          pos→==zero cfg.data_bytes w.data_wire.0,
          pos→==zero cfg.address_bytes w.address_wire.0,
          to_unsigned-min,
        )
        (ap ok (omega arith))

  get_max_comp_write_count_lem :
      get_max_comp_write_count cfg s
      ≡ ok (room (size_of cfg 0 0 1) (cfg.address_bytes + cfg.data_bytes))
  unfolding get_max_comp_write_count
  get_max_comp_write_count_lem = rw (
    calc_size_lem 0 0 1 (omega (arith, w, v.large)),
    pos→==zero (cfg.address_bytes + cfg.data_bytes) (omega (arith, w.data_wire)),
    to_unsigned-min,
  )

  -- `getMaxSeqReadCount()` is the largest count of words whose acknowledgement fits the maximum
  -- and that a `LengthType` can hold.
  pub get_max_seq_read_count_exact :
      IsLimit
        (get_max_seq_read_count cfg s)
        (λ n. (size_of cfg 0 n 1 ≤ s.max_message_size) × (n ≤ numeric_max cfg.length_size))
  get_max_seq_read_count_exact = (
    room (size_of cfg 0 0 1) cfg.data_bytes,
    get_max_seq_read_count_lem,
    λ n. ground (
      arith,
      room_iff (size_of cfg 0 0 1) cfg.data_bytes n w.data_wire.0 (omega (arith, w, v.large)),
    ),
  )

  -- `getMaxSeqWriteCount()` is the largest count of words with which a write command fits the
  -- maximum and that a `LengthType` can hold.
  pub get_max_seq_write_count_exact :
      IsLimit
        (get_max_seq_write_count cfg s)
        (λ n. (size_of cfg 1 n 2 ≤ s.max_message_size) × (n ≤ numeric_max cfg.length_size))
  get_max_seq_write_count_exact = (
    room (size_of cfg 1 0 2) cfg.data_bytes,
    get_max_seq_write_count_lem,
    λ n. ground (
      arith,
      room_iff (size_of cfg 1 0 2) cfg.data_bytes n w.data_wire.0 (omega (arith, w, v.large)),
    ),
  )

  -- `getMaxCompReadCount()` is the largest count with which the command and its acknowledgement
  -- fit the maximum and that a `LengthType` can hold.
  pub get_max_comp_read_count_exact : IsLimit (get_max_comp_read_count cfg s) (λ n.
      (size_of cfg n 0 1 ≤ s.max_message_size)
      × (size_of cfg 0 n 1 ≤ s.max_message_size)
      × (n ≤ numeric_max cfg.length_size))
  get_max_comp_read_count_exact = (
    _,
    get_max_comp_read_count_lem,
    λ n. ground (
      arith,
      room_iff (size_of cfg 0 0 1) cfg.address_bytes n w.address_wire.0 (omega (arith, w, v.large)),
      room_iff (size_of cfg 0 0 1) cfg.data_bytes n w.data_wire.0 (omega (arith, w, v.large)),
    ),
  )

  -- `getMaxCompWriteCount()` is the largest count of address and word pairs with which the
  -- command fits the maximum and that a `LengthType` can hold.
  pub get_max_comp_write_count_exact :
      IsLimit
        (get_max_comp_write_count cfg s)
        (λ n. (size_of cfg n n 1 ≤ s.max_message_size) × (n ≤ numeric_max cfg.length_size))
  get_max_comp_write_count_exact = (
    room (size_of cfg 0 0 1) (cfg.address_bytes + cfg.data_bytes),
    get_max_comp_write_count_lem,
    λ n. ground (
      arith,
      room_iff (size_of cfg 0 0 1) (cfg.address_bytes + cfg.data_bytes) n
          (omega (arith, w.data_wire)) (omega (arith, w, v.large)),
    ),
  )
