-- ===== src/Serdes/Buffer.antt =====
-- `mkBuffer`, the `append…` and `extract…` functions and `calculateCrc` of `Serdes`.
-- A buffer is the list of its bytes. An `append…` returns the longer buffer, and an `extract…`
-- returns the value with the view that is left.
use rap_cpp.Base.{
  ℕ, zero, suc, ◌+◌, ◌-◌, ◌*◌, ◌/◌, ◌^◌, ◌<◌, bit_and, bit_or, Bool, true, false, Option, none,
  some, List, [], ◌∷◌, ◌++◌, ltb, ◌==◌, if◌then◌else◌, length, get_elem?, take, drop,
}
use rap_cpp.Result.{
  Result, ok, abort, throw_if, in_range, assert, ◌>>=◌, ◌>>◌, malformed_packet, no_return,
}
use rap_cpp.Configuration.{Cfg}
use rap_cpp.Messages.MessageType.{MessageType, to_byte}
use rap_cpp.Serdes.Size.{to_unsigned}

abbrev pub Buffer : Type 0
Buffer = List ℕ

abbrev pub append_byte : Buffer → ℕ → Buffer
append_byte buf v = buf ++ (v ∷ [])

-- `reserve` changes nothing that can be seen.
unfoldable pub mk_buffer : ℕ → MessageType → Buffer
mk_buffer txn_id msg_type = append_byte (append_byte [] txn_id) (to_byte msg_type)

-- `for (i = 0; i < n; i++) { buf.push_back(v & 0xFF); v >>= 8; }`
unfoldable pub append_low_bytes : ℕ → Buffer → ℕ → Buffer
append_low_bytes zero buf v = buf
append_low_bytes (suc n) buf v = append_low_bytes n (buf ++ (bit_and v 0xff ∷ [])) (v / 2 ^ 8)

-- `v |= T{ buf[i] } << (i * 8)`, for `left` rounds from `i` on and `T` of `size` bytes.
unfoldable pub gather_bytes : ℕ → ℕ → ℕ → Buffer → ℕ → Result ℕ
gather_bytes size zero i buf v = ok v
gather_bytes size (suc left) i buf v = do
  b ← in_range (get_elem? buf i)
  gather_bytes size left (i + 1) buf (to_unsigned size (bit_or v (b * 2 ^ (i * 8))))

-- The body that `extractAddress`, `extractData` and `extractLength` share.
unfoldable pub extract_value : ℕ → ℕ → Buffer → Result (ℕ × Buffer)
unfolding gather_bytes
extract_value size n buf = do
  throw_if (ltb (length buf) n) malformed_packet
  v ← gather_bytes size n 0 buf 0
  ok (v, drop n buf)

-- The body that `extractAddressArray` and `extractDataArray` share.
unfoldable pub extract_values : ℕ → ℕ → ℕ → Buffer → Result (List ℕ × Buffer)
unfolding extract_value
extract_values size n zero buf = ok ([], buf)
extract_values size n (suc count) buf = do
  (v, buf') ← extract_value size n buf
  (vs, rest) ← extract_values size n count buf'
  ok (v ∷ vs, rest)

unfoldable pub extract_byte : Buffer → Result (ℕ × Buffer)
extract_byte buf = do
  throw_if (ltb (length buf) 1) malformed_packet
  v ← in_range (get_elem? buf 0)
  ok (v, drop 1 buf)

-- What `CRCPP::CRC::Parameters` is filled with.
pub record CrcParameters : Type 0 where
  pub width : ℕ
  pub polynomial : ℕ
  pub initial_value : ℕ
  pub final_xor : ℕ
  pub reflect_input : Bool
  pub reflect_output : Bool

-- The `if constexpr` chain of `calculateCrc`; `none` is the way past its end.
unfoldable pub crc_parameters : ℕ → Option CrcParameters
crc_parameters crc_bytes =
    if crc_bytes == 1
    then some (record {
      width = 8;
      polynomial = 0xd5;
      initial_value = 0x00;
      final_xor = 0x00;
      reflect_input = false;
      reflect_output = false;
    })
    else if crc_bytes == 2
    then some (record {
      width = 16;
      polynomial = 0x1021;
      initial_value = 0x0000;
      final_xor = 0x0000;
      reflect_input = false;
      reflect_output = false;
    })
    else if crc_bytes == 3
    then some (record {
      width = 24;
      polynomial = 0x328b63;
      initial_value = 0xffffff;
      final_xor = 0xffffff;
      reflect_input = false;
      reflect_output = false;
    })
    else if crc_bytes == 4
    then some (record {
      width = 32;
      polynomial = 0x1edc6f41;
      initial_value = 0xffffffff;
      final_xor = 0xffffffff;
      reflect_input = true;
      reflect_output = true;
    })
    else none

-- `CRCPP::CRC::Calculate` of the library CRCpp, which is not part of the repository.
abbrev pub Calculate : Type 0
Calculate = CrcParameters → Buffer → ℕ

-- What CRCpp documents: the result is a number of the width that was asked for.
pub record IsCrc (calculate : Calculate) : Type 0 where
  pub fits : (p : CrcParameters) (buf : Buffer) → calculate p buf < 2 ^ p.width

module _ (cfg : Cfg) where
  unfoldable pub append_address : Buffer → ℕ → Buffer
  unfolding append_low_bytes
  append_address = append_low_bytes cfg.address_bytes

  unfoldable pub append_data : Buffer → ℕ → Buffer
  unfolding append_low_bytes
  append_data = append_low_bytes cfg.data_bytes

  -- The argument is converted to `LengthType` on the way in.
  unfoldable pub append_length : Buffer → ℕ → Buffer
  unfolding append_low_bytes
  append_length buf v = append_low_bytes cfg.length_bytes buf (to_unsigned cfg.length_size v)

  unfoldable pub extract_address : Buffer → Result (ℕ × Buffer)
  unfolding extract_value
  extract_address = extract_value cfg.address_size cfg.address_bytes

  unfoldable pub extract_data : Buffer → Result (ℕ × Buffer)
  unfolding extract_value
  extract_data = extract_value cfg.data_size cfg.data_bytes

  unfoldable pub extract_length : Buffer → Result (ℕ × Buffer)
  unfolding extract_value
  extract_length = extract_value cfg.length_size cfg.length_bytes

  unfoldable pub extract_address_array : ℕ → Buffer → Result (List ℕ × Buffer)
  unfolding extract_values
  extract_address_array = extract_values cfg.address_size cfg.address_bytes

  unfoldable pub extract_data_array : ℕ → Buffer → Result (List ℕ × Buffer)
  unfolding extract_values
  extract_data_array = extract_values cfg.data_size cfg.data_bytes

  unfoldable pub extract_address_data_array : ℕ → Buffer → Result (List (ℕ × ℕ) × Buffer)
  unfolding extract_address extract_data
  extract_address_data_array zero buf = ok ([], buf)
  extract_address_data_array (suc count) buf = do
    (a, buf') ← extract_address buf
    (d, buf'') ← extract_data buf'
    (addr_data, rest) ← extract_address_data_array count buf''
    ok ((a, d) ∷ addr_data, rest)

  -- The checksum stands at the end, and the view loses it there.
  unfoldable pub extract_crc : Buffer → Result (ℕ × Buffer)
  unfolding gather_bytes
  extract_crc buf = do
    throw_if (ltb (length buf) cfg.crc_bytes) malformed_packet
    let crc_buf = drop (length buf - cfg.crc_bytes) buf
    v ← gather_bytes cfg.crc_size cfg.crc_bytes 0 crc_buf 0
    ok (v, take (length buf - cfg.crc_bytes) buf)

-- `for (i = 0; i < n; i++) buf.push_back(crc >> (i * 8));`, for `left` rounds from `i` on.
unfoldable pub append_shifted : ℕ → ℕ → Buffer → ℕ → Buffer
append_shifted zero i buf crc = buf
append_shifted (suc left) i buf crc =
    append_shifted left (i + 1) (buf ++ (to_unsigned 1 (crc / 2 ^ (i * 8)) ∷ [])) crc

module _ (calculate : Calculate) (cfg : Cfg) where
  unfoldable pub calculate_crc : Buffer → Result ℕ
  calculate_crc buf = elim (crc_parameters cfg.crc_bytes) [
    | none ↦ abort no_return
    | some parameters ↦ ok (calculate parameters buf)
  ]

  unfoldable pub append_crc : Buffer → Result Buffer
  append_crc buf = do crc ← calculate_crc buf; ok (append_shifted cfg.crc_bytes 0 buf crc)

  -- The three lines that end every `encode`: `appendCrc(buf); assert(buf.size() == sz); return buf;`
  unfoldable pub finish : ℕ → Buffer → Result Buffer
  finish sz buf = do whole ← append_crc buf; assert (length whole == sz); ok whole
