-- ===== src/Serdes/Size.antt =====
-- The constructor of `Serdes`, `calcSize`, and the `getMax…Count` functions.
use rap_cpp.Base.{ℕ, ◌+◌, ◌-◌, ◌*◌, ◌/◌, ◌%◌, ◌^◌, min, ltb, ◌==◌, if◌then◌else◌}
use rap_cpp.Result.{
  Result, ok, abort, throw_if, ◌>>=◌, ◌>>◌, base_exception, message_size, division_by_zero,
}
use rap_cpp.Configuration.{Cfg}

-- A conversion to an unsigned type of `size` bytes.
abbrev pub to_unsigned : ℕ → ℕ → ℕ
to_unsigned size v = v % 256 ^ size

-- `std::numeric_limits<T>::max()` for such a type.
abbrev pub numeric_max : ℕ → ℕ
numeric_max size = 256 ^ size - 1

abbrev pub minimum_max_message_size : ℕ
minimum_max_message_size = 32

-- The data of the class: `Cfg` is a parameter of what follows, as it is of the template.
pub record Serdes : Type 0 where
  pub max_message_size : ℕ

unfoldable pub make_serdes : ℕ → Result Serdes
make_serdes size = do
  throw_if (ltb size minimum_max_message_size) base_exception
  ok (record { max_message_size = size })

-- `a / b` on `size_t`.
abbrev pub divide : ℕ → ℕ → Result ℕ
divide a b = if b == 0 then abort division_by_zero else ok (a / b)

module _ (cfg : Cfg) (s : Serdes) where
  -- The sum is taken in `size_t`, of 64 bits.
  unfoldable pub calc_size : ℕ → ℕ → ℕ → Result ℕ
  calc_size address_cnt data_cnt length_cnt = do
    let sz = to_unsigned 8 (
        2
        + address_cnt * cfg.address_bytes
        + data_cnt * cfg.data_bytes
        + length_cnt * cfg.length_bytes
        + cfg.crc_bytes)
    throw_if (ltb s.max_message_size sz) message_size
    ok sz

  -- No difference below wraps: `calc_size` throws if the overhead is more than the maximum.
  unfoldable pub get_max_seq_read_count : Result ℕ
  get_max_seq_read_count = do
    overhead_sz ← calc_size 0 0 1
    max_by_cmd ← divide (s.max_message_size - overhead_sz) cfg.data_bytes
    let max_by_length = numeric_max cfg.length_size
    ok (to_unsigned cfg.length_size (min max_by_cmd max_by_length))

  unfoldable pub get_max_seq_write_count : Result ℕ
  get_max_seq_write_count = do
    overhead_sz ← calc_size 1 0 2
    max_by_cmd ← divide (s.max_message_size - overhead_sz) cfg.data_bytes
    let max_by_length = numeric_max cfg.length_size
    ok (to_unsigned cfg.length_size (min max_by_cmd max_by_length))

  unfoldable pub get_max_comp_read_count : Result ℕ
  get_max_comp_read_count = do
    cmd_overhead ← calc_size 0 0 1
    max_by_cmd ← divide (s.max_message_size - cmd_overhead) cfg.address_bytes
    ack_overhead ← calc_size 0 0 1
    max_by_ack ← divide (s.max_message_size - ack_overhead) cfg.data_bytes
    let max_by_length = numeric_max cfg.length_size
    ok (to_unsigned cfg.length_size (min (min max_by_cmd max_by_ack) max_by_length))

  unfoldable pub get_max_comp_write_count : Result ℕ
  get_max_comp_write_count = do
    overhead_sz ← calc_size 0 0 1
    max_by_cmd ← divide (s.max_message_size - overhead_sz) (cfg.address_bytes + cfg.data_bytes)
    let max_by_length = numeric_max cfg.length_size
    ok (to_unsigned cfg.length_size (min max_by_cmd max_by_length))
