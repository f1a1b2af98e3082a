-- ===== src/Configuration.antt =====
-- Configuration.h: the traits struct that every template takes.
use rap_cpp.Base.{ℕ, ◌+◌, ◌/◌, ◌≤◌, ◌<◌, ◌≡◌, ◌⊎◌, Bool, true, false, arith}

-- `AddressType` and its like are unsigned integers, given by their `sizeof`.
pub record Cfg : Type 0 where
  pub address_size : ℕ
  pub address_bits : ℕ
  pub address_bytes : ℕ
  pub data_size : ℕ
  pub data_bits : ℕ
  pub data_bytes : ℕ
  pub length_size : ℕ
  pub length_bytes : ℕ
  pub crc_size : ℕ
  pub crc_bytes : ℕ
  pub feature_sequential : Bool
  pub feature_fifo : Bool
  pub feature_increment : Bool
  pub feature_compressed : Bool
  pub feature_interrupt : Bool
  pub feature_read_modify_write : Bool

-- uint8_t, uint16_t, uint32_t or uint64_t.
abbrev pub ValidAddressType : ℕ → Type 0
ValidAddressType size = (size ≡ 1) ⊎ (size ≡ 2) ⊎ (size ≡ 4) ⊎ (size ≡ 8)

abbrev pub ValidDataType : ℕ → Type 0
ValidDataType size = (size ≡ 1) ⊎ (size ≡ 2) ⊎ (size ≡ 4) ⊎ (size ≡ 8)

abbrev pub ValidLengthType : ℕ → Type 0
ValidLengthType size = (size ≡ 1) ⊎ (size ≡ 2)

abbrev pub ValidCrcType : ℕ → Type 0
ValidCrcType size = (size ≡ 1) ⊎ (size ≡ 2) ⊎ (size ≡ 4)

-- The requirements that the concept lists. A compiler checks of each inequality only that it
-- is an expression, not that it is true, so this is what an author of a configuration keeps to.
pub record IsConfigurationType (cfg : Cfg) : Type 0 where
  pub address_type : ValidAddressType cfg.address_size
  pub address_bits_fit : (cfg.address_bits + 7) / 8 ≤ cfg.address_bytes
  pub address_bytes_fit : cfg.address_bytes ≤ cfg.address_size
  pub data_type : ValidDataType cfg.data_size
  pub data_bits_fit : (cfg.data_bits + 7) / 8 ≤ cfg.data_bytes
  pub data_bytes_fit : cfg.data_bytes ≤ cfg.data_size
  pub length_type : ValidLengthType cfg.length_size
  pub length_bytes_fit : cfg.length_bytes ≤ cfg.length_size
  pub crc_type : ValidCrcType cfg.crc_size
  pub crc_bytes_fit : cfg.crc_bytes ≤ cfg.crc_size

-- A configuration that keeps to the concept and gives each field a byte at least on the wire.
pub record IsUsable (cfg : Cfg) : Type 0 where
  pub lawful : IsConfigurationType cfg
  pub address_present : 0 < cfg.address_bytes
  pub data_present : 0 < cfg.data_bytes
  pub length_present : 0 < cfg.length_bytes
  pub crc_present : 0 < cfg.crc_bytes

abbrev pub example_rap_cfg : Cfg
example_rap_cfg = record {
  address_size = 4;
  address_bits = 24;
  address_bytes = 3;
  data_size = 4;
  data_bits = 32;
  data_bytes = 4;
  length_size = 2;
  length_bytes = 2;
  crc_size = 2;
  crc_bytes = 2;
  feature_sequential = true;
  feature_fifo = true;
  feature_increment = false;
  feature_compressed = true;
  feature_interrupt = false;
  feature_read_modify_write = false;
}

-- The widths that the other modules rely on.
pub record Widths (cfg : Cfg) : Type 0 where
  pub address_wire : (0 < cfg.address_bytes) × (cfg.address_bytes ≤ cfg.address_size)
  pub address_max : cfg.address_bytes ≤ 8
  pub data_wire : (0 < cfg.data_bytes) × (cfg.data_bytes ≤ cfg.data_size)
  pub data_max : cfg.data_bytes ≤ 8
  pub length_wire : (0 < cfg.length_bytes) × (cfg.length_bytes ≤ cfg.length_size)
  pub length_max : cfg.length_size ≤ 2
  pub crc_wire : (0 < cfg.crc_bytes) × (cfg.crc_bytes ≤ cfg.crc_size)
  pub crc_max : cfg.crc_bytes ≤ 4

pub IsUsable-Widths : {cfg : Cfg} → IsUsable cfg → Widths cfg
IsUsable-Widths u = ground arith

pub example_rap_cfg-IsUsable : IsUsable example_rap_cfg
example_rap_cfg-IsUsable = ground arith
