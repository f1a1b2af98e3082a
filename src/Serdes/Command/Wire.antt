-- ===== src/Serdes/Command/Wire.antt =====
-- What a command is on the wire, written down without the loops and the checks of the code, and
-- when a `Serdes` can send it.
use rap_cpp.Base.{ℕ, ◌+◌, ◌*◌, ◌≤◌, ◌<◌, List, ◌∷◌, ◌++◌, length, All, if◌then◌else◌}
use rap_cpp.Configuration.{Cfg}
use rap_cpp.Messages.{
  Command, read_single, write_single, read_seq, write_seq, read_comp, write_comp, read_modify_write,
}
use rap_cpp.Messages.MessageType.{
  MessageType, to_byte, cmd_single_read, cmd_single_write, cmd_single_write_posted, cmd_seq_read,
  cmd_seq_write, cmd_seq_write_posted, cmd_comp_read, cmd_comp_write, cmd_comp_write_posted,
  cmd_single_rmw, cmd_single_rmw_posted,
}
use rap_cpp.Serdes.Size.{Serdes, numeric_max}
use rap_cpp.Serdes.Buffer.{Calculate}
use rap_cpp.Serdes.Bytes.{to_le}
use rap_cpp.Serdes.Fields.{FitsIn}
use rap_cpp.Serdes.ArrayFields.{array_le, pairs_le, PairFitsIn}
use rap_cpp.Serdes.Frame.{frame}

abbrev pub id_of : Command → ℕ
id_of (read_single c) = c.transaction_id
id_of (write_single c) = c.transaction_id
id_of (read_seq c) = c.transaction_id
id_of (write_seq c) = c.transaction_id
id_of (read_comp c) = c.transaction_id
id_of (write_comp c) = c.transaction_id
id_of (read_modify_write c) = c.transaction_id

abbrev pub type_of : Command → MessageType
type_of (read_single c) = cmd_single_read
type_of (write_single c) = if c.posted then cmd_single_write_posted else cmd_single_write
type_of (read_seq c) = cmd_seq_read
type_of (write_seq c) = if c.posted then cmd_seq_write_posted else cmd_seq_write
type_of (read_comp c) = cmd_comp_read
type_of (write_comp c) = if c.posted then cmd_comp_write_posted else cmd_comp_write
type_of (read_modify_write c) = if c.posted then cmd_single_rmw_posted else cmd_single_rmw

module _ (cfg : Cfg) where
  abbrev pub address_le : ℕ → List ℕ
  address_le = to_le cfg.address_bytes

  abbrev pub data_le : ℕ → List ℕ
  data_le = to_le cfg.data_bytes

  abbrev pub length_le : ℕ → List ℕ
  length_le = to_le cfg.length_bytes

  abbrev pub payload : Command → List ℕ
  payload (read_single c) = address_le c.addr
  payload (write_single c) = address_le c.addr ++ data_le c.value
  payload (read_seq c) = address_le c.start_addr ++ (length_le c.increment ++ length_le c.count)
  payload (write_seq c) =
      address_le c.start_addr
      ++ (length_le c.increment
          ++ (length_le (length c.values) ++ array_le cfg.data_bytes c.values))
  payload (read_comp c) = length_le (length c.addresses) ++ array_le cfg.address_bytes c.addresses
  payload (write_comp c) =
      length_le (length c.addr_data) ++ pairs_le cfg.address_bytes cfg.data_bytes c.addr_data
  payload (read_modify_write c) = address_le c.addr ++ (data_le c.value ++ data_le c.mask)

  -- Each field has a value that its bytes on the wire can hold.
  abbrev pub IsWire : Command → Type 0
  IsWire (read_single c) = (c.transaction_id < 256) × FitsIn cfg.address_bytes c.addr
  IsWire (write_single c) =
      (c.transaction_id < 256) × FitsIn cfg.address_bytes c.addr × FitsIn cfg.data_bytes c.value
  IsWire (read_seq c) =
      (c.transaction_id < 256)
      × FitsIn cfg.address_bytes c.start_addr
      × FitsIn cfg.length_bytes c.increment
      × FitsIn cfg.length_bytes c.count
  IsWire (write_seq c) =
      (c.transaction_id < 256)
      × FitsIn cfg.address_bytes c.start_addr
      × FitsIn cfg.length_bytes c.increment
      × FitsIn cfg.length_bytes (length c.values)
      × All (FitsIn cfg.data_bytes) c.values
  IsWire (read_comp c) =
      (c.transaction_id < 256)
      × FitsIn cfg.length_bytes (length c.addresses)
      × All (FitsIn cfg.address_bytes) c.addresses
  IsWire (write_comp c) =
      (c.transaction_id < 256)
      × FitsIn cfg.length_bytes (length c.addr_data)
      × All (PairFitsIn cfg.address_bytes cfg.data_bytes) c.addr_data
  IsWire (read_modify_write c) =
      (c.transaction_id < 256)
      × FitsIn cfg.address_bytes c.addr
      × FitsIn cfg.data_bytes c.value
      × FitsIn cfg.data_bytes c.mask

  -- The packet, and for a read also its acknowledgement, is within the maximum, and a `LengthType`
  -- can hold the count.
  abbrev pub Sendable : Serdes → Command → Type 0
  Sendable s (read_single c) = Unit
  Sendable s (write_single c) = Unit
  Sendable s (read_modify_write c) = Unit
  Sendable s (read_seq c) =
      (2 + cfg.length_bytes + c.count * cfg.data_bytes + cfg.crc_bytes ≤ s.max_message_size)
      × (c.count ≤ numeric_max cfg.length_size)
  Sendable s (write_seq c) =
      (2 + length (payload (write_seq c)) + cfg.crc_bytes ≤ s.max_message_size)
      × (length c.values ≤ numeric_max cfg.length_size)
  Sendable s (read_comp c) =
      (2 + length (payload (read_comp c)) + cfg.crc_bytes ≤ s.max_message_size)
      × (2 + cfg.length_bytes + length c.addresses * cfg.data_bytes + cfg.crc_bytes
          ≤ s.max_message_size)
      × (length c.addresses ≤ numeric_max cfg.length_size)
  Sendable s (write_comp c) =
      (2 + length (payload (write_comp c)) + cfg.crc_bytes ≤ s.max_message_size)
      × (length c.addr_data ≤ numeric_max cfg.length_size)

-- The whole packet.
abbrev pub wire : Calculate → Cfg → Command → List ℕ
wire calculate cfg cmd = frame calculate cfg (id_of cmd ∷ to_byte (type_of cmd) ∷ payload cfg cmd)
