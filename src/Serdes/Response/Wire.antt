-- ===== src/Serdes/Response/Wire.antt =====
-- What a response is on the wire, and when a `Serdes` can send it.
use rap_cpp.Base.{ℕ, ◌+◌, ◌*◌, ◌≤◌, ◌<◌, List, [], ◌∷◌, ◌++◌, length, All}
use rap_cpp.Configuration.{Cfg}
use rap_cpp.Messages.Response.{
  Response, read_single_ack, write_single_ack, read_seq_ack, write_seq_ack, read_comp_ack,
  write_comp_ack, read_single_nak, write_single_nak, read_seq_nak, write_seq_nak, read_comp_nak,
  write_comp_nak, rmw_ack, rmw_nak, interrupt,
}
use rap_cpp.Messages.MessageType.{
  MessageType, to_byte, ack_single_read, ack_single_write, ack_seq_read, ack_seq_write,
  ack_comp_read, ack_comp_write, nak_single_read, nak_single_write, nak_seq_read, nak_seq_write,
  nak_comp_read, nak_comp_write, ack_single_rmw, nak_single_rmw, ack_single_interrupt,
}
use rap_cpp.Serdes.Size.{Serdes, numeric_max}
use rap_cpp.Serdes.Buffer.{Calculate}
use rap_cpp.Serdes.Bytes.{to_le}
use rap_cpp.Serdes.Fields.{FitsIn}
use rap_cpp.Serdes.ArrayFields.{array_le}
use rap_cpp.Serdes.Frame.{frame}

abbrev pub response_id : Response → ℕ
response_id (read_single_ack r) = r.transaction_id
response_id (write_single_ack r) = r.transaction_id
response_id (read_seq_ack r) = r.transaction_id
response_id (write_seq_ack r) = r.transaction_id
response_id (read_comp_ack r) = r.transaction_id
response_id (write_comp_ack r) = r.transaction_id
response_id (read_single_nak r) = r.transaction_id
response_id (write_single_nak r) = r.transaction_id
response_id (read_seq_nak r) = r.transaction_id
response_id (write_seq_nak r) = r.transaction_id
response_id (read_comp_nak r) = r.transaction_id
response_id (write_comp_nak r) = r.transaction_id
response_id (rmw_ack r) = r.transaction_id
response_id (rmw_nak r) = r.transaction_id
response_id (interrupt r) = r.transaction_id

abbrev pub response_type : Response → MessageType
response_type (read_single_ack r) = ack_single_read
response_type (write_single_ack r) = ack_single_write
response_type (read_seq_ack r) = ack_seq_read
response_type (write_seq_ack r) = ack_seq_write
response_type (read_comp_ack r) = ack_comp_read
response_type (write_comp_ack r) = ack_comp_write
response_type (read_single_nak r) = nak_single_read
response_type (write_single_nak r) = nak_single_write
response_type (read_seq_nak r) = nak_seq_read
response_type (write_seq_nak r) = nak_seq_write
response_type (read_comp_nak r) = nak_comp_read
response_type (write_comp_nak r) = nak_comp_write
response_type (rmw_ack r) = ack_single_rmw
response_type (rmw_nak r) = nak_single_rmw
response_type (interrupt r) = ack_single_interrupt

module _ (cfg : Cfg) where
  abbrev pub response_payload : Response → List ℕ
  response_payload (read_single_ack r) = to_le cfg.data_bytes r.value
  response_payload (write_single_ack r) = []
  response_payload (read_seq_ack r) =
      to_le cfg.length_bytes (length r.values) ++ array_le cfg.data_bytes r.values
  response_payload (write_seq_ack r) = []
  response_payload (read_comp_ack r) =
      to_le cfg.length_bytes (length r.values) ++ array_le cfg.data_bytes r.values
  response_payload (write_comp_ack r) = []
  response_payload (read_single_nak r) = to_le cfg.data_bytes r.status
  response_payload (write_single_nak r) = to_le cfg.data_bytes r.status
  response_payload (read_seq_nak r) = to_le cfg.data_bytes r.status
  response_payload (write_seq_nak r) = to_le cfg.data_bytes r.status
  response_payload (read_comp_nak r) = to_le cfg.data_bytes r.status
  response_payload (write_comp_nak r) = to_le cfg.data_bytes r.status
  response_payload (rmw_ack r) = []
  response_payload (rmw_nak r) = to_le cfg.data_bytes r.status
  response_payload (interrupt r) = to_le cfg.data_bytes r.status

  -- Each field has a value that its bytes on the wire can hold.
  abbrev pub IsWireResponse : Response → Type 0
  IsWireResponse (read_single_ack r) = (r.transaction_id < 256) × FitsIn cfg.data_bytes r.value
  IsWireResponse (write_single_ack r) = r.transaction_id < 256
  IsWireResponse (read_seq_ack r) =
      (r.transaction_id < 256)
      × FitsIn cfg.length_bytes (length r.values)
      × All (FitsIn cfg.data_bytes) r.values
  IsWireResponse (write_seq_ack r) = r.transaction_id < 256
  IsWireResponse (read_comp_ack r) =
      (r.transaction_id < 256)
      × FitsIn cfg.length_bytes (length r.values)
      × All (FitsIn cfg.data_bytes) r.values
  IsWireResponse (write_comp_ack r) = r.transaction_id < 256
  IsWireResponse (read_single_nak r) = (r.transaction_id < 256) × FitsIn cfg.data_bytes r.status
  IsWireResponse (write_single_nak r) = (r.transaction_id < 256) × FitsIn cfg.data_bytes r.status
  IsWireResponse (read_seq_nak r) = (r.transaction_id < 256) × FitsIn cfg.data_bytes r.status
  IsWireResponse (write_seq_nak r) = (r.transaction_id < 256) × FitsIn cfg.data_bytes r.status
  IsWireResponse (read_comp_nak r) = (r.transaction_id < 256) × FitsIn cfg.data_bytes r.status
  IsWireResponse (write_comp_nak r) = (r.transaction_id < 256) × FitsIn cfg.data_bytes r.status
  IsWireResponse (rmw_ack r) = r.transaction_id < 256
  IsWireResponse (rmw_nak r) = (r.transaction_id < 256) × FitsIn cfg.data_bytes r.status
  IsWireResponse (interrupt r) = (r.transaction_id < 256) × FitsIn cfg.data_bytes r.status

  -- The packet is within the maximum and a `LengthType` can hold the count; of a compressed read
  -- the command has to fit too.
  abbrev pub SendableResponse : Serdes → Response → Type 0
  SendableResponse s (read_seq_ack r) =
      (2 + length (response_payload (read_seq_ack r)) + cfg.crc_bytes ≤ s.max_message_size)
      × (length r.values ≤ numeric_max cfg.length_size)
  SendableResponse s (read_comp_ack r) =
      (2 + length (response_payload (read_comp_ack r)) + cfg.crc_bytes ≤ s.max_message_size)
      × (2 + cfg.length_bytes + length r.values * cfg.address_bytes + cfg.crc_bytes
          ≤ s.max_message_size)
      × (length r.values ≤ numeric_max cfg.length_size)
  SendableResponse s (read_single_ack r) = Unit
  SendableResponse s (write_single_ack r) = Unit
  SendableResponse s (write_seq_ack r) = Unit
  SendableResponse s (write_comp_ack r) = Unit
  SendableResponse s (read_single_nak r) = Unit
  SendableResponse s (write_single_nak r) = Unit
  SendableResponse s (read_seq_nak r) = Unit
  SendableResponse s (write_seq_nak r) = Unit
  SendableResponse s (read_comp_nak r) = Unit
  SendableResponse s (write_comp_nak r) = Unit
  SendableResponse s (rmw_ack r) = Unit
  SendableResponse s (rmw_nak r) = Unit
  SendableResponse s (interrupt r) = Unit

-- The whole packet.
abbrev pub response_wire : Calculate → Cfg → Response → List ℕ
response_wire calculate cfg r =
    frame calculate cfg (response_id r ∷ to_byte (response_type r) ∷ response_payload cfg r)
