-- ===== src/Serdes/Packet.antt =====
-- What all decoders of `Serdes` share: how a packet begins and how it ends.
use rap_cpp.Base.{ℕ, ◌+◌, Option, ltb, ◌==◌, not, length}
use rap_cpp.Result.{Result, ok, throw_if, ◌>>=◌, ◌>>◌, crc_mismatch, malformed_packet}
use rap_cpp.Configuration.{Cfg}
use rap_cpp.Messages.MessageType.{MessageType, from_byte}
use rap_cpp.Serdes.Buffer.{Buffer, Calculate, extract_byte, extract_crc, calculate_crc}

-- `if (buf.size() != 0) throw MalformedPacketException();`
abbrev pub end_of_packet : Buffer → Result (Unit {0})
end_of_packet buf = throw_if (not (length buf == 0)) malformed_packet

module _ (calculate : Calculate) (cfg : Cfg) where
  -- The lines with which `decodeCommand` and `decodeResponse` both begin: the transaction id,
  -- the type and the payload of a packet whose checksum is right.
  unfoldable pub open_packet : Buffer → Result (ℕ × Option MessageType × Buffer)
  open_packet buf = do
    throw_if (ltb (length buf) (2 + cfg.crc_bytes)) malformed_packet
    (wire_crc, buf') ← extract_crc cfg buf
    expected_crc ← calculate_crc calculate cfg buf'
    throw_if (not (wire_crc == expected_crc)) (crc_mismatch expected_crc wire_crc)
    (transaction_id, buf'') ← extract_byte buf'
    (msg_type, payload) ← extract_byte buf''
    ok (transaction_id, from_byte msg_type, payload)
