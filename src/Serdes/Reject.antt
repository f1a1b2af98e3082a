-- ===== src/Serdes/Reject.antt =====
-- `decodeCommand` and `decodeResponse` of Serdes.h on packets that are not theirs.
use rap_cpp.Base.{
  ℕ, ◌+◌, ◌^◌, ◌≤◌, ◌<◌, ◌≡◌, ◌≢◌, refl, Bool, false, true, if◌then◌else◌, not, ◌==◌, some, List,
  ◌++◌, length, length-append, lt→ltb, le→ltb_false, arith,
}
use rap_cpp.Configuration.{Cfg, IsUsable, IsUsable-Widths}
use rap_cpp.Result.{throw, malformed_packet, crc_mismatch, unexpected_message_type}
use rap_cpp.Messages.{Command, write_single, write_seq, write_comp, read_modify_write}
use rap_cpp.Messages.Response.{Response, read_single_ack}
use rap_cpp.Messages.MessageType.{MessageType}
use rap_cpp.Serdes.Buffer.{Calculate, IsCrc}
use rap_cpp.Serdes.Packet.{open_packet}
use rap_cpp.Serdes.Bytes.{to_le, length-to_le}
use rap_cpp.Serdes.Frame.{crc_of, calculate_crc_lem, extract_crc-append, open_packet-frame}
use rap_cpp.Serdes.Command.Decode.{decode_command, decode_command_as}
use rap_cpp.Serdes.Command.Wire.{wire, type_of}
use rap_cpp.Serdes.Response.Decode.{decode_response, decode_response_as}
use rap_cpp.Serdes.Response.Wire.{response_wire, response_type}

module _ (calculate : Calculate) (cfg : Cfg) where
  -- A buffer too short for a header and a checksum is malformed to both decoders.
  pub decode_short :
      (buf : List ℕ)
      → length buf < 2 + cfg.crc_bytes
      → (decode_command calculate cfg buf ≡ throw malformed_packet)
        × (decode_response calculate cfg buf ≡ throw malformed_packet)
  unfolding decode_command decode_response open_packet
  decode_short buf h = let short = lt→ltb (length buf) (2 + cfg.crc_bytes) h in (rw short, rw short)

differs : (a b : ℕ) → a ≢ b → not (a == b) ≡ true
differs a b h = ground arith

module _ (calculate : Calculate) (cfg : Cfg) (lawful : IsCrc calculate) (u : IsUsable cfg) where
  open_packet_corrupt :
      (body : List ℕ) (crc : ℕ)
      → 2 ≤ length body
      → crc < 256 ^ cfg.crc_bytes
      → crc ≢ crc_of calculate cfg body
      → open_packet calculate cfg (body ++ to_le cfg.crc_bytes crc)
        ≡ throw (crc_mismatch (crc_of calculate cfg body) crc)
  unfolding open_packet
  open_packet_corrupt body crc long fits wrong =
      let w = IsUsable-Widths u in
      let enough : 2 + cfg.crc_bytes ≤ length (body ++ to_le cfg.crc_bytes crc) =
        omega
          (arith, length-append body (to_le cfg.crc_bytes crc), length-to_le cfg.crc_bytes crc) in
      rw (
        le→ltb_false (length (body ++ to_le cfg.crc_bytes crc)) (2 + cfg.crc_bytes) enough,
        extract_crc-append calculate cfg lawful w body crc fits,
        calculate_crc_lem calculate cfg lawful w body,
        differs crc (crc_of calculate cfg body) wrong,
      )

  -- A packet with another checksum than that of its bytes is refused by both decoders, with the
  -- expected and the received checksum, whatever its header and payload are.
  pub decode_corrupt :
      (body : List ℕ) (crc : ℕ)
      → 2 ≤ length body
      → crc < 256 ^ cfg.crc_bytes
      → crc ≢ crc_of calculate cfg body
      → let refused = crc_mismatch (crc_of calculate cfg body) crc in
        (decode_command calculate cfg (body ++ to_le cfg.crc_bytes crc) ≡ throw refused)
        × (decode_response calculate cfg (body ++ to_le cfg.crc_bytes crc) ≡ throw refused)
  unfolding decode_command decode_response
  decode_corrupt body crc long fits wrong =
      let e = open_packet_corrupt body crc long fits wrong in (rw e, rw e)

  as_command-response :
      (r : Response) (buf : List ℕ) (txn_id : ℕ)
      → decode_command_as cfg (some (response_type r)) buf txn_id ≡ throw unexpected_message_type
  unfolding decode_command_as
  as_command-response (read_single_ack r) buf txn_id = refl
  as_command-response _ buf txn_id = refl

  as_response-either :
      (posted : Bool) (a b : MessageType) (buf : List ℕ) (txn_id : ℕ)
      → decode_response_as cfg (some a) buf txn_id ≡ throw unexpected_message_type
      → decode_response_as cfg (some b) buf txn_id ≡ throw unexpected_message_type
      → decode_response_as cfg (some (if posted then a else b)) buf txn_id
        ≡ throw unexpected_message_type
  as_response-either true a b buf txn_id p q = p
  as_response-either false a b buf txn_id p q = q

  as_response-command :
      (cmd : Command) (buf : List ℕ) (txn_id : ℕ)
      → decode_response_as cfg (some (type_of cmd)) buf txn_id ≡ throw unexpected_message_type
  unfolding decode_response_as
  as_response-command (write_single c) buf txn_id =
      as_response-either c.posted _ _ buf txn_id refl refl
  as_response-command (write_seq c) buf txn_id =
      as_response-either c.posted _ _ buf txn_id refl refl
  as_response-command (write_comp c) buf txn_id =
      as_response-either c.posted _ _ buf txn_id refl refl
  as_response-command (read_modify_write c) buf txn_id =
      as_response-either c.posted _ _ buf txn_id refl refl
  as_response-command _ buf txn_id = refl

  -- A response is no command and a command is no response: each decoder answers a packet of the
  -- other kind by an `UnexpectedMessageTypeException`, whatever the packet holds.
  pub decode_other_kind :
      (cmd : Command) (r : Response)
      → (decode_command calculate cfg (response_wire calculate cfg r)
          ≡ throw unexpected_message_type)
        × (decode_response calculate cfg (wire calculate cfg cmd) ≡ throw unexpected_message_type)
  unfolding decode_command decode_response
  decode_other_kind cmd r =
      let w = IsUsable-Widths u in
      (
        rw (open_packet-frame calculate cfg lawful w) (as_command-response r _ _),
        rw (open_packet-frame calculate cfg lawful w) (as_response-command cmd _ _),
      )
