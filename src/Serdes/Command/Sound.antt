-- ===== src/Serdes/Command/Sound.antt =====
-- `decodeCommand` on any bytes at all.
use rap_cpp.Base.{ℕ, ◌<◌, ◌≡◌, refl, sym, ◌∙◌, Option, some, List}
use rap_cpp.Configuration.{Cfg, Widths}
use rap_cpp.Result.{Ensures, Ensures->>=, Ensures-map, Ensures-weaken}
use rap_cpp.Messages.{
  Command, read_single, write_single, read_seq, write_seq, read_comp, write_comp, read_modify_write,
}
use rap_cpp.Messages.MessageType.{
  MessageType, same_type, to_byte-from_byte, cmd_single_read, cmd_single_write,
  cmd_single_write_posted, cmd_seq_read, cmd_seq_write, cmd_seq_write_posted, cmd_comp_read,
  cmd_comp_write, cmd_comp_write_posted, cmd_single_rmw, cmd_single_rmw_posted,
}
use rap_cpp.Serdes.Buffer.{Calculate, IsCrc}
use rap_cpp.Serdes.Packet.{open_packet}
use rap_cpp.Serdes.Bytes.{IsBytes}
use rap_cpp.Serdes.Accept.{IsPacket, open_packet-Ensures}
use rap_cpp.Serdes.Command.Decode.{decode_command, decode_command_as}
use rap_cpp.Serdes.Command.Wire.{wire, IsWire}
use rap_cpp.Serdes.Command.Accepted.{
  IsDecoded, decode_read_single-Ensures, decode_write_single-Ensures, decode_read_seq-Ensures,
  decode_write_seq-Ensures, decode_read_comp-Ensures, decode_write_comp-Ensures,
  decode_read_modify_write-Ensures,
}

module _ (cfg : Cfg) (w : Widths cfg) (txn_id : ℕ) (byte : txn_id < 256) where
  decode_command_as-Ensures :
      (t : Option MessageType) (buf : List ℕ)
      → IsBytes buf
      → Ensures (IsDecoded cfg t txn_id buf) (decode_command_as cfg t buf txn_id)
  unfolding decode_command_as same_type
  decode_command_as-Ensures (some cmd_single_read) buf bytes =
      Ensures-map (IsDecoded cfg (some cmd_single_read) txn_id buf) read_single _
        (decode_read_single-Ensures cfg w txn_id byte buf bytes)
  decode_command_as-Ensures (some cmd_single_write) buf bytes =
      Ensures-map (IsDecoded cfg (some cmd_single_write) txn_id buf) write_single _
        (decode_write_single-Ensures cfg w txn_id byte cmd_single_write buf refl bytes)
  decode_command_as-Ensures (some cmd_single_write_posted) buf bytes =
      Ensures-map (IsDecoded cfg (some cmd_single_write_posted) txn_id buf) write_single _
        (decode_write_single-Ensures cfg w txn_id byte cmd_single_write_posted buf refl bytes)
  decode_command_as-Ensures (some cmd_seq_read) buf bytes =
      Ensures-map (IsDecoded cfg (some cmd_seq_read) txn_id buf) read_seq _
        (decode_read_seq-Ensures cfg w txn_id byte buf bytes)
  decode_command_as-Ensures (some cmd_seq_write) buf bytes =
      Ensures-map (IsDecoded cfg (some cmd_seq_write) txn_id buf) write_seq _
        (decode_write_seq-Ensures cfg w txn_id byte cmd_seq_write buf refl bytes)
  decode_command_as-Ensures (some cmd_seq_write_posted) buf bytes =
      Ensures-map (IsDecoded cfg (some cmd_seq_write_posted) txn_id buf) write_seq _
        (decode_write_seq-Ensures cfg w txn_id byte cmd_seq_write_posted buf refl bytes)
  decode_command_as-Ensures (some cmd_comp_read) buf bytes =
      Ensures-map (IsDecoded cfg (some cmd_comp_read) txn_id buf) read_comp _
        (decode_read_comp-Ensures cfg w txn_id byte buf bytes)
  decode_command_as-Ensures (some cmd_comp_write) buf bytes =
      Ensures-map (IsDecoded cfg (some cmd_comp_write) txn_id buf) write_comp _
        (decode_write_comp-Ensures cfg w txn_id byte cmd_comp_write buf refl bytes)
  decode_command_as-Ensures (some cmd_comp_write_posted) buf bytes =
      Ensures-map (IsDecoded cfg (some cmd_comp_write_posted) txn_id buf) write_comp _
        (decode_write_comp-Ensures cfg w txn_id byte cmd_comp_write_posted buf refl bytes)
  decode_command_as-Ensures (some cmd_single_rmw) buf bytes =
      Ensures-map (IsDecoded cfg (some cmd_single_rmw) txn_id buf) read_modify_write _
        (decode_read_modify_write-Ensures cfg w txn_id byte cmd_single_rmw buf refl bytes)
  decode_command_as-Ensures (some cmd_single_rmw_posted) buf bytes =
      Ensures-map (IsDecoded cfg (some cmd_single_rmw_posted) txn_id buf) read_modify_write _
        (decode_read_modify_write-Ensures cfg w txn_id byte cmd_single_rmw_posted buf refl bytes)
  decode_command_as-Ensures _ buf bytes = tt

module _ (calculate : Calculate) (cfg : Cfg) (lawful : IsCrc calculate) (w : Widths cfg) where
  -- On any bytes `decodeCommand` reads nothing outside of the buffer, and it throws or returns a
  -- command whose fields fit and whose packet those bytes are.
  pub decode_command-Ensures :
      (buf : List ℕ)
      → IsBytes buf
      → Ensures
          (λ cmd. (buf ≡ wire calculate cfg cmd) × IsWire cfg cmd)
          (decode_command calculate cfg buf)
  unfolding decode_command
  decode_command-Ensures buf bytes =
      let Q = λ (cmd : Command). (buf ≡ wire calculate cfg cmd) × IsWire cfg cmd in
      Ensures->>= (IsPacket calculate cfg buf) Q (open_packet calculate cfg buf) _
        (open_packet-Ensures cfg w calculate lawful buf bytes)
        λ p packet.
          Ensures-weaken (IsDecoded cfg p.1 p.0 p.2) Q _
            (decode_command_as-Ensures cfg w p.0 packet.id_byte p.1 p.2 packet.payload_bytes)
            λ cmd done. (
              cc (
                packet.whole,
                done.is_id,
                done.whole,
                to_byte-from_byte packet.type_byte (packet.msg_type ∙ sym done.is_type),
              ),
              done.fits,
            )
