-- ===== src/Serdes/Command/Decoded.antt =====
-- `decodeCommand` on the packet of a command.
use rap_cpp.Base.{ℕ, ◌≡◌, refl, Bool, true, false, some, length, ==_refl, if◌then◌else◌}
use rap_cpp.Configuration.{Cfg, Widths}
use rap_cpp.Result.{ok, ◌>>=◌}
use rap_cpp.Messages.{
  Command, read_single, write_single, read_seq, write_seq, read_comp, write_comp, read_modify_write,
}
use rap_cpp.Messages.MessageType.{
  same_type, cmd_single_write, cmd_single_write_posted, cmd_seq_write, cmd_seq_write_posted,
  cmd_comp_write, cmd_comp_write_posted, cmd_single_rmw, cmd_single_rmw_posted,
}
use rap_cpp.Serdes.Buffer.{Buffer, Calculate, IsCrc}
use rap_cpp.Serdes.Readers.{
  extract_address_lem, extract_address_last, extract_data_lem, extract_data_last,
  extract_length_lem, extract_length_last, extract_address_array_last, extract_data_array_last,
  extract_address_data_array_last,
}
use rap_cpp.Serdes.ArrayFields.{length-array_le, length-pairs_le}
use rap_cpp.Serdes.Frame.{open_packet-frame}
use rap_cpp.Serdes.Command.Decode.{
  decode_command, decode_command_as, decode_read_single, decode_write_single, decode_read_seq,
  decode_write_seq, decode_read_comp, decode_write_comp, decode_read_modify_write,
}
use rap_cpp.Serdes.Command.Wire.{wire, payload, IsWire, id_of, type_of}

-- The flag of a command is told from its type, and the type leads to the decoder of its kind.
module _ (cfg : Cfg) (buf : Buffer) (txn_id : ℕ) where
  write_single_flag :
      (posted : Bool)
      → let m = if posted then cmd_single_write_posted else cmd_single_write in
        (same_type m cmd_single_write_posted ≡ posted)
        × (decode_command_as cfg (some m) buf txn_id
            ≡ (decode_write_single cfg buf txn_id m >>= λ c. ok (write_single c)))
  unfolding decode_command_as same_type
  write_single_flag true = (refl, refl)
  write_single_flag false = (refl, refl)

  pub write_seq_flag :
      (posted : Bool)
      → let m = if posted then cmd_seq_write_posted else cmd_seq_write in
        (same_type m cmd_seq_write_posted ≡ posted)
        × (decode_command_as cfg (some m) buf txn_id
            ≡ (decode_write_seq cfg buf txn_id m >>= λ c. ok (write_seq c)))
  unfolding decode_command_as same_type
  write_seq_flag true = (refl, refl)
  write_seq_flag false = (refl, refl)

  write_comp_flag :
      (posted : Bool)
      → let m = if posted then cmd_comp_write_posted else cmd_comp_write in
        (same_type m cmd_comp_write_posted ≡ posted)
        × (decode_command_as cfg (some m) buf txn_id
            ≡ (decode_write_comp cfg buf txn_id m >>= λ c. ok (write_comp c)))
  unfolding decode_command_as same_type
  write_comp_flag true = (refl, refl)
  write_comp_flag false = (refl, refl)

  rmw_flag :
      (posted : Bool)
      → let m = if posted then cmd_single_rmw_posted else cmd_single_rmw in
        (same_type m cmd_single_rmw_posted ≡ posted)
        × (decode_command_as cfg (some m) buf txn_id
            ≡ (decode_read_modify_write cfg buf txn_id m >>= λ c. ok (read_modify_write c)))
  unfolding decode_command_as same_type
  rmw_flag true = (refl, refl)
  rmw_flag false = (refl, refl)

module _ (cfg : Cfg) (w : Widths cfg) where
  decode_command_as-payload :
      (cmd : Command)
      → IsWire cfg cmd
      → decode_command_as cfg (some (type_of cmd)) (payload cfg cmd) (id_of cmd) ≡ ok cmd
  unfolding decode_command_as decode_read_single decode_write_single decode_read_seq
      decode_write_seq decode_read_comp decode_write_comp decode_read_modify_write
  decode_command_as-payload (read_single c) h = rw (extract_address_last cfg w c.addr h.1)
  decode_command_as-payload (write_single c) h =
      let (flag, kind) =
        write_single_flag cfg (payload cfg (write_single c)) c.transaction_id c.posted in
      rw (kind, extract_address_lem cfg w c.addr _ h.1, extract_data_last cfg w c.value h.2, flag)
  decode_command_as-payload (read_seq c) h = rw (
    extract_address_lem cfg w c.start_addr _ h.1,
    extract_length_lem cfg w c.increment _ h.2,
    extract_length_last cfg w c.count h.3,
  )
  decode_command_as-payload (write_seq c) h =
      let (flag, kind) = write_seq_flag cfg (payload cfg (write_seq c)) c.transaction_id c.posted in
      rw (
        kind,
        extract_address_lem cfg w c.start_addr _ h.1,
        extract_length_lem cfg w c.increment _ h.2,
        extract_length_lem cfg w (length c.values) _ h.3,
        length-array_le,
        ==_refl,
        extract_data_array_last cfg w c.values h.4,
        flag,
      )
  decode_command_as-payload (read_comp c) h = rw (
    extract_length_lem cfg w (length c.addresses) _ h.1,
    length-array_le,
    ==_refl,
    extract_address_array_last cfg w c.addresses h.2,
  )
  decode_command_as-payload (write_comp c) h =
      let (flag, kind) =
        write_comp_flag cfg (payload cfg (write_comp c)) c.transaction_id c.posted in
      rw (
        kind,
        extract_length_lem cfg w (length c.addr_data) _ h.1,
        length-pairs_le,
        ==_refl,
        extract_address_data_array_last cfg w c.addr_data h.2,
        flag,
      )
  decode_command_as-payload (read_modify_write c) h =
      let (flag, kind) =
        rmw_flag cfg (payload cfg (read_modify_write c)) c.transaction_id c.posted in
      rw (
        kind,
        extract_address_lem cfg w c.addr _ h.1,
        extract_data_lem cfg w c.value _ h.2,
        extract_data_last cfg w c.mask h.3,
        flag,
      )

  -- `decodeCommand` reads the packet of every command whose fields fit.
  pub decode_command-wire :
      (calculate : Calculate)
      → IsCrc calculate
      → (cmd : Command) → IsWire cfg cmd
      → decode_command calculate cfg (wire calculate cfg cmd) ≡ ok cmd
  unfolding decode_command
  decode_command-wire calculate lawful cmd h =
      rw (open_packet-frame calculate cfg lawful w) (decode_command_as-payload cmd h)
