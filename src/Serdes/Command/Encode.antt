-- ===== src/Serdes/Command/Encode.antt =====
-- `encode` of the seven commands, and `encodeCommand`.
use rap_cpp.Base.{ltb, if◌then◌else◌, length}
use rap_cpp.Result.{Result, throw_if, ◌>>=◌, ◌>>◌, message_size}
use rap_cpp.Configuration.{Cfg}
use rap_cpp.Messages.{
  ReadSingleCommand, WriteSingleCommand, ReadSeqCommand, WriteSeqCommand, ReadCompCommand,
  WriteCompCommand, ReadModifyWriteCommand, Command, read_single, write_single, read_seq, write_seq,
  read_comp, write_comp, read_modify_write,
}
use rap_cpp.Messages.MessageType.{
  cmd_single_read, cmd_single_write, cmd_single_write_posted, cmd_seq_read, cmd_seq_write,
  cmd_seq_write_posted, cmd_comp_read, cmd_comp_write, cmd_comp_write_posted, cmd_single_rmw,
  cmd_single_rmw_posted,
}
use rap_cpp.Serdes.Size.{
  Serdes, calc_size, get_max_seq_read_count, get_max_seq_write_count, get_max_comp_read_count,
  get_max_comp_write_count,
}
use rap_cpp.Serdes.Buffer.{
  Buffer, Calculate, mk_buffer, append_address, append_data, append_length, finish,
}
use rap_cpp.Serdes.Arrays.{append_data_array, append_address_array, append_address_data_array}

module _ (calculate : Calculate) (cfg : Cfg) (s : Serdes) where
  unfoldable pub encode_read_single : ReadSingleCommand → Result Buffer
  encode_read_single cmd = do
    sz ← calc_size cfg s 1 0 0
    let buf = mk_buffer cmd.transaction_id cmd_single_read
    finish calculate cfg sz (append_address cfg buf cmd.addr)

  unfoldable pub encode_write_single : WriteSingleCommand → Result Buffer
  encode_write_single cmd = do
    sz ← calc_size cfg s 1 1 0
    let msg_type = if cmd.posted then cmd_single_write_posted else cmd_single_write
    let buf = mk_buffer cmd.transaction_id msg_type
    let buf' = append_address cfg buf cmd.addr
    finish calculate cfg sz (append_data cfg buf' cmd.value)

  unfoldable pub encode_read_seq : ReadSeqCommand → Result Buffer
  encode_read_seq cmd = do
    limit ← get_max_seq_read_count cfg s
    throw_if (ltb limit cmd.count) message_size
    sz ← calc_size cfg s 1 0 2
    let buf = mk_buffer cmd.transaction_id cmd_seq_read
    let buf' = append_address cfg buf cmd.start_addr
    let buf'' = append_length cfg buf' cmd.increment
    finish calculate cfg sz (append_length cfg buf'' cmd.count)

  unfoldable pub encode_write_seq : WriteSeqCommand → Result Buffer
  encode_write_seq cmd = do
    limit ← get_max_seq_write_count cfg s
    throw_if (ltb limit (length cmd.values)) message_size
    sz ← calc_size cfg s 1 (length cmd.values) 2
    let msg_type = if cmd.posted then cmd_seq_write_posted else cmd_seq_write
    let buf = mk_buffer cmd.transaction_id msg_type
    let buf' = append_address cfg buf cmd.start_addr
    let buf'' = append_length cfg buf' cmd.increment
    let buf''' = append_length cfg buf'' (length cmd.values)
    finish calculate cfg sz (append_data_array cfg buf''' cmd.values)

  unfoldable pub encode_read_comp : ReadCompCommand → Result Buffer
  encode_read_comp cmd = do
    limit ← get_max_comp_read_count cfg s
    throw_if (ltb limit (length cmd.addresses)) message_size
    sz ← calc_size cfg s (length cmd.addresses) 0 1
    let buf = mk_buffer cmd.transaction_id cmd_comp_read
    let buf' = append_length cfg buf (length cmd.addresses)
    finish calculate cfg sz (append_address_array cfg buf' cmd.addresses)

  unfoldable pub encode_write_comp : WriteCompCommand → Result Buffer
  encode_write_comp cmd = do
    limit ← get_max_comp_write_count cfg s
    throw_if (ltb limit (length cmd.addr_data)) message_size
    sz ← calc_size cfg s (length cmd.addr_data) (length cmd.addr_data) 1
    let msg_type = if cmd.posted then cmd_comp_write_posted else cmd_comp_write
    let buf = mk_buffer cmd.transaction_id msg_type
    let buf' = append_length cfg buf (length cmd.addr_data)
    finish calculate cfg sz (append_address_data_array cfg buf' cmd.addr_data)

  unfoldable pub encode_read_modify_write : ReadModifyWriteCommand → Result Buffer
  encode_read_modify_write cmd = do
    sz ← calc_size cfg s 1 2 0
    let msg_type = if cmd.posted then cmd_single_rmw_posted else cmd_single_rmw
    let buf = mk_buffer cmd.transaction_id msg_type
    let buf' = append_address cfg buf cmd.addr
    let buf'' = append_data cfg buf' cmd.value
    finish calculate cfg sz (append_data cfg buf'' cmd.mask)

  unfoldable pub encode_command : Command → Result Buffer
  encode_command (read_single cmd) = encode_read_single cmd
  encode_command (write_single cmd) = encode_write_single cmd
  encode_command (read_seq cmd) = encode_read_seq cmd
  encode_command (write_seq cmd) = encode_write_seq cmd
  encode_command (read_comp cmd) = encode_read_comp cmd
  encode_command (write_comp cmd) = encode_write_comp cmd
  encode_command (read_modify_write cmd) = encode_read_modify_write cmd
