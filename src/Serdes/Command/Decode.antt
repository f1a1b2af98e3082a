-- ===== src/Serdes/Command/Decode.antt =====
-- `decode` of the seven commands, and `decodeCommand`.
use rap_cpp.Base.{ℕ, ◌+◌, ◌*◌, Option, some, ◌==◌, not, length}
use rap_cpp.Result.{
  Result, ok, throw, throw_if, ◌>>=◌, ◌>>◌, base_exception, unexpected_message_type,
}
use rap_cpp.Configuration.{Cfg}
use rap_cpp.Messages.{
  ReadSingleCommand, WriteSingleCommand, ReadSeqCommand, WriteSeqCommand, ReadCompCommand,
  WriteCompCommand, ReadModifyWriteCommand, Command, read_single, write_single, read_seq, write_seq,
  read_comp, write_comp, read_modify_write,
}
use rap_cpp.Messages.MessageType.{
  MessageType, same_type, cmd_single_read, cmd_single_write, cmd_single_write_posted, cmd_seq_read,
  cmd_seq_write, cmd_seq_write_posted, cmd_comp_read, cmd_comp_write, cmd_comp_write_posted,
  cmd_single_rmw, cmd_single_rmw_posted,
}
use rap_cpp.Serdes.Buffer.{
  Buffer, Calculate, extract_address, extract_data, extract_length, extract_address_array,
  extract_data_array, extract_address_data_array,
}
use rap_cpp.Serdes.Packet.{end_of_packet, open_packet}

module _ (cfg : Cfg) where
  unfoldable pub decode_read_single : Buffer → ℕ → Result ReadSingleCommand
  decode_read_single buf txn_id = do
    (addr, buf') ← extract_address cfg buf
    end_of_packet buf'
    ok (record { transaction_id = txn_id; addr = addr })

  unfoldable pub decode_write_single : Buffer → ℕ → MessageType → Result WriteSingleCommand
  decode_write_single buf txn_id msg_type = do
    (addr, buf') ← extract_address cfg buf
    (value, buf'') ← extract_data cfg buf'
    end_of_packet buf''
    ok (record {
      transaction_id = txn_id;
      posted = same_type msg_type cmd_single_write_posted;
      addr = addr;
      value = value;
    })

  unfoldable pub decode_read_seq : Buffer → ℕ → Result ReadSeqCommand
  decode_read_seq buf txn_id = do
    (start_addr, buf') ← extract_address cfg buf
    (increment, buf'') ← extract_length cfg buf'
    (count, buf''') ← extract_length cfg buf''
    end_of_packet buf'''
    ok (record {
      transaction_id = txn_id;
      start_addr = start_addr;
      increment = increment;
      count = count;
    })

  -- `count * Cfg::DataBytes` is an `int`, and 65535 * 255 fits one.
  unfoldable pub decode_write_seq : Buffer → ℕ → MessageType → Result WriteSeqCommand
  decode_write_seq buf txn_id msg_type = do
    (start_addr, buf') ← extract_address cfg buf
    (increment, buf'') ← extract_length cfg buf'
    (count, buf''') ← extract_length cfg buf''
    throw_if (not (length buf''' == count * cfg.data_bytes)) base_exception
    (values, rest) ← extract_data_array cfg count buf'''
    end_of_packet rest
    ok (record {
      transaction_id = txn_id;
      posted = same_type msg_type cmd_seq_write_posted;
      start_addr = start_addr;
      increment = increment;
      values = values;
    })

  unfoldable pub decode_read_comp : Buffer → ℕ → Result ReadCompCommand
  decode_read_comp buf txn_id = do
    (count, buf') ← extract_length cfg buf
    throw_if (not (length buf' == count * cfg.address_bytes)) base_exception
    (addrs, rest) ← extract_address_array cfg count buf'
    end_of_packet rest
    ok (record { transaction_id = txn_id; addresses = addrs })

  unfoldable pub decode_write_comp : Buffer → ℕ → MessageType → Result WriteCompCommand
  decode_write_comp buf txn_id msg_type = do
    (count, buf') ← extract_length cfg buf
    throw_if (not (length buf' == count * (cfg.address_bytes + cfg.data_bytes))) base_exception
    (addr_data, rest) ← extract_address_data_array cfg count buf'
    end_of_packet rest
    ok (record {
      transaction_id = txn_id;
      posted = same_type msg_type cmd_comp_write_posted;
      addr_data = addr_data;
    })

  unfoldable pub decode_read_modify_write : Buffer → ℕ → MessageType → Result ReadModifyWriteCommand
  decode_read_modify_write buf txn_id msg_type = do
    (addr, buf') ← extract_address cfg buf
    (value, buf'') ← extract_data cfg buf'
    (mask, buf''') ← extract_data cfg buf''
    end_of_packet buf'''
    ok (record {
      transaction_id = txn_id;
      posted = same_type msg_type cmd_single_rmw_posted;
      addr = addr;
      value = value;
      mask = mask;
    })

  -- The `switch` of `decodeCommand`; `none` is a byte without an enumerator.
  unfoldable pub decode_command_as : Option MessageType → Buffer → ℕ → Result Command
  decode_command_as (some cmd_single_read) buf txn_id = do
    ok (read_single (← decode_read_single buf txn_id))
  decode_command_as (some cmd_single_write) buf txn_id = do
    ok (write_single (← decode_write_single buf txn_id cmd_single_write))
  decode_command_as (some cmd_single_write_posted) buf txn_id = do
    ok (write_single (← decode_write_single buf txn_id cmd_single_write_posted))
  decode_command_as (some cmd_seq_read) buf txn_id = do ok (read_seq (← decode_read_seq buf txn_id))
  decode_command_as (some cmd_seq_write) buf txn_id = do
    ok (write_seq (← decode_write_seq buf txn_id cmd_seq_write))
  decode_command_as (some cmd_seq_write_posted) buf txn_id = do
    ok (write_seq (← decode_write_seq buf txn_id cmd_seq_write_posted))
  decode_command_as (some cmd_comp_read) buf txn_id = do
    ok (read_comp (← decode_read_comp buf txn_id))
  decode_command_as (some cmd_comp_write) buf txn_id = do
    ok (write_comp (← decode_write_comp buf txn_id cmd_comp_write))
  decode_command_as (some cmd_comp_write_posted) buf txn_id = do
    ok (write_comp (← decode_write_comp buf txn_id cmd_comp_write_posted))
  decode_command_as (some cmd_single_rmw) buf txn_id = do
    ok (read_modify_write (← decode_read_modify_write buf txn_id cmd_single_rmw))
  decode_command_as (some cmd_single_rmw_posted) buf txn_id = do
    ok (read_modify_write (← decode_read_modify_write buf txn_id cmd_single_rmw_posted))
  decode_command_as _ buf txn_id = throw unexpected_message_type

module _ (calculate : Calculate) (cfg : Cfg) where
  unfoldable pub decode_command : Buffer → Result Command
  decode_command buf = do
    (transaction_id, msg_type, payload) ← open_packet calculate cfg buf
    decode_command_as cfg msg_type payload transaction_id
