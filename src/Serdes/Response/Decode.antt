-- ===== src/Serdes/Response/Decode.antt =====
-- `decode` of the fifteen responses, and `decodeResponse`.
use rap_cpp.Base.{ℕ, Option, some}
use rap_cpp.Result.{Result, ok, throw, ◌>>=◌, ◌>>◌, unexpected_message_type}
use rap_cpp.Configuration.{Cfg}
use rap_cpp.Messages.Response.{
  ReadSingleAckResponse, WriteSingleAckResponse, ReadSeqAckResponse, WriteSeqAckResponse,
  ReadCompAckResponse, WriteCompAckResponse, ReadSingleNakResponse, WriteSingleNakResponse,
  ReadSeqNakResponse, WriteSeqNakResponse, ReadCompNakResponse, WriteCompNakResponse,
  ReadmodifywriteSingleAckResponse, ReadmodifywriteSingleNakResponse, Interrupt, Response,
  read_single_ack, write_single_ack, read_seq_ack, write_seq_ack, read_comp_ack, write_comp_ack,
  read_single_nak, write_single_nak, read_seq_nak, write_seq_nak, read_comp_nak, write_comp_nak,
  rmw_ack, rmw_nak, interrupt,
}
use rap_cpp.Messages.MessageType.{
  MessageType, ack_single_read, ack_single_write, ack_seq_read, ack_seq_write, ack_comp_read,
  ack_comp_write, nak_single_read, nak_single_write, nak_seq_read, nak_seq_write, nak_comp_read,
  nak_comp_write, ack_single_rmw, nak_single_rmw, ack_single_interrupt,
}
use rap_cpp.Serdes.Buffer.{Buffer, Calculate, extract_data, extract_length, extract_data_array}
use rap_cpp.Serdes.Packet.{end_of_packet, open_packet}

module _ (cfg : Cfg) where
  unfoldable pub decode_read_single_ack : Buffer → ℕ → Result ReadSingleAckResponse
  decode_read_single_ack buf txn_id = do
    (value, rest) ← extract_data cfg buf
    end_of_packet rest
    ok (record { transaction_id = txn_id; value = value })

  unfoldable pub decode_write_single_ack : Buffer → ℕ → Result WriteSingleAckResponse
  decode_write_single_ack buf txn_id = do end_of_packet buf; ok (record { transaction_id = txn_id })

  unfoldable pub decode_read_seq_ack : Buffer → ℕ → Result ReadSeqAckResponse
  decode_read_seq_ack buf txn_id = do
    (count, buf') ← extract_length cfg buf
    (values, rest) ← extract_data_array cfg count buf'
    end_of_packet rest
    ok (record { transaction_id = txn_id; values = values })

  unfoldable pub decode_write_seq_ack : Buffer → ℕ → Result WriteSeqAckResponse
  decode_write_seq_ack buf txn_id = do end_of_packet buf; ok (record { transaction_id = txn_id })

  unfoldable pub decode_read_comp_ack : Buffer → ℕ → Result ReadCompAckResponse
  decode_read_comp_ack buf txn_id = do
    (count, buf') ← extract_length cfg buf
    (values, rest) ← extract_data_array cfg count buf'
    end_of_packet rest
    ok (record { transaction_id = txn_id; values = values })

  unfoldable pub decode_write_comp_ack : Buffer → ℕ → Result WriteCompAckResponse
  decode_write_comp_ack buf txn_id = do end_of_packet buf; ok (record { transaction_id = txn_id })

  unfoldable pub decode_read_single_nak : Buffer → ℕ → Result ReadSingleNakResponse
  decode_read_single_nak buf txn_id = do
    (status, rest) ← extract_data cfg buf
    end_of_packet rest
    ok (record { transaction_id = txn_id; status = status })

  unfoldable pub decode_write_single_nak : Buffer → ℕ → Result WriteSingleNakResponse
  decode_write_single_nak buf txn_id = do
    (status, rest) ← extract_data cfg buf
    end_of_packet rest
    ok (record { transaction_id = txn_id; status = status })

  unfoldable pub decode_read_seq_nak : Buffer → ℕ → Result ReadSeqNakResponse
  decode_read_seq_nak buf txn_id = do
    (status, rest) ← extract_data cfg buf
    end_of_packet rest
    ok (record { transaction_id = txn_id; status = status })

  unfoldable pub decode_write_seq_nak : Buffer → ℕ → Result WriteSeqNakResponse
  decode_write_seq_nak buf txn_id = do
    (status, rest) ← extract_data cfg buf
    end_of_packet rest
    ok (record { transaction_id = txn_id; status = status })

  unfoldable pub decode_read_comp_nak : Buffer → ℕ → Result ReadCompNakResponse
  decode_read_comp_nak buf txn_id = do
    (status, rest) ← extract_data cfg buf
    end_of_packet rest
    ok (record { transaction_id = txn_id; status = status })

  unfoldable pub decode_write_comp_nak : Buffer → ℕ → Result WriteCompNakResponse
  decode_write_comp_nak buf txn_id = do
    (status, rest) ← extract_data cfg buf
    end_of_packet rest
    ok (record { transaction_id = txn_id; status = status })

  unfoldable pub decode_rmw_ack : Buffer → ℕ → Result ReadmodifywriteSingleAckResponse
  decode_rmw_ack buf txn_id = do end_of_packet buf; ok (record { transaction_id = txn_id })

  unfoldable pub decode_rmw_nak : Buffer → ℕ → Result ReadmodifywriteSingleNakResponse
  decode_rmw_nak buf txn_id = do
    (status, rest) ← extract_data cfg buf
    end_of_packet rest
    ok (record { transaction_id = txn_id; status = status })

  unfoldable pub decode_interrupt : Buffer → ℕ → Result Interrupt
  decode_interrupt buf txn_id = do
    (status, rest) ← extract_data cfg buf
    end_of_packet rest
    ok (record { transaction_id = txn_id; status = status })

  -- The `switch` of `decodeResponse`; `none` is a byte without an enumerator.
  unfoldable pub decode_response_as : Option MessageType → Buffer → ℕ → Result Response
  decode_response_as (some ack_single_read) buf txn_id = do
    ok (read_single_ack (← decode_read_single_ack buf txn_id))
  decode_response_as (some ack_single_write) buf txn_id = do
    ok (write_single_ack (← decode_write_single_ack buf txn_id))
  decode_response_as (some ack_seq_read) buf txn_id = do
    ok (read_seq_ack (← decode_read_seq_ack buf txn_id))
  decode_response_as (some ack_seq_write) buf txn_id = do
    ok (write_seq_ack (← decode_write_seq_ack buf txn_id))
  decode_response_as (some ack_comp_read) buf txn_id = do
    ok (read_comp_ack (← decode_read_comp_ack buf txn_id))
  decode_response_as (some ack_comp_write) buf txn_id = do
    ok (write_comp_ack (← decode_write_comp_ack buf txn_id))
  decode_response_as (some nak_single_read) buf txn_id = do
    ok (read_single_nak (← decode_read_single_nak buf txn_id))
  decode_response_as (some nak_single_write) buf txn_id = do
    ok (write_single_nak (← decode_write_single_nak buf txn_id))
  decode_response_as (some nak_seq_read) buf txn_id = do
    ok (read_seq_nak (← decode_read_seq_nak buf txn_id))
  decode_response_as (some nak_seq_write) buf txn_id = do
    ok (write_seq_nak (← decode_write_seq_nak buf txn_id))
  decode_response_as (some nak_comp_read) buf txn_id = do
    ok (read_comp_nak (← decode_read_comp_nak buf txn_id))
  decode_response_as (some nak_comp_write) buf txn_id = do
    ok (write_comp_nak (← decode_write_comp_nak buf txn_id))
  decode_response_as (some ack_single_rmw) buf txn_id = do
    ok (rmw_ack (← decode_rmw_ack buf txn_id))
  decode_response_as (some nak_single_rmw) buf txn_id = do
    ok (rmw_nak (← decode_rmw_nak buf txn_id))
  decode_response_as (some ack_single_interrupt) buf txn_id = do
    ok (interrupt (← decode_interrupt buf txn_id))
  decode_response_as _ buf txn_id = throw unexpected_message_type

module _ (calculate : Calculate) (cfg : Cfg) where
  unfoldable pub decode_response : Buffer → Result Response
  decode_response buf = do
    (transaction_id, msg_type, payload) ← open_packet calculate cfg buf
    decode_response_as cfg msg_type payload transaction_id
