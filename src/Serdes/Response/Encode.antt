-- ===== src/Serdes/Response/Encode.antt =====
-- `encode` of the fifteen responses, and `encodeResponse`.
use rap_cpp.Base.{ltb, length}
use rap_cpp.Result.{Result, throw_if, ◌>>=◌, ◌>>◌, message_size}
use rap_cpp.Configuration.{Cfg}
use rap_cpp.Messages.Response.{
  ReadSingleAckResponse, WriteSingleAckResponse, ReadSeqAckResponse, WriteSeqAckResponse,
  ReadCompAckResponse, WriteCompAckResponse, ReadSingleNakResponse, WriteSingleNakResponse,
  ReadSeqNakResponse, WriteSeqNakResponse, ReadCompNakResponse, WriteCompNakResponse,
  ReadmodifywriteSingleAckResponse, ReadmodifywriteSingleNakResponse, Interrupt, Response,
  read_single_ack, write_single_ack, read_seq_ack, write_seq_ack, read_comp_ack, write_comp_ack,
  read_single_nak, write_single_nak, read_seq_nak, write_seq_nak, read_comp_nak, write_comp_nak,
  rmw_ack, rmw_nak, interrupt,
}
use rap_cpp.Messages.MessageType.{
  ack_single_read, ack_single_write, ack_seq_read, ack_seq_write, ack_comp_read, ack_comp_write,
  nak_single_read, nak_single_write, nak_seq_read, nak_seq_write, nak_comp_read, nak_comp_write,
  ack_single_rmw, nak_single_rmw, ack_single_interrupt,
}
use rap_cpp.Serdes.Size.{Serdes, calc_size, get_max_seq_read_count, get_max_comp_read_count}
use rap_cpp.Serdes.Buffer.{Buffer, Calculate, mk_buffer, append_data, append_length, finish}
use rap_cpp.Serdes.Arrays.{append_data_array}

module _ (calculate : Calculate) (cfg : Cfg) (s : Serdes) where
  unfoldable pub encode_read_single_ack : ReadSingleAckResponse → Result Buffer
  encode_read_single_ack resp = do
    sz ← calc_size cfg s 0 1 0
    let buf = mk_buffer resp.transaction_id ack_single_read
    finish calculate cfg sz (append_data cfg buf resp.value)

  unfoldable pub encode_write_single_ack : WriteSingleAckResponse → Result Buffer
  encode_write_single_ack resp = do
    sz ← calc_size cfg s 0 0 0
    finish calculate cfg sz (mk_buffer resp.transaction_id ack_single_write)

  unfoldable pub encode_read_seq_ack : ReadSeqAckResponse → Result Buffer
  encode_read_seq_ack resp = do
    limit ← get_max_seq_read_count cfg s
    throw_if (ltb limit (length resp.values)) message_size
    sz ← calc_size cfg s 0 (length resp.values) 1
    let buf = mk_buffer resp.transaction_id ack_seq_read
    let buf' = append_length cfg buf (length resp.values)
    finish calculate cfg sz (append_data_array cfg buf' resp.values)

  unfoldable pub encode_write_seq_ack : WriteSeqAckResponse → Result Buffer
  encode_write_seq_ack resp = do
    sz ← calc_size cfg s 0 0 0
    finish calculate cfg sz (mk_buffer resp.transaction_id ack_seq_write)

  unfoldable pub encode_read_comp_ack : ReadCompAckResponse → Result Buffer
  encode_read_comp_ack resp = do
    limit ← get_max_comp_read_count cfg s
    throw_if (ltb limit (length resp.values)) message_size
    sz ← calc_size cfg s 0 (length resp.values) 1
    let buf = mk_buffer resp.transaction_id ack_comp_read
    let buf' = append_length cfg buf (length resp.values)
    finish calculate cfg sz (append_data_array cfg buf' resp.values)

  unfoldable pub encode_write_comp_ack : WriteCompAckResponse → Result Buffer
  encode_write_comp_ack resp = do
    sz ← calc_size cfg s 0 0 0
    finish calculate cfg sz (mk_buffer resp.transaction_id ack_comp_write)

  unfoldable pub encode_read_single_nak : ReadSingleNakResponse → Result Buffer
  encode_read_single_nak resp = do
    sz ← calc_size cfg s 0 1 0
    let buf = mk_buffer resp.transaction_id nak_single_read
    finish calculate cfg sz (append_data cfg buf resp.status)

  unfoldable pub encode_write_single_nak : WriteSingleNakResponse → Result Buffer
  encode_write_single_nak resp = do
    sz ← calc_size cfg s 0 1 0
    let buf = mk_buffer resp.transaction_id nak_single_write
    finish calculate cfg sz (append_data cfg buf resp.status)

  unfoldable pub encode_read_seq_nak : ReadSeqNakResponse → Result Buffer
  encode_read_seq_nak resp = do
    sz ← calc_size cfg s 0 1 0
    let buf = mk_buffer resp.transaction_id nak_seq_read
    finish calculate cfg sz (append_data cfg buf resp.status)

  unfoldable pub encode_write_seq_nak : WriteSeqNakResponse → Result Buffer
  encode_write_seq_nak resp = do
    sz ← calc_size cfg s 0 1 0
    let buf = mk_buffer resp.transaction_id nak_seq_write
    finish calculate cfg sz (append_data cfg buf resp.status)

  unfoldable pub encode_read_comp_nak : ReadCompNakResponse → Result Buffer
  encode_read_comp_nak resp = do
    sz ← calc_size cfg s 0 1 0
    let buf = mk_buffer resp.transaction_id nak_comp_read
    finish calculate cfg sz (append_data cfg buf resp.status)

  unfoldable pub encode_write_comp_nak : WriteCompNakResponse → Result Buffer
  encode_write_comp_nak resp = do
    sz ← calc_size cfg s 0 1 0
    let buf = mk_buffer resp.transaction_id nak_comp_write
    finish calculate cfg sz (append_data cfg buf resp.status)

  unfoldable pub encode_rmw_ack : ReadmodifywriteSingleAckResponse → Result Buffer
  encode_rmw_ack resp = do
    sz ← calc_size cfg s 0 0 0
    finish calculate cfg sz (mk_buffer resp.transaction_id ack_single_rmw)

  unfoldable pub encode_rmw_nak : ReadmodifywriteSingleNakResponse → Result Buffer
  encode_rmw_nak resp = do
    sz ← calc_size cfg s 0 1 0
    let buf = mk_buffer resp.transaction_id nak_single_rmw
    finish calculate cfg sz (append_data cfg buf resp.status)

  unfoldable pub encode_interrupt : Interrupt → Result Buffer
  encode_interrupt resp = do
    sz ← calc_size cfg s 0 1 0
    let buf = mk_buffer resp.transaction_id ack_single_interrupt
    finish calculate cfg sz (append_data cfg buf resp.status)

  unfoldable pub encode_response : Response → Result Buffer
  encode_response (read_single_ack resp) = encode_read_single_ack resp
  encode_response (write_single_ack resp) = encode_write_single_ack resp
  encode_response (read_seq_ack resp) = encode_read_seq_ack resp
  encode_response (write_seq_ack resp) = encode_write_seq_ack resp
  encode_response (read_comp_ack resp) = encode_read_comp_ack resp
  encode_response (write_comp_ack resp) = encode_write_comp_ack resp
  encode_response (read_single_nak resp) = encode_read_single_nak resp
  encode_response (write_single_nak resp) = encode_write_single_nak resp
  encode_response (read_seq_nak resp) = encode_read_seq_nak resp
  encode_response (write_seq_nak resp) = encode_write_seq_nak resp
  encode_response (read_comp_nak resp) = encode_read_comp_nak resp
  encode_response (write_comp_nak resp) = encode_write_comp_nak resp
  encode_response (rmw_ack resp) = encode_rmw_ack resp
  encode_response (rmw_nak resp) = encode_rmw_nak resp
  encode_response (interrupt resp) = encode_interrupt resp
