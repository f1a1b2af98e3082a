-- ===== src/Messages/Relationship.antt =====
-- `CommandResponseRelationshipTrait`: the acknowledgement and the negative acknowledgement of each
-- command, as the branches that `std::visit` takes in `doCmdResp`.
use rap_cpp.Base.{ℕ}
use rap_cpp.Messages.Response.{
  Response, ReadSingleAckResponse, WriteSingleAckResponse, ReadSeqAckResponse, WriteSeqAckResponse,
  ReadCompAckResponse, WriteCompAckResponse, ReadmodifywriteSingleAckResponse, read_single_ack,
  write_single_ack, read_seq_ack, write_seq_ack, read_comp_ack, write_comp_ack, read_single_nak,
  write_single_nak, read_seq_nak, write_seq_nak, read_comp_nak, write_comp_nak, rmw_ack, rmw_nak,
}

pub data Answer (Ack : Type 0) : Type 0 where
  is_ack : Ack → Answer Ack
  is_nak : (status : ℕ) → Answer Ack
  is_other : Answer Ack

abbrev pub to_read_single : Response → Answer ReadSingleAckResponse
to_read_single (read_single_ack r) = is_ack r
to_read_single (read_single_nak r) = is_nak r.status
to_read_single _ = is_other

abbrev pub to_write_single : Response → Answer WriteSingleAckResponse
to_write_single (write_single_ack r) = is_ack r
to_write_single (write_single_nak r) = is_nak r.status
to_write_single _ = is_other

abbrev pub to_read_seq : Response → Answer ReadSeqAckResponse
to_read_seq (read_seq_ack r) = is_ack r
to_read_seq (read_seq_nak r) = is_nak r.status
to_read_seq _ = is_other

abbrev pub to_write_seq : Response → Answer WriteSeqAckResponse
to_write_seq (write_seq_ack r) = is_ack r
to_write_seq (write_seq_nak r) = is_nak r.status
to_write_seq _ = is_other

abbrev pub to_read_comp : Response → Answer ReadCompAckResponse
to_read_comp (read_comp_ack r) = is_ack r
to_read_comp (read_comp_nak r) = is_nak r.status
to_read_comp _ = is_other

abbrev pub to_write_comp : Response → Answer WriteCompAckResponse
to_write_comp (write_comp_ack r) = is_ack r
to_write_comp (write_comp_nak r) = is_nak r.status
to_write_comp _ = is_other

abbrev pub to_read_modify_write : Response → Answer ReadmodifywriteSingleAckResponse
to_read_modify_write (rmw_ack r) = is_ack r
to_read_modify_write (rmw_nak r) = is_nak r.status
to_read_modify_write _ = is_other
