-- ===== src/Messages/Response.antt =====
-- The response structs of Serdes.h.
use rap_cpp.Base.{ℕ, List}

pub record ReadSingleAckResponse : Type 0 where
  pub transaction_id : ℕ
  pub value : ℕ

pub record WriteSingleAckResponse : Type 0 where
  pub transaction_id : ℕ

pub record ReadSeqAckResponse : Type 0 where
  pub transaction_id : ℕ
  pub values : List ℕ

pub record WriteSeqAckResponse : Type 0 where
  pub transaction_id : ℕ

pub record ReadCompAckResponse : Type 0 where
  pub transaction_id : ℕ
  pub values : List ℕ

pub record WriteCompAckResponse : Type 0 where
  pub transaction_id : ℕ

pub record ReadSingleNakResponse : Type 0 where
  pub transaction_id : ℕ
  pub status : ℕ

pub record WriteSingleNakResponse : Type 0 where
  pub transaction_id : ℕ
  pub status : ℕ

pub record ReadSeqNakResponse : Type 0 where
  pub transaction_id : ℕ
  pub status : ℕ

pub record WriteSeqNakResponse : Type 0 where
  pub transaction_id : ℕ
  pub status : ℕ

pub record ReadCompNakResponse : Type 0 where
  pub transaction_id : ℕ
  pub status : ℕ

pub record WriteCompNakResponse : Type 0 where
  pub transaction_id : ℕ
  pub status : ℕ

pub record ReadmodifywriteSingleAckResponse : Type 0 where
  pub transaction_id : ℕ

pub record ReadmodifywriteSingleNakResponse : Type 0 where
  pub transaction_id : ℕ
  pub status : ℕ

pub record Interrupt : Type 0 where
  pub transaction_id : ℕ
  pub status : ℕ

pub data Response : Type 0 where
  read_single_ack : ReadSingleAckResponse → Response
  write_single_ack : WriteSingleAckResponse → Response
  read_seq_ack : ReadSeqAckResponse → Response
  write_seq_ack : WriteSeqAckResponse → Response
  read_comp_ack : ReadCompAckResponse → Response
  write_comp_ack : WriteCompAckResponse → Response
  read_single_nak : ReadSingleNakResponse → Response
  write_single_nak : WriteSingleNakResponse → Response
  read_seq_nak : ReadSeqNakResponse → Response
  write_seq_nak : WriteSeqNakResponse → Response
  read_comp_nak : ReadCompNakResponse → Response
  write_comp_nak : WriteCompNakResponse → Response
  rmw_ack : ReadmodifywriteSingleAckResponse → Response
  rmw_nak : ReadmodifywriteSingleNakResponse → Response
  interrupt : Interrupt → Response
