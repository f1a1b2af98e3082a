-- ===== src/Messages.antt =====
-- The command and response structs of Serdes.h. Unsigned fields are numbers; a vector is a list.
-- The source's field `data` is `value` where it is one word and `values` where it is a vector.
pub mod MessageType
pub mod Relationship
pub mod Response
use rap_cpp.Base.{ℕ, Bool, List}

pub record ReadSingleCommand : Type 0 where
  pub transaction_id : ℕ
  pub addr : ℕ

pub record WriteSingleCommand : Type 0 where
  pub transaction_id : ℕ
  pub posted : Bool
  pub addr : ℕ
  pub value : ℕ

pub record ReadSeqCommand : Type 0 where
  pub transaction_id : ℕ
  pub start_addr : ℕ
  pub increment : ℕ
  pub count : ℕ

pub record WriteSeqCommand : Type 0 where
  pub transaction_id : ℕ
  pub posted : Bool
  pub start_addr : ℕ
  pub increment : ℕ
  pub values : List ℕ

pub record ReadCompCommand : Type 0 where
  pub transaction_id : ℕ
  pub addresses : List ℕ

pub record WriteCompCommand : Type 0 where
  pub transaction_id : ℕ
  pub posted : Bool
  pub addr_data : List (ℕ × ℕ)

pub record ReadModifyWriteCommand : Type 0 where
  pub transaction_id : ℕ
  pub posted : Bool
  pub addr : ℕ
  pub value : ℕ
  pub mask : ℕ

pub data Command : Type 0 where
  read_single : ReadSingleCommand → Command
  write_single : WriteSingleCommand → Command
  read_seq : ReadSeqCommand → Command
  write_seq : WriteSeqCommand → Command
  read_comp : ReadCompCommand → Command
  write_comp : WriteCompCommand → Command
  read_modify_write : ReadModifyWriteCommand → Command
