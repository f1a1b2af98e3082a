-- ===== src/Interfaces.antt =====
-- The interfaces between client, server, transport and device.
use rap_cpp.Base.{ℕ, List}
use rap_cpp.Serdes.Buffer.{Buffer}
use rap_cpp.Calls.{Call}

-- `ISyncWireTransport` of Transports.h, for a transport of state `S`; the maximum message size is
-- read once, by the constructors of its users.
pub record ISyncWireTransport (S : Type 0) : Type 0 where
  pub send : Buffer → Call S (Unit {0})
  pub recv : Call S Buffer

-- `IRegisterTarget` of the library RTF, which is not part of the repository, as far as the
-- sources call it. A read fills the words of `out_data` and returns what is then in it.
pub record IRegisterTarget (S : Type 0) : Type 0 where
  pub target_write : (addr word : ℕ) → Call S (Unit {0})
  pub target_read : (addr : ℕ) → Call S ℕ
  pub target_read_modify_write : (addr new_data mask : ℕ) → Call S (Unit {0})
  pub target_seq_write : (start_addr : ℕ) (words : List ℕ) (increment : ℕ) → Call S (Unit {0})
  pub target_seq_read : (start_addr : ℕ) (out_data : List ℕ) (increment : ℕ) → Call S (List ℕ)
  pub target_fifo_write : (fifo_addr : ℕ) (words : List ℕ) → Call S (Unit {0})
  pub target_fifo_read : (fifo_addr : ℕ) (out_data : List ℕ) → Call S (List ℕ)
  pub target_comp_write : (addr_data : List (ℕ × ℕ)) → Call S (Unit {0})
  pub target_comp_read : (addresses out_data : List ℕ) → Call S (List ℕ)
