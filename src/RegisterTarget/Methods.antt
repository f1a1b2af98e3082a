-- ===== src/RegisterTarget/Methods.antt =====
-- RegisterTarget.h: the methods of `RapRegisterTarget`.
use rap_cpp.Base.{ℕ, false, not, ◌==◌, if◌then◌else◌, List, length}
use rap_cpp.Configuration.{Cfg}
use rap_cpp.Result.{assert}
use rap_cpp.Calls.{Call, lift, return, ◌>>=◌, ◌>>◌}
use rap_cpp.Interfaces.{ISyncWireTransport, IRegisterTarget}
use rap_cpp.Messages.{
  read_single, write_single, read_seq, write_seq, read_comp, write_comp, read_modify_write,
}
use rap_cpp.Messages.Relationship.{
  to_read_single, to_write_single, to_read_seq, to_write_seq, to_read_comp, to_write_comp,
  to_read_modify_write,
}
use rap_cpp.Serdes.Size.{Serdes, to_unsigned}
use rap_cpp.Serdes.Buffer.{Calculate}
use rap_cpp.RegisterTarget.Exchange.{Client, get_next_txn_id, check_ifs, copy, do_cmd_resp}

-- `base` has the methods of the base class, which the object calls on itself.
module _ (calculate : Calculate) (cfg : Cfg) (serdes : Serdes) {T : Type 0}
    (transport : ISyncWireTransport T) (base : IRegisterTarget (Client T)) where
  unfoldable pub client_write : ℕ → ℕ → Call (Client T) (Unit {0})
  unfolding do_cmd_resp
  client_write addr word = do
    txn_id ← get_next_txn_id
    _ ← do_cmd_resp calculate cfg serdes transport to_write_single (
        write_single
          (record { transaction_id = txn_id; posted = false; addr = addr; value = word }))
    return tt

  unfoldable pub client_read : ℕ → Call (Client T) ℕ
  unfolding do_cmd_resp
  client_read addr = do
    txn_id ← get_next_txn_id
    resp ←
        do_cmd_resp calculate cfg serdes transport to_read_single
          (read_single (record { transaction_id = txn_id; addr = addr }))
    return resp.value

  unfoldable pub client_read_modify_write : ℕ → ℕ → ℕ → Call (Client T) (Unit {0})
  unfolding do_cmd_resp
  client_read_modify_write addr new_data mask =
      if not cfg.feature_read_modify_write
      then base.target_read_modify_write addr new_data mask
      else do
        txn_id ← get_next_txn_id
        _ ← do_cmd_resp calculate cfg serdes transport to_read_modify_write (
            read_modify_write (record {
              transaction_id = txn_id;
              posted = false;
              addr = addr;
              value = new_data;
              mask = mask;
            }))
        return tt

  unfoldable pub client_seq_write : ℕ → List ℕ → ℕ → Call (Client T) (Unit {0})
  unfolding do_cmd_resp
  client_seq_write start_addr words increment =
      if not (check_ifs cfg increment) then base.target_seq_write start_addr words increment else do
        txn_id ← get_next_txn_id
        _ ← do_cmd_resp calculate cfg serdes transport to_write_seq (
            write_seq (record {
              transaction_id = txn_id;
              posted = false;
              start_addr = start_addr;
              increment = to_unsigned cfg.length_size increment;
              values = words;
            }))
        return tt

  unfoldable pub client_seq_read : ℕ → List ℕ → ℕ → Call (Client T) (List ℕ)
  unfolding do_cmd_resp
  client_seq_read start_addr out_data increment =
      if not (check_ifs cfg increment)
      then base.target_seq_read start_addr out_data increment
      else do
        txn_id ← get_next_txn_id
        resp ← do_cmd_resp calculate cfg serdes transport to_read_seq (
            read_seq (record {
              transaction_id = txn_id;
              start_addr = start_addr;
              increment = to_unsigned cfg.length_size increment;
              count = to_unsigned cfg.length_size (length out_data);
            }))
        lift (copy resp.values out_data)

  unfoldable pub client_fifo_write : ℕ → List ℕ → Call (Client T) (Unit {0})
  unfolding do_cmd_resp
  client_fifo_write fifo_addr words =
      if not cfg.feature_fifo then base.target_fifo_write fifo_addr words else do
        txn_id ← get_next_txn_id
        _ ← do_cmd_resp calculate cfg serdes transport to_write_seq (
            write_seq (record {
              transaction_id = txn_id;
              posted = false;
              start_addr = fifo_addr;
              increment = 0;
              values = words;
            }))
        return tt

  unfoldable pub client_fifo_read : ℕ → List ℕ → Call (Client T) (List ℕ)
  unfolding do_cmd_resp
  client_fifo_read fifo_addr out_data = do
    txn_id ← get_next_txn_id
    resp ← do_cmd_resp calculate cfg serdes transport to_read_seq (
        read_seq (record {
          transaction_id = txn_id;
          start_addr = fifo_addr;
          increment = 0;
          count = to_unsigned cfg.length_size (length out_data);
        }))
    lift (copy resp.values out_data)

  unfoldable pub client_comp_write : List (ℕ × ℕ) → Call (Client T) (Unit {0})
  unfolding do_cmd_resp
  client_comp_write addr_data =
      if not cfg.feature_compressed then base.target_comp_write addr_data else do
        txn_id ← get_next_txn_id
        _ ←
            do_cmd_resp calculate cfg serdes transport to_write_comp (
              write_comp
                (record { transaction_id = txn_id; posted = false; addr_data = addr_data }))
        return tt

  unfoldable pub client_comp_read : List ℕ → List ℕ → Call (Client T) (List ℕ)
  unfolding do_cmd_resp
  client_comp_read addresses out_data = do
    lift (assert (length addresses == length out_data))
    if not cfg.feature_compressed then base.target_comp_read addresses out_data else do
      txn_id ← get_next_txn_id
      resp ←
          do_cmd_resp calculate cfg serdes transport to_read_comp
            (read_comp (record { transaction_id = txn_id; addresses = addresses }))
      lift (copy resp.values out_data)
