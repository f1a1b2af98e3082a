-- ===== src/ServerAdapter.antt =====
-- ServerAdapter.h: `RapServerAdapter`, which performs commands on a register target.
pub mod Target
pub mod Answers
pub mod Oversized
pub mod Untrusted
pub mod Worker
pub mod Malformed
use rap_cpp.Base.{ℕ, zero, suc, List, [], ◌∷◌, length}
use rap_cpp.Configuration.{Cfg}
use rap_cpp.Result.{Result, ok, throw, abort, Exception, Fault}
use rap_cpp.Calls.{Call, return, lift, or_else, ◌>>=◌, ◌>>◌}
use rap_cpp.Interfaces.{IRegisterTarget}
use rap_cpp.Messages.{
  Command, ReadSingleCommand, WriteSingleCommand, ReadSeqCommand, WriteSeqCommand, ReadCompCommand,
  WriteCompCommand, ReadModifyWriteCommand, read_single, write_single, read_seq, write_seq,
  read_comp, write_comp, read_modify_write,
}
use rap_cpp.Messages.Response.{
  Response, ReadSingleAckResponse, WriteSingleAckResponse, ReadSeqAckResponse, WriteSeqAckResponse,
  ReadCompAckResponse, WriteCompAckResponse, ReadmodifywriteSingleAckResponse, read_single_ack,
  write_single_ack, read_seq_ack, write_seq_ack, read_comp_ack, write_comp_ack, read_single_nak,
  write_single_nak, read_seq_nak, write_seq_nak, read_comp_nak, write_comp_nak, rmw_ack, rmw_nak,
}
use rap_cpp.Serdes.Size.{Serdes, make_serdes}
use rap_cpp.Serdes.Buffer.{Buffer, Calculate}
use rap_cpp.Serdes.Command.Decode.{decode_command}
use rap_cpp.Serdes.Response.Encode.{encode_response}

-- The part of the constructor that can fail: the `Serdes` for the `getMaxMessageSize()` of the
-- transport. The worker starts after it.
unfoldable pub make_rap_server_adapter : ℕ → Result Serdes
make_rap_server_adapter = make_serdes

-- `std::vector<DataType> out_data(n);`
abbrev pub zeros : ℕ → List ℕ
zeros zero = []
zeros (suc n) = 0 ∷ zeros n

module _ {S : Type 0} (target : IRegisterTarget S) where
  abbrev pub handle_read_single : ReadSingleCommand → Call S ReadSingleAckResponse
  handle_read_single cmd = do
    word ← target.target_read cmd.addr
    return (record { transaction_id = cmd.transaction_id; value = word })

  abbrev pub handle_write_single : WriteSingleCommand → Call S WriteSingleAckResponse
  handle_write_single cmd = do
    target.target_write cmd.addr cmd.value
    return (record { transaction_id = cmd.transaction_id })

  abbrev pub handle_read_seq : ReadSeqCommand → Call S ReadSeqAckResponse
  handle_read_seq cmd = do
    out_data ← target.target_seq_read cmd.start_addr (zeros cmd.count) cmd.increment
    return (record { transaction_id = cmd.transaction_id; values = out_data })

  abbrev pub handle_write_seq : WriteSeqCommand → Call S WriteSeqAckResponse
  handle_write_seq cmd = do
    target.target_seq_write cmd.start_addr cmd.values cmd.increment
    return (record { transaction_id = cmd.transaction_id })

  abbrev pub handle_read_comp : ReadCompCommand → Call S ReadCompAckResponse
  handle_read_comp cmd = do
    out_data ← target.target_comp_read cmd.addresses (zeros (length cmd.addresses))
    return (record { transaction_id = cmd.transaction_id; values = out_data })

  abbrev pub handle_write_comp : WriteCompCommand → Call S WriteCompAckResponse
  handle_write_comp cmd = do
    target.target_comp_write cmd.addr_data
    return (record { transaction_id = cmd.transaction_id })

  abbrev pub handle_read_modify_write :
      ReadModifyWriteCommand → Call S ReadmodifywriteSingleAckResponse
  handle_read_modify_write cmd = do
    target.target_read_modify_write cmd.addr cmd.value cmd.mask
    return (record { transaction_id = cmd.transaction_id })

  -- The `std::visit` of `backgroundWork`, with its `try` and both `catch`.
  unfoldable pub answer : Command → Call S Response
  answer (read_single cmd) s =
      or_else (handle_read_single cmd s) read_single_ack
        (read_single_nak (record { transaction_id = cmd.transaction_id; status = 0xfd }))
  answer (write_single cmd) s =
      or_else (handle_write_single cmd s) write_single_ack
        (write_single_nak (record { transaction_id = cmd.transaction_id; status = 0xfd }))
  answer (read_seq cmd) s =
      or_else (handle_read_seq cmd s) read_seq_ack
        (read_seq_nak (record { transaction_id = cmd.transaction_id; status = 0xfd }))
  answer (write_seq cmd) s =
      or_else (handle_write_seq cmd s) write_seq_ack
        (write_seq_nak (record { transaction_id = cmd.transaction_id; status = 0xfd }))
  answer (read_comp cmd) s =
      or_else (handle_read_comp cmd s) read_comp_ack
        (read_comp_nak (record { transaction_id = cmd.transaction_id; status = 0xfd }))
  answer (write_comp cmd) s =
      or_else (handle_write_comp cmd s) write_comp_ack
        (write_comp_nak (record { transaction_id = cmd.transaction_id; status = 0xfd }))
  answer (read_modify_write cmd) s =
      or_else (handle_read_modify_write cmd s) rmw_ack
        (rmw_nak (record { transaction_id = cmd.transaction_id; status = 0xfd }))

  module _ (calculate : Calculate) (cfg : Cfg) (serdes : Serdes) where
    -- What the loop does with a received buffer, up to the buffer that it sends.
    unfoldable pub work_on : Buffer → Call S Buffer
    work_on cmd_buf = do
      cmd ← lift (decode_command calculate cfg cmd_buf)
      resp ← answer cmd
      lift (encode_response calculate cfg serdes resp)

    -- `recv(stop_token)` returns a buffer or throws, and a stop may be requested while it waits.
    pub data Event : Type 0 where
      received : Buffer → Event
      recv_throws : Exception → Event
      stop_requested : Event

    -- The target, the buffers sent, and how the loop ended; `ok` if it returned or waits.
    pub record Run : Type 0 where
      pub after : S
      pub sent : List Buffer
      pub ended : Result (Unit {0})

    abbrev and_sent : Buffer → Run → Run
    and_sent buf run = record { after = run.after; sent = buf ∷ run.sent; ended = run.ended }

    abbrev after_work : S × Result Buffer → (S → Run) → Run
    after_work (s, ok resp_buf) rest = and_sent resp_buf (rest s)
    after_work (s, throw e) rest = record { after = s; sent = []; ended = throw e }
    after_work (s, abort x) rest = record { after = s; sent = []; ended = abort x }

    -- `backgroundWork`, by what its `recv` calls meet.
    unfoldable pub background_work : List Event → S → Run
    unfolding work_on
    background_work [] s = record { after = s; sent = []; ended = ok tt }
    background_work (stop_requested ∷ events) s = record { after = s; sent = []; ended = ok tt }
    background_work (recv_throws e ∷ events) s = record { after = s; sent = []; ended = throw e }
    background_work (received cmd_buf ∷ events) s =
        after_work (work_on cmd_buf s) (background_work events)
