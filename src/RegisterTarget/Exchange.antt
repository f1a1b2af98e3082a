-- ===== src/RegisterTarget/Exchange.antt =====
-- RegisterTarget.h: the data of `RapRegisterTarget`, and `doCmdResp` with what it calls.
use rap_cpp.Base.{ℕ, ◌+◌, Bool, true, false, ◌&&◌, not, ◌==◌, if◌then◌else◌, List, [], ◌∷◌}
use rap_cpp.Configuration.{Cfg}
use rap_cpp.Result.{
  Result, ok, throw, abort, out_of_range, rap_protocol, operation_nak, unexpected_message_type,
}
use rap_cpp.Calls.{Call, lift, ◌>>=◌, ◌>>◌}
use rap_cpp.Interfaces.{ISyncWireTransport}
use rap_cpp.Messages.{Command}
use rap_cpp.Messages.Response.{Response}
use rap_cpp.Messages.Relationship.{Answer, is_ack, is_nak, is_other}
use rap_cpp.Serdes.Size.{Serdes, make_serdes, to_unsigned}
use rap_cpp.Serdes.Buffer.{Calculate}
use rap_cpp.Serdes.Command.Encode.{encode_command}
use rap_cpp.Serdes.Command.Wire.{id_of}
use rap_cpp.Serdes.Response.Decode.{decode_response}
use rap_cpp.Serdes.Response.Wire.{response_id}

-- The data of the object: the counter of transaction ids and the transport's state.
pub record Client (T : Type 0) : Type 0 where
  pub next_txn_id : ℕ
  pub link : T

abbrev with_link : {T A : Type 0} → ℕ → T × Result A → Client T × Result A
with_link n (l, r) = (record { next_txn_id = n; link = l }, r)

-- The constructor, for a transport of that `getMaxMessageSize()`; the counter starts at 0.
unfoldable pub make_rap_register_target : {T : Type 0} → ℕ → T → Result (Client T × Serdes)
make_rap_register_target max_message_size transport = elim (make_serdes max_message_size) [
  | ok serdes ↦ ok (record { next_txn_id = 0; link = transport }, serdes)
  | throw e ↦ throw e
  | abort x ↦ abort x
]

-- A call of the transport.
abbrev pub on_transport : {T A : Type 0} → Call T A → Call (Client T) A
on_transport m c = with_link c.next_txn_id (m c.link)

-- `next_txn_id.fetch_add(1)` on a `uint8_t`.
unfoldable pub get_next_txn_id : {T : Type 0} → Call (Client T) ℕ
get_next_txn_id c =
    (record { next_txn_id = to_unsigned 1 (c.next_txn_id + 1); link = c.link }, ok c.next_txn_id)

-- The function that `doCmdResp` gives to `std::visit`.
unfoldable pub visit : {Ack : Type 0} → (Response → Answer Ack) → ℕ → Response → Result Ack
visit relationship txn_id resp =
    if not (txn_id == response_id resp) then throw rap_protocol else (elim (relationship resp) [
      | is_ack ack ↦ ok ack
      | is_nak status ↦ throw (operation_nak (to_unsigned 4 status))
      | is_other ↦ throw unexpected_message_type
    ])

-- `std::copy(data.begin(), data.end(), out_data.begin())`: what is in `out_data` afterwards.
unfoldable pub copy : List ℕ → List ℕ → Result (List ℕ)
copy [] out = ok out
copy (d ∷ ds) [] = abort out_of_range
copy (d ∷ ds) (o ∷ out) = elim (copy ds out) [
  | ok rest ↦ ok (d ∷ rest)
  | throw e ↦ throw e
  | abort x ↦ abort x
]

unfoldable pub check_ifs : Cfg → ℕ → Bool
check_ifs cfg increment =
    if cfg.feature_increment
    then true
    else if (increment == 0) && cfg.feature_fifo
    then true
    else if (increment == cfg.data_size) && cfg.feature_sequential
    then true
    else false

module _ (calculate : Calculate) (cfg : Cfg) (serdes : Serdes) {T : Type 0}
    (transport : ISyncWireTransport T) where
  unfoldable pub do_cmd_resp :
      {Ack : Type 0} → (Response → Answer Ack) → Command → Call (Client T) Ack
  unfolding visit
  do_cmd_resp relationship cmd = do
    cmd_buf ← lift (encode_command calculate cfg serdes cmd)
    on_transport (transport.send cmd_buf)
    resp_buf ← on_transport transport.recv
    resp ← lift (decode_response calculate cfg resp_buf)
    lift (visit relationship (id_of cmd) resp)
