-- ===== src/RegisterTarget/Overflow.antt =====
-- RegisterTarget.h: a `seqRead` whose response carries more words than were asked for.
use rap_cpp.Base.{ℕ, ◌<◌, ◌≡◌, refl, true, List, [], ◌∷◌, length, ==_refl, arith}
use rap_cpp.Configuration.{Cfg, IsUsable, IsUsable-Widths}
use rap_cpp.Result.{ok, abort, out_of_range}
use rap_cpp.Interfaces.{ISyncWireTransport, IRegisterTarget}
use rap_cpp.Messages.{Command, read_seq}
use rap_cpp.Messages.Response.{ReadSeqAckResponse, read_seq_ack}
use rap_cpp.Serdes.Size.{Serdes, to_unsigned}
use rap_cpp.Serdes.Buffer.{Calculate, IsCrc}
use rap_cpp.Serdes.Limits.{IsSerdes}
use rap_cpp.Serdes.Command.Wire.{wire, Sendable}
use rap_cpp.Serdes.Command.Encoded.{encode_command-wire}
use rap_cpp.Serdes.Response.Wire.{response_wire, IsWireResponse}
use rap_cpp.Serdes.Response.Decoded.{decode_response-wire}
use rap_cpp.RegisterTarget.Exchange.{Client, visit, do_cmd_resp, get_next_txn_id, check_ifs, copy}
use rap_cpp.RegisterTarget.Methods.{client_seq_read}

-- The command that `seqRead` sends.
abbrev pub asked : Cfg → (n start_addr increment size : ℕ) → Command
asked cfg n start_addr increment size = read_seq (record {
  transaction_id = n;
  start_addr = start_addr;
  increment = to_unsigned cfg.length_size increment;
  count = to_unsigned cfg.length_size size;
})

copy_long : (words out : List ℕ) → length out < length words → copy words out ≡ abort out_of_range
unfolding copy
copy_long [] out h = absurd (omega arith)
copy_long (d ∷ ds) [] h = refl
copy_long (d ∷ ds) (o ∷ out) h = rw (copy_long ds out (omega arith)) refl

module _ (calculate : Calculate) (cfg : Cfg) (lawful : IsCrc calculate) (u : IsUsable cfg)
    (serdes : Serdes) (v : IsSerdes serdes) {T : Type 0} (transport : ISyncWireTransport T)
    (base : IRegisterTarget (Client T)) where
  -- Suppose that the features allow the increment, that the command of a `seqRead` can be sent, and
  -- that the transport takes it and delivers an acknowledgement with the same id, its fields in
  -- range, which carries more words than the caller's span has: the copy into the span runs past
  -- its end.
  pub client_seq_read_overflows :
      (start_addr : ℕ) (out_data : List ℕ) (increment : ℕ) (c : Client T) (l l' : T)
      (r : ReadSeqAckResponse)
      → check_ifs cfg increment ≡ true
      → Sendable cfg serdes (asked cfg c.next_txn_id start_addr increment (length out_data))
      → transport.send
          (wire calculate cfg (asked cfg c.next_txn_id start_addr increment (length out_data)))
          c.link
        ≡ (l, ok tt)
      → transport.recv l ≡ (l', ok (response_wire calculate cfg (read_seq_ack r)))
      → IsWireResponse cfg (read_seq_ack r)
      → r.transaction_id ≡ c.next_txn_id
      → length out_data < length r.values
      → (client_seq_read calculate cfg serdes transport base start_addr out_data increment c).1
        ≡ abort out_of_range
  unfolding client_seq_read do_cmd_resp get_next_txn_id visit
  client_seq_read_overflows start_addr out_data increment c l l' r feature room sent delivered fits
        same long =
      let w = IsUsable-Widths u in
      rw (
        feature,
        encode_command-wire calculate cfg lawful w serdes v _ room,
        sent,
        delivered,
        decode_response-wire cfg w calculate lawful (read_seq_ack r) fits,
        same,
        ==_refl,
        copy_long r.values out_data long,
      )
