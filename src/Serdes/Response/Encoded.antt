-- ===== src/Serdes/Response/Encoded.antt =====
-- `encodeResponse` on responses that can be sent, and on others.
use rap_cpp.Base.{◌≡◌, length, le→ltb_false, lt→ltb, lt_of_not_le, arith}
use rap_cpp.Configuration.{Cfg, Widths}
use rap_cpp.Result.{ok, throw, message_size}
use rap_cpp.Messages.Response.{
  Response, read_single_ack, write_single_ack, read_seq_ack, write_seq_ack, read_comp_ack,
  write_comp_ack, read_single_nak, write_single_nak, read_seq_nak, write_seq_nak, read_comp_nak,
  write_comp_nak, rmw_ack, rmw_nak, interrupt,
}
use rap_cpp.Serdes.Size.{Serdes}
use rap_cpp.Serdes.Buffer.{Calculate, IsCrc}
use rap_cpp.Serdes.Limits.{IsSerdes, get_max_seq_read_count_exact, get_max_comp_read_count_exact}
use rap_cpp.Serdes.Writers.{writers, lengths, seal, append_length_lem}
use rap_cpp.Serdes.Response.Encode.{
  encode_response, encode_read_single_ack, encode_write_single_ack, encode_read_seq_ack,
  encode_write_seq_ack, encode_read_comp_ack, encode_write_comp_ack, encode_read_single_nak,
  encode_write_single_nak, encode_read_seq_nak, encode_write_seq_nak, encode_read_comp_nak,
  encode_write_comp_nak, encode_rmw_ack, encode_rmw_nak, encode_interrupt,
}
use rap_cpp.Serdes.Response.Wire.{response_wire, response_payload, SendableResponse}

module _ (calculate : Calculate) (cfg : Cfg) (lawful : IsCrc calculate) (w : Widths cfg)
    (s : Serdes) (v : IsSerdes s) where
  -- `encodeResponse` returns the packet of every response that can be sent.
  pub encode_response-wire :
      (r : Response)
      → SendableResponse cfg s r
      → encode_response calculate cfg s r ≡ ok (response_wire calculate cfg r)
  unfolding encode_response encode_read_single_ack encode_write_single_ack encode_read_seq_ack
      encode_write_seq_ack encode_read_comp_ack encode_write_comp_ack encode_read_single_nak
      encode_write_single_nak encode_read_seq_nak encode_write_seq_nak encode_read_comp_nak
      encode_write_comp_nak encode_rmw_ack encode_rmw_nak encode_interrupt
  encode_response-wire (read_single_ack r) h =
      seal calculate cfg lawful w s v 0 1 0 _ (response_payload cfg (read_single_ack r)) _ _
        (simp writers) (simp lengths (omega arith)) (simp lengths (omega (arith, w, v.large)))
  encode_response-wire (write_single_ack r) h =
      seal calculate cfg lawful w s v 0 0 0 _ (response_payload cfg (write_single_ack r)) _ _
        (simp writers) (omega arith) (omega (arith, w, v.large))
  encode_response-wire (read_seq_ack r) (whole, count) =
      let n = length r.values in
      let (limit, e, exact) = get_max_seq_read_count_exact cfg s w v in
      let sized = simp lengths at whole in
      rw (e, le→ltb_false limit n ((exact n).1 (omega arith, count)))
        (seal calculate cfg lawful w s v 0 n 1 _ (response_payload cfg (read_seq_ack r)) _ _
          (simp (writers, append_length_lem cfg w.length_wire.1)) (simp lengths (omega arith))
          whole)
  encode_response-wire (write_seq_ack r) h =
      seal calculate cfg lawful w s v 0 0 0 _ (response_payload cfg (write_seq_ack r)) _ _
        (simp writers) (omega arith) (omega (arith, w, v.large))
  encode_response-wire (read_comp_ack r) (whole, reply, count) =
      let n = length r.values in
      let (limit, e, exact) = get_max_comp_read_count_exact cfg s w v in
      let sized = simp lengths at whole in
      rw (e, le→ltb_false limit n ((exact n).1 (omega arith, omega arith, count)))
        (seal calculate cfg lawful w s v 0 n 1 _ (response_payload cfg (read_comp_ack r)) _ _
          (simp (writers, append_length_lem cfg w.length_wire.1)) (simp lengths (omega arith))
          whole)
  encode_response-wire (write_comp_ack r) h =
      seal calculate cfg lawful w s v 0 0 0 _ (response_payload cfg (write_comp_ack r)) _ _
        (simp writers) (omega arith) (omega (arith, w, v.large))
  encode_response-wire (read_single_nak r) h =
      seal calculate cfg lawful w s v 0 1 0 _ (response_payload cfg (read_single_nak r)) _ _
        (simp writers) (simp lengths (omega arith)) (simp lengths (omega (arith, w, v.large)))
  encode_response-wire (write_single_nak r) h =
      seal calculate cfg lawful w s v 0 1 0 _ (response_payload cfg (write_single_nak r)) _ _
        (simp writers) (simp lengths (omega arith)) (simp lengths (omega (arith, w, v.large)))
  encode_response-wire (read_seq_nak r) h =
      seal calculate cfg lawful w s v 0 1 0 _ (response_payload cfg (read_seq_nak r)) _ _
        (simp writers) (simp lengths (omega arith)) (simp lengths (omega (arith, w, v.large)))
  encode_response-wire (write_seq_nak r) h =
      seal calculate cfg lawful w s v 0 1 0 _ (response_payload cfg (write_seq_nak r)) _ _
        (simp writers) (simp lengths (omega arith)) (simp lengths (omega (arith, w, v.large)))
  encode_response-wire (read_comp_nak r) h =
      seal calculate cfg lawful w s v 0 1 0 _ (response_payload cfg (read_comp_nak r)) _ _
        (simp writers) (simp lengths (omega arith)) (simp lengths (omega (arith, w, v.large)))
  encode_response-wire (write_comp_nak r) h =
      seal calculate cfg lawful w s v 0 1 0 _ (response_payload cfg (write_comp_nak r)) _ _
        (simp writers) (simp lengths (omega arith)) (simp lengths (omega (arith, w, v.large)))
  encode_response-wire (rmw_ack r) h =
      seal calculate cfg lawful w s v 0 0 0 _ (response_payload cfg (rmw_ack r)) _ _ (simp writers)
        (omega arith) (omega (arith, w, v.large))
  encode_response-wire (rmw_nak r) h =
      seal calculate cfg lawful w s v 0 1 0 _ (response_payload cfg (rmw_nak r)) _ _ (simp writers)
        (simp lengths (omega arith)) (simp lengths (omega (arith, w, v.large)))
  encode_response-wire (interrupt r) h =
      seal calculate cfg lawful w s v 0 1 0 _ (response_payload cfg (interrupt r)) _ _
        (simp writers) (simp lengths (omega arith)) (simp lengths (omega (arith, w, v.large)))

  -- `encodeResponse` refuses every response that cannot be sent by a `MessageSizeException`.
  pub encode_response_refuses :
      (r : Response)
      → ¬ SendableResponse cfg s r
      → encode_response calculate cfg s r ≡ throw message_size
  unfolding encode_response encode_read_seq_ack encode_read_comp_ack
  encode_response_refuses (read_seq_ack r) no_room =
      let n = length r.values in
      let (limit, e, exact) = get_max_seq_read_count_exact cfg s w v in
      let over = lt_of_not_le limit n λ h.
        let (whole, count) = (exact n).0 h in
        no_room (simp lengths (omega (arith, whole)), count) in
      rw (e, lt→ltb limit n over)
  encode_response_refuses (read_comp_ack r) no_room =
      let n = length r.values in
      let (limit, e, exact) = get_max_comp_read_count_exact cfg s w v in
      let over = lt_of_not_le limit n λ h.
        let (command, whole, count) = (exact n).0 h in
        no_room (simp lengths (omega (arith, whole)), omega (arith, command), count) in
      rw (e, lt→ltb limit n over)
  encode_response_refuses (read_single_ack r) no_room = absurd (no_room tt)
  encode_response_refuses (write_single_ack r) no_room = absurd (no_room tt)
  encode_response_refuses (write_seq_ack r) no_room = absurd (no_room tt)
  encode_response_refuses (write_comp_ack r) no_room = absurd (no_room tt)
  encode_response_refuses (read_single_nak r) no_room = absurd (no_room tt)
  encode_response_refuses (write_single_nak r) no_room = absurd (no_room tt)
  encode_response_refuses (read_seq_nak r) no_room = absurd (no_room tt)
  encode_response_refuses (write_seq_nak r) no_room = absurd (no_room tt)
  encode_response_refuses (read_comp_nak r) no_room = absurd (no_room tt)
  encode_response_refuses (write_comp_nak r) no_room = absurd (no_room tt)
  encode_response_refuses (rmw_ack r) no_room = absurd (no_room tt)
  encode_response_refuses (rmw_nak r) no_room = absurd (no_room tt)
  encode_response_refuses (interrupt r) no_room = absurd (no_room tt)
