-- ===== src/Serdes/Command/Encoded.antt =====
-- `encodeCommand` on commands that can be sent, and on others.
use rap_cpp.Base.{◌≡◌, length, le→ltb_false, lt→ltb, lt_of_not_le, arith}
use rap_cpp.Configuration.{Cfg, Widths}
use rap_cpp.Result.{ok, throw, message_size}
use rap_cpp.Messages.{
  Command, read_single, write_single, read_seq, write_seq, read_comp, write_comp, read_modify_write,
}
use rap_cpp.Serdes.Size.{Serdes}
use rap_cpp.Serdes.Buffer.{Calculate, IsCrc}
use rap_cpp.Serdes.Limits.{
  IsSerdes, get_max_seq_read_count_exact, get_max_seq_write_count_exact,
  get_max_comp_read_count_exact, get_max_comp_write_count_exact,
}
use rap_cpp.Serdes.Writers.{writers, lengths, seal, append_length_lem}
use rap_cpp.Serdes.Command.Encode.{
  encode_command, encode_read_single, encode_write_single, encode_read_seq, encode_write_seq,
  encode_read_comp, encode_write_comp, encode_read_modify_write,
}
use rap_cpp.Serdes.Command.Wire.{wire, payload, Sendable}

module _ (calculate : Calculate) (cfg : Cfg) (lawful : IsCrc calculate) (w : Widths cfg)
    (s : Serdes) (v : IsSerdes s) where
  -- `encodeCommand` returns the packet of every command that can be sent.
  pub encode_command-wire :
      (cmd : Command)
      → Sendable cfg s cmd
      → encode_command calculate cfg s cmd ≡ ok (wire calculate cfg cmd)
  unfolding encode_command encode_read_single encode_write_single encode_read_seq encode_write_seq
      encode_read_comp encode_write_comp encode_read_modify_write
  encode_command-wire (read_single c) h =
      seal calculate cfg lawful w s v 1 0 0 _ (payload cfg (read_single c)) _ _ (simp writers)
        (simp lengths (omega arith)) (simp lengths (omega (arith, w, v.large)))
  encode_command-wire (write_single c) h =
      seal calculate cfg lawful w s v 1 1 0 _ (payload cfg (write_single c)) _ _ (simp writers)
        (simp lengths (omega arith)) (simp lengths (omega (arith, w, v.large)))
  encode_command-wire (read_modify_write c) h =
      seal calculate cfg lawful w s v 1 2 0 _ (payload cfg (read_modify_write c)) _ _ (simp writers)
        (simp lengths (omega arith)) (simp lengths (omega (arith, w, v.large)))
  encode_command-wire (read_seq c) (reply, count) =
      let (limit, e, exact) = get_max_seq_read_count_exact cfg s w v in
      rw (e, le→ltb_false limit c.count ((exact c.count).1 (omega arith, count)))
        (seal calculate cfg lawful w s v 1 0 2 _ (payload cfg (read_seq c)) _ _
          (simp (writers, append_length_lem cfg w.length_wire.1)) (simp lengths (omega arith))
          (simp lengths (omega (arith, w, v.large))))
  encode_command-wire (write_seq c) (whole, count) =
      let n = length c.values in
      let (limit, e, exact) = get_max_seq_write_count_exact cfg s w v in
      let sized = simp lengths at whole in
      rw (e, le→ltb_false limit n ((exact n).1 (omega arith, count)))
        (seal calculate cfg lawful w s v 1 n 2 _ (payload cfg (write_seq c)) _ _
          (simp (writers, append_length_lem cfg w.length_wire.1)) (simp lengths (omega arith))
          whole)
  encode_command-wire (read_comp c) (whole, reply, count) =
      let n = length c.addresses in
      let (limit, e, exact) = get_max_comp_read_count_exact cfg s w v in
      let sized = simp lengths at whole in
      rw (e, le→ltb_false limit n ((exact n).1 (omega arith, omega arith, count)))
        (seal calculate cfg lawful w s v n 0 1 _ (payload cfg (read_comp c)) _ _
          (simp (writers, append_length_lem cfg w.length_wire.1)) (simp lengths (omega arith))
          whole)
  encode_command-wire (write_comp c) (whole, count) =
      let n = length c.addr_data in
      let (limit, e, exact) = get_max_comp_write_count_exact cfg s w v in
      let sized = simp lengths at whole in
      rw (e, le→ltb_false limit n ((exact n).1 (omega arith, count)))
        (seal calculate cfg lawful w s v n n 1 _ (payload cfg (write_comp c)) _ _
          (simp (writers, append_length_lem cfg w.length_wire.1)) (simp lengths (omega arith))
          whole)

  -- `encodeCommand` refuses every command that cannot be sent by a `MessageSizeException`.
  pub encode_command_refuses :
      (cmd : Command)
      → ¬ Sendable cfg s cmd
      → encode_command calculate cfg s cmd ≡ throw message_size
  unfolding encode_command encode_read_seq encode_write_seq encode_read_comp encode_write_comp
  encode_command_refuses (read_single c) no_room = absurd (no_room tt)
  encode_command_refuses (write_single c) no_room = absurd (no_room tt)
  encode_command_refuses (read_modify_write c) no_room = absurd (no_room tt)
  encode_command_refuses (read_seq c) no_room =
      let (limit, e, exact) = get_max_seq_read_count_exact cfg s w v in
      let over =
        lt_of_not_le limit c.count
          λ h. let (reply, count) = (exact c.count).0 h in no_room (omega (arith, reply), count) in
      rw (e, lt→ltb limit c.count over)
  encode_command_refuses (write_seq c) no_room =
      let n = length c.values in
      let (limit, e, exact) = get_max_seq_write_count_exact cfg s w v in
      let over = lt_of_not_le limit n λ h.
        let (whole, count) = (exact n).0 h in
        no_room (simp lengths (omega (arith, whole)), count) in
      rw (e, lt→ltb limit n over)
  encode_command_refuses (read_comp c) no_room =
      let n = length c.addresses in
      let (limit, e, exact) = get_max_comp_read_count_exact cfg s w v in
      let over = lt_of_not_le limit n λ h.
        let (whole, reply, count) = (exact n).0 h in
        no_room (simp lengths (omega (arith, whole)), omega (arith, reply), count) in
      rw (e, lt→ltb limit n over)
  encode_command_refuses (write_comp c) no_room =
      let n = length c.addr_data in
      let (limit, e, exact) = get_max_comp_write_count_exact cfg s w v in
      let over = lt_of_not_le limit n λ h.
        let (whole, count) = (exact n).0 h in
        no_room (simp lengths (omega (arith, whole)), count) in
      rw (e, lt→ltb limit n over)
