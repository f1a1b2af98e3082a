-- ===== src/Serdes/Command/Bounds.antt =====
-- The outcomes of `encodeCommand`, and the size of its packet.
use rap_cpp.Base.{
  ◌+◌, ◌≤◌, ◌<◌, ◌≡◌, sym, ◌∙◌, ◌⊎◌, inl, inr, ◌∷◌, length, All-append, dec_both, dec_three, arith,
}
use rap_cpp.Configuration.{Cfg, Widths, IsUsable, IsUsable-Widths}
use rap_cpp.Result.{ok-injective, ok, throw, message_size}
use rap_cpp.Messages.{
  Command, read_single, write_single, read_seq, write_seq, read_comp, write_comp, read_modify_write,
}
use rap_cpp.Messages.MessageType.{to_byte, to_byte-lt}
use rap_cpp.Serdes.Size.{Serdes}
use rap_cpp.Serdes.Buffer.{Buffer, Calculate, IsCrc}
use rap_cpp.Serdes.Bytes.{IsByte, IsBytes, to_le-IsBytes}
use rap_cpp.Serdes.ArrayFields.{array_le-IsBytes, pairs_le-IsBytes}
use rap_cpp.Serdes.Limits.{IsSerdes}
use rap_cpp.Serdes.Frame.{length-frame, frame-IsBytes}
use rap_cpp.Serdes.Writers.{lengths}
use rap_cpp.Serdes.Command.Encode.{encode_command}
use rap_cpp.Serdes.Command.Wire.{wire, payload, Sendable, id_of, type_of}
use rap_cpp.Serdes.Command.Encoded.{encode_command-wire, encode_command_refuses}
use native.Mathlib.Decide.{dec_le}

module _ (cfg : Cfg) where
  dec_sendable : (s : Serdes) (cmd : Command) → Dec (Sendable cfg s cmd)
  dec_sendable s (read_single c) = yes tt
  dec_sendable s (write_single c) = yes tt
  dec_sendable s (read_modify_write c) = yes tt
  dec_sendable s (read_seq c) = dec_both (dec_le _ _) (dec_le _ _)
  dec_sendable s (write_seq c) = dec_both (dec_le _ _) (dec_le _ _)
  dec_sendable s (read_comp c) = dec_three (dec_le _ _) (dec_le _ _) (dec_le _ _)
  dec_sendable s (write_comp c) = dec_both (dec_le _ _) (dec_le _ _)

  payload-IsBytes : (cmd : Command) → IsBytes (payload cfg cmd)
  payload-IsBytes (read_single c) = to_le-IsBytes _ _
  payload-IsBytes (write_single c) = All-append IsByte _ _ (to_le-IsBytes _ _) (to_le-IsBytes _ _)
  payload-IsBytes (read_seq c) =
      All-append IsByte _ _ (to_le-IsBytes _ _)
        (All-append IsByte _ _ (to_le-IsBytes _ _) (to_le-IsBytes _ _))
  payload-IsBytes (write_seq c) = All-append IsByte _ _ (to_le-IsBytes _ _) (
      All-append IsByte _ _ (to_le-IsBytes _ _)
        (All-append IsByte _ _ (to_le-IsBytes _ _) (array_le-IsBytes _ c.values)))
  payload-IsBytes (read_comp c) =
      All-append IsByte _ _ (to_le-IsBytes _ _) (array_le-IsBytes _ c.addresses)
  payload-IsBytes (write_comp c) =
      All-append IsByte _ _ (to_le-IsBytes _ _) (pairs_le-IsBytes _ _ c.addr_data)
  payload-IsBytes (read_modify_write c) =
      All-append IsByte _ _ (to_le-IsBytes _ _)
        (All-append IsByte _ _ (to_le-IsBytes _ _) (to_le-IsBytes _ _))

  payload_fits :
      (w : Widths cfg) (s : Serdes) (v : IsSerdes s) (cmd : Command)
      → Sendable cfg s cmd
      → 2 + length (payload cfg cmd) + cfg.crc_bytes ≤ s.max_message_size
  payload_fits w s v (read_single c) h = simp lengths (omega (arith, w, v.large))
  payload_fits w s v (write_single c) h = simp lengths (omega (arith, w, v.large))
  payload_fits w s v (read_seq c) h = simp lengths (omega (arith, w, v.large))
  payload_fits w s v (read_modify_write c) h = simp lengths (omega (arith, w, v.large))
  payload_fits w s v (write_seq c) h = h.0
  payload_fits w s v (read_comp c) h = h.0
  payload_fits w s v (write_comp c) h = h.0

module _ (calculate : Calculate) (cfg : Cfg) (lawful : IsCrc calculate) (u : IsUsable cfg) where
  -- For every command whose id is a byte, `encodeCommand` either returns the command's packet, of
  -- bytes and of at most `max_message_size` of them, and the command can be sent; or the command
  -- cannot be sent and a `MessageSizeException` is thrown. The assertion on the size never fails.
  pub encode_command_total :
      (s : Serdes)
      → IsSerdes s
      → (cmd : Command) → id_of cmd < 256
      → (Sendable cfg s cmd
          × (encode_command calculate cfg s cmd ≡ ok (wire calculate cfg cmd))
          × (length (wire calculate cfg cmd) ≤ s.max_message_size)
          × IsBytes (wire calculate cfg cmd))
        ⊎ ((¬ Sendable cfg s cmd) × (encode_command calculate cfg s cmd ≡ throw message_size))
  encode_command_total s v cmd byte = elim (dec_sendable cfg s cmd) [
    | yes room ↦ inl (
      room,
      encode_command-wire calculate cfg lawful w s v cmd room,
      omega (
        arith,
        payload_fits cfg w s v cmd room,
        length-frame calculate cfg (id_of cmd ∷ to_byte (type_of cmd) ∷ payload cfg cmd),
      ),
      frame-IsBytes calculate cfg _ (byte, (to_byte-lt (type_of cmd), payload-IsBytes cfg cmd)),
    )
    | no no_room ↦ inr (no_room, encode_command_refuses calculate cfg lawful w s v cmd no_room)
  ]
    where
      w : Widths cfg
      w = IsUsable-Widths u

  -- What `encodeCommand` returns for a command is the packet of a command that can be sent.
  pub encode_command_ok :
      (s : Serdes)
      → IsSerdes s
      → (cmd : Command) {buf : Buffer} → encode_command calculate cfg s cmd ≡ ok buf
      → Sendable cfg s cmd × (buf ≡ wire calculate cfg cmd)
  encode_command_ok s v cmd h = elim (dec_sendable cfg s cmd) [
    | yes room ↦ (
      room,
      ok-injective
          (sym h ∙ encode_command-wire calculate cfg lawful (IsUsable-Widths u) s v cmd room),
    )
    | no no_room ↦ absurd (
        let e = encode_command_refuses calculate cfg lawful (IsUsable-Widths u) s v cmd no_room in
        cc)
  ]
