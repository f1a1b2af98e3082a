-- ===== src/Serdes/Response/Bounds.antt =====
-- The outcomes of `encodeResponse`, and the size of its packet.
use rap_cpp.Base.{
  ◌+◌, ◌≤◌, ◌<◌, ◌≡◌, ◌⊎◌, inl, inr, ◌∷◌, length, All-append, dec_both, dec_three, arith,
}
use rap_cpp.Configuration.{Cfg, Widths, IsUsable, IsUsable-Widths}
use rap_cpp.Result.{ok, throw, message_size}
use rap_cpp.Messages.Response.{
  Response, read_seq_ack, read_comp_ack, read_single_ack, write_single_ack, write_seq_ack,
  write_comp_ack, read_single_nak, write_single_nak, read_seq_nak, write_seq_nak, read_comp_nak,
  write_comp_nak, rmw_ack, rmw_nak, interrupt,
}
use rap_cpp.Messages.MessageType.{to_byte, to_byte-lt}
use rap_cpp.Serdes.Size.{Serdes}
use rap_cpp.Serdes.Buffer.{Calculate, IsCrc}
use rap_cpp.Serdes.Bytes.{IsByte, IsBytes, to_le-IsBytes}
use rap_cpp.Serdes.ArrayFields.{array_le-IsBytes}
use rap_cpp.Serdes.Limits.{IsSerdes}
use rap_cpp.Serdes.Frame.{length-frame, frame-IsBytes}
use rap_cpp.Serdes.Writers.{lengths}
use rap_cpp.Serdes.Response.Encode.{encode_response}
use rap_cpp.Serdes.Response.Wire.{
  response_wire, response_payload, SendableResponse, response_id, response_type,
}
use rap_cpp.Serdes.Response.Encoded.{encode_response-wire, encode_response_refuses}
use native.Mathlib.Decide.{dec_le}

module _ (cfg : Cfg) where
  dec_sendable_response : (s : Serdes) (r : Response) → Dec (SendableResponse cfg s r)
  dec_sendable_response s (read_seq_ack r) = dec_both (dec_le _ _) (dec_le _ _)
  dec_sendable_response s (read_comp_ack r) = dec_three (dec_le _ _) (dec_le _ _) (dec_le _ _)
  dec_sendable_response s (read_single_ack r) = yes tt
  dec_sendable_response s (write_single_ack r) = yes tt
  dec_sendable_response s (write_seq_ack r) = yes tt
  dec_sendable_response s (write_comp_ack r) = yes tt
  dec_sendable_response s (read_single_nak r) = yes tt
  dec_sendable_response s (write_single_nak r) = yes tt
  dec_sendable_response s (read_seq_nak r) = yes tt
  dec_sendable_response s (write_seq_nak r) = yes tt
  dec_sendable_response s (read_comp_nak r) = yes tt
  dec_sendable_response s (write_comp_nak r) = yes tt
  dec_sendable_response s (rmw_ack r) = yes tt
  dec_sendable_response s (rmw_nak r) = yes tt
  dec_sendable_response s (interrupt r) = yes tt

  response_payload-IsBytes : (r : Response) → IsBytes (response_payload cfg r)
  response_payload-IsBytes (read_seq_ack r) =
      All-append IsByte _ _ (to_le-IsBytes _ _) (array_le-IsBytes _ r.values)
  response_payload-IsBytes (read_comp_ack r) =
      All-append IsByte _ _ (to_le-IsBytes _ _) (array_le-IsBytes _ r.values)
  response_payload-IsBytes (read_single_ack r) = to_le-IsBytes _ _
  response_payload-IsBytes (write_single_ack r) = tt
  response_payload-IsBytes (write_seq_ack r) = tt
  response_payload-IsBytes (write_comp_ack r) = tt
  response_payload-IsBytes (read_single_nak r) = to_le-IsBytes _ _
  response_payload-IsBytes (write_single_nak r) = to_le-IsBytes _ _
  response_payload-IsBytes (read_seq_nak r) = to_le-IsBytes _ _
  response_payload-IsBytes (write_seq_nak r) = to_le-IsBytes _ _
  response_payload-IsBytes (read_comp_nak r) = to_le-IsBytes _ _
  response_payload-IsBytes (write_comp_nak r) = to_le-IsBytes _ _
  response_payload-IsBytes (rmw_ack r) = tt
  response_payload-IsBytes (rmw_nak r) = to_le-IsBytes _ _
  response_payload-IsBytes (interrupt r) = to_le-IsBytes _ _

  response_payload_fits :
      (w : Widths cfg) (s : Serdes) (v : IsSerdes s) (r : Response)
      → SendableResponse cfg s r
      → 2 + length (response_payload cfg r) + cfg.crc_bytes ≤ s.max_message_size
  response_payload_fits w s v (read_seq_ack r) h = h.0
  response_payload_fits w s v (read_comp_ack r) h = h.0
  response_payload_fits w s v (read_single_ack r) h = simp lengths (omega (arith, w, v.large))
  response_payload_fits w s v (write_single_ack r) h = omega (arith, w, v.large)
  response_payload_fits w s v (write_seq_ack r) h = omega (arith, w, v.large)
  response_payload_fits w s v (write_comp_ack r) h = omega (arith, w, v.large)
  response_payload_fits w s v (read_single_nak r) h = simp lengths (omega (arith, w, v.large))
  response_payload_fits w s v (write_single_nak r) h = simp lengths (omega (arith, w, v.large))
  response_payload_fits w s v (read_seq_nak r) h = simp lengths (omega (arith, w, v.large))
  response_payload_fits w s v (write_seq_nak r) h = simp lengths (omega (arith, w, v.large))
  response_payload_fits w s v (read_comp_nak r) h = simp lengths (omega (arith, w, v.large))
  response_payload_fits w s v (write_comp_nak r) h = simp lengths (omega (arith, w, v.large))
  response_payload_fits w s v (rmw_ack r) h = omega (arith, w, v.large)
  response_payload_fits w s v (rmw_nak r) h = simp lengths (omega (arith, w, v.large))
  response_payload_fits w s v (interrupt r) h = simp lengths (omega (arith, w, v.large))

module _ (calculate : Calculate) (cfg : Cfg) (lawful : IsCrc calculate) (u : IsUsable cfg) where
  -- For every response whose id is a byte, `encodeResponse` either returns the response's packet,
  -- of bytes and of at most `max_message_size` of them, and the response can be sent; or the
  -- response cannot be sent and a `MessageSizeException` is thrown. The assertion on the size
  -- never fails.
  pub encode_response_total :
      (s : Serdes)
      → IsSerdes s
      → (r : Response) → response_id r < 256
      → (SendableResponse cfg s r
          × (encode_response calculate cfg s r ≡ ok (response_wire calculate cfg r))
          × (length (response_wire calculate cfg r) ≤ s.max_message_size)
          × IsBytes (response_wire calculate cfg r))
        ⊎ ((¬ SendableResponse cfg s r) × (encode_response calculate cfg s r ≡ throw message_size))
  encode_response_total s v r byte = elim (dec_sendable_response cfg s r) [
    | yes room ↦ inl (
      room,
      encode_response-wire calculate cfg lawful w s v r room,
      omega (
        arith,
        response_payload_fits cfg w s v r room,
        length-frame calculate cfg
            (response_id r ∷ to_byte (response_type r) ∷ response_payload cfg r),
      ),
      frame-IsBytes calculate cfg _
          (byte, (to_byte-lt (response_type r), response_payload-IsBytes cfg r)),
    )
    | no no_room ↦ inr (no_room, encode_response_refuses calculate cfg lawful w s v r no_room)
  ]
    where
      w : Widths cfg
      w = IsUsable-Widths u
