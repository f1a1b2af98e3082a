-- ===== src/Serdes/Response/Decoded.antt =====
-- `decodeResponse` on the packet of a response.
use rap_cpp.Base.{◌≡◌, refl, some, length}
use rap_cpp.Configuration.{Cfg, Widths}
use rap_cpp.Result.{ok}
use rap_cpp.Messages.Response.{
  Response, read_single_ack, write_single_ack, read_seq_ack, write_seq_ack, read_comp_ack,
  write_comp_ack, read_single_nak, write_single_nak, read_seq_nak, write_seq_nak, read_comp_nak,
  write_comp_nak, rmw_ack, rmw_nak, interrupt,
}
use rap_cpp.Serdes.Buffer.{Calculate, IsCrc}
use rap_cpp.Serdes.Readers.{extract_data_last, extract_length_lem, extract_data_array_last}
use rap_cpp.Serdes.Frame.{open_packet-frame}
use rap_cpp.Serdes.Response.Decode.{
  decode_response, decode_response_as, decode_read_single_ack, decode_write_single_ack,
  decode_read_seq_ack, decode_write_seq_ack, decode_read_comp_ack, decode_write_comp_ack,
  decode_read_single_nak, decode_write_single_nak, decode_read_seq_nak, decode_write_seq_nak,
  decode_read_comp_nak, decode_write_comp_nak, decode_rmw_ack, decode_rmw_nak, decode_interrupt,
}
use rap_cpp.Serdes.Response.Wire.{
  response_wire, response_payload, IsWireResponse, response_id, response_type,
}

module _ (cfg : Cfg) (w : Widths cfg) where
  decode_response_as-payload :
      (r : Response)
      → IsWireResponse cfg r
      → decode_response_as cfg (some (response_type r)) (response_payload cfg r) (response_id r)
        ≡ ok r
  unfolding decode_response_as decode_read_single_ack decode_write_single_ack decode_read_seq_ack
      decode_write_seq_ack decode_read_comp_ack decode_write_comp_ack decode_read_single_nak
      decode_write_single_nak decode_read_seq_nak decode_write_seq_nak decode_read_comp_nak
      decode_write_comp_nak decode_rmw_ack decode_rmw_nak decode_interrupt
  decode_response_as-payload (read_single_ack r) h = rw (extract_data_last cfg w r.value h.1)
  decode_response_as-payload (write_single_ack r) h = refl
  decode_response_as-payload (read_seq_ack r) h =
      rw (
        extract_length_lem cfg w (length r.values) _ h.1,
        extract_data_array_last cfg w r.values h.2,
      )
  decode_response_as-payload (write_seq_ack r) h = refl
  decode_response_as-payload (read_comp_ack r) h =
      rw (
        extract_length_lem cfg w (length r.values) _ h.1,
        extract_data_array_last cfg w r.values h.2,
      )
  decode_response_as-payload (write_comp_ack r) h = refl
  decode_response_as-payload (read_single_nak r) h = rw (extract_data_last cfg w r.status h.1)
  decode_response_as-payload (write_single_nak r) h = rw (extract_data_last cfg w r.status h.1)
  decode_response_as-payload (read_seq_nak r) h = rw (extract_data_last cfg w r.status h.1)
  decode_response_as-payload (write_seq_nak r) h = rw (extract_data_last cfg w r.status h.1)
  decode_response_as-payload (read_comp_nak r) h = rw (extract_data_last cfg w r.status h.1)
  decode_response_as-payload (write_comp_nak r) h = rw (extract_data_last cfg w r.status h.1)
  decode_response_as-payload (rmw_ack r) h = refl
  decode_response_as-payload (rmw_nak r) h = rw (extract_data_last cfg w r.status h.1)
  decode_response_as-payload (interrupt r) h = rw (extract_data_last cfg w r.status h.1)

  pub decode_response-wire :
      (calculate : Calculate)
      → IsCrc calculate
      → (r : Response) → IsWireResponse cfg r
      → decode_response calculate cfg (response_wire calculate cfg r) ≡ ok r
  unfolding decode_response
  decode_response-wire calculate lawful r h =
      rw (open_packet-frame calculate cfg lawful w) (decode_response_as-payload r h)
