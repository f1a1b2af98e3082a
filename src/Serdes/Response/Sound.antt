-- ===== src/Serdes/Response/Sound.antt =====
-- `decodeResponse` on any bytes at all.
use rap_cpp.Base.{ℕ, ◌<◌, ◌≡◌, refl, sym, ◌∙◌, Option, some, List, ◌++◌, length, All, append-nil}
use rap_cpp.Configuration.{Cfg, Widths}
use rap_cpp.Result.{ok, ◌>>=◌, ◌>>◌, Ensures, Ensures->>=, Ensures-map, Ensures-weaken}
use rap_cpp.Messages.Response.{
  Response, read_single_ack, write_single_ack, read_seq_ack, write_seq_ack, read_comp_ack,
  write_comp_ack, read_single_nak, write_single_nak, read_seq_nak, write_seq_nak, read_comp_nak,
  write_comp_nak, rmw_ack, rmw_nak, interrupt,
}
use rap_cpp.Messages.MessageType.{
  MessageType, to_byte-from_byte, ack_single_read, ack_single_write, ack_seq_read, ack_seq_write,
  ack_comp_read, ack_comp_write, nak_single_read, nak_single_write, nak_seq_read, nak_seq_write,
  nak_comp_read, nak_comp_write, ack_single_rmw, nak_single_rmw, ack_single_interrupt,
}
use rap_cpp.Serdes.Buffer.{Calculate, IsCrc, extract_data, extract_length, extract_data_array}
use rap_cpp.Serdes.Packet.{end_of_packet, open_packet}
use rap_cpp.Serdes.Bytes.{IsBytes, to_le}
use rap_cpp.Serdes.Fields.{FitsIn}
use rap_cpp.Serdes.ArrayFields.{array_le}
use rap_cpp.Serdes.Readers.{
  extract_data_then, extract_length_then, extract_data_array_then, end_of_packet_then,
}
use rap_cpp.Serdes.Accept.{IsPacket, open_packet-Ensures}
use rap_cpp.Serdes.Response.Decode.{
  decode_response, decode_response_as, decode_read_single_ack, decode_write_single_ack,
  decode_read_seq_ack, decode_write_seq_ack, decode_read_comp_ack, decode_write_comp_ack,
  decode_read_single_nak, decode_write_single_nak, decode_read_seq_nak, decode_write_seq_nak,
  decode_read_comp_nak, decode_write_comp_nak, decode_rmw_ack, decode_rmw_nak, decode_interrupt,
}
use rap_cpp.Serdes.Response.Wire.{
  response_wire, response_payload, IsWireResponse, response_id, response_type,
}

-- `r` is the response of type `t` with the id `txn_id` whose payload is `buf`.
record IsDecoded (cfg : Cfg) (t : Option MessageType) (txn_id : ℕ) (buf : List ℕ) (r : Response)
    : Type 0 where
  is_type : some (response_type r) ≡ t
  is_id : response_id r ≡ txn_id
  whole : buf ≡ response_payload cfg r
  fits : IsWireResponse cfg r

module _ (cfg : Cfg) (w : Widths cfg) (txn_id : ℕ) (byte : txn_id < 256) where
  -- The three forms of a payload: one word, a counted vector, and nothing.
  word_form :
      {A : Type 0} (Q : A → Type 0) (build : ℕ → A) (buf : List ℕ)
      → IsBytes buf
      → ((d : ℕ) → buf ≡ to_le cfg.data_bytes d → FitsIn cfg.data_bytes d → Q (build d))
      → Ensures Q (do (d, rest) ← extract_data cfg buf; end_of_packet rest; ok (build d))
  word_form Q build buf bytes h = extract_data_then cfg w Q buf bytes _ λ d word.
      end_of_packet_then Q d.1 _ λ over. h d.0 (word.whole ∙ rw (over, append-nil)) word.fits

  vector_form :
      {A : Type 0} (Q : A → Type 0) (build : List ℕ → A) (buf : List ℕ)
      → IsBytes buf
      → ((vs : List ℕ)
          → buf ≡ to_le cfg.length_bytes (length vs) ++ array_le cfg.data_bytes vs
          → FitsIn cfg.length_bytes (length vs) × All (FitsIn cfg.data_bytes) vs
          → Q (build vs))
      → Ensures Q (do
        (count, buf') ← extract_length cfg buf
        (vs, rest) ← extract_data_array cfg count buf'
        end_of_packet rest
        ok (build vs))
  vector_form Q build buf bytes h = extract_length_then cfg w Q buf bytes _ λ n count.
      extract_data_array_then cfg w Q n.1 count.rest_bytes n.0 _ λ ds words.
        end_of_packet_then Q ds.1 _ λ over.
          h ds.0 (count.whole ∙ rw (words.whole, over, append-nil, words.fits.0))
            (rw words.fits.0 count.fits, words.fits.1)

  decode_response_as-Ensures :
      (t : Option MessageType) (buf : List ℕ)
      → IsBytes buf
      → Ensures (IsDecoded cfg t txn_id buf) (decode_response_as cfg t buf txn_id)
  unfolding decode_response_as decode_read_single_ack decode_write_single_ack decode_read_seq_ack
      decode_write_seq_ack decode_read_comp_ack decode_write_comp_ack decode_read_single_nak
      decode_write_single_nak decode_read_seq_nak decode_write_seq_nak decode_read_comp_nak
      decode_write_comp_nak decode_rmw_ack decode_rmw_nak decode_interrupt
  decode_response_as-Ensures (some ack_single_read) buf bytes =
      let Q = IsDecoded cfg (some ack_single_read) txn_id buf in
      Ensures-map Q read_single_ack _ (
        word_form (λ r. Q (read_single_ack r)) (λ d. record { transaction_id = txn_id; value = d })
          buf bytes λ d e h. record { is_type = refl; is_id = refl; whole = e; fits = (byte, h) })
  decode_response_as-Ensures (some ack_single_write) buf bytes =
      let Q = IsDecoded cfg (some ack_single_write) txn_id buf in
      Ensures-map Q write_single_ack _ (
        end_of_packet_then (λ r. Q (write_single_ack r)) buf _
          λ e. record { is_type = refl; is_id = refl; whole = e; fits = byte })
  decode_response_as-Ensures (some ack_seq_read) buf bytes =
      let Q = IsDecoded cfg (some ack_seq_read) txn_id buf in
      Ensures-map Q read_seq_ack _ (
        vector_form (λ r. Q (read_seq_ack r))
          (λ vs. record { transaction_id = txn_id; values = vs }) buf bytes
          λ vs e h. record { is_type = refl; is_id = refl; whole = e; fits = (byte, h.0, h.1) })
  decode_response_as-Ensures (some ack_seq_write) buf bytes =
      let Q = IsDecoded cfg (some ack_seq_write) txn_id buf in
      Ensures-map Q write_seq_ack _ (
        end_of_packet_then (λ r. Q (write_seq_ack r)) buf _
          λ e. record { is_type = refl; is_id = refl; whole = e; fits = byte })
  decode_response_as-Ensures (some ack_comp_read) buf bytes =
      let Q = IsDecoded cfg (some ack_comp_read) txn_id buf in
      Ensures-map Q read_comp_ack _ (
        vector_form (λ r. Q (read_comp_ack r))
          (λ vs. record { transaction_id = txn_id; values = vs }) buf bytes
          λ vs e h. record { is_type = refl; is_id = refl; whole = e; fits = (byte, h.0, h.1) })
  decode_response_as-Ensures (some ack_comp_write) buf bytes =
      let Q = IsDecoded cfg (some ack_comp_write) txn_id buf in
      Ensures-map Q write_comp_ack _ (
        end_of_packet_then (λ r. Q (write_comp_ack r)) buf _
          λ e. record { is_type = refl; is_id = refl; whole = e; fits = byte })
  decode_response_as-Ensures (some nak_single_read) buf bytes =
      let Q = IsDecoded cfg (some nak_single_read) txn_id buf in
      Ensures-map Q read_single_nak _ (
        word_form (λ r. Q (read_single_nak r)) (λ d. record { transaction_id = txn_id; status = d })
          buf bytes λ d e h. record { is_type = refl; is_id = refl; whole = e; fits = (byte, h) })
  decode_response_as-Ensures (some nak_single_write) buf bytes =
      let Q = IsDecoded cfg (some nak_single_write) txn_id buf in
      Ensures-map Q write_single_nak _ (
        word_form (λ r. Q (write_single_nak r))
          (λ d. record { transaction_id = txn_id; status = d }) buf bytes
          λ d e h. record { is_type = refl; is_id = refl; whole = e; fits = (byte, h) })
  decode_response_as-Ensures (some nak_seq_read) buf bytes =
      let Q = IsDecoded cfg (some nak_seq_read) txn_id buf in
      Ensures-map Q read_seq_nak _ (
        word_form (λ r. Q (read_seq_nak r)) (λ d. record { transaction_id = txn_id; status = d })
          buf bytes λ d e h. record { is_type = refl; is_id = refl; whole = e; fits = (byte, h) })
  decode_response_as-Ensures (some nak_seq_write) buf bytes =
      let Q = IsDecoded cfg (some nak_seq_write) txn_id buf in
      Ensures-map Q write_seq_nak _ (
        word_form (λ r. Q (write_seq_nak r)) (λ d. record { transaction_id = txn_id; status = d })
          buf bytes λ d e h. record { is_type = refl; is_id = refl; whole = e; fits = (byte, h) })
  decode_response_as-Ensures (some nak_comp_read) buf bytes =
      let Q = IsDecoded cfg (some nak_comp_read) txn_id buf in
      Ensures-map Q read_comp_nak _ (
        word_form (λ r. Q (read_comp_nak r)) (λ d. record { transaction_id = txn_id; status = d })
          buf bytes λ d e h. record { is_type = refl; is_id = refl; whole = e; fits = (byte, h) })
  decode_response_as-Ensures (some nak_comp_write) buf bytes =
      let Q = IsDecoded cfg (some nak_comp_write) txn_id buf in
      Ensures-map Q write_comp_nak _ (
        word_form (λ r. Q (write_comp_nak r)) (λ d. record { transaction_id = txn_id; status = d })
          buf bytes λ d e h. record { is_type = refl; is_id = refl; whole = e; fits = (byte, h) })
  decode_response_as-Ensures (some ack_single_rmw) buf bytes =
      let Q = IsDecoded cfg (some ack_single_rmw) txn_id buf in
      Ensures-map Q rmw_ack _ (
        end_of_packet_then (λ r. Q (rmw_ack r)) buf _
          λ e. record { is_type = refl; is_id = refl; whole = e; fits = byte })
  decode_response_as-Ensures (some nak_single_rmw) buf bytes =
      let Q = IsDecoded cfg (some nak_single_rmw) txn_id buf in
      Ensures-map Q rmw_nak _ (
        word_form (λ r. Q (rmw_nak r)) (λ d. record { transaction_id = txn_id; status = d }) buf
          bytes λ d e h. record { is_type = refl; is_id = refl; whole = e; fits = (byte, h) })
  decode_response_as-Ensures (some ack_single_interrupt) buf bytes =
      let Q = IsDecoded cfg (some ack_single_interrupt) txn_id buf in
      Ensures-map Q interrupt _ (
        word_form (λ r. Q (interrupt r)) (λ d. record { transaction_id = txn_id; status = d }) buf
          bytes λ d e h. record { is_type = refl; is_id = refl; whole = e; fits = (byte, h) })
  decode_response_as-Ensures _ buf bytes = tt

module _ (calculate : Calculate) (cfg : Cfg) (lawful : IsCrc calculate) (w : Widths cfg) where
  -- On any bytes `decodeResponse` reads nothing outside of the buffer, and it throws or returns a
  -- response whose fields fit and whose packet those bytes are.
  pub decode_response-Ensures :
      (buf : List ℕ)
      → IsBytes buf
      → Ensures
          (λ r. (buf ≡ response_wire calculate cfg r) × IsWireResponse cfg r)
          (decode_response calculate cfg buf)
  unfolding decode_response
  decode_response-Ensures buf bytes =
      let Q = λ (r : Response). (buf ≡ response_wire calculate cfg r) × IsWireResponse cfg r in
      Ensures->>= (IsPacket calculate cfg buf) Q (open_packet calculate cfg buf) _
        (open_packet-Ensures cfg w calculate lawful buf bytes)
        λ p packet.
          Ensures-weaken (IsDecoded cfg p.1 p.0 p.2) Q _
            (decode_response_as-Ensures cfg w p.0 packet.id_byte p.1 p.2 packet.payload_bytes)
            λ r done. (
              cc (
                packet.whole,
                done.is_id,
                done.whole,
                to_byte-from_byte packet.type_byte (packet.msg_type ∙ sym done.is_type),
              ),
              done.fits,
            )
