-- ===== src/Serdes/Tests.antt =====
-- The theorems on `Serdes` at the example configuration of Configuration.h, with a sum in place
-- of the checksum of CRCpp.
use rap_cpp.Base.{
  ℕ, ◌+◌, ◌%◌, ◌^◌, ◌≤◌, ◌≡◌, refl, ap, ◌∙◌, ◌↔◌, ◌⊎◌, false, List, [], ◌∷◌, length, arith,
}
use rap_cpp.Configuration.{IsUsable-Widths, example_rap_cfg, example_rap_cfg-IsUsable}
use rap_cpp.Result.{Ensures, ok, throw, ◌>>=◌, message_size}
use rap_cpp.Messages.{Command, write_seq}
use rap_cpp.Messages.Response.{Response, read_seq_ack}
use rap_cpp.Serdes.Size.{Serdes}
use rap_cpp.Serdes.Buffer.{Calculate, IsCrc}
use rap_cpp.Serdes.Bytes.{IsBytes, to_le}
use rap_cpp.Serdes.Limits.{IsSerdes}
use rap_cpp.Serdes.Frame.{crc_of, frame}
use rap_cpp.Serdes.Command.Encode.{encode_command}
use rap_cpp.Serdes.Command.Decode.{decode_command}
use rap_cpp.Serdes.Command.Wire.{wire, IsWire, Sendable}
use rap_cpp.Serdes.Command.Encoded.{encode_command-wire}
use rap_cpp.Serdes.Command.Bounds.{encode_command_total}
use rap_cpp.Serdes.Command.Sound.{decode_command-Ensures}
use rap_cpp.Serdes.Command.RoundTrip.{decode_command_iff, decode_command-encode_command}
use rap_cpp.Serdes.Response.Encode.{encode_response}
use rap_cpp.Serdes.Response.Decode.{decode_response}
use rap_cpp.Serdes.Response.Wire.{response_wire, IsWireResponse, SendableResponse}
use rap_cpp.Serdes.Response.Bounds.{encode_response_total}
use rap_cpp.Serdes.Response.Sound.{decode_response-Ensures}
use rap_cpp.Serdes.Response.RoundTrip.{decode_response_iff, decode_response-encode_response}
use native.Mathlib.Nat.{mod-lt, one-le-pow}

abbrev pub sum : List ℕ → ℕ
sum [] = 0
sum (b ∷ bs) = b + sum bs

abbrev pub sum_crc : Calculate
sum_crc p buf = sum buf % 2 ^ p.width

pub sum_crc-IsCrc : IsCrc sum_crc
sum_crc-IsCrc = record { fits = λ p buf. mod-lt (sum buf) (one-le-pow p.width 2 (omega arith)) }

abbrev pub serdes : Serdes
serdes = record { max_message_size = 512 }

pub serdes-IsSerdes : IsSerdes serdes
serdes-IsSerdes = record { large = omega arith; is_size_t = omega arith }

abbrev pub two_words : Command
two_words = write_seq (record {
  transaction_id = 7;
  posted = false;
  start_addr = 0x1000;
  increment = 4;
  values = 0xdeadbeef ∷ 0x12345678 ∷ [];
})

abbrev two_words_packet : List ℕ
two_words_packet =
    7 ∷ 21 ∷ 0 ∷ 16 ∷ 0 ∷ 4 ∷ 0 ∷ 2 ∷ 0 ∷ 239 ∷ 190 ∷ 173 ∷ 222 ∷ 120 ∷ 86 ∷ 52 ∷ 18 ∷ 126 ∷ 4 ∷ []

two_words_packet-wire : wire sum_crc example_rap_cfg two_words ≡ two_words_packet
unfolding frame rap_cpp.Serdes.Bytes.to_le rap_cpp.Serdes.ArrayFields.array_le crc_of
    rap_cpp.Messages.MessageType.to_byte rap_cpp.Serdes.Buffer.crc_parameters
two_words_packet-wire = refl

two_words_packet-IsBytes : IsBytes two_words_packet
two_words_packet-IsBytes = ground arith

pub two_words-Sendable : Sendable example_rap_cfg serdes two_words
unfolding to_le rap_cpp.Serdes.ArrayFields.array_le
two_words-Sendable = (omega arith, omega arith)

pub two_words-IsWire : IsWire example_rap_cfg two_words
two_words-IsWire = ground arith

abbrev pub read_words : Response
read_words = read_seq_ack (record { transaction_id = 7; values = 1 ∷ 0xffffffff ∷ [] })

abbrev read_words_packet : List ℕ
read_words_packet = 7 ∷ 133 ∷ 2 ∷ 0 ∷ 1 ∷ 0 ∷ 0 ∷ 0 ∷ 255 ∷ 255 ∷ 255 ∷ 255 ∷ 139 ∷ 4 ∷ []

read_words_packet-wire : response_wire sum_crc example_rap_cfg read_words ≡ read_words_packet
unfolding frame rap_cpp.Serdes.Bytes.to_le rap_cpp.Serdes.ArrayFields.array_le crc_of
    rap_cpp.Messages.MessageType.to_byte rap_cpp.Serdes.Buffer.crc_parameters
read_words_packet-wire = refl

read_words_packet-IsBytes : IsBytes read_words_packet
read_words_packet-IsBytes = ground arith

read_words-SendableResponse : SendableResponse example_rap_cfg serdes read_words
unfolding to_le rap_cpp.Serdes.ArrayFields.array_le
read_words-SendableResponse = (omega arith, omega arith)

pub read_words-IsWireResponse : IsWireResponse example_rap_cfg read_words
read_words-IsWireResponse = ground arith

-- Each read and each write of the encoders and of the decoders at work.
encode_two_words : encode_command sum_crc example_rap_cfg serdes two_words ≡ ok two_words_packet
encode_two_words =
    encode_command-wire sum_crc example_rap_cfg sum_crc-IsCrc
      (IsUsable-Widths example_rap_cfg-IsUsable) serdes serdes-IsSerdes two_words two_words-Sendable
    ∙ ap ok two_words_packet-wire

decode_command_iff_example :
    (decode_command sum_crc example_rap_cfg two_words_packet ≡ ok two_words) ↔ (
      (two_words_packet ≡ wire sum_crc example_rap_cfg two_words)
      × IsWire example_rap_cfg two_words)
decode_command_iff_example =
    decode_command_iff sum_crc example_rap_cfg sum_crc-IsCrc example_rap_cfg-IsUsable
      two_words_packet two_words two_words_packet-IsBytes

decode_response_iff_example :
    (decode_response sum_crc example_rap_cfg read_words_packet ≡ ok read_words) ↔ (
      (read_words_packet ≡ response_wire sum_crc example_rap_cfg read_words)
      × IsWireResponse example_rap_cfg read_words)
decode_response_iff_example =
    decode_response_iff sum_crc example_rap_cfg sum_crc-IsCrc example_rap_cfg-IsUsable
      read_words_packet read_words read_words_packet-IsBytes

decode_command-encode_command_example :
    (encode_command sum_crc example_rap_cfg serdes two_words
      >>= decode_command sum_crc example_rap_cfg)
    ≡ ok two_words
decode_command-encode_command_example =
    decode_command-encode_command sum_crc example_rap_cfg sum_crc-IsCrc example_rap_cfg-IsUsable
      serdes serdes-IsSerdes two_words two_words-Sendable two_words-IsWire

decode_response-encode_response_example :
    (encode_response sum_crc example_rap_cfg serdes read_words
      >>= decode_response sum_crc example_rap_cfg)
    ≡ ok read_words
decode_response-encode_response_example =
    decode_response-encode_response sum_crc example_rap_cfg sum_crc-IsCrc example_rap_cfg-IsUsable
      serdes serdes-IsSerdes read_words read_words-SendableResponse read_words-IsWireResponse

encode_command_total_example :
    (Sendable example_rap_cfg serdes two_words
      × (encode_command sum_crc example_rap_cfg serdes two_words
          ≡ ok (wire sum_crc example_rap_cfg two_words))
      × (length (wire sum_crc example_rap_cfg two_words) ≤ 512)
      × IsBytes (wire sum_crc example_rap_cfg two_words))
    ⊎ ((¬ Sendable example_rap_cfg serdes two_words)
        × (encode_command sum_crc example_rap_cfg serdes two_words ≡ throw message_size))
encode_command_total_example =
    encode_command_total sum_crc example_rap_cfg sum_crc-IsCrc example_rap_cfg-IsUsable serdes
      serdes-IsSerdes two_words (omega arith)

encode_response_total_example :
    (SendableResponse example_rap_cfg serdes read_words
      × (encode_response sum_crc example_rap_cfg serdes read_words
          ≡ ok (response_wire sum_crc example_rap_cfg read_words))
      × (length (response_wire sum_crc example_rap_cfg read_words) ≤ 512)
      × IsBytes (response_wire sum_crc example_rap_cfg read_words))
    ⊎ ((¬ SendableResponse example_rap_cfg serdes read_words)
        × (encode_response sum_crc example_rap_cfg serdes read_words ≡ throw message_size))
encode_response_total_example =
    encode_response_total sum_crc example_rap_cfg sum_crc-IsCrc example_rap_cfg-IsUsable serdes
      serdes-IsSerdes read_words (omega arith)

decode_command-Ensures_example :
    Ensures
      (λ cmd. (two_words_packet ≡ wire sum_crc example_rap_cfg cmd) × IsWire example_rap_cfg cmd)
      (decode_command sum_crc example_rap_cfg two_words_packet)
decode_command-Ensures_example =
    decode_command-Ensures sum_crc example_rap_cfg sum_crc-IsCrc
      (IsUsable-Widths example_rap_cfg-IsUsable) two_words_packet two_words_packet-IsBytes

decode_response-Ensures_example :
    Ensures
      (λ r.
        (read_words_packet ≡ response_wire sum_crc example_rap_cfg r)
        × IsWireResponse example_rap_cfg r)
      (decode_response sum_crc example_rap_cfg read_words_packet)
decode_response-Ensures_example =
    decode_response-Ensures sum_crc example_rap_cfg sum_crc-IsCrc
      (IsUsable-Widths example_rap_cfg-IsUsable) read_words_packet read_words_packet-IsBytes
