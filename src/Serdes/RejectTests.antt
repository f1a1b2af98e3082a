-- ===== src/Serdes/RejectTests.antt =====
-- The theorems on refused packets and on the limits, at small configurations.
use rap_cpp.Base.{ℕ, zero, suc, ◌≤◌, ◌≡◌, ◌≢◌, false, true, List, [], ◌∷◌, ◌++◌, arith}
use rap_cpp.Configuration.{
  Cfg, IsUsable, IsUsable-Widths, example_rap_cfg, example_rap_cfg-IsUsable,
}
use rap_cpp.Result.{ok, throw, base_exception, crc_mismatch, unexpected_message_type}
use rap_cpp.Messages.{WriteSeqCommand, write_seq}
use rap_cpp.Serdes.Size.{
  numeric_max, get_max_seq_read_count, get_max_seq_write_count, get_max_comp_read_count,
  get_max_comp_write_count,
}
use rap_cpp.Serdes.Bytes.{to_le}
use rap_cpp.Serdes.ArrayFields.{length-array_le}
use rap_cpp.Serdes.Limits.{IsLimit, size_of}
use rap_cpp.Serdes.Counts.{max_counts_exact}
use rap_cpp.Serdes.Frame.{crc_of}
use rap_cpp.Serdes.Reject.{decode_corrupt, decode_other_kind}
use rap_cpp.Serdes.Command.Encode.{encode_command}
use rap_cpp.Serdes.Command.Decode.{decode_command}
use rap_cpp.Serdes.Command.Wire.{wire, Sendable}
use rap_cpp.Serdes.Command.Truncation.{write_seq_truncates}
use rap_cpp.Serdes.Response.Decode.{decode_response}
use rap_cpp.Serdes.Response.Wire.{response_wire}
use rap_cpp.Serdes.Tests.{sum_crc, sum_crc-IsCrc, serdes, serdes-IsSerdes, two_words, read_words}

abbrev header : List ℕ
header = 7 ∷ 21 ∷ []

header-crc : 29 ≢ crc_of sum_crc example_rap_cfg header
unfolding crc_of
header-crc = ground arith

decode_corrupt_example :
    let refused = crc_mismatch (crc_of sum_crc example_rap_cfg header) 29 in
    (decode_command sum_crc example_rap_cfg (header ++ to_le 2 29) ≡ throw refused)
    × (decode_response sum_crc example_rap_cfg (header ++ to_le 2 29) ≡ throw refused)
decode_corrupt_example =
    decode_corrupt sum_crc example_rap_cfg sum_crc-IsCrc example_rap_cfg-IsUsable header 29
      (omega arith) (omega arith) header-crc

decode_other_kind_example :
    (decode_command sum_crc example_rap_cfg (response_wire sum_crc example_rap_cfg read_words)
      ≡ throw unexpected_message_type)
    × (decode_response sum_crc example_rap_cfg (wire sum_crc example_rap_cfg two_words)
        ≡ throw unexpected_message_type)
decode_other_kind_example =
    decode_other_kind sum_crc example_rap_cfg sum_crc-IsCrc example_rap_cfg-IsUsable two_words
      read_words

max_counts_exact_example :
    IsLimit
      (get_max_seq_read_count example_rap_cfg serdes)
      (λ n. (size_of example_rap_cfg 0 n 1 ≤ 512) × (n ≤ numeric_max 2))
    × IsLimit
        (get_max_seq_write_count example_rap_cfg serdes)
        (λ n. (size_of example_rap_cfg 1 n 2 ≤ 512) × (n ≤ numeric_max 2))
    × IsLimit (get_max_comp_read_count example_rap_cfg serdes) (λ n.
      (size_of example_rap_cfg n 0 1 ≤ 512)
      × (size_of example_rap_cfg 0 n 1 ≤ 512)
      × (n ≤ numeric_max 2))
    × IsLimit
        (get_max_comp_write_count example_rap_cfg serdes)
        (λ n. (size_of example_rap_cfg n n 1 ≤ 512) × (n ≤ numeric_max 2))
max_counts_exact_example =
    max_counts_exact example_rap_cfg serdes (IsUsable-Widths example_rap_cfg-IsUsable)
      serdes-IsSerdes

-- A `LengthType` of two bytes, of which one is sent.
abbrev short_length : Cfg
short_length = record {
  address_size = 1;
  address_bits = 8;
  address_bytes = 1;
  data_size = 1;
  data_bits = 8;
  data_bytes = 1;
  length_size = 2;
  length_bytes = 1;
  crc_size = 1;
  crc_bytes = 1;
  feature_sequential = true;
  feature_fifo = true;
  feature_increment = false;
  feature_compressed = true;
  feature_interrupt = false;
  feature_read_modify_write = false;
}

short_length-IsUsable : IsUsable short_length
short_length-IsUsable = ground arith

abbrev zeros : ℕ → List ℕ
zeros zero = []
zeros (suc n) = 0 ∷ zeros n

abbrev many_words : WriteSeqCommand
many_words = record {
  transaction_id = 7;
  posted = false;
  start_addr = 16;
  increment = 1;
  values = zeros 256;
}

many_words-Sendable : Sendable short_length serdes (write_seq many_words)
unfolding to_le rap_cpp.Serdes.ArrayFields.array_le
many_words-Sendable = (omega arith, omega arith)

write_seq_truncates_example :
    (encode_command sum_crc short_length serdes (write_seq many_words)
      ≡ ok (wire sum_crc short_length (write_seq many_words)))
    × (decode_command sum_crc short_length (wire sum_crc short_length (write_seq many_words))
        ≡ throw base_exception)
write_seq_truncates_example =
    write_seq_truncates sum_crc short_length sum_crc-IsCrc short_length-IsUsable serdes
      serdes-IsSerdes many_words many_words-Sendable (omega arith) (omega arith) (omega arith)
