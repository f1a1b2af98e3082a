-- ===== src/Serdes/Command/Truncation.antt =====
-- `encode` and `decode` of a `WriteSeqCommand` whose count has more bytes than the length field.
use rap_cpp.Base.{ℕ, ◌*◌, ◌%◌, ◌^◌, ◌≤◌, ◌<◌, ◌≡◌, true, not, ◌==◌, List, ◌++◌, length, arith}
use rap_cpp.Configuration.{Cfg, Widths, IsUsable, IsUsable-Widths}
use rap_cpp.Result.{ok, throw, base_exception}
use rap_cpp.Messages.{WriteSeqCommand, write_seq}
use rap_cpp.Serdes.Size.{Serdes}
use rap_cpp.Serdes.Buffer.{Calculate, IsCrc, extract_length}
use rap_cpp.Serdes.Bytes.{to_le, to_le-to_unsigned}
use rap_cpp.Serdes.Fields.{FitsIn}
use rap_cpp.Serdes.ArrayFields.{length-array_le}
use rap_cpp.Serdes.Limits.{IsSerdes}
use rap_cpp.Serdes.Frame.{open_packet-frame}
use rap_cpp.Serdes.Readers.{extract_address_lem, extract_length_lem}
use rap_cpp.Serdes.Command.Encode.{encode_command}
use rap_cpp.Serdes.Command.Decode.{decode_command, decode_write_seq}
use rap_cpp.Serdes.Command.Wire.{wire, payload, Sendable}
use rap_cpp.Serdes.Command.Encoded.{encode_command-wire}
use rap_cpp.Serdes.Command.Decoded.{write_seq_flag}
use native.Mathlib.Nat.{mod-lt, one-le-pow}

-- The length field keeps the low bytes of a number.
extract_length_truncates :
    (cfg : Cfg)
    → Widths cfg
    → (n : ℕ) (rest : List ℕ)
    → extract_length cfg (to_le cfg.length_bytes n ++ rest) ≡ ok (n % 256 ^ cfg.length_bytes, rest)
extract_length_truncates cfg w n rest =
    let bytes = cfg.length_bytes in
    rw (← to_le-to_unsigned bytes bytes n (omega arith)) (
      extract_length_lem cfg w (n % 256 ^ bytes) rest
        (mod-lt n (one-le-pow bytes 256 (omega arith))))

other_size : (n p d : ℕ) → 0 < p → p ≤ n → 0 < d → not (n * d == n % p * d) ≡ true
other_size n p d pos h hd =
    let fewer : n % p < n = omega (arith, mod-lt n pos) in
    let less : n % p * d < n * d = grind arith in ground arith

module _ (calculate : Calculate) (cfg : Cfg) (lawful : IsCrc calculate) (u : IsUsable cfg)
    (s : Serdes) (v : IsSerdes s) where
  -- A write of so many words that the length field cannot hold their count is not refused by
  -- `encodeCommand`, if a `LengthType` can hold it and the packet is within the limit: the packet
  -- that it returns carries a truncated count, and `decodeCommand` throws a plain `Exception` on it.
  pub write_seq_truncates :
      (c : WriteSeqCommand)
      → Sendable cfg s (write_seq c)
      → FitsIn cfg.address_bytes c.start_addr
      → FitsIn cfg.length_bytes c.increment
      → 256 ^ cfg.length_bytes ≤ length c.values
      → (encode_command calculate cfg s (write_seq c) ≡ ok (wire calculate cfg (write_seq c)))
        × (decode_command calculate cfg (wire calculate cfg (write_seq c)) ≡ throw base_exception)
  unfolding decode_command decode_write_seq
  write_seq_truncates c room addr incr many =
      let w = IsUsable-Widths u in
      let n = length c.values in
      let (flag, kind) = write_seq_flag cfg (payload cfg (write_seq c)) c.transaction_id c.posted in
      (
        encode_command-wire calculate cfg lawful w s v (write_seq c) room,
        rw (
          open_packet-frame calculate cfg lawful w,
          kind,
          extract_address_lem cfg w c.start_addr _ addr,
          extract_length_lem cfg w c.increment _ incr,
          extract_length_truncates cfg w n,
          length-array_le,
          other_size n (256 ^ cfg.length_bytes) cfg.data_bytes
              (one-le-pow cfg.length_bytes 256 (omega arith)) many w.data_wire.0,
        ),
      )
