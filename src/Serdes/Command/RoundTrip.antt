-- ===== src/Serdes/Command/RoundTrip.antt =====
-- `encodeCommand` and `decodeCommand` together.
use rap_cpp.Base.{ℕ, ◌≡◌, ap, ◌∙◌, ◌↔◌, List}
use rap_cpp.Configuration.{Cfg, IsUsable, IsUsable-Widths}
use rap_cpp.Result.{ok, ◌>>=◌, Ensures-eq-ok}
use rap_cpp.Messages.{Command}
use rap_cpp.Serdes.Size.{Serdes}
use rap_cpp.Serdes.Buffer.{Calculate, IsCrc}
use rap_cpp.Serdes.Bytes.{IsBytes}
use rap_cpp.Serdes.Limits.{IsSerdes}
use rap_cpp.Serdes.Command.Encode.{encode_command}
use rap_cpp.Serdes.Command.Decode.{decode_command}
use rap_cpp.Serdes.Command.Wire.{wire, IsWire, Sendable}
use rap_cpp.Serdes.Command.Encoded.{encode_command-wire}
use rap_cpp.Serdes.Command.Decoded.{decode_command-wire}
use rap_cpp.Serdes.Command.Sound.{decode_command-Ensures}

module _ (calculate : Calculate) (cfg : Cfg) (lawful : IsCrc calculate) (u : IsUsable cfg) where
  -- For any bytes, `decodeCommand` returns a command exactly if the bytes are that command's packet
  -- (header, little-endian fields, checksum) and each field fits its bytes.
  pub decode_command_iff :
      (buf : List ℕ) (cmd : Command)
      → IsBytes buf
      → (decode_command calculate cfg buf ≡ ok cmd)
        ↔ ((buf ≡ wire calculate cfg cmd) × IsWire cfg cmd)
  decode_command_iff buf cmd bytes = (
    Ensures-eq-ok _ (decode_command calculate cfg buf)
        (decode_command-Ensures calculate cfg lawful (IsUsable-Widths u) buf bytes),
    λ h.
        ap (decode_command calculate cfg) h.0
        ∙ decode_command-wire cfg (IsUsable-Widths u) calculate lawful cmd h.1,
  )

  module _ (s : Serdes) (v : IsSerdes s) where
    -- The server decodes what the client encoded: for every command that can be sent and whose
    -- fields fit, `encodeCommand` returns a buffer, and `decodeCommand` gives the command back.
    pub decode_command-encode_command :
        (cmd : Command)
        → Sendable cfg s cmd
        → IsWire cfg cmd
        → (encode_command calculate cfg s cmd >>= decode_command calculate cfg) ≡ ok cmd
    decode_command-encode_command cmd room fits =
        ap (λ r. r >>= decode_command calculate cfg)
          (encode_command-wire calculate cfg lawful (IsUsable-Widths u) s v cmd room)
        ∙ decode_command-wire cfg (IsUsable-Widths u) calculate lawful cmd fits
