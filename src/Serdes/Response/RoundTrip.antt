-- ===== src/Serdes/Response/RoundTrip.antt =====
-- `encodeResponse` and `decodeResponse` together.
use rap_cpp.Base.{ℕ, ◌≡◌, ap, ◌∙◌, ◌↔◌, List}
use rap_cpp.Configuration.{Cfg, IsUsable, IsUsable-Widths}
use rap_cpp.Result.{ok, ◌>>=◌, Ensures-eq-ok}
use rap_cpp.Messages.Response.{Response}
use rap_cpp.Serdes.Size.{Serdes}
use rap_cpp.Serdes.Buffer.{Calculate, IsCrc}
use rap_cpp.Serdes.Bytes.{IsBytes}
use rap_cpp.Serdes.Limits.{IsSerdes}
use rap_cpp.Serdes.Response.Encode.{encode_response}
use rap_cpp.Serdes.Response.Decode.{decode_response}
use rap_cpp.Serdes.Response.Wire.{response_wire, IsWireResponse, SendableResponse}
use rap_cpp.Serdes.Response.Encoded.{encode_response-wire}
use rap_cpp.Serdes.Response.Decoded.{decode_response-wire}
use rap_cpp.Serdes.Response.Sound.{decode_response-Ensures}

module _ (calculate : Calculate) (cfg : Cfg) (lawful : IsCrc calculate) (u : IsUsable cfg) where
  -- For any bytes, `decodeResponse` returns a response exactly if the bytes are that response's
  -- packet (header, little-endian fields, checksum) and each field fits its bytes.
  pub decode_response_iff :
      (buf : List ℕ) (r : Response)
      → IsBytes buf
      → (decode_response calculate cfg buf ≡ ok r)
        ↔ ((buf ≡ response_wire calculate cfg r) × IsWireResponse cfg r)
  decode_response_iff buf r bytes = (
    Ensures-eq-ok _ (decode_response calculate cfg buf)
        (decode_response-Ensures calculate cfg lawful (IsUsable-Widths u) buf bytes),
    λ h.
        ap (decode_response calculate cfg) h.0
        ∙ decode_response-wire cfg (IsUsable-Widths u) calculate lawful r h.1,
  )

  -- The client decodes what the server encoded: for every response that can be sent and whose
  -- fields fit, `encodeResponse` returns a buffer, and `decodeResponse` gives the response back.
  pub decode_response-encode_response :
      (s : Serdes)
      → IsSerdes s
      → (r : Response) → SendableResponse cfg s r
      → IsWireResponse cfg r
      → (encode_response calculate cfg s r >>= decode_response calculate cfg) ≡ ok r
  decode_response-encode_response s v r room fits =
      ap (λ x. x >>= decode_response calculate cfg)
        (encode_response-wire calculate cfg lawful (IsUsable-Widths u) s v r room)
      ∙ decode_response-wire cfg (IsUsable-Widths u) calculate lawful r fits
