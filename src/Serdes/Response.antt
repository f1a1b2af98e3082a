-- ===== src/Serdes/Response.antt =====
-- The responses on the wire: Serdes.h from `encodeResponse` and `decodeResponse` down.
pub mod Encode
pub mod Decode
pub mod Wire
pub mod Encoded
pub mod Decoded
pub mod Sound
pub mod RoundTrip
pub mod Bounds
