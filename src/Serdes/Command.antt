-- ===== src/Serdes/Command.antt =====
-- The commands on the wire: Serdes.h from `encodeCommand` and `decodeCommand` down.
pub mod Encode
pub mod Decode
pub mod Wire
pub mod Encoded
pub mod Decoded
pub mod Accepted
pub mod Sound
pub mod RoundTrip
pub mod Bounds
pub mod Truncation
