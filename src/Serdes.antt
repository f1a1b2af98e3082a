-- ===== src/Serdes.antt =====
-- The class template `Serdes` of Serdes.h: sizes and limits, the bytes of a buffer, the checksum,
-- and an encoder and a decoder for each message.
pub mod Size
pub mod Buffer
pub mod Arrays
pub mod Packet
pub mod Limits
pub mod Counts
pub mod Bytes
pub mod Fields
pub mod ArrayFields
pub mod Frame
pub mod Writers
pub mod Readers
pub mod Accept
pub mod Command
pub mod Response
pub mod Reject
pub mod Tests
mod RejectTests
