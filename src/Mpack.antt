-- ===== src/Mpack.antt =====
-- MessagePack: objects, wire format, encoder, decoder.
pub mod Object
pub mod Wire
pub mod Mask
pub mod Decode
pub mod Bstring
pub mod Encode
pub mod Message
pub mod Format
pub mod Args
pub mod Fmt
pub mod Expect
pub mod Stream
mod Tests
pub mod Samples
