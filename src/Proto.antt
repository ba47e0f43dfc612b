-- ===== src/Proto.antt =====
-- src/common/Protocol.hpp: the messages of namespace proto, their header, Encode and Decode.
pub mod Header
pub mod Format
pub mod Messages
pub mod Spec
pub mod Yields
pub mod Decoding
pub mod Lawful
pub mod RoundTrip
pub mod Rejects
