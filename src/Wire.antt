-- ===== src/Wire.antt =====
-- src/common/Serialize.hpp: the little endian writer and reader of namespace wire.
pub mod Writer
pub mod Reader
pub mod Parse
pub mod Layout
pub mod Refines
pub mod Safety
