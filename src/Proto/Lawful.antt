-- ===== src/Proto/Lawful.antt =====
-- The contract of Spec, for each message type of Protocol.hpp.
pub mod Names
pub mod Numbers
pub mod States
