-- ===== src/Encoding.antt =====
-- rust/openmso/src/encoding.rs: sample encodings, byte codecs and their negotiation.
pub mod Varint
pub mod Transition
pub mod Negotiate
pub mod Payload
