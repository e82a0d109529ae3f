-- ===== src/Asn1.antt =====
-- src/asn1.c: the encoders and decoders of DER.
pub mod Sink
pub mod Length
pub mod Types
pub mod Integer
pub mod Small
pub mod BitString
pub mod Oid
mod Tests
