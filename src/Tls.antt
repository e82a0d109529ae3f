-- ===== src/Tls.antt =====
-- src/tls.c: the integers and vectors of messages, and the protection of records.
pub mod Codec
pub mod Cbc
mod Tests
