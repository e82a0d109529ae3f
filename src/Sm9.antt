-- ===== src/Sm9.antt =====
-- The fields below SM9: src/sm9_z256.c. Its functions on numbers of four words are those of
-- src/sm2_z256.c, line by line; the model takes them from there.
mod Tests
pub mod Fp
pub mod Fp2
pub mod Fn
