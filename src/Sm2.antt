-- ===== src/Sm2.antt =====
-- The arithmetic of SM2: src/sm2_z256.c, on 256-bit numbers of four 64-bit words.
mod Tests
pub mod Limbs
pub mod Mul
pub mod Modular
pub mod Field
pub mod Bytes
