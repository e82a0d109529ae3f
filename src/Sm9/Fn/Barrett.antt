-- ===== src/Sm9/Fn/Barrett.antt =====
-- Barrett's reduction modulo n on numbers: the quotient is off by one at most.
use gm_ssl.Base.{u64, ◌%◌, ℕ, ◌+◌, ◌*◌, ◌-◌, ◌^◌, ◌≤◌, ◌<◌, arith, ◌≡◌}

abbrev pub n : ℕ
n = 0xb640000002a3a6f1d603ab4ff58ec74449f2934b18ea8beee56ee19cd69ecf25

abbrev pub mu : ℕ
mu = 0x167980e0beb5759a655f73aebdcd1312c9c95d85ec9c073b074df4fd4dfc97c2f

-- For a number below the square of n, whose words from the third on are `a`: the words of `a * mu`
-- from the fifth on are the quotient by n, or one less.
pub barrett :
    (x a e q f : ℕ)
    → x ≤ (n - 1) * (n - 1)
    → x ≡ e + 2 ^ 192 * a
    → e < 2 ^ 192
    → a * mu ≡ f + 2 ^ 320 * q
    → f < 2 ^ 320
    → (q * n ≤ x) × (x < q * n + 2 * n)
barrett x a e q f hx split he quotient hf = (omega arith, omega arith)

-- What the low five words of the difference need: `s` is the product of n and the low four words of
-- the quotient, and the fifth word is corrected by the quotient's fifth.
pub low_words :
    (z z_low z4 z_rest q q_low q4 s s_low s4 s_rest : ℕ)
    → z ≡ z_low + 2 ^ 256 * (z4 + 2 ^ 64 * z_rest)
    → q ≡ q_low + 2 ^ 256 * q4
    → s ≡ q_low * n
    → s ≡ s_low + 2 ^ 256 * (s4 + 2 ^ 64 * s_rest)
    → q * n ≤ z
    → (s_low + 2 ^ 256 * u64 (s4 + u64 (0xe56ee19cd69ecf25 * q4)) + (z - q * n)) % 2 ^ 320
      ≡ (z_low + 2 ^ 256 * z4) % 2 ^ 320
low_words z z_low z4 z_rest q q_low q4 s s_low s4 s_rest hz hq hs hs' le = omega arith

pub rest_lem : (x q : ℕ) → q * n ≤ x → (x - q * n) % n ≡ x % n
rest_lem x q le = omega arith
