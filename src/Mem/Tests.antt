-- ===== src/Mem/Tests.antt =====
-- The theorems at concrete inputs.
use gm_ssl.Base.{ℕ, List, [], ◌∷◌}

abbrev one_bit_off : List ℕ
one_bit_off = 0x12 ∷ 0x35 ∷ []

abbrev two_bytes : List ℕ
two_bytes = 0x12 ∷ 0x34 ∷ []
