-- ===== src/Mem.antt =====
-- The memory helpers of src/hex.c and the `memcpy` into a fixed buffer.
pub mod Laws
mod Tests
use gm_ssl.Base.{ℕ, zero, suc, ◌+◌, bit_or, bit_xor, List, [], ◌∷◌, ◌++◌, length, take, drop, u8}
use gm_ssl.Base.{Bool, true, false, ◌==◌, if◌then◌else◌}

-- `gmssl_memxor` and `memxor`: byte by byte, over the shorter of the two.
unfoldable pub memxor : List ℕ → List ℕ → List ℕ
memxor [] bs = []
memxor (a ∷ as') [] = []
memxor (a ∷ as') (b ∷ bs) = bit_xor a b ∷ memxor as' bs

-- The loop of `gmssl_secure_memcmp`, from the value of `x` so far.
pub memcmp_loop : ℕ → List ℕ → List ℕ → ℕ
memcmp_loop x [] bs = x
memcmp_loop x (a ∷ as') [] = x
memcmp_loop x (a ∷ as') (b ∷ bs) = memcmp_loop (bit_or x (bit_xor a b)) as' bs

unfoldable pub secure_memcmp : List ℕ → List ℕ → ℕ
unfolding memcmp_loop
secure_memcmp a b = memcmp_loop 0 a b

-- The loop of `mem_is_zero`, from the value of `ret` so far.
unfoldable pub is_zero_loop : ℕ → List ℕ → ℕ
is_zero_loop ret [] = ret
is_zero_loop ret (b ∷ bs) = is_zero_loop (if b == 0 then ret else 0) bs

unfoldable pub mem_is_zero : List ℕ → ℕ
unfolding is_zero_loop
mem_is_zero buf = is_zero_loop 1 buf

-- `memcpy(dst + off, src, len)` into an array that it does not overrun.
unfoldable pub write : List ℕ → ℕ → List ℕ → List ℕ
write dst off src = take off dst ++ (src ++ drop (off + length src) dst)
