-- ===== src/Sm4.antt =====
-- src/sm4.c, the ENABLE_SMALL_FOOTPRINT branch: the key schedules, the block function and the
-- multi-block loops. A block and a key are lists of 16 bytes.
pub mod Tables
pub mod Inverse
pub mod Blocks
pub mod Cbc
pub mod Ctr
pub mod Ofb
pub mod Shape
pub mod Authenticated
pub mod Ecb
mod Tests
use gm_ssl.Base.{ℕ, zero, suc, ◌+◌, ◌*◌, ◌/◌, ◌%◌, ◌^◌, bit_and, bit_or, bit_xor}
use gm_ssl.Base.{List, [], ◌∷◌, ◌++◌, get_or, take, drop, ◌<<<◌, ◌>>>◌, u32}
use gm_ssl.Endian.{getu32, putu32, rol32}
use Tables.{fk, ck, s_box}

-- The words X0, X1, X2 and X3.
pub record State : Type 0 where
  pub x0 : ℕ
  pub x1 : ℕ
  pub x2 : ℕ
  pub x3 : ℕ

-- L32(X) and L32_(X).
unfoldable pub l32 : ℕ → ℕ
l32 x = bit_xor (bit_xor (bit_xor (bit_xor x (rol32 x 2)) (rol32 x 10)) (rol32 x 18)) (rol32 x 24)

unfoldable pub l32' : ℕ → ℕ
l32' x = bit_xor (bit_xor x (rol32 x 13)) (rol32 x 23)

-- S32(A): the box on each byte.
unfoldable pub s32 : ℕ → ℕ
s32 a =
    bit_or
      (bit_or
        (bit_or (u32 (get_or s_box (a >>> 24) 0 <<< 24))
          (get_or s_box (bit_and (a >>> 16) 0xff) 0 <<< 16))
        (get_or s_box (bit_and (a >>> 8) 0xff) 0 <<< 8))
      (get_or s_box (bit_and a 0xff) 0)

-- X4 of one round of the key schedule, and the shift of the four words.
unfoldable pub next_round_key : State → ℕ → ℕ
next_round_key s c = bit_xor s.x0 (l32' (s32 (bit_xor (bit_xor (bit_xor s.x1 s.x2) s.x3) c)))

unfoldable pub shift_in : State → ℕ → State
shift_in s x4 = record { x0 = s.x1; x1 = s.x2; x2 = s.x3; x3 = x4 }

-- The words at the head of both key schedules.
unfoldable pub key_state : List ℕ → State
key_state user_key = record {
  x0 = bit_xor (getu32 user_key) (get_or fk 0 0);
  x1 = bit_xor (getu32 (drop 4 user_key)) (get_or fk 1 0);
  x2 = bit_xor (getu32 (drop 8 user_key)) (get_or fk 2 0);
  x3 = bit_xor (getu32 (drop 12 user_key)) (get_or fk 3 0);
}

-- The loop of `sm4_set_encrypt_key`, over the key constants: it fills `rk` upwards.
unfoldable pub expand_up : State → List ℕ → List ℕ
expand_up s [] = []
expand_up s (c ∷ cs) = let x4 = next_round_key s c in x4 ∷ expand_up (shift_in s x4) cs

-- The loop of `sm4_set_decrypt_key`: `rk[31 - i]`, so it fills `rk` downwards.
unfoldable pub expand_down : State → List ℕ → List ℕ → List ℕ
expand_down s [] rk = rk
expand_down s (c ∷ cs) rk = let x4 = next_round_key s c in expand_down (shift_in s x4) cs (x4 ∷ rk)

-- `rk` of the SM4_KEY.
unfoldable pub set_encrypt_key : List ℕ → List ℕ
set_encrypt_key user_key = expand_up (key_state user_key) ck

unfoldable pub set_decrypt_key : List ℕ → List ℕ
set_decrypt_key user_key = expand_down (key_state user_key) ck []

-- One round of `sm4_encrypt`, and the loop over the round keys.
unfoldable pub round : State → ℕ → State
round s rk = shift_in s (bit_xor s.x0 (l32 (s32 (bit_xor (bit_xor (bit_xor s.x1 s.x2) s.x3) rk))))

unfoldable pub rounds : State → List ℕ → State
rounds s [] = s
rounds s (rk ∷ rks) = rounds (round s rk) rks

unfoldable pub load : List ℕ → State
load input = record {
  x0 = getu32 input;
  x1 = getu32 (drop 4 input);
  x2 = getu32 (drop 8 input);
  x3 = getu32 (drop 12 input);
}

-- The words are written in reverse order.
unfoldable pub store : State → List ℕ
store s = putu32 s.x3 ++ (putu32 s.x2 ++ (putu32 s.x1 ++ putu32 s.x0))

-- `sm4_encrypt`, which also decrypts, under the reversed round keys.
unfoldable pub encrypt : List ℕ → List ℕ → List ℕ
encrypt key input = store (rounds (load input) key)
