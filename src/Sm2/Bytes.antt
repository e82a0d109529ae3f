-- ===== src/Sm2/Bytes.antt =====
-- `sm2_z256_from_bytes`, `sm2_z256_to_bytes` and `sm2_z256_rand_range` of src/sm2_z256.c.
pub mod Laws
use Prim.Native.Nat.{Ordering}
use gm_ssl.Base.{ℕ, zero, suc, ◌+◌, List, [], ◌∷◌, ◌++◌, Option, none, some, drop, get_or}
use gm_ssl.Endian.{getu64, putu64}
use gm_ssl.Sm2.Limbs.{z256_cmp}

unfoldable pub z256_from_bytes : List ℕ → List ℕ
z256_from_bytes input =
    getu64 (drop 24 input) ∷ getu64 (drop 16 input) ∷ getu64 (drop 8 input) ∷ getu64 input ∷ []

unfoldable pub z256_to_bytes : List ℕ → List ℕ
z256_to_bytes a =
    putu64 (get_or a 3 0)
    ++ (putu64 (get_or a 2 0) ++ (putu64 (get_or a 1 0) ++ putu64 (get_or a 0 0)))

-- The results 1, 0 and -1.
pub data Drawn : Type 0 where
  drawn : List ℕ → Drawn
  exhausted : Drawn
  failed : Drawn

-- `random i` is what the call of rand_bytes after `i` others leaves in `r`, `none` where it fails.
-- The first argument is `tries`.
unfoldable pub rand_loop : ℕ → (ℕ → Option (List ℕ)) → List ℕ → Drawn
rand_loop zero random range = exhausted
rand_loop (suc tries) random range = elim (random 0) [
  | none ↦ failed
  | some r ↦ elim (z256_cmp r range) [
    | Ordering.lt ↦ drawn r
    | Ordering.eq ↦ rand_loop tries (λ i. random (suc i)) range
    | Ordering.gt ↦ rand_loop tries (λ i. random (suc i)) range
  ]
]

unfoldable pub z256_rand_range : (ℕ → Option (List ℕ)) → List ℕ → Drawn
z256_rand_range random range = rand_loop 100 random range
