-- ===== src/Asn1/Small/Bytes.antt =====
-- The bytes that `asn1_int_to_der_ex` writes are the least number of big-endian bytes.
use gm_ssl.Base.{ℕ, zero, suc, ◌+◌, ◌-◌, ◌/◌, ◌%◌, ◌^◌, ◌≤◌, ◌<◌}
use gm_ssl.Base.{arith, ◌≡◌, refl, ap, ap₂, ◌∙◌, List, [], ◌∷◌, replicate}
use gm_ssl.Base.{
  if◌then◌else◌, ltb, ◌==◌, eq→==, ne→==, Bool-cases, inl, inr, ltb→lt, ltb→le, ==→eq, ==→ne,
}
use gm_ssl.Base.Bits.{bit_and_mask}
use gm_ssl.Mem.{write}
use gm_ssl.Asn1.Small.{int_loop, int_bytes}

-- The least number of big-endian bytes.
abbrev pub minimal : ℕ → List ℕ
minimal a =
    if ltb a (2 ^ 8)
    then a ∷ []
    else (if ltb a (2 ^ 16)
        then a / 2 ^ 8 ∷ a % 2 ^ 8 ∷ []
        else (if ltb a (2 ^ 24)
            then a / 2 ^ 16 ∷ a / 2 ^ 8 % 2 ^ 8 ∷ a % 2 ^ 8 ∷ []
            else a / 2 ^ 24 ∷ a / 2 ^ 16 % 2 ^ 8 ∷ a / 2 ^ 8 % 2 ^ 8 ∷ a % 2 ^ 8 ∷ []))

loop_more :
    (n a len : ℕ) (buf : List ℕ)
    → 0 < a
    → int_loop (suc n) a len buf
      ≡ int_loop n (a / 256) (len + 1) (write buf (3 - len) (a % 256 ∷ []))
unfolding int_loop
loop_more n a len buf h = rw (ne→== a 0 (omega arith), bit_and_mask 8 a) refl

loop_stop : (n a len : ℕ) (buf : List ℕ) → a ≡ 0 → int_loop n a len buf ≡ (len, buf)
unfolding int_loop
loop_stop zero a len buf h = refl
loop_stop (suc n) a len buf h = rw (eq→== a 0 h) refl

-- The buffer after each round.
module _ (a : ℕ) where
  abbrev buf1 : List ℕ
  buf1 = 0 ∷ 0 ∷ 0 ∷ a % 256 ∷ []

  abbrev buf2 : List ℕ
  buf2 = 0 ∷ 0 ∷ a / 256 % 256 ∷ a % 256 ∷ []

  abbrev buf3 : List ℕ
  buf3 = 0 ∷ a / 256 / 256 % 256 ∷ a / 256 % 256 ∷ a % 256 ∷ []

  abbrev buf4 : List ℕ
  buf4 = a / 256 / 256 / 256 % 256 ∷ a / 256 / 256 % 256 ∷ a / 256 % 256 ∷ a % 256 ∷ []

  first_round : 0 < a → int_loop 4 a 0 (replicate 4 0) ≡ int_loop 3 (a / 256) 1 buf1
  unfolding write
  first_round h = loop_more 3 a 0 (replicate 4 0) h

  two_rounds : 2 ^ 8 ≤ a → int_loop 4 a 0 (replicate 4 0) ≡ int_loop 2 (a / 256 / 256) 2 buf2
  unfolding write
  two_rounds h = first_round (omega arith) ∙ loop_more 2 (a / 256) 1 buf1 (omega arith)

  three_rounds :
      2 ^ 16 ≤ a → int_loop 4 a 0 (replicate 4 0) ≡ int_loop 1 (a / 256 / 256 / 256) 3 buf3
  unfolding write
  three_rounds h = two_rounds (omega arith) ∙ loop_more 1 (a / 256 / 256) 2 buf2 (omega arith)

  four_rounds : 2 ^ 24 ≤ a → a < 2 ^ 31 → int_loop 4 a 0 (replicate 4 0) ≡ (4, buf4)
  unfolding write
  four_rounds h k =
      three_rounds (omega arith)
      ∙ loop_more 0 (a / 256 / 256 / 256) 3 buf3 (omega arith)
      ∙ loop_stop 0 (a / 256 / 256 / 256 / 256) 4 buf4 (omega arith)

pub int_bytes_lem : (a : ℕ) → a < 2 ^ 31 → int_bytes (int_loop 4 a 0 (replicate 4 0)) ≡ minimal a
unfolding int_bytes
int_bytes_lem a h = elim (Bool-cases (ltb a (2 ^ 8))) [
  | inl one ↦ rw one (elim (Bool-cases (a == 0)) [
    | inl z ↦ rw (==→eq _ _ z, loop_stop 4 0 0 (replicate 4 0) refl) refl
    | inr p ↦
        ap int_bytes (
          first_round a (omega (arith, ==→ne _ _ p))
          ∙ loop_stop 3 (a / 256) 1 (buf1 a) (omega (arith, ltb→lt _ _ one)))
        ∙ ap (λ x. x ∷ []) (omega (arith, ltb→lt _ _ one))
  ])
  | inr two ↦ rw two (elim (Bool-cases (ltb a (2 ^ 16))) [
    | inl few ↦ rw few (
        ap int_bytes (
          two_rounds a (omega (arith, ltb→le _ _ two))
          ∙ loop_stop 2 (a / 256 / 256) 2 (buf2 a) (omega (arith, ltb→lt _ _ few)))
        ∙ ap (λ x. x ∷ a % 256 ∷ []) (omega (arith, ltb→lt _ _ few)))
    | inr three ↦ rw three (elim (Bool-cases (ltb a (2 ^ 24))) [
      | inl few ↦ rw few (
          ap int_bytes (
            three_rounds a (omega (arith, ltb→le _ _ three))
            ∙ loop_stop 1 (a / 256 / 256 / 256) 3 (buf3 a) (omega (arith, ltb→lt _ _ few)))
          ∙ ap (λ x. x ∷ a / 256 % 256 ∷ a % 256 ∷ []) (omega (arith, ltb→lt _ _ few)))
      | inr many ↦ rw many (
          ap int_bytes (four_rounds a (omega (arith, ltb→le _ _ many)) h)
          ∙ ap₂ (λ x y. x ∷ y ∷ a / 256 % 256 ∷ a % 256 ∷ []) (omega arith) (omega arith))
    ])
  ])
]
