-- ===== src/Sm2/Bytes/Laws.antt =====
-- Bytes and words are inverse to one another, and what the draws of a random number end with.
use Prim.Native.Nat.{compare, Ordering}
use gm_ssl.Base.{
  ℕ, zero, suc, ◌≤◌, ◌<◌, ◌≡◌, ◌⊎◌, inl, inr, leb, leb→le, leb→lt, Bool-cases, refl, sym, ap, ◌∙◌,
  arith,
}
use gm_ssl.Base.{
  List, [], ◌∷◌, ◌++◌, Option, some, drop, IsU64, drop-append_eq, append-nil, drop-drop,
}
use gm_ssl.Endian.{putu64}
use gm_ssl.Base.{length, length-append, get_or}
use gm_ssl.Endian.Long.{getu64-putu64, length-putu64}
use gm_ssl.Sm2.Limbs.{z256_cmp}
use gm_ssl.Sm2.Limbs.Laws.{value, IsWords}
use gm_ssl.Sm2.Limbs.Words.{z256_cmp-compare}
use gm_ssl.Sm2.Bytes.{z256_from_bytes, z256_to_bytes, drawn, rand_loop, z256_rand_range}

four_words :
    (a b c d : ℕ)
    → IsU64 a
    → IsU64 b
    → IsU64 c
    → IsU64 d
    → z256_from_bytes (z256_to_bytes (a ∷ b ∷ c ∷ d ∷ [])) ≡ a ∷ b ∷ c ∷ d ∷ []
unfolding z256_from_bytes z256_to_bytes
four_words a b c d ha hb hc hd =
    let tail = putu64 b ++ putu64 a in
    let low = putu64 a in
    let s1 : drop 8 (putu64 d ++ (putu64 c ++ tail)) ≡ putu64 c ++ tail =
      drop-append_eq 8 (putu64 d) (putu64 c ++ tail) (length-putu64 d) in
    let s2 : drop 16 (putu64 d ++ (putu64 c ++ tail)) ≡ tail =
      sym (drop-drop 8 8 (putu64 d ++ (putu64 c ++ tail)))
      ∙ ap (drop 8) s1
      ∙ drop-append_eq 8 (putu64 c) tail (length-putu64 c) in
    let s3 : drop 24 (putu64 d ++ (putu64 c ++ tail)) ≡ low ++ [] =
      sym (drop-drop 16 8 (putu64 d ++ (putu64 c ++ tail)))
      ∙ ap (drop 8) s2
      ∙ drop-append_eq 8 (putu64 b) low (length-putu64 b)
      ∙ sym (append-nil low) in
    rw
      (
        s1,
        s2,
        s3,
        getu64-putu64 a [] ha,
        getu64-putu64 b low hb,
        getu64-putu64 c tail hc,
        getu64-putu64 d (putu64 c ++ tail) hd,
      )
      refl

-- Four words that are written as 32 bytes are read back.
pub z256_from_bytes-z256_to_bytes :
    (a : List ℕ) → IsWords 4 a → z256_from_bytes (z256_to_bytes a) ≡ a
z256_from_bytes-z256_to_bytes [] h = absurd (omega (arith, h.size))
z256_from_bytes-z256_to_bytes (a ∷ []) h = absurd (omega (arith, h.size))
z256_from_bytes-z256_to_bytes (a ∷ b ∷ []) h = absurd (omega (arith, h.size))
z256_from_bytes-z256_to_bytes (a ∷ b ∷ c ∷ []) h = absurd (omega (arith, h.size))
z256_from_bytes-z256_to_bytes (a ∷ b ∷ c ∷ d ∷ []) h =
    let w = h.words in four_words a b c d w.0 w.1.0 w.1.1.0 w.1.1.1.0
z256_from_bytes-z256_to_bytes (a ∷ b ∷ c ∷ d ∷ e ∷ rest) h = absurd (omega (arith, h.size))

pub length-z256_to_bytes : (a : List ℕ) → length (z256_to_bytes a) ≡ 32
unfolding z256_to_bytes
length-z256_to_bytes a =
    let d = putu64 (get_or a 3 0) in
    let c = putu64 (get_or a 2 0) in
    let b = putu64 (get_or a 1 0) in
    let low = putu64 (get_or a 0 0) in
    omega (
      arith,
      length-append d (c ++ (b ++ low)),
      length-append c (b ++ low),
      length-append b low,
      length-putu64 (get_or a 3 0),
      length-putu64 (get_or a 2 0),
      length-putu64 (get_or a 1 0),
      length-putu64 (get_or a 0 0),
    )

-- What a generator delivers at a call: a number at or above the bound, or one below it.
pub record Rejected (range : List ℕ) (outcome : Option (List ℕ)) : Type 0 where
  pub number : List ℕ
  pub delivered : outcome ≡ some number
  pub words : IsWords 4 number
  pub large : value range ≤ value number

-- One round of the loop.
module _ (tries : ℕ) (random : ℕ → Option (List ℕ)) (range r : List ℕ) where
  round_drawn :
      random 0 ≡ some r
      → z256_cmp r range ≡ Ordering.lt
      → rand_loop (suc tries) random range ≡ drawn r
  unfolding rand_loop
  round_drawn e c = rw (e, c, rand_loop) refl

  round_eq :
      random 0 ≡ some r
      → z256_cmp r range ≡ Ordering.eq
      → rand_loop (suc tries) random range ≡ rand_loop tries (λ i. random (suc i)) range
  unfolding rand_loop
  round_eq e c = rw (e, c, rand_loop) refl

  round_gt :
      random 0 ≡ some r
      → z256_cmp r range ≡ Ordering.gt
      → rand_loop (suc tries) random range ≡ rand_loop tries (λ i. random (suc i)) range
  unfolding rand_loop
  round_gt e c = rw (e, c, rand_loop) refl

not_less : (a b : ℕ) → b ≤ a → (compare a b ≡ Ordering.eq) ⊎ (compare a b ≡ Ordering.gt)
not_less a b h = elim (Bool-cases (leb a b)) [
  | inl k ↦
      let le : a ≤ b = leb→le a b k in
      let same : compare a b ≡ Ordering.eq = ground arith in inl same
  | inr k ↦
      let lt : b < a = leb→lt a b k in
      let more : compare a b ≡ Ordering.gt = ground arith in inr more
]

rand_loop-Rejected :
    (tries : ℕ) (random : ℕ → Option (List ℕ)) (range : List ℕ)
    → IsWords 4 range
    → Rejected range (random 0)
    → rand_loop (suc tries) random range ≡ rand_loop tries (λ i. random (suc i)) range
rand_loop-Rejected tries random range hr h =
    let c = z256_cmp-compare h.number range h.words hr in
    elim (not_less (value h.number) (value range) h.large) [
      | inl e ↦ round_eq tries random range h.number h.delivered (c ∙ e)
      | inr e ↦ round_gt tries random range h.number h.delivered (c ∙ e)
    ]

-- The first number below the bound is drawn, if fewer rejected ones than `tries` come before it.
rand_loop-drawn :
    (n tries : ℕ) (random : ℕ → Option (List ℕ)) (range r : List ℕ)
    → n < tries
    → IsWords 4 range
    → ((i : ℕ) → i < n → Rejected range (random i))
    → random n ≡ some r
    → IsWords 4 r
    → value r < value range
    → rand_loop tries random range ≡ drawn r
rand_loop-drawn n zero random range r h hr before e hw lt = absurd (omega arith)
rand_loop-drawn zero (suc tries) random range r h hr before e hw lt =
    let less : compare (value r) (value range) ≡ Ordering.lt = ground arith in
    round_drawn tries random range r e (z256_cmp-compare r range hw hr ∙ less)
rand_loop-drawn (suc n) (suc tries) random range r h hr before e hw lt =
    rand_loop-Rejected tries random range hr (before 0 (omega arith))
    ∙ rand_loop-drawn n tries (λ i. random (suc i)) range r (omega arith) hr
        (λ i k. before (suc i) (omega arith)) e hw lt

-- A draw succeeds as soon as one of the first 100 calls delivers a number below the bound and those
-- before it delivered numbers too large: the result is that number.
pub z256_rand_range-drawn :
    (n : ℕ) (random : ℕ → Option (List ℕ)) (range r : List ℕ)
    → n < 100
    → IsWords 4 range
    → ((i : ℕ) → i < n → Rejected range (random i))
    → random n ≡ some r
    → IsWords 4 r
    → value r < value range
    → z256_rand_range random range ≡ drawn r
unfolding z256_rand_range
z256_rand_range-drawn n random range r h hr before e hw lt =
    rand_loop-drawn n 100 random range r h hr before e hw lt
