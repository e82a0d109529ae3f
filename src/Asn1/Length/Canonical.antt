-- ===== src/Asn1/Length/Canonical.antt =====
-- The decoder of lengths reads back what the encoder wrote, and accepts no other bytes.
use gm_ssl.Base.{ℕ, suc, ◌+◌, ◌*◌, ◌/◌, ◌%◌, ◌^◌, ◌≤◌, ◌<◌, arith, ◌≡◌, ◌≢◌, refl, sym, ap}
use gm_ssl.Base.{ap₂, ◌∙◌, List, [], ◌∷◌, ◌++◌, length, IsByte, ltb, le→ltb}
use gm_ssl.Base.{lt→ltb, Bool-cases, inl, inr, ltb→lt, ltb→le, ne→==}
use gm_ssl.Endian.Laws.{getu32_sum}
use gm_ssl.Mem.{write}
use gm_ssl.Asn1.Length.{size, enough, length_from_der}
use gm_ssl.Asn1.Length.Laws.{length_bytes}

pub read_short : (b : ℕ) (rest : List ℕ) → b < 128 → length_from_der (b ∷ rest) ≡ enough b rest
unfolding length_from_der
read_short b rest h = rw (lt→ltb b 128 h) refl

-- The long forms, where the first byte is not a zero (or a small length).
pub read_one :
    (a : ℕ) (rest : List ℕ) → IsByte a → 128 ≤ a → length_from_der (0x81 ∷ a ∷ rest) ≡ enough a rest
unfolding length_from_der write
read_one a rest ha h =
    rw
      (
        le→ltb (suc (length rest)) 1 (omega arith),
        le→ltb a 128 h,
        getu32_sum 0 0 0 a [] (omega arith) (omega arith) (omega arith) ha,
      )
      (ap (λ n. enough n rest) (omega arith))

pub read_two :
    (a b : ℕ) (rest : List ℕ)
    → IsByte a
    → IsByte b
    → a ≢ 0
    → length_from_der (0x82 ∷ a ∷ b ∷ rest) ≡ enough (a * 2 ^ 8 + b) rest
unfolding length_from_der write
read_two a b rest ha hb h =
    rw
      (
        le→ltb (suc (suc (length rest))) 2 (omega arith),
        ne→== a 0 h,
        getu32_sum 0 0 a b [] (omega arith) (omega arith) ha hb,
      )
      (ap (λ n. enough n rest) (omega arith))

pub read_three :
    (a b c : ℕ) (rest : List ℕ)
    → IsByte a
    → IsByte b
    → IsByte c
    → a ≢ 0
    → length_from_der (0x83 ∷ a ∷ b ∷ c ∷ rest) ≡ enough (a * 2 ^ 16 + b * 2 ^ 8 + c) rest
unfolding length_from_der write
read_three a b c rest ha hb hc h =
    rw
      (
        le→ltb (suc (suc (suc (length rest)))) 3 (omega arith),
        ne→== a 0 h,
        getu32_sum 0 a b c [] (omega arith) ha hb hc,
      )
      (ap (λ n. enough n rest) (omega arith))

pub read_four :
    (a b c d : ℕ) (rest : List ℕ)
    → IsByte a
    → IsByte b
    → IsByte c
    → IsByte d
    → a ≢ 0
    → length_from_der (0x84 ∷ a ∷ b ∷ c ∷ d ∷ rest)
      ≡ enough (a * 2 ^ 24 + b * 2 ^ 16 + c * 2 ^ 8 + d) rest
unfolding length_from_der write
read_four a b c d rest ha hb hc hd h =
    rw
      (
        le→ltb (suc (suc (suc (suc (length rest))))) 4 (omega arith),
        ne→== a 0 h,
        getu32_sum a b c d [] ha hb hc hd,
      )
      refl

-- `asn1_length_from_der` reads the DER encoding of every length below 2 ^ 32 as that length, and
-- leaves what follows it; the one thing left to refuse is that fewer bytes follow than it says.
pub length_from_der-length_bytes :
    (len : ℕ) (rest : List ℕ)
    → len < 2 ^ 32
    → length_from_der (length_bytes len ++ rest) ≡ enough len rest
unfolding length_bytes
length_from_der-length_bytes len rest h = elim (Bool-cases (ltb len 128)) [
  | inl few ↦ rw few (read_short len rest (ltb→lt _ _ few))
  | inr many ↦ rw many (elim (Bool-cases (ltb len (2 ^ 8))) [
    | inl one ↦ rw one (read_one len rest (ltb→lt _ _ one) (ltb→le _ _ many))
    | inr two ↦ rw two (elim (Bool-cases (ltb len (2 ^ 16))) [
      | inl two' ↦ rw two' (
          read_two (len / 2 ^ 8) (len % 2 ^ 8) rest (omega (arith, ltb→lt _ _ two')) (omega arith)
            (omega (arith, ltb→le _ _ two))
          ∙ ap (λ n. enough n rest) (omega arith))
      | inr three ↦ rw three (elim (Bool-cases (ltb len (2 ^ 24))) [
        | inl three' ↦ rw three' (
            read_three (len / 2 ^ 16) (len / 2 ^ 8 % 2 ^ 8) (len % 2 ^ 8) rest
              (omega (arith, ltb→lt _ _ three')) (omega arith) (omega arith)
              (omega (arith, ltb→le _ _ three))
            ∙ ap (λ n. enough n rest) (omega arith))
        | inr four ↦ rw four (
            read_four (len / 2 ^ 24) (len / 2 ^ 16 % 2 ^ 8) (len / 2 ^ 8 % 2 ^ 8) (len % 2 ^ 8) rest
              (omega arith) (omega arith) (omega arith) (omega arith)
              (omega (arith, ltb→le _ _ four))
            ∙ ap (λ n. enough n rest) (omega arith))
      ])
    ])
  ])
]

enough-size :
    (v len : ℕ) (r rest : List ℕ)
    → enough v r ≡ size len rest
    → (v ≡ len) × (r ≡ rest) × (v ≤ length r)
unfolding enough
enough-size v len r rest h = ground arith

-- What an accepted input starts with.
abbrev pub Starts : List ℕ → ℕ → List ℕ → Type 0
Starts input len rest = (input ≡ length_bytes len ++ rest) × (len < 2 ^ 32) × (len ≤ length rest)

pub enough-Starts :
    (input : List ℕ) (v len : ℕ) (r rest : List ℕ)
    → length_from_der input ≡ enough v r
    → input ≡ length_bytes v ++ r
    → v < 2 ^ 32
    → length_from_der input ≡ size len rest
    → Starts input len rest
enough-Starts input v len r rest e same small h =
    let (p, q, n) = enough-size v len r rest (sym e ∙ h) in
    (same ∙ ap₂ (λ a b. length_bytes a ++ b) p q, omega arith, omega (arith, ap length q))

pub length_bytes_short : (b : ℕ) → b < 128 → b ∷ [] ≡ length_bytes b
unfolding length_bytes
length_bytes_short b h = ground arith

pub length_bytes_one : (a : ℕ) → IsByte a → 128 ≤ a → 0x81 ∷ a ∷ [] ≡ length_bytes a
unfolding length_bytes
length_bytes_one a ha h = ground arith

pub length_bytes_two :
    (a b : ℕ) → IsByte a → IsByte b → a ≢ 0 → 0x82 ∷ a ∷ b ∷ [] ≡ length_bytes (a * 2 ^ 8 + b)
unfolding length_bytes
length_bytes_two a b ha hb h = ground arith

pub length_bytes_three :
    (a b c : ℕ)
    → IsByte a
    → IsByte b
    → IsByte c
    → a ≢ 0
    → 0x83 ∷ a ∷ b ∷ c ∷ [] ≡ length_bytes (a * 2 ^ 16 + b * 2 ^ 8 + c)
unfolding length_bytes
length_bytes_three a b c ha hb hc h = ground arith

pub length_bytes_four :
    (a b c d : ℕ)
    → IsByte a
    → IsByte b
    → IsByte c
    → IsByte d
    → a ≢ 0
    → 0x84 ∷ a ∷ b ∷ c ∷ d ∷ [] ≡ length_bytes (a * 2 ^ 24 + b * 2 ^ 16 + c * 2 ^ 8 + d)
unfolding length_bytes
length_bytes_four a b c d ha hb hc hd h = ground arith
