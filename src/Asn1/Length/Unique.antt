-- ===== src/Asn1/Length/Unique.antt =====
-- An accepted input starts with the one encoding of its length.
use gm_ssl.Base.{ℕ, zero, suc, ◌+◌, ◌*◌, ◌%◌, ◌^◌, ◌≤◌, ◌<◌, arith, ◌≡◌, ◌⊎◌, refl, sym, ap}
use gm_ssl.Base.{◌∙◌, List, [], ◌∷◌, ◌++◌, length, All, IsByte, ltb, ◌==◌, le→ltb}
use gm_ssl.Base.{lt→ltb, Bool-cases, inl, inr, ltb→lt, ltb→le, ◌||◌, ==→eq, ==→ne}
use gm_ssl.Base.{ne→==}
use gm_ssl.Base.Bits.{bit_and_mask}
use gm_ssl.Asn1.Length.{bad, size, length_from_der}
use gm_ssl.Asn1.Length.Canonical.{read_short, read_one, read_two, read_three, read_four, Starts}
use gm_ssl.Asn1.Length.Canonical.{
  length_bytes_short, length_bytes_one, enough-Starts, length_bytes_two, length_bytes_three,
  length_bytes_four,
}

bad_one : (a : ℕ) (r : List ℕ) → a < 128 → length_from_der (0x81 ∷ a ∷ r) ≡ bad
unfolding length_from_der
bad_one a r h = rw (le→ltb (suc (length r)) 1 (omega arith), lt→ltb a 128 h) refl

-- Fewer bytes than the first byte announces.
bad_few : (b : ℕ) (r : List ℕ) → 128 ≤ b → length r < b % 128 → length_from_der (b ∷ r) ≡ bad
unfolding length_from_der
bad_few b r h few =
    rw (le→ltb b 128 h, bit_and_mask 7 b)
      (elim (Bool-cases (ltb (b % 128) 1 || ltb 4 (b % 128))) [
        | inl out ↦ rw out refl
        | inr fine ↦ rw (fine, lt→ltb (length r) (b % 128) few) refl
      ])

-- A zero in front of further bytes.
bad_zero : (b : ℕ) (r : List ℕ) → 128 ≤ b → 1 < b % 128 → length_from_der (b ∷ 0 ∷ r) ≡ bad
unfolding length_from_der
bad_zero b r h many =
    rw (le→ltb b 128 h, bit_and_mask 7 b, ne→== (b % 128) 1 (omega arith), lt→ltb 1 (b % 128) many)
      (elim (Bool-cases (ltb (b % 128) 1 || ltb 4 (b % 128))) [
        | inl out ↦ rw out refl
        | inr fine ↦ rw fine (elim (Bool-cases (ltb (suc (length r)) (b % 128))) [
          | inl few ↦ rw few refl
          | inr enough' ↦ rw enough' refl
        ])
      ])

-- A first byte that announces no bytes, or more than four.
bad_first :
    (b : ℕ) (r : List ℕ) → 128 ≤ b → (b % 128 ≡ 0) ⊎ (4 < b % 128) → length_from_der (b ∷ r) ≡ bad
unfolding length_from_der
bad_first b r h (inl e) =
    rw (le→ltb b 128 h, bit_and_mask 7 b, lt→ltb (b % 128) 1 (omega arith)) refl
bad_first b r h (inr e) =
    rw (le→ltb b 128 h, bit_and_mask 7 b, le→ltb (b % 128) 1 (omega arith), lt→ltb 4 (b % 128) e)
      refl

module _ (len : ℕ) (rest : List ℕ) where
  abbrev Accepts : List ℕ → Type 0
  Accepts input = length_from_der input ≡ size len rest

  refuted : (input : List ℕ) → length_from_der input ≡ bad → Accepts input → Starts input len rest
  refuted input e h = let x : bad ≡ size len rest = sym e ∙ h in cc x

  one : (r : List ℕ) → All IsByte r → Accepts (0x81 ∷ r) → Starts (0x81 ∷ r) len rest
  one [] h e = refuted _ (bad_few 0x81 [] (omega arith) (omega arith)) e
  one (a ∷ r) h e = elim (Bool-cases (ltb a 128)) [
    | inl small ↦ refuted _ (bad_one a r (ltb→lt _ _ small)) e
    | inr big ↦
        enough-Starts (0x81 ∷ a ∷ r) a len r rest (read_one a r h.0 (ltb→le _ _ big))
          (ap (λ t. t ++ r) (length_bytes_one a h.0 (ltb→le _ _ big))) (omega (arith, h.0)) e
  ]

  two : (r : List ℕ) → All IsByte r → Accepts (0x82 ∷ r) → Starts (0x82 ∷ r) len rest
  two [] h e = refuted _ (bad_few 0x82 [] (omega arith) (omega arith)) e
  two (a ∷ []) h e = refuted _ (bad_few 0x82 (a ∷ []) (omega arith) (omega arith)) e
  two (zero ∷ b ∷ r) h e = refuted _ (bad_zero 0x82 (b ∷ r) (omega arith) (omega arith)) e
  two (suc a ∷ b ∷ r) h e =
      enough-Starts (0x82 ∷ suc a ∷ b ∷ r) (suc a * 2 ^ 8 + b) len r rest
        (read_two (suc a) b r h.0 h.1.0 (omega arith))
        (ap (λ t. t ++ r) (length_bytes_two (suc a) b h.0 h.1.0 (omega arith)))
        (omega (arith, h.0, h.1.0)) e

  three : (r : List ℕ) → All IsByte r → Accepts (0x83 ∷ r) → Starts (0x83 ∷ r) len rest
  three [] h e = refuted _ (bad_few 0x83 [] (omega arith) (omega arith)) e
  three (a ∷ []) h e = refuted _ (bad_few 0x83 (a ∷ []) (omega arith) (omega arith)) e
  three (a ∷ b ∷ []) h e = refuted _ (bad_few 0x83 (a ∷ b ∷ []) (omega arith) (omega arith)) e
  three (zero ∷ b ∷ c ∷ r) h e = refuted _ (bad_zero 0x83 (b ∷ c ∷ r) (omega arith) (omega arith)) e
  three (suc a ∷ b ∷ c ∷ r) h e =
      enough-Starts (0x83 ∷ suc a ∷ b ∷ c ∷ r) (suc a * 2 ^ 16 + b * 2 ^ 8 + c) len r rest
        (read_three (suc a) b c r h.0 h.1.0 h.1.1.0 (omega arith))
        (ap (λ t. t ++ r) (length_bytes_three (suc a) b c h.0 h.1.0 h.1.1.0 (omega arith)))
        (omega (arith, h.0, h.1.0, h.1.1.0)) e

  four : (r : List ℕ) → All IsByte r → Accepts (0x84 ∷ r) → Starts (0x84 ∷ r) len rest
  four [] h e = refuted _ (bad_few 0x84 [] (omega arith) (omega arith)) e
  four (a ∷ []) h e = refuted _ (bad_few 0x84 (a ∷ []) (omega arith) (omega arith)) e
  four (a ∷ b ∷ []) h e = refuted _ (bad_few 0x84 (a ∷ b ∷ []) (omega arith) (omega arith)) e
  four (a ∷ b ∷ c ∷ []) h e =
      refuted _ (bad_few 0x84 (a ∷ b ∷ c ∷ []) (omega arith) (omega arith)) e
  four (zero ∷ b ∷ c ∷ d ∷ r) h e =
      refuted _ (bad_zero 0x84 (b ∷ c ∷ d ∷ r) (omega arith) (omega arith)) e
  four (suc a ∷ b ∷ c ∷ d ∷ r) h e =
      enough-Starts (0x84 ∷ suc a ∷ b ∷ c ∷ d ∷ r) (suc a * 2 ^ 24 + b * 2 ^ 16 + c * 2 ^ 8 + d) len
        r rest (read_four (suc a) b c d r h.0 h.1.0 h.1.1.0 h.1.1.1.0 (omega arith))
        (ap (λ t. t ++ r)
          (length_bytes_four (suc a) b c d h.0 h.1.0 h.1.1.0 h.1.1.1.0 (omega arith)))
        (omega (arith, h.0, h.1.0, h.1.1.0, h.1.1.1.0)) e

  long :
      (b : ℕ) (r : List ℕ)
      → IsByte b
      → 128 ≤ b
      → All IsByte r
      → Accepts (b ∷ r)
      → Starts (b ∷ r) len rest
  long b r hb big h e = elim (Bool-cases (b == 0x81)) [
    | inl is ↦ let q : b ≡ 0x81 = ==→eq _ _ is in rw q (one r h (rw q at e))
    | inr no1 ↦ elim (Bool-cases (b == 0x82)) [
      | inl is ↦ let q : b ≡ 0x82 = ==→eq _ _ is in rw q (two r h (rw q at e))
      | inr no2 ↦ elim (Bool-cases (b == 0x83)) [
        | inl is ↦ let q : b ≡ 0x83 = ==→eq _ _ is in rw q (three r h (rw q at e))
        | inr no3 ↦ elim (Bool-cases (b == 0x84)) [
          | inl is ↦ let q : b ≡ 0x84 = ==→eq _ _ is in rw q (four r h (rw q at e))
          | inr no4 ↦
              refuted (b ∷ r)
                (bad_first b r big
                  (omega (arith, ==→ne _ _ no1, ==→ne _ _ no2, ==→ne _ _ no3, ==→ne _ _ no4)))
                e
        ]
      ]
    ]
  ]

  -- If `asn1_length_from_der` accepts bytes with a length, they start with the one DER encoding of
  -- that length, which is below 2 ^ 32; the rest is what follows it and holds at least that many
  -- bytes.
  pub length_from_der-Starts :
      (input : List ℕ) → All IsByte input → Accepts input → Starts input len rest
  length_from_der-Starts [] h e = refuted [] (unfold length_from_der in refl) e
  length_from_der-Starts (b ∷ r) h e = elim (Bool-cases (ltb b 128)) [
    | inl few ↦
        enough-Starts (b ∷ r) b len r rest (read_short b r (ltb→lt _ _ few))
          (ap (λ t. t ++ r) (length_bytes_short b (ltb→lt _ _ few))) (omega (arith, h.0)) e
    | inr many ↦ long b r h.0 (ltb→le _ _ many) h.1 e
  ]
