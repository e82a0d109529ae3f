-- ===== src/Asn1/Length/Laws.antt =====
-- Each length has one encoding: the decoder reads back what the encoder wrote, and accepts
-- nothing else.
use gm_ssl.Base.{ℕ, ◌+◌, ◌-◌, ◌/◌, ◌%◌, ◌^◌, ◌≤◌, ◌<◌, arith, ◌≡◌, refl, ap}
use gm_ssl.Base.{ap₂, ◌∙◌, List, [], ◌∷◌, length, drop, u8}
use gm_ssl.Base.{ltb, if◌then◌else◌, le→ltb, lt→ltb, Bool-cases, inl, inr, ltb→lt, ltb→le}
use gm_ssl.Base.{length-drop}
use gm_ssl.Endian.{putu32}
use gm_ssl.Asn1.Sink.{Sink, count, written, wrote, count-emit, emit-emit}
use gm_ssl.Asn1.Length.{int_max, nbytes_of, length_to_der}

-- The DER encoding of a length, by its standard (X.690, 10.1): the short form below 128, and else
-- the least number of bytes.
unfoldable pub length_bytes : ℕ → List ℕ
length_bytes len =
    if ltb len 128
    then len ∷ []
    else (if ltb len (2 ^ 8)
        then 0x81 ∷ len ∷ []
        else (if ltb len (2 ^ 16)
            then 0x82 ∷ (len / 2 ^ 8) ∷ (len % 2 ^ 8) ∷ []
            else (if ltb len (2 ^ 24)
                then 0x83 ∷ (len / 2 ^ 16) ∷ (len / 2 ^ 8 % 2 ^ 8) ∷ (len % 2 ^ 8) ∷ []
                else 0x84
                  ∷ (len / 2 ^ 24)
                  ∷ (len / 2 ^ 16 % 2 ^ 8)
                  ∷ (len / 2 ^ 8 % 2 ^ 8)
                  ∷ (len % 2 ^ 8)
                  ∷ [])))

-- The four cases of the long form.
module _ (len : ℕ) (big : 128 ≤ len) where
  abbrev long_bytes : List ℕ
  long_bytes = (0x80 + nbytes_of len) ∷ drop (4 - nbytes_of len) (putu32 len)

  long_form : len < 2 ^ 32 → long_bytes ≡ length_bytes len
  unfolding nbytes_of length_bytes putu32
  long_form h = rw (le→ltb len 128 big) (elim (Bool-cases (ltb len 256)) [
    | inl one ↦ rw one (ap (λ a. 0x81 ∷ a ∷ []) (omega (arith, ltb→lt _ _ one)))
    | inr two ↦ rw two (elim (Bool-cases (ltb len 65536)) [
      | inl two' ↦ rw two' (ap₂ (λ a b. 0x82 ∷ a ∷ b ∷ []) (omega (arith, ltb→lt _ _ two')) refl)
      | inr three ↦ rw three (elim (Bool-cases (ltb len (2 ^ 24))) [
        | inl three' ↦ rw three' (
            ap (λ a. 0x83 ∷ a ∷ (len / 2 ^ 8 % 2 ^ 8) ∷ (len % 2 ^ 8) ∷ [])
              (omega (arith, ltb→lt _ _ three')))
        | inr four ↦ rw four (
            ap (λ a. 0x84 ∷ a ∷ (len / 2 ^ 16 % 2 ^ 8) ∷ (len / 2 ^ 8 % 2 ^ 8) ∷ (len % 2 ^ 8) ∷ [])
              (omega arith))
      ])
    ])
  ])

  nbytes_bounds : (1 ≤ nbytes_of len) × (nbytes_of len ≤ 4)
  unfolding nbytes_of
  nbytes_bounds = ground arith

  long_size : 1 + nbytes_of len ≡ length long_bytes
  unfolding putu32
  long_size = omega (arith, length-drop (4 - nbytes_of len) (putu32 len), nbytes_bounds)

-- For every length up to INT_MAX, `asn1_length_to_der` succeeds; with or without a buffer it
-- writes and counts exactly the DER encoding of the length.
pub length_to_der_lem :
    (len : ℕ) (s : Sink)
    → len ≤ int_max
    → length_to_der len s ≡ written (wrote (length_bytes len) s)
unfolding length_to_der
length_to_der_lem len s h = rw (le→ltb int_max len h) (elim (Bool-cases (ltb len 128)) [
  | inl few ↦ rw few (
      ap written
        (count-emit s (u8 len ∷ []) 1 refl ∙ ap (λ b. wrote b s) (short_form (ltb→lt _ _ few))))
  | inr many ↦ rw many (
      ap written (
        ap (count (1 + nbytes_of len))
          (emit-emit s ((0x80 + nbytes_of len) ∷ []) (drop (4 - nbytes_of len) (putu32 len)))
        ∙ count-emit s (long_bytes len (ltb→le _ _ many)) (1 + nbytes_of len)
            (long_size len (ltb→le _ _ many))
        ∙ ap (λ b. wrote b s) (long_form len (ltb→le _ _ many) (omega arith))))
])
  where
    short_form : len < 128 → u8 len ∷ [] ≡ length_bytes len
    short_form h =
        unfold length_bytes in let e : u8 len ≡ len = omega arith in rw (lt→ltb len 128 h, e) refl
