-- ===== src/Asn1/Small/Laws.antt =====
-- Values of type `int` are read back.
use gm_ssl.Base.{ℕ, zero, suc, ◌+◌, ◌*◌, ◌/◌, ◌%◌, ◌^◌, ◌≤◌, ◌<◌, ◌≢◌, u8, u32, ◌<<<◌, bit_or}
use gm_ssl.Base.{arith, ◌≡◌, refl, ap, ◌∙◌, List, [], ◌∷◌, ◌++◌, length, All, IsByte}
use gm_ssl.Base.{
  if◌then◌else◌, ltb, le→ltb, lt→ltb, ◌==◌, eq→==, Bool-cases, inl, inr, ltb→lt, ltb→le,
}
use gm_ssl.Base.Bits.{bit_or_fields}
use gm_ssl.Asn1.Sink.{Sink, written, got, wrote}
use gm_ssl.Asn1.Integer.{strip}
use gm_ssl.Asn1.Integer.Laws.{integer_from_der_ex-integer_to_der_ex}
use gm_ssl.Asn1.Small.{pos, only_written, int_to_der_ex, int_value, int_of}
use gm_ssl.Asn1.Small.{int_from_der_ex, boolean_to_der_ex, boolean_from_der_ex, null_to_der}
use gm_ssl.Asn1.Small.{null_from_der}
use gm_ssl.Asn1.Sink.{count-emit}
use gm_ssl.Asn1.Small.Bytes.{minimal, int_bytes_lem}

module _ (P : List ℕ → Type 0) (a : ℕ) (one : a < 2 ^ 8 → P (a ∷ []))
    (two : 2 ^ 8 ≤ a → a < 2 ^ 16 → P (a / 2 ^ 8 ∷ a % 2 ^ 8 ∷ []))
    (three : 2 ^ 16 ≤ a → a < 2 ^ 24 → P (a / 2 ^ 16 ∷ a / 2 ^ 8 % 2 ^ 8 ∷ a % 2 ^ 8 ∷ []))
    (four : 2 ^ 24 ≤ a
      → P (a / 2 ^ 24 ∷ a / 2 ^ 16 % 2 ^ 8 ∷ a / 2 ^ 8 % 2 ^ 8 ∷ a % 2 ^ 8 ∷ [])) where
  -- What holds for each number of bytes.
  minimal-cases : P (minimal a)
  minimal-cases = elim (Bool-cases (ltb a (2 ^ 8))) [
    | inl h ↦ rw h (one (ltb→lt _ _ h))
    | inr h ↦ rw h (elim (Bool-cases (ltb a (2 ^ 16))) [
      | inl k ↦ rw k (two (ltb→le _ _ h) (ltb→lt _ _ k))
      | inr k ↦ rw k (elim (Bool-cases (ltb a (2 ^ 24))) [
        | inl l ↦ rw l (three (ltb→le _ _ k) (ltb→lt _ _ l))
        | inr l ↦ rw l (four (ltb→le _ _ l))
      ])
    ])
  ]

strip_nonzero : (x : ℕ) (bs : List ℕ) → x ≢ 0 → strip (x ∷ bs) ≡ x ∷ bs
unfolding strip
strip_nonzero x [] h = refl
strip_nonzero zero (b ∷ bs) h = absurd (h refl)
strip_nonzero (suc x) (b ∷ bs) h = refl

-- Nothing is stripped from the minimal bytes.
strip-minimal : (a : ℕ) → strip (minimal a) ≡ minimal a
strip-minimal a =
    minimal-cases (λ d. strip d ≡ d) a (λ _. unfold strip in refl)
      (λ h k. strip_nonzero (a / 2 ^ 8) _ (omega arith))
      (λ h k. strip_nonzero (a / 2 ^ 16) _ (omega arith))
      (λ h. strip_nonzero (a / 2 ^ 24) _ (omega arith))

-- What the bytes are: one to four of them.
record AreFew (d : List ℕ) : Type 0 where
  some_byte : 0 < length d
  at_most_four : length d ≤ 4
  bytes : All IsByte d

minimal-AreFew : (a : ℕ) → a < 2 ^ 31 → AreFew (minimal a)
minimal-AreFew a h =
    minimal-cases AreFew a
      (λ k. record { some_byte = omega arith; at_most_four = omega arith; bytes = omega arith })
      (λ j k. record { some_byte = omega arith; at_most_four = omega arith; bytes = omega arith })
      (λ j k. record { some_byte = omega arith; at_most_four = omega arith; bytes = omega arith })
      (λ k. record { some_byte = omega arith; at_most_four = omega arith; bytes = omega arith })

value_byte :
    (a b : ℕ) (bs : List ℕ)
    → a < 2 ^ 24
    → b < 256
    → int_value a (b ∷ bs) ≡ int_value (a * 256 + b) bs
unfolding int_value
value_byte a b bs h k =
    let e : u32 (a <<< 8) ≡ a * 2 ^ 8 = omega arith in
    ap (λ t. int_value t bs) (ap (λ t. bit_or t b) e ∙ bit_or_fields 8 a b (omega arith))

value_nil : (a b : ℕ) → a ≡ b → int_value a [] ≡ b
unfolding int_value
value_nil a b e = e

int_value-minimal : (a : ℕ) → a < 2 ^ 31 → int_value 0 (minimal a) ≡ a
int_value-minimal a h =
    minimal-cases (λ d. int_value 0 d ≡ a) a
      (λ k. value_byte 0 a _ (omega arith) (omega arith) ∙ value_nil _ a (omega arith))
      (λ k l.
        value_byte 0 (a / 2 ^ 8) _ (omega arith) (omega arith)
        ∙ value_byte (0 * 256 + a / 2 ^ 8) (a % 2 ^ 8) [] (omega arith) (omega arith)
        ∙ value_nil _ a (omega arith))
      (λ k l.
        value_byte 0 (a / 2 ^ 16) _ (omega arith) (omega arith)
        ∙ value_byte (0 * 256 + a / 2 ^ 16) (a / 2 ^ 8 % 2 ^ 8) _ (omega arith) (omega arith)
        ∙ value_byte _ (a % 2 ^ 8) [] (omega arith) (omega arith)
        ∙ value_nil _ a (omega arith))
      (λ k.
        value_byte 0 (a / 2 ^ 24) _ (omega arith) (omega arith)
        ∙ value_byte (0 * 256 + a / 2 ^ 24) (a / 2 ^ 16 % 2 ^ 8) _ (omega arith) (omega arith)
        ∙ value_byte _ (a / 2 ^ 8 % 2 ^ 8) _ (omega arith) (omega arith)
        ∙ value_byte _ (a % 2 ^ 8) [] (omega arith) (omega arith)
        ∙ value_nil _ a (omega arith))

int_of_got : (a : ℕ) (rest : List ℕ) → a < 2 ^ 31 → int_of (got (minimal a) rest) ≡ got a rest
unfolding int_of
int_of_got a rest h =
    rw
      (
        le→ltb 4 (length (minimal a)) (minimal-AreFew a h).at_most_four,
        int_value-minimal a h,
        lt→ltb a (2 ^ 31) h,
      )
      refl

-- For every tag of one byte and every `int` that is not negative: `asn1_int_to_der_ex` succeeds, with
-- or without a buffer, and `asn1_int_from_der_ex` reads what it writes, in front of any bytes, back as
-- that value and leaves those bytes.
pub int_from_der_ex-int_to_der_ex :
    (tag a : ℕ) (rest : List ℕ) (s : Sink)
    → tag < 256
    → a < 2 ^ 31
    → (c : List ℕ) × (int_to_der_ex tag (pos a) s ≡ written (wrote c s))
      × (int_from_der_ex tag (c ++ rest) ≡ got a rest)
unfolding int_to_der_ex int_from_der_ex only_written
int_from_der_ex-int_to_der_ex tag a rest s ht h =
    let few = minimal-AreFew a h in
    let (c, to, from) =
      integer_from_der_ex-integer_to_der_ex tag (minimal a) rest s ht few.some_byte few.bytes
        (omega (arith, few.at_most_four)) in
    (
      c,
      rw (int_bytes_lem a h, to) refl,
      rw from (ap (λ t. int_of (got t rest)) (strip-minimal a) ∙ int_of_got a rest h),
    )

-- For every tag of one byte and every value that is not negative: `asn1_boolean_to_der_ex` writes
-- three bytes, with or without a buffer, and `asn1_boolean_from_der_ex` reads them, in front of any
-- bytes, back as 0 for 0 and as 1 for every other value.
boolean_from_der_ex-boolean_to_der_ex :
    (tag val : ℕ) (rest : List ℕ) (s : Sink)
    → tag < 256
    → (c : List ℕ) × (boolean_to_der_ex tag (pos val) s ≡ written (wrote c s))
      × (boolean_from_der_ex tag (c ++ rest) ≡ got (if val == 0 then 0 else 1) rest)
unfolding boolean_to_der_ex boolean_from_der_ex
boolean_from_der_ex-boolean_to_der_ex tag val rest s ht =
    let e : u8 tag ≡ tag = omega arith in
    let value : ℕ = if val == 0 then 0x00 else 0xff in
    (
      tag ∷ 0x01 ∷ value ∷ [],
      rw e (ap written (count-emit s (tag ∷ 0x01 ∷ value ∷ []) 3 refl)),
      rw (eq→== tag tag refl, le→ltb (suc (suc (length rest))) 2 (omega arith))
          (elim (Bool-cases (val == 0)) [ inl z ↦ rw z refl | inr p ↦ rw p refl ]),
    )

-- The value null is read back, in front of any bytes.
null_from_der-null_to_der :
    (rest : List ℕ) (s : Sink)
    → (c : List ℕ) × (null_to_der s ≡ written (wrote c s))
      × (null_from_der (c ++ rest) ≡ got tt rest)
unfolding null_to_der null_from_der
null_from_der-null_to_der rest s =
    (0x05 ∷ 0x00 ∷ [], ap written (count-emit s (0x05 ∷ 0x00 ∷ []) 2 refl), refl)
