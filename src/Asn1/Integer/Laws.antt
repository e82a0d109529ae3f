-- ===== src/Asn1/Integer/Laws.antt =====
-- The decoder of integers reads back what the encoder wrote, less the leading zeros.
use gm_ssl.Base.{ℕ, zero, suc, ◌+◌, ◌-◌, ◌≤◌, ◌<◌, bit_and, arith, ◌≡◌, refl, ap₂}
use gm_ssl.Base.{List, [], ◌∷◌, ◌++◌, append_assoc, length, get_or, All, IsByte, length-append}
use gm_ssl.Base.{take-append_eq, drop-append_eq, some, Bool, true, false, ◌&&◌}
use gm_ssl.Base.{
  ltb, le→ltb, lt→ltb, ltb→lt, ltb→le, ◌==◌, eq→==, ne→==, if◌then◌else◌, Bool-cases, inl, inr,
  ==→eq, ==→ne,
}
use gm_ssl.Asn1.Sink.{Sink, written, got, wrote, emit-emit}
use gm_ssl.Asn1.Length.{int_max, enough}
use gm_ssl.Asn1.Length.Laws.{length_bytes}
use gm_ssl.Asn1.Length.Canonical.{length_from_der-length_bytes}
use gm_ssl.Asn1.Types.{type_to_der}
use gm_ssl.Endian.Laws.{get_or-IsByte}
use gm_ssl.Asn1.Types.Laws.{tlv, type_to_der_lem}
use gm_ssl.Asn1.Integer.{
  strip, integer_to_der_ex, unpadded, integer_checks, integer_read, integer_from_der_ex,
}

unfoldable pub all_below : ℕ → (ℕ → Bool) → Bool
all_below zero f = true
all_below (suc n) f = f n && all_below n f

pub all_below_at : (n : ℕ) (f : ℕ → Bool) → all_below n f ≡ true → (i : ℕ) → i < n → f i ≡ true
unfolding all_below
all_below_at zero f h i lt = absurd (omega arith)
all_below_at (suc n) f h i lt = elim (Bool-cases (f n)) [
  | inl now ↦ elim (Bool-cases (i == n)) [
    | inl last ↦ rw (==→eq _ _ last) now
    | inr earlier ↦ all_below_at n f (rw now at h) i (omega (arith, ==→ne _ _ earlier))
  ]
  | inr not ↦ absurd (cc (rw not at h))
]

-- The sign bit of a byte.
sign_bit : (b : ℕ) → IsByte b → (bit_and b 0x80 == 0) ≡ ltb b 128
sign_bit b h = agree (bit_and b 0x80 == 0) (ltb b 128) (all_below_at 256 _ checked b h)
  where
    agree : (x y : Bool) → (if x then y else (if y then false else true)) ≡ true → x ≡ y
    agree true true e = refl
    agree true false e = cc e
    agree false true e = cc e
    agree false false e = refl

    checked :
        all_below 256
          (λ b. if bit_and b 0x80 == 0 then ltb b 128 else (if ltb b 128 then false else true))
        ≡ true
    checked = unfold all_below in refl

-- The bytes that an encoding holds: no leading zero but the one that keeps the sign bit clear.
abbrev pub content : List ℕ → List ℕ
content m = if ltb (get_or m 0 0) 128 then m else 0 ∷ m

-- Bytes without a leading zero, but for the number zero.
pub record Stripped (m : List ℕ) : Type 0 where
  pub nonempty : 0 < length m
  pub bytes : All IsByte m
  pub leading : ((get_or m 0 0 == 0) && ltb 1 (length m)) ≡ false

strip-Stripped : (a : List ℕ) → 0 < length a → All IsByte a → Stripped (strip a)
unfolding strip
strip-Stripped [] n h = absurd (omega arith)
strip-Stripped (a ∷ []) n h = record { nonempty = n; bytes = h; leading = ground arith }
strip-Stripped (zero ∷ b ∷ bs) n h = strip-Stripped (b ∷ bs) (omega arith) h.1
strip-Stripped (suc a ∷ b ∷ bs) n h = record { nonempty = n; bytes = h; leading = ground arith }

length-strip : (a : List ℕ) → length (strip a) ≤ length a
unfolding strip
length-strip [] = omega arith
length-strip (a ∷ []) = omega arith
length-strip (zero ∷ b ∷ bs) = omega (arith, length-strip (b ∷ bs))
length-strip (suc a ∷ b ∷ bs) = omega arith

integer_to_der_ex_lem :
    (tag : ℕ) (a : List ℕ) (s : Sink)
    → tag < 256
    → 0 < length a
    → All IsByte a
    → length a < int_max
    → integer_to_der_ex tag (some a) s ≡ written (wrote (tlv tag (content (strip a))) s)
unfolding integer_to_der_ex
integer_to_der_ex_lem tag a s ht n h small =
    rw
      (
        ne→== (length a) 0 (omega arith),
        le→ltb int_max (length a) (omega arith),
        sign_bit (get_or m 0 0) byte,
      )
      (elim (Bool-cases (ltb (get_or m 0 0) 128)) [
        | inl clear ↦
            rw clear
              (unfold type_to_der in type_to_der_lem tag m s ht (omega (arith, length-strip a)))
        | inr set ↦
            rw (set, emit-emit, plus, plus')
              (unfold type_to_der in
                type_to_der_lem tag (0 ∷ m) s ht (omega (arith, length-strip a)))
      ])
  where
    m : List ℕ
    m = strip a

    byte : IsByte (get_or m 0 0)
    byte = get_or-IsByte m 0 (strip-Stripped a n h).bytes

    plus : length m + 1 ≡ suc (length m)
    plus = omega arith

    plus' : 1 + length m ≡ suc (length m)
    plus' = omega arith

checks_plain :
    (x : ℕ) (m rest : List ℕ)
    → Stripped (x ∷ m)
    → x < 128
    → integer_checks (suc (length m)) (x ∷ (m ++ rest)) ≡ got (x ∷ m) rest
unfolding integer_checks unpadded
checks_plain x m rest h small =
    rw (ne→== (suc (length m)) 0 (omega arith), sign_bit x h.bytes.0, lt→ltb x 128 small, h.leading)
      (ap₂ got (take-append_eq (suc (length m)) (x ∷ m) rest refl)
        (drop-append_eq (suc (length m)) (x ∷ m) rest refl))

checks_padded :
    (x : ℕ) (m rest : List ℕ)
    → IsByte x
    → 128 ≤ x
    → integer_checks (suc (suc (length m))) (0 ∷ x ∷ (m ++ rest)) ≡ got (x ∷ m) rest
unfolding integer_checks unpadded
checks_padded x m rest h big =
    let e : suc (suc (length m)) - 1 ≡ suc (length m) = omega arith in
    rw
      (
        ne→== (suc (suc (length m))) 0 (omega arith),
        e,
        sign_bit x h,
        le→ltb x 128 big,
        ne→== x 0 (omega arith),
        lt→ltb 1 (suc (suc (length m))) (omega arith),
      )
      (ap₂ got (take-append_eq (suc (length m)) (x ∷ m) rest refl)
        (drop-append_eq (suc (length m)) (x ∷ m) rest refl))

integer_checks_lem :
    (m rest : List ℕ)
    → Stripped m
    → integer_checks (length (content m)) (content m ++ rest) ≡ got m rest
integer_checks_lem [] rest h = absurd (omega (arith, h.nonempty))
integer_checks_lem (x ∷ m) rest h = elim (Bool-cases (ltb x 128)) [
  | inl small ↦ rw small (checks_plain x m rest h (ltb→lt _ _ small))
  | inr big ↦ rw big (checks_padded x m rest h.bytes.0 (ltb→le _ _ big))
]

-- For every tag of one byte and every number of at least one and less than INT_MAX bytes:
-- `asn1_integer_to_der_ex` succeeds, with or without a buffer, and `asn1_integer_from_der_ex` reads
-- what it writes, in front of any bytes, back as the same bytes without the leading zeros.
pub integer_from_der_ex-integer_to_der_ex :
    (tag : ℕ) (a rest : List ℕ) (s : Sink)
    → tag < 256
    → 0 < length a
    → All IsByte a
    → length a < int_max
    → (c : List ℕ) × (integer_to_der_ex tag (some a) s ≡ written (wrote c s))
      × (integer_from_der_ex tag (c ++ rest) ≡ got (strip a) rest)
unfolding integer_from_der_ex integer_read enough
integer_from_der_ex-integer_to_der_ex tag a rest s ht n h small = (
  tlv tag body,
  integer_to_der_ex_lem tag a s ht n h small,
  rw
      (
        eq→== tag tag refl,
        append_assoc (length_bytes (length body)) body rest,
        length_from_der-length_bytes (length body) (body ++ rest) (omega (arith, few)),
        le→ltb (length (body ++ rest)) (length body) (omega (arith, length-append body rest)),
        integer_read,
      )
      (integer_checks_lem (strip a) rest (strip-Stripped a n h)),
)
  where
    body : List ℕ
    body = content (strip a)

    few : length body ≤ suc (length a)
    few = elim (Bool-cases (ltb (get_or (strip a) 0 0) 128)) [
      | inl clear ↦ rw clear (omega (arith, length-strip a))
      | inr set ↦ rw set (omega (arith, length-strip a))
    ]
