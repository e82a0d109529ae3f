-- ===== src/Asn1/Oid/Node.antt =====
-- A node of 32 bits is read back from its base-128 digits.
use gm_ssl.Base.{ℕ, zero, suc, ◌+◌, ◌*◌, ◌/◌, ◌%◌, ◌^◌, ◌≤◌, ◌<◌, bit_and, bit_or, u32, ◌<<<◌}
use gm_ssl.Base.{arith, ◌≡◌, refl, ap, ◌∙◌, List, [], ◌∷◌, ◌++◌, length}
use gm_ssl.Base.{true, false, append_assoc}
use gm_ssl.Asn1.Integer.Laws.{all_below, all_below_at}
use gm_ssl.Base.{some, ◌==◌, eq→==, ne→==, ltb, Bool-cases, inl, inr, ltb→lt, ltb→le, if◌then◌else◌}
use gm_ssl.Base.Bits.{bit_and_mask, bit_and_bit, bit_or_fields}
use gm_ssl.Asn1.Oid.{base128_loop, node_bytes, digits_loop, node_value, node_of, node_from_base128}

-- A digit that others follow, and its tests.
abbrev pub digit : ℕ → ℕ
digit a = 128 + a % 128

digit_lem : (a : ℕ) → bit_or 0x80 (bit_and a 0x7f) ≡ digit a
digit_lem a = ap (λ t. bit_or 0x80 t) (bit_and_mask 7 a) ∙ bit_or_fields 7 1 (a % 128) (omega arith)

low_lem : (a : ℕ) → bit_and a 0x7f ≡ a % 128
low_lem a = bit_and_mask 7 a

digit_follows : (a : ℕ) → (bit_and (digit a) 0x80 == 0) ≡ false
digit_follows a = ne→== _ 0 (omega (arith, bit_and_bit 7 (digit a)))

low_ends : (a : ℕ) → (bit_and (a % 128) 0x80 == 0) ≡ true
low_ends a = eq→== _ 0 (omega (arith, bit_and_bit 7 (a % 128)))

-- The digits in front of the last one, with the most significant first.
abbrev encoded : List ℕ → ℕ → List ℕ
encoded [] low = (low % 128) ∷ []
encoded (a ∷ as') low = digit a ∷ encoded as' low

digits_loop_lem :
    (n : ℕ) (buf as' : List ℕ) (low : ℕ) (rest : List ℕ)
    → length as' < n
    → digits_loop n buf (encoded as' low ++ rest) ≡ some (buf ++ encoded as' low, rest)
unfolding digits_loop
digits_loop_lem zero buf as' low rest h = absurd (omega arith)
digits_loop_lem (suc n) buf [] low rest h = rw (low_ends low) refl
digits_loop_lem (suc n) buf (a ∷ as') low rest h = rw (digit_follows a) (
    digits_loop_lem n (buf ++ (digit a ∷ [])) as' low rest (omega arith)
    ∙ ap (λ t. some (t, rest)) (append_assoc buf (digit a ∷ []) (encoded as' low)))

-- The rounds of the writing loop.
loop_more :
    (n a : ℕ) (as' : List ℕ) (low : ℕ)
    → 0 < a
    → base128_loop (suc n) a (encoded as' low) ≡ base128_loop n (a / 128) (encoded (a ∷ as') low)
unfolding base128_loop
loop_more n a as' low h = rw (ne→== a 0 (omega arith), digit_lem a) refl

loop_stop : (n a : ℕ) (buf : List ℕ) → a ≡ 0 → base128_loop n a buf ≡ buf
unfolding base128_loop
loop_stop zero a buf h = refl
loop_stop (suc n) a buf h = rw (eq→== a 0 h) refl

-- The digits in front of the last one, as many as the node needs.
abbrev pub one_more : ℕ → List ℕ
one_more a = a / 128 ∷ []

abbrev pub two_more : ℕ → List ℕ
two_more a = a / 128 / 128 ∷ one_more a

abbrev pub three_more : ℕ → List ℕ
three_more a = a / 128 / 128 / 128 ∷ two_more a

abbrev pub four_more : ℕ → List ℕ
four_more a = a / 128 / 128 / 128 / 128 ∷ three_more a

abbrev pub high : ℕ → List ℕ
high a =
    if ltb a (2 ^ 7)
    then []
    else (if ltb a (2 ^ 14)
        then one_more a
        else (if ltb a (2 ^ 21)
            then two_more a
            else (if ltb a (2 ^ 28) then three_more a else four_more a)))

module _ (P : List ℕ → Type 0) (a : ℕ) (none_more : a < 2 ^ 7 → P [])
    (one : 2 ^ 7 ≤ a → a < 2 ^ 14 → P (one_more a)) (two : 2 ^ 14 ≤ a → a < 2 ^ 21 → P (two_more a))
    (three : 2 ^ 21 ≤ a → a < 2 ^ 28 → P (three_more a)) (four : 2 ^ 28 ≤ a → P (four_more a)) where
  -- What holds for each number of digits.
  high-cases : P (high a)
  high-cases = elim (Bool-cases (ltb a (2 ^ 7))) [
    | inl h ↦ rw h (none_more (ltb→lt _ _ h))
    | inr h ↦ rw h (elim (Bool-cases (ltb a (2 ^ 14))) [
      | inl h' ↦ rw h' (one (ltb→le _ _ h) (ltb→lt _ _ h'))
      | inr h' ↦ rw h' (elim (Bool-cases (ltb a (2 ^ 21))) [
        | inl k ↦ rw k (two (ltb→le _ _ h') (ltb→lt _ _ k))
        | inr k ↦ rw k (elim (Bool-cases (ltb a (2 ^ 28))) [
          | inl k' ↦ rw k' (three (ltb→le _ _ k) (ltb→lt _ _ k'))
          | inr k' ↦ rw k' (four (ltb→le _ _ k'))
        ])
      ])
    ])
  ]

-- The bytes of a node.
abbrev pub octets : ℕ → List ℕ
octets a = encoded (high a) a

pub node_bytes_lem : (a : ℕ) → a < 2 ^ 32 → node_bytes a ≡ octets a
unfolding node_bytes
node_bytes_lem a h = rw (low_lem a) (
    high-cases (λ d. base128_loop 4 (a / 128) (encoded [] a) ≡ encoded d a) a
      (λ lt. loop_stop 4 (a / 128) _ (omega arith))
      (λ ge lt.
        loop_more 3 (a / 128) [] a (omega arith) ∙ loop_stop 3 (a / 128 / 128) _ (omega arith))
      (λ ge lt.
        loop_more 3 (a / 128) [] a (omega arith)
        ∙ loop_more 2 (a / 128 / 128) (one_more a) a (omega arith)
        ∙ loop_stop 2 (a / 128 / 128 / 128) _ (omega arith))
      (λ ge lt.
        loop_more 3 (a / 128) [] a (omega arith)
        ∙ loop_more 2 (a / 128 / 128) (one_more a) a (omega arith)
        ∙ loop_more 1 (a / 128 / 128 / 128) (two_more a) a (omega arith)
        ∙ loop_stop 1 (a / 128 / 128 / 128 / 128) _ (omega arith))
      (λ ge.
        loop_more 3 (a / 128) [] a (omega arith)
        ∙ loop_more 2 (a / 128 / 128) (one_more a) a (omega arith)
        ∙ loop_more 1 (a / 128 / 128 / 128) (two_more a) a (omega arith)
        ∙ loop_more 0 (a / 128 / 128 / 128 / 128) (three_more a) a (omega arith)
        ∙ loop_stop 0 (a / 128 / 128 / 128 / 128 / 128) _ (omega arith)))

-- The value, a digit at a time.
shift_in : (a b : ℕ) → a < 2 ^ 25 → bit_or (u32 (a <<< 7)) (bit_and b 0x7f) ≡ a * 128 + b % 128
shift_in a b h =
    let e : u32 (a <<< 7) ≡ a * 2 ^ 7 = omega arith in
    rw (low_lem b, e) (bit_or_fields 7 a (b % 128) (omega arith))

value_digit :
    (a x : ℕ) (bs : List ℕ)
    → a < 2 ^ 25
    → node_value a (digit x ∷ bs) ≡ node_value (a * 128 + x % 128) bs
unfolding node_value
value_digit a x bs h = ap (λ t. node_value t bs) (omega (arith, shift_in a (digit x) h))

value_low : (a x : ℕ) → a < 2 ^ 25 → node_value a (x % 128 ∷ []) ≡ a * 128 + x % 128
unfolding node_value
value_low a x h = omega (arith, shift_in a (x % 128) h)

node_value_lem : (a : ℕ) → a < 2 ^ 32 → node_value 0 (octets a) ≡ a
node_value_lem a h =
    high-cases (λ d. node_value 0 (encoded d a) ≡ a) a
      (λ lt. omega (arith, value_low 0 a (omega arith)))
      (λ ge lt. from_one 0 (omega arith) ∙ omega arith)
      (λ ge lt. from_two 0 (omega arith) ∙ omega arith)
      (λ ge lt. from_three 0 (omega arith) ∙ omega arith)
      (λ ge.
        value_digit 0 (a / 128 / 128 / 128 / 128) (encoded (three_more a) a) (omega arith)
        ∙ from_three (0 * 128 + a / 128 / 128 / 128 / 128 % 128) (omega arith)
        ∙ omega arith)
  where
    from_one :
        (x : ℕ) → x < 2 ^ 18 → node_value x (encoded (one_more a) a) ≡ x * 2 ^ 14 + a % 2 ^ 14
    from_one x k = omega (
      arith,
      value_digit x (a / 128) (encoded [] a) (omega arith),
      value_low (x * 128 + a / 128 % 128) a (omega arith),
    )

    from_two :
        (x : ℕ) → x < 2 ^ 11 → node_value x (encoded (two_more a) a) ≡ x * 2 ^ 21 + a % 2 ^ 21
    from_two x k = omega (
      arith,
      value_digit x (a / 128 / 128) (encoded (one_more a) a) (omega arith),
      from_one (x * 128 + a / 128 / 128 % 128) (omega arith),
    )

    from_three :
        (x : ℕ) → x < 2 ^ 4 → node_value x (encoded (three_more a) a) ≡ x * 2 ^ 28 + a % 2 ^ 28
    from_three x k = omega (
      arith,
      value_digit x (a / 128 / 128 / 128) (encoded (two_more a) a) (omega arith),
      from_two (x * 128 + a / 128 / 128 / 128 % 128) (omega arith),
    )

-- The first of five digits has no more than 4 bits.
first_digit : (x : ℕ) → x < 16 → (bit_and (128 + x) 0x70 == 0) ≡ true
first_digit x h = all_below_at 16 (λ t. bit_and (128 + t) 0x70 == 0) (unfold all_below in refl) x h

node_of_lem :
    (a : ℕ) (rest : List ℕ)
    → a < 2 ^ 32
    → node_of (octets a, rest) ≡ some (node_value 0 (octets a), rest)
unfolding node_of
node_of_lem a rest h =
    high-cases (λ d. node_of (encoded d a, rest) ≡ some (node_value 0 (encoded d a), rest)) a
      (λ _. refl) (λ _ _. refl) (λ _ _. refl) (λ _ _. refl)
      (λ _. rw (first_digit (a / 128 / 128 / 128 / 128 % 128) (omega arith)) refl)

few-high : (a : ℕ) → length (high a) < 5
few-high a =
    high-cases (λ d. length d < 5) a (λ _. omega arith) (λ _ _. omega arith) (λ _ _. omega arith)
      (λ _ _. omega arith) (λ _. omega arith)

-- `asn1_oid_node_from_base128` reads back the node that `asn1_oid_node_to_base128` wrote, in front of
-- any bytes.
pub node_from_base128_lem :
    (a : ℕ) (rest : List ℕ) → a < 2 ^ 32 → node_from_base128 (octets a ++ rest) ≡ some (a, rest)
unfolding node_from_base128
node_from_base128_lem a rest h =
    rw (digits_loop_lem 5 [] (high a) a rest (few-high a))
      (node_of_lem a rest h ∙ ap (λ v. some (v, rest)) (node_value_lem a h))

-- A node is one to five bytes.
pub length-octets : (a : ℕ) → length (octets a) ≤ 5
length-octets a =
    high-cases (λ d. length (encoded d a) ≤ 5) a (λ _. omega arith) (λ _ _. omega arith)
      (λ _ _. omega arith) (λ _ _. omega arith) (λ _. omega arith)

pub octets-cons : (a : ℕ) → (b : ℕ) × (bs : List ℕ) × (octets a ≡ b ∷ bs)
octets-cons a =
    high-cases (λ d. (b : ℕ) × (bs : List ℕ) × (encoded d a ≡ b ∷ bs)) a (λ _. (_, _, refl))
      (λ _ _. (_, _, refl)) (λ _ _. (_, _, refl)) (λ _ _. (_, _, refl)) (λ _. (_, _, refl))
