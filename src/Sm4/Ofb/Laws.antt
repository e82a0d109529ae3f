-- ===== src/Sm4/Ofb/Laws.antt =====
-- The loop ends, and undoes itself.
use gm_ssl.Base.{ℕ, zero, suc, ◌+◌, ◌≤◌, ◌<◌, min, arith, ◌≡◌, ◌⊎◌, refl, sym, ap, ap₂, ◌∙◌}
use gm_ssl.Base.{
  List, [], ◌∷◌, ◌++◌, append-nil, length, take, drop, leb, Bool-cases, inl, inr, leb→le, leb→lt,
}
use gm_ssl.Base.{
  length-drop, length-take, length-append, take-append_eq, drop-append_eq, take-append-drop,
  take_all, drop_all,
}
use gm_ssl.Mem.{memxor}
use gm_ssl.Mem.Laws.{memxor_cancel, length-memxor}
use gm_ssl.Sm4.{encrypt}
use gm_ssl.Sm4.Inverse.{encrypt-IsBlock}
use gm_ssl.Sm4.Ofb.{ofb_loop, ofb_encrypt}

ofb_loop-ofb_loop :
    (m n : ℕ) (key iv input : List ℕ)
    → length input ≤ m
    → length input ≤ n
    → ofb_loop m key iv input ≡ ofb_loop n key iv input
unfolding ofb_loop
ofb_loop-ofb_loop zero zero key iv input h k = refl
ofb_loop-ofb_loop zero (suc n) key iv [] h k = refl
ofb_loop-ofb_loop zero (suc n) key iv (x ∷ xs) h k = absurd (omega arith)
ofb_loop-ofb_loop (suc m) zero key iv [] h k = refl
ofb_loop-ofb_loop (suc m) zero key iv (x ∷ xs) h k = absurd (omega arith)
ofb_loop-ofb_loop (suc m) (suc n) key iv [] h k = refl
ofb_loop-ofb_loop (suc m) (suc n) key iv (x ∷ xs) h k =
    let iv' = encrypt key iv in
    let size = length-drop 15 xs in
    ap (λ r. (r.0, memxor (x ∷ take 15 xs) iv' ++ r.1))
      (ofb_loop-ofb_loop m n key iv' (drop 15 xs) (omega (arith, size)) (omega (arith, size)))

-- The loop has ended when as many rounds are over as there are bytes: any more change nothing.
pub ofb_loop-ofb_encrypt :
    (rounds : ℕ) (key iv input : List ℕ)
    → length input ≤ rounds
    → ofb_loop rounds key iv input ≡ ofb_encrypt key iv input
unfolding ofb_encrypt
ofb_loop-ofb_encrypt rounds key iv input h =
    ofb_loop-ofb_loop rounds (length input) key iv input h (omega arith)

-- One round on an input that is not empty.
one_round :
    (n : ℕ) (key iv input : List ℕ)
    → 0 < length input
    → (ofb_loop (suc n) key iv input).1
      ≡ memxor (take 16 input) (encrypt key iv)
        ++ (ofb_loop n key (encrypt key iv) (drop 16 input)).1
unfolding ofb_loop
one_round n key iv [] h = absurd (omega arith)
one_round n key iv (x ∷ xs) h = refl

no_round : (n : ℕ) (key iv : List ℕ) → (ofb_loop n key iv []).1 ≡ []
unfolding ofb_loop
no_round zero key iv = refl
no_round (suc n) key iv = refl

-- A masked part and what follows it come apart again where the part is a block or the last.
take-drop_parts :
    (m o : List ℕ)
    → (length m ≡ 16) ⊎ ((length m ≤ 16) × (o ≡ []))
    → (take 16 (m ++ o) ≡ m) × (drop 16 (m ++ o) ≡ o)
take-drop_parts m o (inl e) = (take-append_eq 16 m o e, drop-append_eq 16 m o e)
take-drop_parts m o (inr (le, e)) = rw (e, append-nil m) (take_all 16 m le, drop_all 16 m le)

twice :
    (n : ℕ) (key iv input : List ℕ)
    → length input ≤ n
    → (ofb_loop n key iv (ofb_loop n key iv input).1).1 ≡ input
twice zero key iv [] h =
    ap (λ t. (ofb_loop zero key iv t).1) (no_round zero key iv) ∙ no_round zero key iv
twice zero key iv (x ∷ xs) h = absurd (omega arith)
twice (suc n) key iv [] h =
    ap (λ t. (ofb_loop (suc n) key iv t).1) (no_round (suc n) key iv) ∙ no_round (suc n) key iv
twice (suc n) key iv (x ∷ xs) h =
    let input = x ∷ xs in
    let iv' = encrypt key iv in
    let m = memxor (take 16 input) iv' in
    let o = (ofb_loop n key iv' (drop 16 input)).1 in
    let iv_size = (encrypt-IsBlock key iv).size in
    let size : length m ≡ min 16 (length input) =
      omega (arith, length-memxor (take 16 input) iv', length-take 16 input, iv_size) in
    let rest = twice n key iv' (drop 16 input) (omega (arith, length-drop 16 input)) in
    let back : memxor m iv' ≡ take 16 input =
      memxor_cancel (take 16 input) iv' (omega (arith, length-take 16 input, iv_size)) in
    let cut : (length m ≡ 16) ⊎ ((length m ≤ 16) × (o ≡ [])) =
      elim (Bool-cases (leb 16 (length input))) [
        | inl full ↦ inl (omega (arith, size, leb→le 16 (length input) full))
        | inr short ↦ inr (
          omega (arith, size),
          ap (λ t. (ofb_loop n key iv' t).1)
                (drop_all 16 input (omega (arith, leb→lt 16 (length input) short)))
              ∙ no_round n key iv',
        )
      ] in
    let p = take-drop_parts m o cut in
    let out = one_round n key iv input (omega arith) in
    ap (λ t. (ofb_loop (suc n) key iv t).1) out
    ∙ one_round n key iv (m ++ o) (omega (arith, length-append m o, size))
    ∙ ap₂ (λ a b. memxor a iv' ++ (ofb_loop n key iv' b).1) p.0 p.1
    ∙ ap₂ (λ a b. a ++ b) back rest
    ∙ take-append-drop 16 input

-- The encryption undoes itself, from the same iv, for inputs of every length.
pub ofb_encrypt-ofb_encrypt :
    (key iv input : List ℕ) → (ofb_encrypt key iv (ofb_encrypt key iv input).1).1 ≡ input
ofb_encrypt-ofb_encrypt key iv input =
    let out = (ofb_encrypt key iv input).1 in
    let n = length input + length out in
    ap (λ r. r.1) (sym (ofb_loop-ofb_encrypt n key iv out (omega arith)))
    ∙ ap (λ r. (ofb_loop n key iv r.1).1) (sym (ofb_loop-ofb_encrypt n key iv input (omega arith)))
    ∙ twice n key iv input (omega arith)

-- The first block and the rest.
pub first_round :
    (key iv input : List ℕ)
    → 0 < length input
    → (ofb_encrypt key iv input).1
      ≡ memxor (take 16 input) (encrypt key iv)
        ++ (ofb_encrypt key (encrypt key iv) (drop 16 input)).1
first_round key iv input h =
    let n = length input in
    let iv' = encrypt key iv in
    ap (λ r. r.1) (sym (ofb_loop-ofb_encrypt (suc n) key iv input (omega arith)))
    ∙ one_round n key iv input h
    ∙ ap (λ r. memxor (take 16 input) iv' ++ r.1)
        (ofb_loop-ofb_encrypt n key iv' (drop 16 input) (omega (arith, length-drop 16 input)))
