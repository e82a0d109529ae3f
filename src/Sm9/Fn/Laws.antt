-- ===== src/Sm9/Fn/Laws.antt =====
-- The product modulo n is the product of the numbers modulo n.
use Prim.Native.Nat.{compare}
use native.Mathlib.Nat.{mul-le-mul}
use gm_ssl.Base.{ℕ, ◌+◌, ◌-◌, ◌*◌, ◌%◌, ◌^◌, ◌≤◌, ◌<◌, u64, arith, ◌≡◌, refl, ap, ◌∙◌}
use gm_ssl.Base.{List, take, drop, get_or, true, false, ltb, ◌||◌, Bool-cases, inl, inr}
use gm_ssl.Base.{[], drop-drop, drop_all}
use gm_ssl.Sm2.Limbs.{z256_sub}
use gm_ssl.Sm2.Limbs.Laws.{value, IsWords}
use gm_ssl.Sm2.Limbs.Words.{value_lt, value-lt, z256_sub_lem, z256_cmp-compare}
use gm_ssl.Sm2.Mul.{z256_mul}
use gm_ssl.Sm2.Mul.Laws.{z256_mul_lem}
use gm_ssl.Sm2.Modular.{at_least}
use gm_ssl.Sm9.Fn.{n_words, n_barrett_mu, z320_mul, z320_sub, less_n, modn_mul}
use gm_ssl.Sm9.Fn.Barrett.{n, mu, barrett, low_words, rest_lem}
use gm_ssl.Sm9.Fn.Words.{z320_mul_lem, Parts, parts, word-drop, z320_sub_lem}

-- A reduced number of four words.
pub record IsResidue (a : List ℕ) : Type 0 where
  pub words : IsWords 4 a
  pub reduced : value a < n

value-n_words : value n_words ≡ n
unfolding value
value-n_words = refl

n_words-IsWords : IsWords 4 n_words
n_words-IsWords = record { words = omega arith; size = refl }

value-n_barrett_mu : value n_barrett_mu ≡ mu
unfolding value
value-n_barrett_mu = refl

nothing : value [] ≡ 0
unfolding value
nothing = refl

n_barrett_mu-IsWords : IsWords 5 n_barrett_mu
n_barrett_mu-IsWords = record { words = omega arith; size = refl }

over-le : (v r4 : ℕ) → ltb 0 r4 || at_least (compare v n) ≡ true → n ≤ v + 2 ^ 256 * r4
over-le v r4 h = ground arith

under-lt : (v r4 : ℕ) → ltb 0 r4 || at_least (compare v n) ≡ false → v + 2 ^ 256 * r4 < n
under-lt v r4 h = ground arith

-- The last subtraction.
less_n_lem :
    (r : List ℕ) (r4 x : ℕ)
    → IsWords 4 r
    → value r + 2 ^ 256 * r4 ≡ x
    → x < 2 * n
    → IsWords 4 (less_n (r, r4)) × (value (less_n (r, r4)) ≡ x % n)
unfolding less_n
less_n_lem r r4 x h total small =
    rw (z256_cmp-compare r n_words h n_words-IsWords, value-n_words)
      (elim (Bool-cases (ltb 0 r4 || at_least (compare (value r) n))) [
        | inl over ↦
            let ge = over-le (value r) r4 over in
            let (words, borrow, sum) = z256_sub_lem r n_words h n_words-IsWords in
            rw over (
              words,
              omega (
                arith,
                ge,
                borrow,
                sum,
                value-n_words,
                value_lt r h,
                value_lt (z256_sub r n_words).0 words,
              ),
            )
        | inr under ↦ rw under (h, omega (arith, under-lt (value r) r4 under))
      ])

-- For every two residues: `sm9_z256_modn_mul` returns their product modulo n, a residue again.
pub modn_mul-product :
    (a b : List ℕ)
    → IsResidue a
    → IsResidue b
    → IsResidue (modn_mul a b) × (value (modn_mul a b) ≡ value a * value b % n)
unfolding modn_mul
modn_mul-product a b ha hb =
    let r =
      less_n_lem (z320_sub z s s4).0 (z320_sub z s s4).1 rest difference.0 difference.1
        (omega (arith, bounds.0, bounds.1)) in
    let result : value (modn_mul a b) ≡ value a * value b % n =
      r.1 ∙ rest_lem (value z) q bounds.0 ∙ ap (λ t. t % n) product.1 in
    (record { words = r.0; reduced = omega (arith, result) }, result)
  where
    z : List ℕ
    z = z256_mul a b

    h : List ℕ
    h = z320_mul (drop 3 z) n_barrett_mu

    s : List ℕ
    s = z256_mul (take 4 (drop 5 h)) n_words

    s4 : ℕ
    s4 = u64 (get_or s 4 0 + u64 (get_or n_words 0 0 * get_or h 9 0))

    product : IsWords 8 z × (value z ≡ value a * value b)
    product = z256_mul_lem a b ha.words hb.words

    square : value z ≤ (n - 1) * (n - 1)
    square =
        let le : value a ≤ n - 1 = omega (arith, ha.reduced) in
        let le' : value b ≤ n - 1 = omega (arith, hb.reduced) in
        let both : value a * value b ≤ (n - 1) * (n - 1) = mul-le-mul le le' in
        omega (arith, product.1, both)

    top : Parts 3 5 z
    top = parts 3 5 8 z product.0 (omega arith)

    estimate : IsWords 10 h × (value h ≡ value (drop 3 z) * value n_barrett_mu)
    estimate = z320_mul_lem (drop 3 z) n_barrett_mu top.high n_barrett_mu-IsWords

    high : Parts 5 5 h
    high = parts 5 5 10 h estimate.0 (omega arith)

    q : ℕ
    q = value (drop 5 h)

    bounds : (q * n ≤ value z) × (value z < q * n + 2 * n)
    bounds =
        barrett (value z) (value (drop 3 z)) (value (take 3 z)) q (value (take 5 h)) square
          (omega (arith, top.total)) (value-lt 3 (take 3 z) top.low.size top.low.words)
          (omega (
            arith,
            estimate.1,
            high.total,
            value-n_barrett_mu,
            ap (λ t. value (drop 3 z) * t) value-n_barrett_mu,
          ))
          (value-lt 5 (take 5 h) high.low.size high.low.words)

    rest : ℕ
    rest = value z - q * n

    quotient : Parts 4 1 (drop 5 h)
    quotient = parts 4 1 5 (drop 5 h) high.high (omega arith)

    last_word : value (drop 4 (drop 5 h)) ≡ get_or h 9 0
    last_word =
        ap value (drop-drop 5 4 h)
        ∙ (word-drop 9 0 h estimate.0).0
        ∙ ap (λ t. get_or h 9 0 + 2 ^ 64 * t)
            (ap value (drop_all 10 h (omega (arith, estimate.0.size))) ∙ nothing)
        ∙ omega arith

    subtrahend : IsWords 8 s × (value s ≡ value (take 4 (drop 5 h)) * value n_words)
    subtrahend = z256_mul_lem (take 4 (drop 5 h)) n_words quotient.low n_words-IsWords

    z_parts : Parts 4 4 z
    z_parts = parts 4 4 8 z product.0 (omega arith)

    s_parts : Parts 4 4 s
    s_parts = parts 4 4 8 s subtrahend.0 (omega arith)

    difference :
        IsWords 4 (z320_sub z s s4).0
        × (value (z320_sub z s s4).0 + 2 ^ 256 * (z320_sub z s s4).1 ≡ rest)
    difference =
        z320_sub_lem z s s4 rest z_parts.low s_parts.low (word-drop 4 3 z product.0).1 (omega arith)
          (omega (arith, bounds.0, bounds.1))
          (low_words (value z) (value (take 4 z)) (get_or z 4 0) (value (drop 5 z)) q
            (value (take 4 (drop 5 h))) (get_or h 9 0) (value s) (value (take 4 s)) (get_or s 4 0)
            (value (drop 5 s)) (omega (arith, z_parts.total, (word-drop 4 3 z product.0).0))
            (omega (arith, quotient.total, last_word))
            (omega (arith, subtrahend.1, ap (λ t. value (take 4 (drop 5 h)) * t) value-n_words))
            (omega (arith, s_parts.total, (word-drop 4 3 s subtrahend.0).0)) bounds.0)
