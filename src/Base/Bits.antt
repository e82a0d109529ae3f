-- ===== src/Base/Bits.antt =====
-- Facts about `bit_and`, `bit_or` and `bit_xor` at every width, from the law of the lowest digit.
mod Step
use Prim.Native.Nat.{ℕ, zero, suc, ◌+◌, ◌*◌, ◌/◌, ◌%◌, ◌^◌, ◌≤◌, ◌<◌, ◌-◌, bit_and, bit_or, bit_xor}
use mathlib.Core.Path.{◌≡◌, refl, sym, ap, ◌∙◌}
use mathlib.Core.WellFounded
use native.Mathlib.Nat.{div-div-eq-div-mul, pow-suc, pow-succ', one-le-pow}
use native.Mathlib.Omega.{arith}
use gm_ssl.Base.Order.{lt_wf}
use Step.{bit_xor_lowest, bit_or_lowest, bit_and_lowest}

-- A law of numbers whose digits are those of `a`: from `a / 2` to `a`.
halving_induction {ℓ} :
    (P : ℕ → Type ℓ) → P 0 → ((n : ℕ) → P (suc n / 2) → P (suc n)) → (a : ℕ) → P a
halving_induction P base step a = WellFounded.induction lt_wf {C = P} a go
  where
    go : (n : ℕ) → ((m : ℕ) → m < n → P m) → P n
    go zero ih = base
    go (suc n) ih = step n (ih (suc n / 2) (omega arith))

pub bit_xor-zero : (a : ℕ) → bit_xor a 0 ≡ a
bit_xor-zero =
    halving_induction (λ a. bit_xor a 0 ≡ a) refl
      (λ n ih. omega (arith, bit_xor_lowest (suc n) 0, ih))

pub zero-bit_xor : (a : ℕ) → bit_xor 0 a ≡ a
zero-bit_xor =
    halving_induction (λ a. bit_xor 0 a ≡ a) refl
      (λ n ih. omega (arith, bit_xor_lowest 0 (suc n), ih))

pub bit_xor_self : (a : ℕ) → bit_xor a a ≡ 0
bit_xor_self =
    halving_induction (λ a. bit_xor a a ≡ 0) refl
      (λ n ih. omega (arith, bit_xor_lowest (suc n) (suc n), ih))

pub bit_xor_comm : (a b : ℕ) → bit_xor a b ≡ bit_xor b a
bit_xor_comm =
    halving_induction (λ a. (b : ℕ) → bit_xor a b ≡ bit_xor b a)
      (λ b. omega (arith, zero-bit_xor b, bit_xor-zero b))
      (λ n ih b. omega (arith, bit_xor_lowest (suc n) b, bit_xor_lowest b (suc n), ih (b / 2)))

pub bit_xor_assoc : (a b c : ℕ) → bit_xor (bit_xor a b) c ≡ bit_xor a (bit_xor b c)
bit_xor_assoc =
    halving_induction (λ a. (b c : ℕ) → bit_xor (bit_xor a b) c ≡ bit_xor a (bit_xor b c))
      (λ b c. omega (arith, zero-bit_xor (bit_xor b c), ap (λ t. bit_xor t c) (zero-bit_xor b)))
      (λ n ih b c. xor_assoc_step (suc n) b c (ih (b / 2) (c / 2)))
  where
    xor_halves : (x y : ℕ) → bit_xor x y / 2 ≡ bit_xor (x / 2) (y / 2)
    xor_halves x y = omega (arith, bit_xor_lowest x y)

    xor_assoc_step :
        (a b c : ℕ)
        → bit_xor (bit_xor (a / 2) (b / 2)) (c / 2) ≡ bit_xor (a / 2) (bit_xor (b / 2) (c / 2))
        → bit_xor (bit_xor a b) c ≡ bit_xor a (bit_xor b c)
    xor_assoc_step a b c h = omega (
      arith,
      bit_xor_lowest (bit_xor a b) c,
      bit_xor_lowest a (bit_xor b c),
      bit_xor_lowest a b,
      bit_xor_lowest b c,
      ap (λ t. bit_xor t (c / 2)) (xor_halves a b),
      ap (λ t. bit_xor (a / 2) t) (xor_halves b c),
      h,
    )

-- Two applications of one mask cancel.
pub bit_xor_cancel : (a b : ℕ) → bit_xor (bit_xor a b) b ≡ a
bit_xor_cancel a b = rw (bit_xor_assoc a b b, bit_xor_self b, bit_xor-zero a)

-- The operations stay within a width.
pub bit_xor-lt : (k a b : ℕ) → a < 2 ^ k → b < 2 ^ k → bit_xor a b < 2 ^ k
bit_xor-lt zero a b ha hb =
    let a0 : a ≡ 0 = omega arith in let b0 : b ≡ 0 = omega arith in rw (a0, b0) (omega arith)
bit_xor-lt (suc k) a b ha hb = omega (
  arith,
  bit_xor_lowest a b,
  pow-suc 2 k,
  bit_xor-lt k (a / 2) (b / 2) (omega (arith, pow-suc 2 k)) (omega (arith, pow-suc 2 k)),
)

pub bit_or-lt : (k a b : ℕ) → a < 2 ^ k → b < 2 ^ k → bit_or a b < 2 ^ k
bit_or-lt zero a b ha hb =
    let a0 : a ≡ 0 = omega arith in let b0 : b ≡ 0 = omega arith in rw (a0, b0) (omega arith)
bit_or-lt (suc k) a b ha hb = omega (
  arith,
  bit_or_lowest a b,
  pow-suc 2 k,
  bit_or-lt k (a / 2) (b / 2) (omega (arith, pow-suc 2 k)) (omega (arith, pow-suc 2 k)),
)

pub bit_or-zero : (a : ℕ) → bit_or a 0 ≡ a
bit_or-zero =
    halving_induction (λ a. bit_or a 0 ≡ a) refl
      (λ n ih. omega (arith, bit_or_lowest (suc n) 0, ih))

pub bit_and-zero : (a : ℕ) → bit_and a 0 ≡ 0
bit_and-zero =
    halving_induction (λ a. bit_and a 0 ≡ 0) refl
      (λ n ih. omega (arith, bit_and_lowest (suc n) 0, ih))

double_shift : (hi w : ℕ) → hi * 2 ^ suc w ≡ 2 * (hi * 2 ^ w)
double_shift hi w = omega (arith, ap (λ (t : ℕ). hi * t) (pow-suc 2 w))

-- `(hi << w) | lo` is a sum where `lo` has at most `w` bits.
pub bit_or_fields : (w hi lo : ℕ) → lo < 2 ^ w → bit_or (hi * 2 ^ w) lo ≡ hi * 2 ^ w + lo
bit_or_fields zero hi lo h = ground (arith, bit_or-zero hi)
bit_or_fields (suc w) hi lo h =
    let half : lo / 2 < 2 ^ w = omega (arith, pow-suc 2 w) in
    ground (
      arith,
      bit_or_fields w hi (lo / 2) half,
      double_shift hi w,
      bit_or_lowest (hi * 2 ^ suc w) lo,
    )

bit_and_low : (w hi lo : ℕ) → lo < 2 ^ w → bit_and (hi * 2 ^ w + lo) (2 ^ w - 1) ≡ lo
bit_and_low zero hi lo h = rw bit_and-zero (omega arith)
bit_and_low (suc w) hi lo h =
    let half : lo / 2 < 2 ^ w = omega (arith, pow-suc 2 w) in
    ground (
      arith,
      bit_and_low w hi (lo / 2) half,
      double_shift hi w,
      pow-suc 2 w,
      bit_and_lowest (hi * 2 ^ suc w + lo) (2 ^ suc w - 1),
    )

-- The remainder by `2 ^ w` is what a mask of `w` low bits leaves.
pub bit_and_mask : (w x : ℕ) → bit_and x (2 ^ w - 1) ≡ x % 2 ^ w
bit_and_mask w x =
    let positive = one-le-pow w 2 in ground (arith, positive, bit_and_low w (x / 2 ^ w) (x % 2 ^ w))

-- A mask of one bit.
pub bit_and_bit : (w x : ℕ) → bit_and x (2 ^ w) ≡ x / 2 ^ w % 2 * 2 ^ w
bit_and_bit zero x = omega (arith, bit_and_lowest x 1, bit_and-zero (x / 2))
bit_and_bit (suc w) x =
    let double : 2 ^ suc w ≡ 2 * 2 ^ w = pow-succ' 2 w in
    let half : 2 ^ suc w / 2 ≡ 2 ^ w = omega arith in
    let even : 2 ^ suc w % 2 ≡ 0 = omega arith in
    let bit : x / 2 ^ suc w % 2 ≡ x / 2 / 2 ^ w % 2 =
      ap (λ k. x / k % 2) double ∙ ap (λ k. k % 2) (sym (div-div-eq-div-mul x 2 (2 ^ w))) in
    let rest : bit_and (x / 2) (2 ^ suc w / 2) ≡ x / 2 / 2 ^ w % 2 * 2 ^ w =
      ap (λ k. bit_and (x / 2) k) half ∙ bit_and_bit w (x / 2) in
    rw bit (omega (arith, bit_and_lowest x (2 ^ suc w), rest, double_shift (x / 2 / 2 ^ w % 2) w))

zero-bit_or : (a : ℕ) → bit_or 0 a ≡ a
zero-bit_or =
    halving_induction (λ a. bit_or 0 a ≡ a) refl
      (λ n ih. omega (arith, bit_or_lowest 0 (suc n), ih))

-- A disjunction is zero only where both sides are, an exclusive one where they are equal.
pub bit_or-eq-zero : (a b : ℕ) → bit_or a b ≡ 0 → (a ≡ 0) × (b ≡ 0)
bit_or-eq-zero =
    halving_induction (λ a. (b : ℕ) → bit_or a b ≡ 0 → (a ≡ 0) × (b ≡ 0))
      (λ b h. (refl, omega (arith, zero-bit_or b, h)))
      (λ n ih b h.
        let low : bit_or (suc n / 2) (b / 2) ≡ 0 = omega (arith, bit_or_lowest (suc n) b) in
        let (p, q) = ih (b / 2) low in
        (
          omega (arith, bit_or_lowest (suc n) b, p, q),
          omega (arith, bit_or_lowest (suc n) b, p, q),
        ))

pub bit_xor-eq-zero : (a b : ℕ) → bit_xor a b ≡ 0 → a ≡ b
bit_xor-eq-zero a b h =
    let e : bit_xor (bit_xor a b) b ≡ bit_xor 0 b = ap (λ t. bit_xor t b) h in
    omega (arith, e, bit_xor_cancel a b, zero-bit_xor b)

pub bit_or_comm : (a b : ℕ) → bit_or a b ≡ bit_or b a
bit_or_comm =
    halving_induction (λ a. (b : ℕ) → bit_or a b ≡ bit_or b a)
      (λ b. zero-bit_or b ∙ sym (bit_or-zero b))
      (λ n ih b. omega (arith, bit_or_lowest (suc n) b, bit_or_lowest b (suc n), ih (b / 2)))

pub le-bit_or_left : (a b : ℕ) → a ≤ bit_or a b
le-bit_or_left =
    halving_induction (λ a. (b : ℕ) → a ≤ bit_or a b) (λ b. omega arith)
      (λ n ih b. omega (arith, bit_or_lowest (suc n) b, ih (b / 2)))

pub le-bit_or_right : (a b : ℕ) → b ≤ bit_or a b
le-bit_or_right a b = omega (arith, le-bit_or_left b a, bit_or_comm a b)

pub zero-bit_and : (a : ℕ) → bit_and 0 a ≡ 0
zero-bit_and =
    halving_induction (λ a. bit_and 0 a ≡ 0) refl
      (λ n ih. omega (arith, bit_and_lowest 0 (suc n), ih))
