-- ===== src/Sm2/Modular/Residues.antt =====
-- Numbers that leave one residue, and the reduction that Montgomery multiplication makes.
use native.Mathlib.Nat.{add-mul, mul-add, mul_assoc, mul_comm, mul_left_comm, mul-one}
use native.Mathlib.Nat.{add-mul-mod_self_left, div-add-mod, mod-eq_of_lt, add-mod}
use gm_ssl.Base.{ℕ, ◌+◌, ◌*◌, ◌/◌, ◌%◌, ◌^◌, ◌<◌, arith, ◌≡◌, sym, ap, ap₂, ◌∙◌}

-- Equal modulo `m`.
abbrev pub Same : ℕ → ℕ → ℕ → Type 0
Same m a b = a % m ≡ b % m

pub multiple-Same : (m a k : ℕ) → Same m (a + m * k) a
multiple-Same m a k = add-mul-mod_self_left a m k

pub remainder : (m x k v : ℕ) → x < m → v ≡ x + m * k → x ≡ v % m
remainder m x k v h e = sym (ap (λ n. n % m) e ∙ multiple-Same m x k ∙ mod-eq_of_lt h)

reduce_factor : (m a b : ℕ) → Same m (a * b) (a % m * b)
reduce_factor m a b =
    let parts : a * b ≡ a % m * b + m * (a / m * b) =
      ap (λ n. n * b) (sym (div-add-mod a m))
      ∙ omega (arith, add-mul (m * (a / m)) (a % m) b, mul_assoc m (a / m) b) in
    ap (λ n. n % m) parts ∙ multiple-Same m (a % m * b) (a / m * b)

pub mul-Same_left : (m a b c : ℕ) → Same m a b → Same m (a * c) (b * c)
mul-Same_left m a b c h = reduce_factor m a c ∙ ap (λ n. (n * c) % m) h ∙ sym (reduce_factor m b c)

pub mul-Same : (m a b c d : ℕ) → Same m a b → Same m c d → Same m (a * c) (b * d)
mul-Same m a b c d h k =
    mul-Same_left m a b c h
    ∙ ap (λ n. n % m) (mul_comm b c)
    ∙ mul-Same_left m c d b k
    ∙ ap (λ n. n % m) (mul_comm d b)

pub add-Same : (m a b c d : ℕ) → Same m a b → Same m c d → Same m (a + c) (b + d)
add-Same m a b c d h k = add-mod a c m ∙ ap₂ (λ u v. (u + v) % m) h k ∙ sym (add-mod b d m)

-- A factor and its inverse modulo `m`.
pub undo : (m r inv k x : ℕ) → r * inv ≡ k * m + 1 → Same m (x * r * inv) x
undo m r inv k x h =
    let e : x * r * inv ≡ x + m * (x * k) =
      mul_assoc x r inv
      ∙ ap (λ n. x * n) h
      ∙ omega (
        arith,
        mul-add x (k * m) 1,
        mul-one x,
        mul_left_comm x k m,
        mul_comm m (x * k),
        mul_assoc x k m,
      ) in
    ap (λ n. n % m) e ∙ multiple-Same m x (x * k)

pub cancel : (m r inv k a b : ℕ) → r * inv ≡ k * m + 1 → Same m (a * r) (b * r) → Same m a b
cancel m r inv k a b h same =
    sym (undo m r inv k a h) ∙ mul-Same_left m (a * r) (b * r) inv same ∙ undo m r inv k b h

-- What the sum of a product and the multiple of the modulus is made of: the low half is nothing,
-- and the high half has the carry on top.
pub reduction :
    (m prime inv zl zh tl th sl sh : ℕ)
    → 2 ^ 256 * inv ≡ prime * m + 1
    → tl + 2 ^ 256 * th ≡ zl * prime
    → sl + 2 ^ 256 * sh ≡ zl + 2 ^ 256 * zh + tl * m
    → sl < 2 ^ 256
    → 2 ^ 256 * sh ≡ zl + 2 ^ 256 * zh + tl * m
reduction m prime inv zl zh tl th sl sh one low sum lt =
    let scaled : zl * (2 ^ 256 * inv) ≡ zl * (prime * m + 1) = ap (λ n. zl * n) one in
    let low_m : (tl + 2 ^ 256 * th) * m ≡ zl * prime * m = ap (λ n. n * m) low in
    omega (
      arith,
      mul_left_comm zl (2 ^ 256) inv,
      mul-add zl (prime * m) 1,
      mul_assoc zl prime m,
      add-mul tl (2 ^ 256 * th) m,
      mul_assoc (2 ^ 256) th m,
    )
