-- ===== src/Sm2/Field/Inverse.antt =====
-- The addition chain for an inverse modulo p, and the loops for one modulo n: both are powers with
-- the exponents of Fermat's little theorem. And the square root modulo p.
pub mod Order
use Prim.Native.Nat.{compare, Ordering}
use native.Mathlib.Nat.{pow-suc, mul_assoc, pow-succ'}
use gm_ssl.Base.{
  ℕ, zero, suc, ◌+◌, ◌-◌, ◌*◌, ◌%◌, ◌^◌, ◌≤◌, ◌<◌, arith, ◌≡◌, refl, sym, ap, ◌∙◌, subst,
}
use gm_ssl.Base.{List, [], ◌∷◌, Option, none, some}
use gm_ssl.Sm2.Limbs.Laws.{value, IsWords}
use gm_ssl.Sm2.Modular
use gm_ssl.Sm2.Modular.Laws.{Result}
use gm_ssl.Sm2.Modular.Form.{Form, to_mont-Form, from_mont-Form}
use gm_ssl.Sm2.Modular.Exp.{Power, mont_mul-Power, base-Power}
use gm_ssl.Sm2.Field.{
  p_modulus, modp_mont_mul, modp_mont_sqr, modp_to_mont, modp_from_mont, squarings, Chain,
  inv_start, inv_middle, inv_round, modp_mont_inv,
}
use gm_ssl.Sm2.Field.Constants.{prime_p, p_inverse, p_modulus-IsModulus}
use gm_ssl.Sm2.Field.Laws.{ElementP, outcome_p}

module _ (x : ℕ) where
  abbrev PowerP : ℕ → List ℕ → Type 0
  PowerP k a = Form p_modulus (x ^ k) a

  times : (i j : ℕ) (a b : List ℕ) → PowerP i a → PowerP j b → PowerP (i + j) (modp_mont_mul a b)
  unfolding modp_mont_mul
  times i j a b = mont_mul-Power p_modulus p_inverse p_modulus-IsModulus x i j a b

  square : (i : ℕ) (a : List ℕ) → PowerP i a → PowerP (i + i) (modp_mont_sqr a)
  unfolding modp_mont_sqr
  square i a h = times i i a a h h

  squarings-PowerP : (n i : ℕ) (a : List ℕ) → PowerP i a → PowerP (i * 2 ^ n) (squarings n a)
  unfolding squarings
  squarings-PowerP zero i a h = let e : i ≡ i * 2 ^ 0 = omega arith in subst (λ k. PowerP k a) e h
  squarings-PowerP (suc n) i a h =
      let double : i + i ≡ i * 2 = omega arith in
      let e : (i + i) * 2 ^ n ≡ i * 2 ^ suc n = omega (
        arith,
        mul_assoc i 2 (2 ^ n),
        ap (λ k. i * k) (pow-succ' 2 n),
        ap (λ k. k * 2 ^ n) double,
      ) in
      subst (λ k. PowerP k (squarings n (modp_mont_sqr a))) e
        (squarings-PowerP n (i + i) (modp_mont_sqr a) (square i a h))

  -- A product after squarings, as the chain has it.
  shifted :
      (n i j : ℕ) (a b : List ℕ)
      → PowerP i a
      → PowerP j b
      → PowerP (i * 2 ^ n + j) (modp_mont_mul (squarings n a) b)
  shifted n i j a b ha hb = times (i * 2 ^ n) j (squarings n a) b (squarings-PowerP n i a ha) hb

  -- The exponents that the variables of the chain have reached.
  record Exponents (k2 k3 k4 k5 : ℕ) (c : Chain) : Type 0 where
    two : PowerP k2 c.a2
    three : PowerP k3 c.a3
    four : PowerP k4 c.a4
    five : PowerP k5 c.a5

  module _ (a : List ℕ) (h : PowerP 1 a) where
    inv_start-Exponents : Exponents 3 0xf 0xff 0x7fffffff (inv_start a)
    unfolding inv_start
    inv_start-Exponents =
        let a2 = modp_mont_mul (modp_mont_sqr a) a in
        let two : PowerP 3 a2 = times 2 1 (modp_mont_sqr a) a (square 1 a h) h in
        let a3 = modp_mont_mul (squarings 2 a2) a2 in
        let three : PowerP 0xf a3 = shifted 2 3 3 a2 a2 two two in
        let a4 = modp_mont_mul (squarings 4 a3) a3 in
        let four : PowerP 0xff a4 = shifted 4 0xf 0xf a3 a3 three three in
        let b = modp_mont_mul (squarings 8 a4) a4 in
        let pb : PowerP 0xffff b = shifted 8 0xff 0xff a4 a4 four four in
        let c = modp_mont_mul (squarings 8 b) a4 in
        let pc : PowerP 0xffffff c = shifted 8 0xffff 0xff b a4 pb four in
        let d = modp_mont_mul (squarings 4 c) a3 in
        let pd : PowerP 0xfffffff d = shifted 4 0xffffff 0xf c a3 pc three in
        let e = modp_mont_mul (squarings 2 d) a2 in
        let pe : PowerP 0x3fffffff e = shifted 2 0xfffffff 3 d a2 pd two in
        let five = times 0x7ffffffe 1 (modp_mont_sqr e) a (square 0x3fffffff e pe) h in
        record { two = two; three = three; four = four; five = five }

    inv_middle-Exponents :
        (c : Chain)
        → Exponents 3 0xf 0xff 0x7fffffff c
        → Exponents 0xffffffff0000000000000000 0x1000000000000000000000000 0xfffffffffffffffd
            0xfffffffe0000000000000000
            (inv_middle a c)
    unfolding inv_middle
    inv_middle-Exponents c h' =
        let even = modp_mont_sqr c.a5 in
        let pe : PowerP 0xfffffffe even = square 0x7fffffff c.a5 h'.five in
        let high = squarings 31 even in
        let ph : PowerP 0x7fffffff00000000 high = squarings-PowerP 31 0xfffffffe even pe in
        let b = modp_mont_mul high even in
        let pb = times 0x7fffffff00000000 0xfffffffe high even ph pe in
        let a4 = modp_mont_mul (modp_mont_sqr b) a in
        let four : PowerP 0xfffffffffffffffd a4 =
          times 0xfffffffffffffffc 1 (modp_mont_sqr b) a (square 0x7ffffffffffffffe b pb) h in
        let a3 = modp_mont_mul a4 c.a2 in
        let p3 : PowerP 0x10000000000000000 a3 = times 0xfffffffffffffffd 3 a4 c.a2 four h'.two in
        let a5 = squarings 33 high in
        let five : PowerP 0xfffffffe0000000000000000 a5 =
          squarings-PowerP 33 0x7fffffff00000000 high ph in
        let a2 = modp_mont_mul a5 a3 in
        let two : PowerP 0xffffffff0000000000000000 a2 =
          times 0xfffffffe0000000000000000 0x10000000000000000 a5 a3 five p3 in
        record {
          two = two;
          three = times 0xffffffff0000000000000000 0x10000000000000000 a2 a3 two p3;
          four = four;
          five = five;
        }

  inv_round-Exponents :
      (k2 k3 k4 k5 : ℕ) (c : Chain)
      → Exponents k2 k3 k4 k5 c
      → Exponents
          (k5 * 2 ^ 32 + k3)
          (k5 * 2 ^ 32 + k3 + k3)
          (k5 * 2 ^ 32 + k3 + k4)
          (k5 * 2 ^ 32)
          (inv_round c)
  unfolding inv_round
  inv_round-Exponents k2 k3 k4 k5 c h =
      let a5 = squarings 32 c.a5 in
      let five = squarings-PowerP 32 k5 c.a5 h.five in
      let a2 = modp_mont_mul a5 c.a3 in
      let two = shifted 32 k5 k3 c.a5 c.a3 h.five h.three in
      record {
        two = two;
        three = times (k5 * 2 ^ 32 + k3) k3 a2 c.a3 two h.three;
        four = times (k5 * 2 ^ 32 + k3) k4 a2 c.a4 two h.four;
        five = five;
      }

  -- The chain ends at the exponent p - 2.
  modp_mont_inv-PowerP : (a : List ℕ) → Form p_modulus x a → PowerP (prime_p - 2) (modp_mont_inv a)
  unfolding modp_mont_inv
  modp_mont_inv-PowerP a h =
      let base = base-Power p_modulus p_inverse p_modulus-IsModulus x a h in
      let c0 = inv_middle a (inv_start a) in
      let e0 = inv_middle-Exponents a base (inv_start a) (inv_start-Exponents a base) in
      let e1 = inv_round-Exponents _ _ _ _ c0 e0 in
      let e2 = inv_round-Exponents _ _ _ _ (inv_round c0) e1 in
      let e3 = inv_round-Exponents _ _ _ _ (inv_round (inv_round c0)) e2 in
      let c4 = inv_round (inv_round (inv_round (inv_round c0))) in
      let e4 = inv_round-Exponents _ _ _ _ (inv_round (inv_round (inv_round c0))) e3 in
      times _ _ c4.a4 (squarings 32 c4.a5) e4.four (squarings-PowerP 32 _ c4.a5 e4.five)

-- The chain on an element in Montgomery form, taken out of it, is the power with the exponent p - 2.
pub modp_mont_inv_lem :
    (a : List ℕ)
    → ElementP a
    → ElementP (modp_from_mont (modp_mont_inv (modp_to_mont a)))
      × (value (modp_from_mont (modp_mont_inv (modp_to_mont a)))
          ≡ value a ^ (prime_p - 2) % prime_p)
unfolding modp_from_mont modp_to_mont
modp_mont_inv_lem a ha =
    let M = p_modulus in
    let h = p_modulus-IsModulus in
    let a' = Modular.to_mont M a in
    let power = modp_mont_inv a' in
    outcome_p (value a ^ (prime_p - 2)) (Modular.from_mont M power) (
      from_mont-Form M p_inverse h (value a ^ (prime_p - 2)) power
        (modp_mont_inv-PowerP (value a) a' (to_mont-Form M p_inverse h a ha)))
