-- ===== src/Sm2/Limbs/Laws.antt =====
-- What the words of a result stand for.
use Prim.Native.Nat.{compare}
use gm_ssl.Base.{ℕ, ◌+◌, ◌*◌, ◌^◌, ◌≤◌, arith, ◌≡◌, refl, List, [], ◌∷◌, ◌++◌}
use gm_ssl.Base.{length, All, IsU64}
use gm_ssl.Sm2.Limbs.{add_word, add_limbs, sub_word, sub_limbs, cmp_limbs}

-- The number that words stand for.
unfoldable pub value : List ℕ → ℕ
value [] = 0
value (w ∷ ws) = w + 2 ^ 64 * value ws

-- A number of `n` words.
pub record IsWords (n : ℕ) (ws : List ℕ) : Type 0 where
  pub words : All IsU64 ws
  pub size : length ws ≡ n

add_word_lem :
    (c a b : ℕ)
    → c ≤ 1
    → IsU64 a
    → IsU64 b
    → ((add_word c a b).0 + 2 ^ 64 * (add_word c a b).1 ≡ a + b + c)
      × ((add_word c a b).1 ≤ 1)
      × IsU64 (add_word c a b).0
unfolding add_word
add_word_lem c a b hc ha hb = ground arith

sub_word_lem :
    (c a b : ℕ)
    → c ≤ 1
    → IsU64 a
    → IsU64 b
    → (a + 2 ^ 64 * (sub_word c a b).1 ≡ (sub_word c a b).0 + b + c)
      × ((sub_word c a b).1 ≤ 1)
      × IsU64 (sub_word c a b).0
unfolding sub_word
sub_word_lem c a b hc ha hb = ground arith

-- The sum with its carry as one more word, however many words there are.
pub record Sums (as' bs : List ℕ) (c : ℕ) (r : List ℕ × ℕ) : Type 0 where
  pub total : value (r.0 ++ (r.1 ∷ [])) ≡ value as' + value bs + c
  pub carry : r.1 ≤ 1
  pub words : All IsU64 r.0
  pub size : length r.0 ≡ length as'

pub add_limbs_lem :
    (c : ℕ) (as' bs : List ℕ)
    → c ≤ 1
    → length as' ≡ length bs
    → All IsU64 as'
    → All IsU64 bs
    → Sums as' bs c (add_limbs c as' bs)
unfolding add_limbs value
add_limbs_lem c [] [] hc e ha hb = record {
  total = omega arith;
  carry = hc;
  words = tt;
  size = refl;
}
add_limbs_lem c [] (b ∷ bs) hc e ha hb = absurd (omega arith)
add_limbs_lem c (a ∷ as') [] hc e ha hb = absurd (omega arith)
add_limbs_lem c (a ∷ as') (b ∷ bs) hc e ha hb =
    let now = add_word_lem c a b hc ha.0 hb.0 in
    let later : Sums as' bs (add_word c a b).1 (add_limbs (add_word c a b).1 as' bs) =
      add_limbs_lem (add_word c a b).1 as' bs now.1 (omega arith) ha.1 hb.1 in
    record {
      total = omega (arith, now.0, later.total);
      carry = later.carry;
      words = (now.2, later.words);
      size = omega (arith, later.size);
    }

-- The difference with its borrow.
pub record Differs (as' bs : List ℕ) (c : ℕ) (r : List ℕ × ℕ) : Type 0 where
  pub total : value (as' ++ (r.1 ∷ [])) ≡ value r.0 + value bs + c
  pub borrow : r.1 ≤ 1
  pub words : All IsU64 r.0
  pub size : length r.0 ≡ length as'

pub sub_limbs_lem :
    (c : ℕ) (as' bs : List ℕ)
    → c ≤ 1
    → length as' ≡ length bs
    → All IsU64 as'
    → All IsU64 bs
    → Differs as' bs c (sub_limbs c as' bs)
unfolding sub_limbs value
sub_limbs_lem c [] [] hc e ha hb = record {
  total = omega arith;
  borrow = hc;
  words = tt;
  size = refl;
}
sub_limbs_lem c [] (b ∷ bs) hc e ha hb = absurd (omega arith)
sub_limbs_lem c (a ∷ as') [] hc e ha hb = absurd (omega arith)
sub_limbs_lem c (a ∷ as') (b ∷ bs) hc e ha hb =
    let now = sub_word_lem c a b hc ha.0 hb.0 in
    let later : Differs as' bs (sub_word c a b).1 (sub_limbs (sub_word c a b).1 as' bs) =
      sub_limbs_lem (sub_word c a b).1 as' bs now.1 (omega arith) ha.1 hb.1 in
    record {
      total = omega (arith, now.0, later.total);
      borrow = later.borrow;
      words = (now.2, later.words);
      size = omega (arith, later.size);
    }

-- The words decide as the numbers that they stand for.
pub cmp_limbs-compare :
    (as' bs : List ℕ)
    → length as' ≡ length bs
    → All IsU64 as'
    → All IsU64 bs
    → cmp_limbs as' bs ≡ compare (value as') (value bs)
unfolding cmp_limbs value
cmp_limbs-compare [] [] e ha hb = refl
cmp_limbs-compare [] (b ∷ bs) e ha hb = absurd (omega arith)
cmp_limbs-compare (a ∷ as') [] e ha hb = absurd (omega arith)
cmp_limbs-compare (a ∷ as') (b ∷ bs) e ha hb =
    rw (cmp_limbs-compare as' bs (omega arith) ha.1 hb.1) (ground arith)
