-- ===== src/Stream/Loop.antt =====
-- Laws of the `*_blocks` loops: they stop and go on at any block, and look at no byte behind
-- the last one.
use gm_ssl.Base.{ℕ, zero, suc, ◌+◌, ◌*◌, ◌≤◌, arith, ◌≡◌, refl}
use gm_ssl.Base.{List, ◌++◌, append_assoc, length, take, drop, length-drop}
use gm_ssl.Base.{take-append_le, drop-append_le, drop-drop}
use gm_ssl.Stream.{iterate}

module _ {S : Type 0} (size : ℕ) (step : S → List ℕ → S × List ℕ) where
  pub iterate-append :
      (c : S) (n : ℕ) (xs ys : List ℕ)
      → n * size ≤ length xs
      → iterate size step c n (xs ++ ys) ≡ iterate size step c n xs
  unfolding iterate
  iterate-append c zero xs ys h = refl
  iterate-append c (suc n) xs ys h = rw (
    take-append_le size xs ys (omega arith),
    drop-append_le size xs ys (omega arith),
    iterate-append (step c (take size xs)).0 n (drop size xs) ys
        (omega (arith, length-drop size xs)),
  )

  -- The two halves of a run, put together.
  abbrev pub continue : S × List ℕ → ℕ → List ℕ → S × List ℕ
  continue r n input = let r' = iterate size step r.0 n input in (r'.0, r.1 ++ r'.1)

  pub iterate-add :
      (c : S) (m n : ℕ) (input : List ℕ)
      → iterate size step c (m + n) input
        ≡ continue (iterate size step c m input) n (drop (m * size) input)
  unfolding iterate
  iterate-add c zero n input =
      let e : 0 + n ≡ n = omega arith in let e' : 0 * size ≡ 0 = omega arith in rw (e, e')
  iterate-add c (suc m) n input =
      let e : suc m + n ≡ suc (m + n) = omega arith in
      let e' : suc m * size ≡ size + m * size = omega arith in
      rw (
        e,
        e',
        ← drop-drop size (m * size) input,
        iterate-add (step c (take size input)).0 m n (drop size input),
        append_assoc,
      )
