-- ===== src/Stream/Tests.antt =====
-- The theorems at concrete inputs.
use gm_ssl.Base.{ℕ, List, [], ◌∷◌, ◌++◌, refl, arith, ◌+◌}
use gm_ssl.Stream.{Buffer, iterate, absorb_back}
use gm_ssl.Stream.Back.{HoldsBack, absorb_back-HoldsBack}
use gm_ssl.Stream.Holds.{Holds}

-- A loop over blocks of two bytes that counts them and writes the first byte of each.
abbrev counting : ℕ → List ℕ → ℕ × List ℕ
counting n [] = (n + 1, [])
counting n (b ∷ bs) = (n + 1, b ∷ [])

abbrev started : Buffer ℕ
started = record { chain = 1; block = 7 ∷ 6 ∷ []; nbytes = 1 }

started-Holds : Holds 2 counting 0 (5 ∷ 6 ∷ 7 ∷ []) (5 ∷ []) started
started-Holds = record {
  nblocks = 1;
  counted = refl;
  partial = omega arith;
  block_size = refl;
  pending = refl;
  ran = unfold iterate in refl;
}

started-HoldsBack : HoldsBack 2 counting 0 (5 ∷ 6 ∷ 7 ∷ []) (5 ∷ []) started
started-HoldsBack = record {
  kept = record {
    nblocks = 1;
    counted = refl;
    partial = omega arith;
    block_size = refl;
    pending = refl;
    ran = unfold iterate in refl;
  };
  some_pending = λ none_pending. absurd (omega arith);
}

absorb_back-HoldsBack_example :
    HoldsBack 2 counting 0
      (5 ∷ 6 ∷ 7 ∷ 8 ∷ 9 ∷ [])
      ((5 ∷ []) ++ (absorb_back 2 counting started (8 ∷ 9 ∷ [])).1)
      (absorb_back 2 counting started (8 ∷ 9 ∷ [])).0
absorb_back-HoldsBack_example =
    absorb_back-HoldsBack 2 counting 0 (5 ∷ 6 ∷ 7 ∷ []) (5 ∷ []) started (8 ∷ 9 ∷ []) (omega arith)
      started-HoldsBack
