-- ===== src/Stream/Back.antt =====
-- What the buffer of sm4_cbc_decrypt_update holds: at least one byte and at most a whole block of
-- what it has been fed, if that is anything.
use gm_ssl.Base.{ℕ, suc, ◌+◌, ◌-◌, ◌*◌, ◌/◌, ◌%◌, ◌≤◌, ◌<◌, arith, ◌≡◌, ◌∙◌}
use gm_ssl.Base.{List, [], ◌++◌, append_assoc, append-nil, length, take, drop, ltb, leb, ◌==◌}
use gm_ssl.Base.{
  length-take, length-drop, length-append, take-append-drop, ltb→le, Bool-cases, inl, inr,
}
use gm_ssl.Base.{leb→lt, leb→le, ltb→lt, ==→eq, ==→ne}
use gm_ssl.Mem.{write}
use gm_ssl.Mem.Laws.{length-write}
use gm_ssl.Stream.{Buffer, iterate, keep, bulk_back, complete_back, absorb_back}
use gm_ssl.Stream.Kept.{Kept, Aligned, keep-Kept, blocks-Kept, add-Kept, filled-Aligned}
use native.Mathlib.Nat.{div-add-mod', mod-lt}

module _ {S : Type 0} (size : ℕ) (step : S → List ℕ → S × List ℕ) where
  pub record HoldsBack (c : S) (seen written : List ℕ) (b : Buffer S) : Type 0 where
    pub kept : Kept size step (suc size) c seen written b
    pub some_pending : b.nbytes ≡ 0 → length seen ≡ 0

  within : suc size ≤ suc size
  within = omega arith

  bulk_back-HoldsBack :
      (c : S) (seen written out : List ℕ) (b : Buffer S) (xs : List ℕ)
      → 0 < size
      → Aligned size step c seen (written ++ out) b.chain
      → length b.block ≡ size
      → (length xs ≡ 0 → length seen ≡ 0)
      → HoldsBack c
          (seen ++ xs)
          (written ++ (bulk_back size step b out xs).1)
          (bulk_back size step b out xs).0
  unfolding bulk_back keep
  bulk_back-HoldsBack c seen written out b xs pos a e some =
      elim (Bool-cases (ltb size (length xs))) [
        | inl many ↦
            rw (many, ← append_assoc written out (iterate size step b.chain n xs).1)
              (record {
                kept =
                    blocks-Kept size step (suc size) within c seen (written ++ out) b n xs a e
                      (omega (arith, below, ltb→lt _ _ many))
                      (omega (arith, below, mod-lt (length xs - 1) pos));
                some_pending = λ z.
                    absurd (omega (arith, z, length-drop (n * size) xs, below, ltb→lt _ _ many));
              })
        | inr few ↦ rw few (record {
          kept =
              keep-Kept size step (suc size) within c seen (written ++ out) b xs a e
                (omega (arith, ltb→le _ _ few));
          some_pending = λ z. omega (arith, length-append seen xs, some z);
        })
      ]
    where
      n : ℕ
      n = (length xs - 1) / size

      below : n * size + (length xs - 1) % size ≡ length xs - 1
      below = div-add-mod' (length xs - 1) size

  complete_back-HoldsBack :
      (c : S) (seen written : List ℕ) (b : Buffer S) (filling rest : List ℕ)
      → 0 < size
      → Kept size step (suc size) c seen written b
      → b.nbytes + length filling ≡ size
      → 0 < length rest
      → HoldsBack c
          (seen ++ (filling ++ rest))
          (written ++ (complete_back size step b filling rest).1)
          (complete_back size step b filling rest).0
  unfolding complete_back
  complete_back-HoldsBack c seen written b filling rest pos h full more =
      let block = write b.block b.nbytes filling in
      let r = iterate size step b.chain 1 block in
      rw (← append_assoc seen filling rest) (
        bulk_back-HoldsBack c (seen ++ filling) written r.1
          (record b { chain = r.0; block = block }) rest pos
          (filled-Aligned size step (suc size) within c seen written b filling h full)
          (length-write b.block b.nbytes filling (omega (arith, h.block_size)) ∙ h.block_size)
          (λ none. absurd (omega arith)))

  -- For any block size above 0 and any step: if the buffer holds back at least one byte of all that
  -- was seen, and at most a block, and what was written is what the loop makes of the rest, the same
  -- is so after an update.
  pub absorb_back-HoldsBack :
      (c : S) (seen written : List ℕ) (b : Buffer S) (xs : List ℕ)
      → 0 < size
      → HoldsBack c seen written b
      → HoldsBack c
          (seen ++ xs)
          (written ++ (absorb_back size step b xs).1)
          (absorb_back size step b xs).0
  unfolding absorb_back
  absorb_back-HoldsBack c seen written b xs pos h = elim (Bool-cases (b.nbytes == 0)) [
    | inl empty ↦ rw empty (
        bulk_back-HoldsBack c seen written [] b xs pos (aligned (==→eq _ _ empty)) h.kept.block_size
          (λ _. h.some_pending (==→eq _ _ empty)))
    | inr started ↦ rw started (elim (Bool-cases (leb (length xs) left)) [
      | inl few ↦ rw few (record {
        kept =
            add-Kept size step (suc size) within c seen written b xs h.kept
              (omega (arith, leb→le _ _ few, h.kept.partial));
        some_pending = λ z. absurd (omega (arith, ==→ne _ _ started));
      })
      | inr fills ↦ rw fills (filled (leb→lt _ _ fills))
    ])
  ]
    where
      left : ℕ
      left = size - b.nbytes

      aligned : b.nbytes ≡ 0 → Aligned size step c seen (written ++ []) b.chain
      aligned e = rw (append-nil written) (record {
        nblocks = h.kept.nblocks;
        counted = omega (arith, h.kept.counted);
        ran = h.kept.ran;
      })

      filled :
          left < length xs
          → HoldsBack c
              (seen ++ xs)
              (written ++ (complete_back size step b (take left xs) (drop left xs)).1)
              (complete_back size step b (take left xs) (drop left xs)).0
      filled n = rw (take-append-drop left xs) at (
          complete_back-HoldsBack c seen written b (take left xs) (drop left xs) pos h.kept
            (omega (arith, length-take left xs, h.kept.partial))
            (omega (arith, length-drop left xs)))
