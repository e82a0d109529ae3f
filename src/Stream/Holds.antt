-- ===== src/Stream/Holds.antt =====
-- A buffer that has been fed `seen` from the chaining value `c` holds what the loop makes of the
-- whole blocks of `seen`, and the bytes behind them. Every update keeps that, however the input
-- is cut.
use gm_ssl.Base.{ℕ, suc, ◌+◌, ◌-◌, ◌*◌, ◌/◌, ◌%◌, ◌≤◌, ◌<◌, arith, ◌≡◌, ◌∙◌}
use gm_ssl.Base.{List, [], ◌++◌, append_assoc, append-nil, length, take, drop, ltb, leb, ◌==◌}
use gm_ssl.Base.{length-take, take-append-drop, ltb→le, Bool-cases, inl, inr}
use gm_ssl.Base.{leb→lt, ltb→lt, ==→eq}
use gm_ssl.Mem.{write}
use gm_ssl.Mem.Laws.{length-write}
use gm_ssl.Stream.{Buffer, iterate, bulk, complete, absorb}
use gm_ssl.Stream.Kept.{Kept, Aligned, keep-Kept, blocks-Kept, add-Kept, filled-Aligned}
use native.Mathlib.Nat.{div-add-mod', mod-lt}

module _ {S : Type 0} (size : ℕ) (step : S → List ℕ → S × List ℕ) where
  -- Fewer bytes than a block are pending.
  abbrev pub Holds : S → List ℕ → List ℕ → Buffer S → Type 0
  Holds = Kept size step size

  within : size ≤ suc size
  within = omega arith

  bulk-Holds :
      (c : S) (seen written out : List ℕ) (b : Buffer S) (xs : List ℕ)
      → 0 < size
      → Aligned size step c seen (written ++ out) b.chain
      → length b.block ≡ size
      → Holds c (seen ++ xs) (written ++ (bulk size step b out xs).1) (bulk size step b out xs).0
  unfolding bulk
  bulk-Holds c seen written out b xs pos a e = elim (Bool-cases (leb size (length xs))) [
    | inl whole ↦
        rw (whole, ← append_assoc written out (iterate size step b.chain n xs).1)
          (blocks-Kept size step size within c seen (written ++ out) b n xs a e
            (omega (arith, below)) (omega (arith, below, mod-lt (length xs) pos)))
    | inr short ↦
        rw short
          (keep-Kept size step size within c seen (written ++ out) b xs a e (leb→lt _ _ short))
  ]
    where
      n : ℕ
      n = length xs / size

      below : n * size + length xs % size ≡ length xs
      below = div-add-mod' (length xs) size

  -- A started block is filled first.
  complete-Holds :
      (c : S) (seen written : List ℕ) (b : Buffer S) (filling rest : List ℕ)
      → 0 < size
      → Holds c seen written b
      → b.nbytes + length filling ≡ size
      → Holds c
          (seen ++ (filling ++ rest))
          (written ++ (complete size step b filling rest).1)
          (complete size step b filling rest).0
  unfolding complete
  complete-Holds c seen written b filling rest pos h full =
      let block = write b.block b.nbytes filling in
      let r = iterate size step b.chain 1 block in
      rw (← append_assoc seen filling rest) (
        bulk-Holds c (seen ++ filling) written r.1 (record b { chain = r.0; block = block }) rest
          pos (filled-Aligned size step size within c seen written b filling h full)
          (length-write b.block b.nbytes filling (omega (arith, h.block_size)) ∙ h.block_size))

  -- For any block size and step: if what was written is what the loop makes of the whole blocks of
  -- the bytes seen, and the buffer holds the bytes behind these and the chaining value, the same is
  -- so after an update, with its input seen and its output written too.
  pub absorb-Holds :
      (c : S) (seen written : List ℕ) (b : Buffer S) (xs : List ℕ)
      → Holds c seen written b
      → Holds c (seen ++ xs) (written ++ (absorb size step b xs).1) (absorb size step b xs).0
  unfolding absorb
  absorb-Holds c seen written b xs h = elim (Bool-cases (b.nbytes == 0)) [
    | inl empty ↦
        rw empty (bulk-Holds c seen written [] b xs pos (aligned (==→eq _ _ empty)) h.block_size)
    | inr started ↦ rw started (elim (Bool-cases (ltb (length xs) left)) [
      | inl few ↦
          rw few
            (add-Kept size step size within c seen written b xs h (omega (arith, ltb→lt _ _ few)))
      | inr fills ↦ rw fills (filled (ltb→le _ _ fills))
    ])
  ]
    where
      left : ℕ
      left = size - b.nbytes

      pos : 0 < size
      pos = omega (arith, h.partial)

      aligned : b.nbytes ≡ 0 → Aligned size step c seen (written ++ []) b.chain
      aligned e =
          rw (append-nil written)
            (record { nblocks = h.nblocks; counted = omega (arith, h.counted); ran = h.ran })

      filled :
          left ≤ length xs
          → Holds c
              (seen ++ xs)
              (written ++ (complete size step b (take left xs) (drop left xs)).1)
              (complete size step b (take left xs) (drop left xs)).0
      filled n = rw (take-append-drop left xs) at (
          complete-Holds c seen written b (take left xs) (drop left xs) pos h
            (omega (arith, length-take left xs, h.partial)))
