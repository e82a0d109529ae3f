-- ===== src/Stream/Kept.antt =====
-- What a buffer holds between two updates, and what the steps of an update do to it. How many bytes
-- may be pending is a parameter: the updates differ in that.
use gm_ssl.Base.{ℕ, suc, ◌+◌, ◌*◌, ◌≤◌, ◌<◌, arith, ◌≡◌, refl, sym, ap, ◌∙◌}
use gm_ssl.Base.{List, [], ◌++◌, append_assoc, append-nil, length, take, drop}
use gm_ssl.Base.{length-append, length-take, length-drop, take-append-drop, drop-append_le}
use gm_ssl.Base.{drop-append_eq}
use gm_ssl.Mem.{write}
use gm_ssl.Mem.Laws.{length-write, take-write, write_full}
use gm_ssl.Stream.{Buffer, iterate, keep}
use gm_ssl.Stream.Loop.{iterate-append, iterate-add}

module _ {S : Type 0} (size : ℕ) (step : S → List ℕ → S × List ℕ) where
  -- `written` is all that has been written since the buffer was set up; fewer than `limit` bytes
  -- are pending.
  pub record Kept (limit : ℕ) (c : S) (seen written : List ℕ) (b : Buffer S) : Type 0 where
    pub nblocks : ℕ
    pub counted : length seen ≡ nblocks * size + b.nbytes
    pub partial : b.nbytes < limit
    pub block_size : length b.block ≡ size
    pub pending : take b.nbytes b.block ≡ drop (nblocks * size) seen
    pub ran : iterate size step c nblocks seen ≡ (b.chain, written)

  -- The same where no bytes are pending; what the block holds does not matter.
  pub record Aligned (c : S) (seen written : List ℕ) (chain : S) : Type 0 where
    pub nblocks : ℕ
    pub counted : length seen ≡ nblocks * size
    pub ran : iterate size step c nblocks seen ≡ (chain, written)

  -- More whole blocks.
  Aligned-iterate :
      (c : S) (seen written : List ℕ) (chain : S) (n : ℕ) (xs : List ℕ)
      → Aligned c seen written chain
      → length xs ≡ n * size
      → Aligned c
          (seen ++ xs)
          (written ++ (iterate size step chain n xs).1)
          (iterate size step chain n xs).0
  Aligned-iterate c seen written chain n xs a e = record {
    nblocks = a.nblocks + n;
    counted = omega (arith, length-append seen xs, a.counted, e);
    ran =
        rw
          (
            iterate-add size step c a.nblocks n (seen ++ xs),
            iterate-append size step c a.nblocks seen xs (omega (arith, a.counted)),
            a.ran,
            drop-append_eq (a.nblocks * size) seen xs a.counted,
          )
          refl;
  }

  module _ (limit : ℕ) (fits : limit ≤ suc size) where
    -- Few bytes are only kept.
    pub keep-Kept :
        (c : S) (seen written : List ℕ) (b : Buffer S) (xs : List ℕ)
        → Aligned c seen written b.chain
        → length b.block ≡ size
        → length xs < limit
        → Kept limit c (seen ++ xs) written (keep size step b xs)
    unfolding keep
    keep-Kept c seen written b xs a e h = record {
      nblocks = a.nblocks;
      counted = omega (arith, length-append seen xs, a.counted);
      partial = h;
      block_size = length-write b.block 0 xs (omega arith) ∙ e;
      pending = kept ∙ sym (drop-append_eq (a.nblocks * size) seen xs a.counted);
      ran = iterate-append size step c a.nblocks seen xs (omega (arith, a.counted)) ∙ a.ran;
    }
      where
        kept : take (length xs) (write b.block 0 xs) ≡ xs
        kept =
            let z : 0 + length xs ≡ length xs = omega arith in
            rw z at (take-write b.block 0 xs (omega arith))

    -- `n` whole blocks go through the loop, and the bytes behind them are kept.
    pub blocks-Kept :
        (c : S) (seen written : List ℕ) (b : Buffer S) (n : ℕ) (xs : List ℕ)
        → Aligned c seen written b.chain
        → length b.block ≡ size
        → n * size ≤ length xs
        → length xs < n * size + limit
        → Kept limit c (seen ++ xs) (written ++ (iterate size step b.chain n xs).1) (
            keep size step
              (record b { chain = (iterate size step b.chain n xs).0 })
              (drop (n * size) xs))
    blocks-Kept c seen written b n xs a e enough few =
        rw split
          (keep-Kept c (seen ++ body) (written ++ o) (record b { chain = c' }) rest after e shorter)
      where
        body : List ℕ
        body = take (n * size) xs

        rest : List ℕ
        rest = drop (n * size) xs

        c' : S
        c' = (iterate size step b.chain n xs).0

        o : List ℕ
        o = (iterate size step b.chain n xs).1

        split : seen ++ xs ≡ (seen ++ body) ++ rest
        split =
            ap (λ t. seen ++ t) (sym (take-append-drop (n * size) xs))
            ∙ sym (append_assoc seen body rest)

        shorter : length rest < limit
        shorter = omega (arith, length-drop (n * size) xs)

        body_size : length body ≡ n * size
        body_size = omega (arith, length-take (n * size) xs)

        same : iterate size step b.chain n body ≡ iterate size step b.chain n xs
        same =
            sym (iterate-append size step b.chain n body rest (omega (arith, body_size)))
            ∙ ap (λ t. iterate size step b.chain n t) (take-append-drop (n * size) xs)

        after : Aligned c (seen ++ body) (written ++ o) c'
        after = rw same at (Aligned-iterate c seen written b.chain n body a body_size)

    -- Bytes that the block has room for are only added to it.
    pub add-Kept :
        (c : S) (seen written : List ℕ) (b : Buffer S) (xs : List ℕ)
        → Kept limit c seen written b
        → b.nbytes + length xs < limit
        → Kept limit c
            (seen ++ xs)
            (written ++ [])
            (record b { block = write b.block b.nbytes xs; nbytes = b.nbytes + length xs })
    add-Kept c seen written b xs h below = rw (append-nil written) (record {
      nblocks = h.nblocks;
      counted = omega (arith, length-append seen xs, h.counted);
      partial = below;
      block_size = length-write b.block b.nbytes xs (omega (arith, h.block_size)) ∙ h.block_size;
      pending =
          take-write b.block b.nbytes xs (omega (arith, h.block_size))
          ∙ ap (λ t. t ++ xs) h.pending
          ∙ sym (drop-append_le (h.nblocks * size) seen xs (omega (arith, h.counted)));
      ran = iterate-append size step c h.nblocks seen xs (omega (arith, h.counted)) ∙ h.ran;
    })

    -- A started block: what fills it completes the bytes that it holds, and it goes through the loop.
    pub filled-Aligned :
        (c : S) (seen written : List ℕ) (b : Buffer S) (filling : List ℕ)
        → Kept limit c seen written b
        → b.nbytes + length filling ≡ size
        → Aligned c
            (seen ++ filling)
            (written ++ (iterate size step b.chain 1 (write b.block b.nbytes filling)).1)
            (iterate size step b.chain 1 (write b.block b.nbytes filling)).0
    filled-Aligned c seen written b filling h full = record {
      nblocks = h.nblocks + 1;
      counted = omega (arith, length-append seen filling, h.counted);
      ran =
          rw
            (
              iterate-add size step c h.nblocks 1 (seen ++ filling),
              iterate-append size step c h.nblocks seen filling (omega (arith, h.counted)),
              h.ran,
              drop-append_le (h.nblocks * size) seen filling (omega (arith, h.counted)),
              filled,
            )
            refl;
    }
      where
        filled : drop (h.nblocks * size) seen ++ filling ≡ write b.block b.nbytes filling
        filled =
            ap (λ t. t ++ filling) (sym h.pending)
            ∙ sym (write_full b.block b.nbytes filling (omega (arith, h.block_size)))
