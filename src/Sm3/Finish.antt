-- ===== src/Sm3/Finish.antt =====
-- However a message is cut into updates, `sm3_finish` returns the hash of the whole message.
use gm_ssl.Base.{ℕ, ◌+◌, ◌-◌, ◌*◌, ◌/◌, ◌^◌, ◌≤◌, ◌<◌, arith, ◌≡◌, refl, sym}
use gm_ssl.Base.{ap, ap₂, ◌∙◌, List, [], ◌∷◌, ◌++◌, append_assoc, append-nil, length, take, drop}
use gm_ssl.Base.{replicate, leb, length-append, length-replicate, length-drop, Bool-cases, inl, inr}
use gm_ssl.Base.{leb→le, leb→lt}
use gm_ssl.Base.{drop_all, replicate-add}
use gm_ssl.Endian.{putu32}
use gm_ssl.Mem.{write}
use gm_ssl.Mem.Laws.{write_behind}
use gm_ssl.Stream.Holds.{Holds}
use gm_ssl.Sm3.{Ctx, iv, step, init_chain, init, updates, close, finish, digest_bytes}
use gm_ssl.Sm3.Compress.{compress}
use gm_ssl.Sm3.Spec.{zeros, length_field, padding, compress_all, hash}
use gm_ssl.Sm3.Fed.{Fed, updates-Fed, init-Fed, iterate-step, close_lem, one_block}
use gm_ssl.Base.{joined}
use gm_ssl.Sm3.Fed.{two_blocks, mask-lt}

zeros_one : (k num : ℕ) → num ≤ 55 → zeros (k * 64 + num) ≡ 55 - num
unfolding zeros
zeros_one k num h = ground arith

zeros_two : (k num : ℕ) → 55 < num → num < 64 → zeros (k * 64 + num) ≡ 63 - num + 56
unfolding zeros
zeros_two k num h h' = ground arith

length-length_field : (n : ℕ) → length (length_field n) ≡ 8
unfolding length_field putu32
length-length_field n = refl

length-padding : (n : ℕ) → length (padding n) ≡ 9 + zeros n
unfolding padding
length-padding n = omega (
  arith,
  length-append (replicate (zeros n) 0) (length_field n),
  length-replicate {A = ℕ} (zeros n) 0,
  length-length_field n,
)

module _ (seen : List ℕ) (k num : ℕ) (block : List ℕ) where
  -- What `Fed` says of the parts of the context.
  record Parts : Type 0 where
    counted : length seen ≡ k * 64 + num
    few : num < 64
    block_size : length block ≡ 64
    pending : take num block ≡ drop (k * 64) seen
    fits : length seen < 2 ^ 61

  abbrev marked : List ℕ
  marked = write block num (0x80 ∷ [])

  abbrev front : List ℕ
  front = drop (k * 64) seen ++ (0x80 ∷ [])

  length-front : Parts → length front ≡ num + 1
  length-front p =
      omega (
        arith,
        length-append (drop (k * 64) seen) (0x80 ∷ []),
        length-drop (k * 64) seen,
        p.counted,
      )

  marked_lem : Parts → marked ≡ front ++ drop (num + 1) block
  unfolding write
  marked_lem p =
      ap (λ t. t ++ (0x80 ∷ drop (num + 1) block)) p.pending
      ∙ sym (append_assoc (drop (k * 64) seen) (0x80 ∷ []) (drop (num + 1) block))

  -- The block with the mark and `n` zero bytes.
  zeroed :
      (n : ℕ)
      → Parts
      → write marked (num + 1) (replicate n 0)
        ≡ (front ++ replicate n 0) ++ drop n (drop (num + 1) block)
  zeroed n p =
      rw
        (
          marked_lem p,
          write_behind front (drop (num + 1) block) (num + 1) (replicate n 0) (length-front p),
          length-replicate {A = ℕ} n 0,
          ← append_assoc front (replicate n 0) (drop n (drop (num + 1) block)),
        )
        refl

  finish_one :
      Parts
      → num ≤ 55
      → close (compress_all iv k seen) k num (write marked (num + 1) (replicate (64 - num - 9) 0))
        ≡ compress_all iv (k + 1) (seen ++ padding (length seen))
  finish_one p h =
      ap (λ b. close (compress_all iv k seen) k num b) (zeroed (64 - num - 9) p)
      ∙ close_lem (compress_all iv k seen) k num (front ++ replicate (64 - num - 9) 0)
          (drop (64 - num - 9) (drop (num + 1) block))
          (omega (
            arith,
            length-append front (replicate (64 - num - 9) 0),
            length-front p,
            length-replicate {A = ℕ} (64 - num - 9) 0,
          ))
          (omega (
            arith,
            length-drop (64 - num - 9) (drop (num + 1) block),
            length-drop (num + 1) block,
            p.block_size,
          ))
          (omega (arith, p.counted, p.fits)) p.few
      ∙ ap (λ b. compress (compress_all iv k seen) b) last_block
      ∙ sym (
          one_block iv k seen (padding (length seen)) (omega (arith, p.counted, p.few))
            (omega (arith, p.counted)) (omega (arith, p.counted, padding_size)))
    where
      zero_count : zeros (length seen) ≡ 64 - num - 9
      zero_count = ap zeros p.counted ∙ zeros_one k num h ∙ omega arith

      last_block :
          (front ++ replicate (64 - num - 9) 0) ++ length_field (k * 64 + num)
          ≡ drop (k * 64) seen ++ padding (length seen)
      last_block = unfold padding in rw (zero_count, ← p.counted, append_assoc, append_assoc) refl

      padding_size : length (padding (length seen)) ≡ 64 - num
      padding_size = omega (arith, length-padding (length seen), zero_count)

  finish_two :
      Parts
      → 55 < num
      → close
          (compress (compress_all iv k seen) (write marked (num + 1) (replicate (64 - num - 1) 0)))
          k
          num
          (write (write marked (num + 1) (replicate (64 - num - 1) 0)) 0 (replicate 56 0))
        ≡ compress_all iv (k + 2) (seen ++ padding (length seen))
  unfolding write
  finish_two p h =
      close_lem (compress (compress_all iv k seen) full) k num (replicate 56 0) (drop 56 full) refl
        (omega (arith, length-drop 56 full, full_size)) (omega (arith, p.counted, p.fits)) p.few
      ∙ ap₂
          (λ b n. compress (compress (compress_all iv k seen) b) (replicate 56 0 ++ length_field n))
          (full_lem ∙ append_assoc (drop (k * 64) seen) (0x80 ∷ []) (replicate (64 - num - 1) 0))
          (sym p.counted)
      ∙ sym (
          two_blocks iv k seen (0x80 ∷ replicate (64 - num - 1) 0)
            (replicate 56 0 ++ length_field (length seen)) (omega (arith, p.counted, p.few))
            (omega (arith, p.counted))
            (omega (arith, p.counted, length-replicate {A = ℕ} (64 - num - 1) 0))
            (omega (arith, length-length_field (length seen))))
      ∙ ap (λ t. compress_all iv (k + 2) (seen ++ t)) (sym padding_lem)
    where
      full : List ℕ
      full = write marked (num + 1) (replicate (64 - num - 1) 0)

      full_lem : full ≡ front ++ replicate (64 - num - 1) 0
      full_lem =
          zeroed (64 - num - 1) p
          ∙ ap (λ t. (front ++ replicate (64 - num - 1) 0) ++ t)
              (drop_all (64 - num - 1) (drop (num + 1) block)
                (omega (arith, length-drop (num + 1) block, p.block_size)))
          ∙ append-nil (front ++ replicate (64 - num - 1) 0)

      full_size : length full ≡ 64
      full_size =
          ap length full_lem
          ∙ omega (
            arith,
            length-append front (replicate (64 - num - 1) 0),
            length-front p,
            length-replicate {A = ℕ} (64 - num - 1) 0,
          )

      zero_count : zeros (length seen) ≡ 64 - num - 1 + 56
      zero_count = ap zeros p.counted ∙ zeros_two k num h p.few ∙ omega arith

      padding_lem :
          padding (length seen)
          ≡ (0x80 ∷ replicate (64 - num - 1) 0) ++ (replicate 56 0 ++ length_field (length seen))
      padding_lem =
          unfold padding in
          rw (zero_count, replicate-add {A = ℕ} (64 - num - 1) 56 0, append_assoc) refl

-- However a message of fewer than 2 ^ 61 bytes is cut into calls of `sm3_update`, `sm3_finish`
-- returns the hash of the whole message as the standard defines it: with the padding, and the
-- compression of whole blocks.
pub finish-updates :
    (xs : List (List ℕ)) → length (joined xs) < 2 ^ 61 → finish (updates init xs) ≡ hash (joined xs)
unfolding finish hash
finish-updates xs fits =
    rw (mask-lt ctx.nbytes held.partial, digest_lem, count_lem)
      (elim (Bool-cases (leb ctx.nbytes 55)) [
        | inl few ↦
            rw (few, whole_blocks 1 (one (leb→le _ _ few)))
              (ap digest_bytes (finish_one seen k ctx.nbytes ctx.block parts (leb→le _ _ few)))
        | inr many ↦
            rw (many, whole_blocks 2 (two (leb→lt _ _ many)))
              (ap digest_bytes (finish_two seen k ctx.nbytes ctx.block parts (leb→lt _ _ many)))
      ])
  where
    seen : List ℕ
    seen = joined xs

    ctx : Ctx
    ctx = updates init xs

    fed : Fed seen ctx
    fed = updates-Fed [] xs init init-Fed

    held : Holds 64 step init_chain seen fed.written ctx
    held = fed.held

    k : ℕ
    k = held.nblocks

    chain_lem : ctx.chain ≡ record { digest = compress_all iv k seen; nblocks = 0 + k }
    chain_lem =
        sym (ap (λ r. r.0) held.ran) ∙ iterate-step init_chain k seen (omega (arith, held.counted))

    digest_lem : ctx.chain.digest ≡ compress_all iv k seen
    digest_lem = ap (λ c. c.digest) chain_lem

    count_lem : ctx.chain.nblocks ≡ k
    count_lem = ap (λ c. c.nblocks) chain_lem ∙ omega arith

    parts : Parts seen k ctx.nbytes ctx.block
    parts = record {
      counted = held.counted;
      few = held.partial;
      block_size = held.block_size;
      pending = held.pending;
      fits = fits;
    }

    one : ctx.nbytes ≤ 55 → length seen + length (padding (length seen)) ≡ (k + 1) * 64
    one h = omega (
      arith,
      held.counted,
      length-padding (length seen),
      ap zeros held.counted,
      zeros_one k ctx.nbytes h,
    )

    two : 55 < ctx.nbytes → length seen + length (padding (length seen)) ≡ (k + 2) * 64
    two h = omega (
      arith,
      held.counted,
      held.partial,
      length-padding (length seen),
      ap zeros held.counted,
      zeros_two k ctx.nbytes h held.partial,
    )

    whole_blocks :
        (n : ℕ)
        → length seen + length (padding (length seen)) ≡ (k + n) * 64
        → length (seen ++ padding (length seen)) / 64 ≡ k + n
    whole_blocks n e = omega (arith, length-append seen (padding (length seen)), e)
