-- ===== src/Sm3/Fed.antt =====
-- What `sm3_update` leaves in the context, and the parts of `sm3_finish`.
use gm_ssl.Base.{joined}
use gm_ssl.Base.{ℕ, zero, suc, ◌+◌, ◌*◌, ◌^◌, ◌≤◌, ◌<◌, bit_and, arith, ◌≡◌, refl}
use gm_ssl.Base.{ap, ap₂, ◌∙◌, List, [], ◌∷◌, ◌++◌, append_assoc, append-nil, length, take, drop}
use gm_ssl.Base.{u64, ◌<<<◌, ◌>>>◌, length-append, length-drop}
use gm_ssl.Base.{take_all, drop_all}
use gm_ssl.Base.{drop-append_le}
use gm_ssl.Base.Bits.{bit_and_mask}
use gm_ssl.Endian.{putu32}
use gm_ssl.Endian.Laws.{length-putu32}
use gm_ssl.Mem.{write}
use gm_ssl.Mem.Laws.{write_behind}
use gm_ssl.Stream.{iterate, absorb}
use gm_ssl.Stream.Holds.{Holds, absorb-Holds}
use gm_ssl.Sm3.{Chain, Ctx, step, init_chain, init, update, updates, close}
use gm_ssl.Sm3.Compress.{Vars, compress}
use gm_ssl.Sm3.Spec.{length_field, compress_all}
use gm_ssl.Sm3.Spec.{compress_all-append, compress_all-add}

-- The context has been fed `seen`.
pub record Fed (seen : List ℕ) (ctx : Ctx) : Type 0 where
  pub written : List ℕ
  pub held : Holds 64 step init_chain seen written ctx

pub init-Fed : Fed [] init
unfolding init
init-Fed = record {
  written = [];
  held = record {
    nblocks = 0;
    counted = refl;
    partial = omega arith;
    block_size = refl;
    pending = refl;
    ran = unfold iterate in refl;
  };
}

pub mask-lt : (n : ℕ) → n < 64 → bit_and n 0x3f ≡ n
mask-lt n h = omega (arith, bit_and_mask 6 n)

update-Fed : (seen xs : List ℕ) (ctx : Ctx) → Fed seen ctx → Fed (seen ++ xs) (update ctx xs)
unfolding update
update-Fed seen xs ctx f =
    rw (mask-lt ctx.nbytes f.held.partial, update)
      (record {
        written = f.written ++ (absorb 64 step ctx xs).1;
        held = absorb-Holds 64 step init_chain seen f.written ctx xs f.held;
      })

pub updates-Fed :
    (seen : List ℕ) (xs : List (List ℕ)) (ctx : Ctx)
    → Fed seen ctx
    → Fed (seen ++ joined xs) (updates ctx xs)
unfolding updates
updates-Fed seen [] ctx f = rw (append-nil seen) f
updates-Fed seen (x ∷ xs) ctx f =
    rw (← append_assoc seen x (joined xs))
      (updates-Fed (seen ++ x) xs (update ctx x) (update-Fed seen x ctx f))

-- The loop of `sm3_compress_blocks` and the count.
pub iterate-step :
    (s : Chain) (n : ℕ) (xs : List ℕ)
    → s.nblocks + n < 2 ^ 64
    → (iterate 64 step s n xs).0
      ≡ record { digest = compress_all s.digest n xs; nblocks = s.nblocks + n }
unfolding iterate step compress_all
iterate-step s zero xs h = λ i. record { digest = s.digest; nblocks = count i }
  where
    count : s.nblocks ≡ s.nblocks + 0
    count = omega arith
iterate-step s (suc n) xs h =
    iterate-step (step s (take 64 xs)).0 n (drop 64 xs) (omega arith) ∙ (λ i. record {
      digest = compress_all (compress s.digest (take 64 xs)) n (drop 64 xs);
      nblocks = count i;
    })
  where
    count : u64 (s.nblocks + 1) + n ≡ s.nblocks + suc n
    count = omega arith

-- The two length words behind 56 final bytes.
fill :
    (a t hi lo : List ℕ)
    → length a ≡ 56
    → length t ≡ 8
    → length hi ≡ 4
    → length lo ≡ 4
    → write (write (a ++ t) 56 hi) 60 lo ≡ a ++ (hi ++ lo)
fill a t hi lo ha ht hh hl =
    rw
      (
        write_behind a t 56 hi ha,
        ← append_assoc a hi (drop (length hi) t),
        write_behind (a ++ hi) (drop (length hi) t) 60 lo (omega (arith, length-append a hi)),
        drop_all (length lo) (drop (length hi) t) (omega (arith, length-drop (length hi) t)),
        append-nil,
        append_assoc,
      )
      refl

pub close_lem :
    (d : Vars) (n num : ℕ) (a t : List ℕ)
    → length a ≡ 56
    → length t ≡ 8
    → n * 64 + num < 2 ^ 61
    → num < 64
    → close d n num (a ++ t) ≡ compress d (a ++ length_field (n * 64 + num))
unfolding close length_field
close_lem d n num a t ha ht hn hr =
    ap (λ b. compress d b)
      (fill a t (putu32 (n >>> 23)) (putu32 (u64 (u64 (n <<< 9) + num <<< 3))) ha ht
          (length-putu32 _) (length-putu32 _)
        ∙ ap₂ (λ x y. a ++ (putu32 x ++ putu32 y)) (omega arith) (omega arith))

-- One more block, and two more, behind the bytes that were pending.
pub one_block :
    (d : Vars) (k : ℕ) (seen p : List ℕ)
    → length seen ≤ k * 64 + 64
    → k * 64 ≤ length seen
    → length seen + length p ≡ k * 64 + 64
    → compress_all d (k + 1) (seen ++ p)
      ≡ compress (compress_all d k seen) (drop (k * 64) seen ++ p)
unfolding compress_all
one_block d k seen p h h' e =
    rw
      (
        compress_all-add d k 1 (seen ++ p),
        compress_all-append d k seen p h',
        drop-append_le (k * 64) seen p h',
        take_all 64 (drop (k * 64) seen ++ p)
            (omega (arith, length-append (drop (k * 64) seen) p, length-drop (k * 64) seen)),
      )
      refl

pub two_blocks :
    (d : Vars) (k : ℕ) (seen p q : List ℕ)
    → length seen ≤ k * 64 + 64
    → k * 64 ≤ length seen
    → length seen + length p ≡ k * 64 + 64
    → length q ≡ 64
    → compress_all d (k + 2) (seen ++ (p ++ q))
      ≡ compress (compress (compress_all d k seen) (drop (k * 64) seen ++ p)) q
two_blocks d k seen p q h h' e e' =
    let regroup : k + 2 ≡ k + 1 + 1 = omega arith in
    let whole : length (seen ++ p) ≡ (k + 1) * 64 = omega (arith, length-append seen p) in
    rw
      (
        regroup,
        ← append_assoc seen p q,
        one_block d (k + 1) (seen ++ p) q (omega arith) (omega arith) (omega arith),
        one_block d k seen p h h' e,
        drop_all ((k + 1) * 64) (seen ++ p) (omega arith),
      )
      refl
