-- ===== src/Sm3/Counter.antt =====
-- The output loop of sm3_kdf_finish and sm3_pbkdf2: blocks of 32 bytes under a 32-bit counter,
-- the last one cut. Fuel is the number of bytes still wanted, and every round writes one at least.
use mathlib.Core.Path.{fun_ext}
use gm_ssl.Base.{ℕ, zero, suc, ◌+◌, ◌-◌, ◌*◌, ◌^◌, ◌≤◌, ◌<◌, u32, ltb, ◌==◌, if◌then◌else◌}
use gm_ssl.Base.{arith, ◌≡◌, refl, sym, ap, ap₂, ◌∙◌, Bool-cases, inl, inr, ltb→lt, ltb→le, ==→eq}
use gm_ssl.Base.{List, [], ◌++◌, length, take, take-append_le, take-append_ge, take_all, append-nil}

module _ (block : ℕ → List ℕ) where
  unfoldable pub emit : ℕ → ℕ → ℕ → List ℕ
  emit zero counter outlen = []
  emit (suc fuel) counter outlen =
      let len = if ltb outlen 32 then outlen else 32 in
      let rest = emit fuel (u32 (counter + 1)) (outlen - len) in
      if outlen == 0 then [] else take len (block counter) ++ rest

  -- `n` whole blocks from a counter that does not wrap.
  unfoldable pub blocks : ℕ → ℕ → List ℕ
  blocks counter zero = []
  blocks counter (suc n) = block counter ++ blocks (counter + 1) n

  emit-zero : (fuel counter : ℕ) → emit fuel counter 0 ≡ []
  unfolding emit
  emit-zero zero counter = refl
  emit-zero (suc fuel) counter = refl

  module _ (size : (i : ℕ) → length (block i) ≡ 32) where
    pub emit-blocks :
        (fuel n counter outlen : ℕ)
        → outlen ≤ fuel
        → outlen ≤ n * 32
        → counter + n < 2 ^ 32
        → emit fuel counter outlen ≡ take outlen (blocks counter n)
    unfolding emit blocks
    emit-blocks zero n counter outlen hf hn hc = let e : outlen ≡ 0 = omega arith in rw e
    emit-blocks (suc fuel) zero counter outlen hf hn hc = let e : outlen ≡ 0 = omega arith in rw e
    emit-blocks (suc fuel) (suc n) counter outlen hf hn hc = elim (Bool-cases (outlen == 0)) [
      | inl done ↦ let e : outlen ≡ 0 = ==→eq _ _ done in rw e
      | inr more ↦ rw more (elim (Bool-cases (ltb outlen 32)) [
        | inl last ↦ rw last (last_block (ltb→lt _ _ last))
        | inr full ↦ rw full (
            full_block (ltb→le _ _ full) (
              emit-blocks fuel n (counter + 1) (outlen - 32) (omega (arith, ltb→le _ _ full))
                (omega arith) (omega arith)))
      ])
    ]
      where
        next : ℕ
        next = u32 (counter + 1)

        last_block :
            outlen < 32
            → take outlen (block counter) ++ emit fuel next (outlen - outlen)
              ≡ take outlen (block counter ++ blocks (counter + 1) n)
        last_block h =
            let e : outlen - outlen ≡ 0 = omega arith in
            rw (e, emit-zero fuel next, append-nil)
              (sym (
                take-append_le outlen (block counter) (blocks (counter + 1) n)
                  (omega (arith, size counter))))

        full_block :
            32 ≤ outlen
            → emit fuel (counter + 1) (outlen - 32) ≡ take (outlen - 32) (blocks (counter + 1) n)
            → take 32 (block counter) ++ emit fuel next (outlen - 32)
              ≡ take outlen (block counter ++ blocks (counter + 1) n)
        full_block h rest =
            let e : next ≡ counter + 1 = omega arith in
            ap₂ ◌++◌ (take_all 32 (block counter) (omega (arith, size counter))) (rw e rest)
            ∙ ap (λ k. block counter ++ take (outlen - k) (blocks (counter + 1) n))
                (sym (size counter))
            ∙ sym (
                take-append_ge outlen (block counter) (blocks (counter + 1) n)
                  (omega (arith, size counter)))

-- The loop depends on the blocks alone.
pub emit_ext :
    (block block' : ℕ → List ℕ)
    → ((i : ℕ) → block i ≡ block' i)
    → (fuel counter outlen : ℕ) → emit block fuel counter outlen ≡ emit block' fuel counter outlen
emit_ext block block' h fuel counter outlen = ap (λ b. emit b fuel counter outlen) (fun_ext h)
