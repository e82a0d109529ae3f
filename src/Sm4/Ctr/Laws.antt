-- ===== src/Sm4/Ctr/Laws.antt =====
-- Both counter modes mask the input with one key stream, whole or in parts.
use gm_ssl.Base.{ℕ, zero, suc, ◌-◌, ◌*◌, ◌/◌, bit_xor, arith, ◌≡◌, refl, sym, ap, ap₂, ◌∙◌}
use gm_ssl.Base.{List, [], ◌∷◌, ◌++◌, append_assoc, append-nil, length, take, drop, replicate, true}
use gm_ssl.Base.{length-append, length-drop, drop_all, take-append_eq}
use gm_ssl.Base.{◌==◌, Bool-cases, inl, inr, ==→eq, lt→leb}
use gm_ssl.Mem.{memxor}
use gm_ssl.Mem.Laws.{memxor_cancel, memxor-take_left, length-memxor}
use gm_ssl.Stream.{Buffer, iterate}
use gm_ssl.Sm4.{encrypt, set_encrypt_key}
use gm_ssl.Sm4.Inverse.{encrypt-IsBlock}
use gm_ssl.Sm4.Blocks.{Ctx, Reply, failed, needs, done, setup, updates, counter_step}
use gm_ssl.Sm4.Blocks.Streamed.{Streamed, setup-Streamed}
use gm_ssl.Base.{joined}
use gm_ssl.Sm4.Ctr.{counter_blocks, counter_encrypt, counter_init, counter_finish}

memxor-nil : (xs : List ℕ) → memxor xs [] ≡ []
unfolding memxor
memxor-nil [] = refl
memxor-nil (x ∷ xs) = refl

-- A mask in two parts.
memxor-split :
    (n : ℕ) (xs k k' : List ℕ)
    → length k ≡ n
    → memxor (take n xs) k ++ memxor (drop n xs) k' ≡ memxor xs (k ++ k')
unfolding memxor
memxor-split zero xs [] k' e = refl
memxor-split zero xs (a ∷ k) k' e = absurd (omega arith)
memxor-split (suc n) xs [] k' e = absurd (omega arith)
memxor-split (suc n) [] (a ∷ k) k' e = refl
memxor-split (suc n) (x ∷ xs) (a ∷ k) k' e =
    ap (λ t. bit_xor x a ∷ t) (memxor-split n xs k k' (omega arith))

-- A mask ends the result, so no byte behind it counts.
memxor-take : (n : ℕ) (xs k : List ℕ) → length k ≡ n → memxor (take n xs) k ≡ memxor xs k
memxor-take n xs k e =
    sym (append-nil (memxor (take n xs) k))
    ∙ ap (λ t. memxor (take n xs) k ++ t) (sym (memxor-nil (drop n xs)))
    ∙ memxor-split n xs k [] e
    ∙ ap (memxor xs) (append-nil k)

module _ (incr : List ℕ → List ℕ) (key : List ℕ) where
  -- The counter after `n` blocks, and the encryptions of the first `n` counters.
  pub counter_after : List ℕ → ℕ → List ℕ
  counter_after ctr zero = ctr
  counter_after ctr (suc n) = counter_after (incr ctr) n

  unfoldable pub keystream : List ℕ → ℕ → List ℕ
  keystream ctr zero = []
  keystream ctr (suc n) = encrypt key ctr ++ keystream (incr ctr) n

  pub length-keystream : (ctr : List ℕ) (n : ℕ) → length (keystream ctr n) ≡ n * 16
  unfolding keystream
  length-keystream ctr zero = refl
  length-keystream ctr (suc n) = omega (
    arith,
    length-append (encrypt key ctr) (keystream (incr ctr) n),
    length-keystream (incr ctr) n,
    (encrypt-IsBlock key ctr).size,
  )

  keystream-suc :
      (ctr : List ℕ) (n : ℕ)
      → keystream ctr n ++ encrypt key (counter_after ctr n) ≡ keystream ctr (suc n)
  unfolding keystream counter_after
  keystream-suc ctr zero = sym (append-nil (encrypt key ctr))
  keystream-suc ctr (suc n) =
      append_assoc (encrypt key ctr) (keystream (incr ctr) n)
        (encrypt key (counter_after (incr ctr) n))
      ∙ ap (λ t. encrypt key ctr ++ t) (keystream-suc (incr ctr) n)

  counter_blocks_lem :
      (ctr : List ℕ) (n : ℕ) (xs : List ℕ)
      → counter_blocks incr key ctr n xs ≡ (counter_after ctr n, memxor xs (keystream ctr n))
  unfolding counter_blocks iterate counter_step keystream counter_after
  counter_blocks_lem ctr zero xs = ap (λ t. (ctr, t)) (sym (memxor-nil xs))
  counter_blocks_lem ctr (suc n) xs = rw (counter_blocks_lem (incr ctr) n (drop 16 xs)) (
      ap (λ t. (counter_after (incr ctr) n, t))
        (memxor-split 16 xs (encrypt key ctr) (keystream (incr ctr) n)
          (encrypt-IsBlock key ctr).size))

  -- The blocks and then the rest.
  masked :
      (ctr m : List ℕ) (k : ℕ)
      → memxor m (keystream ctr k) ++ memxor (drop (k * 16) m) (encrypt key (counter_after ctr k))
        ≡ memxor m (keystream ctr (suc k))
  masked ctr m k =
      ap (λ t. t ++ memxor (drop (k * 16) m) (encrypt key (counter_after ctr k)))
        (sym (memxor-take (k * 16) m (keystream ctr k) (length-keystream ctr k)))
      ∙ memxor-split (k * 16) m (keystream ctr k) (encrypt key (counter_after ctr k))
          (length-keystream ctr k)
      ∙ ap (memxor m) (keystream-suc ctr k)

  -- The last block, whatever it holds behind its first `n` bytes.
  last_block :
      (ctr block : List ℕ) (n : ℕ)
      → take n (counter_blocks incr key ctr 1 block).1 ≡ memxor (take n block) (encrypt key ctr)
  unfolding keystream
  last_block ctr block n =
      ap (λ r. take n r.1) (counter_blocks_lem ctr 1 block)
      ∙ ap (λ t. take n (memxor block t)) (append-nil (encrypt key ctr))
      ∙ memxor-take_left n block (encrypt key ctr)

  -- `sm4_ctr_encrypt` and `sm4_ctr32_encrypt` mask the input, of any length, with the encryptions
  -- of the counters, the last of which is cut to what the input needs.
  pub counter_encrypt-keystream :
      (ctr m : List ℕ)
      → (counter_encrypt incr key ctr m).1 ≡ memxor m (keystream ctr (suc (length m / 16)))
  unfolding counter_encrypt
  counter_encrypt-keystream ctr m = elim (Bool-cases (length rest == 0)) [
    | inl none ↦ rw (none, counter_blocks_lem ctr k m) (whole (==→eq _ _ none))
    | inr some ↦
        rw
          (
            some,
            counter_blocks_lem ctr k m,
            last_block (counter_after ctr k) (rest ++ replicate (16 - length rest) 0) (length rest),
            take-append_eq (length rest) rest (replicate {A = ℕ} (16 - length rest) 0) refl,
          )
          (masked ctr m k)
  ]
    where
      k : ℕ
      k = length m / 16

      rest : List ℕ
      rest = drop (k * 16) m

      whole : length rest ≡ 0 → memxor m (keystream ctr k) ≡ memxor m (keystream ctr (suc k))
      whole e =
          unfold memxor in
          sym (append-nil (memxor m (keystream ctr k)))
          ∙ ap (λ t. memxor m (keystream ctr k) ++ memxor t (encrypt key (counter_after ctr k)))
              (sym (drop_all (k * 16) m (omega (arith, e, length-drop (k * 16) m))))
          ∙ masked ctr m k

  -- Masking twice from the same counter gives the input back, whatever its length:
  -- `sm4_ctr_encrypt` and `sm4_ctr32_encrypt` are their own inverses.
  pub counter_encrypt-counter_encrypt :
      (ctr m : List ℕ) → (counter_encrypt incr key ctr (counter_encrypt incr key ctr m).1).1 ≡ m
  counter_encrypt-counter_encrypt ctr m =
      rw (counter_encrypt-keystream ctr m, counter_encrypt-keystream ctr (memxor m ks))
        (ap (λ n. memxor (memxor m ks) (keystream ctr (suc (n / 16)))) same
          ∙ memxor_cancel m ks (omega (arith, long)))
    where
      ks : List ℕ
      ks = keystream ctr (suc (length m / 16))

      long : length ks ≡ suc (length m / 16) * 16
      long = length-keystream ctr (suc (length m / 16))

      same : length (memxor m ks) ≡ length m
      same = omega (arith, length-memxor m ks, long)

-- All updates and then the finish, with all that they wrote.
unfoldable pub encrypt_parts :
    (List ℕ → List ℕ) → List ℕ → List ℕ → List (List ℕ) → Reply (Ctx (List ℕ))
encrypt_parts incr key ctr xs =
    elim (updates (counter_step incr) (counter_init incr key ctr) xs []) [
      | failed ↦ failed
      | needs n ↦ needs n
      | done ctx written ↦ elim (counter_finish incr true ctx) [
        | failed ↦ failed
        | needs n ↦ needs n
        | done ctx' o ↦ done ctx' (written ++ o)
      ]
    ]

-- However a message is cut into calls of the update of a counter mode, no call fails, and the
-- calls together with the finish write what the one-shot function writes for the whole message.
pub encrypt_parts-counter_encrypt :
    (incr : List ℕ → List ℕ) (key ctr : List ℕ) (xs : List (List ℕ))
    → (ctx : Ctx (List ℕ)) × (encrypt_parts incr key ctr xs
        ≡ done ctx (counter_encrypt incr (set_encrypt_key key) ctr (joined xs)).1)
unfolding encrypt_parts counter_init
encrypt_parts-counter_encrypt incr key ctr xs =
    (last, rw (streamed.returns, finish_lem, encrypt_parts) (ap (done last) whole))
  where
    rk : List ℕ
    rk = set_encrypt_key key

    m : List ℕ
    m = joined xs

    streamed :
        Streamed (counter_step incr) rk ctr m (updates (counter_step incr) (setup rk ctr) xs [])
    streamed = setup-Streamed (counter_step incr) rk ctr xs

    b : Buffer (List ℕ)
    b = streamed.buffer

    k : ℕ
    k = streamed.held.nblocks

    block : List ℕ × List ℕ
    block = counter_blocks incr rk b.chain 1 b.block

    last : Ctx (List ℕ)
    last = record {
      sm4_key = rk;
      buffer = record { chain = block.0; block = block.1; nbytes = b.nbytes };
    }

    finish_lem :
        counter_finish incr true (record { sm4_key = rk; buffer = b })
        ≡ done last (take b.nbytes block.1)
    finish_lem = unfold counter_finish in rw (lt→leb 16 b.nbytes streamed.held.partial) refl

    ran :
        ◌≡◌ {A = List ℕ × List ℕ}
          (counter_after incr rk ctr k, memxor m (keystream incr rk ctr k))
          (b.chain, streamed.written)
    ran = sym (counter_blocks_lem incr rk ctr k m) ∙ (unfold counter_blocks in streamed.held.ran)

    count : k ≡ length m / 16
    count = omega (arith, streamed.held.counted, streamed.held.partial)

    whole : streamed.written ++ take b.nbytes block.1 ≡ (counter_encrypt incr rk ctr m).1
    whole =
        ap (λ t. streamed.written ++ t) (last_block incr rk b.chain b.block b.nbytes)
        ∙ ap₂ (λ s t. s ++ memxor t (encrypt rk b.chain)) (sym (ap (λ r. r.1) ran))
            streamed.held.pending
        ∙ ap (λ c. memxor m (keystream incr rk ctr k) ++ memxor (drop (k * 16) m) (encrypt rk c))
            (sym (ap (λ r. r.0) ran))
        ∙ masked incr rk ctr m k
        ∙ ap (λ n. memxor m (keystream incr rk ctr (suc n))) count
        ∙ sym (counter_encrypt-keystream incr rk ctr m)
