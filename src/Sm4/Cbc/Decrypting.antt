-- ===== src/Sm4/Cbc/Decrypting.antt =====
-- The streaming CBC decryption accepts and writes what the one-shot function does.
use gm_ssl.Base.{ℕ, ◌+◌, ◌-◌, ◌*◌, ◌/◌, ◌%◌, ◌≢◌, ◌⊎◌, arith, ◌≡◌, refl, sym, ap, ◌∙◌}
use gm_ssl.Base.{
  List, [], ◌∷◌, ◌++◌, append_assoc, append-nil, length, drop, replicate, true, false, ltb, ◌==◌,
  lt→ltb, le→ltb,
}
use gm_ssl.Base.{Bool-cases, inl, inr, ==→eq, ==→ne, ne→==, eq→==, take_all}
use mathlib.Core.Option
use gm_ssl.Base.{Option, none, some, get_or, ◌||◌}
use gm_ssl.Stream.{Buffer, iterate, absorb_back}
use gm_ssl.Stream.Back.{HoldsBack, absorb_back-HoldsBack}
use gm_ssl.Sm4.{set_decrypt_key}
use gm_ssl.Sm4.Blocks.{
  Ctx, Reply, failed, done, setup, feed, collected, ended, run, cbc_decrypt_step,
}
use gm_ssl.Base.{joined}
use gm_ssl.Sm4.Cbc.{
  cbc_decrypt_blocks, Opened, empty, invalid, plain, padding_decrypt, decrypt_init,
}
use gm_ssl.Sm4.Cbc.{decrypt_update, decrypt_finish, opened, unpadded}

-- All updates and then the finish; `none` where one of them fails.
unfoldable pub decrypt_all : List ℕ → List ℕ → List (List ℕ) → Option (List ℕ)
decrypt_all key iv xs = run (decrypt_update true) (decrypt_finish true) (decrypt_init key iv) xs

-- What the one-shot function delivers, where it succeeds.
unfoldable pub delivered : Opened → Option (List ℕ)
delivered empty = none
delivered invalid = none
delivered (plain m) = some m

module _ (key iv : List ℕ) where
  abbrev step : List ℕ → List ℕ → List ℕ × List ℕ
  step = cbc_decrypt_step key

  pub record Fed (seen : List ℕ) (reply : Reply (Ctx (List ℕ))) : Type 0 where
    pub buffer : Buffer (List ℕ)
    pub written : List ℕ
    pub returns : reply ≡ done (record { sm4_key = key; buffer = buffer }) written
    pub held : HoldsBack 16 step iv seen written buffer

  feed-Fed :
      (b : Buffer (List ℕ)) (xs : List (List ℕ)) (seen written : List ℕ)
      → HoldsBack 16 step iv seen written b
      → Fed
          (seen ++ joined xs)
          (feed (decrypt_update true) (record { sm4_key = key; buffer = b }) xs written)
  unfolding feed decrypt_update
  feed-Fed b [] seen written h = record {
    buffer = b;
    written = written;
    returns = refl;
    held = rw (append-nil seen) h;
  }
  feed-Fed b (x ∷ xs) seen written h =
      rw
        (
          le→ltb 16 b.nbytes (omega (arith, h.kept.partial)),
          feed,
          ← append_assoc seen x (joined xs),
        )
        (feed-Fed (absorb_back 16 step b x).0 xs (seen ++ x)
          (written ++ (absorb_back 16 step b x).1)
          (absorb_back-HoldsBack 16 step iv seen written b x (omega arith) h))

  -- A message that is not whole blocks, or empty, is refused at once.
  refused :
      (m : List ℕ)
      → (length m ≡ 0) ⊎ (length m % 16 ≢ 0)
      → delivered (padding_decrypt key iv m) ≡ none
  unfolding delivered padding_decrypt
  refused m (inl nothing) = rw (eq→== (length m) 0 nothing) refl
  refused m (inr ragged) =
      rw (ne→== (length m) 0 (omega arith), lt→ltb 0 (length m % 16) (omega arith)) refl

  last_block :
      (c m written : List ℕ) (k : ℕ)
      → length m ≡ k * 16 + 16
      → cbc_decrypt_blocks key iv k m ≡ (c, written)
      → padding_decrypt key iv m ≡ unpadded written (cbc_decrypt_blocks key c 1 (drop (k * 16) m)).1
  unfolding padding_decrypt
  last_block c m written k e run =
      let count : length m / 16 - 1 ≡ k = omega arith in
      let start : length m - 16 ≡ k * 16 = omega arith in
      let ragged : length m % 16 ≡ 0 = omega arith in
      rw
        (
          ne→== (length m) 0 (omega arith),
          ragged,
          le→ltb (length m) 16 (omega arith),
          count,
          start,
          run,
        )
        refl

-- However the input is cut, no update of a context that was set up fails.
pub decrypt_init-Fed :
    (key iv : List ℕ) (xs : List (List ℕ))
    → Fed
        (set_decrypt_key key)
        iv
        (joined xs)
        (feed (decrypt_update true) (decrypt_init key iv) xs [])
unfolding decrypt_init setup
decrypt_init-Fed key iv xs =
    feed-Fed (set_decrypt_key key) iv (record { chain = iv; block = replicate 16 0; nbytes = 0 }) xs
      [] []
      (record {
        kept = record {
          nblocks = 0;
          counted = refl;
          partial = omega arith;
          block_size = refl;
          pending = refl;
          ran = unfold iterate in refl;
        };
        some_pending = λ _. refl;
      })

-- What was written before does not matter to the last block.
delivered-unpadded :
    (written block : List ℕ)
    → delivered (unpadded written block)
      ≡ Option.map (λ o. written ++ o) (delivered (unpadded [] block))
unfolding delivered unpadded
delivered-unpadded written block =
    elim (Bool-cases (ltb (get_or block 15 0) 1 || ltb 16 (get_or block 15 0))) [
      | inl wrong ↦ rw wrong refl
      | inr right ↦ rw right refl
    ]

delivered-opened :
    (ctx : Ctx (List ℕ)) (written : List ℕ) (p : Opened)
    → collected written (opened ctx p) ≡ Option.map (λ o. written ++ o) (delivered p)
unfolding opened delivered collected
delivered-opened ctx written empty = refl
delivered-opened ctx written invalid = refl
delivered-opened ctx written (plain m) = refl

-- However a ciphertext is cut into calls of `sm4_cbc_decrypt_update`: the calls and
-- `sm4_cbc_decrypt_finish` succeed exactly where `sm4_cbc_padding_decrypt` accepts the whole
-- ciphertext, and write what it delivers.
pub decrypt_all-padding_decrypt :
    (key iv : List ℕ) (xs : List (List ℕ))
    → decrypt_all key iv xs ≡ delivered (padding_decrypt (set_decrypt_key key) iv (joined xs))
unfolding decrypt_all decrypt_init collected run ended
decrypt_all-padding_decrypt key iv xs = elim (Bool-cases (b.nbytes == 16)) [
  | inl full ↦
      rw (fed.returns, finish_full full, ended)
        (delivered-opened context fed.written (padding_decrypt rk b.chain b.block)
          ∙ ap (λ p. Option.map (λ o. fed.written ++ o) (delivered p)) (held_block (==→eq _ _ full))
          ∙ sym (delivered-unpadded fed.written last)
          ∙ ap delivered (sym (whole (==→eq _ _ full))))
  | inr not ↦ rw (fed.returns, finish_not not, ended) (sym (refused rk iv m (ragged not)))
]
  where
    rk : List ℕ
    rk = set_decrypt_key key

    m : List ℕ
    m = joined xs

    fed : Fed rk iv m (feed (decrypt_update true) (setup rk iv) xs [])
    fed = unfold decrypt_init in decrypt_init-Fed key iv xs

    b : Buffer (List ℕ)
    b = fed.buffer

    context : Ctx (List ℕ)
    context = record { sm4_key = rk; buffer = b }

    k : ℕ
    k = fed.held.kept.nblocks

    last : List ℕ
    last = (cbc_decrypt_blocks rk b.chain 1 (drop (k * 16) m)).1

    finish_full :
        b.nbytes == 16 ≡ true
        → decrypt_finish true context ≡ opened context (padding_decrypt rk b.chain b.block)
    finish_full full = unfold decrypt_finish in rw full refl

    finish_not : b.nbytes == 16 ≡ false → decrypt_finish true context ≡ failed
    finish_not not = unfold decrypt_finish in rw not refl

    block_is : b.nbytes ≡ 16 → b.block ≡ drop (k * 16) m
    block_is full =
        sym (take_all b.nbytes b.block (omega (arith, fed.held.kept.block_size, full)))
        ∙ fed.held.kept.pending

    held_block : b.nbytes ≡ 16 → padding_decrypt rk b.chain b.block ≡ unpadded [] last
    held_block full =
        last_block rk b.chain b.chain b.block [] 0 (omega (arith, fed.held.kept.block_size))
          (unfold cbc_decrypt_blocks iterate in refl)
        ∙ ap (λ t. unpadded [] (cbc_decrypt_blocks rk b.chain 1 t).1) (block_is full)

    whole : b.nbytes ≡ 16 → padding_decrypt rk iv m ≡ unpadded fed.written last
    whole full =
        last_block rk iv b.chain m fed.written k (omega (arith, fed.held.kept.counted, full))
          (unfold cbc_decrypt_blocks in fed.held.kept.ran)

    ragged : b.nbytes == 16 ≡ false → (length m ≡ 0) ⊎ (length m % 16 ≢ 0)
    ragged not = elim (Bool-cases (b.nbytes == 0)) [
      | inl nothing ↦ inl (fed.held.some_pending (==→eq _ _ nothing))
      | inr begun ↦ inr (
          omega
            (arith, fed.held.kept.counted, fed.held.kept.partial, ==→ne _ _ not, ==→ne _ _ begun))
    ]
