-- ===== src/Sm4/Authenticated/Opening.antt =====
-- What the decryption accepts, and that it undoes the encryption.
use gm_ssl.Base.{ℕ, ◌+◌, ◌-◌, ◌^◌, ◌<◌, ◌≢◌, arith, ◌≡◌, refl, sym, ap, ◌∙◌, List, [], ◌∷◌, ◌++◌}
use gm_ssl.Base.{joined, take, drop, length, Bool, true, false, Option, none, append-nil}
use gm_ssl.Base.{append_assoc, ltb, ◌==◌, if◌then◌else◌, length-take, length-append}
use gm_ssl.Base.{take-append_eq, drop-append_eq}
use gm_ssl.Base.{Bool-cases, inl, inr, lt→ltb, le→ltb, ==→eq, ==→ne, eq→==}
use gm_ssl.Sm4.Blocks.{Ctx, Reply, failed, needs, done, feed, collected, ended, run}
use gm_ssl.Sm4.Blocks.Feed.{feed_step}
use gm_ssl.Sm4.Authenticated.{Cipher, AuthCtx, init, decrypt_update, checked, decrypt_finish}
use gm_ssl.Sm4.Authenticated.{decrypt_all, memcmp_is_zero, called}
use gm_ssl.Sm4.Authenticated.Ciphers.{Streams}
use gm_ssl.Sm4.Authenticated.Sealing.{tag, hmac_finish-tag, init-Fed}
use gm_ssl.Sm4.Authenticated.Held.{Passed, Held, all_seen, IsClear, first}
use gm_ssl.Sm4.Authenticated.Updating.{Updated, decrypt_update-Updated}

-- Opening a whole message: the last 32 bytes must be the tag on what stands before them.
unfoldable pub open_tagged :
    (List ℕ → List ℕ → List ℕ → Option (List ℕ))
    → List ℕ
    → List ℕ
    → List ℕ
    → List ℕ
    → Option (List ℕ)
open_tagged whole key iv aad m =
    let n = length m - 32 in
    if ltb (length m) 32
    then none
    else (if memcmp_is_zero (tag key aad (take n m)) (drop n m)
        then whole (take 16 key) iv (take n m)
        else none)

collected-checked :
    (ctx : AuthCtx) (equal : Bool) (written : List ℕ) (r : Reply (Ctx (List ℕ)))
    → collected written (checked ctx equal r) ≡ (if equal then collected written r else none)
unfolding collected checked
collected-checked ctx true written failed = refl
collected-checked ctx true written (needs n) = refl
collected-checked ctx true written (done enc out) = refl
collected-checked ctx false written failed = refl
collected-checked ctx false written (needs n) = refl
collected-checked ctx false written (done enc out) = refl

module _ (cipher : Cipher) (whole : List ℕ → List ℕ → List ℕ → Option (List ℕ))
    (streams : Streams cipher whole) (outlen : ℕ) (out key iv aad : List ℕ) where
  init-Held : Held cipher key iv aad [] [] (init cipher key iv aad)
  unfolding feed
  init-Held = record {
    front = [];
    passed = record {
      parts = [];
      all = refl;
      ran = unfold init in refl;
      fed = rw (append-nil aad) (init-Fed cipher key iv aad);
    };
    split = unfold init in refl;
    partial = unfold init in omega arith;
    size = unfold init in refl;
    full = inl refl;
  }

  IsClear-append : (seen x : List ℕ) → IsClear outlen seen → IsClear outlen (seen ++ x)
  IsClear-append seen x (inl cleared) = inl cleared
  IsClear-append seen x (inr more) = inr (omega (arith, length-append seen x))

  feed-Updated :
      (seen written : List ℕ) (ctx : AuthCtx) (xs : List (List ℕ))
      → Held cipher key iv aad seen written ctx
      → IsClear outlen (seen ++ first xs)
      → Updated cipher key iv aad
          (seen ++ joined xs)
          []
          (feed (called (decrypt_update cipher) outlen out) ctx xs written)
  unfolding feed
  feed-Updated seen written ctx [] h clear = record {
    ctx' = ctx;
    out = written;
    returns = refl;
    held = rw (append-nil seen) h;
  }
  feed-Updated seen written ctx (x ∷ xs) h clear =
      let u =
        decrypt_update-Updated cipher key iv aad whole streams seen written out ctx x outlen h
          clear in
      let rest =
        feed-Updated (seen ++ x) (written ++ u.out) u.ctx' xs u.held
          (IsClear-append (seen ++ x) (first xs) clear) in
      record {
        ctx' = rest.ctx';
        out = rest.out;
        returns =
            feed_step (called (decrypt_update cipher) outlen out) ctx u.ctx' x xs written u.out
              u.returns
            ∙ rest.returns;
        held = rw (← append_assoc seen x (joined xs)) rest.held;
      }

  -- For a cipher that streams, however a message is cut into calls of the decryption's update: if the
  -- caller sets `*outlen` to 0 ahead of every call, or the first call has more than 32 bytes, no call
  -- fails. After them, of all that was fed, the last 32 bytes are held, or all of it where it has not
  -- more, and what was written is what the cipher's updates made of the rest, which the MAC has been
  -- fed behind the additional data.
  pub decrypt_init-Updated :
      (xs : List (List ℕ))
      → IsClear outlen (first xs)
      → Updated cipher key iv aad
          (joined xs)
          []
          (feed (called (decrypt_update cipher) outlen out) (init cipher key iv aad) xs [])
  decrypt_init-Updated xs clear = feed-Updated [] [] (init cipher key iv aad) xs init-Held clear

  -- The finish, where 32 bytes are held.
  finish_lem :
      (front out : List ℕ) (ctx : AuthCtx)
      → length aad + length front + 64 < 2 ^ 61
      → Passed cipher key iv aad front out ctx.enc_ctx ctx.mac_ctx
      → ctx.maclen ≡ 32
      → collected out (decrypt_finish cipher ctx) ≡ (
          if memcmp_is_zero (tag key aad front) ctx.mac then whole (take 16 key) iv front else none)
  unfolding decrypt_finish
  finish_lem front out ctx h p full =
      let mac = hmac_finish-tag key aad front ctx.mac_ctx h p.fed in
      let plain : collected out (cipher.finish true ctx.enc_ctx) ≡ whole (take 16 key) iv front =
        unfold run ended in
        sym (ap (ended (cipher.finish true)) p.ran)
        ∙ streams.runs (take 16 key) iv p.parts
        ∙ ap (λ t. whole (take 16 key) iv t) p.all in
      rw
        (
          eq→== ctx.maclen 32 full,
          mac,
          collected-checked ctx (memcmp_is_zero (tag key aad front) ctx.mac) out
              (cipher.finish true ctx.enc_ctx),
          plain,
        )
        refl

  finish_short :
      (out : List ℕ) (ctx : AuthCtx)
      → ctx.maclen == 32 ≡ false
      → collected out (decrypt_finish cipher ctx) ≡ none
  unfolding decrypt_finish collected
  finish_short out ctx short = rw short refl

  -- For a cipher that streams, data of which the MAC can take the length, and a caller that sets
  -- `*outlen` to 0 ahead of every call or has more than 32 bytes in the first: however a message is cut
  -- into calls of the decryption's update, these together with the finish deliver what the cipher
  -- makes of all but the last 32 bytes, if these are HMAC-SM3 of the additional data and the bytes
  -- before them; in every other case the finish fails.
  pub decrypt_all-open_tagged :
      (xs : List (List ℕ))
      → length aad + length (joined xs) + 64 < 2 ^ 61
      → IsClear outlen (first xs)
      → decrypt_all cipher outlen out key iv aad xs ≡ open_tagged whole key iv aad (joined xs)
  unfolding decrypt_all run ended open_tagged
  decrypt_all-open_tagged xs bound clear = elim (Bool-cases (ctx.maclen == 32)) [
    | inl full ↦
        let mac : length ctx.mac ≡ 32 = h.size in
        let whole_m = all_seen cipher key iv aad m u.out ctx h (==→eq _ _ full) in
        let long : length m ≡ length h.front + 32 =
          omega (arith, ap length whole_m, length-append h.front ctx.mac) in
        let front : take (length m - 32) m ≡ h.front =
          ap (λ t. take (length m - 32) t) whole_m
          ∙ take-append_eq (length m - 32) h.front ctx.mac (omega arith) in
        let back : drop (length m - 32) m ≡ ctx.mac =
          ap (λ t. drop (length m - 32) t) whole_m
          ∙ drop-append_eq (length m - 32) h.front ctx.mac (omega arith) in
        rw (u.returns, ended, le→ltb (length m) 32 (omega arith), front, back)
          (finish_lem h.front u.out ctx (omega arith) h.passed (==→eq _ _ full))
    | inr short ↦
        rw (u.returns, ended, lt→ltb (length m) 32 (few (==→ne _ _ short)))
          (finish_short u.out ctx short)
  ]
    where
      m : List ℕ
      m = joined xs

      u :
          Updated cipher key iv aad m []
            (feed (called (decrypt_update cipher) outlen out) (init cipher key iv aad) xs [])
      u = decrypt_init-Updated xs clear

      ctx : AuthCtx
      ctx = u.ctx'

      h : Held cipher key iv aad m u.out ctx
      h = u.held

      few : ctx.maclen ≢ 32 → length m < 32
      few not = elim h.full [
        | inl nothing ↦ omega (
          arith,
          ap length h.split,
          ap length nothing,
          length-append h.front (take ctx.maclen ctx.mac),
          length-take ctx.maclen ctx.mac,
          h.partial,
        )
        | inr all ↦ absurd (not all)
      ]
