-- ===== src/Sm4/Authenticated/Updating.antt =====
-- Every update of the decryption succeeds and keeps what Held says.
use gm_ssl.Base.{ℕ, ◌+◌, ◌-◌, ◌≤◌, ◌<◌, arith, ◌≡◌, refl, sym, subst, ap, ap₂, ◌∙◌, List, [], ◌++◌}
use gm_ssl.Base.{take, drop, length, Option, append-nil, append_assoc, leb, ltb}
use gm_ssl.Base.{length-take, length-drop, length-append, take-append-drop, take_all}
use gm_ssl.Base.{Bool-cases, inl, inr, leb→le, leb→lt, ltb→lt, ltb→le, le→ltb}
use gm_ssl.Mem.{write}
use gm_ssl.Mem.Laws.{length-write, take-write, write_full}
use gm_ssl.Sm3.Hmac.{hmac_update}
use gm_ssl.Sm4.Blocks.{Reply, done}
use gm_ssl.Sm4.Authenticated.{Cipher, AuthCtx, shift_mac, replace_mac, pass_on, called, received}
use gm_ssl.Sm4.Authenticated.{decrypt_update}
use gm_ssl.Sm4.Authenticated.Ciphers.{Streams}
use gm_ssl.Sm4.Authenticated.Held.{
  Passed, Held, all_seen, few_seen, IsClear, take_mac, release-Passed,
}

-- A part that moves from behind to the front.
regroup : (a b x : List ℕ) (i : ℕ) → (a ++ b) ++ x ≡ (a ++ take i b) ++ (drop i b ++ x)
regroup a b x i =
    ap (λ t. (a ++ t) ++ x) (sym (take-append-drop i b))
    ∙ ap (λ t. t ++ x) (sym (append_assoc a (take i b) (drop i b)))
    ∙ append_assoc (a ++ take i b) (drop i b) x

-- A MAC that is replaced.
write_mac : (m t : List ℕ) → length m ≡ 32 → length t ≡ 32 → write m 0 t ≡ t
write_mac m t h e = write_full m 0 t (omega arith)

module _ (cipher : Cipher) (key iv aad : List ℕ) where
  -- An update that succeeds and keeps the invariant.
  pub record Updated (seen written : List ℕ) (r : Reply AuthCtx) : Type 0 where
    pub ctx' : AuthCtx
    pub out : List ℕ
    pub returns : r ≡ done ctx' out
    pub held : Held cipher key iv aad seen (written ++ out) ctx'

  module _ (whole : List ℕ → List ℕ → List ℕ → Option (List ℕ))
      (streams : Streams cipher whole) where
    shift_mac-Updated :
        (seen written : List ℕ) (ctx : AuthCtx) (x : List ℕ)
        → Held cipher key iv aad seen written ctx
        → ctx.maclen ≡ 32
        → length x ≤ 32
        → Updated (seen ++ x) written (shift_mac cipher ctx x)
    shift_mac-Updated seen written ctx x h full short =
        let i = length x in
        let rest : take (32 - i) (drop i ctx.mac) ≡ drop i ctx.mac =
          take_all (32 - i) (drop i ctx.mac) (omega (arith, length-drop i ctx.mac, h.size)) in
        let size : length (take (32 - i) (drop i ctx.mac) ++ x) ≡ 32 =
          rw rest
            (omega (arith, length-append (drop i ctx.mac) x, length-drop i ctx.mac, h.size)) in
        let r =
          release-Passed cipher key iv aad whole streams h.front written ctx (take i ctx.mac)
            h.passed in
        record {
          ctx' = record ctx {
            enc_ctx = r.enc;
            mac_ctx = hmac_update ctx.mac_ctx (take i ctx.mac);
            mac = take (32 - i) (drop i ctx.mac) ++ x;
          };
          out = r.out;
          returns = unfold shift_mac in rw (r.returns, shift_mac) refl;
          held = record {
            front = h.front ++ take i ctx.mac;
            passed = r.passed;
            split =
                ap (λ t. t ++ x) (all_seen cipher key iv aad seen written ctx h full)
                ∙ regroup h.front ctx.mac x i
                ∙ ap (λ t. (h.front ++ take i ctx.mac) ++ t)
                    (ap (λ t. t ++ x) (sym rest)
                      ∙ sym (take_mac ctx.maclen (take (32 - i) (drop i ctx.mac) ++ x) full size));
            partial = h.partial;
            size = size;
            full = inr full;
          };
        }

    replace_mac-Updated :
        (seen written : List ℕ) (ctx : AuthCtx) (x : List ℕ)
        → Held cipher key iv aad seen written ctx
        → ctx.maclen ≡ 32
        → 32 < length x
        → Updated (seen ++ x) written (replace_mac cipher ctx x)
    replace_mac-Updated seen written ctx x h full long =
        let n = length x - 32 in
        let size : length (drop n x) ≡ 32 = omega (arith, length-drop n x) in
        let mac : write ctx.mac 0 (drop n x) ≡ drop n x =
          write_mac ctx.mac (drop n x) h.size size in
        let r =
          release-Passed cipher key iv aad whole streams h.front written ctx ctx.mac h.passed in
        let ctx1 : AuthCtx = record ctx {
          enc_ctx = r.enc;
          mac_ctx = hmac_update ctx.mac_ctx ctx.mac;
        } in
        let r' =
          release-Passed cipher key iv aad whole streams (h.front ++ ctx.mac) (written ++ r.out)
            ctx1 (take n x) r.passed in
        record {
          ctx' = record ctx {
            enc_ctx = r'.enc;
            mac_ctx = hmac_update ctx1.mac_ctx (take n x);
            mac = write ctx.mac 0 (drop n x);
          };
          out = r.out ++ r'.out;
          returns = unfold replace_mac in rw (r.returns, r'.returns, replace_mac) refl;
          held = record {
            front = (h.front ++ ctx.mac) ++ take n x;
            passed =
                subst
                  (λ t.
                    Passed cipher key iv aad ((h.front ++ ctx.mac) ++ take n x) t r'.enc
                      (hmac_update ctx1.mac_ctx (take n x)))
                  (append_assoc written r.out r'.out) r'.passed;
            split =
                ap₂ (λ s t. s ++ t) (all_seen cipher key iv aad seen written ctx h full)
                  (sym (take-append-drop n x))
                ∙ sym (append_assoc (h.front ++ ctx.mac) (take n x) (drop n x))
                ∙ ap (λ t. ((h.front ++ ctx.mac) ++ take n x) ++ t)
                    (sym (take_mac ctx.maclen (drop n x) full size)
                      ∙ ap (λ t. take ctx.maclen t) (sym mac));
            partial = h.partial;
            size = ap length mac ∙ size;
            full = inr full;
          };
        }

    pass_on-Updated :
        (seen written : List ℕ) (ctx : AuthCtx) (x : List ℕ)
        → Held cipher key iv aad seen written ctx
        → ctx.maclen ≡ 32
        → Updated (seen ++ x) written (pass_on cipher ctx x)
    unfolding pass_on
    pass_on-Updated seen written ctx x h full = elim (Bool-cases (leb (length x) 32)) [
      | inl short ↦ rw short (shift_mac-Updated seen written ctx x h full (leb→le _ _ short))
      | inr long ↦ rw long (replace_mac-Updated seen written ctx x h full (leb→lt _ _ long))
    ]

    -- Bytes that fit behind those that are held.
    kept-Held :
        (seen written : List ℕ) (ctx : AuthCtx) (x : List ℕ) (n : ℕ)
        → length x ≡ n
        → Held cipher key iv aad seen written ctx
        → ctx.maclen < 32
        → ctx.maclen + n ≤ 32
        → Held cipher key iv aad
            (seen ++ x)
            written
            (record ctx { mac = write ctx.mac ctx.maclen x; maclen = ctx.maclen + n })
    kept-Held seen written ctx x n e h few fits = record {
      front = h.front;
      passed = h.passed;
      split =
          ap (λ t. t ++ x) h.split
          ∙ append_assoc h.front (take ctx.maclen ctx.mac) x
          ∙ ap (λ t. h.front ++ t)
              (sym (take-write ctx.mac ctx.maclen x (omega (arith, h.size)))
                ∙ ap (λ k. take (ctx.maclen + k) (write ctx.mac ctx.maclen x)) e);
      partial = fits;
      size = length-write ctx.mac ctx.maclen x (omega (arith, h.size)) ∙ h.size;
      full = elim h.full [ inl none ↦ inl none | inr all ↦ absurd (omega arith) ];
    }

    -- An update whose input is kept writes nothing that the caller takes.
    nothing_taken :
        (seen written out : List ℕ) (ctx : AuthCtx) (x : List ℕ) (outlen : ℕ)
        → Held cipher key iv aad seen written ctx
        → IsClear outlen (seen ++ x)
        → ctx.maclen < 32
        → length x ≤ 32 - ctx.maclen
        → take outlen out ≡ []
    nothing_taken seen written out ctx x outlen h clear few fits = elim clear [
      | inl zero_set ↦ rw zero_set refl
      | inr more ↦
          absurd
            (omega (arith, length-append seen x, few_seen cipher key iv aad seen written ctx h few))
    ]

    -- No update of the decryption fails, and each keeps the invariant.
    pub decrypt_update-Updated :
        (seen written out : List ℕ) (ctx : AuthCtx) (x : List ℕ) (outlen : ℕ)
        → Held cipher key iv aad seen written ctx
        → IsClear outlen (seen ++ x)
        → Updated (seen ++ x) written (called (decrypt_update cipher) outlen out ctx x)
    unfolding decrypt_update called received
    decrypt_update-Updated seen written out ctx x outlen h clear =
        rw (le→ltb 32 ctx.maclen h.partial) (elim (Bool-cases (ltb ctx.maclen 32)) [
          | inl few ↦ rw few (elim (Bool-cases (leb (length x) len)) [
            | inl fits ↦ rw fits (record {
              ctx' = next;
              out = [];
              returns = ap (done next) (
                  nothing_taken seen written out ctx x outlen h clear (ltb→lt _ _ few)
                    (leb→le _ _ fits));
              held = rw (append-nil written) (
                  kept-Held seen written ctx x (length x) refl h (ltb→lt _ _ few)
                    (omega (arith, leb→le _ _ fits, ltb→lt _ _ few)));
            })
            | inr over ↦ rw over (fills (ltb→lt _ _ few) (leb→lt _ _ over))
          ])
          | inr all ↦
              rw all
                (pass_on-Updated seen written ctx x h (omega (arith, h.partial, ltb→le _ _ all)))
        ])
      where
        len : ℕ
        len = 32 - ctx.maclen

        next : AuthCtx
        next = record ctx { mac = write ctx.mac ctx.maclen x; maclen = ctx.maclen + length x }

        fills :
            ctx.maclen < 32
            → len < length x
            → Updated (seen ++ x) written (
                pass_on cipher
                  (record ctx {
                    mac = write ctx.mac ctx.maclen (take len x);
                    maclen = ctx.maclen + len;
                  })
                  (drop len x))
        fills few over =
            let n : length (take len x) ≡ len = omega (arith, length-take len x) in
            subst
              (λ t. Updated t written (
                pass_on cipher
                  (record ctx {
                    mac = write ctx.mac ctx.maclen (take len x);
                    maclen = ctx.maclen + len;
                  })
                  (drop len x)))
              (append_assoc seen (take len x) (drop len x)
                ∙ ap (λ t. seen ++ t) (take-append-drop len x))
              (pass_on-Updated (seen ++ take len x) written _ (drop len x)
                (kept-Held seen written ctx (take len x) len n h few (omega arith)) (omega arith))
