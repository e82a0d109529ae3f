-- ===== src/Sm3/Kdf/Laws.antt =====
-- Both derivations are their standards' concatenations of blocks, cut to the length asked for.
use gm_ssl.Base.{ℕ, zero, suc, ◌+◌, ◌-◌, ◌*◌, ◌^◌, ◌≤◌, ◌<◌, arith, ◌≡◌, refl, sym, ap, ◌∙◌}
use gm_ssl.Base.{List, [], ◌∷◌, ◌++◌, append-nil, append_assoc, length, take, length-append}
use gm_ssl.Endian.{putu32}
use gm_ssl.Endian.Laws.{length-putu32}
use gm_ssl.Mem.{memxor}
use gm_ssl.Mem.Laws.{length-memxor}
use gm_ssl.Sm3.{Ctx, init, update, updates, finish}
use gm_ssl.Sm3.Spec.{hash}
use gm_ssl.Base.{joined}
use gm_ssl.Sm3.Finish.{finish-updates}
use gm_ssl.Sm3.Hmac.{hmac_init, hmac_update, hmac_updates, hmac_finish}
use gm_ssl.Sm3.Hmac.Laws.{hmac, hmac_finish-hmac, length-hash, length-hmac}
use gm_ssl.Sm3.Counter.{blocks, emit-blocks, emit_ext}
use gm_ssl.Sm3.Kdf.{KdfCtx, kdf_init, kdf_update, kdf_updates, kdf_finish}
use gm_ssl.Sm3.Kdf.{chain_loop, pbkdf2_block, pbkdf2}

-- The key stream of GB/T 32918: Ha_i = H(Z || i).
abbrev pub kdf_block : List ℕ → ℕ → List ℕ
kdf_block z counter = hash (z ++ putu32 counter)

kdf_updates-updates :
    (ctx : KdfCtx) (xs : List (List ℕ))
    → kdf_updates ctx xs ≡ record ctx { sm3_ctx = updates ctx.sm3_ctx xs }
unfolding kdf_updates kdf_update updates
kdf_updates-updates ctx [] = refl
kdf_updates-updates ctx (x ∷ xs) = kdf_updates-updates (kdf_update ctx x) xs

updates-append :
    (ctx : Ctx) (xs : List (List ℕ)) (x : List ℕ)
    → update (updates ctx xs) x ≡ updates ctx (xs ++ (x ∷ []))
unfolding updates
updates-append ctx [] x = refl
updates-append ctx (y ∷ ys) x = updates-append (update ctx y) ys x

joined-append : (xs : List (List ℕ)) (x : List ℕ) → joined (xs ++ (x ∷ [])) ≡ joined xs ++ x
joined-append [] x = append-nil x
joined-append (y ∷ ys) x =
    ap (λ t. y ++ t) (joined-append ys x) ∙ sym (append_assoc y (joined ys) x)

-- `sm3_kdf_finish` writes the first `outlen` bytes of H(Z || 1) || H(Z || 2) || …, where Z is all
-- that the updates fed, however they cut it: fewer than 2 ^ 61 - 4 bytes, for at most 2 ^ 32 - 2
-- blocks of output.
pub kdf_finish-blocks :
    (xs : List (List ℕ)) (outlen n : ℕ)
    → length (joined xs) + 4 < 2 ^ 61
    → outlen ≤ n * 32
    → n + 1 < 2 ^ 32
    → kdf_finish (kdf_updates (kdf_init outlen) xs)
      ≡ take outlen (blocks (kdf_block (joined xs)) 1 n)
unfolding kdf_finish kdf_init
kdf_finish-blocks xs outlen n hx ho hn = rw (kdf_updates-updates (kdf_init outlen) xs) (
    emit_ext block (kdf_block (joined xs)) same outlen 1 outlen
    ∙ emit-blocks (kdf_block (joined xs)) (λ i. length-hash (joined xs ++ putu32 i)) outlen n 1
        outlen (omega arith) ho (omega arith))
  where
    block : ℕ → List ℕ
    block counter = finish (update (updates init xs) (putu32 counter))

    same : (i : ℕ) → block i ≡ kdf_block (joined xs) i
    same i =
        ap finish (updates-append init xs (putu32 i))
        ∙ finish-updates (xs ++ (putu32 i ∷ [])) (
            omega (
              arith,
              ap length (joined-append xs (putu32 i)),
              length-append (joined xs) (putu32 i),
              length-putu32 i,
            ))
        ∙ ap hash (joined-append xs (putu32 i))

-- T_i of RFC 8018: U_1 to U_c under the MAC, joined by exclusive or. `more` is c - 1.
unfoldable pub chained : List ℕ → ℕ → List ℕ → List ℕ → List ℕ
chained pass zero u t = t
chained pass (suc more) u t = let u' = hmac pass u in chained pass more u' (memxor t u')

abbrev pub pbkdf2_t : List ℕ → List ℕ → ℕ → ℕ → List ℕ
pbkdf2_t pass salt count i = let u1 = hmac pass (salt ++ putu32 i) in chained pass (count - 1) u1 u1

mac_one :
    (pass m : List ℕ)
    → length pass < 2 ^ 61
    → length m + 64 < 2 ^ 61
    → hmac_finish (hmac_update (hmac_init pass) m) ≡ hmac pass m
unfolding hmac_updates
mac_one pass m hp hm =
    hmac_finish-hmac pass (m ∷ []) hp (omega (arith, length-append m []))
    ∙ ap (hmac pass) (append-nil m)

mac_two :
    (pass a b : List ℕ)
    → length pass < 2 ^ 61
    → length a + length b + 64 < 2 ^ 61
    → hmac_finish (hmac_update (hmac_update (hmac_init pass) a) b) ≡ hmac pass (a ++ b)
unfolding hmac_updates
mac_two pass a b hp hm =
    hmac_finish-hmac pass (a ∷ b ∷ []) hp
      (omega (arith, length-append a (b ++ []), length-append b []))
    ∙ ap (λ t. hmac pass (a ++ t)) (append-nil b)

chain_loop-chained :
    (pass : List ℕ) (n : ℕ) (u t : List ℕ)
    → length pass < 2 ^ 61
    → length u ≡ 32
    → chain_loop (hmac_init pass) n u t ≡ chained pass n u t
unfolding chain_loop chained
chain_loop-chained pass zero u t hp hu = refl
chain_loop-chained pass (suc n) u t hp hu =
    rw (mac_one pass u hp (omega (arith, hu)))
      (chain_loop-chained pass n (hmac pass u) (memxor t (hmac pass u)) hp (length-hmac pass u))

length-chained :
    (pass : List ℕ) (n : ℕ) (u t : List ℕ) → length t ≡ 32 → length (chained pass n u t) ≡ 32
unfolding chained
length-chained pass zero u t h = h
length-chained pass (suc n) u t h =
    length-chained pass n (hmac pass u) (memxor t (hmac pass u))
      (omega (arith, length-memxor t (hmac pass u), h, length-hmac pass u))

-- `sm3_pbkdf2` writes the first `outlen` bytes of T_1 || T_2 || … of the standard, for a password
-- and a salt of fewer than 2 ^ 61 and 2 ^ 61 - 68 bytes and at most 2 ^ 32 - 2 blocks of output.
pub pbkdf2-blocks :
    (pass salt : List ℕ) (count outlen n : ℕ)
    → length pass < 2 ^ 61
    → length salt + 68 < 2 ^ 61
    → outlen ≤ n * 32
    → n + 1 < 2 ^ 32
    → pbkdf2 pass salt count outlen ≡ take outlen (blocks (pbkdf2_t pass salt count) 1 n)
unfolding pbkdf2
pbkdf2-blocks pass salt count outlen n hp hs ho hn =
    emit_ext (pbkdf2_block (hmac_init pass) salt count) (pbkdf2_t pass salt count) same outlen 1
      outlen
    ∙ emit-blocks (pbkdf2_t pass salt count) size outlen n 1 outlen (omega arith) ho (omega arith)
  where
    first : ℕ → List ℕ
    first i = hmac pass (salt ++ putu32 i)

    size : (i : ℕ) → length (pbkdf2_t pass salt count i) ≡ 32
    size i =
        length-chained pass (count - 1) (first i) (first i) (length-hmac pass (salt ++ putu32 i))

    same : (i : ℕ) → pbkdf2_block (hmac_init pass) salt count i ≡ pbkdf2_t pass salt count i
    same i =
        unfold pbkdf2_block in
        rw (mac_two pass salt (putu32 i) hp (omega (arith, length-putu32 i))) (
          chain_loop-chained pass (count - 1) (first i) (first i) hp
            (length-hmac pass (salt ++ putu32 i)))
