-- ===== src/Sm3/Hmac/Laws.antt =====
-- The streaming HMAC is the keyed hash of RFC 2104 over the whole message.
use gm_ssl.Base.{ℕ, suc, ◌+◌, ◌-◌, ◌^◌, ◌<◌, bit_xor, arith, ◌≡◌, refl, ap, ap₂, ◌∙◌}
use gm_ssl.Base.{List, [], ◌∷◌, ◌++◌, append-nil, length, replicate, leb, if◌then◌else◌}
use gm_ssl.Base.{length-append, length-replicate, Bool-cases, inl, inr, leb→le}
use gm_ssl.Base.Bits.{bit_xor_assoc}
use gm_ssl.Endian.{putu32}
use gm_ssl.Sm3.{init, update, updates, finish, digest_bytes}
use gm_ssl.Sm3.Spec.{hash}
use gm_ssl.Base.{joined}
use gm_ssl.Sm3.Finish.{finish-updates}
use gm_ssl.Sm3.Hmac.{HmacCtx, ipad, opad, mask_key, block_key, hmac_init, hmac_update, hmac_finish}
use gm_ssl.Sm3.Hmac.{hmac_updates}

-- K0 of the standard, and HMAC(K, m) = H((K0 ^ opad) || H((K0 ^ ipad) || m)).
unfoldable pub k0 : List ℕ → List ℕ
k0 key =
    if leb (length key) 64 then key ++ replicate (64 - length key) 0 else hash key ++ replicate 32 0

unfoldable pub hmac : List ℕ → List ℕ → List ℕ
hmac key m = hash (mask_key opad (k0 key) ++ hash (mask_key ipad (k0 key) ++ m))

pub length-hash : (m : List ℕ) → length (hash m) ≡ 32
unfolding hash digest_bytes putu32
length-hash m = refl

pub length-mask_key : (mask : ℕ) (key : List ℕ) → length (mask_key mask key) ≡ length key
unfolding mask_key
length-mask_key mask [] = refl
length-mask_key mask (b ∷ bs) = ap suc (length-mask_key mask bs)

-- Two masks one after the other.
mask_key-mask_key :
    (m n : ℕ) (key : List ℕ) → mask_key n (mask_key m key) ≡ mask_key (bit_xor m n) key
unfolding mask_key
mask_key-mask_key m n [] = refl
mask_key-mask_key m n (b ∷ bs) = ap₂ ◌∷◌ (bit_xor_assoc b m n) (mask_key-mask_key m n bs)

-- The hash of two parts that are fed one after the other.
finish_two_parts :
    (a b : List ℕ)
    → length a + length b < 2 ^ 61
    → finish (update (update init a) b) ≡ hash (a ++ b)
unfolding updates
finish_two_parts a b h =
    finish-updates (a ∷ b ∷ []) (omega (arith, length-append a (b ++ []), length-append b []))
    ∙ ap (λ t. hash (a ++ t)) (append-nil b)

block_key-k0 : (key : List ℕ) → length key < 2 ^ 61 → block_key key ≡ k0 key
unfolding block_key k0 updates
block_key-k0 key h =
    ap
      (λ t.
        if leb (length key) 64 then key ++ replicate (64 - length key) 0 else t ++ replicate 32 0)
      (finish-updates (key ∷ []) (omega (arith, length-append key [])) ∙ ap hash (append-nil key))

length-k0 : (key : List ℕ) → length (k0 key) ≡ 64
unfolding k0
length-k0 key = elim (Bool-cases (leb (length key) 64)) [
  | inl short ↦ rw short (
      omega (
        arith,
        length-append key (replicate (64 - length key) 0),
        length-replicate {A = ℕ} (64 - length key) 0,
        leb→le _ _ short,
      ))
  | inr long ↦ rw long (omega (arith, length-append (hash key) (replicate 32 0), length-hash key))
]

hmac_updates-updates :
    (ctx : HmacCtx) (xs : List (List ℕ))
    → hmac_updates ctx xs ≡ record ctx { sm3_ctx = updates ctx.sm3_ctx xs }
unfolding hmac_updates hmac_update updates
hmac_updates-updates ctx [] = refl
hmac_updates-updates ctx (x ∷ xs) = hmac_updates-updates (hmac_update ctx x) xs

-- However a message of fewer than 2 ^ 61 - 64 bytes is cut into calls of `sm3_hmac_update`, the MAC
-- is HMAC-SM3 of the key and the whole message, for every key of fewer than 2 ^ 61 bytes.
pub hmac_finish-hmac :
    (key : List ℕ) (xs : List (List ℕ))
    → length key < 2 ^ 61
    → length (joined xs) + 64 < 2 ^ 61
    → hmac_finish (hmac_updates (hmac_init key) xs) ≡ hmac key (joined xs)
unfolding hmac_finish hmac_init hmac
hmac_finish-hmac key xs hk hx =
    rw
      (
        hmac_updates-updates (hmac_init key) xs,
        hmac_init,
        block_key-k0 key hk,
        mask_key-mask_key,
        inner,
      )
      (finish_two_parts (mask_key opad (k0 key)) (hash (mask_key ipad (k0 key) ++ joined xs)) (
        omega (
          arith,
          length-mask_key opad (k0 key),
          length-k0 key,
          length-hash (mask_key ipad (k0 key) ++ joined xs),
        )))
  where
    inner :
        finish (updates (update init (mask_key ipad (k0 key))) xs)
        ≡ hash (mask_key ipad (k0 key) ++ joined xs)
    inner =
        unfold updates in
        finish-updates (mask_key ipad (k0 key) ∷ xs) (
          omega (
            arith,
            length-append (mask_key ipad (k0 key)) (joined xs),
            length-mask_key ipad (k0 key),
            length-k0 key,
          ))

pub length-hmac : (key m : List ℕ) → length (hmac key m) ≡ 32
unfolding hmac
length-hmac key m = length-hash (mask_key opad (k0 key) ++ hash (mask_key ipad (k0 key) ++ m))
