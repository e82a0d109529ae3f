-- ===== src/Sm3/Hmac/Fed.antt =====
-- What an HMAC context has been fed, as an invariant of its updates.
use gm_ssl.Base.{
  ℕ, ◌+◌, ◌^◌, ◌<◌, arith, ◌≡◌, refl, sym, ap, ◌∙◌, List, [], ◌∷◌, ◌++◌, joined, length,
}
use gm_ssl.Base.{append-nil, append_assoc}
use gm_ssl.Sm3.Hmac.{HmacCtx, hmac_init, hmac_update, hmac_updates, hmac_finish}
use gm_ssl.Sm3.Hmac.Laws.{hmac, hmac_finish-hmac}

pub record Fed (key seen : List ℕ) (ctx : HmacCtx) : Type 0 where
  pub parts : List (List ℕ)
  pub all : joined parts ≡ seen
  pub fed : ctx ≡ hmac_updates (hmac_init key) parts

joined_last : (xs : List (List ℕ)) (x : List ℕ) → joined (xs ++ (x ∷ [])) ≡ joined xs ++ x
joined_last [] x = append-nil x
joined_last (y ∷ xs) x = ap (λ t. y ++ t) (joined_last xs x) ∙ sym (append_assoc y (joined xs) x)

hmac_updates_last :
    (ctx : HmacCtx) (xs : List (List ℕ)) (x : List ℕ)
    → hmac_updates ctx (xs ++ (x ∷ [])) ≡ hmac_update (hmac_updates ctx xs) x
unfolding hmac_updates
hmac_updates_last ctx [] x = refl
hmac_updates_last ctx (y ∷ xs) x = hmac_updates_last (hmac_update ctx y) xs x

pub hmac_init-Fed : (key : List ℕ) → Fed key [] (hmac_init key)
unfolding hmac_updates
hmac_init-Fed key = record { parts = []; all = refl; fed = refl }

pub hmac_update-Fed :
    (key seen x : List ℕ) (ctx : HmacCtx)
    → Fed key seen ctx
    → Fed key (seen ++ x) (hmac_update ctx x)
hmac_update-Fed key seen x ctx f = record {
  parts = f.parts ++ (x ∷ []);
  all = joined_last f.parts x ∙ ap (λ t. t ++ x) f.all;
  fed = ap (λ c. hmac_update c x) f.fed ∙ sym (hmac_updates_last (hmac_init key) f.parts x);
}

pub hmac_finish-Fed :
    (key seen : List ℕ) (ctx : HmacCtx)
    → length key < 2 ^ 61
    → length seen + 64 < 2 ^ 61
    → Fed key seen ctx
    → hmac_finish ctx ≡ hmac key seen
hmac_finish-Fed key seen ctx hk hs f =
    ap hmac_finish f.fed
    ∙ hmac_finish-hmac key f.parts hk (omega (arith, ap length f.all))
    ∙ ap (hmac key) f.all
