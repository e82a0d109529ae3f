-- ===== src/Sm4/Blocks/Feed.antt =====
-- The runs of an update that succeed, taken apart and put together.
use gm_ssl.Base.{ℕ, ◌≡◌, refl, sym, ap, ◌∙◌, List, [], ◌∷◌, ◌++◌}
use gm_ssl.Base.{some}
use gm_ssl.Sm4.Blocks.{Reply, failed, needs, done, feed, collected}

module _ {A : Type 0} where
  pub done_injective :
      (a b : A) (v w : List ℕ) → ◌≡◌ {A = Reply A} (done a v) (done b w) → (a ≡ b) × (v ≡ w)
  done_injective a b v w e = (cc, cc)

  -- What comes behind one update.
  after : (A → List ℕ → Reply A) → List (List ℕ) → List ℕ → Reply A → Reply A
  after next xs written failed = failed
  after next xs written (needs n) = needs n
  after next xs written (done ctx o) = feed next ctx xs (written ++ o)

  -- One update that succeeded.
  pub record Stepped (next : A → List ℕ → Reply A) (ctx : A) (x : List ℕ) : Type 0 where
    pub ctx' : A
    pub out : List ℕ
    pub returns : next ctx x ≡ done ctx' out

  module _ (next : A → List ℕ → Reply A) where
    feed-after :
        (ctx : A) (x : List ℕ) (xs : List (List ℕ)) (written : List ℕ)
        → feed next ctx (x ∷ xs) written ≡ after next xs written (next ctx x)
    unfolding feed after
    feed-after ctx x xs written =
        elim (next ctx x)
          as (λ r.
            (elim r [
              | failed ↦ failed
              | needs n ↦ needs n
              | done c o ↦ feed next c xs (written ++ o)
            ])
            ≡ after next xs written r) [ failed ↦ refl | needs n ↦ refl | done c o ↦ refl ]

    stepped :
        (xs : List (List ℕ)) (written : List ℕ) (ctx' : A) (all : List ℕ) (r : Reply A)
        → after next xs written r ≡ done ctx' all
        → (c : A) × (o : List ℕ) × (r ≡ done c o) × (feed next c xs (written ++ o) ≡ done ctx' all)
    unfolding after
    stepped xs written ctx' all failed e = cc
    stepped xs written ctx' all (needs n) e = cc
    stepped xs written ctx' all (done c o) e = (c, o, refl, e)

    -- A run that succeeds begins with an update that does.
    pub feed_cons :
        (ctx : A) (x : List ℕ) (xs : List (List ℕ)) (written : List ℕ) (ctx' : A) (all : List ℕ)
        → feed next ctx (x ∷ xs) written ≡ done ctx' all
        → (c : A) × (o : List ℕ) × (next ctx x ≡ done c o)
          × (feed next c xs (written ++ o) ≡ done ctx' all)
    feed_cons ctx x xs written ctx' all e =
        stepped xs written ctx' all (next ctx x) (sym (feed-after ctx x xs written) ∙ e)

    pub feed_step :
        (ctx c : A) (x : List ℕ) (xs : List (List ℕ)) (written o : List ℕ)
        → next ctx x ≡ done c o
        → feed next ctx (x ∷ xs) written ≡ feed next c xs (written ++ o)
    unfolding after
    feed_step ctx c x xs written o e = feed-after ctx x xs written ∙ ap (after next xs written) e

    pub feed_last :
        (ctx : A) (xs ys : List (List ℕ)) (written : List ℕ) (ctx' : A) (all : List ℕ)
        → feed next ctx xs written ≡ done ctx' all
        → feed next ctx (xs ++ ys) written ≡ feed next ctx' ys all
    unfolding feed
    feed_last ctx [] ys written ctx' all e =
        let (p, q) = done_injective ctx ctx' written all e in rw (p, q) refl
    feed_last ctx (x ∷ xs) ys written ctx' all e =
        let (c, o, s, r) = feed_cons ctx x xs written ctx' all e in
        feed_step ctx c x (xs ++ ys) written o s ∙ feed_last c xs ys (written ++ o) ctx' all r

  pub collected_returns :
      (written : List ℕ) (r : Reply A) (all : List ℕ)
      → collected written r ≡ some all
      → (c : A) × (o : List ℕ) × (r ≡ done c o) × (all ≡ written ++ o)
  unfolding collected
  collected_returns written failed all e = cc
  collected_returns written (needs n) all e = cc
  collected_returns written (done c o) all e = (c, o, refl, cc)
