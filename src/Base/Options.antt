-- ===== src/Base/Options.antt =====
-- Chains of results that may be missing, as `do` blocks.
use mathlib.Core.Option.{Option, none, some}

infixl 55 ◌>>=◌
abbrev pub ◌>>=◌ {ℓ κ} : {A : Type ℓ} {B : Type κ} → Option A → (A → Option B) → Option B
none >>= f = none
some a >>= f = f a
