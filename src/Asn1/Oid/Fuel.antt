-- ===== src/Asn1/Oid/Fuel.antt =====
-- The loop over an identifier's octets ends: each round takes at least one of them.
use gm_ssl.Base.{
  ℕ, zero, suc, ◌+◌, ◌≤◌, ◌<◌, bit_and, arith, ◌≡◌, refl, ap, List, [], ◌∷◌, ◌++◌, length,
}
use gm_ssl.Base.{
  Option, none, some, ◌>>=◌, ◌==◌, Bool-cases, inl, inr, Bool, true, false, if◌then◌else◌,
}
use gm_ssl.Base.{◌≢◌, ltb}
use gm_ssl.Asn1.Oid.{Looped, starved, refused, ended, behind, max_nodes}
use gm_ssl.Asn1.Oid.{digits_loop, node_of, node_from_base128, nodes_loop}

digits_loop_shorter :
    (n : ℕ) (buf input buf' rest : List ℕ)
    → digits_loop n buf input ≡ some (buf', rest)
    → length rest < length input
unfolding digits_loop
digits_loop_shorter zero buf [] buf' rest e = absurd (cc e)
digits_loop_shorter (suc n) buf [] buf' rest e = absurd (cc e)
digits_loop_shorter zero buf (b ∷ input) buf' rest e = absurd (cc e)
digits_loop_shorter (suc n) buf (b ∷ input) buf' rest e = elim (Bool-cases (bit_and b 0x80 == 0)) [
  | inl last ↦
      let f : ◌≡◌ {A = Option (List ℕ × List ℕ)} (some (buf ++ (b ∷ []), input))
          (some (buf', rest)) =
        rw last at e in
      let g : input ≡ rest = cc in omega (arith, ap length g)
  | inr more ↦
      let f : digits_loop n (buf ++ (b ∷ [])) input ≡ some (buf', rest) = rw more at e in
      omega (arith, digits_loop_shorter n (buf ++ (b ∷ [])) input buf' rest f)
]

kept_input :
    (t : Bool) (v a : ℕ) (left rest : List ℕ)
    → ◌≡◌ {A = Option (ℕ × List ℕ)} (if t then none else some (v, left)) (some (a, rest))
    → left ≡ rest
kept_input true v a left rest e = absurd (cc e)
kept_input false v a left rest e = cc

node_from_base128-shorter :
    (input : List ℕ) (a : ℕ) (rest : List ℕ)
    → node_from_base128 input ≡ some (a, rest)
    → length rest < length input
unfolding node_from_base128 node_of
node_from_base128-shorter input a rest e = from (digits_loop 5 [] input) refl e
  where
    from :
        (r : Option (List ℕ × List ℕ))
        → digits_loop 5 [] input ≡ r
        → (r >>= node_of) ≡ some (a, rest)
        → length rest < length input
    from none same h = absurd (cc h)
    from (some (buf, left)) same h =
        let e : left ≡ rest = kept_input _ _ a left rest h in
        omega (arith, ap length e, digits_loop_shorter 5 [] input buf left same)

behind-starved : (val : ℕ) (r : Looped) → r ≢ starved → behind val r ≢ starved
unfolding behind
behind-starved val starved h = h
behind-starved val refused h = h
behind-starved val (ended nodes) h = λ e. cc e

refused_ends : refused ≢ starved
refused_ends e = cc e

-- One round, from what the next ones do.
round :
    (n cnt b : ℕ) (input : List ℕ)
    → ((rest : List ℕ) → length rest < suc (length input) → nodes_loop n (cnt + 1) rest ≢ starved)
    → (r : Option (ℕ × List ℕ)) → node_from_base128 (b ∷ input) ≡ r
    → nodes_loop (suc n) cnt (b ∷ input) ≢ starved
unfolding nodes_loop
round n cnt b input ih none same = elim (Bool-cases (ltb max_nodes cnt)) [
  | inl full ↦ rw full refused_ends
  | inr room ↦ rw (room, same, nodes_loop) refused_ends
]
round n cnt b input ih (some (val, rest)) same = elim (Bool-cases (ltb max_nodes cnt)) [
  | inl full ↦ rw full refused_ends
  | inr room ↦
      rw (room, same, nodes_loop)
        (behind-starved val (nodes_loop n (cnt + 1) rest)
          (ih rest (node_from_base128-shorter (b ∷ input) val rest same)))
]

-- For every count of nodes so far, the loop of `asn1_object_identifier_from_octets` ends after at
-- most one round for each octet, with its nodes or with an error.
pub nodes_loop-enough :
    (n cnt : ℕ) (input : List ℕ) → length input ≤ n → nodes_loop n cnt input ≢ starved
unfolding nodes_loop
nodes_loop-enough zero cnt [] h = λ e. cc e
nodes_loop-enough (suc n) cnt [] h = λ e. cc e
nodes_loop-enough zero cnt (b ∷ input) h = absurd (omega arith)
nodes_loop-enough (suc n) cnt (b ∷ input) h =
    round n cnt b input (λ rest fewer. nodes_loop-enough n (cnt + 1) rest (omega arith))
      (node_from_base128 (b ∷ input)) refl
