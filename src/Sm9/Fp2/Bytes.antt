-- ===== src/Sm9/Fp2/Bytes.antt =====
-- Elements of the extension are read back as they were written.
use native.Mathlib.Nat.{mod-mod}
use Prim.Native.Nat.{compare, Ordering}
use gm_ssl.Base.{ℕ, ◌*◌, ◌%◌, ◌^◌, ◌<◌, arith, ◌≡◌, refl, sym, ap, ◌∙◌}
use gm_ssl.Base.{List, some, take-append_eq, drop-append_eq}
use gm_ssl.Sm2.Limbs.{z256_cmp}
use gm_ssl.Sm2.Limbs.Laws.{value}
use gm_ssl.Sm2.Limbs.Words.{z256_cmp-compare, value_injective}
use gm_ssl.Sm2.Bytes.{z256_to_bytes}
use gm_ssl.Sm2.Bytes.Laws.{z256_from_bytes-z256_to_bytes, length-z256_to_bytes}
use gm_ssl.Sm2.Modular.Residues.{Same, mul-Same_left}
use gm_ssl.Sm2.Modular.Laws.{Element}
use gm_ssl.Sm9.Fp.{p_modulus, modp_to_mont, modp_from_mont}
use gm_ssl.Sm9.Fp.Laws.{
  p_inverse, p_modulus-IsModulus, elements-Stands, modp_to_mont-Stands, modp_from_mont-Stands,
}
use gm_ssl.Sm9.Fp2.{Fp2, coordinate, fp2_to_bytes, fp2_from_bytes}

-- Into Montgomery form undoes out of it.
pub modp_to_mont-modp_from_mont :
    (a : List ℕ) → Element p_modulus a → modp_to_mont (modp_from_mont a) ≡ a
modp_to_mont-modp_from_mont a h =
    let m = value p_modulus.modulus in
    let x = value a * p_inverse in
    let form = elements-Stands a h in
    let out = modp_from_mont-Stands x a form in
    let back = modp_to_mont-Stands (modp_from_mont a) out.element in
    let same : Same m (value (modp_from_mont a) * 2 ^ 256) (x * 2 ^ 256) =
      mul-Same_left m (value (modp_from_mont a)) x (2 ^ 256)
        (ap (λ n. n % m) out.residue ∙ mod-mod x m) in
    value_injective 4 (modp_to_mont (modp_from_mont a)) a back.element.words h.words
      (back.residue ∙ same ∙ sym form.residue)

less : (a b : ℕ) → a < b → compare a b ≡ Ordering.lt
less a b h = ground arith

coordinate-written :
    (a : List ℕ) → Element p_modulus a → coordinate (z256_to_bytes (modp_from_mont a)) ≡ some a
unfolding coordinate
coordinate-written a h =
    let x = value a * p_inverse in
    let out = modp_from_mont-Stands x a (elements-Stands a h) in
    let read = z256_from_bytes-z256_to_bytes (modp_from_mont a) out.element.words in
    let below : z256_cmp (modp_from_mont a) p_modulus.modulus ≡ Ordering.lt =
      z256_cmp-compare (modp_from_mont a) p_modulus.modulus out.element.words
        p_modulus-IsModulus.modulus_words
      ∙ less (value (modp_from_mont a)) (value p_modulus.modulus) out.element.reduced in
    rw (read, below) (ap some (modp_to_mont-modp_from_mont a h))

-- An element whose coordinates are four words below p is read back as it was written.
pub fp2_from_bytes-fp2_to_bytes :
    (a : Fp2)
    → Element p_modulus a.c0
    → Element p_modulus a.c1
    → fp2_from_bytes (fp2_to_bytes a) ≡ some a
unfolding fp2_from_bytes fp2_to_bytes
fp2_from_bytes-fp2_to_bytes a h0 h1 =
    let high = z256_to_bytes (modp_from_mont a.c1) in
    let low = z256_to_bytes (modp_from_mont a.c0) in
    rw
      (
        take-append_eq 32 high low (length-z256_to_bytes (modp_from_mont a.c1)),
        drop-append_eq 32 high low (length-z256_to_bytes (modp_from_mont a.c1)),
        coordinate-written a.c1 h1,
        coordinate-written a.c0 h0,
      )
      refl
