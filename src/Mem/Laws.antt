-- ===== src/Mem/Laws.antt =====
-- What the memory helpers do to the bytes.
use gm_ssl.Base.{ℕ, zero, suc, ◌+◌, ◌≤◌, min, bit_or, bit_xor, arith, ◌≡◌, refl, ap, ap₂, sym, ◌∙◌}
use gm_ssl.Base.{
  List, [], ◌∷◌, ◌++◌, append-nil, append_assoc, ◌↔◌, length, take, drop, All, IsByte,
}
use gm_ssl.Base.{length-append, length-take, length-drop, take-append_eq, drop-append_eq, drop_all}
use gm_ssl.Mem.{is_zero_loop, mem_is_zero}
use gm_ssl.Base.{Bool-cases, inl, inr, ==→eq, eq→==, ◌==◌}
use gm_ssl.Base.{drop-drop, All-append, All-take, All-drop}
use gm_ssl.Base.Bits.{bit_xor-lt, bit_xor_cancel, bit_xor_self}
use gm_ssl.Base.Bits.{bit_or-eq-zero, bit_xor-eq-zero}
use gm_ssl.Mem.{memxor, memcmp_loop, secure_memcmp, write}

pub length-memxor : (xs ys : List ℕ) → length (memxor xs ys) ≡ min (length xs) (length ys)
unfolding memxor
length-memxor [] ys = omega arith
length-memxor (x ∷ xs) [] = omega arith
length-memxor (x ∷ xs) (y ∷ ys) = omega (arith, length-memxor xs ys)

-- A mask as long as the data cancels when it is applied twice.
pub memxor_cancel : (xs ys : List ℕ) → length xs ≤ length ys → memxor (memxor xs ys) ys ≡ xs
unfolding memxor
memxor_cancel [] ys h = refl
memxor_cancel (x ∷ xs) [] h = absurd (omega arith)
memxor_cancel (x ∷ xs) (y ∷ ys) h = ap₂ ◌∷◌ (bit_xor_cancel x y) (memxor_cancel xs ys (omega arith))

pub memxor-IsByte : (xs ys : List ℕ) → All IsByte xs → All IsByte ys → All IsByte (memxor xs ys)
unfolding memxor
memxor-IsByte [] ys h k = tt
memxor-IsByte (x ∷ xs) [] h k = tt
memxor-IsByte (x ∷ xs) (y ∷ ys) h k = (bit_xor-lt 8 x y h.0 k.0, memxor-IsByte xs ys h.1 k.1)

pub memxor-take_left : (n : ℕ) (xs ys : List ℕ) → take n (memxor xs ys) ≡ memxor (take n xs) ys
unfolding memxor
memxor-take_left zero xs ys = refl
memxor-take_left (suc n) [] ys = refl
memxor-take_left (suc n) (x ∷ xs) [] = refl
memxor-take_left (suc n) (x ∷ xs) (y ∷ ys) = ap (λ zs. bit_xor x y ∷ zs) (memxor-take_left n xs ys)

-- A write that fits keeps the size, and is read back behind what stood before it.
pub length-write :
    (dst : List ℕ) (off : ℕ) (src : List ℕ)
    → off + length src ≤ length dst
    → length (write dst off src) ≡ length dst
unfolding write
length-write dst off src h = omega (
  arith,
  length-append (take off dst) (src ++ drop (off + length src) dst),
  length-append src (drop (off + length src) dst),
  length-take off dst,
  length-drop (off + length src) dst,
)

pub take-write :
    (dst : List ℕ) (off : ℕ) (src : List ℕ)
    → off + length src ≤ length dst
    → take (off + length src) (write dst off src) ≡ take off dst ++ src
unfolding write
take-write dst off src h = rw (← append_assoc (take off dst) src (drop (off + length src) dst)) (
    take-append_eq (off + length src) (take off dst ++ src) (drop (off + length src) dst)
      (omega (arith, length-append (take off dst) src, length-take off dst)))

pub write_full :
    (dst : List ℕ) (off : ℕ) (src : List ℕ)
    → off + length src ≡ length dst
    → write dst off src ≡ take off dst ++ src
unfolding write
write_full dst off src h =
    ap (λ t. take off dst ++ (src ++ t)) (drop_all (off + length src) dst (omega arith))
    ∙ ap (λ t. take off dst ++ t) (append-nil src)

pub write-IsByte :
    (dst : List ℕ) (off : ℕ) (src : List ℕ)
    → All IsByte dst
    → All IsByte src
    → All IsByte (write dst off src)
unfolding write
write-IsByte dst off src h k =
    All-append IsByte (take off dst) _ (All-take IsByte off dst h)
      (All-append IsByte src _ k (All-drop IsByte (off + length src) dst h))

memcmp_loop-zero :
    (x : ℕ) (as' bs : List ℕ)
    → length as' ≡ length bs
    → memcmp_loop x as' bs ≡ 0
    → (x ≡ 0) × (as' ≡ bs)
unfolding memcmp_loop
memcmp_loop-zero x [] [] n h = (h, refl)
memcmp_loop-zero x [] (b ∷ bs) n h = absurd (omega arith)
memcmp_loop-zero x (a ∷ as') [] n h = absurd (omega arith)
memcmp_loop-zero x (a ∷ as') (b ∷ bs) n h =
    let (e, rest) = memcmp_loop-zero (bit_or x (bit_xor a b)) as' bs (omega arith) h in
    let (p, q) = bit_or-eq-zero x (bit_xor a b) e in (p, ap₂ ◌∷◌ (bit_xor-eq-zero a b q) rest)

memcmp_loop_self : (as' : List ℕ) → memcmp_loop 0 as' as' ≡ 0
unfolding memcmp_loop
memcmp_loop_self [] = refl
memcmp_loop_self (a ∷ as') = rw bit_xor_self (memcmp_loop_self as')

-- On two buffers of one length `gmssl_secure_memcmp` answers 0 exactly when they are equal.
pub secure_memcmp_iff : (a b : List ℕ) → length a ≡ length b → (secure_memcmp a b ≡ 0) ↔ (a ≡ b)
unfolding secure_memcmp
secure_memcmp_iff a b n = (λ h. (memcmp_loop-zero 0 a b n h).1, λ e. rw (← e) (memcmp_loop_self a))

-- A write behind a prefix replaces as many bytes there as it brings.
pub write_behind :
    (a b : List ℕ) (off : ℕ) (src : List ℕ)
    → length a ≡ off
    → write (a ++ b) off src ≡ a ++ (src ++ drop (length src) b)
unfolding write
write_behind a b off src e =
    ap₂ (λ s t. s ++ (src ++ t)) (take-append_eq off a b e)
      (sym (drop-drop off (length src) (a ++ b))
        ∙ ap (λ t. drop (length src) t) (drop-append_eq off a b e))

-- A byte that is not zero is not forgotten.
is_zero_loop-zero : (buf : List ℕ) → is_zero_loop 0 buf ≡ 0
unfolding is_zero_loop
is_zero_loop-zero [] = refl
is_zero_loop-zero (b ∷ buf) = elim (Bool-cases (b == 0)) [
  | inl is ↦ rw is (is_zero_loop-zero buf)
  | inr other ↦ rw other (is_zero_loop-zero buf)
]

is_zero_loop-All : (buf : List ℕ) → is_zero_loop 1 buf ≡ 1 → All (λ b. b ≡ 0) buf
unfolding is_zero_loop
is_zero_loop-All [] h = tt
is_zero_loop-All (b ∷ buf) h = elim (Bool-cases (b == 0)) [
  | inl is ↦ (==→eq _ _ is, is_zero_loop-All buf (rw is at h))
  | inr other ↦ absurd (omega (arith, is_zero_loop-zero buf, (rw other at h)))
]

is_zero_loop-one : (buf : List ℕ) → All (λ b. b ≡ 0) buf → is_zero_loop 1 buf ≡ 1
unfolding is_zero_loop
is_zero_loop-one [] h = refl
is_zero_loop-one (b ∷ buf) h = rw (eq→== b 0 h.0) (is_zero_loop-one buf h.1)

-- `mem_is_zero` answers 1 exactly on a buffer whose bytes are all zero.
pub mem_is_zero_iff : (buf : List ℕ) → (mem_is_zero buf ≡ 1) ↔ All (λ b. b ≡ 0) buf
unfolding mem_is_zero
mem_is_zero_iff buf = (is_zero_loop-All buf, is_zero_loop-one buf)
