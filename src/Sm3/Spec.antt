-- ===== src/Sm3/Spec.antt =====
-- The hash of a whole message, as the standard GB/T 32905 states it: padding to whole blocks, and
-- the compression function over these. It knows nothing of buffers.
use gm_ssl.Base.{ℕ, zero, suc, ◌+◌, ◌-◌, ◌*◌, ◌/◌, ◌%◌, ◌≤◌, arith, ◌≡◌, refl}
use gm_ssl.Base.{List, ◌∷◌, ◌++◌, length, take, drop, replicate, leb, if◌then◌else◌, ◌>>>◌}
use gm_ssl.Base.{length-drop, take-append_le, drop-append_le, drop-drop}
use gm_ssl.Endian.{putu32}
use gm_ssl.Sm3.{iv, digest_bytes}
use gm_ssl.Sm3.Compress.{Vars, compress}

-- The least number of zero bytes that fills the last block.
unfoldable pub zeros : ℕ → ℕ
zeros n = if leb (n % 64) 55 then 55 - n % 64 else 119 - n % 64

-- The number of bits in eight bytes.
unfoldable pub length_field : ℕ → List ℕ
length_field n = putu32 ((n * 8) >>> 32) ++ putu32 (n * 8)

-- What follows a message of `n` bytes.
unfoldable pub padding : ℕ → List ℕ
unfolding zeros length_field
padding n = 0x80 ∷ (replicate (zeros n) 0 ++ length_field n)

unfoldable pub compress_all : Vars → ℕ → List ℕ → Vars
compress_all d zero input = d
compress_all d (suc n) input = compress_all (compress d (take 64 input)) n (drop 64 input)

unfoldable pub hash : List ℕ → List ℕ
hash m =
    let padded = m ++ padding (length m) in
    digest_bytes (compress_all iv (length padded / 64) padded)

pub compress_all-append :
    (d : Vars) (n : ℕ) (xs ys : List ℕ)
    → n * 64 ≤ length xs
    → compress_all d n (xs ++ ys) ≡ compress_all d n xs
unfolding compress_all
compress_all-append d zero xs ys h = refl
compress_all-append d (suc n) xs ys h = rw (
  take-append_le 64 xs ys (omega arith),
  drop-append_le 64 xs ys (omega arith),
  compress_all-append (compress d (take 64 xs)) n (drop 64 xs) ys
      (omega (arith, length-drop 64 xs)),
)

pub compress_all-add :
    (d : Vars) (m n : ℕ) (input : List ℕ)
    → compress_all d (m + n) input ≡ compress_all (compress_all d m input) n (drop (m * 64) input)
unfolding compress_all
compress_all-add d zero n input = let e : 0 + n ≡ n = omega arith in rw e
compress_all-add d (suc m) n input =
    let e : suc m + n ≡ suc (m + n) = omega arith in
    let e' : suc m * 64 ≡ 64 + m * 64 = omega arith in
    rw (
      e,
      e',
      ← drop-drop 64 (m * 64) input,
      compress_all-add (compress d (take 64 input)) m n (drop 64 input),
    )
