-- ===== src/Sm4/Shape.antt =====
-- What the one-shot functions of src/sm4_cbc.c and src/sm4_ctr.c write is bytes, so many of them.
use gm_ssl.Base.{ℕ, zero, suc, ◌+◌, ◌*◌, ◌/◌, arith, ◌≡◌, List, length, take, drop}
use gm_ssl.Base.{All, IsByte, All-append, length-append}
use gm_ssl.Mem.{memxor}
use gm_ssl.Mem.Laws.{memxor-IsByte, length-memxor}
use gm_ssl.Stream.{iterate}
use gm_ssl.Sm4.{encrypt}
use gm_ssl.Sm4.Inverse.{encrypt-IsBlock}
use gm_ssl.Sm4.Blocks.{cbc_encrypt_step}
use gm_ssl.Sm4.Cbc.{cbc_encrypt_blocks, padded_block, padding_encrypt}
use gm_ssl.Sm4.Cbc.Laws.{length-cbc_encrypt_blocks}
use gm_ssl.Sm4.Ctr.{counter_encrypt}
use gm_ssl.Sm4.Ctr.Laws.{keystream, length-keystream, counter_encrypt-keystream}

cbc_encrypt_blocks-IsByte :
    (key iv : List ℕ) (n : ℕ) (x : List ℕ) → All IsByte (cbc_encrypt_blocks key iv n x).1
unfolding cbc_encrypt_blocks iterate cbc_encrypt_step
cbc_encrypt_blocks-IsByte key iv zero x = tt
cbc_encrypt_blocks-IsByte key iv (suc n) x =
    let c = encrypt key (memxor (take 16 x) iv) in
    All-append IsByte c (cbc_encrypt_blocks key c n (drop 16 x)).1
      (encrypt-IsBlock key (memxor (take 16 x) iv)).bytes
      (cbc_encrypt_blocks-IsByte key c n (drop 16 x))

pub padding_encrypt-IsByte :
    (key iv m : List ℕ)
    → All IsByte (padding_encrypt key iv m)
      × (length (padding_encrypt key iv m) ≡ (length m / 16 + 1) * 16)
unfolding padding_encrypt
padding_encrypt-IsByte key iv m =
    let n = length m / 16 in
    let first = cbc_encrypt_blocks key iv n m in
    let last = cbc_encrypt_blocks key first.0 1 (padded_block m) in
    (
      All-append IsByte first.1 last.1 (cbc_encrypt_blocks-IsByte key iv n m)
          (cbc_encrypt_blocks-IsByte key first.0 1 (padded_block m)),
      omega (
        arith,
        length-append first.1 last.1,
        length-cbc_encrypt_blocks key iv n m,
        length-cbc_encrypt_blocks key first.0 1 (padded_block m),
      ),
    )

module _ (incr : List ℕ → List ℕ) (key : List ℕ) where
  keystream-IsByte : (ctr : List ℕ) (n : ℕ) → All IsByte (keystream incr key ctr n)
  unfolding keystream
  keystream-IsByte ctr zero = tt
  keystream-IsByte ctr (suc n) =
      All-append IsByte (encrypt key ctr) (keystream incr key (incr ctr) n)
        (encrypt-IsBlock key ctr).bytes (keystream-IsByte (incr ctr) n)

  -- For either counter mode, every key schedule and counter, and a message of bytes: the one-shot
  -- function writes bytes, as many as the message has.
  pub counter_encrypt-IsByte :
      (ctr m : List ℕ)
      → All IsByte m
      → All IsByte (counter_encrypt incr key ctr m).1
        × (length (counter_encrypt incr key ctr m).1 ≡ length m)
  counter_encrypt-IsByte ctr m h =
      let n = suc (length m / 16) in
      rw (counter_encrypt-keystream incr key ctr m) (
        memxor-IsByte m (keystream incr key ctr n) h (keystream-IsByte ctr n),
        omega (arith, length-memxor m (keystream incr key ctr n), length-keystream incr key ctr n),
      )
