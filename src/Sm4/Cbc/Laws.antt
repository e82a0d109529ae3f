-- ===== src/Sm4/Cbc/Laws.antt =====
-- CBC decryption undoes CBC encryption, on whole blocks and with the padding.
use gm_ssl.Base.{ℕ, zero, suc, ◌+◌, ◌-◌, ◌*◌, ◌/◌, ◌%◌, ◌≤◌, arith, ◌≡◌, refl, sym, ap, ◌∙◌}
use gm_ssl.Base.{List, ◌++◌, length, take, drop, get_or, replicate}
use gm_ssl.Base.{
  All, IsByte, All-take, All-drop, All-append, All-replicate, length-append, length-take,
}
use gm_ssl.Base.{
  length-drop, length-replicate, take-append_eq, drop-append_eq, take-append-drop, take-add,
  get_or-append_ge,
}
use gm_ssl.Base.{get_or-replicate}
use gm_ssl.Base.{take_all, ne→==, le→ltb}
use gm_ssl.Mem.{memxor}
use gm_ssl.Mem.Laws.{memxor_cancel, memxor-IsByte, length-memxor}
use gm_ssl.Stream.{iterate}
use gm_ssl.Stream.Loop.{iterate-append}
use gm_ssl.Sm4.{encrypt, set_encrypt_key, set_decrypt_key}
use gm_ssl.Sm4.Inverse.{IsBlock, decrypt-encrypt, encrypt-IsBlock}
use gm_ssl.Sm4.Blocks.{cbc_encrypt_step, cbc_decrypt_step}
use gm_ssl.Sm4.Cbc.{cbc_encrypt_blocks, cbc_decrypt_blocks, padded_block, padding_encrypt}
use gm_ssl.Sm4.Cbc.{padding_decrypt, unpadded, plain}

memxor-IsBlock : (a b : List ℕ) → IsBlock a → IsBlock b → IsBlock (memxor a b)
memxor-IsBlock a b ha hb = record {
  size = omega (arith, length-memxor a b, ha.size, hb.size);
  bytes = memxor-IsByte a b ha.bytes hb.bytes;
}

pub take-IsBlock : (x : List ℕ) → All IsByte x → 16 ≤ length x → IsBlock (take 16 x)
take-IsBlock x h n = record {
  size = omega (arith, length-take 16 x);
  bytes = All-take IsByte 16 x h;
}

-- What the loop leaves as iv is a block, and it writes 16 bytes for each block.
pub cbc_encrypt_blocks-IsBlock :
    (key iv : List ℕ) (n : ℕ) (x : List ℕ) → IsBlock iv → IsBlock (cbc_encrypt_blocks key iv n x).0
unfolding cbc_encrypt_blocks iterate cbc_encrypt_step
cbc_encrypt_blocks-IsBlock key iv zero x h = h
cbc_encrypt_blocks-IsBlock key iv (suc n) x h =
    cbc_encrypt_blocks-IsBlock key (encrypt key (memxor (take 16 x) iv)) n (drop 16 x)
      (encrypt-IsBlock key (memxor (take 16 x) iv))

pub length-cbc_encrypt_blocks :
    (key iv : List ℕ) (n : ℕ) (x : List ℕ) → length (cbc_encrypt_blocks key iv n x).1 ≡ n * 16
unfolding cbc_encrypt_blocks iterate cbc_encrypt_step
length-cbc_encrypt_blocks key iv zero x = refl
length-cbc_encrypt_blocks key iv (suc n) x =
    let c = encrypt key (memxor (take 16 x) iv) in
    omega (
      arith,
      length-append c (cbc_encrypt_blocks key c n (drop 16 x)).1,
      length-cbc_encrypt_blocks key c n (drop 16 x),
      (encrypt-IsBlock key (memxor (take 16 x) iv)).size,
    )

-- For every user key, every iv that is a block, and at least `n` blocks of bytes:
-- `sm4_cbc_decrypt_blocks` gives back the `n` blocks that `sm4_cbc_encrypt_blocks` encrypted under
-- the other key schedule, and leaves the same iv.
pub cbc_decrypt_blocks-encrypt :
    (user_key iv : List ℕ) (n : ℕ) (x : List ℕ)
    → IsBlock iv
    → All IsByte x
    → n * 16 ≤ length x
    → cbc_decrypt_blocks
        (set_decrypt_key user_key)
        iv
        n
        (cbc_encrypt_blocks (set_encrypt_key user_key) iv n x).1
      ≡ ((cbc_encrypt_blocks (set_encrypt_key user_key) iv n x).0, take (n * 16) x)
unfolding cbc_encrypt_blocks cbc_decrypt_blocks iterate cbc_encrypt_step cbc_decrypt_step
cbc_decrypt_blocks-encrypt user_key iv zero x hi hx h = refl
cbc_decrypt_blocks-encrypt user_key iv (suc n) x hi hx h =
    let k = set_encrypt_key user_key in
    let b = take 16 x in
    let c = encrypt k (memxor b iv) in
    let rest = (cbc_encrypt_blocks k c n (drop 16 x)).1 in
    let hb = take-IsBlock x hx (omega arith) in
    let opened = decrypt-encrypt user_key (memxor b iv) (memxor-IsBlock b iv hb hi) in
    let ih =
      cbc_decrypt_blocks-encrypt user_key c n (drop 16 x) (encrypt-IsBlock k (memxor b iv))
        (All-drop IsByte 16 x hx) (omega (arith, length-drop 16 x)) in
    let e : suc n * 16 ≡ 16 + n * 16 = omega arith in
    rw
      (
        take-append_eq 16 c rest (encrypt-IsBlock k (memxor b iv)).size,
        drop-append_eq 16 c rest (encrypt-IsBlock k (memxor b iv)).size,
        opened,
        memxor_cancel b iv (omega (arith, hb.size, hi.size)),
        ih,
        e,
        take-add 16 (n * 16) x,
      )
      refl

-- The bytes of the last block.
module _ (m : List ℕ) (h : All IsByte m) where
  abbrev rem : ℕ
  rem = length m % 16

  abbrev tail : List ℕ
  tail = drop (length m - rem) m

  length-tail : length tail ≡ rem
  length-tail = omega (arith, length-drop (length m - rem) m)

  pub padded_block-IsBlock : IsBlock (padded_block m)
  unfolding padded_block
  padded_block-IsBlock = record {
    size = omega (
      arith,
      length-append tail (replicate (16 - rem) (16 - rem)),
      length-tail,
      length-replicate (16 - rem) (16 - rem),
    );
    bytes =
        All-append IsByte tail (replicate (16 - rem) (16 - rem))
          (All-drop IsByte (length m - rem) m h)
          (All-replicate IsByte (16 - rem) (16 - rem) (omega arith));
  }

  -- Its last byte says how many bytes were added.
  padded_block-last : get_or (padded_block m) 15 0 ≡ 16 - rem
  unfolding padded_block
  padded_block-last =
      let e : length tail + (15 - rem) ≡ 15 = omega (arith, length-tail) in
      ap (λ i. get_or (tail ++ replicate (16 - rem) (16 - rem)) i 0) (sym e)
      ∙ get_or-append_ge tail (replicate (16 - rem) (16 - rem)) (15 - rem) 0
      ∙ get_or-replicate (16 - rem) (15 - rem) (16 - rem) 0 (omega arith)

  padded_block-take : take (16 - (16 - rem)) (padded_block m) ≡ tail
  unfolding padded_block
  padded_block-take =
      take-append_eq (16 - (16 - rem)) tail (replicate (16 - rem) (16 - rem))
        (omega (arith, length-tail))

  module _ (user_key iv : List ℕ) (hi : IsBlock iv) where
    abbrev key : List ℕ
    key = set_encrypt_key user_key

    abbrev dkey : List ℕ
    dkey = set_decrypt_key user_key

    abbrev body : List ℕ
    body = (cbc_encrypt_blocks key iv (length m / 16) m).1

    abbrev iv' : List ℕ
    iv' = (cbc_encrypt_blocks key iv (length m / 16) m).0

    abbrev last : List ℕ
    last = (cbc_encrypt_blocks key iv' 1 (padded_block m)).1

    open_body :
        cbc_decrypt_blocks dkey iv (length m / 16) (body ++ last)
        ≡ (iv', take (length m / 16 * 16) m)
    open_body =
        drop_last ∙ cbc_decrypt_blocks-encrypt user_key iv (length m / 16) m hi h (omega arith)
      where
        drop_last :
            cbc_decrypt_blocks dkey iv (length m / 16) (body ++ last)
            ≡ cbc_decrypt_blocks dkey iv (length m / 16) body
        drop_last =
            unfold cbc_decrypt_blocks in
            iterate-append 16 (cbc_decrypt_step dkey) iv (length m / 16) body last
              (omega (arith, length-cbc_encrypt_blocks key iv (length m / 16) m))

    open_last : (cbc_decrypt_blocks dkey iv' 1 last).1 ≡ padded_block m
    open_last =
        ap (λ r. r.1)
          (cbc_decrypt_blocks-encrypt user_key iv' 1 (padded_block m)
            (cbc_encrypt_blocks-IsBlock key iv (length m / 16) m hi) padded_block-IsBlock.bytes
            (omega (arith, padded_block-IsBlock.size)))
        ∙ take_all 16 (padded_block m) (omega (arith, padded_block-IsBlock.size))

    -- For every user key, every iv that is a block, and every message of bytes, of any length:
    -- `sm4_cbc_padding_decrypt` accepts what `sm4_cbc_padding_encrypt` wrote for the message, and
    -- gives the message back.
    pub padding_decrypt-encrypt : padding_decrypt dkey iv (padding_encrypt key iv m) ≡ plain m
    unfolding padding_decrypt unpadded padding_encrypt
    padding_decrypt-encrypt =
        rw
          (
            size,
            count,
            start,
            drop-append_eq (length m / 16 * 16) body last body_size,
            open_body,
            open_last,
            padded_block-last,
            padded_block-take,
            ne→== ((length m / 16 + 1) * 16) 0 (omega arith),
            le→ltb 0 ((length m / 16 + 1) * 16 % 16) (omega arith),
            le→ltb ((length m / 16 + 1) * 16) 16 (omega arith),
            le→ltb (16 - rem) 1 (omega arith),
            le→ltb 16 (16 - rem) (omega arith),
          )
          (ap plain whole)
      where
        body_size : length body ≡ length m / 16 * 16
        body_size = length-cbc_encrypt_blocks key iv (length m / 16) m

        size : length (body ++ last) ≡ (length m / 16 + 1) * 16
        size = omega (
          arith,
          length-append body last,
          body_size,
          length-cbc_encrypt_blocks key iv' 1 (padded_block m),
        )

        count : (length m / 16 + 1) * 16 / 16 - 1 ≡ length m / 16
        count = omega arith

        start : (length m / 16 + 1) * 16 - 16 ≡ length m / 16 * 16
        start = omega arith

        whole : take (length m / 16 * 16) m ++ tail ≡ m
        whole =
            let e : length m / 16 * 16 ≡ length m - rem = omega arith in
            rw e (take-append-drop (length m - rem) m)
