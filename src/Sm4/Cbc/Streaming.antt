-- ===== src/Sm4/Cbc/Streaming.antt =====
-- The streaming CBC encryption writes what the one-shot function writes.
use gm_ssl.Base.{ℕ, ◌+◌, ◌-◌, ◌*◌, ◌/◌, ◌%◌, ◌<◌, arith, ◌≡◌, refl, sym, ap, ◌∙◌}
use gm_ssl.Base.{List, [], ◌++◌, length, take, drop, replicate, true, lt→leb, length-take}
use gm_ssl.Stream.{Buffer, iterate}
use gm_ssl.Sm4.{set_encrypt_key}
use gm_ssl.Sm4.Blocks.{Ctx, Reply, failed, needs, done, setup, updates, cbc_encrypt_step}
use gm_ssl.Sm4.Blocks.Streamed.{Streamed, setup-Streamed}
use gm_ssl.Base.{joined}
use gm_ssl.Sm4.Cbc.{cbc_encrypt_blocks, padded_block, padding_encrypt, encrypt_init}
use gm_ssl.Sm4.Cbc.{encrypt_finish}

-- All updates and then the finish, with all that they wrote.
unfoldable pub encrypt_all : List ℕ → List ℕ → List (List ℕ) → Reply (Ctx (List ℕ))
encrypt_all key iv xs = elim (updates cbc_encrypt_step (encrypt_init key iv) xs []) [
  | failed ↦ failed
  | needs n ↦ needs n
  | done ctx written ↦ elim (encrypt_finish true ctx) [
    | failed ↦ failed
    | needs n ↦ needs n
    | done ctx' o ↦ done ctx' (written ++ o)
  ]
]

-- The last block is the bytes behind `k` whole blocks, with the padding.
padded_block_lem :
    (m : List ℕ) (k n : ℕ)
    → length m ≡ k * 16 + n
    → n < 16
    → padded_block m ≡ drop (k * 16) m ++ replicate (16 - n) (16 - n)
unfolding padded_block
padded_block_lem m k n e h =
    let rem : length m % 16 ≡ n = omega arith in
    let start : length m - n ≡ k * 16 = omega arith in rw (rem, start) refl

-- A message that is whole blocks and then fewer than 16 bytes.
padding_encrypt_lem :
    (key iv c m written : List ℕ) (k n : ℕ)
    → length m ≡ k * 16 + n
    → n < 16
    → cbc_encrypt_blocks key iv k m ≡ (c, written)
    → padding_encrypt key iv m
      ≡ written ++ (cbc_encrypt_blocks key c 1 (drop (k * 16) m ++ replicate (16 - n) (16 - n))).1
unfolding padding_encrypt
padding_encrypt_lem key iv c m written k n e h run =
    let count : length m / 16 ≡ k = omega arith in rw (count, run, padded_block_lem m k n e h) refl

-- After `sm4_cbc_encrypt_init`, however a message is cut into calls of `sm4_cbc_encrypt_update`, no
-- call fails, and the calls together with `sm4_cbc_encrypt_finish` write what
-- `sm4_cbc_padding_encrypt` writes for the whole message.
pub encrypt_all-padding_encrypt :
    (key iv : List ℕ) (xs : List (List ℕ))
    → (ctx : Ctx (List ℕ)) × (encrypt_all key iv xs
        ≡ done ctx (padding_encrypt (set_encrypt_key key) iv (joined xs)))
unfolding encrypt_all encrypt_init
encrypt_all-padding_encrypt key iv xs =
    (context, rw (streamed.returns, finish_lem, encrypt_all) (ap (done context) (sym whole)))
  where
    rk : List ℕ
    rk = set_encrypt_key key

    m : List ℕ
    m = joined xs

    streamed : Streamed cbc_encrypt_step rk iv m (updates cbc_encrypt_step (setup rk iv) xs [])
    streamed = setup-Streamed cbc_encrypt_step rk iv xs

    b : Buffer (List ℕ)
    b = streamed.buffer

    context : Ctx (List ℕ)
    context = record { sm4_key = rk; buffer = b }

    k : ℕ
    k = streamed.held.nblocks

    last : List ℕ
    last = drop (k * 16) m ++ replicate (16 - b.nbytes) (16 - b.nbytes)

    short : length (take b.nbytes b.block) ≡ 0 * 16 + b.nbytes
    short =
        omega (arith, length-take b.nbytes b.block, streamed.held.block_size, streamed.held.partial)

    finished :
        padding_encrypt rk b.chain (take b.nbytes b.block)
        ≡ (cbc_encrypt_blocks rk b.chain 1 last).1
    finished =
        padding_encrypt_lem rk b.chain b.chain (take b.nbytes b.block) [] 0 b.nbytes short
          streamed.held.partial (unfold cbc_encrypt_blocks iterate in refl)
        ∙ ap
            (λ t.
              (cbc_encrypt_blocks rk b.chain 1 (t ++ replicate (16 - b.nbytes) (16 - b.nbytes))).1)
            streamed.held.pending

    finish_lem : encrypt_finish true context ≡ done context (cbc_encrypt_blocks rk b.chain 1 last).1
    finish_lem =
        unfold encrypt_finish in
        rw (lt→leb 16 b.nbytes streamed.held.partial) (ap (done context) finished)

    whole : padding_encrypt rk iv m ≡ streamed.written ++ (cbc_encrypt_blocks rk b.chain 1 last).1
    whole =
        padding_encrypt_lem rk iv b.chain m streamed.written k b.nbytes streamed.held.counted
          streamed.held.partial (unfold cbc_encrypt_blocks in streamed.held.ran)
