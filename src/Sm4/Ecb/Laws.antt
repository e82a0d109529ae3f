-- ===== src/Sm4/Ecb/Laws.antt =====
-- ECB gives every message of whole blocks back, and refuses all others.
use gm_ssl.Base.{ℕ, zero, suc, ◌*◌, ◌/◌, ◌%◌, ◌≢◌, arith, ◌≡◌, refl, sym, ap, ◌∙◌, append-nil}
use gm_ssl.Base.{List, [], ◌∷◌, ◌++◌, length, take, drop, All, IsByte, true, lt→leb, eq→==, ne→==}
use gm_ssl.Base.{length-append, length-take, length-drop, All-take, All-drop}
use gm_ssl.Base.{take-append_eq, drop-append_eq, take-append-drop}
use gm_ssl.Stream.{iterate}
use gm_ssl.Sm4.{encrypt, set_encrypt_key, set_decrypt_key}
use gm_ssl.Sm4.Inverse.{IsBlock, encrypt-IsBlock, decrypt-encrypt}
use gm_ssl.Sm4.Blocks.{Ctx, Reply, failed, needs, done, setup, updates, ecb_step}
use gm_ssl.Sm4.Blocks.Streamed.{Streamed, setup-Streamed}
use gm_ssl.Base.{joined}
use gm_ssl.Sm4.Ecb.{encrypt_blocks, ecb_encrypt_finish}

length-encrypt_blocks :
    (key : List ℕ) (n : ℕ) (x : List ℕ) → length (encrypt_blocks key n x) ≡ n * 16
unfolding encrypt_blocks iterate ecb_step
length-encrypt_blocks key zero x = refl
length-encrypt_blocks key (suc n) x = omega (
  arith,
  length-append (encrypt key (take 16 x)) (encrypt_blocks key n (drop 16 x)),
  (encrypt-IsBlock key (take 16 x)).size,
  length-encrypt_blocks key n (drop 16 x),
)

encrypt_blocks-encrypt_blocks :
    (user_key : List ℕ) (n : ℕ) (x : List ℕ)
    → All IsByte x
    → length x ≡ n * 16
    → encrypt_blocks (set_decrypt_key user_key) n (encrypt_blocks (set_encrypt_key user_key) n x)
      ≡ x
unfolding encrypt_blocks iterate ecb_step
encrypt_blocks-encrypt_blocks user_key zero [] h e = refl
encrypt_blocks-encrypt_blocks user_key zero (b ∷ x) h e = absurd (omega arith)
encrypt_blocks-encrypt_blocks user_key (suc n) x h e =
    let ek = set_encrypt_key user_key in
    let o = encrypt ek (take 16 x) in
    let ob : length o ≡ 16 = (encrypt-IsBlock ek (take 16 x)).size in
    let rest = encrypt_blocks ek n (drop 16 x) in
    let first : IsBlock (take 16 x) = record {
      size = omega (arith, length-take 16 x);
      bytes = All-take IsByte 16 x h;
    } in
    rw
      (
        take-append_eq 16 o rest ob,
        drop-append_eq 16 o rest ob,
        decrypt-encrypt user_key (take 16 x) first,
        encrypt_blocks-encrypt_blocks user_key n (drop 16 x) (All-drop IsByte 16 x h)
            (omega (arith, length-drop 16 x)),
      )
      (take-append-drop 16 x)

-- All updates and then the finish, with all that they wrote, from given round keys.
pub encrypt_cut : List ℕ → List (List ℕ) → Reply (Ctx (Unit {0}))
encrypt_cut key xs = elim (updates ecb_step (setup key tt) xs []) [
  | failed ↦ failed
  | needs n ↦ needs n
  | done ctx written ↦ elim (ecb_encrypt_finish true ctx) [
    | failed ↦ failed
    | needs n ↦ needs n
    | done ctx' o ↦ done ctx' (written ++ o)
  ]
]

-- What the updates leave, for any message.
module _ (key : List ℕ) (xs : List (List ℕ)) where
  streamed : Streamed ecb_step key tt (joined xs) (updates ecb_step (setup key tt) xs [])
  streamed = setup-Streamed ecb_step key tt xs

  abbrev context : Ctx (Unit {0})
  context = record { sm4_key = key; buffer = streamed.buffer }

  rest_size : streamed.buffer.nbytes ≡ length (joined xs) % 16
  rest_size = omega (arith, streamed.held.counted, streamed.held.partial)

  encrypt_cut-encrypt_blocks :
      length (joined xs) % 16 ≡ 0
      → encrypt_cut key xs ≡ done context (encrypt_blocks key (length (joined xs) / 16) (joined xs))
  unfolding encrypt_cut
  encrypt_cut-encrypt_blocks e =
      rw (streamed.returns, finish_lem, encrypt_cut, append-nil streamed.written)
        (ap (done context) whole)
    where
      finish_lem : ecb_encrypt_finish true context ≡ done context []
      finish_lem =
          unfold ecb_encrypt_finish in
          rw
            (
              lt→leb 16 streamed.buffer.nbytes streamed.held.partial,
              eq→== streamed.buffer.nbytes 0 (omega (arith, rest_size)),
            )
            refl

      count : streamed.held.nblocks ≡ length (joined xs) / 16
      count = omega (arith, streamed.held.counted, streamed.held.partial)

      whole : streamed.written ≡ encrypt_blocks key (length (joined xs) / 16) (joined xs)
      whole = unfold encrypt_blocks in rw (← count) (sym (ap (λ r. r.1) streamed.held.ran))

  -- However a message is cut into calls of `sm4_ecb_encrypt_update` or `sm4_ecb_decrypt_update`: if
  -- its length is no multiple of 16, the finish refuses it.
  pub encrypt_cut-failed : length (joined xs) % 16 ≢ 0 → encrypt_cut key xs ≡ failed
  unfolding encrypt_cut
  encrypt_cut-failed e = rw (streamed.returns, finish_lem, encrypt_cut) refl
    where
      finish_lem : ecb_encrypt_finish true context ≡ failed
      finish_lem =
          unfold ecb_encrypt_finish in
          rw
            (
              lt→leb 16 streamed.buffer.nbytes streamed.held.partial,
              ne→== streamed.buffer.nbytes 0 (omega (arith, rest_size)),
            )
            refl

-- For every user key and every message of whole blocks of bytes: however it is cut into calls of
-- `sm4_ecb_encrypt_update`, neither these nor the finish fail, and they write its encrypted blocks;
-- and however those are cut into calls of `sm4_ecb_decrypt_update`, neither these nor the finish
-- fail, and they write the message.
pub encrypt_cut-encrypt_cut :
    (user_key : List ℕ) (xs ys : List (List ℕ))
    → All IsByte (joined xs)
    → length (joined xs) % 16 ≡ 0
    → joined ys ≡ encrypt_blocks (set_encrypt_key user_key) (length (joined xs) / 16) (joined xs)
    → ((ctx : Ctx (Unit {0})) × (encrypt_cut (set_encrypt_key user_key) xs ≡ done ctx (joined ys)))
      × ((ctx : Ctx (Unit {0})) × (encrypt_cut (set_decrypt_key user_key) ys
            ≡ done ctx (joined xs)))
encrypt_cut-encrypt_cut user_key xs ys h e same = (
  (context ek xs, encrypt_cut-encrypt_blocks ek xs e ∙ ap (done (context ek xs)) (sym same)),
  (context dk ys, back),
)
  where
    ek : List ℕ
    ek = set_encrypt_key user_key

    dk : List ℕ
    dk = set_decrypt_key user_key

    n : ℕ
    n = length (joined xs) / 16

    size : length (joined ys) ≡ n * 16
    size = ap length same ∙ length-encrypt_blocks ek n (joined xs)

    count : length (joined ys) / 16 ≡ n
    count = omega (arith, size)

    back : encrypt_cut dk ys ≡ done (context dk ys) (joined xs)
    back =
        encrypt_cut-encrypt_blocks dk ys (omega (arith, size))
        ∙ ap (done (context dk ys)) (
            ap (λ k. encrypt_blocks dk k (joined ys)) count
            ∙ ap (encrypt_blocks dk n) same
            ∙ encrypt_blocks-encrypt_blocks user_key n (joined xs) h (omega arith))
