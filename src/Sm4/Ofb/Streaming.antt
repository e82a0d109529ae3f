-- ===== src/Sm4/Ofb/Streaming.antt =====
-- The context writes what the one-shot function writes.
use gm_ssl.Base.{ℕ, zero, suc, ◌+◌, ◌*◌, ◌≤◌, arith, ◌≡◌, refl, sym, ap, ◌∙◌}
use gm_ssl.Base.{
  List, [], ◌++◌, append_assoc, length, take, drop, length-drop, drop-drop, true, lt→leb,
}
use gm_ssl.Mem.{memxor}
use gm_ssl.Stream.{Buffer, iterate}
use gm_ssl.Sm4.{encrypt, set_encrypt_key}
use gm_ssl.Sm4.Blocks.{Ctx, Reply, failed, needs, done, setup, updates, ofb_step}
use gm_ssl.Sm4.Blocks.Streamed.{Streamed, setup-Streamed}
use gm_ssl.Base.{joined}
use gm_ssl.Sm4.Ofb.{ofb_encrypt, ofb_encrypt_init, ofb_encrypt_finish}
use gm_ssl.Sm4.Ofb.Laws.{first_round}

-- Whole blocks, and then the rest from where they end.
ofb_encrypt-iterate :
    (k : ℕ) (key iv m : List ℕ)
    → k * 16 ≤ length m
    → (ofb_encrypt key iv m).1
      ≡ (iterate 16 (ofb_step key) iv k m).1
        ++ (ofb_encrypt key (iterate 16 (ofb_step key) iv k m).0 (drop (k * 16) m)).1
unfolding iterate ofb_step
ofb_encrypt-iterate zero key iv m h = refl
ofb_encrypt-iterate (suc k) key iv m h =
    let iv' = encrypt key iv in
    let r = iterate 16 (ofb_step key) iv' k (drop 16 m) in
    let later = ofb_encrypt-iterate k key iv' (drop 16 m) (omega (arith, length-drop 16 m)) in
    let e : 16 + k * 16 ≡ suc k * 16 = omega arith in
    first_round key iv m (omega arith)
    ∙ ap (λ t. memxor (take 16 m) iv' ++ t) later
    ∙ ap (λ t. memxor (take 16 m) iv' ++ (r.1 ++ (ofb_encrypt key r.0 t).1))
        (drop-drop 16 (k * 16) m ∙ ap (λ n. drop n m) e)
    ∙ sym (append_assoc (memxor (take 16 m) iv') r.1 (ofb_encrypt key r.0 (drop (suc k * 16) m)).1)

-- All updates and then the finish, with all that they wrote.
unfoldable pub encrypt_parts : List ℕ → List ℕ → List (List ℕ) → Reply (Ctx (List ℕ))
encrypt_parts key iv xs = elim (updates ofb_step (ofb_encrypt_init key iv) xs []) [
  | failed ↦ failed
  | needs n ↦ needs n
  | done ctx written ↦ elim (ofb_encrypt_finish true ctx) [
    | failed ↦ failed
    | needs n ↦ needs n
    | done ctx' o ↦ done ctx' (written ++ o)
  ]
]

-- However a message is cut into calls of `sm4_ofb_encrypt_update`, no call fails, and the calls
-- together with the finish write what `sm4_ofb_encrypt` writes for the whole message.
pub encrypt_parts-ofb_encrypt :
    (key iv : List ℕ) (xs : List (List ℕ))
    → (ctx : Ctx (List ℕ)) × (encrypt_parts key iv xs
        ≡ done ctx (ofb_encrypt (set_encrypt_key key) iv (joined xs)).1)
unfolding encrypt_parts ofb_encrypt_init
encrypt_parts-ofb_encrypt key iv xs =
    (last, rw (streamed.returns, finish_lem, encrypt_parts) (ap (done last) whole))
  where
    rk : List ℕ
    rk = set_encrypt_key key

    m : List ℕ
    m = joined xs

    streamed : Streamed ofb_step rk iv m (updates ofb_step (setup rk iv) xs [])
    streamed = setup-Streamed ofb_step rk iv xs

    b : Buffer (List ℕ)
    b = streamed.buffer

    k : ℕ
    k = streamed.held.nblocks

    tail : List ℕ × List ℕ
    tail = ofb_encrypt rk b.chain (take b.nbytes b.block)

    last : Ctx (List ℕ)
    last = record { sm4_key = rk; buffer = record b { chain = tail.0 } }

    finish_lem : ofb_encrypt_finish true (record { sm4_key = rk; buffer = b }) ≡ done last tail.1
    finish_lem = unfold ofb_encrypt_finish in rw (lt→leb 16 b.nbytes streamed.held.partial) refl

    whole : streamed.written ++ tail.1 ≡ (ofb_encrypt rk iv m).1
    whole =
        ap (λ t. streamed.written ++ (ofb_encrypt rk b.chain t).1) streamed.held.pending
        ∙ sym (ap (λ r. r.1 ++ (ofb_encrypt rk r.0 (drop (k * 16) m)).1) streamed.held.ran)
        ∙ sym (ofb_encrypt-iterate k rk iv m (omega (arith, streamed.held.counted)))
