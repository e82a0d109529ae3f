-- ===== src/Sm4/Inverse.antt =====
-- The block function under the reversed round keys undoes itself, and the two key schedules
-- write the same round keys in opposite orders.
use gm_ssl.Base.{ℕ, ◌+◌, ◌≤◌, bit_and, bit_xor, arith, ◌≡◌}
use gm_ssl.Base.{refl, sym, ap, ◌∙◌, List, [], ◌∷◌, ◌++◌, reverse, append_assoc, append-nil}
use gm_ssl.Base.{get_or, length, All, drop, IsByte, IsU32, ◌>>>◌}
use gm_ssl.Base.Bits.{bit_xor-lt, bit_or-lt, bit_xor_comm, bit_xor_assoc, bit_xor_cancel}
use gm_ssl.Endian.{getu32, putu32}
use gm_ssl.Endian.Laws.{getu32-putu32, putu32-getu32_prefix, getu32_bytes, rol32-IsU32}
use gm_ssl.Endian.Laws.{get_or-IsByte}
use gm_ssl.Sm4.{State, l32, s32, shift_in, key_state, next_round_key, expand_up, expand_down}
use gm_ssl.Sm4.{set_encrypt_key, set_decrypt_key, round, rounds, load, store, encrypt}
use gm_ssl.Sm4.Tables.{s_box, ck}
use mathlib.Core.List.{reverse-append}
use gm_ssl.Base.{take-append-drop, drop-drop, drop_all, length-drop, All-drop}

-- A block: 16 bytes.
pub record IsBlock (b : List ℕ) : Type 0 where
  pub size : length b ≡ 16
  pub bytes : All IsByte b

pub record IsState (s : State) : Type 0 where
  pub w0 : IsU32 s.x0
  pub w1 : IsU32 s.x1
  pub w2 : IsU32 s.x2
  pub w3 : IsU32 s.x3

-- The order in which `sm4_encrypt` writes its words.
abbrev pub swap : State → State
swap s = record { x0 = s.x3; x1 = s.x2; x2 = s.x1; x3 = s.x0 }

s_box-IsByte : All IsByte s_box
unfolding s_box
s_box-IsByte = omega arith

box-IsByte : (i : ℕ) → IsByte (get_or s_box i 0)
box-IsByte i = get_or-IsByte s_box i s_box-IsByte

s32-IsU32 : (a : ℕ) → IsU32 (s32 a)
unfolding s32
s32-IsU32 a =
    bit_or-lt 32 _ _
      (bit_or-lt 32 _ _
        (bit_or-lt 32 _ _ (omega arith) (omega (arith, box-IsByte (bit_and (a >>> 16) 0xff))))
        (omega (arith, box-IsByte (bit_and (a >>> 8) 0xff))))
      (omega (arith, box-IsByte (bit_and a 0xff)))

l32-IsU32 : (x : ℕ) → IsU32 x → IsU32 (l32 x)
unfolding l32
l32-IsU32 x h =
    bit_xor-lt 32 _ _
      (bit_xor-lt 32 _ _
        (bit_xor-lt 32 _ _ (bit_xor-lt 32 _ _ h (rol32-IsU32 x 2)) (rol32-IsU32 x 10))
        (rol32-IsU32 x 18))
      (rol32-IsU32 x 24)

round-IsState : (s : State) (rk : ℕ) → IsState s → IsState (round s rk)
unfolding round shift_in
round-IsState s rk h = record {
  w0 = h.w1;
  w1 = h.w2;
  w2 = h.w3;
  w3 = bit_xor-lt 32 s.x0 _ h.w0 (l32-IsU32 _ (s32-IsU32 _));
}

rounds-IsState : (s : State) (rks : List ℕ) → IsState s → IsState (rounds s rks)
unfolding rounds
rounds-IsState s [] h = h
rounds-IsState s (rk ∷ rks) h = rounds-IsState (round s rk) rks (round-IsState s rk h)

-- A round undoes itself on the swapped words.
round-swap : (s : State) (rk : ℕ) → round (swap (round s rk)) rk ≡ swap s
unfolding round shift_in
round-swap s rk = λ i. record { x0 = s.x3; x1 = s.x2; x2 = s.x1; x3 = undo i }
  where
    mix : ℕ → ℕ
    mix t = l32 (s32 (bit_xor t rk))

    turned : bit_xor (bit_xor s.x3 s.x2) s.x1 ≡ bit_xor (bit_xor s.x1 s.x2) s.x3
    turned =
        bit_xor_assoc s.x3 s.x2 s.x1
        ∙ bit_xor_comm s.x3 (bit_xor s.x2 s.x1)
        ∙ ap (λ t. bit_xor t s.x3) (bit_xor_comm s.x2 s.x1)

    undo :
        bit_xor
          (bit_xor s.x0 (mix (bit_xor (bit_xor s.x1 s.x2) s.x3)))
          (mix (bit_xor (bit_xor s.x3 s.x2) s.x1))
        ≡ s.x0
    undo = rw turned (bit_xor_cancel s.x0 (mix (bit_xor (bit_xor s.x1 s.x2) s.x3)))

rounds-append : (s : State) (xs ys : List ℕ) → rounds s (xs ++ ys) ≡ rounds (rounds s xs) ys
unfolding rounds
rounds-append s [] ys = refl
rounds-append s (x ∷ xs) ys = rounds-append (round s x) xs ys

rounds-swap : (s : State) (rks : List ℕ) → rounds (swap (rounds s rks)) (reverse rks) ≡ swap s
unfolding rounds
rounds-swap s [] = refl
rounds-swap s (rk ∷ rks) =
    rw
      (
        reverse-append (rk ∷ []) rks,
        rounds-append (swap (rounds (round s rk) rks)) (reverse rks) (rk ∷ []),
        rounds-swap (round s rk) rks,
      )
      (round-swap s rk)

expand_down-up : (s : State) (cs rk : List ℕ) → expand_down s cs rk ≡ reverse (expand_up s cs) ++ rk
unfolding expand_down expand_up
expand_down-up s [] rk = refl
expand_down-up s (c ∷ cs) rk =
    let x4 = next_round_key s c in
    expand_down-up (shift_in s x4) cs (x4 ∷ rk)
    ∙ rw (reverse-append (x4 ∷ []) (expand_up (shift_in s x4) cs), append_assoc) refl

-- The decryption round keys are the encryption round keys in reverse order.
pub set_decrypt_key-reverse :
    (user_key : List ℕ) → set_decrypt_key user_key ≡ reverse (set_encrypt_key user_key)
unfolding set_decrypt_key set_encrypt_key
set_decrypt_key-reverse user_key =
    expand_down-up (key_state user_key) ck []
    ∙ append-nil (reverse (expand_up (key_state user_key) ck))

load-store : (s : State) → IsState s → load (store s) ≡ swap s
unfolding load store putu32
load-store s h = λ i. record {
  x0 = getu32-putu32 s.x3 (putu32 s.x2 ++ (putu32 s.x1 ++ putu32 s.x0)) h.w3 i;
  x1 = getu32-putu32 s.x2 (putu32 s.x1 ++ putu32 s.x0) h.w2 i;
  x2 = getu32-putu32 s.x1 (putu32 s.x0) h.w1 i;
  x3 = getu32-putu32 s.x0 [] h.w0 i;
}

load-IsState : (b : List ℕ) → All IsByte b → IsState (load b)
unfolding load
load-IsState b h = record {
  w0 = getu32_bytes b h;
  w1 = getu32_bytes (drop 4 b) (All-drop IsByte 4 b h);
  w2 = getu32_bytes (drop 8 b) (All-drop IsByte 8 b h);
  w3 = getu32_bytes (drop 12 b) (All-drop IsByte 12 b h);
}

word_at :
    (k : ℕ) (b : List ℕ)
    → IsBlock b
    → k + 4 ≤ 16
    → putu32 (getu32 (drop k b)) ++ drop (k + 4) b ≡ drop k b
word_at k b h n =
    rw
      (
        putu32-getu32_prefix (drop k b) (All-drop IsByte k b h.bytes)
            (omega (arith, length-drop k b, h.size)),
        ← drop-drop k 4 b,
      )
      (take-append-drop 4 (drop k b))

store-swap-load : (b : List ℕ) → IsBlock b → store (swap (load b)) ≡ b
unfolding load store
store-swap-load b h =
    ap (λ t. word 0 ++ (word 4 ++ (word 8 ++ t))) last_word
    ∙ ap (λ t. word 0 ++ (word 4 ++ t)) (word_at 8 b h (omega arith))
    ∙ ap (λ t. word 0 ++ t) (word_at 4 b h (omega arith))
    ∙ word_at 0 b h (omega arith)
  where
    word : ℕ → List ℕ
    word k = putu32 (getu32 (drop k b))

    last_word : word 12 ≡ drop 12 b
    last_word =
        sym (append-nil (word 12))
        ∙ ap (λ t. word 12 ++ t) (sym (drop_all 16 b (omega (arith, h.size))))
        ∙ word_at 12 b h (omega arith)

store-IsBlock : (s : State) → IsBlock (store s)
unfolding store putu32
store-IsBlock s = record { size = refl; bytes = omega arith }

-- What the block function returns is always a block.
pub encrypt-IsBlock : (key b : List ℕ) → IsBlock (encrypt key b)
unfolding encrypt
encrypt-IsBlock key b = store-IsBlock (rounds (load b) key)

-- Under any round keys, and then under the same ones in reverse order, a block comes back.
pub encrypt-reverse : (key b : List ℕ) → IsBlock b → encrypt (reverse key) (encrypt key b) ≡ b
unfolding encrypt
encrypt-reverse key b h =
    rw
      (
        load-store (rounds (load b) key) (rounds-IsState (load b) key (load-IsState b h.bytes)),
        rounds-swap (load b) key,
      )
      (store-swap-load b h)

-- For every user key and every block of 16 bytes, decrypting what was encrypted gives the block
-- back: `sm4_encrypt` under `sm4_set_decrypt_key` undoes `sm4_encrypt` under
-- `sm4_set_encrypt_key`.
pub decrypt-encrypt :
    (user_key b : List ℕ)
    → IsBlock b
    → encrypt (set_decrypt_key user_key) (encrypt (set_encrypt_key user_key) b) ≡ b
decrypt-encrypt user_key b h =
    rw (set_decrypt_key-reverse user_key) (encrypt-reverse (set_encrypt_key user_key) b h)
