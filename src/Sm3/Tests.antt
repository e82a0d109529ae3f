-- ===== src/Sm3/Tests.antt =====
-- Known answers, and the theorems at concrete inputs.
use gm_ssl.Base.{ℕ, List, [], ◌∷◌, ◌≡◌, refl, arith, take}
use gm_ssl.Endian.{getu32, putu32, rol32}
use gm_ssl.Mem.{write}
use gm_ssl.Stream.{absorb}
use gm_ssl.Sm3.{init, update, finish, updates, digest_bytes, close}
use gm_ssl.Sm3.Compress.{compress}
use gm_ssl.Sm3.Spec.{hash}
use gm_ssl.Sm3.Finish.{finish-updates}
use gm_ssl.Sm3.Hmac.{hmac_init, hmac_finish, hmac_updates}
use gm_ssl.Sm3.Hmac.Laws.{hmac, hmac_finish-hmac}
use gm_ssl.Sm3.Counter.{blocks}
use gm_ssl.Sm3.Kdf.{kdf_init, kdf_updates, kdf_finish, pbkdf2}
use gm_ssl.Sm3.Kdf.Laws.{kdf_block, kdf_finish-blocks, pbkdf2_t, pbkdf2-blocks}

abbrev abc : List ℕ
abc = 0x61 ∷ 0x62 ∷ 0x63 ∷ []

-- "ab" and "c".
abbrev parts : List (List ℕ)
parts = (0x61 ∷ 0x62 ∷ []) ∷ (0x63 ∷ []) ∷ []

-- The digest of "abc" that the standard prints.
abc_digest :
    finish (update init abc)
    ≡ 0x66 ∷ 0xc7 ∷ 0xf0 ∷ 0xf4 ∷ 0x62 ∷ 0xee ∷ 0xed ∷ 0xd9 ∷ 0xd1 ∷ 0xf2 ∷ 0xd4 ∷ 0x6b ∷ 0xdc
      ∷ 0x10 ∷ 0xe4 ∷ 0xe2 ∷ 0x41 ∷ 0x67 ∷ 0xc4 ∷ 0x87 ∷ 0x5c ∷ 0xf2 ∷ 0xf7 ∷ 0xa2 ∷ 0x29 ∷ 0x7d
      ∷ 0xa0 ∷ 0x2b ∷ 0x8f ∷ 0x4b ∷ 0xa8 ∷ 0xe0 ∷ []
unfolding init update finish getu32 putu32 rol32 write absorb compress digest_bytes close
abc_digest = refl

finish-updates_example : finish (updates init parts) ≡ hash abc
finish-updates_example = finish-updates parts (omega arith)

hmac_finish-hmac_example : hmac_finish (hmac_updates (hmac_init abc) parts) ≡ hmac abc abc
hmac_finish-hmac_example = hmac_finish-hmac abc parts (omega arith) (omega arith)

kdf_finish-blocks_example :
    kdf_finish (kdf_updates (kdf_init 40) parts) ≡ take 40 (blocks (kdf_block abc) 1 2)
kdf_finish-blocks_example = kdf_finish-blocks parts 40 2 (omega arith) (omega arith) (omega arith)

pbkdf2-blocks_example : pbkdf2 abc abc 3 40 ≡ take 40 (blocks (pbkdf2_t abc abc 3) 1 2)
pbkdf2-blocks_example =
    pbkdf2-blocks abc abc 3 40 2 (omega arith) (omega arith) (omega arith) (omega arith)
