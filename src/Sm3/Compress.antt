-- ===== src/Sm3/Compress.antt =====
-- The compression function of src/sm3.c, as its ENABLE_SMALL_FOOTPRINT branch writes it.
use gm_ssl.Base.{ℕ, zero, suc, ◌+◌, ◌-◌, bit_and, bit_or, bit_xor, u32}
use gm_ssl.Base.{List, [], ◌∷◌, ◌++◌, get_or, drop, ltb, if◌then◌else◌}
use gm_ssl.Endian.{getu32, rol32}

-- P0 and P1.
unfoldable pub p0 : ℕ → ℕ
p0 x = bit_xor (bit_xor x (rol32 x 9)) (rol32 x 17)

unfoldable pub p1 : ℕ → ℕ
p1 x = bit_xor (bit_xor x (rol32 x 15)) (rol32 x 23)

-- FF00 (and GG00), FF16 and GG16.
unfoldable pub ff00 : ℕ → ℕ → ℕ → ℕ
ff00 x y z = bit_xor (bit_xor x y) z

unfoldable pub ff16 : ℕ → ℕ → ℕ → ℕ
ff16 x y z = bit_or (bit_or (bit_and x y) (bit_and x z)) (bit_and y z)

unfoldable pub gg16 : ℕ → ℕ → ℕ → ℕ
gg16 x y z = bit_xor (bit_and (bit_xor y z) x) z

unfoldable pub k : List ℕ
k =
    0x79cc4519 ∷ 0xf3988a32 ∷ 0xe7311465 ∷ 0xce6228cb ∷ 0x9cc45197 ∷ 0x3988a32f ∷ 0x7311465e
    ∷ 0xe6228cbc ∷ 0xcc451979 ∷ 0x988a32f3 ∷ 0x311465e7 ∷ 0x6228cbce ∷ 0xc451979c ∷ 0x88a32f39
    ∷ 0x11465e73 ∷ 0x228cbce6 ∷ 0x9d8a7a87 ∷ 0x3b14f50f ∷ 0x7629ea1e ∷ 0xec53d43c ∷ 0xd8a7a879
    ∷ 0xb14f50f3 ∷ 0x629ea1e7 ∷ 0xc53d43ce ∷ 0x8a7a879d ∷ 0x14f50f3b ∷ 0x29ea1e76 ∷ 0x53d43cec
    ∷ 0xa7a879d8 ∷ 0x4f50f3b1 ∷ 0x9ea1e762 ∷ 0x3d43cec5 ∷ 0x7a879d8a ∷ 0xf50f3b14 ∷ 0xea1e7629
    ∷ 0xd43cec53 ∷ 0xa879d8a7 ∷ 0x50f3b14f ∷ 0xa1e7629e ∷ 0x43cec53d ∷ 0x879d8a7a ∷ 0x0f3b14f5
    ∷ 0x1e7629ea ∷ 0x3cec53d4 ∷ 0x79d8a7a8 ∷ 0xf3b14f50 ∷ 0xe7629ea1 ∷ 0xcec53d43 ∷ 0x9d8a7a87
    ∷ 0x3b14f50f ∷ 0x7629ea1e ∷ 0xec53d43c ∷ 0xd8a7a879 ∷ 0xb14f50f3 ∷ 0x629ea1e7 ∷ 0xc53d43ce
    ∷ 0x8a7a879d ∷ 0x14f50f3b ∷ 0x29ea1e76 ∷ 0x53d43cec ∷ 0xa7a879d8 ∷ 0x4f50f3b1 ∷ 0x9ea1e762
    ∷ 0x3d43cec5 ∷ []

-- The working variables A to H, and the eight words of a digest.
pub record Vars : Type 0 where
  pub a : ℕ
  pub b : ℕ
  pub c : ℕ
  pub d : ℕ
  pub e : ℕ
  pub f : ℕ
  pub g : ℕ
  pub h : ℕ

-- The first loop: W[0] to W[15] from the block.
unfoldable pub load_words : ℕ → List ℕ → List ℕ
load_words zero block = []
load_words (suc n) block = getu32 block ∷ load_words n (drop 4 block)

-- One round of the second loop, and the loop from `j` with `n` rounds left.
unfoldable pub next_word : List ℕ → ℕ → ℕ
unfolding p1
next_word w j =
    bit_xor
      (bit_xor
        (p1 (
          bit_xor (bit_xor (get_or w (j - 16) 0) (get_or w (j - 9) 0))
            (rol32 (get_or w (j - 3) 0) 15)))
        (rol32 (get_or w (j - 13) 0) 7))
      (get_or w (j - 6) 0)

unfoldable pub expand_words : ℕ → ℕ → List ℕ → List ℕ
unfolding next_word
expand_words zero j w = w
expand_words (suc n) j w = expand_words n (j + 1) (w ++ (next_word w j ∷ []))

-- One round of the third loop (`j < 16`) and of the fourth, which differ in FF and GG.
unfoldable pub round : List ℕ → ℕ → Vars → Vars
unfolding ff00 ff16 gg16 p0 k
round w j v =
    let rotated = rol32 v.a 12 in
    let ss1 = rol32 (u32 (rotated + v.e + get_or k j 0)) 7 in
    let ss2 = bit_xor ss1 rotated in
    let ff = if ltb j 16 then ff00 v.a v.b v.c else ff16 v.a v.b v.c in
    let gg = if ltb j 16 then ff00 v.e v.f v.g else gg16 v.e v.f v.g in
    let tt1 = u32 (ff + v.d + ss2 + bit_xor (get_or w j 0) (get_or w (j + 4) 0)) in
    let tt2 = u32 (gg + v.h + ss1 + get_or w j 0) in
    record {
      a = tt1;
      b = v.a;
      c = rol32 v.b 9;
      d = v.c;
      e = p0 tt2;
      f = v.e;
      g = rol32 v.f 19;
      h = v.g;
    }

unfoldable pub rounds : ℕ → ℕ → List ℕ → Vars → Vars
unfolding round
rounds zero j w v = v
rounds (suc n) j w v = rounds n (j + 1) w (round w j v)

-- `digest[i] ^= …`
unfoldable pub xor_vars : Vars → Vars → Vars
xor_vars d v = record {
  a = bit_xor d.a v.a;
  b = bit_xor d.b v.b;
  c = bit_xor d.c v.c;
  d = bit_xor d.d v.d;
  e = bit_xor d.e v.e;
  f = bit_xor d.f v.f;
  g = bit_xor d.g v.g;
  h = bit_xor d.h v.h;
}

-- The body of `while (blocks--)` on one block of 64 bytes.
unfoldable pub compress : Vars → List ℕ → Vars
unfolding load_words expand_words rounds xor_vars
compress digest block =
    let w = expand_words 52 16 (load_words 16 block) in xor_vars digest (rounds 64 0 w digest)
