-- ===== src/Asn1/Types/Laws.antt =====
-- A value of any type has one encoding, which the decoder reads back.
use gm_ssl.Base.{ℕ, ◌^◌, ◌≤◌, ◌<◌, arith, ◌≡◌, refl, sym, ap, ap₂, ◌∙◌, List, [], ◌∷◌, ◌++◌}
use gm_ssl.Base.{
  append_assoc, length, take, drop, All, IsByte, length-append, length-take, take-append_eq,
  drop-append_eq,
}
use gm_ssl.Base.{take-append-drop, u8, le→ltb, ◌==◌, eq→==, Bool-cases, inl, inr, ==→eq}
use gm_ssl.Asn1.Sink.{Sink, emit, count, written, got, wrote}
use gm_ssl.Asn1.Sink.{wrote-wrote, count-emit}
use gm_ssl.Asn1.Length.{
  int_max, LengthRead, bad, short, size, enough, length_to_der, length_from_der,
}
use gm_ssl.Asn1.Length.Laws.{length_bytes, length_to_der_lem}
use gm_ssl.Asn1.Length.Canonical.{Starts, length_from_der-length_bytes}
use gm_ssl.Asn1.Length.Unique.{length_from_der-Starts}
use gm_ssl.Asn1.Types.{bytes, ignoring, type_to_der, taken, contents, type_from_der}

-- Tag, length and value, as X.690 has them.
abbrev pub tlv : ℕ → List ℕ → List ℕ
tlv tag d = tag ∷ (length_bytes (length d) ++ d)

-- The header, in the way each encoder starts.
pub headed_lem :
    (tag dlen : ℕ) (s : Sink)
    → dlen ≤ int_max
    → ignoring
        (length_to_der dlen (count 1 (emit (u8 tag ∷ []) s)))
        (count 1 (emit (u8 tag ∷ []) s))
      ≡ wrote (u8 tag ∷ length_bytes dlen) s
unfolding ignoring
headed_lem tag dlen s h =
    rw
      (
        count-emit s (u8 tag ∷ []) 1 refl,
        length_to_der_lem dlen (wrote (u8 tag ∷ []) s) h,
        ignoring,
      )
      (wrote-wrote s (u8 tag ∷ []) (length_bytes dlen))

pub type_to_der_lem :
    (tag : ℕ) (d : List ℕ) (s : Sink)
    → tag < 256
    → length d ≤ int_max
    → type_to_der tag (bytes d) s ≡ written (wrote (tlv tag d) s)
unfolding type_to_der
type_to_der_lem tag d s ht h =
    let e : u8 tag ≡ tag = omega arith in
    rw
      (
        headed_lem tag (length d) s h,
        count-emit (wrote (u8 tag ∷ length_bytes (length d)) s) d (length d) refl,
      )
      (ap written (wrote-wrote s (u8 tag ∷ length_bytes (length d)) d)
        ∙ ap (λ t. written (wrote (tlv t d) s)) e)

pub contents_lem :
    (d rest : List ℕ)
    → length d < 2 ^ 32
    → contents (length_bytes (length d) ++ (d ++ rest)) ≡ got d rest
unfolding contents taken enough
contents_lem d rest h =
    rw
      (
        length_from_der-length_bytes (length d) (d ++ rest) h,
        le→ltb (length (d ++ rest)) (length d) (omega (arith, length-append d rest)),
        taken,
      )
      (ap₂ got (take-append_eq (length d) d rest refl) (drop-append_eq (length d) d rest refl))

-- For every tag of one byte, `asn1_type_to_der` succeeds on a value of at most INT_MAX bytes, with
-- or without a buffer, and `asn1_type_from_der` reads what it writes, in front of any bytes, back
-- as that value and leaves those bytes.
pub type_from_der-type_to_der :
    (tag : ℕ) (d rest : List ℕ) (s : Sink)
    → tag < 256
    → length d ≤ int_max
    → (c : List ℕ) × (type_to_der tag (bytes d) s ≡ written (wrote c s))
      × (type_from_der tag (c ++ rest) ≡ got d rest)
unfolding type_from_der
type_from_der-type_to_der tag d rest s ht h = (
  tlv tag d,
  type_to_der_lem tag d s ht h,
  rw (eq→== tag tag refl, append_assoc (length_bytes (length d)) d rest)
      (contents_lem d rest (omega arith)),
)

contents-tlv :
    (input d rest : List ℕ)
    → All IsByte input
    → contents input ≡ got d rest
    → input ≡ length_bytes (length d) ++ (d ++ rest)
unfolding contents taken
contents-tlv input d rest h e = from (length_from_der input) refl e
  where
    from :
        (r : LengthRead)
        → length_from_der input ≡ r
        → taken r ≡ got d rest
        → input ≡ length_bytes (length d) ++ (d ++ rest)
    from bad same e = cc e
    from short same e = cc e
    from (size len r) same e =
        let start : Starts input len r = length_from_der-Starts len r input h same in
        let p : take len r ≡ d = ground arith in
        let q : drop len r ≡ rest = ground arith in
        let n : len ≡ length d = omega (arith, ap length p, length-take len r, start.2) in
        start.0
        ∙ ap₂ (λ n t. length_bytes n ++ t) n
            (sym (take-append-drop len r) ∙ ap₂ (λ s t. s ++ t) p q)

-- Whatever bytes `asn1_type_from_der` accepts for a tag are the one DER encoding of the value that
-- it returns, in front of the bytes that it leaves.
pub type_from_der-tlv :
    (tag : ℕ) (input d rest : List ℕ)
    → All IsByte input
    → type_from_der tag input ≡ got d rest
    → input ≡ tlv tag d ++ rest
unfolding type_from_der
type_from_der-tlv tag [] d rest h e = cc e
type_from_der-tlv tag (b ∷ input) d rest h e = elim (Bool-cases (b == tag)) [
  | inl same ↦
      ap₂ (λ t r. t ∷ r) (==→eq _ _ same)
        (contents-tlv input d rest h.1 (rw (same, type_from_der) at e)
          ∙ sym (append_assoc (length_bytes (length d)) d rest))
  | inr other ↦ absurd (cc (rw (other, type_from_der) at e))
]
