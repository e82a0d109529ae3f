-- ===== src/Asn1/Types.antt =====
-- `asn1_type_to_der`, `asn1_header_to_der` and `asn1_type_from_der` of src/asn1.c, with their
-- variants for values that are not empty and for any tag.
pub mod Laws
use gm_ssl.Base.{
  ℕ, ◌+◌, List, [], ◌∷◌, length, take, drop, Bool, true, false, ◌==◌, if◌then◌else◌, u8,
}
use gm_ssl.Asn1.Sink.{Sink, emit, count, Written, failed, absent, written, Read, got}
use gm_ssl.Asn1.Length.{length_to_der, LengthRead, bad, short, size, length_from_der}

-- `d` and `dlen`: a null pointer with a length, or the bytes.
pub data Data : Type 0 where
  null : ℕ → Data
  bytes : List ℕ → Data

-- `(void)asn1_length_to_der(…)`: a failure of the call leaves the sink as it was, and nobody asks.
unfoldable pub ignoring : Written → Sink → Sink
ignoring failed s = s
ignoring absent s = s
ignoring (written s') s = s'

unfoldable pub header_to_der : ℕ → ℕ → Sink → Written
header_to_der tag dlen s =
    let tagged = count 1 (emit (u8 tag ∷ []) s) in
    written (ignoring (length_to_der dlen tagged) tagged)

unfoldable pub type_to_der : ℕ → Data → Sink → Written
type_to_der tag (null dlen) s = if dlen == 0 then absent else failed
type_to_der tag (bytes d) s =
    let tagged = count 1 (emit (u8 tag ∷ []) s) in
    let headed = ignoring (length_to_der (length d) tagged) tagged in
    written (count (length d) (emit d headed))

unfoldable pub nonempty_type_to_der : ℕ → Data → Sink → Written
nonempty_type_to_der tag (null dlen) s = type_to_der tag (null dlen) s
nonempty_type_to_der tag (bytes []) s = failed
nonempty_type_to_der tag (bytes (b ∷ bs)) s = type_to_der tag (bytes (b ∷ bs)) s

-- Behind the tag: the length, and as many bytes.
unfoldable pub taken : LengthRead → Read (List ℕ)
taken bad = failed
taken short = failed
taken (size len rest) = got (take len rest) (drop len rest)

unfoldable pub contents : List ℕ → Read (List ℕ)
contents input = taken (length_from_der input)

unfoldable pub type_from_der : ℕ → List ℕ → Read (List ℕ)
type_from_der tag [] = absent
type_from_der tag (b ∷ rest) = if b == tag then contents rest else absent

unfoldable pub refuse_empty : Read (List ℕ) → Read (List ℕ)
refuse_empty failed = failed
refuse_empty absent = absent
refuse_empty (got [] rest) = failed
refuse_empty (got (d ∷ ds) rest) = got (d ∷ ds) rest

unfoldable pub nonempty_type_from_der : ℕ → List ℕ → Read (List ℕ)
nonempty_type_from_der tag input = refuse_empty (type_from_der tag input)

-- The tag comes with the value.
unfoldable pub any_type_from_der : List ℕ → Read (ℕ × List ℕ)
any_type_from_der [] = absent
any_type_from_der (tag ∷ rest) = elim (contents rest) [
  | failed ↦ failed
  | absent ↦ absent
  | got d rest' ↦ got (tag, d) rest'
]
