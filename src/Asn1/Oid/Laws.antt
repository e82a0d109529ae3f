-- ===== src/Asn1/Oid/Laws.antt =====
-- An object identifier is read back from its octets and from its DER encoding.
use gm_ssl.Base.{
  ℕ, zero, suc, ◌+◌, ◌*◌, ◌/◌, ◌%◌, ◌≤◌, ◌<◌, u8, arith, ◌≡◌, refl, sym, ap, ap₂, ◌∙◌,
}
use gm_ssl.Base.{List, [], ◌∷◌, ◌++◌, append_assoc, length, take, drop, All, IsU32}
use gm_ssl.Base.{some, length-append, take-append_eq, drop-append_eq, le→ltb, eq→==}
use gm_ssl.Asn1.Sink.{Sink, emit, written, got, wrote, wrote-wrote, wrote-nil, count-emit}
use gm_ssl.Asn1.Length.{enough, size}
use gm_ssl.Asn1.Length.Laws.{length_bytes}
use gm_ssl.Asn1.Length.Canonical.{length_from_der-length_bytes}
use gm_ssl.Asn1.Types.{bytes, type_to_der}
use gm_ssl.Asn1.Types.Laws.{tlv, type_to_der_lem}
use gm_ssl.Asn1.Oid.{max_nodes, node_to_base128, node_from_base128, nodes_to_base128, oid_to_octets}
use gm_ssl.Asn1.Oid.{
  nodes_loop, behind, ended, oid_from_octets, octets_to_der, oid_to_der_ex, oid_contents,
  oid_from_der_ex,
}
use gm_ssl.Asn1.Oid.Node.{octets, node_bytes_lem, node_from_base128_lem, octets-cons, length-octets}

-- The octets of nodes, one after the other.
abbrev pub all_octets : List ℕ → List ℕ
all_octets [] = []
all_octets (a ∷ nodes) = octets a ++ all_octets nodes

nodes_to_base128_lem :
    (nodes : List ℕ) (s : Sink)
    → All IsU32 nodes
    → nodes_to_base128 nodes s ≡ wrote (all_octets nodes) s
unfolding nodes_to_base128 node_to_base128
nodes_to_base128_lem [] s h = sym (wrote-nil s)
nodes_to_base128_lem (a ∷ nodes) s h =
    rw (node_bytes_lem a h.0, count-emit s (octets a) (length (octets a)) refl)
      (nodes_to_base128_lem nodes (wrote (octets a) s) h.1
        ∙ wrote-wrote s (octets a) (all_octets nodes))

nodes_loop_step :
    (n cnt a b : ℕ) (bs rest nodes : List ℕ)
    → cnt ≤ max_nodes
    → node_from_base128 (b ∷ bs) ≡ some (a, rest)
    → nodes_loop n (cnt + 1) rest ≡ ended nodes
    → nodes_loop (suc n) cnt (b ∷ bs) ≡ ended (a ∷ nodes)
unfolding nodes_loop behind
nodes_loop_step n cnt a b bs rest nodes h e e' = rw (le→ltb max_nodes cnt h, e, nodes_loop, e') refl

-- The loop reads the nodes back, as long as the count does not pass the bound.
nodes_loop_lem :
    (n cnt : ℕ) (nodes : List ℕ)
    → All IsU32 nodes
    → length (all_octets nodes) ≤ n
    → cnt + length nodes ≤ max_nodes + 1
    → nodes_loop n cnt (all_octets nodes) ≡ ended nodes
unfolding nodes_loop
nodes_loop_lem zero cnt [] h few small = refl
nodes_loop_lem (suc n) cnt [] h few small = refl
nodes_loop_lem zero cnt (a ∷ nodes) h few small =
    let (b, bs, e) = octets-cons a in
    absurd (omega (arith, ap length e, length-append (octets a) (all_octets nodes), few))
nodes_loop_lem (suc n) cnt (a ∷ nodes) h few small =
    let (b, bs, e) = octets-cons a in
    let rest = all_octets nodes in
    let size = length-append (octets a) rest in
    let more =
      nodes_loop_lem n (cnt + 1) nodes h.1 (omega (arith, ap length e, size, few)) (omega arith) in
    let first : node_from_base128 (b ∷ (bs ++ rest)) ≡ some (a, rest) =
      ap (λ t. node_from_base128 (t ++ rest)) (sym e) ∙ node_from_base128_lem a rest h.0 in
    ap (λ t. nodes_loop (suc n) cnt (t ++ rest)) e
    ∙ nodes_loop_step n cnt a b (bs ++ rest) rest nodes (omega arith) first more

-- Of any octets that encode up to 31 nodes behind the first one, `asn1_object_identifier_from_octets`
-- delivers two nodes for the first octet, and then these: 33 nodes where there are 31, which is one
-- more than the 32 for which its callers have room.
pub oid_from_octets_lem :
    (first : ℕ) (nodes : List ℕ)
    → All IsU32 nodes
    → length nodes ≤ 31
    → oid_from_octets (first ∷ all_octets nodes) ≡ some (first / 40 ∷ first % 40 ∷ nodes)
unfolding oid_from_octets
oid_from_octets_lem first nodes h small =
    rw
      (
        nodes_loop_lem (length (all_octets nodes)) 2 nodes h (omega arith) (omega arith),
        oid_from_octets,
      )
      refl

-- An identifier that can be encoded: at most 32 nodes, and the first two fit their octet.
pub record IsOid (a b : ℕ) (nodes : List ℕ) : Type 0 where
  pub second : b < 40
  pub first_octet : a * 40 + b < 256
  pub words : All IsU32 nodes
  pub few : length nodes ≤ 30

-- The octets of an identifier.
abbrev pub oid_octets : ℕ → ℕ → List ℕ → List ℕ
oid_octets a b nodes = (a * 40 + b) ∷ all_octets nodes

oid_to_octets_lem :
    (a b : ℕ) (nodes : List ℕ)
    → IsOid a b nodes
    → oid_to_octets (a ∷ b ∷ nodes) (record { buf = some []; len = 0 })
      ≡ written (record { buf = some (oid_octets a b nodes); len = length (oid_octets a b nodes) })
unfolding oid_to_octets emit
oid_to_octets_lem a b nodes o =
    let e : u8 (a * 40 + b) ≡ a * 40 + b = omega (arith, o.first_octet) in
    rw
      (
        le→ltb (suc (suc (length nodes))) 2 (omega arith),
        le→ltb max_nodes (suc (suc (length nodes))) (omega (arith, o.few)),
        e,
      )
      (ap written
          (nodes_to_base128_lem nodes (record { buf = some ((a * 40 + b) ∷ []); len = 1 }) o.words)
        ∙ λ i. written (record { buf = some (oid_octets a b nodes); len = sum i }))
  where
    sum : 1 + length (all_octets nodes) ≡ suc (length (all_octets nodes))
    sum = omega arith

oid_from_octets-oid_octets :
    (a b : ℕ) (nodes : List ℕ)
    → IsOid a b nodes
    → oid_from_octets (oid_octets a b nodes) ≡ some (a ∷ b ∷ nodes)
oid_from_octets-oid_octets a b nodes o =
    oid_from_octets_lem (a * 40 + b) nodes o.words (omega (arith, o.few))
    ∙ ap₂ (λ x y. some (x ∷ y ∷ nodes)) (omega (arith, o.second)) (omega (arith, o.second))

length-all_octets : (nodes : List ℕ) → length (all_octets nodes) ≤ length nodes * 5
length-all_octets [] = omega arith
length-all_octets (a ∷ nodes) =
    omega
      (arith, length-append (octets a) (all_octets nodes), length-octets a, length-all_octets nodes)

oid_contents_lem :
    (len : ℕ) (input nodes : List ℕ)
    → 1 ≤ len
    → oid_from_octets (take len input) ≡ some nodes
    → oid_contents (size len input) ≡ got nodes (drop len input)
unfolding oid_contents
oid_contents_lem len input nodes h e = rw (le→ltb len 1 h, e) refl

-- For every tag of one byte and every identifier of at most 32 nodes of 32 bits, the second below 40 and the first two
-- fitting their octet, `asn1_object_identifier_to_der_ex` succeeds, with or without a buffer, and
-- `asn1_object_identifier_from_der_ex` reads what it writes, in front of any bytes, back as the same
-- nodes and leaves those bytes.
pub oid_from_der_ex-oid_to_der_ex :
    (tag a b : ℕ) (nodes rest : List ℕ) (s : Sink)
    → tag < 256
    → IsOid a b nodes
    → (c : List ℕ) × (oid_to_der_ex tag (bytes (a ∷ b ∷ nodes)) s ≡ written (wrote c s))
      × (oid_from_der_ex tag (c ++ rest) ≡ got (a ∷ b ∷ nodes) rest)
unfolding oid_to_der_ex oid_from_der_ex enough
oid_from_der_ex-oid_to_der_ex tag a b nodes rest s ht o = (
  tlv tag body,
  rw (oid_to_octets_lem a b nodes o)
      (unfold octets_to_der type_to_der in type_to_der_lem tag body s ht (omega (arith, few))),
  rw
      (
        eq→== tag tag refl,
        append_assoc (length_bytes (length body)) body rest,
        length_from_der-length_bytes (length body) (body ++ rest) (omega (arith, few)),
        le→ltb (length (body ++ rest)) (length body) (omega (arith, length-append body rest)),
      )
      (oid_contents_lem (length body) (body ++ rest) (a ∷ b ∷ nodes) (omega arith) (
          ap oid_from_octets (take-append_eq (length body) body rest refl)
          ∙ oid_from_octets-oid_octets a b nodes o)
        ∙ ap (got (a ∷ b ∷ nodes)) (drop-append_eq (length body) body rest refl)),
)
  where
    body : List ℕ
    body = oid_octets a b nodes

    few : length body ≤ 151
    few = omega (arith, length-all_octets nodes, o.few)
