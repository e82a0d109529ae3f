-- ===== src/Asn1/Oid.antt =====
-- The object identifiers of src/asn1.c: a node as base-128 digits, the octets of all nodes, and DER.
pub mod Node
pub mod Laws
pub mod Fuel
use gm_ssl.Base.{ℕ, zero, suc, ◌+◌, ◌-◌, ◌*◌, ◌/◌, ◌%◌, bit_and, bit_or, u8, u32, ◌<<<◌, ◌>>>◌}
use gm_ssl.Base.{List, [], ◌∷◌, ◌++◌, length, take, drop, get_or, Option, none, some, ◌>>=◌}
use gm_ssl.Base.{Bool, true, false, ◌&&◌, ◌||◌, ltb, ◌==◌, if◌then◌else◌}
use gm_ssl.Asn1.Sink.{Sink, emit, count, Written, failed, absent, written, Read, got}
use gm_ssl.Asn1.Length.{length_to_der, LengthRead, bad, short, size, length_from_der}
use gm_ssl.Asn1.Types.{Data, null, bytes, ignoring}

-- `while (a) { buf[n++] = 0x80 | (a & 0x7f); a >>= 7; }`, with what `buf` holds from its end: the
-- order in which it is written.
unfoldable pub base128_loop : ℕ → ℕ → List ℕ → List ℕ
base128_loop zero a buf = buf
base128_loop (suc n) a buf =
    let rest = base128_loop n (a >>> 7) (bit_or 0x80 (bit_and a 0x7f) ∷ buf) in
    if a == 0 then buf else rest

-- A node has 32 bits: one round before the loop, and at most 4 in it.
unfoldable pub node_bytes : ℕ → List ℕ
node_bytes a = base128_loop 4 (a >>> 7) (bit_and a 0x7f ∷ [])

unfoldable pub node_to_base128 : ℕ → Sink → Sink
node_to_base128 a s = let buf = node_bytes a in count (length buf) (emit buf s)

-- `for (;;)` with room for `n` more digits: the digits up to the first below 0x80.
unfoldable pub digits_loop : ℕ → List ℕ → List ℕ → Option (List ℕ × List ℕ)
digits_loop n buf [] = none
digits_loop zero buf (b ∷ input) = none
digits_loop (suc n) buf (b ∷ input) =
    let rest = digits_loop n (buf ++ (b ∷ [])) input in
    if bit_and b 0x80 == 0 then some (buf ++ (b ∷ []), input) else rest

-- `*a = ((*a) << 7) | (buf[i] & 0x7f);`
unfoldable pub node_value : ℕ → List ℕ → ℕ
node_value a [] = a
node_value a (b ∷ bs) = node_value (bit_or (u32 (a <<< 7)) (bit_and b 0x7f)) bs

-- The digits, and then the check of the first of five.
unfoldable pub node_of : List ℕ × List ℕ → Option (ℕ × List ℕ)
node_of (buf, input) =
    if (length buf == 5) && (if bit_and (get_or buf 0 0) 0x70 == 0 then false else true)
    then none
    else some (node_value 0 buf, input)

unfoldable pub node_from_base128 : List ℕ → Option (ℕ × List ℕ)
node_from_base128 input = digits_loop 5 [] input >>= node_of

abbrev pub min_nodes : ℕ
min_nodes = 2

abbrev pub max_nodes : ℕ
max_nodes = 32

-- `while (nodes_cnt--)`
unfoldable pub nodes_to_base128 : List ℕ → Sink → Sink
nodes_to_base128 [] s = s
nodes_to_base128 (a ∷ nodes) s = nodes_to_base128 nodes (node_to_base128 a s)

-- The sink's length is set, not added to.
unfoldable pub oid_to_octets : List ℕ → Sink → Written
oid_to_octets nodes s =
    let first = u8 (get_or nodes 0 0 * 40 + get_or nodes 1 0) in
    let s' : Sink = record (emit (first ∷ []) s) { len = 1 } in
    if ltb (length nodes) min_nodes || ltb max_nodes (length nodes)
    then failed
    else written (nodes_to_base128 (drop 2 nodes) s')

-- How the loop over the octets ends: out of fuel, with -1, or with the nodes.
pub data Looped : Type 0 where
  starved : Looped
  refused : Looped
  ended : List ℕ → Looped

-- `*nodes++ = val;`
unfoldable pub behind : ℕ → Looped → Looped
behind val starved = starved
behind val refused = refused
behind val (ended nodes) = ended (val ∷ nodes)

-- `while (inlen)`, from the count of nodes so far: the nodes that it appends. Each round takes a
-- byte at least, so that as much fuel as there are bytes is enough.
unfoldable pub nodes_loop : ℕ → ℕ → List ℕ → Looped
nodes_loop n nodes_cnt [] = ended []
nodes_loop zero nodes_cnt (b ∷ input) = starved
nodes_loop (suc n) nodes_cnt (b ∷ input) =
    let rest : Looped = elim (node_from_base128 (b ∷ input)) [
      | none ↦ refused
      | some (val, input') ↦ behind val (nodes_loop n (nodes_cnt + 1) input')
    ] in
    if ltb max_nodes nodes_cnt then refused else rest

unfoldable pub oid_from_octets : List ℕ → Option (List ℕ)
oid_from_octets [] = none
oid_from_octets (b ∷ input) = elim (nodes_loop (length input) 2 input) [
  | starved ↦ none
  | refused ↦ none
  | ended nodes ↦ some (b / 40 ∷ b % 40 ∷ nodes)
]

-- The octets go to a buffer of their own first.
unfoldable pub octets_to_der : ℕ → Written → Sink → Written
octets_to_der tag failed s = failed
octets_to_der tag absent s = failed
octets_to_der tag (written octets) s =
    let tagged = count 1 (emit (u8 tag ∷ []) s) in
    let headed = ignoring (length_to_der octets.len tagged) tagged in
    written (count octets.len (elim octets.buf [ none ↦ headed | some buf ↦ emit buf headed ]))

unfoldable pub oid_to_der_ex : ℕ → Data → Sink → Written
oid_to_der_ex tag (null nodes_cnt) s = if nodes_cnt == 0 then absent else failed
oid_to_der_ex tag (bytes nodes) s =
    octets_to_der tag (oid_to_octets nodes (record { buf = some []; len = 0 })) s

-- Behind the tag.
unfoldable pub oid_contents : LengthRead → Read (List ℕ)
oid_contents bad = failed
oid_contents short = failed
oid_contents (size len input) =
    if ltb len 1 then failed else (elim (oid_from_octets (take len input)) [
      | none ↦ failed
      | some nodes ↦ got nodes (drop len input)
    ])

unfoldable pub oid_from_der_ex : ℕ → List ℕ → Read (List ℕ)
oid_from_der_ex tag [] = absent
oid_from_der_ex tag (b ∷ input) = if b == tag then oid_contents (length_from_der input) else absent
