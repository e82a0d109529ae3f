-- ===== src/Asn1/Tests.antt =====
-- The theorems at concrete inputs.
use gm_ssl.Base.{ℕ, List, [], ◌∷◌, ◌++◌, ◌≡◌, ◌≢◌, refl, arith, some}
use gm_ssl.Asn1.Sink.{Sink, written, wrote}
use gm_ssl.Asn1.Length.{length_to_der, length_from_der, enough, size}
use gm_ssl.Asn1.Length.Canonical.{Starts}
use gm_ssl.Asn1.Length.Unique.{length_from_der-Starts}
use gm_ssl.Asn1.Sink.{got}
use gm_ssl.Asn1.Types.{bytes, type_to_der, type_from_der, contents, taken}
use gm_ssl.Asn1.Types.Laws.{tlv, type_from_der-type_to_der, type_from_der-tlv}
use gm_ssl.Asn1.Integer.{strip, integer_to_der_ex, integer_from_der_ex}
use gm_ssl.Asn1.Integer.Laws.{integer_from_der_ex-integer_to_der_ex}
use gm_ssl.Base.{replicate}
use gm_ssl.Asn1.Sink.{emit, count}
use gm_ssl.Asn1.Length.{nbytes_of}
use gm_ssl.Asn1.Types.{ignoring}
use gm_ssl.Asn1.Oid.{
  digits_loop, node_value, node_of, node_from_base128, nodes_loop, starved, behind, oid_from_octets,
}
use gm_ssl.Asn1.Oid.{oid_to_der_ex, oid_from_der_ex}
use gm_ssl.Asn1.Oid.Laws.{all_octets, IsOid, oid_from_octets_lem, oid_from_der_ex-oid_to_der_ex}
use gm_ssl.Asn1.Oid.Fuel.{nodes_loop-enough}
use gm_ssl.Asn1.Small.{pos, negsuc, int_bytes, only_written, int_to_der_ex, int_from_der_ex}
use gm_ssl.Asn1.Small.Laws.{int_from_der_ex-int_to_der_ex}
use gm_ssl.Asn1.BitString.{bit_string_to_der_ex, bit_string_from_der_ex}
use gm_ssl.Asn1.BitString.Laws.{bit_string_from_der_ex-bit_string_to_der_ex}

abbrev sink : Sink
sink = record { buf = some (0x30 ∷ []); len = 1 }

accepted : length_from_der (2 ∷ 7 ∷ 8 ∷ []) ≡ size 2 (7 ∷ 8 ∷ [])
unfolding length_from_der enough
accepted = refl

length_from_der-Starts_example : Starts (2 ∷ 7 ∷ 8 ∷ []) 2 (7 ∷ 8 ∷ [])
length_from_der-Starts_example =
    length_from_der-Starts 2 (7 ∷ 8 ∷ []) (2 ∷ 7 ∷ 8 ∷ []) (omega arith) accepted

abbrev value : List ℕ
value = 0 ∷ 0 ∷ 0x81 ∷ 0x02 ∷ []

type_from_der-type_to_der_example :
    (c : List ℕ) × (type_to_der 4 (bytes value) sink ≡ written (wrote c sink))
    × (type_from_der 4 (c ++ (5 ∷ 0 ∷ [])) ≡ got value (5 ∷ 0 ∷ []))
type_from_der-type_to_der_example =
    type_from_der-type_to_der 4 value (5 ∷ 0 ∷ []) sink (omega arith) (omega arith)

two_read : type_from_der 4 (4 ∷ 2 ∷ 7 ∷ 8 ∷ 9 ∷ []) ≡ got (7 ∷ 8 ∷ []) (9 ∷ [])
unfolding type_from_der contents taken length_from_der enough
two_read = refl

type_from_der-tlv_example : 4 ∷ 2 ∷ 7 ∷ 8 ∷ 9 ∷ [] ≡ tlv 4 (7 ∷ 8 ∷ []) ++ (9 ∷ [])
type_from_der-tlv_example =
    type_from_der-tlv 4 (4 ∷ 2 ∷ 7 ∷ 8 ∷ 9 ∷ []) (7 ∷ 8 ∷ []) (9 ∷ []) (omega arith) two_read

integer_from_der_ex-integer_to_der_ex_example :
    (c : List ℕ) × (integer_to_der_ex 2 (some value) sink ≡ written (wrote c sink))
    × (integer_from_der_ex 2 (c ++ (5 ∷ 0 ∷ [])) ≡ got (strip value) (5 ∷ 0 ∷ []))
integer_from_der_ex-integer_to_der_ex_example =
    integer_from_der_ex-integer_to_der_ex 2 value (5 ∷ 0 ∷ []) sink (omega arith) (omega arith)
      (omega arith) (omega arith)

-- The identifier of SM2, 1.2.156.10197.1.301, and its octets.
abbrev sm2_nodes : List ℕ
sm2_nodes = 156 ∷ 10197 ∷ 1 ∷ 301 ∷ []

sm2_octets :
    oid_from_octets (0x2a ∷ 0x81 ∷ 0x1c ∷ 0xcf ∷ 0x55 ∷ 0x01 ∷ 0x82 ∷ 0x2d ∷ [])
    ≡ some (1 ∷ 2 ∷ sm2_nodes)
unfolding oid_from_octets nodes_loop behind node_from_base128 digits_loop node_of node_value
sm2_octets = refl

sm2-IsOid : IsOid 1 2 sm2_nodes
sm2-IsOid = record {
  second = omega arith;
  first_octet = omega arith;
  words = omega arith;
  few = omega arith;
}

oid_from_der_ex-oid_to_der_ex_example :
    (c : List ℕ) × (oid_to_der_ex 6 (bytes (1 ∷ 2 ∷ sm2_nodes)) sink ≡ written (wrote c sink))
    × (oid_from_der_ex 6 (c ++ (5 ∷ 0 ∷ [])) ≡ got (1 ∷ 2 ∷ sm2_nodes) (5 ∷ 0 ∷ []))
oid_from_der_ex-oid_to_der_ex_example =
    oid_from_der_ex-oid_to_der_ex 6 1 2 sm2_nodes (5 ∷ 0 ∷ []) sink (omega arith) sm2-IsOid

-- One node too many.
oid_from_octets_lem_example :
    oid_from_octets (42 ∷ all_octets (replicate 31 300)) ≡ some (1 ∷ 2 ∷ replicate 31 300)
oid_from_octets_lem_example = oid_from_octets_lem 42 (replicate 31 300) (omega arith) (omega arith)

nodes_loop-enough_example : nodes_loop 3 2 (0x81 ∷ 0x1c ∷ 0x01 ∷ []) ≢ starved
nodes_loop-enough_example = nodes_loop-enough 3 2 (0x81 ∷ 0x1c ∷ 0x01 ∷ []) (omega arith)

int_from_der_ex-int_to_der_ex_example :
    (c : List ℕ) × (int_to_der_ex 2 (pos 40000) sink ≡ written (wrote c sink))
    × (int_from_der_ex 2 (c ++ (5 ∷ 0 ∷ [])) ≡ got 40000 (5 ∷ 0 ∷ []))
int_from_der_ex-int_to_der_ex_example =
    int_from_der_ex-int_to_der_ex 2 40000 (5 ∷ 0 ∷ []) sink (omega arith) (omega arith)

-- A negative value other than -1 is written as 0.
minus_two_written :
    int_to_der_ex 2 (negsuc 1) (record { buf = some []; len = 0 })
    ≡ written (record { buf = some (2 ∷ 1 ∷ 0 ∷ []); len = 3 })
unfolding int_to_der_ex integer_to_der_ex only_written int_bytes strip ignoring length_to_der emit
    count nbytes_of
minus_two_written = refl

bit_string_from_der_ex-bit_string_to_der_ex_example :
    (c : List ℕ) × (bit_string_to_der_ex 3 (some (6 ∷ 0x40 ∷ [])) 10 sink ≡ written (wrote c sink))
    × (bit_string_from_der_ex 3 (c ++ (5 ∷ 0 ∷ [])) ≡ got (6 ∷ 0x40 ∷ [], 10) (5 ∷ 0 ∷ []))
bit_string_from_der_ex-bit_string_to_der_ex_example =
    bit_string_from_der_ex-bit_string_to_der_ex 3 10 (6 ∷ 0x40 ∷ []) (5 ∷ 0 ∷ []) sink (omega arith)
      (omega arith) refl (omega arith)
