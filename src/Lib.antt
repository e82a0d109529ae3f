-- ===== src/Lib.antt =====
-- The symmetric core of GmSSL, the arithmetic below SM2 and SM9, and the DER layer.
--
-- The parts of the program, and how they stand on each other:
--   the words and memory helpers (include/gmssl/endian.h, src/hex.c) serve everything;
--   SM3 (src/sm3.c) hashes a stream of bytes; HMAC (src/sm3_hmac.c) is made of two hashes, the key
--   derivations (src/sm3_kdf.c, src/sm3_pbkdf2.c) of many hashes or MACs under a counter;
--   SM4 (src/sm4.c) encrypts blocks; src/sm4_cbc.c, src/sm4_ctr.c, src/sm4_ofb.c and src/sm4_ecb.c
--   turn it into modes, at once or in a context that buffers what is no whole block yet;
--   src/sm4_cbc_sm3_hmac.c and src/sm4_ctr_sm3_hmac.c put an HMAC behind such a ciphertext;
--   the fields of SM2 (src/sm2_z256.c) are numbers of four 64-bit words modulo p and modulo n, with
--   products in Montgomery form; src/sm9_z256.c has the same for SM9, and a tower of extensions;
--   TLS records (src/tls.c) take a MAC from HMAC-SM3, pad, and encrypt with SM4 in CBC mode;
--   DER (src/asn1.c) writes and reads tags, lengths and values.
--
-- Which file models which part:
--   Base: names of the library, lists over the native numbers, tests, words and bits.
--   Endian: GETU32, PUTU32 and ROL32. A word is a number below 2 ^ 32; a shift to the left or a
--     sum is cut to its type's width where the C type cuts it.
--   Mem: memxor, gmssl_memxor, gmssl_secure_memcmp and mem_is_zero. A buffer is a list of
--     numbers, each a byte where a theorem says `All IsByte`.
--   Stream: the buffering that sm3_update and the updates of the modes repeat: a chaining value, a
--     block and how many of its bytes are taken. Stream.absorb is the body of an update over the
--     step of one block; Stream.Holds is its invariant. Stream.absorb_back is the update that holds
--     a last whole block back, and Stream.Back its invariant.
--   Sm3: sm3_init, sm3_update and sm3_finish; Sm3.Compress is the compression function of the
--     small-footprint build, and Sm3.Spec the hash of a whole message as the standard has it.
--     Sm3.Hmac: sm3_hmac_init, _update and _finish. Sm3.Kdf: sm3_kdf_init, _update and _finish,
--     and sm3_pbkdf2; Sm3.Counter is their output loop.
--   Sm4: both key schedules and sm4_encrypt of the small-footprint build, with the tables in
--     Sm4.Tables. Sm4.Blocks: one round of the block loops of each mode, the counters, the context
--     and the update. Sm4.Cbc: sm4_cbc_padding_encrypt and _decrypt and both contexts.
--     Sm4.Ctr: sm4_ctr_encrypt and sm4_ctr32_encrypt and their contexts. Sm4.Ecb: the two contexts
--     of src/sm4_ecb.c. Sm4.Ofb: sm4_ofb_encrypt and its context. Sm4.Authenticated: the functions
--     of src/sm4_cbc_sm3_hmac.c and src/sm4_ctr_sm3_hmac.c, over a record of the calls on the
--     cipher. Their decrypt_update returns 1 without a write to `*outlen` where it only keeps its
--     input (Opened.kept); `called` there is a caller that takes `*outlen` bytes after each call,
--     whatever it held before, and the theorems on the decryption say which callers get the
--     plaintext. Ciphers.Streams is what the MAC layer needs of a cipher, which the theorems on
--     the modes provide.
--   Sm2: Sm2.Limbs is sm2_z256_add, _sub and _cmp, Sm2.Mul sm2_z256_mul, on lists of words, the low
--     one first. Sm2.Modular is what the source has once for p and once for n, over a record of the
--     constants; Sm2.Modular.Laws.IsModulus says how the constants fit each other, and
--     Sm2.Modular.Form what a number in Montgomery form stands for. Sm2.Field is sm2_z256_modp_add
--     to sm2_z256_modn_inv, with the constants of p and n. Sm2.Bytes is sm2_z256_from_bytes,
--     _to_bytes and _rand_range.
--   Sm9: Sm9.Fp is sm9_z256_modp_add to sm9_z256_modp_mont_inv, Sm9.Fp2 the functions called
--     sm9_z256_fp2_ on pairs. The functions on four words below them are the same text in
--     src/sm2_z256.c and src/sm9_z256.c, and are modelled once. In the theorems x stands for the
--     number that words in Montgomery form stand for, and -1 and -2 are p - 1 and p - 2. Sm9.Fn is
--     sm9_z256_modn_mul, sm9_z256_modn_pow and sm9_z256_modn_inv; Sm9.Fn.Barrett is the reduction
--     of modn_mul on numbers.
--   Asn1: Asn1.Sink is `uint8_t **out, size_t *outlen`; Asn1.Length, Asn1.Types and Asn1.Integer
--     are the functions asn1_length_, asn1_type_ and asn1_integer_ … _to_der and _from_der.
--     Asn1.Small is asn1_boolean_, asn1_null_ and asn1_int_, Asn1.BitString asn1_bit_string_ and
--     asn1_bit_octets_, Asn1.Oid asn1_oid_node_ and asn1_object_identifier_. A C int is ℤ there.
--   Tls: Tls.Cbc is tls_cbc_encrypt, tls_cbc_decrypt, tls_record_encrypt and tls_record_decrypt;
--     Tls.Codec is tls_uint8_to_bytes to tls_uint24array_from_bytes.
--   The files called Tests run the definitions on known answers, and hold the examples.
--
-- State is passed on: a function takes a context and returns the new one with what it wrote. The
-- results -1, 0 and 1 are constructors. Null checks of pointers that no caller leaves out have no
-- counterpart.
--
-- Bounds and fuel: a message has fewer than 2 ^ 61 bytes, so that its length in bits fits the
-- field of 64 bits. The output loop of Sm3.Counter has the number of wanted bytes as fuel, and
-- every round writes one byte at least; its counter has 32 bits, so the theorems ask for fewer
-- than 2 ^ 32 blocks. The loop over an object identifier's octets has as much fuel as there are
-- octets, and Asn1.Oid.Looped tells the end of the fuel from the error -1; a node has at most four
-- rounds behind the first. The loop of Sm4.Ofb has one round for each byte, which is more than it
-- needs. All other loops are structural. Lengths of DER values go up to INT_MAX.
-- Random bytes are a parameter of the record encryption and of sm2_z256_rand_range: what each call
-- of rand_bytes delivers, if anything. That p and n are primes is not used: the inverses are stated as
-- the powers that they are.
--
-- Not modelled: the unrolled and the platform-specific variants of SM3, SM4 and the SM2 arithmetic,
-- the modes CFB, GCM, CCM and XTS, the points and the schemes of SM2, the rest of SM9, certificates
-- and messages, the handshakes, and input and output. Timing is not modelled either.
pub mod Base
pub mod Endian
pub mod Mem
pub mod Stream
pub mod Sm3
pub mod Sm4
pub mod Sm2
pub mod Sm9
pub mod Asn1
pub mod Tls
