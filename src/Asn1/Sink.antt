-- ===== src/Asn1/Sink.antt =====
-- `uint8_t **out, size_t *outlen`: bytes are written only where there is a buffer, and counted
-- in any case, so that a first call without a buffer tells the size.
use mathlib.Core.Option
use gm_ssl.Base.{ℕ, ◌+◌, arith, ◌≡◌, refl, List, ◌++◌, append_assoc, length}
use gm_ssl.Base.{length-append, Option, none, some, [], append-nil}

pub record Sink : Type 0 where
  pub buf : Option (List ℕ)
  pub len : ℕ

-- `if (out && *out) { memcpy(*out, …); *out += …; }` and `*outlen += n;`
unfoldable pub emit : List ℕ → Sink → Sink
emit bs s = record s { buf = Option.map (λ w. w ++ bs) s.buf }

unfoldable pub count : ℕ → Sink → Sink
count n s = record s { len = s.len + n }

-- The results -1, 0 and 1 of an encoder.
pub data Written : Type 0 where
  failed absent : Written
  written : Sink → Written

-- The sink after exactly these bytes.
abbrev pub wrote : List ℕ → Sink → Sink
wrote bs s = record { buf = Option.map (λ w. w ++ bs) s.buf; len = s.len + length bs }

-- The results -1, 0 and 1 of a decoder, with the value and the input behind it.
pub data Read (A : Type 0) : Type 0 where
  failed absent : Read A
  got : A → List ℕ → Read A

pub wrote-wrote : (s : Sink) (xs ys : List ℕ) → wrote ys (wrote xs s) ≡ wrote (xs ++ ys) s
wrote-wrote s xs ys = λ i. record { buf = both s.buf i; len = sum i }
  where
    both :
        (b : Option (List ℕ))
        → Option.map (λ w. w ++ ys) (Option.map (λ w. w ++ xs) b)
          ≡ Option.map (λ w. w ++ (xs ++ ys)) b
    both none = refl
    both (some w) = λ i. some (append_assoc w xs ys i)

    sum : s.len + length xs + length ys ≡ s.len + length (xs ++ ys)
    sum = omega (arith, length-append xs ys)

pub count-emit : (s : Sink) (bs : List ℕ) (n : ℕ) → n ≡ length bs → count n (emit bs s) ≡ wrote bs s
unfolding emit count
count-emit s bs n e = λ i. record { buf = Option.map (λ w. w ++ bs) s.buf; len = s.len + e i }

-- One write after another is a write of both.
pub emit-emit : (s : Sink) (xs ys : List ℕ) → emit ys (emit xs s) ≡ emit (xs ++ ys) s
unfolding emit
emit-emit s xs ys = λ i. record { buf = both s.buf i; len = s.len }
  where
    both :
        (b : Option (List ℕ))
        → Option.map (λ w. w ++ ys) (Option.map (λ w. w ++ xs) b)
          ≡ Option.map (λ w. w ++ (xs ++ ys)) b
    both none = refl
    both (some w) = λ i. some (append_assoc w xs ys i)

pub wrote-nil : (s : Sink) → wrote [] s ≡ s
wrote-nil s = λ i. record { buf = same s.buf i; len = sum i }
  where
    same : (b : Option (List ℕ)) → Option.map (λ w. w ++ []) b ≡ b
    same none = refl
    same (some w) = λ i. some (append-nil w i)

    sum : s.len + 0 ≡ s.len
    sum = omega arith
