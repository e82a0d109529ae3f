-- ===== src/Sm4/Blocks/Streamed.antt =====
-- What a mode's context holds after any updates from its setup.
use gm_ssl.Base.{joined}
use gm_ssl.Base.{ℕ, ◌<◌, arith, ◌≡◌, refl, List, [], ◌∷◌, ◌++◌}
use gm_ssl.Base.{append-nil, append_assoc, true, lt→leb}
use gm_ssl.Stream.{Buffer, iterate, absorb}
use gm_ssl.Stream.Holds.{Holds, absorb-Holds}
use gm_ssl.Sm4.Blocks.{Ctx, Reply, done, setup, update, feed, updates}

module _ {S : Type 0} (step : List ℕ → S → List ℕ → S × List ℕ) (key : List ℕ) (c : S) where
  abbrev pub context : Buffer S → Ctx S
  context b = record { sm4_key = key; buffer = b }

  pub record Streamed (seen : List ℕ) (reply : Reply (Ctx S)) : Type 0 where
    pub buffer : Buffer S
    pub written : List ℕ
    pub returns : reply ≡ done (context buffer) written
    pub held : Holds 16 (step key) c seen written buffer

  update_lem :
      (b : Buffer S) (x : List ℕ)
      → b.nbytes < 16
      → update step true (context b) x
        ≡ done (context (absorb 16 (step key) b x).0) (absorb 16 (step key) b x).1
  unfolding update
  update_lem b x h = rw (lt→leb 16 b.nbytes h) refl

  updates-Streamed :
      (b : Buffer S) (xs : List (List ℕ)) (seen written : List ℕ)
      → Holds 16 (step key) c seen written b
      → Streamed (seen ++ joined xs) (updates step (context b) xs written)
  unfolding updates feed
  updates-Streamed b [] seen written h = record {
    buffer = b;
    written = written;
    returns = refl;
    held = rw (append-nil seen) h;
  }
  updates-Streamed b (x ∷ xs) seen written h =
      rw (update_lem b x h.partial, feed, ← append_assoc seen x (joined xs))
        (updates-Streamed (absorb 16 (step key) b x).0 xs (seen ++ x)
          (written ++ (absorb 16 (step key) b x).1)
          (absorb-Holds 16 (step key) c seen written b x h))

  -- For any step of a mode: no update of a context that was set up fails, however the input is cut;
  -- together they write what the mode's loop makes of the whole blocks of all that was fed, and the
  -- context holds the bytes behind these and the chaining value after them.
  pub setup-Streamed :
      (xs : List (List ℕ)) → Streamed (joined xs) (updates step (setup key c) xs [])
  unfolding setup
  setup-Streamed xs = updates-Streamed _ xs [] [] (record {
    nblocks = 0;
    counted = refl;
    partial = omega arith;
    block_size = refl;
    pending = refl;
    ran = unfold iterate in refl;
  })
