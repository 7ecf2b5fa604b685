-- ===== src/Verifier.antt =====
-- server.go: the write verifier that every WRITE and COMMIT reply carries. Eight bytes are one
-- number below 2^64, and the all-zero bytes are 0.
pub mod Stable
use go_nfs.Base.{ℕ, suc, Option, none, some, List, [], ◌∷◌, if◌then◌else◌, ◌==◌}

-- `random n` is what the n-th read of 8 bytes from crypto/rand yields.
pub record VerifierState : Type 0 where
  pub id : ℕ  -- Server.ID
  pub current : Option ℕ  -- the atomic pointer writeVerifier
  pub drawn : ℕ  -- the reads of crypto/rand so far

module _ (random : ℕ → ℕ) where
  -- randomVerifier
  unfoldable pub random_verifier : VerifierState → ℕ × VerifierState
  random_verifier v = (random v.drawn, record v { drawn = suc v.drawn })

  -- the choice of the seed in currentWriteVerifier
  unfoldable pub choose_seed : VerifierState → ℕ × VerifierState
  unfolding random_verifier
  choose_seed v = if v.id == 0 then random_verifier v else (v.id, v)

  -- rotateWriteVerifier
  unfoldable pub rotate_write_verifier : VerifierState → VerifierState
  unfolding random_verifier
  rotate_write_verifier v = let (next, v') = random_verifier v in record v' { current = some next }

  -- writeVerifier.CompareAndSwap(nil, &seed), and the verifier that is returned after it
  unfoldable pub swap_in : ℕ → VerifierState → Option ℕ → ℕ × VerifierState
  swap_in seed v none = (seed, record v { current = some seed })
  swap_in seed v (some w) = (w, v)

  -- currentWriteVerifier; `others` is what other goroutines do to the pointer between the load and
  -- the swap
  unfoldable pub current_from :
      (VerifierState → VerifierState) → Option ℕ → VerifierState → ℕ × VerifierState
  unfolding choose_seed swap_in
  current_from others (some w) v = (w, v)
  current_from others none v =
      let (seed, v') = choose_seed v in let u = others v' in swap_in seed u u.current

  unfoldable pub current_write_verifier :
      (VerifierState → VerifierState) → VerifierState → ℕ × VerifierState
  unfolding current_from
  current_write_verifier others v = current_from others v.current v
