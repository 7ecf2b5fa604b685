-- ===== src/Verifier/Stable.antt =====
-- server.go: the verifier is constant until a loss rotates it.
use go_nfs.Base.{ℕ, ◌≡◌, refl, none, some, List, [], ◌∷◌, arith, ◌==◌, if◌then◌else◌}
use go_nfs.Verifier.{VerifierState, rotate_write_verifier, current_write_verifier}

-- What a goroutine does with the verifier: a reply reads it, a loss rotates it.
pub data Use : Type 0 where
  reads : Use
  rotates : Use

module _ (random : ℕ → ℕ) where
  unfoldable pub use_once : Use → VerifierState → VerifierState
  unfolding current_write_verifier rotate_write_verifier
  use_once reads v = (current_write_verifier random (λ u. u) v).1
  use_once rotates v = rotate_write_verifier random v

  unfoldable pub use_all : List Use → VerifierState → VerifierState
  unfolding use_once
  use_all [] v = v
  use_all (u ∷ us) v = use_all us (use_once u v)

  abbrev pub OnlyReads : List Use → Type 0
  OnlyReads [] = Unit
  OnlyReads (reads ∷ us) = OnlyReads us
  OnlyReads (rotates ∷ us) = ⊥

  read_sets :
      (others : VerifierState → VerifierState) (v : VerifierState)
      → (current_write_verifier random others v).1.current
        ≡ some (current_write_verifier random others v).0
  unfolding current_write_verifier
  read_sets others v = ground arith

  reads_keep :
      (us : List Use) (v : VerifierState) (w : ℕ)
      → OnlyReads us
      → v.current ≡ some w
      → (use_all us v).current ≡ some w
  unfolding use_all
  reads_keep [] v w o h = h
  reads_keep (reads ∷ us) v w o h = reads_keep us _ w o (ground arith)
  reads_keep (rotates ∷ us) v w o h = absurd o

  -- Once a reply has carried a verifier, every later reply carries the same one, as long as no loss
  -- rotates it: also if other goroutines seeded the pointer in the middle of the first read.
  pub current_write_verifier-constant :
      (others later : VerifierState → VerifierState) (v : VerifierState) (us : List Use)
      → OnlyReads us
      → (current_write_verifier random later
          (use_all us (current_write_verifier random others v).1)).0
        ≡ (current_write_verifier random others v).0
  current_write_verifier-constant others later v us o =
      constant _ (reads_keep us _ _ o (read_sets others v))
    where
      constant :
          (u : VerifierState) {w : ℕ}
          → u.current ≡ some w
          → (current_write_verifier random later u).0 ≡ w
      constant u h = unfold current_write_verifier in ground arith

  -- After a rotation the next reply carries the new random number, however the pointer stood before.
  pub current_write_verifier-rotate :
      (others : VerifierState → VerifierState) (v : VerifierState)
      → (current_write_verifier random others (rotate_write_verifier random v)).0 ≡ random v.drawn
  unfolding current_write_verifier rotate_write_verifier
  current_write_verifier-rotate others v = refl

  -- The first reply of a server carries its configured ID if that is set, and a random number if it
  -- is not.
  pub current_write_verifier-seed :
      (v : VerifierState)
      → v.current ≡ none
      → (current_write_verifier random (λ u. u) v).0 ≡ (if v.id == 0 then random v.drawn else v.id)
  unfolding current_write_verifier
  current_write_verifier-seed v h = ground arith
