-- ===== src/Memory.antt =====
-- handlecache.go, readcache.go, server.go: the state that the connections of a server share.
use go_nfs.Base.{ℕ, Bool, Option}
use go_nfs.Backend.{Backend}
use go_nfs.Tracker.{Tracker}
use go_nfs.Verifier.{VerifierState}

pub record CachedHandle : Type 0 where
  pub file : ℕ
  pub dirty : Bool
  pub last_used : ℕ  -- time.Time, in nanoseconds
  pub closed : Bool

pub record ReadHandle : Type 0 where
  pub file : ℕ
  pub closed : Bool
  pub last_used : ℕ  -- UnixNano

-- What the goroutines of the server share: the file system, the handles, the tracker with its loss
-- callback, and the verifier that the callback rotates.
pub record Memory (b : Backend) : Type 0 where
  pub world : b.World
  pub handles : ℕ → CachedHandle
  pub allocated : ℕ  -- the next pointer
  pub readers : ℕ → ReadHandle
  pub readers_allocated : ℕ
  pub commits : Tracker
  pub on_loss : Option (VerifierState → VerifierState)
  pub verifier : VerifierState
