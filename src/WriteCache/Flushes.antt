-- ===== src/WriteCache/Flushes.antt =====
-- handlecache.go: what the flush of a detached handle leaves for a later COMMIT.
use go_nfs.Base.{ℕ, ◌≡◌, refl, true, false, ◌&&◌, arith, if◌then◌else◌, ◌==◌}
use go_nfs.Backend.{Backend}
use go_nfs.Handle.{Memory, evict_flush, begin_commit, finish_commit, lost_err}
use go_nfs.Tracker.{begin, finish, stash}
use go_nfs.WriteCache.{flush_out}

module _ (b : Backend) where
  -- the handle holds unflushed writes
  abbrev pub IsDirty : ℕ → Memory b → Type 0
  IsDirty p m = ((m.handles p).closed ≡ false) × ((m.handles p).dirty ≡ true)

  pub flush_out-errs :
      (key p done : ℕ) (m : Memory b)
      → (flush_out b key p done m).1.commits.errs
        ≡ stash m.commits.errs key (lost_err (evict_flush b p m).0 (evict_flush b p m).1)
  unfolding flush_out finish_commit finish evict_flush
  flush_out-errs key p done m = ground arith

  pub evict_flush-loss :
      (p : ℕ) (m : Memory b)
      → IsDirty p m
      → lost_err (evict_flush b p m).0 (evict_flush b p m).1
        ≡ (b.close (m.handles p).file m.world).0
  unfolding evict_flush lost_err
  evict_flush-loss p m d = ground arith

  pub flush_out-handles :
      (key p done q : ℕ) (m : Memory b)
      → (flush_out b key p done m).1.handles q ≡ (
          if p == q && (if (m.handles p).closed then false else true)
          then record (m.handles p) { closed = true; dirty = false }
          else m.handles q)
  unfolding flush_out finish_commit evict_flush
  flush_out-handles key p done q m = ground arith

  pub begin_commit-errs :
      (key : ℕ) (m : Memory b)
      → ((begin_commit b key m).1.commits.errs ≡ m.commits.errs)
        × ((begin_commit b key m).1.handles ≡ m.handles)
        × ((begin_commit b key m).1.world ≡ m.world)
  unfolding begin_commit begin
  begin_commit-errs key m = (refl, refl, refl)

  -- An eviction of a handle with unflushed writes whose close fails leaves that error for the key;
  -- one that loses nothing leaves all errors as they were.
  pub flush_out-records :
      (key p done : ℕ) (m : Memory b)
      → IsDirty p m
      → (flush_out b key p done m).1.commits.errs
        ≡ stash m.commits.errs key (b.close (m.handles p).file m.world).0
  flush_out-records key p done m d = rw (flush_out-errs, evict_flush-loss p m d)
