-- ===== src/Handle/Laws.antt =====
-- handlecache.go: what each operation of cachedHandle does on every branch.
use go_nfs.Base.{
  ℕ, ◌≡◌, ◌≢◌, ◌↔◌, true, false, ◌||◌, none, some, List, arith, if◌then◌else◌, ltb, ◌==◌,
}
use go_nfs.Errors.Chain.{err_handle_closed}
use go_nfs.Backend.{Backend}
use go_nfs.Handle.{Memory, write_at, stat, sync, sync_if_dirty, close_flush, evict_flush}

module _ (b : Backend) (p : ℕ) (m : Memory b) where
  -- Once a handle is closed no operation touches its file, the file system or any handle: a write
  -- and a sync report errHandleClosed, stat finds nothing, and a second close does nothing.
  pub closed-no_effect :
      (bytes : List ℕ) (offset now : ℕ)
      → (m.handles p).closed ≡ true
      → (write_at b p bytes offset now m ≡ (0, some err_handle_closed, m))
        × (sync b p m ≡ (false, some err_handle_closed, m))
        × (stat b p m ≡ none)
        × (sync_if_dirty b p m ≡ (false, false, true, none, m))
        × (close_flush b p m ≡ (none, m))
        × (evict_flush b p m ≡ (false, none, m))
  unfolding write_at sync stat sync_if_dirty close_flush evict_flush
  closed-no_effect bytes offset now h = (rw h, rw h, rw h, rw h, rw h, rw h)

  -- An eviction reports a loss exactly if the handle was open, held unflushed writes, and its close
  -- failed.
  pub evict_flush-lost : ((evict_flush b p m).0 ≡ true) ↔ (
      ((m.handles p).closed ≡ false)
      × ((m.handles p).dirty ≡ true)
      × ((b.close (m.handles p).file m.world).0 ≢ none))
  unfolding evict_flush
  evict_flush-lost = ground arith

  -- After an eviction the handle is closed, every other handle is open or closed as it was, and no
  -- handle has another file.
  pub evict_flush-closed :
      (q : ℕ)
      → (((evict_flush b p m).2.handles q).closed ≡ (if p == q then true else (m.handles q).closed))
        × (((evict_flush b p m).2.handles q).file ≡ (m.handles q).file)
  unfolding evict_flush
  evict_flush-closed q = ground arith

  -- A write leaves the handle dirty if it was so or if some bytes were written, and clean if not;
  -- it never closes it.
  pub write_at-dirty :
      (bytes : List ℕ) (offset now : ℕ)
      → let r = write_at b p bytes offset now m in
        ((r.2.handles p).dirty ≡ ((m.handles p).dirty || ltb 0 r.0))
        × ((r.2.handles p).closed ≡ (m.handles p).closed)
  unfolding write_at
  write_at-dirty bytes offset now = ground arith

  -- syncIfDirty without an error leaves an open handle that can sync with nothing unflushed.
  pub sync_if_dirty-clean :
      (m.handles p).closed ≡ false
      → b.can_sync (m.handles p).file ≡ true
      → (sync_if_dirty b p m).3 ≡ none
      → ((sync_if_dirty b p m).4.handles p).dirty ≡ false
  unfolding sync_if_dirty
  sync_if_dirty-clean o c e = ground arith
