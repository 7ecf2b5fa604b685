-- ===== src/Handle.antt =====
-- handlecache.go: cachedHandle, an open file that is kept across WRITE requests. A handle is a
-- pointer; what it points to is in `handles` of the memory that all connections share.
pub mod Laws
use go_nfs.Base.{
  ℕ, suc, ◌<◌, Bool, true, false, ◌&&◌, Option, none, some, List, if◌then◌else◌, ltb, update,
}
use go_nfs.Errors.Chain.{Error, err_handle_closed, Result, ok, err}
use go_nfs.Backend.{Backend}
use go_nfs.Tracker
pub use go_nfs.Memory.{CachedHandle, Memory}

abbrev pub to_option {ℓ} : {A : Type ℓ} → Result A → Option A
to_option (ok a) = some a
to_option (err e) = none

abbrev pub is_some {ℓ} : {A : Type ℓ} → Option A → Bool
is_some none = false
is_some (some a) = true

-- lostErr
unfoldable pub lost_err : Bool → Option Error → Option Error
lost_err lost e = if lost then e else none

module _ (b : Backend) where
  -- &cachedHandle{file: file, lastUsed: now}
  unfoldable pub new_handle : ℕ → ℕ → Memory b → ℕ × Memory b
  new_handle file now m = (
    m.allocated,
    record m {
      handles =
          update m.handles m.allocated
            (record { file = file; dirty = false; last_used = now; closed = false });
      allocated = suc m.allocated;
    },
  )

  -- the write of writeAt, once the seek has succeeded
  unfoldable pub write_sought : ℕ → List ℕ → ℕ → Memory b → ℕ × Option Error × Memory b
  write_sought p bytes now m =
      let h = m.handles p in
      let (n, e, w) = b.write h.file bytes m.world in
      (
        n,
        e,
        record m {
          world = w;
          handles =
              if ltb 0 n
              then update m.handles p (record h { dirty = true; last_used = now })
              else m.handles;
        },
      )

  -- writeAt; `now` is the reading of the clock
  unfoldable pub write_at : ℕ → List ℕ → ℕ → ℕ → Memory b → ℕ × Option Error × Memory b
  unfolding write_sought
  write_at p bytes offset now m =
      let h = m.handles p in
      if h.closed
      then (0, some err_handle_closed, m)
      else let (e, w) = b.seek h.file offset m.world in
        elim e [
          | some x ↦ (0, some x, record m { world = w })
          | none ↦ write_sought p bytes now (record m { world = w })
        ]

  -- stat; `none` is (nil, false)
  unfoldable pub stat : ℕ → Memory b → Option b.Info
  stat p m =
      let h = m.handles p in
      if h.closed
      then none
      else if b.can_stat h.file
      then to_option (b.fstat h.file m.world)
      else none

  -- the call of Sync of an open handle, and what it leaves
  unfoldable pub sync_file : ℕ → Memory b → Option Error × Memory b
  sync_file p m =
      let h = m.handles p in
      let (e, w) = b.sync h.file m.world in
      elim e [
        | some x ↦ (some x, record m { world = w })
        | none ↦ (
          none,
          record m { world = w; handles = update m.handles p (record h { dirty = false }) },
        )
      ]

  -- sync: (synced, err)
  unfoldable pub sync : ℕ → Memory b → Bool × Option Error × Memory b
  unfolding sync_file
  sync p m =
      let h = m.handles p in
      if h.closed
      then (false, some err_handle_closed, m)
      else if b.can_sync h.file
      then (let (e, m') = sync_file p m in (true, e, m'))
      else (false, none, m)

  -- syncIfDirty: (dirty, synced, closed, err)
  unfoldable pub sync_if_dirty : ℕ → Memory b → Bool × Bool × Bool × Option Error × Memory b
  unfolding sync_file
  sync_if_dirty p m =
      let h = m.handles p in
      if h.closed
      then (false, false, true, none, m)
      else if h.dirty
      then (if b.can_sync h.file
          then (let (e, m') = sync_file p m in (true, true, false, e, m'))
          else (true, false, false, none, m))
      else (false, false, false, none, m)

  -- the close of an open handle
  unfoldable pub close_file : ℕ → Memory b → Option Error × Memory b
  close_file p m =
      let h = m.handles p in
      let (e, w) = b.close h.file m.world in
      (
        e,
        record m {
          world = w;
          handles = update m.handles p (record h { closed = true; dirty = false });
        },
      )

  -- closeFlush
  unfoldable pub close_flush : ℕ → Memory b → Option Error × Memory b
  unfolding close_file
  close_flush p m = if (m.handles p).closed then (none, m) else close_file p m

  -- evictFlush: (lostDirty, err)
  unfoldable pub evict_flush : ℕ → Memory b → Bool × Option Error × Memory b
  unfolding close_file
  evict_flush p m =
      let h = m.handles p in
      if h.closed
      then (false, none, m)
      else let (e, m') = close_file p m in (h.dirty && is_some e, e, m')

  -- commits.begin
  unfoldable pub begin_commit : ℕ → Memory b → ℕ × Memory b
  begin_commit key m = let (ch, t) = Tracker.begin key m.commits in (ch, record m { commits = t })

  -- commits.finish
  unfoldable pub finish_commit : ℕ → ℕ → Option Error → Memory b → Memory b
  finish_commit key ch e m =
      let (t, v) = Tracker.finish m.on_loss key ch e m.commits m.verifier in
      record m { commits = t; verifier = v }
