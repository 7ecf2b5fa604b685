-- ===== src/WriteCache.antt =====
-- handlecache.go: writeCache, the open files that a connection keeps for unstable writes. `entries`
-- lists the map in the order of one iteration over it.
pub mod Calls
pub mod Bounds
pub mod Evict
pub mod Fresh
pub mod Flushes
use go_nfs.Base.{
  ℕ, suc, ◌+◌, ◌-◌, ◌%◌, ◌^◌, Bool, true, false, ◌&&◌, ◌||◌, not, Option, none, some, List, [], ◌∷◌,
  ◌++◌, if◌then◌else◌, ltb, leb, ◌==◌, length, lookup, insert, delete,
}
use go_nfs.Errors.Chain.{Error}
use go_nfs.Backend.{Backend}
use go_nfs.Handle.{
  Memory, is_some, evict_flush, sync_if_dirty, lost_err, begin_commit, finish_commit,
}
use go_nfs.Tracker
use go_nfs.Tracker.{Poll}
use go_nfs.Words.{u64}

pub record WriteCache : Type 0 where
  pub entries : List (ℕ × ℕ)  -- key, pointer to the handle
  pub max_size : ℕ
  pub idle : ℕ  -- a duration, in nanoseconds
  pub gen : ℕ  -- uint64

abbrev pub default_handle_cache_size : ℕ
default_handle_cache_size = 256

-- 30 seconds
abbrev pub default_handle_idle : ℕ
default_handle_idle = 30_000_000_000

-- newWriteCache
abbrev pub new_write_cache : WriteCache
new_write_cache = record {
  entries = [];
  max_size = default_handle_cache_size;
  idle = default_handle_idle;
  gen = 0;
}

-- get
unfoldable pub get : ℕ → WriteCache → Option ℕ
get key c = lookup key c.entries

-- sampleGen
unfoldable pub sample_gen : WriteCache → ℕ
sample_gen c = c.gen

-- the oldest entry so far in the loop of evictOldestLocked: key, pointer, last use
abbrev pub Oldest : Type 0
Oldest = Option (ℕ × ℕ × ℕ)

unfoldable pub keep_older : ℕ → ℕ → ℕ → Oldest → Oldest
keep_older key p used none = some (key, p, used)
keep_older key p used (some (key', p', used')) =
    if ltb used used' then some (key, p, used) else some (key', p', used')

-- the loop of evictOldestLocked; `used` reads the last use of a handle
unfoldable pub oldest_from : (ℕ → ℕ) → List (ℕ × ℕ) → Oldest → Oldest
unfolding keep_older
oldest_from used [] best = best
oldest_from used ((key, p) ∷ es) best = oldest_from used es (keep_older key p (used p) best)

-- evictOldestLocked: the victim, and the cache without it
unfoldable pub evict_oldest_locked : (ℕ → ℕ) → WriteCache → Option (ℕ × ℕ) × WriteCache
unfolding oldest_from
evict_oldest_locked used c = elim (oldest_from used c.entries none) [
  | none ↦ (none, c)
  | some (key, p, at) ↦ (some (key, p), record c { entries = delete key c.entries })
]

-- a removal from the map by key
abbrev pub drop_entry : ℕ → WriteCache → WriteCache
drop_entry key c = record c { entries = delete key c.entries }

-- c.entries[key] = h
abbrev pub set_entry : ℕ → ℕ → WriteCache → WriteCache
set_entry key p c = record c { entries = insert key p c.entries }

-- removeIf
unfoldable pub remove_if : ℕ → ℕ → WriteCache → Bool × WriteCache
remove_if key p c = elim (lookup key c.entries) [
  | none ↦ (false, c)
  | some q ↦ if q == p then (true, drop_entry key c) else (false, c)
]

-- remove
unfoldable pub remove : ℕ → WriteCache → Option ℕ × WriteCache
remove key c = (lookup key c.entries, drop_entry key c)

module _ (b : Backend) where
  -- the victim and its marker, once it has left the entries
  unfoldable pub begin_victim : Option (ℕ × ℕ) → Memory b → Option (ℕ × ℕ × ℕ) × Memory b
  unfolding begin_commit
  begin_victim none m = (none, m)
  begin_victim (some (key, p)) m =
      let (done, m') = begin_commit b key m in (some (key, p, done), m')

  -- publishLocked: the victim with its marker, if there is one
  unfoldable pub publish_locked :
      ℕ → ℕ → WriteCache → Memory b → Option (ℕ × ℕ × ℕ) × WriteCache × Memory b
  unfolding begin_victim evict_oldest_locked
  publish_locked key p c m =
      if not (is_some (lookup key c.entries)) && leb c.max_size (length c.entries)
      then (let (victim, c') = evict_oldest_locked (λ q. (m.handles q).last_used) c in
          let (marked, m') = begin_victim victim m in (marked, set_entry key p c', m'))
      else (none, set_entry key p c, m)

  -- the flush of a handle that has left the cache, and its result for the tracker
  unfoldable pub flush_out : ℕ → ℕ → ℕ → Memory b → Option Error × Memory b
  flush_out key p done m =
      let (lost, e, m') = evict_flush b p m in (e, finish_commit b key done (lost_err lost e) m')

  unfoldable pub flush_victim : Option (ℕ × ℕ × ℕ) → Memory b → Memory b
  unfolding flush_out
  flush_victim none m = m
  flush_victim (some (key, p, done)) m = (flush_out key p done m).1

  -- put; `others` is what other goroutines do between the unlock and the flush of the victim
  unfoldable pub put : (Memory b → Memory b) → ℕ → ℕ → WriteCache → Memory b → WriteCache × Memory b
  unfolding publish_locked flush_victim
  put others key p c m =
      let (victim, c', m') = publish_locked key p c m in (c', flush_victim victim (others m'))

  -- putIfFresh
  unfoldable pub put_if_fresh :
      (Memory b → Memory b) → ℕ → ℕ → ℕ → WriteCache → Memory b → Bool × WriteCache × Memory b
  unfolding put
  put_if_fresh others key p gen c m =
      if not (c.gen == gen) || is_some (lookup key c.entries)
      then (false, c, m)
      else (let (c', m') = put others key p c m in (true, c', m'))

  -- removeAndTrack: the handle and its marker
  unfoldable pub remove_and_track :
      ℕ → WriteCache → Memory b → Option (ℕ × ℕ) × WriteCache × Memory b
  unfolding begin_commit
  remove_and_track key c m = elim (lookup key c.entries) [
    | none ↦ (none, c, m)
    | some p ↦ (let (done, m') = begin_commit b key m in (some (p, done), drop_entry key c, m'))
  ]

  -- invalidate
  unfoldable pub invalidate : ℕ → WriteCache → Memory b → Option (ℕ × ℕ) × WriteCache × Memory b
  unfolding remove_and_track
  invalidate key c m = remove_and_track key (record c { gen = u64 (c.gen + 1) }) m

  -- await and wait of the tracker, at the moment when they return: `others` is what other goroutines
  -- do until then, and `none` is a call that is still blocked
  unfoldable pub resolve_commit :
      Bool → (Memory b → Memory b) → ℕ → Memory b → Option (Option Error × Memory b)
  resolve_commit consume others key m =
      let m' = others m in
      let (p, t) = Tracker.poll key consume m'.commits in
      elim p [ Poll.returns e ↦ some (e, record m' { commits = t }) | Poll.blocks ch ↦ none ]

  unfoldable pub await_commit :
      (Memory b → Memory b) → ℕ → Memory b → Option (Option Error × Memory b)
  unfolding resolve_commit
  await_commit = resolve_commit false

  -- takeCommitErr too
  unfoldable pub wait_commit :
      (Memory b → Memory b) → ℕ → Memory b → Option (Option Error × Memory b)
  unfolding resolve_commit
  wait_commit = resolve_commit true

  -- the end of flushDirty for a handle that cannot sync: close it and take it out
  unfoldable pub flush_by_close : ℕ → WriteCache → Memory b → Option Error × WriteCache × Memory b
  unfolding remove_and_track flush_out
  flush_by_close key c m =
      let (dropped, c', m') = remove_and_track key c m in
      elim dropped [
        | none ↦ (none, c', m')
        | some (p, done) ↦ (let (e, m'') = flush_out key p done m' in (e, c', m''))
      ]

  -- the answers of flushDirty after an await: (flushed, err)
  abbrev pub after_await :
      WriteCache
      → Option (Option Error × Memory b)
      → Option (Bool × Option Error × WriteCache × Memory b)
  after_await c none = none
  after_await c (some (e, m)) = some (is_some e, e, c, m)

  -- flushDirty of the handle that `get` found
  unfoldable pub flush_dirty_handle :
      (Memory b → Memory b)
      → ℕ
      → ℕ
      → WriteCache
      → Memory b
      → Option (Bool × Option Error × WriteCache × Memory b)
  unfolding await_commit flush_by_close
  flush_dirty_handle others key p c m =
      let (dirty, synced, closed, serr, m') = sync_if_dirty b p m in
      if closed
      then after_await c (await_commit others key m')
      else if not dirty
      then some (false, none, c, m')
      else if is_some serr
      then some (true, serr, c, m')
      else if synced
      then some (true, none, c, m')
      else let (e, c', m'') = flush_by_close key c m' in some (true, e, c', m'')

  -- flushDirty
  unfoldable pub flush_dirty :
      (Memory b → Memory b)
      → ℕ
      → WriteCache
      → Memory b
      → Option (Bool × Option Error × WriteCache × Memory b)
  unfolding flush_dirty_handle
  flush_dirty others key c m = elim (lookup key c.entries) [
    | none ↦ after_await c (await_commit others key m)
    | some p ↦ flush_dirty_handle others key p c m
  ]

  -- The entries that leave the cache in sweepIdle and Close, each with its marker.
  abbrev pub Detached : Type 0
  Detached = List (ℕ × ℕ × ℕ)

  -- the second loop of sweepIdle and of Close
  unfoldable pub flush_detached : Detached → Memory b → Memory b
  unfolding flush_out
  flush_detached [] m = m
  flush_detached ((key, p, done) ∷ es) m = flush_detached es (flush_out key p done m).1

  -- the first loop of sweepIdle: what goes, what stays
  unfoldable pub sweep_from : ℕ → List (ℕ × ℕ) → Memory b → Detached × List (ℕ × ℕ) × Memory b
  unfolding begin_commit
  sweep_from cutoff [] m = ([], [], m)
  sweep_from cutoff ((key, p) ∷ es) m =
      let idle = ltb (m.handles p).last_used cutoff in
      let begun = begin_commit b key m in
      let (gone, kept, m') = sweep_from cutoff es (if idle then begun.1 else m) in
      if idle then ((key, p, begun.0) ∷ gone, kept, m') else (gone, (key, p) ∷ kept, m')

  -- sweepIdle
  unfoldable pub sweep_idle :
      (Memory b → Memory b) → ℕ → WriteCache → Memory b → WriteCache × Memory b
  unfolding sweep_from flush_detached
  sweep_idle others now c m =
      let (gone, kept, m') = sweep_from (now - c.idle) c.entries m in
      (record c { entries = kept }, flush_detached gone (others m'))

  -- the first loop of Close
  unfoldable pub detach_all : List (ℕ × ℕ) → Memory b → Detached × Memory b
  unfolding begin_commit
  detach_all [] m = ([], m)
  detach_all ((key, p) ∷ es) m =
      let (done, m') = begin_commit b key m in
      let (all, m'') = detach_all es m' in ((key, p, done) ∷ all, m'')

  -- Close
  unfoldable pub close : (Memory b → Memory b) → WriteCache → Memory b → WriteCache × Memory b
  unfolding detach_all flush_detached
  close others c m =
      let (all, m') = detach_all c.entries m in
      (record c { entries = [] }, flush_detached all (others m'))
