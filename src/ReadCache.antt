-- ===== src/ReadCache.antt =====
-- readcache.go: readCache, the read-only files that a connection keeps, and their handles. The
-- structure has the fields of writeCache, and the loop of evictOldestLocked is the same.
pub mod Laws
use go_nfs.Base.{
  ℕ, suc, ◌+◌, ◌-◌, Bool, true, false, ◌&&◌, ◌||◌, not, Option, none, some, List, [], ◌∷◌,
  if◌then◌else◌, ltb, leb, ◌==◌, length, lookup, update,
}
use go_nfs.Errors.Chain.{Error, err_handle_closed, Result}
use go_nfs.Backend.{Backend}
use go_nfs.Memory.{Memory, ReadHandle}
use go_nfs.Handle.{is_some, to_option}
use go_nfs.WriteCache
use go_nfs.WriteCache.{WriteCache, evict_oldest_locked, drop_entry, set_entry}
use go_nfs.Words.{u64}

abbrev pub ReadCache : Type 0
ReadCache = WriteCache

-- newReadCache
abbrev pub new_read_cache : ReadCache
new_read_cache = WriteCache.new_write_cache

-- get
unfoldable pub get : ℕ → ReadCache → Option ℕ
get key c = lookup key c.entries

-- sampleGen
unfoldable pub sample_gen : ReadCache → ℕ
sample_gen c = c.gen

-- removeIf
unfoldable pub remove_if : ℕ → ℕ → ReadCache → Bool × ReadCache
remove_if key p c = elim (lookup key c.entries) [
  | none ↦ (false, c)
  | some q ↦ if q == p then (true, drop_entry key c) else (false, c)
]

-- invalidate
unfoldable pub invalidate : ℕ → ReadCache → Option ℕ × ReadCache
invalidate key c = (lookup key c.entries, drop_entry key (record c { gen = u64 (c.gen + 1) }))

abbrev pub pointers : List (ℕ × ℕ) → List ℕ
pointers [] = []
pointers ((key, p) ∷ es) = p ∷ pointers es

module _ (b : Backend) where
  -- &readHandle{file: file}, with lastUsed stored
  unfoldable pub new_reader : ℕ → ℕ → Memory b → ℕ × Memory b
  new_reader file now m = (
    m.readers_allocated,
    record m {
      readers =
          update m.readers m.readers_allocated
            (record { file = file; closed = false; last_used = now });
      readers_allocated = suc m.readers_allocated;
    },
  )

  -- readAt: the bytes read and the error; `room` is the length of the buffer
  unfoldable pub read_at : ℕ → ℕ → ℕ → ℕ → Memory b → List ℕ × Option Error × Memory b
  read_at p room offset now m =
      let h = m.readers p in
      if h.closed
      then ([], some err_handle_closed, m)
      else let (bytes, e, w) = b.read_at h.file room offset m.world in
        (
          bytes,
          e,
          record m { world = w; readers = update m.readers p (record h { last_used = now }) },
        )

  -- stat; `none` is (nil, false)
  unfoldable pub stat : ℕ → Memory b → Option b.Info
  stat p m =
      let h = m.readers p in
      if h.closed
      then none
      else if b.can_stat h.file
      then to_option (b.fstat h.file m.world)
      else none

  -- readHandle.close
  unfoldable pub close_reader : ℕ → Memory b → Option Error × Memory b
  close_reader p m =
      let h = m.readers p in
      if h.closed
      then (none, m)
      else let (e, w) = b.close h.file m.world in
        (e, record m { world = w; readers = update m.readers p (record h { closed = true }) })

  -- publishLocked: the victim, and the cache
  unfoldable pub publish_locked : ℕ → ℕ → ReadCache → Memory b → Option ℕ × ReadCache
  unfolding evict_oldest_locked
  publish_locked key p c m =
      if not (is_some (lookup key c.entries)) && leb c.max_size (length c.entries)
      then (let (victim, c') = evict_oldest_locked (λ q. (m.readers q).last_used) c in
          (elim victim [ none ↦ none | some (k, q) ↦ some q ], set_entry key p c'))
      else (none, set_entry key p c)

  unfoldable pub close_victim : Option ℕ → Memory b → Memory b
  unfolding close_reader
  close_victim none m = m
  close_victim (some q) m = (close_reader q m).1

  -- put; `others` is what other goroutines do between the unlock and the close of the victim
  unfoldable pub put : (Memory b → Memory b) → ℕ → ℕ → ReadCache → Memory b → ReadCache × Memory b
  unfolding publish_locked close_victim
  put others key p c m =
      let (victim, c') = publish_locked key p c m in (c', close_victim victim (others m))

  -- putIfFresh
  unfoldable pub put_if_fresh :
      (Memory b → Memory b) → ℕ → ℕ → ℕ → ReadCache → Memory b → Bool × ReadCache × Memory b
  unfolding put
  put_if_fresh others key p gen c m =
      if not (c.gen == gen) || is_some (lookup key c.entries)
      then (false, c, m)
      else (let (c', m') = put others key p c m in (true, c', m'))

  -- the second loop of sweepIdle and the loop of Close
  unfoldable pub close_all : List ℕ → Memory b → Memory b
  unfolding close_reader
  close_all [] m = m
  close_all (p ∷ ps) m = close_all ps (close_reader p m).1

  -- the first loop of sweepIdle: what goes, what stays
  unfoldable pub sweep_from : ℕ → List (ℕ × ℕ) → Memory b → List ℕ × List (ℕ × ℕ)
  sweep_from cutoff [] m = ([], [])
  sweep_from cutoff ((key, p) ∷ es) m =
      let (gone, kept) = sweep_from cutoff es m in
      if ltb (m.readers p).last_used cutoff then (p ∷ gone, kept) else (gone, (key, p) ∷ kept)

  -- sweepIdle
  unfoldable pub sweep_idle :
      (Memory b → Memory b) → ℕ → ReadCache → Memory b → ReadCache × Memory b
  unfolding sweep_from close_all
  sweep_idle others now c m =
      let (gone, kept) = sweep_from (now - c.idle) c.entries m in
      (record c { entries = kept }, close_all gone (others m))

  -- Close
  unfoldable pub close : (Memory b → Memory b) → ReadCache → Memory b → ReadCache × Memory b
  unfolding close_all
  close others c m = (record c { entries = [] }, close_all (pointers c.entries) (others m))
