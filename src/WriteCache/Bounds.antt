-- ===== src/WriteCache/Bounds.antt =====
-- handlecache.go: a key is in the map once, and no more files are open than `maxSize`.
use go_nfs.Base.{
  ℕ, ◌-◌, ◌≤◌, ◌<◌, ◌≡◌, refl, Option, none, some, List, [], ◌∷◌, arith, if◌then◌else◌, ltb, leb,
  length, lookup, insert, HasUniqueKeys, Bool-cases, Option-cases, ◌⊎◌, inl, inr, length-delete,
  length-delete-le, length-insert_new, length-insert_old, insert-HasUniqueKeys,
  delete-HasUniqueKeys,
}
use go_nfs.Backend.{Backend}
use go_nfs.Errors.Chain.{Error}
use go_nfs.Handle.{Memory, sync_if_dirty, begin_commit}
use go_nfs.WriteCache.{
  WriteCache, evict_oldest_locked, drop_entry, set_entry, publish_locked, put, put_if_fresh, remove,
  remove_if, remove_and_track, invalidate, flush_dirty, flush_dirty_handle, flush_by_close,
  sweep_idle, sweep_from, close, after_await, await_commit,
}
use go_nfs.WriteCache.Calls.{Call, call, calls, after_flush}
use go_nfs.WriteCache.Evict.{evict_oldest_locked-oldest}

pub record IsBounded (c : WriteCache) : Type 0 where
  pub unique : HasUniqueKeys c.entries
  pub small : length c.entries ≤ c.max_size
  pub positive : 0 < c.max_size

pub drop_entry-IsBounded : (k : ℕ) (c : WriteCache) → IsBounded c → IsBounded (drop_entry k c)
drop_entry-IsBounded k c v = record {
  unique = delete-HasUniqueKeys k c.entries v.unique;
  small = omega (arith, length-delete-le k c.entries);
  positive = v.positive;
}

-- room for a key that is not there, or the key is there
abbrev pub HasRoom : ℕ → WriteCache → Type 0
HasRoom k c = (length c.entries < c.max_size) ⊎ ((p : ℕ) × (lookup k c.entries ≡ some p))

pub set_entry-IsBounded :
    (k p : ℕ) (c : WriteCache) → HasRoom k c → IsBounded c → IsBounded (set_entry k p c)
set_entry-IsBounded k p c room v = record {
  unique = insert-HasUniqueKeys k p c.entries v.unique;
  small = small room (Option-cases (lookup k c.entries));
  positive = v.positive;
}
  where
    small :
        HasRoom k c
        → (lookup k c.entries ≡ none) ⊎ ((q : ℕ) × (lookup k c.entries ≡ some q))
        → length (insert k p c.entries) ≤ c.max_size
    small r (inr (q, h)) = omega (arith, v.small, length-insert_old k p q c.entries h)
    small (inl r) (inl h) = omega (arith, v.small, length-insert_new k p c.entries h)
    small (inr (q, g)) (inl h) = cc

first_entry : (es : List (ℕ × ℕ)) → 0 < length es → (k : ℕ) × (p : ℕ) × (lookup k es ≡ some p)
unfolding lookup
first_entry [] h = absurd (omega arith)
first_entry ((k, p) ∷ es) h = (k, p, ground arith)

-- a full cache gives up an entry
pub evict-IsBounded :
    (used : ℕ → ℕ) (c : WriteCache)
    → IsBounded c
    → 0 < length c.entries
    → IsBounded (evict_oldest_locked used c).1
      × (length (evict_oldest_locked used c).1.entries < c.max_size)
      × ((evict_oldest_locked used c).1.max_size ≡ c.max_size)
evict-IsBounded used c v h =
    let (k, q, found) = first_entry c.entries h in
    let (key, p, e, at_key, _) = evict_oldest_locked-oldest used c k q v.unique found in
    rw e (
      drop_entry-IsBounded key c v,
      omega (arith, v.small, length-delete key p c.entries v.unique at_key),
      refl,
    )

module _ (b : Backend) where
  publish_locked-IsBounded :
      (k p : ℕ) (c : WriteCache) (m : Memory b)
      → IsBounded c
      → IsBounded (publish_locked b k p c m).1
  unfolding publish_locked
  publish_locked-IsBounded k p c m v = elim (Option-cases (lookup k c.entries)) [
    | inr (q, old) ↦ rw (old, publish_locked) (set_entry-IsBounded k p c (inr (q, old)) v)
    | inl new ↦ elim (Bool-cases (leb c.max_size (length c.entries))) [
      | inl full ↦
          let (v', room, size) =
            evict-IsBounded (λ q. (m.handles q).last_used) c v (ground (arith, v.positive)) in
          rw (new, full) (set_entry-IsBounded k p _ (inl (rw size room)) v')
      | inr space ↦ rw (new, space) (set_entry-IsBounded k p c (inl (ground arith)) v)
    ]
  ]

  put-IsBounded :
      (others : Memory b → Memory b) (k p : ℕ) (c : WriteCache) (m : Memory b)
      → IsBounded c
      → IsBounded (put b others k p c m).0
  unfolding put
  put-IsBounded others k p c m v = publish_locked-IsBounded k p c m v

  put_if_fresh-IsBounded :
      (others : Memory b → Memory b) (k p gen : ℕ) (c : WriteCache) (m : Memory b)
      → IsBounded c
      → IsBounded (put_if_fresh b others k p gen c m).1
  unfolding put_if_fresh
  put_if_fresh-IsBounded others k p gen c m v = ground (arith, v, put-IsBounded others k p c m v)

  remove_and_track-IsBounded :
      (k : ℕ) (c : WriteCache) (m : Memory b) → IsBounded c → IsBounded (remove_and_track b k c m).1
  unfolding remove_and_track
  remove_and_track-IsBounded k c m v = elim (Option-cases (lookup k c.entries)) [
    | inl absent ↦ rw (absent, remove_and_track) v
    | inr (p, found) ↦ rw (found, remove_and_track) (drop_entry-IsBounded k c v)
  ]

  remove_if-IsBounded : (k p : ℕ) (c : WriteCache) → IsBounded c → IsBounded (remove_if k p c).1
  unfolding remove_if
  remove_if-IsBounded k p c v = ground (arith, drop_entry-IsBounded k c v)

  invalidate-IsBounded :
      (k : ℕ) (c : WriteCache) (m : Memory b) → IsBounded c → IsBounded (invalidate b k c m).1
  unfolding invalidate
  invalidate-IsBounded k c m v =
      remove_and_track-IsBounded k _ m
        (record { unique = v.unique; small = v.small; positive = v.positive })

  flush_by_close-IsBounded :
      (k : ℕ) (c : WriteCache) (m : Memory b) → IsBounded c → IsBounded (flush_by_close b k c m).1
  unfolding flush_by_close
  flush_by_close-IsBounded k c m v = ground (arith, remove_and_track-IsBounded k c m v)

  after_await-IsBounded :
      (c d : WriteCache) (m : Memory b) (o : Option (Option Error × Memory b))
      → IsBounded c
      → IsBounded d
      → IsBounded (after_flush b d m (after_await b c o)).0
  after_await-IsBounded c d m none v w = w
  after_await-IsBounded c d m (some r) v w = v

  flush_dirty_handle-IsBounded :
      (others : Memory b → Memory b) (k p : ℕ) (c : WriteCache) (m : Memory b)
      → IsBounded c
      → IsBounded (after_flush b c m (flush_dirty_handle b others k p c m)).0
  unfolding flush_dirty_handle
  flush_dirty_handle-IsBounded others k p c m v =
      let r = sync_if_dirty b p m in
      ground (
        arith,
        after_await-IsBounded c c m (await_commit b others k r.4) v v,
        flush_by_close-IsBounded k c r.4 v,
      )

  flush_dirty-IsBounded :
      (others : Memory b → Memory b) (k : ℕ) (c : WriteCache) (m : Memory b)
      → IsBounded c
      → IsBounded (after_flush b c m (flush_dirty b others k c m)).0
  unfolding flush_dirty
  flush_dirty-IsBounded others k c m v = elim (Option-cases (lookup k c.entries)) [
    | inl absent ↦
        rw (absent, flush_dirty) (after_await-IsBounded c c m (await_commit b others k m) v v)
    | inr (p, found) ↦ rw (found, flush_dirty) (flush_dirty_handle-IsBounded others k p c m v)
  ]

  sweep_from-absent :
      (cutoff k : ℕ) (es : List (ℕ × ℕ)) (m : Memory b)
      → lookup k es ≡ none
      → lookup k (sweep_from b cutoff es m).1 ≡ none
  unfolding sweep_from lookup
  sweep_from-absent cutoff k [] m h = refl
  sweep_from-absent cutoff k ((j, p) ∷ es) m h =
      let idle = ltb (m.handles p).last_used cutoff in
      let next = if idle then (begin_commit b j m).1 else m in
      ground (arith, sweep_from-absent cutoff k es next)

  sweep_from-kept :
      (cutoff : ℕ) (es : List (ℕ × ℕ)) (m : Memory b)
      → HasUniqueKeys es
      → HasUniqueKeys (sweep_from b cutoff es m).1
        × (length (sweep_from b cutoff es m).1 ≤ length es)
  unfolding sweep_from
  sweep_from-kept cutoff [] m u = (tt, omega arith)
  sweep_from-kept cutoff ((j, p) ∷ es) m u =
      let idle = ltb (m.handles p).last_used cutoff in
      let next = if idle then (begin_commit b j m).1 else m in
      ground (arith, sweep_from-kept cutoff es next, sweep_from-absent cutoff j es next)

  sweep_idle-IsBounded :
      (others : Memory b → Memory b) (now : ℕ) (c : WriteCache) (m : Memory b)
      → IsBounded c
      → IsBounded (sweep_idle b others now c m).0
  unfolding sweep_idle
  sweep_idle-IsBounded others now c m v =
      let (unique, small) = sweep_from-kept (now - c.idle) c.entries m v.unique in
      record { unique = unique; small = omega (arith, v.small); positive = v.positive }

  call-IsBounded :
      (x : Call b) (c : WriteCache) (m : Memory b) → IsBounded c → IsBounded (call b x c m).0
  unfolding call
  call-IsBounded (Call.put others k p) c m v = put-IsBounded others k p c m v
  call-IsBounded (Call.put_if_fresh others k p gen) c m v =
      put_if_fresh-IsBounded others k p gen c m v
  call-IsBounded (Call.remove k) c m v = unfold remove in drop_entry-IsBounded k c v
  call-IsBounded (Call.remove_if k p) c m v = remove_if-IsBounded k p c v
  call-IsBounded (Call.remove_and_track k) c m v = remove_and_track-IsBounded k c m v
  call-IsBounded (Call.invalidate k) c m v = invalidate-IsBounded k c m v
  call-IsBounded (Call.flush_dirty others k) c m v = flush_dirty-IsBounded others k c m v
  call-IsBounded (Call.sweep_idle others now) c m v = sweep_idle-IsBounded others now c m v
  call-IsBounded (Call.close others) c m v =
      unfold close in record { unique = tt; small = omega arith; positive = v.positive }
  call-IsBounded (Call.elsewhere others) c m v = v

  -- Whatever calls are made of a cache that has each key once and at most `maxSize` files, in any
  -- order and with any interference, a key never has two entries and never more than `maxSize`
  -- files are in the cache, where `maxSize` is positive.
  pub calls-IsBounded :
      (xs : List (Call b)) (c : WriteCache) (m : Memory b)
      → IsBounded c
      → IsBounded (calls b xs c m).0
  unfolding calls
  calls-IsBounded [] c m v = v
  calls-IsBounded (x ∷ xs) c m v =
      let (c', m') = call b x c m in calls-IsBounded xs c' m' (call-IsBounded x c m v)
