-- ===== src/ReadCache/Laws.antt =====
-- readcache.go: no file stays open that no entry owns.
use go_nfs.Base.{
  ℕ, ◌-◌, ◌≡◌, refl, ◌↔◌, true, ◌&&◌, ◌||◌, none, some, List, [], ◌∷◌, arith, if◌then◌else◌, ltb,
  leb, ◌==◌, length, lookup, lookup-delete, HasUniqueKeys, Bool-cases, Option-cases, inl, inr,
}
use go_nfs.Backend.{Backend}
use go_nfs.Memory.{Memory}
use go_nfs.Tracker.Sets.{elem}
use go_nfs.WriteCache.Bounds.{IsBounded, evict-IsBounded, set_entry-IsBounded}
use go_nfs.ReadCache.{
  ReadCache, get, remove_if, close_reader, publish_locked, put_if_fresh, put, close_all, sweep_from,
  sweep_idle, pointers, close,
}

-- removeIf takes the entry out exactly if it is the given handle, and touches no other entry.
pub remove_if-own :
    (key p j : ℕ) (c : ReadCache)
    → let r = remove_if key p c in
      ((r.0 ≡ true) ↔ (get key c ≡ some p))
      × (get j r.1 ≡ (if r.0 && key == j then none else get j c))
unfolding remove_if get
remove_if-own key p j c = ground (arith, lookup-delete key j c.entries)

module _ (b : Backend) where
  publish_locked-IsBounded :
      (k p : ℕ) (c : ReadCache) (m : Memory b)
      → IsBounded c
      → IsBounded (publish_locked b k p c m).1
  unfolding publish_locked
  publish_locked-IsBounded k p c m v = elim (Option-cases (lookup k c.entries)) [
    | inr (q, old) ↦ rw (old, publish_locked) (set_entry-IsBounded k p c (inr (q, old)) v)
    | inl new ↦ elim (Bool-cases (leb c.max_size (length c.entries))) [
      | inl full ↦
          let (v', room, size) =
            evict-IsBounded (λ q. (m.readers q).last_used) c v (ground (arith, v.positive)) in
          rw (new, full) (set_entry-IsBounded k p _ (inl (rw size room)) v')
      | inr space ↦ rw (new, space) (set_entry-IsBounded k p c (inl (ground arith)) v)
    ]
  ]

  -- putIfFresh keeps each key once and at most `maxSize` files, on every branch, in a cache that is
  -- so and whose `maxSize` is positive.
  pub read_put_if_fresh-IsBounded :
      (others : Memory b → Memory b) (k p gen : ℕ) (c : ReadCache) (m : Memory b)
      → IsBounded c
      → IsBounded (put_if_fresh b others k p gen c m).1
  unfolding put_if_fresh put
  read_put_if_fresh-IsBounded others k p gen c m v =
      ground (arith, v, publish_locked-IsBounded k p c m v)

  close_reader-closed :
      (p q : ℕ) (m : Memory b)
      → ((close_reader b p m).1.readers q).closed ≡ (if p == q then true else (m.readers q).closed)
  unfolding close_reader
  close_reader-closed p q m = ground arith

  close_all-closed :
      (ps : List ℕ) (q : ℕ) (m : Memory b)
      → ((close_all b ps m).readers q).closed ≡ (elem q ps || (m.readers q).closed)
  unfolding close_all elem
  close_all-closed [] q m = refl
  close_all-closed (p ∷ ps) q m =
      ground (arith, close_all-closed ps q (close_reader b p m).1, close_reader-closed p q m)

  elem-pointers : (k p : ℕ) (es : List (ℕ × ℕ)) → lookup k es ≡ some p → elem p (pointers es) ≡ true
  unfolding lookup elem
  elem-pointers k p [] h = cc
  elem-pointers k p ((j, q) ∷ es) h = ground (arith, elem-pointers k p es)

  -- When a connection drains its cache nothing is left in it, and every file that was in it is
  -- closed.
  pub read_close-closed :
      (others : Memory b → Memory b) (k p : ℕ) (c : ReadCache) (m : Memory b)
      → get k c ≡ some p
      → let r = close b others c m in (r.0.entries ≡ []) × ((r.1.readers p).closed ≡ true)
  unfolding close get
  read_close-closed others k p c m h = (
    refl,
    ground
        (arith, close_all-closed (pointers c.entries) p (others m), elem-pointers k p c.entries h),
  )

  sweep_from-absent :
      (cutoff k : ℕ) (es : List (ℕ × ℕ)) (m : Memory b)
      → lookup k es ≡ none
      → lookup k (sweep_from b cutoff es m).1 ≡ none
  unfolding sweep_from lookup
  sweep_from-absent cutoff k [] m h = refl
  sweep_from-absent cutoff k ((j, q) ∷ es) m h = ground (arith, sweep_from-absent cutoff k es m)

  sweep_from-lookup :
      (cutoff k p : ℕ) (es : List (ℕ × ℕ)) (m : Memory b)
      → HasUniqueKeys es
      → lookup k es ≡ some p
      → let idle = ltb (m.readers p).last_used cutoff in
        (lookup k (sweep_from b cutoff es m).1 ≡ (if idle then none else some p))
        × ((if idle then elem p (sweep_from b cutoff es m).0 else true) ≡ true)
  unfolding sweep_from lookup elem
  sweep_from-lookup cutoff k p [] m u h = cc
  sweep_from-lookup cutoff k p ((j, q) ∷ es) m u h = elim (Bool-cases (j == k)) [
    | inl same ↦ ground (arith, sweep_from-absent cutoff k es m)
    | inr other ↦ ground (arith, sweep_from-lookup cutoff k p es m)
  ]

  -- For an entry of a cache that has each key once, the sweeper takes it out exactly if its handle
  -- was last used before the cutoff, and closes the file if it does; it stays if not.
  pub read_sweep_idle-idle :
      (others : Memory b → Memory b) (now k p : ℕ) (c : ReadCache) (m : Memory b)
      → HasUniqueKeys c.entries
      → get k c ≡ some p
      → let r = sweep_idle b others now c m in
        let idle = ltb (m.readers p).last_used (now - c.idle) in
        (get k r.0 ≡ (if idle then none else some p))
        × ((if idle then (r.1.readers p).closed else true) ≡ true)
  unfolding sweep_idle get
  read_sweep_idle-idle others now k p c m u h =
      let (kept, gone) = sweep_from-lookup (now - c.idle) k p c.entries m u h in
      (
        kept,
        ground (
          arith,
          gone,
          close_all-closed (sweep_from b (now - c.idle) c.entries m).0 p (others m),
        ),
      )
