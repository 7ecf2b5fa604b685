-- ===== src/WriteCache/Fresh.antt =====
-- handlecache.go: the generation, and the publication that it guards.
use go_nfs.Base.{
  ℕ, ◌+◌, ◌^◌, ◌<◌, ◌≡◌, ◌≢◌, refl, ◌↔◌, true, false, Option, none, some, List, [], ◌∷◌, arith,
  if◌then◌else◌, lookup, lookup-insert, Option-cases, inl, inr,
}
use go_nfs.Backend.{Backend}
use go_nfs.Errors.Chain.{Error}
use go_nfs.Handle.{Memory, sync_if_dirty}
use go_nfs.Words.{u64}
use go_nfs.WriteCache.{
  WriteCache, get, sample_gen, evict_oldest_locked, publish_locked, put, put_if_fresh, remove,
  remove_if, remove_and_track, invalidate, flush_dirty, flush_dirty_handle, flush_by_close,
  sweep_idle, close, after_await, await_commit,
}
use go_nfs.WriteCache.Calls.{Call, call, calls, after_flush}

module _ (b : Backend) where
  put-gen :
      (others : Memory b → Memory b) (k p : ℕ) (c : WriteCache) (m : Memory b)
      → (put b others k p c m).0.gen ≡ c.gen
  unfolding put evict_oldest_locked
  put-gen others k p c m = ground arith

  remove_and_track-gen :
      (k : ℕ) (c : WriteCache) (m : Memory b) → (remove_and_track b k c m).1.gen ≡ c.gen
  unfolding remove_and_track
  remove_and_track-gen k c m = ground arith

  after_await-gen :
      (c d : WriteCache) (m : Memory b) (o : Option (Option Error × Memory b))
      → c.gen ≡ d.gen
      → (after_flush b d m (after_await b c o)).0.gen ≡ d.gen
  after_await-gen c d m none e = refl
  after_await-gen c d m (some r) e = e

  flush_by_close-gen :
      (k : ℕ) (c : WriteCache) (m : Memory b) → (flush_by_close b k c m).1.gen ≡ c.gen
  unfolding flush_by_close
  flush_by_close-gen k c m = ground (arith, remove_and_track-gen k c m)

  flush_dirty_handle-gen :
      (others : Memory b → Memory b) (k p : ℕ) (c : WriteCache) (m : Memory b)
      → (after_flush b c m (flush_dirty_handle b others k p c m)).0.gen ≡ c.gen
  unfolding flush_dirty_handle
  flush_dirty_handle-gen others k p c m =
      let r = sync_if_dirty b p m in
      ground (
        arith,
        after_await-gen c c m (await_commit b others k r.4) refl,
        flush_by_close-gen k c r.4,
      )

  flush_dirty-gen :
      (others : Memory b → Memory b) (k : ℕ) (c : WriteCache) (m : Memory b)
      → (after_flush b c m (flush_dirty b others k c m)).0.gen ≡ c.gen
  unfolding flush_dirty
  flush_dirty-gen others k c m = elim (Option-cases (lookup k c.entries)) [
    | inl absent ↦ rw (absent, flush_dirty) (after_await-gen c c m (await_commit b others k m) refl)
    | inr (p, found) ↦ rw (found, flush_dirty) (flush_dirty_handle-gen others k p c m)
  ]

  put_if_fresh-gen :
      (others : Memory b → Memory b) (k p gen : ℕ) (c : WriteCache) (m : Memory b)
      → (put_if_fresh b others k p gen c m).1.gen ≡ c.gen
  unfolding put_if_fresh
  put_if_fresh-gen others k p gen c m = ground (arith, put-gen others k p c m)

  remove_if-gen : (k p : ℕ) (c : WriteCache) → (remove_if k p c).1.gen ≡ c.gen
  unfolding remove_if
  remove_if-gen k p c = ground arith

  abbrev pub bumps : Call b → ℕ
  bumps (Call.invalidate k) = 1
  bumps _ = 0

  -- how many of the calls invalidate
  abbrev pub invalidations : List (Call b) → ℕ
  invalidations [] = 0
  invalidations (x ∷ xs) = bumps x + invalidations xs

  call-gen :
      (x : Call b) (c : WriteCache) (m : Memory b)
      → c.gen < 2 ^ 64
      → (call b x c m).0.gen ≡ u64 (c.gen + bumps x)
  unfolding call remove sweep_idle close invalidate
  call-gen (Call.invalidate k) c m h =
      omega (arith, remove_and_track-gen k (record c { gen = u64 (c.gen + 1) }) m)
  call-gen (Call.put others k p) c m h = omega (arith, put-gen others k p c m)
  call-gen (Call.put_if_fresh others k p gen) c m h =
      omega (arith, put_if_fresh-gen others k p gen c m)
  call-gen (Call.remove k) c m h = omega arith
  call-gen (Call.remove_if k p) c m h = omega (arith, remove_if-gen k p c)
  call-gen (Call.remove_and_track k) c m h = omega (arith, remove_and_track-gen k c m)
  call-gen (Call.flush_dirty others k) c m h = omega (arith, flush_dirty-gen others k c m)
  call-gen (Call.sweep_idle others now) c m h = omega arith
  call-gen (Call.close others) c m h = omega arith
  call-gen (Call.elsewhere others) c m h = omega arith

  calls-gen :
      (xs : List (Call b)) (c : WriteCache) (m : Memory b)
      → c.gen < 2 ^ 64
      → (calls b xs c m).0.gen ≡ u64 (c.gen + invalidations xs)
  unfolding calls
  calls-gen [] c m h = omega arith
  calls-gen (x ∷ xs) c m h =
      let r = call b x c m in omega (arith, call-gen x c m h, calls-gen xs r.0 r.1)

  stale :
      (others : Memory b → Memory b) (k p gen : ℕ) (c : WriteCache) (m : Memory b)
      → c.gen ≢ gen
      → put_if_fresh b others k p gen c m ≡ (false, c, m)
  unfolding put_if_fresh
  stale others k p gen c m h = ground arith

  -- A file that was opened before an invalidation, of its own key or of another, is not published
  -- after it, whatever calls ran in between, up to 2^64 - 1 invalidations: putIfFresh refuses, and
  -- changes nothing.
  pub put_if_fresh-stale :
      (others : Memory b → Memory b) (k p : ℕ) (xs : List (Call b)) (c : WriteCache) (m : Memory b)
      → c.gen < 2 ^ 64
      → 0 < invalidations xs
      → invalidations xs < 2 ^ 64
      → let r = calls b xs c m in
        put_if_fresh b others k p (sample_gen c) r.0 r.1 ≡ (false, r.0, r.1)
  unfolding sample_gen
  put_if_fresh-stale others k p xs c m h some_bump few =
      let r = calls b xs c m in
      stale others k p c.gen r.0 r.1 (λ e. omega (arith, calls-gen xs c m h))

  publish_locked-get :
      (k p : ℕ) (c : WriteCache) (m : Memory b)
      → lookup k (publish_locked b k p c m).1.entries ≡ some p
  unfolding publish_locked
  publish_locked-get k p c m = ground (
    arith,
    lookup-insert k k p c.entries,
    lookup-insert k k p (evict_oldest_locked (λ q. (m.handles q).last_used) c).1.entries,
  )

  put-get :
      (others : Memory b → Memory b) (k p : ℕ) (c : WriteCache) (m : Memory b)
      → lookup k (put b others k p c m).0.entries ≡ some p
  unfolding put
  put-get others k p c m = publish_locked-get k p c m

  -- putIfFresh publishes exactly if no invalidation has moved the generation and the key has no
  -- handle; then the key's handle is the new one. If it does not publish, it changes nothing.
  pub put_if_fresh-published :
      (others : Memory b → Memory b) (k p gen : ℕ) (c : WriteCache) (m : Memory b)
      → let r = put_if_fresh b others k p gen c m in
        ((r.0 ≡ true) ↔ ((c.gen ≡ gen) × (get k c ≡ none)))
        × (get k r.1 ≡ (if r.0 then some p else get k c))
        × ((if r.0 then (false, c, m) else r) ≡ (false, c, m))
  unfolding put_if_fresh get
  put_if_fresh-published others k p gen c m =
      (ground arith, ground (arith, put-get others k p c m), ground arith)
