-- ===== src/Server/FlushDirty.antt =====
-- server.go: flushDirtyHandleAll, the broadcast of a READ.
use go_nfs.Base.{
  ℕ, ◌≡◌, refl, Bool, true, false, ◌&&◌, Option, none, some, List, [], ◌∷◌, arith, lookup,
  Option-cases, Bool-cases, inl, inr,
}
use go_nfs.Errors.Chain.{Error}
use go_nfs.Backend.{Backend}
use go_nfs.Memory.{Memory}
use go_nfs.Handle.{sync_if_dirty}
use go_nfs.WriteCache.{WriteCache, flush_by_close, await_commit, resolve_commit, after_await}
use go_nfs.Tracker
use go_nfs.Tracker.{Tracker, Poll}
use go_nfs.Base.{ap, ◌∙◌}
use go_nfs.WriteCache
use go_nfs.Conn.{Conn, first_err, flush_dirty_handle}
use go_nfs.Conn.Laws.{writer_for}
use go_nfs.Server.{Server, flush_dirty_loop, flush_dirty_handle_all}
use go_nfs.Server.Flush.{is_flushed, flush_by_close-flushed}

module _ (b : Backend) where
  -- an optional handle is closed, or has no unflushed writes
  abbrev pub is_flushed_at : Option ℕ → Memory b → Bool
  is_flushed_at none m = true
  is_flushed_at (some p) m = is_flushed b p m

  -- the handle of every connection for the key is closed, or has no unflushed writes
  abbrev pub all_flushed : ℕ → List (ℕ × Conn) → Memory b → Bool
  all_flushed key [] m = true
  all_flushed key ((id, c) ∷ cs) m = is_flushed_at (writer_for key c) m && all_flushed key cs m

  -- what the other goroutines do makes no write that is unflushed
  abbrev pub KeepsFlushed : (Memory b → Memory b) → Type 0
  KeepsFlushed others =
      (q : ℕ) (m : Memory b) → is_flushed b q m ≡ true → is_flushed b q (others m) ≡ true

  both : {a c : Bool} → a ≡ true → c ≡ true → (a && c) ≡ true
  both h g = ground arith

  sync_if_dirty-flushed :
      (p q : ℕ) (m : Memory b)
      → let r = sync_if_dirty b p m in
        (is_flushed b q m ≡ true → is_flushed b q r.4 ≡ true)
        × (r.2 ≡ true → is_flushed b p r.4 ≡ true)
        × (r.2 ≡ false → r.0 ≡ false → is_flushed b p r.4 ≡ true)
        × (r.1 ≡ true → r.3 ≡ none → is_flushed b p r.4 ≡ true)
  unfolding sync_if_dirty
  sync_if_dirty-flushed p q m =
      (λ h. ground arith, λ h. ground arith, λ h g. ground arith, λ h g. ground arith)

  module _ (others : Memory b → Memory b) (keeps : KeepsFlushed others) (key : ℕ) where
    await_commit-keeps :
        (q : ℕ) (e : Option Error) (m n : Memory b)
        → await_commit b others key m ≡ some (e, n)
        → is_flushed b q m ≡ true
        → is_flushed b q n ≡ true
    unfolding await_commit
    await_commit-keeps q e m n h g = go (Tracker.poll key false (others m).commits).0 refl
      where
        ended :
            (x : Option Error) (t : Tracker)
            → ◌≡◌ {A = Option (Option Error × Memory b)}
                (some (x, record (others m) { commits = t }))
                (some (e, n))
            → record (others m) { commits = t } ≡ n
        ended x t h = ground arith

        go :
            (r : Poll) → (Tracker.poll key false (others m).commits).0 ≡ r → is_flushed b q n ≡ true
        go (Poll.returns x) f =
            rw
              (← ended x (Tracker.poll key false (others m).commits).1
                (rw (await_commit, resolve_commit, f) at h))
              (keeps q m g)
        go (Poll.blocks ch) f = absurd (cc (rw (await_commit, resolve_commit, f) at h))

    after_await-keeps :
        (q : ℕ) (c c' : WriteCache) (done : Bool) (e : Option Error) (m n : Memory b)
        → after_await b c (await_commit b others key m) ≡ some (done, e, c', n)
        → is_flushed b q m ≡ true
        → is_flushed b q n ≡ true
    after_await-keeps q c c' done e m n h g = go (await_commit b others key m) refl
      where
        go :
            (r : Option (Option Error × Memory b))
            → await_commit b others key m ≡ r
            → is_flushed b q n ≡ true
        go none f = absurd (cc (rw f at h))
        go (some (x, k)) f =
            let same : k ≡ n = ground (arith, rw f at h) in
            await_commit-keeps q x m n (f ∙ ap (λ (k : Memory b). some (x, k)) same) g

    -- flushDirty of a handle that was found
    flush_dirty_handle-flushed :
        (p q : ℕ) (c c' : WriteCache) (done : Bool) (e : Option Error) (m n : Memory b)
        → lookup key c.entries ≡ some p
        → WriteCache.flush_dirty_handle b others key p c m ≡ some (done, e, c', n)
        → (is_flushed b q m ≡ true → is_flushed b q n ≡ true) × (e ≡ none → is_flushed b p n ≡ true)
    unfolding WriteCache.flush_dirty_handle
    flush_dirty_handle-flushed p q c c' done e m n l h =
        let r = sync_if_dirty b p m in
        let (kept, shut, clean, synced) = sync_if_dirty-flushed p q m in
        elim (Bool-cases r.2) [
          | inl closed ↦
              let ran = rw closed at h in
              (
                λ g. after_await-keeps q c c' done e r.4 n ran (kept g),
                λ _. after_await-keeps p c c' done e r.4 n ran (shut closed),
              )
          | inr opened ↦
              let by_close = flush_by_close-flushed b key p q c r.4 l in
              let own = flush_by_close-flushed b key p p c r.4 l in
              (
                λ g. ground (arith, opened, h, kept g, by_close),
                λ g. ground (arith, opened, h, g, clean opened, synced, own),
              )
        ]

    -- flushDirty
    flush_dirty-flushed :
        (q : ℕ) (c c' : WriteCache) (done : Bool) (e : Option Error) (m n : Memory b)
        → WriteCache.flush_dirty b others key c m ≡ some (done, e, c', n)
        → (is_flushed b q m ≡ true → is_flushed b q n ≡ true)
          × (e ≡ none → is_flushed_at (lookup key c.entries) n ≡ true)
    unfolding WriteCache.flush_dirty
    flush_dirty-flushed q c c' done e m n h = elim (Option-cases (lookup key c.entries)) [
      | inl absent ↦ (
        λ g. after_await-keeps q c c' done e m n (rw (WriteCache.flush_dirty, absent) at h) g,
        λ _. rw absent refl,
      )
      | inr (p, found) ↦
          let (kept, own) =
            flush_dirty_handle-flushed p q c c' done e m n found
              (rw (WriteCache.flush_dirty, found) at h) in
          (kept, λ fine. rw found (own fine))
    ]

    -- flushDirtyHandle of a connection
    flush_conn-flushed :
        (q : ℕ) (c c' : Conn) (done : Bool) (e : Option Error) (m n : Memory b)
        → flush_dirty_handle b others key c m ≡ some (done, e, c', n)
        → (is_flushed b q m ≡ true → is_flushed b q n ≡ true)
          × (e ≡ none → is_flushed_at (writer_for key c) n ≡ true)
    unfolding flush_dirty_handle
    flush_conn-flushed q c c' done e m n h = go c.wc refl
      where
        go :
            (o : Option WriteCache)
            → c.wc ≡ o
            → (is_flushed b q m ≡ true → is_flushed b q n ≡ true)
              × (e ≡ none → is_flushed_at (writer_for key c) n ≡ true)
        go none f =
            let same : m ≡ n = ground (arith, rw (flush_dirty_handle, f) at h) in
            (λ g. rw (← same) g, λ _. rw f refl)
        go (some wc) f = ran (WriteCache.flush_dirty b others key wc m) refl
          where
            ran :
                (r : Option (Bool × Option Error × WriteCache × Memory b))
                → WriteCache.flush_dirty b others key wc m ≡ r
                → (is_flushed b q m ≡ true → is_flushed b q n ≡ true)
                  × (e ≡ none → is_flushed_at (writer_for key c) n ≡ true)
            ran none r = absurd (cc (rw (flush_dirty_handle, f, r) at h))
            ran (some (d, x, wc', k)) r =
                let end = rw (flush_dirty_handle, f, r) at h in
                let same : k ≡ n = ground (arith, end) in
                let error : x ≡ e = ground (arith, end) in
                let (kept, own) = flush_dirty-flushed q wc wc' d x m k r in
                (λ g. rw (← same) (kept g), λ fine. rw (f, ← same) (own (error ∙ fine)))

    first_err-none : (x y : Option Error) → first_err x y ≡ none → (x ≡ none) × (y ≡ none)
    first_err-none none y h = (refl, h)
    first_err-none (some x) y h = absurd (cc h)

    keeps_at :
        (o : Option ℕ) (m n : Memory b)
        → ((q : ℕ) → is_flushed b q m ≡ true → is_flushed b q n ≡ true)
        → is_flushed_at o m ≡ true
        → is_flushed_at o n ≡ true
    keeps_at none m n k g = refl
    keeps_at (some p) m n k g = k p g

    all_kept :
        (cs : List (ℕ × Conn)) (m n : Memory b)
        → ((q : ℕ) → is_flushed b q m ≡ true → is_flushed b q n ≡ true)
        → all_flushed key cs m ≡ true
        → all_flushed key cs n ≡ true
    all_kept [] m n k g = refl
    all_kept ((id, c) ∷ cs) m n k g =
        both (keeps_at (writer_for key c) m n k (ground arith)) (all_kept cs m n k (ground arith))

    -- the loop of the broadcast
    flush_dirty_loop-flushed :
        (cs ds : List (ℕ × Conn)) (e : Option Error) (m n : Memory b)
        → flush_dirty_loop b others key cs m ≡ some (e, ds, n)
        → ((q : ℕ) → is_flushed b q m ≡ true → is_flushed b q n ≡ true)
          × (e ≡ none → all_flushed key cs n ≡ true)
    unfolding flush_dirty_loop
    flush_dirty_loop-flushed [] ds e m n h =
        let same : m ≡ n = ground arith in (λ q g. rw (← same) g, λ _. refl)
    flush_dirty_loop-flushed ((id, c) ∷ cs) ds e m n h =
        go (flush_dirty_handle b others key c m) refl
          (λ y k ds' n'. flush_dirty_loop-flushed cs ds' y k n')
      where
        go :
            (r : Option (Bool × Option Error × Conn × Memory b))
            → flush_dirty_handle b others key c m ≡ r
            → ((y : Option Error) (k : Memory b) (ds' : List (ℕ × Conn)) (n' : Memory b)
                → flush_dirty_loop b others key cs k ≡ some (y, ds', n')
                → ((q : ℕ) → is_flushed b q k ≡ true → is_flushed b q n' ≡ true)
                  × (y ≡ none → all_flushed key cs n' ≡ true))
            → ((q : ℕ) → is_flushed b q m ≡ true → is_flushed b q n ≡ true)
              × (e ≡ none → all_flushed key ((id, c) ∷ cs) n ≡ true)
        go none f ih = absurd (cc (rw (flush_dirty_loop, f) at h))
        go (some (d, x, c', k)) f ih = rest (flush_dirty_loop b others key cs k) refl
          where
            rest :
                (r : Option (Option Error × List (ℕ × Conn) × Memory b))
                → flush_dirty_loop b others key cs k ≡ r
                → ((q : ℕ) → is_flushed b q m ≡ true → is_flushed b q n ≡ true)
                  × (e ≡ none → all_flushed key ((id, c) ∷ cs) n ≡ true)
            rest none g = absurd (cc (rw (flush_dirty_loop, f, g) at h))
            rest (some (y, ds', n')) g =
                let end = rw (flush_dirty_loop, f, g) at h in
                let same : n' ≡ n = ground (arith, end) in
                let error : first_err x y ≡ e = ground (arith, end) in
                let (kept, others_flushed) = ih y k ds' n' g in
                (
                  λ q clean. rw (← same) (kept q ((flush_conn-flushed q c c' d x m k f).0 clean)),
                  λ fine.
                      let (first, last) = first_err-none x y (error ∙ fine) in
                      rw (← same) (
                        both
                          (keeps_at (writer_for key c) k n' kept
                            ((flush_conn-flushed 0 c c' d x m k f).1 first))
                          (others_flushed last)),
                )

    -- If the broadcast of a READ reports no error, and what the other goroutines do while it waits
    -- makes no unflushed write, then every handle that a connection had for the key has no unflushed
    -- writes or is closed.
    pub flush_dirty_handle_all-flushed :
        (s t : Server b)
        → flush_dirty_handle_all b others key s ≡ some (none, t)
        → all_flushed key s.conns t.memory ≡ true
    unfolding flush_dirty_handle_all
    flush_dirty_handle_all-flushed s t h = go (flush_dirty_loop b others key s.conns s.memory) refl
      where
        go :
            (r : Option (Option Error × List (ℕ × Conn) × Memory b))
            → flush_dirty_loop b others key s.conns s.memory ≡ r
            → all_flushed key s.conns t.memory ≡ true
        go none f = absurd (cc (rw (flush_dirty_handle_all, f) at h))
        go (some (some x, cs, m)) f = absurd (cc (rw (flush_dirty_handle_all, f) at h))
        go (some (none, cs, m)) f = awaited (await_commit b others key m) refl
          where
            awaited :
                (r : Option (Option Error × Memory b))
                → await_commit b others key m ≡ r
                → all_flushed key s.conns t.memory ≡ true
            awaited none g = absurd (cc (rw (flush_dirty_handle_all, f, g) at h))
            awaited (some (y, m')) g =
                let end = rw (flush_dirty_handle_all, f, g) at h in
                let same : m' ≡ t.memory = ground (arith, end) in
                let kept = λ (q : ℕ). await_commit-keeps q y m m' g in
                rw (← same) (
                  all_kept s.conns m m' kept
                    ((flush_dirty_loop-flushed s.conns cs none s.memory m f).1 refl))
