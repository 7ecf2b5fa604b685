-- ===== src/Handlers/Commit/Durable.antt =====
-- nfs_oncommit.go: what a successful COMMIT promises, and how a lost write is reported.
use go_nfs.Base.{ℕ, ◌≡◌, refl, true, Option, none, some, List, [], ◌∷◌, arith, update}
use go_nfs.Errors.Chain.{Error, ok, err}
use go_nfs.Backend.{Backend, HidesSentinel}
use go_nfs.Memory.{Memory}
use go_nfs.Tracker.{in_flight, poll, Poll, poll_set}
use go_nfs.Verifier.{VerifierState}
use go_nfs.WriteCache.{wait_commit}
use go_nfs.Server.{Server, flush_handle_all}
use go_nfs.Server.Drop.{writer_at}
use go_nfs.Server.Flush.{is_flushed, flush_handle_all-flushed}
use go_nfs.Action.{UserHandler, put_memory}
use go_nfs.Handlers.Commit.{CommitReply, on_commit, flush_all, wait_all, write_error, world_of}

module _ (b : Backend) where
  drained :
      (set : List ℕ) (key : ℕ) (m m' : Memory b) (e : Option Error)
      → in_flight m.commits key ≡ set
      → (let (p, t) = poll_set set key true m.commits in
          let found : Option (Option Error × Memory b) = elim p [
            | Poll.returns x ↦ some (x, record m { commits = t })
            | Poll.blocks ch ↦ none
          ] in
          found ≡ some (e, m'))
      → (in_flight m.commits key ≡ []) × (m.commits.errs key ≡ e) × (m'.commits.errs key ≡ none)
  drained [] key m m' e d h = (d, cc h, ground arith)
  drained (ch ∷ set) key m m' e d h = cc h

  -- a wait that has returned
  pub wait_commit-returned :
      (others : Memory b → Memory b) (key : ℕ) (m m' : Memory b) (e : Option Error)
      → wait_commit b others key m ≡ some (e, m')
      → (in_flight (others m).commits key ≡ [])
        × ((others m).commits.errs key ≡ e)
        × (m'.commits.errs key ≡ none)
  unfolding wait_commit poll
  wait_commit-returned others key m m' e h =
      drained (in_flight (others m).commits key) key (others m) m' e refl h

  pub wait_all-ok :
      (others : Memory b → Memory b) (key : ℕ) (s t : Server b)
      → wait_all b others key s ≡ some (ok tt, t)
      → wait_commit b others key s.memory ≡ some (none, t.memory)
  unfolding wait_all
  wait_all-ok others key s t h = ground arith

  wait_commit-error :
      (others : Memory b → Memory b) (key : ℕ) (m : Memory b) (x : Error)
      → in_flight (others m).commits key ≡ []
      → (others m).commits.errs key ≡ some x
      → (m' : Memory b) × (wait_commit b others key m ≡ some (some x, m'))
        × (m'.commits.errs key ≡ none)
  unfolding wait_commit poll
  wait_commit-error others key m x d v =
      let n = others m in
      (
        record n { commits = record n.commits { errs = update n.commits.errs key none } },
        ground arith,
        ground arith,
      )

  module _ (h : UserHandler b) (others : Memory b → Memory b)
      (racing : VerifierState → VerifierState) (key : ℕ) (s : Server b) where
    on_commit-flushed :
        (r : CommitReply b) (s' : Server b)
        → on_commit b h others racing (ok key) s ≡ some (ok r, s')
        → (flush_handle_all b key s).1 ≡ none
    unfolding on_commit flush_all
    on_commit-flushed r s' e = ground arith

    on_commit-waited :
        (r : CommitReply b) (s' : Server b)
        → on_commit b h others racing (ok key) s ≡ some (ok r, s')
        → (m : Memory b) × (wait_commit b others key (flush_handle_all b key s).2.memory
            ≡ some (none, m))
    unfolding on_commit flush_all wait_all
    on_commit-waited r s' e = go (wait_commit b others key (flush_handle_all b key s).2.memory) refl
      where
        go :
            (o : Option (Option Error × Memory b))
            → wait_commit b others key (flush_handle_all b key s).2.memory ≡ o
            → (m : Memory b) × (wait_commit b others key (flush_handle_all b key s).2.memory
                ≡ some (none, m))
        go none w = absurd (ground arith)
        go (some (none, m)) w = (m, w)
        go (some (some x, m)) w = absurd (ground arith)

    -- A COMMIT that answers NFS3_OK, on a file system whose Sync never reports errHandleClosed, has
    -- flushed or closed the handle that a connection had for the file, whichever connection; and at
    -- the moment when its wait for the flushes in flight returned, none of them was in flight any
    -- more and no lost write was on record for the file.
    pub on_commit-durable :
        (id p : ℕ) {r : CommitReply b} {s' : Server b}
        → HidesSentinel b
        → writer_at id key s.conns ≡ some p
        → on_commit b h others racing (ok key) s ≡ some (ok r, s')
        → let flushed = (flush_handle_all b key s).2.memory in
          (is_flushed b p flushed ≡ true)
          × (in_flight (others flushed).commits key ≡ [])
          × ((others flushed).commits.errs key ≡ none)
    on_commit-durable id p {r} {s'} hides w e =
        let clean = flush_handle_all-flushed b key id p s hides w (on_commit-flushed r s' e) in
        let (m, returned) = on_commit-waited r s' e in
        let (d, v, _) = wait_commit-returned others key _ m none returned in (clean, d, v)

    on_commit_waits :
        (path : b.FilePath) (m : Memory b) (x : Error)
        → h.from_handle key (world_of b s) ≡ ok (true, path)
        → (flush_handle_all b key s).1 ≡ none
        → wait_commit b others key (flush_handle_all b key s).2.memory ≡ some (some x, m)
        → on_commit b h others racing (ok key) s
          ≡ some (err (write_error x), put_memory m (flush_handle_all b key s).2)
    unfolding on_commit flush_all wait_all
    on_commit_waits path m x f e w = ground arith

    -- A write that was lost, on whatever connection, is reported by the next COMMIT of the file: with
    -- the error on record once no flush is in flight, the COMMIT fails with the status of that error
    -- and takes it off the record.
    pub on_commit-reports_loss :
        (path : b.FilePath) (x : Error)
        → h.from_handle key (world_of b s) ≡ ok (true, path)
        → (flush_handle_all b key s).1 ≡ none
        → in_flight (others (flush_handle_all b key s).2.memory).commits key ≡ []
        → (others (flush_handle_all b key s).2.memory).commits.errs key ≡ some x
        → (s' : Server b) × (on_commit b h others racing (ok key) s
            ≡ some (err (write_error x), s'))
          × (s'.memory.commits.errs key ≡ none)
    on_commit-reports_loss path x f e d v =
        let (m, returned, cleared) =
          wait_commit-error others key (flush_handle_all b key s).2.memory x d v in
        (put_memory m (flush_handle_all b key s).2, on_commit_waits path m x f e returned, cleared)
