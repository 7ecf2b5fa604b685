-- ===== src/Handlers/Write/Refusals.antt =====
-- nfs_onwrite.go: the requests that WRITE refuses, and the writes that it makes.
use go_nfs.Base.{
  ℕ, zero, suc, ◌≡◌, ◌≢◌, refl, Bool, true, false, ◌||◌, not, Option, none, some, List, arith,
  if◌then◌else◌, ltb, length,
}
use go_nfs.Errors.Chain.{Error, ok, err, nfs_error, err_permission, err_invalid}
use go_nfs.Errors.Codes.{NfsStatus}
use go_nfs.Backend.{Backend}
use go_nfs.Handle.{write_at, Memory}
use go_nfs.WriteCache.{sample_gen}
use go_nfs.Server.{Server}
use go_nfs.Action.{UserHandler, put_memory}
use go_nfs.Handlers.Commit.{world_of}
use go_nfs.Handlers.Write.{
  WriteArgs, Others, on_write, file_sync, max_int32, attempts, cached_write, find_or_open,
  open_and_publish, publish, cache_of, Got, got, again, fails, Attempt, done, retry, after_write,
  write_got,
}

-- the stability is none of the three that the protocol knows
abbrev pub is_bad_how : ℕ → Bool
is_bad_how how = ltb file_sync how

abbrev pub is_too_big : WriteArgs → Bool
is_too_big req = ltb max_int32 (length req.bytes) || ltb max_int32 req.count

module _ (b : Backend) where
  -- A WRITE to a read-only file system, one that is too large, and one of an unknown stability are
  -- refused with NFS3ERR_ROFS, NFS3ERR_FBIG and NFS3ERR_INVAL, in that order, before anything is
  -- opened or written: the server's state is as it was.
  pub on_write-refused :
      (h : UserHandler b) (o : Others b) (id now : ℕ) (req : WriteArgs) (s : Server b)
      (writable : Bool) (path : b.FilePath)
      → h.from_handle req.handle (world_of b s) ≡ ok (writable, path)
      → (not writable || (is_too_big req || is_bad_how req.how)) ≡ true
      → on_write b h o id now (ok req) s
        ≡ some (
          err (
              if not writable
              then nfs_error NfsStatus.rofs err_permission
              else if is_too_big req
              then nfs_error NfsStatus.fbig err_invalid
              else nfs_error NfsStatus.inval err_invalid),
          s,
        )
  unfolding on_write
  on_write-refused h o id now req s writable path f bad = ground arith

  write_at-accepted :
      (p : ℕ) (bytes : List ℕ) (offset now n : ℕ) (m m' : Memory b)
      → write_at b p bytes offset now m ≡ (n, none, m')
      → ((m.handles p).closed ≡ false)
  unfolding write_at
  write_at-accepted p bytes offset now n m m' h = ground arith

  -- the write that an attempt made: through an open handle of this memory, and without an error
  pub record Wrote (bytes : List ℕ) (offset now n p : ℕ) (t : Server b) : Type 0 where
    pub before : Memory b
    pub is_open : (before.handles p).closed ≡ false
    pub outcome : write_at b p bytes offset now before ≡ (n, none, t.memory)

  module _ (o : Others b) (id key : ℕ) (path : b.FilePath) (bytes : List ℕ) (offset now : ℕ) where
    after_write-Wrote :
        (q n p : ℕ) (r : ℕ × Option Error × Memory b) (s t : Server b)
        → write_at b q bytes offset now s.memory ≡ r
        → after_write b id key q r s ≡ done (ok (n, p)) t
        → Wrote bytes offset now n p t
    unfolding after_write
    after_write-Wrote q n p (w, none, m) s t e h =
        let same : q ≡ p = ground arith in
        record {
          before = s.memory;
          is_open = rw (← same) (write_at-accepted q bytes offset now w s.memory m e);
          outcome = rw (← same) (ground arith);
        }
    after_write-Wrote q n p (w, some x, m) s t e h = absurd (ground arith)

    write_got-Wrote :
        (k n p : ℕ) (g : Got b × Server b) (t : Server b)
        → write_got b o k id key bytes offset now g ≡ done (ok (n, p)) t
        → Wrote bytes offset now n p t
    write_got-Wrote k n p (fails e, s) t h = absurd (unfold write_got in ground arith)
    write_got-Wrote k n p (again, s) t h = absurd (unfold write_got in ground arith)
    write_got-Wrote k n p (got q, s) t h =
        let s' = o.writing k s in
        after_write-Wrote q n p (write_at b q bytes offset now s'.memory) s' t refl
          (unfold write_got in h)

    attempts-Wrote :
        (k n p : ℕ) (s t : Server b)
        → attempts b o k id key path bytes offset now s ≡ some (ok (n, p), t)
        → Wrote bytes offset now n p t
    unfolding attempts
    attempts-Wrote zero n p s t h = cc
    attempts-Wrote (suc k) n p s t h =
        go (write_got b o k id key bytes offset now (find_or_open b o k id key path now s)) refl
          (λ s' g. attempts-Wrote k n p s' t g)
      where
        go :
            (a : Attempt b)
            → write_got b o k id key bytes offset now (find_or_open b o k id key path now s) ≡ a
            → ((s' : Server b)
                → attempts b o k id key path bytes offset now s' ≡ some (ok (n, p), t)
                → Wrote bytes offset now n p t)
            → Wrote bytes offset now n p t
        go (done r s') e ih =
            write_got-Wrote k n p (find_or_open b o k id key path now s) t (ground arith)
        go (retry s') e ih = ih s' (ground arith)

    -- A cachedWrite that succeeds has written the bytes in one write, through a handle that was open
    -- at that moment and is the one that it returns, whatever evictions and invalidations raced with
    -- it.
    pub cached_write-Wrote :
        (s : Server b) {n p : ℕ} {t : Server b}
        → cached_write b o id key path bytes offset now s ≡ some (ok (n, p), t)
        → Wrote bytes offset now n p t
    unfolding cached_write
    cached_write-Wrote s {n} {p} {t} h = attempts-Wrote 2 n p s t h

    publish-stale :
        (gen file : ℕ) (s : Server b)
        → (cache_of b id s).gen ≢ gen
        → let r = publish b o id key gen file now s in
          (r.0 ≡ again) × ((r.1.memory.handles s.memory.allocated).closed ≡ true)
    unfolding publish
    publish-stale gen file s h = (ground arith, ground arith)

    -- the server once the file has been opened and the others have run
    abbrev pub opened : ℕ → Server b → Server b
    opened k s =
        o.opening k (put_memory (record s.memory { world = (b.open_rw path (world_of b s)).1 }) s)

    open_and_publish-opened :
        (k file : ℕ) (s : Server b)
        → (b.open_rw path (world_of b s)).0 ≡ ok file
        → open_and_publish b o k id key path now s
          ≡ publish b o id key (sample_gen (cache_of b id s)) file now (opened k s)
    unfolding open_and_publish
    open_and_publish-opened k file s h = ground arith

    -- A file whose opening raced with an invalidation on the connection is closed and not written
    -- through: the attempt is made again, and so opens the file under the new attributes.
    pub open_and_publish-stale :
        (k file : ℕ) (s : Server b)
        → (b.open_rw path (world_of b s)).0 ≡ ok file
        → (cache_of b id (opened k s)).gen ≢ sample_gen (cache_of b id s)
        → let r = open_and_publish b o k id key path now s in
          (r.0 ≡ again) × ((r.1.memory.handles (opened k s).memory.allocated).closed ≡ true)
    open_and_publish-stale k file s h g =
        rw (open_and_publish-opened k file s h)
          (publish-stale (sample_gen (cache_of b id s)) file (opened k s) g)
