-- ===== src/Handlers/Write.antt =====
-- nfs_onwrite.go: WRITE through the handle that the connection keeps for the file.
pub mod Refusals
pub mod Stable
pub mod Durable
use go_nfs.Base.{
  ℕ, zero, suc, ◌-◌, ◌^◌, Bool, true, false, ◌||◌, not, Option, none, some, List, if◌then◌else◌,
  ltb, ◌==◌, length, take, lookup, insert,
}
use go_nfs.Errors.Chain.{
  Error, Result, ok, err, nfs_error, err_permission, err_invalid, err_handle_closed, errors_is,
  is_handle_closed, os_is_not_exist,
}
use go_nfs.Errors.Codes.{NfsStatus}
use go_nfs.Backend.{Backend}
use go_nfs.Memory.{Memory}
use go_nfs.Handle
use go_nfs.Handle.{new_handle, write_at, close_flush}
use go_nfs.Verifier.{VerifierState}
use go_nfs.WriteCache
use go_nfs.WriteCache.{WriteCache, sample_gen, put_if_fresh, remove_if, flush_by_close}
use go_nfs.Conn.{Conn, new_conn, or_new, write_handle_cache}
use go_nfs.Server.{Server}
use go_nfs.Action.{UserHandler, Action, ◌>>=◌, ◌>>◌, pure, raise, or_raise, require, put_memory}
use go_nfs.Handlers.Commit.{write_error, wait_all, try_stat, stamp, world_of}
use go_nfs.Words.{u32}

-- writeArgs
pub record WriteArgs : Type 0 where
  pub handle : ℕ
  pub offset : ℕ  -- uint64, and the int64 of the same bits
  pub count : ℕ  -- uint32
  pub how : ℕ  -- uint32
  pub bytes : List ℕ

-- writeStability
abbrev pub unstable : ℕ
unstable = 0

abbrev pub data_sync : ℕ
data_sync = 1

abbrev pub file_sync : ℕ
file_sync = 2

abbrev pub max_int32 : ℕ
max_int32 = 2 ^ 31 - 1

pub record WriteReply (b : Backend) : Type 0 where
  pub pre : b.Info
  pub post : Option b.Info
  pub count : ℕ
  pub stability : ℕ
  pub verifier : ℕ

-- What the other goroutines do: while a file is being opened in the n-th attempt, between the lookup
-- and the write, before a victim is flushed and during a wait, and on the verifier.
pub record Others (b : Backend) : Type 0 where
  pub opening : ℕ → Server b → Server b
  pub writing : ℕ → Server b → Server b
  pub flushing : Memory b → Memory b
  pub racing : VerifierState → VerifierState

-- The bytes that are written: `end` is Count, or the length of the data if that is less.
unfoldable pub write_end : ℕ → List ℕ → ℕ
write_end count bytes = if ltb (length bytes) count then length bytes else count

module _ (b : Backend) where
  abbrev pub conn_of : ℕ → Server b → Conn
  conn_of id s = or_new (lookup id s.conns) new_conn

  -- w.writeHandleCache() of the connection `id`, for reading
  unfoldable pub cache_of : ℕ → Server b → WriteCache
  unfolding write_handle_cache
  cache_of id s = (write_handle_cache (conn_of id s)).0

  -- the connection after a change of its write cache, and the memory
  unfoldable pub put_cache : ℕ → WriteCache → Memory b → Server b → Server b
  put_cache id wc m s = record {
    conns = insert id (record (conn_of id s) { wc = some wc }) s.conns;
    memory = m;
  }

  -- statRegularFile
  unfoldable pub stat_regular_file : b.FilePath → Action b b.Info
  stat_regular_file path s = elim (b.stat path (world_of b s)) [
    | ok info ↦
        if b.is_regular info
        then some (ok info, s)
        else some (err (nfs_error NfsStatus.inval err_invalid), s)
    | err e ↦
        if os_is_not_exist e
        then some (err (nfs_error NfsStatus.noent e), s)
        else some (err (nfs_error NfsStatus.access e), s)
  ]

  -- the attributes before the write: of the cached handle, or of the path
  unfoldable pub pre_op : ℕ → ℕ → b.FilePath → Action b b.Info
  unfolding cache_of stat_regular_file Handle.stat WriteCache.get
  pre_op id key path s = elim (WriteCache.get key (cache_of id s)) [
    | none ↦ stat_regular_file path s
    | some p ↦ elim (Handle.stat b p s.memory) [
      | none ↦ stat_regular_file path s
      | some info ↦ some (ok info, s)
    ]
  ]

  -- What an attempt of cachedWrite to get a handle comes to.
  pub data Got : Type 0 where
    got : ℕ → Got
    again : Got
    fails : Error → Got

  -- the publication of a file that was opened under the generation `gen`
  unfoldable pub publish : Others b → ℕ → ℕ → ℕ → ℕ → ℕ → Server b → Got × Server b
  unfolding new_handle put_if_fresh close_flush put_cache cache_of
  publish o id key gen file now s =
      let (p, m) = new_handle b file now s.memory in
      let (fresh, wc, m') = put_if_fresh b o.flushing key p gen (cache_of id s) m in
      if fresh
      then (got p, put_cache id wc m' s)
      else (let (e, m'') = close_flush b p m' in (again, put_cache id wc m'' s))

  -- the opening of the file on a miss
  unfoldable pub open_and_publish :
      Others b → ℕ → ℕ → ℕ → b.FilePath → ℕ → Server b → Got × Server b
  unfolding publish sample_gen cache_of
  open_and_publish o n id key path now s =
      let gen = sample_gen (cache_of id s) in
      let (opened, w) = b.open_rw path (world_of b s) in
      let s' = put_memory (record s.memory { world = w }) s in
      elim opened [
        | err e ↦ (fails e, s')
        | ok file ↦ publish o id key gen file now (o.opening n s')
      ]

  unfoldable pub find_or_open : Others b → ℕ → ℕ → ℕ → b.FilePath → ℕ → Server b → Got × Server b
  unfolding open_and_publish WriteCache.get
  find_or_open o n id key path now s = elim (WriteCache.get key (cache_of id s)) [
    | some p ↦ (got p, s)
    | none ↦ open_and_publish o n id key path now s
  ]

  -- What one pass of the loop of cachedWrite comes to.
  pub data Attempt : Type 0 where
    done : Result (ℕ × ℕ) → Server b → Attempt
    retry : Server b → Attempt

  -- after writeAt through the handle `p`
  unfoldable pub after_write : ℕ → ℕ → ℕ → ℕ × Option Error × Memory b → Server b → Attempt
  unfolding remove_if put_cache cache_of
  after_write id key p (written, none, m) s = done (ok (written, p)) (put_memory m s)
  after_write id key p (written, some x, m) s =
      let s' = put_memory m s in
      if errors_is is_handle_closed x
      then (let (own, wc) = remove_if key p (cache_of id s') in retry (put_cache id wc m s'))
      else done (err x) s'

  -- with the handle that was found or opened
  unfoldable pub write_got : Others b → ℕ → ℕ → ℕ → List ℕ → ℕ → ℕ → Got × Server b → Attempt
  unfolding after_write write_at
  write_got o n id key bytes offset now (fails e, s) = done (err e) s
  write_got o n id key bytes offset now (again, s) = retry s
  write_got o n id key bytes offset now (got p, s) =
      let s' = o.writing n s in after_write id key p (write_at b p bytes offset now s'.memory) s'

  -- the loop of cachedWrite, with the attempts left: the bytes written and the handle
  unfoldable pub attempts : Others b → ℕ → ℕ → ℕ → b.FilePath → List ℕ → ℕ → ℕ → Action b (ℕ × ℕ)
  unfolding find_or_open write_got
  attempts o zero id key path bytes offset now s = some (err err_handle_closed, s)
  attempts o (suc n) id key path bytes offset now s =
      elim (write_got o n id key bytes offset now (find_or_open o n id key path now s)) [
        | done r s' ↦ some (r, s')
        | retry s' ↦ attempts o n id key path bytes offset now s'
      ]

  -- cachedWrite
  unfoldable pub cached_write : Others b → ℕ → ℕ → b.FilePath → List ℕ → ℕ → ℕ → Action b (ℕ × ℕ)
  unfolding attempts
  cached_write o id key path bytes offset now = attempts o 2 id key path bytes offset now

  abbrev pub map_err {ℓ} : {A : Type ℓ} → (Error → Error) → Result A → Result A
  map_err f (ok a) = ok a
  map_err f (err e) = err (f e)

  -- cachedWrite, and the check of its error
  unfoldable pub write_data : Others b → ℕ → ℕ → b.FilePath → List ℕ → ℕ → ℕ → Action b (ℕ × ℕ)
  write_data o id key path bytes offset now s =
      elim (cached_write o id key path bytes offset now s) [
        | none ↦ none
        | some (r, s') ↦ some (map_err write_error r, s')
      ]

  -- removeAndTrack and evictFlush of a handle that cannot sync, and the check of the error
  unfoldable pub close_out : ℕ → ℕ → Action b (Unit {0})
  close_out id key s =
      let (e, wc, m) = flush_by_close b key (cache_of id s) s.memory in
      let s' = put_cache id wc m s in
      elim e [ none ↦ some (ok tt, s') | some x ↦ some (err (write_error x), s') ]

  -- the flush of a dataSync or fileSync write
  unfoldable pub sync_stable : Others b → ℕ → ℕ → ℕ → Action b (Unit {0})
  sync_stable o id key p s =
      let (synced, e, m) = Handle.sync b p s.memory in
      let s' = put_memory m s in
      elim e [
        | some x ↦
            if errors_is is_handle_closed x
            then wait_all b o.flushing key s'
            else some (err (write_error x), s')
        | none ↦
            if synced then some (ok tt, s') else (close_out id key >> wait_all b o.flushing key) s'
      ]

  unfoldable pub sync_unless : Bool → Others b → ℕ → ℕ → ℕ → Action b (Unit {0})
  sync_unless true o id key p s = some (ok tt, s)
  sync_unless false o id key p s = sync_stable o id key p s

  -- the attributes after the write: of the handle, or of the path
  unfoldable pub post_op : ℕ → b.FilePath → Server b → Option b.Info
  unfolding Handle.stat try_stat
  post_op p path s = elim (Handle.stat b p s.memory) [
    | some info ↦ some info
    | none ↦ try_stat b path (world_of b s)
  ]

  unfoldable pub stability_of : ℕ → ℕ
  stability_of how = if how == unstable then unstable else file_sync

  -- the part of onWrite from the flush on, for `written` bytes through the handle `p`
  unfoldable pub write_reply :
      Others b → ℕ → WriteArgs → b.FilePath → b.Info → ℕ → ℕ → Action b (WriteReply b)
  unfolding sync_unless post_op stability_of
  write_reply o id req path pre written p s =
      (do
        sync_unless (req.how == unstable) o id req.handle p
        post ← (λ s'. some (ok (post_op p path s'), s'))
        v ← stamp b o.racing
        pure (record {
          pre = pre;
          post = post;
          count = u32 written;
          stability = stability_of req.how;
          verifier = v;
        }))
        s

  -- the part of onWrite behind the checks of the request
  unfoldable pub write_file : Others b → ℕ → ℕ → WriteArgs → b.FilePath → Action b (WriteReply b)
  unfolding pre_op write_data write_reply write_end
  write_file o id now req path s =
      (do
        pre ← pre_op id req.handle path
        (written, p) ←
            write_data o id req.handle path (take (write_end req.count req.bytes) req.bytes)
              req.offset now
        write_reply o id req path pre written p)
        s

  -- onWrite on the connection `id`; `arg` is what xdr.Read makes of the request
  unfoldable pub on_write :
      UserHandler b → Others b → ℕ → ℕ → Result WriteArgs → Action b (WriteReply b)
  unfolding write_file
  on_write h o id now arg s =
      (do
        req ← or_raise arg (nfs_error NfsStatus.inval)
        (writable, path) ←
            or_raise (h.from_handle req.handle (world_of b s)) (nfs_error NfsStatus.stale)
        require writable (nfs_error NfsStatus.rofs err_permission)
        require (not (ltb max_int32 (length req.bytes) || ltb max_int32 req.count))
            (nfs_error NfsStatus.fbig err_invalid)
        require (req.how == unstable || (req.how == data_sync || req.how == file_sync))
            (nfs_error NfsStatus.inval err_invalid)
        write_file o id now req path)
        s
