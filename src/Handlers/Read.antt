-- ===== src/Handlers/Read.antt =====
-- nfs_onread.go: READ through the read-only file that the connection keeps.
pub mod Window
pub mod Found
pub mod Answers
use go_nfs.Action.{◌>>◌, UserHandler, Action, ◌>>=◌, pure, or_raise, put_memory}
use go_nfs.Backend.{Backend}
use go_nfs.Base.{
  length, take, insert, ltb, leb, if◌then◌else◌, ℕ, zero, suc, ◌+◌, ◌-◌, ◌^◌, Bool, true, false,
  ◌||◌, Option, none, some, List,
}
use go_nfs.Conn.{read_handle_cache}
use go_nfs.Errors.Chain.{
  Error, Result, errors_is, is_handle_closed, is_eof, os_is_not_exist, ok, err, err_handle_closed,
  nfs_error,
}
use go_nfs.Errors.Codes.{NfsStatus}
use go_nfs.Handlers.Commit.{write_error, world_of}
use go_nfs.Handlers.Write.{got, Others, conn_of, Got, again, fails}
use go_nfs.Memory.{Memory}
use go_nfs.ReadCache.{ReadCache}
use go_nfs.Server.{Server, flush_dirty_handle_all}
use go_nfs.Words.{u32, u64}
use go_nfs.WriteCache.{WriteCache}
use go_nfs.ReadCache
use go_nfs.ReadCache.{new_reader, close_reader}

-- nfsReadArgs
pub record ReadArgs : Type 0 where
  pub handle : ℕ
  pub offset : ℕ  -- uint64, and the int64 of the same bits
  pub count : ℕ  -- uint32

-- nfsReadResponse, with the attributes before it
pub record ReadReply (b : Backend) : Type 0 where
  pub attrs : b.Info
  pub count : ℕ
  pub eof : Bool
  pub bytes : List ℕ

abbrev pub max_read : ℕ
max_read = 2 ^ 24

-- `a <= b` of two int64, each given by its 64 bits
abbrev pub leb_signed : ℕ → ℕ → Bool
leb_signed a b = leb (u64 (a + 2 ^ 63)) (u64 (b + 2 ^ 63))

-- Count after the comparisons with the size of the file, and setEOF
unfoldable pub read_window : ℕ → ℕ → ℕ → ℕ × Bool
read_window size offset count =
    let left = u64 (size + 2 ^ 64 - offset) in
    if leb_signed size offset
    then (0, true)
    else if leb_signed left count
    then (u32 left, true)
    else (count, false)

unfoldable pub cap_read : ℕ → ℕ
cap_read count = if ltb max_read count then max_read else count

-- errors.Is on an error that may be nil
abbrev pub error_is : (Error → Bool) → Option Error → Bool
error_is hit none = false
error_is hit (some e) = errors_is hit e

module _ (b : Backend) where
  -- w.readHandleCache() of the connection `id`, for reading
  unfoldable pub reader_cache_of : ℕ → Server b → WriteCache
  unfolding read_handle_cache
  reader_cache_of id s = (read_handle_cache (conn_of b id s)).0

  -- the connection after a change of its read cache, and the memory
  unfoldable pub put_reader_cache : ℕ → WriteCache → Memory b → Server b → Server b
  put_reader_cache id rc m s = record {
    conns = insert id (record (conn_of b id s) { rc = some rc }) s.conns;
    memory = m;
  }

  -- the publication of a file that was opened under the generation `gen`
  unfoldable pub publish_reader : Others b → ℕ → ℕ → ℕ → ℕ → ℕ → Server b → Got b × Server b
  unfolding new_reader ReadCache.put_if_fresh close_reader put_reader_cache reader_cache_of
  publish_reader o id key gen file now s =
      let (p, m) = new_reader b file now s.memory in
      let (fresh, rc, m') =
        ReadCache.put_if_fresh b o.flushing key p gen (reader_cache_of id s) m in
      if fresh
      then (got p, put_reader_cache id rc m' s)
      else (let (e, m'') = close_reader b p m' in (again, put_reader_cache id rc m'' s))

  -- the opening of the file on a miss
  unfoldable pub open_reader : Others b → ℕ → ℕ → ℕ → b.FilePath → ℕ → Server b → Got b × Server b
  unfolding publish_reader ReadCache.sample_gen reader_cache_of
  open_reader o n id key path now s =
      let gen = ReadCache.sample_gen (reader_cache_of id s) in
      let (opened, w) = b.open_ro path (world_of b s) in
      let s' = put_memory (record s.memory { world = w }) s in
      elim opened [
        | err e ↦
            if os_is_not_exist e
            then (fails (nfs_error NfsStatus.noent e), s')
            else (fails (nfs_error NfsStatus.access e), s')
        | ok file ↦ publish_reader o id key gen file now (o.opening n s')
      ]

  unfoldable pub find_reader : Others b → ℕ → ℕ → ℕ → b.FilePath → ℕ → Server b → Got b × Server b
  unfolding open_reader ReadCache.get
  find_reader o n id key path now s = elim (ReadCache.get key (reader_cache_of id s)) [
    | some p ↦ (got p, s)
    | none ↦ open_reader o n id key path now s
  ]

  -- the loop of readHandleFor, with the attempts left; `k` numbers the attempts of the procedure
  unfoldable pub reader_attempts : Others b → ℕ → ℕ → ℕ → ℕ → b.FilePath → ℕ → Action b ℕ
  unfolding find_reader
  reader_attempts o k zero id key path now s =
      some (err (nfs_error NfsStatus.stale err_handle_closed), s)
  reader_attempts o k (suc n) id key path now s =
      let (g, s') = find_reader o (k + n) id key path now s in
      elim g [
        | got p ↦ some (ok p, s')
        | again ↦ reader_attempts o k n id key path now s'
        | fails e ↦ some (err e, s')
      ]

  -- readHandleFor
  unfoldable pub read_handle_for : Others b → ℕ → ℕ → ℕ → b.FilePath → ℕ → Action b ℕ
  unfolding reader_attempts
  read_handle_for o k id key path now = reader_attempts o k 2 id key path now

  -- w.Server.flushDirtyHandleAll(obj.Handle), and the check of its error
  unfoldable pub flush_dirty_first : (Memory b → Memory b) → ℕ → Action b (Unit {0})
  flush_dirty_first others key s = elim (flush_dirty_handle_all b others key s) [
    | none ↦ none
    | some (none, s') ↦ some (ok tt, s')
    | some (some e, s') ↦ some (err (write_error e), s')
  ]

  -- the attributes, of the handle or of the path
  unfoldable pub read_info : Others b → ℕ → b.FilePath → Action b b.Info
  unfolding ReadCache.stat
  read_info o p path s =
      let s' = o.writing 3 s in
      elim (ReadCache.stat b p s'.memory) [
        | some info ↦ some (ok info, s')
        | none ↦ or_raise (b.stat path (world_of b s')) (nfs_error NfsStatus.access) s'
      ]

  -- h.readAt into a buffer of `room` bytes
  unfoldable pub read_once : Others b → ℕ → ℕ → ℕ → ℕ → ℕ → Action b (List ℕ × Option Error)
  unfolding ReadCache.read_at
  read_once o k p room offset now s =
      let s' = o.writing k s in
      let (bytes, e, m) = ReadCache.read_at b p room offset now s'.memory in
      some (ok (bytes, e), put_memory m s')

  -- cache.removeIf, of a handle that was closed under the read
  unfoldable pub drop_reader_if : ℕ → ℕ → ℕ → Server b → Server b
  unfolding ReadCache.remove_if put_reader_cache reader_cache_of
  drop_reader_if id key p s =
      let (own, rc) = ReadCache.remove_if key p (reader_cache_of id s) in
      put_reader_cache id rc s.memory s

  -- after the first readAt: once more with a fresh handle if it met a closed one
  unfoldable pub read_again :
      Others b
      → ℕ
      → ℕ
      → ℕ
      → b.FilePath
      → ℕ
      → ℕ
      → ℕ
      → List ℕ × Option Error
      → Action b (List ℕ × Option Error)
  unfolding read_once read_handle_for drop_reader_if
  read_again o id key p path room offset now (bytes, e) s =
      if error_is is_handle_closed e
      then ((read_handle_for o 0 id key path now >>= λ p'. read_once o 1 p' room offset now)
          (drop_reader_if id key p s))
      else some (ok (bytes, e), s)

  -- the check of the error of the last readAt
  unfoldable pub check_read : List ℕ × Option Error → Action b (List ℕ × Bool)
  check_read (bytes, none) s = some (ok (bytes, false), s)
  check_read (bytes, some e) s =
      if errors_is is_eof e
      then some (ok (bytes, true), s)
      else some (err (nfs_error NfsStatus.io e), s)

  -- the read, and the checks of its error: the bytes, and whether it met the end of the file
  unfoldable pub read_bytes :
      Others b → ℕ → ℕ → ℕ → b.FilePath → ℕ → ℕ → ℕ → Action b (List ℕ × Bool)
  unfolding read_once read_again check_read
  read_bytes o id key p path room offset now s =
      (do
        first ← read_once o 2 p room offset now
        last ← read_again o id key p path room offset now first
        check_read last)
        s

  -- the part of onRead from the size of the buffer on, for the attributes `info`
  unfoldable pub read_reply :
      Others b → ℕ → ℕ → ReadArgs → b.FilePath → ℕ → b.Info → Action b (ReadReply b)
  unfolding read_bytes
  read_reply o id now req path p info s =
      (do
        (bytes, at_end) ←
            read_bytes o id req.handle p path
              (cap_read (read_window (b.size info) req.offset req.count).0) req.offset now
        pure (record {
          attrs = info;
          count = u32 (length bytes);
          eof = at_end || (read_window (b.size info) req.offset req.count).1;
          bytes = take (u32 (length bytes)) bytes;
        }))
        s

  -- onRead, once the file system is known
  unfoldable pub read_file : Others b → ℕ → ℕ → ReadArgs → b.FilePath → Action b (ReadReply b)
  unfolding flush_dirty_first read_handle_for read_info read_reply
  read_file o id now req path s =
      (do
        flush_dirty_first o.flushing req.handle
        p ← read_handle_for o 2 id req.handle path now
        info ← read_info o p path
        read_reply o id now req path p info)
        s

  -- onRead on the connection `id`; `arg` is what xdr.Read makes of the request
  unfoldable pub on_read :
      UserHandler b → Others b → ℕ → ℕ → Result ReadArgs → Action b (ReadReply b)
  unfolding read_file
  on_read h o id now arg s =
      (do
        req ← or_raise arg (nfs_error NfsStatus.inval)
        (writable, path) ←
            or_raise (h.from_handle req.handle (world_of b s)) (nfs_error NfsStatus.stale)
        read_file o id now req path)
        s
