-- ===== src/Server.antt =====
-- server.go: the broadcasts over the live connections. `conns` lists the map in the order of one
-- iteration over it; a broadcast runs over the snapshot that it takes, and as one step: nothing of
-- another goroutine happens between its visits of two connections, but for what a wait lets through.
pub mod Drop
pub mod Flush
pub mod FlushDirty
pub mod Loss
use go_nfs.Base.{
  ℕ, Bool, true, false, ◌||◌, Option, none, some, List, [], ◌∷◌, if◌then◌else◌, lookup, insert,
  delete,
}
use go_nfs.Errors.Chain.{Error, os_is_not_exist}
use go_nfs.Backend.{Backend}
use go_nfs.Memory.{Memory}
use go_nfs.WriteCache.{await_commit}
use go_nfs.Conn.{Conn, new_conn, first_err, drop_handle, flush_handle, flush_dirty_handle}

pub record Server (b : Backend) : Type 0 where
  pub conns : List (ℕ × Conn)
  pub memory : Memory b

module _ (b : Backend) where
  -- registerConn
  unfoldable pub register_conn : ℕ → Conn → Server b → Server b
  register_conn id c s = record s { conns = insert id c s.conns }

  -- unregisterConn
  unfoldable pub unregister_conn : ℕ → Server b → Server b
  unregister_conn id s = record s { conns = delete id s.conns }

  -- the loop of dropHandleAll; it only logs the errors
  unfoldable pub drop_loop : ℕ → List (ℕ × Conn) → Memory b → List (ℕ × Conn) × Memory b
  unfolding drop_handle
  drop_loop key [] m = ([], m)
  drop_loop key ((id, c) ∷ cs) m =
      let (e, c', m') = drop_handle b key c m in
      let (cs', m'') = drop_loop key cs m' in ((id, c') ∷ cs', m'')

  -- dropHandleAll
  unfoldable pub drop_handle_all : ℕ → Server b → Server b
  unfolding drop_loop
  drop_handle_all key s =
      let (cs, m) = drop_loop key s.conns s.memory in record { conns = cs; memory = m }

  -- the loop of flushHandleAll: (found, firstErr)
  unfoldable pub flush_loop :
      ℕ → List (ℕ × Conn) → Memory b → Bool × Option Error × List (ℕ × Conn) × Memory b
  unfolding flush_handle
  flush_loop key [] m = (false, none, [], m)
  flush_loop key ((id, c) ∷ cs) m =
      let (here, e, c', m') = flush_handle b key c m in
      let (found, e', cs', m'') = flush_loop key cs m' in
      (here || found, first_err e e', (id, c') ∷ cs', m'')

  -- flushHandleAll
  unfoldable pub flush_handle_all : ℕ → Server b → Bool × Option Error × Server b
  unfolding flush_loop
  flush_handle_all key s =
      let (found, e, cs, m) = flush_loop key s.conns s.memory in
      (found, e, record { conns = cs; memory = m })

  -- the rest of the loop of flushDirtyHandleAll after a connection that did not block
  abbrev and_then :
      ℕ
      → Conn
      → Option Error
      → Option (Option Error × List (ℕ × Conn) × Memory b)
      → Option (Option Error × List (ℕ × Conn) × Memory b)
  and_then id c e none = none
  and_then id c e (some (e', cs, m)) = some (first_err e e', (id, c) ∷ cs, m)

  -- the loop of flushDirtyHandleAll: firstErr
  unfoldable pub flush_dirty_loop :
      (Memory b → Memory b)
      → ℕ
      → List (ℕ × Conn)
      → Memory b
      → Option (Option Error × List (ℕ × Conn) × Memory b)
  unfolding flush_dirty_handle
  flush_dirty_loop others key [] m = some (none, [], m)
  flush_dirty_loop others key ((id, c) ∷ cs) m = elim (flush_dirty_handle b others key c m) [
    | none ↦ none
    | some (flushed, e, c', m') ↦ and_then id c' e (flush_dirty_loop others key cs m')
  ]

  -- the end of flushDirtyHandleAll: without an error of a connection, what await says
  abbrev pub or_await :
      (Memory b → Memory b) → ℕ → Option Error → Memory b → Option (Option Error × Memory b)
  or_await others key (some e) m = some (some e, m)
  or_await others key none m = await_commit b others key m

  -- flushDirtyHandleAll
  unfoldable pub flush_dirty_handle_all :
      (Memory b → Memory b) → ℕ → Server b → Option (Option Error × Server b)
  unfolding flush_dirty_loop await_commit
  flush_dirty_handle_all others key s = elim (flush_dirty_loop others key s.conns s.memory) [
    | none ↦ none
    | some (e, cs, m) ↦ elim (or_await others key e m) [
      | none ↦ none
      | some (e', m') ↦ some (e', record { conns = cs; memory = m' })
    ]
  ]

  -- for _, h := range handles { dropHandleAll(h) }
  unfoldable pub drop_each : List ℕ → Server b → Server b
  unfolding drop_handle_all
  drop_each [] s = s
  drop_each (h ∷ hs) s = drop_each hs (drop_handle_all h s)

  -- dropAndRetry; `op` and `resolve_handles` are the closures that it is given
  unfoldable pub drop_and_retry :
      (Server b → Option Error × Server b)
      → (Server b → List ℕ × Server b)
      → Server b
      → Option Error × Server b
  unfolding drop_each
  drop_and_retry op resolve_handles s =
      let (e, s') = op s in
      elim e [
        | none ↦ (none, s')
        | some x ↦
            if os_is_not_exist x
            then (some x, s')
            else let (hs, s'') = resolve_handles s' in op (drop_each hs s'')
      ]
