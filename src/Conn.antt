-- ===== src/Conn.antt =====
-- conn.go: the handle caches of one connection.
pub mod Laws
use go_nfs.Base.{ℕ, Bool, true, false, Option, none, some, List, [], ◌∷◌, if◌then◌else◌}
use go_nfs.Errors.Chain.{Error, errors_is, is_handle_closed}
use go_nfs.Backend.{Backend}
use go_nfs.Memory.{Memory}
use go_nfs.Handle.{sync, is_some}
use go_nfs.WriteCache
use go_nfs.WriteCache.{WriteCache, new_write_cache, flush_out, flush_by_close}
use go_nfs.ReadCache
use go_nfs.ReadCache.{ReadCache, new_read_cache, close_reader}

pub record Conn : Type 0 where
  pub wc : Option WriteCache
  pub rc : Option ReadCache

abbrev pub new_conn : Conn
new_conn = record { wc = none; rc = none }

-- the cache, created if it is not there yet
abbrev pub or_new {ℓ} : {A : Type ℓ} → Option A → A → A
or_new none new = new
or_new (some c) new = c

-- writeHandleCache
unfoldable pub write_handle_cache : Conn → WriteCache × Conn
write_handle_cache c = let wc = or_new c.wc new_write_cache in (wc, record c { wc = some wc })

-- readHandleCache
unfoldable pub read_handle_cache : Conn → ReadCache × Conn
read_handle_cache c = let rc = or_new c.rc new_read_cache in (rc, record c { rc = some rc })

-- the first error
abbrev pub first_err : Option Error → Option Error → Option Error
first_err none e = e
first_err (some x) e = some x

module _ (b : Backend) where
  -- the write half of dropHandle
  unfoldable pub drop_writer :
      ℕ → Option WriteCache → Memory b → Option Error × Option WriteCache × Memory b
  unfolding WriteCache.invalidate flush_out
  drop_writer key none m = (none, none, m)
  drop_writer key (some wc) m =
      let (h, wc', m') = WriteCache.invalidate b key wc m in
      elim h [
        | none ↦ (none, some wc', m')
        | some (p, done) ↦ (let (e, m'') = flush_out b key p done m' in (e, some wc', m''))
      ]

  -- the read half of dropHandle
  unfoldable pub drop_reader :
      ℕ → Option ReadCache → Memory b → Option Error × Option ReadCache × Memory b
  unfolding ReadCache.invalidate close_reader
  drop_reader key none m = (none, none, m)
  drop_reader key (some rc) m =
      let (h, rc') = ReadCache.invalidate key rc in
      elim h [
        | none ↦ (none, some rc', m)
        | some p ↦ (let (e, m') = close_reader b p m in (e, some rc', m'))
      ]

  -- dropHandle
  unfoldable pub drop_handle : ℕ → Conn → Memory b → Option Error × Conn × Memory b
  unfolding drop_writer drop_reader
  drop_handle key c m =
      let (e, wc, m') = drop_writer key c.wc m in
      let (e', rc, m'') = drop_reader key c.rc m' in
      (first_err e e', record { wc = wc; rc = rc }, m'')

  -- flushHandle of the handle that `get` found: (found, err)
  unfoldable pub flush_found :
      ℕ → ℕ → WriteCache → Memory b → Bool × Option Error × WriteCache × Memory b
  unfolding sync flush_by_close
  flush_found key p wc m =
      let (synced, e, m') = sync b p m in
      elim e [
        | some x ↦ (true, if errors_is is_handle_closed x then none else some x, wc, m')
        | none ↦
            if synced
            then (true, none, wc, m')
            else (let (e', wc', m'') = flush_by_close b key wc m' in (true, e', wc', m''))
      ]

  -- flushHandle
  unfoldable pub flush_cache :
      ℕ → WriteCache → Memory b → Bool × Option Error × WriteCache × Memory b
  unfolding WriteCache.get flush_found
  flush_cache key wc m = elim (WriteCache.get key wc) [
    | none ↦ (false, none, wc, m)
    | some p ↦ flush_found key p wc m
  ]

  unfoldable pub flush_handle : ℕ → Conn → Memory b → Bool × Option Error × Conn × Memory b
  unfolding flush_cache
  flush_handle key c m = elim c.wc [
    | none ↦ (false, none, c, m)
    | some wc ↦
        (let (found, e, wc', m') = flush_cache key wc m in
          (found, e, record c { wc = some wc' }, m'))
  ]

  abbrev pub put_wc :
      Conn
      → Option (Bool × Option Error × WriteCache × Memory b)
      → Option (Bool × Option Error × Conn × Memory b)
  put_wc c none = none
  put_wc c (some (flushed, e, wc, m)) = some (flushed, e, record c { wc = some wc }, m)

  -- flushDirtyHandle; `none` is a call that is still blocked
  unfoldable pub flush_dirty_handle :
      (Memory b → Memory b) → ℕ → Conn → Memory b → Option (Bool × Option Error × Conn × Memory b)
  unfolding WriteCache.flush_dirty
  flush_dirty_handle others key c m = elim c.wc [
    | none ↦ some (false, none, c, m)
    | some wc ↦ put_wc c (WriteCache.flush_dirty b others key wc m)
  ]

  abbrev close_wc :
      (Memory b → Memory b) → Option WriteCache → Memory b → Option WriteCache × Memory b
  close_wc others none m = (none, m)
  close_wc others (some wc) m = let (wc', m') = WriteCache.close b others wc m in (some wc', m')

  abbrev close_rc :
      (Memory b → Memory b) → Option ReadCache → Memory b → Option ReadCache × Memory b
  close_rc others none m = (none, m)
  close_rc others (some rc) m = let (rc', m') = ReadCache.close b others rc m in (some rc', m')

  -- drainCaches
  unfoldable pub drain_caches : (Memory b → Memory b) → Conn → Memory b → Conn × Memory b
  unfolding WriteCache.close ReadCache.close
  drain_caches others c m =
      let (wc, m') = close_wc others c.wc m in
      let (rc, m'') = close_rc others c.rc m' in (record { wc = wc; rc = rc }, m'')
