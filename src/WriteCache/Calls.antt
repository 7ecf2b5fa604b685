-- ===== src/WriteCache/Calls.antt =====
-- handlecache.go: the operations of writeCache as the calls of one state machine.
use go_nfs.Base.{ℕ, Bool, Option, none, some, List, [], ◌∷◌}
use go_nfs.Errors.Chain.{Error}
use go_nfs.Backend.{Backend}
use go_nfs.Handle.{Memory}
use go_nfs.WriteCache
use go_nfs.WriteCache.{WriteCache}

module _ (b : Backend) where
  -- A call of the cache, with what other goroutines do while it waits or before it flushes. The last
  -- one is what happens to the memory between two calls.
  pub data Call : Type 0 where
    put : (Memory b → Memory b) → ℕ → ℕ → Call
    put_if_fresh : (Memory b → Memory b) → ℕ → ℕ → ℕ → Call
    remove : ℕ → Call
    remove_if : ℕ → ℕ → Call
    remove_and_track : ℕ → Call
    invalidate : ℕ → Call
    flush_dirty : (Memory b → Memory b) → ℕ → Call
    sweep_idle : (Memory b → Memory b) → ℕ → Call
    close : (Memory b → Memory b) → Call
    elsewhere : (Memory b → Memory b) → Call

  abbrev pub after_flush :
      WriteCache
      → Memory b
      → Option (Bool × Option Error × WriteCache × Memory b)
      → WriteCache × Memory b
  after_flush c m none = (c, m)
  after_flush c m (some (flushed, e, c', m')) = (c', m')

  -- the cache and the memory after a call; a call that blocks for ever changes neither
  unfoldable pub call : Call → WriteCache → Memory b → WriteCache × Memory b
  call (Call.put others key p) c m = WriteCache.put b others key p c m
  call (Call.put_if_fresh others key p gen) c m =
      let (fresh, c', m') = WriteCache.put_if_fresh b others key p gen c m in (c', m')
  call (Call.remove key) c m = ((WriteCache.remove key c).1, m)
  call (Call.remove_if key p) c m = ((WriteCache.remove_if key p c).1, m)
  call (Call.remove_and_track key) c m =
      let (h, c', m') = WriteCache.remove_and_track b key c m in (c', m')
  call (Call.invalidate key) c m = let (h, c', m') = WriteCache.invalidate b key c m in (c', m')
  call (Call.flush_dirty others key) c m = after_flush c m (WriteCache.flush_dirty b others key c m)
  call (Call.sweep_idle others now) c m = WriteCache.sweep_idle b others now c m
  call (Call.close others) c m = WriteCache.close b others c m
  call (Call.elsewhere others) c m = (c, others m)

  unfoldable pub calls : List Call → WriteCache → Memory b → WriteCache × Memory b
  unfolding call
  calls [] c m = (c, m)
  calls (x ∷ xs) c m = let (c', m') = call x c m in calls xs c' m'
