-- ===== src/Handlers/Commit.antt =====
-- nfs_oncommit.go: COMMIT.
pub mod Durable
use go_nfs.Base.{ℕ, Bool, true, false, not, Option, none, some, if◌then◌else◌}
use go_nfs.Errors.{status_from_write_error}
use go_nfs.Errors.Chain.{
  Error, Result, ok, err, nfs_error, err_permission, os_is_not_exist, os_is_permission,
}
use go_nfs.Errors.Codes.{NfsStatus}
use go_nfs.Backend.{Backend}
use go_nfs.Memory.{Memory}
use go_nfs.Handle.{to_option}
use go_nfs.Verifier.{VerifierState, current_write_verifier}
use go_nfs.WriteCache.{wait_commit}
use go_nfs.Server.{Server, flush_handle_all}
use go_nfs.Action.{UserHandler, Action, ◌>>=◌, ◌>>◌, pure, or_raise, require, check, put_memory}

-- &NFSStatusError{statusFromWriteError(err), err}
abbrev pub write_error : Error → Error
write_error e = nfs_error (status_from_write_error (some e)) e

-- what follows NFS3_OK in the reply
pub record CommitReply (b : Backend) : Type 0 where
  pub attrs : Option b.Info
  pub verifier : ℕ

module _ (b : Backend) where
  -- the end of commitByPath, for an open file
  unfoldable pub sync_and_close : ℕ → b.World → Option Error × b.World
  sync_and_close f w =
      if b.can_sync f
      then (let (e, w') = b.sync f w in
          elim e [ some x ↦ (some x, (b.close f w').1) | none ↦ b.close f w' ])
      else b.close f w

  -- commitByPath
  unfoldable pub commit_by_path : b.FilePath → b.World → Option Error × b.World
  unfolding sync_and_close
  commit_by_path path w =
      let (opened, w') = b.open_ro path w in
      elim opened [
        | ok f ↦ sync_and_close f w'
        | err e ↦
            if os_is_not_exist e
            then (none, w')
            else if os_is_permission e
            then (none, w')
            else (some e, w')
      ]

  -- tryStat
  unfoldable pub try_stat : b.FilePath → b.World → Option b.Info
  try_stat path w = to_option (b.lstat path w)

  -- w.Server.flushHandleAll(handle), and the check of its error
  unfoldable pub flush_all : ℕ → Action b Bool
  flush_all key s =
      let (found, e, s') = flush_handle_all b key s in
      elim e [ none ↦ some (ok found, s') | some x ↦ some (err (write_error x), s') ]

  -- commitsTracker().wait(handle), and the check of its error
  unfoldable pub wait_all : (Memory b → Memory b) → ℕ → Action b (Unit {0})
  wait_all others key s = elim (wait_commit b others key s.memory) [
    | none ↦ none
    | some (none, m) ↦ some (ok tt, put_memory m s)
    | some (some e, m) ↦ some (err (write_error e), put_memory m s)
  ]

  -- commitByPath if no connection held a handle, and the check of its error
  unfoldable pub commit_unless : Bool → b.FilePath → Action b (Unit {0})
  commit_unless true path s = some (ok tt, s)
  commit_unless false path s =
      let (e, w) = commit_by_path path s.memory.world in
      check e write_error (put_memory (record s.memory { world = w }) s)

  -- currentWriteVerifier; `racing` is what other goroutines do to it in the middle
  unfoldable pub stamp : (VerifierState → VerifierState) → Action b ℕ
  stamp racing s =
      let (v, st) = current_write_verifier b.random racing s.memory.verifier in
      some (ok v, put_memory (record s.memory { verifier = st }) s)

  abbrev pub world_of : Server b → b.World
  world_of s = s.memory.world

  -- onCommit; `arg` is what xdr.ReadOpaque makes of the request
  unfoldable pub on_commit :
      UserHandler b
      → (Memory b → Memory b)
      → (VerifierState → VerifierState)
      → Result ℕ
      → Action b (CommitReply b)
  on_commit h others racing arg s =
      (do
        key ← or_raise arg (nfs_error NfsStatus.inval)
        (writable, path) ← or_raise (h.from_handle key (world_of s)) (nfs_error NfsStatus.stale)
        require writable (nfs_error NfsStatus.serverfault err_permission)
        found ← flush_all key
        wait_all others key
        commit_unless found path
        attrs ← (λ s'. some (ok (try_stat path (world_of s')), s'))
        v ← stamp racing
        pure (record { attrs = attrs; verifier = v }))
        s
