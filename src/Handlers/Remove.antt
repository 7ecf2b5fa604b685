-- ===== src/Handlers/Remove.antt =====
-- nfs_onremove.go: REMOVE, which closes the cached files of what it removes. RMDIR calls it too.
pub mod Retried
pub mod Removed
use go_nfs.Action.{◌>>=◌, ◌>>◌, UserHandler, Action, pure, or_raise, require, check, put_memory}
use go_nfs.Backend.{Backend}
use go_nfs.Base.{length, leb, if◌then◌else◌, ℕ, Option, some, List, [], ◌∷◌}
use go_nfs.Caching.{to_handle, from_handle, invalidate_handle}
use go_nfs.Errors.Chain.{
  Error, Result, os_is_permission, os_is_not_exist, ok, err, err_permission, nfs_error, nfs_plain,
}
use go_nfs.Errors.Codes.{NfsStatus}
use go_nfs.Handlers.Commit.{try_stat, world_of}
use go_nfs.Server.{Server, drop_handle_all, drop_and_retry}

-- DirOpArg
pub record DirOpArg : Type 0 where
  pub handle : ℕ
  pub filename : List ℕ

abbrev pub path_name_max : ℕ
path_name_max = 255

-- the attributes of the directory, before and after
pub record RemoveReply (b : Backend) : Type 0 where
  pub pre : b.Info
  pub post : Option b.Info

-- the status of an error of Stat or Remove
unfoldable pub status_of_removal : Error → NfsStatus
status_of_removal e =
    if os_is_not_exist e
    then NfsStatus.noent
    else if os_is_permission e
    then NfsStatus.access
    else NfsStatus.io

abbrev pub removal_error : Error → Error
removal_error e = nfs_error (status_of_removal e) e

module _ (b : Backend) where
  -- the attributes of the directory
  unfoldable pub stat_dir : b.FilePath → Action b b.Info
  stat_dir path s = elim (b.stat path (world_of b s)) [
    | err e ↦ some (err (removal_error e), s)
    | ok info ↦
        if b.is_dir info then some (ok info, s) else some (err (nfs_plain NfsStatus.notdir), s)
  ]

  abbrev pub put_world : b.World → Server b → Server b
  put_world w s = put_memory (record s.memory { world = w }) s

  -- ToHandle
  unfoldable pub handle_for : UserHandler b → b.FilePath → Action b ℕ
  handle_for h path s =
      let (key, w) = h.to_handle path (world_of b s) in some (ok key, put_world w s)

  -- dropHandleAll
  unfoldable pub drop_all : ℕ → Action b (Unit {0})
  unfolding drop_handle_all
  drop_all key s = some (ok tt, drop_handle_all b key s)

  -- fs.Remove; `racing` is what other goroutines do before it
  unfoldable pub remove_file :
      (Server b → Server b) → b.FilePath → Server b → Option Error × Server b
  remove_file racing path s =
      let s' = racing s in let (e, w) = b.remove path (world_of b s') in (e, put_world w s')

  -- dropAndRetry of the removal, and the check of its error
  unfoldable pub remove_retried : (Server b → Server b) → b.FilePath → ℕ → Action b (Unit {0})
  unfolding remove_file drop_and_retry
  remove_retried racing path key s =
      let (e, s') = drop_and_retry b (remove_file racing path) (λ t. (key ∷ [], t)) s in
      check e removal_error s'

  -- InvalidateHandle, and the check of its error
  unfoldable pub invalidate_key : UserHandler b → (Server b → Server b) → ℕ → Action b (Unit {0})
  invalidate_key h racing key s =
      let s' = racing s in
      let (e, w) = h.invalidate_handle key (world_of b s') in
      check e (nfs_error NfsStatus.serverfault) (put_world w s')

  -- onRemove from the drop of the handle on
  unfoldable pub remove_handle :
      UserHandler b
      → (Server b → Server b)
      → b.FilePath
      → b.FilePath
      → b.Info
      → ℕ
      → Action b (RemoveReply b)
  unfolding drop_all remove_retried invalidate_key
  remove_handle h racing path target pre key s =
      (do
        drop_all key
        remove_retried racing target key
        invalidate_key h racing key
        drop_all key
        post ← (λ s'. some (ok (try_stat b path (world_of b s')), s'))
        pure (record { pre = pre; post = post }))
        s

  -- onRemove; `arg` is what xdr.Read makes of the request
  unfoldable pub on_remove :
      UserHandler b → (Server b → Server b) → Result DirOpArg → Action b (RemoveReply b)
  unfolding stat_dir handle_for remove_handle
  on_remove h racing arg s =
      (do
        obj ← or_raise arg (nfs_error NfsStatus.inval)
        (writable, path) ←
            or_raise (h.from_handle obj.handle (world_of b s)) (nfs_error NfsStatus.stale)
        require writable (nfs_error NfsStatus.rofs err_permission)
        require (leb (length obj.filename) path_name_max) (nfs_plain NfsStatus.nametoolong)
        pre ← stat_dir path
        key ← handle_for h (b.join_name path obj.filename)
        remove_handle h racing path (b.join_name path obj.filename) pre key)
        s
