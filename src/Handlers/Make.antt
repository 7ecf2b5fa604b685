-- ===== src/Handlers/Make.antt =====
-- What MKDIR, MKNOD, SYMLINK and LINK share: nfs_onmkdir.go, nfs_onmknod.go, nfs_onsymlink.go and
-- nfs_onlink.go. No cached file can be open under a name that does not exist.
pub mod Mkdir
pub mod Mknod
pub mod Symlink
use go_nfs.Action.{UserHandler, Action, ◌>>◌, pure, require, check}
use go_nfs.Attributes.Apply.{apply}
use go_nfs.Attributes.Sattr.{SetFileAttributes}
use go_nfs.Backend.{Backend}
use go_nfs.Base.{length, leb, if◌then◌else◌, ℕ, Option, none, some}
use go_nfs.Caching.{from_handle}
use go_nfs.Changes.{Changer, Files}
use go_nfs.Errors.Chain.{Error, ok, err, err_permission, err_invalid, other, nfs_error, nfs_plain}
use go_nfs.Errors.Codes.{NfsStatus}
use go_nfs.Handlers.Commit.{try_stat, world_of}
use go_nfs.Handlers.Create.{CreateReply}
use go_nfs.Handlers.Remove.{DirOpArg, path_name_max, put_world}
use go_nfs.WriteCache.Calls.{call}

abbrev pub err_exist : Error
err_exist = Error.other 4

module _ (b : Backend) where
  -- FromHandle of the directory, and the checks of the file system and of the name
  unfoldable pub open_parent : UserHandler b → DirOpArg → Action b b.FilePath
  open_parent h obj s = elim (h.from_handle obj.handle (world_of b s)) [
    | err e ↦ some (err (nfs_error NfsStatus.stale e), s)
    | ok (writable, path) ↦
        (require writable (nfs_error NfsStatus.rofs err_permission)
            >> (require (leb (length obj.filename) path_name_max)
                  (nfs_error NfsStatus.nametoolong err_invalid)
                >> pure path))
          s
  ]

  -- Stat of the directory, and IsDir
  unfoldable pub check_parent : b.FilePath → Action b b.Info
  check_parent path s = elim (b.stat path (world_of b s)) [
    | err e ↦ some (err (nfs_error NfsStatus.access e), s)
    | ok info ↦
        if b.is_dir info then some (ok info, s) else some (err (nfs_plain NfsStatus.notdir), s)
  ]

  -- Stat of the new name, which must fail, and then the checks of the directory
  unfoldable pub check_new : b.FilePath → b.FilePath → Action b b.Info
  unfolding check_parent
  check_new target path s = elim (b.stat target (world_of b s)) [
    | ok info ↦ some (err (nfs_error NfsStatus.exist err_exist), s)
    | err _ ↦ check_parent path s
  ]

  -- a call that makes the node, and the check of its error
  unfoldable pub make : (b.World → Option Error × b.World) → Action b (Unit {0})
  make call s =
      let (e, w) = call (world_of b s) in check e (nfs_error NfsStatus.access) (put_world b w s)

  -- Apply, whose error gets that status
  unfoldable pub apply_new :
      Files b
      → NfsStatus
      → SetFileAttributes
      → Option (Changer b)
      → b.FilePath
      → Action b (Unit {0})
  unfolding apply
  apply_new fs status set changer target s = elim (apply b fs set changer target s) [
    | none ↦ none
    | some (err e, s1) ↦ some (err (nfs_error status e), s1)
    | some (ok u, s1) ↦ some (ok u, s1)
  ]

  -- Apply where there is a changer
  unfoldable pub apply_if :
      Files b → SetFileAttributes → Option (Changer b) → b.FilePath → Action b (Unit {0})
  unfolding apply_new
  apply_if fs set none target s = some (ok tt, s)
  apply_if fs set (some c) target s = apply_new fs NfsStatus.io set (some c) target s

  -- the reply, with the attributes of the new name and of the directory
  unfoldable pub reply_new : ℕ → b.FilePath → b.FilePath → Action b (CreateReply b)
  reply_new key target path s =
      let w = world_of b s in
      some (
        ok (record { handle = key; attrs = try_stat b target w; dir_attrs = try_stat b path w }),
        s,
      )
