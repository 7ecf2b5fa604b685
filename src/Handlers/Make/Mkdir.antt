-- ===== src/Handlers/Make/Mkdir.antt =====
-- nfs_onmkdir.go: MKDIR.
use go_nfs.Action.{◌>>=◌, ◌>>◌}
use go_nfs.Action.{UserHandler, Action, pure, or_raise, require}
use go_nfs.Attributes.Sattr.{SetFileAttributes, mode}
use go_nfs.Backend.{Backend}
use go_nfs.Base.{◌==◌, if◌then◌else◌, ℕ, Bool, false, ◌&&◌, not, Option, some, List, [], ◌∷◌}
use go_nfs.Changes.{Changer, Files, Names}
use go_nfs.Errors.Chain.{Result, ok, err, nfs_error, nfs_plain}
use go_nfs.Errors.Codes.{NfsStatus}
use go_nfs.Handlers.Commit.{world_of}
use go_nfs.Handlers.Create.{CreateReply}
use go_nfs.Handlers.Make.{err_exist, open_parent, check_parent, make, apply_if, reply_new}
use go_nfs.Handlers.Remove.{DirOpArg, handle_for}

-- a decimal number, 0o1363
abbrev pub mkdir_default_mode : ℕ
mkdir_default_mode = 755

-- the names . and ..
unfoldable pub is_dots : List ℕ → Bool
is_dots [] = false
is_dots (c ∷ []) = c == 46
is_dots (c ∷ d ∷ []) = (c == 46) && (d == 46)
is_dots _ = false

module _ (b : Backend) (n : Names b) (fs : Files b) where
  -- Stat of the new name, which may be one of a file that is no directory, or the checks of the
  -- directory
  unfoldable pub check_folder : b.FilePath → b.FilePath → Action b (Unit {0})
  unfolding check_parent
  check_folder target path s = elim (b.stat target (world_of b s)) [
    | ok info ↦ if b.is_dir info then some (err (nfs_plain NfsStatus.exist), s) else some (ok tt, s)
    | err _ ↦ (check_parent b path >> pure tt) s
  ]

  -- onMkdir
  unfoldable pub on_mkdir :
      UserHandler b
      → Option (Changer b)
      → Result DirOpArg
      → Result SetFileAttributes
      → Action b (CreateReply b)
  unfolding open_parent check_folder make apply_if reply_new handle_for is_dots mode
  on_mkdir h changer arg sattr s =
      (do
        obj ← or_raise arg (nfs_error NfsStatus.inval)
        set ← or_raise sattr (nfs_error NfsStatus.inval)
        path ← open_parent b h obj
        require (not (is_dots obj.filename)) (nfs_error NfsStatus.exist err_exist)
        check_folder (b.join_name path obj.filename) path
        make b (n.mkdir_all (b.join_name path obj.filename) (mode set mkdir_default_mode))
        key ← handle_for b h (b.join_name path obj.filename)
        apply_if b fs set changer (b.join_name path obj.filename)
        reply_new b key (b.join_name path obj.filename) path)
        s
