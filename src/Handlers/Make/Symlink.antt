-- ===== src/Handlers/Make/Symlink.antt =====
-- nfs_onsymlink.go and nfs_onlink.go: SYMLINK, and LINK, which reads the arguments of SYMLINK.
pub mod Fresh
use go_nfs.Action.{◌>>=◌, ◌>>◌}
use go_nfs.Action.{UserHandler, Action, or_raise}
use go_nfs.Attributes.Sattr.{SetFileAttributes}
use go_nfs.Backend.{Backend}
use go_nfs.Base.{ℕ, Option, none, some, List}
use go_nfs.Changes.{Changer, Files, Names, UnixChanger}
use go_nfs.Errors.Chain.{Result, err, nfs_error, nfs_plain}
use go_nfs.Errors.Codes.{NfsStatus}
use go_nfs.Handlers.Create.{CreateReply}
use go_nfs.Handlers.Make.{open_parent, check_new, make, apply_new, apply_if, reply_new}
use go_nfs.Handlers.Remove.{DirOpArg, handle_for}

-- the request, each field what the read of it makes of the body
pub record LinkArgs : Type 0 where
  pub object : Result DirOpArg
  pub sattr : Result SetFileAttributes
  pub target : Result (List ℕ)

module _ (b : Backend) (fs : Files b) where
  -- onSymlink
  unfoldable pub on_symlink :
      Names b → UserHandler b → Option (Changer b) → LinkArgs → Action b (CreateReply b)
  unfolding open_parent check_new make apply_if reply_new handle_for
  on_symlink n h changer arg s =
      (do
        obj ← or_raise arg.object (nfs_error NfsStatus.inval)
        set ← or_raise arg.sattr (nfs_error NfsStatus.inval)
        target ← or_raise arg.target (nfs_error NfsStatus.inval)
        path ← open_parent b h obj
        check_new b (b.join_name path obj.filename) path
        make b (n.symlink target (b.join_name path obj.filename))
        key ← handle_for b h (b.join_name path obj.filename)
        apply_if b fs set changer (b.join_name path obj.filename)
        reply_new b key (b.join_name path obj.filename) path)
        s

  -- the call of Link, and Apply, where Change gives a UnixChange
  unfoldable pub link_new :
      Option (UnixChanger b) → SetFileAttributes → List ℕ → b.FilePath → Action b (Unit {0})
  unfolding make apply_new
  link_new none set target file s = some (err (nfs_plain NfsStatus.access), s)
  link_new (some c) set target file s =
      (make b (c.link target file) >> apply_new b fs NfsStatus.io set (some c.changer) file) s

  -- onLink
  unfoldable pub on_link :
      UserHandler b → Option (UnixChanger b) → LinkArgs → Action b (CreateReply b)
  unfolding open_parent check_new link_new reply_new handle_for
  on_link h changer arg s =
      (do
        obj ← or_raise arg.object (nfs_error NfsStatus.inval)
        set ← or_raise arg.sattr (nfs_error NfsStatus.inval)
        target ← or_raise arg.target (nfs_error NfsStatus.inval)
        path ← open_parent b h obj
        check_new b (b.join_name path obj.filename) path
        key ← handle_for b h (b.join_name path obj.filename)
        link_new changer set target (b.join_name path obj.filename)
        reply_new b key (b.join_name path obj.filename) path)
        s
