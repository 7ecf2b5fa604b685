-- ===== src/Handlers/Lookup.antt =====
-- nfs_onlookup.go: LOOKUP.
pub mod Found
use go_nfs.Action.{◌>>=◌, ◌>>◌}
use go_nfs.Action.{UserHandler, Action, or_raise}
use go_nfs.Backend.{Backend}
use go_nfs.Base.{◌==◌, if◌then◌else◌, ℕ, ◌&&◌, Option, none, some, List, [], ◌∷◌}
use go_nfs.Caching.{to_handle, from_handle}
use go_nfs.Errors.Chain.{Result, ok, err, err_permission, err_not_exist, nfs_error, nfs_plain}
use go_nfs.Errors.Codes.{NfsStatus}
use go_nfs.Handlers.Commit.{try_stat, world_of}
use go_nfs.Handlers.Remove.{DirOpArg, put_world}

-- the handle, its attributes and those of the directory
pub record LookupReply (b : Backend) : Type 0 where
  pub handle : ℕ
  pub attrs : Option b.Info
  pub dir_attrs : Option b.Info

-- which of the cases of onLookup a name is in
pub data NameKind : Type 0 where
  dot dot_dot plain : NameKind

unfoldable pub name_kind : List ℕ → NameKind
name_kind [] = NameKind.plain
name_kind (c ∷ []) = if c == 46 then NameKind.dot else NameKind.plain
name_kind (c ∷ d ∷ []) = if (c == 46) && (d == 46) then NameKind.dot_dot else NameKind.plain
name_kind _ = NameKind.plain

-- `parent` is Join of a path without its last name, and none where the path is that of the root
module _ (b : Backend) (parent : b.FilePath → Option b.FilePath) (h : UserHandler b) where
  -- lookupSuccessResponse
  unfoldable pub lookup_reply : ℕ → b.FilePath → b.FilePath → Action b (LookupReply b)
  lookup_reply key path dir s =
      let w = world_of b s in
      some
        (ok (record { handle = key; attrs = try_stat b path w; dir_attrs = try_stat b dir w }), s)

  -- ToHandle, and the reply
  unfoldable pub reply_at : b.FilePath → b.FilePath → Action b (LookupReply b)
  unfolding lookup_reply
  reply_at path dir s =
      let (key, w) = h.to_handle path (world_of b s) in lookup_reply key path dir (put_world b w s)

  -- onLookup, for a directory
  unfoldable pub lookup_in : DirOpArg → b.FilePath → NameKind → Action b (LookupReply b)
  unfolding lookup_reply reply_at
  lookup_in obj dir NameKind.dot s = lookup_reply obj.handle dir dir s
  lookup_in obj dir NameKind.dot_dot s = elim (parent dir) [
    | none ↦ some (err (nfs_error NfsStatus.access err_permission), s)
    | some up ↦ reply_at up dir s
  ]
  lookup_in obj dir NameKind.plain s =
      elim (b.lstat (b.join_name dir obj.filename) (world_of b s)) [
        | err _ ↦ some (err (nfs_error NfsStatus.noent err_not_exist), s)
        | ok info ↦ reply_at (b.join_name dir obj.filename) dir s
      ]

  -- the check of the directory; an error of Lstat has the status NFS3ERR_NOTDIR too
  unfoldable pub check_dir : b.FilePath → Action b (Unit {0})
  check_dir dir s = elim (b.lstat dir (world_of b s)) [
    | err e ↦ some (err (nfs_error NfsStatus.notdir e), s)
    | ok info ↦
        if b.is_dir info then some (ok tt, s) else some (err (nfs_plain NfsStatus.notdir), s)
  ]

  -- onLookup
  unfoldable pub on_lookup : Result DirOpArg → Action b (LookupReply b)
  unfolding check_dir lookup_in name_kind
  on_lookup arg s =
      (do
        obj ← or_raise arg (nfs_error NfsStatus.inval)
        (_, dir) ← or_raise (h.from_handle obj.handle (world_of b s)) (nfs_error NfsStatus.stale)
        check_dir dir
        lookup_in obj dir (name_kind obj.filename))
        s
