-- ===== src/Handlers/Lookup/Found.antt =====
-- nfs_onlookup.go: the handle and the attributes that a LOOKUP answers.
use go_nfs.Action.{UserHandler}
use go_nfs.Backend.{Backend}
use go_nfs.Base.{◌≡◌, Option, some}
use go_nfs.Errors.Chain.{ok}
use go_nfs.Handlers.Commit.{world_of, try_stat}
use go_nfs.Handlers.Lookup.{LookupReply, NameKind}
use go_nfs.Handlers.Remove.{DirOpArg}
use go_nfs.Server.{Server}

module _ (b : Backend) (parent : b.FilePath → Option b.FilePath) (h : UserHandler b) where
  -- the reply has the handle that ToHandle gave for the path in the server `s`, and the attributes that
  -- Stat found for the path and the directory in the server `t`
  abbrev pub IsReplyOf : b.FilePath → b.FilePath → Server b → LookupReply b → Server b → Type 0
  IsReplyOf path dir s r t =
      (r.handle ≡ (h.to_handle path (world_of b s)).0)
      × (r.attrs ≡ try_stat b path (world_of b t))
      × (r.dir_attrs ≡ try_stat b dir (world_of b t))

  -- What the reply to a name of each kind is: the handle and the attributes of the directory itself,
  -- those of the directory above it, or those of a file that Lstat finds.
  abbrev pub IsAnswer :
      DirOpArg → b.FilePath → NameKind → Server b → LookupReply b → Server b → Type 0
  IsAnswer obj dir NameKind.dot s r t =
      (r.handle ≡ obj.handle)
      × (r.attrs ≡ try_stat b dir (world_of b t))
      × (r.dir_attrs ≡ try_stat b dir (world_of b t))
  IsAnswer obj dir NameKind.dot_dot s r t =
      (up : b.FilePath) × (parent dir ≡ some up) × IsReplyOf up dir s r t
  IsAnswer obj dir NameKind.plain s r t =
      (info : b.Info) × (b.lstat (b.join_name dir obj.filename) (world_of b s) ≡ ok info)
      × IsReplyOf (b.join_name dir obj.filename) dir s r t
