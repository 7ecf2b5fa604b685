-- ===== src/Handlers/Info.antt =====
-- nfs_onreadlink.go, nfs_onfsstat.go, nfs_onfsinfo.go and nfs_onpathconf.go: READLINK, FSSTAT, FSINFO and
-- PATHCONF.
use go_nfs.Action.{◌>>=◌}
use go_nfs.Action.{UserHandler, Action, or_raise}
use go_nfs.Attributes.{has_bit}
use go_nfs.Backend.{Backend}
use go_nfs.Base.{if◌then◌else◌, ℕ, ◌+◌, ◌^◌, Bool, true, false, Option, none, some, List}
use go_nfs.Changes.{Files}
use go_nfs.Errors.Chain.{Error, Result, os_is_not_exist, ok, err, nfs_error}
use go_nfs.Errors.Codes.{NfsStatus}
use go_nfs.Handlers.Commit.{try_stat, world_of}
use go_nfs.Handlers.Remove.{path_name_max, put_world}

-- what follows NFS3_OK in the reply of READLINK
pub record LinkText (b : Backend) : Type 0 where
  pub attrs : Option b.Info
  pub text : List ℕ

-- FSStat
pub record FsStat : Type 0 where
  pub total_size : ℕ
  pub free_size : ℕ
  pub available_size : ℕ
  pub total_files : ℕ
  pub free_files : ℕ
  pub available_files : ℕ
  pub cache_hint : ℕ

-- the defaults, by whether the file system can be written
unfoldable pub default_stat : Bool → FsStat
default_stat writable = record {
  total_size = 2 ^ 62;
  free_size = 2 ^ 62;
  available_size = if writable then 2 ^ 62 else 0;
  total_files = 2 ^ 62;
  free_files = 2 ^ 62;
  available_files = if writable then 2 ^ 62 else 0;
  cache_hint = 0;
}

-- fsinfores
pub record FsInfo : Type 0 where
  pub rtmax : ℕ
  pub rtpref : ℕ
  pub rtmult : ℕ
  pub wtmax : ℕ
  pub wtpref : ℕ
  pub wtmult : ℕ
  pub dtpref : ℕ
  pub maxfilesize : ℕ
  pub time_delta : ℕ
  pub properties : ℕ

-- the values of FSINFO, by whether the file system is a billy.Symlink and whether it can be written;
-- the properties are bits that are not set before
unfoldable pub fs_info : Bool → Bool → FsInfo
fs_info links writable = record {
  rtmax = 2 ^ 30;
  rtpref = 2 ^ 30;
  rtmult = 4096;
  wtmax = 2 ^ 30;
  wtpref = 2 ^ 30;
  wtmult = 4096;
  dtpref = 8192;
  maxfilesize = 2 ^ 62;
  time_delta = 1;
  properties = (if links then 3 else 0) + 8 + (if writable then 16 else 0);
}

-- PathConf
pub record PathConf : Type 0 where
  pub link_max : ℕ
  pub name_max : ℕ
  pub no_trunc : ℕ
  pub chown_restricted : ℕ
  pub case_insensitive : ℕ
  pub case_preserving : ℕ

abbrev pub path_conf : PathConf
path_conf = record {
  link_max = 1;
  name_max = path_name_max;
  no_trunc = 1;
  chown_restricted = 0;
  case_insensitive = 0;
  case_preserving = 1;
}

-- err.(*NFSStatusError)
unfoldable pub is_status_error : Error → Bool
is_status_error (Error.nfs_error t e) = true
is_status_error (Error.nfs_plain t) = true
is_status_error _ = false

module _ (b : Backend) (h : UserHandler b) where
  -- FromHandle of the handle that is read from the request
  unfoldable pub open_handle : Result ℕ → Action b (Bool × b.FilePath)
  open_handle arg s =
      (or_raise arg (nfs_error NfsStatus.inval) >>= λ key.
      or_raise (h.from_handle key (world_of b s)) (nfs_error NfsStatus.stale))
        s

  -- the error of Readlink; a file that is no link has no further error
  unfoldable pub link_error : Files b → b.FilePath → Error → b.World → Error
  link_error fs path e w =
      let other_error =
        if os_is_not_exist e
        then Error.nfs_error NfsStatus.noent e
        else Error.nfs_error NfsStatus.access e in
      elim (b.stat path w) [
        | err _ ↦ other_error
        | ok info ↦
            if has_bit 27 (fs.file_info info).mode_bits
            then other_error
            else Error.nfs_plain NfsStatus.inval
      ]

  -- onReadLink; `readlink` is the method of the file system
  unfoldable pub on_read_link :
      Files b → (b.FilePath → b.World → Result (List ℕ)) → Result ℕ → Action b (LinkText b)
  unfolding open_handle link_error
  on_read_link fs readlink arg s =
      (open_handle arg >>= λ (_, path) t. elim (readlink path (world_of b t)) [
        | err e ↦ some (err (link_error fs path e (world_of b t)), t)
        | ok text ↦ some (ok (record { attrs = try_stat b path (world_of b t); text = text }), t)
      ])
        s

  -- onFSStat; `fs_stat` is FSStat of the handler, which may change the defaults
  unfoldable pub on_fs_stat :
      (FsStat → b.World → Option Error × FsStat × b.World)
      → Result ℕ
      → Action b (Option b.Info × FsStat)
  unfolding open_handle default_stat is_status_error
  on_fs_stat fs_stat arg s =
      (open_handle arg >>= λ (writable, path) t.
      let (e, stat, w) = fs_stat (default_stat writable) (world_of b t) in
      elim e [
        | some x ↦ some (
          err (if is_status_error x then x else Error.nfs_error NfsStatus.serverfault x),
          put_world b w t,
        )
        | none ↦ some (ok (try_stat b path w, stat), put_world b w t)
      ])
        s

  -- onFSInfo; `links` is whether the file system is a billy.Symlink
  unfoldable pub on_fs_info : Bool → Result ℕ → Action b (Option b.Info × FsInfo)
  unfolding open_handle fs_info
  on_fs_info links arg s =
      (open_handle arg >>= λ (writable, path) t.
      some (ok (try_stat b path (world_of b t), fs_info links writable), t))
        s

  -- onPathConf
  unfoldable pub on_path_conf : Result ℕ → Action b (Option b.Info × PathConf)
  unfolding open_handle
  on_path_conf arg s =
      (open_handle arg >>= λ (_, path) t. some (ok (try_stat b path (world_of b t), path_conf), t))
        s
