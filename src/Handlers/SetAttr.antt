-- ===== src/Handlers/SetAttr.antt =====
-- nfs_onsetattr.go: SETATTR, which closes the cached files of what it changes, before and after.
pub mod Guarded
use go_nfs.Action.{◌>>=◌, ◌>>◌}
use go_nfs.Action.{UserHandler, Action, pure, or_raise, require}
use go_nfs.Attributes.Apply.{attributes, apply}
use go_nfs.Attributes.Sattr.{SetFileAttributes}
use go_nfs.Backend.{Backend}
use go_nfs.Base.{◌==◌, if◌then◌else◌, ℕ, Bool, ◌&&◌, Option, some}
use go_nfs.Caching.{from_handle}
use go_nfs.Changes.{Changer, Files}
use go_nfs.Errors.Chain.{
  Error, Result, os_is_not_exist, ok, err, err_permission, nfs_error, nfs_plain,
}
use go_nfs.Errors.Codes.{NfsStatus}
use go_nfs.Handlers.Commit.{try_stat, world_of}
use go_nfs.Handlers.Remove.{drop_all}
use go_nfs.Server.{Server}
use go_nfs.Times.{FileTime}

-- the attributes, before and after
pub record SetAttrReply (b : Backend) : Type 0 where
  pub pre : b.Info
  pub post : Option b.Info

-- the error of Lstat
unfoldable pub lstat_error : Error → Error
lstat_error e =
    if os_is_not_exist e then nfs_error NfsStatus.noent e else nfs_error NfsStatus.access e

-- t == attr.Ctime
abbrev pub same_time : FileTime → FileTime → Bool
same_time t u = (t.seconds == u.seconds) && (t.nseconds == u.nseconds)

-- the request, each field what the read of it makes of the body: the handle, the attributes, the
-- word of the guard, and the time that follows if it is not 0
pub record SetAttrArgs : Type 0 where
  pub object : Result ℕ
  pub attrs : Result SetFileAttributes
  pub guard : Result ℕ
  pub guard_time : Result FileTime

module _ (b : Backend) (fs : Files b) where
  -- the test of the guard
  unfoldable pub check_guard : SetAttrArgs → b.Info → b.FilePath → Action b (Unit {0})
  unfolding attributes
  check_guard arg info path s = elim arg.guard [
    | err e ↦ some (err (nfs_error NfsStatus.inval e), s)
    | ok g ↦ if g == 0 then some (ok tt, s) else elim arg.guard_time [
      | err e ↦ some (err (nfs_error NfsStatus.inval e), s)
      | ok t ↦
          require (same_time t (attributes b fs info path).ctime) (nfs_plain NfsStatus.notsync) s
    ]
  ]

  -- onSetAttr from the first drop on; `racing` is what other goroutines do between Apply and the
  -- second drop
  unfoldable pub apply_dropped :
      (Server b → Server b)
      → SetFileAttributes
      → Option (Changer b)
      → b.FilePath
      → ℕ
      → Action b (Unit {0})
  unfolding drop_all apply
  apply_dropped racing set changer path key s =
      (do drop_all b key; apply b fs set changer path; (λ u. drop_all b key (racing u))) s

  -- onSetAttr; `changer` is what Change of the handler gives
  unfoldable pub on_set_attr :
      UserHandler b
      → (Server b → Server b)
      → Option (Changer b)
      → SetAttrArgs
      → Action b (SetAttrReply b)
  unfolding check_guard apply_dropped lstat_error
  on_set_attr h racing changer arg s =
      (do
        key ← or_raise arg.object (nfs_error NfsStatus.inval)
        (writable, path) ← or_raise (h.from_handle key (world_of b s)) (nfs_error NfsStatus.stale)
        set ← or_raise arg.attrs (nfs_error NfsStatus.inval)
        info ← or_raise (b.lstat path (world_of b s)) lstat_error
        check_guard arg info path
        require writable (nfs_error NfsStatus.rofs err_permission)
        apply_dropped racing set changer path key
        post ← (λ u. some (ok (try_stat b path (world_of b u)), u))
        pure (record { pre = info; post = post }))
        s
