-- ===== src/Attributes/Apply.antt =====
-- file.go: SetFileAttributes.Apply, which changes the mode, the owner, the size and the times of a
-- file, in this order. `changer` is none where the handler gives no billy.Change.
pub mod Documented
pub mod Steps
pub mod Applied
pub mod ReadOnly
use go_nfs.Action.{◌>>=◌, ◌>>◌, Action, check}
use go_nfs.Attributes.{FileAttribute, has_bit, to_file_attribute}
use go_nfs.Attributes.Sattr.{SetFileAttributes}
use go_nfs.Backend.{Backend}
use go_nfs.Base.{ltb, ◌==◌, if◌then◌else◌, ℕ, ◌-◌, ◌%◌, ◌^◌, ◌&&◌, Option, none, some}
use go_nfs.Changes.{Changer, Files}
use go_nfs.Errors.Chain.{
  Error, errors_is, is_err_permission, is_err_not_exist, ok, err, err_permission, err_not_exist,
  err_invalid, nfs_error,
}
use go_nfs.Errors.Codes.{NfsStatus}
use go_nfs.Handlers.Commit.{world_of}
use go_nfs.Handlers.Remove.{put_world}
use go_nfs.Memfs.Content.{truncate}
use go_nfs.Times.{ℤ, native}
use go_nfs.WriteCache.Calls.{call}

abbrev pub or_current : {A : Type 0} → Option A → A → A
or_current none current = current
or_current (some a) current = a

module _ (b : Backend) (fs : Files b) where
  -- a call of the changer, and the check of its error
  unfoldable pub change :
      Option (Changer b)
      → (Changer b → b.World → Option Error × b.World)
      → (Error → Error)
      → Action b (Unit {0})
  change none call wrap s = some (err (nfs_error NfsStatus.notsupp err_permission), s)
  change (some c) call wrap s =
      let (e, w) = call c (world_of b s) in
      check e
        (λ x. if errors_is is_err_permission x then nfs_error NfsStatus.access (wrap x) else x)
        (put_world b w s)

  -- Apply, for SetMode
  unfoldable pub apply_mode :
      Option ℕ → Option (Changer b) → b.FilePath → FileAttribute → Action b (Unit {0})
  apply_mode none changer file curr s = some (ok tt, s)
  apply_mode (some m) changer file curr s =
      if m % 512 == curr.file_mode % 512
      then some (ok tt, s)
      else change changer (λ c. c.chmod file (m % 512)) (λ e. err_permission) s

  -- Apply, for SetUID and SetGID; with neither of them the owner is the current one
  unfoldable pub apply_owner :
      Option ℕ → Option ℕ → Option (Changer b) → b.FilePath → FileAttribute → Action b (Unit {0})
  apply_owner u g changer file curr s =
      let euid = or_current u curr.uid in
      let egid = or_current g curr.gid in
      if (euid == curr.uid) && (egid == curr.gid)
      then some (ok tt, s)
      else change changer (λ c. c.lchown file euid egid) (λ e. err_permission) s

  -- Apply, for SetSize, once the file is open; a size above math.MaxInt64 leaves it open
  unfoldable pub truncate_open : ℕ → ℕ → Action b (Unit {0})
  truncate_open n fp s =
      if ltb (2 ^ 63 - 1) n
      then some (err (nfs_error NfsStatus.inval err_invalid), s)
      else (let (e, w) = fs.truncate fp n (world_of b s) in
          elim e [
            | some x ↦ some (err x, put_world b w s)
            | none ↦ let (e', w') = b.close fp w in check e' (λ x. x) (put_world b w' s)
          ])

  -- Apply, for SetSize
  unfoldable pub apply_size : Option ℕ → b.FilePath → FileAttribute → Action b (Unit {0})
  apply_size none file curr s = some (ok tt, s)
  apply_size (some n) file curr s =
      if has_bit 27 curr.file_mode
      then some (err (nfs_error NfsStatus.notsupp err_invalid), s)
      else (let (opened, w) = fs.open_wo file (world_of b s) in
          elim opened [
            | err e ↦ some (
              err (if errors_is is_err_permission e then nfs_error NfsStatus.access e else e),
              put_world b w s,
            )
            | ok fp ↦ truncate_open n fp (put_world b w s)
          ])

  -- Apply, for SetAtime and SetMtime. It compares pointers to times, which are never the same, so
  -- it calls Chtimes whenever one of the two is given.
  unfoldable pub apply_times :
      Option ℤ → Option ℤ → Option (Changer b) → b.FilePath → FileAttribute → Action b (Unit {0})
  apply_times none none changer file curr s = some (ok tt, s)
  apply_times a m changer file curr s =
      change changer
        (λ c. c.chtimes file (or_current a (native curr.atime)) (or_current m (native curr.mtime)))
        (λ e. e) s

  -- Apply, after Lstat
  unfoldable pub apply_to :
      SetFileAttributes → Option (Changer b) → b.FilePath → FileAttribute → Action b (Unit {0})
  apply_to set changer file curr s =
      (do
        apply_mode set.set_mode changer file curr
        apply_owner set.set_uid set.set_gid changer file curr
        apply_size set.set_size file curr
        apply_times set.set_atime set.set_mtime changer file curr)
        s

  -- the attributes that ToFileAttribute makes of an Info
  unfoldable pub attributes : b.Info → b.FilePath → FileAttribute
  unfolding to_file_attribute
  attributes info path = to_file_attribute (fs.file_info info) (fs.path_bytes path)

  -- Apply. Where Lstat fails otherwise it answers nil.
  unfoldable pub apply : SetFileAttributes → Option (Changer b) → b.FilePath → Action b (Unit {0})
  apply set changer file s = elim (b.lstat file (world_of b s)) [
    | ok info ↦ apply_to set changer file (attributes info file) s
    | err e ↦
        if errors_is is_err_not_exist e
        then some (err (nfs_error NfsStatus.noent err_not_exist), s)
        else if errors_is is_err_permission e
        then some (err (nfs_error NfsStatus.access err_permission), s)
        else some (ok tt, s)
  ]
