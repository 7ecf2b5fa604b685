-- ===== src/Attributes/Apply/ReadOnly.antt =====
-- file.go: Apply where the handler gives no billy.Change.
use go_nfs.Attributes.{FileAttribute}
use go_nfs.Attributes.Apply.{
  or_current, change, apply_mode, apply_size, apply_owner, apply_times, apply_to, attributes, apply,
}
use go_nfs.Attributes.Sattr.{SetFileAttributes}
use go_nfs.Backend.{Backend}
use go_nfs.Base.{
  ◌==◌, if◌then◌else◌, ℕ, ◌%◌, ◌≡◌, refl, Bool, true, false, ◌&&◌, Option, none, some, arith,
}
use go_nfs.Changes.{Files}
use go_nfs.Errors.Chain.{Result, ok, err, err_permission, nfs_error}
use go_nfs.Errors.Codes.{NfsStatus}
use go_nfs.Handlers.Commit.{world_of}
use go_nfs.Server.{Server}
use go_nfs.Times.{ℤ}
use go_nfs.Attributes.Apply.Steps.{masked, mode-masked}
use go_nfs.Action.{◌>>◌, ◌>>=◌, Action, >>=-ok, >>=-err}
use go_nfs.Base.{◌∙◌, Bool, true, false}
use go_nfs.Attributes.Sattr.{mode}

abbrev is_unset : Option ℤ → Bool
is_unset none = true
is_unset (some t) = false

-- whether a request leaves the mode and the owner of a file as they are, and names no time
pub is_current : SetFileAttributes → FileAttribute → Bool
is_current set curr =
    (mode set (curr.file_mode % 512) == curr.file_mode % 512)
    && (((or_current set.set_uid curr.uid == curr.uid)
          && (or_current set.set_gid curr.gid == curr.gid))
        && (is_unset set.set_atime && is_unset set.set_mtime))

module _ (b : Backend) (fs : Files b) (file : b.FilePath) (curr : FileAttribute)
    (s : Server b) where
  abbrev not_supported : Option (Result (Unit {0}) × Server b)
  not_supported = some (err (nfs_error NfsStatus.notsupp err_permission), s)

  abbrev answer : Bool → Option (Result (Unit {0}) × Server b)
  answer unchanged = if unchanged then some (ok tt, s) else not_supported

  mode_answer :
      (m : Option ℕ)
      → apply_mode b fs m none file curr s
        ≡ answer (masked m (curr.file_mode % 512) == curr.file_mode % 512)
  unfolding apply_mode change masked
  mode_answer none = ground arith
  mode_answer (some m) = ground arith

  owner_answer :
      (u g : Option ℕ)
      → apply_owner b fs u g none file curr s
        ≡ answer ((or_current u curr.uid == curr.uid) && (or_current g curr.gid == curr.gid))
  unfolding apply_owner change
  owner_answer u g = refl

  times_answer :
      (a m : Option ℤ) → apply_times b fs a m none file curr s ≡ answer (is_unset a && is_unset m)
  unfolding apply_times change
  times_answer none none = refl
  times_answer none (some m) = refl
  times_answer (some a) m = refl

  chained :
      (p q : Bool) (m : Action b (Unit {0})) (k : Action b (Unit {0}))
      → m s ≡ answer p
      → k s ≡ answer q
      → (m >>= λ _. k) s ≡ answer (p && q)
  chained true q m k hm hk = >>=-ok m (λ _. k) s tt s hm ∙ hk
  chained false q m k hm hk = >>=-err m (λ _. k) s _ s hm

  apply_to-answer :
      (set : SetFileAttributes)
      → set.set_size ≡ none
      → apply_to b fs set none file curr s ≡ answer (is_current set curr)
  unfolding apply_to is_current
  apply_to-answer set unsized =
      let sized : apply_size b fs set.set_size file curr s ≡ some (ok tt, s) =
        rw unsized (unfold apply_size in refl) in
      let times = apply_times b fs set.set_atime set.set_mtime none file curr in
      let rest : Action b (Unit {0}) = (◌>>◌ (apply_size b fs set.set_size file curr) times) in
      rw mode-masked (
        chained _ _ (apply_mode b fs set.set_mode none file curr) _ (mode_answer set.set_mode) (
          chained _ _ (apply_owner b fs set.set_uid set.set_gid none file curr) rest
            (owner_answer set.set_uid set.set_gid)
            (>>=-ok (apply_size b fs set.set_size file curr) (λ _. times) s tt s sized
              ∙ times_answer set.set_atime set.set_mtime)))

-- Without a billy.Change, with no size to set, and where Lstat answers for the file, Apply changes
-- nothing: it succeeds exactly if the request leaves the mode and the owner as they are and names no
-- time, and else it answers NFS3ERR_NOTSUPP.
pub apply_read_only :
    (b : Backend) (fs : Files b) (set : SetFileAttributes) (file : b.FilePath) (info : b.Info)
    (s : Server b)
    → b.lstat file (world_of b s) ≡ ok info
    → set.set_size ≡ none
    → apply b fs set none file s ≡ (
        if is_current set (attributes b fs info file)
        then some (ok tt, s)
        else some (err (nfs_error NfsStatus.notsupp err_permission), s))
unfolding apply
apply_read_only b fs set file info s found unsized =
    rw (apply, found) (apply_to-answer b fs file (attributes b fs info file) s set unsized)
