-- ===== src/Handlers/Create.antt =====
-- nfs_oncreate.go: CREATE, which closes the cached files of a file that it truncates.
pub mod Steps
pub mod Created
use go_nfs.Action.{◌>>=◌, ◌>>◌}
use go_nfs.Base.{◌||◌}
use go_nfs.Action.{UserHandler, Action, pure, or_raise, require}
use go_nfs.Attributes.Apply.{apply}
use go_nfs.Attributes.Sattr.{SetFileAttributes}
use go_nfs.Backend.{Backend}
use go_nfs.Base.{
  length, leb, ◌==◌, if◌then◌else◌, ℕ, Bool, true, false, Option, none, some, List, [], ◌∷◌,
}
use go_nfs.Caching.{from_handle}
use go_nfs.Changes.{Changer, Files, Names}
use go_nfs.Errors.Chain.{
  Result, os_is_not_exist, ok, err, err_permission, err_invalid, nfs_error, nfs_plain,
}
use go_nfs.Errors.Codes.{NfsStatus}
use go_nfs.Handlers.Commit.{try_stat, world_of}
use go_nfs.Handlers.Remove.{DirOpArg, path_name_max, put_world, handle_for, drop_all}
use go_nfs.Server.{Server, drop_each}

abbrev pub create_mode_guarded : ℕ
create_mode_guarded = 1

-- the request, each field what the read of it makes of the body
pub record CreateArgs : Type 0 where
  pub object : Result DirOpArg
  pub how : Result ℕ
  pub sattr : Result SetFileAttributes  -- in the modes unchecked and guarded
  pub verf : Result (Unit {0})  -- in the mode exclusive

-- the handle, the attributes of the file and those of the directory
pub record CreateReply (b : Backend) : Type 0 where
  pub handle : ℕ
  pub attrs : Option b.Info
  pub dir_attrs : Option b.Info

module _ (b : Backend) where
  -- the attributes of the request, by its mode
  unfoldable pub read_how : ℕ → CreateArgs → Action b SetFileAttributes
  read_how how arg s =
      if (how == 0) || (how == create_mode_guarded)
      then or_raise arg.sattr (nfs_error NfsStatus.inval) s
      else if how == 2
      then elim arg.verf [
        | err e ↦ some (err (nfs_error NfsStatus.inval e), s)
        | ok u ↦ some (err (nfs_error NfsStatus.notsupp err_permission), s)
      ]
      else some (err (nfs_error NfsStatus.notsupp err_invalid), s)

  -- whether the file exists, where it may be created
  unfoldable pub check_target : ℕ → b.FilePath → b.FilePath → Action b Bool
  check_target how target path s = elim (b.stat target (world_of b s)) [
    | ok info ↦
        if b.is_dir info
        then some (err (nfs_plain NfsStatus.exist), s)
        else if how == create_mode_guarded
        then some (err (nfs_error NfsStatus.exist err_permission), s)
        else some (ok true, s)
    | err _ ↦ elim (b.stat path (world_of b s)) [
      | err e ↦ some (err (nfs_error NfsStatus.access e), s)
      | ok info ↦
          if b.is_dir info then some (ok false, s) else some (err (nfs_plain NfsStatus.notdir), s)
    ]
  ]

  -- dropAndRetry of a closure that also sets a variable
  unfoldable pub drop_and_retry_into :
      {A : Type 0} → (Server b → Result A × Server b) → List ℕ → Server b → Result A × Server b
  unfolding drop_each
  drop_and_retry_into op keys s =
      let (r, s1) = op s in
      elim r [
        | ok a ↦ (ok a, s1)
        | err x ↦ if os_is_not_exist x then (err x, s1) else op (drop_each b keys s1)
      ]

  module _ (n : Names b) where
    -- fs.Create; `racing` is what other goroutines do before it
    unfoldable pub create_file : (Server b → Server b) → b.FilePath → Server b → Result ℕ × Server b
    create_file racing target s =
        let s1 = racing s in let (r, w) = n.create target (world_of b s1) in (r, put_world b w s1)

    -- the check of the error of fs.Create, and Close
    unfoldable pub close_created : Result ℕ → Action b ℕ
    close_created (err e) s = some (err (nfs_error NfsStatus.access e), s)
    close_created (ok file) s =
        let (e, w) = b.close file (world_of b s) in
        elim e [
          | some x ↦ some (err (nfs_error NfsStatus.access x), put_world b w s)
          | none ↦ some (ok file, put_world b w s)
        ]

    -- fs.Create under dropAndRetry, and Close
    unfoldable pub create_retried : (Server b → Server b) → b.FilePath → List ℕ → Action b ℕ
    unfolding drop_and_retry_into create_file close_created
    create_retried racing target keys s =
        let (r, s1) = drop_and_retry_into (create_file racing target) keys s in close_created r s1

    -- onCreate from the handle of a file that existed to the drop after the truncation
    unfoldable pub create_dropped :
        UserHandler b → (Server b → Server b) → b.FilePath → Bool → Action b (ℕ × ℕ)
    unfolding handle_for drop_all create_retried
    create_dropped h racing target true s =
        (do
          key ← handle_for b h target
          drop_all b key
          file ← create_retried racing target (key ∷ [])
          (λ u. drop_all b key (racing u))
          pure (key, file))
          s
    create_dropped h racing target false s =
        (do file ← create_retried racing target []; key ← handle_for b h target; pure (key, file)) s

    -- Apply, whose error gets the status NFS3ERR_IO, and the last drop
    unfoldable pub apply_created :
        Files b
        → (Server b → Server b)
        → SetFileAttributes
        → Option (Changer b)
        → b.FilePath
        → ℕ
        → Action b (Unit {0})
    unfolding apply drop_all
    apply_created fs racing set changer target key s = elim (apply b fs set changer target s) [
      | none ↦ none
      | some (err e, s1) ↦ some (err (nfs_error NfsStatus.io e), s1)
      | some (ok _, s1) ↦ drop_all b key (racing s1)
    ]

    -- onCreate
    unfoldable pub on_create :
        Files b
        → UserHandler b
        → (Server b → Server b)
        → Option (Changer b)
        → CreateArgs
        → Action b (CreateReply b)
    unfolding read_how check_target create_dropped apply_created
    on_create fs h racing changer arg s =
        (do
          obj ← or_raise arg.object (nfs_error NfsStatus.inval)
          how ← or_raise arg.how (nfs_error NfsStatus.inval)
          set ← read_how how arg
          (writable, path) ←
              or_raise (h.from_handle obj.handle (world_of b s)) (nfs_error NfsStatus.stale)
          require writable (nfs_error NfsStatus.rofs err_permission)
          require (leb (length obj.filename) path_name_max) (nfs_plain NfsStatus.nametoolong)
          existed ← check_target how (b.join_name path obj.filename) path
          (key, file) ← create_dropped h racing (b.join_name path obj.filename) existed
          apply_created fs racing set changer (b.join_name path obj.filename) key
          attrs ← (λ u. some (ok (try_stat b (n.file_name file) (world_of b u)), u))
          dir_attrs ← (λ u. some (ok (try_stat b path (world_of b u)), u))
          pure (record { handle = key; attrs = attrs; dir_attrs = dir_attrs }))
          s
