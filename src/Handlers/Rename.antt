-- ===== src/Handlers/Rename.antt =====
-- nfs_onrename.go: RENAME, which closes the cached files of the source and of the target.
pub mod Renamed
use go_nfs.Action.{◌>>=◌, ◌>>◌}
use go_nfs.Action.{UserHandler, Action, pure, or_raise, require, check}
use go_nfs.Backend.{Backend}
use go_nfs.Base.{length, leb, ◌==◌, if◌then◌else◌, ℕ, ◌&&◌, Option, none, some, List, [], ◌∷◌}
use go_nfs.Changes.{Names}
use go_nfs.Errors.Chain.{
  Error, Result, os_is_not_exist, ok, err, err_permission, err_invalid, nfs_error, nfs_plain,
}
use go_nfs.Errors.Codes.{NfsStatus}
use go_nfs.Handlers.Commit.{try_stat, world_of}
use go_nfs.Handlers.Remove.{
  DirOpArg, path_name_max, removal_error, put_world, drop_all, invalidate_key,
}
use go_nfs.Server.{Server, drop_each, drop_and_retry}

-- the attributes of the two directories, before and after
pub record RenameReply (b : Backend) : Type 0 where
  pub from_pre : b.Info
  pub from_post : Option b.Info
  pub to_pre : b.Info
  pub to_post : Option b.Info

-- the error of Stat of a directory
unfoldable pub stat_error : Error → Error
stat_error e = if os_is_not_exist e then nfs_error NfsStatus.noent e else nfs_error NfsStatus.io e

-- the two handles, without repetition
unfoldable pub both : Option ℕ → Option ℕ → List ℕ
both none none = []
both none (some k) = k ∷ []
both (some k) none = k ∷ []
both (some k) (some l) = if k == l then k ∷ [] else k ∷ l ∷ []

module _ (b : Backend) (n : Names b) (h : UserHandler b) where
  -- Stat of a directory, and IsDir
  unfoldable pub stat_parent : b.FilePath → Action b b.Info
  unfolding stat_error
  stat_parent path s = elim (b.stat path (world_of b s)) [
    | err e ↦ some (err (stat_error e), s)
    | ok info ↦
        if b.is_dir info then some (ok info, s) else some (err (nfs_plain NfsStatus.notdir), s)
  ]

  -- handleForInvalidation
  unfoldable pub handle_for_invalidation : b.FilePath → Server b → Option ℕ × Server b
  handle_for_invalidation path s = elim n.handle_if_cached [
    | some lookup_cached ↦
        let (key, w) = lookup_cached path (world_of b s) in (key, put_world b w s)
    | none ↦ elim (b.stat path (world_of b s)) [
      | err e ↦ (none, s)
      | ok info ↦ let (key, w) = h.to_handle path (world_of b s) in (some key, put_world b w s)
    ]
  ]

  -- resolveHandles
  unfoldable pub resolve_handles : b.FilePath → b.FilePath → Server b → List ℕ × Server b
  unfolding handle_for_invalidation both
  resolve_handles source target s =
      let (old, s1) = handle_for_invalidation source s in
      let (new, s2) = handle_for_invalidation target s1 in (both old new, s2)

  -- fs.Rename; `racing` is what other goroutines do before it
  unfoldable pub rename_file :
      (Server b → Server b) → b.FilePath → b.FilePath → Server b → Option Error × Server b
  rename_file racing source target s =
      let s1 = racing s in
      let (e, w) = n.rename source target (world_of b s1) in (e, put_world b w s1)

  -- dropAndRetry of fs.Rename, and the check of its error
  unfoldable pub rename_retried :
      (Server b → Server b) → b.FilePath → b.FilePath → Action b (Unit {0})
  unfolding rename_file resolve_handles drop_and_retry
  rename_retried racing source target s =
      let (e, s1) =
        drop_and_retry b (rename_file racing source target) (resolve_handles source target) s in
      check e removal_error s1

  -- The loop over the handles after fs.Rename. `racing` is what other goroutines do before each
  -- InvalidateHandle; it is given the handles that are invalidated so far.
  unfoldable pub invalidate_each :
      (List ℕ → Server b → Server b) → List ℕ → List ℕ → Action b (Unit {0})
  unfolding invalidate_key drop_all
  invalidate_each racing gone [] s = some (ok tt, s)
  invalidate_each racing gone (k ∷ ks) s =
      (do invalidate_key b h (racing gone) k; drop_all b k; invalidate_each racing (k ∷ gone) ks) s

  -- onRename from the first drop of the handles on
  unfoldable pub rename_resolved :
      (List ℕ → Server b → Server b) → b.FilePath → b.FilePath → Action b (Unit {0})
  unfolding resolve_handles drop_each rename_retried invalidate_each
  rename_resolved racing source target s =
      (do
        handles ← (λ u. let (ks, u1) = resolve_handles source target u in some (ok ks, u1))
        (λ u. some (ok tt, drop_each b handles u))
        rename_retried (racing []) source target
        handles_after ← (λ u. let (ks, u1) = resolve_handles source target u in some (ok ks, u1))
        invalidate_each racing [] handles_after)
        s

  -- onRename; `from` and `to` are what xdr.Read makes of the request
  unfoldable pub on_rename :
      (List ℕ → Server b → Server b) → Result DirOpArg → Result DirOpArg → Action b (RenameReply b)
  unfolding stat_parent rename_resolved
  on_rename racing from to s =
      (do
        src ← or_raise from (nfs_error NfsStatus.inval)
        (writable, from_path) ←
            or_raise (h.from_handle src.handle (world_of b s)) (nfs_error NfsStatus.stale)
        dst ← or_raise to (nfs_error NfsStatus.inval)
        (_, to_path) ←
            or_raise (h.from_handle dst.handle (world_of b s)) (nfs_error NfsStatus.stale)
        require (n.same_fs src.handle dst.handle (world_of b s))
            (nfs_error NfsStatus.notsupp err_permission)
        require writable (nfs_error NfsStatus.rofs err_permission)
        require (leb (length src.filename) path_name_max && leb (length dst.filename) path_name_max)
            (nfs_error NfsStatus.nametoolong err_invalid)
        from_pre ← stat_parent from_path
        to_pre ← stat_parent to_path
        rename_resolved racing (b.join_name from_path src.filename)
            (b.join_name to_path dst.filename)
        from_post ← (λ u. some (ok (try_stat b from_path (world_of b u)), u))
        to_post ← (λ u. some (ok (try_stat b to_path (world_of b u)), u))
        pure (record {
          from_pre = from_pre;
          from_post = from_post;
          to_pre = to_pre;
          to_post = to_post;
        }))
        s
