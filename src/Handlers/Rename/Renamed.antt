-- ===== src/Handlers/Rename/Renamed.antt =====
-- nfs_onrename.go: what a RENAME that answers NFS3_OK has done.
use go_nfs.Handlers.Rename.{handle_for_invalidation}
use go_nfs.Base.{[], Option, none}
use go_nfs.Action.{Action}
use go_nfs.Handlers.Remove.Retried.{attempted, Retried, again_dropped}
use go_nfs.Handlers.Rename.{resolve_handles}
use go_nfs.Server.{drop_each}
use go_nfs.Handlers.Rename.{invalidate_each}
use go_nfs.Server.Drop.{drop_handle_all-detached}
use mathlib.Core.List.{Memᴰ}
use go_nfs.Action.{UserHandler}
use go_nfs.Backend.{Backend}
use go_nfs.Base.{ℕ, ◌≡◌, some, List}
use go_nfs.Changes.{Names}
use go_nfs.Errors.Chain.{ok}
use go_nfs.Handlers.Rename.{invalidate_each}
use go_nfs.Server.{Server}
use go_nfs.Server.Drop.{drop_handle_all-detached, IsDetached}

module _ (b : Backend) (n : Names b) (h : UserHandler b)
    (racing : List ℕ → Server b → Server b) where
  -- what other goroutines do opens no file under a handle that is already invalidated
  abbrev pub Respects : Type 0
  Respects =
      (gone : List ℕ) (k : ℕ) (u : Server b)
      → Memᴰ k gone
      → IsDetached b k u
      → IsDetached b k (racing gone u)

  -- the handles of the source and of the target dropped, as they are resolved in that state
  abbrev pub both_dropped : b.FilePath → b.FilePath → Server b → Server b
  both_dropped source target = again_dropped b (resolve_handles b n h source target)

  -- no connection has a file open under the handle, where there is one
  abbrev pub IsDetachedAt : Option ℕ → Server b → Type 0
  IsDetachedAt none t = Unit
  IsDetachedAt (some k) t = IsDetached b k t

  -- How a RENAME went from `s` to `t`: the handles of both names were dropped, and Rename of the file
  -- system succeeded, at the first try or after another drop, in the state `made`; then the handles
  -- that the two names have in that state were invalidated and dropped one after the other.
  pub record IsRenamed (source target : b.FilePath) (s t : Server b) : Type 0 where
    pub made : Server b
    pub renamed :
        Retried b
          (attempted b (n.rename source target) (racing []))
          (both_dropped source target)
          (both_dropped source target s)
          made
    pub invalidated :
        let (ks, u) = resolve_handles b n h source target made in
        invalidate_each b n h racing [] ks u ≡ some (ok tt, t)
    pub source_detached : IsDetachedAt (handle_for_invalidation b n h source made).0 t
    pub target_detached :
        IsDetachedAt
          (handle_for_invalidation b n h target (handle_for_invalidation b n h source made).1).0
          t

  abbrev resolved : b.FilePath → b.FilePath → Action b (List ℕ)
  resolved source target u =
      let (ks, u1) = resolve_handles b n h source target u in some (ok ks, u1)

  abbrev dropping : List ℕ → Action b (Unit {0})
  dropping ks u = some (ok tt, drop_each b ks u)
