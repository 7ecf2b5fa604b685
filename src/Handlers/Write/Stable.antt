-- ===== src/Handlers/Write/Stable.antt =====
-- nfs_onwrite.go: what an acknowledged dataSync or fileSync WRITE promises.
use go_nfs.Base.{
  ℕ, ◌≡◌, true, false, none, some, [], arith, ◌⊎◌, inl, inr, Bool-cases, Option-cases,
}
use go_nfs.Errors.Chain.{Error, ok}
use go_nfs.Backend.{Backend}
use go_nfs.Handle
use go_nfs.Handle.{Memory}
use go_nfs.Tracker.{in_flight}
use go_nfs.WriteCache.{wait_commit}
use go_nfs.Server.{Server}
use go_nfs.Server.Flush.{is_flushed, sync-flushed}
use go_nfs.Action.{◌>>◌, put_memory, >>=-eq-ok}
use go_nfs.Handlers.Commit.{wait_all}
use go_nfs.Handlers.Commit.Durable.{wait_commit-returned, wait_all-ok}
use go_nfs.Handlers.Write.{Others, sync_stable, close_out}

module _ (b : Backend) where
  -- a wait for the key has just returned, and without an error
  pub record HasWaited (others : Memory b → Memory b) (key : ℕ) (m : Memory b) : Type 0 where
    pub before : Memory b
    pub returned : wait_commit b others key before ≡ some (none, m)
    pub drained : in_flight (others before).commits key ≡ []
    pub clear : (others before).commits.errs key ≡ none

  wait_all-HasWaited :
      (others : Memory b → Memory b) (key : ℕ) (s t : Server b)
      → wait_all b others key s ≡ some (ok tt, t)
      → HasWaited others key t.memory
  wait_all-HasWaited others key s t h =
      let w = wait_all-ok b others key s t h in
      let (d, c, _) = wait_commit-returned b others key s.memory t.memory none w in
      record { before = s.memory; returned = w; drained = d; clear = c }

  -- the handle has no unflushed writes or is closed, or a wait has just found nothing lost
  abbrev pub IsDurable : Others b → ℕ → ℕ → Server b → Type 0
  IsDurable o key p t = (is_flushed b p t.memory ≡ true) ⊎ HasWaited o.flushing key t.memory

  module _ (o : Others b) (id key p : ℕ) (s t : Server b) where
    -- the memory after the Sync
    abbrev synced_memory : Memory b
    synced_memory = (Handle.sync b p s.memory).2

    sync_stable_closed :
        (x : Error)
        → (Handle.sync b p s.memory).1 ≡ some x
        → sync_stable b o id key p s ≡ some (ok tt, t)
        → wait_all b o.flushing key (put_memory synced_memory s) ≡ some (ok tt, t)
    unfolding sync_stable
    sync_stable_closed x e h = ground arith

    sync_stable_synced :
        (Handle.sync b p s.memory).1 ≡ none
        → (Handle.sync b p s.memory).0 ≡ true
        → sync_stable b o id key p s ≡ some (ok tt, t)
        → t ≡ put_memory synced_memory s
    unfolding sync_stable
    sync_stable_synced e d h = ground arith

    sync_stable_unable :
        (Handle.sync b p s.memory).1 ≡ none
        → (Handle.sync b p s.memory).0 ≡ false
        → sync_stable b o id key p s ≡ some (ok tt, t)
        → (close_out b id key >> wait_all b o.flushing key) (put_memory synced_memory s)
          ≡ some (ok tt, t)
    unfolding sync_stable
    sync_stable_unable e d h = ground arith

    -- A dataSync or fileSync flush that succeeds has left the handle with nothing unflushed, or has
    -- waited for every flush of the file in flight and found no lost write on record.
    pub sync_stable-IsDurable : sync_stable b o id key p s ≡ some (ok tt, t) → IsDurable o key p t
    sync_stable-IsDurable h = elim (Option-cases (Handle.sync b p s.memory).1) [
      | inr (x, e) ↦ inr (wait_all-HasWaited o.flushing key _ t (sync_stable_closed x e h))
      | inl e ↦ elim (Bool-cases (Handle.sync b p s.memory).0) [
        | inl d ↦ inl (rw (sync_stable_synced e d h) ((sync-flushed b p p s.memory).1 e d))
        | inr d ↦
            let (u, s1, closed, waited) =
              >>=-eq-ok (close_out b id key) (λ _. wait_all b o.flushing key)
                (put_memory synced_memory s) (sync_stable_unable e d h) in
            inr (wait_all-HasWaited o.flushing key s1 t waited)
      ]
    ]
