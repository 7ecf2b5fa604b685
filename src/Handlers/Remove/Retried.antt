-- ===== src/Handlers/Remove/Retried.antt =====
-- server.go: the runs of dropAndRetry that succeed, for a call of the file system before which other
-- goroutines run.
use go_nfs.Backend.{Backend}
use go_nfs.Base.{Bool-cases, ℕ, ◌≡◌, refl, false, inl, inr, Option, none, some, List, [], ◌∷◌}
use go_nfs.Errors.Chain.{Error, Result, ok, err, os_is_not_exist}
use go_nfs.Handlers.Commit.{world_of}
use go_nfs.Handlers.Remove.{put_world}
use go_nfs.Server.{Server, drop_handle_all, drop_each, drop_and_retry}

module _ (b : Backend) where
  -- a call of the file system in the state that other goroutines leave
  abbrev pub attempted :
      {A : Type 0} → (b.World → A × b.World) → (Server b → Server b) → Server b → A × Server b
  attempted call racing s =
      let u = racing s in let (a, w) = call (world_of b u) in (a, put_world b w u)

  -- every handle of a list dropped, the first one first
  abbrev pub dropped : List ℕ → Server b → Server b
  dropped [] s = s
  dropped (k ∷ ks) s = dropped ks (drop_handle_all b k s)

  -- From `s` the operation succeeds in `t`: at the first try, or at the second, before which `again`
  -- drops handles, and then the first failed for another reason than that the file does not exist.
  pub data Retried (op : Server b → Option Error × Server b) (again : Server b → Server b)
      (s t : Server b) : Type 0 where
    at_once : (op s).0 ≡ none → (op s).1 ≡ t → Retried op again s t
    after_drop :
        (x : Error)
        → (op s).0 ≡ some x
        → os_is_not_exist x ≡ false
        → (op (again (op s).1)).0 ≡ none
        → (op (again (op s).1)).1 ≡ t
        → Retried op again s t

  -- the same for an operation that also answers a value
  pub data RetriedInto {A : Type 0} (op : Server b → Result A × Server b)
      (again : Server b → Server b) (s : Server b) (a : A) (t : Server b) : Type 0 where
    at_once_into : (op s).0 ≡ ok a → (op s).1 ≡ t → RetriedInto op again s a t
    after_drop_into :
        (x : Error)
        → (op s).0 ≡ err x
        → os_is_not_exist x ≡ false
        → (op (again (op s).1)).0 ≡ ok a
        → (op (again (op s).1)).1 ≡ t
        → RetriedInto op again s a t

  pub drop_each-dropped : (ks : List ℕ) (s : Server b) → drop_each b ks s ≡ dropped ks s
  unfolding drop_each
  drop_each-dropped [] s = refl
  drop_each-dropped (k ∷ ks) s = drop_each-dropped ks (drop_handle_all b k s)

  -- what dropAndRetry does to the handles that it resolves
  abbrev pub again_dropped : (Server b → List ℕ × Server b) → Server b → Server b
  again_dropped handles u = let (ks, v) = handles u in dropped ks v

  pub drop_and_retry-Retried :
      (op : Server b → Option Error × Server b) (handles : Server b → List ℕ × Server b)
      (s t : Server b)
      → (drop_and_retry b op handles s).0 ≡ none
      → (drop_and_retry b op handles s).1 ≡ t
      → Retried op (again_dropped handles) s t
  unfolding drop_and_retry
  drop_and_retry-Retried op handles s t h g = go (op s).0 refl
    where
      go : (e : Option Error) → (op s).0 ≡ e → Retried op (again_dropped handles) s t
      go none e = at_once e (rw (drop_and_retry, e) at g)
      go (some x) e = elim (Bool-cases (os_is_not_exist x)) [
        | inl absent ↦ absurd (cc (rw (drop_and_retry, e, absent) at h))
        | inr retried ↦
            let same = drop_each-dropped (handles (op s).1).0 (handles (op s).1).1 in
            after_drop x e retried (rw (drop_and_retry, e, retried, same) at h)
              (rw (drop_and_retry, e, retried, same) at g)
      ]
