-- ===== src/Handlers/Create/Steps.antt =====
-- nfs_oncreate.go: how a CREATE makes or overwrites its file, step by step.
use go_nfs.Handlers.Remove.Retried.{
  attempted, dropped, RetriedInto, at_once_into, after_drop_into, drop_each-dropped,
}
use go_nfs.Handlers.Remove.Removed.{handle_for-same, drop_all-same}
use go_nfs.Handlers.Remove.{put_world}
use go_nfs.Server.{drop_handle_all}
use go_nfs.Base.{◌⊎◌}
use go_nfs.Base.{ap, sym}
use go_nfs.Base.{Bool-cases, inl, inr, refl, true, false}
use go_nfs.Errors.Chain.{os_is_not_exist}
use go_nfs.Server.Drop.{IsDetached}
use go_nfs.Handlers.Commit.{world_of}
use go_nfs.Handlers.Create.{create_retried, create_file, create_dropped, apply_created}
use go_nfs.Base.{Bool, [], ◌∷◌, ◌∙◌}
use go_nfs.Handlers.Create.{check_target}
use go_nfs.Action.{◌>>=◌, ◌>>◌, Action, pure, >>=-eq-ok}
use go_nfs.Attributes.Apply.{apply}
use go_nfs.Handlers.Remove.{handle_for, drop_all}
use go_nfs.Handlers.Remove.Removed.{drop_all-IsDetached}
use go_nfs.Handlers.Create.{close_created}
use go_nfs.Action.{UserHandler}
use go_nfs.Attributes.Sattr.{SetFileAttributes}
use go_nfs.Backend.{Backend}
use go_nfs.Base.{ℕ, ◌≡◌, true, Option, none, some, List, arith}
use go_nfs.Changes.{Changer, Files, Names}
use go_nfs.Errors.Chain.{Error, Result, ok, err}
use go_nfs.Handlers.Commit.{world_of}
use go_nfs.Handlers.Create.{check_target, drop_and_retry_into}
use go_nfs.Server.{Server}

-- an answer of dropAndRetry of a closure that sets a variable is one of a run of the closure, the first or the one after the handles are dropped
drop_and_retry_into-Retried :
    (b : Backend) {A : Type 0} (op : Server b → Result A × Server b) (keys : List ℕ)
    (s t : Server b) (a : A)
    → (drop_and_retry_into b op keys s).0 ≡ ok a
    → (drop_and_retry_into b op keys s).1 ≡ t
    → RetriedInto b op (dropped b keys) s a t
unfolding drop_and_retry_into
drop_and_retry_into-Retried b op keys s t a h g = go (op s).0 refl
  where
    go : (o : Result _) → (op s).0 ≡ o → RetriedInto b op (dropped b keys) s a t
    go (ok x) e =
        at_once_into (e ∙ rw (drop_and_retry_into, e) at h) (rw (drop_and_retry_into, e) at g)
    go (err x) e = elim (Bool-cases (os_is_not_exist x)) [
      | inl absent ↦ absurd (cc (rw (drop_and_retry_into, e, absent) at h))
      | inr retried ↦
          let same = drop_each-dropped b keys (op s).1 in
          after_drop_into x e retried (rw (drop_and_retry_into, e, retried, same) at h)
            (rw (drop_and_retry_into, e, retried, same) at g)
    ]

pair_same :
    {b : Backend} (k f key file : ℕ) (s t : Server b)
    → ◌≡◌ {A = Option (Result (ℕ × ℕ) × Server b)} (some (ok (k, f), s)) (some (ok (key, file), t))
    → (k ≡ key) × (s ≡ t)
pair_same k f key file s t e = (ground arith, ground arith)

module _ (b : Backend) (n : Names b) (racing : Server b → Server b) (target : b.FilePath) where
  -- the server after the Close of a file
  abbrev pub closed_file : ℕ → Server b → Server b
  closed_file file u = put_world b (b.close file (world_of b u)).1 u

  -- How fs.Create and Close of the path went from `s` to `t`: with those handles dropped before a
  -- second try.
  pub record IsMade (keys : List ℕ) (s : Server b) (file : ℕ) (t : Server b) : Type 0 where
    pub made : Server b
    pub created : RetriedInto b (attempted b (n.create target) racing) (dropped b keys) s file made
    pub flushed : (b.close file (world_of b made)).0 ≡ none
    pub left : t ≡ closed_file file made

  -- A file that existed: its handle was dropped, then it was truncated, and the handle dropped again.
  pub record Overwrote (h : UserHandler b) (key : ℕ) (s t : Server b) : Type 0 where
    pub info : b.Info
    pub seen : b.stat target (world_of b s) ≡ ok info
    pub named : key ≡ (h.to_handle target (world_of b s)).0
    pub file : ℕ
    pub after : Server b
    pub truncated :
        IsMade
          (key ∷ [])
          (drop_handle_all b key (put_world b (h.to_handle target (world_of b s)).1 s))
          file
          after
    pub dropped_again : t ≡ drop_handle_all b key (racing after)

  -- A file that did not: it was created, and then got its handle.
  pub record MadeNew (h : UserHandler b) (key : ℕ) (s t : Server b) : Type 0 where
    pub missing : Error
    pub unseen : b.stat target (world_of b s) ≡ err missing
    pub file : ℕ
    pub after : Server b
    pub created : IsMade [] s file after
    pub named : key ≡ (h.to_handle target (world_of b after)).0
    pub minted : t ≡ put_world b (h.to_handle target (world_of b after)).1 after

  close_created-file :
      (r : Result ℕ) (file : ℕ) (s t : Server b)
      → close_created b n r s ≡ some (ok file, t)
      → (r ≡ ok file) × ((b.close file (world_of b s)).0 ≡ none) × (t ≡ closed_file file s)
  unfolding close_created
  close_created-file (err x) file s t e = absurd (cc e)
  close_created-file (ok f) file s t e = go (b.close f (world_of b s)).0 refl
    where
      go :
          (o : Option Error)
          → (b.close f (world_of b s)).0 ≡ o
          → (ok f ≡ ok file) × ((b.close file (world_of b s)).0 ≡ none) × (t ≡ closed_file file s)
      go (some x) h = absurd (cc (rw (close_created, h) at e))
      go none h =
          let answer = rw (close_created, h) at e in
          let same : f ≡ file = ground (arith, answer) in
          (ap (λ (k : ℕ). ok k) same, rw (← same) h, rw (← same) (ground (arith, answer)))

  create_retried-IsMade :
      (keys : List ℕ) (file : ℕ) (s t : Server b)
      → create_retried b n racing target keys s ≡ some (ok file, t)
      → IsMade keys s file t
  unfolding create_retried create_file
  create_retried-IsMade keys file s t e =
      let (r, s1) = drop_and_retry_into b (create_file b n racing target) keys s in
      let (answered, fine, left) = close_created-file r file s1 t e in
      record {
        made = s1;
        created =
            drop_and_retry_into-Retried b (attempted b (n.create target) racing) keys s s1 file
              answered refl;
        flushed = fine;
        left = left;
      }

  abbrev dropping : ℕ → Action b (Unit {0})
  dropping k u = drop_all b k (racing u)

  abbrev remade : ℕ → Action b (ℕ × ℕ)
  remade k = create_retried b n racing target (k ∷ []) >>= λ f. dropping k >> pure (k, f)

  -- a file that existed was found by Stat, and nothing has changed
  check_target-found :
      (how : ℕ) (path : b.FilePath) (s t : Server b)
      → check_target b how target path s ≡ some (ok true, t)
      → (t ≡ s) × (info : b.Info) × (b.stat target (world_of b s) ≡ ok info)
  check_target-found how path s t e = go (b.stat target (world_of b s)) refl
    where
      go :
          (o : Result b.Info)
          → b.stat target (world_of b s) ≡ o
          → (t ≡ s) × (info : b.Info) × (b.stat target (world_of b s) ≡ ok info)
      go (ok info) f = (unfold check_target in ground (arith, f, e), info, f)
      go (err x) f = absurd (unfold check_target in ground (arith, f, e))

  -- a file that did not was not found by Stat, and nothing has changed
  check_target-missing :
      (how : ℕ) (path : b.FilePath) (s t : Server b)
      → check_target b how target path s ≡ some (ok false, t)
      → (t ≡ s) × (x : Error) × (b.stat target (world_of b s) ≡ err x)
  check_target-missing how path s t e = go (b.stat target (world_of b s)) refl
    where
      go :
          (o : Result b.Info)
          → b.stat target (world_of b s) ≡ o
          → (t ≡ s) × (x : Error) × (b.stat target (world_of b s) ≡ err x)
      go (ok info) f = absurd (unfold check_target in ground (arith, f, e))
      go (err x) f = (unfold check_target in ground (arith, f, e), x, f)

  create_dropped-IsMade :
      (h : UserHandler b) (info : b.Info) (key file : ℕ) (s t : Server b)
      → b.stat target (world_of b s) ≡ ok info
      → create_dropped b n h racing target true s ≡ some (ok (key, file), t)
      → Overwrote h key s t
  unfolding create_dropped
  create_dropped-IsMade h info key file s t seen e =
      let (k, s1, minted, e1) =
        >>=-eq-ok (handle_for b h target) (λ k. drop_all b k >> remade k) s e in
      let (_, s2, first, e2) = >>=-eq-ok (drop_all b k) (λ _. remade k) s1 e1 in
      let (f, s3, made, e3) =
        >>=-eq-ok (create_retried b n racing target (k ∷ [])) (λ f. dropping k >> pure (k, f)) s2
          e2 in
      let (_, s4, second, e4) = >>=-eq-ok (dropping k) (λ _. pure (k, f)) s3 e3 in
      let (named, there) = handle_for-same b h target k s s1 minted in
      let (same_key, same) = pair_same k f key file s4 t e4 in
      let begun = drop_all-same b k s1 s2 first ∙ ap (drop_handle_all b k) there in
      rw (← same_key) (record {
        info = info;
        seen = seen;
        named = named;
        file = f;
        after = s3;
        truncated = rw (← begun) (create_retried-IsMade (k ∷ []) f s2 s3 made);
        dropped_again = sym same ∙ drop_all-same b k (racing s3) s4 second;
      })

  create_dropped-MadeNew :
      (h : UserHandler b) (x : Error) (key file : ℕ) (s t : Server b)
      → b.stat target (world_of b s) ≡ err x
      → create_dropped b n h racing target false s ≡ some (ok (key, file), t)
      → MadeNew h key s t
  unfolding create_dropped
  create_dropped-MadeNew h x key file s t absent e =
      let (f, s1, made, e1) =
        >>=-eq-ok (create_retried b n racing target [])
          (λ f. handle_for b h target >>= λ k. pure (k, f)) s e in
      let (k, s2, minted, e2) = >>=-eq-ok (handle_for b h target) (λ k. pure (k, f)) s1 e1 in
      let (named, there) = handle_for-same b h target k s1 s2 minted in
      let (same_key, same) = pair_same k f key file s2 t e2 in
      record {
        missing = x;
        unseen = absent;
        file = f;
        after = s1;
        created = create_retried-IsMade [] f s s1 made;
        named = sym same_key ∙ named;
        minted = sym same ∙ there;
      }

  -- Apply ran, and then other goroutines and the last drop
  pub apply_created-applied :
      (fs : Files b) (set : SetFileAttributes) (changer : Option (Changer b)) (key : ℕ)
      (s t : Server b)
      → apply_created b n fs racing set changer target key s ≡ some (ok tt, t)
      → (z : Server b) × (apply b fs set changer target s ≡ some (ok tt, z))
        × (t ≡ drop_handle_all b key (racing z))
        × IsDetached b key t
  unfolding apply_created
  apply_created-applied fs set changer key s t e = go (apply b fs set changer target s) refl
    where
      go :
          (o : Option (Result (Unit {0}) × Server b))
          → apply b fs set changer target s ≡ o
          → (z : Server b) × (apply b fs set changer target s ≡ some (ok tt, z))
            × (t ≡ drop_handle_all b key (racing z))
            × IsDetached b key t
      go none h = absurd (cc (rw (apply_created, h) at e))
      go (some (err x, u)) h = absurd (cc (rw (apply_created, h) at e))
      go (some (ok y, u)) h =
          let last = rw (apply_created, h) at e in
          (u, h, drop_all-same b key (racing u) t last, drop_all-IsDetached b key (racing u) t last)

  -- how the file that the reply names was made
  pub made_by :
      (h : UserHandler b) (how : ℕ) (path : b.FilePath) (existed : Bool) (key file : ℕ)
      (s u s' t : Server b)
      → u ≡ s
      → check_target b how target path u ≡ some (ok existed, s')
      → create_dropped b n h racing target existed s' ≡ some (ok (key, file), t)
      → Overwrote h key s t ⊎ MadeNew h key s t
  made_by h how path true key file s u s' t still seen e =
      let (same, info, found) = check_target-found how path s s' (rw still at seen) in
      inl (create_dropped-IsMade h info key file s t found (rw same at e))
  made_by h how path false key file s u s' t still seen e =
      let (same, x, missing) = check_target-missing how path s s' (rw still at seen) in
      inr (create_dropped-MadeNew h x key file s t missing (rw same at e))
