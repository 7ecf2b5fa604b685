-- ===== src/Action.antt =====
-- handler.go: the interface that a user's Handler gives to the procedures, and how a procedure runs
-- on the server's state. An error of a procedure is an Error, mostly &NFSStatusError{s, err}, which
-- is `nfs_error s err`; what was changed before an error stays changed.
use go_nfs.Base.{arith}
use go_nfs.Base.{ℕ, Bool, true, false, Option, none, some, ◌≡◌, refl, ap, ◌∙◌}
use go_nfs.Errors.Chain.{Error, Result, ok, err}
use go_nfs.Backend.{Backend}
use go_nfs.Memory.{Memory}
use go_nfs.Server.{Server}

-- The interface Handler, whose own state is part of the world. FromHandle says whether the file
-- system is writable, and gives the joined path. It is taken as a read: that CachingHandler moves the
-- entry to the front of its LRU then, which Caching.antt models, is not part of the world here. Nor is
-- the eviction callback that bindHandleEviction of server.go sets, so a ToHandle that evicts another
-- handle does not drop that one's cached files here.
pub record UserHandler (b : Backend) : Type 0 where
  pub from_handle : ℕ → b.World → Result (Bool × b.FilePath)
  pub to_handle : b.FilePath → b.World → ℕ × b.World
  pub invalidate_handle : ℕ → b.World → Option Error × b.World

-- `none` is a procedure that is still blocked.
abbrev pub Action : Backend → Type 0 → Type 0
Action b A = Server b → Option (Result A × Server b)

module _ {b : Backend} {A B : Type 0} where
  infixl 5 ◌>>=◌ ◌>>◌
  abbrev pub ◌>>=◌ : Action b A → (A → Action b B) → Action b B
  ◌>>=◌ m f s = elim (m s) [
    | none ↦ none
    | some (ok a, s') ↦ f a s'
    | some (err e, s') ↦ some (err e, s')
  ]

  abbrev pub ◌>>◌ : Action b A → Action b B → Action b B
  ◌>>◌ m k = m >>= λ _. k

module _ {b : Backend} {A : Type 0} where
  abbrev pub pure : A → Action b A
  pure a s = some (ok a, s)

  abbrev pub raise : Error → Action b A
  raise e s = some (err e, s)

  -- a read of the file system whose error becomes the given one
  abbrev pub or_raise : Result A → (Error → Error) → Action b A
  or_raise (ok a) wrap s = some (ok a, s)
  or_raise (err e) wrap s = some (err (wrap e), s)

module _ {b : Backend} where
  abbrev pub require : Bool → Error → Action b (Unit {0})
  require true e s = some (ok tt, s)
  require false e s = some (err e, s)

  -- if err != nil { return wrap(err) }
  abbrev pub check : Option Error → (Error → Error) → Action b (Unit {0})
  check none wrap s = some (ok tt, s)
  check (some e) wrap s = some (err (wrap e), s)

  abbrev pub put_memory : Memory b → Server b → Server b
  put_memory m s = record s { memory = m }

-- A sequence that succeeds has a first step that succeeds.
pub >>=-eq-ok :
    {b : Backend} {A B : Type 0} (m : Action b A) (f : A → Action b B) (s : Server b) {r : B}
    {s' : Server b}
    → (m >>= f) s ≡ some (ok r, s')
    → (a : A) × (t : Server b) × (m s ≡ some (ok a, t)) × (f a t ≡ some (ok r, s'))
>>=-eq-ok {b} {A} {B} m f s {r} {s'} h = go (m s) refl h
  where
    go :
        (o : Option (Result A × Server b))
        → m s ≡ o
        → (elim o as (λ _. Option (Result B × Server b)) [
          | none ↦ none
          | some (ok a, t) ↦ f a t
          | some (err e, t) ↦ some (err e, t)
        ])
          ≡ some (ok r, s')
        → (a : A) × (t : Server b) × (m s ≡ some (ok a, t)) × (f a t ≡ some (ok r, s'))
    go none e h = cc
    go (some (ok a, t)) e h = (a, t, e, h)
    go (some (err x, t)) e h = cc

module _ {b : Backend} {A B : Type 0} (m : Action b A) (f : A → Action b B) (s : Server b) where
  bound : Option (Result A × Server b) → Option (Result B × Server b)
  bound none = none
  bound (some (ok a, t)) = f a t
  bound (some (err e, t)) = some (err e, t)

  bound-eq : (o : Option (Result A × Server b)) → m s ≡ o → (m >>= f) s ≡ bound o
  unfolding bound
  bound-eq o e =
      ap
        (λ (r : Option (Result A × Server b)). elim r as (λ _. Option (Result B × Server b)) [
          | none ↦ none
          | some (ok a, t) ↦ f a t
          | some (err x, t) ↦ some (err x, t)
        ])
        e
      ∙ shape o
    where
      shape :
          (r : Option (Result A × Server b))
          → (elim r as (λ _. Option (Result B × Server b)) [
            | none ↦ none
            | some (ok a, t) ↦ f a t
            | some (err x, t) ↦ some (err x, t)
          ])
            ≡ bound r
      shape none = refl
      shape (some (ok a, t)) = refl
      shape (some (err x, t)) = refl

  -- A step that succeeds hands its value on, and one that fails is the end of the sequence.
  pub >>=-ok : (a : A) (t : Server b) → m s ≡ some (ok a, t) → (m >>= f) s ≡ f a t
  unfolding bound
  >>=-ok a t e = bound-eq (some (ok a, t)) e

  pub >>=-err : (x : Error) (t : Server b) → m s ≡ some (err x, t) → (m >>= f) s ≡ some (err x, t)
  unfolding bound
  >>=-err x t e = bound-eq (some (err x, t)) e

-- A read hands on what was read, and no change of the state.
pub or_raise-same :
    {b : Backend} {A : Type 0} (r : Result A) (wrap : Error → Error) (a : A) (s t : Server b)
    → or_raise r wrap s ≡ some (ok a, t)
    → (r ≡ ok a) × (t ≡ s)
or_raise-same (ok x) wrap a s t e = (ground arith, ground arith)
or_raise-same (err x) wrap a s t e = absurd (cc e)

pub check-same :
    {b : Backend} (e : Option Error) (wrap : Error → Error) (s t : Server b)
    → check e wrap s ≡ some (ok tt, t)
    → t ≡ s
check-same none wrap s t h = ground arith
check-same (some x) wrap s t h = absurd (cc h)

pub result-same :
    {b : Backend} {A : Type 0} (r r' : A) (s t : Server b)
    → ◌≡◌ {A = Option (Result A × Server b)} (some (ok r, s)) (some (ok r', t))
    → s ≡ t
result-same r r' s t e = ground arith
