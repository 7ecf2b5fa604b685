-- ===== src/Tracker/Schedule/Losses.antt =====
-- committracker.go: a wait or an await that returns after a loss reports it.
use go_nfs.Base.{
  take, ◌==◌, Bool-cases, ℕ, ◌≡◌, ◌≢◌, ◌⊎◌, inl, inr, Bool, true, false, Option, none, some, List,
  [], arith,
}
use go_nfs.Errors.Chain.{Error}
use go_nfs.Tracker.{Tracker, in_flight, poll, Event, resolve}
use go_nfs.Tracker.Invariant.{members-begin, members-settle}
use go_nfs.Tracker.Schedule.{
  run_rounds, AreQuiet, AreQuiet-take, run_rounds_keeps, resolve-Returned,
}
use go_nfs.Tracker.Sets.{elem}
use go_nfs.Tracker.{begin, settle, step}

module _ (k ch : ℕ) where
  -- the flush `ch` of the key is still in flight, or an error of the key waits for a COMMIT
  abbrev pub IsGuarded : Tracker → Type 0
  IsGuarded t = (elem ch (in_flight t k) ≡ true) ⊎ (t.errs k ≢ none)

  -- if this event ends the flush `ch`, it ends it with an error, and it is no COMMIT of the key
  abbrev pub Loses : Event → Type 0
  Loses (Event.began j) = Unit
  Loses (Event.finished j c none) = ¬ ((j ≡ k) × (c ≡ ch))
  Loses (Event.finished j c (some e)) = Unit
  Loses (Event.recorded j e) = Unit
  Loses (Event.polled j true) = j ≢ k
  Loses (Event.polled j false) = Unit

  began-IsGuarded : (j : ℕ) (t : Tracker) → IsGuarded t → IsGuarded (begin j t).1
  began-IsGuarded j t (inl m) = inl (rw (members-begin j k ch t) (ground arith))
  began-IsGuarded j t (inr e) = inr (unfold begin in e)

  finished-IsGuarded :
      (j c : ℕ) (e : Option Error) (t : Tracker)
      → Loses (Event.finished j c e)
      → IsGuarded t
      → IsGuarded (settle j c e t)
  finished-IsGuarded j c none t q (inl m) =
      inl
        (rw (members-settle j k c ch none t) (ground (arith, λ (p : j ≡ k) (r : c ≡ ch). q (p, r))))
  finished-IsGuarded j c none t q (inr e) = inr (unfold settle in e)
  finished-IsGuarded j c (some x) t q (inl m) = elim (Bool-cases (j == k)) [
    | inl same ↦ inr (unfold settle in λ h. ground arith)
    | inr other ↦ inl (rw (members-settle j k c ch (some x) t) (ground arith))
  ]
  finished-IsGuarded j c (some x) t q (inr e) = inr (unfold settle in λ h. ground arith)

  polled-IsGuarded :
      (j : ℕ) (consume : Bool) (t : Tracker)
      → Loses (Event.polled j consume)
      → IsGuarded t
      → IsGuarded (poll j consume t).1
  unfolding poll
  polled-IsGuarded j true t q (inl m) = inl (ground arith)
  polled-IsGuarded j true t q (inr e) = inr (λ h. ground arith)
  polled-IsGuarded j false t q (inl m) = inl (ground arith)
  polled-IsGuarded j false t q (inr e) = inr (λ h. ground arith)

  step-IsGuarded : (e : Event) (t : Tracker) → Loses e → IsGuarded t → IsGuarded (step e t)
  unfolding step
  step-IsGuarded (Event.began j) t q g = began-IsGuarded j t g
  step-IsGuarded (Event.finished j c e) t q g = finished-IsGuarded j c e t q g
  step-IsGuarded (Event.recorded j none) t q g = g
  step-IsGuarded (Event.recorded j (some x)) t q (inl m) = inl m
  step-IsGuarded (Event.recorded j (some x)) t q (inr e) = inr (λ h. ground arith)
  step-IsGuarded (Event.polled j consume) t q g = polled-IsGuarded j consume t q g

  guarded-ne-none : (t : Tracker) → in_flight t k ≡ [] → IsGuarded t → t.errs k ≢ none
  unfolding elem
  guarded-ne-none t d (inl m) = cc (rw d at m)
  guarded-ne-none t d (inr e) = e

-- No false success: while a flush of the key is in flight that can only end with an error, and no
-- other COMMIT of the key takes the error, a wait or an await that returns does so with an error,
-- whatever else the other goroutines begin, finish, record and wait for in the meantime.
pub resolve-no_false_success :
    (k ch : ℕ) (consume : Bool) (rounds : List (List Event)) (t : Tracker) {e : Option Error}
    {t' : Tracker}
    → elem ch (in_flight t k) ≡ true
    → AreQuiet (Loses k ch) rounds
    → resolve k consume rounds t ≡ some (e, t')
    → e ≢ none
resolve-no_false_success k ch consume rounds t m q h =
    let r = resolve-Returned k consume rounds t h in
    let quiet = AreQuiet-take (Loses k ch) r.n rounds q in
    let reached =
      run_rounds_keeps (IsGuarded k ch) (Loses k ch) (step-IsGuarded k ch) (take r.n rounds) t quiet
        (inl m) in
    rw r.value (guarded-ne-none k ch (run_rounds (take r.n rounds) t) r.drained reached)
