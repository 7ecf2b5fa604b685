-- ===== src/Tracker/Schedule.antt =====
-- committracker.go: resolve (wait and await) under every schedule of the other goroutines.
pub mod Losses
pub mod Wakeups
use go_nfs.Base.{
  ℕ, zero, suc, ◌≡◌, ◌≢◌, refl, sym, ◌∙◌, Bool, true, false, Option, none, some, List, [], ◌∷◌,
  arith, ◌==◌, if◌then◌else◌, update, take, Bool-cases, ◌⊎◌, inl, inr,
}
use go_nfs.Errors.Chain.{Error}
use go_nfs.Tracker.{
  Tracker, begin, settle, in_flight, poll, poll_set, Poll, Event, step, run, turn, resolve_from,
  resolve,
}
use go_nfs.Tracker.Sets.{elem}
use go_nfs.Tracker.Invariant.{members-begin, members-settle}

-- what a consuming call leaves of the tracker that it finds drained
abbrev pub consumed : ℕ → Bool → Tracker → Tracker
consumed k consume u = if consume then record u { errs = update u.errs k none } else u

abbrev pub Turned : ℕ → Bool → Tracker → Poll × Tracker → Type 0
Turned k consume t (Poll.returns e, t') =
    (in_flight t k ≡ []) × (e ≡ t.errs k) × (t' ≡ consumed k consume t)
Turned k consume t (Poll.blocks ch, t') = t' ≡ t

pub poll_set-Turned :
    (k : ℕ) (consume : Bool) (t : Tracker) (set : List ℕ)
    → in_flight t k ≡ set
    → Turned k consume t (poll_set set k consume t)
poll_set-Turned k consume t [] e = (e, refl, refl)
poll_set-Turned k consume t (ch ∷ set) e = refl

pub poll-Turned : (k : ℕ) (consume : Bool) (t : Tracker) → Turned k consume t (poll k consume t)
unfolding poll
poll-Turned k consume t = poll_set-Turned k consume t (in_flight t k) refl

pub turn-Turned :
    (k : ℕ) (consume : Bool) (at : Option ℕ) (t : Tracker)
    → Turned k consume t (turn k consume at t)
turn-Turned k consume none t = poll-Turned k consume t
turn-Turned k consume (some ch) t =
    elim (t.closed ch)
      as (λ b. Turned k consume t (if b then poll k consume t else (Poll.blocks ch, t))) [
        | true ↦ poll-Turned k consume t
        | false ↦ refl
      ]

-- the states that the schedule goes through
abbrev pub run_rounds : List (List Event) → Tracker → Tracker
run_rounds [] t = t
run_rounds (round ∷ rounds) t = run_rounds rounds (run round t)

-- What a call that has returned saw: the tracker after the first `n` rounds, with no flush of the
-- key in flight, the error that it held, and nothing changed but, for a consuming call, that error.
pub record Returned (k : ℕ) (consume : Bool) (rounds : List (List Event)) (t : Tracker)
    (e : Option Error) (t' : Tracker) : Type 0 where
  pub n : ℕ
  pub drained : in_flight (run_rounds (take n rounds) t) k ≡ []
  pub value : e ≡ (run_rounds (take n rounds) t).errs k
  pub left : t' ≡ consumed k consume (run_rounds (take n rounds) t)

module _ (k : ℕ) (consume : Bool) where
  abbrev pub result : Poll × Tracker → List (List Event) → Option (Option Error × Tracker)
  result (Poll.returns err, t') rounds = some (err, t')
  result (Poll.blocks ch, t') rounds = resolve_from k consume (some ch) rounds t'

  pub resolve_from_step :
      (at : Option ℕ) (round : List Event) (rounds : List (List Event)) (t : Tracker)
      → resolve_from k consume at (round ∷ rounds) t
        ≡ result (turn k consume at (run round t)) rounds
  unfolding resolve_from
  resolve_from_step at round rounds t = ground arith

-- every event of the schedule satisfies `Quiet`
abbrev pub AllQuiet : (Event → Type 0) → List Event → Type 0
AllQuiet Quiet [] = Unit
AllQuiet Quiet (e ∷ es) = Quiet e × AllQuiet Quiet es

abbrev pub AreQuiet : (Event → Type 0) → List (List Event) → Type 0
AreQuiet Quiet [] = Unit
AreQuiet Quiet (round ∷ rounds) = AllQuiet Quiet round × AreQuiet Quiet rounds

pub AreQuiet-take :
    (Quiet : Event → Type 0) (n : ℕ) (rounds : List (List Event))
    → AreQuiet Quiet rounds
    → AreQuiet Quiet (take n rounds)
AreQuiet-take Quiet zero rounds q = tt
AreQuiet-take Quiet (suc n) [] q = tt
AreQuiet-take Quiet (suc n) (round ∷ rounds) q = (q.0, AreQuiet-take Quiet n rounds q.1)

-- What every quiet event keeps, a quiet schedule keeps.
module _ (P : Tracker → Type 0) (Quiet : Event → Type 0)
    (keeps : (e : Event) (t : Tracker) → Quiet e → P t → P (step e t)) where
  pub run_keeps : (es : List Event) (t : Tracker) → AllQuiet Quiet es → P t → P (run es t)
  unfolding run
  run_keeps [] t q p = p
  run_keeps (e ∷ es) t q p = run_keeps es (step e t) q.1 (keeps e t q.0 p)

  pub run_rounds_keeps :
      (rounds : List (List Event)) (t : Tracker)
      → AreQuiet Quiet rounds
      → P t
      → P (run_rounds rounds t)
  run_rounds_keeps [] t q p = p
  run_rounds_keeps (round ∷ rounds) t q p =
      run_rounds_keeps rounds (run round t) q.1 (run_keeps round t q.0 p)

module _ (k : ℕ) (consume : Bool) (e : Option Error) (t' : Tracker) where
  pub later :
      (round : List Event) (rounds : List (List Event)) (t : Tracker)
      → Returned k consume rounds (run round t) e t'
      → Returned k consume (round ∷ rounds) t e t'
  later round rounds t r = record {
    n = suc r.n;
    drained = r.drained;
    value = r.value;
    left = r.left;
  }

  pub returned_now :
      (round : List Event) (rounds : List (List Event)) (t : Tracker) (pt : Poll × Tracker)
      → Turned k consume (run round t) pt
      → ((ch : ℕ)
          → resolve_from k consume (some ch) rounds (run round t) ≡ some (e, t')
          → Returned k consume rounds (run round t) e t')
      → result k consume pt rounds ≡ some (e, t')
      → Returned k consume (round ∷ rounds) t e t'
  returned_now round rounds t (Poll.returns err, u) (d, v, l) ih h = record {
    n = 1;
    drained = d;
    value = cc (v);
    left = cc (l);
  }
  returned_now round rounds t (Poll.blocks ch, u) turned ih h =
      later round rounds t (ih ch (rw turned at h))

  pub resolve_from-Returned :
      (at : Option ℕ) (rounds : List (List Event)) (t : Tracker)
      → resolve_from k consume at rounds t ≡ some (e, t')
      → Returned k consume rounds t e t'
  resolve_from-Returned at [] t h = unfold resolve_from in cc
  resolve_from-Returned at (round ∷ rounds) t h =
      returned_now round rounds t (turn k consume at (run round t))
        (turn-Turned k consume at (run round t))
        (λ ch. resolve_from-Returned (some ch) rounds (run round t))
        (sym (resolve_from_step k consume at round rounds t) ∙ h)

-- Whatever the other goroutines do, a wait or an await that returns does so at a moment when no
-- flush of its key is in flight, and returns the error that is recorded at that moment; the
-- tracker is left as it is then, but that a wait, which consumes, clears that error.
pub resolve-Returned :
    (k : ℕ) (consume : Bool) (rounds : List (List Event)) (t : Tracker) {e : Option Error}
    {t' : Tracker}
    → resolve k consume rounds t ≡ some (e, t')
    → Returned k consume rounds t e t'
unfolding resolve
resolve-Returned k consume rounds t {e} {t'} h =
    resolve_from-Returned k consume e t' none rounds t h
