-- ===== src/Tracker/Schedule/Wakeups.antt =====
-- committracker.go: a wait or an await does not sleep for ever.
use go_nfs.Tracker.Schedule.{result}
use go_nfs.Base.{
  ◌==◌, if◌then◌else◌, Bool-cases, ℕ, ◌≡◌, refl, sym, ◌∙◌, ◌≢◌, ◌⊎◌, inl, inr, Bool, true, false,
  Option, none, some, List, [], ◌∷◌, arith,
}
use go_nfs.Errors.Chain.{Error}
use go_nfs.Tracker.{Tracker, in_flight, Poll, poll_set, poll, Event, turn, resolve_from, resolve}
use go_nfs.Tracker.Invariant.{members-begin, members-settle}
use go_nfs.Tracker.Schedule.{
  Turned, turn-Turned, run_rounds, resolve_from_step, AllQuiet, run_keeps,
}
use go_nfs.Tracker.Sets.{elem}
use go_nfs.Tracker.{settle, step, run}

-- the channel that the goroutine blocks on marks the key, or is closed
abbrev IsAwake : ℕ → ℕ → Tracker → Type 0
IsAwake k ch t = (elem ch (in_flight t k) ≡ true) ⊎ (t.closed ch ≡ true)

abbrev Places : ℕ → Option ℕ → Tracker → Type 0
Places k none t = Unit
Places k (some ch) t = IsAwake k ch t

finished-IsAwake :
    (k ch j c : ℕ) (e : Option Error) (t : Tracker) → IsAwake k ch t → IsAwake k ch (settle j c e t)
finished-IsAwake k ch j c e t (inl m) = elim (Bool-cases (c == ch)) [
  | inl same ↦ inr (unfold settle in rw same)
  | inr other ↦ inl (rw (members-settle j k c ch e t) (ground arith))
]
finished-IsAwake k ch j c e t (inr o) = inr (unfold settle in ground arith)

step-IsAwake :
    (k ch : ℕ) (e : Event) (t : Tracker) → Unit {0} → IsAwake k ch t → IsAwake k ch (step e t)
unfolding step
step-IsAwake k ch (Event.began j) t q (inl m) = inl (rw (members-begin j k ch t) (ground arith))
step-IsAwake k ch (Event.began j) t q (inr o) = inr o
step-IsAwake k ch (Event.finished j c e) t q a = finished-IsAwake k ch j c e t a
step-IsAwake k ch (Event.recorded j none) t q a = a
step-IsAwake k ch (Event.recorded j (some x)) t q a = a
step-IsAwake k ch (Event.polled j consume) t q (inl m) = inl (ground arith)
step-IsAwake k ch (Event.polled j consume) t q (inr o) = inr (ground arith)

run-Places :
    (k : ℕ) (at : Option ℕ) (round : List Event) (t : Tracker)
    → Places k at t
    → Places k at (run round t)
run-Places k none round t p = tt
run-Places k (some ch) round t p =
    run_keeps (IsAwake k ch) (λ _. Unit {0}) (step-IsAwake k ch) round t (every round) p
  where
    every : (es : List Event) → AllQuiet (λ _. Unit {0}) es
    every [] = tt
    every (e ∷ es) = (tt, every es)

module _ (k : ℕ) (consume : Bool) where
  -- where the goroutine stands after a turn
  abbrev Stands : Poll × Tracker → Type 0
  Stands (Poll.returns e, t) = Unit
  Stands (Poll.blocks ch, t) = IsAwake k ch t

  poll_set-Stands :
      (t : Tracker) (set : List ℕ) → in_flight t k ≡ set → Stands (poll_set set k consume t)
  unfolding elem
  poll_set-Stands t [] e = tt
  poll_set-Stands t (ch ∷ set) e = inl (rw e (ground arith))

  turn-Stands : (at : Option ℕ) (t : Tracker) → Places k at t → Stands (turn k consume at t)
  unfolding poll
  turn-Stands none t p = poll_set-Stands t (in_flight t k) refl
  turn-Stands (some ch) t p =
      elim (t.closed ch)
        as (λ b. Stands (if b then poll_set (in_flight t k) k consume t else (Poll.blocks ch, t))) [
          | true ↦ poll_set-Stands t (in_flight t k) refl
          | false ↦ p
        ]

  abbrev HasReturned : Poll × Tracker → Type 0
  HasReturned (Poll.returns e, t) = Unit
  HasReturned (Poll.blocks ch, t) = ⊥

  turn-HasReturned :
      (at : Option ℕ) (t : Tracker)
      → Places k at t
      → in_flight t k ≡ []
      → HasReturned (turn k consume at t)
  unfolding poll elem
  turn-HasReturned none t p d = rw d tt
  turn-HasReturned (some ch) t (inl m) d = cc (rw d at m)
  turn-HasReturned (some ch) t (inr o) d = rw (o, d) tt

  result-ne-none :
      (pt : Poll × Tracker) (t : Tracker) (rounds : List (List Event))
      → Turned k consume t pt
      → Stands pt
      → (((ch : ℕ) → IsAwake k ch t → resolve_from k consume (some ch) rounds t ≢ none)
          ⊎ HasReturned pt)
      → result k consume pt rounds ≢ none
  result-ne-none (Poll.returns e, u) t rounds turned p ih h = cc
  result-ne-none (Poll.blocks ch, u) t rounds turned p (inl ih) h =
      ih ch (rw turned at p) (rw turned at h)
  result-ne-none (Poll.blocks ch, u) t rounds turned p (inr r) h = r

  resolve_from-ne-none :
      (at : Option ℕ) (round : List Event) (rounds : List (List Event)) (t : Tracker)
      → Places k at t
      → in_flight (run_rounds (round ∷ rounds) t) k ≡ []
      → resolve_from k consume at (round ∷ rounds) t ≢ none
  resolve_from-ne-none at round [] t p d h =
      let now = run round t in
      let place = run-Places k at round t p in
      result-ne-none (turn k consume at now) now [] (turn-Turned k consume at now)
        (turn-Stands at now place) (inr (turn-HasReturned at now place d))
        (sym (resolve_from_step k consume at round [] t) ∙ h)
  resolve_from-ne-none at round (next ∷ rounds) t p d h =
      let now = run round t in
      let place = run-Places k at round t p in
      result-ne-none (turn k consume at now) now (next ∷ rounds) (turn-Turned k consume at now)
        (turn-Stands at now place)
        (inl (λ ch a. resolve_from-ne-none (some ch) next rounds now a d))
        (sym (resolve_from_step k consume at round (next ∷ rounds) t) ∙ h)

-- No lost wake-up: in every schedule, of at least one round, at whose end no flush of the key is in
-- flight, the wait or the await has returned.
pub resolve-ne-none :
    (k : ℕ) (consume : Bool) (round : List Event) (rounds : List (List Event)) (t : Tracker)
    → in_flight (run_rounds (round ∷ rounds) t) k ≡ []
    → resolve k consume (round ∷ rounds) t ≢ none
unfolding resolve
resolve-ne-none k consume round rounds t = resolve_from-ne-none k consume none round rounds t tt
