-- ===== src/Tracker.antt =====
-- committracker.go: the mount-wide record of flushes in flight and of lost unstable writes. A key
-- is a number that stands for the bytes of an opaque file handle, a channel is the number of its
-- `make`. Each function is what one critical section of the mutex does.
pub mod Sets
pub mod Invariant
pub mod Schedule
use go_nfs.Base.{
  ℕ, suc, Bool, true, false, Option, none, some, List, [], ◌∷◌, ◌++◌, if◌then◌else◌, ◌==◌, update,
}
use go_nfs.Errors.Chain.{Error}
use Sets.{remove}

pub record Tracker : Type 0 where
  pub pending : ℕ → Option (List ℕ)  -- absent, or the set of channels
  pub errs : ℕ → Option Error
  pub fresh : ℕ  -- the next channel
  pub closed : ℕ → Bool  -- the channels that are closed

-- newCommitTracker
abbrev pub new_commit_tracker : Tracker
new_commit_tracker = record {
  pending = λ _. none;
  errs = λ _. none;
  fresh = 0;
  closed = λ _. false;
}

-- a nil set has no element
abbrev pub members : Option (List ℕ) → List ℕ
members none = []
members (some set) = set

abbrev pub in_flight : Tracker → ℕ → List ℕ
in_flight t key = members (t.pending key)

-- begin
unfoldable pub begin : ℕ → Tracker → ℕ × Tracker
begin key t =
    let ch = t.fresh in
    (
      ch,
      record t {
        pending = update t.pending key (some (in_flight t key ++ ch ∷ []));
        fresh = suc t.fresh;
      },
    )

-- errs[key] = err, if there is one
abbrev pub stash : (ℕ → Option Error) → ℕ → Option Error → ℕ → Option Error
stash errs key none = errs
stash errs key (some e) = update errs key (some e)

-- the set after `delete(set, ch)`, or its absence if nothing is left of it
abbrev pub non_empty : List ℕ → Option (List ℕ)
non_empty [] = none
non_empty (ch ∷ set) = some (ch ∷ set)

abbrev pub without : Option (List ℕ) → ℕ → Option (List ℕ)
without none ch = none
without (some set) ch = non_empty (remove ch set)

-- finish, up to the loss callback
unfoldable pub settle : ℕ → ℕ → Option Error → Tracker → Tracker
settle key ch err t = record t {
  errs = stash t.errs key err;
  pending = update t.pending key (without (t.pending key) ch);
  closed = update t.closed ch true;
}

-- fireLoss, over the state that the callback changes
unfoldable pub fire_loss {ℓ} : {S : Type ℓ} → Option (S → S) → S → S
fire_loss none s = s
fire_loss (some on_loss) s = on_loss s

abbrev pub fire_on {ℓ} : {S : Type ℓ} → Option (S → S) → Option Error → S → S
fire_on on_loss none s = s
fire_on on_loss (some e) s = fire_loss on_loss s

-- finish
unfoldable pub finish {ℓ} :
    {S : Type ℓ} → Option (S → S) → ℕ → ℕ → Option Error → Tracker → S → Tracker × S
unfolding settle
finish on_loss key ch err t s = (settle key ch err t, fire_on on_loss err s)

-- record
unfoldable pub record_err {ℓ} :
    {S : Type ℓ} → Option (S → S) → ℕ → Option Error → Tracker → S → Tracker × S
record_err on_loss key none t s = (t, s)
record_err on_loss key (some e) t s =
    (record t { errs = update t.errs key (some e) }, fire_loss on_loss s)

-- What one pass of the loop of resolve comes to: it returns an error, or it blocks on a channel.
pub data Poll : Type 0 where
  returns : Option Error → Poll
  blocks : ℕ → Poll

abbrev pub poll_set : List ℕ → ℕ → Bool → Tracker → Poll × Tracker
poll_set [] key consume t =
    (Poll.returns (t.errs key), if consume then record t { errs = update t.errs key none } else t)
poll_set (ch ∷ _) key consume t = (Poll.blocks ch, t)

-- one pass of the loop of resolve, which takes any channel of the set: here the one made first
unfoldable pub poll : ℕ → Bool → Tracker → Poll × Tracker
poll key consume t = poll_set (in_flight t key) key consume t

-- What other goroutines do to the tracker.
pub data Event : Type 0 where
  began : ℕ → Event
  finished : ℕ → ℕ → Option Error → Event
  recorded : ℕ → Option Error → Event
  polled : ℕ → Bool → Event

unfoldable pub step : Event → Tracker → Tracker
unfolding begin settle record_err fire_loss poll
step (Event.began key) t = (begin key t).1
step (Event.finished key ch err) t = settle key ch err t
step (Event.recorded key err) t = (record_err {S = Unit {0}} none key err t tt).0
step (Event.polled key consume) t = (poll key consume t).1

unfoldable pub run : List Event → Tracker → Tracker
run [] t = t
run (e ∷ es) t = run es (step e t)

-- The goroutine stands at the head of the loop, or blocks on a channel.
abbrev pub is_ready : Option ℕ → Tracker → Bool
is_ready none t = true
is_ready (some ch) t = t.closed ch

abbrev pub turn : ℕ → Bool → Option ℕ → Tracker → Poll × Tracker
turn key consume none t = poll key consume t
turn key consume (some ch) t = if t.closed ch then poll key consume t else (Poll.blocks ch, t)

-- resolve, from a place of its loop. Each round is what the other goroutines do before this one is
-- scheduled again; `none` if it has not returned when the rounds are over.
unfoldable pub resolve_from :
    ℕ → Bool → Option ℕ → List (List Event) → Tracker → Option (Option Error × Tracker)
unfolding run
resolve_from key consume at [] t = none
resolve_from key consume at (round ∷ rounds) t =
    let (p, t') = turn key consume at (run round t) in
    elim p [
      | Poll.returns err ↦ some (err, t')
      | Poll.blocks ch ↦ resolve_from key consume (some ch) rounds t'
    ]

-- resolve
unfoldable pub resolve : ℕ → Bool → List (List Event) → Tracker → Option (Option Error × Tracker)
unfolding resolve_from
resolve key consume rounds t = resolve_from key consume none rounds t

-- wait
unfoldable pub wait : ℕ → List (List Event) → Tracker → Option (Option Error × Tracker)
unfolding resolve
wait key = resolve key true

-- await
unfoldable pub await : ℕ → List (List Event) → Tracker → Option (Option Error × Tracker)
unfolding resolve
await key = resolve key false
