-- ===== src/Tracker/Invariant.antt =====
-- committracker.go: the markers in flight, across begin, finish, record and resolve.
use go_nfs.Base.{
  ℕ, ◌≤◌, ◌<◌, ◌≡◌, ◌≢◌, refl, fun_ext, Bool, true, false, Option, none, some, List, [], ◌∷◌, ◌++◌,
  arith, ◌==◌, if◌then◌else◌, Bool-cases, inl, inr,
}
use go_nfs.Errors.Chain.{Error}
use go_nfs.Tracker.{
  Tracker, new_commit_tracker, begin, settle, in_flight, members, poll, Event, step, run, stash,
  without, non_empty,
}
use go_nfs.Tracker.Sets.{elem, remove, elem-remove, elem-append, remove-append_last}

-- No empty set is kept; a marker is a channel that was made and is open, and marks one key.
pub record IsValid (t : Tracker) : Type 0 where
  pub non_empty : (k : ℕ) → t.pending k ≢ some []
  pub made : (k ch : ℕ) → elem ch (in_flight t k) ≡ true → ch < t.fresh
  pub is_open : (k ch : ℕ) → elem ch (in_flight t k) ≡ true → t.closed ch ≡ false
  pub one_key :
      (k j ch : ℕ) → elem ch (in_flight t k) ≡ true → elem ch (in_flight t j) ≡ true → k ≡ j
  pub unmade : (ch : ℕ) → t.fresh ≤ ch → t.closed ch ≡ false

pub new_commit_tracker-IsValid : IsValid new_commit_tracker
unfolding elem
new_commit_tracker-IsValid = record {
  non_empty = λ k h. cc;
  made = λ k ch h. cc;
  is_open = λ k ch h. cc;
  one_key = λ k j ch h. cc;
  unmade = λ ch h. refl;
}

pub members-begin :
    (k j ch : ℕ) (t : Tracker)
    → elem ch (in_flight (begin k t).1 j) ≡ (
        if k == j
        then (if t.fresh == ch then true else elem ch (in_flight t j))
        else elem ch (in_flight t j))
unfolding begin elem
members-begin k j ch t = ground (arith, elem-append ch (in_flight t k) (t.fresh ∷ []))

members-without :
    (o : Option (List ℕ)) (ch c : ℕ)
    → elem c (members (without o ch)) ≡ (if ch == c then false else elem c (members o))
unfolding elem
members-without none ch c = ground arith
members-without (some set) ch c = go (remove ch set) (elem-remove c ch set)
  where
    go :
        (s : List ℕ)
        → elem c s ≡ (if ch == c then false else elem c set)
        → elem c (members (non_empty s)) ≡ (if ch == c then false else elem c set)
    go [] h = h
    go (x ∷ s) h = h

pub members-settle :
    (k j ch c : ℕ) (err : Option Error) (t : Tracker)
    → elem c (in_flight (settle k ch err t) j) ≡ (
        if k == j
        then (if ch == c then false else elem c (in_flight t j))
        else elem c (in_flight t j))
unfolding settle
members-settle k j ch c err t = ground (arith, members-without (t.pending k) ch c)

snoc-ne-nil : (xs : List ℕ) (x : ℕ) → xs ++ x ∷ [] ≢ []
snoc-ne-nil [] x h = cc
snoc-ne-nil (y ∷ xs) x h = cc

begin-non_empty : (k j : ℕ) (t : Tracker) → IsValid t → (begin k t).1.pending j ≢ some []
unfolding begin
begin-non_empty k j t v h = ground (arith, snoc-ne-nil (in_flight t k) t.fresh, v.non_empty j)

without-non_empty : (o : Option (List ℕ)) (ch : ℕ) → without o ch ≢ some []
without-non_empty none ch h = cc
without-non_empty (some set) ch h = go (remove ch set) h
  where
    go : (s : List ℕ) → non_empty s ≢ some []
    go [] h = cc
    go (x ∷ s) h = cc

module _ (k : ℕ) (t : Tracker) (v : IsValid t) where
  -- `ch` marks `j` once begin has run
  abbrev Begun : ℕ → ℕ → Type 0
  Begun j ch =
      (if k == j
        then (if t.fresh == ch then true else elem ch (in_flight t j))
        else elem ch (in_flight t j))
      ≡ true

  begin-made : (j ch : ℕ) → Begun j ch → ch < (begin k t).1.fresh
  unfolding begin
  begin-made j ch h = ground (arith, v.made j ch)

  begin-is_open : (j ch : ℕ) → Begun j ch → (begin k t).1.closed ch ≡ false
  unfolding begin
  begin-is_open j ch h = ground (arith, v.is_open j ch, v.unmade ch)

  begin-one_key : (i j ch : ℕ) → Begun i ch → Begun j ch → i ≡ j
  begin-one_key i j ch h g = ground (arith, v.one_key i j ch, v.made i ch, v.made j ch)

  begin-unmade : (ch : ℕ) → (begin k t).1.fresh ≤ ch → (begin k t).1.closed ch ≡ false
  unfolding begin
  begin-unmade ch h = ground (arith, v.unmade ch)

  -- begin publishes a marker and keeps the others.
  pub begin-IsValid : IsValid (begin k t).1
  begin-IsValid = record {
    non_empty = λ j. begin-non_empty k j t v;
    made = λ j ch h. begin-made j ch (rw (members-begin k j ch t) at h);
    is_open = λ j ch h. begin-is_open j ch (rw (members-begin k j ch t) at h);
    one_key = λ i j ch h g.
        begin-one_key i j ch (rw (members-begin k i ch t) at h) (rw (members-begin k j ch t) at g);
    unmade = begin-unmade;
  }

module _ (k c : ℕ) (err : Option Error) (t : Tracker) (v : IsValid t)
    (marked : elem c (in_flight t k) ≡ true) where
  -- `ch` still marks `j` once finish has run
  abbrev Unsettled : ℕ → ℕ → Type 0
  Unsettled j ch =
      (if k == j
        then (if c == ch then false else elem ch (in_flight t j))
        else elem ch (in_flight t j))
      ≡ true

  settle-non_empty : (j : ℕ) → (settle k c err t).pending j ≢ some []
  unfolding settle
  settle-non_empty j h = ground (arith, without-non_empty (t.pending k) c, v.non_empty j)

  settle-made : (j ch : ℕ) → Unsettled j ch → ch < (settle k c err t).fresh
  unfolding settle
  settle-made j ch h = ground (arith, v.made j ch)

  settle-is_open : (j ch : ℕ) → Unsettled j ch → (settle k c err t).closed ch ≡ false
  unfolding settle
  settle-is_open j ch h = ground (arith, v.is_open j ch, v.one_key k j c)

  settle-one_key : (i j ch : ℕ) → Unsettled i ch → Unsettled j ch → i ≡ j
  settle-one_key i j ch h g = ground (arith, v.one_key i j ch)

  settle-unmade : (ch : ℕ) → (settle k c err t).fresh ≤ ch → (settle k c err t).closed ch ≡ false
  unfolding settle
  settle-unmade ch h = ground (arith, v.unmade ch, v.made k c)

  -- finish takes its own marker away and keeps the others.
  pub settle-IsValid : IsValid (settle k c err t)
  settle-IsValid = record {
    non_empty = settle-non_empty;
    made = λ j ch h. settle-made j ch (rw (members-settle k j c ch err t) at h);
    is_open = λ j ch h. settle-is_open j ch (rw (members-settle k j c ch err t) at h);
    one_key = λ i j ch h g.
        settle-one_key i j ch (rw (members-settle k i c ch err t) at h)
          (rw (members-settle k j c ch err t) at g);
    unmade = settle-unmade;
  }

-- finish is called with the channel that its begin made, and once.
abbrev pub IsAllowed : Event → Tracker → Type 0
IsAllowed (Event.finished k ch err) t = elem ch (in_flight t k) ≡ true
IsAllowed _ t = Unit

same_markers :
    (t u : Tracker)
    → u.pending ≡ t.pending
    → u.fresh ≡ t.fresh
    → u.closed ≡ t.closed
    → IsValid t
    → IsValid u
same_markers t u p f c v = record {
  non_empty = λ k. rw p (v.non_empty k);
  made = λ k ch. rw (p, f) (v.made k ch);
  is_open = λ k ch. rw (p, c) (v.is_open k ch);
  one_key = λ k j ch. rw p (v.one_key k j ch);
  unmade = λ ch. rw (f, c) (v.unmade ch);
}

poll_markers :
    (k : ℕ) (b : Bool) (t : Tracker)
    → ((poll k b t).1.pending ≡ t.pending)
      × ((poll k b t).1.fresh ≡ t.fresh)
      × ((poll k b t).1.closed ≡ t.closed)
unfolding poll
poll_markers k b t = ground arith

pub step-IsValid : (e : Event) (t : Tracker) → IsAllowed e t → IsValid t → IsValid (step e t)
unfolding step
step-IsValid (Event.began k) t a v = begin-IsValid k t v
step-IsValid (Event.finished k ch err) t a v = settle-IsValid k ch err t v a
step-IsValid (Event.recorded k none) t a v = v
step-IsValid (Event.recorded k (some e)) t a v = same_markers t _ refl refl refl v
step-IsValid (Event.polled k b) t a v =
    let (p, f, c) = poll_markers k b t in same_markers t _ p f c v

-- Every event is allowed where it happens.
abbrev pub AreAllowed : List Event → Tracker → Type 0
AreAllowed [] t = Unit
AreAllowed (e ∷ es) t = IsAllowed e t × AreAllowed es (step e t)

-- Whatever begins, finishes, records and waits run, in any order, as long as each finish is called
-- once with the channel of its begin, a consistent tracker stays consistent: no empty set is kept,
-- and every marker is an open channel of one key. So no channel is closed twice, which would be a
-- panic.
pub run-IsValid : (es : List Event) (t : Tracker) → AreAllowed es t → IsValid t → IsValid (run es t)
unfolding run
run-IsValid [] t a v = v
run-IsValid (e ∷ es) t a v = run-IsValid es (step e t) a.1 (step-IsValid e t a.0 v)

not-marked : (k : ℕ) (t : Tracker) → IsValid t → elem t.fresh (in_flight t k) ≡ false
not-marked k t v = elim (Bool-cases (elem t.fresh (in_flight t k))) [
  | inl p ↦ absurd (omega (arith, v.made k t.fresh p))
  | inr p ↦ p
]

non_empty-members : (o : Option (List ℕ)) → o ≢ some [] → non_empty (members o) ≡ o
non_empty-members none h = refl
non_empty-members (some []) h = absurd (h refl)
non_empty-members (some (x ∷ s)) h = refl

restored :
    (k j : ℕ) (err : Option Error) (t : Tracker)
    → IsValid t
    → (settle k t.fresh err (begin k t).1).pending j ≡ t.pending j
unfolding settle begin
restored k j err t v = ground (
  arith,
  remove-append_last t.fresh (in_flight t k) (not-marked k t v),
  non_empty-members (t.pending k) (v.non_empty k),
)

-- In a consistent tracker, a flush that begins and finishes leaves every set of markers as it was,
-- and leaves its error, if it has one, for the key, and no other error changes.
pub settle-begin :
    (k : ℕ) (err : Option Error) (t : Tracker)
    → IsValid t
    → ((settle k (begin k t).0 err (begin k t).1).pending ≡ t.pending)
      × ((settle k (begin k t).0 err (begin k t).1).errs ≡ stash t.errs k err)
unfolding begin
settle-begin k err t v = (fun_ext (λ j. restored k j err t v), unfold settle in refl)
