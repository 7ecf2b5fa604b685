-- ===== src/Tests/Trackers.antt =====
-- committracker.go and server.go at concrete runs.
use go_nfs.Base.{ℕ, ◌+◌, ◌≡◌, refl, ◌≢◌, true, none, some, List, [], ◌∷◌}
use go_nfs.Errors.Chain.{enospc}
use go_nfs.Tracker.Invariant.{IsValid, new_commit_tracker-IsValid, run-IsValid}
use go_nfs.Tracker.{poll}
use go_nfs.Tracker.Schedule.{consumed, run_rounds, Returned, resolve-Returned}
use go_nfs.Tracker.Schedule.Losses.{resolve-no_false_success}
use go_nfs.Tracker.Schedule.Wakeups.{resolve-ne-none}
use go_nfs.Verifier.Stable.{use_all, current_write_verifier-constant, reads}
use go_nfs.Tracker.{
  Tracker, new_commit_tracker, Event, begin, settle, stash, resolve, in_flight, run, step,
}
use go_nfs.Tracker.Sets.{elem}
use go_nfs.Verifier.{current_write_verifier}
use go_nfs.Tests.{no_verifier}

-- one flush of the key 5 in flight
abbrev one_flush : Tracker
one_flush = (begin 5 new_commit_tracker).1

-- nothing happens, then the flush fails
abbrev late_loss : List (List Event)
late_loss = [] ∷ (Event.began 6 ∷ Event.finished 5 0 (some enospc) ∷ []) ∷ []

abbrev after_loss : Tracker
after_loss = consumed 5 true (run_rounds late_loss one_flush)

-- the wait blocks in the first round, and returns in the second
resolve_late : resolve 5 true late_loss one_flush ≡ some (some enospc, after_loss)
unfolding resolve begin settle go_nfs.Tracker.poll step go_nfs.Tracker.Sets.remove
resolve_late = refl

resolve-Returned_example : Returned 5 true late_loss one_flush (some enospc) after_loss
resolve-Returned_example = resolve-Returned 5 true late_loss one_flush resolve_late

resolve-no_false_success_example : some enospc ≢ none
unfolding begin elem
resolve-no_false_success_example =
    resolve-no_false_success 5 0 true late_loss one_flush refl (tt, ((tt, (tt, tt)), tt))
      resolve_late

resolve-ne-none_example : resolve 5 true late_loss one_flush ≢ none
unfolding run step begin settle go_nfs.Tracker.Sets.remove
resolve-ne-none_example =
    resolve-ne-none 5 true [] ((Event.began 6 ∷ Event.finished 5 0 (some enospc) ∷ []) ∷ [])
      one_flush refl

abbrev history : List Event
history = Event.began 5 ∷ Event.began 5 ∷ Event.finished 5 0 none ∷ Event.polled 5 true ∷ []

run-IsValid_example : IsValid (run history new_commit_tracker)
unfolding begin elem step
run-IsValid_example =
    run-IsValid history new_commit_tracker (tt, (tt, (refl, (tt, tt)))) new_commit_tracker-IsValid

abbrev draws : ℕ → ℕ
draws n = n + 7

current_write_verifier-constant_example :
    (current_write_verifier draws
      (λ v. v)
      (use_all draws (reads ∷ reads ∷ []) (current_write_verifier draws (λ v. v) no_verifier).1)).0
    ≡ (current_write_verifier draws (λ v. v) no_verifier).0
current_write_verifier-constant_example =
    current_write_verifier-constant draws (λ v. v) (λ v. v) no_verifier (reads ∷ reads ∷ []) tt
