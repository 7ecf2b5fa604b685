-- ===== src/Tests/Caches.antt =====
-- handlecache.go and readcache.go at concrete runs.
use go_nfs.Tests.{memory}
use go_nfs.Base.{lookup, ℕ, ◌≤◌, ◌≡◌, refl, false, some, List, [], ◌∷◌, arith}
use go_nfs.Tests.{disk, handle_at, two_files, two_readers}
use go_nfs.WriteCache.{evict_oldest_locked, drop_entry}
use go_nfs.WriteCache.Bounds.{IsBounded, calls-IsBounded}
use go_nfs.WriteCache.Evict.{evict_oldest_locked-oldest}
use go_nfs.WriteCache.Fresh.{put_if_fresh-stale}
use go_nfs.WriteCache.{put_if_fresh, sample_gen}
use go_nfs.WriteCache.Calls.{Call, calls}

two_files-IsBounded : IsBounded two_files
unfolding lookup
two_files-IsBounded = record {
  unique = (refl, (refl, tt));
  small = omega arith;
  positive = omega arith;
}

-- a full cache takes a third file, and an invalidation follows
abbrev work : List (Call disk)
work = Call.put (λ m. m) 7 2 ∷ Call.invalidate 9 ∷ Call.sweep_idle (λ m. m) 40 ∷ []

calls-IsBounded_example : IsBounded (calls disk work two_files memory).0
calls-IsBounded_example = calls-IsBounded disk work two_files memory two_files-IsBounded

put_if_fresh-stale_example :
    put_if_fresh disk
      (λ m. m)
      8
      2
      (sample_gen two_files)
      (calls disk work two_files memory).0
      (calls disk work two_files memory).1
    ≡ (false, (calls disk work two_files memory).0, (calls disk work two_files memory).1)
put_if_fresh-stale_example =
    put_if_fresh-stale disk (λ m. m) 8 2 work two_files memory (omega arith) (omega arith)
      (omega arith)

abbrev last_used_of : ℕ → ℕ
last_used_of p = (handle_at p).last_used

evict_oldest_locked-oldest_example :
    (key : ℕ) × (p : ℕ) × (evict_oldest_locked last_used_of two_files
      ≡ (some (key, p), drop_entry key two_files))
    × (lookup key two_files.entries ≡ some p)
    × (last_used_of p ≤ last_used_of 0)
unfolding lookup
evict_oldest_locked-oldest_example =
    evict_oldest_locked-oldest last_used_of two_files 5 0 (refl, (refl, tt)) refl

two_readers-IsBounded : IsBounded two_readers
unfolding lookup
two_readers-IsBounded = record {
  unique = (refl, (refl, tt));
  small = omega arith;
  positive = omega arith;
}
