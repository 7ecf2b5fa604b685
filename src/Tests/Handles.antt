-- ===== src/Tests/Handles.antt =====
-- helpers/cachinghandler.go at concrete requests.
use go_nfs.Base.{arith}
use go_nfs.Caching.Links.{count}
use go_nfs.Base.{Bool-cases, inl, inr, ◌≢◌, ◌*◌}
use go_nfs.Base.{
  length, ◌==◌, if◌then◌else◌, ℕ, ◌+◌, ◌*◌, ◌≡◌, refl, true, Option, none, some, List, [], ◌∷◌,
}
use go_nfs.Caching.History.{Request, requests, requests-IsLinked}
use go_nfs.Caching.Links.{IsVictim, is_key, LruLaws, IsLinked}
use go_nfs.Caching.Trips.{from_handle-to_handle}
use go_nfs.Errors.Chain.{ok}
use go_nfs.Caching.{Lru, Entry, Handler, to_handle, from_handle}
use go_nfs.Caching.History.{to, from, invalidate}

abbrev with_key_zero : Option Entry → Option (ℕ × Entry)
with_key_zero none = none
with_key_zero (some e) = some (0, e)

-- what gives way to a new key: the entry 0, if it is there
abbrev victim : ℕ → (ℕ → Option Entry) → Option (ℕ × Entry)
victim k m = if k == 0 then none else with_key_zero (m 0)

-- a map whose entry 0 gives way to every other
abbrev small_lru : Lru
small_lru = record {
  Store = ℕ → Option Entry;
  get = λ k m. (m k, m);
  peek = λ k m. m k;
  keys = λ m. 0 ∷ 1 ∷ 2 ∷ [];
  add = λ k e m.
      (victim k m, λ j. if k == j then some e else if is_key j (victim k m) then none else m j);
  remove = λ k m. (m k, λ j. if k == j then none else m j);
}

victim-IsVictim : (k : ℕ) (m : ℕ → Option Entry) → IsVictim small_lru k m (victim k m)
victim-IsVictim k m = elim (Bool-cases (k == 0)) [
  | inl same ↦ rw same tt
  | inr apart ↦ rw apart (go (m 0) refl (λ z. ground arith))
]
  where
    go : (o : Option Entry) → m 0 ≡ o → 0 ≢ k → IsVictim small_lru k m (with_key_zero o)
    go none h d = tt
    go (some e) h d = (d, h)

small_laws : LruLaws small_lru
small_laws = record {
  get-peek = λ k m. refl;
  peek-get = λ k j m. refl;
  peek-add = λ k j e m. refl;
  add-IsVictim = λ k e m. victim-IsVictim k m;
  remove-peek = λ k m. refl;
  peek-remove = λ k j m. refl;
}

-- the path string is the number of the components, and tells the file systems apart
abbrev join_path : ℕ → List ℕ → ℕ
join_path f p = f * 100 + length p

abbrev no_handles : Handler small_lru join_path
no_handles = record { active = λ k. none; reverse = λ q. []; has_callback = true; notified = [] }

no_handles-IsLinked : IsLinked small_lru join_path small_laws no_handles
unfolding count
no_handles-IsLinked j q = refl

-- the second ToHandle evicts the handle of the first
abbrev asked : List (Request small_lru join_path small_laws)
asked = to 1 (7 ∷ []) 0 ∷ to 1 (7 ∷ 8 ∷ []) 2 ∷ from 2 ∷ invalidate 2 ∷ []

requests-IsLinked_example :
    IsLinked small_lru join_path small_laws
      (requests small_lru join_path small_laws asked no_handles)
unfolding to_handle
requests-IsLinked_example =
    requests-IsLinked small_lru join_path small_laws asked no_handles (refl, (refl, tt))
      no_handles-IsLinked

from_handle-to_handle_example :
    let r = to_handle small_lru join_path 1 (7 ∷ []) 0 no_handles in
    (e : Entry) × ((from_handle small_lru join_path r.0 r.1).0 ≡ ok e)
    × (e.f ≡ 1)
    × (join_path e.f e.p ≡ join_path 1 (7 ∷ []))
from_handle-to_handle_example =
    from_handle-to_handle small_lru join_path small_laws 1 (7 ∷ []) 0 no_handles refl
      no_handles-IsLinked
