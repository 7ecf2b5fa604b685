-- ===== src/WriteCache/Evict.antt =====
-- handlecache.go: evictOldestLocked takes the least recently used entry.
use go_nfs.Base.{
  ℕ, ◌≤◌, ◌≡◌, refl, none, some, List, [], ◌∷◌, arith, ltb, lookup, HasUniqueKeys, Bool-cases, ◌⊎◌,
  inl, inr,
}
use go_nfs.WriteCache.{WriteCache, keep_older, oldest_from, evict_oldest_locked, drop_entry}

module _ (used : ℕ → ℕ) where
  -- `r` is an entry of `es` with its last use, or what the loop started from, and no entry of `es`
  -- is older
  record IsOldest (es : List (ℕ × ℕ)) (start r : ℕ × ℕ × ℕ) : Type 0 where
    older : r.2 ≤ start.2
    least : (key q : ℕ) → lookup key es ≡ some q → r.2 ≤ used q
    origin : (r ≡ start) ⊎ ((lookup r.0 es ≡ some r.1) × (r.2 ≡ used r.1))

  IsOldest-cons :
      (k p : ℕ) (es : List (ℕ × ℕ)) (start mid r : ℕ × ℕ × ℕ)
      → lookup k es ≡ none
      → keep_older k p (used p) (some start) ≡ some mid
      → IsOldest es mid r
      → IsOldest ((k, p) ∷ es) start r
  unfolding lookup keep_older
  IsOldest-cons k p es start mid r absent e o = record {
    older = ground (arith, o.older);
    least = λ key q h. ground (arith, o.older, o.least key q);
    origin = origin o.origin;
  }
    where
      origin :
          (r ≡ mid) ⊎ ((lookup r.0 es ≡ some r.1) × (r.2 ≡ used r.1))
          → (r ≡ start) ⊎ ((lookup r.0 ((k, p) ∷ es) ≡ some r.1) × (r.2 ≡ used r.1))
      origin (inl m) = elim (Bool-cases (ltb (used p) start.2)) [
        | inl lt ↦ inr (ground arith, ground arith)
        | inr ge ↦ inl (ground arith)
      ]
      origin (inr (found, its_use)) = inr (ground arith, its_use)

  oldest_from-IsOldest :
      (es : List (ℕ × ℕ)) (start : ℕ × ℕ × ℕ)
      → HasUniqueKeys es
      → (r : ℕ × ℕ × ℕ) × (oldest_from used es (some start) ≡ some r) × IsOldest es start r
  unfolding oldest_from lookup
  oldest_from-IsOldest [] start u =
      (start, refl, record { older = omega arith; least = λ key q h. cc; origin = inl refl })
  oldest_from-IsOldest ((k, p) ∷ es) start u =
      let (mid, kept) = keep k p start in
      let (r, e, o) = oldest_from-IsOldest es mid u.1 in
      (r, rw kept e, IsOldest-cons k p es start mid r u.0 kept o)
    where
      keep :
          (k p : ℕ) (start : ℕ × ℕ × ℕ)
          → (mid : ℕ × ℕ × ℕ) × (keep_older k p (used p) (some start) ≡ some mid)
      keep k p start = elim (Bool-cases (ltb (used p) start.2)) [
        | inl lt ↦ ((k, p, used p), unfold keep_older in rw lt)
        | inr ge ↦ (start, unfold keep_older in rw ge)
      ]

  oldest_of_all :
      (es : List (ℕ × ℕ)) (k q : ℕ)
      → HasUniqueKeys es
      → lookup k es ≡ some q
      → (r : ℕ × ℕ × ℕ) × (oldest_from used es none ≡ some r)
        × (lookup r.0 es ≡ some r.1)
        × ((j s : ℕ) → lookup j es ≡ some s → used r.1 ≤ used s)
  unfolding oldest_from keep_older lookup
  oldest_of_all [] k q u h = cc
  oldest_of_all ((k', p) ∷ es) k q u h =
      let (r, e, o) = oldest_from-IsOldest es (k', p, used p) u.1 in
      (r, e, found r o.origin, λ j s g. least r o o.origin j s g)
    where
      found :
          (r : ℕ × ℕ × ℕ)
          → (r ≡ (k', p, used p)) ⊎ ((lookup r.0 es ≡ some r.1) × (r.2 ≡ used r.1))
          → lookup r.0 ((k', p) ∷ es) ≡ some r.1
      found r (inl e) = ground arith
      found r (inr o) = ground arith

      least :
          (r : ℕ × ℕ × ℕ)
          → IsOldest es (k', p, used p) r
          → (r ≡ (k', p, used p)) ⊎ ((lookup r.0 es ≡ some r.1) × (r.2 ≡ used r.1))
          → (j s : ℕ) → lookup j ((k', p) ∷ es) ≡ some s
          → used r.1 ≤ used s
      least r o (inl e) j s g = ground (arith, o.older, o.least j s)
      least r o (inr e) j s g = ground (arith, o.older, o.least j s)

  -- With an entry in the cache, and each key there once, evictOldestLocked takes an entry out of
  -- the map and leaves the rest, and no entry, whichever is given, was used longer ago than the one
  -- that it takes.
  pub evict_oldest_locked-oldest :
      (c : WriteCache) (j r : ℕ)
      → HasUniqueKeys c.entries
      → lookup j c.entries ≡ some r
      → (key : ℕ) × (p : ℕ) × (evict_oldest_locked used c ≡ (some (key, p), drop_entry key c))
        × (lookup key c.entries ≡ some p)
        × (used p ≤ used r)
  unfolding evict_oldest_locked
  evict_oldest_locked-oldest c j r u h =
      let (v, e, found, least) = oldest_of_all c.entries j r u h in
      (v.0, v.1, rw (e, evict_oldest_locked), found, least j r h)
