-- ===== src/Caching/Links.antt =====
-- helpers/cachinghandler.go: the two maps of a CachingHandler hold the same handles.
use go_nfs.Caching.{new_entry}
use go_nfs.Base.{
  refl, ◌∙◌, Option-cases, inl, inr, ◌==◌, if◌then◌else◌, ℕ, suc, ◌+◌, ◌-◌, ◌≡◌, ◌≢◌, Bool, false,
  Option, none, some, List, [], ◌∷◌, ◌++◌, arith,
}
use go_nfs.Caching.{
  append_reverse_handle, after_add, delete_first, on_cache_evict, invalidate_handle,
}
use go_nfs.Caching.{Lru, Entry, Handler}

-- what a cache may take out to make room: another key, with its value
abbrev pub IsVictim : (lru : Lru) → ℕ → lru.Store → Option (ℕ × Entry) → Type 0
IsVictim lru id st none = Unit
IsVictim lru id st (some (k, e)) = (k ≢ id) × (lru.peek k st ≡ some e)

abbrev pub is_key : ℕ → Option (ℕ × Entry) → Bool
is_key j none = false
is_key j (some (k, e)) = k == j

-- What the package documents: Get and Peek find the same, Get changes no entry, Add puts its entry in
-- and takes at most one other out, and Remove takes out what was there.
pub record LruLaws (lru : Lru) : Type 0 where
  pub get-peek : (k : ℕ) (st : lru.Store) → (lru.get k st).0 ≡ lru.peek k st
  pub peek-get : (k j : ℕ) (st : lru.Store) → lru.peek j (lru.get k st).1 ≡ lru.peek j st
  pub peek-add :
      (k j : ℕ) (e : Entry) (st : lru.Store)
      → lru.peek j (lru.add k e st).1
        ≡ (if k == j then some e else if is_key j (lru.add k e st).0 then none else lru.peek j st)
  pub add-IsVictim : (k : ℕ) (e : Entry) (st : lru.Store) → IsVictim lru k st (lru.add k e st).0
  pub remove-peek : (k : ℕ) (st : lru.Store) → (lru.remove k st).0 ≡ lru.peek k st
  pub peek-remove :
      (k j : ℕ) (st : lru.Store)
      → lru.peek j (lru.remove k st).1 ≡ (if k == j then none else lru.peek j st)

-- how often a list holds a handle
unfoldable pub count : ℕ → List ℕ → ℕ
count h [] = 0
count h (u ∷ us) = let rest = count h us in if u == h then suc rest else rest

count-delete_first :
    (h j : ℕ) (us : List ℕ)
    → count j (delete_first h us) ≡ (if h == j then count j us - 1 else count j us)
unfolding count delete_first
count-delete_first h j [] = ground arith
count-delete_first h j (u ∷ us) = ground (arith, count-delete_first h j us)

count-snoc :
    (h j : ℕ) (us : List ℕ) → count j (us ++ h ∷ []) ≡ count j us + (if h == j then 1 else 0)
unfolding count
count-snoc h j [] = ground arith
count-snoc h j (u ∷ us) = ground (arith, count-snoc h j us)

module _ (lru : Lru) (join : ℕ → List ℕ → ℕ) (laws : LruLaws lru) where
  -- how often the handle stands under the path, if the maps agree
  abbrev pub expected : ℕ → Option Entry → ℕ
  expected path none = 0
  expected path (some e) = if join e.f e.p == path then 1 else 0

  -- Every handle of activeHandles stands once under the path of its entry in reverseHandles, and
  -- nothing else stands there.
  abbrev pub IsLinked : Handler lru join → Type 0
  IsLinked c = (id path : ℕ) → count id (c.reverse path) ≡ expected path (lru.peek id c.active)

  evicted-count :
      (id j path : ℕ) (e : Entry) (c : Handler lru join)
      → count j ((on_cache_evict lru join id e c).reverse path) ≡ (
          if join e.f e.p == path
          then (if id == j then count j (c.reverse path) - 1 else count j (c.reverse path))
          else count j (c.reverse path))
  unfolding on_cache_evict
  evicted-count id j path e c = ground (arith, count-delete_first id j (c.reverse path))

  -- the handler once an entry has gone from activeHandles
  abbrev without_entry : ℕ → Handler lru join → Handler lru join
  without_entry id c = record c { active = (lru.remove id c.active).1 }

  invalidated-found :
      (id : ℕ) (e : Entry) (c : Handler lru join)
      → (lru.remove id c.active).0 ≡ some e
      → invalidate_handle lru join id c ≡ on_cache_evict lru join id e (without_entry id c)
  unfolding invalidate_handle
  invalidated-found id e c h = ground arith

  invalidated-absent :
      (id : ℕ) (c : Handler lru join)
      → (lru.remove id c.active).0 ≡ none
      → invalidate_handle lru join id c ≡ without_entry id c
  unfolding invalidate_handle
  invalidated-absent id c h = ground arith

  evicted-active :
      (id : ℕ) (e : Entry) (c : Handler lru join)
      → (on_cache_evict lru join id e c).active ≡ c.active
  unfolding on_cache_evict
  evicted-active id e c = refl

  pub invalidate_handle-IsLinked :
      (id : ℕ) (c : Handler lru join) → IsLinked c → IsLinked (invalidate_handle lru join id c)
  invalidate_handle-IsLinked id c v j path = elim (Option-cases (lru.peek id c.active)) [
    | inl absent ↦
        rw (invalidated-absent id c (laws.remove-peek id c.active ∙ absent), laws.peek-remove)
          (ground (arith, v j path, v id path))
    | inr (e, found) ↦
        rw
          (
            invalidated-found id e c (laws.remove-peek id c.active ∙ found),
            evicted-count,
            evicted-active,
            laws.peek-remove,
          )
          (ground (arith, v j path, v id path))
  ]

  -- the handler once Add has put an entry in
  abbrev with_entry : ℕ → Entry → Handler lru join → Handler lru join
  with_entry id e c = record c { active = (lru.add id e c.active).1 }

  appended-count :
      (path id j q : ℕ) (c : Handler lru join)
      → count j ((append_reverse_handle lru join path id c).reverse q) ≡ (
          if path == q
          then count j (c.reverse q) + (if id == j then 1 else 0)
          else count j (c.reverse q))
  unfolding append_reverse_handle
  appended-count path id j q c = ground (arith, count-snoc id j (c.reverse q))

  -- what the callback of an Add leaves under a path
  added-count :
      (id j q : ℕ) (e : Entry) (c : Handler lru join)
      → lru.peek id c.active ≡ none
      → IsLinked c
      → count j ((after_add lru join (lru.add id e c.active).0 (with_entry id e c)).reverse q)
        ≡ (if id == j then 0 else expected q (lru.peek j (lru.add id e c.active).1))
  unfolding after_add
  added-count id j q e c fresh v =
      go (lru.add id e c.active).0 refl (laws.add-IsVictim id e c.active)
    where
      go :
          (o : Option (ℕ × Entry))
          → (lru.add id e c.active).0 ≡ o
          → IsVictim lru id c.active o
          → count j ((after_add lru join o (with_entry id e c)).reverse q)
            ≡ (if id == j then 0 else expected q (lru.peek j (lru.add id e c.active).1))
      go none h w = rw laws.peek-add (ground (arith, v j q, fresh, h))
      go (some (k, e')) h (other, held) =
          rw (evicted-count k j q e' (with_entry id e c), laws.peek-add)
            (ground (arith, v j q, v k q, fresh, h, held, other))

  pub after_add-active :
      (o : Option (ℕ × Entry)) (c : Handler lru join) → (after_add lru join o c).active ≡ c.active
  unfolding after_add
  after_add-active none c = refl
  after_add-active (some (k, e)) c = evicted-active k e c

  pub appended_active :
      (path id : ℕ) (c : Handler lru join)
      → (append_reverse_handle lru join path id c).active ≡ c.active
  unfolding append_reverse_handle
  appended_active path id c = refl

  -- ToHandle of a path that has no handle keeps the maps in agreement, for a new uuid, also if it
  -- makes the cache drop another handle.
  pub new_entry-IsLinked :
      (f : ℕ) (p : List ℕ) (id : ℕ) (c : Handler lru join)
      → lru.peek id c.active ≡ none
      → IsLinked c
      → IsLinked (new_entry lru join f p id c)
  unfolding new_entry
  new_entry-IsLinked f p id c fresh v j q =
      let e : Entry = record { f = f; p = p } in
      let added = after_add lru join (lru.add id e c.active).0 (with_entry id e c) in
      appended-count (join f p) id j q added
      ∙ rw
          (
            added-count id j q e c fresh v,
            appended_active (join f p) id added,
            after_add-active (lru.add id e c.active).0 (with_entry id e c),
          )
          (ground (arith, laws.peek-add id j e c.active))
