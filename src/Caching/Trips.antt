-- ===== src/Caching/Trips.antt =====
-- helpers/cachinghandler.go: a handle leads back to the path that it was made for, until it is
-- invalidated, whatever requests are made in between.
use go_nfs.Base.{if◌then◌else◌, Option-cases, ◌&&◌}
use go_nfs.Caching.{Entry, after_add, from_handle, invalidate_handle}
use go_nfs.Caching.Links.{after_add-active, appended_active}
use go_nfs.Errors.Chain.{ok, err, nfs_plain}
use go_nfs.Errors.Codes.{NfsStatus}
use go_nfs.Handle.{is_some}
use go_nfs.Caching.Links.{count}
use go_nfs.Base.{
  Bool-cases, ℕ, ◌<◌, ◌≡◌, refl, sym, ap, ◌∙◌, inl, inr, true, Option, none, some, List, [], ◌∷◌,
  arith,
}
use go_nfs.Caching.{is_of, search_ids, new_entry, touch_prefixes}
use go_nfs.Caching.Links.{LruLaws, expected, IsLinked, new_entry-IsLinked}
use go_nfs.Caching.{Lru, Handler, to_handle}

module _ (lru : Lru) (join : ℕ → List ℕ → ℕ) (laws : LruLaws lru) where
  pub search_ids-peek :
      (f j : ℕ) (ids : List ℕ) (st : lru.Store)
      → lru.peek j (search_ids lru join f ids st).1 ≡ lru.peek j st
  unfolding search_ids
  search_ids-peek f j [] st = refl
  search_ids-peek f j (id ∷ ids) st =
      ground (arith, laws.peek-get id j st, search_ids-peek f j ids (lru.get id st).1)

  pub touch_prefixes-peek :
      (path : List ℕ) (j : ℕ) (ks : List ℕ) (st : lru.Store)
      → lru.peek j (touch_prefixes lru join path ks st) ≡ lru.peek j st
  unfolding touch_prefixes
  touch_prefixes-peek path j [] st = refl
  touch_prefixes-peek path j (k ∷ ks) st = ground (
    arith,
    laws.peek-get k j st,
    touch_prefixes-peek path j ks st,
    touch_prefixes-peek path j ks (lru.get k st).1,
  )

  -- a handle that the search finds stands in the list, and its entry is of the file system
  search_ids-found :
      (f h : ℕ) (ids : List ℕ) (st st' : lru.Store)
      → search_ids lru join f ids st ≡ (some h, st')
      → (0 < count h ids) × (is_of lru join f (lru.peek h st) ≡ true)
  unfolding search_ids count
  search_ids-found f h [] st st' e = absurd (ground arith)
  search_ids-found f h (id ∷ ids) st st' e =
      elim (Bool-cases (is_of lru join f (lru.get id st).0)) [
        | inl here ↦ (ground arith, ground (arith, laws.get-peek id st))
        | inr later ↦
            let (some_place, ours) =
              search_ids-found f h ids (lru.get id st).1 st' (ground arith) in
            (ground (arith, some_place), ground (arith, ours, laws.peek-get id h st))
      ]

  -- the two results of the search
  pub to_handle_found :
      (f : ℕ) (path : List ℕ) (id h : ℕ) (c : Handler lru join) (st : lru.Store)
      → search_ids lru join f (c.reverse (join f path)) c.active ≡ (some h, st)
      → to_handle lru join f path id c ≡ (h, record c { active = st })
  unfolding to_handle
  to_handle_found f path id h c st e = ground arith

  pub to_handle_new :
      (f : ℕ) (path : List ℕ) (id : ℕ) (c : Handler lru join) (st : lru.Store)
      → search_ids lru join f (c.reverse (join f path)) c.active ≡ (none, st)
      → to_handle lru join f path id c
        ≡ (id, new_entry lru join f path id (record c { active = st }))
  unfolding to_handle
  to_handle_new f path id c st e = ground arith

  -- the handler with the entries of another store that has the same
  same_entries :
      (c : Handler lru join) (st : lru.Store)
      → ((j : ℕ) → lru.peek j st ≡ lru.peek j c.active)
      → IsLinked lru join laws c
      → IsLinked lru join laws (record c { active = st })
  same_entries c st same v j q = v j q ∙ ap (expected lru join laws q) (sym (same j))

  pub to_handle-IsLinked :
      (f : ℕ) (path : List ℕ) (id : ℕ) (c : Handler lru join)
      → lru.peek id c.active ≡ none
      → IsLinked lru join laws c
      → IsLinked lru join laws (to_handle lru join f path id c).1
  to_handle-IsLinked f path id c fresh v =
      go (search_ids lru join f (c.reverse (join f path)) c.active) refl
    where
      go :
          (r : Option ℕ × lru.Store)
          → search_ids lru join f (c.reverse (join f path)) c.active ≡ r
          → IsLinked lru join laws (to_handle lru join f path id c).1
      go (some h, st) e = rw (to_handle_found f path id h c st e) (
          same_entries c st
            (λ j.
              ap (λ r. lru.peek j r.1) (sym e)
              ∙ search_ids-peek f j (c.reverse (join f path)) c.active)
            v)
      go (none, st) e =
          let same = λ (j : ℕ).
            ap (λ r. lru.peek j r.1) (sym e)
            ∙ search_ids-peek f j (c.reverse (join f path)) c.active in
          rw (to_handle_new f path id c st e) (
            new_entry-IsLinked lru join laws f path id (record c { active = st }) (same id ∙ fresh)
              (same_entries c st same v))

  -- the answer of FromHandle for an entry that is there
  from_handle-live :
      (id : ℕ) (e : Entry) (c : Handler lru join)
      → lru.peek id c.active ≡ some e
      → (from_handle lru join id c).0 ≡ ok e
  unfolding from_handle
  from_handle-live id e c h = ground (arith, laws.get-peek id c.active)

  from_handle-dead :
      (id : ℕ) (c : Handler lru join)
      → lru.peek id c.active ≡ none
      → (from_handle lru join id c).0 ≡ err (nfs_plain NfsStatus.stale)
  unfolding from_handle
  from_handle-dead id c h = ground (arith, laws.get-peek id c.active)

  new_entry-peek :
      (f : ℕ) (path : List ℕ) (id : ℕ) (c : Handler lru join)
      → lru.peek id (new_entry lru join f path id c).active ≡ some (record { f = f; p = path })
  unfolding new_entry
  new_entry-peek f path id c =
      let e : Entry = record { f = f; p = path } in
      ap (lru.peek id) (
        appended_active lru join laws (join f path) id (
          after_add lru join (lru.add id e c.active).0
            (record c { active = (lru.add id e c.active).1 }))
        ∙ after_add-active lru join laws (lru.add id e c.active).0
            (record c { active = (lru.add id e c.active).1 }))
      ∙ laws.peek-add id id e c.active
      ∙ ground arith

  -- a handle that stands under a path has an entry of that path
  linked_entry :
      (h q : ℕ) (c : Handler lru join)
      → IsLinked lru join laws c
      → 0 < count h (c.reverse q)
      → (e : Entry) × (lru.peek h c.active ≡ some e) × (join e.f e.p ≡ q)
  linked_entry h q c v n = elim (Option-cases (lru.peek h c.active)) [
    | inl dead ↦ absurd (ground (arith, v h q))
    | inr (e, live) ↦ (e, live, ground (arith, v h q))
  ]

  -- With maps that agree and a new uuid that is not live, the handle that ToHandle gives for a
  -- path, an old one or a new one, leads FromHandle to the same file system and to the same joined
  -- path.
  pub from_handle-to_handle :
      (f : ℕ) (path : List ℕ) (id : ℕ) (c : Handler lru join)
      → lru.peek id c.active ≡ none
      → IsLinked lru join laws c
      → let r = to_handle lru join f path id c in
        (e : Entry) × ((from_handle lru join r.0 r.1).0 ≡ ok e)
        × (e.f ≡ f)
        × (join e.f e.p ≡ join f path)
  from_handle-to_handle f path id c fresh v =
      go (search_ids lru join f (c.reverse (join f path)) c.active) refl
    where
      go :
          (r : Option ℕ × lru.Store)
          → search_ids lru join f (c.reverse (join f path)) c.active ≡ r
          → let t = to_handle lru join f path id c in
            (e : Entry) × ((from_handle lru join t.0 t.1).0 ≡ ok e)
            × (e.f ≡ f)
            × (join e.f e.p ≡ join f path)
      go (some h, st) s =
          let (placed, ours) = search_ids-found f h (c.reverse (join f path)) c.active st s in
          let (e, live, same) = linked_entry h (join f path) c v placed in
          (
            e,
            rw (to_handle_found f path id h c st s) (
                from_handle-live h e (record c { active = st })
                  (ap (λ r. lru.peek h r.1) (sym s)
                    ∙ search_ids-peek f h (c.reverse (join f path)) c.active
                    ∙ live)),
            ground (arith, ours, live),
            same,
          )
      go (none, st) s = (
        record { f = f; p = path },
        rw (to_handle_new f path id c st s)
            (from_handle-live id _ _ (new_entry-peek f path id (record c { active = st }))),
        refl,
        refl,
      )

  invalidated_peek :
      (id : ℕ) (c : Handler lru join) → lru.peek id (invalidate_handle lru join id c).active ≡ none
  unfolding invalidate_handle
  invalidated_peek id c = ground (arith, laws.peek-remove id id c.active)

  -- Once a handle is invalidated, FromHandle refuses it with NFS3ERR_STALE; and if it was live, and
  -- the server has set its callback, the server was told to drop its files.
  pub from_handle-invalidate_handle :
      (id : ℕ) (c : Handler lru join)
      → let r = invalidate_handle lru join id c in
        ((from_handle lru join id r).0 ≡ err (nfs_plain NfsStatus.stale))
        × (r.notified ≡ (
            if c.has_callback && is_some (lru.peek id c.active)
            then id ∷ c.notified
            else c.notified))
  unfolding invalidate_handle
  from_handle-invalidate_handle id c = (
    from_handle-dead id (invalidate_handle lru join id c) (invalidated_peek id c),
    ground (arith, laws.remove-peek id c.active),
  )
