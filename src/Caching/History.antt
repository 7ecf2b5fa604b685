-- ===== src/Caching/History.antt =====
-- helpers/cachinghandler.go: the requests to a CachingHandler, in any order.
use go_nfs.Base.{ℕ, ◌≡◌, refl, sym, ap, ◌∙◌, Option, none, some, List, [], ◌∷◌, arith}
use go_nfs.Caching.{invalidate_handle}
use go_nfs.Caching.Links.{LruLaws, expected, IsLinked, invalidate_handle-IsLinked}
use go_nfs.Caching.Trips.{touch_prefixes-peek, to_handle-IsLinked}
use go_nfs.Caching.Links.{count}
use go_nfs.Caching.{Lru, Entry, Handler, to_handle, from_handle}

module _ (lru : Lru) (join : ℕ → List ℕ → ℕ) (laws : LruLaws lru) where
  from_handle-peek :
      (id j : ℕ) (c : Handler lru join)
      → (lru.peek j (from_handle lru join id c).1.active ≡ lru.peek j c.active)
        × ((from_handle lru join id c).1.reverse ≡ c.reverse)
  unfolding from_handle
  from_handle-peek id j c = go (lru.get id c.active).0 refl
    where
      go :
          (o : Option Entry)
          → (lru.get id c.active).0 ≡ o
          → (lru.peek j (from_handle lru join id c).1.active ≡ lru.peek j c.active)
            × ((from_handle lru join id c).1.reverse ≡ c.reverse)
      go none e = (ground (arith, laws.peek-get id j c.active), ground arith)
      go (some x) e =
          let st = (lru.get id c.active).1 in
          (
            ground (
              arith,
              laws.peek-get id j c.active,
              touch_prefixes-peek lru join laws x.p j (lru.keys st) st,
            ),
            ground arith,
          )

  -- A request of a procedure to the handler; the number with ToHandle is the uuid that uuid.New yields.
  pub data Request : Type 0 where
    to : ℕ → List ℕ → ℕ → Request
    from : ℕ → Request
    invalidate : ℕ → Request

  abbrev pub request : Request → Handler lru join → Handler lru join
  request (to f path id) c = (to_handle lru join f path id c).1
  request (from id) c = (from_handle lru join id c).1
  request (invalidate id) c = invalidate_handle lru join id c

  abbrev pub requests : List Request → Handler lru join → Handler lru join
  requests [] c = c
  requests (r ∷ rs) c = requests rs (request r c)

  -- uuid.New never yields the uuid of a live entry
  abbrev pub AreFresh : List Request → Handler lru join → Type 0
  AreFresh [] c = Unit
  AreFresh (to f path id ∷ rs) c =
      (lru.peek id c.active ≡ none) × AreFresh rs (request (to f path id) c)
  AreFresh (r ∷ rs) c = AreFresh rs (request r c)

  -- In every sequence of requests, with whatever the cache evicts to make room, as long as a new
  -- uuid is never that of a live entry, maps that agree stay in agreement: each live handle stands
  -- exactly once under the path of its entry in reverseHandles, and no dead handle stands anywhere.
  pub requests-IsLinked :
      (rs : List Request) (c : Handler lru join)
      → AreFresh rs c
      → IsLinked lru join laws c
      → IsLinked lru join laws (requests rs c)
  requests-IsLinked [] c a v = v
  requests-IsLinked (to f path id ∷ rs) c a v =
      requests-IsLinked rs _ a.1 (to_handle-IsLinked lru join laws f path id c a.0 v)
  requests-IsLinked (from id ∷ rs) c a v =
      requests-IsLinked rs (from_handle lru join id c).1 a λ j q.
        let (same, kept) = from_handle-peek id j c in
        ap (λ m. count j (m q)) kept ∙ v j q ∙ ap (expected lru join laws q) (sym same)
  requests-IsLinked (invalidate id ∷ rs) c a v =
      requests-IsLinked rs _ a (invalidate_handle-IsLinked lru join laws id c v)
