-- ===== src/Caching.antt =====
-- helpers/cachinghandler.go: CachingHandler, which gives a path its opaque handle and takes a handle
-- back to the path. A uuid, the identity of a file system, a component of a path and a joined path
-- are numbers.
pub mod Links
pub mod Trips
pub mod History
use go_nfs.Base.{
  ℕ, Bool, true, false, Option, none, some, List, [], ◌∷◌, ◌++◌, if◌then◌else◌, ltb, ◌==◌, length,
  update,
}
use go_nfs.Errors.Chain.{Error, Result, ok, err, nfs_plain}
use go_nfs.Errors.Codes.{NfsStatus}

-- entry
pub record Entry : Type 0 where
  pub f : ℕ
  pub p : List ℕ

-- lru.Cache of hashicorp/golang-lru, as it is used. `add` and `remove` say what they took out, which
-- is what the callback of NewWithEvict is called with; `peek` and `keys` change nothing.
pub record Lru : Type 1 where
  pub Store : Type 0
  pub get : ℕ → Store → Option Entry × Store
  pub peek : ℕ → Store → Option Entry
  pub keys : Store → List ℕ
  pub add : ℕ → Entry → Store → Option (ℕ × Entry) × Store
  pub remove : ℕ → Store → Option Entry × Store

-- the loop of hasPrefix, which is only run on a prefix that is not the longer one
unfoldable pub same_start : List ℕ → List ℕ → Bool
same_start path [] = true
same_start [] (e ∷ es) = true
same_start (x ∷ xs) (e ∷ es) = if x == e then same_start xs es else false

-- hasPrefix
unfoldable pub has_prefix : List ℕ → List ℕ → Bool
unfolding same_start
has_prefix path prefix = if ltb (length path) (length prefix) then false else same_start path prefix

-- append(uuids[:i], uuids[i+1:]...), for the first `i` that holds the handle
unfoldable pub delete_first : ℕ → List ℕ → List ℕ
delete_first h [] = []
delete_first h (u ∷ us) = if u == h then us else u ∷ delete_first h us

-- the path of what Peek yields; a missing entry has no components
abbrev pub path_of : Option Entry → List ℕ
path_of none = []
path_of (some e) = e.p

module _ (lru : Lru) (join : ℕ → List ℕ → ℕ) where
  pub record Handler : Type 0 where
    pub active : lru.Store  -- activeHandles
    pub reverse : ℕ → List ℕ  -- reverseHandles
    pub has_callback : Bool  -- onEvict is set
    pub notified : List ℕ  -- the handles that onEvict was called with, the last one first

  abbrev pub path_string : Entry → ℕ
  path_string e = join e.f e.p

  -- evictReverseCache
  unfoldable pub evict_reverse_cache : ℕ → ℕ → Handler → Handler
  unfolding delete_first
  evict_reverse_cache path h c = record c {
    reverse = update c.reverse path (delete_first h (c.reverse path));
  }

  -- appendReverseHandle
  unfoldable pub append_reverse_handle : ℕ → ℕ → Handler → Handler
  append_reverse_handle path id c = record c {
    reverse = update c.reverse path (c.reverse path ++ id ∷ []);
  }

  -- notifyEvicted
  unfoldable pub notify_evicted : ℕ → Handler → Handler
  notify_evicted id c = record c {
    notified = if c.has_callback then id ∷ c.notified else c.notified;
  }

  -- onCacheEvict
  unfoldable pub on_cache_evict : ℕ → Entry → Handler → Handler
  unfolding evict_reverse_cache notify_evicted
  on_cache_evict id e c = notify_evicted id (evict_reverse_cache (path_string e) id c)

  -- the callback for what an Add took out
  unfoldable pub after_add : Option (ℕ × Entry) → Handler → Handler
  unfolding on_cache_evict
  after_add none c = c
  after_add (some (id, e)) c = on_cache_evict id e c

  -- the callback for what a Remove took out
  unfoldable pub after_remove : ℕ → Option Entry → Handler → Handler
  unfolding on_cache_evict
  after_remove id none c = c
  after_remove id (some e) c = on_cache_evict id e c

  -- an entry of this file system
  abbrev pub is_of : ℕ → Option Entry → Bool
  is_of f none = false
  is_of f (some e) = e.f == f

  -- the loop of searchReverseCache
  unfoldable pub search_ids : ℕ → List ℕ → lru.Store → Option ℕ × lru.Store
  search_ids f [] st = (none, st)
  search_ids f (id ∷ ids) st =
      let (candidate, st') = lru.get id st in
      let rest = search_ids f ids st' in if is_of f candidate then (some id, st') else rest

  -- ToHandle after the search: the new uuid is `id`
  unfoldable pub new_entry : ℕ → List ℕ → ℕ → Handler → Handler
  unfolding after_add append_reverse_handle
  new_entry f path id c =
      let (victim, st) = lru.add id (record { f = f; p = path }) c.active in
      append_reverse_handle (join f path) id (after_add victim (record c { active = st }))

  -- ToHandle, and HandleForPathIfCached up to the miss
  unfoldable pub to_handle : ℕ → List ℕ → ℕ → Handler → ℕ × Handler
  unfolding search_ids new_entry
  to_handle f path id c =
      let (found, st) = search_ids f (c.reverse (join f path)) c.active in
      elim found [
        | some h ↦ (h, record c { active = st })
        | none ↦ (id, new_entry f path id (record c { active = st }))
      ]

  -- the loop of FromHandle over the keys
  unfoldable pub touch_prefixes : List ℕ → List ℕ → lru.Store → lru.Store
  unfolding has_prefix
  touch_prefixes path [] st = st
  touch_prefixes path (k ∷ ks) st =
      if has_prefix path (path_of (lru.peek k st))
      then touch_prefixes path ks (lru.get k st).1
      else touch_prefixes path ks st

  -- FromHandle, of a handle that is a uuid
  unfoldable pub from_handle : ℕ → Handler → Result Entry × Handler
  unfolding touch_prefixes
  from_handle id c =
      let (found, st) = lru.get id c.active in
      elim found [
        | none ↦ (err (nfs_plain NfsStatus.stale), record c { active = st })
        | some e ↦ (ok e, record c { active = touch_prefixes e.p (lru.keys st) st })
      ]

  -- InvalidateHandle
  unfoldable pub invalidate_handle : ℕ → Handler → Handler
  unfolding after_remove
  invalidate_handle id c =
      let (gone, st) = lru.remove id c.active in after_remove id gone (record c { active = st })
