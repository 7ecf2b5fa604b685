-- ===== src/Server/Flush.antt =====
-- server.go: flushHandleAll, the broadcast of a COMMIT.
use go_nfs.Base.{
  ℕ, ◌≡◌, refl, Bool, true, false, ◌||◌, not, Option, none, some, List, [], ◌∷◌, arith, ◌==◌,
  lookup, Option-cases, Bool-cases, inl, inr,
}
use go_nfs.Errors.Chain.{Error, errors_is, is_handle_closed}
use go_nfs.Backend.{Backend, HidesSentinel}
use go_nfs.Memory.{Memory}
use go_nfs.Handle.{sync, is_some, begin_commit}
use go_nfs.WriteCache.{WriteCache, flush_out, flush_by_close}
use go_nfs.WriteCache.Flushes.{flush_out-handles}
use go_nfs.Conn.{Conn, flush_found, flush_handle}
use go_nfs.Conn.Laws.{find, writer_for}
use go_nfs.Server.{Server, flush_loop, flush_handle_all}
use go_nfs.Server.Drop.{writer_at}

-- some connection of the list has a handle for the key
abbrev pub any_writer : ℕ → List (ℕ × Conn) → Bool
any_writer key [] = false
any_writer key ((id, c) ∷ cs) = is_some (writer_for key c) || any_writer key cs

module _ (b : Backend) where
  -- the handle is closed, or has no unflushed writes
  abbrev pub is_flushed : ℕ → Memory b → Bool
  is_flushed p m = (m.handles p).closed || not (m.handles p).dirty

  flush_out-flushed :
      (key p done q : ℕ) (m : Memory b)
      → (is_flushed q (flush_out b key p done m).1 ≡ (p == q || is_flushed q m))
  flush_out-flushed key p done q m = ground (arith, flush_out-handles b key p done q m)

  begin_commit-flushed :
      (key q : ℕ) (m : Memory b) → is_flushed q (begin_commit b key m).1 ≡ is_flushed q m
  unfolding begin_commit
  begin_commit-flushed key q m = refl

  pub flush_by_close-flushed :
      (key p q : ℕ) (wc : WriteCache) (m : Memory b)
      → lookup key wc.entries ≡ some p
      → is_flushed q (flush_by_close b key wc m).2 ≡ (p == q || is_flushed q m)
  unfolding flush_by_close
  flush_by_close-flushed key p q wc m h = ground (
    arith,
    flush_out-flushed key p (begin_commit b key m).0 q (begin_commit b key m).1,
    begin_commit-flushed key q m,
  )

  pub sync-flushed :
      (p q : ℕ) (m : Memory b)
      → let r = sync b p m in
        (is_flushed q m ≡ true → is_flushed q r.2 ≡ true)
        × (r.1 ≡ none → r.0 ≡ true → is_flushed p r.2 ≡ true)
  unfolding sync
  sync-flushed p q m = (λ h. ground arith, λ h g. ground arith)

  flush_found-keeps :
      (key p q : ℕ) (wc : WriteCache) (m : Memory b)
      → lookup key wc.entries ≡ some p
      → is_flushed q m ≡ true
      → is_flushed q (flush_found b key p wc m).3 ≡ true
  unfolding flush_found
  flush_found-keeps key p q wc m h g =
      ground (arith, (sync-flushed p q m).0 g, flush_by_close-flushed key p q wc (sync b p m).2 h)

  sync-closed :
      (p : ℕ) (m : Memory b) (x : Error)
      → HidesSentinel b
      → (sync b p m).1 ≡ some x
      → errors_is is_handle_closed x ≡ true
      → is_flushed p (sync b p m).2 ≡ true
  unfolding sync
  sync-closed p m x hides e h = ground (arith, hides (m.handles p).file m.world)

  flush_found-flushed :
      (key p : ℕ) (wc : WriteCache) (m : Memory b)
      → HidesSentinel b
      → lookup key wc.entries ≡ some p
      → (flush_found b key p wc m).1 ≡ none
      → is_flushed p (flush_found b key p wc m).3 ≡ true
  unfolding flush_found
  flush_found-flushed key p wc m hides h e = elim (Option-cases (sync b p m).1) [
    | inl fine ↦
        ground
          (arith, (sync-flushed p p m).1 fine, flush_by_close-flushed key p p wc (sync b p m).2 h)
    | inr (x, failed) ↦ ground (arith, sync-closed p m x hides failed)
  ]

  flush_handle_absent :
      (key : ℕ) (o r : Option WriteCache) (m : Memory b)
      → find key o ≡ none
      → let f = flush_handle b key (record { wc = o; rc = r }) m in
        (f.3 ≡ m) × (f.0 ≡ false) × (f.1 ≡ none)
  unfolding flush_handle
  flush_handle_absent key none r m h = (refl, refl, refl)
  flush_handle_absent key (some wc) r m h = (ground arith, ground arith, ground arith)

  flush_handle_found :
      (key p : ℕ) (o r : Option WriteCache) (m : Memory b)
      → find key o ≡ some p
      → let f = flush_handle b key (record { wc = o; rc = r }) m in
        (wc : WriteCache) × (lookup key wc.entries ≡ some p)
        × (f.3 ≡ (flush_found b key p wc m).3)
        × (f.0 ≡ (flush_found b key p wc m).0)
        × (f.1 ≡ (flush_found b key p wc m).1)
  unfolding flush_handle
  flush_handle_found key p none r m h = cc
  flush_handle_found key p (some wc) r m h = (wc, h, ground arith, ground arith, ground arith)

  flush_found-found :
      (key p : ℕ) (wc : WriteCache) (m : Memory b) → (flush_found b key p wc m).0 ≡ true
  unfolding flush_found
  flush_found-found key p wc m = ground arith

  flush_handle-found :
      (key : ℕ) (c : Conn) (m : Memory b) → (flush_handle b key c m).0 ≡ is_some (writer_for key c)
  flush_handle-found key c m = elim (Option-cases (writer_for key c)) [
    | inl absent ↦ let (w, f, e) = flush_handle_absent key c.wc c.rc m absent in rw (absent, f) refl
    | inr (p, found) ↦
        let (wc, l, w, f, e) = flush_handle_found key p c.wc c.rc m found in
        rw (found, f) (flush_found-found key p wc m)
  ]

  flush_handle-keeps :
      (key q : ℕ) (c : Conn) (m : Memory b)
      → is_flushed q m ≡ true
      → is_flushed q (flush_handle b key c m).3 ≡ true
  flush_handle-keeps key q c m g = elim (Option-cases (writer_for key c)) [
    | inl absent ↦ let (w, f, e) = flush_handle_absent key c.wc c.rc m absent in rw w g
    | inr (p, found) ↦
        let (wc, l, w, f, e) = flush_handle_found key p c.wc c.rc m found in
        rw w (flush_found-keeps key p q wc m l g)
  ]

  flush_handle-flushed :
      (key p : ℕ) (c : Conn) (m : Memory b)
      → HidesSentinel b
      → writer_for key c ≡ some p
      → (flush_handle b key c m).1 ≡ none
      → is_flushed p (flush_handle b key c m).3 ≡ true
  flush_handle-flushed key p c m hides h e =
      let (wc, l, w, f, e') = flush_handle_found key p c.wc c.rc m h in
      rw w (flush_found-flushed key p wc m hides l (rw e' at e))

  flush_loop-found :
      (key : ℕ) (cs : List (ℕ × Conn)) (m : Memory b)
      → (flush_loop b key cs m).0 ≡ any_writer key cs
  unfolding flush_loop
  flush_loop-found key [] m = refl
  flush_loop-found key ((id, c) ∷ cs) m =
      ground (arith, flush_handle-found key c m, flush_loop-found key cs (flush_handle b key c m).3)

  flush_loop-keeps :
      (key q : ℕ) (cs : List (ℕ × Conn)) (m : Memory b)
      → is_flushed q m ≡ true
      → is_flushed q (flush_loop b key cs m).3 ≡ true
  unfolding flush_loop
  flush_loop-keeps key q [] m g = g
  flush_loop-keeps key q ((id, c) ∷ cs) m g =
      flush_loop-keeps key q cs (flush_handle b key c m).3 (flush_handle-keeps key q c m g)

  flush_loop-flushed :
      (key id p : ℕ) (cs : List (ℕ × Conn)) (m : Memory b)
      → HidesSentinel b
      → writer_at id key cs ≡ some p
      → (flush_loop b key cs m).1 ≡ none
      → is_flushed p (flush_loop b key cs m).3 ≡ true
  unfolding flush_loop lookup
  flush_loop-flushed key id p [] m hides h e = cc
  flush_loop-flushed key id p ((i, c) ∷ cs) m hides h e =
      let r = flush_handle b key c m in
      elim (Bool-cases (i == id)) [
        | inl here ↦
            flush_loop-keeps key p cs r.3
              (flush_handle-flushed key p c m hides (ground arith) (ground arith))
        | inr there ↦ flush_loop-flushed key id p cs r.3 hides (ground arith) (ground arith)
      ]

  -- The broadcast says that it found a handle exactly if some connection has one for the key.
  pub flush_handle_all-found :
      (key : ℕ) (s : Server b) → (flush_handle_all b key s).0 ≡ any_writer key s.conns
  unfolding flush_handle_all
  flush_handle_all-found key s = flush_loop-found key s.conns s.memory

  -- If the broadcast of a COMMIT reports no error, on a file system whose Sync never reports
  -- errHandleClosed, then the handle that a connection has for the key, whichever connection, has
  -- no unflushed writes left or is closed.
  pub flush_handle_all-flushed :
      (key id p : ℕ) (s : Server b)
      → HidesSentinel b
      → writer_at id key s.conns ≡ some p
      → (flush_handle_all b key s).1 ≡ none
      → is_flushed p (flush_handle_all b key s).2.memory ≡ true
  unfolding flush_handle_all
  flush_handle_all-flushed key id p s hides h e =
      flush_loop-flushed key id p s.conns s.memory hides h e
