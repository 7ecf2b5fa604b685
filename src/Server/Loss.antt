-- ===== src/Server/Loss.antt =====
-- server.go, conn.go: a write that a drop or a flush loses is on record for the key.
use go_nfs.Base.{
  ℕ, ◌≡◌, ◌≢◌, refl, true, false, Option, none, some, List, [], ◌∷◌, arith, ◌==◌, lookup,
  Option-cases, Bool-cases, ◌⊎◌, inl, inr,
}
use go_nfs.Backend.{Backend}
use go_nfs.Memory.{Memory}
use go_nfs.Handle.{begin_commit}
use go_nfs.WriteCache.{WriteCache, flush_out}
use go_nfs.ReadCache.{close_reader}
use go_nfs.Conn.{Conn, drop_writer, drop_reader, drop_handle}
use go_nfs.Conn.Laws.{writer_closed}
use go_nfs.Server.{Server, drop_loop, drop_handle_all}
use go_nfs.Server.Drop.{writer_at, drop_loop-writer_closed}
use go_nfs.Tracker.{begin}
use go_nfs.WriteCache.Flushes.{flush_out-errs, flush_out-handles, flush_out-records, IsDirty}

module _ (b : Backend) where
  -- no close of the file succeeds
  abbrev pub CloseFails : ℕ → Type 0
  CloseFails f = (w : b.World) → (b.close f w).0 ≢ none

  drop_writer_absent :
      (key : ℕ) (c : WriteCache) (m : Memory b)
      → lookup key c.entries ≡ none
      → (drop_writer b key (some c) m).2 ≡ m
  unfolding drop_writer
  drop_writer_absent key c m h = ground arith

  drop_writer_found :
      (key q : ℕ) (c : WriteCache) (m : Memory b)
      → lookup key c.entries ≡ some q
      → (drop_writer b key (some c) m).2
        ≡ (flush_out b key q (begin_commit b key m).0 (begin_commit b key m).1).1
  unfolding drop_writer
  drop_writer_found key q c m h = ground arith

  close_reader_apart :
      (q : ℕ) (m : Memory b)
      → ((close_reader b q m).1.handles ≡ m.handles) × ((close_reader b q m).1.commits ≡ m.commits)
  unfolding close_reader
  close_reader_apart q m = ground arith

  drop_reader_apart :
      (key : ℕ) (o : Option WriteCache) (m : Memory b)
      → ((drop_reader b key o m).2.handles ≡ m.handles)
        × ((drop_reader b key o m).2.commits ≡ m.commits)
  unfolding drop_reader
  drop_reader_apart key none m = (refl, refl)
  drop_reader_apart key (some c) m = elim (Option-cases (lookup key c.entries)) [
    | inl absent ↦ ground arith
    | inr (q, found) ↦ ground (arith, close_reader_apart q m)
  ]

  module _ (key p f : ℕ) (fails : CloseFails f) where
    -- the handle holds unflushed writes, or an error of the key waits for a COMMIT
    abbrev IsHeld : Memory b → Type 0
    IsHeld m =
        (((m.handles p).closed ≡ false) × ((m.handles p).dirty ≡ true) × ((m.handles p).file ≡ f))
        ⊎ (m.commits.errs key ≢ none)

    flush_out-IsHeld : (q done : ℕ) (m : Memory b) → IsHeld m → IsHeld (flush_out b key q done m).1
    flush_out-IsHeld q done m (inl (o, d, e)) = elim (Bool-cases (q == p)) [
      | inl same ↦ inr (λ h. ground (arith, flush_out-records b key p done m (o, d), fails m.world))
      | inr other ↦ inl (rw (flush_out-handles, other) (o, d, e))
    ]
    flush_out-IsHeld q done m (inr r) = inr (λ h. ground (arith, flush_out-errs b key q done m))

    begin_commit-IsHeld : (m : Memory b) → IsHeld m → IsHeld (begin_commit b key m).1
    unfolding begin_commit begin
    begin_commit-IsHeld m h = h

    drop_writer-IsHeld :
        (o : Option WriteCache) (m : Memory b) → IsHeld m → IsHeld (drop_writer b key o m).2
    drop_writer-IsHeld none m h = unfold drop_writer in h
    drop_writer-IsHeld (some c) m h = elim (Option-cases (lookup key c.entries)) [
      | inl absent ↦ rw (drop_writer_absent key c m absent) h
      | inr (q, found) ↦
          rw (drop_writer_found key q c m found) (flush_out-IsHeld q _ _ (begin_commit-IsHeld m h))
    ]

    drop_handle-IsHeld : (c : Conn) (m : Memory b) → IsHeld m → IsHeld (drop_handle b key c m).2
    drop_handle-IsHeld c m h =
        let m' = (drop_writer b key c.wc m).2 in
        let (hs, cs) = drop_reader_apart key c.rc m' in
        unfold drop_handle in rw (hs, cs) (drop_writer-IsHeld c.wc m h)

    drop_loop-IsHeld :
        (cs : List (ℕ × Conn)) (m : Memory b) → IsHeld m → IsHeld (drop_loop b key cs m).1
    unfolding drop_loop
    drop_loop-IsHeld [] m h = h
    drop_loop-IsHeld ((id, c) ∷ cs) m h =
        drop_loop-IsHeld cs (drop_handle b key c m).2 (drop_handle-IsHeld c m h)

    recorded : (m : Memory b) → IsHeld m → writer_closed b p m ≡ true → m.commits.errs key ≢ none
    recorded m (inl (o, d, e)) c = cc
    recorded m (inr r) c = r

  -- An invalidation that closes a handle with unflushed writes, on whatever connection, and whose
  -- close of that file fails, leaves an error for the key, which the next COMMIT finds.
  pub drop_handle_all-records :
      (key id p : ℕ) (s : Server b)
      → writer_at id key s.conns ≡ some p
      → IsDirty b p s.memory
      → CloseFails (s.memory.handles p).file
      → (drop_handle_all b key s).memory.commits.errs key ≢ none
  unfolding drop_handle_all
  drop_handle_all-records key id p s h (o, d) fails =
      let f = (s.memory.handles p).file in
      recorded key p f fails (drop_loop b key s.conns s.memory).1
        (drop_loop-IsHeld key p f fails s.conns s.memory (inl (o, d, refl)))
        (drop_loop-writer_closed b key id p s.conns s.memory h)
