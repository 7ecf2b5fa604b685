-- ===== src/Server/Drop.antt =====
-- server.go: dropHandleAll invalidates a handle on every connection.
use go_nfs.Base.{
  ℕ, ◌≡◌, true, Option, none, some, List, [], ◌∷◌, arith, if◌then◌else◌, ◌==◌, lookup, Bool-cases,
  inl, inr,
}
use go_nfs.Backend.{Backend}
use go_nfs.Memory.{Memory}
use go_nfs.Conn.{Conn, drop_handle}
use go_nfs.Conn.Laws.{writer_for, reader_for, writer_closed, reader_closed, drop_handle-effect}
use go_nfs.Server.{Server, drop_loop, drop_handle_all}

-- the handles that the connection `id` has for a key
abbrev pub at_conn {ℓ} : {A : Type ℓ} → (Conn → Option A) → Option Conn → Option A
at_conn f none = none
at_conn f (some c) = f c

abbrev pub writer_at : ℕ → ℕ → List (ℕ × Conn) → Option ℕ
writer_at id key cs = at_conn (writer_for key) (lookup id cs)

abbrev pub reader_at : ℕ → ℕ → List (ℕ × Conn) → Option ℕ
reader_at id key cs = at_conn (reader_for key) (lookup id cs)

module _ (b : Backend) (key : ℕ) where
  drop_loop-detached :
      (id j : ℕ) (cs : List (ℕ × Conn)) (m : Memory b)
      → (writer_at id j (drop_loop b key cs m).0 ≡ (if key == j then none else writer_at id j cs))
        × (reader_at id j (drop_loop b key cs m).0 ≡ (if key == j then none else reader_at id j cs))
  unfolding drop_loop lookup
  drop_loop-detached id j [] m = (ground arith, ground arith)
  drop_loop-detached id j ((i, c) ∷ cs) m =
      let r = drop_handle b key c m in
      ground (arith, drop_handle-effect b key j 0 c m, drop_loop-detached id j cs r.2)

  drop_loop-writer_stays :
      (q : ℕ) (cs : List (ℕ × Conn)) (m : Memory b)
      → writer_closed b q m ≡ true
      → writer_closed b q (drop_loop b key cs m).1 ≡ true
  unfolding drop_loop
  drop_loop-writer_stays q [] m h = h
  drop_loop-writer_stays q ((i, c) ∷ cs) m h =
      let r = drop_handle b key c m in
      drop_loop-writer_stays q cs r.2 (ground (arith, drop_handle-effect b key 0 q c m))

  drop_loop-reader_stays :
      (q : ℕ) (cs : List (ℕ × Conn)) (m : Memory b)
      → reader_closed b q m ≡ true
      → reader_closed b q (drop_loop b key cs m).1 ≡ true
  unfolding drop_loop
  drop_loop-reader_stays q [] m h = h
  drop_loop-reader_stays q ((i, c) ∷ cs) m h =
      let r = drop_handle b key c m in
      drop_loop-reader_stays q cs r.2 (ground (arith, drop_handle-effect b key 0 q c m))

  pub drop_loop-writer_closed :
      (id p : ℕ) (cs : List (ℕ × Conn)) (m : Memory b)
      → writer_at id key cs ≡ some p
      → writer_closed b p (drop_loop b key cs m).1 ≡ true
  unfolding drop_loop lookup
  drop_loop-writer_closed id p [] m h = cc
  drop_loop-writer_closed id p ((i, c) ∷ cs) m h =
      let r = drop_handle b key c m in
      elim (Bool-cases (i == id)) [
        | inl here ↦
            drop_loop-writer_stays p cs r.2 (ground (arith, drop_handle-effect b key 0 p c m))
        | inr there ↦ drop_loop-writer_closed id p cs r.2 (ground arith)
      ]

  drop_loop-reader_closed :
      (id p : ℕ) (cs : List (ℕ × Conn)) (m : Memory b)
      → reader_at id key cs ≡ some p
      → reader_closed b p (drop_loop b key cs m).1 ≡ true
  unfolding drop_loop lookup
  drop_loop-reader_closed id p [] m h = cc
  drop_loop-reader_closed id p ((i, c) ∷ cs) m h =
      let r = drop_handle b key c m in
      elim (Bool-cases (i == id)) [
        | inl here ↦
            drop_loop-reader_stays p cs r.2 (ground (arith, drop_handle-effect b key 0 p c m))
        | inr there ↦ drop_loop-reader_closed id p cs r.2 (ground arith)
      ]

  -- After dropHandleAll no connection has a handle for the key in either of its caches, and every
  -- connection has the handles that it had for the other keys.
  pub drop_handle_all-detached :
      (id j : ℕ) (s : Server b)
      → (writer_at id j (drop_handle_all b key s).conns
          ≡ (if key == j then none else writer_at id j s.conns))
        × (reader_at id j (drop_handle_all b key s).conns
            ≡ (if key == j then none else reader_at id j s.conns))
  unfolding drop_handle_all
  drop_handle_all-detached id j s = drop_loop-detached id j s.conns s.memory

  -- no connection has a file open under the handle
  abbrev pub IsDetached : Server b → Type 0
  IsDetached t = (id : ℕ) → (writer_at id key t.conns ≡ none) × (reader_at id key t.conns ≡ none)

  -- After dropHandleAll the file that a connection had open for writing under the key is closed, and
  -- so is the file that a connection had open for reading.
  pub drop_handle_all-closed :
      (id p id' q : ℕ) (s : Server b)
      → writer_at id key s.conns ≡ some p
      → reader_at id' key s.conns ≡ some q
      → (writer_closed b p (drop_handle_all b key s).memory ≡ true)
        × (reader_closed b q (drop_handle_all b key s).memory ≡ true)
  unfolding drop_handle_all
  drop_handle_all-closed id p id' q s h g = (
    drop_loop-writer_closed id p s.conns s.memory h,
    drop_loop-reader_closed id' q s.conns s.memory g,
  )
