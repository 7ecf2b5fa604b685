-- ===== src/Conn/Laws.antt =====
-- conn.go: dropHandle on one connection.
use go_nfs.Base.{
  ℕ, ◌≡◌, refl, Bool, false, ◌||◌, Option, none, some, arith, if◌then◌else◌, ◌==◌, lookup,
  lookup-delete, Option-cases, inl, inr,
}
use go_nfs.Backend.{Backend}
use go_nfs.Memory.{Memory}
use go_nfs.Handle.{evict_flush, begin_commit, finish_commit}
use go_nfs.WriteCache.{WriteCache, flush_out}
use go_nfs.ReadCache.{close_reader}
use go_nfs.Conn.{Conn, drop_writer, drop_reader, drop_handle}

-- the handle that an optional cache has for a key
abbrev pub find : ℕ → Option WriteCache → Option ℕ
find key none = none
find key (some c) = lookup key c.entries

-- the handles that the connection has for a key
abbrev pub writer_for : ℕ → Conn → Option ℕ
writer_for key c = find key c.wc

abbrev pub reader_for : ℕ → Conn → Option ℕ
reader_for key c = find key c.rc

module _ (b : Backend) where
  abbrev pub writer_closed : ℕ → Memory b → Bool
  writer_closed p m = (m.handles p).closed

  abbrev pub reader_closed : ℕ → Memory b → Bool
  reader_closed p m = (m.readers p).closed

  flush_out-closed :
      (key p done q : ℕ) (m : Memory b)
      → (writer_closed q (flush_out b key p done m).1 ≡ (p == q || writer_closed q m))
        × (reader_closed q (flush_out b key p done m).1 ≡ reader_closed q m)
  unfolding flush_out evict_flush finish_commit
  flush_out-closed key p done q m = ground arith

  close_reader-closed :
      (p q : ℕ) (m : Memory b)
      → (reader_closed q (close_reader b p m).1 ≡ (p == q || reader_closed q m))
        × (writer_closed q (close_reader b p m).1 ≡ writer_closed q m)
  unfolding close_reader
  close_reader-closed p q m = ground arith

  -- the handle is there, and it is this one
  abbrev pub is_ptr : Option ℕ → ℕ → Bool
  is_ptr none q = false
  is_ptr (some p) q = p == q

  drop_writer-effect :
      (key j q : ℕ) (o : Option WriteCache) (m : Memory b)
      → let r = drop_writer b key o m in
        (find j r.1 ≡ (if key == j then none else find j o))
        × (writer_closed q r.2 ≡ (is_ptr (find key o) q || writer_closed q m))
        × (reader_closed q r.2 ≡ reader_closed q m)
  unfolding drop_writer begin_commit
  drop_writer-effect key j q none m = (ground arith, refl, refl)
  drop_writer-effect key j q (some c) m = elim (Option-cases (lookup key c.entries)) [
    | inl absent ↦ ground (arith, lookup-delete key j c.entries)
    | inr (p, found) ↦
        let (done, m') = begin_commit b key m in
        ground (arith, found, lookup-delete key j c.entries, flush_out-closed key p done q m')
  ]

  drop_reader-effect :
      (key j q : ℕ) (o : Option WriteCache) (m : Memory b)
      → let r = drop_reader b key o m in
        (find j r.1 ≡ (if key == j then none else find j o))
        × (reader_closed q r.2 ≡ (is_ptr (find key o) q || reader_closed q m))
        × (writer_closed q r.2 ≡ writer_closed q m)
  unfolding drop_reader
  drop_reader-effect key j q none m = (ground arith, refl, refl)
  drop_reader-effect key j q (some c) m = elim (Option-cases (lookup key c.entries)) [
    | inl absent ↦ ground (arith, lookup-delete key j c.entries)
    | inr (p, found) ↦
        ground (arith, found, lookup-delete key j c.entries, close_reader-closed p q m)
  ]

  -- dropHandle takes the handles of the key out of both caches and no others, and closes them.
  pub drop_handle-effect :
      (key j q : ℕ) (c : Conn) (m : Memory b)
      → let r = drop_handle b key c m in
        (writer_for j r.1 ≡ (if key == j then none else writer_for j c))
        × (reader_for j r.1 ≡ (if key == j then none else reader_for j c))
        × (writer_closed q r.2 ≡ (is_ptr (writer_for key c) q || writer_closed q m))
        × (reader_closed q r.2 ≡ (is_ptr (reader_for key c) q || reader_closed q m))
  unfolding drop_handle
  drop_handle-effect key j q c m =
      let (we, wc, m') = drop_writer b key c.wc m in
      ground (arith, drop_writer-effect key j q c.wc m, drop_reader-effect key j q c.rc m')
