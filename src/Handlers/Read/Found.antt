-- ===== src/Handlers/Read/Found.antt =====
-- nfs_onread.go: where the bytes of a READ come from.
use go_nfs.Action.{◌>>=◌, >>=-eq-ok}
use go_nfs.Backend.{Backend}
use go_nfs.Base.{
  if◌then◌else◌, Bool-cases, ℕ, ◌≡◌, refl, sym, ap, ◌∙◌, ◌≢◌, inl, inr, Bool, true, false, Option,
  none, some, List, arith,
}
use go_nfs.Errors.Chain.{Error, errors_is, is_handle_closed, is_eof, ok, err_handle_closed}
use go_nfs.Handlers.Read.{
  error_is, read_handle_for, read_once, drop_reader_if, read_again, check_read, read_bytes,
}
use go_nfs.Handlers.Write.{Others}
use go_nfs.Memory.{Memory}
use go_nfs.Server.{Server}
use go_nfs.ReadCache.{read_at}

abbrev pub is_none : Option Error → Bool
is_none none = true
is_none (some e) = false

module _ (b : Backend) where
  -- the bytes come from a read of at most `room` bytes at the offset through a file that was open; it
  -- met no error but the end of the file, and that if `at_end` says so, and it left this memory
  pub record ReadFrom (room offset now : ℕ) (bytes : List ℕ) (at_end : Bool) (left : Memory b)
      : Type 0 where
    pub before : Memory b
    pub reader : ℕ
    pub error : Option Error
    pub is_open : (before.readers reader).closed ≡ false
    pub outcome : (read_at b reader room offset now before).0 ≡ bytes
    pub reported : (read_at b reader room offset now before).1 ≡ error
    pub leaves : (read_at b reader room offset now before).2 ≡ left
    pub only_eof : (if at_end then error_is is_eof error else is_none error) ≡ true

  read_at-closed :
      (p room offset now : ℕ) (m : Memory b)
      → (m.readers p).closed ≡ true
      → (read_at b p room offset now m).1 ≡ some err_handle_closed
  unfolding read_at
  read_at-closed p room offset now m h = ground arith

  check_read-ok :
      (r : List ℕ × Option Error) (s t : Server b) (bytes : List ℕ) (at_end : Bool)
      → check_read b r s ≡ some (ok (bytes, at_end), t)
      → (r.0 ≡ bytes) × ((if at_end then error_is is_eof r.1 else is_none r.1) ≡ true) × (s ≡ t)
  unfolding check_read
  check_read-ok (l, none) s t bytes at_end h = (ground arith, ground arith, ground arith)
  check_read-ok (l, some e) s t bytes at_end h = (ground arith, ground arith, ground arith)

  -- an errHandleClosed is neither the end of the file nor no error
  not_accepted :
      (a : Bool)
      → (if a then error_is is_eof (some err_handle_closed) else is_none (some err_handle_closed))
        ≢ true
  unfolding errors_is
  not_accepted true e = cc e
  not_accepted false e = cc e

  module _ (o : Others b) (room offset now : ℕ) where
    -- a read that check_read accepts was of an open file
    found :
        (p : ℕ) (m left : Memory b) (bytes : List ℕ) (at_end : Bool)
        → (read_at b p room offset now m).0 ≡ bytes
        → (read_at b p room offset now m).2 ≡ left
        → (if at_end
            then error_is is_eof (read_at b p room offset now m).1
            else is_none (read_at b p room offset now m).1)
          ≡ true
        → ReadFrom room offset now bytes at_end left
    found p m left bytes at_end h l g = record {
      before = m;
      reader = p;
      error = (read_at b p room offset now m).1;
      is_open = elim (Bool-cases (m.readers p).closed) [
        | inr fine ↦ fine
        | inl shut ↦
            absurd (not_accepted at_end (rw (read_at-closed p room offset now m shut) at g))
      ];
      outcome = h;
      reported = refl;
      leaves = l;
      only_eof = g;
    }

    read_once-ok :
        (k p : ℕ) (s t : Server b) (r : List ℕ × Option Error)
        → read_once b o k p room offset now s ≡ some (ok r, t)
        → (r.0 ≡ (read_at b p room offset now (o.writing k s).memory).0)
          × (r.1 ≡ (read_at b p room offset now (o.writing k s).memory).1)
          × (t.memory ≡ (read_at b p room offset now (o.writing k s).memory).2)
    unfolding read_once
    read_once-ok k p s t r h = ground arith

    module _ (id key : ℕ) (path : b.FilePath) where
      -- the read whose bytes and error come out of read_again
      read_again-ok :
          (p : ℕ) (first r : List ℕ × Option Error) (m : Memory b) (s t : Server b)
          → (first.0 ≡ (read_at b p room offset now m).0)
            × (first.1 ≡ (read_at b p room offset now m).1)
            × (s.memory ≡ (read_at b p room offset now m).2)
          → read_again b o id key p path room offset now first s ≡ some (ok r, t)
          → (q : ℕ) × (n : Memory b) × (r.0 ≡ (read_at b q room offset now n).0)
            × (r.1 ≡ (read_at b q room offset now n).1)
            × (t.memory ≡ (read_at b q room offset now n).2)
      unfolding read_again
      read_again-ok p (bytes, e) r m s t h g = elim (Bool-cases (error_is is_handle_closed e)) [
        | inr fine ↦ (p, m, ground arith, ground arith, ground arith)
        | inl shut ↦
            let (q, u, opened, once) =
              >>=-eq-ok (read_handle_for b o 0 id key path now)
                (λ q. read_once b o 1 q room offset now) (drop_reader_if b id key p s)
                (rw shut at g) in
            let (f, d, l) = read_once-ok 1 q u t r once in (q, (o.writing 1 u).memory, f, d, l)
      ]

      -- A READ that succeeds has its bytes from one read through a file that was open at that moment,
      -- also if its first handle was closed under it; an error other than the end of the file is not
      -- swallowed, and the end of the file is reported if the read met it.
      pub read_bytes-ReadFrom :
          (p : ℕ) (s : Server b) {bytes : List ℕ} {at_end : Bool} {t : Server b}
          → read_bytes b o id key p path room offset now s ≡ some (ok (bytes, at_end), t)
          → ReadFrom room offset now bytes at_end t.memory
      unfolding read_bytes
      read_bytes-ReadFrom p s {bytes} {at_end} {t} h =
          let (first, u, once, rest) =
            >>=-eq-ok (read_once b o 2 p room offset now)
              (λ first. read_again b o id key p path room offset now first >>= check_read b) s h in
          let (last, u', second, checked) =
            >>=-eq-ok (read_again b o id key p path room offset now first) (check_read b) u rest in
          let (f, d, m) = read_once-ok 2 p s u first once in
          let (q, n, f', d', m') =
            read_again-ok p first last (o.writing 2 s).memory u u' (f, d, m) second in
          let (l, e, same) = check_read-ok last u' t bytes at_end checked in
          found q n t.memory bytes at_end (sym f' ∙ l)
            (sym m' ∙ ap (λ (s : Server b). s.memory) same) (rw d' at e)
