-- ===== src/Attributes/Sattr.antt =====
-- file.go: SetFileAttributes, and how ReadSetFileAttributes reads it from a request. A client's side
-- is the sattr3 of RFC 1813 (2.6) with its set_mode3, set_uid3, set_gid3, set_size3 and time_how.
use go_nfs.Attributes.{write_time, read_time, read_time-write_time}
use go_nfs.Base.{
  ◌==◌, ℕ, ◌%◌, ◌^◌, ◌<◌, ◌≡◌, refl, ◌∙◌, true, false, Option, none, some, List, ◌++◌, arith,
}
use go_nfs.Errors.Chain.{ok}
use go_nfs.Times.{ℤ, FileTime, native, FitsTime}
use go_nfs.Xdr.{◌>>=◌, Xdr, ReadsBack, Reader, >>=-ok, >>=-uint32, give}
use mathlib.Core.List.{append_assoc}

-- SetFileAttributes
pub record SetFileAttributes : Type 0 where
  pub set_mode : Option ℕ
  pub set_uid : Option ℕ
  pub set_gid : Option ℕ
  pub set_size : Option ℕ
  pub set_atime : Option ℤ
  pub set_mtime : Option ℤ

-- Mode: os.ModePerm is 0o777
unfoldable pub mode : SetFileAttributes → ℕ → ℕ
mode s default = elim s.set_mode [ some m ↦ m % 512 | none ↦ default ]

module _ (x : Xdr) where
  -- ReadSetFileAttributes: a value after a number that is not 0
  unfoldable pub read_optional : Reader ℕ → Reader (Option ℕ)
  read_optional r bytes =
      (do
        has ← x.read_uint32
        (λ rest. elim (has == 0) [
          | true ↦ ok (none, rest)
          | false ↦ (r >>= λ n. give (some n)) rest
        ]))
        bytes

  -- ReadSetFileAttributes: a time after a number, which is 1 for `now`
  unfoldable pub read_set_time : ℤ → Reader (Option ℤ)
  unfolding read_time
  read_set_time now bytes =
      (do
        how ← x.read_uint32
        (λ rest. elim (how == 1) [
          | true ↦ ok (some now, rest)
          | false ↦ elim (how == 2) [
            | true ↦ (read_time x >>= λ t. give (some (native t))) rest
            | false ↦ ok (none, rest)
          ]
        ]))
        bytes

  -- ReadSetFileAttributes; `now_a` and `now_m` are what its two calls of time.Now() give
  unfoldable pub read_set_file_attributes : ℤ → ℤ → Reader SetFileAttributes
  read_set_file_attributes now_a now_m bytes =
      (do
        m ← read_optional x.read_uint32
        u ← read_optional x.read_uint32
        g ← read_optional x.read_uint32
        size ← read_optional x.read_uint64
        a ← read_set_time now_a
        t ← read_set_time now_m
        give (record {
          set_mode = m;
          set_uid = u;
          set_gid = g;
          set_size = size;
          set_atime = a;
          set_mtime = t;
        }))
        bytes

-- time_how, with the time of SET_TO_CLIENT_TIME
pub data TimeHow : Type 0 where
  dont_change to_server_time : TimeHow
  to_client_time : FileTime → TimeHow

-- sattr3
pub record Sattr : Type 0 where
  pub mode3 : Option ℕ
  pub uid3 : Option ℕ
  pub gid3 : Option ℕ
  pub size3 : Option ℕ
  pub atime_how : TimeHow
  pub mtime_how : TimeHow

-- what a server is to make of a time_how
abbrev pub meant_time : ℤ → TimeHow → Option ℤ
meant_time now TimeHow.dont_change = none
meant_time now TimeHow.to_server_time = some now
meant_time now (TimeHow.to_client_time t) = some (native t)

abbrev pub meant : ℤ → ℤ → Sattr → SetFileAttributes
meant now_a now_m s = record {
  set_mode = s.mode3;
  set_uid = s.uid3;
  set_gid = s.gid3;
  set_size = s.size3;
  set_atime = meant_time now_a s.atime_how;
  set_mtime = meant_time now_m s.mtime_how;
}

abbrev pub FitsHow : TimeHow → Type 0
FitsHow (TimeHow.to_client_time t) = FitsTime t
FitsHow _ = Unit

abbrev FitsOption : ℕ → Option ℕ → Type 0
FitsOption bound none = Unit
FitsOption bound (some n) = n < bound

-- the fields fit their words
pub record FitsSattr (s : Sattr) : Type 0 where
  pub mode3 : FitsOption (2 ^ 32) s.mode3
  pub uid3 : FitsOption (2 ^ 32) s.uid3
  pub gid3 : FitsOption (2 ^ 32) s.gid3
  pub size3 : FitsOption (2 ^ 64) s.size3
  pub atime_how : FitsHow s.atime_how
  pub mtime_how : FitsHow s.mtime_how

module _ (x : Xdr) where
  pub put_optional : (ℕ → List ℕ) → Option ℕ → List ℕ
  put_optional put none = x.write_uint32 0
  put_optional put (some n) = x.write_uint32 1 ++ put n

  pub put_how : TimeHow → List ℕ
  put_how TimeHow.dont_change = x.write_uint32 0
  put_how TimeHow.to_server_time = x.write_uint32 1
  put_how (TimeHow.to_client_time t) = x.write_uint32 2 ++ write_time x t

  -- a client's sattr3
  pub put_sattr : Sattr → List ℕ
  put_sattr s =
      put_optional x.write_uint32 s.mode3
      ++ (put_optional x.write_uint32 s.uid3
          ++ (put_optional x.write_uint32 s.gid3
              ++ (put_optional x.write_uint64 s.size3
                  ++ (put_how s.atime_how ++ put_how s.mtime_how))))

  module _ (law : ReadsBack x) where
    read_optional-put_optional :
        (r : Reader ℕ) (put : ℕ → List ℕ) (bound : ℕ)
        → ((n : ℕ) (rest : List ℕ) → n < bound → r (put n ++ rest) ≡ ok (n, rest))
        → (o : Option ℕ) (rest : List ℕ) → FitsOption bound o
        → read_optional x r (put_optional put o ++ rest) ≡ ok (o, rest)
    unfolding read_optional put_optional
    read_optional-put_optional r put bound back none rest h =
        >>=-uint32 x law _ 0 rest (omega arith)
    read_optional-put_optional r put bound back (some n) rest h =
        rw append_assoc
          (>>=-uint32 x law _ 1 _ (omega arith) ∙ >>=-ok r (λ m. give (some m)) _ (back n rest h))

    read_set_time-put_how :
        (now : ℤ) (how : TimeHow) (rest : List ℕ)
        → FitsHow how
        → read_set_time x now (put_how how ++ rest) ≡ ok (meant_time now how, rest)
    unfolding read_set_time put_how
    read_set_time-put_how now TimeHow.dont_change rest h = >>=-uint32 x law _ 0 rest (omega arith)
    read_set_time-put_how now TimeHow.to_server_time rest h =
        >>=-uint32 x law _ 1 rest (omega arith)
    read_set_time-put_how now (TimeHow.to_client_time t) rest h = rw append_assoc (
        >>=-uint32 x law _ 2 _ (omega arith)
        ∙ >>=-ok (read_time x) (λ u. give (some (native u))) _
            (read_time-write_time x law t rest h))

    -- ReadSetFileAttributes reads a client's sattr3 as what it means, a time set to the server's being
    -- what time.Now() gave for it, and leaves what follows it, if the fields fit their words and the
    -- package xdr reads back what it writes.
    pub read_set_file_attributes-put_sattr :
        (now_a now_m : ℤ) (s : Sattr) (rest : List ℕ)
        → FitsSattr s
        → read_set_file_attributes x now_a now_m (put_sattr s ++ rest)
          ≡ ok (meant now_a now_m s, rest)
    unfolding read_set_file_attributes put_sattr
    read_set_file_attributes-put_sattr now_a now_m s rest h =
        let words = read_optional-put_optional x.read_uint32 x.write_uint32 (2 ^ 32) law.uint32 in
        simp append_assoc (
          rw
            (
              >>=-ok (read_optional x x.read_uint32) _ _ (words s.mode3 _ h.mode3),
              >>=-ok (read_optional x x.read_uint32) _ _ (words s.uid3 _ h.uid3),
              >>=-ok (read_optional x x.read_uint32) _ _ (words s.gid3 _ h.gid3),
              >>=-ok (read_optional x x.read_uint64) _ _ (
                  read_optional-put_optional x.read_uint64 x.write_uint64 (2 ^ 64) law.uint64
                    s.size3 _ h.size3),
              >>=-ok (read_set_time x now_a) _ _
                  (read_set_time-put_how now_a s.atime_how _ h.atime_how),
              >>=-ok (read_set_time x now_m) _ _
                  (read_set_time-put_how now_m s.mtime_how rest h.mtime_how),
            )
            refl)
