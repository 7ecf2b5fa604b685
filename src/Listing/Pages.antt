-- ===== src/Listing/Pages.antt =====
-- nfs_onreaddir.go: what one page holds, and that the pages of a client's loop are the directory.
use go_nfs.Listing.{read_page, entity}
use go_nfs.Listing.{read_page, u64}
use go_nfs.Attributes.{FileInfo}
use go_nfs.Base.{
  length-drop, ◌≤◌, ap, ◌∙◌, ◌==◌, suc, length, take, drop, ltb, ◌==◌, Bool-cases, ℕ, zero, suc,
  ◌+◌, ◌^◌, ◌≤◌, ◌<◌, ◌≡◌, refl, ap, inl, inr, Bool, true, false, ◌||◌, List, [], ◌∷◌, ◌++◌, arith,
}
use go_nfs.Listing.{read_page, DirEntity, fill, close_last}
use go_nfs.Words.{u32}

-- what a client keeps of an entity
abbrev pub Listed : Type 0
Listed = List (List ℕ × ℕ)

unfoldable pub listed : List DirEntity → Listed
listed [] = []
listed (e ∷ es) = (e.name, e.cookie) ∷ listed es

-- entries from the i-th on, each with its cookie
unfoldable pub numbered : ℕ → List FileInfo → Listed
numbered i [] = []
numbered i (c ∷ cs) = (c.name, i + 2) ∷ numbered (i + 1) cs

-- A page of the entries `cs`, whose first has the index i: some of them from the first on, at least
-- one if there is any, and whether these are all.
pub record IsPage (i : ℕ) (cs : List FileInfo) (page : Listed) (eof : Bool) : Type 0 where
  pub given : ℕ
  pub within : given ≤ length cs
  pub entries : page ≡ numbered i (take given cs)
  pub at_end : eof ≡ (given == length cs)
  pub progress : 0 < length cs → 0 < given

listed-append : (xs ys : List DirEntity) → listed (xs ++ ys) ≡ listed xs ++ listed ys
unfolding listed
listed-append [] ys = refl
listed-append (x ∷ xs) ys = ap (λ r. (x.name, x.cookie) ∷ r) (listed-append xs ys)

listed-close_last : (es : List DirEntity) → listed (close_last es) ≡ listed es
unfolding listed close_last
listed-close_last [] = refl
listed-close_last (e ∷ []) = refl
listed-close_last (e ∷ f ∷ es) = ap (λ r. (e.name, e.cookie) ∷ r) (listed-close_last (f ∷ es))

module _ (file_id : FileInfo → ℕ) (count limit from : ℕ) where
  small_cookie : (i : ℕ) → i + 2 < 2 ^ 64 → u64 (i + 2) ≡ i + 2
  small_cookie i h = omega arith

  -- what the loop appends once it has started
  fill_started :
      (i bytes len : ℕ) (cs : List FileInfo)
      → i + length cs + 2 < 2 ^ 64
      → (m : ℕ) × (m ≤ length cs)
        × (listed (fill file_id count limit from i true bytes len cs).0 ≡ numbered i (take m cs))
        × ((fill file_id count limit from i true bytes len cs).1 ≡ (m == length cs))
        × (u32 (bytes + 512) ≤ count → len ≤ limit → 0 < length cs → 0 < m)
  unfolding fill entity listed numbered
  fill_started i bytes len [] small = (0, omega arith, refl, refl, λ h k l. l)
  fill_started i bytes len (c ∷ cs) small =
      elim (Bool-cases (ltb count (u32 (bytes + 512)) || ltb limit len)) [
        | inl t ↦ (0, omega arith, rw t refl, rw t (ground arith), λ h k l. ground arith)
        | inr f ↦
            let (m, within, es, eof, _) =
              fill_started (i + 1) (u32 (bytes + 512)) (len + 1) cs (omega arith) in
            (
              suc m,
              omega arith,
              rw (f, small_cookie i (omega arith), es) refl,
              rw (f, eof) (ground arith),
              λ h k l. omega arith,
            )
      ]

  same_cookie : (i : ℕ) → from ≡ i + 0 + 2 → i + 2 < 2 ^ 64 → (u64 (i + 2) == from) ≡ true
  same_cookie i e h = ground arith

  other_cookie :
      (i k : ℕ) → 0 < k → from ≡ i + k + 2 → i + 2 < 2 ^ 64 → (u64 (i + 2) == from) ≡ false
  other_cookie i k p e h = ground arith

  -- the loop up to the entry of the cookie
  fill_skipped :
      (i k bytes len : ℕ) (cs : List FileInfo)
      → from ≡ i + k + 2
      → k < length cs
      → i + length cs + 2 < 2 ^ 64
      → fill file_id count limit from i false bytes len cs
        ≡ fill file_id count limit from (i + k + 1) true bytes len (drop (suc k) cs)
  unfolding fill
  fill_skipped i k bytes len [] e h small = absurd (omega arith)
  fill_skipped i zero bytes len (c ∷ cs) e h small =
      rw (same_cookie i e (omega arith))
        (ap (λ (j : ℕ). fill file_id count limit from j true bytes len cs) (omega arith))
  fill_skipped i (suc k) bytes len (c ∷ cs) e h small =
      rw (other_cookie i (suc k) (omega arith) e (omega arith)) (
        fill_skipped (i + 1) k bytes len cs (omega arith) (omega arith) (omega arith)
        ∙ ap (λ (j : ℕ). fill file_id count limit from j true bytes len (drop (suc k) cs))
            (omega arith))

module _ (file_id : FileInfo → ℕ) (count limit : ℕ) (roomy : 1024 ≤ count) (start : List DirEntity)
    (cs : List FileInfo) (small : length cs + 2 < 2 ^ 64) where
  abbrev page : ℕ → List DirEntity × Bool
  page from = read_page file_id count limit start from cs

  -- The page of the cookie 0 is the given first entities, followed by a page of the whole contents
  -- if they leave room for an entry; `count` is 1024 at least, and no cookie reaches 2 ^ 64.
  pub read_page-first :
      length start ≤ limit
      → (p : Listed) × (listed (page 0).0 ≡ listed start ++ p) × IsPage 0 cs p (page 0).1
  unfolding read_page
  read_page-first room =
      let (m, within, es, eof, more) =
        fill_started file_id count limit 0 0 100 (length start) cs (omega arith) in
      (
        listed (fill file_id count limit 0 0 true 100 (length start) cs).0,
        listed-close_last _ ∙ listed-append start _,
        record {
          given = m;
          within = within;
          entries = es;
          at_end = eof;
          progress = more (omega arith) room;
        },
      )

  abbrev tail_from : ℕ → List DirEntity × Bool
  tail_from k = fill file_id count limit (k + 2) (k + 1) true 100 0 (drop (k + 1) cs)

  page_later :
      (k : ℕ) → k < length cs → page (k + 2) ≡ (close_last (tail_from k).0, (tail_from k).1)
  unfolding read_page
  page_later k h =
      let one : suc k ≡ k + 1 = omega arith in
      let shift : 0 + k + 1 ≡ k + 1 = omega arith in
      rw (not_zero k) (
        ap (λ (r : List DirEntity × Bool). (close_last r.0, r.1))
          (rw (shift, one) at
            (fill_skipped file_id count limit (k + 2) 0 k 100 0 cs (omega arith) h (omega arith))))
    where
      not_zero : (n : ℕ) → (n + 2 == 0) ≡ false
      not_zero n = ground arith

  -- The page of the cookie of an entry is a page of the entries after it; `count` is 1024 at least, and
  -- no cookie reaches 2 ^ 64.
  pub read_page-later :
      (k : ℕ)
      → k < length cs
      → IsPage (k + 1) (drop (k + 1) cs) (listed (page (k + 2)).0) (page (k + 2)).1
  read_page-later k h =
      let (m, within, es, eof, more) =
        fill_started file_id count limit (k + 2) (k + 1) 100 0 (drop (k + 1) cs)
          (omega (arith, length-drop (k + 1) cs)) in
      rw (page_later k h) (record {
        given = m;
        within = within;
        entries = listed-close_last (tail_from k).0 ∙ es;
        at_end = eof;
        progress = more (omega arith) (omega arith);
      })
