-- ===== src/Listing.antt =====
-- nfs_onreaddir.go: one page of a directory listing. A cookie is the index of an entry in the sorted
-- contents, plus 2.
pub mod Pages
pub mod Client
use go_nfs.Attributes.{FileInfo}
use go_nfs.Base.{
  length, ltb, ◌==◌, if◌then◌else◌, ℕ, ◌+◌, Bool, true, false, ◌||◌, List, [], ◌∷◌, ◌++◌,
}
use go_nfs.Words.{u32, u64}

-- readDirEntity
pub record DirEntity : Type 0 where
  pub file_id : ℕ
  pub name : List ℕ
  pub cookie : ℕ
  pub next : Bool

-- the entities of "." and "..", with the file ids of a directory and of its parent
unfoldable pub dots : ℕ → ℕ → List DirEntity
dots dot dotdot =
    record { file_id = dot; name = 46 ∷ []; cookie = 0; next = true }
    ∷ record { file_id = dotdot; name = 46 ∷ 46 ∷ []; cookie = 1; next = true }
    ∷ []

module _ (file_id : FileInfo → ℕ) (count limit from : ℕ) where
  -- the entity of the i-th entry
  unfoldable pub entity : ℕ → FileInfo → DirEntity
  entity i c = record { file_id = file_id c; name = c.name; cookie = u64 (i + 2); next = true }

  -- the loop of onReadDir from the i-th entry on: `bytes` is maxBytes, `len` is len(entities), and
  -- the result is what it appends and eof
  unfoldable pub fill : ℕ → Bool → ℕ → ℕ → List FileInfo → List DirEntity × Bool
  unfolding entity
  fill i started bytes len [] = ([], true)
  fill i started bytes len (c ∷ cs) =
      let more = fill (i + 1) true (u32 (bytes + 512)) (len + 1) cs in
      let skipped = fill (i + 1) (u64 (i + 2) == from) bytes len cs in
      if started
      then (if ltb count (u32 (bytes + 512)) || ltb limit len
          then ([], false)
          else (entity i c ∷ more.0, more.1))
      else skipped

-- entities[len(entities)-1].Next = false
unfoldable pub close_last : List DirEntity → List DirEntity
close_last [] = []
close_last (e ∷ []) = record e { next = false } ∷ []
close_last (e ∷ f ∷ es) = e ∷ close_last (f ∷ es)

-- onReadDir from the entities of "." and ".." to the end of the loop, with the Next of the last entity
unfoldable pub read_page :
    (FileInfo → ℕ) → ℕ → ℕ → List DirEntity → ℕ → List FileInfo → List DirEntity × Bool
unfolding fill close_last
read_page file_id count limit start from contents =
    let started = from == 0 in
    let first = if started then start else [] in
    let (es, eof) = fill file_id count limit from 0 started 100 (length first) contents in
    (close_last (first ++ es), eof)
