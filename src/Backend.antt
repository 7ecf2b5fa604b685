-- ===== src/Backend.antt =====
-- What the server uses of code outside the repository: the file system of go-billy behind a
-- handler, and crypto/rand. A file is the number of an open descriptor; what stands behind it, and
-- the contents of files, are the state `World`.
use go_nfs.Base.{ℕ, Bool, true, not, Option, none, some, List, ◌≡◌}
use go_nfs.Errors.Chain.{Error, Result, errors_is, is_handle_closed}

pub record Backend : Type 1 where
  pub World : Type 0
  pub FilePath : Type 0  -- a joined path
  pub Info : Type 0  -- os.FileInfo
  pub can_sync : ℕ → Bool  -- the file is a `syncer`
  pub can_stat : ℕ → Bool  -- the file is a `statter`
  pub seek : ℕ → ℕ → World → Option Error × World
  pub write : ℕ → List ℕ → World → ℕ × Option Error × World
  pub read_at : ℕ → ℕ → ℕ → World → List ℕ × Option Error × World  -- room, offset
  pub sync : ℕ → World → Option Error × World
  pub close : ℕ → World → Option Error × World
  pub fstat : ℕ → World → Result Info
  pub open_rw : FilePath → World → Result ℕ × World  -- OpenFile(path, O_RDWR, 0)
  pub open_ro : FilePath → World → Result ℕ × World  -- Open(path), OpenFile(path, O_RDONLY, 0)
  pub stat : FilePath → World → Result Info
  pub lstat : FilePath → World → Result Info
  pub is_regular : Info → Bool
  pub size : Info → ℕ
  pub is_dir : Info → Bool
  pub join_name : FilePath → List ℕ → FilePath  -- Join(append(path, name)...)
  pub remove : FilePath → World → Option Error × World
  pub random : ℕ → ℕ

-- an error that is no errHandleClosed, or none
abbrev pub is_foreign : Option Error → Bool
is_foreign none = true
is_foreign (some e) = not (errors_is is_handle_closed e)

-- errHandleClosed is a variable that the package does not export, so no error of a Sync carries it.
abbrev pub HidesSentinel : Backend → Type 0
HidesSentinel b = (f : ℕ) (w : b.World) → is_foreign (b.sync f w).0 ≡ true
