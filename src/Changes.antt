-- ===== src/Changes.antt =====
-- What the procedures that change attributes and names use of go-billy besides Backend: the interface
-- billy.Change, and what is behind an os.FileInfo.
use go_nfs.Attributes.{FileInfo}
use go_nfs.Backend.{Backend}
use go_nfs.Base.{ℕ, Bool, Option, List}
use go_nfs.Errors.Chain.{Error, Result}
use go_nfs.Times.{ℤ}

-- billy.Change
pub record Changer (b : Backend) : Type 0 where
  pub chmod : b.FilePath → ℕ → b.World → Option Error × b.World
  pub lchown : b.FilePath → ℕ → ℕ → b.World → Option Error × b.World
  pub chtimes : b.FilePath → ℤ → ℤ → b.World → Option Error × b.World

-- further methods of billy.Filesystem and of its files
pub record Files (b : Backend) : Type 0 where
  pub file_info : b.Info → FileInfo
  pub path_bytes : b.FilePath → List ℕ
  pub open_wo : b.FilePath → b.World → Result ℕ × b.World  -- OpenFile(path, O_WRONLY|O_EXCL, 0)
  pub truncate : ℕ → ℕ → b.World → Option Error × b.World

-- the methods of billy.Filesystem and of the Handler that the procedures on names use
pub record Names (b : Backend) : Type 0 where
  pub same_fs : ℕ → ℕ → b.World → Bool  -- reflect.DeepEqual of the file systems of two handles
  pub handle_if_cached : Option (b.FilePath → b.World → Option ℕ × b.World)  -- CachedHandleLookup, where there is one
  pub rename : b.FilePath → b.FilePath → b.World → Option Error × b.World
  pub create : b.FilePath → b.World → Result ℕ × b.World
  pub file_name : ℕ → b.FilePath
  pub symlink : List ℕ → b.FilePath → b.World → Option Error × b.World
  pub mkdir_all : b.FilePath → ℕ → b.World → Option Error × b.World

-- UnixChange, which extends billy.Change
pub record UnixChanger (b : Backend) : Type 0 where
  pub changer : Changer b
  pub mknod : b.FilePath → ℕ → ℕ → ℕ → b.World → Option Error × b.World
  pub mkfifo : b.FilePath → ℕ → b.World → Option Error × b.World
  pub socket : b.FilePath → b.World → Option Error × b.World
  pub link : List ℕ → b.FilePath → b.World → Option Error × b.World
