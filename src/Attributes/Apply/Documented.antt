-- ===== src/Attributes/Apply/Documented.antt =====
-- file.go: the attributes that Apply changes, and what go-billy documents of the calls that change them.
use go_nfs.Backend.{Backend}
use go_nfs.Base.{◌<◌, ℕ, ◌%◌, ◌≡◌, none}
use go_nfs.Changes.{Changer, Files}
use go_nfs.Errors.Chain.{ok}
use go_nfs.Times.{ℤ}
use go_nfs.Attributes.Apply.{attributes}

-- the attributes of one file that Apply can change
pub record Meta : Type 0 where
  pub perm : ℕ
  pub owner : ℕ
  pub group : ℕ
  pub length : ℕ
  pub accessed : ℤ
  pub modified : ℤ

-- How the attributes of a file are seen, and what go-billy documents of the calls on it. A call that
-- fails promises nothing. Truncate may touch the times of the file.
pub record IsDocumented (b : Backend) (fs : Files b) (c : Changer b)
    (meta : b.FilePath → b.World → Meta) : Type 0 where
  pub lstat :
      (file : b.FilePath) (w : b.World) (info : b.Info)
      → b.lstat file w ≡ ok info
      → ((attributes b fs info file).file_mode % 512 ≡ (meta file w).perm)
        × ((attributes b fs info file).uid ≡ (meta file w).owner)
        × ((attributes b fs info file).gid ≡ (meta file w).group)
  pub chmod :
      (file : b.FilePath) (n : ℕ) (w : b.World)
      → n < 512
      → (c.chmod file n w).0 ≡ none
      → meta file (c.chmod file n w).1 ≡ record (meta file w) { perm = n }
  pub lchown :
      (file : b.FilePath) (u g : ℕ) (w : b.World)
      → (c.lchown file u g w).0 ≡ none
      → meta file (c.lchown file u g w).1 ≡ record (meta file w) { owner = u; group = g }
  pub chtimes :
      (file : b.FilePath) (a m : ℤ) (w : b.World)
      → (c.chtimes file a m w).0 ≡ none
      → meta file (c.chtimes file a m w).1 ≡ record (meta file w) { accessed = a; modified = m }
  pub resize :
      (file : b.FilePath) (fp n : ℕ) (w w' w'' w''' : b.World)
      → fs.open_wo file w ≡ (ok fp, w')
      → fs.truncate fp n w' ≡ (none, w'')
      → b.close fp w'' ≡ (none, w''')
      → (a m : ℤ) × (meta file w'''
          ≡ record (meta file w) { length = n; accessed = a; modified = m })
