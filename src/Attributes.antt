-- ===== src/Attributes.antt =====
-- file.go: the attributes of a file and their bytes on the wire. Every writer of these bytes is a
-- buffer, whose Write does not fail.
pub mod Fattr
pub mod Sattr
pub mod Apply
use go_nfs.Base.{
  ◌==◌, if◌then◌else◌, ℕ, ◌*◌, ◌/◌, ◌%◌, ◌^◌, Bool, Option, none, some, List, [], ◌∷◌, ◌++◌,
}
use go_nfs.Times.{ℤ, FileTime, to_nfs_time}
use go_nfs.Words.{u32, u64}
use go_nfs.Xdr.{Xdr, ReadsBack, Reader, give, ◌>>=◌, >>=-uint32}
use go_nfs.Times.{FitsTime}
use go_nfs.Errors.Chain.{ok}
use go_nfs.Base.{◌≡◌, refl}
use mathlib.Core.List.{append_assoc}
use Prim.Native.Nat.{bit_xor}

-- FileType
pub data FileType : Type 0 where
  regular directory block character link socket fifo : FileType

-- uint32(fileType)
unfoldable pub file_type_code : FileType → ℕ
file_type_code FileType.regular = 1
file_type_code FileType.directory = 2
file_type_code FileType.block = 3
file_type_code FileType.character = 4
file_type_code FileType.link = 5
file_type_code FileType.socket = 6
file_type_code FileType.fifo = 7

-- file.FileInfo: what file.GetInfo extracts of a FileInfo
pub record SysInfo : Type 0 where
  pub links : ℕ
  pub owner : ℕ
  pub group : ℕ
  pub major : ℕ
  pub minor : ℕ
  pub inode : ℕ

-- os.FileInfo; `sys` is what file.GetInfo makes of it
pub record FileInfo : Type 0 where
  pub name : List ℕ
  pub mode_bits : ℕ
  pub is_directory : Bool
  pub bytes : ℕ
  pub modified : ℤ
  pub sys : Option SysInfo

-- FileAttribute
pub record FileAttribute : Type 0 where
  pub file_type : FileType
  pub file_mode : ℕ
  pub nlink : ℕ
  pub uid : ℕ
  pub gid : ℕ
  pub filesize : ℕ
  pub used : ℕ
  pub spec_data : ℕ × ℕ
  pub fsid : ℕ
  pub fileid : ℕ
  pub atime : FileTime
  pub mtime : FileTime
  pub ctime : FileTime

-- FileCacheAttribute
pub record FileCacheAttribute : Type 0 where
  pub filesize : ℕ
  pub mtime : FileTime
  pub ctime : FileTime

-- AsCache
unfoldable pub as_cache : FileAttribute → FileCacheAttribute
as_cache f = record { filesize = f.filesize; mtime = f.mtime; ctime = f.ctime }

-- mode & mask != 0, for the mask of one bit
abbrev pub has_bit : ℕ → ℕ → Bool
has_bit n mode = mode / 2 ^ n % 2 == 1

-- ToFileAttribute, its choice of f.Type: ModeSymlink is 2 ^ 27, ModeCharDevice 2 ^ 21, ModeDevice
-- 2 ^ 26, ModeSocket 2 ^ 24 and ModeNamedPipe 2 ^ 25
unfoldable pub type_of_mode : Bool → ℕ → FileType
type_of_mode is_dir mode =
    if is_dir
    then FileType.directory
    else if has_bit 27 mode
    then FileType.link
    else if has_bit 21 mode
    then FileType.character
    else if has_bit 26 mode
    then FileType.block
    else if has_bit 24 mode
    then FileType.socket
    else if has_bit 25 mode
    then FileType.fifo
    else FileType.regular

-- fnv.New64, Write and Sum64: FNV-1, which multiplies first
unfoldable pub fnv64 : ℕ → List ℕ → ℕ
fnv64 h [] = h
fnv64 h (b ∷ bytes) = fnv64 (bit_xor (u64 (h * 1099511628211)) b % 2 ^ 64) bytes

abbrev pub fnv_offset : ℕ
fnv_offset = 14695981039346656037

-- ToFileAttribute, its default where file.GetInfo gives nil
unfoldable pub or_hash : List ℕ → Option SysInfo → SysInfo
unfolding fnv64
or_hash path (some a) = a
or_hash path none = record {
  links = 1;
  owner = 0;
  group = 0;
  major = 0;
  minor = 0;
  inode = fnv64 fnv_offset path;
}

-- ToFileAttribute
unfoldable pub to_file_attribute : FileInfo → List ℕ → FileAttribute
unfolding type_of_mode or_hash to_nfs_time
to_file_attribute info path =
    let a = or_hash path info.sys in
    let t = to_nfs_time info.modified in
    record {
      file_type = type_of_mode info.is_directory info.mode_bits;
      file_mode = u32 info.mode_bits;
      nlink = a.links;
      uid = a.owner;
      gid = a.group;
      filesize = u64 info.bytes;
      used = u64 info.bytes;
      spec_data = (a.major, a.minor);
      fsid = 0;
      fileid = a.inode;
      atime = t;
      mtime = t;
      ctime = t;
    }

module _ (x : Xdr) where
  unfoldable pub write_time : FileTime → List ℕ
  write_time t = x.write_uint32 t.seconds ++ x.write_uint32 t.nseconds

  -- xdr.Write of a FileAttribute
  unfoldable pub write_attribute : FileAttribute → List ℕ
  unfolding file_type_code
  write_attribute f =
      x.write_uint32 (file_type_code f.file_type)
      ++ (x.write_uint32 f.file_mode
          ++ (x.write_uint32 f.nlink
              ++ (x.write_uint32 f.uid
                  ++ (x.write_uint32 f.gid
                      ++ (x.write_uint64 f.filesize
                          ++ (x.write_uint64 f.used
                              ++ (x.write_uint32 f.spec_data.0
                                  ++ (x.write_uint32 f.spec_data.1
                                      ++ (x.write_uint64 f.fsid
                                          ++ (x.write_uint64 f.fileid
                                              ++ (write_time f.atime
                                                  ++ (write_time f.mtime
                                                      ++ write_time f.ctime))))))))))))

  -- xdr.Write of a FileCacheAttribute
  unfoldable pub write_cache_attribute : FileCacheAttribute → List ℕ
  write_cache_attribute f = x.write_uint64 f.filesize ++ (write_time f.mtime ++ write_time f.ctime)

  -- WritePostOpAttrs
  unfoldable pub write_post_op_attrs : Option FileAttribute → List ℕ
  write_post_op_attrs none = x.write_uint32 0
  write_post_op_attrs (some f) = x.write_uint32 1 ++ write_attribute f

  -- WriteWcc, for `pre`
  unfoldable pub write_pre_op_attrs : Option FileCacheAttribute → List ℕ
  write_pre_op_attrs none = x.write_uint32 0
  write_pre_op_attrs (some f) = x.write_uint32 1 ++ write_cache_attribute f

  -- WriteWcc
  unfoldable pub write_wcc : Option FileCacheAttribute → Option FileAttribute → List ℕ
  write_wcc pre post = write_pre_op_attrs pre ++ write_post_op_attrs post

  -- xdr.Read of a FileTime
  unfoldable pub read_time : Reader FileTime
  read_time bytes =
      (do s ← x.read_uint32; n ← x.read_uint32; give (record { seconds = s; nseconds = n })) bytes

  pub read_time-write_time :
      ReadsBack x
      → (t : FileTime) (rest : List ℕ) → FitsTime t
      → read_time (write_time t ++ rest) ≡ ok (t, rest)
  unfolding read_time write_time
  read_time-write_time law t rest (hs, hn) =
      rw (append_assoc, >>=-uint32 x law _ _ _ hs, >>=-uint32 x law _ _ _ hn) refl
