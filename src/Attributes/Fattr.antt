-- ===== src/Attributes/Fattr.antt =====
-- file.go: what a client reads of the attributes in a reply. The readers here are those of a client,
-- by RFC 1813: fattr3 (2.6), wcc_attr, post_op_attr and wcc_data.
use go_nfs.Attributes.{
  FileType, file_type_code, SysInfo, FileInfo, FileAttribute, fnv64, fnv_offset, or_hash,
  to_file_attribute, write_time, write_attribute,
}
use go_nfs.Base.{
  ◌==◌, if◌then◌else◌, ℕ, ◌^◌, ◌<◌, ◌≡◌, refl, ◌∙◌, Option, none, some, List, [], ◌∷◌, ◌++◌, arith,
}
use go_nfs.Errors.Chain.{ok}
use go_nfs.Times.{FileTime, FitsTime, to_nfs_time_bounds}
use go_nfs.Base.{true, false}
use go_nfs.Attributes.{
  FileCacheAttribute, read_time, read_time-write_time, write_wcc, write_pre_op_attrs,
  write_post_op_attrs, write_cache_attribute,
}
use go_nfs.Xdr.{Xdr, ReadsBack, Reader, give, ◌>>=◌, >>=-ok, >>=-uint32, >>=-uint64}
use mathlib.Core.List.{append_assoc}

-- ftype3
unfoldable type_of_code : ℕ → FileType
type_of_code n =
    if n == 2
    then FileType.directory
    else if n == 3
    then FileType.block
    else if n == 4
    then FileType.character
    else if n == 5
    then FileType.link
    else if n == 6
    then FileType.socket
    else if n == 7
    then FileType.fifo
    else FileType.regular

type_of_code-file_type_code : (t : FileType) → type_of_code (file_type_code t) ≡ t
unfolding type_of_code file_type_code
type_of_code-file_type_code FileType.regular = refl
type_of_code-file_type_code _ = refl

file_type_code-lt : (t : FileType) → file_type_code t < 2 ^ 32
unfolding file_type_code
file_type_code-lt t = ground arith

-- the fields fit their words
pub record FitsWire (f : FileAttribute) : Type 0 where
  pub file_mode : f.file_mode < 2 ^ 32
  pub nlink : f.nlink < 2 ^ 32
  pub uid : f.uid < 2 ^ 32
  pub gid : f.gid < 2 ^ 32
  pub filesize : f.filesize < 2 ^ 64
  pub used : f.used < 2 ^ 64
  pub major : f.spec_data.0 < 2 ^ 32
  pub minor : f.spec_data.1 < 2 ^ 32
  pub fsid : f.fsid < 2 ^ 64
  pub fileid : f.fileid < 2 ^ 64
  pub atime : FitsTime f.atime
  pub mtime : FitsTime f.mtime
  pub ctime : FitsTime f.ctime

abbrev pub FitsSys : SysInfo → Type 0
FitsSys a =
    (a.links < 2 ^ 32)
    × (a.owner < 2 ^ 32)
    × (a.group < 2 ^ 32)
    × (a.major < 2 ^ 32)
    × (a.minor < 2 ^ 32)
    × (a.inode < 2 ^ 64)

abbrev pub FitsCache : FileCacheAttribute → Type 0
FitsCache c = (c.filesize < 2 ^ 64) × FitsTime c.mtime × FitsTime c.ctime

fnv64-lt : (bytes : List ℕ) (h : ℕ) → h < 2 ^ 64 → fnv64 h bytes < 2 ^ 64
unfolding fnv64
fnv64-lt [] h small = small
fnv64-lt (b ∷ bytes) h small = fnv64-lt bytes _ (omega arith)

or_hash-FitsSys :
    (path : List ℕ) (sys : Option SysInfo)
    → ((a : SysInfo) → sys ≡ some a → FitsSys a)
    → FitsSys (or_hash path sys)
unfolding or_hash
or_hash-FitsSys path (some a) h = h a refl
or_hash-FitsSys path none h = (
  omega arith,
  omega arith,
  omega arith,
  omega arith,
  omega arith,
  fnv64-lt path fnv_offset (omega arith),
)

-- The attributes of a FileInfo fit the words of the wire, if what file.GetInfo extracts of it does.
pub to_file_attribute-FitsWire :
    (info : FileInfo) (path : List ℕ)
    → ((a : SysInfo) → info.sys ≡ some a → FitsSys a)
    → FitsWire (to_file_attribute info path)
unfolding to_file_attribute
to_file_attribute-FitsWire info path h =
    let (l, o, g, ma, mi, ino) = or_hash-FitsSys path info.sys h in
    let t = to_nfs_time_bounds info.modified in
    record {
      file_mode = omega arith;
      nlink = l;
      uid = o;
      gid = g;
      filesize = omega arith;
      used = omega arith;
      major = ma;
      minor = mi;
      fsid = omega arith;
      fileid = ino;
      atime = t;
      mtime = t;
      ctime = t;
    }

module _ (x : Xdr) where
  -- fattr3
  pub read_attribute : Reader FileAttribute
  read_attribute bytes =
      (do
        kind ← x.read_uint32
        mode ← x.read_uint32
        links ← x.read_uint32
        owner ← x.read_uint32
        group ← x.read_uint32
        filesize ← x.read_uint64
        used ← x.read_uint64
        major ← x.read_uint32
        minor ← x.read_uint32
        fsid ← x.read_uint64
        fileid ← x.read_uint64
        atime ← read_time x
        mtime ← read_time x
        ctime ← read_time x
        give (record {
          file_type = type_of_code kind;
          file_mode = mode;
          nlink = links;
          uid = owner;
          gid = group;
          filesize = filesize;
          used = used;
          spec_data = (major, minor);
          fsid = fsid;
          fileid = fileid;
          atime = atime;
          mtime = mtime;
          ctime = ctime;
        }))
        bytes

  module _ (law : ReadsBack x) where
    >>=-time {κ} :
        {B : Type κ} (k : FileTime → Reader B) (t : FileTime) (rest : List ℕ)
        → FitsTime t
        → (read_time x >>= k) (write_time x t ++ rest) ≡ k t rest
    >>=-time k t rest h = >>=-ok (read_time x) k _ (read_time-write_time x law t rest h)

    pub read_attribute-write_attribute :
        (f : FileAttribute) (rest : List ℕ)
        → FitsWire f
        → read_attribute (write_attribute x f ++ rest) ≡ ok (f, rest)
    unfolding read_attribute write_attribute
    read_attribute-write_attribute f rest h = simp append_assoc (
        rw
          (
            >>=-uint32 x law _ _ _ (file_type_code-lt f.file_type),
            >>=-uint32 x law _ _ _ h.file_mode,
            >>=-uint32 x law _ _ _ h.nlink,
            >>=-uint32 x law _ _ _ h.uid,
            >>=-uint32 x law _ _ _ h.gid,
            >>=-uint64 x law _ _ _ h.filesize,
            >>=-uint64 x law _ _ _ h.used,
            >>=-uint32 x law _ _ _ h.major,
            >>=-uint32 x law _ _ _ h.minor,
            >>=-uint64 x law _ _ _ h.fsid,
            >>=-uint64 x law _ _ _ h.fileid,
            >>=-time _ f.atime _ h.atime,
            >>=-time _ f.mtime _ h.mtime,
            >>=-time _ f.ctime _ h.ctime,
            type_of_code-file_type_code,
          )
          refl)

  -- wcc_attr
  pub read_cache_attribute : Reader FileCacheAttribute
  read_cache_attribute bytes =
      (do
        filesize ← x.read_uint64
        mtime ← read_time x
        ctime ← read_time x
        give (record { filesize = filesize; mtime = mtime; ctime = ctime }))
        bytes

  -- an optional value, after its Boolean
  pub read_present : {A : Type 0} → Reader A → Reader (Option A)
  read_present r bytes =
      (do
        present ← x.read_uint32
        (λ rest. elim (present == 0) [
          | true ↦ ok (none, rest)
          | false ↦ (r >>= λ a. give (some a)) rest
        ]))
        bytes

  -- wcc_data
  pub read_wcc : Reader (Option FileCacheAttribute × Option FileAttribute)
  read_wcc bytes =
      (do
        pre ← read_present read_cache_attribute
        post ← read_present read_attribute
        give (pre, post))
        bytes

  module _ (law : ReadsBack x) where
    read_present-none :
        {A : Type 0} (r : Reader A) (rest : List ℕ)
        → read_present r (x.write_uint32 0 ++ rest) ≡ ok (none, rest)
    unfolding read_present
    read_present-none r rest = rw (>>=-uint32 x law _ 0 rest (omega arith)) refl

    read_present-some :
        {A : Type 0} (r : Reader A) (bytes : List ℕ) {a : A} {rest : List ℕ}
        → r bytes ≡ ok (a, rest)
        → read_present r (x.write_uint32 1 ++ bytes) ≡ ok (some a, rest)
    unfolding read_present
    read_present-some r bytes e =
        >>=-uint32 x law _ 1 bytes (omega arith) ∙ >>=-ok r (λ a. give (some a)) bytes e

    read_cache_attribute-write_cache_attribute :
        (c : FileCacheAttribute) (rest : List ℕ)
        → FitsCache c
        → read_cache_attribute (write_cache_attribute x c ++ rest) ≡ ok (c, rest)
    unfolding read_cache_attribute write_cache_attribute
    read_cache_attribute-write_cache_attribute c rest (hs, hm, hc) = simp append_assoc (
        rw (>>=-uint64 x law _ _ _ hs, >>=-time law _ c.mtime _ hm, >>=-time law _ c.ctime _ hc)
          refl)

    read_pre :
        (f : Option FileCacheAttribute) (rest : List ℕ)
        → ((c : FileCacheAttribute) → f ≡ some c → FitsCache c)
        → read_present read_cache_attribute (write_pre_op_attrs x f ++ rest) ≡ ok (f, rest)
    unfolding write_pre_op_attrs
    read_pre none rest h = read_present-none read_cache_attribute rest
    read_pre (some c) rest h = rw append_assoc (
        read_present-some read_cache_attribute _
          (read_cache_attribute-write_cache_attribute c rest (h c refl)))

    read_post :
        (f : Option FileAttribute) (rest : List ℕ)
        → ((a : FileAttribute) → f ≡ some a → FitsWire a)
        → read_present read_attribute (write_post_op_attrs x f ++ rest) ≡ ok (f, rest)
    unfolding write_post_op_attrs
    read_post none rest h = read_present-none read_attribute rest
    read_post (some a) rest h =
        rw append_assoc (
          read_present-some read_attribute _ (read_attribute-write_attribute law a rest (h a refl)))

    -- What WriteWcc writes of the attributes before and after an operation, either of which may be
    -- missing, a client reads back, if their fields fit their words and the package xdr reads back
    -- what it writes.
    pub read_wcc-write_wcc :
        (pre : Option FileCacheAttribute) (post : Option FileAttribute) (rest : List ℕ)
        → ((c : FileCacheAttribute) → pre ≡ some c → FitsCache c)
        → ((a : FileAttribute) → post ≡ some a → FitsWire a)
        → read_wcc (write_wcc x pre post ++ rest) ≡ ok ((pre, post), rest)
    unfolding read_wcc write_wcc
    read_wcc-write_wcc pre post rest hpre hpost = rw append_assoc (
        rw
          (
            >>=-ok (read_present read_cache_attribute) _ _ (read_pre pre _ hpre),
            >>=-ok (read_present read_attribute) _ _ (read_post post rest hpost),
          )
          refl)
