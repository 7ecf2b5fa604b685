-- ===== src/Tests/Attributes.antt =====
-- Attributes at concrete values: the bytes of RFC 4506, and a file system of one file.
use go_nfs.Base.{
  length, ℕ, ◌+◌, ◌*◌, ◌/◌, ◌%◌, ◌^◌, ◌≡◌, Option, none, some, List, [], ◌∷◌, ◌++◌, arith,
}
use go_nfs.Errors.Chain.{Result, ok, err, io_eof}
use go_nfs.Words.{put_be32, get_be32}
use go_nfs.Xdr.{Xdr, ReadsBack}
use go_nfs.Attributes.Apply.{attributes}
use go_nfs.Attributes.Apply.Documented.{Meta, IsDocumented}
use go_nfs.Backend.{Backend}
use go_nfs.Base.{refl, true, false}
use go_nfs.Changes.{Changer, Files}
use go_nfs.Errors.Chain.{eacces}
use go_nfs.Attributes.{SysInfo, FileInfo, to_file_attribute, write_wcc}
use go_nfs.Attributes.Apply.{
  change, apply_mode, apply_owner, truncate_open, apply_size, apply_times, apply_to, apply,
}
use go_nfs.Attributes.Apply.Applied.{IsApplied, apply-IsApplied}
use go_nfs.Attributes.Apply.ReadOnly.{is_current, apply_read_only}
use go_nfs.Attributes.Fattr.{FitsSys, to_file_attribute-FitsWire, read_wcc, read_wcc-write_wcc}
use go_nfs.Attributes.Sattr.{
  SetFileAttributes, read_set_file_attributes, TimeHow, Sattr, meant, put_sattr,
  read_set_file_attributes-put_sattr,
}
use go_nfs.Base.{ap}
use go_nfs.Errors.Chain.{err_permission, nfs_error}
use go_nfs.Errors.Codes.{NfsStatus}
use go_nfs.Handlers.Commit.{world_of}
use go_nfs.Memory.{Memory}
use go_nfs.Server.{Server}
use go_nfs.Tests.{handle_at, reader_number, no_verifier}
use go_nfs.Tracker.{new_commit_tracker}
use go_nfs.Base.{◌++◌, if◌then◌else◌}
use go_nfs.Times.{ℤ}
use go_nfs.Times.{native}

-- a hyper, most significant half first
abbrev pub get_be64 : List ℕ → Result (ℕ × List ℕ)
get_be64 (a ∷ b ∷ c ∷ d ∷ e ∷ f ∷ g ∷ h ∷ rest) = ok (
  (a * 2 ^ 24 + b * 2 ^ 16 + c * 2 ^ 8 + d) * 2 ^ 32 + (e * 2 ^ 24 + f * 2 ^ 16 + g * 2 ^ 8 + h),
  rest,
)
get_be64 _ = err io_eof

abbrev pub put_be64 : ℕ → List ℕ
put_be64 n =
    (n / 2 ^ 56 % 256)
    ∷ (n / 2 ^ 48 % 256)
    ∷ (n / 2 ^ 40 % 256)
    ∷ (n / 2 ^ 32 % 256)
    ∷ (n / 2 ^ 24 % 256)
    ∷ (n / 2 ^ 16 % 256)
    ∷ (n / 2 ^ 8 % 256)
    ∷ (n % 256)
    ∷ []

abbrev pub or_eof : Option (ℕ × List ℕ) → Result (ℕ × List ℕ)
or_eof none = err io_eof
or_eof (some r) = ok r

abbrev pub rfc4506 : Xdr
rfc4506 = record {
  read_uint32 = λ bytes. or_eof (get_be32 bytes);
  read_uint64 = get_be64;
  write_uint32 = put_be32;
  write_uint64 = put_be64;
  write_opaque = λ bytes. put_be32 (length bytes) ++ bytes;
}

pub rfc4506-ReadsBack : ReadsBack rfc4506
unfolding get_be32 put_be32
rfc4506-ReadsBack = record { uint32 = λ n rest h. ground arith; uint64 = λ n rest h. ground arith }

abbrev pub file_meta : Meta
file_meta = record {
  perm = 420;
  owner = 10;
  group = 20;
  length = 300;
  accessed = ℤ.pos 1000;
  modified = ℤ.pos 2000;
}

-- One file, whose attributes are the world; the descriptor 3 is open on it.
abbrev pub single : Backend
single = record {
  World = Meta;
  FilePath = List ℕ;
  Info = Meta;
  can_sync = λ f. false;
  can_stat = λ f. false;
  seek = λ f offset w. (none, w);
  write = λ f bytes w. (0, some io_eof, w);
  read_at = λ f room offset w. ([], some io_eof, w);
  sync = λ f w. (none, w);
  close = λ f w. (none, w);
  fstat = λ f w. ok w;
  open_rw = λ path w. (ok 3, w);
  open_ro = λ path w. (ok 3, w);
  stat = λ path w. ok w;
  lstat = λ path w. ok w;
  is_regular = λ i. true;
  size = λ i. i.length;
  is_dir = λ i. false;
  join_name = λ path name. path ++ name;
  remove = λ path w. (some eacces, w);
  random = λ n. n;
}

abbrev pub single_files : Files single
single_files = record {
  file_info = λ i. record {
    name = [];
    mode_bits = i.perm;
    is_directory = false;
    bytes = i.length;
    modified = i.modified;
    sys =
        some
          (record { links = 1; owner = i.owner; group = i.group; major = 0; minor = 0; inode = 9 });
  };
  path_bytes = λ path. path;
  open_wo = λ path w. (ok 3, w);
  truncate = λ f n w. (none, record w { length = n; modified = ℤ.pos 3000 });
}

abbrev pub single_changer : Changer single
single_changer = record {
  chmod = λ path n w. (none, record w { perm = n });
  lchown = λ path u g w. (none, record w { owner = u; group = g });
  chtimes = λ path a m w. (none, record w { accessed = a; modified = m });
}

abbrev pub single_meta : List ℕ → Meta → Meta
single_meta path w = record w { perm = w.perm % 512 }

pub single-IsDocumented : IsDocumented single single_files single_changer single_meta
unfolding attributes
single-IsDocumented = record {
  lstat = λ file w info e. let same : info ≡ w = cc e in rw same (omega arith, refl, refl);
  chmod =
      λ file n w small e. ap (λ (p : ℕ). record (single_meta file w) { perm = p }) (omega arith);
  lchown = λ file u g w e. refl;
  chtimes = λ file a m w e. refl;
  resize = λ file fp n w w' w'' w''' e f g.
      let opened : w' ≡ w = cc e in
      let cut : w'' ≡ record w' { length = n; modified = ℤ.pos 3000 } = cc f in
      let closed : w''' ≡ w'' = cc g in (w.accessed, ℤ.pos 3000, rw (closed, cut, opened) refl);
}

abbrev attr_memory : Memory single
attr_memory = record {
  world = file_meta;
  handles = handle_at;
  allocated = 9;
  readers = reader_number;
  readers_allocated = 9;
  commits = new_commit_tracker;
  on_loss = none;
  verifier = no_verifier;
}

abbrev pub attr_server : Server single
attr_server = record { conns = []; memory = attr_memory }

-- mode 0o600, the group 21, the size 5 and the time of modification
abbrev pub some_set : SetFileAttributes
some_set = record {
  set_mode = some 384;
  set_uid = none;
  set_gid = some 21;
  set_size = some 5;
  set_atime = none;
  set_mtime = some (ℤ.pos 9000000000);
}

abbrev after_set : Server single
after_set = record attr_server {
  memory = record attr_memory {
    world = record {
      perm = 384;
      owner = 10;
      group = 21;
      length = 5;
      accessed = ℤ.pos 2000;
      modified = ℤ.pos 9000000000;
    };
  };
}

apply-IsApplied_example :
    IsApplied some_set (single_meta [] file_meta) (single_meta [] (world_of single after_set))
unfolding native
apply-IsApplied_example =
    apply-IsApplied single single_files single_changer single_meta single-IsDocumented some_set []
      file_meta attr_server after_set refl
      (unfold apply apply_to apply_mode apply_owner apply_size apply_times truncate_open change
          attributes in
        refl)

abbrev mode_set : SetFileAttributes
mode_set = record some_set {
  set_mode = some 420;
  set_gid = none;
  set_size = none;
  set_mtime = none;
}

apply_read_only_example : apply single single_files mode_set none [] attr_server ≡ (
    if is_current mode_set (attributes single single_files file_meta [])
    then some (ok tt, attr_server)
    else some (err (nfs_error NfsStatus.notsupp err_permission), attr_server))
apply_read_only_example =
    apply_read_only single single_files mode_set [] file_meta attr_server refl refl

-- a device whose major and minor numbers are 8 and 1
abbrev device : FileInfo
device = record {
  name = 100 ∷ [];
  mode_bits = 2 ^ 26 + 438;
  is_directory = false;
  bytes = 0;
  modified = ℤ.pos 5000000007;
  sys = some (record { links = 1; owner = 0; group = 6; major = 8; minor = 1; inode = 77 });
}

device-FitsSys : (a : SysInfo) → device.sys ≡ some a → FitsSys a
device-FitsSys a e =
    let same : record { links = 1; owner = 0; group = 6; major = 8; minor = 1; inode = 77 } ≡ a =
      cc e in
    rw (← same) (omega arith)

read_wcc-write_wcc_example :
    read_wcc rfc4506 (write_wcc rfc4506 none (some (to_file_attribute device [])) ++ (9 ∷ []))
    ≡ ok ((none, some (to_file_attribute device [])), 9 ∷ [])
read_wcc-write_wcc_example =
    read_wcc-write_wcc rfc4506 rfc4506-ReadsBack none (some (to_file_attribute device [])) (9 ∷ [])
      (λ c e. cc e)
      (λ a e.
        let same : to_file_attribute device [] ≡ a = cc e in
        rw (← same) (to_file_attribute-FitsWire device [] device-FitsSys))

abbrev asked : Sattr
asked = record {
  mode3 = some 420;
  uid3 = none;
  gid3 = some 6;
  size3 = some 5000000000;
  atime_how = TimeHow.to_server_time;
  mtime_how = TimeHow.to_client_time (record { seconds = 5; nseconds = 7 });
}

read_set_file_attributes-put_sattr_example :
    read_set_file_attributes rfc4506 (ℤ.pos 1) (ℤ.pos 2) (put_sattr rfc4506 asked ++ (9 ∷ []))
    ≡ ok (meant (ℤ.pos 1) (ℤ.pos 2) asked, 9 ∷ [])
read_set_file_attributes-put_sattr_example =
    read_set_file_attributes-put_sattr rfc4506 rfc4506-ReadsBack (ℤ.pos 1) (ℤ.pos 2) asked (9 ∷ [])
      (record {
        mode3 = omega arith;
        uid3 = tt;
        gid3 = omega arith;
        size3 = omega arith;
        atime_how = tt;
        mtime_how = (omega arith, omega arith);
      })
