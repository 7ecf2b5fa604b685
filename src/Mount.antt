-- ===== src/Mount.antt =====
-- mount.go and nfs.go: the mount protocol, NULL, and the procedures that are registered. An init
-- function drops the error of RegisterMessageHandler.
pub mod Service
use go_nfs.Rpc.{header_only, write_bytes}
use go_nfs.Base.{length, ◌==◌, if◌then◌else◌, ℕ, ◌-◌, Option, none, some, List, [], ◌∷◌, ◌++◌}
use go_nfs.Errors.{basic_error_formatter}
use go_nfs.Errors.Chain.{Error, ok, err}
use go_nfs.Rpc.{RpcHeader, Act, Outcome, HandleFunc, Handlers, register_message_handler}
use go_nfs.Rpc.Reply.{body}
use go_nfs.Tracker.Schedule.{consumed}
use go_nfs.Xdr.{Xdr, Reader}

abbrev pub mount_service_id : ℕ
mount_service_id = 100005

abbrev pub nfs_service_id : ℕ
nfs_service_id = 100003

-- what a handler does that reads the bytes of its body down to `rest`
abbrev pub done : List ℕ → List ℕ → List Act → Option Error → Outcome
done args rest acts failed = record {
  format = basic_error_formatter;
  acts = acts;
  consumed = length args - length rest;
  failed = failed;
}

-- NFSProcedure
pub data NfsProcedure : Type 0 where
  nfs_null : NfsProcedure
  nfs_get_attr : NfsProcedure
  nfs_set_attr : NfsProcedure
  nfs_lookup : NfsProcedure
  nfs_access : NfsProcedure
  nfs_read_link : NfsProcedure
  nfs_read : NfsProcedure
  nfs_write : NfsProcedure
  nfs_create : NfsProcedure
  nfs_mkdir : NfsProcedure
  nfs_symlink : NfsProcedure
  nfs_mknod : NfsProcedure
  nfs_remove : NfsProcedure
  nfs_rmdir : NfsProcedure
  nfs_rename : NfsProcedure
  nfs_link : NfsProcedure
  nfs_read_dir : NfsProcedure
  nfs_read_dir_plus : NfsProcedure
  nfs_fs_stat : NfsProcedure
  nfs_fs_info : NfsProcedure
  nfs_path_conf : NfsProcedure
  nfs_commit : NfsProcedure

-- the constants of NFSProcedure, by iota
unfoldable pub number_of : NfsProcedure → ℕ
number_of nfs_null = 0
number_of nfs_get_attr = 1
number_of nfs_set_attr = 2
number_of nfs_lookup = 3
number_of nfs_access = 4
number_of nfs_read_link = 5
number_of nfs_read = 6
number_of nfs_write = 7
number_of nfs_create = 8
number_of nfs_mkdir = 9
number_of nfs_symlink = 10
number_of nfs_mknod = 11
number_of nfs_remove = 12
number_of nfs_rmdir = 13
number_of nfs_rename = 14
number_of nfs_link = 15
number_of nfs_read_dir = 16
number_of nfs_read_dir_plus = 17
number_of nfs_fs_stat = 18
number_of nfs_fs_info = 19
number_of nfs_path_conf = 20
number_of nfs_commit = 21

-- the handlers that init of nfs.go registers, but for onNull
pub record NfsHandlers (S : Type 0) : Type 0 where
  pub on_get_attr : HandleFunc S
  pub on_set_attr : HandleFunc S
  pub on_lookup : HandleFunc S
  pub on_access : HandleFunc S
  pub on_read_link : HandleFunc S
  pub on_read : HandleFunc S
  pub on_write : HandleFunc S
  pub on_create : HandleFunc S
  pub on_mkdir : HandleFunc S
  pub on_symlink : HandleFunc S
  pub on_mknod : HandleFunc S
  pub on_remove : HandleFunc S
  pub on_rmdir : HandleFunc S
  pub on_rename : HandleFunc S
  pub on_link : HandleFunc S
  pub on_read_dir : HandleFunc S
  pub on_read_dir_plus : HandleFunc S
  pub on_fs_stat : HandleFunc S
  pub on_fs_info : HandleFunc S
  pub on_path_conf : HandleFunc S
  pub on_commit : HandleFunc S

-- MountProcNull, MountProcMount and MountProcUmnt, by iota
abbrev pub mount_proc_null : ℕ
mount_proc_null = 0

abbrev pub mount_proc_mount : ℕ
mount_proc_mount = 1

abbrev pub mount_proc_umnt : ℕ
mount_proc_umnt = 3

module _ {S : Type 0} where
  -- onNull
  unfoldable pub on_null : HandleFunc S
  on_null h args s = (done args args (write_bytes [] ∷ []) none, s)

  -- onMountNull
  unfoldable pub on_mount_null : HandleFunc S
  on_mount_null h args s = (done args args (header_only ∷ []) none, s)

  -- `read_opaque` is xdr.ReadOpaque
  module _ (x : Xdr) (read_opaque : Reader (List ℕ)) where
    -- onUMount
    unfoldable pub on_umount : HandleFunc S
    on_umount h args s = elim (read_opaque args) [
      | err e ↦ (done args [] [] (some e), s)
      | ok (_, rest) ↦ (done args rest (header_only ∷ []) none, s)
    ]

    -- onMount; `mount` is Mount of the handler, which gives a status and the bytes of the flavors, and
    -- `to_root` is ToHandle of the root of the file system
    unfoldable pub on_mount :
        (RpcHeader → List ℕ → S → (ℕ × List ℕ) × S) → (S → List ℕ × S) → HandleFunc S
    on_mount mount to_root h args s = elim (read_opaque args) [
      | err e ↦ (done args [] [] (some e), s)
      | ok (dirpath, rest) ↦
          let ((status, flavors), s1) = mount h dirpath s in
          let (root, s2) = to_root s1 in
          let body = if status == 0 then x.write_opaque root ++ flavors else [] in
          (done args rest (header_only ∷ write_bytes (x.write_uint32 status ++ body) ∷ []) none, s2)
    ]

  -- _ = RegisterMessageHandler(...)
  unfoldable pub register_or_skip : ℕ → ℕ → HandleFunc S → Handlers S → Handlers S
  unfolding register_message_handler
  register_or_skip protocol proc h hs = elim (register_message_handler protocol proc h hs) [
    | none ↦ hs
    | some hs' ↦ hs'
  ]

  -- the statements of an init function: the numbers and the handlers, in order
  unfoldable pub register_each : ℕ → List (ℕ × HandleFunc S) → Handlers S → Handlers S
  unfolding register_or_skip
  register_each protocol [] hs = hs
  register_each protocol ((p, h) ∷ ps) hs =
      register_each protocol ps (register_or_skip protocol p h hs)

  module _ (x : Xdr) (read_opaque : Reader (List ℕ)) where
    -- what init of mount.go registers
    abbrev pub mount_table :
        (RpcHeader → List ℕ → S → (ℕ × List ℕ) × S) → (S → List ℕ × S) → List (ℕ × HandleFunc S)
    mount_table mount to_root =
        (mount_proc_null, on_mount_null)
        ∷ (mount_proc_mount, on_mount x read_opaque mount to_root)
        ∷ (mount_proc_umnt, on_umount x read_opaque)
        ∷ []

    -- init of mount.go
    unfoldable pub init_mount :
        (RpcHeader → List ℕ → S → (ℕ × List ℕ) × S) → (S → List ℕ × S) → Handlers S → Handlers S
    unfolding register_each
    init_mount mount to_root hs = register_each mount_service_id (mount_table mount to_root) hs

  -- what init of nfs.go registers
  unfoldable pub nfs_table : NfsHandlers S → List (ℕ × HandleFunc S)
  unfolding number_of
  nfs_table n =
      (number_of nfs_null, on_null)
      ∷ (number_of nfs_get_attr, n.on_get_attr)
      ∷ (number_of nfs_set_attr, n.on_set_attr)
      ∷ (number_of nfs_lookup, n.on_lookup)
      ∷ (number_of nfs_access, n.on_access)
      ∷ (number_of nfs_read_link, n.on_read_link)
      ∷ (number_of nfs_read, n.on_read)
      ∷ (number_of nfs_write, n.on_write)
      ∷ (number_of nfs_create, n.on_create)
      ∷ (number_of nfs_mkdir, n.on_mkdir)
      ∷ (number_of nfs_symlink, n.on_symlink)
      ∷ (number_of nfs_mknod, n.on_mknod)
      ∷ (number_of nfs_remove, n.on_remove)
      ∷ (number_of nfs_rmdir, n.on_rmdir)
      ∷ (number_of nfs_rename, n.on_rename)
      ∷ (number_of nfs_link, n.on_link)
      ∷ (number_of nfs_read_dir, n.on_read_dir)
      ∷ (number_of nfs_read_dir_plus, n.on_read_dir_plus)
      ∷ (number_of nfs_fs_stat, n.on_fs_stat)
      ∷ (number_of nfs_fs_info, n.on_fs_info)
      ∷ (number_of nfs_path_conf, n.on_path_conf)
      ∷ (number_of nfs_commit, n.on_commit)
      ∷ []

  -- init of nfs.go
  unfoldable pub init_nfs : NfsHandlers S → Handlers S → Handlers S
  unfolding register_each nfs_table
  init_nfs n hs = register_each nfs_service_id (nfs_table n) hs
