-- ===== src/Handlers/Make/Mknod.antt =====
-- nfs_onmknod.go: MKNOD. Its switch has an empty case for character devices.
use go_nfs.Base.{refl, arith}
use go_nfs.Handlers.Make.{check_parent}
use go_nfs.Action.{◌>>=◌, ◌>>◌, >>=-ok}
use go_nfs.Base.{◌∙◌}
use go_nfs.Handlers.Commit.{try_stat}
use go_nfs.Action.{UserHandler, Action, or_raise}
use go_nfs.Attributes.Sattr.{SetFileAttributes, mode}
use go_nfs.Backend.{Backend}
use go_nfs.Base.{length, leb, ◌==◌, if◌then◌else◌, ℕ, ◌≤◌, ◌≡◌, true, false, Option, none, some}
use go_nfs.Changes.{Files, UnixChanger}
use go_nfs.Errors.Chain.{Error, Result, ok, err, err_permission, err_invalid, nfs_error}
use go_nfs.Errors.Codes.{NfsStatus}
use go_nfs.Handlers.Commit.{world_of}
use go_nfs.Handlers.Create.{CreateReply}
use go_nfs.Handlers.Make.{check_new, make, apply_new, reply_new}
use go_nfs.Handlers.Remove.{DirOpArg, path_name_max, put_world, handle_for}
use go_nfs.Server.{Server}
use go_nfs.Words.{u32}

-- nfs_ftype, as far as the switch names it
pub data NodeType : Type 0 where
  character block socket fifo : NodeType

-- FTYPE_NF3CHR and so on; `none` goes to the default of the switch
unfoldable pub node_type : ℕ → Option NodeType
node_type t =
    if t == 3
    then some NodeType.block
    else if t == 4
    then some NodeType.character
    else if t == 6
    then some NodeType.socket
    else if t == 7
    then some NodeType.fifo
    else none

-- the request, each field what the read of it makes of the body
pub record MknodArgs : Type 0 where
  pub object : Result DirOpArg
  pub ftype : Result ℕ
  pub sattr : Result SetFileAttributes
  pub spec_data1 : Result ℕ
  pub spec_data2 : Result ℕ

module _ (b : Backend) (fs : Files b) where
  -- the switch; a case without statements ends it
  unfoldable pub make_node :
      UnixChanger b → MknodArgs → b.FilePath → b.Info → Option NodeType → Action b (Unit {0})
  unfolding make apply_new mode
  make_node c arg file parent (some NodeType.character) s = some (ok tt, s)
  make_node c arg file parent (some NodeType.block) s =
      (do
        set ← or_raise arg.sattr (nfs_error NfsStatus.inval)
        major ← or_raise arg.spec_data1 (nfs_error NfsStatus.inval)
        minor ← or_raise arg.spec_data2 (nfs_error NfsStatus.inval)
        make b (c.mknod file (u32 (mode set (fs.file_info parent).mode_bits)) major minor)
        apply_new b fs NfsStatus.serverfault set (some c.changer) file)
        s
  make_node c arg file parent (some NodeType.socket) s =
      (do
        set ← or_raise arg.sattr (nfs_error NfsStatus.inval)
        make b (c.socket file)
        apply_new b fs NfsStatus.serverfault set (some c.changer) file)
        s
  make_node c arg file parent (some NodeType.fifo) s =
      (do
        set ← or_raise arg.sattr (nfs_error NfsStatus.inval)
        make b (c.mkfifo file (u32 (mode set (fs.file_info parent).mode_bits)))
        apply_new b fs NfsStatus.serverfault set (some c.changer) file)
        s
  make_node c arg file parent none s = some (err (nfs_error NfsStatus.badtype err_invalid), s)

  -- FromHandle, and the checks of the file system, of its changer and of the name
  unfoldable pub open_unix :
      UserHandler b → Option (UnixChanger b) → DirOpArg → Action b (b.FilePath × UnixChanger b)
  open_unix h changer obj s = elim (h.from_handle obj.handle (world_of b s)) [
    | err e ↦ some (err (nfs_error NfsStatus.stale e), s)
    | ok (false, path) ↦ some (err (nfs_error NfsStatus.rofs err_permission), s)
    | ok (true, path) ↦ elim changer [
      | none ↦ some (err (nfs_error NfsStatus.access err_permission), s)
      | some c ↦
          if leb (length obj.filename) path_name_max
          then some (ok (path, c), s)
          else some (err (nfs_error NfsStatus.nametoolong err_invalid), s)
    ]
  ]

  -- onMknod
  unfoldable pub on_mknod :
      UserHandler b → Option (UnixChanger b) → MknodArgs → Action b (CreateReply b)
  unfolding open_unix check_new make_node node_type reply_new handle_for
  on_mknod h changer arg s =
      (do
        obj ← or_raise arg.object (nfs_error NfsStatus.inval)
        ftype ← or_raise arg.ftype (nfs_error NfsStatus.inval)
        (path, c) ← open_unix h changer obj
        parent ← check_new b (b.join_name path obj.filename) path
        key ← handle_for b h (b.join_name path obj.filename)
        make_node c arg (b.join_name path obj.filename) parent (node_type ftype)
        reply_new b key (b.join_name path obj.filename) path)
        s

  open_unix-ok :
      (h : UserHandler b) (c : UnixChanger b) (obj : DirOpArg) (path : b.FilePath) (s : Server b)
      → h.from_handle obj.handle (world_of b s) ≡ ok (true, path)
      → length obj.filename ≤ path_name_max
      → open_unix h (some c) obj s ≡ some (ok (path, c), s)
  unfolding open_unix
  open_unix-ok h c obj path s f short = rw (open_unix, f, fits (length obj.filename) short) refl
    where
      fits : (n : ℕ) → n ≤ path_name_max → leb n path_name_max ≡ true
      fits n small = ground arith

  check_new-ok :
      (target path : b.FilePath) (absent : Error) (parent : b.Info) (s : Server b)
      → b.stat target (world_of b s) ≡ err absent
      → b.stat path (world_of b s) ≡ ok parent
      → b.is_dir parent ≡ true
      → check_new b target path s ≡ some (ok parent, s)
  unfolding check_new check_parent
  check_new-ok target path absent parent s free there dir =
      rw (check_new, free, check_parent, there, dir) refl

  -- a request for a character device, which is of the type 4
  abbrev pub for_character : DirOpArg → Result SetFileAttributes → Result ℕ → Result ℕ → MknodArgs
  for_character obj set major minor = record {
    object = ok obj;
    ftype = ok 4;
    sattr = set;
    spec_data1 = major;
    spec_data2 = minor;
  }

  -- MKNOD of a character device on a file system that gives a UnixChange, with a name that is not too
  -- long and not taken, in a directory, answers NFS3_OK with a handle, and has called the file system
  -- for nothing: the state is the one that ToHandle leaves.
  pub on_mknod-character :
      (h : UserHandler b) (c : UnixChanger b) (sattr : Result SetFileAttributes)
      (spec_data1 spec_data2 : Result ℕ) (obj : DirOpArg) (path : b.FilePath) (absent : Error)
      (parent : b.Info) (s : Server b)
      → h.from_handle obj.handle (world_of b s) ≡ ok (true, path)
      → length obj.filename ≤ path_name_max
      → b.stat (b.join_name path obj.filename) (world_of b s) ≡ err absent
      → b.stat path (world_of b s) ≡ ok parent
      → b.is_dir parent ≡ true
      → let (key, w) = h.to_handle (b.join_name path obj.filename) (world_of b s) in
        (r : CreateReply b) × (on_mknod h (some c) (for_character obj sattr spec_data1 spec_data2) s
          ≡ some (ok r, put_world b w s))
        × (r.handle ≡ key)
  unfolding on_mknod make_node node_type reply_new handle_for
  on_mknod-character h c sattr spec_data1 spec_data2 obj path absent parent s f short free there
        dir =
      let target = b.join_name path obj.filename in
      let (key, w) = h.to_handle target (world_of b s) in
      (
        record { handle = key; attrs = try_stat b target w; dir_attrs = try_stat b path w },
        >>=-ok (open_unix h (some c) obj) _ s (path, c) s (open_unix-ok h c obj path s f short)
            ∙ >>=-ok (check_new b target path) _ s parent s
                (check_new-ok target path absent parent s free there dir),
        refl,
      )
