-- ===== src/Tests/Nodes.antt =====
-- nfs_onmknod.go and nfs_onsymlink.go in the directory 7 of a file system that has nothing else, and
-- nfs_onlookup.go.
use go_nfs.Base.{Option, ℕ}
use go_nfs.Tests.{disk, server}
use go_nfs.Handlers.Lookup.{LookupReply}
use go_nfs.Tests.{server}
use go_nfs.Tests.{disk}
use go_nfs.Base.{Option}
use go_nfs.Base.{ℕ}
use go_nfs.Base.{if◌then◌else◌}
use go_nfs.Action.{UserHandler}
use go_nfs.Backend.{Backend}
use go_nfs.Base.{length, ◌==◌, ◌≡◌, refl, true, none, some, [], ◌∷◌, arith}
use go_nfs.Changes.{Files, Names, UnixChanger}
use go_nfs.Errors.Chain.{ok, err, enoent}
use go_nfs.Handlers.Create.{CreateReply}
use go_nfs.Handlers.Make.Mknod.{on_mknod, for_character, on_mknod-character}
use go_nfs.Handlers.Make.Symlink.{on_symlink}
use go_nfs.Handlers.Make.Symlink.Fresh.{IsLinked, on_symlink-IsNew}
use go_nfs.Handlers.Remove.{DirOpArg}
use go_nfs.Server.{Server}
use go_nfs.Tests.{handle_at, reader_number, no_verifier}
use go_nfs.Tests.Attributes.{file_meta, single, single_files, some_set}
use go_nfs.Tracker.{new_commit_tracker}

abbrev folder : Backend
folder = record single {
  stat = λ path w. if length path == 1 then ok w else err enoent;
  is_dir = λ i. true;
}

abbrev folder_server : Server folder
folder_server = record {
  conns = [];
  memory = record {
    world = file_meta;
    handles = handle_at;
    allocated = 9;
    readers = reader_number;
    readers_allocated = 9;
    commits = new_commit_tracker;
    on_loss = none;
    verifier = no_verifier;
  };
}

abbrev folder_exports : UserHandler folder
folder_exports = record {
  from_handle = λ key w. ok (true, 7 ∷ []);
  to_handle = λ path w. (length path, w);
  invalidate_handle = λ key w. (none, w);
}

abbrev folder_names : Names folder
folder_names = record {
  same_fs = λ k l w. true;
  handle_if_cached = none;
  rename = λ source target w. (none, w);
  create = λ path w. (ok 3, w);
  file_name = λ f. 7 ∷ 8 ∷ [];
  symlink = λ text path w. (none, record w { length = length text });
  mkdir_all = λ path m w. (none, w);
}

abbrev folder_files : Files folder
folder_files = record {
  file_info = single_files.file_info;
  path_bytes = λ path. path;
  open_wo = λ path w. (ok 3, w);
  truncate = λ f n w. (none, w);
}

abbrev unix_changer : UnixChanger folder
unix_changer = record {
  changer = record {
    chmod = λ path n w. (none, w);
    lchown = λ path u g w. (none, w);
    chtimes = λ path a m w. (none, w);
  };
  mknod = λ path m major minor w. (none, record w { perm = m });
  mkfifo = λ path m w. (none, w);
  socket = λ path w. (none, w);
  link = λ text path w. (none, w);
}

abbrev in_folder : DirOpArg
in_folder = record { handle = 4; filename = 8 ∷ [] }

on_mknod-character_example :
    (r : CreateReply folder) × (on_mknod folder folder_files folder_exports
        (some unix_changer)
        (for_character folder folder_files in_folder (ok some_set) (ok 8) (ok 1))
        folder_server
      ≡ some (ok r, folder_server))
    × (r.handle ≡ 2)
on_mknod-character_example =
    on_mknod-character folder folder_files folder_exports unix_changer (ok some_set) (ok 8) (ok 1)
      in_folder (7 ∷ []) enoent file_meta folder_server refl (omega arith) refl refl refl

abbrev link_reply : CreateReply folder
link_reply = record {
  handle = 2;
  attrs = some (record file_meta { length = 3 });
  dir_attrs = some (record file_meta { length = 3 });
}

abbrev after_link : Server folder
after_link = record folder_server {
  memory = record folder_server.memory { world = record file_meta { length = 3 } };
}

symlink_ok :
    on_symlink folder folder_files folder_names folder_exports none
      (record { object = ok in_folder; sattr = ok some_set; target = ok (1 ∷ 2 ∷ 3 ∷ []) })
      folder_server
    ≡ some (ok link_reply, after_link)
unfolding on_symlink go_nfs.Handlers.Commit.try_stat
symlink_ok = refl

on_symlink-IsNew_example :
    IsLinked folder folder_files folder_names folder_exports none some_set
      (1 ∷ 2 ∷ 3 ∷ [])
      (7 ∷ 8 ∷ [])
      2
      folder_server
      after_link
on_symlink-IsNew_example =
    on_symlink-IsNew folder folder_files folder_names folder_exports none in_folder some_set
      (1 ∷ 2 ∷ 3 ∷ []) true (7 ∷ []) folder_server refl symlink_ok

-- the file of two letters in the directory 3 of the disk
abbrev looked_up : DirOpArg
looked_up = record { handle = 3; filename = 1 ∷ 1 ∷ [] }

abbrev above : ℕ → Option ℕ
above path = some 1

abbrev lookup_ok_reply : LookupReply disk
lookup_ok_reply = record { handle = 5; attrs = some 3; dir_attrs = some 3 }
