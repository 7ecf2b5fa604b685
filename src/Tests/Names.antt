-- ===== src/Tests/Names.antt =====
-- nfs_onrename.go, nfs_oncreate.go and nfs_onsetattr.go at concrete requests.
use go_nfs.Action.{UserHandler}
use go_nfs.Attributes.Apply.{apply, attributes}
use go_nfs.Attributes.Apply.Applied.{IsApplied}
use go_nfs.Base.{length, ℕ, ◌≡◌, refl, true, Option, none, some, [], ◌∷◌, arith}
use go_nfs.Changes.{Names}
use go_nfs.Errors.Chain.{Result, ok, err, err_permission, nfs_error, nfs_plain}
use go_nfs.Errors.Codes.{NfsStatus}
use go_nfs.Handlers.Commit.{world_of}
use go_nfs.Handlers.Create.{CreateArgs, CreateReply, on_create}
use go_nfs.Handlers.Create.Created.{on_create-guarded, IsCreated, on_create-IsMade}
use go_nfs.Handlers.Remove.{DirOpArg}
use go_nfs.Handlers.Rename.{RenameReply, on_rename}
use go_nfs.Handlers.SetAttr.{SetAttrReply, on_set_attr}
use go_nfs.Handlers.SetAttr.Guarded.{on_set_attr-IsApplied, guarded, on_set_attr-guarded}
use go_nfs.Server.{Server, drop_handle_all}
use go_nfs.Server.Drop.{IsDetached}
use go_nfs.Tests.{disk, conn, server, exports, state_of}
use go_nfs.Tests.Attributes.{
  file_meta, single, single_files, single_changer, single_meta, single-IsDocumented, attr_server,
  some_set,
}
use go_nfs.Times.{FileTime, to_nfs_time}
use go_nfs.Base.{ap}

-- the names of the disk
abbrev disk_names : Names disk
disk_names = record {
  same_fs = λ k l w. true;
  handle_if_cached = none;
  rename = λ source target w. (none, w);
  create = λ path w. (ok path, w);
  file_name = λ f. f;
  symlink = λ target path w. (none, w);
  mkdir_all = λ path mode w. (none, w);
}

-- from the path 5 to the path 6, both of which have an open file
abbrev old_name : DirOpArg
old_name = record { handle = 3; filename = 1 ∷ 1 ∷ [] }

abbrev new_name : DirOpArg
new_name = record { handle = 3; filename = 1 ∷ 1 ∷ 1 ∷ [] }

abbrev rename_reply : RenameReply disk
rename_reply = record { from_pre = 3; from_post = some 3; to_pre = 3; to_post = some 3 }

abbrev after_rename : Server disk
after_rename =
    state_of (on_rename disk disk_names exports (λ gone s. s) (ok old_name) (ok new_name) server)

-- the single file, open for reading and for writing under the handle 5
abbrev busy : Server single
busy = record attr_server { conns = (1, conn) ∷ [] }

abbrev single_exports : UserHandler single
single_exports = record {
  from_handle = λ key w. ok (true, 7 ∷ []);
  to_handle = λ path w. (5, w);
  invalidate_handle = λ key w. (none, w);
}

abbrev single_names : Names single
single_names = record {
  same_fs = λ k l w. true;
  handle_if_cached = none;
  rename = λ source target w. (none, w);
  create = λ path w. (ok 3, record w { length = 0 });
  file_name = λ f. 7 ∷ 8 ∷ [];
  symlink = λ target path w. (none, w);
  mkdir_all = λ path mode w. (none, w);
}

abbrev in_single : DirOpArg
in_single = record { handle = 4; filename = 8 ∷ [] }

abbrev create_request : ℕ → CreateArgs
create_request how = record {
  object = ok in_single;
  how = ok how;
  sattr = ok some_set;
  verf = ok tt;
}

abbrev after_create : Option (Result (CreateReply single) × Server single) → Server single
after_create none = busy
after_create (some (r, s)) = s

abbrev created : Option (Result (CreateReply single) × Server single)
created =
    on_create single single_names single_files single_exports (λ s. s) (some single_changer)
      (create_request 0) busy

create_ok :
    created
    ≡ some (
      ok (record {
        handle = 5;
        attrs = some (world_of single (after_create created));
        dir_attrs = some (world_of single (after_create created));
      }),
      after_create created,
    )
unfolding on_create go_nfs.Attributes.Apply.apply_to go_nfs.Attributes.Apply.apply_mode attributes
    go_nfs.Base.lookup go_nfs.Base.delete go_nfs.Handle.finish_commit go_nfs.Handle.evict_flush
    go_nfs.Attributes.Apply.change go_nfs.Attributes.Apply.apply_owner
    go_nfs.Attributes.Apply.apply_size go_nfs.Attributes.Apply.truncate_open
    go_nfs.Attributes.Apply.apply_times go_nfs.Handlers.Commit.try_stat
create_ok = refl

on_create-IsMade_example :
    IsCreated single single_names single_files single_exports
      (λ s. s)
      (some single_changer)
      (create_request 0)
      (7 ∷ 8 ∷ [])
      5
      busy
      (after_create created)
on_create-IsMade_example =
    on_create-IsMade single single_names single_files single_exports (λ s. s) (some single_changer)
      (create_request 0) in_single true (7 ∷ []) busy refl refl create_ok

on_create-guarded_example :
    on_create single single_names single_files single_exports (λ s. s) none (create_request 1) busy
    ≡ some (err (nfs_error NfsStatus.exist err_permission), busy)
on_create-guarded_example =
    on_create-guarded single single_names single_files single_exports (λ s. s) none
      (create_request 1) in_single true (7 ∷ []) file_meta busy refl refl refl refl

abbrev after_set_attr : Option (Result (SetAttrReply single) × Server single) → Server single
after_set_attr none = busy
after_set_attr (some (r, s)) = s

abbrev never : FileTime
never = record { seconds = 0; nseconds = 0 }

abbrev changed : Option (Result (SetAttrReply single) × Server single)
changed =
    on_set_attr single single_files single_exports (λ s. s) (some single_changer)
      (guarded 5 some_set 0 never) busy

there : single.lstat (7 ∷ []) (world_of single (drop_handle_all single 5 busy)) ≡ ok file_meta
unfolding drop_handle_all go_nfs.Base.lookup go_nfs.Handle.finish_commit go_nfs.Handle.evict_flush
there = refl

set_ok :
    changed
    ≡ some (
      ok (record { pre = file_meta; post = some (world_of single (after_set_attr changed)) }),
      after_set_attr changed,
    )
unfolding on_set_attr go_nfs.Attributes.Apply.apply_to go_nfs.Attributes.Apply.apply_mode
    go_nfs.Base.lookup go_nfs.Handle.finish_commit go_nfs.Handle.evict_flush
    go_nfs.Attributes.Apply.change go_nfs.Attributes.Apply.apply_owner
    go_nfs.Attributes.Apply.apply_size go_nfs.Attributes.Apply.truncate_open
    go_nfs.Attributes.Apply.apply_times go_nfs.Handlers.Commit.try_stat
set_ok = refl

on_set_attr-IsApplied_example :
    (u : Server single) × IsApplied some_set
      (single_meta (7 ∷ []) (world_of single (drop_handle_all single 5 busy)))
      (single_meta (7 ∷ []) (world_of single u))
    × (apply single single_files some_set
          (some single_changer)
          (7 ∷ [])
          (drop_handle_all single 5 busy)
        ≡ some (ok tt, u))
    × (after_set_attr changed ≡ drop_handle_all single 5 u)
    × IsDetached single 5 (after_set_attr changed)
on_set_attr-IsApplied_example =
    on_set_attr-IsApplied single single_files single_changer single_meta single-IsDocumented
      single_exports (λ s. s) (guarded 5 some_set 0 never) 5 some_set true (7 ∷ []) file_meta busy
      refl refl refl there set_ok

on_set_attr-guarded_example :
    on_set_attr single single_files single_exports (λ s. s) none (guarded 5 some_set 1 never) busy
    ≡ some (err (nfs_plain NfsStatus.notsync), busy)
on_set_attr-guarded_example =
    on_set_attr-guarded single single_files single_exports (λ s. s) none 5 0 some_set true (7 ∷ [])
      file_meta never busy refl refl
      (unfold attributes to_nfs_time in
        λ e.
          let n : never.nseconds ≡ 2000 = ap (λ (t : FileTime). t.nseconds) e in omega (arith, n))
