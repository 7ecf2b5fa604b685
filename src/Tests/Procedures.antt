-- ===== src/Tests/Procedures.antt =====
-- nfs_oncommit.go, nfs_onread.go and nfs_onwrite.go at concrete requests.
use go_nfs.Action.{UserHandler}
use go_nfs.Base.{◌/◌, false}
use go_nfs.Base.{List}
use go_nfs.Handle.{sync_if_dirty}
use go_nfs.Handlers.Remove.{DirOpArg, RemoveReply, on_remove}
use go_nfs.Handlers.Remove.Removed.{IsRemoved, on_remove-IsDetached}
use go_nfs.Handlers.Remove.{put_world}
use go_nfs.Handlers.Commit.{world_of}
use go_nfs.Handlers.Write.{sync_stable}
use go_nfs.Base.{delete, ℕ, ◌≤◌}
use go_nfs.Handle.{lost_err, evict_flush, finish_commit}
use go_nfs.Handlers.Commit.{try_stat, flush_all, wait_all, commit_unless, stamp}
use go_nfs.Handlers.Read.{ReadArgs, ReadReply, max_read, read_window, cap_read, on_read}
use go_nfs.Handlers.Read.Answers.{Answers, on_read-Answers}
use go_nfs.Handlers.Write.{WriteReply}
use go_nfs.Handlers.Write.Durable.{IsWritten, on_write-IsDurable}
use go_nfs.Server.{flush_dirty_handle_all}
use go_nfs.Tests.{state_of}
use go_nfs.Tracker.{Tracker, poll}
use go_nfs.Verifier.{current_write_verifier}
use go_nfs.WriteCache.{WriteCache, wait_commit}
use go_nfs.Base.{arith}
use go_nfs.Action.{put_memory}
use go_nfs.Base.{lookup, ◌≡◌, refl, true, Option, none, some, [], ◌∷◌}
use go_nfs.Errors.Chain.{ok, err, enospc}
use go_nfs.Handlers.Commit.{write_error, CommitReply, on_commit}
use go_nfs.Handlers.Commit.Durable.{on_commit-durable, on_commit-reports_loss}
use go_nfs.Handlers.Write.{WriteArgs, Others, put_cache, cached_write, on_write}
use go_nfs.Server.{Server, drop_handle_all, flush_handle_all}
use go_nfs.Server.Flush.{is_flushed}
use go_nfs.Tests.{disk, two_files, server, exports, nothing}
use go_nfs.Tracker.{in_flight}
use go_nfs.Tests.{memory}
use go_nfs.Base.{insert}

-- the answer of a COMMIT of the key 5, and the server after it
abbrev commit_reply : CommitReply disk
commit_reply = record { attrs = some 3; verifier = 7 }

abbrev after_commit : Server disk
after_commit = state_of (on_commit disk exports (λ m. m) (λ v. v) (ok 5) server)

commit_ok :
    on_commit disk exports (λ m. m) (λ v. v) (ok 5) server ≡ some (ok commit_reply, after_commit)
unfolding on_commit go_nfs.Handlers.Commit.flush_all flush_handle_all lookup
    go_nfs.Handlers.Commit.wait_all go_nfs.WriteCache.wait_commit go_nfs.Tracker.poll
    go_nfs.Handlers.Commit.commit_unless go_nfs.Handlers.Commit.stamp
    go_nfs.Handlers.Commit.try_stat go_nfs.Verifier.current_write_verifier
commit_ok = refl

on_commit-durable_example :
    let flushed = (flush_handle_all disk 5 server).2.memory in
    (is_flushed disk 0 flushed ≡ true)
    × (in_flight flushed.commits 5 ≡ [])
    × (flushed.commits.errs 5 ≡ none)
unfolding lookup
on_commit-durable_example =
    on_commit-durable disk exports (λ m. m) (λ v. v) 5 server 1 0 (λ f w. refl) refl commit_ok

-- the server after the loss of a write of the key 6
abbrev lossy : Server disk
lossy = drop_handle_all disk 6 server

on_commit-reports_loss_example :
    (s : Server disk) × (on_commit disk exports (λ m. m) (λ v. v) (ok 6) lossy
      ≡ some (err (write_error enospc), s))
    × (s.memory.commits.errs 6 ≡ none)
unfolding drop_handle_all flush_handle_all lookup go_nfs.Base.delete go_nfs.Handle.finish_commit
    go_nfs.Handle.evict_flush go_nfs.Tracker.finish go_nfs.Tracker.begin go_nfs.Tracker.Sets.remove
    go_nfs.Handle.lost_err
on_commit-reports_loss_example =
    on_commit-reports_loss disk exports (λ m. m) (λ v. v) 6 lossy 6 enospc refl refl refl refl

abbrev request : WriteArgs
request = record { handle = 5; offset = 0; count = 4; how = 9; bytes = 7 ∷ 8 ∷ [] }

-- the server after the write of two bytes through the handle 0
abbrev written_server : Server disk
written_server = put_memory (go_nfs.Handle.write_at disk 0 (7 ∷ 8 ∷ []) 0 50 memory).2 server

-- While the file is opened, another key is invalidated on the connection.
abbrev racing_open : Others disk
racing_open = record nothing {
  opening = λ n s. put_cache disk 1 (record two_files { gen = 1 }) s.memory s;
}

-- two bytes, with fileSync
abbrev stable_request : WriteArgs
stable_request = record { handle = 5; offset = 0; count = 4; how = 2; bytes = 7 ∷ 8 ∷ [] }

abbrev stable_reply : WriteReply disk
stable_reply = record { pre = 3; post = some 5; count = 2; stability = 2; verifier = 7 }

abbrev after_write_ok : Server disk
after_write_ok = state_of (on_write disk exports nothing 1 50 (ok stable_request) server)

write_ok :
    on_write disk exports nothing 1 50 (ok stable_request) server
    ≡ some (ok stable_reply, after_write_ok)
unfolding on_write lookup cached_write sync_stable go_nfs.Handle.sync stamp current_write_verifier
write_ok = refl

on_write-IsDurable_example :
    IsWritten disk nothing 1 50 stable_request 5 server stable_reply after_write_ok
on_write-IsDurable_example =
    on_write-IsDurable disk nothing 1 50 stable_request 5 exports server true refl refl write_ok

-- the last two bytes of the file
abbrev read_request : ReadArgs
read_request = record { handle = 5; offset = 1; count = 2 }

abbrev reply : ReadReply disk
reply = record { attrs = 3; count = 2; eof = true; bytes = 2 ∷ 3 ∷ [] }

abbrev after_read : Server disk
after_read = state_of (on_read disk exports nothing 1 50 (ok read_request) server)

read_ok : on_read disk exports nothing 1 50 (ok read_request) server ≡ some (ok reply, after_read)
unfolding on_read flush_dirty_handle_all lookup go_nfs.Handle.sync_if_dirty poll cap_read
    read_window
read_ok = refl

on_read-Answers_example :
    Answers disk nothing 1 50 read_request 5 server reply after_read
    × (cap_read (read_window 3 1 2).0 ≤ max_read)
on_read-Answers_example =
    on_read-Answers disk nothing 1 50 read_request 5 exports server true (λ q m e. e) refl read_ok

-- the removal of the file whose handle is 5, in the directory 3
abbrev remove_request : DirOpArg
remove_request = record { handle = 3; filename = 1 ∷ 1 ∷ [] }

abbrev remove_reply : RemoveReply disk
remove_reply = record { pre = 3; post = some 0 }

abbrev after_remove_ok : Server disk
after_remove_ok = state_of (on_remove disk exports (λ s. s) (ok remove_request) server)

remove_ok :
    on_remove disk exports (λ s. s) (ok remove_request) server
    ≡ some (ok remove_reply, after_remove_ok)
unfolding on_remove try_stat lookup delete
remove_ok = refl

on_remove-IsDetached_example :
    IsRemoved disk exports
      (λ s. s)
      5
      5
      (put_world disk (world_of disk server) server)
      after_remove_ok
on_remove-IsDetached_example =
    on_remove-IsDetached disk exports (λ s. s) remove_request server true 3 refl remove_ok

-- an ACCESS that asks for everything, to a file system that cannot be written
abbrev read_only : UserHandler disk
read_only = record exports { from_handle = λ key w. ok (false, key) }
