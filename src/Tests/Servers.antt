-- ===== src/Tests/Servers.antt =====
-- conn.go and server.go at concrete runs.
use go_nfs.Server.FlushDirty.{all_flushed, flush_dirty_handle_all-flushed}
use go_nfs.Server.{Server, flush_dirty_handle_all}
use go_nfs.Tests.{two_files, conn}
use go_nfs.Errors.Chain.{Error}
use go_nfs.Base.{Option, none, some, [], ◌∷◌}
use go_nfs.Base.{lookup, ◌≡◌, refl, ◌≢◌, true, none}
use go_nfs.Server.{drop_handle_all, flush_handle_all}
use go_nfs.Server.Flush.{is_flushed, flush_handle_all-flushed}
use go_nfs.Server.Loss.{drop_handle_all-records}
use go_nfs.Tests.{disk, server}

-- the close of the descriptor 100 fails
drop_handle_all-records_example : (drop_handle_all disk 6 server).memory.commits.errs 6 ≢ none
unfolding lookup
drop_handle_all-records_example =
    drop_handle_all-records disk 6 1 1 server refl (refl, refl) (λ w. λ h. cc)

flush_handle_all-flushed_example :
    is_flushed disk 0 (flush_handle_all disk 5 server).2.memory ≡ true
unfolding lookup flush_handle_all
flush_handle_all-flushed_example =
    flush_handle_all-flushed disk 5 1 0 server (λ f w. refl) refl refl

-- two connections with unflushed writes of the key 5, in the handle 0, which can sync, and the
-- handle 2, which cannot
abbrev two_connections : Server disk
two_connections = record server {
  conns =
      (1, conn)
      ∷ (2, record { wc = some (record two_files { entries = (5, 2) ∷ [] }); rc = none })
      ∷ [];
}

abbrev after_broadcast : Option (Option Error × Server disk) → Server disk
after_broadcast none = server
after_broadcast (some (e, s)) = s

abbrev broadcast : Option (Option Error × Server disk)
broadcast = flush_dirty_handle_all disk (λ m. m) 5 two_connections

broadcast_ok : broadcast ≡ some (none, after_broadcast broadcast)
unfolding flush_dirty_handle_all lookup go_nfs.WriteCache.await_commit go_nfs.Tracker.poll
    go_nfs.Handle.sync_if_dirty go_nfs.Handle.evict_flush go_nfs.Handle.finish_commit
    go_nfs.Tracker.finish go_nfs.Tracker.begin go_nfs.Tracker.Sets.remove go_nfs.Handle.lost_err
broadcast_ok = refl

flush_dirty_handle_all-flushed_example :
    all_flushed disk 5 two_connections.conns (after_broadcast broadcast).memory ≡ true
flush_dirty_handle_all-flushed_example =
    flush_dirty_handle_all-flushed disk (λ m. m) (λ q m e. e) 5 two_connections
      (after_broadcast broadcast) broadcast_ok
