-- ===== src/Tests.antt =====
-- A small file system and a server on it, for concrete runs of the definitions.
mod Trackers
mod Caches
mod Servers
mod Procedures
mod Replies
mod Files
mod Handles
mod Attributes
mod Listings
mod Rpcs
mod Names
mod Nodes
use go_nfs.Base.{
  ℕ, ◌+◌, Bool, true, false, Option, none, some, List, [], ◌∷◌, ◌++◌, if◌then◌else◌, ltb, ◌==◌,
  length, take, drop,
}
use go_nfs.Errors.Chain.{Error, Result, ok, err, enospc}
use go_nfs.Backend.{Backend}
use go_nfs.Memory.{Memory, CachedHandle, ReadHandle}
use go_nfs.Tracker.{Tracker, new_commit_tracker}
use go_nfs.Verifier.{VerifierState}
use go_nfs.WriteCache.{WriteCache}
use go_nfs.Conn.{Conn}
use go_nfs.Server.{Server}
use go_nfs.Action.{UserHandler}
use go_nfs.Handlers.Write.{Others}

-- One file, whose bytes are the world. A descriptor below 50 can sync, and one from 100 on fails to
-- close.
abbrev pub disk : Backend
disk = record {
  World = List ℕ;
  FilePath = ℕ;
  Info = ℕ;
  can_sync = λ f. ltb f 50;
  can_stat = λ f. true;
  seek = λ f offset w. (none, w);
  write = λ f bytes w. (length bytes, none, w ++ bytes);
  read_at = λ f room offset w. (take room (drop offset w), none, w);
  sync = λ f w. (none, w);
  close = λ f w. (if ltb f 100 then none else some enospc, w);
  fstat = λ f w. ok (length w);
  open_rw = λ path w. (ok path, w);
  open_ro = λ path w. (ok path, w);
  stat = λ path w. ok (length w);
  lstat = λ path w. ok (length w);
  is_regular = λ i. true;
  size = λ i. i;
  is_dir = λ i. true;
  join_name = λ path name. path + length name;
  remove = λ path w. (none, []);
  random = λ n. n + 7;
}

abbrev pub handle_at : ℕ → CachedHandle
handle_at p =
    if p == 0
    then record { file = 3; dirty = true; last_used = 20; closed = false }
    else if p == 1
    then record { file = 100; dirty = true; last_used = 10; closed = false }
    else if p == 2
    then record { file = 60; dirty = true; last_used = 30; closed = false }
    else record { file = 4; dirty = false; last_used = 0; closed = true }

abbrev pub reader_number : ℕ → ReadHandle
reader_number q = record { file = q; closed = false; last_used = q }

abbrev pub no_verifier : VerifierState
no_verifier = record { id = 0; current = none; drawn = 0 }

abbrev pub memory : Memory disk
memory = record {
  world = 1 ∷ 2 ∷ 3 ∷ [];
  handles = handle_at;
  allocated = 9;
  readers = reader_number;
  readers_allocated = 9;
  commits = new_commit_tracker;
  on_loss = none;
  verifier = no_verifier;
}

-- Key 5 has the handle 0, key 6 the handle 1.
abbrev pub two_files : WriteCache
two_files = record { entries = (5, 0) ∷ (6, 1) ∷ []; max_size = 2; idle = 5; gen = 0 }

abbrev pub two_readers : WriteCache
two_readers = record { entries = (5, 4) ∷ (6, 8) ∷ []; max_size = 2; idle = 5; gen = 0 }

abbrev pub conn : Conn
conn = record { wc = some two_files; rc = some two_readers }

abbrev pub server : Server disk
server = record { conns = (1, conn) ∷ []; memory = memory }

-- Every handle is the path of its number, and writable.
abbrev pub exports : UserHandler disk
exports = record {
  from_handle = λ key w. ok (true, key);
  to_handle = λ path w. (path, w);
  invalidate_handle = λ key w. (none, w);
}

abbrev pub nothing : Others disk
nothing = record { opening = λ n s. s; writing = λ n s. s; flushing = λ m. m; racing = λ v. v }

-- the server that a procedure leaves
abbrev pub state_of : {A : Type 0} → Option (Result A × Server disk) → Server disk
state_of none = server
state_of (some (r, s)) = s
