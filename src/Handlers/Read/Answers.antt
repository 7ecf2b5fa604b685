-- ===== src/Handlers/Read/Answers.antt =====
-- nfs_onread.go: what a READ that answers NFS3_OK has done.
use go_nfs.Server.FlushDirty.{KeepsFlushed, all_flushed, flush_dirty_handle_all-flushed}
use go_nfs.Base.{ap, ◌∙◌, true}
use go_nfs.Action.{result-same}
use go_nfs.Action.{pure, UserHandler, ◌>>=◌, pure, >>=-eq-ok}
use go_nfs.Backend.{Backend}
use go_nfs.Base.{length, take, ℕ, ◌≤◌, ◌≡◌, refl, Bool, ◌||◌, none, some, List, arith}
use go_nfs.Errors.Chain.{ok}
use go_nfs.Handlers.Commit.{world_of}
use go_nfs.Handlers.Read.{
  ReadArgs, ReadReply, max_read, read_window, cap_read, read_handle_for, flush_dirty_first,
  read_info, read_bytes, read_reply, read_file, on_read,
}
use go_nfs.Handlers.Read.Found.{read_bytes-ReadFrom}
use go_nfs.Handlers.Write.{Others}
use go_nfs.Server.{Server, flush_dirty_handle_all}
use go_nfs.Words.{u32}
use go_nfs.Handlers.Read.Found.{ReadFrom}

cap_read-le : (count : ℕ) → cap_read count ≤ max_read
unfolding cap_read
cap_read-le count = ground arith

module _ (b : Backend) (o : Others b) (id now : ℕ) (req : ReadArgs) (path : b.FilePath) where
  -- How a READ went from the server `s` to the server `t`.
  pub record Answers (s : Server b) (r : ReadReply b) (t : Server b) : Type 0 where
    pub flushed : Server b
    pub broadcast : flush_dirty_handle_all b o.flushing req.handle s ≡ some (none, flushed)
    pub all_clean : all_flushed b req.handle s.conns flushed.memory ≡ true
    pub handle : ℕ
    pub found : Server b
    pub opened : read_handle_for b o 2 id req.handle path now flushed ≡ some (ok handle, found)
    pub sized : Server b
    pub size_known : read_info b o handle path found ≡ some (ok r.attrs, sized)
    pub bytes : List ℕ
    pub at_end : Bool
    pub ran :
        read_bytes b o id req.handle handle path
          (cap_read (read_window (b.size r.attrs) req.offset req.count).0)
          req.offset
          now
          sized
        ≡ some (ok (bytes, at_end), t)
    pub source :
        ReadFrom b
          (cap_read (read_window (b.size r.attrs) req.offset req.count).0)
          req.offset
          now
          bytes
          at_end
          t.memory
    pub cut : r.bytes ≡ take (u32 (length bytes)) bytes
    pub count : r.count ≡ u32 (length bytes)
    pub eof : r.eof ≡ (at_end || (read_window (b.size r.attrs) req.offset req.count).1)

  -- the reply that the bytes of the read make
  abbrev reply_of : b.Info → List ℕ → Bool → ReadReply b
  reply_of info bytes at_end = record {
    attrs = info;
    count = u32 (length bytes);
    eof = at_end || (read_window (b.size info) req.offset req.count).1;
    bytes = take (u32 (length bytes)) bytes;
  }

  read_reply-run :
      (p : ℕ) (info : b.Info) (s t : Server b) (r : ReadReply b)
      → read_reply b o id now req path p info s ≡ some (ok r, t)
      → (bytes : List ℕ) × (at_end : Bool) × (read_bytes b o id req.handle p path
            (cap_read (read_window (b.size info) req.offset req.count).0)
            req.offset
            now
            s
          ≡ some (ok (bytes, at_end), t))
        × (reply_of info bytes at_end ≡ r)
  unfolding read_reply
  read_reply-run p info s t r h =
      let ((bytes, at_end), u, got_bytes, made) =
        >>=-eq-ok
          (read_bytes b o id req.handle p path
            (cap_read (read_window (b.size info) req.offset req.count).0) req.offset now)
          (λ found. pure (reply_of info found.0 found.1)) s h in
      let same : u ≡ t = result-same (reply_of info bytes at_end) r u t made in
      (
        bytes,
        at_end,
        got_bytes ∙ ap (λ (w : Server b). some (ok (bytes, at_end), w)) same,
        ground arith,
      )

  read_file-Answers :
      (s t : Server b) (r : ReadReply b)
      → KeepsFlushed b o.flushing
      → read_file b o id now req path s ≡ some (ok r, t)
      → Answers s r t
  unfolding read_file
  read_file-Answers s t r keeps h =
      let (done, u, flushed, found) =
        >>=-eq-ok (flush_dirty_first b o.flushing req.handle)
          (λ _. read_handle_for b o 2 id req.handle path now >>= λ p.
            read_info b o p path >>= λ info. read_reply b o id now req path p info)
          s h in
      let (p, s1, opened, sized) =
        >>=-eq-ok (read_handle_for b o 2 id req.handle path now)
          (λ p. read_info b o p path >>= λ info. read_reply b o id now req path p info) u found in
      let (info, s2, known, answered) =
        >>=-eq-ok (read_info b o p path) (λ info. read_reply b o id now req path p info) s1 sized in
      let (bytes, at_end, ran, made) = read_reply-run p info s2 t r answered in
      let broadcast = flush_dirty_first-ok s u flushed in
      rw (← made) (record {
        flushed = u;
        broadcast = broadcast;
        all_clean = flush_dirty_handle_all-flushed b o.flushing keeps req.handle s u broadcast;
        handle = p;
        found = s1;
        opened = opened;
        sized = s2;
        size_known = known;
        bytes = bytes;
        at_end = at_end;
        ran = ran;
        source =
            read_bytes-ReadFrom b o (cap_read (read_window (b.size info) req.offset req.count).0)
              req.offset now id req.handle path p s2 ran;
        cut = refl;
        count = refl;
        eof = refl;
      })
    where
      flush_dirty_first-ok :
          (s u : Server b)
          → flush_dirty_first b o.flushing req.handle s ≡ some (ok tt, u)
          → flush_dirty_handle_all b o.flushing req.handle s ≡ some (none, u)
      flush_dirty_first-ok s u e = unfold flush_dirty_first in ground arith

  -- A READ that answers NFS3_OK, where the other goroutines make no unflushed write during its waits,
  -- has first flushed the file on every connection without an error: each handle that a connection had
  -- for it is closed or has no unflushed write. In the server after that it found or opened a file, it
  -- took the attributes of the reply there, and its bytes come from a run of the read in the state that
  -- this left: one read at the offset of the request, through a file that was open, into a buffer of at
  -- most MaxRead bytes. It reports the end of the file if that read met it, or if the request, before
  -- its count is cut to MaxRead, reaches the size in the attributes.
  pub on_read-Answers :
      (h : UserHandler b) (s : Server b) (writable : Bool) {r : ReadReply b} {t : Server b}
      → KeepsFlushed b o.flushing
      → h.from_handle req.handle (world_of b s) ≡ ok (writable, path)
      → on_read b h o id now (ok req) s ≡ some (ok r, t)
      → Answers s r t × (cap_read (read_window (b.size r.attrs) req.offset req.count).0 ≤ max_read)
  unfolding on_read
  on_read-Answers h s writable {r} {t} keeps f e =
      (read_file-Answers s t r keeps (rw f at e), cap_read-le _)
