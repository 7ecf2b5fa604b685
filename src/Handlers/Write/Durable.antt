-- ===== src/Handlers/Write/Durable.antt =====
-- nfs_onwrite.go: what a WRITE that answers NFS3_OK has done.
use go_nfs.Action.{require, UserHandler, ◌>>=◌, pure, require, >>=-eq-ok}
use go_nfs.Backend.{Backend}
use go_nfs.Base.{take, ◌==◌, ℕ, ◌≡◌, refl, Bool, false, true, Option, none, some, List, arith}
use go_nfs.Errors.Chain.{Result, ok, err}
use go_nfs.Handlers.Commit.{stamp, world_of}
use go_nfs.Handlers.Write.{
  pre_op, WriteArgs, unstable, file_sync, WriteReply, Others, write_end, cached_write, write_data,
  sync_stable, sync_unless, post_op, stability_of, write_reply, write_file, on_write,
}
use go_nfs.Handlers.Write.Stable.{sync_stable-IsDurable}
use go_nfs.Server.{Server}
use go_nfs.Words.{u32}
use go_nfs.Base.{◌||◌, not, ap, ◌∙◌}
use go_nfs.Errors.Chain.{Error}
use go_nfs.Handlers.Write.{stat_regular_file}
use go_nfs.Errors.Chain.{err_invalid, nfs_error}
use go_nfs.Errors.Codes.{NfsStatus}
use go_nfs.Handlers.Write.{data_sync}
use go_nfs.Memfs.Content.Writes.{written}
use go_nfs.Handlers.Write.Refusals.{is_too_big, cached_write-Wrote, Wrote}
use go_nfs.Handlers.Write.Stable.{IsDurable}

require-same :
    {b : Backend} (c : Bool) (x : Error) (s t : Server b) → require c x s ≡ some (ok tt, t) → t ≡ s
require-same true x s t e = ground arith
require-same false x s t e = cc e

module _ (b : Backend) (o : Others b) (id now : ℕ) (req : WriteArgs) (path : b.FilePath) where
  -- the bytes of the request that are written
  abbrev pub payload : List ℕ
  payload = take (write_end req.count req.bytes) req.bytes

  write_data-ok :
      (s t : Server b) (n p : ℕ)
      → write_data b o id req.handle path payload req.offset now s ≡ some (ok (n, p), t)
      → cached_write b o id req.handle path payload req.offset now s ≡ some (ok (n, p), t)
  unfolding write_data
  write_data-ok s t n p h = go (cached_write b o id req.handle path payload req.offset now s) refl
    where
      go :
          (c : Option (Result (ℕ × ℕ) × Server b))
          → cached_write b o id req.handle path payload req.offset now s ≡ c
          → cached_write b o id req.handle path payload req.offset now s ≡ some (ok (n, p), t)
      go none e = absurd (ground arith)
      go (some (ok (m, q), u)) e = ground arith
      go (some (err x, u)) e = absurd (ground arith)

  -- How the flush, the attributes and the verifier of a WRITE went from the server after the write of
  -- `n` bytes through the handle `p` to the server `t`.
  pub record Synced (n p : ℕ) (written : Server b) (r : WriteReply b) (t : Server b) : Type 0 where
    pub synced : Server b
    pub ran : sync_stable b o id req.handle p written ≡ some (ok tt, synced)
    pub durable : IsDurable b o req.handle p synced
    pub post : r.post ≡ post_op b p path synced
    pub stamped : stamp b o.racing synced ≡ some (ok r.verifier, t)
    pub count : r.count ≡ u32 n
    pub stability : r.stability ≡ file_sync

  -- How a WRITE went from the server `s` to the server `t`.
  pub record IsWritten (s : Server b) (r : WriteReply b) (t : Server b) : Type 0 where
    pub n : ℕ
    pub handle : ℕ
    pub written : Server b
    pub ran :
        cached_write b o id req.handle path payload req.offset now s
        ≡ some (ok (n, handle), written)
    pub wrote : Wrote b payload req.offset now n handle written
    pub synced : Synced n handle written r t

  write_reply-Synced :
      (pre : b.Info) (n p : ℕ) (s t : Server b) (r : WriteReply b)
      → (req.how == unstable) ≡ false
      → write_reply b o id req path pre n p s ≡ some (ok r, t)
      → Synced n p s r t
  unfolding write_reply
  write_reply-Synced pre n p s t r stable h =
      let (done, u, synced, rest) =
        >>=-eq-ok (sync_unless b (req.how == unstable) o id req.handle p)
          (λ _. (λ s'. some (ok (post_op b p path s'), s')) >>= λ post. stamp b o.racing >>= λ v.
            pure (record {
              pre = pre;
              post = post;
              count = u32 n;
              stability = stability_of b req.how;
              verifier = v;
            }))
          s h in
      let (v, u', stamped, made) =
        >>=-eq-ok (stamp b o.racing)
          (λ v. pure (record {
            pre = pre;
            post = post_op b p path u;
            count = u32 n;
            stability = stability_of b req.how;
            verifier = v;
          }))
          u rest in
      let (post, count, stability, verifier, same) = answer v u' (post_op b p path u) made in
      let flushed = unless u synced in
      record {
        synced = u;
        ran = flushed;
        durable = sync_stable-IsDurable b o id req.handle p s u flushed;
        post = post;
        stamped =
            stamped
            ∙ ap (λ (k : ℕ). some (ok k, u')) verifier
            ∙ ap (λ (w : Server b). some (ok r.verifier, w)) same;
        count = count;
        stability = stability;
      }
    where
      unless :
          (u : Server b)
          → sync_unless b (req.how == unstable) o id req.handle p s ≡ some (ok tt, u)
          → sync_stable b o id req.handle p s ≡ some (ok tt, u)
      unless u e = unfold sync_unless in rw stable at e

      answer :
          (v : ℕ) (u : Server b) (post : Option b.Info)
          → ◌≡◌ {A = Option (Result (WriteReply b) × Server b)}
              (some (
                ok (record {
                  pre = pre;
                  post = post;
                  count = u32 n;
                  stability = stability_of b req.how;
                  verifier = v;
                }),
                u,
              ))
              (some (ok r, t))
          → (r.post ≡ post)
            × (r.count ≡ u32 n)
            × (r.stability ≡ file_sync)
            × (v ≡ r.verifier)
            × (u ≡ t)
      answer v u post e =
          unfold stability_of in
          (ground arith, ground arith, ground arith, ground arith, ground arith)

  -- the attributes before the write are only read
  pre_op-same :
      (pre : b.Info) (s t : Server b) → pre_op b id req.handle path s ≡ some (ok pre, t) → t ≡ s
  unfolding pre_op stat_regular_file
  pre_op-same pre s t e = ground arith

  write_file-IsWritten :
      (s t : Server b) (r : WriteReply b)
      → (req.how == unstable) ≡ false
      → write_file b o id now req path s ≡ some (ok r, t)
      → IsWritten s r t
  unfolding write_file
  write_file-IsWritten s t r stable h =
      let (pre, u, known, writing) = >>=-eq-ok (pre_op b id req.handle path) _ s h in
      let ((n, p), s1, written, replying) =
        >>=-eq-ok (write_data b o id req.handle path payload req.offset now) _ u writing in
      let ran = write_data-ok u s1 n p written in
      rw (← pre_op-same pre s u known) (record {
        n = n;
        handle = p;
        written = s1;
        ran = ran;
        wrote = cached_write-Wrote b o id req.handle path payload req.offset now u ran;
        synced = write_reply-Synced pre n p s1 t r stable replying;
      })

  -- A WRITE that asks for another stability than unstable and is answered by NFS3_OK ran, from the
  -- server at its start, a cachedWrite of its bytes that succeeded: one write through a handle that was
  -- open, which left the server as cachedWrite did. From there the flush of that handle succeeded, and
  -- after it the handle had nothing unflushed or was closed, or a wait had just found no flush of the
  -- file in flight and no lost write on record. The reply has the attributes and the verifier of the
  -- server after the flush, the number of bytes that the write reports, and says fileSync.
  pub on_write-IsDurable :
      (h : UserHandler b) (s : Server b) (writable : Bool) {r : WriteReply b} {t : Server b}
      → h.from_handle req.handle (world_of b s) ≡ ok (writable, path)
      → (req.how == unstable) ≡ false
      → on_write b h o id now (ok req) s ≡ some (ok r, t)
      → IsWritten s r t
  unfolding on_write
  on_write-IsDurable h s writable {r} {t} f stable e =
      let (_, s1, writable_fs, e1) = >>=-eq-ok (require writable _) _ s (rw f at e) in
      let (_, s2, small, e2) =
        >>=-eq-ok (require (not (is_too_big req)) (nfs_error NfsStatus.fbig err_invalid)) _ s1 e1 in
      let (_, s3, known, e3) =
        >>=-eq-ok
          (require (req.how == unstable || (req.how == data_sync || req.how == file_sync))
            (nfs_error NfsStatus.inval err_invalid))
          (λ _. write_file b o id now req path) s2 e2 in
      let same : s3 ≡ s =
        require-same _ _ s2 s3 known
        ∙ require-same _ _ s1 s2 small
        ∙ require-same _ _ s s1 writable_fs in
      rw (← same) (write_file-IsWritten s3 t r stable e3)
