-- ===== src/Handlers/Remove/Removed.antt =====
-- nfs_onremove.go: what a REMOVE that answers NFS3_OK has done.
use go_nfs.Handlers.Remove.Retried.{attempted, Retried, drop_and_retry-Retried}
use go_nfs.Action.{check-same}
use go_nfs.Handlers.Remove.{put_world}
use go_nfs.Server.{drop_handle_all}
use go_nfs.Action.{◌>>◌, ◌>>=◌, pure, Action, require}
use go_nfs.Base.{length, leb, sym, ap, ◌∙◌, true, false}
use go_nfs.Errors.Chain.{err_permission, nfs_error, nfs_plain}
use go_nfs.Errors.Codes.{NfsStatus}
use go_nfs.Handlers.Remove.{invalidate_key, path_name_max}
use go_nfs.Action.{UserHandler, check, >>=-eq-ok}
use go_nfs.Backend.{Backend}
use go_nfs.Base.{ℕ, ◌≡◌, refl, Bool, Option, none, some, List, [], ◌∷◌, arith}
use go_nfs.Errors.Chain.{Error, Result, ok}
use go_nfs.Handlers.Commit.{try_stat, world_of}
use go_nfs.Handlers.Remove.{
  DirOpArg, RemoveReply, removal_error, stat_dir, handle_for, drop_all, remove_file, remove_retried,
  remove_handle, on_remove,
}
use go_nfs.Server.{Server, drop_and_retry}
use go_nfs.Server.Drop.{IsDetached, drop_handle_all-detached}

module _ (b : Backend) where
  pub check-ok :
      (e : Option Error) (wrap : Error → Error) (s t : Server b)
      → check e wrap s ≡ some (ok tt, t)
      → e ≡ none
  check-ok none wrap s t h = refl
  check-ok (some x) wrap s t h = cc h

  -- A drop detaches its handle, and no drop attaches one.
  pub drop_all-IsDetached :
      (key : ℕ) (s t : Server b) → drop_all b key s ≡ some (ok tt, t) → IsDetached b key t
  unfolding drop_all
  drop_all-IsDetached key s t e id =
      let (writers, readers) = drop_handle_all-detached b key id key s in
      (ground (arith, writers), ground (arith, readers))

  pub drop_all-same :
      (key : ℕ) (s t : Server b) → drop_all b key s ≡ some (ok tt, t) → t ≡ drop_handle_all b key s
  unfolding drop_all
  drop_all-same key s t e = ground arith

  pub invalidate_key-same :
      (h : UserHandler b) (racing : Server b → Server b) (key : ℕ) (s t : Server b)
      → invalidate_key b h racing key s ≡ some (ok tt, t)
      → let (e, w) = h.invalidate_handle key (world_of b (racing s)) in
        (e ≡ none) × (t ≡ put_world b w (racing s))
  unfolding invalidate_key
  invalidate_key-same h racing key s t g =
      let (e, w) = h.invalidate_handle key (world_of b (racing s)) in
      let u = put_world b w (racing s) in
      (
        check-ok e (nfs_error NfsStatus.serverfault) u t g,
        check-same e (nfs_error NfsStatus.serverfault) u t g,
      )

  -- How a REMOVE of a file went that has this handle, from `s` to `t`: the handle was dropped, and
  -- Remove of the file system succeeded, at the first try or after another drop, in the state `made`;
  -- then the handle was invalidated and dropped once more.
  pub record IsRemoved (h : UserHandler b) (racing : Server b → Server b) (target : b.FilePath)
      (key : ℕ) (s t : Server b) : Type 0 where
    pub made : Server b
    pub removed :
        Retried b
          (attempted b (b.remove target) racing)
          (drop_handle_all b key)
          (drop_handle_all b key s)
          made
    pub invalid : (h.invalidate_handle key (world_of b (racing made))).0 ≡ none
    pub closed :
        t
        ≡ drop_handle_all b key
            (put_world b (h.invalidate_handle key (world_of b (racing made))).1 (racing made))
    pub detached : IsDetached b key t

  module _ (h : UserHandler b) (racing : Server b → Server b) (path target : b.FilePath)
      (key : ℕ) where
    remove_retried-Retried :
        (s t : Server b)
        → remove_retried b racing target key s ≡ some (ok tt, t)
        → Retried b (attempted b (b.remove target) racing) (drop_handle_all b key) s t
    unfolding remove_retried remove_file
    remove_retried-Retried s t e =
        let handles : Server b → List ℕ × Server b = λ u. (key ∷ [], u) in
        let (x, u) = drop_and_retry b (remove_file b racing target) handles s in
        drop_and_retry-Retried b (attempted b (b.remove target) racing) handles s t
          (check-ok x removal_error u t e) (sym (check-same x removal_error u t e))

    -- the end of onRemove
    abbrev answered : b.Info → Action b (RemoveReply b)
    answered pre = (λ s'. some (ok (try_stat b path (world_of b s')), s')) >>= λ post.
        pure (record { pre = pre; post = post })

    remove_handle-IsDetached :
        (pre : b.Info) (s t : Server b) (r : RemoveReply b)
        → remove_handle b h racing path target pre key s ≡ some (ok r, t)
        → IsRemoved h racing target key s t
    unfolding remove_handle
    remove_handle-IsDetached pre s t r e =
        let (_, s1, dropped, e1) =
          >>=-eq-ok (drop_all b key)
            (λ _.
              remove_retried b racing target key
              >> (invalidate_key b h racing key >> (drop_all b key >> answered pre)))
            s e in
        let (_, s2, removed, e2) =
          >>=-eq-ok (remove_retried b racing target key)
            (λ _. invalidate_key b h racing key >> (drop_all b key >> answered pre)) s1 e1 in
        let (_, s3, gone, e3) =
          >>=-eq-ok (invalidate_key b h racing key) (λ _. drop_all b key >> answered pre) s2 e2 in
        let (_, s4, closed_again, e4) = >>=-eq-ok (drop_all b key) (λ _. answered pre) s3 e3 in
        let same : s4 ≡ t = answer s4 e4 in
        let first : drop_handle_all b key s ≡ s1 = sym (drop_all-same key s s1 dropped) in
        let (fine, there) = invalidate_key-same h racing key s2 s3 gone in
        record {
          made = s2;
          removed = rw first (remove_retried-Retried s1 s2 removed);
          invalid = fine;
          closed =
              sym same ∙ drop_all-same key s3 s4 closed_again ∙ ap (drop_handle_all b key) there;
          detached = rw (← same) (drop_all-IsDetached key s3 s4 closed_again);
        }
      where
        answer :
            (u : Server b)
            → ◌≡◌ {A = Option (Result (RemoveReply b) × Server b)}
                (some (ok (record { pre = pre; post = try_stat b path (world_of b u) }), u))
                (some (ok r, t))
            → u ≡ t
        answer u g = ground arith

  pub require-same :
      (c : Bool) (x : Error) (s t : Server b) → require c x s ≡ some (ok tt, t) → t ≡ s
  require-same true x s t e = ground arith
  require-same false x s t e = cc e

  stat_dir-same :
      (path : b.FilePath) (info : b.Info) (s t : Server b)
      → stat_dir b path s ≡ some (ok info, t)
      → t ≡ s
  unfolding stat_dir
  stat_dir-same path info s t e = ground arith

  pub handle_for-same :
      (h : UserHandler b) (target : b.FilePath) (key : ℕ) (s t : Server b)
      → handle_for b h target s ≡ some (ok key, t)
      → let (k, w) = h.to_handle target (world_of b s) in (key ≡ k) × (t ≡ put_world b w s)
  unfolding handle_for
  handle_for-same h target key s t e = (ground arith, ground arith)

  -- A REMOVE that answers NFS3_OK has dropped the handle of the file on every connection, has removed
  -- the file by the call of Remove that then succeeded, at the first try or after another drop, has
  -- invalidated the handle and dropped it again: the state that it leaves is the one after this last
  -- drop, in which no connection has a file open under the handle, whatever other goroutines did
  -- before the calls.
  pub on_remove-IsDetached :
      (h : UserHandler b) (racing : Server b → Server b) (obj : DirOpArg) (s : Server b)
      (writable : Bool) (path : b.FilePath) {r : RemoveReply b} {t : Server b}
      → h.from_handle obj.handle (world_of b s) ≡ ok (writable, path)
      → on_remove b h racing (ok obj) s ≡ some (ok r, t)
      → let target = b.join_name path obj.filename in
        let (key, w) = h.to_handle target (world_of b s) in
        IsRemoved h racing target key (put_world b w s) t
  unfolding on_remove
  on_remove-IsDetached h racing obj s writable path {r} {t} f e =
      let target = b.join_name path obj.filename in
      let (_, s1, writes, e1) =
        >>=-eq-ok (require writable (nfs_error NfsStatus.rofs err_permission)) _ s (rw f at e) in
      let (_, s2, short, e2) =
        >>=-eq-ok
          (require (leb (length obj.filename) path_name_max) (nfs_plain NfsStatus.nametoolong)) _ s1
          e1 in
      let (info, s3, directory, e3) = >>=-eq-ok (stat_dir b path) _ s2 e2 in
      let (key, s4, known, e4) =
        >>=-eq-ok (handle_for b h target) (λ key. remove_handle b h racing path target info key) s3
          e3 in
      let still : s3 ≡ s =
        stat_dir-same path info s2 s3 directory
        ∙ require-same _ _ s1 s2 short
        ∙ require-same _ _ s s1 writes in
      let (named, minted) = handle_for-same h target key s3 s4 known in
      let same_key : key ≡ (h.to_handle target (world_of b s)).0 =
        named ∙ ap (λ (u : Server b). (h.to_handle target (world_of b u)).0) still in
      let same_state : s4 ≡ put_world b (h.to_handle target (world_of b s)).1 s =
        minted ∙ ap (λ (u : Server b). put_world b (h.to_handle target (world_of b u)).1 u) still in
      rw (← same_key, ← same_state)
        (remove_handle-IsDetached h racing path target key info s4 t r e4)
