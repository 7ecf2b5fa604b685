-- ===== src/Handlers/Make/Symlink/Fresh.antt =====
-- nfs_onsymlink.go: what a SYMLINK that answers NFS3_OK has done.
use go_nfs.Action.{◌>>◌}
use go_nfs.Action.{>>=-eq-ok, pure, require}
use go_nfs.Handlers.Remove.Removed.{check-ok, require-same, handle_for-same}
use go_nfs.Action.{check-same}
use go_nfs.Base.{ap}
use go_nfs.Handlers.Make.{apply_if, reply_new, check_parent}
use go_nfs.Handlers.Remove.{handle_for}
use go_nfs.Base.{◌∙◌, leb, length, refl}
use go_nfs.Handlers.Remove.{path_name_max, put_world}
use go_nfs.Errors.Chain.{err_permission, err_invalid, nfs_error}
use go_nfs.Errors.Codes.{NfsStatus}
use go_nfs.Errors.Chain.{Result, err}
use go_nfs.Action.{UserHandler}
use go_nfs.Attributes.Sattr.{SetFileAttributes}
use go_nfs.Backend.{Backend}
use go_nfs.Base.{ℕ, ◌≡◌, Bool, Option, none, some, List, arith}
use go_nfs.Changes.{Changer, Files, Names}
use go_nfs.Errors.Chain.{Error, ok}
use go_nfs.Handlers.Commit.{world_of}
use go_nfs.Handlers.Create.{CreateReply}
use go_nfs.Handlers.Make.{open_parent, check_new, make}
use go_nfs.Handlers.Make.Symlink.{on_symlink}
use go_nfs.Handlers.Remove.{DirOpArg}
use go_nfs.Server.{Server}
use go_nfs.WriteCache.Calls.{call}

module _ (b : Backend) where
  open_parent-same :
      (h : UserHandler b) (obj : DirOpArg) (writable : Bool) (path p : b.FilePath) (s t : Server b)
      → h.from_handle obj.handle (world_of b s) ≡ ok (writable, path)
      → open_parent b h obj s ≡ some (ok p, t)
      → (path ≡ p) × (t ≡ s)
  unfolding open_parent
  open_parent-same h obj writable path p s t f e =
      let checked = rw (open_parent, f) at e in
      let (_, s1, writes, e1) =
        >>=-eq-ok (require writable (nfs_error NfsStatus.rofs err_permission)) _ s checked in
      let (_, s2, short, e2) =
        >>=-eq-ok
          (require (leb (length obj.filename) path_name_max)
            (nfs_error NfsStatus.nametoolong err_invalid))
          (λ _. pure path) s1 e1 in
      let unchanged = require-same b _ _ s1 s2 short ∙ require-same b _ _ s s1 writes in
      given path p s2 t e2 unchanged
    where
      given :
          (q p : b.FilePath) (u t : Server b)
          → ◌≡◌ {A = Option (Result b.FilePath × Server b)} (some (ok q, u)) (some (ok p, t))
          → u ≡ s
          → (q ≡ p) × (t ≡ s)
      given q p u t g same = (ground arith, ground arith)

  check_new-free :
      (target path : b.FilePath) (info : b.Info) (s t : Server b)
      → check_new b target path s ≡ some (ok info, t)
      → ((x : Error) × (b.stat target (world_of b s) ≡ err x)) × (t ≡ s)
  unfolding check_new check_parent
  check_new-free target path info s t e = go (b.stat target (world_of b s)) refl
    where
      go :
          (o : Result b.Info)
          → b.stat target (world_of b s) ≡ o
          → ((x : Error) × (b.stat target (world_of b s) ≡ err x)) × (t ≡ s)
      go (ok i) f = absurd (cc (rw (check_new, f) at e))
      go (err x) f = let parent = rw (check_new, f) at e in ((x, f), ground (arith, parent))

  make-ok :
      (call : b.World → Option Error × b.World) (s t : Server b)
      → make b call s ≡ some (ok tt, t)
      → ((call (world_of b s)).0 ≡ none) × (t ≡ put_world b (call (world_of b s)).1 s)
  unfolding make
  make-ok call s t e =
      let (x, w) = call (world_of b s) in
      (
        check-ok b x (nfs_error NfsStatus.access) (put_world b w s) t e,
        check-same x (nfs_error NfsStatus.access) (put_world b w s) t e,
      )

  reply_new-same :
      (key : ℕ) (name path : b.FilePath) (s : Server b) (r : CreateReply b) (t : Server b)
      → reply_new b key name path s ≡ some (ok r, t)
      → (r.handle ≡ key) × (s ≡ t)
  unfolding reply_new
  reply_new-same key name path s r t e = (ground arith, ground arith)

  -- How a SYMLINK of that name went from `s` to `t`: Stat did not find the name, and in the same state
  -- the call of Symlink made the link; the handle is the one that the name then got, and Apply, where
  -- there is a billy.Change, ran after that.
  pub record IsLinked (fs : Files b) (n : Names b) (h : UserHandler b)
      (changer : Option (Changer b)) (set : SetFileAttributes) (text : List ℕ) (name : b.FilePath)
      (key : ℕ) (s t : Server b) : Type 0 where
    pub missing : Error
    pub unseen : b.stat name (world_of b s) ≡ err missing
    pub linked : (n.symlink text name (world_of b s)).0 ≡ none
    pub named : key ≡ (h.to_handle name (n.symlink text name (world_of b s)).1).0
    pub applied :
        apply_if b fs set changer name
          (put_world b (h.to_handle name (n.symlink text name (world_of b s)).1).1 s)
        ≡ some (ok tt, t)

  -- A SYMLINK that answers NFS3_OK was of a name that Stat did not find, has made the link by its one
  -- call of Symlink, in the state in which it began, and answers the handle that the name got then; the
  -- state of the reply is the one that Apply left, or the one before it without a billy.Change.
  pub on_symlink-IsNew :
      (fs : Files b) (n : Names b) (h : UserHandler b) (changer : Option (Changer b))
      (obj : DirOpArg) (set : SetFileAttributes) (text : List ℕ) (writable : Bool)
      (path : b.FilePath) (s : Server b) {r : CreateReply b} {t : Server b}
      → h.from_handle obj.handle (world_of b s) ≡ ok (writable, path)
      → on_symlink b fs n h changer (record { object = ok obj; sattr = ok set; target = ok text }) s
        ≡ some (ok r, t)
      → IsLinked fs n h changer set text (b.join_name path obj.filename) r.handle s t
  unfolding on_symlink
  on_symlink-IsNew fs n h changer obj set text writable path s {r} {t} f e =
      let (p, s1, opened, e1) = >>=-eq-ok (open_parent b h obj) _ s e in
      let (at_path, still) = open_parent-same h obj writable path p s s1 f opened in
      let name = b.join_name p obj.filename in
      let (info, s2, free, e2) = >>=-eq-ok (check_new b name p) _ s1 e1 in
      let (_, s3, made, e3) = >>=-eq-ok (make b (n.symlink text name)) _ s2 e2 in
      let (key, s4, minted, e4) =
        >>=-eq-ok (handle_for b h name)
          (λ k. apply_if b fs set changer name >> reply_new b k name p) s3 e3 in
      let (_, s5, applied, e5) =
        >>=-eq-ok (apply_if b fs set changer name) (λ _. reply_new b key name p) s4 e4 in
      rw at_path (finished p info s1 s2 s3 s4 s5 key still free made minted applied e5)
    where
      finished :
          (p : b.FilePath) (info : b.Info) (s1 s2 s3 s4 s5 : Server b) (key : ℕ)
          → s1 ≡ s
          → check_new b (b.join_name p obj.filename) p s1 ≡ some (ok info, s2)
          → make b (n.symlink text (b.join_name p obj.filename)) s2 ≡ some (ok tt, s3)
          → handle_for b h (b.join_name p obj.filename) s3 ≡ some (ok key, s4)
          → apply_if b fs set changer (b.join_name p obj.filename) s4 ≡ some (ok tt, s5)
          → reply_new b key (b.join_name p obj.filename) p s5 ≡ some (ok r, t)
          → IsLinked fs n h changer set text (b.join_name p obj.filename) r.handle s t
      finished p info s1 s2 s3 s4 s5 key still free made minted applied end =
          let name = b.join_name p obj.filename in
          let ((x, absent), checked) = check_new-free name p info s1 s2 free in
          let begun : s2 ≡ s = checked ∙ still in
          let (fine, linked) = make-ok (n.symlink text name) s2 s3 made in
          let (named, given) = handle_for-same b h name key s3 s4 minted in
          let (answer, same) = reply_new-same key name p s5 r t end in
          let link : s3 ≡ put_world b (n.symlink text name (world_of b s)).1 s =
            linked
            ∙ ap (λ (u : Server b). put_world b (n.symlink text name (world_of b u)).1 u) begun in
          let after : s4
              ≡ put_world b (h.to_handle name (n.symlink text name (world_of b s)).1).1 s =
            given ∙ ap (λ (u : Server b). put_world b (h.to_handle name (world_of b u)).1 u) link in
          record {
            missing = x;
            unseen = rw (← still) absent;
            linked = rw (← begun) fine;
            named =
                answer ∙ named ∙ ap (λ (u : Server b). (h.to_handle name (world_of b u)).0) link;
            applied = rw (← after, ← same) applied;
          }
