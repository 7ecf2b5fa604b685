-- ===== src/Handlers/Create/Created.antt =====
-- nfs_oncreate.go: what a CREATE that answers NFS3_OK has done, and what a guarded one refuses.
use go_nfs.Handlers.Create.Steps.{Overwrote, MadeNew, made_by, apply_created-applied}
use go_nfs.Handlers.Remove.Removed.{require-same}
use go_nfs.Server.{drop_handle_all}
use go_nfs.Base.{not, ltb, refl}
use go_nfs.Errors.Chain.{Error}
use go_nfs.Base.{List}
use go_nfs.Action.{or_raise-same}
use go_nfs.Base.{◌⊎◌}
use go_nfs.Base.{if◌then◌else◌}
use go_nfs.Server.Drop.{IsDetached}
use go_nfs.Handlers.Commit.{world_of}
use go_nfs.Handlers.Create.{create_dropped, apply_created}
use go_nfs.Handlers.Commit.{try_stat}
use go_nfs.Base.{Bool, ◌∙◌, leb, length}
use go_nfs.Action.{or_raise, require, result-same}
use go_nfs.Handlers.Remove.{path_name_max}
use go_nfs.Handlers.Create.{CreateReply, read_how, check_target}
use go_nfs.Action.{>>=-eq-ok}
use go_nfs.Attributes.Apply.{apply}
use go_nfs.Action.{UserHandler}
use go_nfs.Attributes.Sattr.{SetFileAttributes}
use go_nfs.Backend.{Backend}
use go_nfs.Base.{length, if◌then◌else◌, ℕ, ◌≡◌, Option, some, arith}
use go_nfs.Changes.{Changer, Files, Names}
use go_nfs.Errors.Chain.{Result, ok, err, err_permission, nfs_error, nfs_plain}
use go_nfs.Errors.Codes.{NfsStatus}
use go_nfs.Handlers.Commit.{world_of}
use go_nfs.Handlers.Create.{create_mode_guarded, CreateArgs, read_how, check_target, on_create}
use go_nfs.Handlers.Remove.{DirOpArg, path_name_max}
use go_nfs.Server.{Server}

-- the error of a guarded CREATE of a name that Stat finds, in the order of the checks
abbrev pub refusal : (b : Backend) → Result SetFileAttributes → Bool → List ℕ → b.Info → Error
refusal b (err e) writable name info = nfs_error NfsStatus.inval e
refusal b (ok set) writable name info =
    if not writable
    then nfs_error NfsStatus.rofs err_permission
    else if ltb path_name_max (length name)
    then nfs_plain NfsStatus.nametoolong
    else if b.is_dir info
    then nfs_plain NfsStatus.exist
    else nfs_error NfsStatus.exist err_permission

-- A guarded CREATE of a name that Stat finds, in a directory that FromHandle, which is taken as a
-- read, resolves, leaves the state as it was, so that it creates and truncates nothing and closes no
-- handle, and answers an error: NFS3ERR_INVAL where the attributes of the request cannot be read, else
-- NFS3ERR_ROFS where the file system cannot be written, else NFS3ERR_NAMETOOLONG for a name of more
-- than 255 bytes, and else NFS3ERR_EXIST.
pub on_create-guarded :
    (b : Backend) (n : Names b) (fs : Files b) (h : UserHandler b) (racing : Server b → Server b)
    (changer : Option (Changer b)) (arg : CreateArgs) (obj : DirOpArg) (writable : Bool)
    (path : b.FilePath) (info : b.Info) (s : Server b)
    → arg.object ≡ ok obj
    → arg.how ≡ ok create_mode_guarded
    → h.from_handle obj.handle (world_of b s) ≡ ok (writable, path)
    → b.stat (b.join_name path obj.filename) (world_of b s) ≡ ok info
    → on_create b n fs h racing changer arg s
      ≡ some (err (refusal b arg.sattr writable obj.filename info), s)
unfolding on_create check_target read_how
on_create-guarded b n fs h racing changer arg obj writable path info s o m f there =
    go arg.sattr refl
  where
    go :
        (a : Result SetFileAttributes)
        → arg.sattr ≡ a
        → on_create b n fs h racing changer arg s
          ≡ some (err (refusal b arg.sattr writable obj.filename info), s)
    go (err e) a = rw (on_create, read_how, o, m, a) refl
    go (ok set) a = rw (on_create, read_how, check_target, o, m, a, f) (ground (arith, there))

-- in the modes unchecked and guarded, the attributes of the request
read_how-set :
    (b : Backend) (how : ℕ) (arg : CreateArgs) (set : SetFileAttributes) (s t : Server b)
    → read_how b how arg s ≡ some (ok set, t)
    → (arg.sattr ≡ ok set) × (t ≡ s)
unfolding read_how
read_how-set b how arg set s t e = ground arith

-- What a CREATE that answers NFS3_OK has done, from the server `s` to the server `t`.
pub record IsCreated (b : Backend) (n : Names b) (fs : Files b) (h : UserHandler b)
    (racing : Server b → Server b) (changer : Option (Changer b)) (arg : CreateArgs)
    (target : b.FilePath) (key : ℕ) (s t : Server b) : Type 0 where
  pub set : SetFileAttributes
  pub asked : arg.sattr ≡ ok set
  pub after : Server b
  pub made : Overwrote b n racing target h key s after ⊎ MadeNew b n racing target h key s after
  pub applied_state : Server b
  pub applied : apply b fs set changer target after ≡ some (ok tt, applied_state)
  pub dropped_last : t ≡ drop_handle_all b key (racing applied_state)
  pub detached : IsDetached b key t

-- A CREATE that answers NFS3_OK went step by step from the server at its start: if Stat found the
-- name, ToHandle gave the handle of the path, which was dropped on every connection, and a Create of
-- the path, the first one or the one after the handle was dropped again, answered without an error in
-- the state in which it ran, and so did the Close; then the handle was dropped once more. If Stat
-- failed, a Create and a Close answered without an error, and then ToHandle gave the handle of the
-- path. In the state that this left, Apply answered without an error for the attributes of the
-- request, and the state of the reply is the one after that, the other goroutines and one more drop of
-- the handle of the reply, so that no connection has a file open under it.
pub on_create-IsMade :
    (b : Backend) (n : Names b) (fs : Files b) (h : UserHandler b) (racing : Server b → Server b)
    (changer : Option (Changer b)) (arg : CreateArgs) (obj : DirOpArg) (writable : Bool)
    (path : b.FilePath) (s : Server b) {r : CreateReply b} {t : Server b}
    → arg.object ≡ ok obj
    → h.from_handle obj.handle (world_of b s) ≡ ok (writable, path)
    → on_create b n fs h racing changer arg s ≡ some (ok r, t)
    → IsCreated b n fs h racing changer arg (b.join_name path obj.filename) r.handle s t
unfolding on_create
on_create-IsMade b n fs h racing changer arg obj writable path s {r} {t} o f e =
    let target = b.join_name path obj.filename in
    let (how, s1, known, e1) =
      >>=-eq-ok (or_raise arg.how (nfs_error NfsStatus.inval)) _ s (rw (o, f) at e) in
    let (set, s2, sets, e2) = >>=-eq-ok (read_how b how arg) _ s1 e1 in
    let (_, s3, writes, e3) =
      >>=-eq-ok (require writable (nfs_error NfsStatus.rofs err_permission)) _ s2 e2 in
    let (_, s4, short, e4) =
      >>=-eq-ok
        (require (leb (length obj.filename) path_name_max) (nfs_plain NfsStatus.nametoolong)) _ s3
        e3 in
    let (existed, s5, seen, e5) = >>=-eq-ok (check_target b how target path) _ s4 e4 in
    let (made, s6, created, e6) = >>=-eq-ok (create_dropped b n h racing target existed) _ s5 e5 in
    let (_, s7, applied, e7) =
      >>=-eq-ok (apply_created b n fs racing set changer target made.0) _ s6 e6 in
    let (asked, still_set) = read_how-set b how arg set s1 s2 sets in
    let still : s4 ≡ s =
      require-same b _ _ s3 s4 short
      ∙ require-same b _ _ s2 s3 writes
      ∙ still_set
      ∙ (or_raise-same _ _ how s s1 known).1 in
    finished {x = try_stat b (n.file_name made.1) (world_of b s7)}
      {y = try_stat b path (world_of b s7)} set made.0 s6 s7 asked
      (made_by b n racing target h how path existed made.0 made.1 s s4 s5 s6 still seen created)
      applied e7
  where
    finished :
        {x y : Option b.Info} (set : SetFileAttributes) (key : ℕ) (s6 s7 : Server b)
        → arg.sattr ≡ ok set
        → Overwrote b n racing (b.join_name path obj.filename) h key s s6
          ⊎ MadeNew b n racing (b.join_name path obj.filename) h key s s6
        → apply_created b n fs racing set changer (b.join_name path obj.filename) key s6
          ≡ some (ok tt, s7)
        → ◌≡◌ {A = Option (Result (CreateReply b) × Server b)}
            (some (ok (record { handle = key; attrs = x; dir_attrs = y }), s7))
            (some (ok r, t))
        → IsCreated b n fs h racing changer arg (b.join_name path obj.filename) r.handle s t
    finished set key s6 s7 asked made applied end =
        let same : s7 ≡ t = result-same _ r s7 t end in
        let named : key ≡ r.handle = ground arith in
        let (z, ran, last, shut) =
          apply_created-applied b n racing (b.join_name path obj.filename) fs set changer key s6 s7
            applied in
        rw (← same, ← named)
          (record {
            set = set;
            asked = asked;
            after = s6;
            made = made;
            applied_state = z;
            applied = ran;
            dropped_last = last;
            detached = shut;
          })
