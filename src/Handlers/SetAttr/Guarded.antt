-- ===== src/Handlers/SetAttr/Guarded.antt =====
-- nfs_onsetattr.go: what a SETATTR that answers NFS3_OK has done, and what its guard is for.
use go_nfs.Errors.Chain.{nfs_plain}
use go_nfs.Action.{or_raise-same}
use go_nfs.Handlers.Remove.Removed.{require-same}
use go_nfs.Errors.Chain.{err_permission}
use go_nfs.Handlers.SetAttr.{NfsStatus}
use go_nfs.Errors.Chain.{nfs_error}
use go_nfs.Action.{require}
use go_nfs.Handlers.SetAttr.{check_guard}
use go_nfs.Handlers.SetAttr.{lstat_error}
use go_nfs.Action.{◌>>◌}
use go_nfs.Handlers.Remove.Removed.{require-same}
use go_nfs.Action.{>>=-err}
use go_nfs.Base.{◌==◌, suc, Bool-cases, inl, inr, false, refl}
use go_nfs.Times.{FileTime}
use go_nfs.Handlers.SetAttr.{same_time}
use go_nfs.Errors.Chain.{err}
use go_nfs.Attributes.Apply.{attributes}
use go_nfs.Action.{or_raise, result-same}
use go_nfs.Base.{Option}
use go_nfs.Errors.Chain.{Result}
use go_nfs.Handlers.Commit.{try_stat}
use go_nfs.Base.{arith, ◌∙◌}
use go_nfs.Action.{UserHandler, >>=-eq-ok}
use go_nfs.Attributes.Apply.{apply}
use go_nfs.Attributes.Apply.Applied.{IsApplied, apply-IsApplied}
use go_nfs.Attributes.Apply.Documented.{Meta, IsDocumented}
use go_nfs.Attributes.Sattr.{SetFileAttributes}
use go_nfs.Backend.{Backend}
use go_nfs.Base.{ℕ, ◌≡◌, Bool, some}
use go_nfs.Changes.{Changer, Files}
use go_nfs.Errors.Chain.{ok}
use go_nfs.Handlers.Commit.{world_of}
use go_nfs.Handlers.Remove.{drop_all}
use go_nfs.Handlers.Remove.Removed.{drop_all-IsDetached, drop_all-same}
use go_nfs.Handlers.SetAttr.{SetAttrReply, SetAttrArgs, apply_dropped, on_set_attr}
use go_nfs.Server.{Server, drop_handle_all}
use go_nfs.Server.Drop.{IsDetached}

module _ (b : Backend) (fs : Files b) (c : Changer b) (meta : b.FilePath → b.World → Meta)
    (doc : IsDocumented b fs c meta) (h : UserHandler b) (racing : Server b → Server b) where
  apply_dropped-IsApplied :
      (set : SetFileAttributes) (path : b.FilePath) (info : b.Info) (key : ℕ) (s t : Server b)
      → b.lstat path (world_of b (drop_handle_all b key s)) ≡ ok info
      → apply_dropped b fs racing set (some c) path key s ≡ some (ok tt, t)
      → (u : Server b) × IsApplied set
          (meta path (world_of b (drop_handle_all b key s)))
          (meta path (world_of b u))
        × (apply b fs set (some c) path (drop_handle_all b key s) ≡ some (ok tt, u))
        × (t ≡ drop_handle_all b key (racing u))
        × IsDetached b key t
  unfolding apply_dropped
  apply_dropped-IsApplied set path info key s t there e =
      let (_, s1, dropped, e1) =
        >>=-eq-ok (drop_all b key)
          (λ _. apply b fs set (some c) path >> λ u. drop_all b key (racing u)) s e in
      let (_, s2, applied, e2) =
        >>=-eq-ok (apply b fs set (some c) path) (λ _ u. drop_all b key (racing u)) s1 e1 in
      let same : drop_handle_all b key s ≡ s1 = unfold drop_all in ground arith in
      (
        s2,
        apply-IsApplied b fs c meta doc set path info (drop_handle_all b key s) s2 there
            (rw same applied),
        rw same applied,
        drop_all-same b key (racing s2) t e2,
        drop_all-IsDetached b key (racing s2) t e2,
      )

  check_guard-same :
      (arg : SetAttrArgs) (info : b.Info) (path : b.FilePath) (s t : Server b)
      → check_guard b fs arg info path s ≡ some (ok tt, t)
      → t ≡ s
  unfolding check_guard
  check_guard-same arg info path s t e = ground arith

  -- On a file system that does what it documents, and where the handler gives a billy.Change, a
  -- SETATTR that answers NFS3_OK has set what it was asked to on the file as the first drop of the
  -- handle left it, if Lstat still finds the file then: Apply ran in that state, and the state of the
  -- reply is the one that Apply left, after other goroutines ran and the handle was dropped again, so
  -- that no connection has a file open under it.
  pub on_set_attr-IsApplied :
      (arg : SetAttrArgs) (key : ℕ) (set : SetFileAttributes) (writable : Bool) (path : b.FilePath)
      (info : b.Info) (s : Server b) {r : SetAttrReply b} {t : Server b}
      → arg.object ≡ ok key
      → arg.attrs ≡ ok set
      → h.from_handle key (world_of b s) ≡ ok (writable, path)
      → b.lstat path (world_of b (drop_handle_all b key s)) ≡ ok info
      → on_set_attr b fs h racing (some c) arg s ≡ some (ok r, t)
      → (u : Server b) × IsApplied set
          (meta path (world_of b (drop_handle_all b key s)))
          (meta path (world_of b u))
        × (apply b fs set (some c) path (drop_handle_all b key s) ≡ some (ok tt, u))
        × (t ≡ drop_handle_all b key (racing u))
        × IsDetached b key t
  unfolding on_set_attr
  on_set_attr-IsApplied arg key set writable path info s {r} {t} obj sat found there e =
      let (now, s1, seen, e1) =
        >>=-eq-ok (or_raise (b.lstat path (world_of b s)) lstat_error) _ s
          (rw (obj, found, sat) at e) in
      let (_, s2, guarded, e2) = >>=-eq-ok (check_guard b fs arg now path) _ s1 e1 in
      let (_, s3, writes, e3) =
        >>=-eq-ok (require writable (nfs_error NfsStatus.rofs err_permission)) _ s2 e2 in
      let (_, s4, done, e4) = >>=-eq-ok (apply_dropped b fs racing set (some c) path key) _ s3 e3 in
      finished (or_raise-same _ _ now s s1 seen).1 (check_guard-same arg now path s1 s2 guarded)
        (require-same b _ _ s2 s3 writes) done e4
    where
      finished :
          {now : b.Info} {s1 s2 s3 s4 : Server b}
          → s1 ≡ s
          → s2 ≡ s1
          → s3 ≡ s2
          → apply_dropped b fs racing set (some c) path key s3 ≡ some (ok tt, s4)
          → ◌≡◌ {A = Option (Result (SetAttrReply b) × Server b)}
              (some (ok (record { pre = now; post = try_stat b path (world_of b s4) }), s4))
              (some (ok r, t))
          → (u : Server b) × IsApplied set
              (meta path (world_of b (drop_handle_all b key s)))
              (meta path (world_of b u))
            × (apply b fs set (some c) path (drop_handle_all b key s) ≡ some (ok tt, u))
            × (t ≡ drop_handle_all b key (racing u))
            × IsDetached b key t
      finished {now} {s1} {s2} {s3} {s4} p q o done end =
          let still : s3 ≡ s = o ∙ q ∙ p in
          let same : s4 ≡ t = result-same _ r s4 t end in
          apply_dropped-IsApplied set path info key s t there (rw (← still) (rw same at done))

time-eq : (t u : FileTime) → t.seconds ≡ u.seconds → t.nseconds ≡ u.nseconds → t ≡ u
time-eq t u p q = cc

same_time-false : (t u : FileTime) → ¬ (t ≡ u) → same_time t u ≡ false
same_time-false t u ne = elim (Bool-cases (same_time t u)) [
  | inl same ↦ absurd (ne (time-eq t u (ground arith) (ground arith)))
  | inr unequal ↦ unequal
]

-- the request with that guard
abbrev pub guarded : ℕ → SetFileAttributes → ℕ → FileTime → SetAttrArgs
guarded key set g time = record {
  object = ok key;
  attrs = ok set;
  guard = ok g;
  guard_time = ok time;
}

check_guard-refuses :
    (b : Backend) (fs : Files b) (key g : ℕ) (set : SetFileAttributes) (path : b.FilePath)
    (info : b.Info) (time : FileTime) (s : Server b)
    → ¬ (time ≡ (attributes b fs info path).ctime)
    → check_guard b fs (guarded key set (suc g) time) info path s
      ≡ some (err (nfs_plain NfsStatus.notsync), s)
unfolding check_guard
check_guard-refuses b fs key g set path info time s differs =
    rw (nonzero g, same_time-false time (attributes b fs info path).ctime differs) refl
  where
    nonzero : (n : ℕ) → (suc n == 0) ≡ false
    nonzero n = ground arith

-- A SETATTR whose guard is not the time of change that Lstat gives of the file is refused with
-- NFS3ERR_NOT_SYNC, before any handle is closed and any attribute is changed.
pub on_set_attr-guarded :
    (b : Backend) (fs : Files b) (h : UserHandler b) (racing : Server b → Server b)
    (changer : Option (Changer b)) (key g : ℕ) (set : SetFileAttributes) (writable : Bool)
    (path : b.FilePath) (info : b.Info) (time : FileTime) (s : Server b)
    → h.from_handle key (world_of b s) ≡ ok (writable, path)
    → b.lstat path (world_of b s) ≡ ok info
    → ¬ (time ≡ (attributes b fs info path).ctime)
    → on_set_attr b fs h racing changer (guarded key set (suc g) time) s
      ≡ some (err (nfs_plain NfsStatus.notsync), s)
unfolding on_set_attr
on_set_attr-guarded b fs h racing changer key g set writable path info time s f l differs =
    rw (f, l)
      (>>=-err (check_guard b fs (guarded key set (suc g) time) info path) _ s
        (nfs_plain NfsStatus.notsync) s
        (check_guard-refuses b fs key g set path info time s differs))
