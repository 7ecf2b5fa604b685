-- ===== src/Attributes/Apply/Steps.antt =====
-- file.go: what each of the four parts of Apply has changed where it succeeds.

use go_nfs.Base.{arith}
use go_nfs.Attributes.{FileAttribute}
use go_nfs.Attributes.Apply.{change}
use go_nfs.Attributes.Sattr.{SetFileAttributes}
use go_nfs.Backend.{Backend}
use go_nfs.Base.{
  Bool-cases, Option-cases, ℕ, ◌-◌, ◌%◌, ◌^◌, ◌≡◌, refl, sym, ap, ◌∙◌, inl, inr, Option, none, some,
}
use go_nfs.Changes.{Changer, Files}
use go_nfs.Errors.Chain.{Error, ok}
use go_nfs.Handlers.Commit.{world_of}
use go_nfs.Server.{Server}
use go_nfs.Times.{ℤ}
use go_nfs.Base.{◌==◌, ◌&&◌, ltb, true, Bool-cases, inl, inr, if◌then◌else◌}
use go_nfs.Attributes.{has_bit}
use go_nfs.Errors.Chain.{Result, err, errors_is, is_err_permission, nfs_error}
use go_nfs.Errors.Codes.{NfsStatus}
use go_nfs.Times.{native}
use go_nfs.Handlers.Remove.{put_world}
use go_nfs.Action.{check}
use go_nfs.Attributes.Sattr.{mode}
use go_nfs.Attributes.Apply.{
  apply_mode, apply_owner, or_current, apply_size, apply_times, truncate_open,
}
use go_nfs.Attributes.Apply.Documented.{Meta, IsDocumented}

eqb_sound : (m n : ℕ) → (m == n) ≡ true → m ≡ n
eqb_sound m n h = ground arith

both_sound : (m n p q : ℕ) → ((m == n) && (p == q)) ≡ true → (m ≡ n) × (p ≡ q)
both_sound m n p q h = (ground arith, ground arith)

pair : {A : Type 0} {p : Option Error × A} → p.0 ≡ none → p ≡ (none, p.1)
pair e = rw e refl

check_ok :
    {b : Backend} (e : Option Error) (wrap : Error → Error) (s s' : Server b)
    → check e wrap s ≡ some (ok tt, s')
    → (e ≡ none) × (s ≡ s')
check_ok none wrap s s' h = (refl, cc h)
check_ok (some x) wrap s s' h = cc h

unfoldable pub masked : Option ℕ → ℕ → ℕ
masked none default = default
masked (some m) default = m % 512

pub mode-masked : (set : SetFileAttributes) (n : ℕ) → mode set n ≡ masked set.set_mode n
unfolding mode masked
mode-masked set n = elim (Option-cases set.set_mode) [ inl e ↦ rw e refl | inr (m, e) ↦ rw e refl ]

module _ (b : Backend) (fs : Files b) (c : Changer b) (meta : b.FilePath → b.World → Meta)
    (doc : IsDocumented b fs c meta) (file : b.FilePath) (curr : FileAttribute) where
  abbrev pub seen : Server b → Meta
  seen s = meta file (world_of b s)

  -- A call of the changer that succeeds has left the world that it returns.
  pub change_ok :
      (call : Changer b → b.World → Option Error × b.World) (wrap : Error → Error) (s s' : Server b)
      → change b fs (some c) call wrap s ≡ some (ok tt, s')
      → ((call c (world_of b s)).0 ≡ none) × ((call c (world_of b s)).1 ≡ world_of b s')
  unfolding change
  change_ok call wrap s s' h =
      let (e, w) = check_ok (call c (world_of b s)).0 _ _ s' h in (e, ap (world_of b) w)

  abbrev finished : Server b → Option (Result (Unit {0}) × Server b)
  finished s = some (ok tt, s)

  pub kept : (s s' : Server b) → finished s ≡ finished s' → seen s' ≡ seen s
  kept s s' h = let same : s' ≡ s = cc h in ap seen same

  pub mode_ok :
      (m : Option ℕ) (s s' : Server b)
      → curr.file_mode % 512 ≡ (seen s).perm
      → apply_mode b fs m (some c) file curr s ≡ some (ok tt, s')
      → seen s' ≡ record (seen s) { perm = masked m (seen s).perm }
  unfolding apply_mode masked
  mode_ok none s s' same h = kept s s' h
  mode_ok (some m) s s' same h = elim (Bool-cases (m % 512 == curr.file_mode % 512)) [
    | inl t ↦ kept s s' (rw t at h) ∙ rw (eqb_sound _ _ t, same) refl
    | inr f ↦
        let (done, w) = change_ok _ _ s s' (rw f at h) in
        ap (meta file) (sym w) ∙ doc.chmod file (m % 512) (world_of b s) (omega arith) done
  ]

  pub owner_ok :
      (u g : Option ℕ) (s s' : Server b)
      → curr.uid ≡ (seen s).owner
      → curr.gid ≡ (seen s).group
      → apply_owner b fs u g (some c) file curr s ≡ some (ok tt, s')
      → seen s' ≡ record (seen s) {
        owner = or_current u (seen s).owner;
        group = or_current g (seen s).group;
      }
  unfolding apply_owner
  owner_ok u g s s' same_u same_g h =
      elim (Bool-cases
        ((or_current u curr.uid == curr.uid) && (or_current g curr.gid == curr.gid))) [
          | inl t ↦
              let (eu, eg) =
                both_sound (or_current u curr.uid) curr.uid (or_current g curr.gid) curr.gid t in
              kept s s' (rw t at h) ∙ rw (rw same_u at eu, rw same_g at eg) refl
          | inr f ↦
              let (done, w) = change_ok _ _ s s' (rw f at h) in
              ap (meta file) (sym w)
              ∙ doc.lchown file (or_current u curr.uid) (or_current g curr.gid) (world_of b s) done
              ∙ rw (same_u, same_g) refl
        ]

  pub trunc_ok :
      (n fp : ℕ) (s s' : Server b)
      → truncate_open b fs n fp s ≡ some (ok tt, s')
      → ((fs.truncate fp n (world_of b s)).0 ≡ none)
        × ((b.close fp (fs.truncate fp n (world_of b s)).1).0 ≡ none)
        × ((b.close fp (fs.truncate fp n (world_of b s)).1).1 ≡ world_of b s')
  unfolding truncate_open
  trunc_ok n fp s s' h = elim (Bool-cases (ltb (2 ^ 63 - 1) n)) [
    | inl t ↦ cc (rw t at h)
    | inr f ↦ elim (Option-cases (fs.truncate fp n (world_of b s)).0) [
      | inr (x, e) ↦ cc (rw (f, e) at h)
      | inl e ↦
          let (done, w) =
            check_ok (b.close fp (fs.truncate fp n (world_of b s)).1).0 _ _ s' (rw (f, e) at h) in
          (e, done, ap (world_of b) w)
    ]
  ]

  pub size_ok :
      (size : Option ℕ) (s s' : Server b)
      → apply_size b fs size file curr s ≡ some (ok tt, s')
      → (a m : ℤ) × (seen s' ≡ record (seen s) {
        length = or_current size (seen s).length;
        accessed = a;
        modified = m;
      })
  unfolding apply_size
  size_ok none s s' h = ((seen s).accessed, (seen s).modified, kept s s' h)
  size_ok (some n) s s' h = elim (Bool-cases (has_bit 27 curr.file_mode)) [
    | inl t ↦ cc (rw t at h)
    | inr f ↦ go (fs.open_wo file (world_of b s)) refl (rw f at h)
  ]
    where
      go :
          (o : Result ℕ × b.World)
          → fs.open_wo file (world_of b s) ≡ o
          → (elim o.0 as (λ _. Option (Result (Unit {0}) × Server b)) [
            | err e ↦ some (
              err (if errors_is is_err_permission e then nfs_error NfsStatus.access e else e),
              put_world b o.1 s,
            )
            | ok fp ↦ truncate_open b fs n fp (put_world b o.1 s)
          ])
            ≡ some (ok tt, s')
          → (a m : ℤ) × (seen s' ≡ record (seen s) { length = n; accessed = a; modified = m })
      go (err e, w) opened k = cc k
      go (ok fp, w) opened k =
          let (cut, closed, left) = trunc_ok n fp (put_world b w s) s' k in
          let (a, m, e) =
            doc.resize file fp n (world_of b s) w (fs.truncate fp n w).1
              (b.close fp (fs.truncate fp n w).1).1 opened (pair cut) (pair closed) in
          (a, m, ap (meta file) (sym left) ∙ e)

  pub times_ok :
      (a m : Option ℤ) (s s' : Server b)
      → apply_times b fs a m (some c) file curr s ≡ some (ok tt, s')
      → (x y : ℤ) × (seen s' ≡ record (seen s) { accessed = x; modified = y })
        × ((t : ℤ) → a ≡ some t → x ≡ t)
        × ((t : ℤ) → m ≡ some t → y ≡ t)
  unfolding apply_times
  times_ok none none s s' h =
      ((seen s).accessed, (seen s).modified, kept s s' h, λ t e. cc e, λ t e. cc e)
  times_ok none (some m) s s' h =
      let (done, w) = change_ok _ _ s s' h in
      (
        native curr.atime,
        m,
        ap (meta file) (sym w) ∙ doc.chtimes file (native curr.atime) m (world_of b s) done,
        λ t e. cc e,
        λ t e. cc e,
      )
  times_ok (some a) m s s' h =
      let (done, w) = change_ok _ _ s s' h in
      (
        a,
        or_current m (native curr.mtime),
        ap (meta file) (sym w)
            ∙ doc.chtimes file a (or_current m (native curr.mtime)) (world_of b s) done,
        λ t e. cc e,
        λ t e. rw e refl,
      )
