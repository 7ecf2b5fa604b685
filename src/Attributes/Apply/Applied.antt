-- ===== src/Attributes/Apply/Applied.antt =====
-- file.go: what a successful Apply has changed, on a file system that does what it documents.
use go_nfs.Action.{>>=-eq-ok}
use go_nfs.Attributes.Apply.{apply}
use go_nfs.Attributes.Apply.{apply_to}
use go_nfs.Attributes.{FileAttribute}
use go_nfs.Attributes.Apply.{attributes}
use go_nfs.Attributes.Sattr.{SetFileAttributes}
use go_nfs.Backend.{Backend}
use go_nfs.Base.{◌%◌, ◌≡◌, refl, sym, ap, ◌∙◌, some}
use go_nfs.Changes.{Changer, Files}
use go_nfs.Errors.Chain.{ok}
use go_nfs.Handlers.Commit.{world_of}
use go_nfs.Server.{Server}
use go_nfs.Times.{ℤ}
use go_nfs.Attributes.Sattr.{mode}
use go_nfs.Attributes.Apply.{apply_mode, apply_owner, or_current, apply_size}
use go_nfs.Attributes.Apply.Documented.{Meta, IsDocumented}
use go_nfs.Attributes.Apply.Steps.{mode_ok, owner_ok, size_ok, times_ok, mode-masked}

-- The attributes after a successful Apply, given those before: what is set is as asked, and of the
-- rest the mode, the owner, the group and the size are as they were.
pub record IsApplied (set : SetFileAttributes) (before after : Meta) : Type 0 where
  pub perm : after.perm ≡ mode set before.perm
  pub owner : after.owner ≡ or_current set.set_uid before.owner
  pub group : after.group ≡ or_current set.set_gid before.group
  pub length : after.length ≡ or_current set.set_size before.length
  pub accessed : (t : ℤ) → set.set_atime ≡ some t → after.accessed ≡ t
  pub modified : (t : ℤ) → set.set_mtime ≡ some t → after.modified ≡ t

module _ (b : Backend) (fs : Files b) (c : Changer b) (meta : b.FilePath → b.World → Meta)
    (doc : IsDocumented b fs c meta) (file : b.FilePath) (curr : FileAttribute) where
  apply_to_ok :
      (set : SetFileAttributes) (s s' : Server b)
      → curr.file_mode % 512 ≡ (meta file (world_of b s)).perm
      → curr.uid ≡ (meta file (world_of b s)).owner
      → curr.gid ≡ (meta file (world_of b s)).group
      → apply_to b fs set (some c) file curr s ≡ some (ok tt, s')
      → IsApplied set (meta file (world_of b s)) (meta file (world_of b s'))
  unfolding apply_to
  apply_to_ok set s s' p u g h =
      let (_, s1, h1, k1) = >>=-eq-ok (apply_mode b fs set.set_mode (some c) file curr) _ s h in
      let (_, s2, h2, k2) =
        >>=-eq-ok (apply_owner b fs set.set_uid set.set_gid (some c) file curr) _ s1 k1 in
      let (_, s3, h3, k3) = >>=-eq-ok (apply_size b fs set.set_size file curr) _ s2 k2 in
      let e1 = mode_ok b fs c meta doc file curr set.set_mode s s1 p h1 in
      let e2 =
        owner_ok b fs c meta doc file curr set.set_uid set.set_gid s1 s2
          (u ∙ sym (ap (λ (m : Meta). m.owner) e1)) (g ∙ sym (ap (λ (m : Meta). m.group) e1)) h2 in
      let (x3, y3, e3) = size_ok b fs c meta doc file curr set.set_size s2 s3 h3 in
      let (x, y, e4, ha, hm) =
        times_ok b fs c meta doc file curr set.set_atime set.set_mtime s3 s' k3 in
      rw (e4, e3, e2, e1)
        (record {
          perm = sym (mode-masked set (meta file (world_of b s)).perm);
          owner = refl;
          group = refl;
          length = refl;
          accessed = ha;
          modified = hm;
        })

-- If Lstat answers and Apply succeeds with a billy.Change, on a file system that does what it
-- documents, then the file has the mode, the owner, the group, the size and the times that were set;
-- what was not set of the first four is as it was.
pub apply-IsApplied :
    (b : Backend) (fs : Files b) (c : Changer b) (meta : b.FilePath → b.World → Meta)
    → IsDocumented b fs c meta
    → (set : SetFileAttributes) (file : b.FilePath) (info : b.Info) (s s' : Server b)
    → b.lstat file (world_of b s) ≡ ok info
    → apply b fs set (some c) file s ≡ some (ok tt, s')
    → IsApplied set (meta file (world_of b s)) (meta file (world_of b s'))
unfolding apply
apply-IsApplied b fs c meta doc set file info s s' found h =
    let (p, u, g) = doc.lstat file (world_of b s) info found in
    apply_to_ok b fs c meta doc file (attributes b fs info file) set s s' p u g
      (rw (apply, found) at h)
