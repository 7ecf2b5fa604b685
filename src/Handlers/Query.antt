-- ===== src/Handlers/Query.antt =====
-- nfs_ongetattr.go and nfs_onaccess.go: GETATTR and ACCESS, which only read.
use go_nfs.Action.{◌>>=◌, UserHandler, Action, pure, or_raise}
use go_nfs.Backend.{Backend}
use go_nfs.Base.{
  if◌then◌else◌, ℕ, ◌+◌, ◌*◌, ◌/◌, ◌%◌, ◌^◌, ◌≡◌, refl, Bool, true, false, Option, some, arith,
}
use go_nfs.Errors.Chain.{Result, os_is_not_exist, ok, err, nfs_error}
use go_nfs.Errors.Codes.{NfsStatus}
use go_nfs.Handlers.Commit.{try_stat, world_of}
use go_nfs.Server.{Server}

-- the bits of a mask that are READ, LOOKUP or EXECUTE: mask & (1 | 2 | 0x20)
unfoldable pub without_writes : ℕ → ℕ
without_writes mask = mask % 4 + mask / 32 % 2 * 32

-- what follows NFS3_OK in the reply of ACCESS
pub record AccessReply (b : Backend) : Type 0 where
  pub attrs : Option b.Info
  pub mask : ℕ

module _ (b : Backend) where
  unfoldable pub lstat_file : b.FilePath → Action b b.Info
  lstat_file path s = elim (b.lstat path (world_of b s)) [
    | ok info ↦ some (ok info, s)
    | err e ↦
        if os_is_not_exist e
        then some (err (nfs_error NfsStatus.noent e), s)
        else some (err (nfs_error NfsStatus.io e), s)
  ]

  -- onGetAttr; `arg` is what xdr.ReadOpaque makes of the request
  unfoldable pub on_get_attr : UserHandler b → Result ℕ → Action b b.Info
  unfolding lstat_file
  on_get_attr h arg s =
      (do
        key ← or_raise arg (nfs_error NfsStatus.inval)
        (writable, path) ← or_raise (h.from_handle key (world_of b s)) (nfs_error NfsStatus.stale)
        lstat_file path)
        s

  unfoldable pub granted : Bool → ℕ → ℕ
  unfolding without_writes
  granted writable mask = if writable then mask else without_writes mask

  -- onAccess; `arg` and `asked` are the handle and the mask that are read from the request
  unfoldable pub on_access : UserHandler b → Result ℕ → Result ℕ → Action b (AccessReply b)
  unfolding granted
  on_access h arg asked s =
      (do
        key ← or_raise arg (nfs_error NfsStatus.inval)
        (writable, path) ← or_raise (h.from_handle key (world_of b s)) (nfs_error NfsStatus.stale)
        mask ← or_raise asked (nfs_error NfsStatus.inval)
        pure (record { attrs = try_stat b path (world_of b s); mask = granted writable mask }))
        s

  -- a bit of a mask
  abbrev pub bit : ℕ → ℕ → ℕ
  bit n mask = mask / 2 ^ n % 2

  -- ACCESS never changes anything; to a file system that can be written it grants what was asked for,
  -- and to one that cannot the bits READ, LOOKUP and EXECUTE that were asked for, and none of MODIFY,
  -- EXTEND and DELETE or above.
  pub on_access-granted :
      (h : UserHandler b) (key mask : ℕ) (s : Server b) (writable : Bool) (path : b.FilePath)
      → h.from_handle key (world_of b s) ≡ ok (writable, path)
      → (r : AccessReply b) × (on_access h (ok key) (ok mask) s ≡ some (ok r, s))
        × (bit 0 r.mask ≡ bit 0 mask)
        × (bit 1 r.mask ≡ bit 1 mask)
        × (bit 5 r.mask ≡ bit 5 mask)
        × (bit 2 r.mask ≡ (if writable then bit 2 mask else 0))
        × (bit 3 r.mask ≡ (if writable then bit 3 mask else 0))
        × (bit 4 r.mask ≡ (if writable then bit 4 mask else 0))
        × (r.mask / 64 ≡ (if writable then mask / 64 else 0))
  unfolding on_access
  on_access-granted h key mask s true path f = (
    record { attrs = try_stat b path (world_of b s); mask = mask },
    rw f refl,
    refl,
    refl,
    refl,
    refl,
    refl,
    refl,
    refl,
  )
  on_access-granted h key mask s false path f = (
    record { attrs = try_stat b path (world_of b s); mask = without_writes mask },
    rw f refl,
    unfold without_writes in omega arith,
    unfold without_writes in omega arith,
    unfold without_writes in omega arith,
    unfold without_writes in omega arith,
    unfold without_writes in omega arith,
    unfold without_writes in omega arith,
    unfold without_writes in omega arith,
  )
