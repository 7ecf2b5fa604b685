-- ===== src/Errors/Chain.antt =====
-- Go's `error` values as the server meets them, with the library tests of `errors` and `os` that
-- it applies: `errors.Is` walks the chain of wrapped errors, `os.IsPermission` and
-- `os.IsNotExist` look under one wrapper of the package os and no further.
use go_nfs.Base.{ℕ, Bool, true, false, ◌||◌}
use go_nfs.Errors.Codes.{NfsStatus, AuthStat}

-- An error that is not nil. `path_error` is an *os.PathError, *os.LinkError or *os.SyscallError,
-- `wrapped` any other wrapper with an Unwrap method; `nfs_error s e` is &NFSStatusError{s, e} and
-- `nfs_plain s` is &NFSStatusError{s, nil}.
pub data Error : Type 0 where
  enospc edquot efbig eacces enoent : Error
  err_permission err_not_exist err_invalid io_eof err_handle_closed : Error
  other : ℕ → Error
  path_error : Error → Error
  wrapped : Error → Error
  nfs_error : NfsStatus → Error → Error
  nfs_plain : NfsStatus → Error
  auth_error : AuthStat → Error
  rpc_mismatch : ℕ → ℕ → Error
  proc_unavailable : Error
  system_error : Error

-- a value or an error, as of a call that returns both
pub data Result {ℓ} (A : Type ℓ) : Type ℓ where
  ok : A → Result A
  err : Error → Result A

-- errors.Is, for the target that `hit` tests one error against
unfoldable pub errors_is : (Error → Bool) → Error → Bool
errors_is hit (path_error e) = hit (path_error e) || errors_is hit e
errors_is hit (wrapped e) = hit (wrapped e) || errors_is hit e
errors_is hit (nfs_error s e) = hit (nfs_error s e) || errors_is hit e
errors_is hit e = hit e

abbrev pub is_enospc : Error → Bool
is_enospc enospc = true
is_enospc _ = false

abbrev pub is_edquot : Error → Bool
is_edquot edquot = true
is_edquot _ = false

abbrev pub is_efbig : Error → Bool
is_efbig efbig = true
is_efbig _ = false

abbrev pub is_handle_closed : Error → Bool
is_handle_closed err_handle_closed = true
is_handle_closed _ = false

abbrev pub is_eof : Error → Bool
is_eof io_eof = true
is_eof _ = false

-- An errno answers to the sentinel of the package os that it stands for.
abbrev pub is_err_permission : Error → Bool
is_err_permission err_permission = true
is_err_permission eacces = true
is_err_permission _ = false

abbrev pub is_err_not_exist : Error → Bool
is_err_not_exist err_not_exist = true
is_err_not_exist enoent = true
is_err_not_exist _ = false

-- the unexported `underlyingError` of the package os
unfoldable pub underlying : Error → Error
underlying (path_error e) = e
underlying e = e

unfoldable pub os_is_permission : Error → Bool
unfolding underlying
os_is_permission e = is_err_permission (underlying e)

unfoldable pub os_is_not_exist : Error → Bool
unfolding underlying
os_is_not_exist e = is_err_not_exist (underlying e)
