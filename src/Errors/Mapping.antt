-- ===== src/Errors/Mapping.antt =====
-- statusFromWriteError on every error, however it is wrapped.
use go_nfs.Base.{◌≡◌, refl, ◌↔◌, ◌⊎◌, inl, inr, Bool, true, false, ◌||◌, Option, none, some, arith}
use go_nfs.Errors.{status_from_write_error}
use go_nfs.Errors.Codes.{NfsStatus}
use go_nfs.Errors.Chain.{Error, errors_is, is_enospc, path_error, wrapped, nfs_error}

-- A WRITE or COMMIT that met an error is never answered by NFS3_OK, and one that met none is.
pub status_from_write_error-ok :
    (e : Option Error) → (status_from_write_error e ≡ NfsStatus.ok) ↔ (e ≡ none)
unfolding status_from_write_error
status_from_write_error-ok none = ground arith
status_from_write_error-ok (some e) = ground arith

-- `hit` holds of an error of the chain.
pub data Carries (hit : Error → Bool) : Error → Type 0 where
  here : {e : Error} → hit e ≡ true → Carries hit e
  under_path : {e : Error} → Carries hit e → Carries hit (path_error e)
  under_wrapper : {e : Error} → Carries hit e → Carries hit (wrapped e)
  under_status : {s : NfsStatus} {e : Error} → Carries hit e → Carries hit (nfs_error s e)

true_or : (a b : Bool) → (a || b) ≡ true → (a ≡ true) ⊎ (b ≡ true)
true_or true b h = inl refl
true_or false b h = inr h

or_true : (a b : Bool) → b ≡ true → (a || b) ≡ true
or_true true b h = refl
or_true false b h = h

module _ (hit : Error → Bool) where
  errors_is_here : (e : Error) → hit e ≡ true → errors_is hit e ≡ true
  unfolding errors_is
  errors_is_here (path_error e) h = rw h
  errors_is_here (wrapped e) h = rw h
  errors_is_here (nfs_error s e) h = rw h
  errors_is_here _ h = h

  errors_is_of_Carries : {e : Error} → Carries hit e → errors_is hit e ≡ true
  unfolding errors_is
  errors_is_of_Carries (Carries.here {e} h) = errors_is_here e h
  errors_is_of_Carries (Carries.under_path c) = or_true _ _ (errors_is_of_Carries c)
  errors_is_of_Carries (Carries.under_wrapper c) = or_true _ _ (errors_is_of_Carries c)
  errors_is_of_Carries (Carries.under_status c) = or_true _ _ (errors_is_of_Carries c)

  Carries-of_errors_is : (e : Error) → errors_is hit e ≡ true → Carries hit e
  unfolding errors_is
  Carries-of_errors_is (path_error e) h = elim (true_or _ _ h) [
    | inl p ↦ Carries.here p
    | inr p ↦ Carries.under_path (Carries-of_errors_is e p)
  ]
  Carries-of_errors_is (wrapped e) h = elim (true_or _ _ h) [
    | inl p ↦ Carries.here p
    | inr p ↦ Carries.under_wrapper (Carries-of_errors_is e p)
  ]
  Carries-of_errors_is (nfs_error s e) h = elim (true_or _ _ h) [
    | inl p ↦ Carries.here p
    | inr p ↦ Carries.under_status (Carries-of_errors_is e p)
  ]
  Carries-of_errors_is _ h = Carries.here h

nospc_test :
    (e : Error)
    → (status_from_write_error (some e) ≡ NfsStatus.nospc) ↔ (errors_is is_enospc e ≡ true)
unfolding status_from_write_error
nospc_test e = ground arith

-- The status is NFS3ERR_NOSPC exactly for the errors that carry ENOSPC somewhere in their chain.
pub status_from_write_error-nospc :
    (e : Error) → (status_from_write_error (some e) ≡ NfsStatus.nospc) ↔ Carries is_enospc e
status_from_write_error-nospc e =
    let (to, from) = nospc_test e in
    (λ h. Carries-of_errors_is is_enospc e (to h), λ c. from (errors_is_of_Carries is_enospc c))
