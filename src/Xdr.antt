-- ===== src/Xdr.antt =====
-- The package xdr of go-nfs-client, as the procedures use it, and readers of a request's bytes. A
-- struct or an array is its parts in their order (RFC 4506, 4.14), and a Boolean the number 0 or 1.
use go_nfs.Base.{ℕ, ◌^◌, ◌<◌, ◌≡◌, ap, Bool, List, ◌++◌, if◌then◌else◌}
use go_nfs.Errors.Chain.{Result, ok, err}

pub record Xdr : Type 0 where
  pub read_uint32 : List ℕ → Result (ℕ × List ℕ)
  pub read_uint64 : List ℕ → Result (ℕ × List ℕ)
  pub write_uint32 : ℕ → List ℕ
  pub write_uint64 : ℕ → List ℕ
  pub write_opaque : List ℕ → List ℕ

-- What was written reads back, whatever follows it.
pub record ReadsBack (x : Xdr) : Type 0 where
  pub uint32 :
      (n : ℕ) (rest : List ℕ) → n < 2 ^ 32 → x.read_uint32 (x.write_uint32 n ++ rest) ≡ ok (n, rest)
  pub uint64 :
      (n : ℕ) (rest : List ℕ) → n < 2 ^ 64 → x.read_uint64 (x.write_uint64 n ++ rest) ≡ ok (n, rest)

-- a reader takes a value off the front of the bytes
abbrev pub Reader {ℓ} : Type ℓ → Type ℓ
Reader A = List ℕ → Result (A × List ℕ)

module _ {ℓ κ} {A : Type ℓ} {B : Type κ} where
  infixl 5 ◌>>=◌
  abbrev pub ◌>>=◌ : Reader A → (A → Reader B) → Reader B
  ◌>>=◌ r f bytes = elim (r bytes) [ ok (a, rest) ↦ f a rest | err e ↦ err e ]

-- A bind whose first reader succeeds goes on with what it read.
pub >>=-ok {ℓ κ} :
    {A : Type ℓ} {B : Type κ} (r : Reader A) (f : A → Reader B) (bytes : List ℕ) {a : A}
    {rest : List ℕ}
    → r bytes ≡ ok (a, rest)
    → (r >>= f) bytes ≡ f a rest
>>=-ok {B} r f bytes e =
    ap (λ o. elim o as (λ _. Result (B × List ℕ)) [ ok (a, rest) ↦ f a rest | err x ↦ err x ]) e

module _ {κ} {B : Type κ} (x : Xdr) (law : ReadsBack x) where
  pub >>=-uint32 :
      (f : ℕ → Reader B) (n : ℕ) (rest : List ℕ)
      → n < 2 ^ 32
      → (x.read_uint32 >>= f) (x.write_uint32 n ++ rest) ≡ f n rest
  >>=-uint32 f n rest h = >>=-ok x.read_uint32 f _ (law.uint32 n rest h)

  pub >>=-uint64 :
      (f : ℕ → Reader B) (n : ℕ) (rest : List ℕ)
      → n < 2 ^ 64
      → (x.read_uint64 >>= f) (x.write_uint64 n ++ rest) ≡ f n rest
  >>=-uint64 f n rest h = >>=-ok x.read_uint64 f _ (law.uint64 n rest h)

abbrev pub give {ℓ} : {A : Type ℓ} → A → Reader A
give a rest = ok (a, rest)

-- xdr.Write of a bool
unfoldable pub write_bool : Xdr → Bool → List ℕ
write_bool x b = x.write_uint32 (if b then 1 else 0)
