-- ===== src/Rpc/Codes.antt =====
-- conn.go: the numbers of ResponseCode against accept_stat and reject_stat of RFC 5531, and the header
-- of a fragment.

use go_nfs.Base.{length, take, take-append_length, ◌+◌, ◌^◌, ◌<◌, some, List, ◌++◌, arith}
use go_nfs.Rpc.{with_last, frame}
use go_nfs.Words.{u32, put_be32, get_be32}
use go_nfs.Base.{◌==◌, ℕ, ◌≡◌, refl, Bool, true, false}
use go_nfs.Errors.Codes.{ResponseCode, response_code}

-- accept_stat and reject_stat
unfoldable pub rfc_code : ResponseCode → ℕ
rfc_code ResponseCode.success = 0
rfc_code ResponseCode.prog_unavailable = 1
rfc_code ResponseCode.proc_unavailable = 3
rfc_code ResponseCode.garbage_args = 4
rfc_code ResponseCode.system_err = 5
rfc_code ResponseCode.rpc_mismatch = 0
rfc_code ResponseCode.auth_error = 1

-- whether a code has the number that it has in RFC 5531
unfoldable pub agrees : ResponseCode → Bool
agrees ResponseCode.success = true
agrees ResponseCode.prog_unavailable = true
agrees _ = false

-- Of the codes of a reply only those for success and for an unavailable program have their number of
-- RFC 5531 on the wire; the others have the number of another one, or none.
pub response_code-agrees : (c : ResponseCode) → (response_code c == rfc_code c) ≡ agrees c
unfolding response_code rfc_code agrees
response_code-agrees ResponseCode.success = refl
response_code-agrees _ = refl

last_fragment : (n : ℕ) → n < 2 ^ 31 → with_last (u32 n) ≡ n + 2 ^ 31
last_fragment n h = ground arith

get_be32-append :
    (n : ℕ) (rest : List ℕ) → n < 2 ^ 32 → get_be32 (put_be32 n ++ rest) ≡ some (n, rest)
unfolding get_be32 put_be32
get_be32-append n rest h = ground arith

-- A reader of what serializeWrites sends for a message shorter than 2 ^ 31 bytes finds, in the first
-- four bytes, the bit of a last fragment and the length of the message, and then the message, whatever
-- follows it.
pub get_be32-frame :
    (msg rest : List ℕ)
    → length msg < 2 ^ 31
    → (get_be32 (frame msg ++ rest) ≡ some (length msg + 2 ^ 31, msg ++ rest))
      × (take (length msg) (msg ++ rest) ≡ msg)
unfolding frame put_be32
get_be32-frame msg rest h = (
  rw (last_fragment (length msg) h)
      (get_be32-append (length msg + 2 ^ 31) (msg ++ rest) (omega arith)),
  take-append_length msg rest,
)
