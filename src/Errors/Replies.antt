-- ===== src/Errors/Replies.antt =====
-- The bytes of an error reply, as an XDR client reads them.
use go_nfs.Base.{ℕ, ◌<◌, ◌^◌, ◌≡◌, ◌≢◌, refl, some, List, [], ◌++◌, arith}
use go_nfs.Errors.{marshal_binary, err_formatter_with_body, RpcError}
use go_nfs.Errors.Codes.{NfsStatus, AuthStat, status_code, auth_code}
use go_nfs.Errors.Chain.{Error, nfs_error, nfs_plain}
use go_nfs.Words.{get_be32, put_be32, put_le32}

status_code-lt : (s : NfsStatus) → status_code s < 2 ^ 32
unfolding status_code
status_code-lt NfsStatus.ok = omega arith
status_code-lt _ = omega arith

get_be32-append :
    (n : ℕ) (rest : List ℕ) → n < 2 ^ 32 → get_be32 (put_be32 n ++ rest) ≡ some (n, rest)
unfolding get_be32 put_be32
get_be32-append n rest h = ground arith

-- An NFS error of a handler, with or without a wrapped cause, reaches the client as its status
-- followed by exactly the body of the procedure's error result.
pub marshal-err_formatter :
    (body : List ℕ) (s : NfsStatus) (cause : Error)
    → (get_be32 (marshal_binary (err_formatter_with_body body (nfs_error s cause)))
        ≡ some (status_code s, body))
      × (get_be32 (marshal_binary (err_formatter_with_body body (nfs_plain s)))
          ≡ some (status_code s, body))
unfolding marshal_binary err_formatter_with_body
marshal-err_formatter body s cause =
    let read = get_be32-append (status_code s) body (status_code-lt s) in (read, read)

-- The client of a rejected call reads another number than the auth_stat that the server means,
-- for every auth_stat but AUTH_OK: the bytes are written in the reverse order.
pub marshal-auth_order :
    (a : AuthStat)
    → a ≢ AuthStat.auth_ok
    → get_be32 (marshal_binary (RpcError.auth a)) ≢ some (auth_code a, [])
unfolding marshal_binary put_le32 get_be32 auth_code
marshal-auth_order AuthStat.auth_ok h = absurd (h refl)
marshal-auth_order _ h = ground arith
