-- ===== src/Errors.antt =====
-- errors.go: what a handler's error becomes on the wire.
pub mod Codes
pub mod Chain
pub mod Mapping
pub mod Replies
use go_nfs.Base.{ℕ, Bool, true, false, Option, none, some, List, [], ◌++◌, if◌then◌else◌}
use go_nfs.Errors.Codes.{NfsStatus, AuthStat, ResponseCode, status_code, auth_code}
use go_nfs.Errors.Chain.{
  Error, errors_is, is_enospc, is_edquot, is_efbig, os_is_permission, path_error, wrapped,
  nfs_error, nfs_plain,
}
use go_nfs.Words.{put_be32, put_le32}

-- statusFromWriteError; `none` is a nil error
unfoldable pub status_from_write_error : Option Error → NfsStatus
status_from_write_error none = NfsStatus.ok
status_from_write_error (some e) =
    if errors_is is_enospc e
    then NfsStatus.nospc
    else if errors_is is_edquot e
    then NfsStatus.dquot
    else if errors_is is_efbig e
    then NfsStatus.fbig
    else if os_is_permission e
    then NfsStatus.access
    else NfsStatus.io

-- The implementations of the interface RPCError.
pub data RpcError : Type 0 where
  auth : AuthStat → RpcError
  mismatch : ℕ → ℕ → RpcError
  proc_unavailable : RpcError
  system : RpcError
  nfs : NfsStatus → RpcError
  nfs_with_body : NfsStatus → List ℕ → RpcError

-- the Code methods
unfoldable pub code : RpcError → ResponseCode
code (RpcError.auth a) = ResponseCode.auth_error
code (RpcError.mismatch lo hi) = ResponseCode.rpc_mismatch
code RpcError.proc_unavailable = ResponseCode.proc_unavailable
code RpcError.system = ResponseCode.system_err
code (RpcError.nfs s) = ResponseCode.success
code (RpcError.nfs_with_body s body) = ResponseCode.success

-- the MarshalBinary methods, none of which fails
unfoldable pub marshal_binary : RpcError → List ℕ
marshal_binary (RpcError.auth a) = put_le32 (auth_code a)
marshal_binary (RpcError.mismatch lo hi) = put_le32 lo ++ put_le32 hi
marshal_binary RpcError.proc_unavailable = []
marshal_binary RpcError.system = []
marshal_binary (RpcError.nfs s) = put_be32 (status_code s)
marshal_binary (RpcError.nfs_with_body s body) = put_be32 (status_code s) ++ body

-- errors.As(err, &rpcErr): the first error of the chain that implements RPCError
unfoldable pub as_rpc_error : Error → Option RpcError
as_rpc_error (path_error e) = as_rpc_error e
as_rpc_error (wrapped e) = as_rpc_error e
as_rpc_error (nfs_error s e) = some (RpcError.nfs s)
as_rpc_error (nfs_plain s) = some (RpcError.nfs s)
as_rpc_error (Error.auth_error a) = some (RpcError.auth a)
as_rpc_error (Error.rpc_mismatch lo hi) = some (RpcError.mismatch lo hi)
as_rpc_error Error.proc_unavailable = some RpcError.proc_unavailable
as_rpc_error Error.system_error = some RpcError.system
as_rpc_error e = none

unfoldable pub or_system : Option RpcError → RpcError
or_system (some r) = r
or_system none = RpcError.system

-- basicErrorFormatter
unfoldable pub basic_error_formatter : Error → RpcError
unfolding as_rpc_error or_system
basic_error_formatter e = or_system (as_rpc_error e)

-- errFormatterWithBody: the type assertion looks at the error itself, `errors.As` at its chain
unfoldable pub err_formatter_with_body : List ℕ → Error → RpcError
unfolding as_rpc_error or_system
err_formatter_with_body body (nfs_error s e) = RpcError.nfs_with_body s body
err_formatter_with_body body (nfs_plain s) = RpcError.nfs_with_body s body
err_formatter_with_body body e = or_system (as_rpc_error e)
