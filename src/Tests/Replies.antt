-- ===== src/Tests/Replies.antt =====
-- errors.go at concrete errors.
use go_nfs.Base.{◌≢◌, some, []}
use go_nfs.Errors.{RpcError, marshal_binary}
use go_nfs.Errors.Codes.{AuthStat, auth_code}
use go_nfs.Errors.Replies.{marshal-auth_order}
use go_nfs.Words.{get_be32}

marshal-auth_order_example :
    get_be32 (marshal_binary (RpcError.auth AuthStat.bad_cred))
    ≢ some (auth_code AuthStat.bad_cred, [])
marshal-auth_order_example = marshal-auth_order AuthStat.bad_cred (λ h. cc)
