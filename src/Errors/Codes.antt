-- ===== src/Errors/Codes.antt =====
-- nfsinterface.go and errors.go: the enumerations, and the numbers that stand for them on the wire.
use go_nfs.Base.{ℕ}

-- NFSStatus
pub data NfsStatus : Type 0 where
  ok perm noent io nxio access exist xdev nodev notdir isdir inval fbig nospc rofs mlink : NfsStatus
  nametoolong notempty dquot stale remote badhandle notsync badcookie notsupp toosmall : NfsStatus
  serverfault badtype jukebox : NfsStatus

-- uint32(status)
unfoldable pub status_code : NfsStatus → ℕ
status_code NfsStatus.ok = 0
status_code NfsStatus.perm = 1
status_code NfsStatus.noent = 2
status_code NfsStatus.io = 5
status_code NfsStatus.nxio = 6
status_code NfsStatus.access = 13
status_code NfsStatus.exist = 17
status_code NfsStatus.xdev = 18
status_code NfsStatus.nodev = 19
status_code NfsStatus.notdir = 20
status_code NfsStatus.isdir = 21
status_code NfsStatus.inval = 22
status_code NfsStatus.fbig = 27
status_code NfsStatus.nospc = 28
status_code NfsStatus.rofs = 30
status_code NfsStatus.mlink = 31
status_code NfsStatus.nametoolong = 63
status_code NfsStatus.notempty = 66
status_code NfsStatus.dquot = 69
status_code NfsStatus.stale = 70
status_code NfsStatus.remote = 71
status_code NfsStatus.badhandle = 10001
status_code NfsStatus.notsync = 10002
status_code NfsStatus.badcookie = 10003
status_code NfsStatus.notsupp = 10004
status_code NfsStatus.toosmall = 10005
status_code NfsStatus.serverfault = 10006
status_code NfsStatus.badtype = 10007
status_code NfsStatus.jukebox = 10008

-- AuthStat
pub data AuthStat : Type 0 where
  auth_ok bad_cred rejected_cred bad_verifier rejected_verifier too_weak : AuthStat
  invalid_response failed kerb_generic time_expire tkt_file decode net_addr : AuthStat
  rpcgss_cred_problem rpcgss_ctx_problem : AuthStat

-- uint32(authStat)
unfoldable pub auth_code : AuthStat → ℕ
auth_code AuthStat.auth_ok = 0
auth_code AuthStat.bad_cred = 1
auth_code AuthStat.rejected_cred = 2
auth_code AuthStat.bad_verifier = 3
auth_code AuthStat.rejected_verifier = 4
auth_code AuthStat.too_weak = 5
auth_code AuthStat.invalid_response = 6
auth_code AuthStat.failed = 7
auth_code AuthStat.kerb_generic = 8
auth_code AuthStat.time_expire = 9
auth_code AuthStat.tkt_file = 10
auth_code AuthStat.decode = 11
auth_code AuthStat.net_addr = 12
auth_code AuthStat.rpcgss_cred_problem = 13
auth_code AuthStat.rpcgss_ctx_problem = 14

-- ResponseCode of conn.go
pub data ResponseCode : Type 0 where
  success prog_unavailable proc_unavailable garbage_args system_err rpc_mismatch : ResponseCode
  auth_error : ResponseCode

-- uint32(code)
unfoldable pub response_code : ResponseCode → ℕ
response_code ResponseCode.success = 0
response_code ResponseCode.prog_unavailable = 1
response_code ResponseCode.proc_unavailable = 2
response_code ResponseCode.garbage_args = 3
response_code ResponseCode.system_err = 4
response_code ResponseCode.rpc_mismatch = 5
response_code ResponseCode.auth_error = 6
