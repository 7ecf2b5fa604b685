-- ===== src/Tests/Rpcs.antt =====
-- RPC messages at concrete values: two calls of a procedure that echoes its arguments and counts.
use go_nfs.Mount.{
  NfsHandlers, on_mount_null, on_mount, on_umount, mount_service_id, nfs_service_id, init_nfs,
  init_mount,
}
use go_nfs.Base.{get_elem?}
use go_nfs.Xdr.{Reader}
use go_nfs.Mount.Service.{rfc_1813, handler_for-init_nfs}
use go_nfs.Base.{if◌then◌else◌, ◌==◌}
use go_nfs.Rpc.{handler_for}
use go_nfs.Rpc.Reply.{handle-reply}
use go_nfs.Rpc.Serve.{Call}
use go_nfs.Base.{replicate, ℕ, ◌+◌, ◌≡◌, refl, true, false, none, some, List, [], ◌∷◌, arith}
use go_nfs.Errors.{basic_error_formatter}
use go_nfs.Errors.Chain.{Result, ok, err, io_eof}
use go_nfs.Rpc.{
  handle, write_bytes, RpcHeader, RpcLib, advance, new_response, HandleFunc, Handlers, handler_for,
  serve,
}
use go_nfs.Rpc.Reply.{reply_of}
use go_nfs.Rpc.Serve.{put_call, sent, answers, serve-answers}
use go_nfs.Tests.Attributes.{rfc4506, rfc4506-ReadsBack}
use go_nfs.Words.{put_be32, get_be32}

-- a header is written as its two numbers
abbrev rpc_lib : RpcLib
rpc_lib = record {
  read_header = tagged;
  auth_null = replicate 8 0;
  msg_accepted = 0;
  msg_denied = 1;
}
  where
    tagged : List ℕ → Result (RpcHeader × List ℕ)
    tagged (p ∷ q ∷ rest) = ok (record { prog = p; proc = q }, rest)
    tagged _ = err io_eof

abbrev tag_header : RpcHeader → List ℕ
tag_header h = h.prog ∷ h.proc ∷ []

abbrev echo : HandleFunc ℕ
echo h args n = (
  record {
    format = basic_error_formatter;
    acts = write_bytes args ∷ [];
    consumed = 3;
    failed = none;
  },
  n + 1,
)

abbrev table : Handlers ℕ
table = (100003, 5, echo) ∷ []

abbrev call_number : ℕ → ℕ → Call
call_number n p = record {
  xid = n;
  header = record { prog = 100003; proc = p };
  args = replicate 32 n;
}

serve-answers_example :
    serve rfc4506 rpc_lib 3 table
      (sent rfc4506 tag_header (call_number 7 5 ∷ call_number 8 9 ∷ []))
      0
    ≡ some (answers rfc4506 rpc_lib table (call_number 7 5 ∷ call_number 8 9 ∷ []) 0)
serve-answers_example =
    serve-answers rfc4506 rpc_lib table tag_header rfc4506-ReadsBack (λ h rest. refl)
      (io_eof, unfold get_be32 in refl) (call_number 7 5 ∷ call_number 8 9 ∷ []) 0
      (unfold put_call put_be32 in
        ((omega arith, omega arith, omega arith), ((omega arith, omega arith, omega arith), tt)))

handle-reply_example :
    let (o, s') = echo (record { prog = 100003; proc = 5 }) (1 ∷ 2 ∷ []) 0 in
    let (e, w, s'') =
      handle rfc4506 rpc_lib table false
        (new_response 7
          (record { prog = 100003; proc = 5 })
          (record { limit = 2; stream = 1 ∷ 2 ∷ 3 ∷ [] }))
        0 in
    (e ≡ none)
    × (w.out ≡ reply_of rfc4506 rpc_lib 7 o)
    × (w.responded ≡ true)
    × (w.body ≡ advance 2 (record { limit = 2; stream = 1 ∷ 2 ∷ 3 ∷ [] }))
    × (s'' ≡ s')
handle-reply_example =
    handle-reply rfc4506 rpc_lib table 7 (record { prog = 100003; proc = 5 })
      (record { limit = 2; stream = 1 ∷ 2 ∷ 3 ∷ [] }) 0 echo (unfold handler_for in refl)

-- a handler that adds its number to the state, so that no two of them are the same
abbrev counting : ℕ → HandleFunc ℕ
counting k h args n =
    (record { format = basic_error_formatter; acts = []; consumed = 0; failed = none }, n + k)

abbrev handlers : NfsHandlers ℕ
handlers = record {
  on_get_attr = counting 1;
  on_set_attr = counting 2;
  on_lookup = counting 3;
  on_access = counting 4;
  on_read_link = counting 5;
  on_read = counting 6;
  on_write = counting 7;
  on_create = counting 8;
  on_mkdir = counting 9;
  on_symlink = counting 10;
  on_mknod = counting 11;
  on_remove = counting 12;
  on_rmdir = counting 13;
  on_rename = counting 14;
  on_link = counting 15;
  on_read_dir = counting 16;
  on_read_dir_plus = counting 17;
  on_fs_stat = counting 18;
  on_fs_info = counting 19;
  on_path_conf = counting 20;
  on_commit = counting 21;
}

abbrev no_opaque : Reader (List ℕ)
no_opaque args = err io_eof

abbrev refuse : RpcHeader → List ℕ → ℕ → (ℕ × List ℕ) × ℕ
refuse h path n = ((2, []), n)

handler_for-init_nfs_example :
    let hs = init_nfs handlers (init_mount rfc4506 no_opaque refuse (λ n. ([], n)) []) in
    (handler_for hs nfs_service_id 7 ≡ get_elem? (rfc_1813 handlers) 7)
    × (handler_for hs mount_service_id 7 ≡ (
        if 7 == 0
        then some on_mount_null
        else if 7 == 1
        then some (on_mount rfc4506 no_opaque refuse (λ n. ([], n)))
        else if 7 == 3
        then some (on_umount rfc4506 no_opaque)
        else none))
handler_for-init_nfs_example =
    handler_for-init_nfs rfc4506 no_opaque refuse (λ n. ([], n)) handlers 7
