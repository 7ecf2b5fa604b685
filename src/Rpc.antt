-- ===== src/Rpc.antt =====
-- conn.go: the framing of RPC messages on a connection, and how a request is handled. The bytes that
-- a client sends are a list, whose end is the end of the stream; writing to a buffer and reading from
-- the stream do not fail otherwise.
pub mod Reply
pub mod Serve
pub mod Codes
pub mod Registered
use Prim.Native.Nat.{min}
use go_nfs.Base.{
  ◌+◌, ◌/◌, ◌%◌, length, take, drop, ltb, ◌==◌, if◌then◌else◌, ℕ, zero, suc, ◌-◌, ◌^◌, Bool, true,
  false, ◌&&◌, Option, none, some, List, [], ◌∷◌, ◌++◌,
}
use go_nfs.Errors.{RpcError, code, marshal_binary, basic_error_formatter}
use go_nfs.Errors.Chain.{Error, Result, ok, err, io_eof, other, wrapped}
use go_nfs.Errors.Codes.{ResponseCode, response_code}
use go_nfs.Words.{u32, put_be32}
use go_nfs.Xdr.{Xdr, Reader}

-- rpc.Header of go-nfs-client, of which the server uses the program and the procedure
pub record RpcHeader : Type 0 where
  pub prog : ℕ
  pub proc : ℕ

-- The package rpc of go-nfs-client.
pub record RpcLib : Type 0 where
  pub read_header : Reader RpcHeader
  pub auth_null : List ℕ  -- the bytes of AuthNull
  pub msg_accepted : ℕ
  pub msg_denied : ℕ

abbrev pub err_input_invalid : Error
err_input_invalid = Error.other 2

abbrev pub err_already_sent : Error
err_already_sent = Error.other 3

-- an io.LimitedReader over the stream
pub record Body : Type 0 where
  pub limit : ℕ
  pub stream : List ℕ

unfoldable pub advance : ℕ → Body → Body
advance n r = record { limit = r.limit - n; stream = drop n r.stream }

-- A read through the limit sees no byte past it.
unfoldable pub limited : {A : Type 0} → Reader A → Body → Result (A × Body)
unfolding advance
limited read r = elim (read (take r.limit r.stream)) [
  | ok (a, rest) ↦ ok (a, advance (length (take r.limit r.stream) - length rest) r)
  | err e ↦ err e
]

-- response, without its connection; `reply_err` is its field err
pub record Response : Type 0 where
  pub xid : ℕ
  pub header : RpcHeader
  pub body : Body
  pub out : List ℕ
  pub responded : Bool
  pub reply_err : Option Error
  pub error_fmt : Error → RpcError

-- the response of a request that was read
abbrev pub new_response : ℕ → RpcHeader → Body → Response
new_response xid h r = record {
  xid = xid;
  header = h;
  body = r;
  out = [];
  responded = false;
  reply_err = none;
  error_fmt = basic_error_formatter;
}

-- what a handler does with its response: writeHeader(ResponseCodeSuccess), or Write
pub data Act : Type 0 where
  header_only : Act
  write_bytes : List ℕ → Act

-- What a call of a handler does: the error formatter that it sets, what it writes, how many bytes it
-- reads of the body, and its error.
pub record Outcome : Type 0 where
  pub format : Error → RpcError
  pub acts : List Act
  pub consumed : ℕ
  pub failed : Option Error

-- the error of reading the fragment header: an UnmarshalError of io.EOF is io.EOF
unfoldable pub unwrap_eof : Error → Error
unwrap_eof (wrapped io_eof) = io_eof
unwrap_eof e = e

-- if err != nil { return err }, and what follows
abbrev pub with_value {ℓ κ} : {A : Type ℓ} {B : Type κ} → Result A → (A → Result B) → Result B
with_value (ok a) f = f a
with_value (err e) f = err e

module _ (x : Xdr) (rpc : RpcLib) where
  -- readRequestHeader, from the limited reader on
  unfoldable pub read_call : Body → Result Response
  unfolding limited
  read_call r = with_value (limited x.read_uint32 r) λ (xid, r1).
      with_value (limited x.read_uint32 r1) λ (kind, r2).
        if kind == 0
        then (with_value (limited rpc.read_header r2) λ (h, r3). ok (new_response xid h r3))
        else err err_input_invalid

  -- readRequestHeader
  unfoldable pub read_request_header : List ℕ → Result Response
  unfolding unwrap_eof read_call
  read_request_header stream = elim (x.read_uint32 stream) [
    | err e ↦ err (unwrap_eof e)
    | ok (fragment, rest) ↦
        if ltb fragment (2 ^ 31)
        then err err_input_invalid
        else if ltb (fragment - 2 ^ 31) 40
        then err err_input_invalid
        else read_call (record { limit = fragment - 2 ^ 31; stream = rest })
  ]

  abbrev pub is_denied : ResponseCode → Bool
  is_denied ResponseCode.auth_error = true
  is_denied ResponseCode.rpc_mismatch = true
  is_denied _ = false

  -- the bytes that writeHeader writes, those of writeXdrHeader first
  unfoldable pub header_bytes : ℕ → ResponseCode → List ℕ
  header_bytes xid c =
      x.write_uint32 xid
      ++ (x.write_uint32 1
          ++ (if is_denied c
              then x.write_uint32 rpc.msg_denied ++ x.write_uint32 (response_code c)
              else x.write_uint32 rpc.msg_accepted
                ++ (rpc.auth_null ++ x.write_uint32 (response_code c))))

  -- writeHeader
  unfoldable pub write_header : ResponseCode → Response → Option Error × Response
  unfolding header_bytes
  write_header c w =
      if w.responded
      then (some err_already_sent, w)
      else (none, record w { responded = true; out = w.out ++ header_bytes w.xid c })

  -- Write
  unfoldable pub write_response : List ℕ → Response → Option Error × Response
  unfolding write_header
  write_response dat w =
      if w.responded
      then (none, record w { out = w.out ++ dat })
      else (let (e, w') = write_header ResponseCode.success w in
          elim e [ some x ↦ (some x, w') | none ↦ (none, record w' { out = w'.out ++ dat }) ])

  unfoldable pub perform : List Act → Response → Response
  unfolding write_response
  perform [] w = w
  perform (header_only ∷ acts) w = perform acts (write_header ResponseCode.success w).1
  perform (write_bytes dat ∷ acts) w = perform acts (write_response dat w).1

  -- conn.err; `cancelled` is whether the context is done
  unfoldable pub reply_error : Bool → Response → Error → Option Error × Response
  unfolding write_response
  reply_error true w e = (none, w)
  reply_error false w e =
      let w' = record w { reply_err = elim w.reply_err [ none ↦ some e | some f ↦ some f ] } in
      if w.responded
      then (none, w')
      else (let (failed, w'') = write_header (code (w.error_fmt e)) w' in
          elim failed [
            | some f ↦ (some f, w'')
            | none ↦ write_response (marshal_binary (w.error_fmt e)) w''
          ])

  -- drain
  unfoldable pub drain : Response → Option Error × Response
  unfolding advance
  drain w = (none, record w { body = advance w.body.limit w.body })

  -- conn.handle: the reply to an error of the handler
  unfoldable pub answer_failure : Bool → Option Error → Response → Option Error × Response
  unfolding reply_error
  answer_failure cancelled none w = (none, w)
  answer_failure cancelled (some a) w = if w.responded then (none, w) else reply_error cancelled w a

  -- conn.handle, after the handler has run
  unfoldable pub after_handler : Bool → Option Error → Response → Option Error × Response
  unfolding drain answer_failure
  after_handler cancelled failed w =
      let (_, w1) = drain w in
      let (e, w2) = answer_failure cancelled failed w1 in
      elim e [
        | some f ↦ (some f, w2)
        | none ↦ if w2.responded then (none, w2) else reply_error cancelled w2 Error.system_error
      ]

-- HandleFunc, on the state S of the server; it is given the header and the body of the request
abbrev pub HandleFunc : Type 0 → Type 0
HandleFunc S = RpcHeader → List ℕ → S → Outcome × S

-- registeredHandlers
abbrev pub Handlers : Type 0 → Type 0
Handlers S = List (ℕ × ℕ × HandleFunc S)

-- handlerFor
unfoldable pub handler_for : {S : Type 0} → Handlers S → ℕ → ℕ → Option (HandleFunc S)
handler_for [] prog proc = none
handler_for ((protocol, p, h) ∷ hs) prog proc =
    let rest = handler_for hs prog proc in
    if (protocol == prog) && (p == proc) then some h else rest

-- RegisterMessageHandler; `none` is its error
unfoldable pub register_message_handler :
    {S : Type 0} → ℕ → ℕ → HandleFunc S → Handlers S → Option (Handlers S)
unfolding handler_for
register_message_handler protocol proc h hs = elim (handler_for hs protocol proc) [
  | some g ↦ none
  | none ↦ some ((protocol, proc, h) ∷ hs)
]

module _ (x : Xdr) (rpc : RpcLib) {S : Type 0} where
  -- the call of a handler, which cannot read past the limit
  unfoldable pub run_handler : HandleFunc S → Response → S → Option Error × Response × S
  unfolding perform advance
  run_handler h w s =
      let (o, s') = h w.header (take w.body.limit w.body.stream) s in
      let w' =
        perform x rpc o.acts (record w {
          body = advance (min o.consumed w.body.limit) w.body;
          error_fmt = o.format;
        }) in
      (o.failed, w', s')

  -- conn.handle
  unfoldable pub handle : Handlers S → Bool → Response → S → Option Error × Response × S
  unfolding handler_for run_handler after_handler
  handle hs cancelled w s = elim (handler_for hs w.header.prog w.header.proc) [
    | none ↦
        let (_, w1) = drain x rpc w in
        let (e, w2) = reply_error x rpc cancelled w1 Error.proc_unavailable in (e, w2, s)
    | some h ↦
        let (failed, w1, s') = run_handler h w s in
        let (e, w2) = after_handler x rpc cancelled failed w1 in (e, w2, s')
  ]

  -- The loop of conn.serve, with the message of each finish: `none` is a loop that has run out of fuel.
  unfoldable pub serve : ℕ → Handlers S → List ℕ → S → Option (List (List ℕ) × S)
  unfolding handle
  serve zero hs stream s = none
  serve (suc f) hs stream s = elim (read_request_header x rpc stream) [
    | err e ↦ some ([], s)
    | ok w ↦
        let (e, w', s') = handle hs false w s in
        elim e [
          | some f' ↦ some (w'.out ∷ [], s')
          | none ↦ elim (serve f hs w'.body.stream s') [
            | none ↦ none
            | some (replies, s'') ↦ some (w'.out ∷ replies, s'')
          ]
        ]
  ]

-- n | 1 << 31
abbrev pub with_last : ℕ → ℕ
with_last n = if n / 2 ^ 31 % 2 == 1 then n else n + 2 ^ 31

-- serializeWrites, for one message: the fragment header and the message
unfoldable pub frame : List ℕ → List ℕ
unfolding put_be32
frame msg = put_be32 (with_last (u32 (length msg))) ++ msg
