-- ===== src/Rpc/Serve.antt =====
-- conn.go: a connection that serves one request after the other. The client's side is a message of
-- RFC 5531 in one fragment.
use go_nfs.Base.{
  take-append_length, drop-append_length, suc, length-append, ltb, false, ◌-◌, Option-cases, inl,
  inr, length, take, drop, ℕ, ◌+◌, ◌^◌, ◌≤◌, ◌<◌, ◌≡◌, refl, none, some, List, [], ◌∷◌, ◌++◌, arith,
}
use go_nfs.Errors.{RpcError}
use go_nfs.Errors.Chain.{Error, ok, err}
use go_nfs.Rpc.{
  Response, unwrap_eof, advance, HandleFunc, serve, handle, RpcHeader, RpcLib, Body, advance,
  limited, new_response, read_call, read_request_header, Handlers, handler_for,
}
use go_nfs.Rpc.Reply.{handle-unknown, handle-reply, body-eq, error_reply, reply_of}
use go_nfs.Xdr.{Xdr, ReadsBack, Reader}
use go_nfs.Base.{◌∙◌, ap}
use mathlib.Core.List.{append_assoc}

-- a call, with the bytes of its arguments
pub record Call : Type 0 where
  pub xid : ℕ
  pub header : RpcHeader
  pub args : List ℕ

module _ (x : Xdr) (put_header : RpcHeader → List ℕ) where
  -- a call message
  unfoldable pub put_call : Call → List ℕ
  put_call c = x.write_uint32 c.xid ++ (x.write_uint32 0 ++ (put_header c.header ++ c.args))

  -- the call in a last fragment, and the calls of a client
  pub put_fragment : Call → List ℕ
  put_fragment c = x.write_uint32 (2 ^ 31 + length (put_call c)) ++ put_call c

  pub sent : List Call → List ℕ
  sent [] = []
  sent (c ∷ cs) = put_fragment c ++ sent cs

  -- The xid fits its word, and the server takes a call of that length.
  abbrev pub FitsCall : Call → Type 0
  FitsCall c = (c.xid < 2 ^ 32) × (40 ≤ length (put_call c)) × (length (put_call c) < 2 ^ 31)

  abbrev pub AllFit : List Call → Type 0
  AllFit [] = Unit
  AllFit (c ∷ cs) = FitsCall c × AllFit cs

module _ (x : Xdr) (rpc : RpcLib) {S : Type 0} (hs : Handlers S) where
  -- the reply to one call, and the state that it leaves
  pub answer_call : Call → S → List ℕ × S
  answer_call c s = elim (handler_for hs c.header.prog c.header.proc) [
    | none ↦ (error_reply x rpc c.xid RpcError.proc_unavailable, s)
    | some g ↦ let (o, s') = g c.header c.args s in (reply_of x rpc c.xid o, s')
  ]

  -- the replies to the calls of a client, one to each
  pub answers : List Call → S → List (List ℕ) × S
  answers [] s = ([], s)
  answers (c ∷ cs) s =
      let (r, s') = answer_call c s in let (rs, s'') = answers cs s' in (r ∷ rs, s'')

  module _ (put_header : RpcHeader → List ℕ) (law : ReadsBack x)
      (header_law : (h : RpcHeader) (rest : List ℕ)
        → rpc.read_header (put_header h ++ rest) ≡ ok (h, rest))
      (ended : (e : Error) × (x.read_uint32 [] ≡ err e)) where
    abbrev body_of : List ℕ → List ℕ → Body
    body_of now after = record { limit = length now; stream = now ++ after }

    limited_step :
        {A : Type 0} (r : Reader A) (left : Body) (bytes rest : List ℕ) (a : A)
        → take left.limit left.stream ≡ bytes
        → r bytes ≡ ok (a, rest)
        → limited r left ≡ ok (a, advance (length bytes - length rest) left)
    unfolding limited
    limited_step r left bytes rest a cut e = rw (limited, cut, e, cut) refl

    limited-ok :
        {A : Type 0} (r : Reader A) (enc now after : List ℕ) (a : A)
        → r (enc ++ now) ≡ ok (a, now)
        → limited r (body_of (enc ++ now) after) ≡ ok (a, body_of now after)
    unfolding advance
    limited-ok r enc now after a e =
        let lengths = length-append enc now in
        limited_step r (body_of (enc ++ now) after) (enc ++ now) now a
          (take-append_length (enc ++ now) after) e
        ∙ ap (λ (left : Body). ok (a, left))
            (body-eq (omega (arith, lengths)) (
              ap (λ (k : ℕ). drop k ((enc ++ now) ++ after)) (omega (arith, lengths))
              ∙ ap (drop (length enc)) (append_assoc enc now after)
              ∙ drop-append_length enc (now ++ after)))

    read_call-put_call :
        (c : Call) (after : List ℕ)
        → c.xid < 2 ^ 32
        → read_call x rpc (body_of (put_call x put_header c) after)
          ≡ ok (new_response c.xid c.header (body_of c.args after))
    unfolding read_call put_call
    read_call-put_call c after small =
        rw
          (
            limited-ok x.read_uint32 (x.write_uint32 c.xid) _ after c.xid
                (law.uint32 c.xid _ small),
            limited-ok x.read_uint32 (x.write_uint32 0) _ after 0 (law.uint32 0 _ (omega arith)),
            limited-ok rpc.read_header (put_header c.header) c.args after c.header
                (header_law c.header c.args),
          )
          refl

    read_request_header-put_fragment :
        (c : Call) (after : List ℕ)
        → FitsCall x put_header c
        → read_request_header x rpc (put_fragment x put_header c ++ after)
          ≡ ok (new_response c.xid c.header (body_of c.args after))
    unfolding read_request_header put_fragment
    read_request_header-put_fragment c after (small, long, short) =
        let n = length (put_call x put_header c) in
        rw
          (
            append_assoc,
            read_request_header,
            law.uint32 (2 ^ 31 + n) (put_call x put_header c ++ after) (omega arith),
            is_last n,
            is_long n long,
            less n,
          )
          (read_call-put_call c after small)
      where
        is_last : (n : ℕ) → ltb (2 ^ 31 + n) (2 ^ 31) ≡ false
        is_last n = ground arith

        is_long : (n : ℕ) → 40 ≤ n → ltb (2 ^ 31 + n - 2 ^ 31) 40 ≡ false
        is_long n h = ground arith

        less : (n : ℕ) → 2 ^ 31 + n - 2 ^ 31 ≡ n
        less n = omega arith

    answer-unknown :
        (c : Call) (s : S)
        → handler_for hs c.header.prog c.header.proc ≡ none
        → answer_call c s ≡ (error_reply x rpc c.xid RpcError.proc_unavailable, s)
    unfolding answer_call
    answer-unknown c s absent = rw (answer_call, absent) refl

    answer-known :
        (c : Call) (s : S) (g : HandleFunc S)
        → handler_for hs c.header.prog c.header.proc ≡ some g
        → answer_call c s ≡ (reply_of x rpc c.xid (g c.header c.args s).0, (g c.header c.args s).1)
    unfolding answer_call
    answer-known c s g found = rw (answer_call, found) refl

    skipped :
        (c : Call) (after : List ℕ)
        → (advance (length c.args) (body_of c.args after)).stream ≡ after
    unfolding advance
    skipped c after = drop-append_length c.args after

    handle-answer :
        (c : Call) (after : List ℕ) (s : S)
        → let (e, w, s') =
            handle x rpc hs false (new_response c.xid c.header (body_of c.args after)) s in
          (e ≡ none)
          × (w.out ≡ (answer_call c s).0)
          × (w.body.stream ≡ after)
          × (s' ≡ (answer_call c s).1)
    handle-answer c after s = elim (Option-cases (handler_for hs c.header.prog c.header.proc)) [
      | inl absent ↦
          let (e, out, left, same) =
            handle-unknown x rpc hs c.xid c.header (body_of c.args after) s absent in
          rw (answer-unknown c s absent)
            (e, out, ap (λ (r : Body). r.stream) left ∙ skipped c after, same)
      | inr (g, found) ↦
          let (e, out, _, left, same) =
            handle-reply x rpc hs c.xid c.header (body_of c.args after) s g found in
          let seen : take (length c.args) (c.args ++ after) ≡ c.args =
            take-append_length c.args after in
          rw (answer-known c s g found)
            (e, rw seen at out, ap (λ (r : Body). r.stream) left ∙ skipped c after, rw seen at same)
    ]

    at_end : (e : Error) × (read_request_header x rpc [] ≡ err e)
    unfolding read_request_header
    at_end = (unwrap_eof ended.0, rw (read_request_header, ended.1) refl)

    serve_end : (f : ℕ) (s : S) → serve x rpc (suc f) hs [] s ≡ some ([], s)
    unfolding serve
    serve_end f s = rw (serve, at_end.1) refl

    serve_step :
        (f : ℕ) (stream : List ℕ) (w : Response) (s : S)
        → read_request_header x rpc stream ≡ ok w
        → (handle x rpc hs false w s).0 ≡ none
        → serve x rpc (suc f) hs stream s
          ≡ elim (serve x rpc f hs
              (handle x rpc hs false w s).1.body.stream
              (handle x rpc hs false w s).2) [
                | none ↦ none
                | some (replies, s') ↦ some ((handle x rpc hs false w s).1.out ∷ replies, s')
              ]
    unfolding serve
    serve_step f stream w s read e = rw (serve, read, e) refl

    -- A connection on which a client sends a list of calls, each in one fragment and of a length that
    -- the server takes, and then closes it, is served to its end: each call gets one reply, in the
    -- order of the calls, and each sees the state that those before it left. The packages xdr and rpc
    -- read back what a client writes, and a read at the end of the stream fails.
    pub serve-answers :
        (calls : List Call) (s : S)
        → AllFit x put_header calls
        → serve x rpc (suc (length calls)) hs (sent x put_header calls) s ≡ some (answers calls s)
    unfolding sent answers
    serve-answers [] s fits = serve_end 0 s
    serve-answers (c ∷ cs) s (fit, fits) =
        let (e, out, left, same) = handle-answer c (sent x put_header cs) s in
        let rest = serve-answers cs (answer_call c s).1 fits in
        serve_step (suc (length cs)) (sent x put_header (c ∷ cs))
          (new_response c.xid c.header (body_of c.args (sent x put_header cs))) s
          (read_request_header-put_fragment c (sent x put_header cs) fit) e
        ∙ rw (left, same, rest, out) refl
