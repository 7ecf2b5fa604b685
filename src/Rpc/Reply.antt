-- ===== src/Rpc/Reply.antt =====
-- conn.go: every request that is handled gets one reply, and which.
use go_nfs.Base.{◌≤◌, ◌-◌, ap, drop, drop-drop, arith}
use go_nfs.Rpc.{min}
use go_nfs.Base.{take, ◌-◌, Option}
use go_nfs.Rpc.{answer_failure, after_handler, HandleFunc, run_handler}
use go_nfs.Rpc.{handle, header_only, write_bytes, write_response}
use go_nfs.Base.{ℕ, ◌≡◌, refl, false, none, some, List, [], ◌∷◌, ◌++◌}
use go_nfs.Errors.{RpcError, code, marshal_binary, as_rpc_error, or_system, basic_error_formatter}
use go_nfs.Errors.Chain.{Error}
use go_nfs.Errors.Codes.{ResponseCode}
use go_nfs.Rpc.{
  RpcHeader, RpcLib, Body, advance, Response, new_response, Act, Outcome, header_bytes,
  write_header, perform, reply_error, drain, Handlers, handler_for,
}
use go_nfs.Xdr.{Xdr}
use go_nfs.Base.{◌∙◌, true}
use mathlib.Core.List.{append_assoc, append-nil}

abbrev pub body : ℕ → List ℕ → Body
body n bytes = record { limit = n; stream = bytes }

pub body-eq : {k l : ℕ} {xs ys : List ℕ} → k ≡ l → xs ≡ ys → body k xs ≡ body l ys
body-eq p q = cc

module _ (x : Xdr) (rpc : RpcLib) where
  -- the bytes that a handler writes
  pub written : List Act → List ℕ
  written [] = []
  written (header_only ∷ acts) = written acts
  written (write_bytes dat ∷ acts) = dat ++ written acts

  -- the reply with an error
  abbrev pub error_reply : ℕ → RpcError → List ℕ
  error_reply xid r = header_bytes x rpc xid (code r) ++ marshal_binary r

  -- The reply to a request whose handler has that outcome: what it has written, if it has written
  -- anything, else its error, else that the system failed.
  pub reply_of : ℕ → Outcome → List ℕ
  reply_of xid o = elim o.acts [
    | a ∷ acts ↦ header_bytes x rpc xid ResponseCode.success ++ written (a ∷ acts)
    | [] ↦ elim o.failed [
      | some e ↦ error_reply xid (o.format e)
      | none ↦ error_reply xid (o.format Error.system_error)
    ]
  ]

  -- a response after it was answered with those bytes, and before it is
  abbrev answered : Response → List ℕ → Response
  answered w bytes = record w { responded = true; out = bytes }

  abbrev fresh : Response → Response
  fresh w = record w { responded = false; out = [] }

  perform_more :
      (acts : List Act) (w : Response) (bytes : List ℕ)
      → perform x rpc acts (answered w bytes) ≡ answered w (bytes ++ written acts)
  unfolding perform write_response write_header written
  perform_more [] w bytes = rw append-nil refl
  perform_more (header_only ∷ acts) w bytes = perform_more acts w bytes
  perform_more (write_bytes dat ∷ acts) w bytes =
      perform_more acts w (bytes ++ dat) ∙ rw append_assoc refl

  perform_first :
      (a : Act) (acts : List Act) (w : Response)
      → perform x rpc (a ∷ acts) (fresh w)
        ≡ answered w (header_bytes x rpc w.xid ResponseCode.success ++ written (a ∷ acts))
  unfolding perform write_response write_header written
  perform_first header_only acts w = perform_more acts w _
  perform_first (write_bytes dat) acts w =
      perform_more acts w (header_bytes x rpc w.xid ResponseCode.success ++ dat)
      ∙ rw append_assoc refl

  reply_error-fresh :
      (w : Response) (e : Error)
      → reply_error x rpc false (fresh w) e ≡ (
        none,
        record (answered w (error_reply w.xid (w.error_fmt e))) {
          reply_err = elim w.reply_err [ none ↦ some e | some f ↦ some f ];
        },
      )
  unfolding reply_error write_header write_response
  reply_error-fresh w e = refl

  advance-advance :
      (r : Body) (n : ℕ)
      → n ≤ r.limit
      → advance (advance n r).limit (advance n r) ≡ advance r.limit r
  unfolding advance
  advance-advance r n small =
      body-eq (omega arith)
        (drop-drop (r.limit - n) n r.stream ∙ ap (λ (k : ℕ). drop k r.stream) (omega arith))

  module _ {S : Type 0} (hs : Handlers S) (xid : ℕ) (h : RpcHeader) (r : Body) (s : S) where
    -- A request without a handler is answered with the error of an unavailable procedure, and the
    -- rest of its frame is skipped.
    pub handle-unknown :
        handler_for hs h.prog h.proc ≡ none
        → ((handle x rpc hs false (new_response xid h r) s).0 ≡ none)
          × ((handle x rpc hs false (new_response xid h r) s).1.out
              ≡ error_reply xid RpcError.proc_unavailable)
          × ((handle x rpc hs false (new_response xid h r) s).1.body ≡ advance r.limit r)
          × ((handle x rpc hs false (new_response xid h r) s).2 ≡ s)
    unfolding handle drain basic_error_formatter as_rpc_error or_system
    handle-unknown absent =
        rw (handle, absent)
          (unfold reply_error write_header write_response in (refl, refl, refl, refl))

    after-answered :
        (failed : Option Error) (w : Response) (bytes : List ℕ)
        → after_handler x rpc false failed (answered w bytes)
          ≡ (none, record (answered w bytes) { body = advance w.body.limit w.body })
    unfolding after_handler drain answer_failure
    after-answered none w bytes = refl
    after-answered (some e) w bytes = refl

    after-acts :
        (act : Act) (acts : List Act) (failed : Option Error) (w : Response)
        → after_handler x rpc false failed (perform x rpc (act ∷ acts) (fresh w)) ≡ (
          none,
          record (answered w
              (header_bytes x rpc w.xid ResponseCode.success ++ written (act ∷ acts))) {
                body = advance w.body.limit w.body;
              },
        )
    after-acts act acts failed w = rw (perform_first act acts w) (after-answered failed w _)

    -- the response that a handler is given, with its formatter and what it leaves of the body
    abbrev given : (Error → RpcError) → Body → Response
    given fmt left = record (new_response xid h left) { error_fmt = fmt }

    after-given :
        (o : Outcome) (left : Body)
        → let (e, w) =
            after_handler x rpc false o.failed (perform x rpc o.acts (given o.format left)) in
          (e ≡ none)
          × (w.out ≡ reply_of xid o)
          × (w.responded ≡ true)
          × (w.body ≡ advance left.limit left)
    unfolding after_handler drain answer_failure reply_error write_header write_response perform
        reply_of
    after-given o left = go o.acts o.failed refl refl
      where
        go :
            (acts : List Act) (failed : Option Error)
            → o.acts ≡ acts
            → o.failed ≡ failed
            → let (e, w) =
                after_handler x rpc false o.failed (perform x rpc o.acts (given o.format left)) in
              (e ≡ none)
              × (w.out ≡ reply_of xid o)
              × (w.responded ≡ true)
              × (w.body ≡ advance left.limit left)
        go [] none a f = rw (a, f) (refl, refl, refl, refl)
        go [] (some e) a f = rw (a, f) (refl, refl, refl, refl)
        go (act ∷ acts) failed a f =
            let done = after-acts act acts failed (given o.format left) in
            rw (a, f)
              (
                ap (λ (q : Option Error × Response). q.0) done,
                ap (λ (q : Option Error × Response). q.1.out) done,
                ap (λ (q : Option Error × Response). q.1.responded) done,
                ap (λ (q : Option Error × Response). q.1.body) done,
              )

    -- Where the context of the connection is not done, a request with a handler gets one reply, that of the outcome of the handler, the rest of its
    -- frame is skipped, and no error ends the connection.
    pub handle-reply :
        (g : HandleFunc S)
        → handler_for hs h.prog h.proc ≡ some g
        → let (o, s') = g h (take r.limit r.stream) s in
          let (e, w, s'') = handle x rpc hs false (new_response xid h r) s in
          (e ≡ none)
          × (w.out ≡ reply_of xid o)
          × (w.responded ≡ true)
          × (w.body ≡ advance r.limit r)
          × (s'' ≡ s')
    unfolding handle run_handler
    handle-reply g found =
        let (o, s') = g h (take r.limit r.stream) s in
        let (e, out, responded, body) = after-given o (advance (min o.consumed r.limit) r) in
        rw (handle, found)
          (e, out, responded, body ∙ advance-advance r (min o.consumed r.limit) (omega arith), refl)
