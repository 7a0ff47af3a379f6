-- ===== src/Session/Results.antt =====
-- src/omsession.cc, `doTrxnL2`: a transaction leaves the results of queries alone.
use omicro.Base.{
  ◌≡◌, ◌∙◌, refl, arith, Bool, true, false, ℕ, Bytes, if◌then◌else◌, c_str, ◌==◌, ◌+◌,
}
use omicro.Base.Int.{ℤ, pos, negsuc}
use omicro.Trxn.{Trxn, Keys, Reals, get_trxn_id, init, is_init_trxn, get_xit, set_xit}
use omicro.TrxnState.{xit_i, xit_j, xit_k, xit_l, xit_m, xit_n, st_f}
use omicro.Circuit.{Maths, is_leader}
use omicro.Server.{Server, WaitCount, Ledger, multicast}
use omicro.Server.Results.{
  on_recv_k-q_result, on_recv_l-q_result, on_recv_m-q_result, on_recv_n-q_result,
}
use omicro.Session.{
  Session, Responses, recv_i, recv_j, recv_n, report, ask_followers, answer, proceed, submit,
  dispatch, judged, do_trxn_l2, init_trxn, refuse, reply_and_close, validate,
}

module _ (m : Maths) (keys : Keys) (r : Reals) (wc : WaitCount) (ledger : Ledger r)
    (resp : Responses) where
  abbrev State : Type 0
  State = Server m keys r wc ledger

  abbrev Sess : Type 0
  Sess = Session m keys r wc ledger resp

  -- The results are the same.
  abbrev Same : State → State → Type 0
  Same s s1 = s1.q_result ≡ s.q_result

  Same-if :
      (s : State) (x y : Sess) (b : Bool)
      → Same s x.server
      → Same s y.server
      → Same s (if b then x else y).server
  Same-if s x y true hx hy = hx
  Same-if s x y false hx hy = hy

  recv_i-Same : (s : State) (id : Bytes) (t : Trxn) → Same s (recv_i m keys r wc ledger resp s id t)
  unfolding recv_i ask_followers multicast
  recv_i-Same s id t =
      let s1 =
        ask_followers m keys r wc ledger resp s id (set_xit t xit_j)
          (is_leader m s.nodes t.beacon s.id true).1 in
      ground (arith, on_recv_k-q_result m keys r wc ledger s1 t.beacon id (set_xit t xit_j))

  recv_j-Same : (s : State) (t : Trxn) → Same s (recv_j m keys r wc ledger resp s t)
  unfolding recv_j multicast
  recv_j-Same s t = ground arith

  report-Same :
      (s : Sess) (id : Bytes) (t : Trxn) (nrc : ℤ) (errmsg : Bytes)
      → Same s.server (report m keys r wc ledger resp s id t nrc errmsg).server
  unfolding report answer reply_and_close
  report-Same s id t nrc errmsg = ground arith

  recv_n-Same :
      (s : Sess) (id : Bytes) (t : Trxn)
      → Same s.server (recv_n m keys r wc ledger resp s id t).server
  unfolding recv_n
  recv_n-Same s id t =
      let (s1, nrc, errmsg) = omicro.Server.on_recv_n m keys r wc ledger s.server t.beacon id t in
      let s2 : Sess = record s { server = omicro.Server.enter m keys r wc ledger s1 id st_f } in
      Same-if s.server s (report m keys r wc ledger resp s2 id t nrc errmsg) _ refl (
        report-Same s2 id t nrc errmsg
        ∙ on_recv_n-q_result m keys r wc ledger s.server t.beacon id t)

  proceed-Same :
      (s : Sess) (id : Bytes) (t : Trxn)
      → Same s.server (proceed m keys r wc ledger resp s id t).server
  unfolding proceed
  proceed-Same s id t =
      let x = get_xit t in
      let s0 = s.server in
      Same-if s0 _ _ (x == xit_i) (recv_i-Same s0 id t) (
        Same-if s0 _ _ (x == xit_j) (recv_j-Same s0 t) (
          Same-if s0 _ _ (x == xit_k) (on_recv_k-q_result m keys r wc ledger s0 t.beacon id t) (
            Same-if s0 _ _ (x == xit_l) (on_recv_l-q_result m keys r wc ledger s0 t.beacon id t) (
              Same-if s0 _ _ (x == xit_m) (on_recv_m-q_result m keys r wc ledger s0 t.beacon id t)
                (Same-if s0 _ s (x == xit_n) (recv_n-Same s id t) refl)))))

  dispatch-Same :
      (s : Sess) (id : Bytes) (t : Trxn) (sock : ℕ)
      → Same s.server (dispatch m keys r wc ledger resp s id t sock).server
  unfolding dispatch submit init_trxn multicast
  dispatch-Same s id t sock = Same-if s.server _ _ (is_init_trxn t) refl (proceed-Same s id t)

  judged-Same :
      (s : Sess) (id : Bytes) (t : Trxn) (sock : ℕ) (err : Bytes) (code : ℤ)
      → Same s.server (judged m keys r wc ledger resp s id t sock err code).server
  unfolding judged refuse reply_and_close
  judged-Same s id t sock err (pos n) = dispatch-Same s id t sock
  judged-Same s id t sock err (negsuc n) = Same-if s.server s _ (n + 1 == 900) refl refl

  pub do_trxn_l2-q_result :
      (s : Sess) (msg : Bytes) (sock : ℕ)
      → (do_trxn_l2 m keys r wc ledger resp s msg sock).server.q_result ≡ s.server.q_result
  unfolding do_trxn_l2
  do_trxn_l2-q_result s msg sock =
      let t = init keys.fresh_beacon (c_str msg) in
      let id = get_trxn_id t in
      let (code, err) = validate m keys r wc ledger resp s.server id t (is_init_trxn t) in
      judged-Same s id t sock err code
