-- ===== src/Session/Commit.antt =====
-- src/omsession.cc, `doTrxnL2`: how often a node hands a transaction to its storage, over any sequence
-- of messages.
use omicro.Base.{
  ℕ, ◌+◌, ◌≤◌, ◌≡◌, inl, inr, refl, ap, ◌∙◌, Bool, true, false, not, List, arith, ◌==◌, leb, ltb,
  if◌then◌else◌, Bool-cases, Bytes, length, c_str,
}
use omicro.Base.Int.{ℤ, pos, negsuc}
use omicro.Trxn.{Trxn, Keys, Reals, get_trxn_id, init, is_init_trxn, get_xit, set_xit}
use omicro.TrxnState.{
  get_state, go_state, set_state, st_f, xit_i, xit_j, xit_k, xit_l, xit_m, xit_n,
}
use omicro.TrxnState.Forward.{set_state-forward, set_state-reaches, go_state-forward}
use omicro.Circuit.{Maths, is_leader, get_leader}
use omicro.Server.{Server, WaitCount, Ledger, multicast, enter, on_recv_n}
use omicro.Server.Effects
use omicro.Server.Effects.{journaled, received, received-append, quiet, commits}
use omicro.Server.Commit.{on_recv_k-Effect, on_recv_l-Effect, on_recv_m-Effect}
use omicro.Session.{
  Session, Responses, recv_i, recv_j, recv_n, report, ask_followers, answer, proceed, submit,
  dispatch, judged, do_trxn_l2, init_trxn, refuse, reply_and_close, validate,
}

module _ (m : Maths) (keys : Keys) (r : Reals) (wc : WaitCount) (ledger : Ledger r)
    (resp : Responses) where
  abbrev L : Ledger r
  L = journaled ledger

  abbrev State : Type 0
  State = Server m keys r wc L

  abbrev pub Sess : Type 0
  Sess = Session m keys r wc L resp

  abbrev state_of : State → Bytes → ℕ
  state_of = Effects.state_of m keys r wc ledger

  abbrev Forward : State → State → Type 0
  Forward = Effects.Forward m keys r wc ledger

  abbrev Effect : State → State → Type 0
  Effect = Effects.Effect m keys r wc ledger

  abbrev Effect-refl : (s : State) → Effect s s
  Effect-refl = Effects.Effect-refl m keys r wc ledger

  abbrev Effect-if :
      (s x y : State) (b : Bool) → Effect s x → Effect s y → Effect s (if b then x else y)
  Effect-if = Effects.Effect-if m keys r wc ledger

  multicast-Effect :
      (s : State) (ty : ℕ) (hosts : List Bytes) (msg : Bytes)
      → Effect s (multicast m keys r wc L s ty hosts msg)
  unfolding multicast
  multicast-Effect s ty hosts msg = quiet (λ j h. h) refl

  recv_j-Effect : (s : State) (t : Trxn) → Effect s (recv_j m keys r wc L resp s t)
  unfolding recv_j multicast
  recv_j-Effect s t =
      Effect-if s _ s (not (get_leader m s.nodes t.beacon s.id).0) (quiet (λ j h. h) refl)
        (Effect-refl s)

  ask_followers-Effect :
      (s : State) (id : Bytes) (t : Trxn) (followers : List Bytes)
      → Forward s (ask_followers m keys r wc L resp s id t followers)
        × ((ask_followers m keys r wc L resp s id t followers).store ≡ s.store)
  unfolding ask_followers multicast
  ask_followers-Effect s id t followers = (
    λ j h.
        go_state-forward (go_state s.trxn_state s.level id xit_i).0 s.level id xit_j j
          (go_state-forward s.trxn_state s.level id xit_i j h),
    refl,
  )

  recv_i-Effect : (s : State) (t : Trxn) → Effect s (recv_i m keys r wc L resp s (get_trxn_id t) t)
  unfolding recv_i get_trxn_id set_xit
  recv_i-Effect s t =
      let id = get_trxn_id t in
      let t1 = set_xit t xit_j in
      let lead = is_leader m s.nodes t.beacon s.id true in
      let s1 = ask_followers m keys r wc L resp s id t1 lead.1 in
      let asked = ask_followers-Effect s id t1 lead.1 in
      Effect-if s s _ (not lead.0) (Effect-refl s) (
        Effect-if s _ _ (not (go_state s.trxn_state s.level id xit_i).1)
          (quiet (λ j. go_state-forward s.trxn_state s.level id xit_i j) refl)
          (Effect-if s _ s1 (ltb (length lead.1) 1)
            (Effects.Effect-after m keys r wc ledger s s1 _ asked.0 asked.1
              (on_recv_k-Effect m keys r wc ledger s1 t1))
            (quiet asked.0 asked.1)))

  -- The report changes neither the states nor the storage.
  report-server :
      (s : Sess) (id : Bytes) (t : Trxn) (nrc : ℤ) (errmsg : Bytes)
      → ((report m keys r wc L resp s id t nrc errmsg).server.trxn_state ≡ s.server.trxn_state)
        × ((report m keys r wc L resp s id t nrc errmsg).server.store ≡ s.server.store)
  unfolding report answer reply_and_close
  report-server s id t nrc errmsg = ground arith

  recv_n-server :
      (s : State) (t : Trxn)
      → Effect s (
          enter m keys r wc L
            (on_recv_n m keys r wc L s t.beacon (get_trxn_id t) t).0
            (get_trxn_id t)
            st_f)
  unfolding on_recv_n
  recv_n-server s t =
      let id = get_trxn_id t in
      let forward : (j : Bytes)
          → st_f ≤ state_of s j
          → st_f ≤ (get_state (set_state s.trxn_state id st_f) j).1 =
        λ j. set_state-forward s.trxn_state id j st_f (inr (omega arith)) in
      elim (Bool-cases (is_leader m s.nodes t.beacon s.id false).0) [
        | inl leads ↦ rw leads (quiet forward refl)
        | inr follows ↦ elim (Bool-cases (leb st_f (state_of s id))) [
          | inl done ↦ rw (follows, done) (quiet forward refl)
          | inr early ↦
              rw (follows, early)
                (commits t forward (ground (arith, early))
                  (set_state-reaches s.trxn_state id st_f (omega arith)) refl)
        ]
      ]

  -- An effect depends on the states and the storage alone.
  Effect-same :
      (s s1 s2 : State)
      → s2.trxn_state ≡ s1.trxn_state
      → s2.store ≡ s1.store
      → Effect s s1
      → Effect s s2
  Effect-same s s1 s2 e d (quiet f same) = quiet (rw e f) (d ∙ same)
  Effect-same s s1 s2 e d (commits t f low high same) =
      commits t (rw e f) low (rw e high) (ap (λ st. st.1) d ∙ same)

  recv_n-Effect :
      (s : Sess) (t : Trxn) → Effect s.server (recv_n m keys r wc L resp s (get_trxn_id t) t).server
  unfolding recv_n
  recv_n-Effect s t = elim (Bool-cases (state_of s.server (get_trxn_id t) == st_f)) [
    | inl done ↦ rw done (Effect-refl s.server)
    | inr early ↦
        let (s1, nrc, errmsg) = on_recv_n m keys r wc L s.server t.beacon (get_trxn_id t) t in
        let s2 : Sess = record s { server = enter m keys r wc L s1 (get_trxn_id t) st_f } in
        let same = report-server s2 (get_trxn_id t) t nrc errmsg in
        rw early (Effect-same s.server s2.server _ same.0 same.1 (recv_n-server s.server t))
  ]

  Effect-when :
      (s : State) (x y : Sess) (b : Bool)
      → Effect s x.server
      → Effect s y.server
      → Effect s (if b then x else y).server
  Effect-when s x y true ex ey = ex
  Effect-when s x y false ex ey = ey

  proceed-Effect :
      (s : Sess) (t : Trxn)
      → Effect s.server (proceed m keys r wc L resp s (get_trxn_id t) t).server
  unfolding proceed
  proceed-Effect s t =
      let x = get_xit t in
      let s0 = s.server in
      Effect-when s0 _ _ (x == xit_i) (recv_i-Effect s0 t) (
        Effect-when s0 _ _ (x == xit_j) (recv_j-Effect s0 t) (
          Effect-when s0 _ _ (x == xit_k) (on_recv_k-Effect m keys r wc ledger s0 t) (
            Effect-when s0 _ _ (x == xit_l) (on_recv_l-Effect m keys r wc ledger s0 t) (
              Effect-when s0 _ _ (x == xit_m) (on_recv_m-Effect m keys r wc ledger s0 t)
                (Effect-when s0 _ s (x == xit_n) (recv_n-Effect s t) (Effect-refl s0))))))

  dispatch-Effect :
      (s : Sess) (t : Trxn) (sock : ℕ)
      → Effect s.server (dispatch m keys r wc L resp s (get_trxn_id t) t sock).server
  unfolding dispatch submit init_trxn multicast
  dispatch-Effect s t sock =
      Effect-when s.server _ _ (is_init_trxn t) (quiet (λ j h. h) refl) (proceed-Effect s t)

  judged-Effect :
      (s : Sess) (t : Trxn) (sock : ℕ) (err : Bytes) (code : ℤ)
      → Effect s.server (judged m keys r wc L resp s (get_trxn_id t) t sock err code).server
  unfolding judged refuse reply_and_close
  judged-Effect s t sock err (pos n) = dispatch-Effect s t sock
  judged-Effect s t sock err (negsuc n) =
      Effect-when s.server s _ (n + 1 == 900) (Effect-refl s.server) (Effect-refl s.server)

  pub do_trxn_l2-Effect :
      (s : Sess) (msg : Bytes) (sock : ℕ)
      → Effect s.server (do_trxn_l2 m keys r wc L resp s msg sock).server
  unfolding do_trxn_l2
  do_trxn_l2-Effect s msg sock =
      let t = init keys.fresh_beacon (c_str msg) in
      let (code, err) = validate m keys r wc L resp s.server (get_trxn_id t) t (is_init_trxn t) in
      judged-Effect s t sock err code
