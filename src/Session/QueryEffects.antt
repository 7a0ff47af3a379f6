-- ===== src/Session/QueryEffects.antt =====
-- src/omsession.cc, `doQueryL2`: a query never takes a transaction back from commitment, and leaves the
-- storage alone.
use omicro.Base.{
  ℕ, ◌≤◌, ◌≡◌, inl, inr, refl, sym, subst, ◌∙◌, Bool, true, false, not, arith, ◌==◌, leb, ltb, ◌/◌,
  ◌+◌, if◌then◌else◌, Bool-cases, Option-cases, Bytes, length, [], ◌∷◌,
}
use omicro.Base.Dict
use omicro.Trxn.{Trxn, Keys, Reals, get_trxn_id, is_init_trxn, get_xit, set_xit, allstr}
use omicro.TrxnState.{go_state, get_state, set_state, st_f, st_c, st_d, xit_i, xit_j, xit_k, xit_l}
use omicro.TrxnState.Forward.{set_state-forward, go_state-forward}
use omicro.Circuit.{Maths, is_leader, get_zone_leaders}
use omicro.Quorum.{twofplus1}
use omicro.Server.{Server, WaitCount, Ledger, multicast, cur_state, om_xnq}
use omicro.Server.Effects
use omicro.Server.Effects.{journaled, quiet, Effect}
use omicro.Server.Queries.{on_recv_query_k, on_recv_query_l}
use omicro.Session.{Session, Responses, reply_and_close}
use omicro.Session.Queries.{
  do_query_l2, judged_query, validate_query, start_query, init_query, proceed_query, query_i,
  query_j, query_k, query_l, send_result, query_of, is_self, initer_host, is_zero,
}

module _ (m : Maths) (keys : Keys) (r : Reals) (wc : WaitCount) (ledger : Ledger r)
    (resp : Responses) where
  abbrev L : Ledger r
  L = journaled ledger

  abbrev State : Type 0
  State = Server m keys r wc L

  abbrev Sess : Type 0
  Sess = Session m keys r wc L resp

  abbrev Forward : State → State → Type 0
  Forward = Effects.Forward m keys r wc ledger

  -- No transaction goes back from commitment, and the storage is the same.
  abbrev Quiet : State → State → Type 0
  Quiet s s1 = Forward s s1 × (s1.store ≡ s.store)

  Quiet-if : (s x y : State) (b : Bool) → Quiet s x → Quiet s y → Quiet s (if b then x else y)
  Quiet-if s x y true hx hy = hx
  Quiet-if s x y false hx hy = hy

  Quiet-when :
      (s : State) (x y : Sess) (b : Bool)
      → Quiet s x.server
      → Quiet s y.server
      → Quiet s (if b then x else y).server
  Quiet-when s x y true hx hy = hx
  Quiet-when s x y false hx hy = hy

  Quiet-refl : (s : State) → Quiet s s
  Quiet-refl s = (λ j h. h, refl)

  entered :
      (s : State) (id : Bytes) (st : ℕ)
      → leb st (cur_state m keys r wc L s id) ≡ false
      → (j : Bytes) → st_f ≤ cur_state m keys r wc L s j
      → st_f ≤ (get_state (set_state s.trxn_state id st) j).1
  entered s id st low j = set_state-forward s.trxn_state id j st (inl (ground (arith, low)))

  on_recv_query_k-Quiet :
      (s : State) (beacon id : Bytes) → Quiet s (on_recv_query_k m keys r wc L s beacon id).0
  unfolding on_recv_query_k
  on_recv_query_k-Quiet s beacon id =
      let lead = is_leader m s.nodes beacon s.id true in
      elim (Bool-cases (not lead.0)) [
        | inl other ↦ rw other (Quiet-refl s)
        | inr leads ↦ elim (Bool-cases (leb st_c (cur_state m keys r wc L s id))) [
          | inl passed ↦ rw (leads, passed) (Quiet-refl s)
          | inr low ↦
              elim (Bool-cases
                (leb (twofplus1 (length lead.1 + 1)) (wc.get (wc.add s.collect_query_k id 1) id))) [
                  | inl enough ↦ rw (leads, low, enough) (entered s id st_c low, refl)
                  | inr few ↦ rw (leads, low, few) (λ j h. h, refl)
                ]
        ]
      ]

  on_recv_query_l-Quiet :
      (s : State) (beacon id : Bytes) → Quiet s (on_recv_query_l m keys r wc L s beacon id).0
  unfolding on_recv_query_l
  on_recv_query_l-Quiet s beacon id = elim (Bool-cases (leb st_d (cur_state m keys r wc L s id))) [
    | inl passed ↦ rw passed (Quiet-refl s)
    | inr low ↦
        elim (Bool-cases (
          leb (length (get_zone_leaders m s.nodes beacon) / 2 + 1)
            (wc.get (wc.add s.collect_query_l id 1) id))) [
              | inl enough ↦ rw (low, enough) (entered s id st_d low, refl)
              | inr few ↦ rw (low, few) (λ j h. h, refl)
            ]
  ]

  Quiet-after : (s s1 s2 : State) → Quiet s s1 → Quiet s1 s2 → Quiet s s2
  Quiet-after s s1 s2 h k = (λ j f. k.0 j (h.0 j f), k.1 ∙ h.1)

  query_i-Quiet : (s : State) (id : Bytes) (t : Trxn) → Quiet s (query_i m keys r wc L resp s id t)
  unfolding query_i multicast
  query_i-Quiet s id t =
      let lead = is_leader m s.nodes t.beacon s.id true in
      let once = go_state s.trxn_state s.level id xit_i in
      let twice = go_state once.0 s.level id xit_j in
      let forward : Forward s (record s { trxn_state = twice.0 }) = λ j h.
        go_state-forward once.0 s.level id xit_j j
          (go_state-forward s.trxn_state s.level id xit_i j h) in
      let s2 =
        multicast m keys r wc L (record s { trxn_state = twice.0 }) om_xnq lead.1
          (allstr (set_xit t xit_j)) in
      Quiet-if s s _ (not lead.0) (Quiet-refl s) (
        Quiet-if s _ _ (not once.1) (go_state-forward s.trxn_state s.level id xit_i, refl)
          (Quiet-if s _ _ (ltb (length lead.1) 1)
            (Quiet-after s s2 (on_recv_query_k m keys r wc L s2 t.beacon id).0 (forward, refl)
              (on_recv_query_k-Quiet s2 t.beacon id))
            (forward, refl)))

  query_j-Quiet : (s : State) (t : Trxn) → Quiet s (query_j m keys r wc L resp s t)
  unfolding query_j multicast
  query_j-Quiet s t =
      Quiet-if s _ s (not (omicro.Circuit.get_leader m s.nodes t.beacon s.id).0) (λ j h. h, refl)
        (Quiet-refl s)

  query_k-Quiet : (s : State) (id : Bytes) (t : Trxn) → Quiet s (query_k m keys r wc L resp s id t)
  unfolding query_k multicast
  query_k-Quiet s id t =
      let voted = on_recv_query_k-Quiet s t.beacon id in
      let (s1, krc) = on_recv_query_k m keys r wc L s t.beacon id in
      let s2 =
        multicast m keys r wc L s1 om_xnq (initer_host m keys r wc L resp t ∷ [])
          (allstr (set_xit t xit_l)) in
      Quiet-if s (if is_self m keys r wc L resp s1 t then s1 else s2) s1 (is_zero krc)
        (Quiet-if s s1 s2 (is_self m keys r wc L resp s1 t) voted voted) voted

  send_result-Quiet :
      (s : Sess) (id : Bytes) (t : Trxn)
      → Quiet s.server (send_result m keys r wc L resp s id t).server
  unfolding send_result
  send_result-Quiet s id t =
      elim (Option-cases (Dict.find id s.server.query_initer_client_socket)) [
        | inl absent ↦ rw (send_result, absent) (Quiet-refl s.server)
        | inr (sock, there) ↦ rw (send_result, there) (λ j h. h, refl)
      ]

  query_l-Quiet :
      (s : Sess) (id : Bytes) (t : Trxn) → Quiet s.server (query_l m keys r wc L resp s id t).server
  unfolding query_l
  query_l-Quiet s id t =
      let voted = on_recv_query_l-Quiet s.server t.beacon id in
      let s1 : Sess = record s {
        server = (on_recv_query_l m keys r wc L s.server t.beacon id).0;
      } in
      Quiet-when s.server _ s1 _
        (Quiet-after s.server s1.server (send_result m keys r wc L resp s1 id t).server voted
          (send_result-Quiet s1 id t))
        voted

  proceed_query-Quiet :
      (s : Sess) (id : Bytes) (t : Trxn)
      → Quiet s.server (proceed_query m keys r wc L resp s id t).server
  unfolding proceed_query
  proceed_query-Quiet s id t =
      let x = get_xit t in
      Quiet-when s.server _ _ (x == xit_i) (query_i-Quiet s.server id t) (
        Quiet-when s.server _ _ (x == xit_j) (query_j-Quiet s.server t) (
          Quiet-when s.server _ _ (x == xit_k) (query_k-Quiet s.server id t)
            (Quiet-when s.server _ s (x == xit_l) (query_l-Quiet s id t) (Quiet-refl s.server))))

  start_query-Quiet :
      (s : Sess) (id : Bytes) (t : Trxn) (sock connected : ℕ)
      → Quiet s.server (start_query m keys r wc L resp s id t sock connected).server
  unfolding start_query init_query multicast reply_and_close
  start_query-Quiet s id t sock connected =
      Quiet-when s.server _ _ _ (λ j h. h, refl) (λ j h. h, refl)

  judged_query-Quiet :
      (s : Sess) (id : Bytes) (t : Trxn) (sock connected : ℕ) (server : State) (t1 : Trxn)
      (valid : Bool) (err : Bytes)
      → Quiet s.server server
      → Quiet s.server
          (judged_query m keys r wc L resp s id t sock connected (server, t1, valid, err)).server
  unfolding judged_query
  judged_query-Quiet s id t sock connected server t1 valid err h =
      let s1 : Sess = record s { server = server } in
      Quiet-when s.server _ _ (not valid) h (
        Quiet-when s.server _ _ (is_init_trxn t)
          (Quiet-after s.server server
            (start_query m keys r wc L resp s1 id t1 sock connected).server h
            (start_query-Quiet s1 id t1 sock connected))
          (Quiet-after s.server server (proceed_query m keys r wc L resp s1 id t1).server h
            (proceed_query-Quiet s1 id t1)))

  validate_query-Quiet :
      (s : State) (t : Trxn) (id : Bytes) (b : Bool)
      → ((validate_query m keys r wc L resp s t id b).0.trxn_state ≡ s.trxn_state)
        × ((validate_query m keys r wc L resp s t id b).0.store ≡ s.store)
  unfolding validate_query
  validate_query-Quiet s t id b = ground arith

  pub do_query_l2-Effect :
      (s : Sess) (msg : Bytes) (sock connected : ℕ)
      → Effect m keys r wc ledger s.server
          (do_query_l2 m keys r wc L resp s msg sock connected).server
  unfolding do_query_l2
  do_query_l2-Effect s msg sock connected =
      let t = query_of m keys r wc L resp msg in
      let id = get_trxn_id t in
      let checked = validate_query m keys r wc L resp s.server t id (is_init_trxn t) in
      let (states, store) = validate_query-Quiet s.server t id (is_init_trxn t) in
      let (forward, same) =
        judged_query-Quiet s id t sock connected checked.0 checked.1 checked.2 checked.3
          (λ j h. subst (λ ts. st_f ≤ (get_state ts j).1) (sym states) h, store) in
      quiet forward same
