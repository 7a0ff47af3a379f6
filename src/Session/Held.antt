-- ===== src/Session/Held.antt =====
-- src/omsession.cc: which results of queries a node holds.
use omicro.Base.{
  ℕ, ◌≡◌, ◌⊎◌, inl, inr, refl, ap, sym, subst, ◌∙◌, Bool, true, false, List, arith, if◌then◌else◌,
  Bool-cases, Option-cases, Bytes, eqb, eqb_iff, some,
}
use omicro.Base.Int.{is_negative}
use omicro.Base.Dict
use omicro.Trxn.{Trxn, Keys, Reals, is_init_trxn, get_trxn_id, validate_trxn}
use omicro.Circuit.{Maths}
use omicro.WaitStr
use omicro.WaitStr.{WaitStr, get-add_if}
use omicro.Server.{Server, WaitCount, Ledger, multicast}
use omicro.Server.Queries.{on_recv_query_k, on_recv_query_l}
use omicro.Session.{Session, Responses, reply_and_close}
use omicro.Session.Queries.{
  do_query_l2, judged_query, validate_query, start_query, init_query, proceed_query, query_i,
  query_j, query_k, query_l, send_result, query_of, now_seconds,
}

module _ (m : Maths) (keys : Keys) (r : Reals) (wc : WaitCount) (ledger : Ledger r)
    (resp : Responses) where
  abbrev State : Type 0
  State = Server m keys r wc ledger

  abbrev Sess : Type 0
  Sess = Session m keys r wc ledger resp

  -- What decides on the results: the key, the storage and what is held.
  abbrev Basis : Type 0
  Basis = Bytes × ledger.Store × WaitStr

  abbrev basis : State → Basis
  basis s = (s.sec_key, s.store, s.q_result)

  basis-multicast :
      (s : State) (msg_type : ℕ) (hosts : List Bytes) (msg : Bytes)
      → basis (multicast m keys r wc ledger s msg_type hosts msg) ≡ basis s
  unfolding multicast
  basis-multicast s msg_type hosts msg = refl

  basis-on_recv_query_k :
      (s : State) (beacon id : Bytes)
      → basis (on_recv_query_k m keys r wc ledger s beacon id).0 ≡ basis s
  unfolding on_recv_query_k
  basis-on_recv_query_k s beacon id = ground arith

  basis-on_recv_query_l :
      (s : State) (beacon id : Bytes)
      → basis (on_recv_query_l m keys r wc ledger s beacon id).0 ≡ basis s
  unfolding on_recv_query_l
  basis-on_recv_query_l s beacon id = ground arith

  basis-query_i :
      (s : State) (id : Bytes) (t : Trxn) → basis (query_i m keys r wc ledger resp s id t) ≡ basis s
  unfolding query_i multicast on_recv_query_k
  basis-query_i s id t = ground arith

  basis-query_j : (s : State) (t : Trxn) → basis (query_j m keys r wc ledger resp s t) ≡ basis s
  unfolding query_j multicast
  basis-query_j s t = ground arith

  basis-query_k :
      (s : State) (id : Bytes) (t : Trxn) → basis (query_k m keys r wc ledger resp s id t) ≡ basis s
  unfolding query_k multicast
  basis-query_k s id t = ground (arith, basis-on_recv_query_k s t.beacon id)

  basis-send_result :
      (s : Sess) (id : Bytes) (t : Trxn)
      → basis (send_result m keys r wc ledger resp s id t).server ≡ basis s.server
  unfolding send_result
  basis-send_result s id t =
      elim (Option-cases (Dict.find id s.server.query_initer_client_socket)) [
        | inl absent ↦ rw (send_result, absent) refl
        | inr (sock, there) ↦ rw (send_result, there) refl
      ]

  basis-query_l :
      (s : Sess) (id : Bytes) (t : Trxn)
      → basis (query_l m keys r wc ledger resp s id t).server ≡ basis s.server
  unfolding query_l
  basis-query_l s id t =
      let s1 = record s { server = (on_recv_query_l m keys r wc ledger s.server t.beacon id).0 } in
      ground (arith, basis-send_result s1 id t, basis-on_recv_query_l s.server t.beacon id)

  basis-proceed_query :
      (s : Sess) (id : Bytes) (t : Trxn)
      → basis (proceed_query m keys r wc ledger resp s id t).server ≡ basis s.server
  unfolding proceed_query
  basis-proceed_query s id t = ground (
    arith,
    basis-query_i s.server id t,
    basis-query_j s.server t,
    basis-query_k s.server id t,
    basis-query_l s id t,
  )

  basis-start_query :
      (s : Sess) (id : Bytes) (t : Trxn) (sock connected : ℕ)
      → basis (start_query m keys r wc ledger resp s id t sock connected).server ≡ basis s.server
  unfolding start_query init_query multicast reply_and_close
  basis-start_query s id t sock connected = ground arith

  basis-judged_query :
      (s : Sess) (id : Bytes) (t : Trxn) (sock connected : ℕ) (server : State) (t1 : Trxn)
      (valid : Bool) (err : Bytes)
      → basis
          (judged_query m keys r wc ledger resp s id t sock connected
            (server, t1, valid, err)).server
        ≡ basis server
  unfolding judged_query
  basis-judged_query s id t sock connected server t1 valid err = ground (
    arith,
    basis-start_query (record s { server = server }) id t1 sock connected,
    basis-proceed_query (record s { server = server }) id t1,
  )

  -- A message of a query under way, valid, whose response is the result that the storage gives.
  abbrev pub Own : Bytes → ledger.Store → Bytes → Bytes → Bytes → Type 0
  Own sec_key store id res msg =
      let t = query_of m keys r wc ledger resp msg in
      (get_trxn_id t ≡ id)
      × (is_init_trxn t ≡ false)
      × (validate_trxn r keys sec_key t ≡ true)
      × (is_negative (ledger.run_query store t).0 ≡ false)
      × ((ledger.run_query store t).1 ≡ res)
      × (t.response ≡ res)

  abbrev added : Basis → Bytes → Bytes → Basis
  added b id res = (b.0, b.1, WaitStr.add (now_seconds m keys r wc ledger resp) id res b.2)

  -- A check holds nothing new, or a result that is the storage's and the message's.
  basis-validate_query :
      (s : State) (t : Trxn) (id : Bytes) (b : Bool)
      → (basis (validate_query m keys r wc ledger resp s t id b).0 ≡ basis s)
        ⊎ ((b ≡ false)
            × (validate_trxn r keys s.sec_key t ≡ true)
            × (is_negative (ledger.run_query s.store t).0 ≡ false)
            × (t.response ≡ (ledger.run_query s.store t).1)
            × (basis (validate_query m keys r wc ledger resp s t id b).0
                ≡ added (basis s) id (ledger.run_query s.store t).1))
  unfolding validate_query
  basis-validate_query s t id b = ground (arith, eqb_iff t.response (ledger.run_query s.store t).1)

  basis-do_query_l2 :
      (s : Sess) (msg : Bytes) (sock connected : ℕ)
      → (basis (do_query_l2 m keys r wc ledger resp s msg sock connected).server ≡ basis s.server)
        ⊎ ((id : Bytes) × (res : Bytes) × Own s.server.sec_key s.server.store id res msg
            × (basis (do_query_l2 m keys r wc ledger resp s msg sock connected).server
                ≡ added (basis s.server) id res))
  unfolding do_query_l2
  basis-do_query_l2 s msg sock connected =
      let t = query_of m keys r wc ledger resp msg in
      let id = get_trxn_id t in
      let checked = validate_query m keys r wc ledger resp s.server t id (is_init_trxn t) in
      let after =
        basis-judged_query s id t sock connected checked.0 checked.1 checked.2 checked.3 in
      elim (basis-validate_query s.server t id (is_init_trxn t)) [
        | inl same ↦ inl (after ∙ same)
        | inr (under_way, valid, answered, agrees, more) ↦ inr (
          id,
          (ledger.run_query s.server.store t).1,
          (refl, under_way, valid, answered, refl, agrees),
          after ∙ more,
        )
      ]

  -- A result that is held after one is added was held before, or is the message's.
  held-added :
      (b : Basis) (id j res1 res msg : Bytes)
      → Own b.0 b.1 j res1 msg
      → WaitStr.get id (added b j res1).2 ≡ some res
      → (WaitStr.get id b.2 ≡ some res) ⊎ Own b.0 b.1 id res msg
  held-added b id j res1 res msg own held =
      let now : (if eqb j id
            then some (Dict.or_else (WaitStr.get j b.2) res1)
            else WaitStr.get id b.2)
          ≡ some res =
        sym (get-add_if (now_seconds m keys r wc ledger resp) j id res1 b.2) ∙ held in
      elim (Bool-cases (eqb j id)) [
        | inr other ↦ inl (rw other at now)
        | inl same ↦
            let equal : j ≡ id = (eqb_iff j id).0 same in
            elim (Option-cases (WaitStr.get j b.2)) [
              | inl absent ↦
                  let fresh : res1 ≡ res = cc (rw (same, absent) at now) in
                  inr (
                    subst (λ k. Own b.0 b.1 k res msg) equal
                      (subst (λ x. Own b.0 b.1 j x msg) fresh own))
              | inr (w, there) ↦
                  let old : w ≡ res = cc (rw (same, there) at now) in
                  inl (subst (λ k. WaitStr.get k b.2 ≡ some res) equal (there ∙ ap some old))
            ]
      ]

  pub do_query_l2-held :
      (s : Sess) (id res text : Bytes) (sock connected : ℕ)
      → WaitStr.get id (do_query_l2 m keys r wc ledger resp s text sock connected).server.q_result
        ≡ some res
      → (WaitStr.get id s.server.q_result ≡ some res)
        ⊎ Own s.server.sec_key s.server.store id res text
  do_query_l2-held s id res text sock connected held =
      elim (basis-do_query_l2 s text sock connected) [
        | inl same ↦ inl (subst (λ (b : Basis). WaitStr.get id b.2 ≡ some res) same held)
        | inr (j, res1, own, more) ↦
            held-added (basis s.server) id j res1 res text own
              (subst (λ (b : Basis). WaitStr.get id b.2 ≡ some res) more held)
      ]
