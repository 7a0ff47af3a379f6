-- ===== src/Session/Questions.antt =====
-- src/omsession.cc, `doSimpleQuery` and the XIT_i branch of `doQueryL2`: what the vote on a query does
-- not tell.
use mathlib.Core.List.{append-nil}
use mathlib.Core.Option
use omicro.Base.{
  ℕ, ◌*◌, ◌/◌, ◌%◌, ◌^◌, ◌≤◌, ◌<◌, ◌≡◌, refl, ap, ◌∙◌, Bool, true, false, List, [], ◌∷◌, ◌++◌,
  arith, leb, ltb, Bytes, codes, eqb, eqb_refl, c_str, c_str-Free, Free, length, none, some,
}
use omicro.Base.Int.{pos}
use omicro.Json.{Json, write_strings, parse-write_strings, c_strings-Free, strings, find_member}
use omicro.Trxn.{Trxn, Keys, Reals, is_init_trxn, get_xit, set_xit, allstr, get_trxn_id}
use omicro.TrxnState.{go_state, xit_i, xit_j}
use omicro.Circuit.{Maths, is_leader}
use omicro.Server.{Server, WaitCount, Ledger, om_xnq, multicast, multicast_loop}
use omicro.Server.Queries.{on_recv_query_k, on_recv_query_l}
use omicro.Session.{Session, Responses}
use omicro.Session.Queries.{
  do_query_l2, judged_query, validate_query, proceed_query, query_i, query_of, do_simple_query,
  simple_answer, has_votes,
}

module _ (m : Maths) (keys : Keys) (r : Reals) (wc : WaitCount) (ledger : Ledger r)
    (resp : Responses) where
  abbrev State : Type 0
  State = Server m keys r wc ledger

  abbrev Sess : Type 0
  Sess = Session m keys r wc ledger resp

  -- The question for a result, as the client writes it.
  abbrev pub question : Json → Bytes → Bytes → Bytes → Bytes → Bytes
  question json qtype id sender ts =
      write_strings json
        ((codes "QT", qtype) ∷ (codes "TID", id) ∷ (codes "FRM", sender) ∷ (codes "TS", ts) ∷ [])

  pub do_simple_query-question :
      (json : Json) (s : Sess) (qtype id sender ts : Bytes)
      → Free 0 qtype
      → Free 0 id
      → Free 0 sender
      → Free 0 ts
      → do_simple_query m keys r wc ledger resp json s (question json qtype id sender ts)
        ≡ some (record s {
          replies =
              s.replies
              ++ (
                none,
                simple_answer m keys r wc ledger resp s.server
                    (c_str (question json qtype id sender ts))
                    qtype
                    id
                    sender
                    ts,
              )
                ∷ [];
        })
  unfolding do_simple_query find_member strings eqb
  do_simple_query-question json s qtype id sender ts h1 h2 h3 h4 =
      let plain =
        c_strings-Free
          ((codes "QT", qtype) ∷ (codes "TID", id) ∷ (codes "FRM", sender) ∷ (codes "TS", ts) ∷ [])
          ((omega arith, h1), ((omega arith, h2), ((omega arith, h3), ((omega arith, h4), tt)))) in
      rw (do_simple_query, parse-write_strings json _ plain)
        (rw (c_str-Free qtype h1, c_str-Free id h2, c_str-Free sender h3, c_str-Free ts h4) refl)

  -- The vote that makes the majority drops the count.
  on_recv_query_l-dropped :
      (s : State) (beacon id : Bytes)
      → (on_recv_query_l m keys r wc ledger s beacon id).1 ≡ pos 0
      → wc.get (on_recv_query_l m keys r wc ledger s beacon id).0.collect_query_l id ≡ 0
  unfolding on_recv_query_l
  on_recv_query_l-dropped s beacon id e =
      ground (arith, wc.get-erase (wc.add s.collect_query_l id 1) id id, eqb_refl id)

  on_recv_query_l-nodes :
      (s : State) (beacon id : Bytes)
      → ((on_recv_query_l m keys r wc ledger s beacon id).0.nodes ≡ s.nodes)
        × ((on_recv_query_l m keys r wc ledger s beacon id).0.id ≡ s.id)
  unfolding on_recv_query_l
  on_recv_query_l-nodes s beacon id = ground arith

  simple_answer-no_votes :
      (s : State) (msg id sender ts : Bytes)
      → 2 ≤ length s.nodes
      → length s.nodes < 2 ^ 31
      → wc.get s.collect_query_l id ≡ 0
      → simple_answer m keys r wc ledger resp s msg (codes "QQ") id sender ts
        ≡ resp.err_response sender s.id (codes "NOTFOUND") id (codes "NOT_ENOUGH_VOTES")
  unfolding simple_answer has_votes eqb
  simple_answer-no_votes s msg id sender ts two few none_yet =
      let lacking : leb (2 * length s.nodes % 2 ^ 32 / 3) (wc.get s.collect_query_l id) ≡ false =
        ground (arith, none_yet, two, few) in
      rw (simple_answer, lacking) refl

  -- Where a vote has just made the majority of the leaders for a query, at a node whose list has
  -- from 2 to 2^31 - 1 nodes: a client that asks for the result (QQ), with texts that have no NUL
  -- byte, is told NOT_ENOUGH_VOTES.
  pub do_simple_query-on_recv_query_l :
      (json : Json) (s : Sess) (beacon id sender ts : Bytes)
      → (on_recv_query_l m keys r wc ledger s.server beacon id).1 ≡ pos 0
      → 2 ≤ length s.server.nodes
      → length s.server.nodes < 2 ^ 31
      → Free 0 id
      → Free 0 sender
      → Free 0 ts
      → Option.map
          (λ (x : Sess). x.replies)
          (do_simple_query m keys r wc ledger resp json
            (record s { server = (on_recv_query_l m keys r wc ledger s.server beacon id).0 })
            (question json (codes "QQ") id sender ts))
        ≡ some (
            s.replies
            ++ (
              none,
              resp.err_response sender s.server.id (codes "NOTFOUND") id (codes "NOT_ENOUGH_VOTES"),
            )
              ∷ [])
  do_simple_query-on_recv_query_l json s beacon id sender ts made two few h1 h2 h3 =
      let server = (on_recv_query_l m keys r wc ledger s.server beacon id).0 in
      let kept = on_recv_query_l-nodes s.server beacon id in
      ap (Option.map (λ (x : Sess). x.replies)) (
        do_simple_query-question json (record s { server = server }) (codes "QQ") id sender ts
          (omega arith) h1 h2 h3)
      ∙ ap (λ x. some (s.replies ++ (none, x) ∷ []))
          (simple_answer-no_votes server _ id sender ts (rw kept.0 two) (rw kept.0 few)
              (on_recv_query_l-dropped s.server beacon id made)
            ∙ ap (λ x. resp.err_response sender x (codes "NOTFOUND") id (codes "NOT_ENOUGH_VOTES"))
                kept.1)

  on_recv_query_k-sent :
      (s : State) (beacon id : Bytes)
      → (on_recv_query_k m keys r wc ledger s beacon id).0.sent ≡ s.sent
  unfolding on_recv_query_k
  on_recv_query_k-sent s beacon id = ground arith

  multicast-nobody :
      (s : State) (msg_type : ℕ) (msg : Bytes)
      → (multicast m keys r wc ledger s msg_type [] msg).sent ≡ s.sent
  unfolding multicast multicast_loop
  multicast-nobody s msg_type msg = simp append-nil

  sent-on_recv_query_k-multicast :
      (s : State) (beacon id msg : Bytes) (hosts : List Bytes)
      → hosts ≡ []
      → (on_recv_query_k m keys r wc ledger
          (multicast m keys r wc ledger s om_xnq hosts msg)
          beacon
          id).0.sent
        ≡ s.sent
  sent-on_recv_query_k-multicast s beacon id msg hosts alone =
      on_recv_query_k-sent (multicast m keys r wc ledger s om_xnq hosts msg) beacon id
      ∙ ap (λ h. (multicast m keys r wc ledger s om_xnq h msg).sent) alone
      ∙ multicast-nobody s om_xnq msg

  query_i-alone :
      (s : State) (id : Bytes) (t : Trxn)
      → (is_leader m s.nodes t.beacon s.id true).1 ≡ []
      → (query_i m keys r wc ledger resp s id t).sent ≡ s.sent
  unfolding query_i
  query_i-alone s id t alone =
      let (ts_a, to_a) = go_state s.trxn_state s.level id xit_i in
      let (ts_b, to_b) = go_state ts_a s.level id xit_j in
      let s1 : State = record s { trxn_state = ts_b } in
      let none_left : ltb (length (is_leader m s.nodes t.beacon s.id true).1) 1 ≡ true =
        rw alone refl in
      rw none_left (
        ground (
          arith,
          sent-on_recv_query_k-multicast s1 t.beacon id (allstr (set_xit t xit_j))
              (is_leader m s.nodes t.beacon s.id true).1 alone,
        ))

  -- A check leaves the node and the trigger as they are.
  validate_query-kept :
      (s : State) (t : Trxn) (id : Bytes) (b : Bool)
      → let (s1, t1, valid, err) = validate_query m keys r wc ledger resp s t id b in
        (s1.sent ≡ s.sent)
        × (s1.nodes ≡ s.nodes)
        × (s1.id ≡ s.id)
        × (t1.beacon ≡ t.beacon)
        × (get_xit t1 ≡ get_xit t)
  unfolding validate_query get_xit
  validate_query-kept s t id b = ground arith

  judged_query-alone :
      (s : Sess) (id : Bytes) (t : Trxn) (sock connected : ℕ) (server : State) (t1 : Trxn)
      (valid : Bool) (err : Bytes)
      → is_init_trxn t ≡ false
      → get_xit t1 ≡ xit_i
      → (is_leader m server.nodes t1.beacon server.id true).1 ≡ []
      → (judged_query m keys r wc ledger resp s id t sock connected
          (server, t1, valid, err)).server.sent
        ≡ server.sent
  unfolding judged_query proceed_query
  judged_query-alone s id t sock connected server t1 valid err under_way trigger alone =
      rw (under_way, trigger) (ground (arith, query_i-alone server id t1 alone))

  -- A node without followers that gets the first message (XIT_i) of a query sends nothing, whatever
  -- the message, the state and the connections are.
  pub do_query_l2-alone :
      (s : Sess) (msg : Bytes) (sock connected : ℕ)
      → is_init_trxn (query_of m keys r wc ledger resp msg) ≡ false
      → get_xit (query_of m keys r wc ledger resp msg) ≡ xit_i
      → (is_leader m s.server.nodes
          (query_of m keys r wc ledger resp msg).beacon
          s.server.id
          true).1
        ≡ []
      → (do_query_l2 m keys r wc ledger resp s msg sock connected).server.sent ≡ s.server.sent
  unfolding do_query_l2
  do_query_l2-alone s msg sock connected under_way trigger alone =
      let t = query_of m keys r wc ledger resp msg in
      let id = get_trxn_id t in
      let (s1, t1, valid, err) =
        validate_query m keys r wc ledger resp s.server t id (is_init_trxn t) in
      let (sent, nodes, own, beacon, xit) = validate_query-kept s.server t id (is_init_trxn t) in
      judged_query-alone s id t sock connected s1 t1 valid err under_way (xit ∙ trigger)
        (rw (nodes, own, beacon) alone)
      ∙ sent
