-- ===== src/Session/Queries.antt =====
-- src/omsession.cc, `doQueryL2`, `doSimpleQuery` and what they call: a query that all nodes answer and
-- vote on, and a question to one node. How many hosts `multicast` could connect to is an argument
-- (`connected`), as is the JSON library. `stoul` of a port is `atol`; where `stoul` throws is told in Session/Handlers. A reply on a socket that stays open is only listed in `replies`.
use omicro.Base.{
  ℕ, ◌*◌, ◌/◌, ◌%◌, ◌^◌, Bool, true, false, not, ◌&&◌, [], ◌∷◌, ◌++◌, leb, ltb, ◌==◌, if◌then◌else◌,
  Bytes, eqb, codes, length, Option, none, some, c_str,
}
use omicro.Base.Int.{ℤ, pos, negsuc, is_negative}
use omicro.Base.Dict
use omicro.Json.{Json, Value, str, obj, find_member}
use omicro.Trxn.{
  Trxn, Keys, Reals, init, get_xit, set_xit, is_init_trxn, set_not_init_trxn, get_trxn_id, allstr,
  validate_trxn, om_query, get_initer_ip, get_initer_port,
}
use omicro.TrxnState.{go_state, xit_i, xit_j, xit_k, xit_l}
use omicro.Quorum.{twofplus1}
use omicro.Circuit.{Maths, is_leader, get_leader, get_zone_leaders}
use omicro.WaitStr
use omicro.Server.{Server, WaitCount, Ledger, om_xnq, or_empty, multicast}
use omicro.Server.Queries.{on_recv_query_k, on_recv_query_l}
use omicro.Session.{Session, Responses, Response, reply_and_close}

-- `OmResponse` before a field is set: `STT_` is not OK.
abbrev pub no_response : Response
no_response = record { tid = []; uid = []; nid = []; stt = false; rsn = []; dat = [] }

abbrev pub is_zero : ℤ → Bool
is_zero (pos n) = n == 0
is_zero (negsuc n) = false

module _ (m : Maths) (keys : Keys) (r : Reals) (wc : WaitCount) (ledger : Ledger r)
    (resp : Responses) where
  abbrev State : Type 0
  State = Server m keys r wc ledger

  abbrev Sess : Type 0
  Sess = Session m keys r wc ledger resp

  -- `time(NULL)`
  abbrev pub now_seconds : ℕ
  now_seconds = keys.now_us / 1000000

  -- The server, the transaction with its response, and whether it is valid, with the error text. The
  -- node that the client asks fills the response in, the others compare it with their own result.
  unfoldable pub validate_query : State → Trxn → Bytes → Bool → State × Trxn × Bool × Bytes
  validate_query s t trxn_id is_init =
      let (rc, res) = ledger.run_query s.store t in
      if not (validate_trxn r keys s.sec_key t)
      then (s, t, false, codes "Invalid tranaction message")
      else if is_negative rc
      then (s, t, false, codes "Query error")
      else if is_init
      then (s, record t { response = res }, true, [])
      else if not (eqb t.response res)
      then (s, t, false, codes "Query result mismatch")
      else (record s { q_result = WaitStr.add now_seconds trxn_id res s.q_result }, t, true, [])

  -- The server, the transaction on its way and whether a quorum of leaders could be reached.
  unfoldable pub init_query : State → Trxn → ℕ → State × Trxn × Bool
  init_query s t connected =
      let leader_vec = get_zone_leaders m s.nodes t.beacon in
      let t1 = record (set_xit (set_not_init_trxn t) xit_i) { srvport = s.srvport } in
      (
        multicast m keys r wc ledger s om_xnq leader_vec (allstr t1),
        t1,
        leb (twofplus1 (length leader_vec)) connected,
      )

  unfoldable pub get_query_result : State → Bytes → Bytes → Bytes
  get_query_result s trxn_id sender =
      let res = or_empty (WaitStr.get trxn_id s.q_result) in
      let asked = record no_response { tid = trxn_id; uid = sender; nid = s.id } in
      if ltb (length res) 1
      then resp.json (record asked { rsn = codes "NOTFOUND" })
      else resp.json (record asked { stt = true; dat = res })

  -- `reply` and `replySock`, with no close.
  abbrev pub reply : Sess → Option ℕ → Bytes → Sess
  reply s sock json = record s { replies = s.replies ++ (sock, json) ∷ [] }

  -- The client's query: the leaders are asked, and the client's socket is kept for the answer.
  unfoldable pub start_query : Sess → Bytes → Trxn → ℕ → ℕ → Sess
  unfolding init_query reply_and_close
  start_query s trxn_id t sock connected =
      let (server, t1, rc) = init_query s.server t connected in
      let s1 = record s { server = server } in
      let failed = record no_response {
        tid = trxn_id;
        rsn = codes "INVALID_QUERY:INITQUERY_ERROR";
      } in
      if not rc
      then reply_and_close m keys r wc ledger resp s1 none (resp.json failed)
      else record s1 {
        server = record server {
          query_initer_client_socket = Dict.emplace trxn_id sock server.query_initer_client_socket;
        };
      }

  -- A leader enters A and B and asks its followers; without any it looks at the votes, and what
  -- comes of that is not used.
  unfoldable pub query_i : State → Bytes → Trxn → State
  query_i s trxn_id t =
      let (i_am_leader, followers) = is_leader m s.nodes t.beacon s.id true in
      let (ts_a, to_a) = go_state s.trxn_state s.level trxn_id xit_i in
      let (ts_b, to_b) = go_state ts_a s.level trxn_id xit_j in
      let s1 : State = record s { trxn_state = ts_b } in
      let s2 = multicast m keys r wc ledger s1 om_xnq followers (allstr (set_xit t xit_j)) in
      if not i_am_leader
      then s
      else if not to_a
      then record s { trxn_state = ts_a }
      else if ltb (length followers) 1
      then (on_recv_query_k m keys r wc ledger s2 t.beacon trxn_id).0
      else s2

  -- A follower votes to its leader.
  unfoldable pub query_j : State → Trxn → State
  query_j s t =
      let (i_am_leader, leader) = get_leader m s.nodes t.beacon s.id in
      if not i_am_leader
      then multicast m keys r wc ledger s om_xnq leader (allstr (set_xit t xit_k))
      else s

  -- `initerIP == myIP_ && portn == myPort_`, on `unsigned int`.
  unfoldable pub is_self : State → Trxn → Bool
  is_self s t =
      eqb (get_initer_ip t) s.address
      && (keys.atol (get_initer_port t) % 2 ^ 32 == keys.atol s.port % 2 ^ 32)

  -- The record of the node that the client asked.
  abbrev pub initer_host : Trxn → Bytes
  initer_host t = codes "0|" ++ get_initer_ip t ++ b'|' ∷ get_initer_port t

  -- With its quorum a leader votes to the node that the client asked, unless it is that node.
  unfoldable pub query_k : State → Bytes → Trxn → State
  unfolding is_self
  query_k s trxn_id t =
      let (s1, krc) = on_recv_query_k m keys r wc ledger s t.beacon trxn_id in
      let s2 =
        multicast m keys r wc ledger s1 om_xnq (initer_host t ∷ []) (allstr (set_xit t xit_l)) in
      if is_zero krc then if is_self s1 t then s1 else s2 else s1

  -- The answer to the client, if this node has its socket, which is forgotten.
  unfoldable pub send_result : Sess → Bytes → Trxn → Sess
  unfolding get_query_result
  send_result s trxn_id t = elim (Dict.find trxn_id s.server.query_initer_client_socket) [
    | none ↦ s
    | some sock ↦ record s {
      server = record s.server {
        query_initer_client_socket = Dict.erase trxn_id s.server.query_initer_client_socket;
      };
      replies = s.replies ++ (some sock, get_query_result s.server trxn_id t.sender) ∷ [];
    }
  ]

  -- The quorum of leaders is there: the client is answered.
  unfoldable pub query_l : Sess → Bytes → Trxn → Sess
  unfolding send_result
  query_l s trxn_id t =
      let (server, lrc) = on_recv_query_l m keys r wc ledger s.server t.beacon trxn_id in
      let s1 = record s { server = server } in if is_zero lrc then send_result s1 trxn_id t else s1

  -- The branch of a query that is under way.
  unfoldable pub proceed_query : Sess → Bytes → Trxn → Sess
  unfolding query_i query_j query_k query_l
  proceed_query s trxn_id t =
      let xit = get_xit t in
      if xit == xit_i
      then record s { server = query_i s.server trxn_id t }
      else if xit == xit_j
      then record s { server = query_j s.server t }
      else if xit == xit_k
      then record s { server = query_k s.server trxn_id t }
      else if xit == xit_l
      then query_l s trxn_id t
      else s

  -- What a message says, with its type set to a query.
  abbrev pub query_of : Bytes → Trxn
  query_of msg = record (init keys.fresh_beacon (c_str msg)) { trxntype = om_query }

  -- What follows a check: a refusal, or the work.
  unfoldable pub judged_query : Sess → Bytes → Trxn → ℕ → ℕ → State × Trxn × Bool × Bytes → Sess
  unfolding start_query proceed_query
  judged_query s trxn_id t sock connected (server, t1, valid, err) =
      let s1 = record s { server = server } in
      let refusal =
        resp.err_response t1.sender server.id (codes "INVALID_QUERY_INVALID_TRXN") trxn_id
          (server.id ++ b'|' ∷ err) in
      if not valid
      then reply s1 none refusal
      else if is_init_trxn t
      then start_query s1 trxn_id t1 sock connected
      else proceed_query s1 trxn_id t1

  -- `sock` is the native handle of the session's socket.
  unfoldable pub do_query_l2 : Sess → Bytes → ℕ → ℕ → Sess
  unfolding validate_query judged_query
  do_query_l2 s msg sock connected =
      let t = query_of msg in
      let trxn_id = get_trxn_id t in
      judged_query s trxn_id t sock connected (validate_query s.server t trxn_id (is_init_trxn t))

  -- `dom[key].GetString()`; `none` is the stop of the process, where the text is not an object, the
  -- member is missing or it is not a string.
  string_text : Value → Option Bytes
  string_text (str text) = some (c_str text)
  string_text v = none

  member_text : Value → Bytes → Option Bytes
  unfolding string_text
  member_text (obj ms) key = elim (find_member key ms) [ none ↦ none | some v ↦ string_text v ]
  member_text v key = none

  -- The votes are on `unsigned int`.
  unfoldable pub has_votes : State → Bytes → Bool
  has_votes s trxn_id = leb (2 * length s.nodes % 2 ^ 32 / 3) (wc.get s.collect_query_l trxn_id)

  -- The answer to the question `qtype`.
  unfoldable pub simple_answer : State → Bytes → Bytes → Bytes → Bytes → Bytes → Bytes
  unfolding get_query_result has_votes
  simple_answer s msg qtype trxn_id sender ts =
      if eqb qtype (codes "QP")
      then resp.ok_response sender s.id trxn_id s.pub_key
      else if eqb qtype (codes "QT")
      then ledger.query_trxn s.store sender trxn_id ts
      else if eqb qtype (codes "QQ")
      then if has_votes s trxn_id
        then get_query_result s trxn_id sender
        else resp.err_response sender s.id (codes "NOTFOUND") trxn_id (codes "NOT_ENOUGH_VOTES")
      else resp.err_response sender s.id (codes "INVALID_REQUEST") trxn_id msg

  -- The four texts of a question.
  unfoldable pub question_texts : Value → Option (Bytes × Bytes × Bytes × Bytes)
  unfolding member_text
  question_texts dom = elim (member_text dom (codes "QT")) [
    | none ↦ none
    | some qtype ↦ elim (member_text dom (codes "TID")) [
      | none ↦ none
      | some trxn_id ↦ elim (member_text dom (codes "FRM")) [
        | none ↦ none
        | some sender ↦ elim (member_text dom (codes "TS")) [
          | none ↦ none
          | some ts ↦ some (qtype, trxn_id, sender, ts)
        ]
      ]
    ]
  ]

  -- `none` is the stop of the process.
  unfoldable pub do_simple_query : Json → Sess → Bytes → Option Sess
  unfolding simple_answer question_texts
  do_simple_query json s msg = elim (json.parse msg) [
    | none ↦ some (
        reply s none (
          resp.err_response [] s.server.id (codes "INVALID_QUERY_PARSE_ERROR") (codes "notrxnid")
            (c_str msg)))
    | some dom ↦ elim (question_texts dom) [
      | none ↦ none
      | some (qtype, trxn_id, sender, ts) ↦
          some (reply s none (simple_answer s.server (c_str msg) qtype trxn_id sender ts))
    ]
  ]
