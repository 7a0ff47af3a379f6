-- ===== src/Session/Replies.antt =====
-- src/omsession.cc, `doQueryL2` at the node that a client asked: the votes of the leaders, and the
-- answer.
use omicro.Base.{
  ℕ, suc, ◌+◌, ◌/◌, ◌≤◌, ◌<◌, ◌≡◌, inl, inr, refl, ap, ◌∙◌, true, false, List, [], ◌∷◌, ◌++◌, arith,
  leb, if◌then◌else◌, Bool-cases, Bytes, eqb, eqb_iff, eqb_refl, length, Option, none, some, All,
}
use omicro.Base.Int.{is_negative}
use omicro.Base.Dict
use omicro.Trxn.{Trxn, Keys, Reals, get_xit, is_init_trxn, get_trxn_id, validate_trxn}
use omicro.TrxnState.{st_d, xit_l}
use omicro.TrxnState.Forward.{get_state-entered}
use omicro.Circuit.{Maths, get_zone_leaders}
use omicro.WaitStr
use omicro.WaitStr.{get-add_self}
use omicro.Server.{Server, WaitCount, Ledger, cur_state, enter}
use omicro.Server.Queries.{on_recv_query_l}
use omicro.Session.{Session, Responses}
use omicro.Session.Queries.{
  do_query_l2, judged_query, validate_query, proceed_query, query_l, send_result, get_query_result,
  query_of, now_seconds, no_response,
}

module _ (m : Maths) (keys : Keys) (r : Reals) (wc : WaitCount) (ledger : Ledger r)
    (resp : Responses) where
  abbrev State : Type 0
  State = Server m keys r wc ledger

  abbrev Sess : Type 0
  Sess = Session m keys r wc ledger resp

  abbrev state_of : State → Bytes → ℕ
  state_of = cur_state m keys r wc ledger

  -- A vote of a leader on the query `id`: a valid message of the round with the result that this
  -- node's storage gives as well.
  pub record IsVote (sec_key : Bytes) (store : ledger.Store) (id beacon sender res msg : Bytes)
      : Type 0 where
    pub same_id : get_trxn_id (query_of m keys r wc ledger resp msg) ≡ id
    pub same_beacon : (query_of m keys r wc ledger resp msg).beacon ≡ beacon
    pub same_sender : (query_of m keys r wc ledger resp msg).sender ≡ sender
    pub under_way : is_init_trxn (query_of m keys r wc ledger resp msg) ≡ false
    pub trigger : get_xit (query_of m keys r wc ledger resp msg) ≡ xit_l
    pub valid : validate_trxn r keys sec_key (query_of m keys r wc ledger resp msg) ≡ true
    pub answered :
        is_negative (ledger.run_query store (query_of m keys r wc ledger resp msg)).0 ≡ false
    pub own : (ledger.run_query store (query_of m keys r wc ledger resp msg)).1 ≡ res
    pub agrees : (query_of m keys r wc ledger resp msg).response ≡ res

  -- The result is held.
  abbrev pub hold : Sess → Bytes → Bytes → Sess
  hold s id res = record s {
    server = record s.server {
      q_result = WaitStr.add (now_seconds m keys r wc ledger resp) id res s.server.q_result;
    };
  }

  validate_query-vote :
      (s : State) (id beacon sender res msg : Bytes)
      → IsVote s.sec_key s.store id beacon sender res msg
      → validate_query m keys r wc ledger resp s (query_of m keys r wc ledger resp msg) id false ≡ (
        record s { q_result = WaitStr.add (now_seconds m keys r wc ledger resp) id res s.q_result },
        query_of m keys r wc ledger resp msg,
        true,
        [],
      )
  unfolding validate_query
  validate_query-vote s id beacon sender res msg v =
      let t = query_of m keys r wc ledger resp msg in
      let equal : eqb t.response res ≡ true = (eqb_iff t.response res).1 v.agrees in
      rw (v.valid, v.answered, v.own, equal) refl

  proceed_query-l :
      (s : Sess) (id : Bytes) (t : Trxn)
      → get_xit t ≡ xit_l
      → proceed_query m keys r wc ledger resp s id t ≡ query_l m keys r wc ledger resp s id t
  unfolding proceed_query
  proceed_query-l s id t h = rw h refl

  do_query_l2-vote :
      (s : Sess) (id beacon sender res msg : Bytes) (sock connected : ℕ)
      → IsVote s.server.sec_key s.server.store id beacon sender res msg
      → do_query_l2 m keys r wc ledger resp s msg sock connected
        ≡ query_l m keys r wc ledger resp (hold s id res) id (query_of m keys r wc ledger resp msg)
  unfolding do_query_l2 judged_query
  do_query_l2-vote s id beacon sender res msg sock connected v =
      let t = query_of m keys r wc ledger resp msg in
      ap
        (λ k.
          judged_query m keys r wc ledger resp s k t sock connected
            (validate_query m keys r wc ledger resp s.server t k (is_init_trxn t)))
        v.same_id
      ∙ ap
          (λ b.
            judged_query m keys r wc ledger resp s id t sock connected
              (validate_query m keys r wc ledger resp s.server t id b))
          v.under_way
      ∙ ap (judged_query m keys r wc ledger resp s id t sock connected)
          (validate_query-vote s.server id beacon sender res msg v)
      ∙ rw v.under_way (proceed_query-l (hold s id res) id t v.trigger)

  -- So many leaders have to vote.
  abbrev pub majority : State → Bytes → ℕ
  majority s beacon = length (get_zone_leaders m s.nodes beacon) / 2 + 1

  -- One more vote is counted.
  abbrev pub voted : Sess → Bytes → Sess
  voted s id = record s {
    server = record s.server { collect_query_l = wc.add s.server.collect_query_l id 1 };
  }

  -- The round has ended.
  abbrev ended : Sess → Bytes → Sess
  ended s id = record s {
    server = record (enter m keys r wc ledger s.server id st_d) {
      collect_query_l = wc.erase (wc.add s.server.collect_query_l id 1) id;
    };
  }

  query_l-late :
      (s : Sess) (id : Bytes) (t : Trxn)
      → st_d ≤ state_of s.server id
      → query_l m keys r wc ledger resp s id t ≡ s
  unfolding query_l on_recv_query_l
  query_l-late s id t h = ground arith

  query_l-few :
      (s : Sess) (id : Bytes) (t : Trxn)
      → state_of s.server id < st_d
      → wc.get s.server.collect_query_l id + 1 < majority s.server t.beacon
      → query_l m keys r wc ledger resp s id t ≡ voted s id
  unfolding query_l on_recv_query_l
  query_l-few s id t low few =
      ground (arith, wc.get-add s.server.collect_query_l id id 1, eqb_refl id)

  query_l-enough :
      (s : Sess) (id : Bytes) (t : Trxn)
      → state_of s.server id < st_d
      → majority s.server t.beacon ≤ wc.get s.server.collect_query_l id + 1
      → query_l m keys r wc ledger resp s id t
        ≡ send_result m keys r wc ledger resp (ended s id) id t
  unfolding query_l on_recv_query_l
  query_l-enough s id t low many =
      ground (arith, wc.get-add s.server.collect_query_l id id 1, eqb_refl id)

  -- What the client sees of a query: the replies, and whether its socket is kept.
  abbrev pub Seen : Type 0
  Seen = List (Option ℕ × Bytes) × Option ℕ

  abbrev pub seen : Sess → Bytes → Seen
  seen s id = (s.replies, Dict.find id s.server.query_initer_client_socket)

  -- The response with a result.
  abbrev pub found : State → Bytes → Bytes → Bytes → Bytes
  found s id sender res =
      resp.json (record no_response { tid = id; uid = sender; nid = s.id; stt = true; dat = res })

  get_query_result-found :
      (s : State) (id sender res : Bytes)
      → WaitStr.get id s.q_result ≡ some res
      → 0 < length res
      → get_query_result m keys r wc ledger resp s id sender ≡ found s id sender res
  unfolding get_query_result
  get_query_result-found s id sender res h k = rw h (ground arith)

  -- The client is answered.
  abbrev replied : Sess → Bytes → ℕ → Bytes → Sess
  replied s id sock text = record s {
    server = record s.server {
      query_initer_client_socket = Dict.erase id s.server.query_initer_client_socket;
    };
    replies = s.replies ++ (some sock, text) ∷ [];
  }

  send_result-replied :
      (s : Sess) (id : Bytes) (t : Trxn) (sock : ℕ)
      → Dict.find id s.server.query_initer_client_socket ≡ some sock
      → send_result m keys r wc ledger resp s id t
        ≡ replied s id sock (get_query_result m keys r wc ledger resp s.server id t.sender)
  unfolding send_result
  send_result-replied s id t sock h = rw (send_result, h) refl

  -- Votes, each with the socket of its session and the hosts that could be connected to.
  unfoldable pub query_votes : Sess → List (Bytes × ℕ × ℕ) → Sess
  query_votes s [] = s
  query_votes s ((msg, sock, connected) ∷ ms) =
      query_votes (do_query_l2 m keys r wc ledger resp s msg sock connected) ms

  abbrev pub AllVotes : Sess → Bytes → Bytes → Bytes → Bytes → List (Bytes × ℕ × ℕ) → Type 0
  AllVotes s id beacon sender res ms =
      All (λ v. IsVote s.server.sec_key s.server.store id beacon sender res v.0) ms

  query_votes-late :
      (s : Sess) (id beacon sender res : Bytes) (ms : List (Bytes × ℕ × ℕ))
      → AllVotes s id beacon sender res ms
      → st_d ≤ state_of s.server id
      → seen (query_votes s ms) id ≡ seen s id
  unfolding query_votes
  query_votes-late s id beacon sender res [] votes late = refl
  query_votes-late s id beacon sender res ((msg, sock, connected) ∷ ms) votes late =
      ap (λ x. seen (query_votes x ms) id)
        (do_query_l2-vote s id beacon sender res msg sock connected votes.0
          ∙ query_l-late (hold s id res) id (query_of m keys r wc ledger resp msg) late)
      ∙ query_votes-late (hold s id res) id beacon sender res ms votes.1 late

  -- The state after the vote that makes the majority.
  abbrev fired : Sess → Bytes → Bytes → Bytes → ℕ → Sess
  fired s id sender res sock =
      replied (ended (hold s id res) id) id sock (found s.server id sender res)

  vote-fires :
      (s : Sess) (id beacon sender res msg : Bytes) (sock client connected : ℕ)
      → IsVote s.server.sec_key s.server.store id beacon sender res msg
      → state_of s.server id < st_d
      → Dict.find id s.server.query_initer_client_socket ≡ some client
      → Dict.or_else (WaitStr.get id s.server.q_result) res ≡ res
      → 0 < length res
      → majority s.server beacon ≤ wc.get s.server.collect_query_l id + 1
      → do_query_l2 m keys r wc ledger resp s msg sock connected ≡ fired s id sender res client
  vote-fires s id beacon sender res msg sock client connected v low kept held some_text many =
      let t = query_of m keys r wc ledger resp msg in
      let s1 = hold s id res in
      let there : WaitStr.get id s1.server.q_result ≡ some res =
        get-add_self (now_seconds m keys r wc ledger resp) id res s.server.q_result
        ∙ ap some held in
      do_query_l2-vote s id beacon sender res msg sock connected v
      ∙ query_l-enough s1 id t low (rw v.same_beacon many)
      ∙ send_result-replied (ended s1 id) id t client kept
      ∙ ap (replied (ended s1 id) id client) (
          get_query_result-found (ended s1 id).server id t.sender res there some_text
          ∙ ap (λ u. found s.server id u res) v.same_sender)

  pub vote-few :
      (s : Sess) (id beacon sender res msg : Bytes) (sock connected : ℕ)
      → IsVote s.server.sec_key s.server.store id beacon sender res msg
      → state_of s.server id < st_d
      → wc.get s.server.collect_query_l id + 1 < majority s.server beacon
      → do_query_l2 m keys r wc ledger resp s msg sock connected ≡ voted (hold s id res) id
  vote-few s id beacon sender res msg sock connected v low few =
      do_query_l2-vote s id beacon sender res msg sock connected v
      ∙ query_l-few (hold s id res) id (query_of m keys r wc ledger resp msg) low
          (rw v.same_beacon few)

  -- At the node that a client asked, where the query is below D, the client's socket is kept, no
  -- other result than `res`, which is not empty, is held, and the count of the leaders' votes is
  -- below the majority, after some more votes: if they reach the majority, the client was answered
  -- once, with `res`, and its socket is forgotten, however many votes came; if they do not, nothing
  -- was sent and the socket is kept.
  pub query_round :
      (s : Sess) (id beacon sender res : Bytes) (client : ℕ) (ms : List (Bytes × ℕ × ℕ))
      → AllVotes s id beacon sender res ms
      → state_of s.server id < st_d
      → Dict.find id s.server.query_initer_client_socket ≡ some client
      → Dict.or_else (WaitStr.get id s.server.q_result) res ≡ res
      → 0 < length res
      → wc.get s.server.collect_query_l id < majority s.server beacon
      → seen (query_votes s ms) id ≡ (
          if leb (majority s.server beacon) (wc.get s.server.collect_query_l id + length ms)
          then (s.replies ++ (some client, found s.server id sender res) ∷ [], none)
          else (s.replies, some client))
  unfolding query_votes
  query_round s id beacon sender res client [] votes low kept held some_text few =
      ap (λ x. (s.replies, x)) kept ∙ ground (arith, few)
  query_round s id beacon sender res client ((msg, sock, connected) ∷ ms) votes low kept held
        some_text few =
      let q = majority s.server beacon in
      let c = wc.get s.server.collect_query_l id in
      let s1 = voted (hold s id res) id in
      let counted : wc.get s1.server.collect_query_l id ≡ c + 1 =
        rw (wc.get-add s.server.collect_query_l id id 1, eqb_refl id) refl in
      elim (Bool-cases (leb q (c + 1))) [
        | inl reached ↦
            let s2 = fired s id sender res client in
            let late : st_d ≤ state_of s2.server id =
              omega (arith, get_state-entered s.server.trxn_state id st_d low (omega arith)) in
            let over : leb q (c + suc (length ms)) ≡ true = ground (arith, reached) in
            ap (λ x. seen (query_votes x ms) id)
              (vote-fires s id beacon sender res msg sock client connected votes.0 low kept held
                some_text (ground (arith, reached)))
            ∙ query_votes-late s2 id beacon sender res ms votes.1 late
            ∙ rw over
                (rw (Dict.find-erase id id s.server.query_initer_client_socket, eqb_refl id) refl)
        | inr few1 ↦
            let here : seen
                  (query_votes (do_query_l2 m keys r wc ledger resp s msg sock connected) ms) id
                ≡ seen (query_votes s1 ms) id =
              ap (λ x. seen (query_votes x ms) id)
                (vote-few s id beacon sender res msg sock connected votes.0 low
                  (ground (arith, few1))) in
            let held1 : Dict.or_else (WaitStr.get id s1.server.q_result) res ≡ res =
              ap (λ o. Dict.or_else o res)
                (get-add_self (now_seconds m keys r wc ledger resp) id res s.server.q_result)
              ∙ held in
            let same : leb q (wc.get s1.server.collect_query_l id + length ms)
                ≡ leb q (c + suc (length ms)) =
              ap (leb q) (omega (arith, counted)) in
            here
            ∙ query_round s1 id beacon sender res client ms votes.1 low kept held1 some_text
                (ground (arith, few1, counted))
            ∙ rw same refl
      ]
