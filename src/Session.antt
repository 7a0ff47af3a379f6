-- ===== src/Session.antt =====
-- src/omsession.h and src/omsession.cc, `doTrxnL2` and what it calls: a message with a transaction
-- arrives at a node, is checked, and is dispatched on its trigger. `OmResponse` (whose source is not
-- in the repository) is an argument. The answers to clients are kept in `replies`, oldest first,
-- each for the socket it goes to: `none` is the session's own, which is then closed.
pub mod Results
pub mod Handlers
pub mod QueryEffects
pub mod Commit
pub mod Once
pub mod Checks
pub mod Queries
pub mod Replies
pub mod Held
pub mod Sources
pub mod Questions
use omicro.Base.{
  ℕ, ◌+◌, Bool, true, false, not, ◌&&◌, ◌||◌, List, [], ◌∷◌, ◌++◌, leb, ltb, ◌==◌, if◌then◌else◌,
  Bytes, eqb, codes, length, Option, none, some, c_str,
}
use omicro.Base.Int.{ℤ, pos, negsuc, neg, is_negative}
use omicro.Base.Dict
use omicro.Trxn.{
  Trxn, Keys, Reals, init, get_xit, set_xit, is_init_trxn, set_not_init_trxn, get_trxn_id, allstr,
  validate_trxn, get_amount_double, om_payment, om_xfertoken, om_newacct,
}
use omicro.TrxnState.{go_state, st_f, xit_i, xit_j, xit_k, xit_l, xit_m, xit_n}
use omicro.Circuit.{Maths, is_leader, get_leader, get_zone_leaders}
use omicro.Server.{
  Server, WaitCount, Ledger, om_txn, cur_state, enter, multicast, on_recv_k, on_recv_l, on_recv_m,
  on_recv_n,
}

-- The fields of `OmResponse` that the session sets; `stt` is true for OM_RESP_OK.
pub record Response : Type 0 where
  pub tid : Bytes
  pub uid : Bytes
  pub nid : Bytes
  pub stt : Bool
  pub rsn : Bytes
  pub dat : Bytes

-- `errResponse(sender, srvid, code, trxnId, text, json)` and `okResponse`, with no code;
-- `OmResponse::json`.
pub record Responses : Type 0 where
  pub err_response : Bytes → Bytes → Bytes → Bytes → Bytes → Bytes
  pub ok_response : Bytes → Bytes → Bytes → Bytes → Bytes
  pub json : Response → Bytes

module _ (m : Maths) (keys : Keys) (r : Reals) (wc : WaitCount) (ledger : Ledger r)
    (resp : Responses) where
  open wc use {add}
  open ledger use {get_balance_and_pubkey, get_fence, read_trxns, is_xfer_token_valid}

  abbrev State : Type 0
  State = Server m keys r wc ledger

  pub record Session : Type 0 where
    pub server : State
    pub replies : List (Option ℕ × Bytes)
    pub closed : List (Option ℕ)

  -- A reply on a socket, which is then closed.
  unfoldable pub reply_and_close : Session → Option ℕ → Bytes → Session
  reply_and_close s sock json = record s {
    replies = s.replies ++ (sock, json) ∷ [];
    closed = s.closed ++ sock ∷ [];
  }

  -- The transaction carries an old fence and is already in the sender's file.
  fencing_error : State → Trxn → Bytes → Bool → Bool
  fencing_error s t trxn_id is_init =
      not is_init
      && not (eqb t.fence (get_fence s.store t.sender))
      && ltb 0 (length (read_trxns s.store t.sender t.timestamp trxn_id))

  late_text : State → Bytes
  late_text s = codes "Late trxn request " ++ s.address ++ b':' ∷ s.port

  -- The return code and the error text.
  unfoldable pub validate : State → Bytes → Trxn → Bool → ℤ × Bytes
  unfolding fencing_error late_text
  validate s trxn_id t is_init =
      let (rc, bal, pubkey) = get_balance_and_pubkey s.store t.sender in
      let (xrc, xerr) = is_xfer_token_valid s.store t in
      if leb st_f (cur_state m keys r wc ledger s trxn_id)
      then (neg 900, late_text s)
      else if not (validate_trxn r keys s.sec_key t)
      then (neg 10, codes "Transaction object invalid " ++ s.address ++ b':' ∷ s.port)
      else if eqb t.trxntype om_payment
      then (if is_negative rc
          then (
            neg 20,
            codes "Unable to get balance and public key of sender ["
                ++ t.sender
                ++ codes "] in PAYMENT",
          )
          else if not (eqb pubkey t.user_pubkey)
          then (neg 30, codes "Public key mismatch")
          else if r.lt_real (r.minus bal (get_amount_double r t)) r.smallest
          then (neg 40, codes "Not enough funds")
          else if fencing_error s t trxn_id is_init
          then (neg 50, codes "Fencing error")
          else (pos 0, []))
      else if eqb t.trxntype om_xfertoken
      then (if is_negative xrc
          then (neg 60, codes "Transfer error: xfer token invalid. " ++ xerr)
          else if fencing_error s t trxn_id is_init
          then (neg 70, codes "Fencing error")
          else (pos 0, []))
      else (pos 0, [])

  -- `initTrxn`: the client's node asks the leaders of all zones to collect votes.
  unfoldable pub init_trxn : State → Trxn → State
  init_trxn s t =
      multicast m keys r wc ledger s om_txn (get_zone_leaders m s.nodes t.beacon)
        (allstr (set_xit (set_not_init_trxn t) xit_i))

  submit : Session → Bytes → Trxn → Session
  unfolding init_trxn
  submit s trxn_id t =
      let fence = get_fence s.server.store t.sender in
      let t1 = if eqb t.trxntype om_newacct then t else record t { fence = fence } in
      record s { server = init_trxn s.server t1 }

  -- The leader enters A and B, votes itself and asks its followers.
  unfoldable pub ask_followers : State → Bytes → Trxn → List Bytes → State
  ask_followers s trxn_id t followers =
      let (ts_a, to_a) = go_state s.trxn_state s.level trxn_id xit_i in
      let (ts_b, to_b) = go_state ts_a s.level trxn_id xit_j in
      let s1 : State = record s { trxn_state = ts_b; collect_k = add s.collect_k trxn_id 1 } in
      multicast m keys r wc ledger s1 om_txn followers (allstr t)

  -- A leader that hears of a transaction asks its followers; without any it votes once more.
  recv_i : State → Bytes → Trxn → State
  unfolding ask_followers
  recv_i s trxn_id t =
      let (i_am_leader, followers) = is_leader m s.nodes t.beacon s.id true in
      let (ts_a, to_a) = go_state s.trxn_state s.level trxn_id xit_i in
      let t1 = set_xit t xit_j in
      let s1 = ask_followers s trxn_id t1 followers in
      if not i_am_leader
      then s
      else if not to_a
      then record s { trxn_state = ts_a }
      else if ltb (length followers) 1
      then on_recv_k m keys r wc ledger s1 t.beacon trxn_id t1
      else s1

  -- A follower votes to its leader.
  recv_j : State → Trxn → State
  recv_j s t =
      let (is_lead, leader) = get_leader m s.nodes t.beacon s.id in
      if not is_lead
      then multicast m keys r wc ledger s om_txn leader (allstr (set_xit t xit_k))
      else s

  -- The answer to the client, if this node has its socket: the socket is answered, closed and
  -- forgotten.
  answer : Session → Bytes → Bytes → Session
  unfolding reply_and_close
  answer s trxn_id json =
      let s1 : Session = elim (Dict.find trxn_id s.server.trxn_initer_client_socket) [
        | none ↦ s
        | some sock ↦ reply_and_close s (some sock) json
      ] in
      record s1 {
        server = record s1.server {
          trxn_initer_client_socket = Dict.erase trxn_id s1.server.trxn_initer_client_socket;
        };
      }

  confirmed : Bytes
  confirmed = codes "Transaction Confirmed (CONSENSUS_REACHED)"

  is_ignored : ℤ → Bool
  is_ignored (pos n) = false
  is_ignored (negsuc n) = n + 1 == 171 || n + 1 == 173

  -- The code -171 or -173 is not reported.
  report : Session → Bytes → Trxn → ℤ → Bytes → Session
  unfolding answer confirmed is_ignored
  report s trxn_id t nrc errmsg =
      let ok = resp.ok_response t.sender s.server.id trxn_id confirmed in
      let bad = resp.err_response t.sender s.server.id (codes "INVALID_TRXN") trxn_id errmsg in
      if is_ignored nrc
      then s
      else if is_negative nrc
      then answer s trxn_id bad
      else answer s trxn_id ok

  -- A follower commits.
  recv_n : Session → Bytes → Trxn → Session
  unfolding report
  recv_n s trxn_id t =
      let (s1, nrc, errmsg) = on_recv_n m keys r wc ledger s.server t.beacon trxn_id t in
      let s2 = record s { server = enter m keys r wc ledger s1 trxn_id st_f } in
      if cur_state m keys r wc ledger s.server trxn_id == st_f
      then s
      else report s2 trxn_id t nrc errmsg

  -- The branch of a transaction that is under way.
  unfoldable pub proceed : Session → Bytes → Trxn → Session
  unfolding recv_i recv_j recv_n
  proceed s trxn_id t =
      let xit = get_xit t in
      if xit == xit_i
      then record s { server = recv_i s.server trxn_id t }
      else if xit == xit_j
      then record s { server = recv_j s.server t }
      else if xit == xit_k
      then record s { server = on_recv_k m keys r wc ledger s.server t.beacon trxn_id t }
      else if xit == xit_l
      then record s { server = on_recv_l m keys r wc ledger s.server t.beacon trxn_id t }
      else if xit == xit_m
      then record s { server = on_recv_m m keys r wc ledger s.server t.beacon trxn_id t }
      else if xit == xit_n
      then recv_n s trxn_id t
      else s

  -- A refused transaction is reported to the sender, a late one is not.
  refuse : Session → Bytes → Trxn → Bytes → Session
  unfolding reply_and_close
  refuse s trxn_id t err =
      reply_and_close s none
        (resp.err_response t.sender s.server.id (codes "INVALID_TRXN") trxn_id err)

  dispatch : Session → Bytes → Trxn → ℕ → Session
  unfolding submit proceed
  dispatch s trxn_id t sock =
      let s1 = submit s trxn_id t in
      if is_init_trxn t
      then record s1 {
        server = record s1.server {
          trxn_initer_client_socket = Dict.emplace trxn_id sock s1.server.trxn_initer_client_socket;
        };
      }
      else proceed s trxn_id t

  -- What follows a check with the return code: a refusal, silence at a late one, or the work.
  judged : Session → Bytes → Trxn → ℕ → Bytes → ℤ → Session
  unfolding refuse dispatch
  judged s trxn_id t sock err (pos n) = dispatch s trxn_id t sock
  judged s trxn_id t sock err (negsuc n) = if n + 1 == 900 then s else refuse s trxn_id t err

  -- `sock` is the native handle of the session's socket.
  unfoldable pub do_trxn_l2 : Session → Bytes → ℕ → Session
  unfolding validate judged
  do_trxn_l2 s msg sock =
      let t = init keys.fresh_beacon (c_str msg) in
      let trxn_id = get_trxn_id t in
      let (valid, err) = validate s.server trxn_id t (is_init_trxn t) in
      judged s trxn_id t sock err valid
