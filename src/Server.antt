-- ===== src/Server.antt =====
-- src/server.hpp and src/server.cpp: the votes on a transaction. A node keeps counts of the votes of
-- each round, by transaction id, and a table of states; each handler tests the state, counts, and on
-- a quorum moves on and sends the next round. `OmWaitCount` (whose source is not in the repository)
-- and the storage are interfaces. `sent` keeps the messages of `multicast`, oldest first; whether a
-- host could be reached, which `multicast` counts, is read by no caller here.
pub mod Results
pub mod Queries
pub mod Effects
pub mod Commit
pub mod Delivery
pub mod Votes
pub mod Commitment
use omicro.Base.{
  ℕ, ◌+◌, ◌≡◌, Bool, false, not, List, [], ◌∷◌, ◌++◌, ltb, leb, if◌then◌else◌, Bytes, eqb, codes,
  length, ltb, Option, none, some, c_str,
}
use omicro.Base.Int.{ℤ, pos, neg, is_negative}
use omicro.Base.Dict
use omicro.Base.Dict.{Dict}
use omicro.WaitStr.{WaitStr}
use omicro.Trxn.{Trxn, Keys, Reals, init, set_xit, allstr, make_node_signature}
use omicro.NodeList.{NodeData, get_data}
use omicro.TrxnState.{TrxnState, get_state, set_state, st_c, st_d, st_e, st_f, xit_l, xit_m, xit_n}
use omicro.Quorum.{twofplus1}
use omicro.Circuit.{Maths, is_leader, get_other_leaders_and_this_followers}

-- `OmWaitCount`: a count for each transaction id, as the handlers use it.
pub record WaitCount : Type 1 where
  pub Counts : Type 0
  pub add : Counts → Bytes → ℕ → Counts
  pub get : Counts → Bytes → ℕ
  pub erase : Counts → Bytes → Counts
  pub get-add :
      (w : Counts) (k j : Bytes) (n : ℕ)
      → get (add w k n) j ≡ (if eqb k j then get w k + n else get w j)
  pub get-erase : (w : Counts) (k j : Bytes) → get (erase w k) j ≡ (if eqb k j then 0 else get w j)

-- What the server and its sessions call of `blockMgr_`. `receive_trxn` gives the new storage, the
-- return code and the error message, `run_query` the return code and the result, and `query_trxn` the
-- response.
pub record Ledger (r : Reals) : Type 1 where
  pub Store : Type 0
  pub receive_trxn : Store → Trxn → Store × ℤ × Bytes
  pub get_balance_and_pubkey : Store → Bytes → ℤ × r.Real × Bytes
  pub get_fence : Store → Bytes → Bytes
  pub read_trxns : Store → Bytes → Bytes → Bytes → List Bytes
  pub is_xfer_token_valid : Store → Trxn → ℤ × Bytes
  pub run_query : Store → Trxn → ℤ × Bytes
  pub query_trxn : Store → Bytes → Bytes → Bytes → Bytes

-- One message that `multicast` hands to a thread: the type byte, the host and the text.
pub record Sent : Type 0 where
  pub msg_type : ℕ
  pub ip : Bytes
  pub port : Bytes
  pub msg : Bytes

abbrev pub om_txn : ℕ
om_txn = b'T'

abbrev pub om_xnq : ℕ
om_xnq = b'X'

abbrev pub or_empty : Option Bytes → Bytes
or_empty none = []
or_empty (some x) = x

-- `operator[]` of the map adds an empty key for a name that is not there.
get_pubkey : Dict Bytes → Bytes → Dict Bytes × Bytes
get_pubkey pubkeys srvport = (Dict.emplace srvport [] pubkeys, or_empty (Dict.find srvport pubkeys))

-- Where `getData` fails, its references keep the host before.
abbrev target : Option NodeData → Bytes × Bytes → Bytes × Bytes
target none last = last
target (some node) last = (node.ip, node.port)

-- The loop of `multicast` over the hosts, with the last host's address: the keys and the messages.
unfoldable pub multicast_loop :
    Keys → ℕ → Bytes → Dict Bytes → List Bytes → Bytes × Bytes → Dict Bytes × List Sent
unfolding get_pubkey
multicast_loop keys msg_type msg pubkeys [] last = (pubkeys, [])
multicast_loop keys msg_type msg pubkeys (host ∷ hosts) last =
    let (ip, port) = target (get_data host) last in
    let (pubkeys1, pubkey) = get_pubkey pubkeys (ip ++ b':' ∷ port) in
    let t = make_node_signature keys pubkey (init keys.fresh_beacon (c_str msg)) in
    let sent : Sent = record { msg_type = msg_type; ip = ip; port = port; msg = allstr t } in
    let skipped = multicast_loop keys msg_type msg pubkeys hosts last in
    let (pubkeys2, rest) = multicast_loop keys msg_type msg pubkeys1 hosts (ip, port) in
    if ltb (length host) 1 then skipped else (pubkeys2, sent ∷ rest)

module _ (m : Maths) (keys : Keys) (r : Reals) (wc : WaitCount) (ledger : Ledger r) where
  open wc use {Counts, add, get, erase}
  open ledger use {Store, receive_trxn}

  pub record Server : Type 0 where
    pub nodes : List Bytes
    pub id : Bytes
    pub level : ℕ
    pub srvport : Bytes
    pub address : Bytes
    pub port : Bytes
    pub pub_key : Bytes
    pub sec_key : Bytes
    pub srvport_pubkey : Dict Bytes
    pub trxn_initer_client_socket : Dict ℕ
    pub query_initer_client_socket : Dict ℕ
    pub q_result : WaitStr
    pub trxn_state : TrxnState
    pub collect_k : Counts
    pub collect_l : Counts
    pub collect_m : Counts
    pub collect_query_k : Counts
    pub collect_query_l : Counts
    pub store : Store
    pub sent : List Sent

  unfoldable pub multicast : Server → ℕ → List Bytes → Bytes → Server
  unfolding multicast_loop
  multicast s msg_type hosts msg =
      let (pubkeys, msgs) = multicast_loop keys msg_type msg s.srvport_pubkey hosts ([], []) in
      record s { srvport_pubkey = pubkeys; sent = s.sent ++ msgs }

  -- `trxnState_.getState(trxnId, curState)`
  abbrev pub cur_state : Server → Bytes → ℕ
  cur_state s trxn_id = (get_state s.trxn_state trxn_id).1

  abbrev pub enter : Server → Bytes → ℕ → Server
  enter s trxn_id st = record s { trxn_state = set_state s.trxn_state trxn_id st }

  -- A handler's guard: what it does where this node leads and the state is below `st`.
  abbrev pub leading : Server → Bytes → Bytes → ℕ → (List Bytes → List Bytes → Server) → Server
  leading s beacon trxn_id st act =
      let (i_am_leader, other_leaders, followers) =
        get_other_leaders_and_this_followers m s.nodes beacon s.id in
      if not i_am_leader
      then s
      else if leb st (cur_state s trxn_id)
      then s
      else act other_leaders followers

  -- `collectKTrxn_.add(trxnId, 1)`, and so for the other rounds.
  abbrev pub vote_k : Server → Bytes → Server
  vote_k s trxn_id = record s { collect_k = add s.collect_k trxn_id 1 }

  abbrev pub vote_l : Server → Bytes → Server
  vote_l s trxn_id = record s { collect_l = add s.collect_l trxn_id 1 }

  abbrev pub vote_m : Server → Bytes → Server
  vote_m s trxn_id = record s { collect_m = add s.collect_m trxn_id 1 }

  -- The count of votes reaches the quorum of so many voters.
  abbrev pub enough : Counts → Bytes → ℕ → Bool
  enough counts trxn_id voters = leb (twofplus1 voters) (get counts trxn_id)

  -- The quorum of K votes starts the L round.
  unfoldable pub start_l : Server → Bytes → Trxn → List Bytes → Server
  unfolding multicast
  start_l s trxn_id t other_leaders =
      let s1 = vote_l (enter s trxn_id st_c) trxn_id in
      let s2 = multicast s1 om_txn other_leaders (allstr (set_xit t xit_l)) in
      record s2 { collect_k = erase s2.collect_k trxn_id }

  count_k : Server → Bytes → Trxn → List Bytes → List Bytes → Server
  unfolding start_l
  count_k s trxn_id t other_leaders followers =
      let s1 = vote_k s trxn_id in
      if enough s1.collect_k trxn_id (length followers + 1)
      then start_l s1 trxn_id t other_leaders
      else s1

  unfoldable pub on_recv_k : Server → Bytes → Bytes → Trxn → Server
  unfolding count_k
  on_recv_k s beacon trxn_id t = leading s beacon trxn_id st_c (count_k s trxn_id t)

  unfoldable pub send_followers_xit_n : Server → Bytes → List Bytes → Trxn → Server
  unfolding multicast
  send_followers_xit_n s trxn_id followers t =
      let t1 = record (set_xit t xit_n) { srvport = s.srvport } in
      let s1 = multicast s om_txn followers (allstr t1) in
      let s2 = enter s1 trxn_id st_f in
      let (store, rrc, errmsg) = receive_trxn s2.store t1 in
      record s2 { store = store; collect_m = erase s2.collect_m trxn_id }

  -- The quorum of L votes starts the M round, which may have its own quorum at once.
  unfoldable pub announce_m : Server → Bytes → Trxn → List Bytes → Server
  unfolding multicast
  announce_m s trxn_id t other_leaders =
      let s1 = vote_m (enter s trxn_id st_d) trxn_id in
      let s2 = multicast s1 om_txn other_leaders (allstr t) in
      record s2 { collect_l = erase s2.collect_l trxn_id }

  start_m : Server → Bytes → Trxn → List Bytes → List Bytes → Server
  unfolding announce_m send_followers_xit_n
  start_m s trxn_id t other_leaders followers =
      let t1 = set_xit t xit_m in
      let s1 = announce_m s trxn_id t1 other_leaders in
      if enough s1.collect_m trxn_id (length other_leaders + 1)
      then send_followers_xit_n (enter s1 trxn_id st_e) trxn_id followers t1
      else s1

  count_l : Server → Bytes → Trxn → List Bytes → List Bytes → Server
  unfolding start_m
  count_l s trxn_id t other_leaders followers =
      let s1 = vote_l s trxn_id in
      if enough s1.collect_l trxn_id (length other_leaders + 1)
      then start_m s1 trxn_id t other_leaders followers
      else s1

  unfoldable pub on_recv_l : Server → Bytes → Bytes → Trxn → Server
  unfolding count_l
  on_recv_l s beacon trxn_id t = leading s beacon trxn_id st_d (count_l s trxn_id t)

  count_m : Server → Bytes → Trxn → List Bytes → List Bytes → Server
  unfolding send_followers_xit_n
  count_m s trxn_id t other_leaders followers =
      let s1 = vote_m s trxn_id in
      if enough s1.collect_m trxn_id (length other_leaders + 1)
      then send_followers_xit_n (enter s1 trxn_id st_e) trxn_id followers t
      else s1

  unfoldable pub on_recv_m : Server → Bytes → Bytes → Trxn → Server
  unfolding count_m
  on_recv_m s beacon trxn_id t = leading s beacon trxn_id st_e (count_m s trxn_id t)

  -- A follower commits; the return code is 0, -171, -173 or that of the storage.
  unfoldable pub on_recv_n : Server → Bytes → Bytes → Trxn → Server × ℤ × Bytes
  on_recv_n s beacon trxn_id t =
      if (is_leader m s.nodes beacon s.id false).0
      then (s, neg 171, codes "E0392838 received XIT_N but I am a leader")
      else if leb st_f (cur_state s trxn_id)
      then (s, neg 173, codes "E40289 current state is already ST_F")
      else (let (store, rrc, errmsg) = receive_trxn s.store t in
          (record s { store = store }, (if is_negative rrc then rrc else pos 0), errmsg))
