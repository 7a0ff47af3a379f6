-- ===== src/Server/Queries.antt =====
-- src/server.cpp, `onRecvQueryK` and `onRecvQueryL`: the votes on a query.
use omicro.Base.{◌+◌, ◌/◌, true, not, leb, if◌then◌else◌, Bytes, length}
use omicro.Base.Int.{ℤ, pos, neg}
use omicro.Trxn.{Keys, Reals}
use omicro.TrxnState.{st_c, st_d}
use omicro.Quorum.{twofplus1}
use omicro.Circuit.{Maths, is_leader, get_zone_leaders}
use omicro.Server.{Server, WaitCount, Ledger, cur_state, enter}

module _ (m : Maths) (keys : Keys) (r : Reals) (wc : WaitCount) (ledger : Ledger r) where
  open wc use {Counts, add, get, erase}

  abbrev State : Type 0
  State = Server m keys r wc ledger

  -- The quorum ends the round, and the count is dropped.
  unfoldable pub on_recv_query_k : State → Bytes → Bytes → State × ℤ
  on_recv_query_k s beacon trxn_id =
      let (i_am_leader, followers) = is_leader m s.nodes beacon s.id true in
      let s1 : State = record s { collect_query_k = add s.collect_query_k trxn_id 1 } in
      let s2 : State = enter m keys r wc ledger s1 trxn_id st_c in
      if not i_am_leader
      then (s, neg 1)
      else if leb st_c (cur_state m keys r wc ledger s trxn_id)
      then (s, neg 100)
      else if leb (twofplus1 (length followers + 1)) (get s1.collect_query_k trxn_id)
      then (record s2 { collect_query_k = erase s2.collect_query_k trxn_id }, pos 0)
      else (s1, neg 50)

  -- The node that the client talks to waits for more than half of the leaders.
  unfoldable pub on_recv_query_l : State → Bytes → Bytes → State × ℤ
  on_recv_query_l s beacon trxn_id =
      let leader_vec = get_zone_leaders m s.nodes beacon in
      let s1 : State = record s { collect_query_l = add s.collect_query_l trxn_id 1 } in
      let s2 : State = enter m keys r wc ledger s1 trxn_id st_d in
      if leb st_d (cur_state m keys r wc ledger s trxn_id)
      then (s, neg 100)
      else if leb (length leader_vec / 2 + 1) (get s1.collect_query_l trxn_id)
      then (record s2 { collect_query_l = erase s2.collect_query_l trxn_id }, pos 0)
      else (s1, neg 50)
