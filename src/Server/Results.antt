-- ===== src/Server/Results.antt =====
-- src/server.cpp: the votes on a transaction leave the results of queries alone.
use omicro.Base.{◌≡◌, arith, List, Bytes}
use omicro.Trxn.{Trxn, Keys, Reals}
use omicro.Circuit.{Maths}
use omicro.Server.{
  Server, WaitCount, Ledger, multicast, send_followers_xit_n, start_l, count_k, start_m, count_l,
  count_m, announce_m, on_recv_k, on_recv_l, on_recv_m, on_recv_n,
}

module _ (m : Maths) (keys : Keys) (r : Reals) (wc : WaitCount) (ledger : Ledger r) where
  abbrev State : Type 0
  State = Server m keys r wc ledger

  pub on_recv_k-q_result :
      (s : State) (beacon id : Bytes) (t : Trxn)
      → (on_recv_k m keys r wc ledger s beacon id t).q_result ≡ s.q_result
  unfolding on_recv_k count_k start_l multicast
  on_recv_k-q_result s beacon id t = ground arith

  start_m-q_result :
      (s : State) (id : Bytes) (t : Trxn) (others followers : List Bytes)
      → (start_m m keys r wc ledger s id t others followers).q_result ≡ s.q_result
  unfolding start_m announce_m send_followers_xit_n multicast
  start_m-q_result s id t others followers = ground arith

  count_l-q_result :
      (s : State) (id : Bytes) (t : Trxn) (others followers : List Bytes)
      → (count_l m keys r wc ledger s id t others followers).q_result ≡ s.q_result
  unfolding count_l
  count_l-q_result s id t others followers =
      ground (
        arith,
        start_m-q_result (omicro.Server.vote_l m keys r wc ledger s id) id t others followers,
      )

  pub on_recv_l-q_result :
      (s : State) (beacon id : Bytes) (t : Trxn)
      → (on_recv_l m keys r wc ledger s beacon id t).q_result ≡ s.q_result
  unfolding on_recv_l
  on_recv_l-q_result s beacon id t =
      let scan = omicro.Circuit.get_other_leaders_and_this_followers m s.nodes beacon s.id in
      ground (arith, count_l-q_result s id t scan.1 scan.2)

  pub on_recv_m-q_result :
      (s : State) (beacon id : Bytes) (t : Trxn)
      → (on_recv_m m keys r wc ledger s beacon id t).q_result ≡ s.q_result
  unfolding on_recv_m count_m send_followers_xit_n multicast
  on_recv_m-q_result s beacon id t = ground arith

  pub on_recv_n-q_result :
      (s : State) (beacon id : Bytes) (t : Trxn)
      → (on_recv_n m keys r wc ledger s beacon id t).0.q_result ≡ s.q_result
  unfolding on_recv_n
  on_recv_n-q_result s beacon id t = ground arith
