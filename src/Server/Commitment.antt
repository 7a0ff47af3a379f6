-- ===== src/Server/Commitment.antt =====
-- src/server.cpp, `onRecvM`: the last round of votes at a leader.
use omicro.Base.{
  ℕ, zero, suc, ◌+◌, ◌≤◌, ◌<◌, ◌≡◌, ◌∙◌, ap, sym, refl, true, List, [], ◌++◌, arith, leb,
  if◌then◌else◌, Bool-cases, inl, inr, Bytes, eqb_refl, length,
}
use omicro.Trxn.{Trxn, Keys, Reals, allstr, set_xit}
use omicro.TrxnState.{st_e, st_f, xit_n, get_state, set_state}
use omicro.TrxnState.Forward.{get_state-entered}
use omicro.Quorum.{twofplus1}
use omicro.Circuit.{Maths, get_other_leaders_and_this_followers}
use omicro.Server.{
  Server, Sent, WaitCount, Ledger, cur_state, enter, multicast, multicast_loop,
  send_followers_xit_n, count_m, on_recv_m, vote_m, enough, om_txn,
}

module _ (m : Maths) (keys : Keys) (r : Reals) (wc : WaitCount) (ledger : Ledger r) where
  abbrev State : Type 0
  State = Server m keys r wc ledger

  abbrev state_of : State → Bytes → ℕ
  state_of = cur_state m keys r wc ledger

  -- So many M votes, one after the other.
  unfoldable pub m_votes : State → Bytes → Bytes → Trxn → ℕ → State
  m_votes s beacon id t zero = s
  m_votes s beacon id t (suc n) = m_votes (on_recv_m m keys r wc ledger s beacon id t) beacon id t n

  -- The transaction as the followers and the storage get it.
  abbrev pub final_trxn : State → Trxn → Trxn
  final_trxn s t = record (set_xit t xit_n) { srvport = s.srvport }

  on_recv_m_late :
      (s : State) (beacon id : Bytes) (t : Trxn)
      → st_e ≤ state_of s id
      → on_recv_m m keys r wc ledger s beacon id t ≡ s
  unfolding on_recv_m
  on_recv_m_late s beacon id t h = ground arith

  m_votes_late :
      (s : State) (beacon id : Bytes) (t : Trxn) (n : ℕ)
      → st_e ≤ state_of s id
      → m_votes s beacon id t n ≡ s
  unfolding m_votes
  m_votes_late s beacon id t zero h = refl
  m_votes_late s beacon id t (suc n) h =
      rw (on_recv_m_late s beacon id t h) (m_votes_late s beacon id t n h)

  -- The commitment of a leader.
  abbrev commit : State → Bytes → Trxn → List Bytes → State
  commit s id t followers =
      send_followers_xit_n m keys r wc ledger (enter m keys r wc ledger s id st_e) id followers t

  -- Where this node is told that it leads, and the state is below E, a vote is counted.
  on_recv_m-count_m :
      (s : State) (beacon id : Bytes) (t : Trxn) (others followers : List Bytes)
      → get_other_leaders_and_this_followers m s.nodes beacon s.id ≡ (true, others, followers)
      → state_of s id < st_e
      → on_recv_m m keys r wc ledger s beacon id t ≡ (
          if enough m keys r wc ledger (wc.add s.collect_m id 1) id (length others + 1)
          then commit (vote_m m keys r wc ledger s id) id t followers
          else vote_m m keys r wc ledger s id)
  unfolding on_recv_m count_m
  on_recv_m-count_m s beacon id t others followers leads low =
      ground (arith, ap (λ x. x.0) leads, ap (λ x. x.1) leads, ap (λ x. x.2) leads)

  -- What the round has done so far: the messages, the state and the storage.
  abbrev pub Done : Type 0
  Done = List Sent × ℕ × ledger.Store

  abbrev pub done : State → Bytes → Done
  done s id = (s.sent, state_of s id, s.store)

  -- What it has done when the quorum is there.
  abbrev pub committed : State → Bytes → Trxn → List Bytes → Done
  committed s id t followers = (
    s.sent
        ++ (multicast_loop keys om_txn (allstr (final_trxn s t)) s.srvport_pubkey followers
            ([], [])).1,
    st_f,
    (ledger.receive_trxn s.store (final_trxn s t)).0,
  )

  done-commit :
      (s : State) (id : Bytes) (t : Trxn) (followers : List Bytes)
      → state_of s id < st_e
      → done (commit s id t followers) id ≡ committed s id t followers
  unfolding send_followers_xit_n multicast
  done-commit s id t followers low =
      let entered : (get_state (set_state s.trxn_state id st_e) id).1 ≡ st_e =
        get_state-entered s.trxn_state id st_e low (omega arith) in
      rw
        (get_state-entered (set_state s.trxn_state id st_e) id st_f (omega (arith, entered))
          (omega arith))
        refl

  -- At a node that is told that it leads, where a transaction is below E and the count of its M
  -- votes below the quorum, after `n` more votes: if they reach the quorum, the storage was handed
  -- the transaction once, the followers were told to commit it once and the state is F, however
  -- many votes came; if they do not, none of these has changed.
  pub m_round :
      (s : State) (beacon id : Bytes) (t : Trxn) (others followers : List Bytes) (n : ℕ)
      → get_other_leaders_and_this_followers m s.nodes beacon s.id ≡ (true, others, followers)
      → state_of s id < st_e
      → wc.get s.collect_m id < twofplus1 (length others + 1)
      → done (m_votes s beacon id t n) id ≡ (
          if leb (twofplus1 (length others + 1)) (wc.get s.collect_m id + n)
          then committed s id t followers
          else done s id)
  unfolding m_votes
  m_round s beacon id t others followers zero leads low few = ground arith
  m_round s beacon id t others followers (suc n) leads low few =
      let q = twofplus1 (length others + 1) in
      let c = wc.get s.collect_m id in
      let s1 = vote_m m keys r wc ledger s id in
      let counted : wc.get s1.collect_m id ≡ c + 1 =
        rw (wc.get-add s.collect_m id id 1, eqb_refl id) refl in
      let step = on_recv_m-count_m s beacon id t others followers leads low in
      let rest : State → Done = λ x. done (m_votes x beacon id t n) id in
      elim (Bool-cases (leb q (c + 1))) [
        | inl reached ↦
            let s2 = commit s1 id t followers in
            let commits : done s2 id ≡ committed s id t followers =
              done-commit s1 id t followers low in
            let e : on_recv_m m keys r wc ledger s beacon id t ≡ s2 =
              step ∙ rw (counted, reached) refl in
            let late : m_votes s2 beacon id t n ≡ s2 =
              m_votes_late s2 beacon id t n (ground (arith, ap (λ x. x.1) commits)) in
            let over : leb q (c + suc n) ≡ true = ground (arith, reached) in
            ap rest e ∙ ap (λ x. done x id) late ∙ commits ∙ sym (rw over refl)
        | inr few1 ↦
            let e : on_recv_m m keys r wc ledger s beacon id t ≡ s1 =
              step ∙ rw (counted, few1) refl in
            let same : leb q (wc.get s1.collect_m id + n) ≡ leb q (c + suc n) =
              ap (leb q) (omega (arith, counted)) in
            ap rest e
            ∙ m_round s1 beacon id t others followers n leads low (ground (arith, few1, counted))
            ∙ rw same refl
      ]
