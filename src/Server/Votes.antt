-- ===== src/Server/Votes.antt =====
-- src/server.cpp, `onRecvK`: a round of votes at a leader.
use omicro.Base.{
  ℕ, zero, suc, ◌+◌, ◌≤◌, ◌<◌, ◌≡◌, ◌∙◌, ap, sym, refl, true, List, [], ◌++◌, arith, leb,
  if◌then◌else◌, Bool-cases, inl, inr, Bytes, eqb_refl, length,
}
use omicro.Trxn.{Trxn, Keys, Reals, allstr, set_xit}
use omicro.TrxnState.{st_c, xit_l}
use omicro.TrxnState.Forward.{get_state-entered}
use omicro.Quorum.{twofplus1}
use omicro.Circuit.{Maths, get_other_leaders_and_this_followers}
use omicro.Server.{
  Server, Sent, WaitCount, Ledger, cur_state, multicast, multicast_loop, start_l, count_k,
  on_recv_k, vote_k, enough, om_txn,
}

module _ (m : Maths) (keys : Keys) (r : Reals) (wc : WaitCount) (ledger : Ledger r) where
  abbrev State : Type 0
  State = Server m keys r wc ledger

  abbrev state_of : State → Bytes → ℕ
  state_of = cur_state m keys r wc ledger

  -- So many K votes, one after the other.
  unfoldable pub k_votes : State → Bytes → Bytes → Trxn → ℕ → State
  k_votes s beacon id t zero = s
  k_votes s beacon id t (suc n) = k_votes (on_recv_k m keys r wc ledger s beacon id t) beacon id t n

  -- The messages of the L round to the other leaders.
  abbrev pub l_messages : State → Trxn → List Bytes → List Sent
  l_messages s t others =
      (multicast_loop keys om_txn (allstr (set_xit t xit_l)) s.srvport_pubkey others ([], [])).1

  on_recv_k_late :
      (s : State) (beacon id : Bytes) (t : Trxn)
      → st_c ≤ state_of s id
      → on_recv_k m keys r wc ledger s beacon id t ≡ s
  unfolding on_recv_k
  on_recv_k_late s beacon id t h = ground arith

  k_votes_late :
      (s : State) (beacon id : Bytes) (t : Trxn) (n : ℕ)
      → st_c ≤ state_of s id
      → k_votes s beacon id t n ≡ s
  unfolding k_votes
  k_votes_late s beacon id t zero h = refl
  k_votes_late s beacon id t (suc n) h =
      rw (on_recv_k_late s beacon id t h) (k_votes_late s beacon id t n h)

  -- Where this node is told that it leads, and the state is below C, a vote is counted.
  on_recv_k-count_k :
      (s : State) (beacon id : Bytes) (t : Trxn) (others followers : List Bytes)
      → get_other_leaders_and_this_followers m s.nodes beacon s.id ≡ (true, others, followers)
      → state_of s id < st_c
      → on_recv_k m keys r wc ledger s beacon id t ≡ (
          if enough m keys r wc ledger (wc.add s.collect_k id 1) id (length followers + 1)
          then start_l m keys r wc ledger (vote_k m keys r wc ledger s id) id t others
          else vote_k m keys r wc ledger s id)
  unfolding on_recv_k count_k
  on_recv_k-count_k s beacon id t others followers leads low =
      ground (arith, ap (λ x. x.0) leads, ap (λ x. x.1) leads, ap (λ x. x.2) leads)

  -- What the round has done so far: the messages, the state and this node's own L vote.
  abbrev pub Seen : Type 0
  Seen = List Sent × ℕ × ℕ

  abbrev pub seen : State → Bytes → Seen
  seen s id = (s.sent, state_of s id, wc.get s.collect_l id)

  -- What it has done when the quorum is there.
  abbrev pub fired : State → Bytes → Trxn → List Bytes → Seen
  fired s id t others = (s.sent ++ l_messages s t others, st_c, wc.get s.collect_l id + 1)

  seen-start_l :
      (s : State) (id : Bytes) (t : Trxn) (others : List Bytes)
      → state_of s id < st_c
      → seen (start_l m keys r wc ledger s id t others) id ≡ fired s id t others
  unfolding start_l multicast
  seen-start_l s id t others low =
      rw
        (
          get_state-entered s.trxn_state id st_c low (omega arith),
          wc.get-add s.collect_l id id 1,
          eqb_refl id,
        )
        refl

  -- At a node that is told that it leads, where a transaction is below C and the count of its K
  -- votes below the quorum, after `n` more votes: if they reach the quorum, the L round was
  -- announced to the other leaders once, the state is C and this node has one more L vote, however
  -- many votes came; if they do not, none of these has changed.
  pub k_round :
      (s : State) (beacon id : Bytes) (t : Trxn) (others followers : List Bytes) (n : ℕ)
      → get_other_leaders_and_this_followers m s.nodes beacon s.id ≡ (true, others, followers)
      → state_of s id < st_c
      → wc.get s.collect_k id < twofplus1 (length followers + 1)
      → seen (k_votes s beacon id t n) id ≡ (
          if leb (twofplus1 (length followers + 1)) (wc.get s.collect_k id + n)
          then fired s id t others
          else seen s id)
  unfolding k_votes
  k_round s beacon id t others followers zero leads low few = ground arith
  k_round s beacon id t others followers (suc n) leads low few =
      let q = twofplus1 (length followers + 1) in
      let c = wc.get s.collect_k id in
      let s1 = vote_k m keys r wc ledger s id in
      let counted : wc.get s1.collect_k id ≡ c + 1 =
        rw (wc.get-add s.collect_k id id 1, eqb_refl id) refl in
      let step = on_recv_k-count_k s beacon id t others followers leads low in
      let rest : State → Seen = λ x. seen (k_votes x beacon id t n) id in
      elim (Bool-cases (leb q (c + 1))) [
        | inl reached ↦
            let s2 = start_l m keys r wc ledger s1 id t others in
            let fires : seen s2 id ≡ fired s id t others = seen-start_l s1 id t others low in
            let e : on_recv_k m keys r wc ledger s beacon id t ≡ s2 =
              step ∙ rw (counted, reached) refl in
            let late : k_votes s2 beacon id t n ≡ s2 =
              k_votes_late s2 beacon id t n (ground (arith, ap (λ x. x.1) fires)) in
            let over : leb q (c + suc n) ≡ true = ground (arith, reached) in
            ap rest e ∙ ap (λ x. seen x id) late ∙ fires ∙ sym (rw over refl)
        | inr few1 ↦
            let e : on_recv_k m keys r wc ledger s beacon id t ≡ s1 =
              step ∙ rw (counted, few1) refl in
            let same : leb q (wc.get s1.collect_k id + n) ≡ leb q (c + suc n) =
              ap (leb q) (omega (arith, counted)) in
            ap rest e
            ∙ k_round s1 beacon id t others followers n leads low (ground (arith, few1, counted))
            ∙ rw same refl
      ]
