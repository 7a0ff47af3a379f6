-- ===== src/Server/Commit.antt =====
-- src/server.cpp: what one vote does to the states of transactions and to the storage.
use omicro.Base.{ℕ, ◌+◌, ◌<◌, ◌≡◌, inl, refl, List, arith, Bytes, length}
use omicro.Trxn.{Trxn, Keys, Reals, get_trxn_id, set_xit}
use omicro.TrxnState.{st_c, st_d, st_e, st_t, xit_m}
use omicro.TrxnState.Forward.{set_state-forward, get_state-entered}
use omicro.Circuit.{Maths}
use omicro.Server.{
  WaitCount, Ledger, multicast, send_followers_xit_n, start_l, count_k, start_m, count_l, count_m,
  vote_k, vote_l, vote_m, enough, announce_m, on_recv_k, on_recv_l, on_recv_m,
}
use omicro.Server.Effects.{
  State, state_of, enters, Forward, Effect, quiet, Effect-if, Effect-after, leading-Effect,
  send-Effect, journaled,
}

module _ (m : Maths) (keys : Keys) (r : Reals) (wc : WaitCount) (ledger : Ledger r) where
  abbrev S : Type 0
  S = State m keys r wc ledger

  abbrev L : Ledger r
  L = journaled ledger

  forward :
      (s : S) (id : Bytes) (st : ℕ)
      → state_of m keys r wc ledger s id < st
      → Forward m keys r wc ledger s (enters m keys r wc ledger s id st)
  forward s id st low j = set_state-forward s.trxn_state id j st (inl low)

  state_of-enter :
      (s : S) (id : Bytes) (st : ℕ)
      → state_of m keys r wc ledger s id < st
      → st < st_t
      → state_of m keys r wc ledger (enters m keys r wc ledger s id st) id ≡ st
  state_of-enter s id st low h = get_state-entered s.trxn_state id st low h

  -- A write of E and the commitment after it.
  enter_send-Effect :
      (s : S) (t : Trxn) (followers : List Bytes)
      → state_of m keys r wc ledger s (get_trxn_id t) < st_e
      → Effect m keys r wc ledger s (
          send_followers_xit_n m keys r wc L
            (enters m keys r wc ledger s (get_trxn_id t) st_e)
            (get_trxn_id t)
            followers
            t)
  enter_send-Effect s t followers low =
      let id = get_trxn_id t in
      Effect-after m keys r wc ledger s (enters m keys r wc ledger s id st_e) _
        (forward s id st_e low) refl
        (send-Effect m keys r wc ledger (enters m keys r wc ledger s id st_e) followers t
          (omega (arith, state_of-enter s id st_e low (omega arith))))

  count_m-Effect :
      (s : S) (t : Trxn) (others followers : List Bytes)
      → state_of m keys r wc ledger s (get_trxn_id t) < st_e
      → Effect m keys r wc ledger s (count_m m keys r wc L s (get_trxn_id t) t others followers)
  unfolding count_m
  count_m-Effect s t others followers low =
      let s1 = vote_m m keys r wc L s (get_trxn_id t) in
      Effect-if m keys r wc ledger s _ s1
        (enough m keys r wc L s1.collect_m (get_trxn_id t) (length others + 1))
        (Effect-after m keys r wc ledger s s1 _ (λ j h. h) refl
          (enter_send-Effect s1 t followers low))
        (quiet (λ j h. h) refl)

  -- The state is D once the M round is announced.
  announce_m-Forward :
      (s : S) (id : Bytes) (t : Trxn) (others : List Bytes)
      → state_of m keys r wc ledger s id < st_d
      → Forward m keys r wc ledger s (announce_m m keys r wc L s id t others)
        × (state_of m keys r wc ledger (announce_m m keys r wc L s id t others) id ≡ st_d)
  unfolding announce_m multicast
  announce_m-Forward s id t others low =
      (forward s id st_d low, state_of-enter s id st_d low (omega arith))

  announce_m-store :
      (s : S) (id : Bytes) (t : Trxn) (others : List Bytes)
      → (announce_m m keys r wc L s id t others).store ≡ s.store
  unfolding announce_m multicast
  announce_m-store s id t others = refl

  start_m-Effect :
      (s : S) (t : Trxn) (others followers : List Bytes)
      → state_of m keys r wc ledger s (get_trxn_id t) < st_d
      → Effect m keys r wc ledger s (start_m m keys r wc L s (get_trxn_id t) t others followers)
  unfolding start_m get_trxn_id set_xit
  start_m-Effect s t others followers low =
      let id = get_trxn_id t in
      let s1 = announce_m m keys r wc L s id (set_xit t xit_m) others in
      let f = announce_m-Forward s id (set_xit t xit_m) others low in
      Effect-if m keys r wc ledger s _ s1 (enough m keys r wc L s1.collect_m id (length others + 1))
        (Effect-after m keys r wc ledger s s1 _ f.0 (announce_m-store s id (set_xit t xit_m) others)
          (enter_send-Effect s1 (set_xit t xit_m) followers (omega (arith, f.1))))
        (quiet f.0 (announce_m-store s id (set_xit t xit_m) others))

  count_l-Effect :
      (s : S) (t : Trxn) (others followers : List Bytes)
      → state_of m keys r wc ledger s (get_trxn_id t) < st_d
      → Effect m keys r wc ledger s (count_l m keys r wc L s (get_trxn_id t) t others followers)
  unfolding count_l
  count_l-Effect s t others followers low =
      let s1 = vote_l m keys r wc L s (get_trxn_id t) in
      Effect-if m keys r wc ledger s _ s1
        (enough m keys r wc L s1.collect_l (get_trxn_id t) (length others + 1))
        (Effect-after m keys r wc ledger s s1 _ (λ j h. h) refl
          (start_m-Effect s1 t others followers low))
        (quiet (λ j h. h) refl)

  count_k-Effect :
      (s : S) (t : Trxn) (others followers : List Bytes)
      → state_of m keys r wc ledger s (get_trxn_id t) < st_c
      → Effect m keys r wc ledger s (count_k m keys r wc L s (get_trxn_id t) t others followers)
  unfolding count_k start_l multicast
  count_k-Effect s t others followers low =
      let s1 = vote_k m keys r wc L s (get_trxn_id t) in
      Effect-if m keys r wc ledger s _ s1
        (enough m keys r wc L s1.collect_k (get_trxn_id t) (length followers + 1))
        (quiet (forward s (get_trxn_id t) st_c low) refl) (quiet (λ j h. h) refl)

  -- The rounds of votes.
  pub on_recv_k-Effect :
      (s : S) (t : Trxn)
      → Effect m keys r wc ledger s (on_recv_k m keys r wc L s t.beacon (get_trxn_id t) t)
  unfolding on_recv_k
  on_recv_k-Effect s t =
      leading-Effect m keys r wc ledger s t.beacon (get_trxn_id t) st_c _ (count_k-Effect s t)

  pub on_recv_l-Effect :
      (s : S) (t : Trxn)
      → Effect m keys r wc ledger s (on_recv_l m keys r wc L s t.beacon (get_trxn_id t) t)
  unfolding on_recv_l
  on_recv_l-Effect s t =
      leading-Effect m keys r wc ledger s t.beacon (get_trxn_id t) st_d _ (count_l-Effect s t)

  pub on_recv_m-Effect :
      (s : S) (t : Trxn)
      → Effect m keys r wc ledger s (on_recv_m m keys r wc L s t.beacon (get_trxn_id t) t)
  unfolding on_recv_m
  on_recv_m-Effect s t =
      leading-Effect m keys r wc ledger s t.beacon (get_trxn_id t) st_e _ (count_m-Effect s t)
