-- ===== src/Server/Effects.antt =====
-- src/server.cpp: what a step of the server may do to the states of transactions and to the storage.
use omicro.Base.{
  ℕ, ◌+◌, ◌≤◌, ◌<◌, ◌≡◌, inl, inr, refl, ap, ◌∙◌, Bool, true, false, not, List, [], ◌∷◌, ◌++◌,
  arith, leb, if◌then◌else◌, Bool-cases, Bytes, eqb,
}
use omicro.Trxn.{Trxn, Keys, Reals, get_trxn_id, set_xit}
use omicro.TrxnState.{st_f, xit_n}
use omicro.TrxnState.Forward.{set_state-forward, set_state-reaches}
use omicro.Circuit.{Maths, get_other_leaders_and_this_followers}
use omicro.Server.{
  Server, WaitCount, Ledger, cur_state, enter, leading, multicast, send_followers_xit_n,
}

-- A storage that also lists the transactions it is handed, oldest first.
abbrev pub journaled : {r : Reals} → Ledger r → Ledger r
journaled ledger = record {
  Store = ledger.Store × List Trxn;
  receive_trxn = λ (st, journal) t.
      let (st1, rc, errmsg) = ledger.receive_trxn st t in ((st1, journal ++ t ∷ []), rc, errmsg);
  get_balance_and_pubkey = λ (st, journal). ledger.get_balance_and_pubkey st;
  get_fence = λ (st, journal). ledger.get_fence st;
  read_trxns = λ (st, journal). ledger.read_trxns st;
  is_xfer_token_valid = λ (st, journal). ledger.is_xfer_token_valid st;
  run_query = λ (st, journal). ledger.run_query st;
  query_trxn = λ (st, journal). ledger.query_trxn st;
}

-- How many of the transactions have the id.
unfoldable pub received : Bytes → List Trxn → ℕ
received id [] = 0
received id (t ∷ ts) = (if eqb (get_trxn_id t) id then 1 else 0) + received id ts

pub received-append :
    (id : Bytes) (ts : List Trxn) (t : Trxn)
    → received id (ts ++ t ∷ []) ≡ received id ts + (if eqb (get_trxn_id t) id then 1 else 0)
unfolding received
received-append id [] t = omega arith
received-append id (u ∷ ts) t = omega (arith, received-append id ts t)

module _ (m : Maths) (keys : Keys) (r : Reals) (wc : WaitCount) (ledger : Ledger r) where
  abbrev pub State : Type 0
  State = Server m keys r wc (journaled ledger)

  abbrev pub state_of : State → Bytes → ℕ
  state_of = cur_state m keys r wc (journaled ledger)

  abbrev pub enters : State → Bytes → ℕ → State
  enters = enter m keys r wc (journaled ledger)

  abbrev pub Forward : State → State → Type 0
  Forward s s1 = (j : Bytes) → st_f ≤ state_of s j → st_f ≤ state_of s1 j

  -- What a step does: nothing to the storage, or it hands over one transaction whose state was
  -- below F and now is not.
  pub data Effect (s s1 : State) : Type 0 where
    quiet : Forward s s1 → s1.store ≡ s.store → Effect s s1
    commits :
        (t : Trxn)
        → Forward s s1
        → state_of s (get_trxn_id t) < st_f
        → st_f ≤ state_of s1 (get_trxn_id t)
        → s1.store.1 ≡ s.store.1 ++ t ∷ []
        → Effect s s1

  pub Effect-refl : (s : State) → Effect s s
  Effect-refl s = quiet (λ j h. h) refl

  pub Effect-if :
      (s x y : State) (b : Bool) → Effect s x → Effect s y → Effect s (if b then x else y)
  Effect-if s x y true ex ey = ex
  Effect-if s x y false ex ey = ey

  -- A step before another that leaves the storage.
  pub Effect-after :
      (s s1 s2 : State) → Forward s s1 → s1.store ≡ s.store → Effect s1 s2 → Effect s s2
  Effect-after s s1 s2 f e (quiet g d) = quiet (λ j h. g j (f j h)) (d ∙ e)
  Effect-after s s1 s2 f e (commits t g low high d) =
      commits t (λ j h. g j (f j h)) (ground (arith, f (get_trxn_id t))) high
        (d ∙ ap (λ st. st.1 ++ t ∷ []) e)

  -- The guard of the leader's handlers.
  pub leading-Effect :
      (s : State) (beacon id : Bytes) (st : ℕ) (act : List Bytes → List Bytes → State)
      → ((others followers : List Bytes) → state_of s id < st → Effect s (act others followers))
      → Effect s (leading m keys r wc (journaled ledger) s beacon id st act)
  leading-Effect s beacon id st act h =
      let scan = get_other_leaders_and_this_followers m s.nodes beacon s.id in
      elim (Bool-cases (leb st (state_of s id))) [
        | inl passed ↦ Effect-if s s _ (not scan.0) (Effect-refl s) (rw passed (Effect-refl s))
        | inr below ↦
            Effect-if s s _ (not scan.0) (Effect-refl s)
              (rw below (h scan.1 scan.2 (ground (arith, below))))
      ]

  pub send-Effect :
      (s : State) (followers : List Bytes) (t : Trxn)
      → state_of s (get_trxn_id t) < st_f
      → Effect s (send_followers_xit_n m keys r wc (journaled ledger) s (get_trxn_id t) followers t)
  unfolding send_followers_xit_n multicast get_trxn_id
  send-Effect s followers t low =
      commits (record (set_xit t xit_n) { srvport = s.srvport })
        (λ j. set_state-forward s.trxn_state (get_trxn_id t) j st_f (inr (omega arith)))
        (unfold set_xit in low)
        (unfold set_xit in set_state-reaches s.trxn_state (get_trxn_id t) st_f (omega arith)) refl
