-- ===== src/TrxnState/Forward.antt =====
-- src/trxnstate.cc: no write and no trigger takes a transaction back from commitment.
use omicro.Base.{ℕ, ◌≤◌, ◌<◌, ◌≡◌, ◌⊎◌, inl, inr, arith, Bool-cases, Bytes, eqb, eqb_iff}
use omicro.TrxnState.{TrxnState, get_state, go_state, set_state, st_f, st_t}
use omicro.TrxnState.Steps.{moved, refused, current, go_state-Outcome, get_state-set_state}

-- A write moves a state that is not past commitment only forward.
pub set_state-forward :
    (ts : TrxnState) (id j : Bytes) (st : ℕ)
    → ((get_state ts id).1 < st) ⊎ (st_f ≤ st)
    → st_f ≤ (get_state ts j).1
    → st_f ≤ (get_state (set_state ts id st) j).1
set_state-forward ts id j st low h = elim (Bool-cases (eqb id j)) [
  | inl same ↦ ground (arith, eqb_iff id j, get_state-set_state ts id j st)
  | inr other ↦ ground (arith, get_state-set_state ts id j st)
]

pub set_state-reaches :
    (ts : TrxnState) (id : Bytes) (st : ℕ)
    → st_f ≤ st
    → st_f ≤ (get_state (set_state ts id st) id).1
set_state-reaches ts id st h = ground (arith, eqb_iff id id, get_state-set_state ts id id st)

current-get_state :
    (ts : TrxnState) (id : Bytes) → st_f ≤ (get_state ts id).1 → current ts id ≡ (get_state ts id).1
unfolding get_state
current-get_state ts id h = ground arith

pub current-terminated :
    (ts : TrxnState) (id : Bytes) → current ts id ≡ st_t → (get_state ts id).1 ≡ st_t
unfolding get_state
current-terminated ts id h = ground arith

-- A trigger never takes a state back from commitment.
pub go_state-forward :
    (ts : TrxnState) (level : ℕ) (id : Bytes) (x : ℕ) (j : Bytes)
    → st_f ≤ (get_state ts j).1
    → st_f ≤ (get_state (go_state ts level id x).0 j).1
go_state-forward ts level id x j h = elim (go_state-Outcome ts level id x) [
  | refused none_allowed e ↦ rw e h
  | moved next step flag states ↦ elim (Bool-cases (eqb id j)) [
    | inl same ↦ ground (arith, eqb_iff id j, states j, current-get_state ts id)
    | inr other ↦ ground (arith, states j)
  ]
]

-- A write above the state and below termination is what is read.
pub get_state-entered :
    (ts : TrxnState) (id : Bytes) (st : ℕ)
    → (get_state ts id).1 < st
    → st < st_t
    → (get_state (set_state ts id st) id).1 ≡ st
get_state-entered ts id st low h =
    ground (arith, eqb_iff id id, get_state-set_state ts id id st, current-terminated ts id)
