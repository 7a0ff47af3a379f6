-- ===== src/TrxnState/Steps.antt =====
-- src/trxnstate.cc, `goState`: which moves it makes, and what it leaves alone.
use omicro.Base.{
  ℕ, ◌+◌, ◌≤◌, ◌≡◌, ◌∙◌, ◌⊎◌, refl, Bool, true, false, Option, none, some, arith, ◌==◌,
  if◌then◌else◌, Bool-cases, inl, inr, Bytes, eqb, eqb_iff,
}
use omicro.Base.Dict
use omicro.Base.Dict.{find-assign, find-emplace}
use omicro.TrxnState.{
  TrxnState, OmState, get_state, go_state, set_state, cur_state, enter, next_state_l2,
  next_state_l3, insert_or_update_state, st_t,
}

-- The protocol's rounds, by the codes of states and triggers. The first trigger opens a transaction
-- that has no state. Each later trigger enters the state 40 below its own code, from the state
-- before; at level 2 also from that state itself.
abbrev pub Step2 : ℕ → ℕ → ℕ → Type 0
Step2 cur x next =
    ((cur ≡ b'0') × (x ≡ b'i') × (next ≡ b'A'))
    ⊎ ((b'j' ≤ x) × (x ≤ b'n') × (next + 40 ≡ x) × ((cur ≡ next) ⊎ (cur + 1 ≡ next)))

abbrev pub Step3 : ℕ → ℕ → ℕ → Type 0
Step3 cur x next =
    ((cur ≡ b'0') × (x ≡ b'i') × (next ≡ b'A'))
    ⊎ ((b'j' ≤ x) × (x ≤ b'q') × (next + 40 ≡ x) × (cur + 1 ≡ next))

abbrev pub Step : ℕ → ℕ → ℕ → ℕ → Type 0
Step level cur x next = ((level ≡ 2) × Step2 cur x next) ⊎ ((level ≡ 3) × Step3 cur x next)

next_state_l2-Step2 : (cur x next : ℕ) → next_state_l2 cur x ≡ some next → Step2 cur x next
unfolding next_state_l2
next_state_l2-Step2 cur x next h = ground arith

Step2-next_state_l2 : (cur x next : ℕ) → Step2 cur x next → next_state_l2 cur x ≡ some next
unfolding next_state_l2
Step2-next_state_l2 cur x next h = ground arith

next_state_l3-Step3 : (cur x next : ℕ) → next_state_l3 cur x ≡ some next → Step3 cur x next
unfolding next_state_l3
next_state_l3-Step3 cur x next h = ground arith

Step3-next_state_l3 : (cur x next : ℕ) → Step3 cur x next → next_state_l3 cur x ≡ some next
unfolding next_state_l3
Step3-next_state_l3 cur x next h = ground arith

-- The state that a move starts from: `ST_0` stands for an id with no entry.
abbrev pub current : TrxnState → Bytes → ℕ
current t id = cur_state (Dict.find id t.state_map)

-- The state after a write: a terminated entry stays.
abbrev written : Option OmState → ℕ → ℕ
written none s = s
written (some old) s = if old.state == st_t then st_t else s

get_state-insert_or_update_state :
    (t : TrxnState) (id j : Bytes) (s : ℕ) (itr : Option OmState)
    → Dict.find id t.state_map ≡ itr
    → get_state (insert_or_update_state t id (record { state = s }) itr) j
      ≡ (if eqb id j then (true, written itr s) else get_state t j)
unfolding get_state insert_or_update_state
get_state-insert_or_update_state t id j s none e =
    rw (find-emplace, e) (ground (arith, eqb_iff id j))
get_state-insert_or_update_state t id j s (some old) e =
    rw find-assign (ground (arith, eqb_iff id j))

-- A write to an id gives it the new state, unless it is terminated, and leaves the others.
pub get_state-set_state :
    (t : TrxnState) (id j : Bytes) (s : ℕ)
    → get_state (set_state t id s) j
      ≡ (if eqb id j then (true, (if current t id == st_t then st_t else s)) else get_state t j)
unfolding set_state
get_state-set_state t id j s =
    ground (arith, get_state-insert_or_update_state t id j s (Dict.find id t.state_map) refl)

-- What one call of `goState` did.
pub data Outcome (level : ℕ) (t : TrxnState) (id : Bytes) (x : ℕ) (r : TrxnState × Bool)
    : Type 0 where
  moved :
      (next : ℕ)
      → Step level (current t id) x next
      → r.1 ≡ true
      → ((j : Bytes) → get_state r.0 j ≡ (if eqb id j then (true, next) else get_state t j))
      → Outcome level t id x r
  refused :
      ((next : ℕ) → ¬ Step level (current t id) x next) → r ≡ (t, false) → Outcome level t id x r

Step-written :
    (level x next : ℕ) (itr : Option OmState)
    → Step level (cur_state itr) x next
    → written itr next ≡ next
Step-written level x next none h = refl
Step-written level x next (some old) h = ground arith

enter-Outcome :
    (level : ℕ) (t : TrxnState) (id : Bytes) (x : ℕ) (o : Option ℕ)
    → ((next : ℕ) → o ≡ some next → Step level (current t id) x next)
    → ((next : ℕ) → Step level (current t id) x next → o ≡ some next)
    → Outcome level t id x (enter t id (Dict.find id t.state_map) o)
enter-Outcome level t id x none sound complete = refused (λ next h. cc (complete next h)) refl
enter-Outcome level t id x (some next) sound complete = moved next (sound next refl) refl λ j.
    get_state-insert_or_update_state t id j next (Dict.find id t.state_map) refl
    ∙ rw (Step-written level x next (Dict.find id t.state_map) (sound next refl)) refl

-- A call moves exactly when the protocol has a step for the trigger at the id's state; then the id
-- has the step's state and every other id is as before. Otherwise the call reports false and leaves
-- the table as it was, at any level.
pub go_state-Outcome :
    (t : TrxnState) (level : ℕ) (id : Bytes) (x : ℕ) → Outcome level t id x (go_state t level id x)
unfolding go_state
go_state-Outcome t level id x = elim (Bool-cases (level == 2)) [
  | inl two ↦ rw two (
      enter-Outcome level t id x (next_state_l2 (current t id) x)
        (λ next h. ground (arith, next_state_l2-Step2 (current t id) x next))
        (λ next h. ground (arith, Step2-next_state_l2 (current t id) x next)))
  | inr not2 ↦ elim (Bool-cases (level == 3)) [
    | inl three ↦
        rw (not2, three)
          (enter-Outcome level t id x (next_state_l3 (current t id) x)
            (λ next h. ground (arith, next_state_l3-Step3 (current t id) x next))
            (λ next h. ground (arith, Step3-next_state_l3 (current t id) x next)))
    | inr not3 ↦ rw (not2, not3) (refused (λ next h. ground arith) refl)
  ]
]
