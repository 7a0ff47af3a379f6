-- ===== src/TrxnState/Progress.antt =====
-- src/trxnstate.cc: histories of calls. A transaction's state never falls under `goState`, and a
-- terminated transaction stays terminated until its entry is deleted.
use omicro.Base.{
  ℕ, ◌+◌, ◌≤◌, ◌<◌, ◌≡◌, ◌≢◌, ◌⊎◌, refl, inl, inr, Bool, true, false, List, [], ◌∷◌, arith,
  if◌then◌else◌, Bytes, eqb, eqb_iff,
}
use omicro.Base.Dict.{find-erase}
use omicro.TrxnState.{
  TrxnState, get_state, go_state, set_state, terminate_state, delete_state, st_0, st_t, st_null,
}
use omicro.TrxnState.Steps.{
  Step, current, Outcome, moved, refused, go_state-Outcome, get_state-set_state,
}

pub data Call : Type 0 where
  goes : ℕ → Bytes → ℕ → Call
  sets : Bytes → ℕ → Call
  terminates deletes : Bytes → Call

unfoldable pub apply : TrxnState → Call → TrxnState
apply t (goes level id x) = (go_state t level id x).0
apply t (sets id s) = set_state t id s
apply t (terminates id) = terminate_state t id
apply t (deletes id) = delete_state t id

unfoldable pub run : TrxnState → List Call → TrxnState
unfolding apply
run t [] = t
run t (c ∷ cs) = run (apply t c) cs

-- The calls that protocol rounds make: `goState`, for any id, level and trigger.
abbrev pub AllGo : List Call → Type 0
AllGo [] = Unit {0}
AllGo (goes level id x ∷ cs) = AllGo cs
AllGo (_ ∷ cs) = ⊥

abbrev pub NoDelete : Bytes → List Call → Type 0
NoDelete id [] = Unit {0}
NoDelete id (deletes j ∷ cs) = (j ≢ id) × NoDelete id cs
NoDelete id (_ ∷ cs) = NoDelete id cs

current-get_state :
    (t : TrxnState) (id : Bytes)
    → current t id ≡ (if (get_state t id).0 then (get_state t id).1 else st_0)
unfolding get_state
current-get_state t id = ground arith

Step-le : (level cur x next : ℕ) → Step level cur x next → cur ≤ next
Step-le level cur x next h = ground arith

Outcome-le :
    (level : ℕ) (t : TrxnState) (id j : Bytes) (x : ℕ) (r : TrxnState × Bool)
    → Outcome level t id x r
    → current t j ≤ current r.0 j
Outcome-le level t id j x r (moved next st done others) = ground (
  arith,
  others j,
  eqb_iff id j,
  current-get_state t j,
  current-get_state r.0 j,
  Step-le level (current t id) x next,
)
Outcome-le level t id j x r (refused no_step same) = ground arith

-- Whatever triggers arrive for whatever ids, in any order and at any level, the state of an id that
-- `goState` tests against never falls.
pub run-current-le :
    (t : TrxnState) (cs : List Call) (j : Bytes) → AllGo cs → current t j ≤ current (run t cs) j
unfolding run
run-current-le t [] j h = omega arith
run-current-le t (goes level id x ∷ cs) j h = omega (
  arith,
  Outcome-le level t id j x (go_state t level id x) (go_state-Outcome t level id x),
  run-current-le (go_state t level id x).0 cs j h,
)
run-current-le t (sets id s ∷ cs) j h = absurd h
run-current-le t (terminates id ∷ cs) j h = absurd h
run-current-le t (deletes id ∷ cs) j h = absurd h

-- Trigger `x` arrives for `j` somewhere in the history.
abbrev pub Fires : Bytes → ℕ → List Call → Type 0
Fires j x [] = ⊥
Fires j x (goes level id y ∷ cs) = ((id ≡ j) × (y ≡ x)) ⊎ Fires j x cs
Fires j x (_ ∷ cs) = Fires j x cs

Step-round :
    (level cur y next x : ℕ)
    → Step level cur y next
    → cur + 40 < x
    → b'i' ≤ x
    → x ≤ next + 40
    → y ≡ x
Step-round level cur y next x st lo first hi = ground arith

Outcome-Fires :
    (level : ℕ) (t : TrxnState) (id j : Bytes) (y x : ℕ) (r : TrxnState × Bool)
    → Outcome level t id y r
    → current t j + 40 < x
    → b'i' ≤ x
    → ((id ≡ j) × (y ≡ x)) ⊎ (current r.0 j + 40 < x)
Outcome-Fires level t id j y x r (moved next st done others) lo first = ground (
  arith,
  others j,
  eqb_iff id j,
  current-get_state t j,
  current-get_state r.0 j,
  Step-round level (current t id) y next x,
)
Outcome-Fires level t id j y x r (refused no_step same) lo first = ground arith

-- No round is skipped by `goState`: if over a history of its calls an id starts below the state that
-- trigger `x` enters and ends at or above it, then `x` itself arrived for that id.
pub run-Fires :
    (t : TrxnState) (cs : List Call) (j : Bytes) (x : ℕ)
    → AllGo cs
    → current t j + 40 < x
    → b'i' ≤ x
    → x ≤ current (run t cs) j + 40
    → Fires j x cs
unfolding run
run-Fires t [] j x all lo first hi = absurd (omega arith)
run-Fires t (goes level id y ∷ cs) j x all lo first hi =
    elim (Outcome-Fires level t id j y x (go_state t level id y) (go_state-Outcome t level id y) lo
      first) [
        | inl now ↦ inl now
        | inr below ↦ inr (run-Fires (go_state t level id y).0 cs j x all below first hi)
      ]
run-Fires t (sets id s ∷ cs) j x all lo first hi = absurd all
run-Fires t (terminates id ∷ cs) j x all lo first hi = absurd all
run-Fires t (deletes id ∷ cs) j x all lo first hi = absurd all

abbrev pub IsTerminated : TrxnState → Bytes → Type 0
IsTerminated t id = get_state t id ≡ (true, st_t)

no-Step_from_t : (level x next : ℕ) → ¬ Step level st_t x next
no-Step_from_t level x next h = ground arith

terminate_state-set_state :
    (t : TrxnState) (id : Bytes) → terminate_state t id ≡ set_state t id st_t
unfolding terminate_state set_state
terminate_state-set_state t id = refl

-- A deleted id has no entry; the other entries stay.
pub get_state-delete_state :
    (t : TrxnState) (id j : Bytes)
    → get_state (delete_state t id) j ≡ (if eqb id j then (false, st_null) else get_state t j)
unfolding delete_state get_state
get_state-delete_state t id j = rw find-erase (ground arith)

apply-IsTerminated :
    (t : TrxnState) (c : Call) (j : Bytes)
    → NoDelete j (c ∷ [])
    → IsTerminated t j
    → IsTerminated (apply t c) j
unfolding apply
apply-IsTerminated t (goes level id x) j keep h = elim (go_state-Outcome t level id x) [
  | moved next st done others ↦
      ground (arith, others j, eqb_iff id j, current-get_state t j, no-Step_from_t level x next)
  | refused no_step same ↦ ground arith
]
apply-IsTerminated t (sets id s) j keep h =
    ground (arith, get_state-set_state t id j s, eqb_iff id j, current-get_state t j)
apply-IsTerminated t (terminates id) j keep h =
    ground (arith, terminate_state-set_state t id, get_state-set_state t id j st_t, eqb_iff id j)
apply-IsTerminated t (deletes id) j keep h =
    ground (arith, get_state-delete_state t id j, eqb_iff id j)

-- A terminated transaction stays terminated over any history of calls that does not delete its
-- entry.
pub run-IsTerminated :
    (t : TrxnState) (cs : List Call) (j : Bytes)
    → NoDelete j cs
    → IsTerminated t j
    → IsTerminated (run t cs) j
unfolding run
run-IsTerminated t [] j keep h = h
run-IsTerminated t (goes level id x ∷ cs) j keep h =
    run-IsTerminated (apply t (goes level id x)) cs j keep
      (apply-IsTerminated t (goes level id x) j tt h)
run-IsTerminated t (sets id s ∷ cs) j keep h =
    run-IsTerminated (apply t (sets id s)) cs j keep (apply-IsTerminated t (sets id s) j tt h)
run-IsTerminated t (terminates id ∷ cs) j keep h =
    run-IsTerminated (apply t (terminates id)) cs j keep
      (apply-IsTerminated t (terminates id) j tt h)
run-IsTerminated t (deletes id ∷ cs) j keep h =
    run-IsTerminated (apply t (deletes id)) cs j keep.1
      (apply-IsTerminated t (deletes id) j (keep.0, tt) h)
