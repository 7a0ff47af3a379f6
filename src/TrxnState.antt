-- ===== src/TrxnState.antt =====
-- src/trxnstate.h and src/trxnstate.cc: the state of each transaction, by transaction id. A `Byte`
-- is a number; `operator==` of `OmState` compares the one field. An iterator is the result of
-- `find`. Logging is left out.
pub mod Steps
pub mod Progress
pub mod Forward
use omicro.Base.{ℕ, Bool, true, false, ◌&&◌, ◌||◌, Option, none, some, ◌==◌, if◌then◌else◌, Bytes}
use omicro.Base.Dict
use omicro.Base.Dict.{Dict}

-- transit triggers
abbrev pub xit_i : ℕ
xit_i = b'i'

abbrev pub xit_j : ℕ
xit_j = b'j'

abbrev pub xit_k : ℕ
xit_k = b'k'

abbrev pub xit_l : ℕ
xit_l = b'l'

abbrev pub xit_m : ℕ
xit_m = b'm'

abbrev pub xit_n : ℕ
xit_n = b'n'

abbrev pub xit_o : ℕ
xit_o = b'o'

abbrev pub xit_p : ℕ
xit_p = b'p'

abbrev pub xit_q : ℕ
xit_q = b'q'

-- states
abbrev pub st_null : ℕ
st_null = 0

abbrev pub st_0 : ℕ
st_0 = b'0'

abbrev pub st_a : ℕ
st_a = b'A'

abbrev pub st_b : ℕ
st_b = b'B'

abbrev pub st_c : ℕ
st_c = b'C'

abbrev pub st_d : ℕ
st_d = b'D'

abbrev pub st_e : ℕ
st_e = b'E'

abbrev pub st_f : ℕ
st_f = b'F'

abbrev pub st_g : ℕ
st_g = b'G'

abbrev pub st_h : ℕ
st_h = b'H'

abbrev pub st_i : ℕ
st_i = b'I'

abbrev pub st_t : ℕ
st_t = b'T'

pub record OmState : Type 0 where
  pub state : ℕ

pub record TrxnState : Type 0 where
  pub state_map : Dict OmState

abbrev pub init : TrxnState
init = record { state_map = Dict.empty }

-- The returned flag is `getState`'s result, the number is what it stores through its reference.
abbrev of_entry : Option OmState → Bool × ℕ
of_entry none = (false, st_null)
of_entry (some st) = (true, st.state)

unfoldable pub get_state : TrxnState → Bytes → Bool × ℕ
get_state t trxnid = of_entry (Dict.find trxnid t.state_map)

-- The write keeps a terminated entry, and is skipped where the state is the same.
updated : OmState → OmState → OmState
updated old st = if old.state == st_t then old else if old.state == st.state then old else st

insert_or_update_state : TrxnState → Bytes → OmState → Option OmState → TrxnState
unfolding updated
insert_or_update_state t trxnid st none = record t {
  state_map = Dict.emplace trxnid st t.state_map;
}
insert_or_update_state t trxnid st (some old) = record t {
  state_map = Dict.assign trxnid (updated old st) t.state_map;
}

-- The chains of tests of `goStateL2` and `goStateL3`: the next state, if the move is allowed.
next_state_l2 : ℕ → ℕ → Option ℕ
next_state_l2 cur transit =
    if (cur == st_0) && (transit == xit_i)
    then some st_a
    else if (cur == st_a || cur == st_b) && transit == xit_j
    then some st_b
    else if (cur == st_b || cur == st_c) && transit == xit_k
    then some st_c
    else if (cur == st_c || cur == st_d) && transit == xit_l
    then some st_d
    else if (cur == st_d || cur == st_e) && transit == xit_m
    then some st_e
    else if (cur == st_e || cur == st_f) && transit == xit_n
    then some st_f
    else none

next_state_l3 : ℕ → ℕ → Option ℕ
next_state_l3 cur transit =
    if cur == st_0 && transit == xit_i
    then some st_a
    else if cur == st_a && transit == xit_j
    then some st_b
    else if cur == st_b && transit == xit_k
    then some st_c
    else if cur == st_c && transit == xit_l
    then some st_d
    else if cur == st_d && transit == xit_m
    then some st_e
    else if cur == st_e && transit == xit_n
    then some st_f
    else if cur == st_f && transit == xit_o
    then some st_g
    else if cur == st_g && transit == xit_p
    then some st_h
    else if cur == st_h && transit == xit_q
    then some st_i
    else none

abbrev enter : TrxnState → Bytes → Option OmState → Option ℕ → TrxnState × Bool
enter t trxnid itr none = (t, false)
enter t trxnid itr (some next) =
    (insert_or_update_state t trxnid (record { state = next }) itr, true)

go_state_l2 : TrxnState → Bytes → ℕ → ℕ → Option OmState → TrxnState × Bool
go_state_l2 t trxnid transit cur itr = enter t trxnid itr (next_state_l2 cur transit)

go_state_l3 : TrxnState → Bytes → ℕ → ℕ → Option OmState → TrxnState × Bool
go_state_l3 t trxnid transit cur itr = enter t trxnid itr (next_state_l3 cur transit)

abbrev cur_state : Option OmState → ℕ
cur_state none = st_0
cur_state (some st) = st.state

unfoldable pub go_state : TrxnState → ℕ → Bytes → ℕ → TrxnState × Bool
unfolding go_state_l2 go_state_l3 next_state_l2 next_state_l3 insert_or_update_state
go_state t level trxnid transit =
    let itr = Dict.find trxnid t.state_map in
    if level == 2
    then go_state_l2 t trxnid transit (cur_state itr) itr
    else if level == 3
    then go_state_l3 t trxnid transit (cur_state itr) itr
    else (t, false)

unfoldable pub set_state : TrxnState → Bytes → ℕ → TrxnState
unfolding insert_or_update_state
set_state t trxnid state =
    insert_or_update_state t trxnid (record { state = state }) (Dict.find trxnid t.state_map)

unfoldable pub terminate_state : TrxnState → Bytes → TrxnState
unfolding insert_or_update_state
terminate_state t trxnid =
    insert_or_update_state t trxnid (record { state = st_t }) (Dict.find trxnid t.state_map)

unfoldable pub delete_state : TrxnState → Bytes → TrxnState
delete_state t trxnid = record t { state_map = Dict.erase trxnid t.state_map }
