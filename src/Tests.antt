-- ===== src/Tests.antt =====
-- The theorems of src/trxnstate.cc, src/omstrsplit.cc, src/omicrotrxn.cc, src/omutil.cc and
-- src/nodelist.cc at concrete inputs.
pub mod Nodes
pub mod Queries
pub mod Wallog
pub mod Wire
pub mod World
pub mod Accounts
pub mod Payments
pub mod Journal
pub mod Tokens
use omicro.Base.{
  replicate, ℕ, ◌<◌, ◌≡◌, ◌≢◌, refl, Bool, true, false, List, [], ◌∷◌, map, some, arith, ltb, leb,
  Bytes, codes, eqb, c_str, Free, All,
}
use omicro.TrxnState.{TrxnState, init, go_state, st_0, st_c, xit_i, xit_j, xit_k}
use omicro.TrxnState.Steps.{Outcome, go_state-Outcome, current}
use omicro.TrxnState.Progress.{Call, goes, run, Fires, run-Fires}
use omicro.StrSplit
use omicro.StrSplit.Split.{join, init-pieces}
use omicro.StrSplit.Regions.{without}
use omicro.Trxn
use omicro.Trxn.{Trxn, allstr, bar}
use omicro.Trxn.RoundTrip.{IsPrintable, init-allstr}
use omicro.Quorum.{twofplus1}
use omicro.Quorum.Overlap.{votes, quorums_meet}
use omicro.NodeList.{NodeData, get_data, read_file}
use omicro.NodeList.Records.{file_of, IsNode, read_file-get_data}
use omicro.Base.Dict

abbrev id : Bytes
id = codes "1700000000:ann"

abbrev other_id : Bytes
other_id = codes "1700000001:bob"

-- A transaction that has started.
abbrev started : TrxnState
started = (go_state init 2 id xit_i).0

go_state-Outcome_example : Outcome 2 started id xit_j (go_state started 2 id xit_j)
go_state-Outcome_example = go_state-Outcome started 2 id xit_j

abbrev history : List Call
history = goes 2 id xit_i ∷ goes 2 other_id xit_i ∷ goes 2 id xit_j ∷ goes 2 id xit_k ∷ []

history_state : current (run init history) id ≡ st_c
unfolding run go_state omicro.Base.Dict.find omicro.Base.Dict.empty omicro.Base.Dict.emplace
    omicro.Base.Dict.assign eqb
history_state = refl

fresh_state : current init id ≡ st_0
unfolding omicro.Base.Dict.find omicro.Base.Dict.empty
fresh_state = refl

run-Fires_example : Fires id xit_j history
run-Fires_example =
    run-Fires init history id xit_j tt (omega (arith, fresh_state)) (omega arith)
      (omega (arith, history_state))

-- A payment; the parts that no test reads are empty.
abbrev pub payment : Trxn
payment = record {
  id = codes "OMIT";
  beacon = codes "1700000";
  sender = codes "ann";
  receiver = codes "bob";
  amount = codes "5";
  timestamp = codes "1700000000";
  trxntype = codes "P";
  assettype = [];
  request = [];
  pad1 = [];
  pad2 = [];
  pad3 = [];
  pad4 = [];
  pad5 = [];
  pad6 = [];
  pad7 = [];
  pad8 = [];
  pad9 = [];
  pad10 = [];
  cipher = codes "c";
  signature = codes "s";
  user_pubkey = codes "k";
  user_signature = codes "u";
  fence = [];
  response = [];
  thdr = codes "Nk";
  srvport = codes "10.0.0.1:80";
}

pub payment-IsPrintable : IsPrintable payment
payment-IsPrintable = record {
  plain_data = ground arith;
  plain_others = ground arith;
  has_beacon = λ e. cc e;
}

init-allstr_example : Trxn.init (codes "1234567") (allstr payment) ≡ payment
init-allstr_example = init-allstr (codes "1234567") payment payment-IsPrintable

text : Bytes
text = codes "a||b"

text-nonempty : c_str text ≢ []
unfolding text c_str
text-nonempty e = cc e

init-pieces_example :
    All (Free bar) (StrSplit.init text bar false).list
    × (join bar (StrSplit.init text bar false).list ≡ c_str text)
init-pieces_example = init-pieces text bar text-nonempty

text-bytes : without bar (c_str text) ≢ []
unfolding text c_str without
text-bytes e = cc e

abbrev first_five : ℕ → Bool
first_five i = ltb i 5

abbrev last_five : ℕ → Bool
last_five i = leb 2 i

quorums_meet_example : (i : ℕ) × (i < 7) × (first_five i ≡ true) × (last_five i ≡ true)
unfolding votes twofplus1
quorums_meet_example =
    quorums_meet first_five last_five 7 (omega arith) (omega arith) (omega arith) (omega arith)
      (omega arith)

abbrev node : NodeData
node = record { id = codes "ka"; ip = codes "10.0.0.1"; port = codes "80" }

node-IsNode : IsNode node
node-IsNode = record {
  id_free = ground arith;
  ip_free = ground arith;
  text = ground arith;
  key = omega arith;
  size = omega arith;
  fits = omega arith;
  one_line = ground arith;
}

read_file-get_data_example : map get_data (read_file (file_of (node ∷ []))) ≡ map some (node ∷ [])
read_file-get_data_example = read_file-get_data (node ∷ []) (node-IsNode, tt)

-- A buffer of 24 spaces.
abbrev buffer : Bytes
buffer = replicate 24 b' '
