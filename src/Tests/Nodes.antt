-- ===== src/Tests/Nodes.antt =====
-- The theorems of src/server.cpp and src/omsession.cc at a node of the circuit of four.
use omicro.Base.{
  All, c_str-Free, ℕ, suc, ◌+◌, ◌≤◌, ◌<◌, ◌≡◌, ◌⊎◌, refl, Bool, true, false, List, [], ◌∷◌, ◌++◌,
  arith, leb, if◌then◌else◌, Bytes, codes, eqb, length,
}
use omicro.Base.Int.{pos}
use omicro.Base.Dict
use omicro.Trxn.{
  om_payment, get_amount_double, get_trxn_id, get_trxn_data, Trxn, Keys, Reals, allstr,
}
use omicro.TrxnState.{set_state, init, st_c, st_f}
use omicro.Quorum.{twofplus1}
use omicro.Circuit.Tests.{maths, nodes, node_a, beacon, scan_of_a}
use omicro.Server.{multicast_loop, om_txn, cur_state, Server, WaitCount, Ledger}
use omicro.Server.Effects.{journaled, received, state_of}
use omicro.Server.Commitment.{done, committed, m_votes, m_round}
use omicro.Server.Delivery.{IsPlainSigner, IsDelivery, multicast_loop-IsDelivery}
use omicro.Trxn.RoundTrip.{IsPrintable}
use omicro.Session.Checks.{validate-signed, validate-payment}
use omicro.Server.Votes.{k_votes, k_round, seen, fired}
use omicro.Session.{validate, Responses}
use omicro.Session.Commit.{Sess}
use omicro.Session.Handlers.{Message, trxn, query, question, run}
use omicro.Session.Once.{committed_once}
use omicro.Tests.World.{json}

abbrev pub keys : Keys
keys = record {
  sign_sb3 = λ text key. (text, key);
  verify_sb3 = λ text signature cipher key. true;
  verify_dl5 = λ signature key. true;
  atol = length;
  now_us = 10;
  fresh_beacon = codes "1234567";
}

-- Whole amounts, by the length of their text.
abbrev pub reals : Reals
reals = record {
  Real = ℕ;
  zero_real = 0;
  smallest = 1;
  atof = length;
  minus = λ a b. a;
  lt_real = λ a b. false;
  le_real = λ a b. false;
}

abbrev pub counts : WaitCount
counts = record {
  Counts = Bytes → ℕ;
  add = λ w k n j. if eqb k j then w k + n else w j;
  get = λ w j. w j;
  erase = λ w k j. if eqb k j then 0 else w j;
  get-add = λ w k j n. refl;
  get-erase = λ w k j. refl;
}

abbrev pub ledger : Ledger reals
ledger = record {
  Store = Unit {0};
  receive_trxn = λ st t. (st, pos 0, []);
  get_balance_and_pubkey = λ st name. (pos 0, 9, []);
  get_fence = λ st name. [];
  read_trxns = λ st name time id. [];
  is_xfer_token_valid = λ st t. (pos 0, []);
  run_query = λ st t. (pos 0, t.request);
  query_trxn = λ st from trxnid timestamp. [];
}

abbrev pub responses : Responses
responses = record {
  err_response = λ sender srvid code id text. text;
  ok_response = λ sender srvid id text. text;
  json = λ response. response.dat ++ response.rsn;
}

-- The first node, which has seen nothing.
abbrev pub server : Server maths keys reals counts (journaled ledger)
server = record {
  nodes = nodes;
  id = node_a;
  level = 2;
  srvport = codes "10.0.0.1:80";
  address = codes "10.0.0.1";
  port = codes "80";
  pub_key = codes "pk";
  sec_key = codes "sk";
  srvport_pubkey = Dict.empty;
  trxn_initer_client_socket = Dict.empty;
  query_initer_client_socket = Dict.empty;
  q_result = Dict.empty;
  trxn_state = init;
  collect_k = λ id. 0;
  collect_l = λ id. 0;
  collect_m = λ id. 0;
  collect_query_k = λ id. 0;
  collect_query_l = λ id. 0;
  store = (tt, []);
  sent = [];
}

abbrev pub session : Sess maths keys reals counts ledger responses
session = record { server = server; replies = []; closed = [] }

-- A new account, at the round of the trigger.
abbrev pub account : Bytes → Trxn
account thdr = record {
  id = codes "OMIT";
  beacon = beacon;
  sender = codes "ann";
  receiver = [];
  amount = [];
  timestamp = codes "17";
  trxntype = codes "A";
  assettype = [];
  request = [];
  pad1 = [];
  pad2 = [];
  pad3 = [];
  pad4 = [];
  pad5 = [];
  pad6 = [];
  pad7 = [];
  pad8 = [];
  pad9 = [];
  pad10 = [];
  cipher = [];
  signature = [];
  user_pubkey = [];
  user_signature = [];
  fence = [];
  response = [];
  thdr = thdr;
  srvport = codes "10.0.0.1:80";
}

abbrev pub id : Bytes
id = codes "17:ann"

-- The round's votes, some of them twice, with a query and a question between.
abbrev messages : List Message
messages =
    trxn (allstr (account (codes "Ni"))) 5
    ∷ trxn (allstr (account (codes "Nk"))) 6
    ∷ query (allstr (account (codes "Ni"))) 6 1
    ∷ trxn (allstr (account (codes "Nl"))) 7
    ∷ question (codes "x")
    ∷ trxn (allstr (account (codes "Nm"))) 8
    ∷ trxn (allstr (account (codes "Nm"))) 8
    ∷ trxn (allstr (account (codes "Nn"))) 9
    ∷ []

committed_once_example :
    (received id
        (run maths keys reals counts
          (journaled ledger)
          responses
          json
          session
          messages).server.store.1
      ≤ 1)
    × ((received id
            (run maths keys reals counts
              (journaled ledger)
              responses
              json
              session
              messages).server.store.1
          ≡ 0)
        ⊎ (st_f
            ≤ state_of maths keys reals counts ledger
                (run maths keys reals counts
                  (journaled ledger)
                  responses
                  json
                  session
                  messages).server
                id))
committed_once_example =
    committed_once maths keys reals counts ledger responses json session messages id refl

new_id : (server.collect_k id ≡ 0) × (state_of maths keys reals counts ledger server id ≡ 0)
unfolding omicro.TrxnState.get_state omicro.Base.Dict.find omicro.Base.Dict.empty
new_id = (refl, refl)

k_round_example :
    seen maths keys reals counts
      (journaled ledger)
      (k_votes maths keys reals counts (journaled ledger) server beacon id (account (codes "Nk")) 3)
      id
    ≡ (if leb (twofplus1 (1 + 1)) (0 + 3)
        then fired maths keys reals counts
            (journaled ledger)
            server
            id
            (account (codes "Nk"))
            ((codes "kb|10.0.0.2|80") ∷ [])
        else seen maths keys reals counts (journaled ledger) server id)
k_round_example =
    k_round maths keys reals counts (journaled ledger) server beacon id (account (codes "Nk"))
      ((codes "kb|10.0.0.2|80") ∷ []) ((codes "kc|10.0.0.3|80") ∷ []) 3 scan_of_a
      (omega (arith, new_id.1)) (unfold twofplus1 in omega arith)

quorum_m : server.collect_m id < twofplus1 (1 + 1)
unfolding twofplus1
quorum_m = omega arith

m_round_example :
    done maths keys reals counts
      (journaled ledger)
      (m_votes maths keys reals counts (journaled ledger) server beacon id (account (codes "Nm")) 3)
      id
    ≡ (if leb (twofplus1 (1 + 1)) (0 + 3)
        then committed maths keys reals counts
            (journaled ledger)
            server
            id
            (account (codes "Nm"))
            ((codes "kc|10.0.0.3|80") ∷ [])
        else done maths keys reals counts (journaled ledger) server id)
m_round_example =
    m_round maths keys reals counts (journaled ledger) server beacon id (account (codes "Nm"))
      ((codes "kb|10.0.0.2|80") ∷ []) ((codes "kc|10.0.0.3|80") ∷ []) 3 scan_of_a
      (omega (arith, new_id.1)) quorum_m

-- A signer of constant signatures.
abbrev pub plain_keys : Keys
plain_keys = record keys { sign_sb3 = λ text key. (codes "sig", codes "cip") }

plain_keys-IsPlainSigner : IsPlainSigner plain_keys
plain_keys-IsPlainSigner text key = ground arith

account-IsPrintable : IsPrintable (account (codes "Nm"))
account-IsPrintable = record {
  plain_data = ground arith;
  plain_others = ground arith;
  has_beacon = λ e. cc e;
}

multicast_loop-IsDelivery_example :
    All
      (IsDelivery plain_keys om_txn (account (codes "Nm")) Dict.empty)
      (multicast_loop plain_keys om_txn (allstr (account (codes "Nm"))) Dict.empty nodes ([], [])).1
multicast_loop-IsDelivery_example =
    multicast_loop-IsDelivery plain_keys om_txn (account (codes "Nm")) Dict.empty nodes ([], [])
      plain_keys-IsPlainSigner account-IsPrintable

accepted :
    (validate maths keys reals counts
      (journaled ledger)
      responses
      server
      id
      (account (codes "Nm"))
      false).0
    ≡ pos 0
unfolding validate omicro.TrxnState.get_state Dict.find Dict.empty omicro.Trxn.validate_trxn eqb
accepted = refl

abbrev payment : Trxn
payment = record (account (codes "Nm")) { trxntype = om_payment }

accepted_payment :
    (validate maths keys reals counts (journaled ledger) responses server id payment false).0
    ≡ pos 0
unfolding validate omicro.TrxnState.get_state Dict.find Dict.empty omicro.Trxn.validate_trxn eqb
accepted_payment = refl

validate-signed_example :
    (cur_state maths keys reals counts (journaled ledger) server id < st_f)
    × (length (account (codes "Nm")).sender ≤ 64)
    × (length (account (codes "Nm")).receiver ≤ 64)
    × (keys.verify_sb3 (get_trxn_data (account (codes "Nm"))) [] [] server.sec_key ≡ true)
    × (keys.verify_dl5 [] [] ≡ true)
validate-signed_example =
    validate-signed maths keys reals counts (journaled ledger) responses server id
      (account (codes "Nm")) false accepted

validate-payment_example :
    ((ledger.get_balance_and_pubkey tt payment.sender).2 ≡ payment.user_pubkey)
    × (reals.lt_real
          (reals.minus
            (ledger.get_balance_and_pubkey tt payment.sender).1
            (get_amount_double reals payment))
          reals.smallest
        ≡ false)
validate-payment_example =
    validate-payment maths keys reals counts (journaled ledger) responses server id payment false
      refl accepted_payment
