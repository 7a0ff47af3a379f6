-- ===== src/Tests/Wire.antt =====
-- The theorems of src/omicroclient.cc, and of what src/omicrotrxn.cc makes and src/omsession.cc reads.
use omicro.Base.{
  ℕ, ◌≡◌, true, c_str, length, length-replicate, refl, List, [], ◌∷◌, ◌++◌, arith, Bytes, codes,
  replicate, some, ◌≤◌, none,
}
use omicro.Base.Decimal.{read_digits, read_digits-to_string}
use omicro.Trxn.{Keys, validate_trxn, init, allstr, set_init_trxn, get_trxn_data}
use omicro.Trxn.Making.{CallKeys, SignDl5}
use omicro.Trxn.Accepted.{IsClient}
use omicro.Trxn.Requests.{Fits, make, payment, validate_trxn-make}
use omicro.BlockMgr.Wallog.{Zlib}
use omicro.Server.{om_txn, om_xnq}
use omicro.Server.Effects.{journaled}
use omicro.Circuit.Tests.{maths}
use omicro.Wire.{send_trxn, arrived, message, zipped, read_message, closed}
use omicro.Wire.Serving.{replied, send_trxn-reply_sock}
use omicro.Wire.Frames.{read_message-large}
use omicro.Json.{write_strings}
use omicro.Session.{Response}
use omicro.Session.Commit.{Sess}
use omicro.Wire.{om_rq, dispatch_message}
use omicro.Wire.PublicKey.{req_public_key, key_question, req_public_key-dispatch_message}
use omicro.Tests.Nodes.{keys, reals, counts, ledger, responses, session}
use omicro.Tests.World.{json}

-- Nothing is compressed.
abbrev zlib : Zlib
zlib = record { compress = λ x. x; uncompress = λ x. x; uncompress-compress = λ x. refl }

abbrev text : Bytes
text = codes "OK"

zipped-text : length (zipped zlib text) ≡ 2
unfolding zipped
zipped-text = refl

abbrev two_messages : List (ℕ × Bytes)
two_messages = (om_txn, text) ∷ (om_xnq, text) ∷ []

sent-payment :
    (2 ≤ length (zipped zlib (allstr (set_init_trxn omicro.Tests.payment))))
    × (length (zipped zlib (allstr (set_init_trxn omicro.Tests.payment))) ≤ 256000)
unfolding zipped allstr get_trxn_data set_init_trxn
sent-payment = (omega arith, omega arith)

send_trxn-reply_sock_example :
    ((send_trxn zlib (replied zlib text) omicro.Tests.payment).0 ≡ some text)
    × (read_message zlib
          ((send_trxn zlib (replied zlib text) omicro.Tests.payment).1 ++ codes "more")
        ≡ arrived om_txn (allstr (set_init_trxn omicro.Tests.payment)) (codes "more"))
send_trxn-reply_sock_example =
    send_trxn-reply_sock zlib omicro.Tests.payment text (codes "more") sent-payment.0 sent-payment.1
      (omega (arith, zipped-text)) (omega (arith, zipped-text))

-- A text that the client sends plain and the session does not take.
abbrev long_text : Bytes
long_text = replicate 256001 b'a'

zipped-long_text : length (zipped zlib long_text) ≡ 256001
unfolding zipped
zipped-long_text =
    let wide : length long_text ≡ 256001 = length-replicate {A = ℕ} 256001 b'a' in rw wide wide

read_message-large_example : read_message zlib (message zlib om_txn long_text ++ []) ≡ closed
read_message-large_example =
    read_message-large zlib om_txn long_text [] (omega (arith, zipped-long_text))
      (omega (arith, zipped-long_text))

-- A client of a node that verifies everything.
abbrev call_keys : CallKeys
call_keys = record {
  node_pubkey = codes "node";
  user_secret_key = codes "secret";
  user_public_key = codes "public";
}

abbrev client_keys : Keys
client_keys = record keys { sign_sb3 = λ text key. (codes "signed", key); atol = read_digits 0 }

sign_dl5 : SignDl5
sign_dl5 content key = codes "mine"

client : IsClient client_keys sign_dl5 call_keys (codes "node secret")
unfolding sign_dl5
client = record {
  node_verifies = λ text. refl;
  user_verifies = λ text. refl;
  plain_node = λ text. (ground arith, ground arith);
  plain_user = λ text. ground arith;
  plain_key = ground arith;
  plain_beacon = ground arith;
  has_beacon = λ e. cc e;
  reads_time = read_digits-to_string 10 (omega arith);
}

payment-Fits : Fits reals json (payment (codes "ann") (codes "bob") (codes "5"))
unfolding Fits
payment-Fits =
    ((ground arith, omega arith), (ground arith, omega arith), ground arith, omega arith, refl)

validate_trxn-make_example :
    validate_trxn reals
      (record client_keys { now_us = 2000 })
      (codes "node secret")
      (init (codes "7654321") (
        c_str (
          allstr (
            set_init_trxn (
              make json client_keys sign_dl5 call_keys
                (payment (codes "ann") (codes "bob") (codes "5")))))))
    ≡ true
validate_trxn-make_example =
    validate_trxn-make reals json client_keys sign_dl5 call_keys (codes "node secret") client
      (payment (codes "ann") (codes "bob") (codes "5")) 2000 (codes "7654321") payment-Fits
      (omega arith) (omega arith) (omega arith)

-- What `OmResponse` reads of an answer that is the key itself.
abbrev read_response : Bytes → Response
read_response reply = record { tid = []; uid = []; nid = []; stt = true; rsn = []; dat = reply }

abbrev keyed : Sess maths keys reals counts ledger responses
keyed = record session { server = record session.server { pub_key = codes "node key" } }

abbrev question_text : Bytes
question_text = key_question zlib json maths keys reals counts (journaled ledger) responses

asked : (2 ≤ length (zipped zlib question_text)) × (length (zipped zlib question_text) ≤ 256000)
unfolding zipped write_strings
asked = (omega arith, omega arith)

told : length (zipped zlib (codes "node key")) ≡ 8
unfolding zipped
told = refl

req_public_key-dispatch_message_example :
    let (key, written) =
      req_public_key zlib json read_response (λ n. replied zlib (codes "node key")) in
    (key ≡ some (codes "node key"))
    × (read_message zlib (written ++ codes "more") ≡ arrived om_rq question_text (codes "more"))
    × (dispatch_message zlib json maths keys reals counts
          (journaled ledger)
          responses
          keyed
          om_rq
          question_text
          7
          1
        ≡ some (record keyed { replies = [] ++ (none, codes "node key") ∷ [] }))
req_public_key-dispatch_message_example =
    req_public_key-dispatch_message zlib json maths keys reals counts (journaled ledger) responses
      keyed read_response (codes "more") 7 1 (λ sender srvid id content. (refl, refl)) asked.0
      asked.1 (omega arith) (omega (arith, told)) (omega (arith, told))
