-- ===== src/Trxn/Making.antt =====
-- The `make` functions of src/omicrotrxn.cc, `OmQuery` of src/omquery.cc and `getUserId` of
-- src/omicrokey.cc: the transactions that a client builds, on an object that may have been used
-- before. The user's signature is an argument, the clock and `setBeacon` are those of `Keys`.
use omicro.Base.{
  ℕ, zero, suc, ◌-◌, List, [], ◌∷◌, ◌++◌, ltb, if◌then◌else◌, Bytes, codes, c_str, length,
}
use omicro.Base.Decimal.{to_string}
use omicro.Accounts.{om_acct_user}
use omicro.Json.{Json, Values, no_values, value, str, arr, obj, member, no_members, write_strings}
use omicro.Trxn.{
  Trxn, Keys, make_node_signature, get_trxn_data, om_payment, om_newacct, om_newtoken, om_xfertoken,
  om_query,
}

-- `OmicroTrxn()`.
abbrev pub empty_trxn : Trxn
empty_trxn = record {
  id = [];
  beacon = [];
  sender = [];
  receiver = [];
  amount = [];
  timestamp = [];
  trxntype = [];
  assettype = [];
  request = [];
  pad1 = codes "pd1";
  pad2 = codes "pd2";
  pad3 = codes "pd3";
  pad4 = codes "pd4";
  pad5 = codes "pd5";
  pad6 = codes "pd6";
  pad7 = codes "pd7";
  pad8 = codes "pd8";
  pad9 = codes "pd9";
  pad10 = codes "pd10";
  cipher = [];
  signature = [];
  user_pubkey = [];
  user_signature = [];
  fence = [];
  response = [];
  thdr = codes "TT";
  srvport = [];
}

-- `OmicroUserKey::signDL5(data, userSecretKey, userSignature_)`.
abbrev pub SignDl5 : Type 0
SignDl5 = Bytes → Bytes → Bytes

-- The keys of a call: the node's public key, the user's secret key and public key.
pub record CallKeys : Type 0 where
  pub node_pubkey : Bytes
  pub user_secret_key : Bytes
  pub user_public_key : Bytes

unfoldable pub make_user_signature : SignDl5 → Bytes → Bytes → Trxn → Trxn
make_user_signature sign_dl5 user_secret_key usr_pubkey t = record t {
  user_signature = sign_dl5 (get_trxn_data t) user_secret_key;
  user_pubkey = usr_pubkey;
}

-- Both signatures, in the order in which every `make` function makes them.
unfoldable pub make_signatures : Keys → SignDl5 → CallKeys → Trxn → Trxn
unfolding make_user_signature
make_signatures keys sign_dl5 ck t =
    make_user_signature sign_dl5 ck.user_secret_key ck.user_public_key
      (make_node_signature keys ck.node_pubkey t)

unfoldable pub set_id : Trxn → Trxn
set_id t = record t { id = codes "V1" }

unfoldable pub set_beacon : Keys → Trxn → Trxn
set_beacon keys t = record t { beacon = keys.fresh_beacon }

unfoldable pub set_now_time_stamp : Keys → Trxn → Trxn
set_now_time_stamp keys t = record t { timestamp = to_string keys.now_us }

-- What every `make` function sets at its start, and the time stamp, which each sets before it signs.
unfoldable pub start_trxn : Keys → Trxn → Trxn
unfolding set_id set_beacon set_now_time_stamp
start_trxn keys t =
    set_now_time_stamp keys (record (set_beacon keys (set_id (record t { thdr = codes "IT" }))) {
      srvport = codes "127.0.0.1:client";
    })

unfoldable pub make_simple_trxn : Keys → SignDl5 → CallKeys → Trxn → Bytes → Bytes → Bytes → Trxn
unfolding start_trxn make_signatures
make_simple_trxn keys sign_dl5 ck t from to amt =
    make_signatures keys sign_dl5 ck (record (start_trxn keys t) {
      sender = from;
      receiver = to;
      amount = amt;
      trxntype = om_payment;
      assettype = codes "OC";
    })

unfoldable pub drop : ℕ → Bytes → Bytes
drop zero s = s
drop (suc n) [] = []
drop (suc n) (c ∷ s) = drop n s

unfoldable pub take : ℕ → Bytes → Bytes
take zero s = []
take (suc n) [] = []
take (suc n) (c ∷ s) = c ∷ take n s

-- 24 bytes of a public key; the id is left empty for a key of fewer than 500.
unfoldable pub get_user_id : Bytes → Bytes
unfolding drop take
get_user_id public_key =
    let len = length public_key in
    if ltb len 500
    then []
    else take 6 public_key
      ++ take 6 (drop 18 public_key)
      ++ take 6 (drop (len - 256) public_key)
      ++ take 6 (drop (len - 54) public_key)

-- The name that a new account gets.
unfoldable pub acct_name : CallKeys → Bytes → Bytes
unfolding get_user_id
acct_name ck user_name =
    if ltb (length user_name) 1 then get_user_id ck.user_public_key else user_name

unfoldable pub make_new_acct_trxn : Json → Keys → SignDl5 → CallKeys → Trxn → Bytes → Trxn
unfolding start_trxn make_signatures acct_name
make_new_acct_trxn json keys sign_dl5 ck t user_name =
    make_signatures keys sign_dl5 ck (record (start_trxn keys t) {
      sender = acct_name ck user_name;
      receiver = [];
      amount = codes "0";
      trxntype = om_newacct;
      assettype = [];
      request = write_strings json ((codes "ACTYPE", om_acct_user) ∷ []);
    })

unfoldable pub make_new_token_trxn : Keys → SignDl5 → CallKeys → Trxn → Bytes → Bytes → Trxn
unfolding start_trxn make_signatures
make_new_token_trxn keys sign_dl5 ck t owner_id token_spec =
    make_signatures keys sign_dl5 ck (record (start_trxn keys t) {
      sender = owner_id;
      receiver = [];
      amount = codes "0";
      trxntype = om_newtoken;
      assettype = codes "T";
      request = token_spec;
    })

unfoldable pub make_token_transfer :
    Keys → SignDl5 → CallKeys → Trxn → Bytes → Bytes → Bytes → Bytes → Trxn
unfolding start_trxn make_signatures
make_token_transfer keys sign_dl5 ck t from token_json to amt =
    make_signatures keys sign_dl5 ck (record (start_trxn keys t) {
      sender = from;
      receiver = to;
      amount = amt;
      trxntype = om_xfertoken;
      request = token_json;
      assettype = codes "TK";
    })

pub record OmQuery : Type 0 where
  pub predicate : Bytes
  pub fields : List Bytes

written_fields : List Bytes → Values
written_fields [] = no_values
written_fields (f ∷ fs) = value (str (c_str f)) (written_fields fs)

unfoldable pub query_json : Json → OmQuery → Bytes
unfolding written_fields
query_json json q = c_str (
    json.write (
      obj (
        member (codes "predicate") (str (c_str q.predicate))
          (member (codes "fields") (arr (written_fields q.fields)) no_members))))

-- What the three functions for queries do around their query.
unfoldable pub make_query : Json → Keys → SignDl5 → CallKeys → Trxn → Bytes → OmQuery → Trxn
unfolding start_trxn make_signatures query_json
make_query json keys sign_dl5 ck t from_id q =
    make_signatures keys sign_dl5 ck (record (start_trxn keys t) {
      sender = from_id;
      trxntype = om_query;
      request = query_json json q;
    })

abbrev acct_fields : List Bytes
acct_fields =
    codes "balance"
    ∷ codes "out"
    ∷ codes "in"
    ∷ codes "tokentype"
    ∷ codes "keytype"
    ∷ codes "accttype"
    ∷ []

unfoldable pub make_acct_query : Json → Keys → SignDl5 → CallKeys → Trxn → Bytes → Trxn
unfolding make_query
make_acct_query json keys sign_dl5 ck t from_id =
    make_query json keys sign_dl5 ck t from_id (record { predicate = []; fields = acct_fields })

unfoldable pub make_tokens_query : Json → Keys → SignDl5 → CallKeys → Trxn → Bytes → Trxn
unfolding make_query
make_tokens_query json keys sign_dl5 ck t from_id =
    make_query json keys sign_dl5 ck t from_id
      (record { predicate = []; fields = acct_fields ++ codes "tokens" ∷ [] })

unfoldable pub make_one_token_query : Json → Keys → SignDl5 → CallKeys → Trxn → Bytes → Bytes → Trxn
unfolding make_query
make_one_token_query json keys sign_dl5 ck t from_id token_name =
    make_query json keys sign_dl5 ck t from_id (record {
      predicate = codes "name=" ++ token_name;
      fields = codes "keytype" ∷ codes "accttype" ∷ codes "token" ∷ [];
    })
