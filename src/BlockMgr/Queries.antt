-- ===== src/BlockMgr/Queries.antt =====
-- src/blockmgr.cc: what a node tells of its accounts and transactions. A reference that the source
-- leaves as it is, is no result.
use omicro.Base.{
  Bool, true, false, ◌&&◌, List, [], ◌∷◌, ◌++◌, ◌==◌, ltb, if◌then◌else◌, Bytes, codes, eqb, length,
  Option, none, some,
}
use omicro.Base.Int.{ℤ, pos, neg, negsuc, is_negative}
use omicro.Json.{
  Value, Values, str, no_values, value, elements, object, find_member, get_string, get_obj_str,
  write_strings,
}
use omicro.StrSplit
use omicro.StrSplit.{index, size}
use omicro.Trxn.{Trxn, Reals}
use omicro.Accounts.{Account, of_json, get_balance}
use omicro.Tokens.Deduct.{text_member}
use omicro.Tokens.Transfer.{is_array}
use omicro.Blocks.{Found, read_trxns}
use omicro.BlockMgr.{Cabinet, BlockMgr, System, find_save_store}

module _ (r : Reals) (sys : System r) (c : Cabinet) where
  -- The account of a user that has one.
  unfoldable pub find_account : BlockMgr c → Bytes → BlockMgr c × Option Account
  unfolding find_save_store of_json
  find_account s from =
      let (s1, found) = find_save_store r sys c s from in
      elim found [ none ↦ (s1, none) | some (h, rec) ↦ (s1, some (of_json sys.json rec)) ]

  unfoldable pub get_balance_of : BlockMgr c → Bytes → BlockMgr c × r.Real
  unfolding find_account get_balance
  get_balance_of s from =
      let (s1, found) = find_account s from in
      elim found [ none ↦ (s1, r.atof (codes "-90")) | some acct ↦ (s1, get_balance r acct) ]

  unfoldable pub get_tokens : BlockMgr c → Bytes → BlockMgr c × Option Bytes
  unfolding find_account
  get_tokens s from =
      let (s1, found) = find_account s from in
      elim found [ none ↦ (s1, none) | some acct ↦ (s1, some acct.tokens) ]

  unfoldable pub get_balance_and_pubkey :
      BlockMgr c → Bytes → BlockMgr c × ℤ × Option (r.Real × Bytes)
  unfolding find_account get_balance
  get_balance_and_pubkey s from =
      let (s1, found) = find_account s from in
      elim found [
        | none ↦ (s1, neg 90, none)
        | some acct ↦ (s1, pos 0, some (get_balance r acct, acct.pubkey))
      ]

  unfoldable pub get_fence : BlockMgr c → Bytes → BlockMgr c × Option Bytes
  unfolding find_account
  get_fence s from =
      let (s1, found) = find_account s from in
      elim found [ none ↦ (s1, none) | some acct ↦ (s1, some acct.out) ]

  -- The value of the field "token", for a predicate such as "name=mytoken".
  token_field : Account → Bytes → List (Bytes × Bytes)
  unfolding get_obj_str
  token_field acct predicate =
      let sp = StrSplit.init predicate b'=' false in
      if ltb 0 (length predicate) && (length sp.list == 2) && eqb (index sp (pos 0)) (codes "name")
      then (codes "token", get_obj_str sys.json (index sp (pos 1)) acct.tokens) ∷ []
      else []

  query_field : Account → Bytes → Bytes → List (Bytes × Bytes)
  unfolding token_field
  query_field acct predicate p =
      if eqb p (codes "balance")
      then (p, acct.balance) ∷ []
      else if eqb p (codes "out")
      then (p, acct.out) ∷ []
      else if eqb p (codes "in")
      then (p, acct.in_) ∷ []
      else if eqb p (codes "tokentype")
      then (p, acct.tokentype) ∷ []
      else if eqb p (codes "accttype")
      then (p, acct.accttype) ∷ []
      else if eqb p (codes "tokens")
      then (p, acct.tokens) ∷ []
      else if eqb p (codes "token")
      then token_field acct predicate
      else []

  abbrev field_of : Account → Bytes → Value → List (Bytes × Bytes)
  field_of acct predicate (str p) = query_field acct predicate (get_string (str p))
  field_of acct predicate v = []

  query_fields : Account → Bytes → Values → List (Bytes × Bytes)
  unfolding query_field
  query_fields acct predicate no_values = []
  query_fields acct predicate (value v vs) =
      field_of acct predicate v ++ query_fields acct predicate vs

  abbrev text_or_empty : Option Bytes → Bytes
  text_or_empty none = []
  text_or_empty (some s) = s

  answer_query : Account → Value → Option Bytes
  unfolding query_fields write_strings find_member text_member
  answer_query acct dom = elim (object dom) [
    | none ↦ none
    | some ms ↦ elim (find_member (codes "fields") ms) [
      | none ↦ none
      | some fields ↦
          if is_array fields
          then some (
              write_strings sys.json (
                query_fields acct (text_or_empty (text_member (codes "predicate") ms))
                  (elements fields)))
          else none
    ]
  ]

  -- The return code and, where it is 0, the result.
  unfoldable pub run_query : BlockMgr c → Trxn → BlockMgr c × ℤ × Option Bytes
  unfolding find_account answer_query
  run_query s t =
      let (s1, found) = find_account s t.sender in
      elim found [
        | none ↦ (s1, neg 90, none)
        | some acct ↦ elim (sys.json.parse t.request) [
          | none ↦ (s1, neg 30, none)
          | some dom ↦ elim (answer_query acct dom) [
            | none ↦ (s1, neg 40, none)
            | some res ↦ (s1, pos 0, some res)
          ]
        ]
      ]

  -- The fields of the response that `queryTrxn` sets, besides the id and the user; `stt` is true for
  -- OK.
  pub record Status : Type 0 where
    pub stt : Bool
    pub rsn : Bytes
    pub dat : Bytes
    pub req : Bytes

  failure : Bytes → Bytes → Status
  failure rsn dat = record { stt = false; rsn = rsn; dat = dat; req = [] }

  unfoldable pub status_of : Bytes → Found → Status
  unfolding failure
  status_of fresh found =
      if is_negative found.rc
      then failure (if is_not_found found.rc then codes "NOTFOUND" else codes "FAILED") found.err
      else if found.tstat == b'F'
      then failure (codes "FAILED") (codes "TRXNERROR")
      else elim found.vec [
        | [] ↦ failure (codes "NOTFOUND") []
        | text ∷ vec ↦ record {
          stt = true;
          rsn = [];
          dat = [];
          req = (omicro.Trxn.init fresh text).request;
        }
      ]
    where
      is_not_found : ℤ → Bool
      is_not_found (pos n) = false
      is_not_found (negsuc n) = n == 999

  -- `none` is a reader without fuel, which does not happen.
  unfoldable pub query_trxn : BlockMgr c → Bytes → Bytes → Bytes → Bytes → Option Status
  unfolding read_trxns status_of
  query_trxn s fresh from trxnid timestamp =
      elim (read_trxns sys.disk sys.data_dir sys.srv_port s.blocks from timestamp trxnid) [
        | none ↦ none
        | some found ↦ some (status_of fresh found)
      ]
