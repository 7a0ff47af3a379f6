-- ===== src/BlockMgr.antt =====
-- src/blockmgr.cc and src/omstore.cc: the accounts and the blocks of a node. Every account is a JSON
-- text in a file of a key-value store, which is opened when the user is first met and stays open.
-- Tokyo Cabinet, which keeps the files, is an interface, as are the rest of the system's calls. The
-- log of transactions that can be replayed, the directories that are made on the way to a file and
-- the messages to the system log are left out.

pub mod Requests
pub mod Saving
pub mod Queries
pub mod Lookups
pub mod Payments
pub mod Refusals
pub mod Creation
pub mod Journal
pub mod Answers
pub mod Kept
pub mod Wallog
use omicro.Base.{
  ◌+◌, ◌≡◌, ◌≢◌, Bool, true, not, ◌&&◌, [], ◌++◌, ltb, if◌then◌else◌, Bytes, codes, eqb, c_str,
  length, Option, none, some,
}
use omicro.Base.Int.{ℤ, pos, neg}
use omicro.Base.Dict
use omicro.Base.Dict.{Dict}
use omicro.Json.{Json}
use omicro.Trxn.{om_name_maxsz, Trxn, Reals, get_amount_double}
use omicro.Accounts.{
  Account, Doubles, of_json, to_json, add_balance, increment_fence, increment_in, om_acct_user,
  om_acct_contract,
}
use omicro.Blocks.{Disk, get_user_path}

-- Tokyo Cabinet: all files with the handles on them. `has_file` is `access` on the path of a file.
-- A file can be opened once for writing: `is_open` says whether the open succeeded, the field `ok_`
-- of a store. A write to an open file is taken to succeed; the source does not read its result.
pub record Cabinet : Type 1 where
  pub Db : Type 0
  pub Handle : Type 0
  pub open_file : Db → Bytes → Db × Handle
  pub is_open : Db → Handle → Bool
  pub get_record : Db → Handle → Bytes → Option Bytes
  pub put_record : Db → Handle → Bytes → Bytes → Db
  pub close_file : Db → Handle → Db
  pub has_file : Db → Bytes → Bool
  pub get-put :
      (db : Db) (h : Handle) (k v : Bytes)
      → is_open db h ≡ true
      → get_record (put_record db h k v) h k ≡ some v
  pub get-put_other :
      (db : Db) (h g : Handle) (k j v : Bytes)
      → j ≢ k
      → get_record (put_record db h k v) g j ≡ get_record db g j
  pub is_open-put :
      (db : Db) (h g : Handle) (k v : Bytes) → is_open (put_record db h k v) g ≡ is_open db g
  pub is_open-get :
      (db : Db) (h : Handle) (k v : Bytes) → get_record db h k ≡ some v → is_open db h ≡ true
  pub is_open-open :
      (db : Db) (path : Bytes) (g : Handle)
      → is_open db g ≡ true
      → is_open (open_file db path).0 g ≡ true
  pub has_file-open :
      (db : Db) (path : Bytes)
      → is_open (open_file db path).0 (open_file db path).1 ≡ true
      → has_file (open_file db path).0 path ≡ true
  pub has_file-close :
      (db : Db) (h : Handle) (path : Bytes) → has_file (close_file db h) path ≡ has_file db path
  pub has_file-put :
      (db : Db) (h : Handle) (k v path : Bytes)
      → has_file (put_record db h k v) path ≡ has_file db path

-- What the block manager keeps: the store with the handles of `acctStoreMap_`, the files of
-- transactions and the list of `TrxnList`.
pub record BlockMgr (c : Cabinet) : Type 0 where
  pub db : c.Db
  pub acct_store_map : Dict c.Handle
  pub blocks : Dict Bytes
  pub trxn_list : Bytes

-- The node's data directory, its host and port, and what it runs on.
pub record System (r : Reals) : Type 0 where
  pub json : Json
  pub doubles : Doubles r
  pub disk : Disk
  pub data_dir : Bytes
  pub srv_port : Bytes

module _ (r : Reals) (sys : System r) (c : Cabinet) where
  abbrev State : Type 0
  State = BlockMgr c

  -- `OmStore::get` takes the key as a C string.
  store_get : State → c.Handle → Bytes → Option Bytes
  unfolding c_str
  store_get s h key = c.get_record s.db h (c_str key)

  unfoldable pub put : State → c.Handle → Bytes → Bytes → State
  put s h key value = record s { db = c.put_record s.db h key value }

  unfoldable pub get_acct_store_file_path : Bytes → Bytes
  unfolding get_user_path
  get_acct_store_file_path userid =
      sys.data_dir ++ codes "/account/" ++ get_user_path sys.disk userid ++ codes "/store.hdb"

  -- The handle and the record, where there is one. A file opened in vain is closed again.
  fresh_store : State → Bytes → State × Option (c.Handle × Bytes)
  unfolding store_get get_acct_store_file_path
  fresh_store s userid =
      let (db, h) = c.open_file s.db (get_acct_store_file_path userid) in
      let s1 = record s { db = db } in
      elim (store_get s1 h userid) [
        | some rec ↦
            (record s1 { acct_store_map = Dict.emplace userid h s.acct_store_map }, some (h, rec))
        | none ↦ (record s1 { db = c.close_file db h }, none)
      ]

  unfoldable pub find_save_store : State → Bytes → State × Option (c.Handle × Bytes)
  unfolding fresh_store store_get
  find_save_store s userid = elim (Dict.find userid s.acct_store_map) [
    | none ↦ fresh_store s userid
    | some h ↦ elim (store_get s h userid) [ none ↦ (s, none) | some rec ↦ (s, some (h, rec)) ]
  ]

  -- The new state, the return code and `errmsg`.
  abbrev Result : Type 0
  Result = State × ℤ × Bytes

  -- The end of a payment, with both records found: both accounts are changed and written. `-1.0` is
  -- the balance below which the sender's is refused.
  pay : State → Trxn → c.Handle × Bytes → c.Handle × Bytes → Result
  unfolding of_json to_json add_balance increment_fence increment_in get_amount_double put
  pay s t (src, fromrec) (dst, torec) =
      let amt = get_amount_double r t in
      let (from_acct, bal) =
        add_balance r sys.doubles (r.minus r.zero_real amt) (of_json sys.json fromrec) in
      let (to_acct, _) = add_balance r sys.doubles amt (of_json sys.json torec) in
      let s1 = put s src t.sender (to_json sys.json (increment_fence from_acct)) in
      let s2 = put s1 dst t.receiver (to_json sys.json (increment_in to_acct)) in
      if r.lt_real bal (r.atof (codes "-1.0"))
      then (s, neg 30, codes "E40313 error sender account balance is negative")
      else (s2, pos 0, [])

  -- Both lookups have been made; the receiver's is used where the sender was found.
  pay_found : Trxn → State × Option (c.Handle × Bytes) → State × Option (c.Handle × Bytes) → Result
  unfolding pay
  pay_found t (s1, none) to = (s1, neg 90, codes "E22276 error sender not found")
  pay_found t (s1, some src) (s2, none) = (s2, neg 92, codes "E23276 error receiver not found")
  pay_found t (s1, some src) (s2, some dst) = pay s2 t src dst

  unfoldable pub update_acct_balances : State → Trxn → Result
  unfolding pay_found find_save_store
  update_acct_balances s t =
      let from = find_save_store s t.sender in pay_found t from (find_save_store from.0 t.receiver)

  -- The account of a new user.
  unfoldable pub fresh_account : Bytes → Bytes → Account
  fresh_account accttype pubkey = record {
    accttype = accttype;
    balance = codes "10000000";
    tokentype = codes "O";
    pubkey = pubkey;
    keytype = codes "DL5";
    out = codes "0";
    in_ = codes "0";
    tokens = [];
  }

  -- The file is opened, and so created, before the type is tested.
  open_acct : State → Trxn → Bytes → Result
  unfolding get_acct_store_file_path fresh_account to_json put
  open_acct s t accttype =
      let (db, h) = c.open_file s.db (get_acct_store_file_path t.sender) in
      let s1 = record s { db = db } in
      let rec = to_json sys.json (fresh_account accttype t.user_pubkey) in
      let s2 = put s1 h t.sender rec in
      if not (eqb accttype om_acct_user) && not (eqb accttype om_acct_contract)
      then (
        record s1 { db = c.close_file db h },
        neg 5,
        codes "E50284 error new account is neither user nor contract account",
      )
      else (record s2 { acct_store_map = Dict.emplace t.sender h s.acct_store_map }, pos 0, [])

  unfoldable pub create_acct : State → Trxn → Result
  unfolding open_acct get_acct_store_file_path omicro.Json.read_string
  create_acct s t =
      let opened = open_acct s t (omicro.Json.read_string sys.json t.request (codes "ACTYPE")) in
      if ltb om_name_maxsz (length t.sender)
      then (s, neg 1, codes "E40214 newacct name too long")
      else if c.has_file s.db (get_acct_store_file_path t.sender)
      then (s, neg 3, codes "E30234 error: user account [" ++ t.sender ++ codes "] already exists")
      else elim (Dict.find t.sender s.acct_store_map) [
        | some h ↦ (s, neg 10, codes "E50387 error: user account exists already")
        | none ↦ opened
      ]
