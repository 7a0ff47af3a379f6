-- ===== src/BlockMgr/Creation.antt =====
-- src/blockmgr.cc: the creation of accounts, and the files that lookups leave behind.
use omicro.Base.{
  ◌≡◌, ◌∙◌, ◌≤◌, refl, ap, true, false, not, ◌&&◌, arith, ltb, length, [], ◌++◌, Bytes, codes, eqb,
  c_str, c_str-Free, Free, Option, none, some,
}
use omicro.Base.Int.{pos, neg}
use omicro.Base.Dict
use omicro.Json.{read_string}
use omicro.Accounts.{Account, to_json, om_acct_user, om_acct_contract}
use omicro.Trxn.{Trxn, Reals}
use omicro.BlockMgr.{
  Cabinet, BlockMgr, System, find_save_store, fresh_store, store_get, create_acct, open_acct,
  get_acct_store_file_path, fresh_account, put,
}
use omicro.BlockMgr.Lookups.{opened, find-emplace_same, IsFound-find_save_store}

module _ (r : Reals) (sys : System r) (c : Cabinet) where
  abbrev path_of : Bytes → Bytes
  path_of u = get_acct_store_file_path r sys c u

  -- The file of a user can be opened.
  abbrev pub CanOpen : BlockMgr c → Bytes → Type 0
  CanOpen s u = c.is_open (opened r sys c s u).0 (opened r sys c s u).1 ≡ true

  create_acct-exists :
      (s : BlockMgr c) (t : Trxn)
      → length t.sender ≤ 64
      → c.has_file s.db (path_of t.sender) ≡ true
      → create_acct r sys c s t
        ≡ (s, neg 3, codes "E30234 error: user account [" ++ t.sender ++ codes "] already exists")
  unfolding create_acct
  create_acct-exists s t short e =
      let fits : ltb 64 (length t.sender) ≡ false = ground (arith, short) in rw (fits, e) refl

  -- The state that a lookup gives has the user's file.
  abbrev ExistsAt : Bytes → BlockMgr c × Option (c.Handle × Bytes) → Type 0
  ExistsAt u p = c.has_file p.0.db (path_of u) ≡ true

  fresh-exists :
      (s : BlockMgr c) (u : Bytes)
      → CanOpen s u
      → c.has_file (fresh_store r sys c s u).0.db (path_of u) ≡ true
  unfolding fresh_store store_get
  fresh-exists s u can =
      branch (c.get_record (opened r sys c s u).0 (opened r sys c s u).1 (c_str u))
    where
      branch :
          (o : Option Bytes)
          → ExistsAt u (elim o [
            | some rec ↦ (
              record s {
                db = (opened r sys c s u).0;
                acct_store_map = Dict.emplace u (opened r sys c s u).1 s.acct_store_map;
              },
              some ((opened r sys c s u).1, rec),
            )
            | none ↦
                (record s { db = c.close_file (opened r sys c s u).0 (opened r sys c s u).1 }, none)
          ])
      branch none = c.has_file-close _ _ (path_of u) ∙ c.has_file-open s.db (path_of u) can
      branch (some rec) = c.has_file-open s.db (path_of u) can

  find_save_store-fresh :
      (s : BlockMgr c) (u : Bytes)
      → Dict.find u s.acct_store_map ≡ none
      → find_save_store r sys c s u ≡ fresh_store r sys c s u
  unfolding find_save_store
  find_save_store-fresh s u absent = rw (find_save_store, absent) refl

  lookup-exists :
      (s : BlockMgr c) (u : Bytes)
      → Dict.find u s.acct_store_map ≡ none
      → CanOpen s u
      → c.has_file (find_save_store r sys c s u).0.db (path_of u) ≡ true
  lookup-exists s u absent can =
      ap (λ p. c.has_file p.0.db (path_of u)) (find_save_store-fresh s u absent)
      ∙ fresh-exists s u can

  -- A lookup of a user who has no account, such as the lookup of a payment's receiver or of a balance,
  -- creates the user's file where it can be opened: from then on the creation of the account, with a
  -- name that is not too long, is refused with -3, and nothing is changed.
  create_acct-find_save_store :
      (s : BlockMgr c) (t : Trxn)
      → Dict.find t.sender s.acct_store_map ≡ none
      → CanOpen s t.sender
      → length t.sender ≤ 64
      → let s1 = (find_save_store r sys c s t.sender).0 in
        create_acct r sys c s1 t
        ≡ (s1, neg 3, codes "E30234 error: user account [" ++ t.sender ++ codes "] already exists")
  create_acct-find_save_store s t absent can short =
      create_acct-exists _ t short (lookup-exists s t.sender absent can)

  -- The type of account that the request names.
  abbrev pub type_of : Trxn → Bytes
  type_of t = read_string sys.json t.request (codes "ACTYPE")

  abbrev pub new_state : BlockMgr c → Trxn → BlockMgr c
  new_state s t = record s {
    db =
        c.put_record (opened r sys c s t.sender).0 (opened r sys c s t.sender).1 t.sender
          (to_json sys.json (fresh_account r sys c (type_of t) t.user_pubkey));
    acct_store_map = Dict.emplace t.sender (opened r sys c s t.sender).1 s.acct_store_map;
  }

  opens :
      (s : BlockMgr c) (t : Trxn)
      → (not (eqb (type_of t) om_acct_user) && not (eqb (type_of t) om_acct_contract)) ≡ false
      → open_acct r sys c s t (type_of t) ≡ (new_state s t, pos 0, [])
  unfolding open_acct put
  opens s t kind = rw kind refl

  created :
      (s : BlockMgr c) (t : Trxn)
      → length t.sender ≤ 64
      → c.has_file s.db (path_of t.sender) ≡ false
      → Dict.find t.sender s.acct_store_map ≡ none
      → (not (eqb (type_of t) om_acct_user) && not (eqb (type_of t) om_acct_contract)) ≡ false
      → create_acct r sys c s t ≡ (new_state s t, pos 0, [])
  unfolding create_acct open_acct put
  created s t short absent unknown kind =
      let fits : ltb 64 (length t.sender) ≡ false = ground (arith, short) in
      rw (fits, absent, unknown) (opens s t kind)

  -- The account of a new user, written out: nothing has gone in or out, and the key is the one that
  -- signed the transaction.
  abbrev pub new_account : Trxn → Account
  new_account t = record {
    accttype = type_of t;
    balance = codes "10000000";
    tokentype = codes "O";
    pubkey = t.user_pubkey;
    keytype = codes "DL5";
    out = codes "0";
    in_ = codes "0";
    tokens = [];
  }

  -- The creation of an account for a user without one, with a name of at most 64 bytes that has no NUL
  -- byte, a file that can be opened and the type of a user or a contract, returns 0. Afterwards a
  -- lookup finds the text of an account of that type with the balance 10000000, the transaction's public
  -- key, both counters at 0 and no tokens, and the creation for the same user again is refused with
  -- -3.
  pub create_acct-created :
      (s : BlockMgr c) (t : Trxn)
      → length t.sender ≤ 64
      → Free 0 t.sender
      → c.has_file s.db (path_of t.sender) ≡ false
      → Dict.find t.sender s.acct_store_map ≡ none
      → CanOpen s t.sender
      → (not (eqb (type_of t) om_acct_user) && not (eqb (type_of t) om_acct_contract)) ≡ false
      → let s1 = (create_acct r sys c s t).0 in
        ((create_acct r sys c s t).1 ≡ pos 0)
        × (find_save_store r sys c s1 t.sender
            ≡ (s1, some ((opened r sys c s t.sender).1, to_json sys.json (new_account t))))
        × ((create_acct r sys c s1 t).1 ≡ neg 3)
  unfolding fresh_account
  create_acct-created s t short clean absent unknown can kind =
      rw (created s t short absent unknown kind) (
        refl,
        IsFound-find_save_store r sys c (new_state s t) t.sender (opened r sys c s t.sender).1 _ (
          find-emplace_same r sys c t.sender (opened r sys c s t.sender).1 s.acct_store_map unknown,
          ap (c.get_record _ _) (c_str-Free t.sender clean) ∙ c.get-put _ _ t.sender _ can,
        ),
        ap (λ x. x.1)
            (create_acct-exists (new_state s t) t short
              (c.has_file-put _ _ t.sender _ _ ∙ c.has_file-open s.db (path_of t.sender) can)),
      )
