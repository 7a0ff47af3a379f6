-- ===== src/BlockMgr/Requests.antt =====
-- src/blockmgr.cc: the creation and the transfer of tokens.
use omicro.Base.{
  Bool, true, false, ◌&&◌, [], ◌∷◌, ◌++◌, ◌==◌, ltb, if◌then◌else◌, Bytes, codes, c_str, length,
  Option, none, some,
}
use omicro.Base.Int.{ℤ, pos, neg, is_negative}
use omicro.Json.{print_int}
use omicro.Trxn.{Trxn, Reals}
use omicro.Accounts.{Account, of_json, to_json, increment_fence, increment_in}
use omicro.Tokens.{has_dup_names}
use omicro.Tokens.Transfer.{modify_tokens}
use omicro.Tokens.Check.{check_valid_tokens}
use omicro.Tokens.Mint.{validate_req_tokens}
use omicro.BlockMgr.{Cabinet, BlockMgr, System, find_save_store, put}

-- `str.erase(str.find_last_not_of("]") + 1)`
is_empty : Bytes → Bool
is_empty [] = true
is_empty (c ∷ s) = false

trim_right : Bytes → Bytes
unfolding is_empty
trim_right [] = []
trim_right (c ∷ s) =
    let rest = trim_right s in if (c == b']') && is_empty rest then [] else c ∷ rest

-- What follows the first opening bracket.
behind_bracket : Bytes → Option Bytes
behind_bracket [] = none
behind_bracket (c ∷ p) = if c == b'[' then some p else behind_bracket p

module _ (r : Reals) (sys : System r) (c : Cabinet) where
  -- The new state, the return code and `errmsg`.
  abbrev Result : Type 0
  Result = BlockMgr c × ℤ × Bytes

  store_tokens : BlockMgr c → c.Handle → Bytes → Account → Bytes → BlockMgr c
  unfolding put to_json
  store_tokens s h from acct tokens =
      put r sys c s h from (to_json sys.json (record acct { tokens = tokens }))

  -- The request is added to the tokens that there are.
  add_tokens : BlockMgr c → c.Handle → Bytes → Account → Bytes → Result
  unfolding has_dup_names trim_right behind_bracket store_tokens
  add_tokens s h from acct request =
      if ltb (length acct.tokens) 1
      then (store_tokens s h from acct request, pos 0, [])
      else if has_dup_names acct.tokens request
      then (s, neg 15, codes "E30220 error token already exists")
      else elim (behind_bracket (c_str request)) [
        | none ↦ (s, neg 20, codes "E9901 format error, unmatched brackets in request []")
        | some p ↦ (store_tokens s h from acct (trim_right acct.tokens ++ b',' ∷ p), pos 0, [])
      ]

  -- The request of the transaction may change, so the transaction is a result too.
  unfoldable pub create_token : BlockMgr c → Trxn → Trxn × Result
  unfolding find_save_store validate_req_tokens add_tokens of_json
  create_token s t =
      let (s1, found) = find_save_store r sys c s t.sender in
      let (rc, request) = validate_req_tokens sys.json t.sender t.request in
      let t1 = record t { request = request } in
      elim found [
        | none ↦
            (t, (s1, neg 10, codes "E30821 createToken error sender account is not created yet"))
        | some (h, rec) ↦
            if is_negative rc
            then (t1, (s1, neg 10, codes "E30824 createToken error invalid request " ++ request))
            else (t1, add_tokens s1 h t.sender (of_json sys.json rec) request)
      ]

  xfer : BlockMgr c → Trxn → c.Handle × Bytes → c.Handle × Bytes → Result
  unfolding of_json to_json has_dup_names modify_tokens increment_fence increment_in put
  xfer s t (src, fromrec) (dst, torec) =
      let from_acct = of_json sys.json fromrec in
      let to_acct = of_json sys.json torec in
      let (rc, from_tokens, to_tokens) =
        modify_tokens sys.json r sys.doubles t.sender t.receiver t.request from_acct.tokens
          to_acct.tokens in
      let s1 =
        put r sys c s src t.sender
          (to_json sys.json (increment_fence (record from_acct { tokens = from_tokens }))) in
      let s2 =
        put r sys c s1 dst t.receiver
          (to_json sys.json (increment_in (record to_acct { tokens = to_tokens }))) in
      if ltb (length from_acct.tokens) 1
      then (s, neg 30, codes "E33401 sender tokens are empty")
      else if has_dup_names from_acct.tokens t.request
      then (if is_negative rc
          then (s, neg 50, codes "E21303 adjustment of tokens error")
          else (s2, pos 0, []))
      else (s, neg 40, codes "E22303 sender's tokens do not have the requested token for xfer")

  unfoldable pub transfer_token : BlockMgr c → Trxn → Result
  unfolding find_save_store xfer
  transfer_token s t =
      let (s1, from) = find_save_store r sys c s t.sender in
      let (s2, to) = find_save_store r sys c s1 t.receiver in
      elim from [
        | none ↦ (s1, neg 10, codes "E30821 transferToken error sender account is not created yet")
        | some src ↦ elim to [
          | none ↦
              (s2, neg 20, codes "E30321 transferToken error receiver account is not created yet")
          | some dst ↦ xfer s2 t src dst
        ]
      ]

  check_xfer : BlockMgr c → Trxn → Bytes → Bytes → Result
  unfolding of_json has_dup_names check_valid_tokens print_int
  check_xfer s t fromrec torec =
      let from_acct = of_json sys.json fromrec in
      let to_acct = of_json sys.json torec in
      let (rc, chkerr) =
        check_valid_tokens sys.json r t.sender t.request from_acct.tokens to_acct.tokens in
      if ltb (length from_acct.tokens) 1
      then (s, neg 30, codes "Sender has no tokens")
      else if has_dup_names from_acct.tokens t.request
      then (if is_negative rc
          then (
            s,
            neg 50,
            codes "Invalid tokens from sender to receiver. Error code is "
                ++ print_int rc
                ++ b' ' ∷ chkerr,
          )
          else (s, pos 0, []))
      else (s, neg 40, codes "Sender has no specified tokens")

  unfoldable pub is_xfer_token_valid : BlockMgr c → Trxn → Result
  unfolding find_save_store check_xfer
  is_xfer_token_valid s t =
      let (s1, from) = find_save_store r sys c s t.sender in
      let (s2, to) = find_save_store r sys c s1 t.receiver in
      elim from [
        | none ↦ (s1, neg 10, codes "Sender account is not created yet")
        | some (src, fromrec) ↦ elim to [
          | none ↦ (s2, neg 20, codes "Receiver account is not created yet")
          | some (dst, torec) ↦ check_xfer s2 t fromrec torec
        ]
      ]
