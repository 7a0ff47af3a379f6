-- ===== src/Tokens/Check.antt =====
-- src/blockmgr.cc: `checkValidTokens`, the test of a transfer before the votes.
use omicro.Base.{
  Bool, true, false, [], ◌∷◌, ◌==◌, ltb, if◌then◌else◌, Bytes, codes, eqb, length, Option, none,
  some,
}
use omicro.Base.Int.{ℤ, pos, neg}
use omicro.Json.{Json, Value, Values, Members, no_values, value, object, elements, find_member}
use omicro.Trxn.{Reals}
use omicro.Accounts.{atoll}
use omicro.Tokens.Deduct.{text_member, string_of, om_num_maxsz, om_token_max_len}
use omicro.Tokens.Transfer.{is_array}

-- One element of the request: an error with its message, or a name and an amount.
pub data Wanted : Type 0 where
  wanted_error : ℤ → Bytes → Wanted
  wanted : Bytes → Bytes → Wanted

-- One token of the sender: an error, a token with another name, or the token that can pay.
pub data Checked : Type 0 where
  check_error : ℤ → Bytes → Checked
  check_other : Checked
  check_pays : Checked

module _ (r : Reals) where
  unfoldable pub wanted_amount : Bytes → Option Bytes → Wanted
  wanted_amount name none = wanted_error (neg 46) (codes "E34043 error amt is not string")
  wanted_amount name (some amt) =
      if ltb om_num_maxsz (length amt)
      then wanted_error (neg 57) (codes "E34022 error amt too large")
      else if r.le_real (r.atof amt) r.zero_real
      then wanted_error (neg 45) (codes "E34023 error negative amt")
      else wanted name amt

  unfoldable pub wanted_name : Members → Option Bytes → Wanted
  unfolding wanted_amount find_member
  wanted_name ms none = wanted_error (neg 45) (codes "E34020 error Json element has no name")
  wanted_name ms (some name) =
      if ltb om_token_max_len (length name)
      then wanted_error (neg 46) (codes "E34021 error name too long")
      else elim (find_member (codes "amount") ms) [
        | none ↦ wanted name (codes "1")
        | some v ↦ wanted_amount name (string_of v)
      ]

  unfoldable pub read_wanted : Value → Wanted
  unfolding wanted_name text_member
  read_wanted rv = elim (object rv) [
    | none ↦ wanted_error (neg 35) (codes "E34128 error JSON element not object")
    | some ms ↦ wanted_name ms (text_member (codes "name") ms)
  ]

  unfoldable pub check_balance : Bytes → Option Bytes → Checked
  check_balance amount none = check_error (neg 65) (codes "E32204 no balance bal element")
  check_balance amount (some bal) =
      if r.lt_real (r.atof bal) (r.atof amount)
      then check_error (neg 50) (codes "E24722 error xferamount exceeds balance")
      else check_pays

  unfoldable pub check_owner : Bytes → Bytes → Members → Option Bytes → Checked
  unfolding check_balance text_member
  check_owner from amount ms none = check_error (neg 71) (codes "E32471 nft token has no owner")
  check_owner from amount ms (some towner) =
      if eqb from towner
      then check_balance amount (text_member (codes "bal") ms)
      else check_error (neg 73) (codes "E32481 nft token owner is not sender")

  unfoldable pub check_max : Bytes → Bytes → Members → Option Bytes → Checked
  unfolding check_owner check_balance text_member atoll
  check_max from amount ms none = check_error (neg 61) (codes "E32401 sender no max")
  check_max from amount ms (some max) =
      if atoll max == 1
      then check_owner from amount ms (text_member (codes "owner") ms)
      else check_balance amount (text_member (codes "bal") ms)

  unfoldable pub check_name : Bytes → Bytes → Bytes → Members → Option Bytes → Checked
  unfolding check_max text_member
  check_name from name amount ms none = check_error (neg 60) (codes "E32208 sender dom has no name")
  check_name from name amount ms (some tname) =
      if eqb tname name
      then check_max from amount ms (text_member (codes "max") ms)
      else check_other

  unfoldable pub check_token : Bytes → Bytes → Bytes → Value → Checked
  unfolding check_name text_member
  check_token from name amount v = elim (object v) [
    | none ↦ check_error (neg 55) (codes "E32268 sender not object")
    | some ms ↦ check_name from name amount ms (text_member (codes "name") ms)
  ]

  -- The loop over the sender's tokens: no error, or a code and a message.
  unfoldable pub check_tokens : Bytes → Bytes → Bytes → Values → Option (ℤ × Bytes)
  unfolding check_token
  check_tokens from name amount no_values =
      some (neg 55, codes "E44023 sender account has no such token")
  check_tokens from name amount (value v vs) =
      let later = check_tokens from name amount vs in
      elim (check_token from name amount v) [
        | check_error rc err ↦ some (rc, err)
        | check_other ↦ later
        | check_pays ↦ none
      ]

  -- The loop over the request.
  unfoldable pub check_items : Bytes → Values → Values → ℤ × Bytes
  unfolding read_wanted check_tokens
  check_items from no_values fromdom = (pos 0, [])
  check_items from (value rv rest) fromdom =
      let later = check_items from rest fromdom in
      elim (read_wanted rv) [
        | wanted_error rc err ↦ (rc, err)
        | wanted name amount ↦ elim (check_tokens from name amount fromdom) [
          | some error ↦ error
          | none ↦ later
        ]
      ]

-- `if (toTokens.size() > 0)`: whether the receiver's tokens, if it has any, are JSON.
abbrev pub to_tokens_parse : Json → Bytes → Bool
to_tokens_parse json [] = true
to_tokens_parse json (c ∷ s) = elim (json.parse (c ∷ s)) [ none ↦ false | some todom ↦ true ]

-- The return code and `errmsg`.
unfoldable pub check_valid_tokens : Json → Reals → Bytes → Bytes → Bytes → Bytes → ℤ × Bytes
unfolding check_items
check_valid_tokens json r from req_json from_tokens to_tokens = elim (json.parse from_tokens) [
  | none ↦ (neg 10, [])
  | some fromdom ↦
      if to_tokens_parse json to_tokens
      then elim (json.parse req_json) [
        | none ↦ (neg 30, codes "E34235 Json request format error")
        | some chdom ↦
            if is_array chdom
            then check_items r from (elements chdom) (elements fromdom)
            else (neg 40, codes "E34035 Json DOM not array, request format error")
      ]
      else (neg 20, codes "E34233 toTokens format error")
]
