-- ===== src/Tokens/Mint.antt =====
-- src/blockmgr.cc: `validateReqTokens`, the test of new tokens.
use omicro.Base.{
  ◌%◌, ◌^◌, Bool, true, false, ◌||◌, ◌==◌, ltb, if◌then◌else◌, Bytes, codes, length, Option, none,
  some,
}
use omicro.Base.Int.{ℤ, pos, neg}
use omicro.Json.{
  Json, Value, Values, Members, str, arr, obj, no_values, value, no_members, member, object,
  elements, set_string,
}
use omicro.Accounts.{atoll}
use omicro.Tokens.Deduct.{text_member, om_num_maxsz, om_token_max_len}
use omicro.Tokens.Transfer.{is_array}

-- `AddMember` at the end, then the first member with that name is set.
abbrev add_member : Members → Bytes → Value → Members
add_member no_members key v = member key v no_members
add_member (member k w ms) key v = member k w (add_member ms key v)

-- One new token: an error code, or the token and whether it has changed. `atoi` keeps 32 bits.
pub data Minted : Type 0 where
  mint_error : ℤ → Minted
  minted : Members → Bool → Minted

minted_max : Bytes → Members → Option Bytes → Minted
unfolding set_string atoll
minted_max from ms none = mint_error (neg 40)
minted_max from ms (some max) =
    if ltb (length max) 1 || ltb om_num_maxsz (length max)
    then mint_error (neg 50)
    else if atoll max % 2 ^ 32 == 1
    then minted (set_string (codes "owner") from (add_member ms (codes "owner") (str from))) true
    else minted ms false

minted_name : Bytes → Members → Option Bytes → Minted
unfolding minted_max text_member
minted_name from ms none = mint_error (neg 27)
minted_name from ms (some tname) =
    if ltb (length tname) 1
    then mint_error (neg 30)
    else if ltb om_token_max_len (length tname)
    then mint_error (neg 35)
    else minted_max from ms (text_member (codes "max") ms)

-- The loop over the new tokens: an error code, or the tokens and `hasChange`.
pub data Valid : Type 0 where
  not_valid : ℤ → Valid
  valid : Values → Bool → Valid

abbrev valid_front : Members → Bool → Valid → Valid
valid_front ms changed (not_valid rc) = not_valid rc
valid_front ms changed (valid vs more) = valid (value (obj ms) vs) (changed || more)

valid_tokens : Bytes → Values → Valid
unfolding minted_name text_member
valid_tokens from no_values = valid no_values false
valid_tokens from (value v vs) =
    let later = valid_tokens from vs in
    elim (object v) [
      | none ↦ not_valid (neg 25)
      | some ms ↦ elim (minted_name from ms (text_member (codes "name") ms)) [
        | mint_error rc ↦ not_valid rc
        | minted ms1 changed ↦ valid_front ms1 changed later
      ]
    ]

-- The return code and the request, which may have changed.
unfoldable pub validate_req_tokens : Json → Bytes → Bytes → ℤ × Bytes
unfolding valid_tokens
validate_req_tokens json from request_json = elim (json.parse request_json) [
  | none ↦ (neg 10, request_json)
  | some dom ↦
      if is_array dom
      then elim (valid_tokens from (elements dom)) [
        | not_valid rc ↦ (rc, request_json)
        | valid vs changed ↦ (pos 0, if changed then json.write (arr vs) else request_json)
      ]
      else (neg 20, request_json)
]
