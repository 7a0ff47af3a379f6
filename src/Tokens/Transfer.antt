-- ===== src/Tokens/Transfer.antt =====
-- src/blockmgr.cc: `modifyTokens`, which moves the tokens of a request between the token lists of two
-- accounts. A list is changed in place; where the source returns an error the
-- changed lists are dropped, so the model keeps none.
use omicro.Base.{Bool, true, false, [], ◌∷◌, if◌then◌else◌, Bytes, codes, eqb, Option, none, some}
use omicro.Base.Int.{ℤ, pos, neg}
use omicro.Json.{
  Json, Value, Values, Members, str, arr, obj, no_values, value, no_members, member, object,
  elements, set_string, get_string,
}
use omicro.Trxn.{Reals}
use omicro.Accounts.{Doubles}
use omicro.Tokens.Deduct.{
  item_error, item_skipped, item, read_item, text_member, Deducted, deduct_error, deducted, deduct,
}

-- The lists of both accounts, or an error code.
pub data Moved : Type 0 where
  move_error : ℤ → Moved
  moved : Values → Values → Moved

module _ (r : Reals) (d : Doubles r) where
  -- The receiver's token with that name and a balance, if there is one, with what it has afterwards.
  -- The source stops the process at `v["owner"]` where an NFT has no owner; `set_string` keeps the
  -- members then.
  credit_object : Bytes → Bytes → Bool → Members → Bytes → Value
  unfolding set_string
  credit_object to amount nft ms bal =
      if nft
      then obj (set_string (codes "owner") to (set_string (codes "bal") (codes "1") ms))
      else obj (set_string (codes "bal") (d.print_6g (d.plus (r.atof bal) (r.atof amount))) ms)

  credit_token : Bytes → Bytes → Bytes → Bool → Value → Option Value
  unfolding credit_object text_member
  credit_token to name amount nft v = elim (object v) [
    | none ↦ none
    | some ms ↦ elim (text_member (codes "name") ms) [
      | none ↦ none
      | some tname ↦
          if eqb tname name
          then elim (text_member (codes "bal") ms) [
            | none ↦ none
            | some bal ↦ some (credit_object to amount nft ms bal)
          ]
          else none
    ]
  ]

  -- `none` where the receiver has no such token.
  unfoldable pub credit : Bytes → Bytes → Bytes → Bool → Values → Option Values
  unfolding credit_token
  credit to name amount nft no_values = none
  credit to name amount nft (value v vs) =
      let later = credit to name amount nft vs in
      elim (credit_token to name amount nft v) [
        | some w ↦ some (value w vs)
        | none ↦ elim later [ none ↦ none | some ws ↦ some (value v ws) ]
      ]

  -- The copy of a token for the receiver: all members as strings, the amount as its balance. The
  -- source stops the process at a member that is not a string, where `get_string` is empty.
  unfoldable pub copy_members : Bytes → Members → Members
  unfolding get_string
  copy_members amount no_members = no_members
  copy_members amount (member key v ms) =
      member key (str (if eqb key (codes "bal") then amount else get_string v))
        (copy_members amount ms)

  abbrev pub push_back : Values → Value → Values
  push_back no_values v = value v no_values
  push_back (value w vs) v = value w (push_back vs v)

  abbrev pub push_object : Values → Members → Values
  push_object todom no_members = todom
  push_object todom (member key v ms) = push_back todom (obj (member key v ms))

  -- The loop that looks the token up among the sender's and appends a copy: error -90, or the list.
  unfoldable pub copy_token : Bytes → Bytes → Values → Values → Option Values
  unfolding copy_members text_member
  copy_token name amount todom no_values = some todom
  copy_token name amount todom (value v vs) =
      let later = copy_token name amount todom vs in
      elim (object v) [
        | none ↦ none
        | some ms ↦ elim (text_member (codes "name") ms) [
          | none ↦ none
          | some tname ↦
              if eqb tname name then some (push_object todom (copy_members amount ms)) else later
        ]
      ]

  unfoldable pub move_to : Bytes → Bytes → Bytes → Values → Deducted → Moved
  unfolding credit copy_token
  move_to to name amount todom (deduct_error rc) = move_error rc
  move_to to name amount todom (deducted fromdom false nft) = move_error (neg 55)
  move_to to name amount todom (deducted fromdom true nft) =
      elim (credit to name amount nft todom) [
        | some todom1 ↦ moved fromdom todom1
        | none ↦ elim (copy_token name amount todom fromdom) [
          | none ↦ move_error (neg 90)
          | some todom1 ↦ moved fromdom todom1
        ]
      ]

  unfoldable pub move_item : Bytes → Bytes → Bytes → Bytes → Values → Values → Moved
  unfolding move_to deduct
  move_item from to name amount fromdom todom =
      move_to to name amount todom (deduct r d from to name amount false fromdom)

  -- The loop over the request; the source's second test of the amount's length, -48, cannot hold.
  unfoldable pub move_items : Bytes → Bytes → Values → Values → Values → Moved
  unfolding read_item move_item
  move_items from to no_values fromdom todom = moved fromdom todom
  move_items from to (value rv rest) fromdom todom = elim (read_item r d rv) [
    | item_error rc ↦ move_error rc
    | item_skipped ↦ move_items from to rest fromdom todom
    | item name amount ↦ elim (move_item from to name amount fromdom todom) [
      | move_error rc ↦ move_error rc
      | moved fromdom1 todom1 ↦ move_items from to rest fromdom1 todom1
    ]
  ]

abbrev pub is_array : Value → Bool
is_array (arr vs) = true
is_array v = false

module _ (json : Json) (r : Reals) (d : Doubles r) where
  abbrev pub parse_to : Bytes → Option Value
  parse_to [] = some (arr no_values)
  parse_to (c ∷ to_tokens) = json.parse (c ∷ to_tokens)

  unfoldable pub write_lists : Moved → ℤ × Bytes × Bytes
  write_lists (move_error rc) = (rc, [], [])
  write_lists (moved fromdom todom) = (pos 0, json.write (arr fromdom), json.write (arr todom))

  -- The return code and, where it is 0, the new texts of both lists.
  unfoldable pub modify_tokens : Bytes → Bytes → Bytes → Bytes → Bytes → ℤ × Bytes × Bytes
  unfolding move_items write_lists
  modify_tokens from to req_json from_tokens to_tokens = elim (json.parse from_tokens) [
    | none ↦ (neg 10, [], [])
    | some fromdom ↦ elim (parse_to to_tokens) [
      | none ↦ (neg 20, [], [])
      | some todom ↦ elim (json.parse req_json) [
        | none ↦ (neg 30, [], [])
        | some chdom ↦
            if is_array chdom
            then write_lists
                (move_items r d from to (elements chdom) (elements fromdom) (elements todom))
            else (neg 40, [], [])
      ]
    ]
  ]
