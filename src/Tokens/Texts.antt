-- ===== src/Tokens/Texts.antt =====
-- src/blockmgr.cc: `checkValidTokens` and `modifyTokens` on the texts of a request.
use omicro.Base.{
  ◌≡◌, refl, Bool, true, false, not, ◌&&◌, ◌||◌, ◌==◌, if◌then◌else◌, Bytes, codes, none, some,
}
use omicro.Base.Int.{ℤ, pos, neg, is_negative}
use omicro.Json.{
  Json, Value, Values, Members, str, no_values, value, no_members, member, object, elements,
  find_member,
}
use omicro.Trxn.{Reals}
use omicro.Accounts.{Doubles, atoll}
use omicro.Tokens.Deduct.{text_member}
use omicro.Tokens.Transfer.{
  Moved, moved, move_error, is_array, parse_to, write_lists, modify_tokens,
}
use omicro.Tokens.Check.{to_tokens_parse, check_valid_tokens}
use omicro.Tokens.Validity.{IsMoved, IsAccepted, move_items-check_items}

-- `GetString` stops the process on a value that is not a string, `Size` on one that is not an array,
-- and `v["owner"]` on a token without an owner; `modifyTokens` meets none of these where the lists of
-- both accounts are arrays whose objects, like the element of the request, have only string members,
-- and either no token of the sender has the maximum 1 or each of the receiver's has an owner.
abbrev is_text : Value → Bool
is_text (str s) = true
is_text v = false

abbrev all_text : Members → Bool
all_text no_members = true
all_text (member key v ms) = is_text v && all_text ms

abbrev all_objects : (Members → Bool) → Values → Bool
all_objects test no_values = true
all_objects test (value v vs) =
    let rest = all_objects test vs in elim (object v) [ none ↦ rest | some ms ↦ test ms && rest ]

abbrev has_owner : Members → Bool
has_owner ms = elim (find_member (codes "owner") ms) [ none ↦ false | some v ↦ true ]

abbrev is_many : Members → Bool
is_many ms = elim (text_member (codes "max") ms) [ none ↦ true | some max ↦ not (atoll max == 1) ]

abbrev pub runs_through : Value → Value → Value → Bool
runs_through rv fromdom todom =
    is_array fromdom
    && is_array todom
    && all_objects all_text (value rv no_values)
    && all_objects all_text (elements fromdom)
    && all_objects all_text (elements todom)
    && (all_objects is_many (elements fromdom) || all_objects has_owner (elements todom))

module _ (json : Json) (r : Reals) (d : Doubles r) (from to : Bytes)
    (minus_law : (a b : r.Real)
      → r.lt_real a b ≡ false
      → r.lt_real (r.minus a b) r.zero_real ≡ false) where
  abbrev Accepted : ℤ × Bytes → Type 0
  Accepted result = IsAccepted r d from to minus_law result

  abbrev IsNegativeCode : ℤ → Type 0
  IsNegativeCode rc = is_negative rc ≡ true

  Accepted-if :
      (b : Bool) (result : ℤ × Bytes) (rc : ℤ) (err : Bytes)
      → IsNegativeCode rc
      → Accepted (if b then result else (rc, err))
      → (b ≡ true) × Accepted result
  Accepted-if true result rc err negative h = (refl, h)
  Accepted-if false result rc err negative h = cc (negative, h)

  write_lists-IsMoved : (x : Moved) → IsMoved r d x → (write_lists json r d x).0 ≡ pos 0
  unfolding write_lists
  write_lists-IsMoved (move_error rc) h = absurd h
  write_lists-IsMoved (moved fromdom todom) h = refl

  -- A transfer of one token that passes the check before the votes is carried out: where
  -- `checkValidTokens` returns no error for a request of one element, `modifyTokens` returns 0 on the
  -- same texts. The lists of both accounts are arrays; their objects and the element of the request
  -- have only string members; and no token of the sender has the maximum 1 or each of the receiver's
  -- has an owner, since `modifyTokens` stops the process elsewhere. The hypothesis on `double` is that
  -- a - b is not negative where a is not less than b.
  pub modify_tokens-check_valid_tokens :
      (req_json from_tokens to_tokens : Bytes) (chdom rv fromdom todom : Value)
      → json.parse req_json ≡ some chdom
      → elements chdom ≡ value rv no_values
      → json.parse from_tokens ≡ some fromdom
      → parse_to json r d to_tokens ≡ some todom
      → runs_through rv fromdom todom ≡ true
      → Accepted (check_valid_tokens json r from req_json from_tokens to_tokens)
      → (modify_tokens json r d from to req_json from_tokens to_tokens).0 ≡ pos 0
  unfolding check_valid_tokens modify_tokens
  modify_tokens-check_valid_tokens req_json from_tokens to_tokens chdom rv fromdom todom request one
        e1 e2 through h =
      let h1 = rw (check_valid_tokens, e1) at h in
      let (t, h2) = Accepted-if (to_tokens_parse json to_tokens) _ (neg 20) _ refl h1 in
      let h3 = rw request at h2 in
      let (array, h4) = Accepted-if (is_array chdom) _ (neg 40) _ refl h3 in
      rw (modify_tokens, e1, e2, request, array, one)
        (write_lists-IsMoved _ (
          move_items-check_items r d from to minus_law rv (elements fromdom) (elements todom)
            (rw one at h4)))
