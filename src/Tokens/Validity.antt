-- ===== src/Tokens/Validity.antt =====
-- src/blockmgr.cc: a transfer that passes `checkValidTokens` is carried out by `modifyTokens`.
use omicro.Base.{
  ◌≡◌, refl, true, false, [], Bytes, codes, ltb, length, Bool-cases, inl, inr, Option, none, some,
}
use omicro.Base.Int.{ℤ, pos, neg, is_negative}
use omicro.Json.{Value, Values, Members, no_values, value, object, find_member}
use omicro.Trxn.{Reals}
use omicro.Accounts.{Doubles}
use omicro.Tokens.Deduct.{
  text_member, string_of, Item, item_error, item_skipped, item, item_amount, item_name, read_item,
  Deducted, deduct_error, deducted, deduct, om_num_maxsz, om_token_max_len,
}
use omicro.Tokens.Transfer.{
  credit, copy_token, Moved, moved, move_error, move_to, move_item, move_items,
}
use omicro.Tokens.Check.{
  Wanted, wanted_error, wanted, wanted_amount, wanted_name, read_wanted, check_tokens, check_items,
}
use omicro.Tokens.Agreement.{Both, tokens-Both, Covers}

module _ (r : Reals) (d : Doubles r) where
  -- An element that the check takes, the transfer reads in the same way.
  abbrev SameItem : Wanted → Item → Type 0
  SameItem (wanted_error rc err) x = is_negative rc ≡ true
  SameItem (wanted name amount) x = x ≡ item name amount

  amount-SameItem :
      (name : Bytes) (o : Option Bytes) → SameItem (wanted_amount r name o) (item_amount r d name o)
  unfolding wanted_amount item_amount
  amount-SameItem name none = refl
  amount-SameItem name (some amt) = elim (Bool-cases (ltb om_num_maxsz (length amt))) [
    | inl large ↦ rw large refl
    | inr small ↦ rw small (elim (Bool-cases (r.le_real (r.atof amt) r.zero_real)) [
      | inl negative ↦ rw negative refl
      | inr positive ↦ rw positive refl
    ])
  ]

  name-SameItem :
      (ms : Members) (o : Option Bytes) → SameItem (wanted_name r ms o) (item_name r d ms o)
  unfolding wanted_name item_name
  name-SameItem ms none = refl
  name-SameItem ms (some name) = elim (Bool-cases (ltb om_token_max_len (length name))) [
    | inl long ↦ rw long refl
    | inr short ↦
        rw short
          (branch (find_member (codes "amount") ms) (λ v. amount-SameItem name (string_of v)))
  ]
    where
      branch :
          (o : Option Value)
          → ((v : Value)
              → SameItem (wanted_amount r name (string_of v)) (item_amount r d name (string_of v)))
          → SameItem
              (elim o [
                | none ↦ wanted name (codes "1")
                | some v ↦ wanted_amount r name (string_of v)
              ])
              (elim o [
                | none ↦ item name (codes "1")
                | some v ↦ item_amount r d name (string_of v)
              ])
      branch none k = refl
      branch (some v) k = k v

  read-SameItem : (rv : Value) → SameItem (read_wanted r rv) (read_item r d rv)
  unfolding read_wanted read_item
  read-SameItem rv = branch (object rv)
    where
      branch :
          (o : Option Members)
          → SameItem
              (elim o [
                | none ↦ wanted_error (neg 35) (codes "E34128 error JSON element not object")
                | some ms ↦ wanted_name r ms (text_member (codes "name") ms)
              ])
              (elim o [
                | none ↦ item_error (neg 41)
                | some ms ↦ item_name r d ms (text_member (codes "name") ms)
              ])
      branch none = refl
      branch (some ms) = name-SameItem ms (text_member (codes "name") ms)

  -- The transfer gives new lists for both accounts.
  abbrev pub IsMoved : Moved → Type 0
  IsMoved (move_error rc) = ⊥
  IsMoved (moved fromdom todom) = Unit {0}

module _ (r : Reals) (d : Doubles r) (from to : Bytes)
    (minus_law : (a b : r.Real)
      → r.lt_real a b ≡ false
      → r.lt_real (r.minus a b) r.zero_real ≡ false) where
  move_to-IsMoved :
      (name amount : Bytes) (todom : Values) (x : Deducted)
      → Covers r d from to name amount minus_law x
      → IsMoved r d (move_to r d to name amount todom x)
  unfolding move_to
  move_to-IsMoved name amount todom (deduct_error rc) h = absurd h
  move_to-IsMoved name amount todom (deducted fromdom false nft) h =
      let no : false ≡ true = h.0 in cc
  move_to-IsMoved name amount todom (deducted fromdom true nft) h =
      credited (credit r d to name amount nft todom)
    where
      credited :
          (o : Option Values)
          → IsMoved r d (elim o [
            | some todom1 ↦ moved fromdom todom1
            | none ↦ elim (copy_token r d name amount todom fromdom) [
              | none ↦ move_error (neg 90)
              | some todom1 ↦ moved fromdom todom1
            ]
          ])
      credited (some todom1) = tt
      credited none = rw (h.1 todom).1 tt

  -- A result of the check that is no error.
  abbrev pub IsAccepted : ℤ × Bytes → Type 0
  IsAccepted result = is_negative result.0 ≡ false

  moved_again :
      (x : Moved)
      → IsMoved r d x
      → IsMoved r d (elim x [ move_error rc ↦ move_error rc | moved vs ws ↦ moved vs ws ])
  moved_again (move_error rc) h = h
  moved_again (moved vs ws) h = h

  -- One element of a request, with the result of its check.
  one_item :
      (w : Wanted) (x : Item) (fromdom todom : Values)
      → SameItem r d w x
      → IsAccepted (elim w [
        | wanted_error rc err ↦ (rc, err)
        | wanted name amount ↦ elim (check_tokens r from name amount fromdom) [
          | some error ↦ error
          | none ↦ (pos 0, [])
        ]
      ])
      → IsMoved r d (elim x [
        | item_error rc ↦ move_error rc
        | item_skipped ↦ moved fromdom todom
        | item name amount ↦ elim (move_item r d from to name amount fromdom todom) [
          | move_error rc ↦ move_error rc
          | moved fromdom1 todom1 ↦ moved fromdom1 todom1
        ]
      ])
  unfolding move_item
  one_item (wanted_error rc err) x fromdom todom same h = cc (same, h)
  one_item (wanted name amount) x fromdom todom same h = rw same (
      moved_again (move_to r d to name amount todom (deduct r d from to name amount false fromdom))
        (found (check_tokens r from name amount fromdom)
          (tokens-Both r d from to name amount minus_law fromdom false) h))
    where
      found :
          (o : Option (ℤ × Bytes))
          → Both r d from to name amount minus_law o (deduct r d from to name amount false fromdom)
          → IsAccepted (elim o [ some error ↦ error | none ↦ (pos 0, []) ])
          → IsMoved r d
              (move_to r d to name amount todom (deduct r d from to name amount false fromdom))
      found none both h = move_to-IsMoved name amount todom _ both
      found (some error) both h = cc (both, h)

  -- For a request of one element: where the check of the transfer finds no error among the sender's
  -- tokens, the transfer gives new tokens for both accounts, whatever the receiver has. The hypothesis
  -- on `double` is that a - b is not negative where a is not less than b.
  pub move_items-check_items :
      (rv : Value) (fromdom todom : Values)
      → IsAccepted (check_items r from (value rv no_values) fromdom)
      → IsMoved r d (move_items r d from to (value rv no_values) fromdom todom)
  unfolding check_items move_items
  move_items-check_items rv fromdom todom h =
      one_item (read_wanted r rv) (read_item r d rv) fromdom todom (read-SameItem r d rv) h
