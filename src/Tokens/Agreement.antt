-- ===== src/Tokens/Agreement.antt =====
-- src/blockmgr.cc: `checkValidTokens` and `modifyTokens` agree on a request for one token.
use omicro.Base.{
  ◌≡◌, ◌∙◌, refl, ap, Bool, true, false, ◌||◌, ◌==◌, Bytes, codes, eqb, eqb_iff, eqb_refl,
  Bool-cases, inl, inr, Option, none, some,
}
use omicro.Base.Int.{ℤ, neg, is_negative}
use omicro.Json.{
  Value, Values, Members, obj, no_values, value, no_members, member, object, find_member,
  set_string,
}
use omicro.Trxn.{Reals}
use omicro.Accounts.{Doubles, atoll}
use omicro.Tokens.Deduct.{
  text_member, Debit, debit_error, debit_pass, debit_done, debit_balance, debit_owner, debit_max,
  debit_name, debit_token, Deducted, deduct_error, deducted, deduct, in_front,
}
use omicro.Tokens.Transfer.{copy_token, copy_members, push_object}
use omicro.Tokens.Check.{
  Checked, check_error, check_other, check_pays, check_balance, check_owner, check_max, check_name,
  check_token, check_tokens,
}

-- A member is not changed by a write to another.
find_member-set_string :
    (key other text : Bytes) (ms : Members)
    → eqb other key ≡ false
    → find_member key (set_string other text ms) ≡ find_member key ms
unfolding find_member set_string
find_member-set_string key other text no_members h = refl
find_member-set_string key other text (member k v ms) h = elim (Bool-cases (eqb k other)) [
  | inl same ↦
      let differs : eqb k key ≡ false = ap (λ x. eqb x key) ((eqb_iff k other).0 same) ∙ h in
      rw (same, differs) refl
  | inr different ↦ rw (different, find_member-set_string key other text ms h) refl
]

text_member-set_string :
    (key other text : Bytes) (ms : Members)
    → eqb other key ≡ false
    → text_member key (set_string other text ms) ≡ text_member key ms
unfolding text_member
text_member-set_string key other text ms h =
    rw (text_member, find_member-set_string key other text ms h) refl

abbrev name_key : Bytes
name_key = codes "name"

module _ (r : Reals) (d : Doubles r) (from to name amount : Bytes)
    (minus_law : (a b : r.Real)
      → r.lt_real a b ≡ false
      → r.lt_real (r.minus a b) r.zero_real ≡ false) where
  -- Where the check finds no error, the debit does what it says, and the token keeps its name.
  abbrev Agree : Checked → Debit → Type 0
  Agree (check_error rc err) x = is_negative rc ≡ true
  Agree check_other x =
      (ms : Members) × (tname : Bytes) × (x ≡ debit_pass ms false)
      × (text_member name_key ms ≡ some tname)
      × (eqb tname name ≡ false)
  Agree check_pays x =
      (ms : Members) × (nft : Bool) × (x ≡ debit_done ms nft)
      × (text_member name_key ms ≡ some name)

  balance-Agree :
      (ms : Members) (nft : Bool) (o : Option Bytes)
      → text_member name_key ms ≡ some name
      → Agree (check_balance r amount o) (debit_balance r d amount ms nft o)
  unfolding check_balance debit_balance
  balance-Agree ms nft none named = refl
  balance-Agree ms nft (some bal) named =
      elim (Bool-cases (r.lt_real (r.atof bal) (r.atof amount))) [
        | inl short ↦ rw short refl
        | inr enough ↦
            rw (enough, minus_law (r.atof bal) (r.atof amount) enough)
              (
                set_string (codes "bal") (d.print_6g (r.minus (r.atof bal) (r.atof amount))) ms,
                nft,
                refl,
                text_member-set_string name_key (codes "bal") _ ms (unfold eqb in refl) ∙ named,
              )
      ]

  owner-Agree :
      (ms : Members) (o : Option Bytes)
      → text_member name_key ms ≡ some name
      → Agree (check_owner r from amount ms o) (debit_owner r d from to amount ms o)
  unfolding check_owner debit_owner
  owner-Agree ms none named = refl
  owner-Agree ms (some towner) named = elim (Bool-cases (eqb from towner)) [
    | inl owns ↦
        rw (owns, text_member-set_string (codes "bal") (codes "owner") to ms (unfold eqb in refl))
          (balance-Agree (set_string (codes "owner") to ms) true (text_member (codes "bal") ms)
            (text_member-set_string name_key (codes "owner") to ms (unfold eqb in refl) ∙ named))
    | inr other ↦ rw other refl
  ]

  max-Agree :
      (ms : Members) (o : Option Bytes)
      → text_member name_key ms ≡ some name
      → Agree (check_max r from amount ms o) (debit_max r d from to amount ms o)
  unfolding check_max debit_max
  max-Agree ms none named = refl
  max-Agree ms (some max) named = elim (Bool-cases (atoll max == 1)) [
    | inl single ↦ rw single (owner-Agree ms (text_member (codes "owner") ms) named)
    | inr many ↦ rw many (balance-Agree ms false (text_member (codes "bal") ms) named)
  ]

  name-Agree :
      (ms : Members) (o : Option Bytes)
      → text_member name_key ms ≡ o
      → Agree (check_name r from name amount ms o) (debit_name r d from to name amount ms o)
  unfolding check_name debit_name
  name-Agree ms none named = refl
  name-Agree ms (some tname) named = elim (Bool-cases (eqb tname name)) [
    | inl same ↦ rw same (
        max-Agree ms (text_member (codes "max") ms) (named ∙ ap some ((eqb_iff tname name).0 same)))
    | inr other ↦ rw other (ms, tname, refl, named, other)
  ]

  token-Agree :
      (v : Value) → Agree (check_token r from name amount v) (debit_token r d from to name amount v)
  unfolding check_token debit_token
  token-Agree v = branch (object v) (λ ms. name-Agree ms (text_member name_key ms) refl)
    where
      branch :
          (o : Option Members)
          → ((ms : Members)
              → Agree
                  (check_name r from name amount ms (text_member name_key ms))
                  (debit_name r d from to name amount ms (text_member name_key ms)))
          → Agree
              (elim o [
                | none ↦ check_error (neg 55) (codes "E32268 sender not object")
                | some ms ↦ check_name r from name amount ms (text_member name_key ms)
              ])
              (elim o [
                | none ↦ debit_error (neg 70)
                | some ms ↦ debit_name r d from to name amount ms (text_member name_key ms)
              ])
      branch none k = refl
      branch (some ms) k = k ms

  -- The deduction succeeds, and the token can be copied from the new list.
  abbrev pub Covers : Deducted → Type 0
  Covers (deduct_error rc) = ⊥
  Covers (deducted vs has nft) =
      (has ≡ true)
      × ((todom : Values) → (todom1 : Values) × (copy_token r d name amount todom vs ≡ some todom1))

  copy_token-other :
      (ms : Members) (tname : Bytes) (todom vs : Values)
      → text_member name_key ms ≡ some tname
      → eqb tname name ≡ false
      → copy_token r d name amount todom (value (obj ms) vs) ≡ copy_token r d name amount todom vs
  unfolding copy_token
  copy_token-other ms tname todom vs named other = rw (copy_token, named, other) refl

  Covers-in_front :
      (ms : Members) (tname : Bytes) (x : Deducted)
      → text_member name_key ms ≡ some tname
      → eqb tname name ≡ false
      → Covers x
      → Covers (in_front r d ms x)
  Covers-in_front ms tname (deduct_error rc) named other h = h
  Covers-in_front ms tname (deducted vs has nft) named other h = (
    h.0,
    λ todom. ((h.1 todom).0, copy_token-other ms tname todom vs named other ∙ (h.1 todom).1),
  )

  copy_token-found :
      (ms : Members) (todom vs : Values)
      → text_member name_key ms ≡ some name
      → (todom1 : Values) × (copy_token r d name amount todom (value (obj ms) vs) ≡ some todom1)
  unfolding copy_token
  copy_token-found ms todom vs named = (
    push_object r d todom (copy_members r d amount ms),
    rw (copy_token, named, eqb_refl name) refl,
  )

  -- What the loop of the check finds, against the loop of the debit.
  abbrev pub Both : Option (ℤ × Bytes) → Deducted → Type 0
  Both (some error) x = is_negative error.0 ≡ true
  Both none x = Covers x

  Both-in_front :
      (ms : Members) (tname : Bytes) (o : Option (ℤ × Bytes)) (x : Deducted)
      → text_member name_key ms ≡ some tname
      → eqb tname name ≡ false
      → Both o x
      → Both o (in_front r d ms x)
  Both-in_front ms tname none x named other h = Covers-in_front ms tname x named other h
  Both-in_front ms tname (some error) x named other h = h

  pub tokens-Both :
      (vs : Values) (nft : Bool)
      → Both (check_tokens r from name amount vs) (deduct r d from to name amount nft vs)
  unfolding check_tokens deduct
  tokens-Both no_values nft = refl
  tokens-Both (value v vs) nft =
      step (check_token r from name amount v) (debit_token r d from to name amount v)
        (token-Agree v) (λ more. tokens-Both vs more)
    where
      step :
          (k : Checked) (x : Debit)
          → Agree k x
          → ((more : Bool)
              → Both (check_tokens r from name amount vs) (deduct r d from to name amount more vs))
          → Both
              (elim k [
                | check_error rc err ↦ some (rc, err)
                | check_other ↦ check_tokens r from name amount vs
                | check_pays ↦ none
              ])
              (elim x [
                | debit_error rc ↦ deduct_error rc
                | debit_pass ms more ↦
                    in_front r d ms (deduct r d from to name amount (nft || more) vs)
                | debit_done ms more ↦ deducted (value (obj ms) vs) true (nft || more)
              ])
      step (check_error rc err) x h later = h
      step check_other x (ms, tname, passes, named, other) later =
          rw passes (Both-in_front ms tname _ _ named other (later (nft || false)))
      step check_pays x (ms, flag, pays, named) later =
          rw pays (refl, λ todom. copy_token-found ms todom vs named)
