-- ===== src/Tokens/Deduct.antt =====
-- src/blockmgr.cc: the first half of `modifyTokens`: an element of a request is read, and the sender's
-- token pays. The list is changed in place; where the source returns an error the changed list is
-- dropped, so the model keeps none.
use omicro.Base.{
  ℕ, Bool, true, false, ◌||◌, ◌==◌, ltb, if◌then◌else◌, Bytes, codes, eqb, length, Option, none,
  some,
}
use omicro.Base.Int.{ℤ, neg}
use omicro.Json.{
  Value, Values, Members, str, obj, no_values, value, object, find_member, set_string, get_string,
}
use omicro.Trxn.{Reals}
use omicro.Accounts.{Doubles, atoll}

abbrev pub om_token_max_len : ℕ
om_token_max_len = 128

abbrev pub om_num_maxsz : ℕ
om_num_maxsz = 20

-- A string member, if the object has the member.
unfoldable pub text_member : Bytes → Members → Option Bytes
unfolding find_member get_string
text_member key ms = elim (find_member key ms) [ none ↦ none | some v ↦ some (get_string v) ]

abbrev pub string_of : Value → Option Bytes
string_of (str s) = some (get_string (str s))
string_of v = none

-- One element of a request: an error, an element that is skipped, or a name and an amount.
pub data Item : Type 0 where
  item_error : ℤ → Item
  item_skipped : Item
  item : Bytes → Bytes → Item

-- One token of the sender: an error, another token (changed or not), or the token that pays. The
-- flag says that the token is an NFT, whose maximum is 1.
pub data Debit : Type 0 where
  debit_error : ℤ → Debit
  debit_pass : Members → Bool → Debit
  debit_done : Members → Bool → Debit

-- The loop over the sender's tokens: an error code, or the new list, `fromHasToken` and `isNFT`.
pub data Deducted : Type 0 where
  deduct_error : ℤ → Deducted
  deducted : Values → Bool → Bool → Deducted

module _ (r : Reals) (d : Doubles r) where
  abbrev pub not_positive : Bytes → Bool
  not_positive amt = r.le_real (r.atof amt) r.zero_real

  unfoldable pub item_amount : Bytes → Option Bytes → Item
  item_amount name none = item_error (neg 46)
  item_amount name (some amt) =
      if ltb om_num_maxsz (length amt)
      then item_skipped
      else if not_positive amt
      then item_error (neg 45)
      else item name amt

  unfoldable pub item_name : Members → Option Bytes → Item
  unfolding item_amount find_member
  item_name ms none = item_error (neg 42)
  item_name ms (some name) =
      if ltb om_token_max_len (length name)
      then item_error (neg 44)
      else elim (find_member (codes "amount") ms) [
        | none ↦ item name (codes "1")
        | some v ↦ item_amount name (string_of v)
      ]

  -- One turn of the loop over the request, up to the amount.
  unfoldable pub read_item : Value → Item
  unfolding item_name text_member
  read_item rv = elim (object rv) [
    | none ↦ item_error (neg 41)
    | some ms ↦ item_name ms (text_member (codes "name") ms)
  ]

  unfoldable pub debit_balance : Bytes → Members → Bool → Option Bytes → Debit
  unfolding set_string
  debit_balance amount ms nft none = debit_pass ms nft
  debit_balance amount ms nft (some bal) =
      let damt = r.minus (r.atof bal) (r.atof amount) in
      if r.lt_real damt r.zero_real
      then debit_error (neg 50)
      else debit_done (set_string (codes "bal") (d.print_6g damt) ms) nft

  unfoldable pub debit_owner : Bytes → Bytes → Bytes → Members → Option Bytes → Debit
  unfolding debit_balance set_string text_member
  debit_owner from to amount ms none = debit_error (neg 81)
  debit_owner from to amount ms (some towner) =
      let ms1 = set_string (codes "owner") to ms in
      if eqb from towner
      then debit_balance amount ms1 true (text_member (codes "bal") ms1)
      else debit_error (neg 81)

  unfoldable pub debit_max : Bytes → Bytes → Bytes → Members → Option Bytes → Debit
  unfolding debit_owner debit_balance text_member atoll
  debit_max from to amount ms none = debit_error (neg 70)
  debit_max from to amount ms (some max) =
      if atoll max == 1
      then debit_owner from to amount ms (text_member (codes "owner") ms)
      else debit_balance amount ms false (text_member (codes "bal") ms)

  unfoldable pub debit_name : Bytes → Bytes → Bytes → Bytes → Members → Option Bytes → Debit
  unfolding debit_max text_member
  debit_name from to name amount ms none = debit_error (neg 70)
  debit_name from to name amount ms (some tname) =
      if eqb tname name
      then debit_max from to amount ms (text_member (codes "max") ms)
      else debit_pass ms false

  unfoldable pub debit_token : Bytes → Bytes → Bytes → Bytes → Value → Debit
  unfolding debit_name text_member
  debit_token from to name amount v = elim (object v) [
    | none ↦ debit_error (neg 70)
    | some ms ↦ debit_name from to name amount ms (text_member (codes "name") ms)
  ]

  -- The loop over the sender's tokens.
  abbrev pub in_front : Members → Deducted → Deducted
  in_front ms (deduct_error rc) = deduct_error rc
  in_front ms (deducted vs has nft) = deducted (value (obj ms) vs) has nft

  unfoldable pub deduct : Bytes → Bytes → Bytes → Bytes → Bool → Values → Deducted
  unfolding debit_token
  deduct from to name amount nft no_values = deducted no_values false nft
  deduct from to name amount nft (value v vs) = elim (debit_token from to name amount v) [
    | debit_error rc ↦ deduct_error rc
    | debit_pass ms more ↦ in_front ms (deduct from to name amount (nft || more) vs)
    | debit_done ms more ↦ deducted (value (obj ms) vs) true (nft || more)
  ]
