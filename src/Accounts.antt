-- ===== src/Accounts.antt =====
-- src/omaccount.h and src/omaccount.cc: a user's account, kept as a JSON text.
pub mod RoundTrip
use omicro.Base.{
  ℕ, ◌+◌, ◌-◌, ◌%◌, ◌^◌, Bool, ◌&&◌, ◌||◌, List, [], ◌∷◌, ◌==◌, leb, if◌then◌else◌, Bytes, codes,
}
use omicro.Base.Decimal.{to_string, read_digits}
use omicro.Json.{Json, get_text, write_strings}
use omicro.Trxn.{Reals}

pub record Account : Type 0 where
  pub accttype : Bytes
  pub balance : Bytes
  pub tokentype : Bytes
  pub pubkey : Bytes
  pub keytype : Bytes
  pub out : Bytes
  pub in_ : Bytes
  pub tokens : Bytes

abbrev pub om_acct_user : Bytes
om_acct_user = codes "U"

abbrev pub om_acct_contract : Bytes
om_acct_contract = codes "C"

-- Addition, the absolute value and `%.6g`. A constant is `atof` of its text.
pub record Doubles (r : Reals) : Type 0 where
  pub plus : r.Real → r.Real → r.Real
  pub fabs : r.Real → r.Real
  pub print_6g : r.Real → Bytes

-- `OmAccount(recjson)`; the fields of a fresh object are empty.
unfoldable pub of_json : Json → Bytes → Account
unfolding get_text
of_json json rec =
    let od = json.parse rec in
    record {
      accttype = get_text json od (codes "A") [];
      balance = get_text json od (codes "B") [];
      tokentype = get_text json od (codes "T") [];
      pubkey = get_text json od (codes "P") [];
      keytype = get_text json od (codes "K") [];
      out = get_text json od (codes "O") [];
      in_ = get_text json od (codes "I") [];
      tokens = get_text json od (codes "N") [];
    }

abbrev pub pairs : Account → List (Bytes × Bytes)
pairs acct =
    (codes "A", acct.accttype)
    ∷ (codes "B", acct.balance)
    ∷ (codes "T", acct.tokentype)
    ∷ (codes "P", acct.pubkey)
    ∷ (codes "K", acct.keytype)
    ∷ (codes "O", acct.out)
    ∷ (codes "I", acct.in_)
    ∷ (codes "N", acct.tokens)
    ∷ []

unfoldable pub to_json : Json → Account → Bytes
unfolding write_strings
to_json json acct = write_strings json (pairs acct)

-- The account and the balance, or an error code, that the source returns.
unfoldable pub add_balance : (r : Reals) → Doubles r → r.Real → Account → Account × r.Real
add_balance r d amt acct =
    let bal = d.plus (r.atof acct.balance) amt in
    if r.lt_real (r.atof (codes "10000000000")) (d.fabs amt)
    then (acct, r.atof (codes "-15.0"))
    else if r.lt_real bal r.zero_real
    then (acct, r.atof (codes "-20.0"))
    else (record acct { balance = d.print_6g bal }, bal)

unfoldable pub get_balance : (r : Reals) → Account → r.Real
get_balance r acct = r.atof acct.balance

-- `atoll`, up to 2 ^ 63, as an `unsigned long`: white space, a sign, and digits.
is_space : ℕ → Bool
is_space c = (c == 32) || (leb 9 c && leb c 13)

signed : Bytes → ℕ
unfolding read_digits
signed [] = 0
signed (c ∷ s) =
    if c == b'-'
    then (2 ^ 64 - read_digits 0 s % 2 ^ 64) % 2 ^ 64
    else if c == b'+'
    then read_digits 0 s
    else read_digits 0 (c ∷ s)

unfoldable pub atoll : Bytes → ℕ
unfolding signed is_space
atoll [] = 0
atoll (c ∷ s) = if is_space c then atoll s else signed (c ∷ s)

unfoldable pub increment_fence : Account → Account
unfolding atoll to_string
increment_fence acct = record acct { out = to_string ((atoll acct.out + 1) % 2 ^ 64) }

unfoldable pub increment_in : Account → Account
unfolding atoll to_string
increment_in acct = record acct { in_ = to_string ((atoll acct.in_ + 1) % 2 ^ 64) }
