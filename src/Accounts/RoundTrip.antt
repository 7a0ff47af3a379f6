-- ===== src/Accounts/RoundTrip.antt =====
-- src/omaccount.cc: an account is read back from its JSON text.
use omicro.Base.{◌≡◌, refl, List, [], ◌∷◌, Bytes, codes, c_str, c_str-Free, Free, arith, some}
use omicro.Json.{
  Json, c_strings, c_strings-Free, parse-write_strings, strings, get_text, find_member, text_of,
}
use omicro.Accounts.{Account, of_json, to_json, pairs}

-- No field has a NUL byte.
pub record IsClean (acct : Account) : Type 0 where
  pub accttype_Free : Free 0 acct.accttype
  pub balance_Free : Free 0 acct.balance
  pub tokentype_Free : Free 0 acct.tokentype
  pub pubkey_Free : Free 0 acct.pubkey
  pub keytype_Free : Free 0 acct.keytype
  pub out_Free : Free 0 acct.out
  pub in_Free : Free 0 acct.in_
  pub tokens_Free : Free 0 acct.tokens

c_strings-pairs : (acct : Account) → IsClean acct → c_strings (pairs acct) ≡ pairs acct
c_strings-pairs acct h = c_strings-Free (pairs acct) (
  ((omega arith, tt), h.accttype_Free),
  (
    ((omega arith, tt), h.balance_Free),
    (
      ((omega arith, tt), h.tokentype_Free),
      (
        ((omega arith, tt), h.pubkey_Free),
        (
          ((omega arith, tt), h.keytype_Free),
          (
            ((omega arith, tt), h.out_Free),
            (((omega arith, tt), h.in_Free), (((omega arith, tt), h.tokens_Free), tt)),
          ),
        ),
      ),
    ),
  ),
)

-- An account whose fields have no NUL byte is read back whole from the JSON text that is written for
-- it.
pub of_json-to_json :
    (json : Json) (acct : Account) → IsClean acct → of_json json (to_json json acct) ≡ acct
unfolding of_json to_json get_text find_member text_of strings omicro.Base.eqb
of_json-to_json json acct h = rw (
  parse-write_strings json (pairs acct) (c_strings-pairs acct h),
  c_str-Free acct.accttype h.accttype_Free,
  c_str-Free acct.balance h.balance_Free,
  c_str-Free acct.tokentype h.tokentype_Free,
  c_str-Free acct.pubkey h.pubkey_Free,
  c_str-Free acct.keytype h.keytype_Free,
  c_str-Free acct.out h.out_Free,
  c_str-Free acct.in_ h.in_Free,
  c_str-Free acct.tokens h.tokens_Free,
)
