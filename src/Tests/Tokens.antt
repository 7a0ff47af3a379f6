-- ===== src/Tests/Tokens.antt =====
-- The theorems on transfers of tokens at a request for five of fifty tokens.
use omicro.Base.{◌≡◌, refl, true, false, [], ◌∷◌, codes, c_str, eqb, some}
use omicro.Base.Int.{pos, is_negative}
use omicro.Base.Decimal.{read_digits}
use omicro.Json.{Value, obj, arr, no_values, value, strings, find_member, get_string}
use omicro.Tokens.Deduct.{text_member}
use omicro.Tokens.Transfer.{modify_tokens}
use omicro.Tokens.Check.{check_valid_tokens}
use omicro.Tokens.Texts.{modify_tokens-check_valid_tokens, runs_through}
use omicro.Blocks.{safe_read}
use omicro.Tests.World.{json, whole, doubles, read_members}

abbrev request : Value
request = obj (strings ((codes "name", codes "t") ∷ (codes "amount", codes "5") ∷ []))

abbrev requests : Value
requests = arr (value request no_values)

abbrev tokens : Value
tokens = arr (
    value
      (obj (
        strings
          ((codes "name", codes "t") ∷ (codes "max", codes "99") ∷ (codes "bal", codes "50") ∷ [])))
      no_values)

requests_text : json.parse (json.write requests) ≡ some requests
unfolding strings read_members safe_read
requests_text = refl

accepted :
    is_negative
      (check_valid_tokens json whole (codes "ann") (json.write requests) (json.write tokens) []).0
    ≡ false
unfolding strings read_members safe_read check_valid_tokens omicro.Tokens.Check.check_items
    omicro.Tokens.Check.read_wanted find_member get_string text_member eqb c_str
    omicro.Tokens.Check.check_tokens omicro.Accounts.atoll read_digits
accepted = refl

tokens_text : json.parse (json.write tokens) ≡ some tokens
unfolding strings read_members safe_read
tokens_text = refl

through : runs_through request tokens (arr no_values) ≡ true
unfolding strings find_member text_member get_string omicro.Accounts.atoll read_digits eqb c_str
through = refl

modify_tokens-check_valid_tokens_example :
    (modify_tokens json whole doubles
      (codes "ann")
      (codes "bob")
      (json.write requests)
      (json.write tokens)
      []).0
    ≡ pos 0
modify_tokens-check_valid_tokens_example =
    modify_tokens-check_valid_tokens json whole doubles (codes "ann") (codes "bob") (λ a b h. refl)
      (json.write requests) (json.write tokens) [] requests request tokens (arr no_values)
      requests_text refl tokens_text refl through accepted
