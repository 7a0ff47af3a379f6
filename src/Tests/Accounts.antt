-- ===== src/Tests/Accounts.antt =====
-- The theorems of src/blockmgr.cc, src/omaccount.cc and src/omtoken.cc for two users.
use omicro.Base.{◌≡◌, [], arith, Bytes, codes, some, List, true, ◌∷◌}
use omicro.Accounts.{Account, of_json, to_json}
use omicro.Accounts.RoundTrip.{IsClean, of_json-to_json}
use omicro.Blocks.{read_blocks, Found}
use omicro.Blocks.Reading.{read_blocks_total}
use omicro.Tokens.{has_dup_names}
use omicro.Tokens.Keys.{Member, IsMember, members_text, keys_of, Shared, has_dup_names-Shared}
use omicro.Tests.World.{json}

abbrev pub account : Account
account = record {
  accttype = codes "U";
  balance = codes "100";
  tokentype = codes "O";
  pubkey = codes "k";
  keytype = codes "DL5";
  out = codes "0";
  in_ = codes "0";
  tokens = [];
}

account-IsClean : IsClean account
account-IsClean = record {
  accttype_Free = ground arith;
  balance_Free = ground arith;
  tokentype_Free = ground arith;
  pubkey_Free = ground arith;
  keytype_Free = ground arith;
  out_Free = ground arith;
  in_Free = ground arith;
  tokens_Free = ground arith;
}

of_json-to_json_example : of_json json (to_json json account) ≡ account
of_json-to_json_example = of_json-to_json json account account-IsClean

abbrev no_record : Bytes
no_record = codes "12~x"

read_blocks_total_example : (found : Found) × (read_blocks (codes "1:ann") no_record ≡ some found)
read_blocks_total_example = read_blocks_total (codes "1:ann") no_record

-- Two tokens under the key "name", with different names.
abbrev token_a : List Member
token_a =
    record { lead = codes "[{"; key = codes "name"; behind = codes ": \"a\"" }
    ∷ record { lead = []; key = codes "max"; behind = codes ": \"9\"}]" }
    ∷ []

abbrev token_b : List Member
token_b = record { lead = codes "[{"; key = codes "name"; behind = codes ": \"b\"}]" } ∷ []

name-IsMember :
    IsMember (record { lead = codes "[{"; key = codes "name"; behind = codes ": \"a\"" })
name-IsMember = record {
  lead_free = ground arith;
  key_free = ground arith;
  behind_free = ground arith;
  lead_text = ground arith;
  key_text = ground arith;
  behind_text = ground arith;
}

max-IsMember : IsMember (record { lead = []; key = codes "max"; behind = codes ": \"9\"}]" })
max-IsMember = record {
  lead_free = ground arith;
  key_free = ground arith;
  behind_free = ground arith;
  lead_text = ground arith;
  key_text = ground arith;
  behind_text = ground arith;
}

b-IsMember : IsMember (record { lead = codes "[{"; key = codes "name"; behind = codes ": \"b\"}]" })
b-IsMember = record {
  lead_free = ground arith;
  key_free = ground arith;
  behind_free = ground arith;
  lead_text = ground arith;
  key_text = ground arith;
  behind_text = ground arith;
}

has_dup_names-Shared_example :
    (has_dup_names (members_text token_a) (members_text token_b) ≡ true
      → Shared (keys_of token_b) (keys_of token_a))
    × (Shared (keys_of token_b) (keys_of token_a)
        → has_dup_names (members_text token_a) (members_text token_b) ≡ true)
has_dup_names-Shared_example =
    has_dup_names-Shared token_a token_b (name-IsMember, (max-IsMember, tt)) (b-IsMember, tt)
