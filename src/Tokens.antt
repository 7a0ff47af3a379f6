-- ===== src/Tokens.antt =====
-- src/omtoken.cc: the texts of tokens. A loop with two pointers into the text is a scan over its bytes:
-- the scan's state says which of the source's inner loops it stands in, with what lies between the
-- pointers.

pub mod Deduct
pub mod Transfer
pub mod Check
pub mod Mint
pub mod Agreement
pub mod Validity
pub mod Texts
pub mod Names
pub mod Keys
use omicro.Base.{
  ℕ, ◌+◌, Bool, true, false, not, ◌&&◌, ◌||◌, List, [], ◌∷◌, ◌++◌, ◌==◌, ltb, if◌then◌else◌, Bytes,
  codes, eqb, length, Option, none, some, c_str,
}
use omicro.Json.{Json, Value, Values, obj, arr, no_values, value, strings, c_strings}

unfoldable pub is_blank : ℕ → Bool
is_blank c = (c == b' ') || (c == b'\t')

skip_blanks : Bytes → Bytes
unfolding is_blank
skip_blanks [] = []
skip_blanks (c ∷ p) = if is_blank c then skip_blanks p else c ∷ p

-- Inside a key, behind its colon, inside a value, and behind a value.
pub data PairScan : Type 0 where
  in_key : Bytes → PairScan
  colon : Bytes → PairScan
  in_val : Bytes → Bytes → PairScan
  between : PairScan

-- One byte of the scan: the pairs that it completes and the next state.
pair_step : PairScan → ℕ → List (Bytes × Bytes) × PairScan
unfolding is_blank
pair_step (in_key key) c = ([], if c == b':' then colon key else in_key (key ++ c ∷ []))
pair_step (colon key) c =
    if is_blank c
    then ([], colon key)
    else if c == b','
    then ((key, []) ∷ [], between)
    else ([], in_val key (c ∷ []))
pair_step (in_val key val) c =
    if is_blank c || (c == b',')
    then ((key, val) ∷ [], between)
    else ([], in_val key (val ++ c ∷ []))
pair_step between c = (
  [],
  if is_blank c || (c == b',') then between else if c == b':' then colon [] else in_key (c ∷ []),
)

-- A value that ends the text is a pair; a key or a colon that ends it is not.
pair_end : PairScan → List (Bytes × Bytes)
pair_end (in_key key) = []
pair_end (colon key) = []
pair_end (in_val key val) = (key, val) ∷ []
pair_end between = []

pair_loop : PairScan → Bytes → List (Bytes × Bytes)
unfolding pair_step pair_end
pair_loop st [] = pair_end st
pair_loop st (c ∷ p) = let (now, next) = pair_step st c in now ++ pair_loop next p

unfoldable pub get_kv_pairs : Bytes → List (Bytes × Bytes)
unfolding pair_loop skip_blanks
get_kv_pairs token = pair_loop (in_key []) (skip_blanks (c_str token))

-- Before a key's opening quote, inside the key, and behind it, up to the next comma.
pub data KeyScan : Type 0 where
  before : KeyScan
  inside : Bytes → KeyScan
  past_key : KeyScan

-- One byte of the scan for keys: a key that it completes and the next state.
unfoldable pub key_step : KeyScan → ℕ → Option Bytes × KeyScan
key_step before c = (none, if c == b'"' then inside [] else before)
key_step (inside key) c = if c == b'"' then (some key, past_key) else (none, inside (key ++ c ∷ []))
key_step past_key c = (none, if c == b',' then before else past_key)

abbrev pub add_key : Option Bytes → List Bytes → List Bytes
add_key none set = set
add_key (some key) set = key ∷ set

unfoldable pub key_loop : KeyScan → Bytes → List Bytes
unfolding key_step
key_loop st [] = []
key_loop st (c ∷ p) = let (key, next) = key_step st c in add_key key (key_loop next p)

unfoldable pub is_opening : ℕ → Bool
unfolding is_blank
is_opening c = is_blank c || (c == b'{') || (c == b'[')

unfoldable pub skip_opening : Bytes → Bytes
unfolding is_opening
skip_opening [] = []
skip_opening (c ∷ p) = if is_opening c then skip_opening p else c ∷ p

unfoldable pub get_keys_set : Bytes → List Bytes
unfolding key_loop skip_opening
get_keys_set token = key_loop before (skip_opening (c_str token))

unfoldable pub in_set : Bytes → List Bytes → Bool
in_set key [] = false
in_set key (k ∷ set) = eqb k key || in_set key set

abbrev pub key_found : Option Bytes → List Bytes → Bool
key_found none set = false
key_found (some key) set = in_set key set

-- The scan ends at the first key of the set.
unfoldable pub find_key_loop : KeyScan → Bytes → List Bytes → Bool
unfolding key_step in_set
find_key_loop st [] set = false
find_key_loop st (c ∷ p) set =
    let (key, next) = key_step st c in
    let later = find_key_loop next p set in if key_found key set then true else later

unfoldable pub find_key_in_set : Bytes → List Bytes → Bool
unfolding find_key_loop skip_opening
find_key_in_set token set = find_key_loop before (skip_opening (c_str token)) set

unfoldable pub has_dup_names : Bytes → Bytes → Bool
unfolding find_key_in_set get_keys_set
has_dup_names json1 json2 =
    if ltb (length json1) 1 || ltb (length json2) 1
    then false
    else find_key_in_set json2 (get_keys_set json1)

-- The flags and `maxVal` of `getMintJson`, which are not reset between tokens.
pub record Minting : Type 0 where
  pub has_name : Bool
  pub has_max : Bool
  pub has_bal : Bool
  pub max_val : Bytes

mint_pairs : Minting → List (Bytes × Bytes) → Minting
mint_pairs st [] = st
mint_pairs st ((key, val) ∷ kvs) =
    mint_pairs
      (if eqb key (codes "name")
        then record st { has_name = true }
        else if eqb key (codes "max")
        then record st { has_max = true; max_val = val }
        else if eqb key (codes "bal")
        then record st { has_bal = true }
        else st)
      kvs

token_object : List (Bytes × Bytes) → Value
unfolding c_strings strings
token_object kvs = obj (strings (c_strings kvs))

-- `none` where the source returns with nothing written.
mint_loop : Minting → List Bytes → Option (Values × Minting)
unfolding get_kv_pairs mint_pairs token_object
mint_loop st [] = some (no_values, st)
mint_loop st (s ∷ vec) =
    let kvs = get_kv_pairs s in
    let st1 = mint_pairs st kvs in
    let later = mint_loop st1 vec in
    if ltb 32 (length kvs) then none else if st1.has_bal then none else elim later [
      | none ↦ none
      | some (vs, st2) ↦
          some (value (token_object (kvs ++ (codes "bal", st1.max_val) ∷ [])) vs, st2)
    ]

unfoldable pub get_mint_json : Json → List Bytes → Option Bytes
unfolding mint_loop
get_mint_json json vec =
    if ltb (length vec) 1 || ltb 128 (length vec)
    then none
    else elim (mint_loop
        (record { has_name = false; has_max = false; has_bal = false; max_val = [] }) vec) [
          | none ↦ none
          | some (vs, st) ↦ if st.has_name && st.has_max then some (json.write (arr vs)) else none
        ]

has_key : Bytes → List (Bytes × Bytes) → Bool
has_key name [] = false
has_key name ((key, val) ∷ kvs) = eqb key name || has_key name kvs

xfer_loop : List Bytes → Option Values
unfolding get_kv_pairs has_key token_object
xfer_loop [] = some no_values
xfer_loop (s ∷ vec) =
    let kvs = get_kv_pairs s in
    let later = xfer_loop vec in
    if ltb 4 (length kvs)
    then none
    else if not (has_key (codes "name") kvs)
    then none
    else elim later [ none ↦ none | some vs ↦ some (value (token_object kvs) vs) ]

unfoldable pub get_xfer_json : Json → List Bytes → Option Bytes
unfolding xfer_loop
get_xfer_json json vec =
    if ltb (length vec) 1 || ltb 128 (length vec)
    then none
    else elim (xfer_loop vec) [ none ↦ none | some vs ↦ some (json.write (arr vs)) ]
