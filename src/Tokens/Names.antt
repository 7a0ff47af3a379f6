-- ===== src/Tokens/Names.antt =====
-- src/omtoken.cc: what the test for duplicate tokens compares.
use omicro.Base.{
  ◌≡◌, refl, sym, ltb, Bool-cases, inl, inr, Bool, true, false, ◌||◌, List, [], ◌∷◌, arith,
  if◌then◌else◌, Bytes, length, c_str, Option, none, some,
}
use omicro.Tokens.{
  KeyScan, before, key_step, key_loop, find_key_loop, in_set, add_key, key_found, skip_opening,
  get_keys_set, find_key_in_set, has_dup_names,
}

-- Some element of the list is in the set.
unfoldable pub any_in : List Bytes → List Bytes → Bool
unfolding in_set
any_in [] set = false
any_in (key ∷ keys) set = in_set key set || any_in keys set

add_key-any_in :
    (key : Option Bytes) (keys set : List Bytes) (later : Bool)
    → later ≡ any_in keys set
    → (if key_found key set then true else later) ≡ any_in (add_key key keys) set
unfolding any_in
add_key-any_in none keys set later h = h
add_key-any_in (some key) keys set later h = elim (Bool-cases (in_set key set)) [
  | inl here ↦ rw here refl
  | inr absent ↦ rw absent h
]

any_in-nil : (keys : List Bytes) → any_in keys [] ≡ false
unfolding any_in in_set
any_in-nil [] = refl
any_in-nil (key ∷ keys) = any_in-nil keys

find_key_loop-any_in :
    (st : KeyScan) (p : Bytes) (set : List Bytes)
    → find_key_loop st p set ≡ any_in (key_loop st p) set
unfolding find_key_loop key_loop any_in
find_key_loop-any_in st [] set = refl
find_key_loop-any_in st (c ∷ p) set =
    let (key, next) = key_step st c in
    add_key-any_in key (key_loop next p) set (find_key_loop next p set)
      (find_key_loop-any_in next p set)

-- The test for duplicate names says yes exactly when some text that the scanner collects from the
-- second list is one that it collects from the first.
pub has_dup_names-any_in :
    (json1 json2 : Bytes)
    → has_dup_names json1 json2 ≡ any_in (get_keys_set json2) (get_keys_set json1)
unfolding has_dup_names find_key_in_set get_keys_set skip_opening key_loop c_str any_in
has_dup_names-any_in [] json2 = sym (any_in-nil (get_keys_set json2))
has_dup_names-any_in (c ∷ json1) [] = ground arith
has_dup_names-any_in (c ∷ json1) (d ∷ json2) =
    let full1 : ltb (length (c ∷ json1)) 1 ≡ false = ground arith in
    let full2 : ltb (length (d ∷ json2)) 1 ≡ false = ground arith in
    rw (full1, full2)
      (find_key_loop-any_in before (skip_opening (c_str (d ∷ json2))) (get_keys_set (c ∷ json1)))
