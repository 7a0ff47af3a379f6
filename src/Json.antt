-- ===== src/Json.antt =====
-- src/omdom.cc and src/omjson.cc: JSON values, the reading of a member as a string, and the writing of
-- an object of strings. The parser and the writer are rapidjson's, an interface. `GetString`, `Size`
-- and `FindMember` are only defined on strings, arrays and objects; elsewhere the library stops the
-- process, and here there is no string, no element and no member.
use omicro.Base.{
  ℕ, suc, ◌≡◌, ◌∙◌, ap, refl, Bool, List, [], ◌∷◌, if◌then◌else◌, Bytes, codes, eqb, c_str,
  c_str-Free, Free, All, Option, none, some,
}
use omicro.Base.Int.{ℤ, pos, negsuc}
use omicro.Base.Decimal.{to_string}

-- An integer of any of the library's four integer types is `int`; a `double` is its bits.
mutual
  pub data Value : Type 0 where
    null : Value
    bool : Bool → Value
    int : ℤ → Value
    double : ℕ → Value
    str : Bytes → Value
    arr : Values → Value
    obj : Members → Value

  pub data Values : Type 0 where
    no_values : Values
    value : Value → Values → Values

  pub data Members : Type 0 where
    no_members : Members
    member : Bytes → Value → Members → Members

unfoldable pub strings : List (Bytes × Bytes) → Members
strings [] = no_members
strings ((key, val) ∷ vec) = member key (str val) (strings vec)

-- rapidjson: what it writes for an object of strings, it reads. `print_double` is `%.6g`.
pub record Json : Type 0 where
  pub parse : Bytes → Option Value
  pub write : Value → Bytes
  pub print_double : ℕ → Bytes
  pub parse-write :
      (vec : List (Bytes × Bytes)) → parse (write (obj (strings vec))) ≡ some (obj (strings vec))

-- `FindMember`, the first member with that name.
unfoldable pub find_member : Bytes → Members → Option Value
find_member key no_members = none
find_member key (member k v ms) = if eqb k key then some v else find_member key ms

-- `v[key].SetString(text)` for a member that is there.
unfoldable pub set_string : Bytes → Bytes → Members → Members
set_string key text no_members = no_members
set_string key text (member k v ms) =
    let rest = set_string key text ms in
    if eqb k key then member k (str text) ms else member k v rest

unfoldable pub get_string : Value → Bytes
unfolding c_str
get_string null = []
get_string (bool b) = []
get_string (int n) = []
get_string (double d) = []
get_string (str s) = c_str s
get_string (arr vs) = []
get_string (obj ms) = []

-- "%d", "%u", "%ld" and "%lu".
unfoldable pub print_int : ℤ → Bytes
unfolding to_string
print_int (pos n) = to_string n
print_int (negsuc n) = b'-' ∷ to_string (suc n)

unfoldable pub text_of : Json → Value → Bytes
unfolding c_str print_int
text_of json null = []
text_of json (bool b) = []
text_of json (int n) = print_int n
text_of json (double d) = json.print_double d
text_of json (str s) = c_str s
text_of json (arr vs) = []
text_of json (obj ms) = []

abbrev members : Value → Members
members null = no_members
members (bool b) = no_members
members (int n) = no_members
members (double d) = no_members
members (str s) = no_members
members (arr vs) = no_members
members (obj ms) = ms

-- `OmDom::get` on a parsed text, or on none, where `val` stays as it is.
unfoldable pub get_text : Json → Option Value → Bytes → Bytes → Bytes
unfolding find_member text_of
get_text json none key val = val
get_text json (some dom) key val = elim (find_member key (members dom)) [
  | none ↦ []
  | some v ↦ text_of json v
]

-- The pairs of `OmJson::add` as `OmJson::json` writes them.
unfoldable pub c_strings : List (Bytes × Bytes) → List (Bytes × Bytes)
unfolding c_str
c_strings [] = []
c_strings ((key, val) ∷ vec) = (c_str key, c_str val) ∷ c_strings vec

unfoldable pub write_strings : Json → List (Bytes × Bytes) → Bytes
unfolding c_strings strings
write_strings json vec = json.write (obj (strings (c_strings vec)))

abbrev pub elements : Value → Values
elements null = no_values
elements (bool b) = no_values
elements (int n) = no_values
elements (double d) = no_values
elements (str s) = no_values
elements (arr vs) = vs
elements (obj ms) = no_values

-- The members, of an object.
abbrev pub object : Value → Option Members
object null = none
object (bool b) = none
object (int n) = none
object (double d) = none
object (str s) = none
object (arr vs) = none
object (obj ms) = some ms

-- The loop of `OmJson::getObjStr`: the first object with that name, as the library writes it.
get_obj_loop : Json → Bytes → Values → Bytes
unfolding find_member get_string
get_obj_loop json name no_values = []
get_obj_loop json name (value v vs) =
    let later = get_obj_loop json name vs in
    elim (object v) [
      | none ↦ later
      | some ms ↦ elim (find_member (codes "name") ms) [
        | none ↦ later
        | some n ↦ if eqb (get_string n) name then json.write v else later
      ]
    ]

unfoldable pub get_obj_str : Json → Bytes → Bytes → Bytes
unfolding get_obj_loop
get_obj_str json name json_arr = elim (json.parse json_arr) [
  | none ↦ []
  | some dom ↦ get_obj_loop json name (elements dom)
]

unfoldable pub read_string : Json → Bytes → Bytes → Bytes
unfolding get_text
read_string json text key = get_text json (json.parse text) key []

pub c_strings-Free :
    (vec : List (Bytes × Bytes)) → All (λ p. Free 0 p.0 × Free 0 p.1) vec → c_strings vec ≡ vec
unfolding c_strings
c_strings-Free [] h = refl
c_strings-Free ((key, val) ∷ vec) h =
    rw (c_str-Free key h.0.0, c_str-Free val h.0.1, c_strings-Free vec h.1) refl

-- A written object of strings that have no NUL byte is read back.
pub parse-write_strings :
    (json : Json) (vec : List (Bytes × Bytes))
    → c_strings vec ≡ vec
    → json.parse (write_strings json vec) ≡ some (obj (strings vec))
unfolding write_strings
parse-write_strings json vec h =
    ap (λ v. json.parse (json.write (obj (strings v)))) h ∙ json.parse-write vec
