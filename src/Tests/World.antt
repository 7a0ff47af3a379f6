-- ===== src/Tests/World.antt =====
-- A store, a JSON library and a disk for the tests of src/blockmgr.cc.
use omicro.Base.{
  ℕ, zero, suc, ◌+◌, ◌≤◌, ◌≡◌, ◌≢◌, refl, ap, Bool, true, false, ◌&&◌, ◌||◌, List, [], ◌∷◌, ◌++◌,
  arith, if◌then◌else◌, Bytes, codes, eqb, eqb_iff, eqb_refl, Bool-cases, inl, inr, get_or, length,
  length-append, Option, none, some,
}
use omicro.Json.{arr, value, no_values, Json, Value, Members, str, obj, no_members, member, strings}
use omicro.Trxn.{Reals}
use omicro.Accounts.{Doubles}
use omicro.Base.Decimal.{to_string, read_digits}
use omicro.Blocks.{Disk, safe_read}
use omicro.Blocks.Storing.{safe_read-append}
use omicro.BlockMgr.{Cabinet, System}

-- Whole amounts.
abbrev pub whole : Reals
whole = record {
  Real = ℕ;
  zero_real = 0;
  smallest = 0;
  atof = read_digits 0;
  minus = λ a b. a;
  lt_real = λ a b. false;
  le_real = λ a b. false;
}

abbrev pub doubles : Doubles whole
doubles = record { plus = λ a b. a + b; fabs = λ a. a; print_6g = to_string }

-- A handle is the path of its file.
pub record Files : Type 0 where
  pub records : Bytes → Bytes → Option Bytes
  pub created : Bytes → Bool

abbrev pub put_at :
    (Bytes → Bytes → Option Bytes) → Bytes → Bytes → Bytes → Bytes → Bytes → Option Bytes
put_at records h k v g j = if eqb h g && eqb k j then some v else records g j

pub put_at_same :
    (records : Bytes → Bytes → Option Bytes) (h k v : Bytes) → put_at records h k v h k ≡ some v
put_at_same records h k v = rw (eqb_refl h, eqb_refl k) refl

pub put_at_other :
    (records : Bytes → Bytes → Option Bytes) (h g k j v : Bytes)
    → j ≢ k
    → put_at records h k v g j ≡ records g j
put_at_other records h g k j v distinct = elim (Bool-cases (eqb k j)) [
  | inl same ↦ let equal : k ≡ j = (eqb_iff k j).0 same in absurd (distinct (rw equal refl))
  | inr other ↦
      rw other (elim (Bool-cases (eqb h g)) [ inl here ↦ rw here refl | inr there ↦ rw there refl ])
]

abbrev pub cabinet : Cabinet
cabinet = record {
  Db = Files;
  Handle = Bytes;
  open_file = λ db path. (record db { created = λ p. eqb path p || db.created p }, path);
  is_open = λ db h. true;
  get_record = λ db h k. db.records h k;
  put_record = λ db h k v. record db { records = put_at db.records h k v };
  close_file = λ db h. db;
  has_file = λ db path. db.created path;
  get-put = λ db h k v opened. put_at_same db.records h k v;
  get-put_other = λ db h g k j v distinct. put_at_other db.records h g k j v distinct;
  is_open-put = λ db h g k v. refl;
  is_open-get = λ db h k v found. refl;
  is_open-open = λ db path g opened. refl;
  has_file-open = λ db path opened. ap (λ b. b || db.created path) (eqb_refl path);
  has_file-close = λ db h path. refl;
  has_file-put = λ db h k v path. refl;
}

abbrev pub raw : Value → Bytes
raw (str s) = s
raw v = []

-- Every string behind its length.
abbrev pub write_members : Members → Bytes
write_members no_members = []
write_members (member key v ms) =
    length key ∷ (key ++ (length (raw v) ∷ (raw v ++ write_members ms)))

abbrev pub member_front : Bytes → Bytes → Option Members → Option Members
member_front key val none = none
member_front key val (some ms) = some (member key (str val) ms)

unfoldable pub read_members : ℕ → Bytes → Option Members
unfolding safe_read
read_members fuel [] = some no_members
read_members zero (n ∷ s) = none
read_members (suc fuel) (n ∷ s) = elim (safe_read n s) [
  | none ↦ none
  | some (key, []) ↦ none
  | some (key, m ∷ s1) ↦ elim (safe_read m s1) [
    | none ↦ none
    | some (val, rest) ↦ member_front key val (read_members fuel rest)
  ]
]

pub read_members-write_members :
    (fuel : ℕ) (vec : List (Bytes × Bytes))
    → length vec ≤ fuel
    → read_members fuel (write_members (strings vec)) ≡ some (strings vec)
unfolding read_members strings
read_members-write_members fuel [] h = refl
read_members-write_members zero ((key, val) ∷ vec) h = absurd (omega (arith, h))
read_members-write_members (suc fuel) ((key, val) ∷ vec) h =
    rw
      (
        read_members,
        safe_read-append key (length val ∷ (val ++ write_members (strings vec))),
        safe_read-append val (write_members (strings vec)),
        read_members-write_members fuel vec (omega (arith, h)),
      )
      refl

pub length-write_members :
    (vec : List (Bytes × Bytes)) → length vec ≤ length (write_members (strings vec))
unfolding strings
length-write_members [] = omega arith
length-write_members ((key, val) ∷ vec) = omega (
  arith,
  length-write_members vec,
  length-append key (length val ∷ (val ++ write_members (strings vec))),
  length-append val (write_members (strings vec)),
)

abbrev pub object_of : Option Members → Option Value
object_of none = none
object_of (some ms) = some (obj ms)

-- An array of one object.
abbrev pub array_of : Option Members → Option Value
array_of none = none
array_of (some ms) = some (arr (value (obj ms) no_values))

-- The first byte tells an object from an array of one object; nothing else is written.
abbrev pub write_value : Value → Bytes
write_value (obj ms) = 0 ∷ write_members ms
write_value (arr (value (obj ms) no_values)) = 1 ∷ write_members ms
write_value v = []

abbrev pub parse_value : Bytes → Option Value
parse_value [] = none
parse_value (zero ∷ s) = object_of (read_members (length s) s)
parse_value (suc n ∷ s) = array_of (read_members (length s) s)

abbrev pub json : Json
json = record {
  parse = parse_value;
  write = write_value;
  print_double = λ bits. [];
  parse-write = λ vec. ap object_of (
      read_members-write_members (length (write_members (strings vec))) vec
        (length-write_members vec));
}

-- A disk on which every file can be opened, with two hash values.
abbrev pub disk : Disk
disk = record {
  xxh64 = λ userid seed. get_or userid 0 0;
  yyyymmddhh = λ timestamp. codes "2024/01/01/00";
  openable = λ path. true;
}

abbrev pub system : System whole
system = record {
  json = json;
  doubles = doubles;
  disk = disk;
  data_dir = codes "d";
  srv_port = codes "10.0.0.1:80";
}
