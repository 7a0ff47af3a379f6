-- ===== src/Base/Decimal.antt =====
-- Decimal numbers: `std::to_string` and `%ld` of a number that is not negative, and the digits that
-- `atoi` and `atol` read.
use native.Mathlib.Nat.{pow-suc}
use Prim.Native.Nat.{ℕ, zero, suc, ◌+◌, ◌-◌, ◌*◌, ◌/◌, ◌%◌, ◌^◌, ◌≤◌, ◌<◌}
use mathlib.Core.Path.{◌≡◌, refl, ◌∙◌}
use mathlib.Core.Logic.{inl, inr}
use mathlib.Core.Bool.{Bool, true, false, ◌&&◌}
use mathlib.Core.List.{[], ◌∷◌, ◌++◌}
use native.Mathlib.Omega.{arith}
use omicro.Base.Tests.{ltb, leb, if◌then◌else◌, Bool-cases}
use omicro.Base.Text.{Bytes}
use omicro.Base.Lists.{All, All-append, length, length-append}

abbrev pub is_digit : ℕ → Bool
is_digit c = leb b'0' c && leb c b'9'

-- Digits up to another byte.
unfoldable pub read_digits : ℕ → Bytes → ℕ
read_digits acc [] = acc
read_digits acc (c ∷ s) = if is_digit c then read_digits (acc * 10 + (c - b'0')) s else acc

-- At most that many digits, which loses the leading ones of a longer number.
unfoldable pub print_digits : ℕ → ℕ → Bytes
print_digits zero n = []
print_digits (suc w) n =
    let rest = print_digits w (n / 10) in
    if ltb n 10 then (b'0' + n) ∷ [] else rest ++ (b'0' + n % 10) ∷ []

-- `long` and `unsigned long` have at most 20 digits.
unfoldable pub to_string : ℕ → Bytes
to_string n = print_digits 20 n

pub read_digits-append :
    (acc d : ℕ) (s : Bytes)
    → All (λ c. is_digit c ≡ true) s
    → d < 10
    → read_digits acc (s ++ (b'0' + d) ∷ []) ≡ read_digits acc s * 10 + d
unfolding read_digits
read_digits-append acc d [] h lt = ground arith
read_digits-append acc d (c ∷ s) h lt =
    ground (arith, h.0, read_digits-append (acc * 10 + (c - b'0')) d s h.1 lt)

print_digits-digits : (w n : ℕ) → All (λ c. is_digit c ≡ true) (print_digits w n)
unfolding print_digits
print_digits-digits zero n = tt
print_digits-digits (suc w) n = elim (Bool-cases (ltb n 10)) [
  | inl small ↦ rw small (ground arith, tt)
  | inr large ↦ rw large (
      All-append (λ c. is_digit c ≡ true) (print_digits w (n / 10)) ((b'0' + n % 10) ∷ [])
        (print_digits-digits w (n / 10)) (ground arith, tt))
]

read_digits-print_digits : (w n : ℕ) → n < 10 ^ w → read_digits 0 (print_digits w n) ≡ n
unfolding print_digits
read_digits-print_digits zero n h = unfold read_digits in omega arith
read_digits-print_digits (suc w) n h = elim (Bool-cases (ltb n 10)) [
  | inl small ↦ rw small (unfold read_digits in ground arith)
  | inr large ↦ rw large (
      read_digits-append 0 (n % 10) (print_digits w (n / 10)) (print_digits-digits w (n / 10))
        (omega arith)
      ∙ ground (arith, read_digits-print_digits w (n / 10), pow-suc 10 w))
]

-- A number below 10 ^ k has at most k digits.
length-print_digits : (w k n : ℕ) → n < 10 ^ suc k → length (print_digits w n) ≤ suc k
unfolding print_digits
length-print_digits zero k n h = omega arith
length-print_digits (suc w) zero n h = ground (arith, pow-suc 10 0)
length-print_digits (suc w) (suc k) n h = ground (
  arith,
  length-print_digits w k (n / 10),
  length-append (print_digits w (n / 10)) ((b'0' + n % 10) ∷ []),
  pow-suc 10 (suc k),
)

pub to_string-digits : (n : ℕ) → All (λ c. is_digit c ≡ true) (to_string n)
unfolding to_string
to_string-digits n = print_digits-digits 20 n

pub read_digits-to_string : (n : ℕ) → n < 10 ^ 20 → read_digits 0 (to_string n) ≡ n
unfolding to_string
read_digits-to_string n h = read_digits-print_digits 20 n h

pub length-to_string : (k n : ℕ) → n < 10 ^ suc k → length (to_string n) ≤ suc k
unfolding to_string
length-to_string k n h = length-print_digits 20 k n h

pub to_string_cons : (n : ℕ) → (d : ℕ) × (ds : Bytes) × (to_string n ≡ d ∷ ds)
unfolding to_string print_digits
to_string_cons n = nonempty (print_digits 19 (n / 10)) (ltb n 10)
  where
    nonempty :
        (rest : Bytes) (b : Bool)
        → (d : ℕ) × (ds : Bytes) × ((if b then (b'0' + n) ∷ [] else rest ++ (b'0' + n % 10) ∷ [])
            ≡ d ∷ ds)
    nonempty rest true = (_, [], refl)
    nonempty [] false = (_, [], refl)
    nonempty (d ∷ ds) false = (d, _, refl)
