-- ===== src/Base/Text.antt =====
-- `std::string` and `char *` as lists of bytes.
use Prim.Native.Char.{code}
use Prim.Native.Nat.{ℕ}
use Prim.Native.String.{String}
use mathlib.Core.Path.{◌≡◌, ◌∙◌, sym, refl}
use mathlib.Core.Logic.{◌↔◌, ◌≢◌}
use mathlib.Core.Bool.{Bool, true, false, ◌&&◌}
use mathlib.Core.List.{List, [], ◌∷◌, ◌++◌}
use native.Mathlib.Omega.{arith}
use omicro.Base.Tests.{◌==◌, if◌then◌else◌}

abbrev pub Bytes : Type 0
Bytes = List ℕ

-- The bytes of an ASCII literal.
abbrev pub codes : String → Bytes
codes String.[] = []
codes (String.◌∷◌ c s) = code c ∷ codes s

unfoldable pub eqb : Bytes → Bytes → Bool
eqb [] [] = true
eqb [] (y ∷ ys) = false
eqb (x ∷ xs) [] = false
eqb (x ∷ xs) (y ∷ ys) = (x == y) && eqb xs ys

eqb→eq : (xs ys : Bytes) → eqb xs ys ≡ true → xs ≡ ys
unfolding eqb
eqb→eq [] [] h = refl
eqb→eq [] (y ∷ ys) h = cc
eqb→eq (x ∷ xs) [] h = cc
eqb→eq (x ∷ xs) (y ∷ ys) h = ground (arith, eqb→eq xs ys)

pub eqb_refl : (xs : Bytes) → eqb xs xs ≡ true
unfolding eqb
eqb_refl [] = refl
eqb_refl (x ∷ xs) = ground (arith, eqb_refl xs)

pub eqb_iff : (xs ys : Bytes) → (eqb xs ys ≡ true) ↔ (xs ≡ ys)
eqb_iff xs ys = (eqb→eq xs ys, λ e. rw e (eqb_refl ys))

pub eqb-false : (xs ys : Bytes) → eqb xs ys ≡ false → xs ≢ ys
eqb-false xs ys h e = let both : true ≡ false = sym ((eqb_iff xs ys).1 e) ∙ h in cc

-- A string as `c_str` shows it to a reader that stops at the NUL byte.
unfoldable pub c_str : Bytes → Bytes
c_str [] = []
c_str (c ∷ cs) = if c == 0 then [] else c ∷ c_str cs

-- No byte of the string is `c`.
abbrev pub Free : ℕ → Bytes → Type 0
Free c [] = Unit {0}
Free c (x ∷ xs) = (x ≢ c) × Free c xs

pub Free-append : (c : ℕ) (xs ys : Bytes) → Free c xs → Free c ys → Free c (xs ++ ys)
Free-append c [] ys h k = k
Free-append c (x ∷ xs) ys h k = (h.0, Free-append c xs ys h.1 k)

pub c_str-Free : (xs : Bytes) → Free 0 xs → c_str xs ≡ xs
unfolding c_str
c_str-Free [] h = refl
c_str-Free (x ∷ xs) h = ground (arith, c_str-Free xs h.1)

pub Free-c_str : (xs : Bytes) → Free 0 (c_str xs)
unfolding c_str
Free-c_str [] = tt
Free-c_str (x ∷ xs) = ground (arith, Free-c_str xs)
