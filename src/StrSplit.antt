-- ===== src/StrSplit.antt =====
-- src/omstrsplit.h and src/omstrsplit.cc. The text is read as a C string, up to its NUL byte; a
-- pointer into it is the suffix that it points at, and `*p == '\0'` is the empty suffix. `list_` and
-- `length_` are one list, empty for a null `list_`; `start_` may fall below zero. Printing and the
-- raw pointer `pdata_` are left out.
pub mod Split
pub mod Regions
use omicro.Base.{
  ℕ, zero, suc, ◌+◌, ◌-◌, Bool, true, false, List, [], ◌∷◌, ◌==◌, ltb, leb, if◌then◌else◌, Bytes,
  eqb, c_str, length, get_or, replicate,
}
use omicro.Base.Int.{ℤ, pos, negsuc, ◌+ℤ◌, ltb_ℤ}

pub record StrSplit : Type 0 where
  pub list : List Bytes
  pub sep : ℕ
  pub start : ℤ

-- `while (*p == sep_) ++p;`
skip : ℕ → Bytes → Bytes
skip sep [] = []
skip sep (c ∷ p) = if c == sep then skip sep p else c ∷ p

-- The counting loop. Where regions are ignored it eats a run of separators, stops at the end of the
-- text, and otherwise counts a token and steps over the byte behind the run: `in_run` says that
-- the scan stands inside such a run.
count_plain : ℕ → Bytes → ℕ → ℕ
count_plain sep [] tokens = tokens
count_plain sep (c ∷ p) tokens = count_plain sep p (if c == sep then tokens + 1 else tokens)

count_regions : ℕ → Bool → Bytes → ℕ → ℕ
count_regions sep in_run [] tokens = tokens
count_regions sep true (c ∷ p) tokens =
    count_regions sep (c == sep) p (if c == sep then tokens else tokens + 1)
count_regions sep false (c ∷ p) tokens = count_regions sep (c == sep) p tokens

-- `for (end = start; *end != sep_ && *end != '\0'; end++)`: the bytes passed, and `end`.
token : ℕ → Bytes → Bytes
token sep [] = []
token sep (c ∷ p) = if c == sep then [] else c ∷ token sep p

behind : ℕ → Bytes → Bytes
behind sep [] = []
behind sep (c ∷ p) = if c == sep then c ∷ p else behind sep p

-- The filling loop over the entries left; a break at the end of the text leaves the rest empty.
fill : ℕ → Bool → ℕ → Bytes → List Bytes
unfolding skip token behind
fill sep ignoreregion zero start = []
fill sep ignoreregion (suc n) start = elim (behind sep start) [
  | [] ↦ token sep start ∷ replicate n []
  | c ∷ end ↦ token sep start ∷ fill sep ignoreregion n (if ignoreregion then skip sep end else end)
]

split_text : Bytes → ℕ → Bool → List Bytes
unfolding count_plain count_regions fill
split_text [] sep ignoreregion = []
split_text (c ∷ str) sep false = fill sep false (count_plain sep (c ∷ str) 1) (c ∷ str)
split_text (c ∷ str) sep true =
    let p = skip sep (c ∷ str) in fill sep true (count_regions sep false p 1) p

-- The constructors from a string, and `init` on a fresh object.
unfoldable pub init : Bytes → ℕ → Bool → StrSplit
unfolding split_text c_str
init str sep ignoreregion = record {
  list = split_text (c_str str) sep ignoreregion;
  sep = sep;
  start = pos 0;
}

-- `operator[]`; the test `i < length_ - start_` with `start_` moved to its left side.
unfoldable pub index : StrSplit → ℤ → Bytes
unfolding ◌+ℤ◌
index sp i = elim (i +ℤ sp.start) [
  | negsuc n ↦ []
  | pos k ↦ if ltb k (length sp.list) then get_or sp.list k [] else []
]

-- `length()`, `size()` and `slength()`: `length_ - start_`, as an integer.
unfoldable pub size : StrSplit → ℤ
size sp = elim sp.start [
  | pos n ↦
      if leb n (length sp.list) then pos (length sp.list - n) else negsuc (n - length sp.list - 1)
  | negsuc n ↦ pos (length sp.list + suc n)
]

exists_in : Bytes → List Bytes → Bool
exists_in t [] = false
exists_in t (x ∷ xs) = if eqb (c_str t) (c_str x) then true else exists_in t xs

unfoldable pub exists : StrSplit → Bytes → Bool
unfolding exists_in
exists sp t = exists_in t sp.list

-- `start_ <= length_ - 2` and `start_ <= 1`, on integers.
unfoldable pub shift : StrSplit → StrSplit
unfolding ◌+ℤ◌
shift sp =
    if ltb_ℤ (sp.start +ℤ pos 1) (pos (length sp.list))
    then record sp { start = sp.start +ℤ pos 1 }
    else sp

unfoldable pub back : StrSplit → StrSplit
unfolding ◌+ℤ◌
back sp = if ltb_ℤ sp.start (pos 2) then record sp { start = sp.start +ℤ negsuc 0 } else sp
