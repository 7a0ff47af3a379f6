-- ===== src/NodeList.antt =====
-- src/nodelist.h and src/nodelist.cc: the list of nodes, one record `pubkey|ip|port` a line. A file
-- is its bytes, read by `fgets` in lines of at most 999; printing is left out.
pub mod Records
use omicro.Base.{
  ℕ, Bool, true, false, ◌&&◌, ◌||◌, ◌-◌, leb, not, Option, none, some, List, [], ◌∷◌, ◌==◌, ltb,
  if◌then◌else◌, Bytes, c_str, length, get_or,
}

-- `strchr(p, c)`: the text before the first `c` and the text behind it.
strchr : ℕ → Bytes → Option (Bytes × Bytes)
strchr c [] = none
strchr c (x ∷ p) =
    if x == c
    then some ([], p)
    else elim (strchr c p) [ none ↦ none | some (before, after) ↦ some (x ∷ before, after) ]

abbrev pub bar : ℕ
bar = b'|'

-- `getData`: what it stores through its references is given where it returns true.
pub record NodeData : Type 0 where
  pub id : Bytes
  pub ip : Bytes
  pub port : Bytes

-- What follows the first bar, and what follows the second.
with_key : Bytes → Option (Bytes × Bytes) → Option NodeData
with_key id none = none
with_key id (some (ip, port)) = some (record { id = id; ip = ip; port = port })

behind_key : Option (Bytes × Bytes) → Option NodeData
unfolding strchr with_key
behind_key none = none
behind_key (some (id, q)) = with_key id (strchr bar q)

of_text : Bytes → Option NodeData
unfolding strchr behind_key
of_text p = behind_key (strchr bar p)

unfoldable pub get_data : Bytes → Option NodeData
unfolding of_text
get_data rec = of_text (c_str rec)

contains : ℕ → Bytes → Bool
contains c [] = false
contains c (x ∷ p) = if x == c then true else contains c p

-- `if (line[len-1] == '\n') line[len-1] = '\0';`
chomp : Bytes → Bytes
chomp [] = []
chomp (c ∷ []) = if c == b'\n' then [] else c ∷ []
chomp (c ∷ d ∷ p) = c ∷ chomp (d ∷ p)

-- The lines that `fgets(line, 1000, fp)` gives, one call after the other: up to a newline, which is
-- kept, or as many bytes as there is room for.
unfoldable pub prepend : ℕ → List Bytes → List Bytes
prepend c [] = (c ∷ []) ∷ []
prepend c (line ∷ lines) = (c ∷ line) ∷ lines

unfoldable pub fgets_lines : ℕ → Bytes → List Bytes
unfolding prepend
fgets_lines room [] = []
fgets_lines room (c ∷ file) =
    let full = (c == b'\n') || leb room 1 in
    let rest = fgets_lines (if full then 999 else room - 1) file in
    if full then (c ∷ []) ∷ rest else prepend c rest

-- The loop of `readFile`: a comment, a line of less than four bytes and one with no bar are passed
-- over.
kept : Bytes → Bool
unfolding contains
kept line = not (get_or line 0 0 == b'#') && not (ltb (length line) 4) && contains bar line

unfoldable pub read_lines : List Bytes → List Bytes
unfolding kept chomp
read_lines [] = []
read_lines (buffer ∷ lines) =
    let line = c_str buffer in if kept line then chomp line ∷ read_lines lines else read_lines lines

unfoldable pub read_file : Bytes → List Bytes
unfolding fgets_lines read_lines
read_file file = read_lines (fgets_lines 999 file)

unfoldable pub get_level : List Bytes → ℕ
get_level nodes = if ltb (length nodes) 10000 then 2 else 3
