-- ===== src/NodeList/Records.antt =====
-- src/nodelist.cc: a node list that is written as a file is read back.
use omicro.Base.{
  ℕ, ◌-◌, ◌<◌, ◌||◌, ◌==◌, leb, false, c_str, Free-append, ◌≤◌, ◌≡◌, ◌≢◌, ◌∙◌, ap, refl, true, some,
  List, [], ◌∷◌, ◌++◌, map, arith, Bytes, c_str-Free, Free, length, length-append, get_or,
}
use omicro.NodeList.{
  NodeData, get_data, of_text, behind_key, with_key, fgets_lines, read_lines, read_file, strchr,
  chomp, contains, kept, bar,
}

-- The text of a record.
abbrev pub record_of : NodeData → Bytes
record_of node = node.id ++ (bar ∷ (node.ip ++ (bar ∷ node.port)))

-- The line of a file.
abbrev pub line_of : NodeData → Bytes
line_of node = record_of node ++ b'\n' ∷ []

-- The file of some nodes.
unfoldable pub file_of : List NodeData → Bytes
file_of [] = []
file_of (node ∷ nodes) = record_of node ++ b'\n' ∷ file_of nodes

-- The parts are texts without a newline; the first two have no bar, the key is no comment, and the
-- record has from 3 to 998 bytes, so that its line fits the buffer.
pub record IsNode (node : NodeData) : Type 0 where
  pub id_free : Free bar node.id
  pub ip_free : Free bar node.ip
  pub text : Free 0 (record_of node)
  pub key : get_or (record_of node) 0 0 ≢ b'#'
  pub size : 3 ≤ length (record_of node)
  pub fits : length (record_of node) ≤ 998
  pub one_line : Free b'\n' (record_of node)

strchr-bar : (x rest : Bytes) → Free bar x → strchr bar (x ++ bar ∷ rest) ≡ some (x, rest)
unfolding strchr
strchr-bar [] rest h = refl
strchr-bar (c ∷ x) rest h = ground (arith, strchr-bar x rest h.1)

of_text-record_of : (node : NodeData) → IsNode node → of_text (record_of node) ≡ some node
unfolding of_text behind_key with_key
of_text-record_of node h =
    ap behind_key (strchr-bar node.id (node.ip ++ (bar ∷ node.port)) h.id_free)
    ∙ ap (with_key node.id) (strchr-bar node.ip node.port h.ip_free)

pub get_data-record_of : (node : NodeData) → IsNode node → get_data (record_of node) ≡ some node
unfolding get_data
get_data-record_of node h =
    ap of_text (c_str-Free (record_of node) h.text) ∙ of_text-record_of node h

chomp-newline : (x : Bytes) → chomp (x ++ b'\n' ∷ []) ≡ x
unfolding chomp
chomp-newline [] = refl
chomp-newline (c ∷ []) = refl
chomp-newline (c ∷ d ∷ x) = ap (λ y. c ∷ y) (chomp-newline (d ∷ x))

contains-bar : (x rest : Bytes) → contains bar (x ++ bar ∷ rest) ≡ true
unfolding contains
contains-bar [] rest = refl
contains-bar (c ∷ x) rest = ground (arith, contains-bar x rest)

get_or-append : (x : Bytes) (y : Bytes) → 1 ≤ length x → get_or (x ++ y) 0 0 ≡ get_or x 0 0
get_or-append [] y h = absurd (omega arith)
get_or-append (c ∷ x) y h = refl

contains-append : (c : ℕ) (x y : Bytes) → contains c x ≡ true → contains c (x ++ y) ≡ true
unfolding contains
contains-append c [] y h = cc h
contains-append c (d ∷ x) y h = ground (arith, contains-append c x y)

contains-line : (node : NodeData) → contains bar (line_of node) ≡ true
contains-line node =
    contains-append bar (record_of node) (b'\n' ∷ [])
      (contains-bar node.id (node.ip ++ bar ∷ node.port))

kept-line : (node : NodeData) → IsNode node → kept (line_of node) ≡ true
unfolding kept
kept-line node h = ground (
  arith,
  contains-line node,
  get_or-append (record_of node) (b'\n' ∷ []),
  length-append (record_of node) (b'\n' ∷ []),
  h.key,
  h.size,
)

-- All of the nodes can be written as lines.
abbrev pub AllNodes : List NodeData → Type 0
AllNodes [] = Unit
AllNodes (node ∷ nodes) = IsNode node × AllNodes nodes

fgets_lines-newline :
    (room : ℕ) (x file : Bytes)
    → Free b'\n' x
    → length x < room
    → fgets_lines room (x ++ b'\n' ∷ file) ≡ (x ++ b'\n' ∷ []) ∷ fgets_lines 999 file
unfolding fgets_lines
fgets_lines-newline room [] file h fits = refl
fgets_lines-newline room (c ∷ x) file h fits =
    let more : ((c == b'\n') || leb room 1) ≡ false = ground (arith, h.0, fits) in
    rw (more, fgets_lines-newline (room - 1) x file h.1 (omega (arith, fits))) refl

line-text : (node : NodeData) → IsNode node → c_str (line_of node) ≡ line_of node
line-text node h =
    c_str-Free (line_of node) (Free-append 0 (record_of node) (b'\n' ∷ []) h.text (omega arith, tt))

-- A node list whose nodes can be written as lines, none of which is longer than what `readFile` reads
-- at once, is read back from the file of these lines: the records that `readFile` keeps give, by
-- `getData`, the same nodes in the same order.
pub read_file-get_data :
    (nodes : List NodeData)
    → AllNodes nodes
    → map get_data (read_file (file_of nodes)) ≡ map some nodes
unfolding read_file file_of fgets_lines read_lines
read_file-get_data [] h = refl
read_file-get_data (node ∷ nodes) h =
    rw
      (
        fgets_lines-newline 999 (record_of node) (file_of nodes) h.0.one_line
            (omega (arith, h.0.fits)),
        line-text node h.0,
        kept-line node h.0,
        chomp-newline (record_of node),
        get_data-record_of node h.0,
        read_file-get_data nodes h.1,
      )
      refl
