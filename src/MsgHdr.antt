-- ===== src/MsgHdr.antt =====
-- src/ommsghdr.h and src/ommsghdr.cc: the header of a message, a buffer of bytes that begins with the
-- length of the data in decimal, right-aligned in 16 bytes. `sprintf` and `atol` are written out for
-- what the code gives them; a length of more than 16 digits overruns the local buffer of the source,
-- and is not modelled.
pub mod Length
use omicro.Base.{
  ℕ, zero, suc, ◌+◌, ◌/◌, ◌%◌, [], ◌∷◌, ◌++◌, ◌==◌, ltb, if◌then◌else◌, Bytes, Option, none, some,
  replicate, set, get_or,
}
use omicro.Base.Decimal.{read_digits}

abbrev pub om_hdr_len_sz : ℕ
om_hdr_len_sz = 16

abbrev pub om_plain : ℕ
om_plain = b'T'

abbrev pub om_compressed : ℕ
om_compressed = b'C'

-- A number above 0 in a field of that width.
right_aligned : ℕ → ℕ → Bytes
right_aligned zero n = []
right_aligned (suc w) n =
    let rest = right_aligned w (n / 10) in
    if n == 0 then replicate (suc w) b' ' else rest ++ (b'0' + n % 10) ∷ []

-- `sprintf(d, "%16ld", sz)`
print_length : ℕ → Bytes
unfolding right_aligned
print_length sz = if sz == 0 then replicate 15 b' ' ++ b'0' ∷ [] else right_aligned om_hdr_len_sz sz

-- `atol`: spaces, then digits up to another byte.
atol : Bytes → ℕ
unfolding read_digits
atol [] = 0
atol (c ∷ s) = if c == b' ' then atol s else read_digits 0 (c ∷ s)

-- The copy of the first bytes over the buffer.
copy : Bytes → Bytes → Bytes
copy [] buf = buf
copy (d ∷ ds) [] = []
copy (d ∷ ds) (b ∷ buf) = d ∷ copy ds buf

unfoldable pub set_length : Bytes → ℕ → Bytes
unfolding print_length copy
set_length buf sz = copy (print_length sz) buf

first : ℕ → Bytes → Bytes
first zero s = []
first (suc n) [] = []
first (suc n) (c ∷ s) = c ∷ first n s

-- Below 2 the process is aborted.
checked : ℕ → Option ℕ
checked e = if ltb e 2 then none else some e

unfoldable pub get_length : Bytes → Option ℕ
unfolding atol first checked
get_length buf = checked (atol (first om_hdr_len_sz buf))

unfoldable pub set_plain : Bytes → Bytes
set_plain buf = set buf om_hdr_len_sz om_plain

unfoldable pub set_compressed : Bytes → Bytes
set_compressed buf = set buf om_hdr_len_sz om_compressed

unfoldable pub get_compression : Bytes → ℕ
get_compression buf = get_or buf om_hdr_len_sz 0

unfoldable pub set_msg_type : Bytes → ℕ → Bytes
set_msg_type buf t = set buf (om_hdr_len_sz + 1) t

unfoldable pub get_msg_type : Bytes → ℕ
get_msg_type buf = get_or buf (om_hdr_len_sz + 1) 0

unfoldable pub set_query_type : Bytes → ℕ → Bytes
set_query_type buf t = set buf (om_hdr_len_sz + 2) t

unfoldable pub get_query_type : Bytes → ℕ
get_query_type buf = get_or buf (om_hdr_len_sz + 2) 0
