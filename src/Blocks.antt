-- ===== src/Blocks.antt =====
-- src/blockmgr.cc, src/blockmgr.h and src/trxnlist.cc: the files of transactions. Every user has a
-- file for each hour, to which `appendToBlockchain` adds a record and where `readTrxns` looks a
-- transaction up. `XXH64`, the conversion of a time stamp to the hour and the files that can be
-- opened are arguments. A stream's writes reach its file when it is closed: this is what a stream
-- does whose record fits its buffer.

pub mod Reading
pub mod History
pub mod Lookup
pub mod Growing
pub mod Storing
use Prim.Native.String.{String}
use omicro.Base.{
  ℕ, zero, suc, ◌+◌, ◌%◌, Bool, true, false, ◌&&◌, ◌||◌, List, [], ◌∷◌, ◌++◌, ◌==◌, ltb,
  if◌then◌else◌, Bytes, codes, eqb, c_str, length, replicate, Option, none, some,
}
use omicro.Base.Int.{ℤ, pos, neg, ltb_ℤ}
use omicro.Base.Dict
use omicro.Base.Dict.{Dict}
use omicro.Base.Decimal.{to_string, is_digit, read_digits}
use omicro.StrSplit
use omicro.StrSplit.{index, size}
use omicro.Trxn.{Trxn, get_trxn_data, bar}

-- `XXH64` with its seed, `getYYYYMMDDHHFromTS`, and whether a path can be opened for appending.
pub record Disk : Type 0 where
  pub xxh64 : Bytes → ℕ → ℕ
  pub yyyymmddhh : Bytes → Bytes
  pub openable : Bytes → Bool

abbrev dir_level_num : ℕ
dir_level_num = 1019

unfoldable pub get_user_path : Disk → Bytes → Bytes
get_user_path disk userid =
    to_string (disk.xxh64 userid 1579 % dir_level_num)
    ++ b'/' ∷ to_string (disk.xxh64 userid 2593 % dir_level_num)

-- The path of a user's file for an hour.
unfoldable pub blocks_path : Disk → Bytes → Bytes → Bytes → Bytes
blocks_path disk data_dir userid hour =
    data_dir ++ codes "/blocks/" ++ get_user_path disk userid ++ b'/' ∷ hour ++ codes "/blocks"

-- An open stream: its path, the position of the open and what has been printed to it.
pub record Stream : Type 0 where
  pub path : Bytes
  pub fpos : ℕ
  pub printed : Bytes

abbrev pub content : Option Bytes → Bytes
content none = []
content (some s) = s

-- `fprintf` of "%ld~%c~%s~%ld~".
unfoldable pub block_record : ℕ → Bytes → Bytes
block_record ttype tdata =
    to_string (length tdata)
    ++ b'~' ∷ ttype ∷ b'~' ∷ c_str tdata
    ++ b'~' ∷ to_string (length tdata)
    ++ b'~' ∷ []

-- The stream, if the file can be opened.
unfoldable pub append_to_blockchain :
    Disk → Bytes → Dict Bytes → Trxn → Bytes → ℕ → Bytes → Option Stream
unfolding block_record get_trxn_data
append_to_blockchain disk data_dir files t userid ttype hour =
    let path = blocks_path disk data_dir userid hour in
    if disk.openable path
    then some (record {
      path = path;
      fpos = length (content (Dict.find path files));
      printed = block_record ttype (get_trxn_data t);
    })
    else none

-- The mark of success, "T}".
unfoldable pub mark_success : Stream → Stream
mark_success fp = record fp { printed = fp.printed ++ codes "T}" }

unfoldable pub fclose : Stream → Dict Bytes → Dict Bytes
fclose fp files = Dict.assign fp.path (content (Dict.find fp.path files) ++ fp.printed) files

-- `fopen` with "w" empties the file; the write at `fpos` leaves zeros before it.
unfoldable pub rollback_from_blockchain : Disk → Bytes → Dict Bytes → Bytes → Bytes → ℕ → Dict Bytes
rollback_from_blockchain disk data_dir files userid hour fpos =
    let path = blocks_path disk data_dir userid hour in
    if disk.openable path then Dict.assign path (replicate fpos 0 ++ 0 ∷ []) files else files

-- `TrxnList::saveTrxnList`, for an open list.
unfoldable pub save_trxn_list : Bytes → Bytes → Bytes → Bytes
save_trxn_list from timestamp list = list ++ c_str timestamp ++ b'~' ∷ c_str from ++ b'|' ∷ []

-- The loop over a length field, which counts its digits: the digits, the last byte read and the rest
-- of the file; `none` where a byte follows eight digits. `c` is the last byte read before.
unfoldable pub scan : ℕ → ℕ → Bytes → Option (Bytes × ℕ × Bytes)
scan idx c [] = some ([], c, [])
scan idx c (b ∷ s) =
    let later = scan (idx + 1) b s in
    if ltb 7 idx
    then none
    else if is_digit b
    then elim later [ none ↦ none | some (ds, e, rest) ↦ some (b ∷ ds, e, rest) ]
    else some ([], b, s)

-- `saferead` of that many bytes, and the rest; `none` if the file has fewer.
unfoldable pub safe_read : ℕ → Bytes → Option (Bytes × Bytes)
safe_read zero s = some ([], s)
safe_read (suc n) [] = none
safe_read (suc n) (b ∷ s) = elim (safe_read n s) [
  | none ↦ none
  | some (pt, rest) ↦ some (b ∷ pt, rest)
]

-- One turn of the loop: the end of the file, an error, with `tstat`, or a record and the rest.
pub data Parsed : Type 0 where
  ended : Parsed
  failed : ℤ → Bytes → ℕ → Parsed
  entry : Bytes → ℕ → Bytes → Parsed

abbrev system_error : String → Bytes
system_error e = codes "System error: " ++ codes e

abbrev pub om_ok_mark : ℕ
om_ok_mark = b'T'

check_fields : Bytes → ℕ → Bytes → Parsed
check_fields pt tstat s =
    if ltb_ℤ (size (StrSplit.init pt bar false)) (pos 10)
    then failed (neg 70) (system_error "E12218") tstat
    else entry pt tstat s

read_end : Bytes → ℕ → Bytes → Parsed
unfolding check_fields
read_end pt tstat [] = failed (neg 70) (system_error "E12216") tstat
read_end pt tstat (c ∷ s) =
    if c == b'}' then check_fields pt tstat s else failed (neg 70) (system_error "E12216") tstat

read_status : Bytes → ℕ → Bytes → Parsed
unfolding read_end
read_status pt tstat [] = failed (neg 60) (system_error "E12215") tstat
read_status pt tstat (c ∷ s) =
    if (c == b'F') || (c == b'T')
    then read_end pt c s
    else failed (neg 64) (system_error "E12245") c

-- The second length is only compared with the first for a warning.
read_second : Bytes → ℕ → Option (Bytes × ℕ × Bytes) → Parsed
unfolding read_status
read_second pt tstat none = failed (neg 40) (system_error "E12113") tstat
read_second pt tstat (some ([], c, s)) = failed (neg 50) (system_error "E12115") tstat
read_second pt tstat (some (d ∷ ds, c, s)) = read_status pt tstat s

read_data : ℕ → Option (Bytes × Bytes) → Parsed
unfolding read_second scan
read_data tstat none = failed (neg 1) (system_error "E12114") tstat
read_data tstat (some (pt, [])) = failed (neg 30) (system_error "E12216") tstat
read_data tstat (some (pt, c ∷ s)) =
    if c == b'~'
    then read_second pt tstat (scan 0 c s)
    else failed (neg 30) (system_error "E12216") tstat

read_sign : ℕ → ℕ → Bytes → Parsed
unfolding read_data safe_read
read_sign tsize tstat [] = failed (neg 10) (system_error "E12214") tstat
read_sign tsize tstat (sign ∷ []) = failed (neg 20) (system_error "E12215") tstat
read_sign tsize tstat (sign ∷ c ∷ s) =
    if c == b'~'
    then read_data tstat (safe_read tsize s)
    else failed (neg 20) (system_error "E12215") tstat

read_first : ℕ → Option (Bytes × ℕ × Bytes) → Parsed
unfolding read_sign
read_first tstat none = failed (neg 1) (system_error "E12104") tstat
read_first tstat (some ([], c, s)) = ended
read_first tstat (some (d ∷ ds, c, s)) =
    if c == 0 then ended else read_sign (read_digits 0 (d ∷ ds)) tstat s

unfoldable pub read_record : ℕ → Bytes → Parsed
unfolding read_first scan
read_record tstat s = read_first tstat (scan 0 0 s)

-- What `readTrxns` gives: its return code, `vec`, `tstat` and `err`.
pub record Found : Type 0 where
  pub rc : ℤ
  pub vec : List Bytes
  pub tstat : ℕ
  pub err : Bytes

-- `sp[5] + ":" + sp[2]`
unfoldable pub trxn_tid : Bytes → Bytes
trxn_tid pt = let sp = StrSplit.init pt bar false in index sp (pos 5) ++ b':' ∷ index sp (pos 2)

unfoldable pub collect : Bytes → Bytes → List Bytes → List Bytes
unfolding trxn_tid
collect trxnid pt vec =
    if ltb 0 (length trxnid) && eqb (trxn_tid pt) trxnid then vec ++ c_str pt ∷ [] else vec

-- The loop, on fuel; `none` is a run out of fuel.
unfoldable pub read_loop : ℕ → Bytes → List Bytes → ℕ → Bytes → Option Found
unfolding read_record collect
read_loop zero trxnid vec tstat s = none
read_loop (suc fuel) trxnid vec tstat s = elim (read_record tstat s) [
  | ended ↦ some (record { rc = pos 0; vec = vec; tstat = tstat; err = [] })
  | failed rc err tstat1 ↦ some (record { rc = rc; vec = vec; tstat = tstat1; err = err })
  | entry pt tstat1 rest ↦ read_loop fuel trxnid (collect trxnid pt vec) tstat1 rest
]

-- Every record takes a byte at least.
unfoldable pub read_blocks : Bytes → Bytes → Option Found
unfolding read_loop
read_blocks trxnid s = read_loop (suc (length s)) trxnid [] b'0' s

-- `where_` is the host and the port, for the error message.
unfoldable pub read_trxns : Disk → Bytes → Bytes → Dict Bytes → Bytes → Bytes → Bytes → Option Found
unfolding read_blocks
read_trxns disk data_dir where_ files from timestamp trxnid =
    elim (Dict.find (blocks_path disk data_dir from (disk.yyyymmddhh timestamp)) files) [
      | none ↦ some (record {
        rc = neg 1000;
        vec = [];
        tstat = b'0';
        err = codes "System: cannot find user data [" ++ from ++ codes "] " ++ where_;
      })
      | some s ↦ read_blocks trxnid s
    ]

-- `vec.size() < 1`; a reader without fuel, which does not happen, has found nothing.
abbrev pub finds_none : Option Found → Bool
finds_none none = true
finds_none (some found) = ltb (length found.vec) 1
