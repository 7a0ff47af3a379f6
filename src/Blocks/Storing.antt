-- ===== src/Blocks/Storing.antt =====
-- src/blockmgr.cc: what is appended to a file of transactions, a reader finds.
use mathlib.Core.List.{append_assoc}
use omicro.Base.{
  ℕ, ◌+◌, ◌^◌, ◌≤◌, ◌<◌, ◌≡◌, ◌∙◌, refl, ap, true, false, [], ◌∷◌, ◌++◌, arith, Bytes, codes, c_str,
  c_str-Free, length, some, All,
}
use omicro.Base.Int.{pos}
use omicro.Base.Decimal.{
  to_string, is_digit, read_digits, to_string-digits, read_digits-to_string, length-to_string,
  to_string_cons,
}
use omicro.StrSplit
use omicro.StrSplit.{size}
use omicro.Trxn.{Trxn, get_trxn_data, bar}
use omicro.Trxn.RoundTrip.{IsPrintable, data_fields, pieces-join, get_trxn_data-join, Free-join}
use omicro.Blocks.{
  entry, scan, safe_read, check_fields, read_end, read_status, read_second, read_data, read_sign,
  read_first, read_record, block_record, om_ok_mark,
}

scan-digits :
    (idx c : ℕ) (ds : Bytes) (e : ℕ) (s : Bytes)
    → All (λ d. is_digit d ≡ true) ds
    → idx + length ds ≤ 7
    → is_digit e ≡ false
    → scan idx c (ds ++ e ∷ s) ≡ some (ds, e, s)
unfolding scan
scan-digits idx c [] e s h room stop = ground (arith, stop)
scan-digits idx c (d ∷ ds) e s h room stop =
    rw (scan-digits (idx + 1) d ds e s h.1 (omega (arith, room)) stop) (ground (arith, h.0, room))

pub safe_read-append : (xs s : Bytes) → safe_read (length xs) (xs ++ s) ≡ some (xs, s)
unfolding safe_read
safe_read-append [] s = refl
safe_read-append (x ∷ xs) s = rw (safe_read-append xs s) refl

-- A transaction whose record has a length field that the reader takes.
pub record IsStorable (t : Trxn) : Type 0 where
  pub printable : IsPrintable t
  pub short : length (get_trxn_data t) < 10 ^ 7

pub size-init :
    (s : Bytes) (sep : ℕ)
    → size (StrSplit.init s sep false) ≡ pos (length (StrSplit.init s sep false).list)
unfolding size omicro.StrSplit.init
size-init s sep = ground arith

size-data : (t : Trxn) → IsPrintable t → size (StrSplit.init (get_trxn_data t) bar false) ≡ pos 19
size-data t h =
    size-init (get_trxn_data t) bar
    ∙ ap (λ x. pos (length (StrSplit.init x bar false).list)) (get_trxn_data-join t)
    ∙ ap (λ x. pos (length x)) (pieces-join t.id t.beacon _ h.plain_data)

pub data-c_str : (t : Trxn) → IsPrintable t → c_str (get_trxn_data t) ≡ get_trxn_data t
data-c_str t h = rw (get_trxn_data-join t) (c_str-Free _ (Free-join (data_fields t) h.plain_data))

-- A record with its mark of success.
unfoldable pub stored : ℕ → Trxn → Bytes
stored ttype t = block_record ttype (get_trxn_data t) ++ codes "T}"

right_nested : ℕ → Bytes → Bytes → Bytes → Bytes
right_nested ttype ds tdata rest =
    ds ++ (b'~' ∷ ttype ∷ b'~' ∷ (tdata ++ (b'~' ∷ (ds ++ (b'~' ∷ b'T' ∷ b'}' ∷ rest)))))

stored-append :
    (ttype : ℕ) (t : Trxn) (rest : Bytes)
    → IsPrintable t
    → stored ttype t ++ rest
      ≡ right_nested ttype (to_string (length (get_trxn_data t))) (get_trxn_data t) rest
unfolding stored block_record right_nested
stored-append ttype t rest h = rw (data-c_str t h) (simp append_assoc)

read_end-data :
    (t : Trxn) (tstat : ℕ) (rest : Bytes)
    → IsPrintable t
    → read_end (get_trxn_data t) tstat (b'}' ∷ rest) ≡ entry (get_trxn_data t) tstat rest
unfolding read_end check_fields
read_end-data t tstat rest h = rw (size-data t h) refl

-- The second length, the mark and the end of a stored record.
read_second-digits :
    (t : Trxn) (tstat : ℕ) (ds rest : Bytes)
    → IsPrintable t
    → All (λ d. is_digit d ≡ true) ds
    → 1 ≤ length ds
    → length ds ≤ 7
    → read_second (get_trxn_data t) tstat (scan 0 b'~' (ds ++ b'~' ∷ b'T' ∷ b'}' ∷ rest))
      ≡ entry (get_trxn_data t) om_ok_mark rest
unfolding read_second read_status
read_second-digits t tstat [] rest h digits lo hi = absurd (omega (arith, lo))
read_second-digits t tstat (d ∷ ds) rest h digits lo hi =
    rw (scan-digits 0 b'~' (d ∷ ds) b'~' (b'T' ∷ b'}' ∷ rest) digits (omega (arith, hi)) refl)
      (read_end-data t om_ok_mark rest h)

-- A stored record is read as its transaction's data, and the reader stands behind it.
read_first-digits :
    (t : Trxn) (tstat ttype : ℕ) (ds rest : Bytes)
    → IsPrintable t
    → All (λ d. is_digit d ≡ true) ds
    → 1 ≤ length ds
    → length ds ≤ 7
    → read_digits 0 ds ≡ length (get_trxn_data t)
    → read_record tstat (right_nested ttype ds (get_trxn_data t) rest)
      ≡ entry (get_trxn_data t) om_ok_mark rest
unfolding read_record read_first read_sign read_data right_nested
read_first-digits t tstat ttype [] rest h digits lo hi same = absurd (omega (arith, lo))
read_first-digits t tstat ttype (d ∷ ds) rest h digits lo hi same =
    let behind = b'~' ∷ ((d ∷ ds) ++ (b'~' ∷ b'T' ∷ b'}' ∷ rest)) in
    rw
      (scan-digits 0 0 (d ∷ ds) b'~' (ttype ∷ b'~' ∷ (get_trxn_data t ++ behind)) digits
        (omega (arith, hi)) refl)
      (ap (λ n. read_sign n tstat (ttype ∷ b'~' ∷ (get_trxn_data t ++ behind))) same
        ∙ ap (read_data tstat) (safe_read-append (get_trxn_data t) behind)
        ∙ read_second-digits t tstat (d ∷ ds) rest h digits lo hi)

pub read_record-stored :
    (t : Trxn) (tstat ttype : ℕ) (rest : Bytes)
    → IsStorable t
    → read_record tstat (stored ttype t ++ rest) ≡ entry (get_trxn_data t) om_ok_mark rest
read_record-stored t tstat ttype rest h =
    let n = length (get_trxn_data t) in
    let (d, ds, digits) = to_string_cons n in
    ap (read_record tstat) (stored-append ttype t rest h.printable)
    ∙ read_first-digits t tstat ttype (to_string n) rest h.printable (to_string-digits n)
        (omega (arith, ap length digits)) (length-to_string 6 n h.short)
        (read_digits-to_string n (omega (arith, h.short)))
