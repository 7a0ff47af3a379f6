-- ===== src/Blocks/Reading.antt =====
-- src/blockmgr.cc: the reader of a file of transactions comes to an end.
use omicro.Base.{
  ℕ, zero, suc, ◌+◌, ◌≤◌, ◌<◌, ◌≡◌, refl, ◌||◌, Bool, true, false, List, [], ◌∷◌, arith, ltb, ◌==◌,
  if◌then◌else◌, Bytes, length, Option, none, some,
}
use omicro.Base.Int.{ltb_ℤ, pos}
use omicro.Base.Decimal.{is_digit, read_digits}
use omicro.StrSplit
use omicro.StrSplit.{size}
use omicro.Trxn.{bar}
use omicro.Blocks.{
  Parsed, ended, failed, entry, Found, scan, safe_read, check_fields, read_end, read_status,
  read_second, read_data, read_sign, read_first, read_record, read_loop, read_blocks, collect,
}

-- What is left after a record is shorter than that.
abbrev Below : ℕ → Parsed → Type 0
Below n ended = Unit {0}
Below n (failed rc err tstat) = Unit {0}
Below n (entry pt tstat rest) = length rest < n

abbrev ScanBelow : ℕ → Option (Bytes × ℕ × Bytes) → Type 0
ScanBelow n none = Unit {0}
ScanBelow n (some (ds, c, rest)) = length rest ≤ n

abbrev ReadBelow : ℕ → Option (Bytes × Bytes) → Type 0
ReadBelow n none = Unit {0}
ReadBelow n (some (pt, rest)) = length rest ≤ n

scan-Below : (idx c : ℕ) (s : Bytes) (n : ℕ) → length s ≤ n → ScanBelow n (scan idx c s)
unfolding scan
scan-Below idx c [] n h = omega arith
scan-Below idx c (b ∷ s) n h =
    branch (ltb 7 idx) (is_digit b) (scan-Below (idx + 1) b s n (omega (arith, h)))
  where
    later_below :
        (o : Option (Bytes × ℕ × Bytes))
        → ScanBelow n o
        → ScanBelow n (elim o [ none ↦ none | some (ds, e, rest) ↦ some (b ∷ ds, e, rest) ])
    later_below none k = tt
    later_below (some (ds, e, rest)) k = k

    branch :
        (long digit : Bool)
        → ScanBelow n (scan (idx + 1) b s)
        → ScanBelow n (
            if long
            then none
            else if digit
            then elim (scan (idx + 1) b s) [
              | none ↦ none
              | some (ds, e, rest) ↦ some (b ∷ ds, e, rest)
            ]
            else some ([], b, s))
    branch true digit k = tt
    branch false true k = later_below (scan (idx + 1) b s) k
    branch false false k = omega (arith, h)

safe_read-Below : (k : ℕ) (s : Bytes) (n : ℕ) → length s ≤ n → ReadBelow n (safe_read k s)
unfolding safe_read
safe_read-Below zero s n h = h
safe_read-Below (suc k) [] n h = tt
safe_read-Below (suc k) (b ∷ s) n h =
    later_below (safe_read k s) (safe_read-Below k s n (omega (arith, h)))
  where
    later_below :
        (o : Option (Bytes × Bytes))
        → ReadBelow n o
        → ReadBelow n (elim o [ none ↦ none | some (pt, rest) ↦ some (b ∷ pt, rest) ])
    later_below none k = tt
    later_below (some (pt, rest)) k = k

Below-if : (b : Bool) (n : ℕ) (p q : Parsed) → Below n p → Below n q → Below n (if b then p else q)
Below-if true n p q hp hq = hp
Below-if false n p q hp hq = hq

read_end-Below :
    (pt : Bytes) (tstat : ℕ) (s : Bytes) (n : ℕ) → length s ≤ n → Below n (read_end pt tstat s)
unfolding read_end check_fields
read_end-Below pt tstat [] n h = tt
read_end-Below pt tstat (c ∷ s) n h =
    Below-if (c == b'}') n _ _
      (Below-if (ltb_ℤ (size (StrSplit.init pt bar false)) (pos 10)) n _ _ tt (omega (arith, h))) tt

read_status-Below :
    (pt : Bytes) (tstat : ℕ) (s : Bytes) (n : ℕ) → length s ≤ n → Below n (read_status pt tstat s)
unfolding read_status
read_status-Below pt tstat [] n h = tt
read_status-Below pt tstat (c ∷ s) n h =
    Below-if ((c == b'F') || (c == b'T')) n _ _ (read_end-Below pt c s n (omega (arith, h))) tt

read_second-Below :
    (pt : Bytes) (tstat : ℕ) (o : Option (Bytes × ℕ × Bytes)) (n : ℕ)
    → ScanBelow n o
    → Below n (read_second pt tstat o)
unfolding read_second
read_second-Below pt tstat none n h = tt
read_second-Below pt tstat (some ([], c, s)) n h = tt
read_second-Below pt tstat (some (d ∷ ds, c, s)) n h = read_status-Below pt tstat s n h

read_data-Below :
    (tstat : ℕ) (o : Option (Bytes × Bytes)) (n : ℕ) → ReadBelow n o → Below n (read_data tstat o)
unfolding read_data
read_data-Below tstat none n h = tt
read_data-Below tstat (some (pt, [])) n h = tt
read_data-Below tstat (some (pt, c ∷ s)) n h =
    Below-if (c == b'~') n _ _
      (read_second-Below pt tstat (scan 0 c s) n (scan-Below 0 c s n (omega (arith, h)))) tt

read_sign-Below :
    (tsize tstat : ℕ) (s : Bytes) (n : ℕ) → length s ≤ n → Below n (read_sign tsize tstat s)
unfolding read_sign
read_sign-Below tsize tstat [] n h = tt
read_sign-Below tsize tstat (sign ∷ []) n h = tt
read_sign-Below tsize tstat (sign ∷ c ∷ s) n h =
    Below-if (c == b'~') n _ _
      (read_data-Below tstat (safe_read tsize s) n (safe_read-Below tsize s n (omega (arith, h))))
      tt

read_first-Below :
    (tstat : ℕ) (o : Option (Bytes × ℕ × Bytes)) (n : ℕ)
    → ScanBelow n o
    → Below n (read_first tstat o)
unfolding read_first
read_first-Below tstat none n h = tt
read_first-Below tstat (some ([], c, s)) n h = tt
read_first-Below tstat (some (d ∷ ds, c, s)) n h =
    Below-if (c == 0) n _ _ tt (read_sign-Below (read_digits 0 (d ∷ ds)) tstat s n h)

read_record-Below : (tstat : ℕ) (s : Bytes) → Below (length s) (read_record tstat s)
unfolding read_record
read_record-Below tstat s =
    read_first-Below tstat (scan 0 0 s) (length s) (scan-Below 0 0 s (length s) (omega arith))

-- The loop gives a result on any fuel above the length of the file.
abbrev Ends : Option Found → Type 0
Ends none = ⊥
Ends (some found) = Unit {0}

read_loop-Ends :
    (fuel : ℕ) (trxnid : Bytes) (vec : List Bytes) (tstat : ℕ) (s : Bytes)
    → length s < fuel
    → Ends (read_loop fuel trxnid vec tstat s)
unfolding read_loop
read_loop-Ends zero trxnid vec tstat s h = absurd (omega (arith, h))
read_loop-Ends (suc fuel) trxnid vec tstat s h =
    next (read_record tstat s) (read_record-Below tstat s)
      (λ vec1 tstat1 rest k. read_loop-Ends fuel trxnid vec1 tstat1 rest (omega (arith, h, k)))
  where
    next :
        (p : Parsed)
        → Below (length s) p
        → ((vec1 : List Bytes) (tstat1 : ℕ) (rest : Bytes)
            → length rest < length s
            → Ends (read_loop fuel trxnid vec1 tstat1 rest))
        → Ends (elim p [
          | ended ↦ some (record { rc = pos 0; vec = vec; tstat = tstat; err = [] })
          | failed rc err tstat1 ↦ some (record { rc = rc; vec = vec; tstat = tstat1; err = err })
          | entry pt tstat1 rest ↦ read_loop fuel trxnid (collect trxnid pt vec) tstat1 rest
        ])
    next ended k later = tt
    next (failed rc err tstat1) k later = tt
    next (entry pt tstat1 rest) k later = later (collect trxnid pt vec) tstat1 rest k

result : (o : Option Found) → Ends o → (found : Found) × (o ≡ some found)
result none h = absurd h
result (some found) h = (found, refl)

-- On any bytes the reader of a file ends with a result, whatever id is asked for: the fuel, one more
-- than the length of the file, is enough.
pub read_blocks_total : (trxnid s : Bytes) → (found : Found) × (read_blocks trxnid s ≡ some found)
unfolding read_blocks
read_blocks_total trxnid s =
    result (read_loop (suc (length s)) trxnid [] b'0' s)
      (read_loop-Ends (suc (length s)) trxnid [] b'0' s (omega arith))
