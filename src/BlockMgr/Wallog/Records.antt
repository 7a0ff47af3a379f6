-- ===== src/BlockMgr/Wallog/Records.antt =====
-- src/blockmgr.cc: what is logged for a transaction, the replay reads.
use mathlib.Core.List.{append_assoc}
use omicro.Base.{
  ℕ, suc, ◌+◌, ◌%◌, ◌^◌, ◌≤◌, ◌<◌, ◌≡◌, ◌≢◌, ◌∙◌, refl, sym, ap, true, false, [], ◌∷◌, ◌++◌,
  Bool-cases, inl, inr, none, arith, ltb, Bytes, c_str, c_str-Free, get_or, Free, Free-append,
  length, length-append, All, some,
}
use omicro.Base.Decimal.{to_string, is_digit, to_string-digits, length-to_string, to_string_cons}
use omicro.StrSplit
use omicro.StrSplit.{size, index}
use omicro.StrSplit.Split.{split, join, init-split, split-join, index-init}
use omicro.Trxn.{Trxn, Keys, allstr, get_trxn_id}
use omicro.Trxn.RoundTrip.{IsPrintable}
use omicro.Base.Int.{pos, ltb_ℤ}
use omicro.Blocks.Storing.{size-init}
use omicro.BlockMgr.Wallog.{
  Zlib, wal_record, read_field, read_padded, seek, front, read_front, read_time, read_id, read_size,
  treat, stop, read_turn, turn_of, id_sender,
}

-- A field of at most 61 bytes without a dash is read.
read_field-append :
    (j : ℕ) (field rest : Bytes)
    → Free b'-' field
    → j + length field ≤ 61
    → read_field j (field ++ b'-' ∷ rest) ≡ some (field, rest)
unfolding read_field
read_field-append j [] rest h room = ground arith
read_field-append j (c ∷ field) rest h room =
    rw (read_field-append (suc j) field rest h.1 (omega (arith, room))) (ground (arith, h.0, room))

pub read_padded-append : (xs rest : Bytes) → read_padded (length xs) (xs ++ rest) ≡ (xs, rest)
unfolding read_padded
read_padded-append [] rest = refl
read_padded-append (x ∷ xs) rest = rw (read_padded-append xs rest) refl

-- A transaction that the log can hold: its id has at most 61 bytes, none of them a dash, and its
-- sender and its time stamp have no colon.
pub record IsLoggable (zlib : Zlib) (t : Trxn) : Type 0 where
  pub printable : IsPrintable t
  pub short : length (get_trxn_id t) ≤ 61
  pub no_dash : Free b'-' (get_trxn_id t)
  pub plain_sender : Free b':' t.sender
  pub plain_time : Free b':' t.timestamp
  pub small : length (zlib.compress (allstr t)) < 2 ^ 32

-- `atol` reads what "%lu" prints.
abbrev pub ReadsPrinted : Keys → Type 0
ReadsPrinted keys = (n : ℕ) → n < 2 ^ 63 → keys.atol (to_string n) ≡ n

digits-Free :
    (k : ℕ) (ds : Bytes) → is_digit k ≡ false → All (λ d. is_digit d ≡ true) ds → Free k ds
digits-Free k [] h all = tt
digits-Free k (d ∷ ds) h all = (λ e. cc (h, all.0, e), digits-Free k ds h all.1)

read_field-number :
    (n : ℕ) (rest : Bytes)
    → n < 2 ^ 63
    → read_field 0 (to_string n ++ b'-' ∷ rest) ≡ some (to_string n, rest)
read_field-number n rest h =
    read_field-append 0 (to_string n) rest
      (digits-Free b'-' (to_string n) (ground arith) (to_string-digits n))
      (omega (arith, length-to_string 18 n (omega (arith, h))))

c_str-number : (n : ℕ) → c_str (to_string n) ≡ to_string n
c_str-number n =
    c_str-Free (to_string n) (digits-Free 0 (to_string n) (ground arith) (to_string-digits n))

number-some : (n : ℕ) → ltb (length (to_string n)) 1 ≡ false
number-some n = let (d, ds, e) = to_string_cons n in rw e (ground arith)

id-some : (t : Trxn) → ltb (length (get_trxn_id t)) 1 ≡ false
unfolding get_trxn_id
id-some t = ground (arith, length-append t.timestamp (b':' ∷ t.sender))

id-c_str : (t : Trxn) → IsPrintable t → c_str (get_trxn_id t) ≡ get_trxn_id t
unfolding get_trxn_id
id-c_str t h =
    let (id, (beacon, (sender, (receiver, (amount, (timestamp, others)))))) = h.plain_data in
    c_str-Free _ (Free-append 0 t.timestamp (b':' ∷ t.sender) timestamp.1 (omega arith, sender.1))

-- The record with the log behind it, bracketed to the right.
right_nested : Zlib → ℕ → Trxn → Bytes → Bytes
right_nested zlib nowt t rest =
    let zip = zlib.compress (allstr t) in
    to_string nowt
    ++ (b'-'
        ∷ (get_trxn_id t ++ (b'-' ∷ (to_string (length zip) ++ (b'-' ∷ (zip ++ (b'|' ∷ rest)))))))

wal_record-append :
    (zlib : Zlib) (nowt : ℕ) (t : Trxn) (rest : Bytes)
    → IsPrintable t
    → wal_record zlib nowt t ++ rest ≡ right_nested zlib nowt t rest
unfolding wal_record right_nested
wal_record-append zlib nowt t rest h = rw (id-c_str t h) (simp append_assoc)

read_front-wal_record :
    (zlib : Zlib) (nowt : ℕ) (t : Trxn) (rest : Bytes)
    → IsLoggable zlib t
    → nowt < 2 ^ 63
    → read_front (wal_record zlib nowt t ++ rest)
      ≡ front
          (to_string nowt)
          (get_trxn_id t)
          (to_string (length (zlib.compress (allstr t))))
          (zlib.compress (allstr t) ++ b'|' ∷ rest)
unfolding read_front read_time read_id read_size right_nested
read_front-wal_record zlib nowt t rest h before =
    let zip = zlib.compress (allstr t) in
    let behind_zip = zip ++ b'|' ∷ rest in
    let behind_size = to_string (length zip) ++ b'-' ∷ behind_zip in
    let behind_id = get_trxn_id t ++ b'-' ∷ behind_size in
    rw
      (
        wal_record-append zlib nowt t rest h.printable,
        read_field-number nowt behind_id before,
        c_str-number nowt,
        number-some nowt,
        read_field-append 0 (get_trxn_id t) behind_size h.no_dash (omega (arith, h.short)),
        id-c_str t h.printable,
        id-some t,
        read_field-number (length zip) behind_zip (omega (arith, h.small)),
        c_str-number (length zip),
        number-some (length zip),
      )
      refl

turn_of-front :
    (keys : Keys) (start end nowt : ℕ) (trxnid zip rest : Bytes)
    → ReadsPrinted keys
    → nowt < 2 ^ 63
    → length zip < 2 ^ 32
    → start ≤ nowt
    → nowt ≤ end
    → turn_of keys start end
        (front (to_string nowt) trxnid (to_string (length zip)) (zip ++ b'|' ∷ rest))
      ≡ treat trxnid zip rest
unfolding turn_of seek
turn_of-front keys start end nowt trxnid zip rest reads before small from to =
    let size : keys.atol (to_string (length zip)) % 2 ^ 32 ≡ length zip =
      rw (reads (length zip) (omega (arith, small))) (omega (arith, small)) in
    rw (reads nowt before, size, read_padded-append zip (b'|' ∷ rest)) (ground (arith, from, to))

-- A logged transaction whose log time is in the bounds is treated.
pub read_turn-wal_record :
    (keys : Keys) (zlib : Zlib) (start end nowt : ℕ) (t : Trxn) (rest : Bytes)
    → ReadsPrinted keys
    → IsLoggable zlib t
    → nowt < 2 ^ 63
    → start ≤ nowt
    → nowt ≤ end
    → read_turn keys start end (wal_record zlib nowt t ++ rest)
      ≡ treat (get_trxn_id t) (zlib.compress (allstr t)) rest
unfolding read_turn
read_turn-wal_record keys zlib start end nowt t rest reads h before from to =
    ap (turn_of keys start end) (read_front-wal_record zlib nowt t rest h before)
    ∙ turn_of-front keys start end nowt (get_trxn_id t) (zlib.compress (allstr t)) rest reads before
        h.small from to

ne_nil : (t : Trxn) → get_trxn_id t ≢ []
unfolding get_trxn_id
ne_nil t e = cc (id-some t, ap (λ x. ltb (length x) 1) e)

time-c_str : (t : Trxn) → IsPrintable t → c_str t.timestamp ≡ t.timestamp
time-c_str t h =
    let (id, (beacon, (sender, (receiver, (amount, (timestamp, others)))))) = h.plain_data in
    c_str-Free t.timestamp timestamp.1

-- The id of a loggable transaction names its sender.
pub id_sender-get_trxn_id :
    (t : Trxn)
    → IsPrintable t
    → Free b':' t.sender
    → Free b':' t.timestamp
    → id_sender (get_trxn_id t) ≡ t.sender
unfolding id_sender get_trxn_id join
id_sender-get_trxn_id t h k1 k2 =
    let clean = id-c_str t h in
    let pieces : (StrSplit.init (get_trxn_id t) b':' false).list ≡ t.timestamp ∷ t.sender ∷ [] =
      init-split b':' (get_trxn_id t) (λ e. ne_nil t (sym clean ∙ e))
      ∙ ap (split b':') clean
      ∙ split-join b':' t.timestamp (t.sender ∷ []) (k2, (k1, tt)) in
    let two : ltb_ℤ (size (StrSplit.init (get_trxn_id t) b':' false)) (pos 2) ≡ false =
      ap (λ n. ltb_ℤ n (pos 2)) (size-init (get_trxn_id t) b':')
      ∙ ap (λ x. ltb_ℤ (pos (length x)) (pos 2)) pieces in
    rw two (index-init (get_trxn_id t) b':' false 1 ∙ ap (λ x. get_or x 1 []) pieces)

append_long : (xs : Bytes) (c : ℕ) → 0 < length (xs ++ c ∷ [])
append_long xs c = omega (arith, length-append xs (c ∷ []))

pub wal_record_long : (zlib : Zlib) (nowt : ℕ) (t : Trxn) → 0 < length (wal_record zlib nowt t)
unfolding wal_record
wal_record_long zlib nowt t = append_long _ b'|'

pub read_turn_nil : (keys : Keys) (start end : ℕ) → read_turn keys start end [] ≡ stop
unfolding read_turn read_front read_time read_field c_str
read_turn_nil keys start end = refl

read_field-long :
    (j : ℕ) (field rest : Bytes)
    → Free b'-' field
    → 61 < j + length field
    → j ≤ 61
    → read_field j (field ++ b'-' ∷ rest) ≡ none
unfolding read_field
read_field-long j [] rest h long low = absurd (omega (arith, long, low))
read_field-long j (c ∷ field) rest h long low = elim (Bool-cases (ltb 60 j)) [
  | inl full ↦ ground (arith, h.0, full)
  | inr room ↦
      rw (read_field-long (suc j) field rest h.1 (omega (arith, long)) (ground (arith, room)))
        (ground (arith, h.0, room))
]

-- At a record with a longer id the replay stops.
pub read_turn-long :
    (keys : Keys) (zlib : Zlib) (start end nowt : ℕ) (t : Trxn) (rest : Bytes)
    → IsPrintable t
    → nowt < 2 ^ 63
    → Free b'-' (get_trxn_id t)
    → 61 < length (get_trxn_id t)
    → read_turn keys start end (wal_record zlib nowt t ++ rest) ≡ stop
unfolding read_turn read_front read_time read_id right_nested turn_of
read_turn-long keys zlib start end nowt t rest k before clean long =
    let behind_size =
      to_string (length (zlib.compress (allstr t)))
      ++ b'-' ∷ (zlib.compress (allstr t) ++ b'|' ∷ rest) in
    rw
      (
        wal_record-append zlib nowt t rest k,
        read_field-number nowt (get_trxn_id t ++ b'-' ∷ behind_size) before,
        c_str-number nowt,
        number-some nowt,
        read_field-long 0 (get_trxn_id t) behind_size clean (omega (arith, long)) (omega arith),
      )
      refl
