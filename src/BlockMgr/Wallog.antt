-- ===== src/BlockMgr/Wallog.antt =====
-- src/blockmgr.cc: the write-ahead log, which `saveTrxn` appends to, and its replay. The clock, the
-- signatures and `atol` are arguments (`Keys`), and so is zlib. The log is the bytes of its file;
-- where it cannot be opened, or is switched off, there is none. A partial write is not treated.
pub mod Records
pub mod Replay
pub mod Intact
use omicro.Base.{
  ℕ, zero, suc, ◌+◌, ◌/◌, ◌%◌, ◌^◌, ◌≡◌, Bool, true, false, not, ◌&&◌, [], ◌∷◌, ◌++◌, ◌==◌, ltb,
  leb, if◌then◌else◌, Bytes, eqb, c_str, length, Option, none, some,
}
use omicro.Base.Int.{ℤ, pos, is_negative, ltb_ℤ}
use omicro.Base.Decimal.{to_string}
use omicro.StrSplit
use omicro.StrSplit.{index, size}
use omicro.Trxn.{Trxn, Keys, Reals, init, allstr, get_trxn_id, validate_trxn_untimed}
use omicro.Blocks.{finds_none, read_trxns}
use omicro.BlockMgr.{Cabinet, BlockMgr, System}
use omicro.BlockMgr.Saving.{perform, append_trxn, save_trxn}

-- `ZlibCompress`, loops that append what zlib gives: what is compressed is read back.
pub record Zlib : Type 0 where
  pub compress : Bytes → Bytes
  pub uncompress : Bytes → Bytes
  pub uncompress-compress : (x : Bytes) → uncompress (compress x) ≡ x

-- `fprintf` of "%lu-%s-%lu-", the compressed transaction and "|".
unfoldable pub wal_record : Zlib → ℕ → Trxn → Bytes
unfolding allstr get_trxn_id
wal_record zlib nowt t =
    let zip = zlib.compress (allstr t) in
    to_string nowt
    ++ b'-' ∷ c_str (get_trxn_id t)
    ++ b'-' ∷ to_string (length zip)
    ++ b'-' ∷ zip
    ++ b'|' ∷ []

-- One field of a record, up to a dash or the end of the file, and the rest; `none` where another byte
-- than a dash follows 61 bytes. `j` is the number of bytes read.
unfoldable pub read_field : ℕ → Bytes → Option (Bytes × Bytes)
read_field j [] = some ([], [])
read_field j (c ∷ s) =
    let later = read_field (suc j) s in
    if c == b'-'
    then some ([], s)
    else if ltb 60 j
    then none
    else elim later [ none ↦ none | some (field, rest) ↦ some (c ∷ field, rest) ]

-- The buffer after a read of so many bytes, with zeros where the file has fewer, and the rest.
unfoldable pub read_padded : ℕ → Bytes → Bytes × Bytes
read_padded zero s = ([], s)
read_padded (suc n) [] = let (buf, rest) = read_padded n [] in (0 ∷ buf, rest)
read_padded (suc n) (c ∷ s) = let (buf, rest) = read_padded n s in (c ∷ buf, rest)

-- `lseek` forward, and a read that is not looked at.
unfoldable pub seek : ℕ → Bytes → Bytes
seek zero s = s
seek (suc n) [] = []
seek (suc n) (c ∷ s) = seek n s

-- The three fields of a record, or the end of the replay.
pub data Front : Type 0 where
  ended : Front
  front : Bytes → Bytes → Bytes → Bytes → Front

read_size : Bytes → Bytes → Option (Bytes × Bytes) → Front
read_size logtime trxnid none = ended
read_size logtime trxnid (some (field, rest)) =
    if ltb (length (c_str field)) 1 then ended else front logtime trxnid (c_str field) rest

read_id : Bytes → Option (Bytes × Bytes) → Front
unfolding read_size read_field
read_id logtime none = ended
read_id logtime (some (field, rest)) =
    if ltb (length (c_str field)) 1
    then ended
    else read_size logtime (c_str field) (read_field 0 rest)

read_time : Option (Bytes × Bytes) → Front
unfolding read_id read_field
read_time none = ended
read_time (some (field, rest)) =
    if ltb (length (c_str field)) 1 then ended else read_id (c_str field) (read_field 0 rest)

unfoldable pub read_front : Bytes → Front
unfolding read_time read_field
read_front s = read_time (read_field 0 s)

-- What to do next: stop, pass over a record, or treat one. `start` and `end` bound the log time.
pub data Turn : Type 0 where
  stop : Turn
  pass : Bytes → Turn
  treat : Bytes → Bytes → Bytes → Turn

turn_of : Keys → ℕ → ℕ → Front → Turn
unfolding read_padded seek
turn_of keys start end ended = stop
turn_of keys start end (front logtime_text trxnid size_text rest) =
    let logtime = keys.atol logtime_text in
    let zipsize = keys.atol size_text % 2 ^ 32 in
    let (zipmsg, behind) = read_padded zipsize rest in
    if leb start logtime && leb logtime end
    then treat trxnid zipmsg (seek 1 behind)
    else if ltb end logtime
    then stop
    else pass (seek ((zipsize + 1) % 2 ^ 32) rest)

unfoldable pub read_turn : Keys → ℕ → ℕ → Bytes → Turn
unfolding read_front turn_of
read_turn keys start end s = turn_of keys start end (read_front s)

-- `sp[1]` of an id that has two parts.
unfoldable pub id_sender : Bytes → Bytes
id_sender trxnid =
    let sp = StrSplit.init trxnid b':' false in
    if ltb_ℤ (size sp) (pos 2) then [] else index sp (pos 1)

module _ (keys : Keys) (zlib : Zlib) (r : Reals) (sys : System r) (c : Cabinet) where
  abbrev State : Type 0
  State = BlockMgr c

  -- `saveTrxn` with the log, and the log after it. The record is written when the accounts have
  -- changed, before the files of transactions.
  unfoldable pub save_trxn_wal :
      State → Option Bytes → Trxn → Bool → (State × ℤ × Bytes) × Option Bytes
  unfolding wal_record
  save_trxn_wal s wallog t dowal =
      let (t1, result) = perform r sys c s t in
      let (s1, urc, errmsg) = result in
      let logged : Option Bytes = elim wallog [
        | none ↦ none
        | some text ↦
            if dowal then some (text ++ wal_record zlib (keys.now_us / 1000000) t1) else some text
      ] in
      if is_negative urc
      then ((s1, urc, errmsg), wallog)
      else (append_trxn r sys c s1 t1 (sys.disk.yyyymmddhh t.timestamp), logged)

  unfoldable pub receive_trxn_wal : State → Option Bytes → Trxn → (State × ℤ × Bytes) × Option Bytes
  unfolding save_trxn_wal
  receive_trxn_wal s wallog t = save_trxn_wal s wallog t true

  abbrev pub is_new : State → Trxn → Bool
  is_new s t =
      finds_none (
        read_trxns sys.disk sys.data_dir sys.srv_port s.blocks t.sender t.timestamp (get_trxn_id t))

  -- The state and the counts of good and bad records.
  pub record Replayed : Type 0 where
    pub state : State
    pub okcnt : ℕ
    pub errcnt : ℕ

  bad : Replayed → Replayed
  bad p = record p { errcnt = suc p.errcnt }

  -- A transaction that no reader finds is saved; `saveTrxn` is called without the log.
  unfoldable pub redo : Replayed → Trxn → Replayed
  unfolding bad
  redo p t =
      let (s1, src, err) = save_trxn r sys c p.state t in
      if is_new p.state t
      then (if is_negative src
          then bad (record p { state = s1 })
          else record p { state = s1; okcnt = suc p.okcnt })
      else bad p

  -- One record of the log.
  unfoldable pub replay_record : Bool → Bytes → Replayed → Bytes → Bytes → Replayed
  unfolding bad
  replay_record verify sec_key p trxnid zipmsg =
      let t = init keys.fresh_beacon (c_str (zlib.uncompress zipmsg)) in
      if verify && not (validate_trxn_untimed r keys sec_key t)
      then bad p
      else if not (eqb (get_trxn_id t) trxnid)
      then bad p
      else if not (eqb (id_sender (get_trxn_id t)) t.sender)
      then bad p
      else redo p t

  -- The loop, on fuel; `none` is a run out of fuel.
  unfoldable pub replay_loop : ℕ → Bool → Bytes → ℕ → ℕ → Replayed → Bytes → Option Replayed
  replay_loop zero verify sec_key start end p s = none
  replay_loop (suc fuel) verify sec_key start end p s = elim (read_turn keys start end s) [
    | stop ↦ some p
    | pass rest ↦ replay_loop fuel verify sec_key start end p rest
    | treat trxnid zipmsg rest ↦
        replay_loop fuel verify sec_key start end (replay_record verify sec_key p trxnid zipmsg)
          rest
  ]

  -- Every record takes a byte at least.
  unfoldable pub replay_wallog : State → Bytes → Bool → Bytes → ℕ → ℕ → Option Replayed
  replay_wallog s log verify sec_key start end =
      replay_loop (suc (length log)) verify sec_key start end
        (record { state = s; okcnt = 0; errcnt = 0 }) log

  -- The node's own log, whose signatures are checked.
  unfoldable pub replay_local_wallog : State → Bytes → Bytes → ℕ → ℕ → Option Replayed
  replay_local_wallog s log sec_key start end = replay_wallog s log true sec_key start end
