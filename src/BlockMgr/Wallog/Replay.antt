-- ===== src/BlockMgr/Wallog/Replay.antt =====
-- src/blockmgr.cc: `replayWallog` on a log of whole records.
use mathlib.Core.List.{append_assoc, append-nil}
use mathlib.Core.Option
use omicro.Base.{
  ℕ, zero, suc, ◌+◌, ◌/◌, ◌^◌, ◌≤◌, ◌<◌, ◌≡◌, ◌∙◌, refl, sym, ap, Bool, true, false, not, ◌&&◌,
  if◌then◌else◌, Bool-cases, inl, inr, List, [], ◌∷◌, ◌++◌, arith, Bytes, eqb_refl, c_str,
  c_str-Free, Free, length, length-append, All, Option, some, none,
}
use omicro.Base.Int.{pos, neg, is_negative}
use omicro.Trxn.{Trxn, Keys, Reals, init, allstr, get_trxn_id, validate_trxn_untimed}
use omicro.Trxn.RoundTrip.{IsPrintable, init-allstr, allstr-Free}
use omicro.Blocks.{append_to_blockchain, read_trxns}
use omicro.BlockMgr.{Cabinet, BlockMgr, System}
use omicro.BlockMgr.Saving.{perform, save_trxn, append_trxn}
use omicro.Blocks.Lookup.{append_to_blockchain-none}
use omicro.BlockMgr.Journal.{file_of}
use omicro.BlockMgr.Wallog.{
  Zlib, wal_record, stop, read_turn, save_trxn_wal, receive_trxn_wal, finds_none, is_new, Replayed,
  bad, redo, replay_record, replay_loop, replay_wallog,
}
use omicro.BlockMgr.Wallog.Records.{
  IsLoggable, ReadsPrinted, read_turn_nil, read_turn-long, read_turn-wal_record,
  id_sender-get_trxn_id, wal_record_long,
}

-- The log of some transactions, each with the time at which it was logged.
unfoldable pub wal_log : Zlib → List (ℕ × Trxn) → Bytes
wal_log zlib [] = []
wal_log zlib ((nowt, t) ∷ entries) = wal_record zlib nowt t ++ wal_log zlib entries

length-wal_log :
    (zlib : Zlib) (entries : List (ℕ × Trxn)) → length entries ≤ length (wal_log zlib entries)
unfolding wal_log
length-wal_log zlib [] = omega arith
length-wal_log zlib ((nowt, t) ∷ entries) = omega (
  arith,
  length-wal_log zlib entries,
  wal_record_long zlib nowt t,
  length-append (wal_record zlib nowt t) (wal_log zlib entries),
)

module _ (keys : Keys) (zlib : Zlib) (r : Reals) (sys : System r) (c : Cabinet) where
  abbrev State : Type 0
  State = BlockMgr c

  abbrev Result : Type 0
  Result = Replayed keys zlib r sys c

  -- What a replay does with one transaction, written out: where the reader of the files finds none
  -- with its id, it is saved, which counts as done unless the return code is negative; in all other
  -- cases nothing is changed and an error is counted.
  unfoldable pub redone : Result → Trxn → Result
  redone p t =
      let stored =
        read_trxns sys.disk sys.data_dir sys.srv_port p.state.blocks t.sender t.timestamp
          (get_trxn_id t) in
      let (s1, rc, errmsg) = save_trxn r sys c p.state t in
      if not (finds_none stored)
      then record { state = p.state; okcnt = p.okcnt; errcnt = p.errcnt + 1 }
      else if is_negative rc
      then record { state = s1; okcnt = p.okcnt; errcnt = p.errcnt + 1 }
      else record { state = s1; okcnt = p.okcnt + 1; errcnt = p.errcnt }

  -- The transactions one after the other.
  unfoldable pub redo_all : Result → List (ℕ × Trxn) → Result
  unfolding redone
  redo_all p [] = p
  redo_all p ((nowt, t) ∷ entries) = redo_all (redone p t) entries

  redo-redone : (p : Result) (t : Trxn) → redo keys zlib r sys c p t ≡ redone p t
  unfolding redo redone bad
  redo-redone p t =
      let stored =
        read_trxns sys.disk sys.data_dir sys.srv_port p.state.blocks t.sender t.timestamp
          (get_trxn_id t) in
      let s1 = (save_trxn r sys c p.state t).0 in
      let failing : ℕ → Result = λ n. record { state = s1; okcnt = p.okcnt; errcnt = n } in
      let counting : ℕ → Result = λ n. record { state = s1; okcnt = n; errcnt = p.errcnt } in
      elim (Bool-cases (finds_none stored)) [
        | inl fresh ↦ elim (Bool-cases (is_negative (save_trxn r sys c p.state t).1)) [
          | inl failed ↦ rw (fresh, failed) (ap failing (omega arith))
          | inr done ↦ rw (fresh, done) (ap counting (omega arith))
        ]
        | inr there ↦ rw there (ap (λ n. record p { errcnt = n }) (omega arith))
      ]

  -- Entries that a replay with these bounds treats: they can be logged, were logged within the
  -- bounds and, where signatures are checked, have good ones.
  abbrev pub AllTreated : Bool → Bytes → ℕ → ℕ → List (ℕ × Trxn) → Type 0
  AllTreated verify sec_key start end [] = Unit
  AllTreated verify sec_key start end ((nowt, t) ∷ entries) =
      IsLoggable zlib t
      × (nowt < 2 ^ 63)
      × (start ≤ nowt)
      × (nowt ≤ end)
      × ((verify && not (validate_trxn_untimed r keys sec_key t)) ≡ false)
      × AllTreated verify sec_key start end entries

  replay_record-redone :
      (verify : Bool) (sec_key : Bytes) (p : Result) (t : Trxn)
      → IsLoggable zlib t
      → (verify && not (validate_trxn_untimed r keys sec_key t)) ≡ false
      → replay_record keys zlib r sys c verify sec_key p (get_trxn_id t) (zlib.compress (allstr t))
        ≡ redone p t
  unfolding replay_record
  replay_record-redone verify sec_key p t h good =
      let same : init keys.fresh_beacon (c_str (zlib.uncompress (zlib.compress (allstr t)))) ≡ t =
        ap (λ x. init keys.fresh_beacon (c_str x)) (zlib.uncompress-compress (allstr t))
        ∙ ap (init keys.fresh_beacon) (c_str-Free (allstr t) (allstr-Free t h.printable))
        ∙ init-allstr keys.fresh_beacon t h.printable in
      rw
        (
          same,
          good,
          eqb_refl (get_trxn_id t),
          id_sender-get_trxn_id t h.printable h.plain_sender h.plain_time,
          eqb_refl t.sender,
        )
        (redo-redone p t)

  -- Whole records, and behind them something at which the replay stops.
  replay_loop-wal_log :
      (fuel : ℕ) (verify : Bool) (sec_key : Bytes) (start end : ℕ) (p : Result)
      (entries : List (ℕ × Trxn)) (tail : Bytes)
      → ReadsPrinted keys
      → AllTreated verify sec_key start end entries
      → read_turn keys start end tail ≡ stop
      → length entries < fuel
      → replay_loop keys zlib r sys c fuel verify sec_key start end p (wal_log zlib entries ++ tail)
        ≡ some (redo_all p entries)
  unfolding replay_loop redo_all wal_log
  replay_loop-wal_log zero verify sec_key start end p entries tail reads h stops enough =
      absurd (omega (arith, enough))
  replay_loop-wal_log (suc fuel) verify sec_key start end p [] tail reads h stops enough =
      rw (replay_loop, stops) refl
  replay_loop-wal_log (suc fuel) verify sec_key start end p ((nowt, t) ∷ entries) tail reads h stops
        enough =
      let (log, before, from, to, good, others) = h in
      rw
        (
          append_assoc (wal_record zlib nowt t) (wal_log zlib entries) tail,
          replay_loop,
          read_turn-wal_record keys zlib start end nowt t (wal_log zlib entries ++ tail) reads log
              before from to,
          replay_record-redone verify sec_key p t log good,
        )
        (replay_loop-wal_log fuel verify sec_key start end (redone p t) entries tail reads others
          stops (omega (arith, enough)))

  abbrev pub at_start : State → Result
  at_start s = record { state = s; okcnt = 0; errcnt = 0 }

  replay_wallog-stop :
      (s : State) (verify : Bool) (sec_key : Bytes) (start end : ℕ) (entries : List (ℕ × Trxn))
      (tail : Bytes)
      → ReadsPrinted keys
      → AllTreated verify sec_key start end entries
      → read_turn keys start end tail ≡ stop
      → replay_wallog keys zlib r sys c s (wal_log zlib entries ++ tail) verify sec_key start end
        ≡ some (redo_all (at_start s) entries)
  unfolding replay_wallog
  replay_wallog-stop s verify sec_key start end entries tail reads h stops =
      replay_loop-wal_log (suc (length (wal_log zlib entries ++ tail))) verify sec_key start end
        (at_start s) entries tail reads h stops
        (omega (arith, length-wal_log zlib entries, length-append (wal_log zlib entries) tail))

  -- A log that holds the records of some transactions, which can be logged, were logged within the
  -- bounds and have good signatures where these are checked, is replayed to its end: the
  -- transactions are treated one after the other; each that the reader finds in the files at that time
  -- counts as an error, and each other is saved, which counts as done unless the return code is
  -- negative, and as an error then. `atol` is taken to read what "%lu"
  -- prints.
  pub replay_wallog-wal_log :
      (s : State) (verify : Bool) (sec_key : Bytes) (start end : ℕ) (entries : List (ℕ × Trxn))
      → ReadsPrinted keys
      → AllTreated verify sec_key start end entries
      → replay_wallog keys zlib r sys c s (wal_log zlib entries) verify sec_key start end
        ≡ some (redo_all (at_start s) entries)
  replay_wallog-wal_log s verify sec_key start end entries reads h =
      ap (λ log. replay_wallog keys zlib r sys c s log verify sec_key start end)
        (sym (append-nil (wal_log zlib entries)))
      ∙ replay_wallog-stop s verify sec_key start end entries [] reads h
          (read_turn_nil keys start end)

  -- A replay of such a log ends at a record of a transaction whose id, without a dash, has more than
  -- 61 bytes, as one with a long sender's name has: whatever stands behind that record is not
  -- treated.
  pub replay_wallog-long :
      (s : State) (verify : Bool) (sec_key : Bytes) (start end nowt : ℕ) (entries : List (ℕ × Trxn))
      (t : Trxn) (rest : Bytes)
      → ReadsPrinted keys
      → AllTreated verify sec_key start end entries
      → IsPrintable t
      → nowt < 2 ^ 63
      → Free b'-' (get_trxn_id t)
      → 61 < length (get_trxn_id t)
      → replay_wallog keys zlib r sys c s
          (wal_log zlib entries ++ (wal_record zlib nowt t ++ rest))
          verify
          sec_key
          start
          end
        ≡ some (redo_all (at_start s) entries)
  replay_wallog-long s verify sec_key start end nowt entries t rest reads h k before clean long =
      replay_wallog-stop s verify sec_key start end entries (wal_record zlib nowt t ++ rest) reads h
        (read_turn-long keys zlib start end nowt t rest k before clean long)

  redone-found :
      (p : Result) (t : Trxn)
      → is_new keys zlib r sys c p.state t ≡ false
      → redone p t ≡ record p { errcnt = suc p.errcnt }
  unfolding redone
  redone-found p t h = rw h (ap (λ n. record p { errcnt = n }) (omega arith))

  abbrev pub AllFound : State → List (ℕ × Trxn) → Type 0
  AllFound s entries = All (λ e. is_new keys zlib r sys c s e.1 ≡ false) entries

  pub redo_all-found :
      (p : Result) (entries : List (ℕ × Trxn))
      → AllFound p.state entries
      → redo_all p entries ≡ record p { errcnt = p.errcnt + length entries }
  unfolding redo_all
  redo_all-found p [] h = ap (λ n. record p { errcnt = n }) (omega arith)
  redo_all-found p ((nowt, t) ∷ entries) h =
      ap (λ x. redo_all x entries) (redone-found p t h.0)
      ∙ redo_all-found (record p { errcnt = suc p.errcnt }) entries h.1
      ∙ ap (λ n. record p { errcnt = n }) (omega arith)

  -- The log with its new record, if there is one.
  abbrev pub log_append : Option Bytes → Trxn → Option Bytes
  log_append none t = none
  log_append (some text) t = some (text ++ wal_record zlib (keys.now_us / 1000000) t)

  pub receive_trxn_wal-performed :
      (s s1 : State) (wallog : Option Bytes) (t t1 : Trxn) (errmsg : Bytes)
      → perform r sys c s t ≡ (t1, (s1, pos 0, errmsg))
      → receive_trxn_wal keys zlib r sys c s wallog t
        ≡ (append_trxn r sys c s1 t1 (sys.disk.yyyymmddhh t.timestamp), log_append wallog t1)
  unfolding receive_trxn_wal save_trxn_wal
  receive_trxn_wal-performed s s1 none t t1 errmsg e = rw (save_trxn_wal, e) refl
  receive_trxn_wal-performed s s1 (some text) t t1 errmsg e = rw (save_trxn_wal, e) refl

  append_trxn-none :
      (s : State) (t : Trxn) (hour : Bytes)
      → append_to_blockchain sys.disk sys.data_dir s.blocks t t.sender b'-' hour ≡ none
      → append_trxn r sys c s t hour ≡ (s, neg 1, [])
  unfolding append_trxn
  append_trxn-none s t hour e = rw (append_trxn, e) refl

  redone-new :
      (p : Result) (t : Trxn)
      → is_new keys zlib r sys c p.state t ≡ true
      → (redone p t).state ≡ (save_trxn r sys c p.state t).0
  unfolding redone
  redone-new p t h = ground (arith, h)

  -- A transaction that changes the accounts (code 0) and whose sender's file cannot be opened is
  -- answered with -1, with the accounts changed and, where there is a log, a record in it. If it
  -- can be logged, has good signatures where these are checked, and no reader finds it, a replay of
  -- that record, with its log time in the bounds, saves it a second time, on the accounts that it
  -- has changed.
  pub receive_trxn_wal-unopened :
      (s s1 : State) (text : Bytes) (t t1 : Trxn) (errmsg : Bytes) (verify : Bool) (sec_key : Bytes)
      (start end : ℕ)
      → perform r sys c s t ≡ (t1, (s1, pos 0, errmsg))
      → sys.disk.openable (file_of r sys c t1.sender t) ≡ false
      → ReadsPrinted keys
      → AllTreated verify sec_key start end ((keys.now_us / 1000000, t1) ∷ [])
      → is_new keys zlib r sys c s1 t1 ≡ true
      → let entry = wal_record zlib (keys.now_us / 1000000) t1 in
        (receive_trxn_wal keys zlib r sys c s (some text) t
          ≡ ((s1, neg 1, []), some (text ++ entry)))
        × (Option.map
              (λ (p : Result). p.state)
              (replay_wallog keys zlib r sys c s1 (entry ++ []) verify sec_key start end)
            ≡ some (save_trxn r sys c s1 t1).0)
  unfolding redo_all wal_log
  receive_trxn_wal-unopened s s1 text t t1 errmsg verify sec_key start end e cannot reads h new =
      let hour = sys.disk.yyyymmddhh t.timestamp in
      (
        receive_trxn_wal-performed s s1 (some text) t t1 errmsg e
            ∙ ap (λ x. (x, log_append (some text) t1))
                (append_trxn-none s1 t1 hour (
                  append_to_blockchain-none sys.disk sys.data_dir s1.blocks t1 t1.sender b'-' hour
                    cannot)),
        ap (Option.map (λ (p : Result). p.state)) (
              replay_wallog-wal_log s1 verify sec_key start end ((keys.now_us / 1000000, t1) ∷ [])
                reads h)
            ∙ ap some (redone-new (at_start s1) t1 new),
      )
