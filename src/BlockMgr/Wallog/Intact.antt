-- ===== src/BlockMgr/Wallog/Intact.antt =====
-- src/blockmgr.cc: the replay of a node's own log, where the node has lost nothing.
use mathlib.Core.List.{append_assoc, append-nil}
use mathlib.Core.Option
use omicro.Base.{
  ℕ, ◌/◌, ◌≡◌, ◌∙◌, refl, sym, ap, subst, Bool, true, false, List, [], ◌∷◌, ◌++◌, Bool-cases, inl,
  inr, Bytes, All, Option, some, none,
}
use omicro.Base.Int.{ℤ, pos, is_negative}
use omicro.Base.Dict.{Dict}
use omicro.Trxn.{Trxn, Keys, Reals}
use omicro.Blocks.{Stream, append_to_blockchain, mark_success, fclose}
use omicro.Blocks.Storing.{IsStorable}
use omicro.Blocks.Growing.{AllWhole, IsFound, AllWhole-fclose, IsFound-fclose, IsFound-fclose_self}
use omicro.Blocks.Lookup.{append_to_blockchain-some, stored_stream}
use omicro.BlockMgr.{Cabinet, BlockMgr, System}
use omicro.BlockMgr.Saving.{perform, append_trxn, finish, has_receiver}
use omicro.BlockMgr.Journal.{append_trxn-receiver, append_receiver-both}
use omicro.BlockMgr.Kept.{perform-kept}
use omicro.BlockMgr.Wallog.{
  Zlib, wal_record, receive_trxn_wal, save_trxn_wal, Replayed, replay_wallog,
}
use omicro.BlockMgr.Wallog.Records.{ReadsPrinted}
use omicro.BlockMgr.Wallog.Replay.{
  wal_log, AllTreated, at_start, redo_all-found, replay_wallog-wal_log,
}

module _ (keys : Keys) (zlib : Zlib) (r : Reals) (sys : System r) (c : Cabinet) where
  abbrev State : Type 0
  State = BlockMgr c

  abbrev Found : Dict Bytes → Trxn → Type 0
  Found files t = IsFound sys.disk sys.data_dir sys.srv_port files t

  -- Files that still are whole and tell what they told, and the new transaction.
  abbrev Grown : Dict Bytes → Dict Bytes → Trxn → Type 0
  Grown files more t = AllWhole more × ((u : Trxn) → Found files u → Found more u) × Found more t

  Grown-fclose :
      (files : Dict Bytes) (fp : Stream) (t : Trxn)
      → AllWhole files
      → IsStorable t
      → append_to_blockchain sys.disk sys.data_dir files t t.sender b'-'
          (sys.disk.yyyymmddhh t.timestamp)
        ≡ some fp
      → Grown files (fclose (mark_success fp) files) t
  Grown-fclose files fp t whole k opened =
      let hour = sys.disk.yyyymmddhh t.timestamp in
      let (path, printed) =
        stored_stream sys.disk sys.data_dir files t t.sender b'-' hour fp opened in
      let fp1 = mark_success fp in
      (
        AllWhole-fclose sys.disk sys.data_dir sys.srv_port files fp1 b'-' t whole k printed,
        λ u found.
            IsFound-fclose sys.disk sys.data_dir sys.srv_port files fp1 b'-' t u whole k printed
              found,
        IsFound-fclose_self sys.disk sys.data_dir sys.srv_port files fp1 b'-' t whole k printed
            path,
      )

  -- A second record, in the file of the receiver.
  Grown-receiver :
      (files files1 more : Dict Bytes) (fp : Stream) (t : Trxn)
      → Grown files more t
      → IsStorable t
      → append_to_blockchain sys.disk sys.data_dir files1 t t.receiver b'+'
          (sys.disk.yyyymmddhh t.timestamp)
        ≡ some fp
      → Grown files (fclose (mark_success fp) more) t
  Grown-receiver files files1 more fp t (whole, keeps, own) k opened =
      let hour = sys.disk.yyyymmddhh t.timestamp in
      let (path, printed) =
        stored_stream sys.disk sys.data_dir files1 t t.receiver b'+' hour fp opened in
      let fp1 = mark_success fp in
      (
        AllWhole-fclose sys.disk sys.data_dir sys.srv_port more fp1 b'+' t whole k printed,
        λ u found.
            IsFound-fclose sys.disk sys.data_dir sys.srv_port more fp1 b'+' t u whole k printed
              (keeps u found),
        IsFound-fclose sys.disk sys.data_dir sys.srv_port more fp1 b'+' t t whole k printed own,
      )

  abbrev pub AllOpen : Type 0
  AllOpen = (path : Bytes) → sys.disk.openable path ≡ true

  append_trxn-alone :
      (s : State) (t : Trxn) (hour : Bytes) (fp1 : Stream)
      → has_receiver r sys c t ≡ false
      → append_to_blockchain sys.disk sys.data_dir s.blocks t t.sender b'-' hour ≡ some fp1
      → append_trxn r sys c s t hour ≡ (finish r sys c s t fp1 none, pos 0, [])
  unfolding append_trxn
  append_trxn-alone s t hour fp1 one e = rw (append_trxn, e, one) refl

  append_trxn-Grown :
      (s : State) (t : Trxn)
      → AllOpen
      → AllWhole s.blocks
      → IsStorable t
      → Grown s.blocks (append_trxn r sys c s t (sys.disk.yyyymmddhh t.timestamp)).0.blocks t
  unfolding finish
  append_trxn-Grown s t opens whole k =
      let hour = sys.disk.yyyymmddhh t.timestamp in
      let (fp1, e1) =
        append_to_blockchain-some sys.disk sys.data_dir s.blocks t t.sender b'-' hour (opens _) in
      let (fp2, e2) =
        append_to_blockchain-some sys.disk sys.data_dir s.blocks t t.receiver b'+' hour (opens _) in
      let first = Grown-fclose s.blocks fp1 t whole k e1 in
      elim (Bool-cases (has_receiver r sys c t)) [
        | inl two ↦
            rw
              (append_trxn-receiver r sys c s t hour fp1 two e1
                ∙ append_receiver-both r sys c s t hour fp1 fp2 e2)
              (Grown-receiver s.blocks s.blocks (fclose (mark_success fp1) s.blocks) fp2 t first k
                e2)
        | inr one ↦ rw (append_trxn-alone s t hour fp1 one e1) first
      ]

  abbrev Treated : Bool → Bytes → ℕ → ℕ → List (ℕ × Trxn) → Type 0
  Treated = AllTreated keys zlib r sys c

  -- `time(NULL)` at every entry.
  abbrev pub log_time : ℕ
  log_time = keys.now_us / 1000000

  -- The entry of a transaction that is carried out is one that a replay treats, and its record can
  -- be stored.
  abbrev pub IsKept : Bool → Bytes → ℕ → ℕ → State → Trxn → Type 0
  IsKept verify sec_key start end s t =
      is_negative (perform r sys c s t).1.1 ≡ false
      → IsStorable (perform r sys c s t).0
        × Treated verify sec_key start end ((log_time, (perform r sys c s t).0) ∷ [])

  -- The states and logs that a node gets to, from a state and an empty log, by receiving such
  -- transactions, whatever their return codes are.
  pub data Reaches (verify : Bool) (sec_key : Bytes) (start end : ℕ) (s0 : State)
      : State → Bytes → Type 0 where
    here : Reaches verify sec_key start end s0 s0 []
    next :
        {s s1 : State} {log log1 : Bytes} (t : Trxn) (rc : ℤ) (errmsg : Bytes)
        → Reaches verify sec_key start end s0 s log
        → IsKept verify sec_key start end s t
        → receive_trxn_wal keys zlib r sys c s (some log) t ≡ ((s1, rc, errmsg), some log1)
        → Reaches verify sec_key start end s0 s1 log1

  receive_trxn_wal-refused :
      (s : State) (wallog : Option Bytes) (t : Trxn)
      → is_negative (perform r sys c s t).1.1 ≡ true
      → receive_trxn_wal keys zlib r sys c s wallog t ≡ ((perform r sys c s t).1, wallog)
  unfolding receive_trxn_wal save_trxn_wal
  receive_trxn_wal-refused s wallog t h = rw h refl

  receive_trxn_wal-done :
      (s : State) (text : Bytes) (t : Trxn)
      → is_negative (perform r sys c s t).1.1 ≡ false
      → receive_trxn_wal keys zlib r sys c s (some text) t ≡ (
        append_trxn r sys c
            (perform r sys c s t).1.0
            (perform r sys c s t).0
            (sys.disk.yyyymmddhh t.timestamp),
        some (text ++ wal_record zlib log_time (perform r sys c s t).0),
      )
  unfolding receive_trxn_wal save_trxn_wal
  receive_trxn_wal-done s text t h = rw h refl

  -- What holds of a state and its log.
  abbrev Inv : Bool → Bytes → ℕ → ℕ → State → Bytes → Type 0
  Inv verify sec_key start end s log =
      (entries : List (ℕ × Trxn)) × (log ≡ wal_log zlib entries)
      × Treated verify sec_key start end entries
      × All (λ e. Found s.blocks e.1) entries
      × AllWhole s.blocks

  Treated-append :
      (verify : Bool) (sec_key : Bytes) (start end : ℕ) (entries : List (ℕ × Trxn)) (e : ℕ × Trxn)
      → Treated verify sec_key start end entries
      → Treated verify sec_key start end (e ∷ [])
      → Treated verify sec_key start end (entries ++ e ∷ [])
  Treated-append verify sec_key start end [] e h k = k
  Treated-append verify sec_key start end (x ∷ entries) e (a, b, d, f, g, others) k =
      (a, b, d, f, g, Treated-append verify sec_key start end entries e others k)

  wal_log-append :
      (entries : List (ℕ × Trxn)) (nowt : ℕ) (t : Trxn)
      → wal_log zlib (entries ++ (nowt, t) ∷ []) ≡ wal_log zlib entries ++ wal_record zlib nowt t
  unfolding wal_log
  wal_log-append [] nowt t = append-nil (wal_record zlib nowt t)
  wal_log-append ((n, u) ∷ entries) nowt t =
      ap (λ x. wal_record zlib n u ++ x) (wal_log-append entries nowt t)
      ∙ sym (append_assoc (wal_record zlib n u) (wal_log zlib entries) (wal_record zlib nowt t))

  Found-append :
      (files more : Dict Bytes) (entries : List (ℕ × Trxn)) (nowt : ℕ) (t : Trxn)
      → ((u : Trxn) → Found files u → Found more u)
      → Found more t
      → All (λ e. Found files e.1) entries
      → All (λ e. Found more e.1) (entries ++ (nowt, t) ∷ [])
  Found-append files more [] nowt t keeps own h = (own, tt)
  Found-append files more ((n, u) ∷ entries) nowt t keeps own h =
      (keeps u h.0, Found-append files more entries nowt t keeps own h.1)

  Inv-done :
      (verify : Bool) (sec_key : Bytes) (start end : ℕ) (s : State) (log : Bytes) (t : Trxn)
      → AllOpen
      → IsKept verify sec_key start end s t
      → Inv verify sec_key start end s log
      → is_negative (perform r sys c s t).1.1 ≡ false
      → Inv verify sec_key start end
          (append_trxn r sys c
            (perform r sys c s t).1.0
            (perform r sys c s t).0
            (sys.disk.yyyymmddhh t.timestamp)).0
          (log ++ wal_record zlib log_time (perform r sys c s t).0)
  Inv-done verify sec_key start end s log t opens kept (entries, text, treated, found, whole) good =
      let t1 = (perform r sys c s t).0 in
      let s2 = (perform r sys c s t).1.0 in
      let (storable, entry) = kept good in
      let (blocks, sender, timestamp) = perform-kept r sys c s t in
      let (whole1, keeps, own) =
        append_trxn-Grown s2 t1 opens (subst AllWhole (sym blocks) whole) storable in
      let before : All (λ e. Found s2.blocks e.1) entries =
        subst (λ b. All (λ e. Found b e.1) entries) (sym blocks) found in
      subst
        (λ h.
          Inv verify sec_key start end (append_trxn r sys c s2 t1 (sys.disk.yyyymmddhh h)).0
            (log ++ wal_record zlib log_time t1))
        timestamp
        (
          entries ++ (log_time, t1) ∷ [],
          ap (λ x. x ++ wal_record zlib log_time t1) text
              ∙ sym (wal_log-append entries log_time t1),
          Treated-append verify sec_key start end entries (log_time, t1) treated entry,
          Found-append s2.blocks _ entries log_time t1 keeps own before,
          whole1,
        )

  Inv-refused :
      (verify : Bool) (sec_key : Bytes) (start end : ℕ) (s : State) (log : Bytes) (t : Trxn)
      → Inv verify sec_key start end s log
      → Inv verify sec_key start end (perform r sys c s t).1.0 log
  Inv-refused verify sec_key start end s log t (entries, text, treated, found, whole) =
      let blocks = sym (perform-kept r sys c s t).0 in
      (
        entries,
        text,
        treated,
        subst (λ b. All (λ e. Found b e.1) entries) blocks found,
        subst AllWhole blocks whole,
      )

  Reaches-Inv :
      (verify : Bool) (sec_key : Bytes) (start end : ℕ) {s0 s : State} {log : Bytes}
      → AllOpen
      → AllWhole s0.blocks
      → Reaches verify sec_key start end s0 s log
      → Inv verify sec_key start end s log
  unfolding wal_log
  Reaches-Inv verify sec_key start end opens whole here = ([], refl, tt, tt, whole)
  Reaches-Inv verify sec_key start end opens whole
        (next {s} {s1} {log} {log1} t rc errmsg before kept step) =
      let inv = Reaches-Inv verify sec_key start end opens whole before in
      elim (Bool-cases (is_negative (perform r sys c s t).1.1)) [
        | inl refused ↦
            let e = sym step ∙ receive_trxn_wal-refused s (some log) t refused in
            let same : log ≡ log1 = cc (ap (λ x. x.1) e) in
            subst (λ x. Inv verify sec_key start end x log1) (sym (ap (λ x. x.0.0) e))
              (subst (λ l. Inv verify sec_key start end (perform r sys c s t).1.0 l) same
                (Inv-refused verify sec_key start end s log t inv))
        | inr good ↦
            let e = sym step ∙ receive_trxn_wal-done s log t good in
            let longer : log ++ wal_record zlib log_time (perform r sys c s t).0 ≡ log1 =
              cc (ap (λ x. x.1) e) in
            subst (λ x. Inv verify sec_key start end x log1) (sym (ap (λ x. x.0.0) e))
              (subst
                (Inv verify sec_key start end
                  (append_trxn r sys c (perform r sys c s t).1.0 (perform r sys c s t).0
                    (sys.disk.yyyymmddhh t.timestamp)).0)
                longer (Inv-done verify sec_key start end s log t opens kept inv good))
      ]

  -- On a disk on which every file can be opened, a node that starts with files of whole records and
  -- an empty log, and receives any transactions, of which those that it carries out can be logged
  -- and stored, were logged within the bounds and have good signatures where these are checked:
  -- whatever their return codes are, a replay of the log leaves the node's state as it is. `atol` is
  -- taken to read what "%lu" prints, and one time is taken for all log records.
  pub replay_wallog-Reaches :
      (verify : Bool) (sec_key : Bytes) (start end : ℕ) {s0 s : State} {log : Bytes}
      → AllOpen
      → AllWhole s0.blocks
      → ReadsPrinted keys
      → Reaches verify sec_key start end s0 s log
      → Option.map
          (λ (p : Replayed keys zlib r sys c). p.state)
          (replay_wallog keys zlib r sys c s log verify sec_key start end)
        ≡ some s
  replay_wallog-Reaches verify sec_key start end {s0} {s} {log} opens whole reads reached =
      let (entries, text, treated, found, whole1) =
        Reaches-Inv verify sec_key start end opens whole reached in
      ap
        (λ l.
          Option.map (λ (p : Replayed keys zlib r sys c). p.state)
            (replay_wallog keys zlib r sys c s l verify sec_key start end))
        text
      ∙ ap (Option.map (λ (p : Replayed keys zlib r sys c). p.state)) (
          replay_wallog-wal_log keys zlib r sys c s verify sec_key start end entries reads treated
          ∙ ap some (redo_all-found keys zlib r sys c (at_start keys zlib r sys c s) entries found))
