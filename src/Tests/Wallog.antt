-- ===== src/Tests/Wallog.antt =====
-- The theorems of src/blockmgr.cc on the write-ahead log.
use mathlib.Core.Option
use omicro.Base.{
  ℕ, ◌+◌, ◌/◌, ◌^◌, ◌≤◌, ◌<◌, ◌≡◌, ◌∙◌, refl, sym, ap, subst, true, false, List, [], ◌∷◌, ◌++◌,
  arith, Bytes, codes, Free, replicate, length, eqb, c_str, some,
}
use omicro.Base.Int.{ℤ, pos, neg}
use omicro.Base.Dict
use omicro.Base.Decimal.{read_digits, read_digits-to_string}
use omicro.Trxn.{Trxn, Keys, allstr, get_trxn_data, get_trxn_id}
use omicro.Trxn.RoundTrip.{IsPrintable}
use omicro.Blocks.{Disk, read_trxns}
use omicro.BlockMgr.{System, find_save_store}
use omicro.BlockMgr.Payments.{accepted}
use omicro.BlockMgr.Saving.{perform, save_trxn, append_trxn}
use omicro.BlockMgr.Wallog.{Zlib, wal_record, is_new, Replayed, replay_wallog, receive_trxn_wal}
use omicro.BlockMgr.Wallog.Records.{IsLoggable, ReadsPrinted}
use omicro.BlockMgr.Wallog.Replay.{
  wal_log, redo_all, AllTreated, at_start, replay_wallog-wal_log, replay_wallog-long,
  receive_trxn_wal-unopened, receive_trxn_wal-performed,
}
use omicro.BlockMgr.Wallog.Intact.{Reaches, here, next, replay_wallog-Reaches}
use omicro.Blocks.Storing.{IsStorable}
use omicro.Tests.{payment, payment-IsPrintable}
use omicro.Tests.Nodes.{keys}
use omicro.Tests.Payments.{Node, ann, bob, rec, node, ann_store, bob_store}
use omicro.Tests.Journal.{paid_node, performed, nothing_stored, payment-IsStorable}
use omicro.Tests.World.{whole, cabinet, system, disk}

abbrev log_keys : Keys
log_keys = record keys { atol = read_digits 0 }

log_keys-ReadsPrinted : ReadsPrinted log_keys
log_keys-ReadsPrinted n h = read_digits-to_string n (omega (arith, h))

-- Nothing is compressed.
abbrev zlib : Zlib
zlib = record { compress = λ x. x; uncompress = λ x. x; uncompress-compress = λ x. refl }

payment-IsLoggable : IsLoggable zlib payment
unfolding get_trxn_id allstr get_trxn_data
payment-IsLoggable = record {
  printable = payment-IsPrintable;
  short = omega arith;
  no_dash = ground arith;
  plain_sender = ground arith;
  plain_time = ground arith;
  small = omega arith;
}

abbrev entries : List (ℕ × Trxn)
entries = (0, payment) ∷ []

entries-AllTreated : AllTreated log_keys zlib whole system cabinet false [] 0 2000000000 entries
entries-AllTreated = (payment-IsLoggable, omega arith, omega arith, omega arith, refl, tt)

replay_wallog-wal_log_example :
    replay_wallog log_keys zlib whole system cabinet node
      (wal_log zlib entries)
      false
      []
      0
      2000000000
    ≡ some (
        redo_all log_keys zlib whole system cabinet
          (at_start log_keys zlib whole system cabinet node)
          entries)
replay_wallog-wal_log_example =
    replay_wallog-wal_log log_keys zlib whole system cabinet node false [] 0 2000000000 entries
      log_keys-ReadsPrinted entries-AllTreated

-- A sender with a name of 64 bytes.
abbrev long_payment : Trxn
long_payment = record payment { sender = replicate 64 b'a' }

long_payment-IsPrintable : IsPrintable long_payment
long_payment-IsPrintable = record {
  plain_data = ground arith;
  plain_others = ground arith;
  has_beacon = λ e. cc e;
}

long_id : 61 < length (get_trxn_id long_payment)
unfolding get_trxn_id
long_id = omega arith

clean_id : Free b'-' (get_trxn_id long_payment)
unfolding get_trxn_id
clean_id = ground arith

replay_wallog-long_example :
    replay_wallog log_keys zlib whole system cabinet node
      (wal_log zlib entries ++ (wal_record zlib 0 long_payment ++ wal_log zlib entries))
      false
      []
      0
      2000000000
    ≡ some (
        redo_all log_keys zlib whole system cabinet
          (at_start log_keys zlib whole system cabinet node)
          entries)
replay_wallog-long_example =
    replay_wallog-long log_keys zlib whole system cabinet node false [] 0 2000000000 0 entries
      long_payment (wal_log zlib entries) log_keys-ReadsPrinted entries-AllTreated
      long_payment-IsPrintable (omega arith) clean_id long_id

-- A disk on which no file can be opened.
abbrev closed_disk : Disk
closed_disk = record disk { openable = λ path. false }

abbrev closed_system : System whole
closed_system = record system { disk = closed_disk }

closed_ann : find_save_store whole closed_system cabinet node ann ≡ (node, some (ann_store, rec))
unfolding find_save_store omicro.Base.Dict.find c_str eqb
closed_ann = refl

closed_bob : find_save_store whole closed_system cabinet node bob ≡ (node, some (bob_store, rec))
unfolding find_save_store omicro.Base.Dict.find c_str eqb
closed_bob = refl

closed_performed :
    perform whole closed_system cabinet node payment ≡ (payment, (paid_node, pos 0, []))
unfolding perform eqb
closed_performed =
    ap (λ x. (payment, x))
      (accepted whole closed_system cabinet node node node payment (ann_store, rec) (bob_store, rec)
        closed_ann closed_bob refl)

not_found : is_new log_keys zlib whole closed_system cabinet paid_node payment ≡ true
unfolding read_trxns omicro.Base.Dict.find omicro.Base.Dict.empty omicro.BlockMgr.put
not_found = refl

closed-AllTreated :
    AllTreated log_keys zlib whole closed_system cabinet false [] 0 2000000000 entries
closed-AllTreated = (payment-IsLoggable, omega arith, omega arith, omega arith, refl, tt)

receive_trxn_wal-unopened_example :
    (receive_trxn_wal log_keys zlib whole closed_system cabinet node (some []) payment
      ≡ ((paid_node, neg 1, []), some ([] ++ wal_record zlib 0 payment)))
    × (Option.map
          (λ (p : Replayed log_keys zlib whole closed_system cabinet). p.state)
          (replay_wallog log_keys zlib whole closed_system cabinet paid_node
            (wal_record zlib 0 payment ++ [])
            false
            []
            0
            2000000000)
        ≡ some (save_trxn whole closed_system cabinet paid_node payment).0)
receive_trxn_wal-unopened_example =
    receive_trxn_wal-unopened log_keys zlib whole closed_system cabinet node paid_node [] payment
      payment [] false [] 0 2000000000 closed_performed refl log_keys-ReadsPrinted closed-AllTreated
      not_found

-- The node after it has received the payment, and its log.
abbrev hour : Bytes
hour = codes "2024/01/01/00"

abbrev received_node : Node
received_node = (append_trxn whole system cabinet paid_node payment hour).0

received :
    Reaches log_keys zlib whole system cabinet false [] 0 2000000000 node received_node
      ([] ++ wal_record zlib 0 payment)
received =
    next payment (append_trxn whole system cabinet paid_node payment hour).1
      (append_trxn whole system cabinet paid_node payment hour).2 here
      (λ good.
        subst
          (λ (p : Trxn × (Node × ℤ × Bytes)).
            IsStorable p.0
            × AllTreated log_keys zlib whole system cabinet false [] 0 2000000000 ((0, p.0) ∷ []))
          (sym performed) (payment-IsStorable, entries-AllTreated))
      (receive_trxn_wal-performed log_keys zlib whole system cabinet node paid_node (some [])
        payment payment [] performed)

replay_wallog-Reaches_example :
    Option.map
      (λ (p : Replayed log_keys zlib whole system cabinet). p.state)
      (replay_wallog log_keys zlib whole system cabinet received_node
        ([] ++ wal_record zlib 0 payment)
        false
        []
        0
        2000000000)
    ≡ some received_node
replay_wallog-Reaches_example =
    replay_wallog-Reaches log_keys zlib whole system cabinet false [] 0 2000000000 (λ path. refl)
      (λ path. ([], nothing_stored path, tt)) log_keys-ReadsPrinted received
