-- ===== src/Tests/Journal.antt =====
-- The theorems of src/blockmgr.cc on the files of transactions.
use omicro.Base.{
  ◌^◌, ◌<◌, ◌≡◌, ◌≢◌, ◌∙◌, ap, refl, true, false, List, [], ◌∷◌, ◌++◌, arith, Bytes, codes, some,
  length, eqb, eqb-false, c_str,
}
use omicro.Base.Int.{pos, neg}
use omicro.Base.Dict
use omicro.Trxn.{get_trxn_id, get_trxn_data}
use omicro.Base.Decimal.{to_string, print_digits}
use omicro.Blocks.{
  get_user_path, read_trxns, mark_success, fclose, om_ok_mark, Disk, Stream, blocks_path, content,
}
use omicro.Blocks.Storing.{IsStorable}
use omicro.Blocks.History.{with_id, stored_all}
use omicro.Blocks.Lookup.{read_trxns-append, append_to_blockchain-some}
use omicro.BlockMgr.{put, find_save_store, System}
use omicro.BlockMgr.Saving.{perform, save_trxn}
use omicro.BlockMgr.Payments.{accepted, paid}
use omicro.BlockMgr.Queries.{query_trxn}
use omicro.BlockMgr.Answers.{query_trxn-save_trxn}
use omicro.BlockMgr.Journal.{save_trxn-stored, save_trxn-rollback, found_in, lookup, file_of}
use omicro.Tests.{payment, payment-IsPrintable}
use omicro.Tests.Payments.{ann, bob, rec, Node, node, ann_store, bob_store, node-ann, node-bob}
use omicro.Tests.World.{whole, cabinet, system, disk}

payment-short : length (get_trxn_data payment) < 10 ^ 7
unfolding get_trxn_data
payment-short = omega arith

pub payment-IsStorable : IsStorable payment
payment-IsStorable = record { printable = payment-IsPrintable; short = payment-short }

abbrev hour : Bytes
hour = codes "2024/01/01/00"

abbrev data_dir : Bytes
data_dir = codes "d"

abbrev stream : Stream
stream = (append_to_blockchain-some disk data_dir Dict.empty payment ann b'-' hour refl).0

pub nothing_stored : (path : Bytes) → content (Dict.find path Dict.empty) ≡ stored_all []
unfolding stored_all omicro.Base.Dict.find omicro.Base.Dict.empty
nothing_stored path = refl

read_trxns-append_example :
    read_trxns disk data_dir []
      (fclose (mark_success stream) Dict.empty)
      ann
      payment.timestamp
      (get_trxn_id payment)
    ≡ some (record {
      rc = pos 0;
      vec = with_id (get_trxn_id payment) ([] ++ (b'-', payment) ∷ []);
      tstat = om_ok_mark;
      err = [];
    })
read_trxns-append_example =
    read_trxns-append disk data_dir [] Dict.empty ann payment.timestamp b'-' payment
      (get_trxn_id payment) [] stream (nothing_stored (blocks_path disk data_dir ann hour)) tt
      payment-IsStorable
      (append_to_blockchain-some disk data_dir Dict.empty payment ann b'-' hour refl).1

-- The node after the payment, before it is stored.
abbrev pub paid_node : Node
paid_node = paid whole system cabinet node payment (ann_store, rec) (bob_store, rec)

nothing_paid : (path : Bytes) → content (Dict.find path paid_node.blocks) ≡ stored_all []
unfolding put
nothing_paid path = nothing_stored path

pub performed : perform whole system cabinet node payment ≡ (payment, (paid_node, pos 0, []))
unfolding perform eqb
performed =
    ap (λ x. (payment, x))
      (accepted whole system cabinet node node node payment (ann_store, rec) (bob_store, rec)
        node-ann node-bob refl)

bob-ann : file_of whole system cabinet bob payment ≢ file_of whole system cabinet ann payment
unfolding eqb blocks_path get_user_path to_string print_digits
bob-ann = eqb-false _ _ refl

abbrev saved : Node
saved = (save_trxn whole system cabinet node payment).0

save_trxn-stored_example :
    ((save_trxn whole system cabinet node payment).1 ≡ pos 0)
    × (saved.db ≡ paid_node.db)
    × (lookup whole system cabinet saved ann payment.timestamp (get_trxn_id payment)
        ≡ found_in whole system cabinet (get_trxn_id payment) ([] ++ (b'-', payment) ∷ []))
    × (lookup whole system cabinet saved bob payment.timestamp (get_trxn_id payment)
        ≡ found_in whole system cabinet (get_trxn_id payment) ([] ++ (b'+', payment) ∷ []))
save_trxn-stored_example =
    save_trxn-stored whole system cabinet node paid_node payment payment [] (get_trxn_id payment) []
      [] performed (unfold eqb in refl) refl refl bob-ann (nothing_paid _) (nothing_paid _) tt tt
      payment-IsStorable

query_trxn-save_trxn_example :
    query_trxn whole system cabinet
      (save_trxn whole system cabinet node payment).0
      (codes "1234567")
      ann
      (get_trxn_id payment)
      payment.timestamp
    ≡ some (record { stt = true; rsn = []; dat = []; req = [] })
query_trxn-save_trxn_example =
    query_trxn-save_trxn whole system cabinet node paid_node payment payment [] (codes "1234567") []
      [] performed (unfold eqb in refl) refl refl bob-ann (nothing_paid _) (nothing_paid _) tt tt
      payment-IsStorable (unfold with_id in refl)

-- A disk on which only the sender's file can be opened.
abbrev half_disk : Disk
half_disk = record disk { openable = λ path. eqb path (blocks_path disk data_dir ann hour) }

abbrev half_system : System whole
half_system = record system { disk = half_disk }

half_ann : find_save_store whole half_system cabinet node ann ≡ (node, some (ann_store, rec))
unfolding find_save_store omicro.Base.Dict.find c_str eqb
half_ann = refl

half_bob : find_save_store whole half_system cabinet node bob ≡ (node, some (bob_store, rec))
unfolding find_save_store omicro.Base.Dict.find c_str eqb
half_bob = refl

ann_opens : half_disk.openable (file_of whole half_system cabinet ann payment) ≡ true
unfolding eqb blocks_path get_user_path to_string print_digits
ann_opens = refl

bob_fails : half_disk.openable (file_of whole half_system cabinet bob payment) ≡ false
unfolding eqb blocks_path get_user_path to_string print_digits
bob_fails = refl

half_performed : perform whole half_system cabinet node payment ≡ (payment, (paid_node, pos 0, []))
unfolding perform eqb
half_performed =
    ap (λ x. (payment, x))
      (accepted whole half_system cabinet node node node payment (ann_store, rec) (bob_store, rec)
        half_ann half_bob refl)

save_trxn-rollback_example :
    ((save_trxn whole half_system cabinet node payment).1 ≡ neg 2)
    × ((save_trxn whole half_system cabinet node payment).0.db ≡ paid_node.db)
    × (lookup whole half_system cabinet
          (save_trxn whole half_system cabinet node payment).0
          ann
          payment.timestamp
          (get_trxn_id payment)
        ≡ some (record { rc = pos 0; vec = []; tstat = b'0'; err = [] }))
save_trxn-rollback_example =
    save_trxn-rollback whole half_system cabinet node paid_node payment payment []
      (get_trxn_id payment) half_performed (unfold eqb in refl) ann_opens bob_fails
