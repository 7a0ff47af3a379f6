-- ===== src/BlockMgr/Journal.antt =====
-- src/blockmgr.cc: where a saved transaction is found, and what a failure to open a file leaves.
use omicro.Base.{
  ◌≡◌, ◌≢◌, ◌∙◌, refl, sym, ap, true, false, [], ◌∷◌, ◌++◌, Bytes, Option, none, some,
}
use omicro.Base.Int.{pos, neg}
use omicro.Base.Dict
use omicro.Trxn.{Trxn, Reals}
use omicro.Blocks.{
  Stream, append_to_blockchain, mark_success, fclose, blocks_path, read_trxns, content,
  rollback_from_blockchain, om_ok_mark, Found,
}
use omicro.Blocks.Storing.{IsStorable}
use omicro.Blocks.History.{History, stored_all, AllStorable, with_id}
use omicro.Blocks.Lookup.{
  read_trxns-fclose, read_trxns-other, read_trxns-rollback, stored_stream, find-other,
  append_to_blockchain-some, append_to_blockchain-none,
}
use omicro.BlockMgr.{Cabinet, BlockMgr, System}
use omicro.BlockMgr.Saving.{perform, save_trxn, append_trxn, append_receiver, finish, has_receiver}

module _ (r : Reals) (sys : System r) (c : Cabinet) where
  save_trxn-performed :
      (s s1 : BlockMgr c) (t t1 : Trxn) (errmsg : Bytes)
      → perform r sys c s t ≡ (t1, (s1, pos 0, errmsg))
      → save_trxn r sys c s t ≡ append_trxn r sys c s1 t1 (sys.disk.yyyymmddhh t.timestamp)
  unfolding save_trxn
  save_trxn-performed s s1 t t1 errmsg e = rw (save_trxn, e) refl

  -- The file of a user for the hour of a transaction.
  abbrev pub file_of : Bytes → Trxn → Bytes
  file_of userid t = blocks_path sys.disk sys.data_dir userid (sys.disk.yyyymmddhh t.timestamp)

  pub append_trxn-receiver :
      (s : BlockMgr c) (t : Trxn) (hour : Bytes) (fp1 : Stream)
      → has_receiver r sys c t ≡ true
      → append_to_blockchain sys.disk sys.data_dir s.blocks t t.sender b'-' hour ≡ some fp1
      → append_trxn r sys c s t hour ≡ append_receiver r sys c s t hour fp1
  unfolding append_trxn
  append_trxn-receiver s t hour fp1 two e = rw (append_trxn, e, two) refl

  pub append_receiver-both :
      (s : BlockMgr c) (t : Trxn) (hour : Bytes) (fp1 fp2 : Stream)
      → append_to_blockchain sys.disk sys.data_dir s.blocks t t.receiver b'+' hour ≡ some fp2
      → append_receiver r sys c s t hour fp1 ≡ (finish r sys c s t fp1 (some fp2), pos 0, [])
  unfolding append_receiver
  append_receiver-both s t hour fp1 fp2 e = rw (append_receiver, e) refl

  append_receiver-none :
      (s : BlockMgr c) (t : Trxn) (hour : Bytes) (fp1 : Stream)
      → append_to_blockchain sys.disk sys.data_dir s.blocks t t.receiver b'+' hour ≡ none
      → append_receiver r sys c s t hour fp1 ≡ (
        record s {
          blocks =
              rollback_from_blockchain sys.disk sys.data_dir
                (fclose fp1 s.blocks)
                t.sender
                hour
                fp1.fpos;
        },
        neg 2,
        [],
      )
  unfolding append_receiver
  append_receiver-none s t hour fp1 e = rw (append_receiver, e) refl

  -- What a reader of a user's hour is told of an id, where the file holds these transactions.
  abbrev pub found_in : Bytes → History → Option Found
  found_in trxnid hist =
      some (record { rc = pos 0; vec = with_id trxnid hist; tstat = om_ok_mark; err = [] })

  abbrev pub lookup : BlockMgr c → Bytes → Bytes → Bytes → Option Found
  lookup s userid timestamp trxnid =
      read_trxns sys.disk sys.data_dir sys.srv_port s.blocks userid timestamp trxnid

  finish-db :
      (s : BlockMgr c) (t : Trxn) (fp1 fp2 : Stream) → (finish r sys c s t fp1 (some fp2)).db ≡ s.db
  unfolding finish
  finish-db s t fp1 fp2 = refl

  finish-sender :
      (s : BlockMgr c) (t t1 : Trxn) (trxnid : Bytes) (hist : History) (fp1 fp2 : Stream)
      → content (Dict.find (file_of t1.sender t) s.blocks) ≡ stored_all hist
      → AllStorable hist
      → IsStorable t1
      → file_of t1.receiver t ≢ file_of t1.sender t
      → append_to_blockchain sys.disk sys.data_dir s.blocks t1 t1.sender b'-'
          (sys.disk.yyyymmddhh t.timestamp)
        ≡ some fp1
      → append_to_blockchain sys.disk sys.data_dir s.blocks t1 t1.receiver b'+'
          (sys.disk.yyyymmddhh t.timestamp)
        ≡ some fp2
      → lookup (finish r sys c s t1 fp1 (some fp2)) t1.sender t.timestamp trxnid
        ≡ found_in trxnid (hist ++ (b'-', t1) ∷ [])
  unfolding finish
  finish-sender s t t1 trxnid hist fp1 fp2 now h k distinct e1 e2 =
      let hour = sys.disk.yyyymmddhh t.timestamp in
      let first = stored_stream sys.disk sys.data_dir s.blocks t1 t1.sender b'-' hour fp1 e1 in
      let second = stored_stream sys.disk sys.data_dir s.blocks t1 t1.receiver b'+' hour fp2 e2 in
      read_trxns-other sys.disk sys.data_dir sys.srv_port _ t1.sender t.timestamp trxnid
        (mark_success fp2) (λ e. distinct (sym second.0 ∙ e))
      ∙ read_trxns-fclose sys.disk sys.data_dir sys.srv_port s.blocks t1.sender t.timestamp b'-' t1
          trxnid hist (mark_success fp1) now h k first

  finish-receiver :
      (s : BlockMgr c) (t t1 : Trxn) (trxnid : Bytes) (hist : History) (fp1 fp2 : Stream)
      → content (Dict.find (file_of t1.receiver t) s.blocks) ≡ stored_all hist
      → AllStorable hist
      → IsStorable t1
      → file_of t1.receiver t ≢ file_of t1.sender t
      → append_to_blockchain sys.disk sys.data_dir s.blocks t1 t1.sender b'-'
          (sys.disk.yyyymmddhh t.timestamp)
        ≡ some fp1
      → append_to_blockchain sys.disk sys.data_dir s.blocks t1 t1.receiver b'+'
          (sys.disk.yyyymmddhh t.timestamp)
        ≡ some fp2
      → lookup (finish r sys c s t1 fp1 (some fp2)) t1.receiver t.timestamp trxnid
        ≡ found_in trxnid (hist ++ (b'+', t1) ∷ [])
  unfolding finish fclose
  finish-receiver s t t1 trxnid hist fp1 fp2 now h k distinct e1 e2 =
      let hour = sys.disk.yyyymmddhh t.timestamp in
      let first = stored_stream sys.disk sys.data_dir s.blocks t1 t1.sender b'-' hour fp1 e1 in
      let second = stored_stream sys.disk sys.data_dir s.blocks t1 t1.receiver b'+' hour fp2 e2 in
      read_trxns-fclose sys.disk sys.data_dir sys.srv_port (fclose (mark_success fp1) s.blocks)
        t1.receiver t.timestamp b'+' t1 trxnid hist (mark_success fp2)
        (ap content (
            find-other (mark_success fp1).path (file_of t1.receiver t) _ s.blocks
              (λ e. distinct (sym e ∙ first.0)))
          ∙ now)
        h k second

  -- A payment or a transfer of tokens that changes the accounts (code 0), whose sender and receiver
  -- have different files for the hour that can be opened and that hold the records of some
  -- transactions, and which has less than 10,000,000 bytes of data, a beacon and no bar or NUL byte in a
  -- field, is saved with code 0: the accounts are as the operation leaves them, and a reader of the hour
  -- finds the transaction behind those that were there, with the sender and with the receiver.
  pub save_trxn-stored :
      (s s1 : BlockMgr c) (t t1 : Trxn) (errmsg trxnid : Bytes) (hist1 hist2 : History)
      → perform r sys c s t ≡ (t1, (s1, pos 0, errmsg))
      → has_receiver r sys c t1 ≡ true
      → sys.disk.openable (file_of t1.sender t) ≡ true
      → sys.disk.openable (file_of t1.receiver t) ≡ true
      → file_of t1.receiver t ≢ file_of t1.sender t
      → content (Dict.find (file_of t1.sender t) s1.blocks) ≡ stored_all hist1
      → content (Dict.find (file_of t1.receiver t) s1.blocks) ≡ stored_all hist2
      → AllStorable hist1
      → AllStorable hist2
      → IsStorable t1
      → let result = save_trxn r sys c s t in
        (result.1 ≡ pos 0)
        × (result.0.db ≡ s1.db)
        × (lookup result.0 t1.sender t.timestamp trxnid
            ≡ found_in trxnid (hist1 ++ (b'-', t1) ∷ []))
        × (lookup result.0 t1.receiver t.timestamp trxnid
            ≡ found_in trxnid (hist2 ++ (b'+', t1) ∷ []))
  save_trxn-stored s s1 t t1 errmsg trxnid hist1 hist2 e two can1 can2 distinct now1 now2 h1 h2 k =
      let hour = sys.disk.yyyymmddhh t.timestamp in
      let (fp1, e1) =
        append_to_blockchain-some sys.disk sys.data_dir s1.blocks t1 t1.sender b'-' hour can1 in
      let (fp2, e2) =
        append_to_blockchain-some sys.disk sys.data_dir s1.blocks t1 t1.receiver b'+' hour can2 in
      rw
        (save_trxn-performed s s1 t t1 errmsg e
          ∙ append_trxn-receiver s1 t1 hour fp1 two e1
          ∙ append_receiver-both s1 t1 hour fp1 fp2 e2)
        (
          refl,
          finish-db s1 t1 fp1 fp2,
          finish-sender s1 t t1 trxnid hist1 fp1 fp2 now1 h1 k distinct e1 e2,
          finish-receiver s1 t t1 trxnid hist2 fp1 fp2 now2 h2 k distinct e1 e2,
        )

  -- Where the sender's file can be opened and the receiver's cannot, a payment or a transfer that has
  -- changed the accounts is answered with -2 and the accounts stay changed; of the sender's
  -- transactions of that hour none is found any more.
  pub save_trxn-rollback :
      (s s1 : BlockMgr c) (t t1 : Trxn) (errmsg trxnid : Bytes)
      → perform r sys c s t ≡ (t1, (s1, pos 0, errmsg))
      → has_receiver r sys c t1 ≡ true
      → sys.disk.openable (file_of t1.sender t) ≡ true
      → sys.disk.openable (file_of t1.receiver t) ≡ false
      → let result = save_trxn r sys c s t in
        (result.1 ≡ neg 2)
        × (result.0.db ≡ s1.db)
        × (lookup result.0 t1.sender t.timestamp trxnid
            ≡ some (record { rc = pos 0; vec = []; tstat = b'0'; err = [] }))
  save_trxn-rollback s s1 t t1 errmsg trxnid e two can cannot =
      let hour = sys.disk.yyyymmddhh t.timestamp in
      let (fp1, e1) =
        append_to_blockchain-some sys.disk sys.data_dir s1.blocks t1 t1.sender b'-' hour can in
      let e2 =
        append_to_blockchain-none sys.disk sys.data_dir s1.blocks t1 t1.receiver b'+' hour cannot in
      rw
        (save_trxn-performed s s1 t t1 errmsg e
          ∙ append_trxn-receiver s1 t1 hour fp1 two e1
          ∙ append_receiver-none s1 t1 hour fp1 e2)
        (
          refl,
          refl,
          read_trxns-rollback sys.disk sys.data_dir sys.srv_port _ t1.sender t.timestamp trxnid
              fp1.fpos can,
        )
