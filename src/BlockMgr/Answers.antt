-- ===== src/BlockMgr/Answers.antt =====
-- src/blockmgr.cc: what a query of a saved transaction is told.
use omicro.Base.{◌≡◌, ◌≢◌, ◌∙◌, refl, ap, true, List, [], ◌∷◌, Bytes, some}
use omicro.Base.Int.{pos}
use omicro.Base.Dict
use omicro.Trxn.{Trxn, Reals, get_trxn_id, get_trxn_data, init}
use omicro.Trxn.RoundTrip.{init-get_trxn_data}
use omicro.Blocks.{content, om_ok_mark}
use omicro.Blocks.Storing.{IsStorable}
use omicro.Blocks.History.{History, stored_all, AllStorable, with_id, with_id-append}
use omicro.BlockMgr.{Cabinet, BlockMgr, System}
use omicro.BlockMgr.Queries.{query_trxn, status_of}
use omicro.BlockMgr.Saving.{perform, save_trxn, has_receiver}
use omicro.BlockMgr.Journal.{save_trxn-stored, lookup, file_of}

module _ (r : Reals) (sys : System r) (c : Cabinet) where
  query_trxn-found :
      (s : BlockMgr c) (fresh from trxnid timestamp text : Bytes) (vec : List Bytes)
      → lookup r sys c s from timestamp trxnid
        ≡ some (record { rc = pos 0; vec = text ∷ vec; tstat = om_ok_mark; err = [] })
      → query_trxn r sys c s fresh from trxnid timestamp
        ≡ some (record { stt = true; rsn = []; dat = []; req = (init fresh text).request })
  unfolding query_trxn status_of
  query_trxn-found s fresh from trxnid timestamp text vec h = rw (query_trxn, h) refl

  -- A payment or a transfer of tokens that changes the accounts (code 0), whose sender and receiver
  -- have different files for the hour that can be opened and that hold the records of some
  -- transactions, none of the sender's with its id, and which has less than 10,000,000 bytes of data,
  -- a beacon, and no bar or NUL byte in a field: after it is saved, a query for its id with the sender
  -- is answered OK with the transaction's request.
  pub query_trxn-save_trxn :
      (s s1 : BlockMgr c) (t t1 : Trxn) (errmsg fresh : Bytes) (hist1 hist2 : History)
      → perform r sys c s t ≡ (t1, (s1, pos 0, errmsg))
      → has_receiver r sys c t1 ≡ true
      → sys.disk.openable (file_of r sys c t1.sender t) ≡ true
      → sys.disk.openable (file_of r sys c t1.receiver t) ≡ true
      → file_of r sys c t1.receiver t ≢ file_of r sys c t1.sender t
      → content (Dict.find (file_of r sys c t1.sender t) s1.blocks) ≡ stored_all hist1
      → content (Dict.find (file_of r sys c t1.receiver t) s1.blocks) ≡ stored_all hist2
      → AllStorable hist1
      → AllStorable hist2
      → IsStorable t1
      → with_id (get_trxn_id t1) hist1 ≡ []
      → query_trxn r sys c (save_trxn r sys c s t).0 fresh t1.sender (get_trxn_id t1) t.timestamp
        ≡ some (record { stt = true; rsn = []; dat = []; req = t1.request })
  query_trxn-save_trxn s s1 t t1 errmsg fresh hist1 hist2 e two can1 can2 distinct now1 now2 h1 h2 k
        new =
      let stored =
        save_trxn-stored r sys c s s1 t t1 errmsg (get_trxn_id t1) hist1 hist2 e two can1 can2
          distinct now1 now2 h1 h2 k in
      query_trxn-found (save_trxn r sys c s t).0 fresh t1.sender (get_trxn_id t1) t.timestamp
        (get_trxn_data t1) []
        (stored.2
          ∙ ap (λ v. some (record { rc = pos 0; vec = v; tstat = om_ok_mark; err = [] }))
              (with_id-append b'-' t1 hist1 new))
      ∙ ap (λ u. some (record { stt = true; rsn = []; dat = []; req = u.request }))
          (init-get_trxn_data fresh t1 k.printable)
