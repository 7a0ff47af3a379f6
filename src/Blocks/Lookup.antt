-- ===== src/Blocks/Lookup.antt =====
-- src/blockmgr.cc: a lookup in the file of a user and an hour, after an append and after a rollback.
use omicro.Base.{
  ◌≢◌, Bool-cases, inl, inr, eqb, eqb_iff, ℕ, zero, suc, ◌≡◌, ◌∙◌, refl, sym, subst, ap, ap₂, Bool,
  true, false, [], ◌∷◌, ◌++◌, arith, if◌then◌else◌, Bytes, codes, length, eqb_refl, none, some,
  replicate,
}
use omicro.Base.Int.{pos}
use omicro.Base.Dict
use omicro.Base.Dict.{Dict, find-assign}
use omicro.Trxn.{Trxn, get_trxn_data}
use omicro.Blocks.{
  Stream, Disk, scan, read_first, read_record, read_loop, read_blocks, block_record,
  append_to_blockchain, mark_success, fclose, blocks_path, read_trxns, content,
  rollback_from_blockchain, om_ok_mark,
}
use omicro.Blocks.Storing.{stored, IsStorable}
use omicro.Blocks.History.{
  stored_all, stored_all-append, read_loop-stored, AllStorable, AllStorable-append, with_id,
  last_mark-append, History,
}

find-same :
    (path v : Bytes) (files : Dict Bytes) → Dict.find path (Dict.assign path v files) ≡ some v
find-same path v files = rw (find-assign path path v files, eqb_refl path) refl

pub find-other :
    (path other v : Bytes) (files : Dict Bytes)
    → path ≢ other
    → Dict.find other (Dict.assign path v files) ≡ Dict.find other files
find-other path other v files distinct =
    find-assign path other v files ∙ elim (Bool-cases (eqb path other)) [
      | inl same ↦ absurd (distinct ((eqb_iff path other).0 same))
      | inr differs ↦ rw differs refl
    ]

pub find-fclose :
    (fp : Stream) (files : Dict Bytes) (path : Bytes)
    → fp.path ≡ path
    → Dict.find path (fclose fp files) ≡ some (content (Dict.find path files) ++ fp.printed)
unfolding fclose
find-fclose fp files path same =
    subst (λ p. Dict.find p (fclose fp files) ≡ some (content (Dict.find p files) ++ fp.printed))
      same (find-same fp.path _ files)

pub read_trxns-some :
    (disk : Disk) (data_dir where_ : Bytes) (files : Dict Bytes) (userid timestamp trxnid s : Bytes)
    → Dict.find (blocks_path disk data_dir userid (disk.yyyymmddhh timestamp)) files ≡ some s
    → read_trxns disk data_dir where_ files userid timestamp trxnid ≡ read_blocks trxnid s
unfolding read_trxns
read_trxns-some disk data_dir where_ files userid timestamp trxnid s h = rw (read_trxns, h) refl

-- The stream of an append prints the record; with the mark it is a stored record.
pub stored_stream :
    (disk : Disk) (data_dir : Bytes) (files : Dict Bytes) (t : Trxn) (userid : Bytes) (ttype : ℕ)
    (hour : Bytes) (fp : Stream)
    → append_to_blockchain disk data_dir files t userid ttype hour ≡ some fp
    → ((mark_success fp).path ≡ blocks_path disk data_dir userid hour)
      × ((mark_success fp).printed ≡ stored ttype t)
unfolding append_to_blockchain mark_success stored
stored_stream disk data_dir files t userid ttype hour fp h =
    branch (disk.openable (blocks_path disk data_dir userid hour)) h
  where
    branch :
        (b : Bool)
        → (if b
            then some (record {
              path = blocks_path disk data_dir userid hour;
              fpos = length (content (Dict.find (blocks_path disk data_dir userid hour) files));
              printed = block_record ttype (get_trxn_data t);
            })
            else none)
          ≡ some fp
        → (fp.path ≡ blocks_path disk data_dir userid hour)
          × (fp.printed ++ codes "T}" ≡ block_record ttype (get_trxn_data t) ++ codes "T}")
    branch true h = (cc, cc)
    branch false h = cc

pub append_to_blockchain-some :
    (disk : Disk) (data_dir : Bytes) (files : Dict Bytes) (t : Trxn) (userid : Bytes) (ttype : ℕ)
    (hour : Bytes)
    → disk.openable (blocks_path disk data_dir userid hour) ≡ true
    → (fp : Stream) × (append_to_blockchain disk data_dir files t userid ttype hour ≡ some fp)
unfolding append_to_blockchain
append_to_blockchain-some disk data_dir files t userid ttype hour h = (
  record {
    path = blocks_path disk data_dir userid hour;
    fpos = length (content (Dict.find (blocks_path disk data_dir userid hour) files));
    printed = block_record ttype (get_trxn_data t);
  },
  rw h refl,
)

pub append_to_blockchain-none :
    (disk : Disk) (data_dir : Bytes) (files : Dict Bytes) (t : Trxn) (userid : Bytes) (ttype : ℕ)
    (hour : Bytes)
    → disk.openable (blocks_path disk data_dir userid hour) ≡ false
    → append_to_blockchain disk data_dir files t userid ttype hour ≡ none
unfolding append_to_blockchain
append_to_blockchain-none disk data_dir files t userid ttype hour h = rw h refl

read_zeros :
    (fpos : ℕ) (trxnid : Bytes)
    → read_blocks trxnid (replicate fpos 0 ++ 0 ∷ [])
      ≡ some (record { rc = pos 0; vec = []; tstat = b'0'; err = [] })
unfolding read_blocks read_loop read_record read_first scan
read_zeros zero trxnid = refl
read_zeros (suc fpos) trxnid = refl

-- A stream on the file that prints a stored record.
pub read_trxns-fclose :
    (disk : Disk) (data_dir where_ : Bytes) (files : Dict Bytes) (userid timestamp : Bytes)
    (ttype : ℕ) (t : Trxn) (trxnid : Bytes) (hist : History) (fp : Stream)
    → content (Dict.find (blocks_path disk data_dir userid (disk.yyyymmddhh timestamp)) files)
      ≡ stored_all hist
    → AllStorable hist
    → IsStorable t
    → (fp.path ≡ blocks_path disk data_dir userid (disk.yyyymmddhh timestamp))
      × (fp.printed ≡ stored ttype t)
    → read_trxns disk data_dir where_ (fclose fp files) userid timestamp trxnid
      ≡ some (record {
        rc = pos 0;
        vec = with_id trxnid (hist ++ (ttype, t) ∷ []);
        tstat = om_ok_mark;
        err = [];
      })
unfolding read_blocks
read_trxns-fclose disk data_dir where_ files userid timestamp ttype t trxnid hist fp now h k
      printed =
    let path = blocks_path disk data_dir userid (disk.yyyymmddhh timestamp) in
    let more = hist ++ (ttype, t) ∷ [] in
    let file : Dict.find path (fclose fp files) ≡ some (stored_all more) =
      find-fclose fp files path printed.0
      ∙ ap₂ (λ x y. some (x ++ y)) now printed.1
      ∙ ap some (sym (stored_all-append hist ttype t)) in
    read_trxns-some disk data_dir where_ _ userid timestamp trxnid (stored_all more) file
    ∙ read_loop-stored (suc (length (stored_all more))) trxnid [] b'0' more
        (AllStorable-append hist ttype t h k) (omega arith)
    ∙ ap (λ c. some (record { rc = pos 0; vec = with_id trxnid more; tstat = c; err = [] }))
        (last_mark-append b'0' hist (ttype, t))

-- A stream on another file.
pub read_trxns-other :
    (disk : Disk) (data_dir where_ : Bytes) (files : Dict Bytes) (userid timestamp trxnid : Bytes)
    (fp : Stream)
    → fp.path ≢ blocks_path disk data_dir userid (disk.yyyymmddhh timestamp)
    → read_trxns disk data_dir where_ (fclose fp files) userid timestamp trxnid
      ≡ read_trxns disk data_dir where_ files userid timestamp trxnid
unfolding read_trxns fclose
read_trxns-other disk data_dir where_ files userid timestamp trxnid fp other =
    rw (read_trxns, find-other fp.path _ _ files other) refl

-- Where the file of a user and an hour holds the records of some transactions, and a transaction of
-- that hour is appended to it, marked and closed: a reader of that hour, whatever id it looks for,
-- gets return code 0 and the data of all transactions of the file with that id, the new one
-- included, in their order. The transactions have less than 10,000,000 bytes of data, a beacon,
-- and no bar and no NUL byte in a field.
pub read_trxns-append :
    (disk : Disk) (data_dir where_ : Bytes) (files : Dict Bytes) (userid timestamp : Bytes)
    (ttype : ℕ) (t : Trxn) (trxnid : Bytes) (hist : History) (fp : Stream)
    → content (Dict.find (blocks_path disk data_dir userid (disk.yyyymmddhh timestamp)) files)
      ≡ stored_all hist
    → AllStorable hist
    → IsStorable t
    → append_to_blockchain disk data_dir files t userid ttype (disk.yyyymmddhh timestamp) ≡ some fp
    → read_trxns disk data_dir where_ (fclose (mark_success fp) files) userid timestamp trxnid
      ≡ some (record {
        rc = pos 0;
        vec = with_id trxnid (hist ++ (ttype, t) ∷ []);
        tstat = om_ok_mark;
        err = [];
      })
read_trxns-append disk data_dir where_ files userid timestamp ttype t trxnid hist fp now h k
      opened =
    read_trxns-fclose disk data_dir where_ files userid timestamp ttype t trxnid hist
      (mark_success fp) now h k
      (stored_stream disk data_dir files t userid ttype (disk.yyyymmddhh timestamp) fp opened)

-- After a rollback of a user's file for an hour, whatever it held, no transaction of that hour is
-- found any more: a reader gets return code 0 and an empty list for every id.
pub read_trxns-rollback :
    (disk : Disk) (data_dir where_ : Bytes) (files : Dict Bytes) (userid timestamp trxnid : Bytes)
    (fpos : ℕ)
    → disk.openable (blocks_path disk data_dir userid (disk.yyyymmddhh timestamp)) ≡ true
    → read_trxns disk data_dir where_
        (rollback_from_blockchain disk data_dir files userid (disk.yyyymmddhh timestamp) fpos)
        userid
        timestamp
        trxnid
      ≡ some (record { rc = pos 0; vec = []; tstat = b'0'; err = [] })
unfolding rollback_from_blockchain
read_trxns-rollback disk data_dir where_ files userid timestamp trxnid fpos opened =
    read_trxns-some disk data_dir where_ _ userid timestamp trxnid (replicate fpos 0 ++ 0 ∷ [])
      (rw opened (find-same _ _ files))
    ∙ read_zeros fpos trxnid
