-- ===== src/Blocks/Growing.antt =====
-- src/blockmgr.cc: files of whole records stay such files when records are appended, and what a reader
-- has found it finds again.
use omicro.Base.{
  ℕ, suc, ◌≤◌, ◌<◌, ◌≡◌, ◌∙◌, refl, sym, ap, ap₂, true, false, [], ◌∷◌, ◌++◌, arith, Bytes, eqb,
  eqb_iff, eqb_refl, eqb-false, length, Bool-cases, Option-cases, inl, inr, none, some,
}
use omicro.Base.Int.{pos}
use omicro.Base.Dict
use omicro.Base.Dict.{Dict}
use omicro.Trxn.{Trxn, get_trxn_id}
use omicro.Blocks.{Disk, Stream, blocks_path, read_trxns, read_blocks, fclose, content, finds_none}
use omicro.Blocks.Storing.{IsStorable, stored}
use omicro.Blocks.History.{
  History, stored_all, AllStorable, with_id, last_mark, read_loop-stored, stored_all-append,
  AllStorable-append,
}
use omicro.Blocks.Lookup.{
  find-other, find-fclose, read_trxns-some, read_trxns-fclose, read_trxns-other,
}

-- Every file holds whole records of transactions.
abbrev pub AllWhole : Dict Bytes → Type 0
AllWhole files =
    (path : Bytes)
    → (hist : History) × (content (Dict.find path files) ≡ stored_all hist) × AllStorable hist

with_id-grows :
    (trxnid : Bytes) (hist : History) (e : ℕ × Trxn)
    → length (with_id trxnid hist) ≤ length (with_id trxnid (hist ++ e ∷ []))
unfolding with_id
with_id-grows trxnid [] (ttype, t) = omega arith
with_id-grows trxnid ((sign, u) ∷ hist) e = elim (Bool-cases (eqb (get_trxn_id u) trxnid)) [
  | inl same ↦ rw same (omega (arith, with_id-grows trxnid hist e))
  | inr other ↦ rw other (with_id-grows trxnid hist e)
]

with_id-last :
    (t : Trxn) (ttype : ℕ) (hist : History)
    → 0 < length (with_id (get_trxn_id t) (hist ++ (ttype, t) ∷ []))
unfolding with_id
with_id-last t ttype [] = rw (eqb_refl (get_trxn_id t)) (omega arith)
with_id-last t ttype ((sign, u) ∷ hist) = elim (Bool-cases (eqb (get_trxn_id u) (get_trxn_id t))) [
  | inl same ↦ rw same (omega (arith, with_id-last t ttype hist))
  | inr other ↦ rw other (with_id-last t ttype hist)
]

read_blocks-stored_all :
    (trxnid : Bytes) (hist : History)
    → AllStorable hist
    → read_blocks trxnid (stored_all hist)
      ≡ some
          (record { rc = pos 0; vec = with_id trxnid hist; tstat = last_mark b'0' hist; err = [] })
unfolding read_blocks
read_blocks-stored_all trxnid hist h =
    read_loop-stored (suc (length (stored_all hist))) trxnid [] b'0' hist h (omega arith)

find-fclose_other :
    (fp : Stream) (files : Dict Bytes) (path : Bytes)
    → eqb fp.path path ≡ false
    → Dict.find path (fclose fp files) ≡ Dict.find path files
unfolding fclose
find-fclose_other fp files path other =
    find-other fp.path path _ files (eqb-false fp.path path other)

module _ (disk : Disk) (data_dir where_ : Bytes) where
  abbrev pub file_of : Trxn → Bytes
  file_of t = blocks_path disk data_dir t.sender (disk.yyyymmddhh t.timestamp)

  -- A reader finds the transaction with its sender.
  abbrev pub IsFound : Dict Bytes → Trxn → Type 0
  IsFound files t =
      finds_none (read_trxns disk data_dir where_ files t.sender t.timestamp (get_trxn_id t))
      ≡ false

  -- The stream ends a stored record.
  abbrev pub IsRecord : Stream → ℕ → Trxn → Type 0
  IsRecord fp ttype t = fp.printed ≡ stored ttype t

  pub AllWhole-fclose :
      (files : Dict Bytes) (fp : Stream) (ttype : ℕ) (t : Trxn)
      → AllWhole files
      → IsStorable t
      → IsRecord fp ttype t
      → AllWhole (fclose fp files)
  AllWhole-fclose files fp ttype t whole k printed path =
      let (hist, now, h) = whole path in
      elim (Bool-cases (eqb fp.path path)) [
        | inl same ↦
            let file = find-fclose fp files path ((eqb_iff fp.path path).0 same) in
            (
              hist ++ (ttype, t) ∷ [],
              ap content file
                  ∙ ap₂ (λ x y. x ++ y) now printed
                  ∙ sym (stored_all-append hist ttype t),
              AllStorable-append hist ttype t h k,
            )
        | inr other ↦ (hist, ap content (find-fclose_other fp files path other) ∙ now, h)
      ]

  missing :
      (files : Dict Bytes) (t : Trxn)
      → Dict.find (file_of t) files ≡ none
      → finds_none (read_trxns disk data_dir where_ files t.sender t.timestamp (get_trxn_id t))
        ≡ true
  unfolding read_trxns
  missing files t h = rw (read_trxns, h) refl

  found-with_id :
      (files : Dict Bytes) (t : Trxn) (hist : History)
      → content (Dict.find (file_of t) files) ≡ stored_all hist
      → AllStorable hist
      → IsFound files t
      → 0 < length (with_id (get_trxn_id t) hist)
  found-with_id files t hist now h found = elim (Option-cases (Dict.find (file_of t) files)) [
    | inl absent ↦
        let none_found : true ≡ false = sym (missing files t absent) ∙ found in absurd (cc)
    | inr (text, there) ↦
        let whole : text ≡ stored_all hist = sym (ap content there) ∙ now in
        let read =
          read_trxns-some disk data_dir where_ files t.sender t.timestamp (get_trxn_id t) text there
          ∙ ap (read_blocks (get_trxn_id t)) whole
          ∙ read_blocks-stored_all (get_trxn_id t) hist h in
        ground (arith, sym (ap finds_none read) ∙ found)
  ]

  pub IsFound-fclose :
      (files : Dict Bytes) (fp : Stream) (ttype : ℕ) (t u : Trxn)
      → AllWhole files
      → IsStorable t
      → IsRecord fp ttype t
      → IsFound files u
      → IsFound (fclose fp files) u
  IsFound-fclose files fp ttype t u whole k printed found =
      let (hist, now, h) = whole (file_of u) in
      elim (Bool-cases (eqb fp.path (file_of u))) [
        | inl same ↦
            let read =
              read_trxns-fclose disk data_dir where_ files u.sender u.timestamp ttype t
                (get_trxn_id u) hist fp now h k ((eqb_iff fp.path (file_of u)).0 same, printed) in
            ap finds_none read
            ∙ ground (
              arith,
              found-with_id files u hist now h found,
              with_id-grows (get_trxn_id u) hist (ttype, t),
            )
        | inr other ↦
            ap finds_none (
              read_trxns-other disk data_dir where_ files u.sender u.timestamp (get_trxn_id u) fp
                (eqb-false fp.path (file_of u) other))
            ∙ found
      ]

  pub IsFound-fclose_self :
      (files : Dict Bytes) (fp : Stream) (ttype : ℕ) (t : Trxn)
      → AllWhole files
      → IsStorable t
      → IsRecord fp ttype t
      → fp.path ≡ file_of t
      → IsFound (fclose fp files) t
  IsFound-fclose_self files fp ttype t whole k printed own =
      let (hist, now, h) = whole (file_of t) in
      ap finds_none (
        read_trxns-fclose disk data_dir where_ files t.sender t.timestamp ttype t (get_trxn_id t)
          hist fp now h k (own, printed))
      ∙ ground (arith, with_id-last t ttype hist)
