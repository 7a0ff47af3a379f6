-- ===== src/Blocks/History.antt =====
-- src/blockmgr.cc: the reader on a file of whole records.
use mathlib.Core.List.{append_assoc, append-nil}
use omicro.Base.{
  eqb_refl, ℕ, zero, suc, ◌<◌, ◌≡◌, ◌∙◌, refl, sym, ap, ap₂, true, List, [], ◌∷◌, ◌++◌, arith, ltb,
  ◌&&◌, if◌then◌else◌, Bytes, codes, eqb, length, Bool-cases, inl, inr, eqb_iff, length-append,
  some,
}
use omicro.Base.Int.{pos}
use omicro.Trxn.{Trxn, get_trxn_data, get_trxn_id}
use omicro.Trxn.RoundTrip.{IsPrintable, stored_id}
use omicro.Blocks.{
  entry, scan, read_first, read_record, read_loop, collect, trxn_tid, block_record, om_ok_mark,
}
use omicro.Blocks.Storing.{stored, IsStorable, read_record-stored, data-c_str}

-- The file after these transactions, each with its sign.
abbrev pub History : Type 0
History = List (ℕ × Trxn)

unfoldable pub stored_all : History → Bytes
stored_all [] = []
stored_all ((ttype, t) ∷ hist) = stored ttype t ++ stored_all hist

abbrev pub AllStorable : History → Type 0
AllStorable [] = Unit
AllStorable ((ttype, t) ∷ hist) = IsStorable t × AllStorable hist

-- The data of the transactions with that id, oldest first.
unfoldable pub with_id : Bytes → History → List Bytes
with_id trxnid [] = []
with_id trxnid ((ttype, t) ∷ hist) =
    let rest = with_id trxnid hist in
    if eqb (get_trxn_id t) trxnid then get_trxn_data t ∷ rest else rest

-- The mark that the reader has seen last.
pub last_mark : ℕ → History → ℕ
last_mark tstat [] = tstat
last_mark tstat (x ∷ hist) = om_ok_mark

pub stored_all-append :
    (hist : History) (ttype : ℕ) (t : Trxn)
    → stored_all (hist ++ (ttype, t) ∷ []) ≡ stored_all hist ++ stored ttype t
unfolding stored_all
stored_all-append [] ttype t = append-nil (stored ttype t)
stored_all-append ((sign, u) ∷ hist) ttype t =
    rw (stored_all-append hist ttype t) (simp append_assoc)

id_nonempty : (t : Trxn) → ltb 0 (length (get_trxn_id t)) ≡ true
unfolding get_trxn_id
id_nonempty t = nonempty t.timestamp t.sender
  where
    nonempty : (a b : Bytes) → ltb 0 (length (a ++ b':' ∷ b)) ≡ true
    nonempty [] b = ground arith
    nonempty (x ∷ a) b = ground arith

-- The test that the id is not empty adds nothing to the comparison with an id.
guarded-if :
    (trxnid id : Bytes) (a b : List Bytes)
    → ltb 0 (length id) ≡ true
    → (if ltb 0 (length trxnid) && eqb id trxnid then a else b) ≡ (if eqb id trxnid then a else b)
guarded-if trxnid id a b h = elim (Bool-cases (eqb id trxnid)) [
  | inl same ↦
      let eq : id ≡ trxnid = (eqb_iff id trxnid).0 same in
      let more : ltb 0 (length trxnid) ≡ true = ap (λ x. ltb 0 (length x)) (sym eq) ∙ h in
      rw (same, more) refl
  | inr other ↦ rw other (ground arith)
]

collect-data :
    (trxnid : Bytes) (t : Trxn) (vec : List Bytes)
    → IsPrintable t
    → collect trxnid (get_trxn_data t) vec
      ≡ (if eqb (get_trxn_id t) trxnid then vec ++ get_trxn_data t ∷ [] else vec)
unfolding collect trxn_tid
collect-data trxnid t vec h =
    rw (stored_id t h, data-c_str t h) (guarded-if trxnid (get_trxn_id t) _ _ (id_nonempty t))

read_loop-nil :
    (fuel : ℕ) (trxnid : Bytes) (vec : List Bytes) (tstat : ℕ)
    → read_loop (suc fuel) trxnid vec tstat []
      ≡ some (record { rc = pos 0; vec = vec; tstat = tstat; err = [] })
unfolding read_loop read_record read_first scan
read_loop-nil fuel trxnid vec tstat = refl

vec-with_id :
    (trxnid : Bytes) (vec : List Bytes) (ttype : ℕ) (t : Trxn) (hist : History)
    → IsPrintable t
    → collect trxnid (get_trxn_data t) vec ++ with_id trxnid hist
      ≡ vec ++ with_id trxnid ((ttype, t) ∷ hist)
unfolding with_id
vec-with_id trxnid vec ttype t hist h =
    rw (collect-data trxnid t vec h) (elim (Bool-cases (eqb (get_trxn_id t) trxnid)) [
      | inl same ↦ rw same (append_assoc vec (get_trxn_data t ∷ []) (with_id trxnid hist))
      | inr other ↦ rw other refl
    ])

length-stored :
    (ttype : ℕ) (t : Trxn) (rest : Bytes) → length rest < length (stored ttype t ++ rest)
unfolding stored
length-stored ttype t rest = omega (
  arith,
  length-append (block_record ttype (get_trxn_data t) ++ codes "T}") rest,
  length-append (block_record ttype (get_trxn_data t)) (codes "T}"),
)

pub read_loop-entry :
    (fuel : ℕ) (trxnid : Bytes) (vec : List Bytes) (tstat : ℕ) (s pt : Bytes) (mark : ℕ)
    (rest : Bytes)
    → read_record tstat s ≡ entry pt mark rest
    → read_loop (suc fuel) trxnid vec tstat s
      ≡ read_loop fuel trxnid (collect trxnid pt vec) mark rest
unfolding read_loop
read_loop-entry fuel trxnid vec tstat s pt mark rest h = rw (read_loop, h) refl

last_mark_ok : (hist : History) → last_mark om_ok_mark hist ≡ om_ok_mark
unfolding last_mark
last_mark_ok [] = refl
last_mark_ok (x ∷ hist) = refl

pub read_loop-stored :
    (fuel : ℕ) (trxnid : Bytes) (vec : List Bytes) (tstat : ℕ) (hist : History)
    → AllStorable hist
    → length (stored_all hist) < fuel
    → read_loop fuel trxnid vec tstat (stored_all hist)
      ≡ some (record {
        rc = pos 0;
        vec = vec ++ with_id trxnid hist;
        tstat = last_mark tstat hist;
        err = [];
      })
unfolding read_loop stored_all with_id last_mark
read_loop-stored zero trxnid vec tstat hist h room = absurd (omega (arith, room))
read_loop-stored (suc fuel) trxnid vec tstat [] h room =
    read_loop-nil fuel trxnid vec tstat
    ∙ ap (λ v. some (record { rc = pos 0; vec = v; tstat = tstat; err = [] }))
        (sym (append-nil vec))
read_loop-stored (suc fuel) trxnid vec tstat ((ttype, t) ∷ hist) h room =
    read_loop-entry fuel trxnid vec tstat (stored ttype t ++ stored_all hist) (get_trxn_data t)
      om_ok_mark (stored_all hist) (read_record-stored t tstat ttype (stored_all hist) h.0)
    ∙ read_loop-stored fuel trxnid (collect trxnid (get_trxn_data t) vec) om_ok_mark hist h.1
        (omega (arith, room, length-stored ttype t (stored_all hist)))
    ∙ ap₂ (λ v c. some (record { rc = pos 0; vec = v; tstat = c; err = [] }))
        (vec-with_id trxnid vec ttype t hist h.0.printable) (last_mark_ok hist)

pub AllStorable-append :
    (hist : History) (ttype : ℕ) (t : Trxn)
    → AllStorable hist
    → IsStorable t
    → AllStorable (hist ++ (ttype, t) ∷ [])
AllStorable-append [] ttype t h k = (k, tt)
AllStorable-append (x ∷ hist) ttype t h k = (h.0, AllStorable-append hist ttype t h.1 k)

pub last_mark-append :
    (tstat : ℕ) (hist : History) (x : ℕ × Trxn) → last_mark tstat (hist ++ x ∷ []) ≡ om_ok_mark
unfolding last_mark
last_mark-append tstat [] x = refl
last_mark-append tstat (y ∷ hist) x = refl

-- A transaction whose id no other has is the only one that is found.
pub with_id-append :
    (ttype : ℕ) (t : Trxn) (hist : History)
    → with_id (get_trxn_id t) hist ≡ []
    → with_id (get_trxn_id t) (hist ++ (ttype, t) ∷ []) ≡ get_trxn_data t ∷ []
unfolding with_id
with_id-append ttype t [] h = rw (eqb_refl (get_trxn_id t)) refl
with_id-append ttype t ((sign, u) ∷ hist) h =
    elim (Bool-cases (eqb (get_trxn_id u) (get_trxn_id t))) [
      | inl same ↦ let no : get_trxn_data u ∷ with_id (get_trxn_id t) hist ≡ [] = rw same at h in cc
      | inr other ↦ rw (other, with_id-append ttype t hist (rw other at h)) refl
    ]
