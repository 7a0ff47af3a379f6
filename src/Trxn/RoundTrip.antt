-- ===== src/Trxn/RoundTrip.antt =====
-- src/omicrotrxn.cc: what a node prints for a transaction, another node reads back.
use mathlib.Core.List.{append_assoc}
use omicro.Base.{
  ◌≡◌, ◌≢◌, refl, sym, ap, ◌∙◌, false, List, [], ◌∷◌, ◌++◌, arith, ltb, if◌then◌else◌, Bytes, c_str,
  c_str-Free, Free, Free-append, All, All-append, length, get_or,
}
use omicro.Base.Int.{pos}
use omicro.StrSplit
use omicro.StrSplit.{index}
use omicro.StrSplit.Split.{split, join, init-split, split-join, index-init}
use omicro.Trxn.{Trxn, init, ensure_beacon, fields, allstr, get_trxn_data, get_trxn_id, bar}

-- The 19 fields of the transaction data, in the order in which they are printed.
abbrev pub data_fields : Trxn → List Bytes
data_fields t =
    t.id ∷ t.beacon ∷ t.sender ∷ t.receiver ∷ t.amount ∷ t.timestamp ∷ t.trxntype ∷ t.assettype
    ∷ t.request ∷ t.pad1 ∷ t.pad2 ∷ t.pad3 ∷ t.pad4 ∷ t.pad5 ∷ t.pad6 ∷ t.pad7 ∷ t.pad8 ∷ t.pad9
    ∷ t.pad10 ∷ []

abbrev pub other_fields : Trxn → List Bytes
other_fields t =
    t.cipher ∷ t.signature ∷ t.user_pubkey ∷ t.user_signature ∷ t.fence ∷ t.response ∷ t.thdr
    ∷ t.srvport ∷ []

-- A field that can be printed: it has no bar and no NUL byte.
abbrev pub IsPlain : Bytes → Type 0
IsPlain f = Free bar f × Free 0 f

pub record IsPrintable (t : Trxn) : Type 0 where
  pub plain_data : All IsPlain (data_fields t)
  pub plain_others : All IsPlain (other_fields t)
  pub has_beacon : t.beacon ≢ []

allstr-join : (t : Trxn) → allstr t ≡ join bar (data_fields t ++ other_fields t)
unfolding allstr get_trxn_data join
allstr-join t = simp append_assoc

pub get_trxn_data-join : (t : Trxn) → get_trxn_data t ≡ join bar (data_fields t)
unfolding get_trxn_data join
get_trxn_data-join t = simp append_assoc

All-bars : (ts : List Bytes) → All IsPlain ts → All (Free bar) ts
All-bars [] h = tt
All-bars (t ∷ ts) h = (h.0.0, All-bars ts h.1)

pub Free-join : (ts : List Bytes) → All IsPlain ts → Free 0 (join bar ts)
unfolding join
Free-join [] h = tt
Free-join (t ∷ []) h = h.0.1
Free-join (t ∷ u ∷ ts) h =
    Free-append 0 t (bar ∷ join bar (u ∷ ts)) h.0.1 (omega arith, Free-join (u ∷ ts) h.1)

join-ne-nil : (t u : Bytes) (ts : List Bytes) → join bar (t ∷ u ∷ ts) ≢ []
unfolding join
join-ne-nil [] u ts e = cc
join-ne-nil (c ∷ t) u ts e = cc

-- Printed fields come back as the pieces of the text.
pub pieces-join :
    (t u : Bytes) (ts : List Bytes)
    → All IsPlain (t ∷ u ∷ ts)
    → (StrSplit.init (join bar (t ∷ u ∷ ts)) bar false).list ≡ t ∷ u ∷ ts
pieces-join t u ts h =
    let clean : c_str (join bar (t ∷ u ∷ ts)) ≡ join bar (t ∷ u ∷ ts) =
      c_str-Free _ (Free-join (t ∷ u ∷ ts) h) in
    init-split bar (join bar (t ∷ u ∷ ts)) (λ e. join-ne-nil t u ts (sym clean ∙ e))
    ∙ ap (split bar) clean
    ∙ split-join bar t (u ∷ ts) (All-bars (t ∷ u ∷ ts) h)

of_list : List Bytes → Trxn
of_list ts = record {
  id = get_or ts 0 [];
  beacon = get_or ts 1 [];
  sender = get_or ts 2 [];
  receiver = get_or ts 3 [];
  amount = get_or ts 4 [];
  timestamp = get_or ts 5 [];
  trxntype = get_or ts 6 [];
  assettype = get_or ts 7 [];
  request = get_or ts 8 [];
  pad1 = get_or ts 9 [];
  pad2 = get_or ts 10 [];
  pad3 = get_or ts 11 [];
  pad4 = get_or ts 12 [];
  pad5 = get_or ts 13 [];
  pad6 = get_or ts 14 [];
  pad7 = get_or ts 15 [];
  pad8 = get_or ts 16 [];
  pad9 = get_or ts 17 [];
  pad10 = get_or ts 18 [];
  cipher = get_or ts 19 [];
  signature = get_or ts 20 [];
  user_pubkey = get_or ts 21 [];
  user_signature = get_or ts 22 [];
  fence = get_or ts 23 [];
  response = get_or ts 24 [];
  thdr = get_or ts 25 [];
  srvport = get_or ts 26 [];
}

fields-of_list :
    (s : Bytes) → fields (StrSplit.init s bar false) ≡ of_list (StrSplit.init s bar false).list
unfolding fields of_list
fields-of_list s = simp (index-init)

ensure_beacon_kept : (fresh : Bytes) (t : Trxn) → t.beacon ≢ [] → ensure_beacon fresh t ≡ t
unfolding ensure_beacon
ensure_beacon_kept fresh t h = keep t.beacon h
  where
    keep : (b : Bytes) → b ≢ [] → (if ltb (length b) 1 then record t { beacon = fresh } else t) ≡ t
    keep [] h = absurd (h refl)
    keep (c ∷ b) h = ground arith

init-of_list :
    (fresh s : Bytes) (t : Trxn) (ts : List Bytes)
    → (StrSplit.init s bar false).list ≡ ts
    → of_list ts ≡ t
    → t.beacon ≢ []
    → init fresh s ≡ t
unfolding init
init-of_list fresh s t ts pieces same has_beacon =
    ap (ensure_beacon fresh) (fields-of_list s ∙ ap of_list pieces ∙ same)
    ∙ ensure_beacon_kept fresh t has_beacon

-- A transaction whose fields hold no bar and no NUL byte, with a beacon, is read back whole, field
-- by field, from what `allstr` prints for it.
pub init-allstr : (fresh : Bytes) (t : Trxn) → IsPrintable t → init fresh (allstr t) ≡ t
unfolding of_list
init-allstr fresh t h =
    init-of_list fresh (allstr t) t (data_fields t ++ other_fields t)
      (rw (allstr-join t) (
        pieces-join t.id t.beacon _
          (All-append IsPlain (data_fields t) (other_fields t) h.plain_data h.plain_others)))
      refl h.has_beacon

-- The printed text has no NUL byte.
pub allstr-Free : (t : Trxn) → IsPrintable t → Free 0 (allstr t)
allstr-Free t h = rw (allstr-join t) (
    Free-join (data_fields t ++ other_fields t)
      (All-append IsPlain (data_fields t) (other_fields t) h.plain_data h.plain_others))

-- Of a transaction whose fields hold no bar and no NUL byte, with a beacon, the data alone, the form
-- that blocks store, gives back the data fields, and the other fields are empty.
pub init-get_trxn_data :
    (fresh : Bytes) (t : Trxn)
    → IsPrintable t
    → init fresh (get_trxn_data t) ≡ record t {
      cipher = [];
      signature = [];
      user_pubkey = [];
      user_signature = [];
      fence = [];
      response = [];
      thdr = [];
      srvport = [];
    }
unfolding of_list
init-get_trxn_data fresh t h =
    init-of_list fresh (get_trxn_data t) _ (data_fields t)
      (rw (get_trxn_data-join t) (pieces-join t.id t.beacon _ h.plain_data)) refl h.has_beacon

-- For a transaction whose fields hold no bar and no NUL byte: the id that a reader of stored blocks
-- builds, from the sixth and the third piece, is the id of the stored transaction.
pub stored_id :
    (t : Trxn)
    → IsPrintable t
    → index (StrSplit.init (get_trxn_data t) bar false) (pos 5)
        ++ b':' ∷ index (StrSplit.init (get_trxn_data t) bar false) (pos 2)
      ≡ get_trxn_id t
unfolding get_trxn_id
stored_id t h = rw (
  index-init (get_trxn_data t) bar false 5,
  index-init (get_trxn_data t) bar false 2,
  get_trxn_data-join t,
  pieces-join t.id t.beacon _ h.plain_data,
)
