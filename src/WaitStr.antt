-- ===== src/WaitStr.antt =====
-- src/omwaitstr.h and src/omwaitstr.cc: the results of queries that wait for their reader, each with the
-- time at which it came, in seconds.
use omicro.Base.{
  ℕ, ◌+◌, ◌≡◌, ◌∙◌, refl, ap, [], ◌∷◌, ltb, if◌then◌else◌, Bytes, eqb_refl, Option, none, some,
  arith, eqb, eqb_iff,
}
use omicro.Base.Dict
use omicro.Base.Dict.{Dict, find-assign, find-emplace}

abbrev pub WaitStr : Type 0
WaitStr = Dict (ℕ × Bytes)

-- A result for an id that has one is dropped.
unfoldable pub add : ℕ → Bytes → Bytes → WaitStr → WaitStr
add nowt trxnid text ts_str = elim (Dict.find trxnid ts_str) [
  | none ↦ Dict.emplace trxnid (nowt, text) ts_str
  | some entry ↦ ts_str
]

-- `none` where the string stays as it is.
unfoldable pub get : Bytes → WaitStr → Option Bytes
get trxnid ts_str = elim (Dict.find trxnid ts_str) [ none ↦ none | some (time, text) ↦ some text ]

unfoldable pub erase : Bytes → WaitStr → WaitStr
erase trxnid ts_str = Dict.erase trxnid ts_str

-- `nowt - time > keepSeconds`
unfoldable pub cleanup : ℕ → ℕ → WaitStr → WaitStr
cleanup nowt keep_seconds [] = []
cleanup nowt keep_seconds ((trxnid, (time, text)) ∷ ts_str) =
    let rest = cleanup nowt keep_seconds ts_str in
    if ltb (keep_seconds + time) nowt then rest else (trxnid, (time, text)) ∷ rest

add_absent :
    (nowt : ℕ) (trxnid text : Bytes) (ts_str : WaitStr)
    → Dict.find trxnid ts_str ≡ none
    → add nowt trxnid text ts_str ≡ Dict.emplace trxnid (nowt, text) ts_str
unfolding add
add_absent nowt trxnid text ts_str h = rw (add, h) refl

add_there :
    (nowt : ℕ) (trxnid text : Bytes) (ts_str : WaitStr) (entry : ℕ × Bytes)
    → Dict.find trxnid ts_str ≡ some entry
    → add nowt trxnid text ts_str ≡ ts_str
unfolding add
add_there nowt trxnid text ts_str entry h = rw (add, h) refl

-- The first result for an id is the one that is read, whatever comes later.
pub get-add :
    (t1 t2 : ℕ) (trxnid text later : Bytes) (ts_str : WaitStr)
    → Dict.find trxnid ts_str ≡ none
    → get trxnid (add t2 trxnid later (add t1 trxnid text ts_str)) ≡ some text
unfolding get
get-add t1 t2 trxnid text later ts_str absent =
    let once = Dict.emplace trxnid (t1, text) ts_str in
    let there : Dict.find trxnid once ≡ some (t1, text) =
      find-emplace trxnid trxnid (t1, text) ts_str ∙ rw (absent, eqb_refl trxnid) refl in
    ap (λ w. get trxnid (add t2 trxnid later w)) (add_absent t1 trxnid text ts_str absent)
    ∙ ap (get trxnid) (add_there t2 trxnid later once (t1, text) there)
    ∙ rw (get, there) refl

-- A result that is there stays, and one that is not is the new one; others are left alone.
pub get-add_if :
    (nowt : ℕ) (trxnid j text : Bytes) (ts_str : WaitStr)
    → get j (add nowt trxnid text ts_str)
      ≡ (if eqb trxnid j then some (Dict.or_else (get trxnid ts_str) text) else get j ts_str)
unfolding get add
get-add_if nowt trxnid j text ts_str =
    ground (arith, eqb_iff trxnid j, find-emplace trxnid j (nowt, text) ts_str)

pub get-add_self :
    (nowt : ℕ) (trxnid text : Bytes) (ts_str : WaitStr)
    → get trxnid (add nowt trxnid text ts_str) ≡ some (Dict.or_else (get trxnid ts_str) text)
get-add_self nowt trxnid text ts_str =
    get-add_if nowt trxnid trxnid text ts_str ∙ rw (eqb_refl trxnid) refl
