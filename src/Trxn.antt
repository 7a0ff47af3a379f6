-- ===== src/Trxn.antt =====
-- src/omicrotrxn.h and src/omicrotrxn.cc: a transaction, its text forms and its checks. Signatures,
-- clocks, random numbers and `atof` are arguments (`Keys`, `Reals`); debug fields and logging are left
-- out.
pub mod RoundTrip
pub mod Making
pub mod Accepted
pub mod Requests
use omicro.Base.{
  ℕ, ◌+◌, ◌-◌, ◌%◌, ◌^◌, not, Bool, true, false, ◌∷◌, ◌++◌, ◌==◌, ltb, if◌then◌else◌, Bytes, codes,
  eqb, length, get_or, set,
}
use omicro.Base.Int.{pos}
use omicro.StrSplit
use omicro.StrSplit.{index}

pub record Trxn : Type 0 where
  pub id : Bytes
  pub beacon : Bytes
  pub sender : Bytes
  pub receiver : Bytes
  pub amount : Bytes
  pub timestamp : Bytes
  pub trxntype : Bytes
  pub assettype : Bytes
  pub request : Bytes
  pub pad1 : Bytes
  pub pad2 : Bytes
  pub pad3 : Bytes
  pub pad4 : Bytes
  pub pad5 : Bytes
  pub pad6 : Bytes
  pub pad7 : Bytes
  pub pad8 : Bytes
  pub pad9 : Bytes
  pub pad10 : Bytes
  pub cipher : Bytes
  pub signature : Bytes
  pub user_pubkey : Bytes
  pub user_signature : Bytes
  pub fence : Bytes
  pub response : Bytes
  pub thdr : Bytes
  pub srvport : Bytes

abbrev pub om_payment : Bytes
om_payment = codes "P"

abbrev pub om_newacct : Bytes
om_newacct = codes "A"

abbrev pub om_newtoken : Bytes
om_newtoken = codes "T"

abbrev pub om_xfertoken : Bytes
om_xfertoken = codes "X"

abbrev pub om_query : Bytes
om_query = codes "Q"

abbrev pub bar : ℕ
bar = b'|'

-- `sp[i]` for the pieces of the text; past the last piece it is the empty string.
fields : StrSplit.StrSplit → Trxn
fields sp = record {
  id = index sp (pos 0);
  beacon = index sp (pos 1);
  sender = index sp (pos 2);
  receiver = index sp (pos 3);
  amount = index sp (pos 4);
  timestamp = index sp (pos 5);
  trxntype = index sp (pos 6);
  assettype = index sp (pos 7);
  request = index sp (pos 8);
  pad1 = index sp (pos 9);
  pad2 = index sp (pos 10);
  pad3 = index sp (pos 11);
  pad4 = index sp (pos 12);
  pad5 = index sp (pos 13);
  pad6 = index sp (pos 14);
  pad7 = index sp (pos 15);
  pad8 = index sp (pos 16);
  pad9 = index sp (pos 17);
  pad10 = index sp (pos 18);
  cipher = index sp (pos 19);
  signature = index sp (pos 20);
  user_pubkey = index sp (pos 21);
  user_signature = index sp (pos 22);
  fence = index sp (pos 23);
  response = index sp (pos 24);
  thdr = index sp (pos 25);
  srvport = index sp (pos 26);
}

-- `if (beacon_.size() < 1) setBeacon();` where `fresh` is what `setBeacon` writes, seven characters
-- of the clock.
ensure_beacon : Bytes → Trxn → Trxn
ensure_beacon fresh t = if ltb (length t.beacon) 1 then record t { beacon = fresh } else t

unfoldable pub init : Bytes → Bytes → Trxn
unfolding fields ensure_beacon
init fresh str = ensure_beacon fresh (fields (StrSplit.init str bar false))

unfoldable pub get_trxn_data : Trxn → Bytes
get_trxn_data t =
    t.id
    ++ bar ∷ t.beacon
    ++ bar ∷ t.sender
    ++ bar ∷ t.receiver
    ++ bar ∷ t.amount
    ++ bar ∷ t.timestamp
    ++ bar ∷ t.trxntype
    ++ bar ∷ t.assettype
    ++ bar ∷ t.request
    ++ bar ∷ t.pad1
    ++ bar ∷ t.pad2
    ++ bar ∷ t.pad3
    ++ bar ∷ t.pad4
    ++ bar ∷ t.pad5
    ++ bar ∷ t.pad6
    ++ bar ∷ t.pad7
    ++ bar ∷ t.pad8
    ++ bar ∷ t.pad9
    ++ bar ∷ t.pad10

unfoldable pub allstr : Trxn → Bytes
allstr t =
    get_trxn_data t
    ++ bar ∷ t.cipher
    ++ bar ∷ t.signature
    ++ bar ∷ t.user_pubkey
    ++ bar ∷ t.user_signature
    ++ bar ∷ t.fence
    ++ bar ∷ t.response
    ++ bar ∷ t.thdr
    ++ bar ∷ t.srvport

unfoldable pub get_trxn_id : Trxn → Bytes
get_trxn_id t = t.timestamp ++ b':' ∷ t.sender

-- The transaction header's two bytes; the source writes and reads past a shorter header, here a
-- write past it does nothing and a read past it is the NUL byte.
unfoldable pub set_init_trxn : Trxn → Trxn
set_init_trxn t = record t { thdr = set t.thdr 0 b'I' }

unfoldable pub set_not_init_trxn : Trxn → Trxn
set_not_init_trxn t = record t { thdr = set t.thdr 0 b'N' }

unfoldable pub is_init_trxn : Trxn → Bool
is_init_trxn t = get_or t.thdr 0 0 == b'I'

unfoldable pub set_xit : Trxn → ℕ → Trxn
set_xit t xit = record t { thdr = set t.thdr 1 xit }

unfoldable pub get_xit : Trxn → ℕ
get_xit t = get_or t.thdr 1 0

unfoldable pub get_initer_ip : Trxn → Bytes
get_initer_ip t = index (StrSplit.init t.srvport b':' false) (pos 0)

unfoldable pub get_initer_port : Trxn → Bytes
get_initer_port t = index (StrSplit.init t.srvport b':' false) (pos 1)

-- `double`, as the source uses it; `smallest` is the constant 0.0001.
pub record Reals : Type 1 where
  pub Real : Type 0
  pub zero_real : Real
  pub smallest : Real
  pub atof : Bytes → Real
  pub minus : Real → Real → Real
  pub lt_real : Real → Real → Bool
  pub le_real : Real → Real → Bool

-- The signatures of `OmicroNodeKey` and `OmicroUserKey`, and the clock. `sign_sb3` gives the
-- signature and the cipher.
pub record Keys : Type 0 where
  pub sign_sb3 : Bytes → Bytes → Bytes × Bytes
  pub verify_sb3 : Bytes → Bytes → Bytes → Bytes → Bool
  pub verify_dl5 : Bytes → Bytes → Bool
  pub atol : Bytes → ℕ
  pub now_us : ℕ
  pub fresh_beacon : Bytes

unfoldable pub get_amount_double : (r : Reals) → Trxn → r.Real
get_amount_double r t = if ltb (length t.amount) 1 then r.zero_real else r.atof t.amount

unfoldable pub get_time_stamp_us : Keys → Trxn → ℕ
get_time_stamp_us keys t = if ltb (length t.timestamp) 1 then 0 else keys.atol t.timestamp

unfoldable pub make_node_signature : Keys → Bytes → Trxn → Trxn
make_node_signature keys node_pubkey t =
    let (signature, cipher) = keys.sign_sb3 (get_trxn_data t) node_pubkey in
    record t { signature = signature; cipher = cipher }

abbrev pub om_name_maxsz : ℕ
om_name_maxsz = 64

-- `nowt - trxnTime` on `unsigned long`, so a time in the future is late.
abbrev age : ℕ → ℕ → ℕ
age now time = (now + (2 ^ 64 - time % 2 ^ 64)) % 2 ^ 64

-- `validateTrxn` with `checkTime`, its default.
unfoldable pub validate_trxn : (r : Reals) → Keys → Bytes → Trxn → Bool
unfolding get_trxn_data get_amount_double get_time_stamp_us
validate_trxn r keys secret_key t =
    if ltb om_name_maxsz (length t.sender)
    then false
    else if ltb om_name_maxsz (length t.receiver)
    then false
    else if ltb 300000000 (age keys.now_us (get_time_stamp_us keys t))
    then false
    else if not (keys.verify_sb3 (get_trxn_data t) t.signature t.cipher secret_key)
    then false
    else if not (keys.verify_dl5 t.user_signature t.user_pubkey)
    then false
    else if eqb t.trxntype om_payment
    then not (r.le_real (get_amount_double r t) r.smallest)
    else true

-- `validateTrxn` without `checkTime`.
unfoldable pub validate_trxn_untimed : (r : Reals) → Keys → Bytes → Trxn → Bool
unfolding get_trxn_data get_amount_double
validate_trxn_untimed r keys secret_key t =
    if ltb om_name_maxsz (length t.sender)
    then false
    else if ltb om_name_maxsz (length t.receiver)
    then false
    else if not (keys.verify_sb3 (get_trxn_data t) t.signature t.cipher secret_key)
    then false
    else if not (keys.verify_dl5 t.user_signature t.user_pubkey)
    then false
    else if eqb t.trxntype om_payment
    then not (r.le_real (get_amount_double r t) r.smallest)
    else true
