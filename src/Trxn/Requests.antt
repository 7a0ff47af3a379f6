-- ===== src/Trxn/Requests.antt =====
-- src/omicrotrxn.cc: whatever a client asks for, the transaction that the client makes passes `validateTrxn`.
use omicro.Base.{
  ℕ, zero, suc, ◌+◌, ◌-◌, ◌^◌, ◌≤◌, ◌<◌, ◌≡◌, refl, Bool, true, false, [], ◌∷◌, ◌++◌, arith, ltb,
  Bool-cases, inl, inr, Bytes, codes, eqb, c_str, Free, Free-append, length, length-append,
}
use omicro.Json.{Json, write_strings}
use omicro.Accounts.{om_acct_user}
use omicro.Trxn.{
  Trxn, Keys, Reals, init, allstr, validate_trxn, set_init_trxn, get_amount_double,
  make_node_signature, om_payment, om_newacct, om_newtoken, om_xfertoken, om_query, bar,
}
use omicro.Trxn.RoundTrip.{IsPlain}
use omicro.Trxn.Making.{
  CallKeys, SignDl5, empty_trxn, make_user_signature, make_signatures, start_trxn, make_simple_trxn,
  make_token_transfer, make_new_acct_trxn, make_new_token_trxn, OmQuery, make_query, query_json,
  acct_name, get_user_id, take, drop,
}
use omicro.Trxn.Accepted.{IsClient, IsUnsigned, to_string-IsPlain, validate_trxn-make_signatures}

Free-drop : (c n : ℕ) (s : Bytes) → Free c s → Free c (drop n s)
unfolding drop
Free-drop c zero s h = h
Free-drop c (suc n) [] h = tt
Free-drop c (suc n) (x ∷ s) h = Free-drop c n s h.1

Free-take : (c n : ℕ) (s : Bytes) → Free c s → Free c (take n s)
unfolding take
Free-take c zero s h = tt
Free-take c (suc n) [] h = tt
Free-take c (suc n) (x ∷ s) h = (h.0, Free-take c n s h.1)

length-take : (n : ℕ) (s : Bytes) → length (take n s) ≤ n
unfolding take
length-take zero s = omega arith
length-take (suc n) [] = omega arith
length-take (suc n) (x ∷ s) = omega (arith, length-take n s)

get_user_id-Free : (c : ℕ) (key : Bytes) → Free c key → Free c (get_user_id key)
unfolding get_user_id
get_user_id-Free c key h = elim (Bool-cases (ltb (length key) 500)) [
  | inl short ↦ rw short tt
  | inr long ↦
      let piece : (n : ℕ) → Free c (take 6 (drop n key)) =
        λ n. Free-take c 6 (drop n key) (Free-drop c n key h) in
      rw long (
        Free-append c _ _
          (Free-append c _ _ (Free-append c _ _ (Free-take c 6 key h) (piece 18))
            (piece (length key - 256)))
          (piece (length key - 54)))
]

length-get_user_id : (key : Bytes) → length (get_user_id key) ≤ 24
unfolding get_user_id
length-get_user_id key = elim (Bool-cases (ltb (length key) 500)) [
  | inl short ↦ rw short (omega arith)
  | inr long ↦
      let a = take 6 key in
      let b = take 6 (drop 18 key) in
      let c = take 6 (drop (length key - 256) key) in
      let d = take 6 (drop (length key - 54) key) in
      rw long (
        omega (
          arith,
          length-append (a ++ b ++ c) d,
          length-append (a ++ b) c,
          length-append a b,
          length-take 6 key,
          length-take 6 (drop 18 key),
          length-take 6 (drop (length key - 256) key),
          length-take 6 (drop (length key - 54) key),
        ))
]

-- A transaction of another type is no payment.
other_type :
    {b : Bool} (tp : Bytes) → eqb tp om_payment ≡ false → eqb tp om_payment ≡ true → b ≡ false
other_type tp differs same = cc

-- What a user asks a client for.
pub data Request : Type 0 where
  payment : Bytes → Bytes → Bytes → Request
  transfer : Bytes → Bytes → Bytes → Bytes → Request
  new_account : Bytes → Request
  new_token : Bytes → Bytes → Request
  question : Bytes → OmQuery → Request

-- A request whose texts can be printed and whose names have at most 64 bytes; a payment's amount is
-- above 0.0001. A new account without a name gets one from the user's key.
unfoldable pub Fits : Reals → Json → Request → Type 0
Fits r json (payment from to amt) =
    (IsPlain from × (length from ≤ 64))
    × (IsPlain to × (length to ≤ 64))
    × IsPlain amt
    × (1 ≤ length amt)
    × (r.le_real (r.atof amt) r.smallest ≡ false)
Fits r json (transfer from token_json to amt) =
    (IsPlain from × (length from ≤ 64))
    × (IsPlain to × (length to ≤ 64))
    × IsPlain amt
    × IsPlain token_json
Fits r json (new_account name) =
    (IsPlain name × (length name ≤ 64))
    × IsPlain (write_strings json ((codes "ACTYPE", om_acct_user) ∷ []))
Fits r json (new_token owner spec) = (IsPlain owner × (length owner ≤ 64)) × IsPlain spec
Fits r json (question from q) = (IsPlain from × (length from ≤ 64)) × IsPlain (query_json json q)

unfoldable pub make : Json → Keys → SignDl5 → CallKeys → Request → Trxn
unfolding make_simple_trxn make_token_transfer make_new_acct_trxn make_new_token_trxn make_query
make json keys sign_dl5 ck (payment from to amt) =
    make_simple_trxn keys sign_dl5 ck empty_trxn from to amt
make json keys sign_dl5 ck (transfer from token_json to amt) =
    make_token_transfer keys sign_dl5 ck empty_trxn from token_json to amt
make json keys sign_dl5 ck (new_account name) =
    make_new_acct_trxn json keys sign_dl5 ck empty_trxn name
make json keys sign_dl5 ck (new_token owner spec) =
    make_new_token_trxn keys sign_dl5 ck empty_trxn owner spec
make json keys sign_dl5 ck (question from q) = make_query json keys sign_dl5 ck empty_trxn from q

module _ (r : Reals) (json : Json) (keys : Keys) (sign_dl5 : SignDl5) (ck : CallKeys)
    (node_secret : Bytes) (client : IsClient keys sign_dl5 ck node_secret) where
  -- A new transaction before it is signed.
  abbrev draft : Bytes → Bytes → Bytes → Bytes → Bytes → Bytes → Trxn
  draft from to amt tp asset req = record (start_trxn keys empty_trxn) {
    sender = from;
    receiver = to;
    amount = amt;
    trxntype = tp;
    assettype = asset;
    request = req;
  }

  draft-IsUnsigned :
      (from to amt tp asset req : Bytes)
      → IsPlain from × (length from ≤ 64)
      → IsPlain to × (length to ≤ 64)
      → IsPlain amt
      → IsPlain tp
      → IsPlain asset
      → IsPlain req
      → IsUnsigned keys (draft from to amt tp asset req)
  unfolding start_trxn
  draft-IsUnsigned from to amt tp asset req plain_from plain_to plain_amt plain_tp plain_asset
        plain_req =
      let time = to_string-IsPlain keys.now_us in
      let beacon = client.plain_beacon in
      record {
        plain = ground (
          arith, plain_from, plain_to, plain_amt, plain_tp, plain_asset, plain_req, time, beacon,
        );
        begun = client.has_beacon;
        plain_fence = (tt, tt);
        plain_response = (tt, tt);
        plain_thdr = ground arith;
        plain_srvport = ground arith;
        short_sender = plain_from.1;
        short_receiver = plain_to.1;
        at_time = refl;
      }

  acct_name-IsPlain :
      (name : Bytes)
      → IsPlain name × (length name ≤ 64)
      → IsPlain (acct_name ck name) × (length (acct_name ck name) ≤ 64)
  unfolding acct_name
  acct_name-IsPlain name h = elim (Bool-cases (ltb (length name) 1)) [
    | inl none_given ↦
        let key = ck.user_public_key in
        rw none_given (
          (get_user_id-Free bar key client.plain_key.0, get_user_id-Free 0 key client.plain_key.1),
          omega (arith, length-get_user_id key),
        )
    | inr given ↦ rw given h
  ]

  -- Whatever a user asks for, with texts that can be printed, names of at most 64 bytes and, in a
  -- payment, an amount that is not empty and is above 0.0001: the text that the client makes of it, read
  -- back, passes `OmicroTrxn::validateTrxn`, the checks of names, time, both signatures and amount, at a
  -- clock at most 300 seconds later and below 2^64. The session's further checks, of the account, are
  -- not part of this. The signatures are taken to verify under the keys of the node and the user, and
  -- to have no bar and no NUL byte, as the user's key and the beacon; `atol` is taken to read the time.
  pub validate_trxn-make :
      (req : Request) (now : ℕ) (fresh : Bytes)
      → Fits r json req
      → keys.now_us ≤ now
      → now ≤ keys.now_us + 300000000
      → now < 2 ^ 64
      → validate_trxn r
          (record keys { now_us = now })
          node_secret
          (init fresh (c_str (allstr (set_init_trxn (make json keys sign_dl5 ck req)))))
        ≡ true
  unfolding make make_simple_trxn make_token_transfer make_new_acct_trxn make_new_token_trxn
      make_query make_signatures start_trxn set_init_trxn Fits make_node_signature
      make_user_signature get_amount_double eqb
  validate_trxn-make (payment from to amt) now fresh h after soon small =
      let (plain_from, plain_to, plain_amt, filled, large) = h in
      let given : ltb (length amt) 1 ≡ false = ground (arith, filled) in
      validate_trxn-make_signatures r keys sign_dl5 ck node_secret client
        (draft from to amt om_payment (codes "OC") []) now fresh
        (draft-IsUnsigned from to amt om_payment (codes "OC") [] plain_from plain_to plain_amt
          (ground arith) (ground arith) (tt, tt))
        (λ pays. rw given large) after soon small
  validate_trxn-make (transfer from token_json to amt) now fresh h after soon small =
      let (plain_from, plain_to, plain_amt, plain_json) = h in
      validate_trxn-make_signatures r keys sign_dl5 ck node_secret client
        (draft from to amt om_xfertoken (codes "TK") token_json) now fresh
        (draft-IsUnsigned from to amt om_xfertoken (codes "TK") token_json plain_from plain_to
          plain_amt (ground arith) (ground arith) plain_json)
        (other_type om_xfertoken refl) after soon small
  validate_trxn-make (new_account name) now fresh h after soon small =
      let req = write_strings json ((codes "ACTYPE", om_acct_user) ∷ []) in
      validate_trxn-make_signatures r keys sign_dl5 ck node_secret client
        (draft (acct_name ck name) [] (codes "0") om_newacct [] req) now fresh
        (draft-IsUnsigned (acct_name ck name) [] (codes "0") om_newacct [] req
          (acct_name-IsPlain name h.0) ((tt, tt), omega arith) (ground arith) (ground arith)
          (tt, tt) h.1)
        (other_type om_newacct refl) after soon small
  validate_trxn-make (new_token owner spec) now fresh h after soon small =
      validate_trxn-make_signatures r keys sign_dl5 ck node_secret client
        (draft owner [] (codes "0") om_newtoken (codes "T") spec) now fresh
        (draft-IsUnsigned owner [] (codes "0") om_newtoken (codes "T") spec h.0
          ((tt, tt), omega arith) (ground arith) (ground arith) (ground arith) h.1)
        (other_type om_newtoken refl) after soon small
  validate_trxn-make (question from q) now fresh h after soon small =
      validate_trxn-make_signatures r keys sign_dl5 ck node_secret client
        (draft from [] [] om_query [] (query_json json q)) now fresh
        (draft-IsUnsigned from [] [] om_query [] (query_json json q) h.0 ((tt, tt), omega arith)
          (tt, tt) (ground arith) (tt, tt) h.1)
        (other_type om_query refl) after soon small
