-- ===== src/Trxn/Accepted.antt =====
-- src/omicrotrxn.cc: what the `make` functions build passes `validateTrxn`.
use omicro.Base.{
  ℕ, suc, ◌+◌, ◌-◌, ◌/◌, ◌%◌, ◌^◌, ◌≤◌, ◌<◌, ◌≡◌, ◌≢◌, ◌∙◌, ap, true, false, [], ◌∷◌, arith, ltb,
  Bool-cases, inl, inr, Bytes, eqb, c_str, c_str-Free, All, length, length-append,
}
use omicro.Base.Decimal.{to_string, print_digits, is_digit, to_string-digits}
use omicro.Trxn.{
  Trxn, Keys, Reals, init, allstr, get_trxn_data, make_node_signature, validate_trxn,
  get_amount_double, get_time_stamp_us, om_payment, bar,
}
use omicro.Trxn.RoundTrip.{IsPlain, IsPrintable, data_fields, init-allstr, allstr-Free}
use omicro.Trxn.Making.{CallKeys, SignDl5, make_user_signature, make_signatures}

print_digits_filled : (w n : ℕ) → 1 ≤ length (print_digits (suc w) n)
unfolding print_digits
print_digits_filled w n = elim (Bool-cases (ltb n 10)) [
  | inl small ↦ rw small (omega arith)
  | inr large ↦
      rw large (omega (arith, length-append (print_digits w (n / 10)) ((b'0' + n % 10) ∷ [])))
]

to_string_filled : (n : ℕ) → 1 ≤ length (to_string n)
unfolding to_string
to_string_filled n = print_digits_filled 19 n

digits-IsPlain : (s : Bytes) → All (λ c. is_digit c ≡ true) s → IsPlain s
digits-IsPlain [] h = (tt, tt)
digits-IsPlain (c ∷ s) h =
    let (no_bar, no_nul) = digits-IsPlain s h.1 in
    let differs : (c ≢ bar) × (c ≢ 0) = ground (arith, h.0) in
    ((differs.0, no_bar), (differs.1, no_nul))

pub to_string-IsPlain : (n : ℕ) → IsPlain (to_string n)
to_string-IsPlain n = digits-IsPlain (to_string n) (to_string-digits n)

-- A client whose signatures verify, for the node's keys and for its user's, and whose keys,
-- signatures and beacon have no bar and no NUL byte; `atol` reads the time that it prints.
pub record IsClient (keys : Keys) (sign_dl5 : SignDl5) (ck : CallKeys) (node_secret : Bytes)
    : Type 0 where
  pub node_verifies :
      (text : Bytes)
      → keys.verify_sb3 text
          (keys.sign_sb3 text ck.node_pubkey).0
          (keys.sign_sb3 text ck.node_pubkey).1
          node_secret
        ≡ true
  pub user_verifies :
      (text : Bytes) → keys.verify_dl5 (sign_dl5 text ck.user_secret_key) ck.user_public_key ≡ true
  pub plain_node :
      (text : Bytes)
      → IsPlain (keys.sign_sb3 text ck.node_pubkey).0
        × IsPlain (keys.sign_sb3 text ck.node_pubkey).1
  pub plain_user : (text : Bytes) → IsPlain (sign_dl5 text ck.user_secret_key)
  pub plain_key : IsPlain ck.user_public_key
  pub plain_beacon : IsPlain keys.fresh_beacon
  pub has_beacon : keys.fresh_beacon ≢ []
  pub reads_time : keys.atol (to_string keys.now_us) ≡ keys.now_us

-- A transaction before it is signed.
pub record IsUnsigned (keys : Keys) (t : Trxn) : Type 0 where
  pub plain : All IsPlain (data_fields t)
  pub begun : t.beacon ≢ []
  pub plain_fence : IsPlain t.fence
  pub plain_response : IsPlain t.response
  pub plain_thdr : IsPlain t.thdr
  pub plain_srvport : IsPlain t.srvport
  pub short_sender : length t.sender ≤ 64
  pub short_receiver : length t.receiver ≤ 64
  pub at_time : t.timestamp ≡ to_string keys.now_us

module _ (r : Reals) (keys : Keys) (sign_dl5 : SignDl5) (ck : CallKeys) (node_secret : Bytes)
    (client : IsClient keys sign_dl5 ck node_secret) where
  make_signatures-IsPrintable :
      (t : Trxn) → IsUnsigned keys t → IsPrintable (make_signatures keys sign_dl5 ck t)
  unfolding make_signatures make_user_signature make_node_signature
  make_signatures-IsPrintable t h =
      let (plain_signature, plain_cipher) = client.plain_node (get_trxn_data t) in
      record {
        plain_data = h.plain;
        plain_others = (
          plain_cipher,
          (
            plain_signature,
            (
              client.plain_key,
              (
                client.plain_user (get_trxn_data (make_node_signature keys ck.node_pubkey t)),
                (h.plain_fence, (h.plain_response, (h.plain_thdr, (h.plain_srvport, tt)))),
              ),
            ),
          ),
        );
        has_beacon = h.begun;
      }

  validate_trxn-true :
      (node_keys : Keys) (t : Trxn)
      → length t.sender ≤ 64
      → length t.receiver ≤ 64
      → ltb 300000000
          ((node_keys.now_us + (2 ^ 64 - get_time_stamp_us node_keys t % 2 ^ 64)) % 2 ^ 64)
        ≡ false
      → node_keys.verify_sb3 (get_trxn_data t) t.signature t.cipher node_secret ≡ true
      → node_keys.verify_dl5 t.user_signature t.user_pubkey ≡ true
      → (eqb t.trxntype om_payment ≡ true → r.le_real (get_amount_double r t) r.smallest ≡ false)
      → validate_trxn r node_keys node_secret t ≡ true
  unfolding validate_trxn
  validate_trxn-true node_keys t from to time node user pays =
      elim (Bool-cases (eqb t.trxntype om_payment)) [
        | inl payment ↦ ground (arith, from, to, time, node, user, payment, pays payment)
        | inr other ↦ ground (arith, from, to, time, node, user, other)
      ]

  recent :
      (now : ℕ)
      → keys.now_us ≤ now
      → now ≤ keys.now_us + 300000000
      → now < 2 ^ 64
      → ltb 300000000 ((now + (2 ^ 64 - keys.now_us % 2 ^ 64)) % 2 ^ 64) ≡ false
  recent now after soon small = ground (arith, after, soon, small)

  time_stamp :
      (t : Trxn) (now : ℕ)
      → IsUnsigned keys t
      → get_time_stamp_us (record keys { now_us = now }) t ≡ keys.now_us
  unfolding get_time_stamp_us
  time_stamp t now h =
      let filled : ltb (length (to_string keys.now_us)) 1 ≡ false =
        ground (arith, to_string_filled keys.now_us) in
      rw (h.at_time, filled) client.reads_time

  -- What a node reads passes `validateTrxn` at a time at most 300 seconds later.
  pub validate_trxn-make_signatures :
      (t : Trxn) (now : ℕ) (fresh : Bytes)
      → IsUnsigned keys t
      → (eqb t.trxntype om_payment ≡ true → r.le_real (get_amount_double r t) r.smallest ≡ false)
      → keys.now_us ≤ now
      → now ≤ keys.now_us + 300000000
      → now < 2 ^ 64
      → validate_trxn r
          (record keys { now_us = now })
          node_secret
          (init fresh (c_str (allstr (make_signatures keys sign_dl5 ck t))))
        ≡ true
  unfolding make_signatures make_user_signature make_node_signature get_time_stamp_us get_trxn_data
      get_amount_double
  validate_trxn-make_signatures t now fresh h pays after soon small =
      let signed = make_signatures keys sign_dl5 ck t in
      let printable = make_signatures-IsPrintable t h in
      let told : get_time_stamp_us (record keys { now_us = now }) t ≡ keys.now_us =
        time_stamp t now h in
      ap (λ text. validate_trxn r (record keys { now_us = now }) node_secret (init fresh text))
        (c_str-Free (allstr signed) (allstr-Free signed printable))
      ∙ ap (validate_trxn r (record keys { now_us = now }) node_secret)
          (init-allstr fresh signed printable)
      ∙ validate_trxn-true (record keys { now_us = now }) signed h.short_sender h.short_receiver
          (rw told (recent now after soon small)) (client.node_verifies (get_trxn_data t))
          (client.user_verifies (get_trxn_data (make_node_signature keys ck.node_pubkey t))) pays
