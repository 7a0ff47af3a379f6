-- ===== src/Session/Checks.antt =====
-- src/omsession.cc, `validateTrxn` and the first part of `doTrxnL2`: what is accepted, and what
-- happens to the rest.
use omicro.Base.{ℕ, ◌≤◌, ◌<◌, ◌≡◌, ap, Bool, true, false, arith, Bytes, eqb, eqb_iff, length, c_str}
use omicro.Base.Int.{pos, neg}
use omicro.Trxn.{
  Trxn, Keys, Reals, get_trxn_id, get_trxn_data, init, is_init_trxn, validate_trxn,
  get_amount_double, om_payment,
}
use omicro.TrxnState.{st_f}
use omicro.Circuit.{Maths}
use omicro.Server.{Server, WaitCount, Ledger, cur_state}
use omicro.Session.{Session, Responses, validate, judged, do_trxn_l2}

module _ (m : Maths) (keys : Keys) (r : Reals) (wc : WaitCount) (ledger : Ledger r)
    (resp : Responses) where
  abbrev State : Type 0
  State = Server m keys r wc ledger

  abbrev Sess : Type 0
  Sess = Session m keys r wc ledger resp

  -- The transaction of a message.
  abbrev pub trxn_of : Bytes → Trxn
  trxn_of msg = init keys.fresh_beacon (c_str msg)

  validate_late :
      (s : State) (id : Bytes) (t : Trxn) (b : Bool)
      → st_f ≤ cur_state m keys r wc ledger s id
      → (validate m keys r wc ledger resp s id t b).0 ≡ neg 900
  unfolding validate
  validate_late s id t b h = ground arith

  -- A message for a transaction in state F or past it changes nothing and is not answered, whatever
  -- its trigger.
  pub do_trxn_l2_late :
      (s : Sess) (msg : Bytes) (sock : ℕ)
      → st_f ≤ cur_state m keys r wc ledger s.server (get_trxn_id (trxn_of msg))
      → do_trxn_l2 m keys r wc ledger resp s msg sock ≡ s
  unfolding do_trxn_l2 judged
  do_trxn_l2_late s msg sock h =
      let t = trxn_of msg in
      let id = get_trxn_id t in
      ap
        (judged m keys r wc ledger resp s id t sock
          (validate m keys r wc ledger resp s.server id t (is_init_trxn t)).1)
        (validate_late s.server id t (is_init_trxn t) h)

  validate_trxn-signed :
      (key : Bytes) (t : Trxn)
      → validate_trxn r keys key t ≡ true
      → (length t.sender ≤ 64)
        × (length t.receiver ≤ 64)
        × (keys.verify_sb3 (get_trxn_data t) t.signature t.cipher key ≡ true)
        × (keys.verify_dl5 t.user_signature t.user_pubkey ≡ true)
  unfolding validate_trxn
  validate_trxn-signed key t h = ground arith

  -- A transaction that passes the check is below F, and valid by itself.
  validate-valid :
      (s : State) (id : Bytes) (t : Trxn) (b : Bool)
      → (validate m keys r wc ledger resp s id t b).0 ≡ pos 0
      → (cur_state m keys r wc ledger s id < st_f) × (validate_trxn r keys s.sec_key t ≡ true)
  unfolding validate
  validate-valid s id t b h = ground arith

  -- What passes the check is not committed yet, has names of at most 64 bytes and both signatures
  -- verified.
  pub validate-signed :
      (s : State) (id : Bytes) (t : Trxn) (b : Bool)
      → (validate m keys r wc ledger resp s id t b).0 ≡ pos 0
      → (cur_state m keys r wc ledger s id < st_f)
        × (length t.sender ≤ 64)
        × (length t.receiver ≤ 64)
        × (keys.verify_sb3 (get_trxn_data t) t.signature t.cipher s.sec_key ≡ true)
        × (keys.verify_dl5 t.user_signature t.user_pubkey ≡ true)
  validate-signed s id t b h =
      let (low, valid) = validate-valid s id t b h in
      let (sender, receiver, node, user) = validate_trxn-signed s.sec_key t valid in
      (low, sender, receiver, node, user)

  -- A payment that passes the check carries the public key of the sender's account, and the balance
  -- of the account less the amount is not below 0.0001.
  pub validate-payment :
      (s : State) (id : Bytes) (t : Trxn) (b : Bool)
      → t.trxntype ≡ om_payment
      → (validate m keys r wc ledger resp s id t b).0 ≡ pos 0
      → ((ledger.get_balance_and_pubkey s.store t.sender).2 ≡ t.user_pubkey)
        × (r.lt_real
              (r.minus (ledger.get_balance_and_pubkey s.store t.sender).1 (get_amount_double r t))
              r.smallest
            ≡ false)
  unfolding validate
  validate-payment s id t b pays h =
      let paying : eqb t.trxntype om_payment ≡ true = (eqb_iff t.trxntype om_payment).1 pays in
      ground
        (arith, paying, eqb_iff (ledger.get_balance_and_pubkey s.store t.sender).2 t.user_pubkey)
