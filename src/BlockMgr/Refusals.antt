-- ===== src/BlockMgr/Refusals.antt =====
-- src/blockmgr.cc: payments that are refused, and a payment to oneself.
use omicro.Base.{
  ◌+◌, ◌%◌, ◌^◌, ap, sym, Bool-cases, codes, inl, inr, ◌≡◌, ◌⊎◌, refl, subst, [], Bool, true, false,
  if◌then◌else◌, Bytes, Free, Option, none, some,
}
use omicro.Base.Decimal.{to_string}
use omicro.Base.Int.{ℤ, pos, is_negative}
use omicro.Accounts.{Account, of_json, to_json, add_balance, increment_in, atoll}
use omicro.Trxn.{Trxn, Reals, get_amount_double}
use omicro.BlockMgr.{
  Cabinet, BlockMgr, System, find_save_store, update_acct_balances, pay, pay_found,
}
use omicro.BlockMgr.Lookups.{
  IsFound, GivesFound, find_save_store-IsFound, IsFound-IsKept, IsFound-find_save_store,
}
use omicro.BlockMgr.Payments.{refused, receiver_record, accepted, paid, paid-receiver}

module _ (r : Reals) (sys : System r) (c : Cabinet) where
  -- A result with a negative code has that state.
  abbrev RefusedAt : BlockMgr c → BlockMgr c × ℤ × Bytes → Type 0
  RefusedAt s result = is_negative result.1 ≡ true → result.0 ≡ s

  RefusedAt-if :
      (b : Bool) (s : BlockMgr c) (p q : BlockMgr c × ℤ × Bytes)
      → RefusedAt s p
      → RefusedAt s q
      → RefusedAt s (if b then p else q)
  RefusedAt-if true s p q hp hq = hp
  RefusedAt-if false s p q hp hq = hq

  pay-refused :
      (s : BlockMgr c) (t : Trxn) (from to : c.Handle × Bytes)
      → RefusedAt s (pay r sys c s t from to)
  unfolding pay
  pay-refused s t from to =
      RefusedAt-if (refused r sys c t from.1) s _ (paid r sys c s t from to, pos 0, []) (λ h. refl)
        (λ h. cc)

  pay_found-refused :
      (t : Trxn) (from to : BlockMgr c × Option (c.Handle × Bytes))
      → is_negative (pay_found r sys c t from to).1 ≡ true
      → ((pay_found r sys c t from to).0 ≡ from.0) ⊎ ((pay_found r sys c t from to).0 ≡ to.0)
  unfolding pay_found
  pay_found-refused t (s1, none) to h = inl refl
  pay_found-refused t (s1, some src) (s2, none) h = inr refl
  pay_found-refused t (s1, some src) (s2, some dst) h = inr (pay-refused s2 t src dst h)

  -- A payment that returns a negative code writes nothing: the state is the one after the lookup of
  -- the sender, or after the lookups of both users.
  pub update_acct_balances-refused :
      (s : BlockMgr c) (t : Trxn)
      → is_negative (update_acct_balances r sys c s t).1 ≡ true
      → let s1 = (find_save_store r sys c s t.sender).0 in
        ((update_acct_balances r sys c s t).0 ≡ s1)
        ⊎ ((update_acct_balances r sys c s t).0 ≡ (find_save_store r sys c s1 t.receiver).0)
  unfolding update_acct_balances
  update_acct_balances-refused s t h = pay_found-refused t _ _ h

  -- The balance after the credit of an amount, written out: an amount past 10 ^ 10, either way, or one
  -- that would leave less than nothing, leaves the balance.
  abbrev pub credited : Account → r.Real → Bytes
  credited acct amt =
      let sum = sys.doubles.plus (r.atof acct.balance) amt in
      if r.lt_real (r.atof (codes "10000000000")) (sys.doubles.fabs amt)
      then acct.balance
      else if r.lt_real sum r.zero_real
      then acct.balance
      else sys.doubles.print_6g sum

  -- An account whose owner has been credited: the counter of receipts goes up, and the type, the key,
  -- the counter of payments, which is the fence, and the tokens are the old ones.
  abbrev pub credited_account : Account → r.Real → Account
  credited_account acct amt = record {
    accttype = acct.accttype;
    balance = credited acct amt;
    tokentype = acct.tokentype;
    pubkey = acct.pubkey;
    keytype = acct.keytype;
    out = acct.out;
    in_ = to_string ((atoll acct.in_ + 1) % 2 ^ 64);
    tokens = acct.tokens;
  }

  receiver_record-credited_account :
      (t : Trxn) (rec : Bytes)
      → receiver_record r sys c t rec
        ≡ to_json sys.json (credited_account (of_json sys.json rec) (get_amount_double r t))
  unfolding add_balance increment_in
  receiver_record-credited_account t rec =
      ap (to_json sys.json) (credits (of_json sys.json rec) (get_amount_double r t))
    where
      credits :
          (acct : Account) (amt : r.Real)
          → increment_in (add_balance r sys.doubles amt acct).0 ≡ credited_account acct amt
      credits acct amt =
          let big = r.lt_real (r.atof (codes "10000000000")) (sys.doubles.fabs amt) in
          let low = r.lt_real (sys.doubles.plus (r.atof acct.balance) amt) r.zero_real in
          elim (Bool-cases big) [
            | inl h ↦ rw h refl
            | inr h ↦ elim (Bool-cases low) [ inl k ↦ rw (h, k) refl | inr k ↦ rw (h, k) refl ]
          ]

  -- A payment to oneself, with a name that has no NUL byte, from an account that is found, where what
  -- `addBalance` returns for the sender is not below -1.0, returns 0, and the account that is found
  -- afterwards has the balance with the amount added, or the old one where the amount is past 10 ^ 10
  -- or the sum below 0, and one more receipt; every other field, with the fence, is the old one.
  pub update_acct_balances_self :
      (s s1 : BlockMgr c) (t : Trxn) (from : c.Handle × Bytes)
      → find_save_store r sys c s t.sender ≡ (s1, some from)
      → t.receiver ≡ t.sender
      → Free 0 t.receiver
      → refused r sys c t from.1 ≡ false
      → let s3 = (update_acct_balances r sys c s t).0 in
        ((update_acct_balances r sys c s t).1 ≡ pos 0)
        × (find_save_store r sys c s3 t.receiver ≡ (
          s3,
          some (
            from.0,
            to_json sys.json (credited_account (of_json sys.json from.1) (get_amount_double r t)),
          ),
        ))
  update_acct_balances_self s s1 t from e1 same clean h =
      let sender : IsFound r sys c s1 t.sender from.0 from.1 =
        subst (λ p. GivesFound r sys c t.sender p) e1
          (find_save_store-IsFound r sys c s t.sender) in
      let receiver : IsFound r sys c s1 t.receiver from.0 from.1 = rw same sender in
      let e2 = IsFound-find_save_store r sys c s1 t.receiver from.0 from.1 receiver in
      rw
        (
          accepted r sys c s s1 s1 t from from e1 e2 h,
          sym (receiver_record-credited_account t from.1),
        )
        (
          refl,
          IsFound-find_save_store r sys c (paid r sys c s1 t from from) t.receiver from.0 _ (
              paid-receiver r sys c s1 t from from clean
                (IsFound-IsKept r sys c s1 t.receiver from.0 from.1 receiver)),
        )
