-- ===== src/BlockMgr/Payments.antt =====
-- src/blockmgr.cc: what a payment does to the accounts.
use omicro.Base.{
  ◌≡◌, ◌≢◌, ◌∙◌, refl, ap, subst, Bool, false, Bytes, [], codes, c_str-Free, Free, some,
}
use omicro.Base.Int.{pos}
use omicro.Trxn.{Trxn, Reals, get_amount_double}
use omicro.Accounts.{Account, of_json, to_json, add_balance, increment_fence, increment_in}
use omicro.BlockMgr.{
  Cabinet, BlockMgr, System, find_save_store, update_acct_balances, pay, pay_found, put,
}
use omicro.BlockMgr.Lookups.{
  IsFound, IsKept, GivesFound, GivesKept, find_save_store-IsFound, find_save_store-IsKept,
  IsFound-IsKept, IsFound-find_save_store,
}

module _ (r : Reals) (sys : System r) (c : Cabinet) where
  -- The sender's account after a payment, with the balance that is compared with -1.0, and the
  -- receiver's.
  abbrev pub debited : Trxn → Bytes → Account × r.Real
  debited t rec =
      add_balance r sys.doubles (r.minus r.zero_real (get_amount_double r t)) (of_json sys.json rec)

  abbrev pub sender_record : Trxn → Bytes → Bytes
  sender_record t rec = to_json sys.json (increment_fence (debited t rec).0)

  abbrev pub receiver_record : Trxn → Bytes → Bytes
  receiver_record t rec =
      to_json sys.json
        (increment_in (add_balance r sys.doubles (get_amount_double r t) (of_json sys.json rec)).0)

  abbrev pub refused : Trxn → Bytes → Bool
  refused t rec = r.lt_real (debited t rec).1 (r.atof (codes "-1.0"))

  -- The state after the two writes.
  abbrev pub paid : BlockMgr c → Trxn → c.Handle × Bytes → c.Handle × Bytes → BlockMgr c
  paid s t (src, fromrec) (dst, torec) =
      put r sys c (put r sys c s src t.sender (sender_record t fromrec)) dst t.receiver
        (receiver_record t torec)

  pay-accepted :
      (s : BlockMgr c) (t : Trxn) (from to : c.Handle × Bytes)
      → refused t from.1 ≡ false
      → pay r sys c s t from to ≡ (paid s t from to, pos 0, [])
  unfolding pay
  pay-accepted s t from to h = rw h refl

  pub accepted :
      (s s1 s2 : BlockMgr c) (t : Trxn) (from to : c.Handle × Bytes)
      → find_save_store r sys c s t.sender ≡ (s1, some from)
      → find_save_store r sys c s1 t.receiver ≡ (s2, some to)
      → refused t from.1 ≡ false
      → update_acct_balances r sys c s t ≡ (paid s2 t from to, pos 0, [])
  unfolding update_acct_balances pay_found
  accepted s s1 s2 t from to e1 e2 h =
      ap (λ p. pay_found r sys c t p (find_save_store r sys c p.0 t.receiver)) e1
      ∙ ap (pay_found r sys c t (s1, some from)) e2
      ∙ pay-accepted s2 t from to h

  -- After both lookups, both handles are kept.
  pub found_both :
      (s s1 s2 : BlockMgr c) (t : Trxn) (from to : c.Handle × Bytes)
      → find_save_store r sys c s t.sender ≡ (s1, some from)
      → find_save_store r sys c s1 t.receiver ≡ (s2, some to)
      → (IsKept r sys c s2 t.sender from.0) × (IsKept r sys c s2 t.receiver to.0)
  found_both s s1 s2 t from to e1 e2 =
      let sender : IsFound r sys c s1 t.sender from.0 from.1 =
        subst (λ p. GivesFound r sys c t.sender p) e1
          (find_save_store-IsFound r sys c s t.sender) in
      let receiver : IsFound r sys c s2 t.receiver to.0 to.1 =
        subst (λ p. GivesFound r sys c t.receiver p) e2
          (find_save_store-IsFound r sys c s1 t.receiver) in
      let kept : IsKept r sys c s1 t.sender from.0 =
        IsFound-IsKept r sys c s1 t.sender from.0 from.1 sender in
      (
        (subst (λ p. GivesKept r sys c t.sender from.0 p) e2
            (find_save_store-IsKept r sys c s1 t.sender t.receiver from.0 kept)),
        IsFound-IsKept r sys c s2 t.receiver to.0 to.1 receiver,
      )

  -- Both accounts as the payment leaves them.
  paid-sender :
      (s : BlockMgr c) (t : Trxn) (from to : c.Handle × Bytes)
      → t.sender ≢ t.receiver
      → Free 0 t.sender
      → IsKept r sys c s t.sender from.0
      → IsFound r sys c (paid s t from to) t.sender from.0 (sender_record t from.1)
  unfolding put
  paid-sender s t (src, fromrec) (dst, torec) distinct clean kept = (
    kept.0,
    ap (c.get_record _ src) (c_str-Free t.sender clean)
        ∙ c.get-put_other _ dst src t.receiver t.sender _ distinct
        ∙ c.get-put s.db src t.sender _ kept.1,
  )

  pub paid-receiver :
      (s : BlockMgr c) (t : Trxn) (from to : c.Handle × Bytes)
      → Free 0 t.receiver
      → IsKept r sys c s t.receiver to.0
      → IsFound r sys c (paid s t from to) t.receiver to.0 (receiver_record t to.1)
  unfolding put
  paid-receiver s t (src, fromrec) (dst, torec) clean kept = (
    kept.0,
    ap (c.get_record _ dst) (c_str-Free t.receiver clean)
        ∙ c.get-put _ dst t.receiver _ (c.is_open-put s.db src dst t.sender _ ∙ kept.1),
  )

  paid-others :
      (s : BlockMgr c) (t : Trxn) (from to : c.Handle × Bytes) (u : Bytes) (g : c.Handle)
      → u ≢ t.sender
      → u ≢ t.receiver
      → c.get_record (paid s t from to).db g u ≡ c.get_record s.db g u
  unfolding put
  paid-others s t (src, fromrec) (dst, torec) u g not_sender not_receiver =
      c.get-put_other _ dst g t.receiver u _ not_receiver
      ∙ c.get-put_other s.db src g t.sender u _ not_sender

  -- A payment between two different users, whose names have no NUL byte, that both have an account,
  -- where what `addBalance` returns for the sender is not below -1.0, returns 0. Afterwards a lookup of
  -- the sender finds the account that `addBalance` with the negated amount and `incrementFence` make of
  -- the sender's, a lookup of the receiver finds the account that `addBalance` with the amount and
  -- `incrementIn` make of the receiver's, and no record of another user has changed.
  pub update_acct_balances-paid :
      (s s1 s2 : BlockMgr c) (t : Trxn) (from to : c.Handle × Bytes)
      → find_save_store r sys c s t.sender ≡ (s1, some from)
      → find_save_store r sys c s1 t.receiver ≡ (s2, some to)
      → t.sender ≢ t.receiver
      → Free 0 t.sender
      → Free 0 t.receiver
      → refused t from.1 ≡ false
      → let s3 = (update_acct_balances r sys c s t).0 in
        ((update_acct_balances r sys c s t).1 ≡ pos 0)
        × (find_save_store r sys c s3 t.sender ≡ (s3, some (from.0, sender_record t from.1)))
        × (find_save_store r sys c s3 t.receiver ≡ (s3, some (to.0, receiver_record t to.1)))
        × ((u : Bytes) (g : c.Handle)
            → u ≢ t.sender
            → u ≢ t.receiver
            → c.get_record s3.db g u ≡ c.get_record s2.db g u)
  update_acct_balances-paid s s1 s2 t from to e1 e2 distinct clean1 clean2 h =
      let both = found_both s s1 s2 t from to e1 e2 in
      rw (accepted s s1 s2 t from to e1 e2 h) (
        refl,
        (IsFound-find_save_store r sys c (paid s2 t from to) t.sender from.0 _
            (paid-sender s2 t from to distinct clean1 both.0)),
        (IsFound-find_save_store r sys c (paid s2 t from to) t.receiver to.0 _
            (paid-receiver s2 t from to clean2 both.1)),
        λ u g. paid-others s2 t from to u g,
      )
