-- ===== src/BlockMgr/Kept.antt =====
-- src/blockmgr.cc: the operations on accounts leave the files of transactions alone.
use omicro.Base.{◌≡◌, ◌∙◌, refl, sym, arith, Bytes, Option, none, some}
use omicro.Trxn.{Trxn, Reals}
use omicro.BlockMgr.{
  Cabinet, BlockMgr, System, find_save_store, fresh_store, put, update_acct_balances, pay_found,
  pay, create_acct, open_acct,
}
use omicro.BlockMgr.Requests.{create_token, transfer_token}
use omicro.BlockMgr.Saving.{perform}

module _ (r : Reals) (sys : System r) (c : Cabinet) where
  abbrev State : Type 0
  State = BlockMgr c

  blocks-find_save_store :
      (s : State) (userid : Bytes) → (find_save_store r sys c s userid).0.blocks ≡ s.blocks
  unfolding find_save_store fresh_store
  blocks-find_save_store s userid = ground arith

  blocks-pay_found :
      (t : Trxn) (from to : State × Option (c.Handle × Bytes))
      → from.0.blocks ≡ to.0.blocks
      → (pay_found r sys c t from to).0.blocks ≡ to.0.blocks
  unfolding pay_found pay put
  blocks-pay_found t (s1, none) (s2, to) h = h
  blocks-pay_found t (s1, some src) (s2, none) h = refl
  blocks-pay_found t (s1, some src) (s2, some dst) h = ground arith

  blocks-update_acct_balances :
      (s : State) (t : Trxn) → (update_acct_balances r sys c s t).0.blocks ≡ s.blocks
  unfolding update_acct_balances
  blocks-update_acct_balances s t =
      let from = find_save_store r sys c s t.sender in
      let two = blocks-find_save_store from.0 t.receiver in
      blocks-pay_found t from (find_save_store r sys c from.0 t.receiver) (sym two)
      ∙ two
      ∙ blocks-find_save_store s t.sender

  blocks-create_acct : (s : State) (t : Trxn) → (create_acct r sys c s t).0.blocks ≡ s.blocks
  unfolding create_acct open_acct put
  blocks-create_acct s t = ground arith

  blocks-create_token : (s : State) (t : Trxn) → (create_token r sys c s t).1.0.blocks ≡ s.blocks
  unfolding create_token put
  blocks-create_token s t = ground (arith, blocks-find_save_store s t.sender)

  blocks-transfer_token : (s : State) (t : Trxn) → (transfer_token r sys c s t).0.blocks ≡ s.blocks
  unfolding transfer_token put
  blocks-transfer_token s t =
      let s1 = (find_save_store r sys c s t.sender).0 in
      ground (arith, blocks-find_save_store s t.sender, blocks-find_save_store s1 t.receiver)

  named-create_token :
      (s : State) (t : Trxn)
      → ((create_token r sys c s t).0.sender ≡ t.sender)
        × ((create_token r sys c s t).0.timestamp ≡ t.timestamp)
  unfolding create_token
  named-create_token s t = ground arith

  -- An operation leaves the files of transactions, and the sender and the time of the transaction.
  pub perform-kept :
      (s : State) (t : Trxn)
      → let (t1, (s1, urc, errmsg)) = perform r sys c s t in
        (s1.blocks ≡ s.blocks) × (t1.sender ≡ t.sender) × (t1.timestamp ≡ t.timestamp)
  unfolding perform
  perform-kept s t = ground (
    arith,
    blocks-update_acct_balances s t,
    blocks-create_acct s t,
    blocks-create_token s t,
    named-create_token s t,
    blocks-transfer_token s t,
  )
