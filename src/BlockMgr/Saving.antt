-- ===== src/BlockMgr/Saving.antt =====
-- src/blockmgr.cc: `saveTrxn` and `receiveTrxn`: a transaction changes the accounts and is appended to
-- the files of the sender and, where there is one, of the receiver. The log for replays, off by
-- default, is left out.
use omicro.Base.{Bool, ◌||◌, [], if◌then◌else◌, Bytes, codes, eqb, Option, none, some}
use omicro.Base.Int.{ℤ, pos, neg, is_negative}
use omicro.Trxn.{Trxn, Reals, om_payment, om_newacct, om_newtoken, om_xfertoken}
use omicro.Blocks.{
  Stream, append_to_blockchain, mark_success, fclose, rollback_from_blockchain, save_trxn_list,
}
use omicro.BlockMgr.{Cabinet, BlockMgr, System, update_acct_balances, create_acct}
use omicro.BlockMgr.Requests.{create_token, transfer_token}

module _ (r : Reals) (sys : System r) (c : Cabinet) where
  abbrev Result : Type 0
  Result = BlockMgr c × ℤ × Bytes

  -- The operation of the transaction's type, with the transaction as it leaves it.
  unfoldable pub perform : BlockMgr c → Trxn → Trxn × Result
  unfolding update_acct_balances create_acct create_token transfer_token
  perform s t =
      if eqb t.trxntype om_payment
      then (t, update_acct_balances r sys c s t)
      else if eqb t.trxntype om_newacct
      then (t, create_acct r sys c s t)
      else if eqb t.trxntype om_newtoken
      then create_token r sys c s t
      else if eqb t.trxntype om_xfertoken
      then (t, transfer_token r sys c s t)
      else (t, (s, neg 1000, codes "E32010 unkonw transaction type"))

  abbrev pub has_receiver : Trxn → Bool
  has_receiver t = eqb t.trxntype om_payment || eqb t.trxntype om_xfertoken

  -- Both streams are marked and closed, the sender's first.
  unfoldable pub finish : BlockMgr c → Trxn → Stream → Option Stream → BlockMgr c
  unfolding mark_success fclose save_trxn_list
  finish s t fp1 none = record s {
    blocks = fclose (mark_success fp1) s.blocks;
    trxn_list = save_trxn_list t.sender t.timestamp s.trxn_list;
  }
  finish s t fp1 (some fp2) = record s {
    blocks = fclose (mark_success fp2) (fclose (mark_success fp1) s.blocks);
    trxn_list = save_trxn_list t.sender t.timestamp s.trxn_list;
  }

  unfoldable pub append_receiver : BlockMgr c → Trxn → Bytes → Stream → Result
  unfolding append_to_blockchain finish fclose rollback_from_blockchain
  append_receiver s t hour fp1 =
      elim (append_to_blockchain sys.disk sys.data_dir s.blocks t t.receiver b'+' hour) [
        | none ↦ (
          record s {
            blocks =
                rollback_from_blockchain sys.disk sys.data_dir (fclose fp1 s.blocks) t.sender hour
                  fp1.fpos;
          },
          neg 2,
          [],
        )
        | some fp2 ↦ (finish s t fp1 (some fp2), pos 0, [])
      ]

  unfoldable pub append_trxn : BlockMgr c → Trxn → Bytes → Result
  unfolding append_to_blockchain append_receiver finish
  append_trxn s t hour =
      elim (append_to_blockchain sys.disk sys.data_dir s.blocks t t.sender b'-' hour) [
        | none ↦ (s, neg 1, [])
        | some fp1 ↦
            if has_receiver t
            then append_receiver s t hour fp1
            else (finish s t fp1 none, pos 0, [])
      ]

  unfoldable pub save_trxn : BlockMgr c → Trxn → Result
  unfolding perform append_trxn
  save_trxn s t =
      let (t1, result) = perform s t in
      let (s1, urc, errmsg) = result in
      if is_negative urc
      then (s1, urc, errmsg)
      else append_trxn s1 t1 (sys.disk.yyyymmddhh t.timestamp)

  unfoldable pub receive_trxn : BlockMgr c → Trxn → Result
  unfolding save_trxn
  receive_trxn s t = save_trxn s t
