-- ===== src/Tests/Payments.antt =====
-- The theorems of src/blockmgr.cc on payments, new accounts and the files of transactions.
use omicro.Base.{
  ℕ, ◌+◌, ◌≤◌, ◌≡◌, ◌≢◌, ◌⊎◌, ◌∙◌, refl, ap, sym, Bool, true, false, not, ◌&&◌, List, [], ◌∷◌, ◌++◌,
  arith, Bytes, codes, Free, Option, none, some, length, eqb, eqb-false, c_str,
}
use omicro.Base.Int.{pos, neg, is_negative}
use omicro.Base.Dict
use omicro.Trxn.{Trxn, get_amount_double}
use omicro.Accounts.{of_json, to_json, om_acct_user, om_acct_contract}
use omicro.Json.{obj, strings, read_string, text_of, find_member}
use omicro.Blocks.{safe_read}
use omicro.BlockMgr.{BlockMgr, find_save_store, update_acct_balances, create_acct}
use omicro.BlockMgr.Lookups.{opened}
use omicro.BlockMgr.Payments.{sender_record, receiver_record, update_acct_balances-paid}
use omicro.BlockMgr.Refusals.{
  update_acct_balances-refused, update_acct_balances_self, credited_account,
}
use omicro.BlockMgr.Creation.{create_acct-created, type_of, new_account}
use omicro.Tests.{payment}
use omicro.Tests.Accounts.{account}
use omicro.Tests.World.{read_members, json, whole, cabinet, system, Files, put_at}

abbrev pub ann : Bytes
ann = codes "ann"

abbrev pub bob : Bytes
bob = codes "bob"

abbrev pub ann_store : Bytes
ann_store = codes "a"

abbrev pub bob_store : Bytes
bob_store = codes "b"

abbrev pub rec : Bytes
rec = to_json json account

abbrev pub empty_files : Files
empty_files = record { records = λ h k. none; created = λ path. false }

abbrev pub Node : Type 0
Node = BlockMgr cabinet

-- A node that has met nobody.
abbrev pub empty_node : Node
empty_node = record {
  db = empty_files;
  acct_store_map = Dict.empty;
  blocks = Dict.empty;
  trxn_list = [];
}

-- A node with two open accounts.
abbrev pub node : Node
node = record empty_node {
  db = record {
    records = put_at (put_at (λ h k. none) ann_store ann rec) bob_store bob rec;
    created = λ path. false;
  };
  acct_store_map = (ann, ann_store) ∷ (bob, bob_store) ∷ [];
}

pub node-ann : find_save_store whole system cabinet node ann ≡ (node, some (ann_store, rec))
unfolding find_save_store omicro.Base.Dict.find c_str eqb
node-ann = refl

pub node-bob : find_save_store whole system cabinet node bob ≡ (node, some (bob_store, rec))
unfolding find_save_store omicro.Base.Dict.find c_str eqb
node-bob = refl

abbrev after : Node
after = (update_acct_balances whole system cabinet node payment).0

pub ann-bob : ann ≢ bob
unfolding eqb
ann-bob = eqb-false ann bob refl

update_acct_balances-paid_example :
    ((update_acct_balances whole system cabinet node payment).1 ≡ pos 0)
    × (find_save_store whole system cabinet after ann
        ≡ (after, some (ann_store, sender_record whole system cabinet payment rec)))
    × (find_save_store whole system cabinet after bob
        ≡ (after, some (bob_store, receiver_record whole system cabinet payment rec)))
    × ((u g : Bytes)
        → u ≢ ann
        → u ≢ bob
        → cabinet.get_record after.db g u ≡ cabinet.get_record node.db g u)
update_acct_balances-paid_example =
    update_acct_balances-paid whole system cabinet node node node payment (ann_store, rec)
      (bob_store, rec) node-ann node-bob ann-bob (ground arith) (ground arith) refl

abbrev to_self : Trxn
to_self = record payment { receiver = ann }

abbrev after_self : Node
after_self = (update_acct_balances whole system cabinet node to_self).0

update_acct_balances_self_example :
    ((update_acct_balances whole system cabinet node to_self).1 ≡ pos 0)
    × (find_save_store whole system cabinet after_self ann ≡ (
      after_self,
      some (
        ann_store,
        to_json json (
            credited_account whole system cabinet
              (of_json json rec)
              (get_amount_double whole to_self)),
      ),
    ))
update_acct_balances_self_example =
    update_acct_balances_self whole system cabinet node node to_self (ann_store, rec) node-ann refl
      (ground arith) refl

unknown_sender : is_negative (update_acct_balances whole system cabinet empty_node payment).1 ≡ true
unfolding update_acct_balances omicro.Base.Dict.find omicro.Base.Dict.empty
unknown_sender = refl

update_acct_balances-refused_example :
    ((update_acct_balances whole system cabinet empty_node payment).0
      ≡ (find_save_store whole system cabinet empty_node ann).0)
    ⊎ ((update_acct_balances whole system cabinet empty_node payment).0
        ≡ (find_save_store whole system cabinet
            (find_save_store whole system cabinet empty_node ann).0
            bob).0)
update_acct_balances-refused_example =
    update_acct_balances-refused whole system cabinet empty_node payment unknown_sender

-- A request for a user's account.
abbrev new_user : Trxn
new_user = record payment {
  trxntype = codes "A";
  request = json.write (obj (strings ((codes "ACTYPE", codes "U") ∷ [])));
}

no_ann : Dict.find ann empty_node.acct_store_map ≡ none
unfolding omicro.Base.Dict.find omicro.Base.Dict.empty
no_ann = refl

new_user-type : type_of whole system cabinet new_user ≡ codes "U"
unfolding read_string text_of find_member strings read_members safe_read omicro.Json.get_text eqb
    c_str
new_user-type = refl

new_user-kind :
    (not (eqb (type_of whole system cabinet new_user) om_acct_user)
      && not (eqb (type_of whole system cabinet new_user) om_acct_contract))
    ≡ false
new_user-kind = rw new_user-type (unfold eqb in refl)

abbrev created : Node
created = (create_acct whole system cabinet empty_node new_user).0

create_acct-created_example :
    ((create_acct whole system cabinet empty_node new_user).1 ≡ pos 0)
    × (find_save_store whole system cabinet created ann ≡ (
      created,
      some (
        (opened whole system cabinet empty_node ann).1,
        to_json json (new_account whole system cabinet new_user),
      ),
    ))
    × ((create_acct whole system cabinet created new_user).1 ≡ neg 3)
create_acct-created_example =
    create_acct-created whole system cabinet empty_node new_user (omega arith) (ground arith) refl
      no_ann refl new_user-kind
