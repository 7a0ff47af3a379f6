-- ===== src/Server/Delivery.antt =====
-- src/server.cpp, `multicast`: what each host is sent, and what it reads.
use omicro.Base.{
  ℕ, ◌≡◌, ◌∙◌, ap, refl, false, List, [], ◌∷◌, ◌++◌, map, arith, ltb, Bool-cases, inl, inr, Bytes,
  eqb_iff, length, All, c_str, c_str-Free,
}
use omicro.Base.Dict
use omicro.Base.Dict.{Dict, find-emplace}
use omicro.Trxn.{Trxn, Keys, init, allstr, make_node_signature, get_trxn_data}
use omicro.Trxn.RoundTrip.{IsPrintable, IsPlain, init-allstr, allstr-Free}
use omicro.NodeList.{NodeData, get_data}
use omicro.NodeList.Records.{AllNodes, record_of, get_data-record_of}
use omicro.Server.{Sent, multicast_loop, or_empty, get_pubkey, target}

-- The signatures are texts that a transaction can carry.
abbrev pub IsPlainSigner : Keys → Type 0
IsPlainSigner keys =
    (text key : Bytes) → IsPlain (keys.sign_sb3 text key).0 × IsPlain (keys.sign_sb3 text key).1

-- A signed transaction can be printed.
signed-IsPrintable :
    (keys : Keys) (key : Bytes) (t : Trxn)
    → IsPlainSigner keys
    → IsPrintable t
    → IsPrintable (make_node_signature keys key t)
unfolding make_node_signature
signed-IsPrintable keys key t plain h =
    let (signature, cipher) = plain (get_trxn_data t) key in
    record {
      plain_data = h.plain_data;
      plain_others = (cipher, (signature, h.plain_others.1.1));
      has_beacon = h.has_beacon;
    }

-- The key of a host, empty if there is none.
abbrev pub key_of : Dict Bytes → Bytes → Bytes
key_of pubkeys srvport = or_empty (Dict.find srvport pubkeys)

key_of-get_pubkey :
    (pubkeys : Dict Bytes) (srvport j : Bytes)
    → key_of (get_pubkey pubkeys srvport).0 j ≡ key_of pubkeys j
unfolding get_pubkey
key_of-get_pubkey pubkeys srvport j =
    ground (arith, eqb_iff srvport j, find-emplace srvport j [] pubkeys)

-- A message that the host reads as the transaction signed for it.
pub record IsDelivery (keys : Keys) (ty : ℕ) (t : Trxn) (pubkeys : Dict Bytes) (s : Sent)
    : Type 0 where
  pub same_type : s.msg_type ≡ ty
  pub read_back :
      (fresh : Bytes)
      → init fresh s.msg ≡ make_node_signature keys (key_of pubkeys (s.ip ++ b':' ∷ s.port)) t

IsDelivery-keys :
    (keys : Keys) (ty : ℕ) (t : Trxn) (pubkeys : Dict Bytes) (srvport : Bytes) (s : Sent)
    → IsDelivery keys ty t (get_pubkey pubkeys srvport).0 s
    → IsDelivery keys ty t pubkeys s
IsDelivery-keys keys ty t pubkeys srvport s h = record {
  same_type = h.same_type;
  read_back = λ fresh.
      h.read_back fresh
      ∙ ap (λ key. make_node_signature keys key t)
          (key_of-get_pubkey pubkeys srvport (s.ip ++ b':' ∷ s.port));
}

All-keys :
    (keys : Keys) (ty : ℕ) (t : Trxn) (pubkeys : Dict Bytes) (srvport : Bytes) (ss : List Sent)
    → All (IsDelivery keys ty t (get_pubkey pubkeys srvport).0) ss
    → All (IsDelivery keys ty t pubkeys) ss
All-keys keys ty t pubkeys srvport [] h = tt
All-keys keys ty t pubkeys srvport (s ∷ ss) h =
    (IsDelivery-keys keys ty t pubkeys srvport s h.0, All-keys keys ty t pubkeys srvport ss h.1)

-- The message of one host.
abbrev message : Keys → ℕ → Bytes → Dict Bytes → Bytes × Bytes → Sent
message keys ty msg pubkeys (ip, port) = record {
  msg_type = ty;
  ip = ip;
  port = port;
  msg = allstr (
      make_node_signature keys (key_of pubkeys (ip ++ b':' ∷ port))
        (init keys.fresh_beacon (c_str msg)));
}

message-IsDelivery :
    (keys : Keys) (ty : ℕ) (t : Trxn) (pubkeys : Dict Bytes) (ip port : Bytes)
    → IsPlainSigner keys
    → IsPrintable t
    → IsDelivery keys ty t pubkeys (message keys ty (allstr t) pubkeys (ip, port))
message-IsDelivery keys ty t pubkeys ip port plain h =
    let key = key_of pubkeys (ip ++ b':' ∷ port) in
    let same : init keys.fresh_beacon (c_str (allstr t)) ≡ t =
      ap (init keys.fresh_beacon) (c_str-Free (allstr t) (allstr-Free t h))
      ∙ init-allstr keys.fresh_beacon t h in
    record {
      same_type = refl;
      read_back = λ fresh.
          ap (λ u. init fresh (allstr (make_node_signature keys key u))) same
          ∙ init-allstr fresh (make_node_signature keys key t)
              (signed-IsPrintable keys key t plain h);
    }

-- Where signatures have no bar and no NUL byte, whatever the hosts are: each message that is sent for
-- a transaction that can be printed has the type asked for, and its receiver reads that transaction,
-- signed with the key of its own address.
pub multicast_loop-IsDelivery :
    (keys : Keys) (ty : ℕ) (t : Trxn) (pubkeys : Dict Bytes) (hosts : List Bytes)
    (last : Bytes × Bytes)
    → IsPlainSigner keys
    → IsPrintable t
    → All (IsDelivery keys ty t pubkeys) (multicast_loop keys ty (allstr t) pubkeys hosts last).1
unfolding multicast_loop
multicast_loop-IsDelivery keys ty t pubkeys [] last plain h = tt
multicast_loop-IsDelivery keys ty t pubkeys (host ∷ hosts) last plain h =
    elim (Bool-cases (ltb (length host) 1)) [
      | inl empty ↦ rw empty (multicast_loop-IsDelivery keys ty t pubkeys hosts last plain h)
      | inr named ↦
          let (ip, port) = target (get_data host) last in
          rw named (
            unfold get_pubkey in message-IsDelivery keys ty t pubkeys ip port plain h,
            All-keys keys ty t pubkeys (ip ++ b':' ∷ port) _ (
                multicast_loop-IsDelivery keys ty t (get_pubkey pubkeys (ip ++ b':' ∷ port)).0 hosts
                  (ip, port) plain h),
          )
    ]

-- Where a message goes.
abbrev address_of : Sent → Bytes × Bytes
address_of s = (s.ip, s.port)

-- Hosts that are records of nodes get one message each, in order, at their own addresses.
pub multicast_loop-addresses :
    (keys : Keys) (ty : ℕ) (msg : Bytes) (pubkeys : Dict Bytes) (nodes : List NodeData)
    (last : Bytes × Bytes)
    → AllNodes nodes
    → map address_of (multicast_loop keys ty msg pubkeys (map record_of nodes) last).1
      ≡ map (λ node. (node.ip, node.port)) nodes
unfolding multicast_loop
multicast_loop-addresses keys ty msg pubkeys [] last h = refl
multicast_loop-addresses keys ty msg pubkeys (node ∷ nodes) last h =
    let named : ltb (length (record_of node)) 1 ≡ false = ground (arith, h.0.size) in
    rw
      (
        named,
        get_data-record_of node h.0,
        multicast_loop-addresses keys ty msg (get_pubkey pubkeys (node.ip ++ b':' ∷ node.port)).0
            nodes (node.ip, node.port) h.1,
      )
      refl
