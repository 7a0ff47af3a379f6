-- ===== src/Wire/Serving.antt =====
-- `do_read` of src/omsession.cc: a session treats what a client writes, message by message.
use omicro.Base.{
  ℕ, ◌≤◌, ◌<◌, ◌≡◌, List, [], ◌∷◌, ◌++◌, arith, if◌then◌else◌, Bytes, length, All, none, true,
  false, ltb, sym, ap, ◌∙◌, ◌^◌, some,
}
use omicro.Json.{Json}
use omicro.Trxn.{Keys, Reals, Trxn, allstr, set_init_trxn}
use omicro.Circuit.{Maths}
use omicro.Server.{WaitCount, Ledger, om_txn}
use omicro.Session.{Session, Responses}
use omicro.BlockMgr.Wallog.{Zlib}
use omicro.Wire.{
  zipped, message, read_message, closed, dispatch_message, is_closed, Served, served, died,
  Connection, reply_sock, read_reply, arrived, send_trxn, send_message,
}
use omicro.Wire.Frames.{read_message-message, read_reply-reply_sock}
use mathlib.Core.List.{append-nil}

-- A connection on which the session's reply comes in.
abbrev pub replied : Zlib → Bytes → Connection
replied zlib reply = record {
  connect_ok = true;
  header_ok = true;
  text_ok = true;
  incoming = reply_sock zlib reply;
}

-- On a working connection, a client sends a transaction of which from 2 to 256000 bytes go over the
-- wire, and a reply of 2 to 10^16 - 1 bytes comes back: a session reads the type OM_TXN and the text of
-- the transaction, marked as initial, and leaves what is behind it, and the client gets the reply.
pub send_trxn-reply_sock :
    (zlib : Zlib) (t : Trxn) (reply rest : Bytes)
    → 2 ≤ length (zipped zlib (allstr (set_init_trxn t)))
    → length (zipped zlib (allstr (set_init_trxn t))) ≤ 256000
    → 2 ≤ length (zipped zlib reply)
    → length (zipped zlib reply) < 10 ^ 16
    → ((send_trxn zlib (replied zlib reply) t).0 ≡ some reply)
      × (read_message zlib ((send_trxn zlib (replied zlib reply) t).1 ++ rest)
          ≡ arrived om_txn (allstr (set_init_trxn t)) rest)
unfolding send_trxn send_message
send_trxn-reply_sock zlib t reply rest lo hi filled small =
    let text = allstr (set_init_trxn t) in
    let not_empty : ltb (length (zipped zlib text)) 1 ≡ false = ground (arith, lo) in
    let whole : read_reply zlib (reply_sock zlib reply) ≡ some reply =
      ap (read_reply zlib) (sym (append-nil (reply_sock zlib reply)))
      ∙ read_reply-reply_sock zlib reply [] filled small in
    (rw not_empty whole, rw not_empty (read_message-message zlib om_txn text rest lo hi))

-- The messages of a client, each with its type, as they go over the wire.
unfoldable pub messages : Zlib → List (ℕ × Bytes) → Bytes
messages zlib [] = []
messages zlib ((mtype, msg) ∷ ms) = message zlib mtype msg ++ messages zlib ms

abbrev pub AllFit : Zlib → List (ℕ × Bytes) → Type 0
AllFit zlib ms = All (λ e. (2 ≤ length (zipped zlib e.1)) × (length (zipped zlib e.1) ≤ 256000)) ms

module _ (zlib : Zlib) (json : Json) (m : Maths) (keys : Keys) (r : Reals) (wc : WaitCount)
    (ledger : Ledger r) (resp : Responses) where
  abbrev Sess : Type 0
  Sess = Session m keys r wc ledger resp

  -- The messages one after the other, until the session's socket is closed or one of them ends the
  -- process's run; a session whose socket is still open closes it at the end.
  unfoldable pub dispatch_all :
      Sess → List (ℕ × Bytes) → ℕ → ℕ → Served zlib json m keys r wc ledger resp
  dispatch_all s [] sock connected =
      if is_closed zlib json m keys r wc ledger resp sock s.closed
      then served s
      else served (record s { closed = s.closed ++ none ∷ [] })
  dispatch_all s ((mtype, msg) ∷ ms) sock connected =
      if is_closed zlib json m keys r wc ledger resp sock s.closed
      then served s
      else elim (dispatch_message zlib json m keys r wc ledger resp s mtype msg sock connected) [
        | none ↦ died
        | some s1 ↦ dispatch_all s1 ms sock connected
      ]
