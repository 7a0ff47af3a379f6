-- ===== src/Wire/PublicKey.antt =====
-- src/omicroquery.cc, and `reqPublicKey` of src/omicroclient.cc: the question for a node's public key.
-- Each call of `sendMessage` has the connection of its number.
use mathlib.Core.List.{append-nil}
use omicro.Base.{
  ℕ, zero, suc, ◌≤◌, ◌<◌, ◌^◌, ◌≡◌, ◌∙◌, refl, sym, ap, true, false, [], ◌∷◌, ◌++◌, arith, ltb,
  if◌then◌else◌, Bytes, codes, length, Option, some, none, eqb,
}
use omicro.Json.{Json, write_strings}
use omicro.Trxn.{Keys, Reals}
use omicro.Circuit.{Maths}
use omicro.Server.{WaitCount, Ledger}
use omicro.Session.{Session, Responses, Response}
use omicro.Session.Queries.{simple_answer}
use omicro.Session.Questions.{do_simple_query-question}
use omicro.BlockMgr.Wallog.{Zlib}
use omicro.Wire.{Connection, zipped, reply_sock, read_reply, send_message, om_rq}
use omicro.Session.Handlers.{handle}
use omicro.Wire.{message, read_message, arrived, dispatch_message}
use omicro.Wire.Frames.{read_reply-reply_sock, read_message-message}
use omicro.Wire.Serving.{replied}

pub record OmicroSimpleQuery : Type 0 where
  pub trnx_id : Bytes
  pub sender : Bytes
  pub timestamp : Bytes

unfoldable pub set_trxn_id : OmicroSimpleQuery → Bytes → OmicroSimpleQuery
set_trxn_id q id = record q { trnx_id = id }

unfoldable pub set_sender : OmicroSimpleQuery → Bytes → OmicroSimpleQuery
set_sender q from = record q { sender = from }

unfoldable pub set_time_stamp : OmicroSimpleQuery → Bytes → OmicroSimpleQuery
set_time_stamp q ts = record q { timestamp = ts }

unfoldable pub simple_text : Json → Bytes → OmicroSimpleQuery → Bytes
simple_text json qtype q = write_strings json (
    (codes "QT", qtype)
    ∷ (codes "TID", q.trnx_id)
    ∷ (codes "FRM", q.sender)
    ∷ (codes "TS", q.timestamp)
    ∷ [])

unfoldable pub str_get_public_key : Json → OmicroSimpleQuery → Bytes
unfolding simple_text
str_get_public_key json q = simple_text json (codes "QP") q

abbrev pub invalid_key : Bytes
invalid_key = codes "INVALID248"

-- One question after the other, while so many are left: the key, or `none` where the process is
-- aborted, and all that has been written.
unfoldable pub ask :
    Zlib → (Bytes → Response) → (ℕ → Connection) → Bytes → ℕ → ℕ → Option Bytes × Bytes
ask zlib response con cmd zero cnt = (some invalid_key, [])
ask zlib response con cmd (suc left) cnt =
    let (replied_text, written) = send_message zlib (con cnt) om_rq cmd true in
    let (key, more) = ask zlib response con cmd left (suc cnt) in
    elim replied_text [
      | none ↦ (none, written)
      | some reply ↦
          if ltb (length reply) 1
          then (some invalid_key, written)
          else if (response reply).stt
          then (some (response reply).dat, written)
          else (key, written ++ more)
    ]

-- The loop ends after `waitCnt + 1` questions, which are 31.
unfoldable pub req_public_key :
    Zlib → Json → (Bytes → Response) → (ℕ → Connection) → Option Bytes × Bytes
unfolding ask set_trxn_id str_get_public_key
req_public_key zlib json response con =
    let q = set_trxn_id (record { trnx_id = []; sender = []; timestamp = [] }) (codes "1") in
    ask zlib response con (str_get_public_key json q) 31 0

module _ (zlib : Zlib) (json : Json) (m : Maths) (keys : Keys) (r : Reals) (wc : WaitCount)
    (ledger : Ledger r) (resp : Responses) where
  abbrev Sess : Type 0
  Sess = Session m keys r wc ledger resp

  -- The question that `reqPublicKey` asks, and the session's answer.
  abbrev pub key_question : Bytes
  key_question = write_strings json (
      (codes "QT", codes "QP")
      ∷ (codes "TID", codes "1")
      ∷ (codes "FRM", [])
      ∷ (codes "TS", [])
      ∷ [])

  abbrev pub key_answer : Sess → Bytes
  key_answer s = resp.ok_response [] s.server.id (codes "1") s.server.pub_key

  send_message-replied :
      (cmd reply : Bytes)
      → 1 ≤ length (zipped zlib cmd)
      → 2 ≤ length (zipped zlib reply)
      → length (zipped zlib reply) < 10 ^ 16
      → (send_message zlib (replied zlib reply) om_rq cmd true).0 ≡ some reply
  unfolding send_message
  send_message-replied cmd reply asked lo hi =
      let not_empty : ltb (length (zipped zlib cmd)) 1 ≡ false = ground (arith, asked) in
      let whole : read_reply zlib (reply_sock zlib reply) ≡ some reply =
        ap (read_reply zlib) (sym (append-nil (reply_sock zlib reply)))
        ∙ read_reply-reply_sock zlib reply [] lo hi in
      rw not_empty whole

  send_message-written :
      (cmd reply : Bytes)
      → 1 ≤ length (zipped zlib cmd)
      → (send_message zlib (replied zlib reply) om_rq cmd true).1 ≡ message zlib om_rq cmd
  unfolding send_message
  send_message-written cmd reply asked =
      let not_empty : ltb (length (zipped zlib cmd)) 1 ≡ false = ground (arith, asked) in
      rw not_empty refl

  ask-replied :
      (response : Bytes → Response) (cmd reply key : Bytes) (left cnt : ℕ)
      → (response reply).stt ≡ true
      → (response reply).dat ≡ key
      → 1 ≤ length (zipped zlib cmd)
      → 1 ≤ length reply
      → 2 ≤ length (zipped zlib reply)
      → length (zipped zlib reply) < 10 ^ 16
      → ask zlib response (λ n. replied zlib reply) cmd (suc left) cnt
        ≡ (some key, message zlib om_rq cmd)
  unfolding ask
  ask-replied response cmd reply key left cnt ok told asked given lo hi =
      let filled : ltb (length reply) 1 ≡ false = ground (arith, given) in
      rw
        (
          ask,
          send_message-replied cmd reply asked lo hi,
          filled,
          ok,
          told,
          send_message-written cmd reply asked,
        )
        refl

  answered :
      (s : Sess) (sock connected : ℕ)
      → dispatch_message zlib json m keys r wc ledger resp s om_rq key_question sock connected
        ≡ some (record s { replies = s.replies ++ (none, key_answer s) ∷ [] })
  unfolding dispatch_message handle simple_answer eqb
  answered s sock connected =
      do_simple_query-question m keys r wc ledger resp json s (codes "QP") (codes "1") [] []
        (ground arith) (ground arith) tt tt

  -- What `OmResponse` reads of the text that `okResponse` writes: a success, with that text.
  abbrev pub ReadsOk : (Bytes → Response) → Type 0
  ReadsOk response =
      (sender srvid id text : Bytes)
      → ((response (resp.ok_response sender srvid id text)).stt ≡ true)
        × ((response (resp.ok_response sender srvid id text)).dat ≡ text)

  -- What `reqPublicKey` writes first is read by a session as a question (OM_RQ); the session answers
  -- it, and does nothing else, with its public key; and where this answer comes back on a connection
  -- that works, `reqPublicKey` returns the key and has written this one message. `OmResponse` is taken
  -- to read a success with its text in what `okResponse` writes, and both texts to be of sizes that
  -- travel: the question from 2 to 256000 bytes, the answer from 2 to 10^16 - 1.
  pub req_public_key-dispatch_message :
      (s : Sess) (response : Bytes → Response) (rest : Bytes) (sock connected : ℕ)
      → ReadsOk response
      → 2 ≤ length (zipped zlib key_question)
      → length (zipped zlib key_question) ≤ 256000
      → 1 ≤ length (key_answer s)
      → 2 ≤ length (zipped zlib (key_answer s))
      → length (zipped zlib (key_answer s)) < 10 ^ 16
      → let (key, written) = req_public_key zlib json response (λ n. replied zlib (key_answer s)) in
        (key ≡ some s.server.pub_key)
        × (read_message zlib (written ++ rest) ≡ arrived om_rq key_question rest)
        × (dispatch_message zlib json m keys r wc ledger resp s om_rq key_question sock connected
            ≡ some (record s { replies = s.replies ++ (none, key_answer s) ∷ [] }))
  unfolding req_public_key str_get_public_key simple_text set_trxn_id
  req_public_key-dispatch_message s response rest sock connected reads asked small given lo hi =
      let (ok, told) = reads [] s.server.id (codes "1") s.server.pub_key in
      rw
        (ask-replied response key_question (key_answer s) s.server.pub_key 30 0 ok told
          (omega (arith, asked)) given lo hi)
        (
          refl,
          read_message-message zlib om_rq key_question rest asked small,
          answered s sock connected,
        )
