-- ===== src/Session/Sources.antt =====
-- src/omsession.cc: where the results of queries that a node holds come from, over any sequence of
-- messages.
use omicro.Base.{
  ℕ, ◌≡◌, ◌⊎◌, inl, inr, refl, ap, sym, subst, List, [], ◌∷◌, Bool-cases, Option-cases, Bytes,
  Option, none, some, ◌++◌,
}
use omicro.Trxn.{Keys, Reals}
use omicro.Circuit.{Maths}
use omicro.WaitStr
use omicro.WaitStr.{WaitStr, get-add_if}
use omicro.Server.{Server, WaitCount, Ledger}
use omicro.Session.{Session, Responses}
use omicro.Session.Handlers.{
  Message, trxn, query, question, handle, query_throws, run, do_simple_query-server,
}
use omicro.Session.Results.{do_trxn_l2-q_result}
use omicro.Json.{Json}
use omicro.Session.Held.{Own, do_query_l2-held}

module _ (m : Maths) (keys : Keys) (r : Reals) (wc : WaitCount) (ledger : Ledger r)
    (resp : Responses) (json : Json) where
  abbrev State : Type 0
  State = Server m keys r wc ledger

  abbrev Sess : Type 0
  Sess = Session m keys r wc ledger resp

  abbrev after_all : Sess → List Message → Sess
  after_all = run m keys r wc ledger resp json

  -- The message is a query whose result is the storage's at that time.
  abbrev OwnQuery : Sess → Bytes → Bytes → Message → Type 0
  OwnQuery s id res msg =
      (text : Bytes) × (sock : ℕ) × (connected : ℕ) × (msg ≡ query text sock connected)
      × Own m keys r wc ledger resp s.server.sec_key s.server.store id res text

  abbrev Before : Sess → Bytes → Bytes → Message → Option Sess → Type 0
  Before s id res msg none = Unit {0}
  Before s id res msg (some s1) =
      WaitStr.get id s1.server.q_result ≡ some res
      → (WaitStr.get id s.server.q_result ≡ some res) ⊎ OwnQuery s id res msg

  handle-held :
      (s s1 : Sess) (id res : Bytes) (msg : Message)
      → handle m keys r wc ledger resp json s msg ≡ some s1
      → WaitStr.get id s1.server.q_result ≡ some res
      → (WaitStr.get id s.server.q_result ≡ some res) ⊎ OwnQuery s id res msg
  unfolding handle
  handle-held s s1 id res (trxn text sock) goes =
      subst (Before s id res (trxn text sock)) goes
        (λ held. inl (rw (do_trxn_l2-q_result m keys r wc ledger resp s text sock) at held))
  handle-held s s1 id res (query text sock connected) goes =
      elim (Bool-cases (query_throws m keys r wc ledger resp json s text)) [
        | inl throws ↦ cc (rw throws at goes)
        | inr works ↦
            subst (Before s id res (query text sock connected)) (rw works at goes) (λ held.
              elim (do_query_l2-held m keys r wc ledger resp s id res text sock connected held) [
                | inl before ↦ inl before
                | inr own ↦ inr (text, sock, connected, refl, own)
              ])
      ]
  handle-held s s1 id res (question text) goes = λ held. inl (
      subst (λ (x : State). WaitStr.get id x.q_result ≡ some res)
        (do_simple_query-server m keys r wc ledger resp json s s1 text goes) held)

  -- One of the messages is a query under way, valid, whose response is what the node's storage
  -- gives for it when it arrives.
  abbrev pub Source : Sess → Bytes → Bytes → List Message → Type 0
  Source s id res msgs =
      (before : List Message) × (msg : Message) × (after : List Message) × (msgs
        ≡ before ++ msg ∷ after)
      × OwnQuery (after_all s before) id res msg

  Source-later :
      (s s1 : Sess) (id res : Bytes) (msg : Message) (msgs : List Message)
      → handle m keys r wc ledger resp json s msg ≡ some s1
      → Source s1 id res msgs
      → Source s id res (msg ∷ msgs)
  unfolding run
  Source-later s s1 id res msg msgs goes (before, own_msg, after, parts, own) =
      let same : after_all s (msg ∷ before) ≡ after_all s1 before = rw (run, goes) refl in
      (
        msg ∷ before,
        own_msg,
        after,
        ap (λ rest. msg ∷ rest) parts,
        subst (λ (x : Sess). OwnQuery x id res own_msg) (sym same) own,
      )

  -- A result that a node holds after any transactions, queries and questions, until one of them
  -- ends the process's run, was held before, or one of these messages is a query that is under way
  -- and valid, whose response is this result, as is what the node's storage gave for the query when
  -- it arrived.
  pub run-held :
      (s : Sess) (id res : Bytes) (msgs : List Message)
      → WaitStr.get id (after_all s msgs).server.q_result ≡ some res
      → (WaitStr.get id s.server.q_result ≡ some res) ⊎ Source s id res msgs
  unfolding run
  run-held s id res [] held = inl held
  run-held s id res (msg ∷ msgs) held =
      elim (Option-cases (handle m keys r wc ledger resp json s msg)) [
        | inl ends ↦ inl (rw (run, ends) at held)
        | inr (s1, goes) ↦ elim (run-held s1 id res msgs (rw (run, goes) at held)) [
          | inr later ↦ inr (Source-later s s1 id res msg msgs goes later)
          | inl held1 ↦ elim (handle-held s s1 id res msg goes held1) [
            | inl before ↦ inl before
            | inr own ↦ inr ([], msg, msgs, refl, own)
          ]
        ]
      ]
