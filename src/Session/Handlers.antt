-- ===== src/Session/Handlers.antt =====
-- src/omsession.cc: the three handlers of messages, and where one of them ends the run. A question
-- whose texts are not all there stops the process; `stoul`, which throws on a port without digits or
-- with a number of more than 64 bits, makes src/main.cc start the server anew.
use omicro.Base.{
  ℕ, ◌^◌, Bool, true, not, ◌&&◌, ◌||◌, List, [], ◌∷◌, leb, ◌==◌, if◌then◌else◌, Bytes, Option,
  Option-cases, subst, refl, inl, inr, ◌≡◌, none, some,
}
use omicro.Base.Decimal.{is_digit, read_digits}
use omicro.Json.{Json}
use omicro.Trxn.{Keys, Reals, get_xit, is_init_trxn, get_trxn_id, get_initer_port}
use omicro.TrxnState.{xit_k}
use omicro.Circuit.{Maths}
use omicro.Server.{WaitCount, Ledger}
use omicro.Server.Queries.{on_recv_query_k}
use omicro.Session.{Session, Responses, do_trxn_l2}
use omicro.Session.Queries.{
  query_of, is_zero, validate_query, do_query_l2, do_simple_query, question_texts,
}

-- `std::stoul` throws: no digit stands behind white space and a sign, or the number is too large.
digits_fail : Bytes → Bool
unfolding read_digits
digits_fail [] = true
digits_fail (c ∷ s) = not (is_digit c) || leb (2 ^ 64) (read_digits 0 (c ∷ s))

signed_fails : Bytes → Bool
unfolding digits_fail
signed_fails [] = true
signed_fails (c ∷ s) = if (c == b'-') || (c == b'+') then digits_fail s else digits_fail (c ∷ s)

unfoldable pub stoul_fails : Bytes → Bool
unfolding signed_fails
stoul_fails [] = true
stoul_fails (c ∷ s) =
    let later = stoul_fails s in
    if (c == 32) || (leb 9 c && leb c 13) then later else signed_fails (c ∷ s)

-- A message to a session: a transaction with its socket, a query with its socket and how many hosts
-- can be reached, or a question to this node.
pub data Message : Type 0 where
  trxn : Bytes → ℕ → Message
  query : Bytes → ℕ → ℕ → Message
  question : Bytes → Message

module _ (m : Maths) (keys : Keys) (r : Reals) (wc : WaitCount) (ledger : Ledger r)
    (resp : Responses) (json : Json) where
  abbrev Sess : Type 0
  Sess = Session m keys r wc ledger resp

  -- The vote of a follower that makes its leader read a port with `stoul`, which throws.
  unfoldable pub query_throws : Sess → Bytes → Bool
  unfolding stoul_fails validate_query
  query_throws s msg =
      let t = query_of m keys r wc ledger resp msg in
      let id = get_trxn_id t in
      let (server, t1, valid, err) =
        validate_query m keys r wc ledger resp s.server t id (is_init_trxn t) in
      valid
      && not (is_init_trxn t)
      && (get_xit t1 == xit_k)
      && is_zero (on_recv_query_k m keys r wc ledger server t1.beacon id).1
      && stoul_fails (get_initer_port t1)

  -- The session after a message, or the end of the process's run.
  unfoldable pub handle : Sess → Message → Option Sess
  unfolding do_trxn_l2 do_query_l2 do_simple_query query_throws
  handle s (trxn msg sock) = some (do_trxn_l2 m keys r wc ledger resp s msg sock)
  handle s (query msg sock connected) =
      if query_throws s msg
      then none
      else some (do_query_l2 m keys r wc ledger resp s msg sock connected)
  handle s (question msg) = do_simple_query m keys r wc ledger resp json s msg

  -- The messages one after the other, up to one that ends the run.
  unfoldable pub run : Sess → List Message → Sess
  unfolding handle
  run s [] = s
  run s (msg ∷ msgs) = elim (handle s msg) [ none ↦ s | some s1 ↦ run s1 msgs ]

  -- A predicate that every handled message keeps holds after any messages.
  pub run-Keeps :
      (P : Sess → Type 0)
      → ((s s1 : Sess) (msg : Message) → handle s msg ≡ some s1 → P s → P s1)
      → (s : Sess) (msgs : List Message) → P s
      → P (run s msgs)
  unfolding run
  run-Keeps P keeps s [] h = h
  run-Keeps P keeps s (msg ∷ msgs) h = elim (Option-cases (handle s msg)) [
    | inl ends ↦ rw (run, ends) h
    | inr (s1, goes) ↦ rw (run, goes) (run-Keeps P keeps s1 msgs (keeps s s1 msg goes h))
  ]

  -- A question changes nothing at the server.
  abbrev SameServer : Sess → Option Sess → Type 0
  SameServer s none = Unit {0}
  SameServer s (some s1) = s1.server ≡ s.server

  SameServer-do_simple_query :
      (s : Sess) (msg : Bytes) → SameServer s (do_simple_query m keys r wc ledger resp json s msg)
  unfolding do_simple_query
  SameServer-do_simple_query s msg = elim (Option-cases (json.parse msg)) [
    | inl bad ↦ rw (do_simple_query, bad) refl
    | inr (dom, good) ↦ elim (Option-cases (question_texts m keys r wc ledger resp dom)) [
      | inl lacking ↦ rw (do_simple_query, good, lacking) tt
      | inr (texts, there) ↦ rw (do_simple_query, good, there) refl
    ]
  ]

  pub do_simple_query-server :
      (s s1 : Sess) (msg : Bytes)
      → do_simple_query m keys r wc ledger resp json s msg ≡ some s1
      → s1.server ≡ s.server
  do_simple_query-server s s1 msg goes =
      subst (SameServer s) goes (SameServer-do_simple_query s msg)
