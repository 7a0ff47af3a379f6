-- ===== src/Session/Once.antt =====
-- src/omsession.cc: how often a node hands a transaction to its storage, over any sequence
-- of messages.
use omicro.Base.{
  ◌+◌, ◌≤◌, ◌≡◌, ◌⊎◌, List, [], ◌∷◌, ◌++◌, arith, if◌then◌else◌, Bytes, eqb, eqb_iff, subst, Option,
  none, some, Bool-cases, inl, inr,
}
use omicro.Trxn.{Trxn, Keys, Reals, get_trxn_id}
use omicro.TrxnState.{st_f}
use omicro.Circuit.{Maths}
use omicro.Server.{Server, WaitCount, Ledger}
use omicro.Server.Effects.{state_of, Effect, quiet, commits, journaled, received, received-append}
use omicro.Json.{Json}
use omicro.Session.{Responses}
use omicro.Session.Queries.{do_simple_query}
use omicro.Session.Handlers.{
  Message, trxn, query, question, handle, query_throws, run, run-Keeps, do_simple_query-server,
}
use omicro.Session.QueryEffects.{do_query_l2-Effect}
use omicro.Session.Commit.{Sess, do_trxn_l2-Effect}

module _ (m : Maths) (keys : Keys) (r : Reals) (wc : WaitCount) (ledger : Ledger r)
    (resp : Responses) (json : Json) where
  abbrev State : Type 0
  State = Server m keys r wc (journaled ledger)

  -- A transaction that the storage has was handed over once, and is in state F or past it.
  pub record IsOnce (s : State) : Type 0 where
    pub once : (id : Bytes) → received id s.store.1 ≤ 1
    pub is_done : (id : Bytes) → 1 ≤ received id s.store.1 → st_f ≤ state_of m keys r wc ledger s id

  received-commit :
      (s s1 : State) (t : Trxn) (id : Bytes)
      → s1.store.1 ≡ s.store.1 ++ t ∷ []
      → received id s1.store.1 ≡ received id s.store.1 + (if eqb (get_trxn_id t) id then 1 else 0)
  received-commit s s1 t id e = rw e (received-append id s.store.1 t)

  Effect-IsOnce : (s s1 : State) → Effect m keys r wc ledger s s1 → IsOnce s → IsOnce s1
  Effect-IsOnce s s1 (quiet forward same) h = record {
    once = λ id. rw same (h.once id);
    is_done = λ id got. forward id (h.is_done id (rw same at got));
  }
  Effect-IsOnce s s1 (commits t forward low high same) h = record {
    once = λ id. ground (
      arith,
      received-commit s s1 t id same,
      eqb_iff (get_trxn_id t) id,
      h.once id,
      h.is_done id,
    );
    is_done = λ id got. ground (
      arith,
      received-commit s s1 t id same,
      eqb_iff (get_trxn_id t) id,
      h.is_done id,
      forward id,
      high,
    );
  }

  abbrev Fits : Option (Sess m keys r wc ledger resp) → Type 0
  Fits none = Unit {0}
  Fits (some s) = IsOnce s.server

  handle-IsOnce :
      (s s1 : Sess m keys r wc ledger resp) (msg : Message)
      → handle m keys r wc (journaled ledger) resp json s msg ≡ some s1
      → IsOnce s.server
      → IsOnce s1.server
  unfolding handle do_simple_query
  handle-IsOnce s s1 (trxn msg sock) goes h =
      subst (λ (x : Option (Sess m keys r wc ledger resp)). Fits x) goes
        (Effect-IsOnce s.server _ (do_trxn_l2-Effect m keys r wc ledger resp s msg sock) h)
  handle-IsOnce s s1 (query msg sock connected) goes h =
      elim (Bool-cases (query_throws m keys r wc (journaled ledger) resp json s msg)) [
        | inl throws ↦ cc (rw throws at goes)
        | inr works ↦
            subst (λ (x : Option (Sess m keys r wc ledger resp)). Fits x) (rw works at goes)
              (Effect-IsOnce s.server _
                (do_query_l2-Effect m keys r wc ledger resp s msg sock connected) h)
      ]
  handle-IsOnce s s1 (question msg) goes h =
      rw (do_simple_query-server m keys r wc (journaled ledger) resp json s s1 msg goes) h

  -- A node that starts with nothing received hands the storage each transaction at most once,
  -- whatever transactions, queries and questions arrive, in any order and any number of times, until
  -- one of them ends the process's run, and a transaction handed over is in state F or past it.
  pub committed_once :
      (s : Sess m keys r wc ledger resp) (msgs : List Message) (id : Bytes)
      → s.server.store.1 ≡ []
      → let s1 = run m keys r wc (journaled ledger) resp json s msgs in
        (received id s1.server.store.1 ≤ 1)
        × ((received id s1.server.store.1 ≡ 0) ⊎ (st_f ≤ state_of m keys r wc ledger s1.server id))
  committed_once s msgs id start =
      let fresh : IsOnce s.server = record {
        once = λ j. unfold received in rw start (omega arith);
        is_done = λ j got. unfold received in absurd (omega (arith, rw start at got));
      } in
      let h : IsOnce (run m keys r wc (journaled ledger) resp json s msgs).server =
        run-Keeps m keys r wc (journaled ledger) resp json (λ x. IsOnce x.server) handle-IsOnce s
          msgs fresh in
      ground (arith, h.once id, h.is_done id)
