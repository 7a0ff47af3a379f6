-- ===== src/Tests/Queries.antt =====
-- The theorems of src/omsession.cc on queries.
use omicro.Base.{
  ℕ, ◌+◌, ◌<◌, ◌≡◌, ◌⊎◌, ◌∙◌, ap, refl, false, List, [], ◌∷◌, ◌++◌, arith, leb, if◌then◌else◌,
  Bytes, codes, eqb, c_str, c_str-Free, none, some,
}
use omicro.Base.Int.{pos}
use omicro.Base.Dict
use omicro.Trxn.{Trxn, allstr, om_query, init, get_trxn_id, is_init_trxn, get_xit, validate_trxn}
use omicro.Trxn.RoundTrip.{IsPrintable, init-allstr, allstr-Free}
use omicro.Circuit.{zone_of, get_num_zones, get_num_full_zones, get_zone_leaders}
use omicro.Circuit.Tests.{maths, beacon}
use omicro.WaitStr
use omicro.WaitStr.{get-add_self}
use omicro.Server.Effects.{journaled}
use omicro.Server.Queries.{on_recv_query_l}
use omicro.Session.Commit.{Sess}
use omicro.Session.Queries.{now_seconds, do_simple_query, validate_query, do_query_l2}
use omicro.Session.Replies.{IsVote, seen, query_votes, found, majority, vote-few, query_round}
use mathlib.Core.Option
use omicro.Session.Handlers.{Message, query_throws, handle, run, query}
use omicro.Session.Sources.{Source, run-held}
use omicro.Session.Questions.{question, do_simple_query-on_recv_query_l}
use omicro.Tests.Nodes.{keys, reals, counts, ledger, responses, session, server, account, id}
use omicro.Tests.World.{json}

abbrev res : Bytes
res = codes "90"

-- A query for what its request says, at the round of the trigger.
abbrev query_for : Bytes → Trxn
query_for thdr = record (account thdr) { trxntype = om_query; request = res; response = res }

abbrev vote : Bytes
vote = allstr (query_for (codes "Nl"))

query-IsPrintable : IsPrintable (query_for (codes "Nl"))
query-IsPrintable = record {
  plain_data = ground arith;
  plain_others = ground arith;
  has_beacon = λ e. cc e;
}

read_back : init keys.fresh_beacon (c_str vote) ≡ query_for (codes "Nl")
read_back =
    rw (c_str-Free vote (allstr-Free (query_for (codes "Nl")) query-IsPrintable))
      (init-allstr keys.fresh_beacon (query_for (codes "Nl")) query-IsPrintable)

vote-IsVote :
    IsVote maths keys reals counts
      (journaled ledger)
      responses
      server.sec_key
      server.store
      id
      beacon
      (codes "ann")
      res
      vote
unfolding get_trxn_id is_init_trxn get_xit validate_trxn eqb
vote-IsVote = record {
  same_id = rw read_back refl;
  same_beacon = rw read_back refl;
  same_sender = rw read_back refl;
  under_way = rw read_back refl;
  trigger = rw read_back refl;
  valid = rw read_back refl;
  answered = refl;
  own = rw read_back refl;
  agrees = rw read_back refl;
}

-- The first node, which a client on socket 7 asked.
abbrev asked : Sess maths keys reals counts ledger responses
asked = record session { server = record server { query_initer_client_socket = (id, 7) ∷ [] } }

abbrev votes : List (Bytes × ℕ × ℕ)
votes = (vote, 8, 0) ∷ (vote, 9, 0) ∷ (vote, 8, 0) ∷ []

fresh : WaitStr.get id Dict.empty ≡ none
unfolding WaitStr.get Dict.find Dict.empty
fresh = refl

no_state : omicro.Server.cur_state maths keys reals counts (journaled ledger) server id ≡ 0
unfolding omicro.TrxnState.get_state Dict.find Dict.empty
no_state = refl

waiting : Dict.find id asked.server.query_initer_client_socket ≡ some 7
unfolding Dict.find eqb
waiting = refl

query_round_example :
    seen maths keys reals counts
      (journaled ledger)
      responses
      (query_votes maths keys reals counts (journaled ledger) responses asked votes)
      id
    ≡ (if leb (majority maths keys reals counts (journaled ledger) responses server beacon) (0 + 3)
        then (
          []
              ++ (
                some 7,
                found maths keys reals counts
                    (journaled ledger)
                    responses
                    server
                    id
                    (codes "ann")
                    res,
              )
                ∷ [],
          none,
        )
        else ([], some 7))
query_round_example =
    query_round maths keys reals counts (journaled ledger) responses asked id beacon (codes "ann")
      res 7 votes (vote-IsVote, (vote-IsVote, (vote-IsVote, tt))) (omega (arith, no_state)) waiting
      (rw fresh refl) (omega arith) (omega arith)

two_leaders : 0 + 1 < majority maths keys reals counts (journaled ledger) responses server beacon
unfolding get_zone_leaders zone_of get_num_zones get_num_full_zones omicro.NodeList.get_level
two_leaders = omega arith

abbrev one_message : List Message
one_message = query vote 8 0 ∷ []

abbrev afterwards : Sess maths keys reals counts ledger responses
afterwards = run maths keys reals counts (journaled ledger) responses json session one_message

-- A vote to the node that the client asked does not read a port.
goes_on :
    query_throws maths keys reals counts (journaled ledger) responses json session vote ≡ false
unfolding query_throws validate_query is_init_trxn get_xit validate_trxn eqb
goes_on = rw read_back refl

handled :
    handle maths keys reals counts (journaled ledger) responses json session (query vote 8 0)
    ≡ some (do_query_l2 maths keys reals counts (journaled ledger) responses session vote 8 0)
unfolding handle
handled = rw (handle, goes_on) refl

-- After one vote the result is held.
held : WaitStr.get id afterwards.server.q_result ≡ some res
unfolding run
held =
    rw (run, handled)
      (ap (λ (x : Sess maths keys reals counts ledger responses). WaitStr.get id x.server.q_result)
          (vote-few maths keys reals counts (journaled ledger) responses session id beacon
            (codes "ann") res vote 8 0 vote-IsVote (omega (arith, no_state)) two_leaders)
        ∙ get-add_self (now_seconds maths keys reals counts (journaled ledger) responses) id res
            Dict.empty
        ∙ rw fresh refl)

run-held_example :
    (WaitStr.get id session.server.q_result ≡ some res)
    ⊎ Source maths keys reals counts (journaled ledger) responses json session id res one_message
run-held_example =
    run-held maths keys reals counts (journaled ledger) responses json session id res one_message
      held

-- A node that has one vote.
abbrev one_vote : Sess maths keys reals counts ledger responses
one_vote = record session {
  server = record server { collect_query_l = λ j. if eqb id j then 1 else 0 };
}

second_vote :
    (on_recv_query_l maths keys reals counts (journaled ledger) one_vote.server beacon id).1 ≡ pos 0
unfolding on_recv_query_l get_zone_leaders zone_of get_num_zones get_num_full_zones
    omicro.NodeList.get_level eqb omicro.TrxnState.get_state Dict.find Dict.empty
second_vote = refl

do_simple_query-on_recv_query_l_example :
    Option.map
      (λ (x : Sess maths keys reals counts ledger responses). x.replies)
      (do_simple_query maths keys reals counts
        (journaled ledger)
        responses
        json
        (record one_vote {
          server =
              (on_recv_query_l maths keys reals counts
                (journaled ledger)
                one_vote.server
                beacon
                id).0;
        })
        (question maths keys reals counts
          (journaled ledger)
          responses
          json
          (codes "QQ")
          id
          (codes "ann")
          (codes "17")))
    ≡ some ([] ++ (none, codes "NOT_ENOUGH_VOTES") ∷ [])
do_simple_query-on_recv_query_l_example =
    do_simple_query-on_recv_query_l maths keys reals counts (journaled ledger) responses json
      one_vote beacon id (codes "ann") (codes "17") second_vote (omega arith) (omega arith)
      (omega arith) (omega arith) (omega arith)
