-- ===== src/Lib.antt =====
-- Omicro: the consensus of a node. A client sends a transaction to a node, which asks the leaders of
-- all zones to collect votes; votes run in rounds, and a transaction with all of its quorums is
-- handed to the storage of every node.
--
-- Parts, with the files of this library and the code they follow:
--   TrxnState (src/trxnstate.h, src/trxnstate.cc): the table of states; `go_state` is `goState`.
--     Steps says what a call does, Progress and Forward what histories of calls do.
--   StrSplit (src/omstrsplit.h, src/omstrsplit.cc): `OmStrSplit`; `init` scans with the same two
--     passes, `index` is `operator[]`. Split and Regions are about the two ways to split.
--   Trxn (src/omicrotrxn.h, src/omicrotrxn.cc): `OmicroTrxn`, printed by `allstr` and read by
--     `init`, which uses StrSplit; RoundTrip is about both. Making has the `make` functions (with
--     src/omquery.cc and `getUserId` of src/omicrokey.cc), Accepted and Requests are about what they
--     make.
--   Quorum (src/omutil.cc): `twofplus1`. Overlap is about sets of voters.
--   NodeList (src/nodelist.h, src/nodelist.cc): the records of nodes. Records is about the file.
--   Circuit (src/dynamiccircuit.h, src/dynamiccircuit.cc): zones and leaders for a beacon. Zones is
--     about zone numbers, Leaders and Members about who leads whom, Others about other zones.
--   Server (src/server.hpp, src/server.cpp): `onRecvK`, `onRecvL`, `onRecvM`, `onRecvN` and
--     `multicast`, over TrxnState, Quorum, Circuit and Trxn; Queries has the votes on queries.
--     Votes and Commitment are about rounds of votes, Delivery about what is sent, Effects and
--     Commit about the storage.
--   Session (src/omsession.h, src/omsession.cc): `doTrxnL2`, from the check of a message to the call
--     of the server. Checks is about the check, Commit about one message, Once about sequences.
--     Queries has `doQueryL2` and `doSimpleQuery`; Replies, Held and Questions are about these.
--     Handlers puts the three handlers together, with the ends of the process's run; QueryEffects,
--     Results and Sources are about sequences of all messages.
--   BlockMgr (src/blockmgr.h, src/blockmgr.cc, src/omstore.cc): the accounts of a node;
--     `update_acct_balances`, `create_acct`, and in Requests and Saving `create_token`,
--     `transfer_token` and `save_trxn`; Queries has what a node tells. Lookups, Payments, Refusals,
--     Creation, Journal and Answers are about these. Kept is about what they leave
--     alone. Wallog has the write-ahead log; Records is about one record, Replay about whole logs,
--     Intact about a node's own log.
--   Blocks (src/blockmgr.cc, src/trxnlist.cc): the files of transactions; `read_trxns` is
--     `readTrxns`. Reading is about its end, Storing, History, Lookup and Growing about
--     what it finds.
--   Accounts (src/omaccount.h, src/omaccount.cc) and Json (src/omdom.cc, src/omjson.cc): an account and
--     its text. RoundTrip is about both.
--   Tokens (src/omtoken.cc, and the functions on tokens of src/blockmgr.cc): the scanners of texts,
--     Deduct and Transfer for `modifyTokens`, Check for `checkValidTokens`, Mint for
--     `validateReqTokens`. Names and Keys are about the test for duplicates, Agreement, Validity and
--     Texts about the check and the transfer.
--   MsgHdr (src/ommsghdr.h, src/ommsghdr.cc): the header of a message. Length is about its fields.
--   Wire (src/omicroclient.cc, and `do_read` and `replySock` of src/omsession.cc): what goes over a
--     connection, over MsgHdr and Session. Frames is about one message, Serving about a
--     whole connection, PublicKey about `reqPublicKey` and the texts of src/omicroquery.cc.
--   WaitStr (src/omwaitstr.h, src/omwaitstr.cc): the results of queries that wait for their reader.
--   Base holds what the others share; Tests and Circuit.Tests apply the theorems to examples.
--
-- State is passed explicitly: a handler takes the server and gives the server after it. A handler
-- runs to its end before the next one, so a sequence of messages stands for a run of the node. Text
-- is a list of bytes, a map an association list behind its laws, and what a node sends is a list of
-- messages. Loops are recursion on what is left of the input. The fill loop of
-- `OmStrSplit` recurses on the number of tokens that the counting loop found, as the code does; the
-- loops of `readTrxns` and `replayWallog` run on fuel, one more than the length of the file, since
-- every record takes a byte; `do_read` runs on fuel above the number of messages. A number is
-- printed on fuel for 20 digits, which hold 64 bits.
--
-- Code that is not in the repository is a parameter: the hash and the roots of the circuit
-- (`Maths`, with `IsExact` for roots rounded down), signatures and clocks (`Keys`), `double`
-- (`Reals`), vote counts (`WaitCount`, with the laws of add and erase), responses (`Responses`),
-- zlib (`Zlib`: what is compressed is read back), rapidjson (`Json`: an object of strings is read
-- back), Tokyo Cabinet (`Cabinet`: a record is read back, other keys and handles are left alone,
-- and an opened file exists) and the disk (`Disk`). To the server, the block manager is an
-- interface (`Ledger`) with no laws: those theorems hold for any storage. One clock value serves a
-- whole run.
--
-- Not modelled: the making of sockets, threads and logging; cryptography, compression and the
-- key-value store, which are libraries; the clean-up timer; the places at which the code for tokens
-- stops the process, a member that is no string or an NFT without an owner, where the model goes on.
pub mod Accounts
pub mod Base
pub mod BlockMgr
pub mod Blocks
pub mod Circuit
pub mod Json
pub mod MsgHdr
pub mod NodeList
pub mod Quorum
pub mod Server
pub mod Session
pub mod StrSplit
pub mod Tests
pub mod Tokens
pub mod Trxn
pub mod TrxnState
pub mod WaitStr
pub mod Wire
