-- ===== src/Wire.antt =====
-- src/omicroclient.cc (`sendMessage`, `sendTrxn`, `sendQuery`) and src/omsession.cc (`do_read`,
-- `replySock`): how a message travels. A connection is what comes in on it and whether writes
-- succeed; what is written is a result. A read of a peer that closes early leaves zeros, where the
-- source leaves the spaces of a header or what `malloc` gave. zlib is an argument.
pub mod Frames
pub mod Serving
pub mod PublicKey
use omicro.Base.{
  ℕ, zero, suc, ◌+◌, Bool, true, false, not, ◌||◌, List, [], ◌∷◌, ◌++◌, ◌==◌, ltb, leb,
  if◌then◌else◌, Bytes, length, replicate, Option, none, some,
}
use omicro.Json.{Json}
use omicro.Trxn.{Trxn, Keys, Reals, allstr, set_init_trxn}
use omicro.MsgHdr.{
  set_length, get_length, set_plain, set_compressed, get_compression, set_msg_type, get_msg_type,
  om_compressed,
}
use omicro.Circuit.{Maths}
use omicro.Server.{WaitCount, Ledger, om_txn, om_xnq}
use omicro.Session.{Session, Responses, Response}
use omicro.Session.Handlers.{trxn, query, question, handle}
use omicro.BlockMgr.Wallog.{Zlib, read_padded}

abbrev pub omhdr_sz : ℕ
omhdr_sz = 24

abbrev pub om_msg_maxsz : ℕ
om_msg_maxsz = 256000

abbrev pub do_compress_threshold : ℕ
do_compress_threshold = 300000

abbrev pub om_rq : ℕ
om_rq = b'Q'

-- The buffer of a header, cleared.
abbrev pub blank : Bytes
blank = replicate omhdr_sz b' '

-- What goes over the wire for a text: compressed above the threshold.
unfoldable pub zipped : Zlib → Bytes → Bytes
zipped zlib msg = if ltb do_compress_threshold (length msg) then zlib.compress msg else msg

-- The header without a type, as `replySock` writes it.
unfoldable pub reply_header : Zlib → Bytes → Bytes
unfolding zipped
reply_header zlib msg =
    let hdr = set_length blank (length (zipped zlib msg)) in
    if ltb do_compress_threshold (length msg) then set_compressed hdr else set_plain hdr

unfoldable pub reply_sock : Zlib → Bytes → Bytes
unfolding reply_header zipped
reply_sock zlib str = reply_header zlib str ++ zipped zlib str

unfoldable pub message : Zlib → ℕ → Bytes → Bytes
unfolding reply_header zipped
message zlib mtype msg = set_msg_type (reply_header zlib msg) mtype ++ zipped zlib msg

-- A client's connection: whether it was made, whether header and text can be written, and what the
-- peer sends.
pub record Connection : Type 0 where
  pub connect_ok : Bool
  pub header_ok : Bool
  pub text_ok : Bool
  pub incoming : Bytes

-- `saferead` fills the buffer as far as the peer's bytes go, and says how many there were.
abbrev pub got : ℕ → Bytes → ℕ
got n [] = 0
got zero (c ∷ s) = 0
got (suc n) (c ∷ s) = suc (got n s)

unfoldable pub uncompressed : Zlib → Bytes → Bytes → Bytes
uncompressed zlib hdr res =
    if get_compression hdr == om_compressed then zlib.uncompress res else res

-- The text of a reply, of which so many bytes came.
unfoldable pub reply_text : Zlib → Bytes → ℕ → Bytes × Bytes → Option Bytes
unfolding uncompressed
reply_text zlib hdr n (res, behind) = if ltb n 1 then some [] else some (uncompressed zlib hdr res)

-- The reply behind its header; `none` where the process is aborted, which `getLength` does.
unfoldable pub reply_of : Zlib → Bytes × Bytes → Option Bytes
unfolding reply_text
reply_of zlib (hdr, rest) = elim (get_length hdr) [
  | none ↦ none
  | some sz ↦ reply_text zlib hdr (got sz rest) (read_padded sz rest)
]

unfoldable pub read_reply : Zlib → Bytes → Option Bytes
unfolding reply_of
read_reply zlib incoming =
    if ltb (got omhdr_sz incoming) 1 then some [] else reply_of zlib (read_padded omhdr_sz incoming)

-- The reply, and what has been written.
unfoldable pub send_message : Zlib → Connection → ℕ → Bytes → Bool → Option Bytes × Bytes
unfolding message read_reply reply_header zipped
send_message zlib con mtype msg expect_reply =
    if not con.connect_ok
    then (some [], [])
    else if not con.header_ok
    then (some [], [])
    else if not con.text_ok || ltb (length (zipped zlib msg)) 1
    then (some [], set_msg_type (reply_header zlib msg) mtype)
    else if not expect_reply
    then (some [], message zlib mtype msg)
    else (read_reply zlib con.incoming, message zlib mtype msg)

unfoldable pub send_trxn : Zlib → Connection → Trxn → Option Bytes × Bytes
unfolding send_message
send_trxn zlib con t = send_message zlib con om_txn (allstr (set_init_trxn t)) true

-- `OmResponse(reply)` is an argument: what its constructor reads.
unfoldable pub send_query : Zlib → (Bytes → Response) → Connection → Trxn → Option Bytes × Bytes
unfolding send_message
send_query zlib response con t =
    let (reply, written) = send_message zlib con om_xnq (allstr (set_init_trxn t)) true in
    let told : Option Bytes = elim reply [
      | none ↦ none
      | some text ↦
          if ltb (length text) 1
          then some []
          else if not (response text).stt
          then some (response text).rsn
          else some text
    ] in
    (told, written)

-- What a session meets on its socket: the end (it is closed then), the abort of the process, or a
-- message with its type, and what is behind it.
pub data Incoming : Type 0 where
  closed : Incoming
  aborted : Incoming
  arrived : ℕ → Bytes → Bytes → Incoming

-- `boost::asio::read` of the text, of which no byte may be missing.
unfoldable pub read_text : Zlib → Bytes → ℕ → ℕ → Bytes × Bytes → Incoming
unfolding uncompressed
read_text zlib hdr dlen n (msg, behind) =
    if n == dlen then arrived (get_msg_type hdr) (uncompressed zlib hdr msg) behind else closed

unfoldable pub met : Zlib → Bytes × Bytes → Incoming
unfolding read_text
met zlib (hdr, rest) = elim (get_length hdr) [
  | none ↦ aborted
  | some dlen ↦
      if leb dlen om_msg_maxsz
      then read_text zlib hdr dlen (got dlen rest) (read_padded dlen rest)
      else closed
]

unfoldable pub read_message : Zlib → Bytes → Incoming
unfolding met
read_message zlib incoming =
    if got omhdr_sz incoming == omhdr_sz then met zlib (read_padded omhdr_sz incoming) else closed

module _ (zlib : Zlib) (json : Json) (m : Maths) (keys : Keys) (r : Reals) (wc : WaitCount)
    (ledger : Ledger r) (resp : Responses) where
  abbrev Sess : Type 0
  Sess = Session m keys r wc ledger resp

  -- A message of an unknown type is dropped. `sock` is the native handle, and `connected` how many
  -- hosts a query could reach; `none` where the handler ends the process's run.
  unfoldable pub dispatch_message : Sess → ℕ → Bytes → ℕ → ℕ → Option Sess
  unfolding handle
  dispatch_message s tp text sock connected =
      if tp == om_txn
      then handle m keys r wc ledger resp json s (trxn text sock)
      else if tp == om_rq
      then handle m keys r wc ledger resp json s (question text)
      else if tp == om_xnq
      then handle m keys r wc ledger resp json s (query text sock connected)
      else some s

  -- The session's own socket has been closed, by itself or by `::close` of its native handle.
  unfoldable pub is_closed : ℕ → List (Option ℕ) → Bool
  is_closed own [] = false
  is_closed own (none ∷ socks) = true
  is_closed own (some sock ∷ socks) = (sock == own) || is_closed own socks

  -- How a connection ends: with a session, with the end of the process's run, or without fuel.
  pub data Served : Type 0 where
    served : Sess → Served
    died : Served
    no_fuel : Served

  unfoldable pub do_read : ℕ → Sess → Bytes → ℕ → ℕ → Served
  do_read zero s incoming sock connected = no_fuel
  do_read (suc fuel) s incoming sock connected =
      let next : Served = elim (read_message zlib incoming) [
        | closed ↦ served (record s { closed = s.closed ++ none ∷ [] })
        | aborted ↦ died
        | arrived tp text rest ↦ elim (dispatch_message s tp text sock connected) [
          | none ↦ died
          | some s1 ↦ do_read fuel s1 rest sock connected
        ]
      ] in
      if is_closed sock s.closed then served s else next
