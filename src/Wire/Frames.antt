-- ===== src/Wire/Frames.antt =====
-- src/omicroclient.cc and src/omsession.cc: what one side writes, the other reads.
use mathlib.Core.List.{append_assoc}
use omicro.Base.{
  ℕ, suc, ◌^◌, ◌≤◌, ◌<◌, ◌≡◌, ◌∙◌, refl, sym, ap, true, false, [], ◌∷◌, ◌++◌, arith, ltb, leb, ◌==◌,
  if◌then◌else◌, Bool-cases, inl, inr, Bytes, length, length-set, set, get_or-set, some,
}
use omicro.MsgHdr.{
  set_length, get_length, set_plain, set_compressed, get_compression, set_msg_type, get_msg_type,
  om_compressed, om_plain,
}
use omicro.MsgHdr.Length.{get_length-set_length, get_length-set, length-set_length}
use omicro.BlockMgr.Wallog.{Zlib, read_padded}
use omicro.BlockMgr.Wallog.Records.{read_padded-append}
use omicro.Wire.{
  blank, omhdr_sz, om_msg_maxsz, do_compress_threshold, zipped, reply_header, reply_sock, message,
  got, uncompressed, reply_text, reply_of, read_reply, read_text, met, read_message, arrived,
  closed,
}

-- The mark of a text: compressed or plain.
abbrev mark : Bytes → ℕ
mark msg = if ltb do_compress_threshold (length msg) then om_compressed else om_plain

reply_header-mark :
    (zlib : Zlib) (msg : Bytes)
    → reply_header zlib msg ≡ set (set_length blank (length (zipped zlib msg))) 16 (mark msg)
unfolding reply_header set_compressed set_plain
reply_header-mark zlib msg = ground arith

length-blank : length blank ≡ 24
length-blank = refl

-- What a reader sees of a header with a length and a mark.
header_lem :
    (n c : ℕ)
    → 2 ≤ n
    → n < 10 ^ 16
    → (length (set (set_length blank n) 16 c) ≡ 24)
      × (get_length (set (set_length blank n) 16 c) ≡ some n)
      × (get_compression (set (set_length blank n) 16 c) ≡ c)
unfolding get_compression
header_lem n c lo hi =
    let width : length (set_length blank n) ≡ 24 = length-set_length blank n in
    (
      length-set (set_length blank n) 16 c ∙ width,
      get_length-set (set_length blank n) 16 c (omega arith)
          ∙ get_length-set_length blank n (omega arith) lo hi,
      get_or-set (set_length blank n) 16 16 c 0 (omega (arith, width)),
    )

got-append : (xs rest : Bytes) → got (length xs) (xs ++ rest) ≡ length xs
got-append [] [] = refl
got-append [] (c ∷ rest) = refl
got-append (x ∷ xs) rest = ap suc (got-append xs rest)

uncompressed-zipped :
    (zlib : Zlib) (hdr msg : Bytes)
    → get_compression hdr ≡ mark msg
    → uncompressed zlib hdr (zipped zlib msg) ≡ msg
unfolding uncompressed zipped
uncompressed-zipped zlib hdr msg h = elim (Bool-cases (ltb do_compress_threshold (length msg))) [
  | inl long ↦
      let marked : get_compression hdr ≡ om_compressed = h ∙ rw long refl in
      rw (long, marked) (zlib.uncompress-compress msg)
  | inr short ↦
      let marked : get_compression hdr ≡ om_plain = h ∙ rw short refl in rw (short, marked) refl
]

read_padded-header :
    (hdr rest : Bytes) → length hdr ≡ 24 → read_padded omhdr_sz (hdr ++ rest) ≡ (hdr, rest)
read_padded-header hdr rest h =
    ap (λ n. read_padded n (hdr ++ rest)) (sym h) ∙ read_padded-append hdr rest

got-header : (hdr rest : Bytes) → length hdr ≡ 24 → got omhdr_sz (hdr ++ rest) ≡ 24
got-header hdr rest h = ap (λ n. got n (hdr ++ rest)) (sym h) ∙ got-append hdr rest ∙ h

-- A header of 24 bytes, then a text of the length that it tells.
met-header :
    (zlib : Zlib) (hdr msg rest : Bytes)
    → get_length hdr ≡ some (length (zipped zlib msg))
    → get_compression hdr ≡ mark msg
    → length (zipped zlib msg) ≤ om_msg_maxsz
    → met zlib (hdr, zipped zlib msg ++ rest) ≡ arrived (get_msg_type hdr) msg rest
unfolding met read_text
met-header zlib hdr msg rest told marked small =
    let zip = zipped zlib msg in
    let fits : leb (length zip) om_msg_maxsz ≡ true = ground (arith, small) in
    let whole : (length zip == length zip) ≡ true = ground arith in
    rw
      (
        told,
        met,
        fits,
        read_padded-append zip rest,
        got-append zip rest,
        whole,
        uncompressed-zipped zlib hdr msg marked,
      )
      refl

met-large :
    (zlib : Zlib) (hdr : Bytes) (n : ℕ) (rest : Bytes)
    → get_length hdr ≡ some n
    → om_msg_maxsz < n
    → met zlib (hdr, rest) ≡ closed
unfolding met
met-large zlib hdr n rest told large =
    let wide : leb n om_msg_maxsz ≡ false = ground (arith, large) in rw (told, met, wide) refl

read_message-header :
    (zlib : Zlib) (hdr rest : Bytes)
    → length hdr ≡ 24
    → read_message zlib (hdr ++ rest) ≡ met zlib (hdr, rest)
unfolding read_message
read_message-header zlib hdr rest width =
    rw (got-header hdr rest width) (ap (met zlib) (read_padded-header hdr rest width))

reply_of-header :
    (zlib : Zlib) (hdr str rest : Bytes)
    → get_length hdr ≡ some (length (zipped zlib str))
    → get_compression hdr ≡ mark str
    → 1 ≤ length (zipped zlib str)
    → reply_of zlib (hdr, zipped zlib str ++ rest) ≡ some str
unfolding reply_of reply_text
reply_of-header zlib hdr str rest told marked filled =
    let zip = zipped zlib str in
    let some_came : ltb (length zip) 1 ≡ false = ground (arith, filled) in
    rw
      (
        told,
        reply_of,
        read_padded-append zip rest,
        got-append zip rest,
        some_came,
        uncompressed-zipped zlib hdr str marked,
      )
      refl

read_reply-header :
    (zlib : Zlib) (hdr rest : Bytes)
    → length hdr ≡ 24
    → read_reply zlib (hdr ++ rest) ≡ reply_of zlib (hdr, rest)
unfolding read_reply
read_reply-header zlib hdr rest width =
    rw (got-header hdr rest width) (ap (reply_of zlib) (read_padded-header hdr rest width))

-- A text is sent plain, up to 300000 bytes, or compressed. Where from 2 to 256000 bytes go over the
-- wire, a session reads the type and the text that the client gave, and leaves what is behind.
pub read_message-message :
    (zlib : Zlib) (mtype : ℕ) (msg rest : Bytes)
    → 2 ≤ length (zipped zlib msg)
    → length (zipped zlib msg) ≤ 256000
    → read_message zlib (message zlib mtype msg ++ rest) ≡ arrived mtype msg rest
unfolding message set_msg_type get_msg_type get_compression
read_message-message zlib mtype msg rest lo hi =
    let zip = zipped zlib msg in
    let hdr = reply_header zlib msg in
    let (width, told, marked) = header_lem (length zip) (mark msg) lo (omega (arith, hi)) in
    let same = reply_header-mark zlib msg in
    let width1 : length hdr ≡ 24 = ap length same ∙ width in
    ap (read_message zlib) (append_assoc (set hdr 17 mtype) zip rest)
    ∙ read_message-header zlib (set hdr 17 mtype) (zip ++ rest) (length-set hdr 17 mtype ∙ width1)
    ∙ met-header zlib (set hdr 17 mtype) msg rest
        (get_length-set hdr 17 mtype (omega arith) ∙ ap get_length same ∙ told)
        (get_or-set hdr 17 16 mtype 0 (omega (arith, width1)) ∙ ap get_compression same ∙ marked) hi
    ∙ ap (λ tp. arrived tp msg rest) (get_or-set hdr 17 17 mtype 0 (omega (arith, width1)))

-- Where more than 256000 bytes and fewer than 10^16 go over the wire, which includes texts of 256001
-- to 300000 bytes that are sent plain, a session that reads the message closes the socket.
pub read_message-large :
    (zlib : Zlib) (mtype : ℕ) (msg rest : Bytes)
    → 256000 < length (zipped zlib msg)
    → length (zipped zlib msg) < 10 ^ 16
    → read_message zlib (message zlib mtype msg ++ rest) ≡ closed
unfolding message set_msg_type
read_message-large zlib mtype msg rest lo hi =
    let zip = zipped zlib msg in
    let hdr = reply_header zlib msg in
    let (width, told, marked) = header_lem (length zip) (mark msg) (omega (arith, lo)) hi in
    let same = reply_header-mark zlib msg in
    let width1 : length hdr ≡ 24 = ap length same ∙ width in
    ap (read_message zlib) (append_assoc (set hdr 17 mtype) zip rest)
    ∙ read_message-header zlib (set hdr 17 mtype) (zip ++ rest) (length-set hdr 17 mtype ∙ width1)
    ∙ met-large zlib (set hdr 17 mtype) (length zip) (zip ++ rest)
        (get_length-set hdr 17 mtype (omega arith) ∙ ap get_length same ∙ told) lo

-- Where from 2 bytes to 10^16 - 1 go over the wire, a client gets the reply that the session gave.
pub read_reply-reply_sock :
    (zlib : Zlib) (str rest : Bytes)
    → 2 ≤ length (zipped zlib str)
    → length (zipped zlib str) < 10 ^ 16
    → read_reply zlib (reply_sock zlib str ++ rest) ≡ some str
unfolding reply_sock
read_reply-reply_sock zlib str rest lo hi =
    let zip = zipped zlib str in
    let hdr = reply_header zlib str in
    let (width, told, marked) = header_lem (length zip) (mark str) lo hi in
    let same = reply_header-mark zlib str in
    let width1 : length hdr ≡ 24 = ap length same ∙ width in
    ap (read_reply zlib) (append_assoc hdr zip rest)
    ∙ read_reply-header zlib hdr (zip ++ rest) width1
    ∙ reply_of-header zlib hdr str rest (ap get_length same ∙ told)
        (ap get_compression same ∙ marked) (omega (arith, lo))
