-- ===== src/MsgHdr/Length.antt =====
-- src/ommsghdr.cc: the length that is written is read back, and the fields do not disturb each other.
use native.Mathlib.Nat.{pow-suc}
use omicro.Base.{
  ℕ, zero, suc, ◌+◌, ◌*◌, ◌/◌, ◌%◌, ◌^◌, ◌≤◌, ◌<◌, ◌≡◌, ◌∙◌, ap, sym, refl, true, false, [], ◌∷◌,
  ◌++◌, arith, ◌==◌, if◌then◌else◌, Bool-cases, inl, inr, Bytes, some, length, length-append,
  length-replicate, replicate, set, get_or-set, All, All-append, length-set,
}
use omicro.Base.Decimal.{is_digit, read_digits, read_digits-append}
use omicro.MsgHdr.{
  right_aligned, print_length, atol, copy, first, checked, set_length, get_length, set_plain,
  get_compression, set_msg_type, get_msg_type, set_query_type, get_query_type, om_plain,
}

-- Spaces, then digits.
abbrev IsField : Bytes → Type 0
IsField [] = Unit
IsField (c ∷ s) = if c == b' ' then IsField s else All (λ d. is_digit d ≡ true) (c ∷ s)

atol-append :
    (d : ℕ) (s : Bytes) → IsField s → d < 10 → atol (s ++ (b'0' + d) ∷ []) ≡ atol s * 10 + d
unfolding atol read_digits
atol-append d [] h lt = ground arith
atol-append d (c ∷ s) h lt = elim (Bool-cases (c == b' ')) [
  | inl space ↦ rw space (atol-append d s (rw space at h) lt)
  | inr other ↦ rw other (read_digits-append 0 d (c ∷ s) (rw other at h) lt)
]

IsField-append : (d : ℕ) (s : Bytes) → IsField s → d < 10 → IsField (s ++ (b'0' + d) ∷ [])
IsField-append d [] h lt = ground arith
IsField-append d (c ∷ s) h lt = elim (Bool-cases (c == b' ')) [
  | inl space ↦ rw space (IsField-append d s (rw space at h) lt)
  | inr other ↦
      let digits : All (λ e. is_digit e ≡ true) (c ∷ s) = rw other at h in
      rw other (
        digits.0,
        All-append (λ e. is_digit e ≡ true) s ((b'0' + d) ∷ []) digits.1 (ground arith, tt),
      )
]

IsField-replicate : (n : ℕ) → (IsField (replicate n b' ')) × (atol (replicate n b' ') ≡ 0)
unfolding atol
IsField-replicate zero = (tt, refl)
IsField-replicate (suc n) = IsField-replicate n

right_aligned-IsField : (w n : ℕ) → IsField (right_aligned w n)
unfolding right_aligned
right_aligned-IsField zero n = tt
right_aligned-IsField (suc w) n = elim (Bool-cases (n == 0)) [
  | inl none_left ↦ rw none_left ((IsField-replicate (suc w)).0)
  | inr more ↦ rw more (
      IsField-append (n % 10) (right_aligned w (n / 10)) (right_aligned-IsField w (n / 10))
        (omega arith))
]

atol-right_aligned : (w n : ℕ) → n < 10 ^ w → atol (right_aligned w n) ≡ n
unfolding right_aligned
atol-right_aligned zero n h = unfold atol in omega arith
atol-right_aligned (suc w) n h = elim (Bool-cases (n == 0)) [
  | inl none_left ↦ rw none_left ((IsField-replicate (suc w)).1 ∙ ground arith)
  | inr more ↦ rw more (
      atol-append (n % 10) (right_aligned w (n / 10)) (right_aligned-IsField w (n / 10))
        (omega arith)
      ∙ ground (arith, atol-right_aligned w (n / 10), pow-suc 10 w))
]

length-right_aligned : (w n : ℕ) → length (right_aligned w n) ≡ w
unfolding right_aligned
length-right_aligned zero n = refl
length-right_aligned (suc w) n = ground (
  arith,
  length-right_aligned w (n / 10),
  length-replicate {A = ℕ} w b' ',
  length-append (right_aligned w (n / 10)) ((b'0' + n % 10) ∷ []),
)

first-copy : (ds buf : Bytes) → length ds ≤ length buf → first (length ds) (copy ds buf) ≡ ds
unfolding first copy
first-copy [] buf h = refl
first-copy (d ∷ ds) [] h = absurd (omega arith)
first-copy (d ∷ ds) (b ∷ buf) h = ap (λ x. d ∷ x) (first-copy ds buf (omega arith))

print_length-right_aligned : (n : ℕ) → 1 ≤ n → print_length n ≡ right_aligned 16 n
unfolding print_length
print_length-right_aligned n h =
    let positive : (n == 0) ≡ false = ground arith in
    ap (λ b. if b then replicate 15 b' ' ++ b'0' ∷ [] else right_aligned 16 n) positive

get_length-copy :
    (ds buf : Bytes)
    → length ds ≡ 16
    → 16 ≤ length buf
    → get_length (copy ds buf) ≡ checked (atol ds)
unfolding get_length
get_length-copy ds buf width room =
    ap (λ k. checked (atol (first k (copy ds buf)))) (sym width)
    ∙ ap (λ x. checked (atol x)) (first-copy ds buf (omega (arith, width)))

checked_lem : (n : ℕ) → 2 ≤ n → checked n ≡ some n
unfolding checked
checked_lem n h = ground arith

-- A length from 2 to the greatest with 16 digits, written to a buffer of at least 16 bytes, is read
-- back, and no abort happens.
pub get_length-set_length :
    (buf : Bytes) (n : ℕ)
    → 16 ≤ length buf
    → 2 ≤ n
    → n < 10 ^ 16
    → get_length (set_length buf n) ≡ some n
unfolding set_length
get_length-set_length buf n room lo hi =
    ap (λ ds. get_length (copy ds buf)) (print_length-right_aligned n (omega arith))
    ∙ get_length-copy (right_aligned 16 n) buf (length-right_aligned 16 n) room
    ∙ ap checked (atol-right_aligned 16 n hi)
    ∙ checked_lem n lo

first-set : (n i v : ℕ) (s : Bytes) → n ≤ i → first n (set s i v) ≡ first n s
unfolding first
first-set zero i v s h = refl
first-set (suc n) i v [] h = refl
first-set (suc n) zero v (c ∷ s) h = absurd (omega arith)
first-set (suc n) (suc i) v (c ∷ s) h = ap (λ x. c ∷ x) (first-set n i v s (omega arith))

pub get_length-set : (s : Bytes) (i v : ℕ) → 16 ≤ i → get_length (set s i v) ≡ get_length s
unfolding get_length
get_length-set s i v h = ap (λ x. checked (atol x)) (first-set 16 i v s h)

length-copy : (ds buf : Bytes) → length (copy ds buf) ≡ length buf
unfolding copy
length-copy [] buf = refl
length-copy (d ∷ ds) [] = refl
length-copy (d ∷ ds) (b ∷ buf) = ap suc (length-copy ds buf)

pub length-set_length : (buf : Bytes) (n : ℕ) → length (set_length buf n) ≡ length buf
unfolding set_length
length-set_length buf n = length-copy (print_length n) buf

-- A header as a sender fills it, with plain data.
abbrev pub filled : Bytes → ℕ → ℕ → ℕ → Bytes
filled buf n msg_type query_type =
    set_query_type (set_msg_type (set_plain (set_length buf n)) msg_type) query_type

-- In a buffer of 24 bytes, a length from 2 to the greatest with 16 digits, the mark of plain data, the
-- message type and the query type are all read back after the last of them is written: no field
-- overwrites another.
pub filled_lem :
    (buf : Bytes) (n msg_type query_type : ℕ)
    → length buf ≡ 24
    → 2 ≤ n
    → n < 10 ^ 16
    → (get_length (filled buf n msg_type query_type) ≡ some n)
      × (get_compression (filled buf n msg_type query_type) ≡ om_plain)
      × (get_msg_type (filled buf n msg_type query_type) ≡ msg_type)
      × (get_query_type (filled buf n msg_type query_type) ≡ query_type)
unfolding set_plain set_msg_type set_query_type get_compression get_msg_type get_query_type
filled_lem buf n msg_type query_type size lo hi =
    let s0 = set_length buf n in
    let s1 = set s0 16 om_plain in
    let s2 = set s1 17 msg_type in
    let s3 = set s2 18 query_type in
    let w0 : length s0 ≡ 24 = length-set_length buf n ∙ size in
    let w1 : length s1 ≡ 24 = length-set s0 16 om_plain ∙ w0 in
    let w2 : length s2 ≡ 24 = length-set s1 17 msg_type ∙ w1 in
    (
      get_length-set s2 18 query_type (omega arith)
          ∙ get_length-set s1 17 msg_type (omega arith)
          ∙ get_length-set s0 16 om_plain (omega arith)
          ∙ get_length-set_length buf n (omega (arith, size)) lo hi,
      get_or-set s2 18 16 query_type 0 (omega (arith, w2))
          ∙ get_or-set s1 17 16 msg_type 0 (omega (arith, w1))
          ∙ get_or-set s0 16 16 om_plain 0 (omega (arith, w0)),
      get_or-set s2 18 17 query_type 0 (omega (arith, w2))
          ∙ get_or-set s1 17 17 msg_type 0 (omega (arith, w1)),
      get_or-set s2 18 18 query_type 0 (omega (arith, w2)),
    )
