-- ===== src/Tokens/Keys.antt =====
-- src/omtoken.cc: the keys that the test for duplicate tokens collects and compares.
use mathlib.Core.List.{append_assoc, append-nil}
use omicro.Base.{
  ◌≡◌, ◌∙◌, refl, sym, ap, subst, ◌==◌, Bool-cases, inl, inr, true, false, List, [], ◌∷◌, ◌++◌, map,
  arith, Bytes, eqb, eqb_iff, c_str-Free, Free, Free-append, All, In,
}
use omicro.Tokens.{
  before, inside, past_key, key_step, key_loop, is_blank, is_opening, skip_opening, in_set,
  get_keys_set, has_dup_names,
}
use omicro.Tokens.Names.{any_in, has_dup_names-any_in}

-- A member of a token in a text: what stands before its key, such as "[{", the key, and what stands
-- behind the key's closing quote up to the next comma, such as a colon, the value in quotes and "}".
pub record Member : Type 0 where
  pub lead : Bytes
  pub key : Bytes
  pub behind : Bytes

-- No quote before the key or in it, no comma behind it, and no NUL byte.
pub record IsMember (e : Member) : Type 0 where
  pub lead_free : Free b'"' e.lead
  pub key_free : Free b'"' e.key
  pub behind_free : Free b',' e.behind
  pub lead_text : Free 0 e.lead
  pub key_text : Free 0 e.key
  pub behind_text : Free 0 e.behind

entry_text : Member → Bytes → Bytes
entry_text e rest = e.lead ++ (b'"' ∷ (e.key ++ (b'"' ∷ (e.behind ++ rest))))

-- The members with commas between them.
unfoldable pub members_text : List Member → Bytes
unfolding entry_text
members_text [] = []
members_text (e ∷ []) = entry_text e []
members_text (e ∷ f ∷ es) = entry_text e (b',' ∷ members_text (f ∷ es))

key_loop-before :
    (lead rest : Bytes) → Free b'"' lead → key_loop before (lead ++ rest) ≡ key_loop before rest
unfolding key_loop key_step
key_loop-before [] rest h = refl
key_loop-before (c ∷ lead) rest h =
    let other : (c == b'"') ≡ false = ground (arith, h.0) in
    rw (key_step, other) (key_loop-before lead rest h.1)

key_loop-inside :
    (acc key rest : Bytes)
    → Free b'"' key
    → key_loop (inside acc) (key ++ (b'"' ∷ rest)) ≡ (acc ++ key) ∷ key_loop past_key rest
unfolding key_loop key_step
key_loop-inside acc [] rest h = ap (λ k. k ∷ key_loop past_key rest) (sym (append-nil acc))
key_loop-inside acc (c ∷ key) rest h =
    let other : (c == b'"') ≡ false = ground (arith, h.0) in
    rw (key_step, other)
      (key_loop-inside (acc ++ c ∷ []) key rest h.1
        ∙ ap (λ k. k ∷ key_loop past_key rest) (append_assoc acc (c ∷ []) key))

key_loop-past_key :
    (behind rest : Bytes)
    → Free b',' behind
    → key_loop past_key (behind ++ rest) ≡ key_loop past_key rest
unfolding key_loop key_step
key_loop-past_key [] rest h = refl
key_loop-past_key (c ∷ behind) rest h =
    let other : (c == b',') ≡ false = ground (arith, h.0) in
    rw (key_step, other) (key_loop-past_key behind rest h.1)

key_loop-quote : (rest : Bytes) → key_loop before (b'"' ∷ rest) ≡ key_loop (inside []) rest
unfolding key_loop key_step
key_loop-quote rest = refl

key_loop-comma : (rest : Bytes) → key_loop past_key (b',' ∷ rest) ≡ key_loop before rest
unfolding key_loop key_step
key_loop-comma rest = refl

key_loop-entry_text :
    (e : Member) (rest : Bytes)
    → IsMember e
    → key_loop before (entry_text e rest) ≡ e.key ∷ key_loop past_key rest
unfolding entry_text
key_loop-entry_text e rest h =
    key_loop-before e.lead (b'"' ∷ (e.key ++ (b'"' ∷ (e.behind ++ rest)))) h.lead_free
    ∙ key_loop-quote (e.key ++ (b'"' ∷ (e.behind ++ rest)))
    ∙ key_loop-inside [] e.key (e.behind ++ rest) h.key_free
    ∙ ap (λ ks. e.key ∷ ks) (key_loop-past_key e.behind rest h.behind_free)

-- The keys of the members.
abbrev pub keys_of : List Member → List Bytes
keys_of es = map (λ e. e.key) es

key_loop-members_text :
    (es : List Member) → All IsMember es → key_loop before (members_text es) ≡ keys_of es
unfolding members_text
key_loop-members_text [] h = unfold key_loop in refl
key_loop-members_text (e ∷ []) h = key_loop-entry_text e [] h.0 ∙ (unfold key_loop in refl)
key_loop-members_text (e ∷ f ∷ es) h =
    key_loop-entry_text e (b',' ∷ members_text (f ∷ es)) h.0
    ∙ ap (λ ks. e.key ∷ ks)
        (key_loop-comma (members_text (f ∷ es)) ∙ key_loop-members_text (f ∷ es) h.1)

key_loop-skip_opening : (p : Bytes) → key_loop before (skip_opening p) ≡ key_loop before p
unfolding skip_opening is_opening is_blank
key_loop-skip_opening [] = refl
key_loop-skip_opening (c ∷ p) = elim (Bool-cases (is_opening c)) [
  | inl opens ↦
      let other : (c == b'"') ≡ false = unfold is_opening is_blank in ground (arith, opens) in
      rw (skip_opening, opens)
        (key_loop-skip_opening p ∙ (unfold key_loop key_step in rw other refl))
  | inr shuts ↦ rw (skip_opening, shuts) refl
]

Free-entry_text :
    (e : Member) (rest : Bytes) → IsMember e → Free 0 rest → Free 0 (entry_text e rest)
unfolding entry_text
Free-entry_text e rest h clean =
    Free-append 0 e.lead (b'"' ∷ (e.key ++ (b'"' ∷ (e.behind ++ rest)))) h.lead_text (
      omega arith,
      Free-append 0 e.key (b'"' ∷ (e.behind ++ rest)) h.key_text
          (omega arith, Free-append 0 e.behind rest h.behind_text clean),
    )

Free-members_text : (es : List Member) → All IsMember es → Free 0 (members_text es)
unfolding members_text
Free-members_text [] h = tt
Free-members_text (e ∷ []) h = Free-entry_text e [] h.0 tt
Free-members_text (e ∷ f ∷ es) h =
    Free-entry_text e (b',' ∷ members_text (f ∷ es)) h.0
      (omega arith, Free-members_text (f ∷ es) h.1)

get_keys_set-members_text :
    (es : List Member) → All IsMember es → get_keys_set (members_text es) ≡ keys_of es
unfolding get_keys_set
get_keys_set-members_text es h =
    ap (λ p. key_loop before (skip_opening p)) (c_str-Free _ (Free-members_text es h))
    ∙ key_loop-skip_opening (members_text es)
    ∙ key_loop-members_text es h

in_set-In : (key : Bytes) (set : List Bytes) → in_set key set ≡ true → In key set
unfolding in_set
in_set-In key [] h = cc
in_set-In key (k ∷ set) h = elim (Bool-cases (eqb k key)) [
  | inl same ↦ inl (sym ((eqb_iff k key).0 same))
  | inr other ↦ inr (in_set-In key set (rw other at h))
]

In-in_set : (key : Bytes) (set : List Bytes) → In key set → in_set key set ≡ true
unfolding in_set
In-in_set key [] h = absurd h
In-in_set key (k ∷ set) (inl same) = rw ((eqb_iff k key).1 (sym same)) refl
In-in_set key (k ∷ set) (inr later) = elim (Bool-cases (eqb k key)) [
  | inl same ↦ rw same refl
  | inr other ↦ rw other (In-in_set key set later)
]

-- Some text is in both lists.
abbrev pub Shared : List Bytes → List Bytes → Type 0
Shared ks set = (k : Bytes) × In k ks × In k set

any_in-Shared : (ks set : List Bytes) → any_in ks set ≡ true → Shared ks set
unfolding any_in
any_in-Shared [] set h = cc
any_in-Shared (k ∷ ks) set h = elim (Bool-cases (in_set k set)) [
  | inl here ↦ (k, inl refl, in_set-In k set here)
  | inr absent ↦
      let (j, there, both) = any_in-Shared ks set (rw absent at h) in (j, inr there, both)
]

Shared-any_in : (ks set : List Bytes) → Shared ks set → any_in ks set ≡ true
unfolding any_in
Shared-any_in [] set (k, there, both) = absurd there
Shared-any_in (k ∷ ks) set (j, inl same, both) =
    rw (In-in_set k set (subst (λ x. In x set) same both)) refl
Shared-any_in (k ∷ ks) set (j, inr later, both) = elim (Bool-cases (in_set k set)) [
  | inl here ↦ rw here refl
  | inr absent ↦ rw absent (Shared-any_in ks set (j, later, both))
]

has_dup_names-keys_of :
    (es1 es2 : List Member)
    → All IsMember es1
    → All IsMember es2
    → has_dup_names (members_text es1) (members_text es2) ≡ any_in (keys_of es2) (keys_of es1)
has_dup_names-keys_of es1 es2 h1 h2 =
    has_dup_names-any_in (members_text es1) (members_text es2)
    ∙ ap (λ ks. any_in ks (get_keys_set (members_text es1))) (get_keys_set-members_text es2 h2)
    ∙ ap (any_in (keys_of es2)) (get_keys_set-members_text es1 h1)

-- For two texts of tokens whose members are separated by commas, in which no key has a quote and
-- nothing else before a key has one, and in which no comma stands between a key and the end of its
-- member: the test for duplicate names says yes exactly when some key of the second text, such as
-- "name", is also a key of the first. What stands behind the keys, the names of the tokens among it, does
-- not count.
pub has_dup_names-Shared :
    (es1 es2 : List Member)
    → All IsMember es1
    → All IsMember es2
    → (has_dup_names (members_text es1) (members_text es2) ≡ true
        → Shared (keys_of es2) (keys_of es1))
      × (Shared (keys_of es2) (keys_of es1)
          → has_dup_names (members_text es1) (members_text es2) ≡ true)
has_dup_names-Shared es1 es2 h1 h2 =
    let same = has_dup_names-keys_of es1 es2 h1 h2 in
    (
      λ yes. any_in-Shared (keys_of es2) (keys_of es1) (sym same ∙ yes),
      λ shared. same ∙ Shared-any_in (keys_of es2) (keys_of es1) shared,
    )
