-- ===== src/StrSplit/Split.antt =====
-- src/omstrsplit.cc without `ignoreregion`: the tokens are the pieces between separators.
use omicro.Base.{
  ℕ, zero, suc, ◌+◌, ◌≡◌, ◌≢◌, refl, ap, ◌∙◌, ◌≤◌, inl, inr, Bool, false, List, [], ◌∷◌, ◌++◌,
  arith, ◌==◌, if◌then◌else◌, Bool-cases, Bytes, c_str, Free, All, length, get_or,
}
use omicro.Base.Int.{pos}
use omicro.StrSplit.{init, index, split_text, count_plain, fill}

-- A first byte put before the first piece.
abbrev pub cons_head : ℕ → List Bytes → List Bytes
cons_head c [] = (c ∷ []) ∷ []
cons_head c (t ∷ ts) = (c ∷ t) ∷ ts

-- The pieces of a text between its separators, one more than there are separators.
unfoldable pub split : ℕ → Bytes → List Bytes
split sep [] = [] ∷ []
split sep (c ∷ s) = if c == sep then [] ∷ split sep s else cons_head c (split sep s)

-- Pieces with a separator between each two.
unfoldable pub join : ℕ → List Bytes → Bytes
join sep [] = []
join sep (t ∷ []) = t
join sep (t ∷ u ∷ ts) = t ++ sep ∷ join sep (u ∷ ts)

separators : ℕ → Bytes → ℕ
separators sep [] = 0
separators sep (c ∷ s) = if c == sep then suc (separators sep s) else separators sep s

count_plain-separators : (sep : ℕ) (s : Bytes) (n : ℕ) → count_plain sep s n ≡ n + separators sep s
unfolding count_plain separators
count_plain-separators sep [] n = omega arith
count_plain-separators sep (c ∷ s) n =
    ground (arith, count_plain-separators sep s (n + 1), count_plain-separators sep s n)

fill-split : (sep : ℕ) (s : Bytes) → fill sep false (suc (separators sep s)) s ≡ split sep s
unfolding fill split separators
fill-split sep [] = refl
fill-split sep (c ∷ s) = ground (arith, fill-split sep s)

split_text-split : (sep : ℕ) (s : Bytes) → s ≢ [] → split_text s sep false ≡ split sep s
unfolding split_text
split_text-split sep [] h = absurd (h refl)
split_text-split sep (c ∷ s) h =
    ap (λ (n : ℕ). fill sep false n (c ∷ s)) {y = suc (separators sep (c ∷ s))}
      (count_plain-separators sep (c ∷ s) 1 ∙ omega arith)
    ∙ fill-split sep (c ∷ s)

-- What `init` computes from a text, with no account of pointers or counts.
pub init-split :
    (sep : ℕ) (s : Bytes) → c_str s ≢ [] → (init s sep false).list ≡ split sep (c_str s)
unfolding init
init-split sep s h = split_text-split sep (c_str s) h

split-ne-nil : (sep : ℕ) (s : Bytes) → split sep s ≢ []
unfolding split
split-ne-nil sep [] e = cc
split-ne-nil sep (c ∷ s) e = elim (Bool-cases (c == sep)) [
  | inl at ↦ cc (rw at at e)
  | inr not ↦ cons_head-ne-nil c (split sep s) (rw not at e)
]
  where
    cons_head-ne-nil : (c : ℕ) (ts : List Bytes) → cons_head c ts ≢ []
    cons_head-ne-nil c [] e = cc
    cons_head-ne-nil c (t ∷ ts) e = cc

join-nil : (sep : ℕ) (ts : List Bytes) → ts ≢ [] → join sep ([] ∷ ts) ≡ sep ∷ join sep ts
unfolding join
join-nil sep [] h = absurd (h refl)
join-nil sep (t ∷ ts) h = refl

join-cons_head :
    (sep c : ℕ) (ts : List Bytes) → ts ≢ [] → join sep (cons_head c ts) ≡ c ∷ join sep ts
unfolding join
join-cons_head sep c [] h = absurd (h refl)
join-cons_head sep c (t ∷ []) h = refl
join-cons_head sep c (t ∷ u ∷ ts) h = refl

-- No byte is lost or made up: the pieces put together again are the text.
pub join-split : (sep : ℕ) (s : Bytes) → join sep (split sep s) ≡ s
unfolding split
join-split sep [] = unfold join in refl
join-split sep (c ∷ s) = ground (
  arith,
  join-split sep s,
  join-nil sep (split sep s) (split-ne-nil sep s),
  join-cons_head sep c (split sep s) (split-ne-nil sep s),
)

cons_head-All :
    (sep c : ℕ) (ts : List Bytes) → c ≢ sep → All (Free sep) ts → All (Free sep) (cons_head c ts)
cons_head-All sep c [] h a = ((h, tt), tt)
cons_head-All sep c (t ∷ ts) h a = ((h, a.0), a.1)

pub split-Free : (sep : ℕ) (s : Bytes) → All (Free sep) (split sep s)
unfolding split
split-Free sep [] = (tt, tt)
split-Free sep (c ∷ s) = ground (arith, split-Free sep s, cons_head-All sep c (split sep s))

split-append_sep : (sep : ℕ) (t r : Bytes) → Free sep t → split sep (t ++ sep ∷ r) ≡ t ∷ split sep r
unfolding split
split-append_sep sep [] r h = ground arith
split-append_sep sep (c ∷ t) r h = ground (arith, split-append_sep sep t r h.1)

split-piece : (sep : ℕ) (t : Bytes) → Free sep t → split sep t ≡ t ∷ []
unfolding split
split-piece sep [] h = refl
split-piece sep (c ∷ t) h = ground (arith, split-piece sep t h.1)

-- Pieces without the separator survive being joined and split.
pub split-join :
    (sep : ℕ) (t : Bytes) (ts : List Bytes)
    → All (Free sep) (t ∷ ts)
    → split sep (join sep (t ∷ ts)) ≡ t ∷ ts
unfolding join
split-join sep t [] h = split-piece sep t h.0
split-join sep t (u ∷ ts) h =
    split-append_sep sep t (join sep (u ∷ ts)) h.0 ∙ ap (λ us. t ∷ us) (split-join sep u ts h.1)

get_or-nil : (ts : List Bytes) (k : ℕ) → length ts ≤ k → get_or ts k [] ≡ []
get_or-nil [] k h = refl
get_or-nil (t ∷ ts) zero h = absurd (omega arith)
get_or-nil (t ∷ ts) (suc k) h = get_or-nil ts k (omega arith)

-- Indexing a fresh object: the piece, or the empty string past the end.
pub index-init :
    (s : Bytes) (sep : ℕ) (r : Bool) (k : ℕ)
    → index (init s sep r) (pos k) ≡ get_or (init s sep r).list k []
unfolding index init
index-init s sep r k = ground (arith, get_or-nil (split_text (c_str s) sep r) k)

-- Without regions, from a text that is not empty, the object holds the pieces between separators:
-- no piece has a separator, and the pieces with a separator between each two are the text.
pub init-pieces :
    (s : Bytes) (sep : ℕ)
    → c_str s ≢ []
    → All (Free sep) (init s sep false).list × (join sep (init s sep false).list ≡ c_str s)
init-pieces s sep h = rw (init-split sep s h) (split-Free sep (c_str s), join-split sep (c_str s))
