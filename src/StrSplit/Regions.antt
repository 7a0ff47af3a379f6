-- ===== src/StrSplit/Regions.antt =====
-- src/omstrsplit.cc with `ignoreregion`: the counting pass and the filling pass agree, and the tokens
-- are the runs of bytes between regions of separators.
use mathlib.Core.List.{flatten}
use omicro.Base.{
  ℕ, suc, ◌+◌, ◌≡◌, ◌≢◌, refl, ap, ◌∙◌, Bool, true, false, List, [], ◌∷◌, arith, ◌==◌,
  if◌then◌else◌, Bytes, c_str, Free, All,
}
use omicro.StrSplit.{init, split_text, count_regions, fill, token, behind, skip}
use omicro.StrSplit.Split.{cons_head}

-- How many runs of other bytes begin behind a separator.
runs : ℕ → Bool → Bytes → ℕ
runs sep in_run [] = 0
runs sep true (c ∷ s) = if c == sep then runs sep true s else suc (runs sep false s)
runs sep false (c ∷ s) = if c == sep then runs sep true s else runs sep false s

count_regions-runs :
    (sep : ℕ) (b : Bool) (s : Bytes) (n : ℕ) → count_regions sep b s n ≡ n + runs sep b s
unfolding count_regions runs
count_regions-runs sep b [] n = omega arith
count_regions-runs sep true (c ∷ s) n =
    ground (arith, count_regions-runs sep true s n, count_regions-runs sep false s (n + 1))
count_regions-runs sep false (c ∷ s) n =
    ground (arith, count_regions-runs sep true s n, count_regions-runs sep false s n)

-- The runs of a text: `words` from a separator on, `word` from inside a run on.
mutual
  pub word : ℕ → Bytes → List Bytes
  word sep [] = [] ∷ []
  word sep (c ∷ s) = if c == sep then [] ∷ words sep s else cons_head c (word sep s)

  pub words : ℕ → Bytes → List Bytes
  words sep [] = []
  words sep (c ∷ s) = if c == sep then words sep s else cons_head c (word sep s)

mutual
  unfolding fill skip token behind runs word words

  fill-word : (sep : ℕ) (s : Bytes) → fill sep true (suc (runs sep false s)) s ≡ word sep s
  fill-word sep [] = refl
  fill-word sep (c ∷ s) = ground (arith, fill-word sep s, fill-words sep s)

  fill-words : (sep : ℕ) (s : Bytes) → fill sep true (runs sep true s) (skip sep s) ≡ words sep s
  fill-words sep [] = refl
  fill-words sep (c ∷ s) = ground (arith, fill-word sep s, fill-words sep s)

-- Every byte but the separators, in order.
unfoldable pub without : ℕ → Bytes → Bytes
without sep [] = []
without sep (c ∷ s) = if c == sep then without sep s else c ∷ without sep s

flatten-cons_head : (c : ℕ) (ts : List Bytes) → flatten (cons_head c ts) ≡ c ∷ flatten ts
unfolding flatten
flatten-cons_head c [] = refl
flatten-cons_head c (t ∷ ts) = refl

mutual
  unfolding word words without flatten

  flatten-word : (sep : ℕ) (s : Bytes) → flatten (word sep s) ≡ without sep s
  flatten-word sep [] = refl
  flatten-word sep (c ∷ s) =
      ground (arith, flatten-word sep s, flatten-words sep s, flatten-cons_head c (word sep s))

  flatten-words : (sep : ℕ) (s : Bytes) → flatten (words sep s) ≡ without sep s
  flatten-words sep [] = refl
  flatten-words sep (c ∷ s) =
      ground (arith, flatten-word sep s, flatten-words sep s, flatten-cons_head c (word sep s))

-- A token: not empty, and without the separator.
abbrev pub IsToken : ℕ → Bytes → Type 0
IsToken sep t = (t ≢ []) × Free sep t

-- The first piece of `word` may be empty; all others are tokens.
abbrev Piece : ℕ → List Bytes → Type 0
Piece sep [] = ⊥
Piece sep (t ∷ ts) = Free sep t × All (IsToken sep) ts

cons_head-IsToken :
    (sep c : ℕ) (ts : List Bytes) → c ≢ sep → Piece sep ts → All (IsToken sep) (cons_head c ts)
cons_head-IsToken sep c [] h p = absurd p
cons_head-IsToken sep c (t ∷ ts) h p = (((λ e. cc), (h, p.0)), p.1)

cons_head-Piece :
    (sep c : ℕ) (ts : List Bytes) → c ≢ sep → Piece sep ts → Piece sep (cons_head c ts)
cons_head-Piece sep c [] h p = absurd p
cons_head-Piece sep c (t ∷ ts) h p = ((h, p.0), p.1)

mutual
  unfolding word words

  word-Piece : (sep : ℕ) (s : Bytes) → Piece sep (word sep s)
  word-Piece sep [] = (tt, tt)
  word-Piece sep (c ∷ s) =
      ground (arith, word-Piece sep s, words-IsToken sep s, cons_head-Piece sep c (word sep s))

  words-IsToken : (sep : ℕ) (s : Bytes) → All (IsToken sep) (words sep s)
  words-IsToken sep [] = tt
  words-IsToken sep (c ∷ s) =
      ground (arith, word-Piece sep s, words-IsToken sep s, cons_head-IsToken sep c (word sep s))

-- `skip` stops at a byte that is no separator, or at the end.
skip-start :
    (sep : ℕ) (s : Bytes)
    → without sep s ≢ []
    → fill sep true (suc (runs sep false (skip sep s))) (skip sep s) ≡ words sep s
unfolding skip without word words
skip-start sep [] h = absurd (h refl)
skip-start sep (c ∷ s) h = ground (arith, skip-start sep s, fill-word sep (c ∷ s))

split_text-words : (sep : ℕ) (s : Bytes) → without sep s ≢ [] → split_text s sep true ≡ words sep s
unfolding split_text words
split_text-words sep [] h = refl
split_text-words sep (c ∷ s) h = rw (count_regions-runs sep false (skip sep (c ∷ s)) 1) (
    ap (λ (n : ℕ). fill sep true n (skip sep (c ∷ s))) {x = 1 + runs sep false (skip sep (c ∷ s))}
      {y = suc (runs sep false (skip sep (c ∷ s)))} (omega arith)
    ∙ skip-start sep (c ∷ s) h)

-- With regions ignored, a text that has any byte but separators gives tokens that are not empty,
-- hold no separator, and together hold every other byte in order.
pub init-IsToken :
    (s : Bytes) (sep : ℕ)
    → without sep (c_str s) ≢ []
    → All (IsToken sep) (init s sep true).list
      × (flatten (init s sep true).list ≡ without sep (c_str s))
unfolding init
init-IsToken s sep h =
    rw (split_text-words sep (c_str s) h) (words-IsToken sep (c_str s), flatten-words sep (c_str s))
