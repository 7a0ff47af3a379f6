-- ===== src/Base/Dict.antt =====
-- `std::unordered_map` with string keys, as an association list behind its laws. The program
-- iterates over a map only in clean-up loops, so the order of entries is not modelled.
use mathlib.Core.Path.{◌≡◌, refl}
use mathlib.Core.Option.{Option, none, some}
use mathlib.Core.List.{List, [], ◌∷◌}
use native.Mathlib.Omega.{arith}
use omicro.Base.Tests.{if◌then◌else◌}
use omicro.Base.Text.{Bytes, eqb, eqb_iff}

abbrev pub Dict {ℓ} : Type ℓ → Type ℓ
Dict V = List (Bytes × V)

module _ {ℓ} {V : Type ℓ} where
  unfoldable pub empty : Dict V
  empty = []

  unfoldable pub find : Bytes → Dict V → Option V
  find k [] = none
  find k ((j, v) ∷ m) = if eqb j k then some v else find k m

  -- `map[k] = v`, and the write through an iterator.
  unfoldable pub assign : Bytes → V → Dict V → Dict V
  assign k v [] = (k, v) ∷ []
  assign k v ((j, w) ∷ m) = if eqb j k then (k, v) ∷ m else (j, w) ∷ assign k v m

  unfoldable pub erase : Bytes → Dict V → Dict V
  erase k [] = []
  erase k ((j, v) ∷ m) = let rest = erase k m in if eqb j k then rest else (j, v) ∷ rest

  -- `emplace` leaves an entry that is there.
  unfoldable pub emplace : Bytes → V → Dict V → Dict V
  emplace k v m = elim (find k m) [ none ↦ assign k v m | some w ↦ m ]

  pub find-empty : (k : Bytes) → find k empty ≡ none
  unfolding find empty
  find-empty k = refl

  pub find-assign :
      (k j : Bytes) (v : V) (m : Dict V)
      → find j (assign k v m) ≡ (if eqb k j then some v else find j m)
  unfolding find assign
  find-assign k j v [] = refl
  find-assign k j v ((i, w) ∷ m) =
      ground (arith, eqb_iff k j, eqb_iff i k, eqb_iff i j, find-assign k j v m)

  pub find-erase :
      (k j : Bytes) (m : Dict V) → find j (erase k m) ≡ (if eqb k j then none else find j m)
  unfolding find erase
  find-erase k j [] = ground arith
  find-erase k j ((i, w) ∷ m) =
      ground (arith, eqb_iff k j, eqb_iff i k, eqb_iff i j, find-erase k j m)

  abbrev pub or_else : Option V → V → V
  or_else none v = v
  or_else (some w) v = w

  pub find-emplace :
      (k j : Bytes) (v : V) (m : Dict V)
      → find j (emplace k v m) ≡ (if eqb k j then some (or_else (find k m) v) else find j m)
  unfolding emplace
  find-emplace k j v m = ground (arith, eqb_iff k j, find-assign k j v m)

pub ruleset dict_laws = (find-empty, find-assign, find-erase, find-emplace)
