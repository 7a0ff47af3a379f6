-- ===== src/Circuit/Leaders.antt =====
-- src/dynamiccircuit.cc: who leads a zone. The leader is the first node of the zone in the list;
-- `getZoneLeaders`, `isLeader` and `getLeader` agree on it.
use mathlib.Core.List.{append_assoc, append-nil}
use omicro.Base.{
  ℕ, ◌<◌, ◌≡◌, ◌≢◌, refl, ◌∙◌, Bool, true, false, Option, none, some, List, [], ◌∷◌, ◌++◌, arith,
  ◌==◌, ltb, if◌then◌else◌, Bytes, eqb, length, get_or, replicate, All, length-set,
  length-replicate, get_or-set, get_or-replicate,
}
use omicro.Circuit.{
  Maths, zone_of, get_num_zones, offer, leaders_loop, get_zone_leaders, is_leader_loop, is_leader,
  get_leader_loop, get_leader,
}
use omicro.Circuit.Zones.{IsExact, zone_of-lt}

module _ (m : Maths) (nodes : List Bytes) (beacon : Bytes) where
  -- The first of the records that lies in the zone.
  unfoldable pub first_in : ℕ → List Bytes → Option Bytes
  first_in z [] = none
  first_in z (rec ∷ rest) = if zone_of m nodes beacon rec == z then some rec else first_in z rest

  -- The records of the zone, in order.
  unfoldable pub in_zone : ℕ → List Bytes → List Bytes
  in_zone z [] = []
  in_zone z (rec ∷ rest) =
      if zone_of m nodes beacon rec == z then rec ∷ in_zone z rest else in_zone z rest

  unfoldable pub leader_of : ℕ → Option Bytes
  leader_of z = first_in z nodes

  abbrev pub is_it : Option Bytes → Bytes → Bool
  is_it none srvid = false
  is_it (some rec) srvid = eqb srvid rec

  -- `srvid` is the first node of its zone.
  unfoldable pub leads : Bytes → Bool
  unfolding leader_of
  leads srvid = is_it (leader_of (zone_of m nodes beacon srvid)) srvid

  is_leader_loop-true :
      (z : ℕ) (srvid : Bytes) (rest fs : List Bytes)
      → is_leader_loop m nodes beacon z srvid true rest true fs ≡ (true, fs ++ in_zone z rest)
  unfolding is_leader_loop in_zone
  is_leader_loop-true z srvid [] fs = rw append-nil
  is_leader_loop-true z srvid (rec ∷ rest) fs = ground (
    arith,
    is_leader_loop-true z srvid rest fs,
    is_leader_loop-true z srvid rest (fs ++ rec ∷ []),
    append_assoc fs (rec ∷ []) (in_zone z rest),
  )

  abbrev pub tail_of : List Bytes → List Bytes
  tail_of [] = []
  tail_of (x ∷ xs) = xs

  is_leader_loop-first_in :
      (z : ℕ) (srvid : Bytes) (rest : List Bytes)
      → is_leader_loop m nodes beacon z srvid true rest false []
        ≡ (if is_it (first_in z rest) srvid then (true, tail_of (in_zone z rest)) else (false, []))
  unfolding is_leader_loop first_in in_zone
  is_leader_loop-first_in z srvid [] = refl
  is_leader_loop-first_in z srvid (rec ∷ rest) =
      ground (arith, is_leader_loop-first_in z srvid rest, is_leader_loop-true z srvid rest [])

  -- Without followers the flag is the same, and nothing is pushed.
  is_leader_loop-no_followers :
      (z : ℕ) (srvid : Bytes) (rest fs : List Bytes)
      → is_leader_loop m nodes beacon z srvid false rest true fs ≡ (true, fs)
  unfolding is_leader_loop
  is_leader_loop-no_followers z srvid [] fs = refl
  is_leader_loop-no_followers z srvid (rec ∷ rest) fs =
      ground (arith, is_leader_loop-no_followers z srvid rest fs)

  is_leader_loop-flag :
      (z : ℕ) (srvid : Bytes) (rest : List Bytes)
      → is_leader_loop m nodes beacon z srvid false rest false []
        ≡ (is_it (first_in z rest) srvid, [])
  unfolding is_leader_loop first_in
  is_leader_loop-flag z srvid [] = refl
  is_leader_loop-flag z srvid (rec ∷ rest) =
      ground (arith, is_leader_loop-flag z srvid rest, is_leader_loop-no_followers z srvid rest [])

  get_leader_loop-first_in :
      (z : ℕ) (srvid : Bytes) (rest : List Bytes)
      → get_leader_loop m nodes beacon z srvid rest ≡ (
        is_it (first_in z rest) srvid,
        elim (first_in z rest) [ none ↦ [] | some rec ↦ rec ∷ [] ],
      )
  unfolding get_leader_loop first_in
  get_leader_loop-first_in z srvid [] = refl
  get_leader_loop-first_in z srvid (rec ∷ rest) =
      ground (arith, get_leader_loop-first_in z srvid rest)

  -- A leader found before stays; an empty place takes the first node of the zone.
  abbrev pub place : Bytes → Option Bytes → Bytes
  place [] none = []
  place [] (some rec) = rec
  place (c ∷ r) o = c ∷ r

  abbrev InBounds : ℕ → List Bytes → Type 0
  InBounds n recs = All (λ rec. (rec ≢ []) × (zone_of m nodes beacon rec < n)) recs

  length-offer :
      (rec : Bytes) (leader : List Bytes) → length (offer m nodes beacon rec leader) ≡ length leader
  unfolding offer
  length-offer rec leader = ground (arith, length-set leader (zone_of m nodes beacon rec) rec)

  place_empty : (r rec : Bytes) → place r (some rec) ≡ (if ltb (length r) 1 then rec else r)
  place_empty [] rec = refl
  place_empty (c ∷ r) rec = ground arith

  get_or-offer :
      (rec : Bytes) (leader : List Bytes) (z : ℕ)
      → zone_of m nodes beacon rec < length leader
      → get_or (offer m nodes beacon rec leader) z [] ≡ (
          if zone_of m nodes beacon rec == z
          then place (get_or leader z []) (some rec)
          else get_or leader z [])
  unfolding offer
  get_or-offer rec leader z h = ground (
    arith,
    get_or-set leader (zone_of m nodes beacon rec) z rec [] h,
    place_empty (get_or leader z []) rec,
  )

  place-place :
      (r rec : Bytes) (o : Option Bytes)
      → rec ≢ []
      → place (place r (some rec)) o ≡ place r (some rec)
  place-place [] [] o h = absurd (h refl)
  place-place [] (c ∷ rec) o h = refl
  place-place (c ∷ r) rec o h = refl

  get_or-leaders_loop :
      (rest leader : List Bytes) (z : ℕ)
      → InBounds (length leader) rest
      → get_or (leaders_loop m nodes beacon rest leader) z []
        ≡ place (get_or leader z []) (first_in z rest)
  unfolding leaders_loop first_in
  get_or-leaders_loop [] leader z h = place_none (get_or leader z [])
    where
      place_none : (r : Bytes) → r ≡ place r none
      place_none [] = refl
      place_none (c ∷ r) = refl
  get_or-leaders_loop (rec ∷ rest) leader z h = ground (
    arith,
    get_or-leaders_loop rest (offer m nodes beacon rec leader) z (rw (length-offer rec leader) h.1),
    get_or-offer rec leader z h.0.1,
    place-place (get_or leader z []) rec (first_in z rest) h.0.0,
  )

  -- The three functions over the whole list, by the first node of a zone.
  pub is_leader-leads :
      (srvid : Bytes)
      → is_leader m nodes beacon srvid true ≡ (
          if leads srvid
          then (true, tail_of (in_zone (zone_of m nodes beacon srvid) nodes))
          else (false, []))
  unfolding is_leader leads
  is_leader-leads srvid = is_leader_loop-first_in (zone_of m nodes beacon srvid) srvid nodes

  pub is_leader-flag : (srvid : Bytes) → is_leader m nodes beacon srvid false ≡ (leads srvid, [])
  unfolding is_leader leads
  is_leader-flag srvid = is_leader_loop-flag (zone_of m nodes beacon srvid) srvid nodes

  pub get_leader-leads :
      (srvid : Bytes)
      → get_leader m nodes beacon srvid ≡ (
        leads srvid,
        elim (leader_of (zone_of m nodes beacon srvid)) [ none ↦ [] | some rec ↦ rec ∷ [] ],
      )
  unfolding get_leader leads
  get_leader-leads srvid = get_leader_loop-first_in (zone_of m nodes beacon srvid) srvid nodes

  All-InBounds :
      IsExact m
      → 0 < length nodes
      → (recs : List Bytes) → All (λ rec. rec ≢ []) recs
      → InBounds (get_num_zones m nodes) recs
  All-InBounds exact nonempty [] h = tt
  All-InBounds exact nonempty (rec ∷ rest) h =
      ((h.0, zone_of-lt m nodes exact nonempty beacon rec), All-InBounds exact nonempty rest h.1)

  pub get_or-get_zone_leaders :
      (z : ℕ)
      → IsExact m
      → 0 < length nodes
      → All (λ rec. rec ≢ []) nodes
      → get_or (get_zone_leaders m nodes beacon) z [] ≡ place [] (leader_of z)
  unfolding get_zone_leaders leader_of
  get_or-get_zone_leaders z exact nonempty h =
      let zones : ℕ = get_num_zones m nodes in
      get_or-leaders_loop nodes (replicate zones []) z
        (rw (length-replicate {A = Bytes} zones []) (All-InBounds exact nonempty nodes h))
      ∙ rw (get_or-replicate {A = Bytes} zones z []) refl
