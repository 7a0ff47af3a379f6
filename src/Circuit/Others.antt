-- ===== src/Circuit/Others.antt =====
-- src/dynamiccircuit.cc, `getOtherLeaders` and `getOtherLeadersAndThisFollowers`: what they report.
use mathlib.Core.List.{append_assoc, append-nil}
use omicro.Base.{
  ℕ, ◌<◌, ◌≡◌, ◌≢◌, ◌↔◌, inl, inr, refl, Bool, true, false, not, ◌||◌, List, [], ◌∷◌, ◌++◌, arith,
  ◌==◌, if◌then◌else◌, Bool-cases, Bytes, eqb, eqb_iff, length, replicate, All, In,
}
use omicro.Circuit.{
  Maths, Scan, zone_of, get_num_zones, get_other_leaders, offer,
  get_other_leaders_and_this_followers, scan_loop, scan_step, other_leaders_loop, is_leader,
}
use omicro.Circuit.Zones.{IsExact}
use omicro.Circuit.Leaders.{in_zone}
use omicro.Circuit.Members.{zone_leader, leader_agreement}

-- The node occurs among the records.
unfoldable pub occurs : Bytes → List Bytes → Bool
occurs x [] = false
occurs x (rec ∷ rest) = eqb x rec || occurs x rest

occurs-cons :
    (x rec : Bytes) (rest : List Bytes)
    → occurs x (rec ∷ rest) ≡ (if eqb x rec then true else occurs x rest)
unfolding occurs
occurs-cons x rec rest = ground arith

In-occurs : (x : Bytes) (recs : List Bytes) → In x recs → occurs x recs ≡ true
In-occurs x [] i = absurd i
In-occurs x (rec ∷ rest) (inl e) = rw (occurs-cons x rec rest, (eqb_iff x rec).1 e) refl
In-occurs x (rec ∷ rest) (inr i) = ground (arith, occurs-cons x rec rest, In-occurs x rest i)

occurs-In : (x : Bytes) (recs : List Bytes) → occurs x recs ≡ true → In x recs
occurs-In x [] h = unfold occurs in cc h
occurs-In x (rec ∷ rest) h = elim (Bool-cases (eqb x rec)) [
  | inl same ↦ inl ((eqb_iff x rec).0 same)
  | inr other ↦ inr (occurs-In x rest (rw (occurs-cons x rec rest, other) at h))
]

pub occurs_iff : (x : Bytes) (recs : List Bytes) → (occurs x recs ≡ true) ↔ In x recs
occurs_iff x recs = (occurs-In x recs, In-occurs x recs)

-- The records but one.
unfoldable pub others : Bytes → List Bytes → List Bytes
others x [] = []
others x (rec ∷ rest) = if eqb x rec then others x rest else rec ∷ others x rest

module _ (m : Maths) (nodes : List Bytes) (beacon : Bytes) (srvid : Bytes) where
  abbrev zone : Bytes → ℕ
  zone = zone_of m nodes beacon

  abbrev step : Scan → Bytes → Scan
  step = scan_step m nodes beacon (zone srvid) srvid

  -- The flag is raised at `srvid`, whether or not a node of the zone came before.
  scan_step-flag :
      (s : Scan) (rec : Bytes)
      → s.first ≡ not s.id_is_leader
      → ((step s rec).id_is_leader ≡ (s.id_is_leader || eqb srvid rec))
        × ((step s rec).first ≡ not (step s rec).id_is_leader)
  unfolding scan_step
  scan_step-flag s rec h = ground (arith, eqb_iff srvid rec)

  scan_loop-flag :
      (rest : List Bytes) (s : Scan)
      → s.first ≡ not s.id_is_leader
      → (scan_loop m nodes beacon (zone srvid) srvid rest s).id_is_leader
        ≡ (s.id_is_leader || occurs srvid rest)
  unfolding scan_loop occurs
  scan_loop-flag [] s h = ground arith
  scan_loop-flag (rec ∷ rest) s h = ground (
    arith,
    scan_loop-flag rest (step s rec) (scan_step-flag s rec h).1,
    (scan_step-flag s rec h).0,
  )

  scan_step-followers :
      (s : Scan) (rec : Bytes)
      → (step s rec).followers ≡ (
          if zone rec == zone srvid
          then (if eqb srvid rec then s.followers else s.followers ++ rec ∷ [])
          else s.followers)
  unfolding scan_step
  scan_step-followers s rec = ground arith

  scan_loop-followers :
      (rest : List Bytes) (s : Scan)
      → (scan_loop m nodes beacon (zone srvid) srvid rest s).followers
        ≡ s.followers ++ others srvid (in_zone m nodes beacon (zone srvid) rest)
  unfolding scan_loop others in_zone
  scan_loop-followers [] s = rw append-nil
  scan_loop-followers (rec ∷ rest) s = ground (
    arith,
    scan_loop-followers rest (step s rec),
    scan_step-followers s rec,
    append_assoc s.followers (rec ∷ []) (others srvid (in_zone m nodes beacon (zone srvid) rest)),
  )

  other_leaders_loop-flag :
      (rest leader : List Bytes) (b : Bool)
      → (other_leaders_loop m nodes beacon (zone srvid) srvid rest b (not b) leader).0
        ≡ (b || occurs srvid rest)
  unfolding other_leaders_loop occurs
  other_leaders_loop-flag [] leader b = ground arith
  other_leaders_loop-flag (rec ∷ rest) leader b = ground (
    arith,
    eqb_iff srvid rec,
    eqb_iff rec srvid,
    other_leaders_loop-flag rest leader b,
    other_leaders_loop-flag rest leader true,
    other_leaders_loop-flag rest (offer m nodes beacon rec leader) b,
  )

  -- The flag of both functions, commented "return true if id is a leader", is true exactly when the
  -- node is in the node list: every follower is told that it leads.
  pub other_leaders_flag :
      ((get_other_leaders m nodes beacon srvid).0 ≡ occurs srvid nodes)
      × ((get_other_leaders_and_this_followers m nodes beacon srvid).0 ≡ occurs srvid nodes)
  unfolding get_other_leaders get_other_leaders_and_this_followers
  other_leaders_flag = (
    other_leaders_loop-flag nodes (replicate (get_num_zones m nodes) []) false,
    scan_loop-flag nodes _ refl,
  )

  -- The followers that it returns are the nodes of the zone of `srvid` but `srvid` itself, in order.
  pub this_followers :
      (get_other_leaders_and_this_followers m nodes beacon srvid).2
      ≡ others srvid (in_zone m nodes beacon (zone srvid) nodes)
  unfolding get_other_leaders_and_this_followers
  this_followers = scan_loop-followers nodes _

module _ (m : Maths) (nodes : List Bytes) (beacon : Bytes) where
  -- With exact roots, a node list that is not empty and no empty record or id: every node of the
  -- list that is not the leader of its zone is told by `isLeader` that it does not lead, and by
  -- `getOtherLeadersAndThisFollowers` that it does.
  pub follower_told_to_lead :
      (srvid : Bytes)
      → IsExact m
      → All (λ rec. rec ≢ []) nodes
      → 0 < length nodes
      → srvid ≢ []
      → In srvid nodes
      → srvid ≢ zone_leader m nodes beacon srvid
      → ((is_leader m nodes beacon srvid false).0 ≡ false)
        × ((get_other_leaders_and_this_followers m nodes beacon srvid).0 ≡ true)
  follower_told_to_lead srvid exact recs nonempty h i not_leader = ground (
    arith,
    leader_agreement m nodes beacon srvid false exact nonempty recs h,
    other_leaders_flag m nodes beacon srvid,
    In-occurs srvid nodes i,
    eqb_iff srvid (zone_leader m nodes beacon srvid),
  )
