-- ===== src/Circuit/Members.antt =====
-- src/dynamiccircuit.cc: which nodes the leaders and their followers cover, and what the two
-- functions that look at other zones report.
use omicro.Base.{
  ℕ, ◌<◌, ◌≡◌, ◌≢◌, ◌⊎◌, inl, inr, refl, sym, ap, ◌∙◌, Bool, true, false, Option, none, some, List,
  [], ◌∷◌, arith, ◌==◌, ==_iff, ==_refl, Bool-cases, Bytes, eqb, eqb_iff, eqb_refl, length, get_or,
  All, In,
}
use omicro.Circuit.{Maths, zone_of, get_zone_leaders, is_leader, get_leader}
use omicro.Circuit.Zones.{IsExact}
use omicro.Circuit.Leaders.{
  first_in, in_zone, leader_of, is_it, leads, tail_of, place, is_leader-leads, is_leader-flag,
  get_leader-leads, get_or-get_zone_leaders,
}

module _ (m : Maths) (nodes : List Bytes) (beacon : Bytes) where
  abbrev zone : Bytes → ℕ
  zone = zone_of m nodes beacon

  -- The entry of `getZoneLeaders` for the zone of a node.
  abbrev pub zone_leader : Bytes → Bytes
  zone_leader srvid = get_or (get_zone_leaders m nodes beacon) (zone srvid) []

  eqb-place :
      (o : Option Bytes) (srvid : Bytes)
      → srvid ≢ []
      → eqb srvid (place m nodes beacon [] o) ≡ is_it m nodes beacon o srvid
  eqb-place none srvid h = ground (arith, eqb_iff srvid [])
  eqb-place (some rec) srvid h = refl

  leads-eqb :
      (srvid : Bytes)
      → IsExact m
      → 0 < length nodes
      → All (λ rec. rec ≢ []) nodes
      → srvid ≢ []
      → leads m nodes beacon srvid ≡ eqb srvid (zone_leader srvid)
  leads-eqb srvid exact nonempty recs h =
      rw (get_or-get_zone_leaders m nodes beacon (zone srvid) exact nonempty recs)
        (unfold leads in sym (eqb-place (leader_of m nodes beacon (zone srvid)) srvid h))

  -- With exact roots, a node list that is not empty and no empty record or id: a node that asks
  -- `isLeader` or `getLeader` hears that it leads exactly when it is the entry of its own zone in the
  -- array of `getZoneLeaders`, with or without followers.
  pub leader_agreement :
      (srvid : Bytes) (get_followers : Bool)
      → IsExact m
      → 0 < length nodes
      → All (λ rec. rec ≢ []) nodes
      → srvid ≢ []
      → ((is_leader m nodes beacon srvid get_followers).0 ≡ eqb srvid (zone_leader srvid))
        × ((get_leader m nodes beacon srvid).0 ≡ eqb srvid (zone_leader srvid))
  leader_agreement srvid true exact nonempty recs h = ground (
    arith,
    leads-eqb srvid exact nonempty recs h,
    is_leader-leads m nodes beacon srvid,
    get_leader-leads m nodes beacon srvid,
  )
  leader_agreement srvid false exact nonempty recs h = ground (
    arith,
    leads-eqb srvid exact nonempty recs h,
    is_leader-flag m nodes beacon srvid,
    get_leader-leads m nodes beacon srvid,
  )

  In-in_zone :
      (x : Bytes) (rest : List Bytes) → In x rest → In x (in_zone m nodes beacon (zone x) rest)
  unfolding in_zone
  In-in_zone x [] h = h
  In-in_zone x (rec ∷ rest) (inl e) =
      let same : (zone rec == zone x) ≡ true = rw e (==_refl (zone rec)) in rw same (inl e)
  In-in_zone x (rec ∷ rest) (inr i) = elim (Bool-cases (zone rec == zone x)) [
    | inl same ↦ rw same (inr (In-in_zone x rest i))
    | inr other ↦ rw other (In-in_zone x rest i)
  ]

  -- A zone has no node, or its first one and the others.
  data ZoneCases (z : ℕ) (recs : List Bytes) : Type 0 where
    no_node : in_zone m nodes beacon z recs ≡ [] → ZoneCases z recs
    led_by :
        (l : Bytes)
        → first_in m nodes beacon z recs ≡ some l
        → in_zone m nodes beacon z recs ≡ l ∷ tail_of m nodes beacon (in_zone m nodes beacon z recs)
        → zone l ≡ z
        → ZoneCases z recs

  ZoneCases-cons :
      (z : ℕ) (rec : Bytes) (rest : List Bytes) → ZoneCases z rest → ZoneCases z (rec ∷ rest)
  unfolding first_in in_zone
  ZoneCases-cons z rec rest c = elim (Bool-cases (zone rec == z)) [
    | inl here ↦ led_by rec (rw here) (rw here) ((==_iff (zone rec) z).0 here)
    | inr not_here ↦ elim c [
      | no_node e ↦ no_node (rw not_here e)
      | led_by l f t same ↦ led_by l (rw not_here f) (rw not_here t) same
    ]
  ]

  zone_cases : (z : ℕ) (recs : List Bytes) → ZoneCases z recs
  zone_cases z [] = no_node (unfold in_zone in refl)
  zone_cases z (rec ∷ rest) = ZoneCases-cons z rec rest (zone_cases z rest)

  leads_lem :
      (l : Bytes) (z : ℕ)
      → first_in m nodes beacon z nodes ≡ some l
      → zone l ≡ z
      → leads m nodes beacon l ≡ true
  unfolding leads
  leads_lem l z f same = rw (same, f) (eqb_refl l)

  -- With exact roots, a node list that is not empty and no empty record: the entry of a node's zone
  -- in the array of `getZoneLeaders` is told by `isLeader` that it leads, and every node of the list
  -- is that entry or among the followers that it collects.
  pub every_node_reached :
      (x : Bytes)
      → IsExact m
      → 0 < length nodes
      → All (λ rec. rec ≢ []) nodes
      → In x nodes
      → ((is_leader m nodes beacon (zone_leader x) true).0 ≡ true)
        × ((x ≡ zone_leader x) ⊎ In x (is_leader m nodes beacon (zone_leader x) true).1)
  every_node_reached x exact nonempty recs i = elim (zone_cases (zone x) nodes) [
    | no_node e ↦ absurd (rw e at (In-in_zone x nodes i))
    | led_by l f t same ↦
        let le : zone_leader x ≡ l =
          get_or-get_zone_leaders m nodes beacon (zone x) exact nonempty recs
          ∙ unfold leader_of in ap (place m nodes beacon []) f in
        let leading : is_leader m nodes beacon l true
            ≡ (true, tail_of m nodes beacon (in_zone m nodes beacon (zone x) nodes)) =
          is_leader-leads m nodes beacon l ∙ rw (leads_lem l (zone x) f same, same) refl in
        rw (le, leading) (refl, rw t at (In-in_zone x nodes i))
  ]
