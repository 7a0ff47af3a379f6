-- ===== src/Circuit.antt =====
-- src/dynamiccircuit.h and src/dynamiccircuit.cc: how a beacon divides the nodes into zones, and who
-- leads them. The node list is not empty (the source divides by zero on an empty one), and it has
-- fewer than 2^31 nodes. `XXH64`, `atoi`, `int(sqrt(n))` and `int(cbrt(n))` are arguments.
pub mod Zones
pub mod Leaders
pub mod Members
pub mod Others
pub mod Tests
use omicro.Base.{
  ℕ, ◌+◌, ◌*◌, ◌/◌, ◌%◌, Bool, true, false, ◌&&◌, List, [], ◌∷◌, ◌++◌, ◌==◌, ltb, if◌then◌else◌,
  Bytes, eqb, length, get_or, set, replicate,
}
use omicro.NodeList.{get_level}

-- The library functions that the source calls.
pub record Maths : Type 0 where
  pub xxh64 : Bytes → ℕ → ℕ
  pub atoi : Bytes → ℕ
  pub int_sqrt : ℕ → ℕ
  pub int_cbrt : ℕ → ℕ

-- The variables of the loop of `getOtherLeadersAndThisFollowers`.
record Scan : Type 0 where
  id_is_leader : Bool
  first : Bool
  leader : List Bytes
  followers : List Bytes

module _ (m : Maths) (nodes : List Bytes) where
  open m use {xxh64, atoi, int_sqrt, int_cbrt}

  unfoldable pub get_num_zones : ℕ
  get_num_zones =
      let nlen = length nodes in
      if get_level nodes == 2
      then (let r = int_sqrt nlen in if ltb (r * r) nlen then r + 1 else r)
      else (let r = int_cbrt nlen in if ltb (r * r * r) nlen then r + 1 else r)

  unfoldable pub get_num_full_zones : ℕ
  get_num_full_zones =
      if get_level nodes == 2 then int_sqrt (length nodes) else int_cbrt (length nodes)

  -- `XXH64(rec, size, seed) % len / dd`, which every loop below computes for each record.
  unfoldable pub zone_of : Bytes → Bytes → ℕ
  zone_of beacon rec =
      let dd = length nodes / get_num_full_zones in (xxh64 rec (atoi beacon) % length nodes) / dd

  -- `if (leader[zone].size() < 1) leader[zone] = rec;`
  offer : Bytes → Bytes → List Bytes → List Bytes
  offer beacon rec leader =
      let zone = zone_of beacon rec in
      if ltb (length (get_or leader zone [])) 1 then set leader zone rec else leader

  leaders_loop : Bytes → List Bytes → List Bytes → List Bytes
  leaders_loop beacon [] leader = leader
  leaders_loop beacon (rec ∷ rest) leader = leaders_loop beacon rest (offer beacon rec leader)

  -- `getZoneLeaders` and `getLeaders`: one entry for each zone, empty for a zone with no node.
  unfoldable pub get_zone_leaders : Bytes → List Bytes
  unfolding leaders_loop offer
  get_zone_leaders beacon = leaders_loop beacon nodes (replicate get_num_zones [])

  -- The loop of `isLeader` over the records left, with its flag and the followers pushed so far. It
  -- returns early at the first record of the zone, if that is not `srvid`.
  is_leader_loop : Bytes → ℕ → Bytes → Bool → List Bytes → Bool → List Bytes → Bool × List Bytes
  is_leader_loop beacon zoneid srvid get_followers [] is_leader followers = (is_leader, followers)
  is_leader_loop beacon zoneid srvid get_followers (rec ∷ rest) is_leader followers =
      elim (zone_of beacon rec == zoneid) [
        | false ↦ is_leader_loop beacon zoneid srvid get_followers rest is_leader followers
        | true ↦ elim is_leader [
          | false ↦ elim (eqb srvid rec) [
            | false ↦ (false, followers)
            | true ↦ is_leader_loop beacon zoneid srvid get_followers rest true followers
          ]
          | true ↦
              is_leader_loop beacon zoneid srvid get_followers rest true
                (if get_followers then followers ++ rec ∷ [] else followers)
        ]
      ]

  -- The flag that it returns, and the followers that it pushes.
  unfoldable pub is_leader : Bytes → Bytes → Bool → Bool × List Bytes
  unfolding is_leader_loop
  is_leader beacon srvid get_followers =
      is_leader_loop beacon (zone_of beacon srvid) srvid get_followers nodes false []

  -- The records of the array that are not empty.
  filled : List Bytes → List Bytes
  filled [] = []
  filled (r ∷ rest) = if ltb 0 (length r) then r ∷ filled rest else filled rest

  -- The loop of `getOtherLeaders`: `id_is_leader`, `first` and `leader`.
  other_leaders_loop : Bytes → ℕ → Bytes → List Bytes → Bool → Bool → List Bytes → Bool × List Bytes
  unfolding offer
  other_leaders_loop beacon zoneid srvid [] id_is_leader first leader = (id_is_leader, leader)
  other_leaders_loop beacon zoneid srvid (rec ∷ rest) id_is_leader first leader =
      elim (zone_of beacon rec == zoneid) [
        | true ↦ elim (first && eqb rec srvid) [
          | true ↦ other_leaders_loop beacon zoneid srvid rest true false leader
          | false ↦ other_leaders_loop beacon zoneid srvid rest id_is_leader first leader
        ]
        | false ↦
            other_leaders_loop beacon zoneid srvid rest id_is_leader first (offer beacon rec leader)
      ]

  unfoldable pub get_other_leaders : Bytes → Bytes → Bool × List Bytes
  unfolding other_leaders_loop filled
  get_other_leaders beacon srvid =
      let (id_is_leader, leader) =
        other_leaders_loop beacon (zone_of beacon srvid) srvid nodes false true
          (replicate get_num_zones []) in
      (id_is_leader, filled leader)

  -- One round of the loop of `getOtherLeadersAndThisFollowers`.
  scan_step : Bytes → ℕ → Bytes → Scan → Bytes → Scan
  unfolding offer
  scan_step beacon zoneid srvid s rec =
      if zoneid == zone_of beacon rec
      then record s {
        id_is_leader = if s.first && eqb srvid rec then true else s.id_is_leader;
        first = if s.first && eqb srvid rec then false else s.first;
        followers = if eqb srvid rec then s.followers else s.followers ++ rec ∷ [];
      }
      else record s { leader = offer beacon rec s.leader }

  scan_loop : Bytes → ℕ → Bytes → List Bytes → Scan → Scan
  unfolding scan_step
  scan_loop beacon zoneid srvid [] s = s
  scan_loop beacon zoneid srvid (rec ∷ rest) s =
      scan_loop beacon zoneid srvid rest (scan_step beacon zoneid srvid s rec)

  -- The flag, the other leaders and the followers.
  unfoldable pub get_other_leaders_and_this_followers :
      Bytes → Bytes → Bool × List Bytes × List Bytes
  unfolding scan_loop filled
  get_other_leaders_and_this_followers beacon srvid =
      let s = scan_loop beacon (zone_of beacon srvid) srvid nodes (record {
        id_is_leader = false;
        first = true;
        leader = replicate get_num_zones [];
        followers = [];
      }) in
      (s.id_is_leader, filled s.leader, s.followers)

  -- The loop of `getLeader` breaks at the first record of the zone.
  get_leader_loop : Bytes → ℕ → Bytes → List Bytes → Bool × List Bytes
  get_leader_loop beacon zoneid srvid [] = (false, [])
  get_leader_loop beacon zoneid srvid (rec ∷ rest) =
      if zoneid == zone_of beacon rec
      then (eqb srvid rec, rec ∷ [])
      else get_leader_loop beacon zoneid srvid rest

  unfoldable pub get_leader : Bytes → Bytes → Bool × List Bytes
  unfolding get_leader_loop
  get_leader beacon srvid = get_leader_loop beacon (zone_of beacon srvid) srvid nodes
