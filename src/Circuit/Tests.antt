-- ===== src/Circuit/Tests.antt =====
-- src/dynamiccircuit.cc: a circuit of six nodes, and the roots that the zones are computed with.
use omicro.Base.{
  ℕ, zero, suc, ◌+◌, ◌*◌, ◌≤◌, ◌<◌, ◌≡◌, ◌≢◌, ◌⊎◌, inl, inr, refl, ◌∙◌, true, false, List, [], ◌∷◌,
  arith, leb, if◌then◌else◌, Bytes, codes, eqb, All, In, length, ap, get_or,
}
use omicro.Circuit.{
  Maths, zone_of, get_num_zones, get_num_full_zones, is_leader, get_leader, get_zone_leaders,
  get_other_leaders_and_this_followers,
}
use omicro.Circuit.Zones.{IsExact, zone_of-lt}
use omicro.Circuit.Members.{zone_leader, leader_agreement, every_node_reached}
use omicro.Circuit.Others.{follower_told_to_lead}

-- The greatest root up to a bound.
abbrev pub root2 : ℕ → ℕ → ℕ
root2 zero n = 0
root2 (suc r) n = let rest = root2 r n in if leb (suc r * suc r) n then suc r else rest

abbrev pub root3 : ℕ → ℕ → ℕ
root3 zero n = 0
root3 (suc r) n = let rest = root3 r n in if leb (suc r * suc r * suc r) n then suc r else rest

root2-le : (r n : ℕ) → root2 r n * root2 r n ≤ n
root2-le zero n = omega arith
root2-le (suc r) n = ground (arith, root2-le r n)

root2-lt : (r n : ℕ) → n < (r + 1) * (r + 1) → n < (root2 r n + 1) * (root2 r n + 1)
root2-lt zero n h = h
root2-lt (suc r) n h = ground (arith, root2-lt r n)

root3-le : (r n : ℕ) → root3 r n * root3 r n * root3 r n ≤ n
root3-le zero n = omega arith
root3-le (suc r) n = ground (arith, root3-le r n)

root3-lt :
    (r n : ℕ)
    → n < (r + 1) * (r + 1) * (r + 1)
    → n < (root3 r n + 1) * (root3 r n + 1) * (root3 r n + 1)
root3-lt zero n h = h
root3-lt (suc r) n h = ground (arith, root3-lt r n)

abbrev pub sum : Bytes → ℕ
sum [] = 0
sum (c ∷ s) = c + sum s

abbrev pub maths : Maths
maths = record {
  xxh64 = λ rec seed. sum rec + seed;
  atoi = sum;
  int_sqrt = λ n. root2 n n;
  int_cbrt = λ n. root3 n n;
}

maths-IsExact : IsExact maths
maths-IsExact = record {
  sqrt_le = λ n. root2-le n n;
  sqrt_lt = λ n. root2-lt n n (grind arith);
  cbrt_le = λ n. root3-le n n;
  cbrt_lt = λ n. root3-lt n n (grind arith);
}

abbrev pub node_a : Bytes
node_a = codes "ka|10.0.0.1|80"

abbrev pub node_b : Bytes
node_b = codes "kb|10.0.0.2|80"

abbrev pub node_c : Bytes
node_c = codes "kc|10.0.0.3|80"

abbrev pub node_d : Bytes
node_d = codes "kd|10.0.0.4|80"

abbrev pub nodes : List Bytes
nodes = node_a ∷ node_b ∷ node_c ∷ node_d ∷ []

abbrev pub beacon : Bytes
beacon = codes "1700000"

abbrev nonempty : 0 < length nodes
nonempty = omega arith

records : All (λ rec. rec ≢ []) nodes
records = (λ e. cc e, (λ e. cc e, (λ e. cc e, (λ e. cc e, tt))))

leader_of_c : zone_leader maths nodes beacon node_c ≡ node_a
unfolding get_zone_leaders zone_of get_num_zones get_num_full_zones omicro.NodeList.get_level
leader_of_c = refl

c_ne_a : node_c ≢ node_a
c_ne_a e = omega (arith, ap (λ (x : Bytes). get_or x 1 0) e)

follower_c : node_c ≢ zone_leader maths nodes beacon node_c
follower_c e = c_ne_a (e ∙ leader_of_c)

zone_of-lt_example : zone_of maths nodes beacon node_d < get_num_zones maths nodes
zone_of-lt_example = zone_of-lt maths nodes maths-IsExact nonempty beacon node_d

leader_agreement_example :
    ((is_leader maths nodes beacon node_a true).0
      ≡ eqb node_a (zone_leader maths nodes beacon node_a))
    × ((get_leader maths nodes beacon node_a).0
        ≡ eqb node_a (zone_leader maths nodes beacon node_a))
leader_agreement_example =
    leader_agreement maths nodes beacon node_a true maths-IsExact nonempty records (λ e. cc e)

every_node_reached_example :
    ((is_leader maths nodes beacon (zone_leader maths nodes beacon node_c) true).0 ≡ true)
    × ((node_c ≡ zone_leader maths nodes beacon node_c)
        ⊎ In node_c (is_leader maths nodes beacon (zone_leader maths nodes beacon node_c) true).1)
every_node_reached_example =
    every_node_reached maths nodes beacon node_c maths-IsExact nonempty records
      (inr (inr (inl refl)))

follower_told_to_lead_example :
    ((is_leader maths nodes beacon node_c false).0 ≡ false)
    × ((get_other_leaders_and_this_followers maths nodes beacon node_c).0 ≡ true)
follower_told_to_lead_example =
    follower_told_to_lead maths nodes beacon node_c maths-IsExact records nonempty (λ e. cc e)
      (inr (inr (inl refl))) follower_c

-- Two zones of two nodes each.
leaders_of_two_zones : get_zone_leaders maths nodes beacon ≡ node_a ∷ node_b ∷ []
unfolding get_zone_leaders zone_of get_num_zones get_num_full_zones omicro.NodeList.get_level
leaders_of_two_zones = refl

-- What the votes at the first node go by.
pub scan_of_a :
    get_other_leaders_and_this_followers maths nodes beacon node_a
    ≡ (true, node_b ∷ [], node_c ∷ [])
unfolding get_other_leaders_and_this_followers zone_of get_num_zones get_num_full_zones
    omicro.NodeList.get_level eqb
scan_of_a = refl
