-- ===== src/Circuit/Zones.antt =====
-- src/dynamiccircuit.cc: the sizes of zones, and that every zone number indexes the array of leaders.
use omicro.Base.{
  ℕ, zero, suc, ◌+◌, ◌*◌, ◌/◌, ◌%◌, ◌≤◌, ◌<◌, ◌≡◌, inl, inr, List, arith, ◌==◌, ltb, if◌then◌else◌,
  Bool-cases, Bytes, length, tests, ltb→le,
}
use native.Mathlib.Nat.{le-div_iff_mul-le, div-lt_iff_lt-mul, div-add-mod', mod-lt, mul-mod_left}
use omicro.NodeList.{get_level}
use omicro.Circuit.{Maths, get_num_zones, get_num_full_zones, zone_of}

-- What `int(sqrt(n))` and `int(cbrt(n))` are for: the roots rounded down.
pub record IsExact (m : Maths) : Type 0 where
  pub sqrt_le : (n : ℕ) → m.int_sqrt n * m.int_sqrt n ≤ n
  pub sqrt_lt : (n : ℕ) → n < (m.int_sqrt n + 1) * (m.int_sqrt n + 1)
  pub cbrt_le : (n : ℕ) → m.int_cbrt n * m.int_cbrt n * m.int_cbrt n ≤ n
  pub cbrt_lt : (n : ℕ) → n < (m.int_cbrt n + 1) * (m.int_cbrt n + 1) * (m.int_cbrt n + 1)

-- A zone of `n / r` nodes has at least `r` of them.
zone_size : (n r : ℕ) → 0 < r → r * r ≤ n → r ≤ n / r
zone_size n r p q = (le-div_iff_mul-le p).1 q

-- A hash below `n` in zones of `n / r` nodes: the zone number is at most `r`, and below `r` if the
-- zones fill the list.
zone_le : (n r h : ℕ) → 0 < r → r * r ≤ n → h < n → h / (n / r) < r + 1
zone_le n r h p q lt =
    (div-lt_iff_lt-mul (omega (arith, zone_size n r p q))).1
      (omega (arith, zone_size n r p q, div-add-mod' n r, mod-lt n p))

zone_lt : (n r h : ℕ) → 0 < r → r * r ≤ n → n % r ≡ 0 → h < n → h / (n / r) < r
zone_lt n r h p q e lt =
    (div-lt_iff_lt-mul (omega (arith, zone_size n r p q))).1 (omega (arith, div-add-mod' n r))

square_mod : (r : ℕ) → r * r % r ≡ 0
square_mod r = mul-mod_left r r

root_pos : (n r : ℕ) → 0 < n → n < (r + 1) * (r + 1) → 0 < r
root_pos n zero p q = omega arith
root_pos n (suc r) p q = omega arith

cube_root_pos : (n r : ℕ) → 0 < n → n < (r + 1) * (r + 1) * (r + 1) → 0 < r
cube_root_pos n zero p q = omega arith
cube_root_pos n (suc r) p q = omega arith

square_le_cube : (r : ℕ) → 0 < r → r * r ≤ r * r * r
square_le_cube r p = grind arith

-- Zone numbers at level 2, where `r` is the square root rounded down.
square_zones :
    (n r h : ℕ) → 0 < r → r * r ≤ n → h < n → h / (n / r) < (if ltb (r * r) n then r + 1 else r)
square_zones n r h p le lt = elim (Bool-cases (ltb (r * r) n)) [
  | inl more ↦ rw more (zone_le n r h p le lt)
  | inr full ↦
      let e : n ≡ r * r = omega (tests, ltb→le (r * r) n full) in
      rw full (zone_lt n r h p le (rw e (square_mod r)) lt)
]

-- Zone numbers at level 3, where `r` is the cube root rounded down.
cube_zones :
    (n r h : ℕ)
    → 0 < r
    → r * r * r ≤ n
    → h < n
    → h / (n / r) < (if ltb (r * r * r) n then r + 1 else r)
cube_zones n r h p le lt =
    let le2 : r * r ≤ n = omega (arith, square_le_cube r p) in
    elim (Bool-cases (ltb (r * r * r) n)) [
      | inl more ↦ rw more (zone_le n r h p le2 lt)
      | inr full ↦
          let e : n ≡ r * r * r = omega (tests, ltb→le (r * r * r) n full) in
          rw full (zone_lt n r h p le2 (rw e (mul-mod_left (r * r) r)) lt)
    ]

-- With exact roots and a node list that is not empty, at either level and for any beacon and record,
-- the zone number is below the number of zones: the arrays of leaders are never indexed out of
-- bounds.
pub zone_of-lt :
    (m : Maths) (nodes : List Bytes)
    → IsExact m
    → 0 < length nodes
    → (beacon rec : Bytes) → zone_of m nodes beacon rec < get_num_zones m nodes
unfolding zone_of get_num_zones get_num_full_zones
zone_of-lt m nodes exact nonempty beacon rec =
    let n : ℕ = length nodes in
    let lt : m.xxh64 rec (m.atoi beacon) % n < n = mod-lt _ nonempty in
    elim (Bool-cases (get_level nodes == 2)) [
      | inl two ↦ rw two (
          square_zones n (m.int_sqrt n) _ (root_pos n _ nonempty (exact.sqrt_lt n))
            (exact.sqrt_le n) lt)
      | inr three ↦ rw three (
          cube_zones n (m.int_cbrt n) _ (cube_root_pos n _ nonempty (exact.cbrt_lt n))
            (exact.cbrt_le n) lt)
    ]
