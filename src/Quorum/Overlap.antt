-- ===== src/Quorum/Overlap.antt =====
-- src/omutil.cc: when two sets of `twofplus1(N)` voters out of N must share a voter.
use omicro.Base.{
  ℕ, zero, suc, ◌+◌, ◌*◌, ◌≤◌, ◌<◌, ◌≡◌, ◌≢◌, ◌⊎◌, inl, inr, Bool, true, ◌&&◌, not, arith, ltb,
  if◌then◌else◌, Bool-cases,
}
use omicro.Quorum.{twofplus1}

-- How many of the voters 0, …, n - 1 are in the set.
unfoldable pub votes : (ℕ → Bool) → ℕ → ℕ
votes p zero = 0
votes p (suc n) = if p n then suc (votes p n) else votes p n

abbrev pub both : (ℕ → Bool) → (ℕ → Bool) → ℕ → Bool
both p q i = p i && q i

votes-both : (p q : ℕ → Bool) (n : ℕ) → votes p n + votes q n ≤ n + votes (both p q) n
unfolding votes
votes-both p q zero = omega arith
votes-both p q (suc n) = ground (arith, votes-both p q n)

voter :
    (p q : ℕ → Bool) (n : ℕ)
    → 0 < votes (both p q) n
    → (i : ℕ) × (i < n) × (p i ≡ true) × (q i ≡ true)
unfolding votes
voter p q zero h = absurd (omega arith)
voter p q (suc n) h = elim (Bool-cases (both p q n)) [
  | inl here ↦ (n, omega arith, ground arith, ground arith)
  | inr not_here ↦ let (i, lt, pi, qi) = voter p q n (ground arith) in (i, omega arith, pi, qi)
]

-- Any two sets that both reach the quorum overlap in at least `2 * twofplus1 n - n` voters.
pub overlap :
    (p q : ℕ → Bool) (n : ℕ)
    → twofplus1 n ≤ votes p n
    → twofplus1 n ≤ votes q n
    → 2 * twofplus1 n ≤ n + votes (both p q) n
overlap p q n hp hq = omega (arith, votes-both p q n)

-- In a group of any size but 2, 3 and 6, two sets that both reach the quorum share a voter.
pub quorums_meet :
    (p q : ℕ → Bool) (n : ℕ)
    → n ≢ 2
    → n ≢ 3
    → n ≢ 6
    → twofplus1 n ≤ votes p n
    → twofplus1 n ≤ votes q n
    → (i : ℕ) × (i < n) × (p i ≡ true) × (q i ≡ true)
unfolding twofplus1
quorums_meet p q n h2 h3 h6 hp hq = voter p q n (omega (arith, votes-both p q n))

-- A group of 3f + 1 voters has f + 1 voters in common to any two quorums.
pub overlap_3f_plus_1 :
    (p q : ℕ → Bool) (f : ℕ)
    → twofplus1 (3 * f + 1) ≤ votes p (3 * f + 1)
    → twofplus1 (3 * f + 1) ≤ votes q (3 * f + 1)
    → f + 1 ≤ votes (both p q) (3 * f + 1)
unfolding twofplus1
overlap_3f_plus_1 p q f hp hq = omega (arith, votes-both p q (3 * f + 1))

-- In a group of 2, 3 or 6, two sets with no voter in common both reach the quorum: the voters whose
-- number is below the quorum, and the others.
pub quorums_split :
    (n : ℕ)
    → (n ≡ 2) ⊎ ((n ≡ 3) ⊎ (n ≡ 6))
    → (twofplus1 n ≤ votes (λ i. ltb i (twofplus1 n)) n)
      × (twofplus1 n ≤ votes (λ i. not (ltb i (twofplus1 n))) n)
unfolding twofplus1 votes
quorums_split n h = ground arith
