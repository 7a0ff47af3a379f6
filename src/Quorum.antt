-- ===== src/Quorum.antt =====
-- src/omutil.cc, `onefplus1`, `twofplus1` and `ipow`. `(N-1)/3` on an `int` is 0 at N = 0, as it
-- is here; a size is below 2^31. A `ulong` wraps at 2^64.
pub mod Overlap
use omicro.Base.{ℕ, zero, suc, ◌+◌, ◌-◌, ◌*◌, ◌/◌, ◌%◌, ◌^◌}

unfoldable pub onefplus1 : ℕ → ℕ
onefplus1 n = let f = (n - 1) / 3 in f + 1

unfoldable pub twofplus1 : ℕ → ℕ
twofplus1 n = let f = (n - 1) / 3 in 2 * f + 1

-- The loop `res *= num`, over the rounds left.
ipow_loop : ℕ → ℕ → ℕ → ℕ
ipow_loop num zero res = res
ipow_loop num (suc rounds) res = ipow_loop num rounds (res * num % 2 ^ 64)

unfoldable pub ipow : ℕ → ℕ → ℕ
unfolding ipow_loop
ipow num power = ipow_loop num power 1
