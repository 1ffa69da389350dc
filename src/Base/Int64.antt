-- ===== src/Base/Int64.antt =====
-- Go's int64: the integers that fit, and what arithmetic that leaves them wraps around to.
use Prim.Native.Nat.{ℕ, ◌+◌, ◌-◌, ◌%◌, ◌^◌, ◌<◌, ◌≤◌}
use nexo_im.Base.Tests.{ltb, if◌then◌else◌}
use nexo_im.Base.Int.{ℤ, pos, negsuc, pos_part, neg_part}

abbrev pub int64_cutoff : ℕ
int64_cutoff = 2 ^ 63

-- The range of int64.
abbrev pub IsInt64 : ℤ → Type 0
IsInt64 n = (pos_part n < int64_cutoff) × (neg_part n ≤ int64_cutoff)

abbrev of_word : ℕ → ℤ
of_word r = if ltb r int64_cutoff then pos r else negsuc (2 ^ 64 - 1 - r)

unfoldable pub wrap64 : ℤ → ℤ
wrap64 n = of_word ((pos_part n + (2 ^ 64 - neg_part n % 2 ^ 64)) % 2 ^ 64)
