-- ===== src/Base/Int64.antt =====
-- Go's int64: the result of each operation is reduced modulo 2^64 into [-2^63, 2^63).
use Prim.Native.Nat.{ℕ, zero, suc, ◌-◌, ◌*◌, ◌%◌, ◌^◌, ◌<◌}
use mathlib.Core.Path.{◌≡◌}
use mathlib.Core.Logic.{◌⊎◌}
use native.Mathlib.Omega.{arith}
use genioai_wxmini_server.Base.Tests.{ltb, if◌then◌else◌}
use genioai_wxmini_server.Base.Int.{ℤ, pos, negsuc, ◌+ℤ◌, ◌-ℤ◌, ◌≤ℤ◌, ◌<ℤ◌, ltb_ℤ, eq_ℤ}

abbrev pub max_int64 : ℕ
max_int64 = 2 ^ 63 - 1

-- -(n + 1) is n with its bits flipped, so both signs reduce the magnitude the same way.
unfoldable pub wrap64 : ℤ → ℤ
wrap64 (pos n) = let m = n % 2 ^ 64 in if ltb m (2 ^ 63) then pos m else negsuc (2 ^ 64 - 1 - m)
wrap64 (negsuc n) = let m = n % 2 ^ 64 in if ltb m (2 ^ 63) then negsuc m else pos (2 ^ 64 - 1 - m)

-- The values that an int64 holds.
abbrev pub IsInt64 : ℤ → Type 0
IsInt64 (pos n) = n < 2 ^ 63
IsInt64 (negsuc n) = n < 2 ^ 63

unfoldable pub add64 : ℤ → ℤ → ℤ
add64 a b = wrap64 (a +ℤ b)

unfoldable pub sub64 : ℤ → ℤ → ℤ
sub64 a b = wrap64 (a -ℤ b)

-- `-x`
unfoldable pub neg64 : ℤ → ℤ
neg64 a = wrap64 (pos 0 -ℤ a)

-- `n++` for an int32.
abbrev pub inc32 : ℤ → ℤ
inc32 n = if eq_ℤ n (pos 2147483647) then negsuc 2147483647 else n +ℤ pos 1

-- A count times an int64.
abbrev pub scale : ℕ → ℤ → ℤ
scale zero a = pos 0
scale (suc n) (pos m) = pos (suc n * m)
scale (suc n) (negsuc m) = negsuc (suc n * suc m - 1)

unfoldable pub times64 : ℕ → ℤ → ℤ
times64 n a = wrap64 (scale n a)

-- Go's `min` helper over int64.
unfoldable pub min64 : ℤ → ℤ → ℤ
min64 a b = if ltb_ℤ a b then a else b

-- In range the reduction changes nothing, out of range it always lands in range.
pub wrap64_exact : (a : ℤ) → IsInt64 a → wrap64 a ≡ a
unfolding wrap64
wrap64_exact (pos n) h = ground arith
wrap64_exact (negsuc n) h = ground arith

pub wrap64-IsInt64 : (a : ℤ) → IsInt64 (wrap64 a)
unfolding wrap64
wrap64-IsInt64 (pos n) = ground arith
wrap64-IsInt64 (negsuc n) = ground arith

pub sub64_exact : (a b : ℤ) → IsInt64 (a -ℤ b) → sub64 a b ≡ a -ℤ b
unfolding sub64
sub64_exact a b h = wrap64_exact (a -ℤ b) h

pub add64_exact : (a b : ℤ) → IsInt64 (a +ℤ b) → add64 a b ≡ a +ℤ b
unfolding add64
add64_exact a b h = wrap64_exact (a +ℤ b) h

-- A withdrawal of at most the balance stays in range.
pub sub64_within :
    (a b : ℤ) → IsInt64 a → pos 0 ≤ℤ b → b ≤ℤ a → (sub64 a b ≡ a -ℤ b) × IsInt64 (a -ℤ b)
unfolding sub64 wrap64 ◌-ℤ◌
sub64_within a b h p q = ground arith

pub min64_bounds : (a b : ℤ) → (min64 a b ≤ℤ a) × (min64 a b ≤ℤ b)
unfolding min64
min64_bounds a b = ground arith

pub min64-nonneg : (a b : ℤ) → pos 0 ≤ℤ a → pos 0 ≤ℤ b → pos 0 ≤ℤ min64 a b
unfolding min64
min64-nonneg a b h k = ground arith

-- The smaller of two positive numbers is positive.
pub min64-pos : (a b : ℤ) → pos 0 <ℤ a → pos 0 <ℤ b → pos 0 <ℤ min64 a b
unfolding min64
min64-pos a b h k = ground arith

-- What is left after the smaller is taken off is covered by what is left on the other side.
pub min64_rest :
    (a b c : ℤ) → a ≤ℤ b +ℤ c → pos 0 ≤ℤ c → (a -ℤ min64 a b ≤ℤ c) × (pos 0 ≤ℤ a -ℤ min64 a b)
unfolding min64 ◌+ℤ◌ ◌-ℤ◌
min64_rest a b c h k = ground arith

pub min64_cases : (a b : ℤ) → ((a ≤ℤ b) × (min64 a b ≡ a)) ⊎ ((b ≤ℤ a) × (min64 a b ≡ b))
unfolding min64
min64_cases a b = ground arith

pub min64-zero : (b : ℤ) → pos 0 ≤ℤ b → min64 (pos 0) b ≡ pos 0
unfolding min64
min64-zero b h = ground arith

-- Negating a number that is not negative is exact.
pub neg64_exact : (a : ℤ) → IsInt64 a → pos 0 ≤ℤ a → neg64 a ≡ pos 0 -ℤ a
unfolding neg64 wrap64 ◌-ℤ◌
neg64_exact a h p = ground arith

-- Between 0 and an int64 there are only int64s.
pub IsInt64-between : (a b : ℤ) → IsInt64 b → pos 0 ≤ℤ a → a ≤ℤ b → IsInt64 a
IsInt64-between a b h p q = ground arith

pub min64_right : (a b : ℤ) → b ≤ℤ a → min64 a b ≡ b
unfolding min64
min64_right a b h = ground arith
