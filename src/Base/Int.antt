-- ===== src/Base/Int.antt =====
-- Signed 64-bit quantities (`int64`, `time.Duration`) as integers over the native numbers.
use Prim.Native.Nat.{ℕ, suc, ◌+◌, ◌-◌, ◌*◌, ◌/◌, ◌%◌, ◌^◌}
use mathlib.Core.Bool.{Bool}
use kube_green.Base.Tests.{ltb, leb, if◌then◌else◌}

-- `negsuc n` is -(n + 1).
pub data ℤ : Type 0 where
  pos : ℕ → ℤ
  negsuc : ℕ → ℤ

abbrev pub pos_part : ℤ → ℕ
pos_part (pos n) = n
pos_part (negsuc n) = 0

abbrev pub neg_part : ℤ → ℕ
neg_part (pos n) = 0
neg_part (negsuc n) = suc n

-- a - b, as an integer.
abbrev pub sub_ℕ : ℕ → ℕ → ℤ
sub_ℕ a b = if leb b a then pos (a - b) else negsuc (b - a - 1)

abbrev pub -ℤ◌ : ℤ → ℤ
-ℤ◌ a = sub_ℕ (neg_part a) (pos_part a)

abbrev pub leb_ℤ : ℤ → ℤ → Bool
leb_ℤ a b = leb (pos_part a + neg_part b) (pos_part b + neg_part a)

-- The `int64` that an integer wraps to.
abbrev pub wrap64 : ℤ → ℤ
wrap64 a =
    let r = (pos_part a + (2 ^ 64 - neg_part a % 2 ^ 64)) % 2 ^ 64 in
    if ltb r (2 ^ 63) then pos r else negsuc (2 ^ 64 - r - 1)

-- `a * k` for a positive constant `k`, in 64 bits.
abbrev pub mul64 : ℤ → ℕ → ℤ
mul64 a k = wrap64 (sub_ℕ (pos_part a * k) (neg_part a * k))

-- `a / k` for a positive constant `k`: Go truncates towards zero.
abbrev pub div_ℤ : ℤ → ℕ → ℤ
div_ℤ (pos n) k = pos (n / k)
div_ℤ (negsuc n) k = sub_ℕ 0 (suc n / k)
