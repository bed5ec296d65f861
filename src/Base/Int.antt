-- ===== src/Base/Int.antt =====
-- Signed integers over the native numbers, and the arithmetic of `i32`.
use Prim.Native.Nat.{ℕ, suc, ◌+◌, ◌-◌, ◌≤◌, compare, Ordering}
use mathlib.Core.Path.{◌≡◌}
use mathlib.Core.Bool.{Bool}
use native.Mathlib.Omega.{arith}
use pingora_mesh.Base.Tests.{ltb, leb, if◌then◌else◌}

-- `negsuc n` is -(n + 1).
pub data ℤ : Type 0 where
  pos : ℕ → ℤ
  negsuc : ℕ → ℤ

abbrev pub pos_part : ℤ → ℕ
pos_part (pos n) = n
pos_part (negsuc n) = 0

abbrev pub neg_part : ℤ → ℕ
neg_part (pos n) = 0
neg_part (negsuc n) = suc n

-- a - b, as an integer.
abbrev pub sub_ℕ : ℕ → ℕ → ℤ
sub_ℕ a b = if leb b a then pos (a - b) else negsuc (b - a - 1)

infixl 65 ◌+ℤ◌
infix 50 ◌≤ℤ◌
unfoldable pub ◌+ℤ◌ : ℤ → ℤ → ℤ
a +ℤ b = sub_ℕ (pos_part a + pos_part b) (neg_part a + neg_part b)

abbrev pub ◌≤ℤ◌ : ℤ → ℤ → Type 0
a ≤ℤ b = pos_part a + neg_part b ≤ pos_part b + neg_part a

-- `Ord::cmp`
abbrev pub cmp_ℤ : ℤ → ℤ → Ordering
cmp_ℤ a b = compare (pos_part a + neg_part b) (pos_part b + neg_part a)

abbrev pub leb_ℤ : ℤ → ℤ → Bool
leb_ℤ a b = leb (pos_part a + neg_part b) (pos_part b + neg_part a)

abbrev pub i32_max : ℕ
i32_max = 2147483647

-- The sum of two `i32`, which wraps around (the release profile does not trap).
unfoldable pub add_i32 : ℤ → ℤ → ℤ
unfolding ◌+ℤ◌
add_i32 a b =
    let s = a +ℤ b in
    if ltb i32_max (pos_part s)
    then s +ℤ negsuc 4294967295
    else if ltb (i32_max + 1) (neg_part s)
    then s +ℤ pos 4294967296
    else s

-- `Ord::max`: of two equal values the second.
unfoldable pub max_ℤ : ℤ → ℤ → ℤ
max_ℤ a b = if leb_ℤ a b then b else a

-- While the sum is in range nothing wraps.
pub add_i32-in_range : (n k : ℕ) → n + k ≤ i32_max → add_i32 (pos n) (pos k) ≡ pos (n + k)
unfolding add_i32
add_i32-in_range n k h = ground arith
