-- ===== src/Prelude/Int.antt =====
-- Signed integers over the native numbers (Go's `int`, and the integers that Redis keeps), and the
-- conversion `int32(x)`, which keeps the low 32 bits.
use Prim.Native.Nat.{ℕ, suc, ◌+◌, ◌-◌, ◌*◌, ◌%◌, ◌^◌, ◌≤◌, ◌<◌}
use mathlib.Core.Path.{◌≡◌, ap}
use mathlib.Core.Logic.{◌↔◌}
use mathlib.Core.Bool.{Bool}
use native.Mathlib.Omega.{arith}
use tf_man.Prelude.Tests.{ltb, leb, if◌then◌else◌}

-- `negsuc n` is -(n + 1).
pub data ℤ : Type 0 where
  pos : ℕ → ℤ
  negsuc : ℕ → ℤ

abbrev pub pos_part : ℤ → ℕ
pos_part (pos n) = n
pos_part (negsuc n) = 0

abbrev pub neg_part : ℤ → ℕ
neg_part (pos n) = 0
neg_part (negsuc n) = suc n

abbrev pub sub_ℕ : ℕ → ℕ → ℤ
sub_ℕ a b = if leb b a then pos (a - b) else negsuc (b - a - 1)

infixl 65 ◌+ℤ◌ ◌-ℤ◌
infix 50 ◌≤ℤ◌
unfoldable pub ◌+ℤ◌ : ℤ → ℤ → ℤ
a +ℤ b = sub_ℕ (pos_part a + pos_part b) (neg_part a + neg_part b)

unfoldable pub ◌-ℤ◌ : ℤ → ℤ → ℤ
a -ℤ b = sub_ℕ (pos_part a + neg_part b) (neg_part a + pos_part b)

abbrev pub ◌≤ℤ◌ : ℤ → ℤ → Type 0
a ≤ℤ b = pos_part a + neg_part b ≤ pos_part b + neg_part a

abbrev pub ltb_ℤ : ℤ → ℤ → Bool
ltb_ℤ a b = ltb (pos_part a + neg_part b) (pos_part b + neg_part a)

abbrev pub leb_ℤ : ℤ → ℤ → Bool
leb_ℤ a b = leb (pos_part a + neg_part b) (pos_part b + neg_part a)

pub +ℤ_parts :
    (a b : ℤ)
    → pos_part (a +ℤ b) + neg_part a + neg_part b ≡ neg_part (a +ℤ b) + pos_part a + pos_part b
unfolding ◌+ℤ◌
+ℤ_parts a b = ground arith

pub -ℤ_parts :
    (a b : ℤ)
    → pos_part (a -ℤ b) + neg_part a + pos_part b ≡ neg_part (a -ℤ b) + pos_part a + neg_part b
unfolding ◌-ℤ◌
-ℤ_parts a b = ground arith

pub eq_of_parts : (a b : ℤ) → pos_part a + neg_part b ≡ pos_part b + neg_part a → a ≡ b
eq_of_parts a b h = ground arith

pub ruleset int_laws = (arith, +ℤ_parts, -ℤ_parts, eq_of_parts)

pub +ℤ_regroup : (a b c d e : ℤ) → a +ℤ b ≡ c → d +ℤ e ≡ a → d +ℤ (b +ℤ e) ≡ c
+ℤ_regroup a b c d e h k =
    omega (int_laws, ap pos_part h, ap neg_part h, ap pos_part k, ap neg_part k)

pub le_of_sum : (a b c : ℤ) → a +ℤ b ≡ c → pos 0 ≤ℤ a → b ≤ℤ c
le_of_sum a b c h k = omega (int_laws, ap pos_part h, ap neg_part h)

-- The 32-bit word of two's complement, read back as a signed number.
signed32 : ℕ → ℤ
signed32 w = if ltb w (2 ^ 31) then pos w else negsuc (2 ^ 32 - 1 - w)

-- Go's `int32(x)` for an `int` x.
unfoldable pub int32 : ℤ → ℤ
unfolding signed32
int32 (pos n) = signed32 (n % 2 ^ 32)
int32 (negsuc n) = signed32 (2 ^ 32 - 1 - n % 2 ^ 32)

-- The conversion keeps a positive number exactly when it is below 2 ^ 31.
pub int32-pos_iff : (n : ℕ) → (int32 (pos n) ≡ pos n) ↔ (n < 2 ^ 31)
unfolding int32
int32-pos_iff n = ground arith

-- Go's `int64(x)`, into which a product of durations wraps.
signed64 : ℕ → ℤ
signed64 w = if ltb w (2 ^ 63) then pos w else negsuc (2 ^ 64 - 1 - w)

unfoldable pub int64 : ℤ → ℤ
unfolding signed64
int64 (pos n) = signed64 (n % 2 ^ 64)
int64 (negsuc n) = signed64 (2 ^ 64 - 1 - n % 2 ^ 64)

pub int64-pos_iff : (n : ℕ) → (int64 (pos n) ≡ pos n) ↔ (n < 2 ^ 63)
unfolding int64
int64-pos_iff n = ground arith

-- A multiple of an integer.
abbrev pub times : ℕ → ℤ → ℤ
times k (pos n) = pos (k * n)
times k (negsuc n) = sub_ℕ 0 (k * suc n)
