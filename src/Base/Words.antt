-- ===== src/Base/Words.antt =====
-- Machine words: little-endian bytes, two's complement, and arrays of counters.
use cks_loadtest.Base.Tests.{ltb, ◌==◌, if◌then◌else◌}
use cks_loadtest.Base.Lists.{length}
use cks_loadtest.Base.Int.{ℤ, pos, negsuc}
use Prim.Native.Nat.{ℕ, zero, suc, ◌+◌, ◌-◌, ◌*◌, ◌/◌, ◌%◌, ◌^◌, ◌<◌}
use mathlib.Core.Path.{◌≡◌, refl, ap}
use mathlib.Core.List.{List, [], ◌∷◌}
use native.Mathlib.Nat.{pow-suc}
use native.Mathlib.Omega.{arith}

-- A byte sequence; every element is below 256.
abbrev pub Bytes : Type 0
Bytes = List ℕ

abbrev pub u8 : ℕ → ℕ
u8 n = n % 256

abbrev pub u16 : ℕ → ℕ
u16 n = n % 65536

abbrev pub u64_mod : ℕ
u64_mod = 2 ^ 64

abbrev pub u64 : ℕ → ℕ
u64 n = n % 2 ^ 64

-- `memcpy` of a `w`-byte integer out of memory and into it, on a little-endian machine.
unfoldable pub to_le : ℕ → ℕ → Bytes
to_le zero v = []
to_le (suc w) v = (v % 256) ∷ to_le w (v / 256)

unfoldable pub of_le : Bytes → ℕ
of_le [] = 0
of_le (b ∷ bs) = b + 256 * of_le bs

pub length-to_le : (w v : ℕ) → length (to_le w v) ≡ w
unfolding to_le
length-to_le zero v = refl
length-to_le (suc w) v = ap suc (length-to_le w (v / 256))

pub of_le-to_le : (w v : ℕ) → v < 256 ^ w → of_le (to_le w v) ≡ v
unfolding to_le of_le
of_le-to_le zero v h = omega arith
of_le-to_le (suc w) v h =
    omega (arith, of_le-to_le w (v / 256) (omega (arith, pow-suc 256 w)), pow-suc 256 w)

-- The bit pattern of an `int64_t`, and the integer that a pattern stands for.
unfoldable pub u64_of_i64 : ℤ → ℕ
u64_of_i64 (pos n) = n % 2 ^ 64
u64_of_i64 (negsuc n) = 2 ^ 64 - 1 - n % 2 ^ 64

unfoldable pub i64_of_u64 : ℕ → ℤ
i64_of_u64 w = if ltb w (2 ^ 63) then pos w else negsuc (2 ^ 64 - 1 - w)

abbrev pub IsI64 : ℤ → Type 0
IsI64 (pos n) = n < 2 ^ 63
IsI64 (negsuc n) = n < 2 ^ 63

pub i64_of_u64-u64_of_i64 : (z : ℤ) → IsI64 z → i64_of_u64 (u64_of_i64 z) ≡ z
unfolding i64_of_u64 u64_of_i64
i64_of_u64-u64_of_i64 (pos n) h = ground arith
i64_of_u64-u64_of_i64 (negsuc n) h = ground arith

pub u64_of_i64-lt : (z : ℤ) → u64_of_i64 z < 2 ^ 64
unfolding u64_of_i64
u64_of_i64-lt (pos n) = omega arith
u64_of_i64-lt (negsuc n) = omega arith

-- A fixed array of counters, as a function of the index.
abbrev pub Counters : Type 0
Counters = ℕ → ℕ

-- `fetch_add(1)` on one slot of the array.
unfoldable pub bump : Counters → ℕ → Counters
bump f i j = if j == i then u64 (f j + 1) else f j

unfoldable pub sum_below : ℕ → Counters → ℕ
sum_below zero f = 0
sum_below (suc n) f = sum_below n f + f n
