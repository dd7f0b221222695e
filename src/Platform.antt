-- ===== src/Platform.antt =====
-- What the program takes from outside the repository: IEEE floating point, with the C++ casts
-- and the library functions on it, and the two OpenSSL calls of src/Hmac.hpp.
use cks_loadtest.Base.{ℕ, ◌^◌, ◌<◌, ◌≡◌, ◌↔◌, Bool, true, Option}
use cks_loadtest.Base.Int.{ℤ}
use cks_loadtest.Base.Words.{Bytes}

-- `double` and `float`. The laws say only that a value has an object representation of 8 or
-- 4 bytes.
pub record Floats : Type 1 where
  pub Double : Type 0
  pub Single : Type 0
  pub bits64 : Double → ℕ
  pub bits32 : Single → ℕ
  pub narrow : Double → Single
  pub of_i64 : ℤ → Double
  pub to_i64 : Double → ℤ
  pub literal : ℤ → ℕ → Double
  pub add : Double → Double → Double
  pub sub : Double → Double → Double
  pub mul : Double → Double → Double
  pub div : Double → Double → Double
  pub neg : Double → Double
  pub fabs : Double → Double
  pub floor : Double → Double
  pub sqrt : Double → Double
  pub atan2 : Double → Double → Double
  pub lt : Double → Double → Bool
  pub le : Double → Double → Bool
  pub bits64_lt : (d : Double) → bits64 d < 2 ^ 64
  pub bits32_lt : (s : Single) → bits32 s < 2 ^ 32

-- `HMAC(EVP_sha256(), key, ...)`, with `none` for a null result and otherwise the octets that it
-- stored, and `CRYPTO_memcmp(a, b, n) == 0` on two sequences of `n` octets.
pub record Crypto : Type 0 where
  pub hmac : Bytes → Bytes → Option Bytes
  pub memcmp : Bytes → Bytes → Bool
  pub memcmp_iff : (a b : Bytes) → (memcmp a b ≡ true) ↔ (a ≡ b)
