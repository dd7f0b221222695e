-- ===== src/Wire/Hmac.antt =====
-- src/Hmac.hpp: the spatial-message tag, over a buffer that holds at most 2048 octets of prefix.
use cks_loadtest.Base.{
  ℕ, ◌+◌, ◌≤◌, ◌≡◌, Bool, true, false, Option, none, some, [], ◌++◌, arith, length, take, ltb, ◌==◌,
  if◌then◌else◌,
}
use cks_loadtest.Base.Words.{Bytes}
use cks_loadtest.Platform.{Crypto}

abbrev pub tag_size : ℕ
tag_size = 32

abbrev pub token_octets : ℕ
token_octets = 64

abbrev pub max_msg : ℕ
max_msg = 2048 + token_octets

module _ (c : Crypto) where
  -- The tag that the signer and the verifier compute over a prefix.
  abbrev pub tag_of : Bytes → Bytes → Option Bytes
  tag_of prefix token = c.hmac (take token_octets token) (prefix ++ take token_octets token)

  abbrev signed_with : Option Bytes → Bool × Bytes
  signed_with none = (false, [])
  signed_with (some out) = (length out == tag_size, out)

  -- The result, and the octets that were stored at `out`.
  unfoldable pub spatial_sign : Bytes → ℕ → Bytes → Bool × Bytes
  spatial_sign prefix prefix_len token =
      if ltb max_msg (prefix_len + token_octets)
      then (false, [])
      else signed_with (tag_of (take prefix_len prefix) token)

  unfoldable pub tag_equals : Bytes → Bytes → Bool
  tag_equals a b = c.memcmp (take tag_size a) (take tag_size b)

  pub spatial_sign_lem :
      (prefix : Bytes) (n : ℕ) (token : Bytes) {tag : Bytes}
      → n ≤ 2048
      → tag_of (take n prefix) token ≡ some tag
      → length tag ≡ tag_size
      → spatial_sign prefix n token ≡ (true, tag)
  unfolding spatial_sign
  spatial_sign_lem prefix n token h e l = ground arith
