-- ===== src/Wire/Inbound.antt =====
-- Inbound messages of src/Wire.hpp: the epoch slot, and the tag of a signed notification.
use cks_loadtest.Base.{
  ℕ, ◌+◌, ◌-◌, ◌≤◌, ◌≡◌, sym, ◌∙◌, Bool, true, false, not, ◌||◌, ◌↔◌, ◌⊎◌, ◌≢◌, ◌<◌, Option, none,
  some, arith, length, take, drop, ltb, leb, ◌==◌, if◌then◌else◌, get_or, take_all,
}
use cks_loadtest.Base.Int.{ℤ}
use cks_loadtest.Base.Words.{Bytes}
use cks_loadtest.Platform.{Crypto}
use cks_loadtest.Wire.Codes.{is_spatial}
use cks_loadtest.Wire.Off
use cks_loadtest.Wire.Buffer.{slice}
use cks_loadtest.Wire.Hmac.{tag_size, tag_of, spatial_sign, spatial_sign_lem, tag_equals}
use cks_loadtest.Wire.ActorUpdate.{header_size, tail_with_hmac, tail_no_hmac, read_i64}

-- An `InboundView` is the bytes that it covers.
abbrev pub type_of : Bytes → ℕ
type_of m = if ltb 0 (length m) then get_or m 0 0 else 0

unfoldable pub notification_epoch_ms : Bytes → Option ℤ
notification_epoch_ms m =
    if ltb (length m) (header_size + tail_no_hmac)
    then none
    else if not (is_spatial (type_of m))
    then none
    else some (read_i64 m (length m - tail_no_hmac))

module _ (c : Crypto) where
  -- The last three statements of `verifyNotification`.
  abbrev pub check_tag : Bool × Bytes → Bytes → Bool
  check_tag (good, expected) tag = if not good then false else tag_equals c expected tag

  unfoldable pub verify_notification : Bytes → Bytes → Bool
  verify_notification m token =
      let prefix_len = length m - tail_with_hmac in
      if leb (length m) Off.contains_auth || not (is_spatial (type_of m))
      then true
      else if get_or m Off.contains_auth 0 == 0
      then true
      else if ltb (length m) (header_size + tail_with_hmac)
      then false
      else check_tag (spatial_sign c m prefix_len token) (drop prefix_len m)

  pub tag_equals_iff :
      (a b : Bytes) → (tag_equals c a b ≡ true) ↔ (take tag_size a ≡ take tag_size b)
  unfolding tag_equals
  tag_equals_iff a b = c.memcmp_iff (take tag_size a) (take tag_size b)

  verify_notification_lem :
      (m token tag : Bytes)
      → header_size + tail_with_hmac ≤ length m
      → is_spatial (type_of m) ≡ true
      → get_or m Off.contains_auth 0 ≡ 1
      → spatial_sign c m (length m - tail_with_hmac) token ≡ (true, tag)
      → verify_notification m token ≡ tag_equals c tag (drop (length m - tail_with_hmac) m)
  unfolding verify_notification
  verify_notification_lem m token tag lo sp auth e = ground arith

  -- A signed notification of at most 2048 + 41 octets, for which OpenSSL computes a tag of 32
  -- octets, passes exactly when that tag stands in its tag field.
  pub verify_notification_iff :
      (m token tag : Bytes)
      → header_size + tail_with_hmac ≤ length m
      → length m ≤ 2048 + tail_with_hmac
      → is_spatial (type_of m) ≡ true
      → get_or m Off.contains_auth 0 ≡ 1
      → tag_of c (take (length m - tail_with_hmac) m) token ≡ some tag
      → length tag ≡ tag_size
      → (verify_notification m token ≡ true) ↔ (slice m (length m - tail_with_hmac) tag_size ≡ tag)
  verify_notification_iff m token tag lo hi sp auth e l =
      let signed = spatial_sign_lem c m (length m - tail_with_hmac) token (omega arith) e l in
      let whole : take tag_size tag ≡ tag = take_all tag_size tag (omega arith) in
      let (to, from) = tag_equals_iff tag (drop (length m - tail_with_hmac) m) in
      rw (verify_notification_lem m token tag lo sp auth signed)
        (λ ok. sym (to ok) ∙ whole, λ same. from (whole ∙ sym same))

  -- A message whose type has no spatial bit, that does not say it is signed, or that is shorter
  -- than a header up to that flag is let through, whatever its bytes and the token are.
  pub verify_notification_unsigned :
      (m token : Bytes)
      → (length m ≤ Off.contains_auth)
        ⊎ (is_spatial (type_of m) ≡ false)
        ⊎ (get_or m Off.contains_auth 0 ≡ 0)
      → verify_notification m token ≡ true
  unfolding verify_notification
  verify_notification_unsigned m token h = ground arith

  -- A message that says it is signed and has no room for a tag and its tail is rejected.
  pub verify_notification_short :
      (m token : Bytes)
      → Off.contains_auth < length m
      → is_spatial (type_of m) ≡ true
      → get_or m Off.contains_auth 0 ≢ 0
      → length m < header_size + tail_with_hmac
      → verify_notification m token ≡ false
  unfolding verify_notification
  verify_notification_short m token lo sp auth h = ground arith
