-- ===== src/Wire/Bundle.antt =====
-- Message bundles of src/Wire.hpp: the loop over the members, and the signed bundle's tail.
pub mod Split
pub mod Keep
pub mod Encode
use cks_loadtest.Base.{
  ℕ, zero, suc, ◌+◌, ◌-◌, ◌*◌, Bool, true, false, not, ◌||◌, List, [], ◌∷◌, length, drop, take, ltb,
  leb, ◌==◌, if◌then◌else◌, get_or,
}
use cks_loadtest.Base.Words.{Bytes, of_le}
use cks_loadtest.Platform.{Crypto}
use cks_loadtest.Wire.Codes.{message_bundle, message_bundle_signed}
use cks_loadtest.Wire.Buffer.{slice}
use cks_loadtest.Wire.Hmac.{tag_size, spatial_sign, tag_equals}
use cks_loadtest.Wire.Inbound.{check_tag}

unfoldable pub verify_signed_bundle : Crypto → Bytes → Bytes → Bool
verify_signed_bundle c datagram token =
    let len = length datagram in
    if leb len (tag_size + 1) || not (get_or datagram 0 0 == message_bundle_signed)
    then false
    else check_tag c (spatial_sign c datagram (len - tag_size) token)
        (drop (len - tag_size) datagram)

module _ {ℓ} {S : Type ℓ} (fn : S → Bytes → S) where
  -- The `while` loop, on fuel; a round moves `offset` by 2 at least. `len` is the length that the
  -- loop sees, and `fn` the callback on the state that it captures.
  unfoldable pub walk : ℕ → Bytes → ℕ → ℕ → S → S × Bool
  walk zero datagram len offset s = (s, false)
  walk (suc fuel) datagram len offset s =
      let msg_len = of_le (slice datagram offset 2) in
      let rest =
        walk fuel datagram len (offset + 2 + msg_len)
          (fn s (slice datagram (offset + 2) msg_len)) in
      if ltb offset len
      then (if ltb len (offset + 2)
          then (s, false)
          else if ltb len (offset + 2 + msg_len)
          then (s, false)
          else rest)
      else (s, true)

  unfoldable pub for_each_message : Bytes → S → S × Bool
  for_each_message datagram s =
      let len = length datagram in
      let type = get_or datagram 0 0 in
      if len == 0
      then (s, false)
      else if type == message_bundle_signed
      then (if leb len (tag_size + 1)
          then (s, false)
          else walk (len + 1) datagram (len - tag_size) 1 s)
      else if not (type == message_bundle)
      then (fn s datagram, true)
      else walk (len + 1) datagram len 1 s
