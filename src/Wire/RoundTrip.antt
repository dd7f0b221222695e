-- ===== src/Wire/RoundTrip.antt =====
-- From the sender's functions to the receiver's check, both of src/Wire.hpp.
use cks_loadtest.Base.{
  ℕ, ◌+◌, ◌-◌, ◌≤◌, ◌≡◌, refl, ap, ◌∙◌, true, some, arith, length, take, drop, get_or, length-take,
  length-drop, lt→ltb,
}
use cks_loadtest.Base.Int.{ℤ}
use cks_loadtest.Base.Words.{Bytes, IsI64}
use cks_loadtest.Platform.{Floats, Crypto}
use cks_loadtest.Wire.Codes.{DecayRate, is_spatial}
use cks_loadtest.Wire.Buffer.{slice, slice-take, get_or-slice, take-take}
use cks_loadtest.Wire.Hmac.{tag_size, tag_of}
use cks_loadtest.Wire.ActorUpdate.{
  PoseFormat, ue5, bwf, actor_update_size, actor_update_hmac_offset, actor_update_max_size,
  tail_with_hmac, ActorPose, patch, finalize_actor_update_fmt,
}
use cks_loadtest.Wire.ActorUpdate.Layout.{IsTemplate}
use cks_loadtest.Wire.ActorUpdate.Send.{
  IsSent, finalize-IsSent, finalize-IsTemplate, length-finalize,
}
use cks_loadtest.Wire.Inbound.{type_of, verify_notification, verify_notification_iff}

size-eq : (fmt : PoseFormat) → actor_update_size fmt ≡ actor_update_hmac_offset fmt + 41
size-eq ue5 = refl
size-eq bwf = refl

size_bounds : (fmt : PoseFormat) → (109 ≤ actor_update_size fmt) × (actor_update_size fmt ≤ 197)
size_bounds ue5 = omega arith
size_bounds bwf = omega arith

module _ (fl : Floats) (c : Crypto) where
  sent-verifies :
      (fmt : PoseFormat) (uuid : Bytes) (app_id token_id : ℤ) (distance : ℕ) (decay : DecayRate)
      (chunk_x chunk_y chunk_z : ℤ) (p : ActorPose fl) (seq : ℕ) (token m : Bytes)
      → length m ≡ actor_update_max_size
      → IsTemplate fmt uuid app_id token_id distance decay m
      → IsSent fl c fmt chunk_x chunk_y chunk_z p seq token m
      → verify_notification c (take (actor_update_size fmt) m) token ≡ true
  sent-verifies fmt uuid app_id token_id distance decay chunk_x chunk_y chunk_z p seq token m l t
        s =
      let size : ℕ = actor_update_size fmt in
      let d : Bytes = take size m in
      let long : length d ≡ size = omega (arith, length-take size m, size_bounds fmt) in
      let off : length d - tail_with_hmac ≡ actor_update_hmac_offset fmt =
        omega (arith, size-eq fmt) in
      let type : get_or d 0 0 ≡ 128 =
        get_or-slice d 0 (slice-take 0 1 size m (omega (arith, size_bounds fmt)) ∙ t.type_at) in
      let auth : get_or d 35 0 ≡ 1 =
        get_or-slice d 35
          (slice-take 35 1 size m (omega (arith, size_bounds fmt)) ∙ t.contains_auth_at) in
      let spatial : is_spatial (type_of d) ≡ true =
        rw (lt→ltb 0 (length d) (omega (arith, size_bounds fmt))) (rw type refl) in
      (verify_notification_iff c d token (slice m (actor_update_hmac_offset fmt) 32)
          (omega (arith, size_bounds fmt)) (omega (arith, size_bounds fmt)) spatial auth
          (rw off (
            ap (λ (b : Bytes). tag_of c b token)
              (take-take (actor_update_hmac_offset fmt) size m (omega (arith, size-eq fmt)))
            ∙ s.tag_at))
          (omega (
            arith,
            length-take 32 (drop (actor_update_hmac_offset fmt) m),
            length-drop (actor_update_hmac_offset fmt) m,
            size-eq fmt,
            size_bounds fmt,
          ))).1
        (rw off (slice-take (actor_update_hmac_offset fmt) 32 size m (omega (arith, size-eq fmt))))

  -- What the client sends verifies: a message that is made from a template and signed by a send
  -- passes, cut to the profile's size, the check that the program makes of signed notifications
  -- under the same token.
  pub finalize-verifies :
      (buf : Bytes) (fmt : PoseFormat) (uuid : Bytes) (app_id token_id : ℤ) (distance : ℕ)
      (decay : DecayRate) (chunk_x chunk_y chunk_z : ℤ) (p : ActorPose fl) (seq : ℕ)
      (token tag : Bytes)
      → length buf ≡ actor_update_max_size
      → IsI64 chunk_x
      → IsI64 chunk_y
      → IsI64 chunk_z
      → IsTemplate fmt uuid app_id token_id distance decay buf
      → tag_of c
          (take (actor_update_hmac_offset fmt) (patch fl buf fmt chunk_x chunk_y chunk_z p seq))
          token
        ≡ some tag
      → length tag ≡ tag_size
      → verify_notification c
          (take
            (actor_update_size fmt)
            (finalize_actor_update_fmt fl c buf fmt chunk_x chunk_y chunk_z p seq token).1)
          token
        ≡ true
  finalize-verifies buf fmt uuid app_id token_id distance decay chunk_x chunk_y chunk_z p seq token
        tag hb hx hy hz t e l =
      sent-verifies fmt uuid app_id token_id distance decay chunk_x chunk_y chunk_z p seq token _
        (length-finalize fl c buf fmt chunk_x chunk_y chunk_z p seq token ∙ hb)
        (finalize-IsTemplate fl c buf fmt uuid app_id token_id distance decay chunk_x chunk_y
          chunk_z p seq token tag e l t)
        (finalize-IsSent fl c buf fmt chunk_x chunk_y chunk_z p seq token tag hb hx hy hz e l).1
