-- ===== src/Tests/OfWire.antt =====
-- Witnesses for the wire format.
use mathlib.Core.List.{foldl}
use cks_loadtest.Base.{◌≡◌, ◌↔◌, refl, inl, Bool, true, List, [], ◌∷◌, ◌++◌, arith, take, replicate}
use cks_loadtest.Base.Int.{pos, negsuc}
use cks_loadtest.Base.Words.{Bytes, to_le, u64_of_i64}
use cks_loadtest.Wire.Codes.{DecayRate, message_bundle, message_bundle_signed}
use cks_loadtest.Wire.Buffer.{slice, put}
use cks_loadtest.Wire.Hmac.{tag_size}
use cks_loadtest.Wire.ActorUpdate.{
  ue5, bwf, init_actor_update_template_fmt, finalize_actor_update_fmt, patch,
}
use cks_loadtest.Wire.ActorUpdate.Layout.{IsTemplate, init-IsTemplate}
use cks_loadtest.Wire.ActorUpdate.Send.{IsSent, finalize-IsSent, finalize-IsTemplate}
use cks_loadtest.Wire.ActorUpdate.Legacy.{
  legacy-eq-ue5, init_actor_update_template, finalize_actor_update,
}
use cks_loadtest.Wire.Capabilities.{
  IsCapabilities, capabilities_body, build_capabilities, build-IsCapabilities, cap_bundle_signed,
}
use cks_loadtest.Wire.Inbound.{verify_notification, verify_notification_iff}
use cks_loadtest.Wire.RoundTrip.{finalize-verifies}
use cks_loadtest.Wire.Bundle.{for_each_message, verify_signed_bundle}
use cks_loadtest.Wire.Bundle.Split.{Split, for_each_message-Split}
use cks_loadtest.Wire.Bundle.Encode.{
  encode, frame, for_each_message-encode, for_each_message-signed, verify_signed_bundle_iff,
}
use cks_loadtest.Tests.{floats, crypto, token, uuid_example, empty_message, pose_example}

abbrev decay_example : DecayRate
decay_example = DecayRate.linear_50

abbrev template : Bytes
template =
    init_actor_update_template_fmt empty_message bwf uuid_example (pos 9) (negsuc 3) 8 decay_example

abbrev send_tag : Bytes
send_tag = 180 ∷ replicate 31 64

abbrev collect : List Bytes → Bytes → List Bytes
collect ms m = ms ++ (m ∷ [])

abbrev two_messages : List Bytes
two_messages = (1 ∷ 2 ∷ 3 ∷ []) ∷ (4 ∷ []) ∷ []

-- A signed notification: a header, no payload, the tag, a token id and a sequence number.
abbrev notification : Bytes
notification =
    (129 ∷ replicate 34 0) ++ (1 ∷ replicate 32 65) ++ (132 ∷ replicate 31 64) ++ replicate 9 0

abbrev signed_bundle : Bytes
signed_bundle = (message_bundle_signed ∷ encode two_messages) ++ (73 ∷ replicate 31 64)

finalize-IsSent_example :
    let (sent, m) =
      finalize_actor_update_fmt floats crypto template bwf
        (negsuc 0)
        (pos 2)
        (pos 3)
        pose_example
        255
        token in
    (sent ≡ true) × IsSent floats crypto bwf (negsuc 0) (pos 2) (pos 3) pose_example 255 token m
unfolding init_actor_update_template_fmt put patch to_le u64_of_i64
finalize-IsSent_example =
    finalize-IsSent floats crypto template bwf (negsuc 0) (pos 2) (pos 3) pose_example 255 token
      send_tag refl (omega arith) (omega arith) (omega arith) refl refl

finalize-IsTemplate_example :
    IsTemplate bwf uuid_example
      (pos 9)
      (negsuc 3)
      8
      decay_example
      (finalize_actor_update_fmt floats crypto template bwf
        (negsuc 0)
        (pos 2)
        (pos 3)
        pose_example
        255
        token).1
unfolding init_actor_update_template_fmt put patch to_le u64_of_i64
finalize-IsTemplate_example =
    finalize-IsTemplate floats crypto template bwf uuid_example (pos 9) (negsuc 3) 8 decay_example
      (negsuc 0) (pos 2) (pos 3) pose_example 255 token send_tag refl refl
      (init-IsTemplate empty_message bwf uuid_example (pos 9) (negsuc 3) 8 decay_example refl refl)

legacy-eq-ue5_example :
    (init_actor_update_template empty_message uuid_example (pos 9) (negsuc 3) 8 decay_example
      ≡ init_actor_update_template_fmt empty_message ue5 uuid_example
          (pos 9)
          (negsuc 3)
          8
          decay_example)
    × (finalize_actor_update floats crypto empty_message
          (pos 1)
          (pos 2)
          (pos 3)
          1
          2
          3
          5
          4
          6
          7
          8
          9
          255
          token
        ≡ finalize_actor_update_fmt floats crypto empty_message ue5
            (pos 1)
            (pos 2)
            (pos 3)
            pose_example
            255
            token)
legacy-eq-ue5_example =
    legacy-eq-ue5 floats crypto empty_message uuid_example (pos 9) (negsuc 3) 8 decay_example
      (pos 1) (pos 2) (pos 3) pose_example 255 token

build-IsCapabilities_example :
    let (sent, m) =
      build_capabilities crypto (replicate 113 0) (pos 9) (negsuc 3) cap_bundle_signed 255 token in
    (sent ≡ true) × IsCapabilities crypto (pos 9) (negsuc 3) cap_bundle_signed 255 token m
unfolding capabilities_body put to_le u64_of_i64
build-IsCapabilities_example =
    build-IsCapabilities crypto (replicate 113 0) (pos 9) (negsuc 3) cap_bundle_signed 255 token
      (136 ∷ replicate 31 64) refl (omega arith) (omega arith) refl refl

verify_notification_iff_example :
    (verify_notification crypto notification token ≡ true)
    ↔ (slice notification 68 tag_size ≡ 132 ∷ replicate 31 64)
verify_notification_iff_example =
    verify_notification_iff crypto notification token (132 ∷ replicate 31 64) (omega arith)
      (omega arith) refl refl refl refl

finalize-verifies_example :
    verify_notification crypto
      (take 157
        (finalize_actor_update_fmt floats crypto template bwf
          (negsuc 0)
          (pos 2)
          (pos 3)
          pose_example
          255
          token).1)
      token
    ≡ true
unfolding init_actor_update_template_fmt put patch to_le u64_of_i64
finalize-verifies_example =
    finalize-verifies floats crypto template bwf uuid_example (pos 9) (negsuc 3) 8 decay_example
      (negsuc 0) (pos 2) (pos 3) pose_example 255 token send_tag refl (omega arith) (omega arith)
      (omega arith)
      (init-IsTemplate empty_message bwf uuid_example (pos 9) (negsuc 3) 8 decay_example refl refl)
      refl refl

-- The second frame of this bundle is cut off.
for_each_message-Split_example :
    (ms : List Bytes) × (whole : Bool) × Split (2 ∷ 0 ∷ 7 ∷ 8 ∷ 9 ∷ 0 ∷ 7 ∷ []) ms whole
    × (for_each_message collect (message_bundle ∷ 2 ∷ 0 ∷ 7 ∷ 8 ∷ 9 ∷ 0 ∷ 7 ∷ []) []
        ≡ (foldl collect [] ms, whole))
for_each_message-Split_example =
    for_each_message-Split collect (message_bundle ∷ 2 ∷ 0 ∷ 7 ∷ 8 ∷ 9 ∷ 0 ∷ 7 ∷ []) []
      (inl (refl, omega arith))

for_each_message-encode_example :
    for_each_message collect (message_bundle ∷ encode two_messages) [] ≡ (two_messages, true)
for_each_message-encode_example = for_each_message-encode collect two_messages [] (omega arith)

for_each_message-signed_example :
    for_each_message collect (message_bundle_signed ∷ (encode two_messages ++ replicate 32 5)) []
    ≡ (two_messages, true)
for_each_message-signed_example =
    for_each_message-signed collect two_messages (replicate 32 5) [] (omega arith) (ground arith)
      refl

verify_signed_bundle_iff_example :
    (verify_signed_bundle crypto signed_bundle token ≡ true)
    ↔ (slice signed_bundle 9 tag_size ≡ 73 ∷ replicate 31 64)
unfolding encode frame
verify_signed_bundle_iff_example =
    verify_signed_bundle_iff crypto signed_bundle token (73 ∷ replicate 31 64) (omega arith)
      (omega arith) refl refl refl
