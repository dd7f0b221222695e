-- ===== src/Wire/ActorUpdate.antt =====
-- The signed actor update of src/Wire.hpp: a template that is filled once, and the fields that
-- each send patches before it signs again.
pub mod Layout
pub mod Send
pub mod Legacy
use cks_loadtest.Base.{
  ℕ, ◌+◌, ◌≤◌, ◌≡◌, arith, some, length, Bool, true, false, List, [], ◌∷◌, take, replicate,
  if◌then◌else◌,
}
use cks_loadtest.Base.Int.{ℤ}
use cks_loadtest.Base.Words.{Bytes, to_le, of_le, u64_of_i64, i64_of_u64, u8}
use cks_loadtest.Platform.{Floats, Crypto}
use cks_loadtest.Wire.Codes.{actor_update_request_2, DecayRate, decay_code}
use cks_loadtest.Wire.Off
use cks_loadtest.Wire.StateOff
use cks_loadtest.Wire.BwfPose
use cks_loadtest.Wire.Buffer.{put, slice}
use cks_loadtest.Wire.Hmac.{tag_size, tag_of, spatial_sign, spatial_sign_lem}

abbrev pub header_size : ℕ
header_size = Off.payload

abbrev pub tail_with_hmac : ℕ
tail_with_hmac = tag_size + 8 + 1

abbrev pub tail_no_hmac : ℕ
tail_no_hmac = 8 + 1

pub data PoseFormat : Type 0 where
  ue5 bwf : PoseFormat

abbrev pub payload_size : PoseFormat → ℕ
payload_size ue5 = StateOff.size
payload_size bwf = BwfPose.size

abbrev pub actor_update_size : PoseFormat → ℕ
actor_update_size f = header_size + payload_size f + tail_with_hmac

abbrev pub actor_update_hmac_offset : PoseFormat → ℕ
actor_update_hmac_offset f = header_size + payload_size f

abbrev pub actor_update_token_id_offset : PoseFormat → ℕ
actor_update_token_id_offset f = actor_update_hmac_offset f + tag_size

abbrev pub actor_update_seq_offset : PoseFormat → ℕ
actor_update_seq_offset f = actor_update_token_id_offset f + 8

abbrev pub actor_update_max_size : ℕ
actor_update_max_size = actor_update_size ue5

abbrev pub write_i64 : Bytes → ℕ → ℤ → Bytes
write_i64 buf i v = put buf i (to_le 8 (u64_of_i64 v))

abbrev pub write_u8 : Bytes → ℕ → ℕ → Bytes
write_u8 buf i v = put buf i (v ∷ [])

abbrev pub read_i64 : Bytes → ℕ → ℤ
read_i64 buf i = i64_of_u64 (of_le (slice buf i 8))

-- `if (fmt == PoseFormat::UE5) buf[HEADER_SIZE + state::VERSION] = state::VERSION_VALUE;`
abbrev write_version : Bytes → PoseFormat → Bytes
write_version b ue5 = write_u8 b (header_size + StateOff.version) StateOff.version_value
write_version b bwf = b

unfoldable pub init_actor_update_template_fmt :
    Bytes → PoseFormat → Bytes → ℤ → ℤ → ℕ → DecayRate → Bytes
init_actor_update_template_fmt buf fmt uuid app_id game_token_id distance decay =
    let b = put buf 0 (replicate actor_update_max_size 0) in
    let b = write_u8 b Off.type actor_update_request_2 in
    let b = write_i64 b Off.app_id app_id in
    let b = write_u8 b Off.distance distance in
    let b = write_u8 b Off.decay (decay_code decay) in
    let b = write_u8 b Off.contains_auth 1 in
    let b = put b Off.uuid (take 32 uuid) in
    let b = write_version b fmt in write_i64 b (actor_update_token_id_offset fmt) game_token_id

-- The values that one send carries.
pub record ActorPose (fl : Floats) : Type 0 where
  pub pos_x : fl.Double
  pub pos_y : fl.Double
  pub pos_z : fl.Double
  pub pitch : fl.Double
  pub yaw : fl.Double
  pub roll : fl.Double
  pub vel_x : fl.Double
  pub vel_y : fl.Double
  pub vel_z : fl.Double
  pub grounded : Bool
  pub updated_at_ms : fl.Double

module _ (fl : Floats) where
  abbrev pub write_f64 : Bytes → ℕ → fl.Double → Bytes
  write_f64 buf i v = put buf i (to_le 8 (fl.bits64 v))

  abbrev pub write_f32 : Bytes → ℕ → fl.Single → Bytes
  write_f32 buf i v = put buf i (to_le 4 (fl.bits32 v))

  -- The two branches on the profile.
  unfoldable pub write_pose : Bytes → PoseFormat → ActorPose fl → Bytes
  write_pose b ue5 p =
      let st = Off.payload in
      let b = write_f64 b (st + StateOff.position_x) p.pos_x in
      let b = write_f64 b (st + StateOff.position_y) p.pos_y in
      let b = write_f64 b (st + StateOff.position_z) p.pos_z in
      let b = write_f64 b (st + StateOff.rotation_pitch) p.pitch in
      let b = write_f64 b (st + StateOff.rotation_yaw) p.yaw in
      let b = write_f64 b (st + StateOff.rotation_roll) p.roll in
      let b = write_f64 b (st + StateOff.velocity_x) p.vel_x in
      let b = write_f64 b (st + StateOff.velocity_y) p.vel_y in
      write_f64 b (st + StateOff.velocity_z) p.vel_z
  write_pose b bwf p =
      let st = Off.payload in
      let b = write_f32 b (st + BwfPose.x) (fl.narrow p.pos_x) in
      let b = write_f32 b (st + BwfPose.y) (fl.narrow p.pos_y) in
      let b = write_f32 b (st + BwfPose.z) (fl.narrow p.pos_z) in
      let b = write_f32 b (st + BwfPose.yaw) (fl.narrow p.yaw) in
      let b = write_f32 b (st + BwfPose.pitch) (fl.narrow p.pitch) in
      let b = write_f32 b (st + BwfPose.velocity_x) (fl.narrow p.vel_x) in
      let b = write_f32 b (st + BwfPose.velocity_y) (fl.narrow p.vel_y) in
      let b = write_f32 b (st + BwfPose.velocity_z) (fl.narrow p.vel_z) in
      let b = write_u8 b (st + BwfPose.flags) (if p.grounded then BwfPose.flag_grounded else 0) in
      let b = write_u8 b (st + BwfPose.held_block_id) 0 in
      write_f64 b (st + BwfPose.updated_at) p.updated_at_ms

  -- Everything that `finalizeActorUpdateFmt` writes before the tag.
  unfoldable pub patch : Bytes → PoseFormat → ℤ → ℤ → ℤ → ActorPose fl → ℕ → Bytes
  unfolding write_pose
  patch buf fmt chunk_x chunk_y chunk_z p seq =
      let b = write_i64 buf Off.chunk_x chunk_x in
      let b = write_i64 b Off.chunk_y chunk_y in
      let b = write_i64 b Off.chunk_z chunk_z in
      let b = write_pose b fmt p in write_u8 b (actor_update_seq_offset fmt) seq

-- Signs the bytes before `at`, and stores the tag there.
unfoldable pub sign_at : Crypto → Bytes → ℕ → Bytes → Bool × Bytes
sign_at c b at token = let (good, tag) = spatial_sign c b at token in (good, put b at tag)

pub sign_at_lem :
    (c : Crypto) (b : Bytes) (at : ℕ) (token : Bytes) {tag : Bytes}
    → at ≤ 2048
    → tag_of c (take at b) token ≡ some tag
    → length tag ≡ tag_size
    → sign_at c b at token ≡ (true, put b at tag)
unfolding sign_at
sign_at_lem c b at token h e l = rw (spatial_sign_lem c b at token h e l)

pub hmac_offset-le : (fmt : PoseFormat) → actor_update_hmac_offset fmt ≤ 156
hmac_offset-le ue5 = omega arith
hmac_offset-le bwf = omega arith

unfoldable pub finalize_actor_update_fmt :
    (fl : Floats)
    → Crypto
    → Bytes
    → PoseFormat
    → ℤ
    → ℤ
    → ℤ
    → ActorPose fl
    → ℕ
    → Bytes
    → Bool × Bytes
finalize_actor_update_fmt fl c buf fmt chunk_x chunk_y chunk_z p seq token =
    sign_at c (patch fl buf fmt chunk_x chunk_y chunk_z p seq) (actor_update_hmac_offset fmt) token
