-- ===== src/Wire/ActorUpdate/Legacy.antt =====
-- `initActorUpdateTemplate` and `finalizeActorUpdate` of src/Wire.hpp, which know the UE5 state
-- only, against the functions that take a profile.
use cks_loadtest.Base.{ℕ, ◌+◌, ◌≡◌, refl, Bool, take, replicate}
use cks_loadtest.Base.Int.{ℤ}
use cks_loadtest.Base.Words.{Bytes}
use cks_loadtest.Platform.{Floats, Crypto}
use cks_loadtest.Wire.Codes.{actor_update_request_2, DecayRate, decay_code}
use cks_loadtest.Wire.Off
use cks_loadtest.Wire.StateOff
use cks_loadtest.Wire.Buffer.{put}
use cks_loadtest.Wire.ActorUpdate.{
  ue5, actor_update_size, actor_update_hmac_offset, actor_update_token_id_offset,
  actor_update_seq_offset, header_size, write_i64, write_u8, write_f64,
  init_actor_update_template_fmt, ActorPose, patch, sign_at, finalize_actor_update_fmt,
}

pub init_actor_update_template : Bytes → Bytes → ℤ → ℤ → ℕ → DecayRate → Bytes
init_actor_update_template buf uuid app_id game_token_id distance decay =
    let b = put buf 0 (replicate (actor_update_size ue5) 0) in
    let b = write_u8 b Off.type actor_update_request_2 in
    let b = write_i64 b Off.app_id app_id in
    let b = write_u8 b Off.distance distance in
    let b = write_u8 b Off.decay (decay_code decay) in
    let b = write_u8 b Off.contains_auth 1 in
    let b = put b Off.uuid (take 32 uuid) in
    let b = write_u8 b (header_size + StateOff.version) StateOff.version_value in
    write_i64 b (actor_update_token_id_offset ue5) game_token_id

module _ (fl : Floats) (c : Crypto) where
  pub finalize_actor_update :
      Bytes
      → (chunk_x chunk_y chunk_z : ℤ)
      → (pos_x pos_y pos_z rot_pitch rot_yaw rot_roll vel_x vel_y vel_z : fl.Double) → ℕ
      → Bytes
      → Bool × Bytes
  finalize_actor_update buf chunk_x chunk_y chunk_z pos_x pos_y pos_z rot_pitch rot_yaw rot_roll
        vel_x vel_y vel_z seq token =
      let st = Off.payload in
      let b = write_i64 buf Off.chunk_x chunk_x in
      let b = write_i64 b Off.chunk_y chunk_y in
      let b = write_i64 b Off.chunk_z chunk_z in
      let b = write_f64 fl b (st + StateOff.position_x) pos_x in
      let b = write_f64 fl b (st + StateOff.position_y) pos_y in
      let b = write_f64 fl b (st + StateOff.position_z) pos_z in
      let b = write_f64 fl b (st + StateOff.rotation_pitch) rot_pitch in
      let b = write_f64 fl b (st + StateOff.rotation_yaw) rot_yaw in
      let b = write_f64 fl b (st + StateOff.rotation_roll) rot_roll in
      let b = write_f64 fl b (st + StateOff.velocity_x) vel_x in
      let b = write_f64 fl b (st + StateOff.velocity_y) vel_y in
      let b = write_f64 fl b (st + StateOff.velocity_z) vel_z in
      let b = write_u8 b (actor_update_seq_offset ue5) seq in
      sign_at c b (actor_update_hmac_offset ue5) token

  -- The two pairs agree: on every buffer the older template and the older send give the bytes and
  -- the result that the UE5 profile gives.
  pub legacy-eq-ue5 :
      (buf uuid : Bytes) (app_id game_token_id : ℤ) (distance : ℕ) (decay : DecayRate)
      (chunk_x chunk_y chunk_z : ℤ) (p : ActorPose fl) (seq : ℕ) (token : Bytes)
      → (init_actor_update_template buf uuid app_id game_token_id distance decay
          ≡ init_actor_update_template_fmt buf ue5 uuid app_id game_token_id distance decay)
        × (finalize_actor_update buf chunk_x chunk_y chunk_z p.pos_x p.pos_y p.pos_z p.pitch p.yaw
              p.roll p.vel_x p.vel_y p.vel_z seq token
            ≡ finalize_actor_update_fmt fl c buf ue5 chunk_x chunk_y chunk_z p seq token)
  unfolding init_actor_update_template init_actor_update_template_fmt finalize_actor_update
      finalize_actor_update_fmt patch
  legacy-eq-ue5 buf uuid app_id game_token_id distance decay chunk_x chunk_y chunk_z p seq token =
      (refl, refl)
