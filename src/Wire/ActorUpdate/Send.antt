-- ===== src/Wire/ActorUpdate/Send.antt =====
-- What a send leaves in the message: the patched fields, the static ones, and a tag over both.
use cks_loadtest.Base.{
  ℕ, ◌+◌, ◌≡◌, refl, sym, ap, ◌∙◌, true, some, List, [], ◌∷◌, arith, length, take, All,
  if◌then◌else◌,
}
use cks_loadtest.Base.Int.{ℤ}
use cks_loadtest.Base.Words.{Bytes, to_le, IsI64}
use cks_loadtest.Platform.{Floats, Crypto}
use cks_loadtest.Wire.Codes.{DecayRate}
use cks_loadtest.Wire.Off
use cks_loadtest.Wire.StateOff
use cks_loadtest.Wire.BwfPose
use cks_loadtest.Wire.Buffer.{
  put, slice, Write, put_all, HasWidth, slice-put_all, slice-put_all-untouched, length-put_all,
  length-put, take-put_below,
}
use cks_loadtest.Wire.Hmac.{tag_size, tag_of}
use cks_loadtest.Wire.ActorUpdate.{
  PoseFormat, ue5, bwf, actor_update_hmac_offset, actor_update_seq_offset, actor_update_max_size,
  read_i64, ActorPose, patch, sign_at, finalize_actor_update_fmt, sign_at_lem, hmac_offset-le,
}
use cks_loadtest.Wire.ActorUpdate.Layout.{wr, wr_i64, read_i64_of_slice, IsTemplate}

module _ (fl : Floats) where
  abbrev wr_f64 : ℕ → fl.Double → Write
  wr_f64 i v = wr i 8 (to_le 8 (fl.bits64 v))

  abbrev wr_f32 : ℕ → fl.Double → Write
  wr_f32 i v = wr i 4 (to_le 4 (fl.bits32 (fl.narrow v)))

  -- The writes of `write_pose`, the latest first.
  pose_writes : PoseFormat → ActorPose fl → List Write → List Write
  pose_writes ue5 p ws =
      wr_f64 140 p.vel_z
      ∷ wr_f64 132 p.vel_y
      ∷ wr_f64 124 p.vel_x
      ∷ wr_f64 116 p.roll
      ∷ wr_f64 108 p.yaw
      ∷ wr_f64 100 p.pitch
      ∷ wr_f64 92 p.pos_z
      ∷ wr_f64 84 p.pos_y
      ∷ wr_f64 76 p.pos_x
      ∷ ws
  pose_writes bwf p ws =
      wr_f64 104 p.updated_at_ms
      ∷ wr 101 1 (0 ∷ [])
      ∷ wr 100 1 ((if p.grounded then 1 else 0) ∷ [])
      ∷ wr_f32 96 p.vel_z
      ∷ wr_f32 92 p.vel_y
      ∷ wr_f32 88 p.vel_x
      ∷ wr_f32 84 p.pitch
      ∷ wr_f32 80 p.yaw
      ∷ wr_f32 76 p.pos_z
      ∷ wr_f32 72 p.pos_y
      ∷ wr_f32 68 p.pos_x
      ∷ ws

  patch_writes : PoseFormat → ℤ → ℤ → ℤ → ActorPose fl → ℕ → List Write
  unfolding pose_writes
  patch_writes fmt chunk_x chunk_y chunk_z p seq =
      wr (actor_update_seq_offset fmt) 1 (seq ∷ [])
      ∷ pose_writes fmt p (wr_i64 25 chunk_z ∷ wr_i64 17 chunk_y ∷ wr_i64 9 chunk_x ∷ [])

  patch-put_all :
      (buf : Bytes) (fmt : PoseFormat) (chunk_x chunk_y chunk_z : ℤ) (p : ActorPose fl) (seq : ℕ)
      → patch fl buf fmt chunk_x chunk_y chunk_z p seq
        ≡ put_all buf (patch_writes fmt chunk_x chunk_y chunk_z p seq)
  unfolding patch patch_writes
  patch-put_all buf ue5 chunk_x chunk_y chunk_z p seq = refl
  patch-put_all buf bwf chunk_x chunk_y chunk_z p seq = refl

  patch_writes-HasWidth :
      (fmt : PoseFormat) (chunk_x chunk_y chunk_z : ℤ) (p : ActorPose fl) (seq : ℕ)
      → All HasWidth (patch_writes fmt chunk_x chunk_y chunk_z p seq)
  unfolding patch_writes to_le
  patch_writes-HasWidth ue5 chunk_x chunk_y chunk_z p seq = (
    refl,
    (
      refl,
      (refl, (refl, (refl, (refl, (refl, (refl, (refl, (refl, (refl, (refl, (refl, tt))))))))))),
    ),
  )
  patch_writes-HasWidth bwf chunk_x chunk_y chunk_z p seq = (
    refl,
    (
      refl,
      (
        refl,
        (
          refl,
          (
            refl,
            (refl, (refl, (refl, (refl, (refl, (refl, (refl, (refl, (refl, (refl, tt)))))))))),
          ),
        ),
      ),
    ),
  )

  -- The pose stands in the payload, in the profile's own encoding.
  abbrev pub IsPose : PoseFormat → ActorPose fl → Bytes → Type 0
  IsPose ue5 p m =
      (slice m (Off.payload + StateOff.position_x) 8 ≡ to_le 8 (fl.bits64 p.pos_x))
      × (slice m (Off.payload + StateOff.position_y) 8 ≡ to_le 8 (fl.bits64 p.pos_y))
      × (slice m (Off.payload + StateOff.position_z) 8 ≡ to_le 8 (fl.bits64 p.pos_z))
      × (slice m (Off.payload + StateOff.rotation_pitch) 8 ≡ to_le 8 (fl.bits64 p.pitch))
      × (slice m (Off.payload + StateOff.rotation_yaw) 8 ≡ to_le 8 (fl.bits64 p.yaw))
      × (slice m (Off.payload + StateOff.rotation_roll) 8 ≡ to_le 8 (fl.bits64 p.roll))
      × (slice m (Off.payload + StateOff.velocity_x) 8 ≡ to_le 8 (fl.bits64 p.vel_x))
      × (slice m (Off.payload + StateOff.velocity_y) 8 ≡ to_le 8 (fl.bits64 p.vel_y))
      × (slice m (Off.payload + StateOff.velocity_z) 8 ≡ to_le 8 (fl.bits64 p.vel_z))
  IsPose bwf p m =
      (slice m (Off.payload + BwfPose.x) 4 ≡ to_le 4 (fl.bits32 (fl.narrow p.pos_x)))
      × (slice m (Off.payload + BwfPose.y) 4 ≡ to_le 4 (fl.bits32 (fl.narrow p.pos_y)))
      × (slice m (Off.payload + BwfPose.z) 4 ≡ to_le 4 (fl.bits32 (fl.narrow p.pos_z)))
      × (slice m (Off.payload + BwfPose.yaw) 4 ≡ to_le 4 (fl.bits32 (fl.narrow p.yaw)))
      × (slice m (Off.payload + BwfPose.pitch) 4 ≡ to_le 4 (fl.bits32 (fl.narrow p.pitch)))
      × (slice m (Off.payload + BwfPose.velocity_x) 4 ≡ to_le 4 (fl.bits32 (fl.narrow p.vel_x)))
      × (slice m (Off.payload + BwfPose.velocity_y) 4 ≡ to_le 4 (fl.bits32 (fl.narrow p.vel_y)))
      × (slice m (Off.payload + BwfPose.velocity_z) 4 ≡ to_le 4 (fl.bits32 (fl.narrow p.vel_z)))
      × (slice m (Off.payload + BwfPose.flags) 1
          ≡ (if p.grounded then BwfPose.flag_grounded else 0) ∷ [])
      × (slice m (Off.payload + BwfPose.held_block_id) 1 ≡ 0 ∷ [])
      × (slice m (Off.payload + BwfPose.updated_at) 8 ≡ to_le 8 (fl.bits64 p.updated_at_ms))

module _ (fl : Floats) (c : Crypto) where
  -- A message as a receiver reads it: the patched fields, and a tag over all that precedes it.
  pub record IsSent (fmt : PoseFormat) (chunk_x chunk_y chunk_z : ℤ) (p : ActorPose fl) (seq : ℕ)
      (token m : Bytes) : Type 0 where
    pub chunk_x_at : read_i64 m Off.chunk_x ≡ chunk_x
    pub chunk_y_at : read_i64 m Off.chunk_y ≡ chunk_y
    pub chunk_z_at : read_i64 m Off.chunk_z ≡ chunk_z
    pub pose_at : IsPose fl fmt p m
    pub seq_at : slice m (actor_update_seq_offset fmt) 1 ≡ seq ∷ []
    pub tag_at :
        tag_of c (take (actor_update_hmac_offset fmt) m) token
        ≡ some (slice m (actor_update_hmac_offset fmt) tag_size)

  final_writes : PoseFormat → ℤ → ℤ → ℤ → ActorPose fl → ℕ → Bytes → List Write
  unfolding patch_writes pose_writes
  final_writes fmt chunk_x chunk_y chunk_z p seq tag =
      wr (actor_update_hmac_offset fmt) 32 tag ∷ patch_writes fl fmt chunk_x chunk_y chunk_z p seq

  finalize-put_all :
      (buf : Bytes) (fmt : PoseFormat) (chunk_x chunk_y chunk_z : ℤ) (p : ActorPose fl) (seq : ℕ)
      (token tag : Bytes)
      → tag_of c
          (take (actor_update_hmac_offset fmt) (patch fl buf fmt chunk_x chunk_y chunk_z p seq))
          token
        ≡ some tag
      → length tag ≡ tag_size
      → finalize_actor_update_fmt fl c buf fmt chunk_x chunk_y chunk_z p seq token
        ≡ (true, put_all buf (final_writes fmt chunk_x chunk_y chunk_z p seq tag))
  unfolding finalize_actor_update_fmt final_writes
  finalize-put_all buf fmt chunk_x chunk_y chunk_z p seq token tag e l =
      sign_at_lem c (patch fl buf fmt chunk_x chunk_y chunk_z p seq) (actor_update_hmac_offset fmt)
        token (omega (arith, hmac_offset-le fmt)) e l
      ∙ ap (λ (b : Bytes). (true, put b (actor_update_hmac_offset fmt) tag))
          (patch-put_all fl buf fmt chunk_x chunk_y chunk_z p seq)

  final_tag :
      (buf : Bytes) (fmt : PoseFormat) (chunk_x chunk_y chunk_z : ℤ) (p : ActorPose fl) (seq : ℕ)
      (token tag : Bytes)
      → tag_of c
          (take (actor_update_hmac_offset fmt) (patch fl buf fmt chunk_x chunk_y chunk_z p seq))
          token
        ≡ some tag
      → tag_of c
          (take
            (actor_update_hmac_offset fmt)
            (put_all buf (final_writes fmt chunk_x chunk_y chunk_z p seq tag)))
          token
        ≡ some tag
  unfolding final_writes
  final_tag buf fmt chunk_x chunk_y chunk_z p seq token tag e =
      rw
        (take-put_below (put_all buf (patch_writes fl fmt chunk_x chunk_y chunk_z p seq))
          (actor_update_hmac_offset fmt) (actor_update_hmac_offset fmt) tag (omega arith))
        (rw (← patch-put_all fl buf fmt chunk_x chunk_y chunk_z p seq) e)

  IsSent-fields :
      (buf : Bytes) (fmt : PoseFormat) (chunk_x chunk_y chunk_z : ℤ) (p : ActorPose fl) (seq : ℕ)
      (token tag : Bytes)
      → length buf ≡ actor_update_max_size
      → IsI64 chunk_x
      → IsI64 chunk_y
      → IsI64 chunk_z
      → tag_of c
          (take (actor_update_hmac_offset fmt) (patch fl buf fmt chunk_x chunk_y chunk_z p seq))
          token
        ≡ some tag
      → length tag ≡ tag_size
      → IsSent fmt chunk_x chunk_y chunk_z p seq token
          (put_all buf (final_writes fmt chunk_x chunk_y chunk_z p seq tag))
  unfolding final_writes
  IsSent-fields buf ue5 chunk_x chunk_y chunk_z p seq token tag hb hx hy hz e l =
      let ws = final_writes ue5 chunk_x chunk_y chunk_z p seq tag in
      let w : All HasWidth ws = (l, patch_writes-HasWidth fl ue5 chunk_x chunk_y chunk_z p seq) in
      record {
        chunk_x_at =
            read_i64_of_slice (put_all buf ws) 9 chunk_x hx
              (slice-put_all buf 197 9 8 ws hb w refl);
        chunk_y_at =
            read_i64_of_slice (put_all buf ws) 17 chunk_y hy
              (slice-put_all buf 197 17 8 ws hb w refl);
        chunk_z_at =
            read_i64_of_slice (put_all buf ws) 25 chunk_z hz
              (slice-put_all buf 197 25 8 ws hb w refl);
        pose_at = (
          slice-put_all buf 197 76 8 ws hb w refl,
          slice-put_all buf 197 84 8 ws hb w refl,
          slice-put_all buf 197 92 8 ws hb w refl,
          slice-put_all buf 197 100 8 ws hb w refl,
          slice-put_all buf 197 108 8 ws hb w refl,
          slice-put_all buf 197 116 8 ws hb w refl,
          slice-put_all buf 197 124 8 ws hb w refl,
          slice-put_all buf 197 132 8 ws hb w refl,
          slice-put_all buf 197 140 8 ws hb w refl,
        );
        seq_at = slice-put_all buf 197 196 1 ws hb w refl;
        tag_at =
            final_tag buf ue5 chunk_x chunk_y chunk_z p seq token tag e
            ∙ ap some (sym (slice-put_all buf 197 156 32 ws hb w refl));
      }
  IsSent-fields buf bwf chunk_x chunk_y chunk_z p seq token tag hb hx hy hz e l =
      let ws = final_writes bwf chunk_x chunk_y chunk_z p seq tag in
      let w : All HasWidth ws = (l, patch_writes-HasWidth fl bwf chunk_x chunk_y chunk_z p seq) in
      record {
        chunk_x_at =
            read_i64_of_slice (put_all buf ws) 9 chunk_x hx
              (slice-put_all buf 197 9 8 ws hb w refl);
        chunk_y_at =
            read_i64_of_slice (put_all buf ws) 17 chunk_y hy
              (slice-put_all buf 197 17 8 ws hb w refl);
        chunk_z_at =
            read_i64_of_slice (put_all buf ws) 25 chunk_z hz
              (slice-put_all buf 197 25 8 ws hb w refl);
        pose_at = (
          slice-put_all buf 197 68 4 ws hb w refl,
          slice-put_all buf 197 72 4 ws hb w refl,
          slice-put_all buf 197 76 4 ws hb w refl,
          slice-put_all buf 197 80 4 ws hb w refl,
          slice-put_all buf 197 84 4 ws hb w refl,
          slice-put_all buf 197 88 4 ws hb w refl,
          slice-put_all buf 197 92 4 ws hb w refl,
          slice-put_all buf 197 96 4 ws hb w refl,
          slice-put_all buf 197 100 1 ws hb w refl,
          slice-put_all buf 197 101 1 ws hb w refl,
          slice-put_all buf 197 104 8 ws hb w refl,
        );
        seq_at = slice-put_all buf 197 156 1 ws hb w refl;
        tag_at =
            final_tag buf bwf chunk_x chunk_y chunk_z p seq token tag e
            ∙ ap some (sym (slice-put_all buf 197 116 32 ws hb w refl));
      }

  -- A send whose tag OpenSSL computes (a result of 32 octets) succeeds, for either profile, and
  -- leaves in the message the three chunk coordinates, the pose, the sequence number and a tag
  -- over exactly the bytes before it.
  pub finalize-IsSent :
      (buf : Bytes) (fmt : PoseFormat) (chunk_x chunk_y chunk_z : ℤ) (p : ActorPose fl) (seq : ℕ)
      (token tag : Bytes)
      → length buf ≡ actor_update_max_size
      → IsI64 chunk_x
      → IsI64 chunk_y
      → IsI64 chunk_z
      → tag_of c
          (take (actor_update_hmac_offset fmt) (patch fl buf fmt chunk_x chunk_y chunk_z p seq))
          token
        ≡ some tag
      → length tag ≡ tag_size
      → let (sent, m) =
          finalize_actor_update_fmt fl c buf fmt chunk_x chunk_y chunk_z p seq token in
        (sent ≡ true) × IsSent fmt chunk_x chunk_y chunk_z p seq token m
  finalize-IsSent buf fmt chunk_x chunk_y chunk_z p seq token tag hb hx hy hz e l =
      rw (finalize-put_all buf fmt chunk_x chunk_y chunk_z p seq token tag e l)
        (refl, IsSent-fields buf fmt chunk_x chunk_y chunk_z p seq token tag hb hx hy hz e l)

  kept_fields :
      (buf : Bytes) (fmt : PoseFormat) (uuid : Bytes) (app_id token_id : ℤ) (distance : ℕ)
      (decay : DecayRate) (chunk_x chunk_y chunk_z : ℤ) (p : ActorPose fl) (seq : ℕ) (tag : Bytes)
      → length tag ≡ tag_size
      → IsTemplate fmt uuid app_id token_id distance decay buf
      → IsTemplate fmt uuid app_id token_id distance decay
          (put_all buf (final_writes fmt chunk_x chunk_y chunk_z p seq tag))
  unfolding final_writes
  kept_fields buf ue5 uuid app_id token_id distance decay chunk_x chunk_y chunk_z p seq tag l t =
      let ws = final_writes ue5 chunk_x chunk_y chunk_z p seq tag in
      let w : All HasWidth ws = (l, patch_writes-HasWidth fl ue5 chunk_x chunk_y chunk_z p seq) in
      record {
        type_at = slice-put_all-untouched buf 0 1 ws w refl ∙ t.type_at;
        app_id_at = slice-put_all-untouched buf 1 8 ws w refl ∙ t.app_id_at;
        distance_at = slice-put_all-untouched buf 33 1 ws w refl ∙ t.distance_at;
        decay_at = slice-put_all-untouched buf 34 1 ws w refl ∙ t.decay_at;
        contains_auth_at = slice-put_all-untouched buf 35 1 ws w refl ∙ t.contains_auth_at;
        uuid_at = slice-put_all-untouched buf 36 32 ws w refl ∙ t.uuid_at;
        payload_at = (
          slice-put_all-untouched buf 68 1 ws w refl ∙ t.payload_at.0,
          slice-put_all-untouched buf 69 7 ws w refl ∙ t.payload_at.1,
          slice-put_all-untouched buf 148 8 ws w refl ∙ t.payload_at.2,
        );
        token_id_at = slice-put_all-untouched buf 188 8 ws w refl ∙ t.token_id_at;
      }
  kept_fields buf bwf uuid app_id token_id distance decay chunk_x chunk_y chunk_z p seq tag l t =
      let ws = final_writes bwf chunk_x chunk_y chunk_z p seq tag in
      let w : All HasWidth ws = (l, patch_writes-HasWidth fl bwf chunk_x chunk_y chunk_z p seq) in
      record {
        type_at = slice-put_all-untouched buf 0 1 ws w refl ∙ t.type_at;
        app_id_at = slice-put_all-untouched buf 1 8 ws w refl ∙ t.app_id_at;
        distance_at = slice-put_all-untouched buf 33 1 ws w refl ∙ t.distance_at;
        decay_at = slice-put_all-untouched buf 34 1 ws w refl ∙ t.decay_at;
        contains_auth_at = slice-put_all-untouched buf 35 1 ws w refl ∙ t.contains_auth_at;
        uuid_at = slice-put_all-untouched buf 36 32 ws w refl ∙ t.uuid_at;
        payload_at = (
          slice-put_all-untouched buf 102 2 ws w refl ∙ t.payload_at.0,
          slice-put_all-untouched buf 112 4 ws w refl ∙ t.payload_at.1,
        );
        token_id_at = slice-put_all-untouched buf 148 8 ws w refl ∙ t.token_id_at;
      }

  -- A send for which OpenSSL computes a tag of 32 octets leaves the template's static fields (type,
  -- app id, distance, decay, auth flag, uuid, the version and the zeros of the payload, game token id)
  -- as they were.
  pub finalize-IsTemplate :
      (buf : Bytes) (fmt : PoseFormat) (uuid : Bytes) (app_id token_id : ℤ) (distance : ℕ)
      (decay : DecayRate) (chunk_x chunk_y chunk_z : ℤ) (p : ActorPose fl) (seq : ℕ)
      (token tag : Bytes)
      → tag_of c
          (take (actor_update_hmac_offset fmt) (patch fl buf fmt chunk_x chunk_y chunk_z p seq))
          token
        ≡ some tag
      → length tag ≡ tag_size
      → IsTemplate fmt uuid app_id token_id distance decay buf
      → IsTemplate fmt uuid app_id token_id distance decay
          (finalize_actor_update_fmt fl c buf fmt chunk_x chunk_y chunk_z p seq token).1
  finalize-IsTemplate buf fmt uuid app_id token_id distance decay chunk_x chunk_y chunk_z p seq
        token tag e l t =
      rw (finalize-put_all buf fmt chunk_x chunk_y chunk_z p seq token tag e l) (
        kept_fields buf fmt uuid app_id token_id distance decay chunk_x chunk_y chunk_z p seq tag l
          t)

  -- A send keeps the length of the buffer.
  pub length-finalize :
      (buf : Bytes) (fmt : PoseFormat) (chunk_x chunk_y chunk_z : ℤ) (p : ActorPose fl) (seq : ℕ)
      (token : Bytes)
      → length (finalize_actor_update_fmt fl c buf fmt chunk_x chunk_y chunk_z p seq token).1
        ≡ length buf
  unfolding finalize_actor_update_fmt sign_at
  length-finalize buf fmt chunk_x chunk_y chunk_z p seq token =
      length-put (patch fl buf fmt chunk_x chunk_y chunk_z p seq) (actor_update_hmac_offset fmt) _
      ∙ ap length (patch-put_all fl buf fmt chunk_x chunk_y chunk_z p seq)
      ∙ length-put_all buf (patch_writes fl fmt chunk_x chunk_y chunk_z p seq)
