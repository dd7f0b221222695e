-- ===== src/Wire/ActorUpdate/Layout.antt =====
-- What the template and a send leave at each offset of the message.
use cks_loadtest.Base.{
  ℕ, ◌+◌, ◌≤◌, ◌≡◌, true, refl, ap, ◌∙◌, List, [], ◌∷◌, arith, length, take, All, replicate,
  length-take,
}
use cks_loadtest.Base.Int.{ℤ}
use cks_loadtest.Base.Words.{
  Bytes, to_le, length-to_le, of_le-to_le, u64_of_i64, i64_of_u64-u64_of_i64, u64_of_i64-lt, IsI64,
}
use cks_loadtest.Wire.Codes.{actor_update_request_2, DecayRate, decay_code}
use cks_loadtest.Wire.Off
use cks_loadtest.Wire.StateOff
use cks_loadtest.Wire.Buffer.{
  slice, Write, put_all, put, HasWidth, slice-put_all, length-put_all, length-put, untouched,
  slice-put_all-untouched, slice-put_within,
}
use cks_loadtest.Wire.ActorUpdate.{
  PoseFormat, ue5, bwf, actor_update_token_id_offset, actor_update_max_size, read_i64,
  init_actor_update_template_fmt,
}

abbrev pub wr : ℕ → ℕ → Bytes → Write
wr i n xs = record { at = i; width = n; bytes = xs }

abbrev pub wr_i64 : ℕ → ℤ → Write
wr_i64 i v = wr i 8 (to_le 8 (u64_of_i64 v))

-- An `int64_t` that stands in a message is read back.
pub read_i64_of_slice :
    (m : Bytes) (i : ℕ) (v : ℤ) → IsI64 v → slice m i 8 ≡ to_le 8 (u64_of_i64 v) → read_i64 m i ≡ v
read_i64_of_slice m i v h e =
    rw (e, of_le-to_le 8 (u64_of_i64 v) (u64_of_i64-lt v)) (i64_of_u64-u64_of_i64 v h)

abbrev cleared : Bytes → Bytes
cleared buf = put buf 0 (replicate 197 0)

-- The writes of `init_actor_update_template_fmt` after the `memset`, the latest first.
init_writes : PoseFormat → Bytes → ℤ → ℤ → ℕ → DecayRate → List Write
init_writes ue5 uuid app_id token_id distance decay =
    wr_i64 188 token_id
    ∷ wr 68 1 (2 ∷ [])
    ∷ wr 36 32 (take 32 uuid)
    ∷ wr 35 1 (1 ∷ [])
    ∷ wr 34 1 (decay_code decay ∷ [])
    ∷ wr 33 1 (distance ∷ [])
    ∷ wr_i64 1 app_id
    ∷ wr 0 1 (128 ∷ [])
    ∷ []
init_writes bwf uuid app_id token_id distance decay =
    wr_i64 148 token_id
    ∷ wr 36 32 (take 32 uuid)
    ∷ wr 35 1 (1 ∷ [])
    ∷ wr 34 1 (decay_code decay ∷ [])
    ∷ wr 33 1 (distance ∷ [])
    ∷ wr_i64 1 app_id
    ∷ wr 0 1 (128 ∷ [])
    ∷ []

init-put_all :
    (buf : Bytes) (fmt : PoseFormat) (uuid : Bytes) (app_id token_id : ℤ) (distance : ℕ)
    (decay : DecayRate)
    → init_actor_update_template_fmt buf fmt uuid app_id token_id distance decay
      ≡ put_all (cleared buf) (init_writes fmt uuid app_id token_id distance decay)
unfolding init_actor_update_template_fmt init_writes
init-put_all buf ue5 uuid app_id token_id distance decay = refl
init-put_all buf bwf uuid app_id token_id distance decay = refl

pub length-init :
    (buf : Bytes) (fmt : PoseFormat) (uuid : Bytes) (app_id token_id : ℤ) (distance : ℕ)
    (decay : DecayRate)
    → length (init_actor_update_template_fmt buf fmt uuid app_id token_id distance decay)
      ≡ length buf
length-init buf fmt uuid app_id token_id distance decay =
    ap length (init-put_all buf fmt uuid app_id token_id distance decay)
    ∙ length-put_all (cleared buf) (init_writes fmt uuid app_id token_id distance decay)
    ∙ length-put buf 0 (replicate 197 0)

init_writes-HasWidth :
    (fmt : PoseFormat) (uuid : Bytes) (app_id token_id : ℤ) (distance : ℕ) (decay : DecayRate)
    → length uuid ≡ 32
    → All HasWidth (init_writes fmt uuid app_id token_id distance decay)
unfolding init_writes
init_writes-HasWidth ue5 uuid app_id token_id distance decay h = omega (
  arith,
  length-to_le 8 (u64_of_i64 token_id),
  length-to_le 8 (u64_of_i64 app_id),
  length-take 32 uuid,
)
init_writes-HasWidth bwf uuid app_id token_id distance decay h = omega (
  arith,
  length-to_le 8 (u64_of_i64 token_id),
  length-to_le 8 (u64_of_i64 app_id),
  length-take 32 uuid,
)

-- The part of the payload that no send writes: the version of the UE5 state, and the zeros behind it,
-- between the fields and after them.
abbrev pub IsPayload : PoseFormat → Bytes → Type 0
IsPayload ue5 m =
    (slice m (Off.payload + StateOff.version) 1 ≡ StateOff.version_value ∷ [])
    × (slice m 69 7 ≡ replicate 7 0)
    × (slice m 148 8 ≡ replicate 8 0)
IsPayload bwf m = (slice m 102 2 ≡ replicate 2 0) × (slice m 112 4 ≡ replicate 4 0)

-- The static fields of a message for a profile.
pub record IsTemplate (fmt : PoseFormat) (uuid : Bytes) (app_id token_id : ℤ) (distance : ℕ)
    (decay : DecayRate) (m : Bytes) : Type 0 where
  pub type_at : slice m Off.type 1 ≡ actor_update_request_2 ∷ []
  pub app_id_at : slice m Off.app_id 8 ≡ to_le 8 (u64_of_i64 app_id)
  pub distance_at : slice m Off.distance 1 ≡ distance ∷ []
  pub decay_at : slice m Off.decay 1 ≡ decay_code decay ∷ []
  pub contains_auth_at : slice m Off.contains_auth 1 ≡ 1 ∷ []
  pub uuid_at : slice m Off.uuid 32 ≡ take 32 uuid
  pub payload_at : IsPayload fmt m
  pub token_id_at : slice m (actor_update_token_id_offset fmt) 8 ≡ to_le 8 (u64_of_i64 token_id)

-- What the `memset` clears and no write touches is zero.
untouched_zero :
    (buf : Bytes) (i n : ℕ) (ws : List Write)
    → length buf ≡ actor_update_max_size
    → All HasWidth ws
    → i + n ≤ 197
    → untouched i n ws ≡ true
    → slice (put_all (cleared buf) ws) i n ≡ slice (replicate 197 0) i n
untouched_zero buf i n ws hb w h u =
    slice-put_all-untouched (cleared buf) i n ws w u
    ∙ slice-put_within buf i n (replicate 197 0) (omega (arith, hb)) (omega arith)

-- After `initActorUpdateTemplateFmt` every static field stands at its offset.
pub init-IsTemplate :
    (buf : Bytes) (fmt : PoseFormat) (uuid : Bytes) (app_id token_id : ℤ) (distance : ℕ)
    (decay : DecayRate)
    → length buf ≡ actor_update_max_size
    → length uuid ≡ 32
    → IsTemplate fmt uuid app_id token_id distance decay
        (init_actor_update_template_fmt buf fmt uuid app_id token_id distance decay)
unfolding init_writes
init-IsTemplate buf ue5 uuid app_id token_id distance decay hb hu =
    let ws = init_writes ue5 uuid app_id token_id distance decay in
    let w = init_writes-HasWidth ue5 uuid app_id token_id distance decay hu in
    let b = cleared buf in
    let hc : length b ≡ 197 = length-put buf 0 (replicate 197 0) ∙ hb in
    rw (init-put_all buf ue5 uuid app_id token_id distance decay) (record {
      type_at = slice-put_all b 197 0 1 ws hc w refl;
      app_id_at = slice-put_all b 197 1 8 ws hc w refl;
      distance_at = slice-put_all b 197 33 1 ws hc w refl;
      decay_at = slice-put_all b 197 34 1 ws hc w refl;
      contains_auth_at = slice-put_all b 197 35 1 ws hc w refl;
      uuid_at = slice-put_all b 197 36 32 ws hc w refl;
      payload_at = (
        slice-put_all b 197 68 1 ws hc w refl,
        untouched_zero buf 69 7 ws hb w (omega arith) refl,
        untouched_zero buf 148 8 ws hb w (omega arith) refl,
      );
      token_id_at = slice-put_all b 197 188 8 ws hc w refl;
    })
init-IsTemplate buf bwf uuid app_id token_id distance decay hb hu =
    let ws = init_writes bwf uuid app_id token_id distance decay in
    let w = init_writes-HasWidth bwf uuid app_id token_id distance decay hu in
    let b = cleared buf in
    let hc : length b ≡ 197 = length-put buf 0 (replicate 197 0) ∙ hb in
    rw (init-put_all buf bwf uuid app_id token_id distance decay) (record {
      type_at = slice-put_all b 197 0 1 ws hc w refl;
      app_id_at = slice-put_all b 197 1 8 ws hc w refl;
      distance_at = slice-put_all b 197 33 1 ws hc w refl;
      decay_at = slice-put_all b 197 34 1 ws hc w refl;
      contains_auth_at = slice-put_all b 197 35 1 ws hc w refl;
      uuid_at = slice-put_all b 197 36 32 ws hc w refl;
      payload_at = (
        untouched_zero buf 102 2 ws hb w (omega arith) refl,
        untouched_zero buf 112 4 ws hb w (omega arith) refl,
      );
      token_id_at = slice-put_all b 197 148 8 ws hc w refl;
    })
