-- ===== src/Movement/Client/Ready.antt =====
-- The message of a client through the operations of Movement.Client and Movement.Walk.
use cks_loadtest.Base.{
  ℕ, suc, zero, ◌+◌, ◌/◌, ◌%◌, ◌≡◌, refl, ap, ◌∙◌, arith, true, some, take, length, length-append,
}
use cks_loadtest.Base.Words.{Bytes, IsI64, u8, u64_of_i64}
use cks_loadtest.Platform.{Floats, Crypto}
use cks_loadtest.Config.{Config}
use cks_loadtest.Control.{ClientCredentials}
use cks_loadtest.Wire.Hmac.{tag_size, tag_of}
use cks_loadtest.Wire.ActorUpdate.{actor_update_max_size, actor_update_hmac_offset, patch}
use cks_loadtest.Wire.ActorUpdate.Layout.{IsTemplate, length-init, init-IsTemplate}
use cks_loadtest.Wire.ActorUpdate.Send.{finalize-IsTemplate, length-finalize}
use cks_loadtest.Wire.RoundTrip.{finalize-verifies}
use cks_loadtest.Wire.Inbound.{verify_notification}
use cks_loadtest.Worker.Client.{Sim}
use cks_loadtest.Movement.{Random}
use cks_loadtest.Movement.Walk.{update_walk}
use cks_loadtest.Movement.Message.{texts, texts-walk, texts-place, texts-project}
use cks_loadtest.Movement.Client.{
  hex_digits, place_and_aim, generate_uuid, init_simulation, pose_format, message_size, decay_rate,
  rebuild_template, pose_of, build_update,
}

module _ {fl : Floats} (cfg : Config fl) (creds : ClientCredentials) where
  -- The message has the client's fixed fields.
  pub record IsReady (s : Sim fl) : Type 0 where
    pub whole : length s.message ≡ actor_update_max_size
    pub named : length s.uuid ≡ 32
    pub templated :
        IsTemplate
          (pose_format cfg)
          s.uuid
          cfg.app_id
          creds.game_token_id
          (u8 (u64_of_i64 cfg.distance))
          (decay_rate cfg.decay)
          s.message

  IsReady-texts : (s t : Sim fl) → texts t ≡ texts s → IsReady s → IsReady t
  IsReady-texts s t e ready =
      let same_message = ap (λ p. p.0) e in
      let same_uuid = ap (λ p. p.1) e in
      record {
        whole = rw same_message ready.whole;
        named = rw same_uuid ready.named;
        templated = rw (same_message, same_uuid) ready.templated;
      }

  pub rebuild_template-IsReady :
      (s : Sim fl)
      → length s.message ≡ actor_update_max_size
      → length s.uuid ≡ 32
      → IsReady (rebuild_template cfg creds s)
  unfolding rebuild_template
  rebuild_template-IsReady s whole named = record {
    whole = length-init s.message _ s.uuid _ _ _ _ ∙ whole;
    named = named;
    templated = init-IsTemplate s.message _ s.uuid _ _ _ _ whole named;
  }

length-hex_digits : (n a : ℕ) → length (hex_digits n a) ≡ n
unfolding hex_digits
length-hex_digits zero a = refl
length-hex_digits (suc n) a = ap suc (length-hex_digits n a)

length-generate_uuid :
    {fl : Floats} (rnd : Random fl) (g : rnd.Gen) (s : Sim fl)
    → length (generate_uuid rnd g s).1.uuid ≡ 32
unfolding generate_uuid
length-generate_uuid rnd g s =
    omega (arith, length-append (hex_digits 16 (rnd.uniform_u64 g).0) _, length-hex_digits 16 _)

message-generate_uuid :
    {fl : Floats} (rnd : Random fl) (g : rnd.Gen) (s : Sim fl)
    → (generate_uuid rnd g s).1.message ≡ s.message
unfolding generate_uuid
message-generate_uuid rnd g s = refl

module _ {fl : Floats} (cfg : Config fl) (creds : ClientCredentials) (rnd : Random fl)
    (retries : ℕ) where
  pub update_walk-IsReady :
      (now_sec : fl.Double) (g : rnd.Gen) (s : Sim fl)
      → IsReady cfg creds s
      → IsReady cfg creds (update_walk cfg rnd retries now_sec g s).1
  update_walk-IsReady now_sec g s ready =
      let kept = texts-walk cfg rnd retries now_sec g s in
      IsReady-texts cfg creds s (update_walk cfg rnd retries now_sec g s).1 kept ready

  new_client-IsReady :
      (now_sec : fl.Double) (g : rnd.Gen) (s : Sim fl)
      → length s.message ≡ actor_update_max_size
      → IsReady cfg creds (init_simulation rnd retries cfg creds now_sec g s).1
  unfolding init_simulation
  new_client-IsReady now_sec g s whole =
      let (g1, t) = place_and_aim rnd retries cfg creds now_sec g s in
      let placed = ap (λ p. p.0) (texts-place cfg rnd retries creds now_sec g s) in
      let named = length-generate_uuid rnd g1 t in
      IsReady-texts cfg creds _ _ (texts-project cfg _) (
        rebuild_template-IsReady cfg creds _
          (ap length (message-generate_uuid rnd g1 t ∙ placed) ∙ whole) named)

  -- A new client is ready, wherever it is placed, and stays ready over a walk: its message has the
  -- fixed fields, with a uuid of 32 octets.
  pub init_simulation-IsReady :
      (now_sec later : fl.Double) (g h : rnd.Gen) (s : Sim fl)
      → length s.message ≡ actor_update_max_size
      → let t = (init_simulation rnd retries cfg creds now_sec g s).1 in
        IsReady cfg creds t × IsReady cfg creds (update_walk cfg rnd retries later h t).1
  init_simulation-IsReady now_sec later g h s whole =
      let ready = new_client-IsReady now_sec g s whole in
      (ready, update_walk-IsReady later h _ ready)

module _ (fl : Floats) (c : Crypto) (cfg : Config fl) (creds : ClientCredentials) where
  -- A send of a ready client leaves it ready and moves its sequence on, and what it sends is of the
  -- profile's size and passes the check of signed notifications under the client's token, if the tag
  -- is computed and the chunk is in the range of 64 bits.
  pub build_update-IsReady :
      (now : ℕ) (s : Sim fl) (tag : Bytes)
      → IsReady cfg creds s
      → IsI64 s.chunk_x
      → IsI64 s.chunk_y
      → IsI64 s.chunk_z
      → tag_of c
          (take (actor_update_hmac_offset (pose_format cfg)) (
            patch fl s.message
              (pose_format cfg)
              s.chunk_x
              s.chunk_y
              s.chunk_z
              (pose_of cfg (now / 1_000_000) s)
              s.sequence))
          creds.app_token
        ≡ some tag
      → length tag ≡ tag_size
      → let (built, t) = build_update c cfg creds now s in
        IsReady cfg creds t
        × (t.sequence ≡ (s.sequence + 1) % 256)
        × (verify_notification c (take (message_size cfg) t.message) creds.app_token ≡ true)
  unfolding build_update message_size
  build_update-IsReady now s tag ready hx hy hz e l = (
    record {
      whole = length-finalize fl c s.message _ _ _ _ _ _ _ ∙ ready.whole;
      named = ready.named;
      templated =
          finalize-IsTemplate fl c s.message _ _ _ _ _ _ _ _ _ _ _ _ tag e l ready.templated;
    },
    refl,
    finalize-verifies fl c s.message _ _ _ _ _ _ _ _ _ _ _ _ tag ready.whole hx hy hz
        ready.templated e l,
  )
