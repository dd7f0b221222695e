-- ===== src/Wire/Capabilities.antt =====
-- `buildCapabilities` of src/Wire.hpp: the CLIENT_CAPABILITIES datagram.
use cks_loadtest.Base.{
  ℕ, ◌+◌, ◌-◌, ◌≤◌, ◌≡◌, refl, sym, ap, ◌∙◌, Bool, true, some, List, [], ◌∷◌, arith, length, take,
  All, replicate,
}
use cks_loadtest.Base.Int.{ℤ, pos}
use cks_loadtest.Base.Words.{Bytes, to_le, u64_of_i64, IsI64}
use cks_loadtest.Platform.{Crypto}
use cks_loadtest.Wire.Codes.{client_capabilities}
use cks_loadtest.Wire.Off
use cks_loadtest.Wire.Buffer.{
  put, slice, Write, put_all, HasWidth, slice-put_all, take-put_below, slice-put_all-untouched,
  slice-put_within, length-put, untouched,
}
use cks_loadtest.Wire.Hmac.{tag_size, tag_of}
use cks_loadtest.Wire.ActorUpdate.{
  header_size, tail_with_hmac, write_i64, write_u8, read_i64, sign_at, sign_at_lem,
}
use cks_loadtest.Wire.ActorUpdate.Layout.{wr, wr_i64, read_i64_of_slice}

-- `1u << 0`
abbrev pub cap_bundle_signed : ℕ
cap_bundle_signed = 1

abbrev pub capabilities_size : ℕ
capabilities_size = header_size + 4 + tail_with_hmac

-- What is written before the tag.
unfoldable pub capabilities_body : Bytes → ℤ → ℤ → ℕ → ℕ → Bytes
capabilities_body buf app_id game_token_id flags seq =
    let hmac_off = header_size + 4 in
    let b = put buf 0 (replicate capabilities_size 0) in
    let b = write_u8 b Off.type client_capabilities in
    let b = write_i64 b Off.app_id app_id in
    let b = write_u8 b Off.contains_auth 1 in
    let b = put b header_size (to_le 4 flags) in
    let b = write_i64 b (hmac_off + tag_size) game_token_id in
    write_u8 b (capabilities_size - 1) seq

unfoldable pub build_capabilities : Crypto → Bytes → ℤ → ℤ → ℕ → ℕ → Bytes → Bool × Bytes
build_capabilities c buf app_id game_token_id flags seq token =
    sign_at c (capabilities_body buf app_id game_token_id flags seq) (header_size + 4) token

-- The fields of a capabilities datagram, and its tag.
pub record IsCapabilities (c : Crypto) (app_id game_token_id : ℤ) (flags seq : ℕ) (token m : Bytes)
    : Type 0 where
  pub type_at : slice m Off.type 1 ≡ client_capabilities ∷ []
  pub app_id_at : read_i64 m Off.app_id ≡ app_id
  pub chunk_x_at : read_i64 m Off.chunk_x ≡ pos 0
  pub chunk_y_at : read_i64 m Off.chunk_y ≡ pos 0
  pub chunk_z_at : read_i64 m Off.chunk_z ≡ pos 0
  pub distance_at : slice m Off.distance 1 ≡ 0 ∷ []
  pub decay_at : slice m Off.decay 1 ≡ 0 ∷ []
  pub contains_auth_at : slice m Off.contains_auth 1 ≡ 1 ∷ []
  pub uuid_at : slice m Off.uuid 32 ≡ replicate 32 0
  pub flags_at : slice m Off.payload 4 ≡ to_le 4 flags
  pub token_id_at : read_i64 m 104 ≡ game_token_id
  pub seq_at : slice m 112 1 ≡ seq ∷ []
  pub tag_at : tag_of c (take 72 m) token ≡ some (slice m 72 tag_size)

-- The writes after the `memset`, the latest first.
field_writes : ℤ → ℤ → ℕ → ℕ → List Write
field_writes app_id token_id flags seq =
    wr 112 1 (seq ∷ [])
    ∷ wr_i64 104 token_id
    ∷ wr 68 4 (to_le 4 flags)
    ∷ wr 35 1 (1 ∷ [])
    ∷ wr_i64 1 app_id
    ∷ wr 0 1 (29 ∷ [])
    ∷ []

abbrev cleared : Bytes → Bytes
cleared buf = put buf 0 (replicate 113 0)

signed_writes-HasWidth :
    (app_id token_id : ℤ) (flags seq : ℕ) (tag : Bytes)
    → length tag ≡ 32
    → All HasWidth (wr 72 32 tag ∷ field_writes app_id token_id flags seq)
unfolding field_writes to_le
signed_writes-HasWidth app_id token_id flags seq tag l =
    (l, (refl, (refl, (refl, (refl, (refl, (refl, tt)))))))

body-put_all :
    (buf : Bytes) (app_id token_id : ℤ) (flags seq : ℕ)
    → capabilities_body buf app_id token_id flags seq
      ≡ put_all (cleared buf) (field_writes app_id token_id flags seq)
unfolding capabilities_body field_writes
body-put_all buf app_id token_id flags seq = refl

-- What the `memset` clears and no write touches is zero.
cleared_zero :
    (buf : Bytes) (i n : ℕ) (ws : List Write)
    → length buf ≡ capabilities_size
    → All HasWidth ws
    → i + n ≤ 113
    → untouched i n ws ≡ true
    → slice (put_all (cleared buf) ws) i n ≡ slice (replicate 113 0) i n
cleared_zero buf i n ws hb w h u =
    slice-put_all-untouched (cleared buf) i n ws w u
    ∙ slice-put_within buf i n (replicate 113 0) (omega (arith, hb)) (omega arith)

read_zero : (m : Bytes) (i : ℕ) → slice m i 8 ≡ replicate 8 0 → read_i64 m i ≡ pos 0
unfolding to_le u64_of_i64
read_zero m i e = read_i64_of_slice m i (pos 0) (omega arith) e

module _ (c : Crypto) where
  build-put_all :
      (buf : Bytes) (app_id token_id : ℤ) (flags seq : ℕ) (token tag : Bytes)
      → tag_of c (take 72 (capabilities_body buf app_id token_id flags seq)) token ≡ some tag
      → length tag ≡ tag_size
      → build_capabilities c buf app_id token_id flags seq token
        ≡ (true, put_all (cleared buf) (wr 72 32 tag ∷ field_writes app_id token_id flags seq))
  unfolding build_capabilities field_writes
  build-put_all buf app_id token_id flags seq token tag e l =
      sign_at_lem c (capabilities_body buf app_id token_id flags seq) 72 token (omega arith) e l
      ∙ ap (λ (b : Bytes). (true, put b 72 tag)) (body-put_all buf app_id token_id flags seq)

  IsCapabilities-fields :
      (buf : Bytes) (app_id token_id : ℤ) (flags seq : ℕ) (token tag : Bytes)
      → length buf ≡ capabilities_size
      → IsI64 app_id
      → IsI64 token_id
      → tag_of c (take 72 (capabilities_body buf app_id token_id flags seq)) token ≡ some tag
      → length tag ≡ tag_size
      → IsCapabilities c app_id token_id flags seq token
          (put_all (cleared buf) (wr 72 32 tag ∷ field_writes app_id token_id flags seq))
  unfolding field_writes
  IsCapabilities-fields buf app_id token_id flags seq token tag hb ha ht e l =
      let ws = wr 72 32 tag ∷ field_writes app_id token_id flags seq in
      let w : All HasWidth ws = signed_writes-HasWidth app_id token_id flags seq tag l in
      let b = cleared buf in
      let hc : length b ≡ 113 = omega (arith, length-put buf 0 (replicate 113 0)) in
      record {
        type_at = slice-put_all b 113 0 1 ws hc w refl;
        app_id_at =
            read_i64_of_slice (put_all b ws) 1 app_id ha (slice-put_all b 113 1 8 ws hc w refl);
        chunk_x_at = read_zero (put_all b ws) 9 (cleared_zero buf 9 8 ws hb w (omega arith) refl);
        chunk_y_at = read_zero (put_all b ws) 17 (cleared_zero buf 17 8 ws hb w (omega arith) refl);
        chunk_z_at = read_zero (put_all b ws) 25 (cleared_zero buf 25 8 ws hb w (omega arith) refl);
        distance_at = cleared_zero buf 33 1 ws hb w (omega arith) refl;
        decay_at = cleared_zero buf 34 1 ws hb w (omega arith) refl;
        contains_auth_at = slice-put_all b 113 35 1 ws hc w refl;
        uuid_at = cleared_zero buf 36 32 ws hb w (omega arith) refl;
        flags_at = slice-put_all b 113 68 4 ws hc w refl;
        token_id_at =
            read_i64_of_slice (put_all b ws) 104 token_id ht
              (slice-put_all b 113 104 8 ws hc w refl);
        seq_at = slice-put_all b 113 112 1 ws hc w refl;
        tag_at =
            ap (λ (p : Bytes). tag_of c p token)
              (take-put_below (put_all b (field_writes app_id token_id flags seq)) 72 72 tag
                  (omega arith)
                ∙ ap (take 72) (sym (body-put_all buf app_id token_id flags seq)))
            ∙ e
            ∙ ap some (sym (slice-put_all b 113 72 32 ws hc w refl));
      }

  -- When OpenSSL computes the tag, the capabilities datagram is built: its type, its app id, the
  -- chunk (0, 0, 0), the zeroed distance, decay and uuid, the auth flag, the flags, the game token id and the sequence number
  -- stand at their offsets, with a tag over exactly the bytes before it.
  pub build-IsCapabilities :
      (buf : Bytes) (app_id token_id : ℤ) (flags seq : ℕ) (token tag : Bytes)
      → length buf ≡ capabilities_size
      → IsI64 app_id
      → IsI64 token_id
      → tag_of c (take 72 (capabilities_body buf app_id token_id flags seq)) token ≡ some tag
      → length tag ≡ tag_size
      → let (sent, m) = build_capabilities c buf app_id token_id flags seq token in
        (sent ≡ true) × IsCapabilities c app_id token_id flags seq token m
  build-IsCapabilities buf app_id token_id flags seq token tag hb ha ht e l =
      rw (build-put_all buf app_id token_id flags seq token tag e l)
        (refl, IsCapabilities-fields buf app_id token_id flags seq token tag hb ha ht e l)
