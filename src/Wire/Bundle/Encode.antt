-- ===== src/Wire/Bundle/Encode.antt =====
-- Bundles as a sender builds them, and what the client makes of them.
use mathlib.Core.List.{foldl}
use cks_loadtest.Base.{
  ℕ, zero, suc, ◌+◌, ◌-◌, ◌*◌, ◌/◌, ◌%◌, ◌≤◌, ◌<◌, ◌≡◌, refl, sym, ap, ◌∙◌, ◌⊎◌, true, false, List,
  [], ◌∷◌, ◌++◌, arith, length, take, drop, All, get_or, take-append, drop-append, take_all,
  length-append, le→ltb, eqb_ne, leb-false, ◌≢◌, ◌↔◌, some,
}
use cks_loadtest.Base.Words.{Bytes}
use cks_loadtest.Wire.Codes.{message_bundle, message_bundle_signed}
use cks_loadtest.Wire.Buffer.{slice}
use cks_loadtest.Wire.Hmac.{tag_size}
use cks_loadtest.Wire.Bundle.{for_each_message}
use cks_loadtest.Platform.{Crypto}
use cks_loadtest.Wire.Hmac.{tag_of, spatial_sign_lem}
use cks_loadtest.Wire.Inbound.{tag_equals_iff}
use cks_loadtest.Wire.Bundle.{verify_signed_bundle}
use cks_loadtest.Wire.Bundle.Split.{frames, deliver, walk-deliver}

-- The frame of a message of fewer than 65536 bytes, and the frames of a bundle.
unfoldable pub frame : Bytes → Bytes
frame m = (length m % 256) ∷ (length m / 256 % 256) ∷ m

unfoldable pub encode : List Bytes → Bytes
encode [] = []
encode (m ∷ ms) = frame m ++ encode ms

abbrev pub IsFramable : Bytes → Type 0
IsFramable m = length m < 65536

frames-encode :
    (fuel : ℕ) (ms : List Bytes)
    → All IsFramable ms
    → length (encode ms) < fuel
    → frames fuel (encode ms) ≡ (ms, true)
unfolding frames encode frame
frames-encode zero ms fit h = absurd (omega arith)
frames-encode (suc fuel) [] fit h = refl
frames-encode (suc fuel) (m ∷ ms) fit h =
    let n : length m % 256 + 256 * (length m / 256 % 256) ≡ length m = omega arith in
    let total : length (m ++ encode ms) ≡ length m + length (encode ms) =
      length-append m (encode ms) in
    rw (n, le→ltb (length (m ++ encode ms)) (length m) (omega arith))
      (rw (take-append m (encode ms), drop-append m (encode ms))
        (rw (frames-encode fuel ms fit.1 (omega arith)) refl))

encode-pos : (ms : List Bytes) → ms ≢ [] → 0 < length (encode ms)
unfolding encode frame
encode-pos [] h = absurd (h refl)
encode-pos (m ∷ ms) h = omega arith

module _ {ℓ} {S : Type ℓ} (fn : S → Bytes → S) where
  -- A bundle that is built from messages of fewer than 65536 bytes each is taken apart into these
  -- messages: the callback gets them in order, and the bundle counts as well formed.
  pub for_each_message-encode :
      (ms : List Bytes) (s : S)
      → All IsFramable ms
      → for_each_message fn (message_bundle ∷ encode ms) s ≡ (foldl fn s ms, true)
  unfolding for_each_message
  for_each_message-encode ms s fit =
      let d : Bytes = message_bundle ∷ encode ms in
      rw (eqb_ne (length d) 0 (λ z. omega arith)) (
        walk-deliver fn (length d + 1) d (length d) 1 s (omega arith) (omega arith)
        ∙ ap (deliver fn s) (
            ap (λ (t : Bytes). frames (length d + 1) (drop 1 t))
              (take_all (length d) d (omega arith))
            ∙ frames-encode (length d + 1) ms fit (omega arith)))

  -- A signed bundle that is built from at least one message, of fewer than 65536 bytes each, with any
  -- tag of 32 octets, is taken apart into these messages: the callback gets them in order, and the
  -- bundle counts as well formed.
  pub for_each_message-signed :
      (ms : List Bytes) (tag : Bytes) (s : S)
      → All IsFramable ms
      → ms ≢ []
      → length tag ≡ tag_size
      → for_each_message fn (message_bundle_signed ∷ (encode ms ++ tag)) s ≡ (foldl fn s ms, true)
  unfolding for_each_message
  for_each_message-signed ms tag s fit h l =
      let d : Bytes = message_bundle_signed ∷ (encode ms ++ tag) in
      let body : Bytes = message_bundle_signed ∷ encode ms in
      let long : length d ≡ length body + 32 = omega (arith, length-append (encode ms) tag) in
      let len : length d - tag_size ≡ length body = omega arith in
      let prefix : take (length body) d ≡ body = take-append body tag in
      rw
        (
          eqb_ne (length d) 0 (λ z. omega arith),
          leb-false (length d) (tag_size + 1) (omega (arith, encode-pos ms h)),
        )
        (rw len (
          walk-deliver fn (length d + 1) d (length body) 1 s (omega arith) (omega arith)
          ∙ ap (deliver fn s) (
              ap (λ (t : Bytes). frames (length d + 1) (drop 1 t)) prefix
              ∙ frames-encode (length d + 1) ms fit (omega arith))))

module _ (c : Crypto) where
  -- A signed bundle of 34 to 2080 octets, for which OpenSSL computes a tag of 32 octets, verifies
  -- exactly when that tag is its last 32 octets.
  pub verify_signed_bundle_iff :
      (d token tag : Bytes)
      → tag_size + 1 < length d
      → length d ≤ 2048 + tag_size
      → get_or d 0 0 ≡ message_bundle_signed
      → tag_of c (take (length d - tag_size) d) token ≡ some tag
      → length tag ≡ tag_size
      → (verify_signed_bundle c d token ≡ true) ↔ (slice d (length d - tag_size) tag_size ≡ tag)
  unfolding verify_signed_bundle
  verify_signed_bundle_iff d token tag lo hi type e l =
      let signed = spatial_sign_lem c d (length d - tag_size) token (omega arith) e l in
      let whole : take tag_size tag ≡ tag = take_all tag_size tag (omega arith) in
      let (to, from) = tag_equals_iff c tag (drop (length d - tag_size) d) in
      rw (leb-false (length d) (tag_size + 1) lo, type, signed)
        (λ ok. sym (to ok) ∙ whole, λ same. from (whole ∙ sym same))

  -- Whatever is too short for a tag and a member, or is no signed bundle, does not verify.
  pub verify_signed_bundle_rejects :
      (d token : Bytes)
      → (length d ≤ tag_size + 1) ⊎ (get_or d 0 0 ≢ message_bundle_signed)
      → verify_signed_bundle c d token ≡ false
  unfolding verify_signed_bundle
  verify_signed_bundle_rejects d token h = ground arith
