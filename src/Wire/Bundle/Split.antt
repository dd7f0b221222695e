-- ===== src/Wire/Bundle/Split.antt =====
-- The members of a bundle as a relation on its bytes, and the loop of `forEachMessage` against it.
use mathlib.Core.List.{foldl}
use cks_loadtest.Base.{
  ℕ, zero, suc, ◌+◌, ◌-◌, ◌*◌, ◌≤◌, ◌<◌, ◌≡◌, refl, sym, ap, ◌∙◌, ◌⊎◌, inl, inr, Bool, true, false,
  List, [], ◌∷◌, ◌++◌, arith, length, take, drop, ltb, ◌==◌, if◌then◌else◌, get_or, Bool-cases,
  length-drop, length-take, drop-drop, take-append-drop, le→ltb, lt→ltb, ltb→le, eqb_ne, leb-false,
  ◌≢◌, ltb→lt,
}
use cks_loadtest.Base.Words.{Bytes, of_le}
use cks_loadtest.Wire.Codes.{message_bundle, message_bundle_signed}
use cks_loadtest.Wire.Buffer.{slice, slice-take}
use cks_loadtest.Wire.Hmac.{tag_size}
use cks_loadtest.Wire.Bundle.{walk, for_each_message}

-- `Split bytes ms whole`: the frames `[2B length LE][message]` at the front of `bytes` carry the
-- messages `ms`, and they fill it (`whole`), or something shorter than a frame is left.
pub data Split : Bytes → List Bytes → Bool → Type 0 where
  done : Split [] [] true
  no_length : (b : ℕ) → Split (b ∷ []) [] false
  cut : (lo hi : ℕ) (rest : Bytes) → length rest < lo + 256 * hi → Split (lo ∷ hi ∷ rest) [] false
  member :
      (lo hi : ℕ) (m rest : Bytes) {bytes : Bytes} {ms : List Bytes} {whole : Bool}
      → bytes ≡ lo ∷ hi ∷ (m ++ rest)
      → length m ≡ lo + 256 * hi
      → Split rest ms whole
      → Split bytes (m ∷ ms) whole

-- The same as a function, on fuel.
unfoldable pub frames : ℕ → Bytes → List Bytes × Bool
frames zero bs = ([], false)
frames (suc fuel) [] = ([], true)
frames (suc fuel) (b ∷ []) = ([], false)
frames (suc fuel) (lo ∷ hi ∷ rest) =
    let n = lo + 256 * hi in
    let more = frames fuel (drop n rest) in
    if ltb (length rest) n then ([], false) else (take n rest ∷ more.0, more.1)

frames-Split :
    (fuel : ℕ) (bs : Bytes) → length bs < fuel → Split bs (frames fuel bs).0 (frames fuel bs).1
unfolding frames
frames-Split zero bs h = absurd (omega arith)
frames-Split (suc fuel) [] h = done
frames-Split (suc fuel) (b ∷ []) h = no_length b
frames-Split (suc fuel) (lo ∷ hi ∷ rest) h = elim (Bool-cases (ltb (length rest) (lo + 256 * hi))) [
  | inl short ↦ rw short (cut lo hi rest (ltb→lt _ _ short))
  | inr fits ↦
      let n : ℕ = lo + 256 * hi in
      let le : n ≤ length rest = ltb→le (length rest) n fits in
      rw fits (
        member lo hi (take n rest) (drop n rest)
          (ap (λ (t : Bytes). lo ∷ hi ∷ t) (sym (take-append-drop n rest)))
          (omega (arith, length-take n rest))
          (frames-Split fuel (drop n rest) (omega (arith, length-drop n rest))))
]

module _ {ℓ} {S : Type ℓ} (fn : S → Bytes → S) where
  abbrev pub deliver : S → List Bytes × Bool → S × Bool
  deliver s (ms, ok) = (foldl fn s ms, ok)

  walk_step :
      (fuel : ℕ) (d : Bytes) (len off : ℕ) (s : S) (bs : Bytes)
      → len ≤ length d
      → off ≤ len
      → drop off (take len d) ≡ bs
      → ((off' : ℕ) (s' : S)
          → off' ≤ len
          → walk fn fuel d len off' s' ≡ deliver s' (frames fuel (drop off' (take len d))))
      → walk fn (suc fuel) d len off s ≡ deliver s (frames (suc fuel) bs)
  unfolding walk frames of_le
  walk_step fuel d len off s [] h k e ih =
      rw
        (le→ltb off len
          (omega (arith, ap length e, length-drop off (take len d), length-take len d)))
        refl
  walk_step fuel d len off s (b ∷ []) h k e ih =
      let one : len ≡ off + 1 =
        omega (arith, ap length e, length-drop off (take len d), length-take len d) in
      rw (lt→ltb off len (omega arith)) (rw (lt→ltb len (off + 2) (omega arith)))
  walk_step fuel d len off s (lo ∷ hi ∷ rest) h k e ih =
      let n : ℕ = lo + 256 * hi in
      let long : len ≡ off + 2 + length rest =
        omega (arith, ap length e, length-drop off (take len d), length-take len d) in
      let two : slice d off 2 ≡ lo ∷ hi ∷ [] =
        sym (slice-take off 2 len d (omega arith)) ∙ ap (take 2) e in
      let size : of_le (slice d off 2) ≡ n = ap of_le two ∙ (omega arith) in
      let tail : drop (off + 2) (take len d) ≡ rest =
        sym (drop-drop 2 off (take len d)) ∙ ap (drop 2) e in
      rw (size, lt→ltb off len (omega arith))
        (rw (le→ltb len (off + 2) (omega arith)) (elim (Bool-cases (ltb (length rest) n)) [
          | inl short ↦
              rw (short, lt→ltb len (off + 2 + n) (omega (arith, ltb→lt (length rest) n short)))
                refl
          | inr fits ↦
              let le : n ≤ length rest = ltb→le (length rest) n fits in
              let msg : slice d (off + 2) n ≡ take n rest =
                sym (slice-take (off + 2) n len d (omega arith)) ∙ ap (take n) tail in
              let next : drop (off + 2 + n) (take len d) ≡ drop n rest =
                sym (drop-drop n (off + 2) (take len d)) ∙ ap (drop n) tail in
              rw (fits, le→ltb len (off + 2 + n) (omega arith))
                (rw (msg, ih (off + 2 + n) (fn s (take n rest)) (omega arith)) (rw next refl))
        ]))

  pub walk-deliver :
      (fuel : ℕ) (d : Bytes) (len off : ℕ) (s : S)
      → len ≤ length d
      → off ≤ len
      → walk fn fuel d len off s ≡ deliver s (frames fuel (drop off (take len d)))
  unfolding walk frames
  walk-deliver zero d len off s h k = refl
  walk-deliver (suc fuel) d len off s h k =
      walk_step fuel d len off s (drop off (take len d)) h k refl
        (λ off' s' k'. walk-deliver fuel d len off' s' h k')

  -- Of a plain bundle, and of a signed one behind which the tag is left aside, the callback gets
  -- exactly the messages of the frames, in order, and the result says whether the frames fill the
  -- body: members before a truncation are still delivered.
  pub for_each_message-Split :
      (d : Bytes) (s : S)
      → ((get_or d 0 0 ≡ message_bundle) × (0 < length d))
        ⊎ ((get_or d 0 0 ≡ message_bundle_signed) × (tag_size + 1 < length d))
      → (ms : List Bytes) × (whole : Bool) × Split
          (drop 1 (
            take
              (if get_or d 0 0 == message_bundle_signed then length d - tag_size else length d)
              d))
          ms
          whole
        × (for_each_message fn d s ≡ (foldl fn s ms, whole))
  unfolding for_each_message
  for_each_message-Split d s (inl (e, h)) =
      let body : Bytes = drop 1 (take (length d) d) in
      let r : List Bytes × Bool = frames (length d + 1) body in
      let size : length body < length d + 1 =
        omega (arith, length-drop 1 (take (length d) d), length-take (length d) d) in
      rw (e, eqb_ne (length d) 0 (λ z. omega arith))
        (
          r.0,
          r.1,
          frames-Split (length d + 1) body size,
          walk-deliver (length d + 1) d (length d) 1 s (omega arith) (omega arith),
        )
  for_each_message-Split d s (inr (e, h)) =
      let len : ℕ = length d - tag_size in
      let body : Bytes = drop 1 (take len d) in
      let r : List Bytes × Bool = frames (length d + 1) body in
      let size : length body < length d + 1 =
        omega (arith, length-drop 1 (take len d), length-take len d) in
      rw (e, eqb_ne (length d) 0 (λ z. omega arith), leb-false (length d) (tag_size + 1) h)
        (
          r.0,
          r.1,
          frames-Split (length d + 1) body size,
          walk-deliver (length d + 1) d len 1 s (omega arith) (omega arith),
        )

  -- Any other datagram that is not empty is one message, and an empty one is malformed.
  pub for_each_message_single :
      (d : Bytes) (s : S)
      → get_or d 0 0 ≢ message_bundle
      → get_or d 0 0 ≢ message_bundle_signed
      → for_each_message fn d s ≡ (if length d == 0 then (s, false) else (fn s d, true))
  unfolding for_each_message
  for_each_message_single d s h k = rw (eqb_ne _ _ h, eqb_ne _ _ k) refl
