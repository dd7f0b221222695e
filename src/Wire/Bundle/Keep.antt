-- ===== src/Wire/Bundle/Keep.antt =====
-- Induction over the members of a datagram, for any callback.
use cks_loadtest.Base.{ℕ, zero, suc, ◌+◌, ◌-◌, inl, inr, length, ltb, leb, ◌==◌, get_or, Bool-cases}
use cks_loadtest.Base.Words.{Bytes, of_le}
use cks_loadtest.Wire.Codes.{message_bundle, message_bundle_signed}
use cks_loadtest.Wire.Buffer.{slice}
use cks_loadtest.Wire.Hmac.{tag_size}
use cks_loadtest.Wire.Bundle.{walk, for_each_message}

-- What the callback keeps, the whole loop keeps.
module _ {ℓ κ} {S : Type ℓ} (P : S → Type κ) (fn : S → Bytes → S)
    (keep : (s : S) (m : Bytes) → P s → P (fn s m)) where
  walk-keep : (fuel : ℕ) (d : Bytes) (len off : ℕ) (s : S) → P s → P (walk fn fuel d len off s).0
  unfolding walk
  walk-keep zero d len off s h = h
  walk-keep (suc fuel) d len off s h =
      let n : ℕ = of_le (slice d off 2) in
      let m : Bytes = slice d (off + 2) n in
      let rest = walk-keep fuel d len (off + 2 + n) (fn s m) (keep s m h) in
      elim (Bool-cases (ltb off len)) [
        | inr out ↦ rw out h
        | inl more ↦ rw more (elim (Bool-cases (ltb len (off + 2))) [
          | inl cut ↦ rw cut h
          | inr fits ↦ rw fits (elim (Bool-cases (ltb len (off + 2 + n))) [
            | inl cut ↦ rw cut h
            | inr whole ↦ rw whole rest
          ])
        ])
      ]

  pub for_each_message-keep : (d : Bytes) (s : S) → P s → P (for_each_message fn d s).0
  unfolding for_each_message
  for_each_message-keep d s h =
      let plain = walk-keep (length d + 1) d (length d) 1 s h in
      let signed = walk-keep (length d + 1) d (length d - tag_size) 1 s h in
      let one = keep s d h in
      elim (Bool-cases (length d == 0)) [
        | inl none ↦ rw none h
        | inr some' ↦ rw some' (elim (Bool-cases (get_or d 0 0 == message_bundle_signed)) [
          | inl yes' ↦ rw yes' (elim (Bool-cases (leb (length d) (tag_size + 1))) [
            | inl short ↦ rw short h
            | inr long ↦ rw long signed
          ])
          | inr no' ↦ rw no' (elim (Bool-cases (get_or d 0 0 == message_bundle)) [
            | inl yes' ↦ rw yes' plain
            | inr other ↦ rw other one
          ])
        ])
      ]
