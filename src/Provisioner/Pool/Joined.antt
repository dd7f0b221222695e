-- ===== src/Provisioner/Pool/Joined.antt =====
-- What the joined threads leave: no result, or a full one.
use cks_loadtest.Base.{
  ℕ, zero, suc, ◌≤◌, ◌<◌, ◌≡◌, refl, ap, ◌∙◌, true, false, ◌||◌, ◌⊎◌, inl, inr, some, List, [], ◌∷◌,
  arith, Bool-cases, length, get_elem?,
}
use cks_loadtest.Graphql.Action.{Action}
use cks_loadtest.Provisioner.Pool.{Thread, between, busy_at, ended, Pool, all_ended, joined}
use cks_loadtest.Provisioner.Pool.Filled.{IsFilling}

module _ {S C : Type 0} (job : ℕ → Action S C) (count : ℕ) (Good : ℕ → C → Type 0) where
  all_ended-lem :
      (ts : List Thread) (t : ℕ) (x : Thread)
      → all_ended job count ts ≡ true
      → get_elem? ts t ≡ some x
      → x ≡ ended
  unfolding all_ended
  all_ended-lem [] t x h e = cc
  all_ended-lem (ended ∷ ts) zero x h e = ground (arith, e)
  all_ended-lem (between ∷ ts) zero x h e = cc
  all_ended-lem (busy_at i ∷ ts) zero x h e = cc
  all_ended-lem (y ∷ ts) (suc t) x h e = all_ended-lem ts t x (ground (arith, h)) e

  first_thread : (ts : List Thread) → 0 < length ts → (x : Thread) × (get_elem? ts 0 ≡ some x)
  first_thread [] h = absurd (omega arith)
  first_thread (x ∷ ts) h = (x, refl)

  -- No result, or a full one.
  abbrev pub IsAllOrNothing : List C → Type 0
  IsAllOrNothing out =
      (out ≡ [])
      ⊎ ((length out ≡ count)
          × ((i : ℕ) → i < count → (c : C) × (get_elem? out i ≡ some c) × Good i c))

  full :
      (p : Pool S C)
      → IsFilling job count Good p
      → all_ended job count p.threads ≡ true
      → p.failed ≡ false
      → p.is_stopped ≡ false
      → (i : ℕ) → i < count
      → (c : C) × (get_elem? p.out i ≡ some c) × Good i c
  full p h over f st i lt = elim (h.cared f st i (omega (arith, lt, all_out)) lt) [
    | inl stored ↦ stored
    | inr (t, e) ↦ absurd (ground (arith, all_ended-lem p.threads t (busy_at i) over e))
  ]
    where
      all_out : count ≤ p.next_offset
      all_out =
          let (x, e) = first_thread p.threads h.manned in
          h.handed_out f st 0 (e ∙ ap some (all_ended-lem p.threads 0 x over e))

  pub joined-IsAllOrNothing :
      (p : Pool S C) (out : List C)
      → IsFilling job count Good p
      → joined job count p ≡ some out
      → IsAllOrNothing out
  unfolding joined
  joined-IsAllOrNothing p out h e = elim (Bool-cases (all_ended job count p.threads)) [
    | inl over ↦ elim (Bool-cases (p.is_stopped || p.failed)) [
      | inl broken ↦ inl (ground (arith, e, over, broken))
      | inr whole ↦
          let e' : p.out ≡ out = ground (arith, e, over, whole) in
          rw⁻¹ e' (inr (h.room, full p h over (ground (arith, whole)) (ground (arith, whole))))
    ]
    | inr running ↦ absurd (ground (arith, e, running))
  ]
