-- ===== src/Provisioner/Pool/Turns.antt =====
-- The threads of `provisionRange` come to an end.
use cks_loadtest.Base.{
  ℕ, zero, suc, ◌+◌, ◌-◌, ◌*◌, ◌≤◌, ◌≡◌, ◌≢◌, refl, ◌⊎◌, inl, inr, Bool, false, ◌||◌, some, List,
  [], ◌∷◌, arith, Bool-cases, leb, get_elem?, set, replicate,
}
use cks_loadtest.Graphql.Action.{Action, Result, ok, err}
use cks_loadtest.Provisioner.Pool.{
  Thread, between, busy_at, ended, Pool, Event, turn, signal, take_offset, store, go_on, on_event,
  run_pool, all_ended, start, joined,
}

-- The turns that a thread may take before it needs a new offset.
abbrev pub weight : Thread → ℕ
weight between = 1
weight (busy_at i) = 2
weight ended = 0

abbrev pub total_weight : List Thread → ℕ
total_weight [] = 0
total_weight (t ∷ ts) = weight t + total_weight ts

abbrev pub turns : List Event → ℕ
turns [] = 0
turns (turn t ∷ es) = suc (turns es)
turns (signal ∷ es) = turns es

weight-set :
    (ts : List Thread) (t : ℕ) (x y : Thread)
    → get_elem? ts t ≡ some x
    → total_weight (set ts t y) + weight x ≡ total_weight ts + weight y
weight-set [] t x y e = cc
weight-set (z ∷ ts) zero x y e = let e' : z ≡ x = ground (arith, e) in rw e' (omega arith)
weight-set (z ∷ ts) (suc t) x y e = omega (arith, weight-set ts t x y e)

weight-replicate : (n : ℕ) → total_weight (replicate n between) ≡ n
weight-replicate zero = refl
weight-replicate (suc n) = omega (arith, weight-replicate n)

module _ {S C : Type 0} (job : ℕ → Action S C) (count : ℕ) where
  -- A thread that has not returned.
  abbrev pub CanGo : List Thread → ℕ → Type 0
  CanGo ts t = (x : Thread) × (get_elem? ts t ≡ some x) × (x ≢ ended)

  -- Every turn is one of a thread that has not returned.
  abbrev pub IsSchedule : List Event → Pool S C → Type 0
  IsSchedule [] p = Unit
  IsSchedule (turn t ∷ es) p = CanGo p.threads t × IsSchedule es (on_event job count (turn t) p)
  IsSchedule (signal ∷ es) p = IsSchedule es (on_event job count signal p)

  abbrev pub measure : Pool S C → ℕ
  measure p = 2 * (count - p.next_offset) + total_weight p.threads

  store-measure :
      (t i : ℕ) (r : Result C × S) (p : Pool S C)
      → get_elem? p.threads t ≡ some (busy_at i)
      → suc (measure (store job count t i r p)) ≤ measure p
  store-measure t i (ok c, s) p e = omega (arith, weight-set p.threads t (busy_at i) between e)
  store-measure t i (err x, s) p e = omega (arith, weight-set p.threads t (busy_at i) ended e)

  take_offset-measure :
      (t : ℕ) (p : Pool S C)
      → get_elem? p.threads t ≡ some between
      → suc (measure (take_offset job count t p)) ≤ measure p
  unfolding take_offset
  take_offset-measure t p e =
      elim (Bool-cases (leb count p.next_offset || p.failed || p.is_stopped)) [
        | inl over ↦ rw over (omega (arith, weight-set p.threads t between ended e))
        | inr on ↦
            let below : leb count p.next_offset ≡ false = ground (arith, on) in
            rw on (ground (arith, below, weight-set p.threads t between (busy_at p.next_offset) e))
      ]

  go_on-measure :
      (t : ℕ) (x : Thread) (p : Pool S C)
      → get_elem? p.threads t ≡ some x
      → x ≢ ended
      → suc (measure (go_on job count t (some x) p)) ≤ measure p
  unfolding go_on
  go_on-measure t between p e ne = take_offset-measure t p e
  go_on-measure t (busy_at i) p e ne = store-measure t i (job i p.shared) p e
  go_on-measure t ended p e ne = absurd (ne refl)

  run-measure :
      (es : List Event) (p : Pool S C)
      → IsSchedule es p
      → turns es + measure (run_pool job count es p) ≤ measure p
  unfolding run_pool
  run-measure [] p h = omega arith
  run-measure (turn t ∷ es) p ((x, e, ne), h) =
      let rest : _ = run-measure es (on_event job count (turn t) p) h in
      let one : suc (measure (go_on job count t (get_elem? p.threads t) p)) ≤ measure p =
        rw e (go_on-measure t x p e ne) in
      omega (arith, rest, one)
  run-measure (signal ∷ es) p h = run-measure es (on_event job count signal p) h

  some_goes : (ts : List Thread) → all_ended job count ts ≡ false → (t : ℕ) × CanGo ts t
  unfolding all_ended
  some_goes [] h = cc
  some_goes (between ∷ ts) h = (0, (between, refl, ground arith))
  some_goes (busy_at i ∷ ts) h = (0, (busy_at i, refl, ground arith))
  some_goes (ended ∷ ts) h = let (t, can) = some_goes ts (ground (arith, h)) in (suc t, can)

  ends_or_goes :
      (p : Pool S C)
      → ((out : List C) × (joined job count p ≡ some out)) ⊎ ((t : ℕ) × CanGo p.threads t)
  unfolding joined
  ends_or_goes p = elim (Bool-cases (all_ended job count p.threads)) [
    | inl over ↦ rw over (inl (_, refl))
    | inr on ↦ inr (some_goes p.threads on)
  ]

  start-measure :
      (thread_count : ℕ) (s : S) (blank : C) (stopped : Bool)
      → measure (start job count thread_count s blank stopped) ≡ 2 * count + thread_count
  unfolding start
  start-measure thread_count s blank stopped = omega (arith, weight-replicate thread_count)

  -- However the threads take turns, whatever the jobs do and the signals say, the threads together
  -- take at most 2 turns for each offset and one for each thread, and until all have returned there is
  -- one that can take the next turn.
  pub run_pool-ends :
      (thread_count : ℕ) (s : S) (blank : C) (stopped : Bool) (es : List Event)
      → IsSchedule es (start job count thread_count s blank stopped)
      → let p = run_pool job count es (start job count thread_count s blank stopped) in
        (turns es ≤ 2 * count + thread_count)
        × (((out : List C) × (joined job count p ≡ some out)) ⊎ ((t : ℕ) × CanGo p.threads t))
  run_pool-ends thread_count s blank stopped es h = (
    omega (arith, run-measure es _ h, start-measure thread_count s blank stopped),
    ends_or_goes (run_pool job count es (start job count thread_count s blank stopped)),
  )
