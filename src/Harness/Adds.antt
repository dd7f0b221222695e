-- ===== src/Harness/Adds.antt =====
-- `Harness::requestAdd`, `Harness::runAdd` and `Harness::openRung` of src/Harness.cpp.
use cks_loadtest.Base.{
  ◌≡◌, refl, Bool, true, false, Option, none, some, List, [], ◌∷◌, ◌++◌, if◌then◌else◌, arith, All,
}
use cks_loadtest.Base.Int.{ℤ, pos, negsuc, ◌+ℤ◌, ◌-ℤ◌, ◌≤ℤ◌, ltb_ℤ, +ℤ_parts}
use cks_loadtest.Base.Text.{Text, codes}

-- `int` addition. Where it overflows, which the source leaves undefined, it wraps around.
unfoldable pub add_int : ℤ → ℤ → ℤ
add_int a b =
    let z = a +ℤ b in
    if ltb_ℤ (pos 2_147_483_647) z
    then z -ℤ pos 4_294_967_296
    else if ltb_ℤ z (negsuc 2_147_483_647)
    then z +ℤ pos 4_294_967_296
    else z

add_int_lem :
    (a b : ℤ) → negsuc 2_147_483_647 ≤ℤ a +ℤ b → a +ℤ b ≤ℤ pos 2_147_483_647 → add_int a b ≡ a +ℤ b
unfolding add_int
add_int_lem a b lo hi = ground arith

-- What `mu_` guards, with the add that `addThread_` runs: its count and its first global index.
pub record Adds : Type 0 where
  pub used : ℤ
  pub busy : Bool
  pub add_error : Text
  pub running : Option (ℤ × ℤ)

-- `std::to_string` is a parameter.
module _ (to_string : ℤ → Text) (index_limit index_base : ℤ) where
  unfoldable pub request_add : ℤ → Adds → Text × Adds
  request_add count h =
      if ltb_ℤ count (pos 1)
      then (codes "count must be >= 1", h)
      else if h.busy
      then (codes "busy: an add is already running", h)
      else if ltb_ℤ index_limit (add_int h.used count)
      then (
        codes "add would exceed LT_INDEX_LIMIT ("
            ++ (to_string index_limit ++ (codes "); used=" ++ to_string h.used)),
        h,
      )
      else (
        [],
        record h { busy = true; add_error = []; running = some (count, add_int index_base h.used) },
      )

  finish : Option (ℤ × ℤ) → Bool → Bool → Adds → Adds
  finish none provisioned stopped h = h
  finish (some (count, start)) provisioned stopped h =
      if provisioned
      then record { used = add_int h.used count; busy = false; add_error = []; running = none }
      else record h {
        busy = false;
        add_error = if stopped then codes "add aborted" else codes "provisioning failed (see logs)";
        running = none;
      }

  -- What `runAdd` does once `provisionRange` has returned: whether it gave any credentials, and
  -- whether the stop flag is set.
  unfoldable pub run_add : Bool → Bool → Adds → Adds
  unfolding finish
  run_add provisioned stopped h = finish h.running provisioned stopped h

pub data AddEvent : Type 0 where
  requested : ℤ → AddEvent
  finished : Bool → Bool → AddEvent

module _ (to_string : ℤ → Text) (index_limit index_base : ℤ) where
  unfoldable pub run_events : List AddEvent → Adds → Adds
  run_events [] h = h
  run_events (requested count ∷ es) h =
      run_events es (request_add to_string index_limit index_base count h).1
  run_events (finished provisioned stopped ∷ es) h =
      run_events es (run_add to_string index_limit index_base provisioned stopped h)

  -- A request that an `int` can hold together with the limit.
  abbrev pub FitsInt : AddEvent → Type 0
  FitsInt (requested count) = count +ℤ index_limit ≤ℤ pos 2_147_483_647
  FitsInt (finished provisioned stopped) = Unit

  abbrev IsRunning : Option (ℤ × ℤ) → Adds → Type 0
  IsRunning none h = h.busy ≡ false
  IsRunning (some (count, start)) h =
      (h.busy ≡ true)
      × (pos 1 ≤ℤ count)
      × (h.used +ℤ count ≤ℤ index_limit)
      × (start ≡ index_base +ℤ h.used)

  -- The clients stay within the limit, with the add that runs, which takes the indices right after
  -- those in use; and `busy_` is set exactly while one runs.
  pub record IsWithin (h : Adds) : Type 0 where
    pub used_range : (pos 0 ≤ℤ h.used) × (h.used ≤ℤ index_limit)
    pub one_runs : IsRunning h.running h

  module _
      (base_fits : (pos 0 ≤ℤ index_base) × (index_base +ℤ index_limit ≤ℤ pos 2_147_483_647)) where
    request-IsWithin :
        (count : ℤ) (h : Adds)
        → FitsInt (requested count)
        → IsWithin h
        → IsWithin (request_add to_string index_limit index_base count h).1
    unfolding request_add
    request-IsWithin count h f w =
        let sum : pos 1 ≤ℤ count → add_int h.used count ≡ h.used +ℤ count = λ k.
          add_int_lem h.used count (omega (arith, +ℤ_parts h.used count, w.used_range))
            (omega (arith, +ℤ_parts h.used count, +ℤ_parts count index_limit, f, w.used_range)) in
        let first : add_int index_base h.used ≡ index_base +ℤ h.used =
          add_int_lem index_base h.used
            (omega (arith, +ℤ_parts index_base h.used, w.used_range, base_fits))
            (omega (
              arith,
              +ℤ_parts index_base h.used,
              +ℤ_parts index_base index_limit,
              w.used_range,
              base_fits,
            )) in
        ground (arith, sum, first, w, w.one_runs, w.used_range)

    finish-IsWithin :
        (r : Option (ℤ × ℤ)) (provisioned stopped : Bool) (h : Adds)
        → h.running ≡ r
        → IsWithin h
        → IsWithin (run_add to_string index_limit index_base provisioned stopped h)
    unfolding run_add
    finish-IsWithin none provisioned stopped h e w =
        rw e (record { used_range = w.used_range; one_runs = rw e at w.one_runs })
    finish-IsWithin (some (count, start)) provisioned stopped h e w =
        let o : IsRunning (some (count, start)) h = rw e at w.one_runs in
        let sum : add_int h.used count ≡ h.used +ℤ count =
          add_int_lem h.used count (omega (arith, +ℤ_parts h.used count, w.used_range, o)) (
            omega (
              arith,
              +ℤ_parts h.used count,
              +ℤ_parts index_base index_limit,
              w.used_range,
              o,
              base_fits,
            )) in
        rw e (ground (arith, sum, o, w.used_range, +ℤ_parts h.used count))

    -- Whatever adds are asked for and however they end: the clients in use, with those that the add
    -- under way will bring, stay within the limit; `busy_` is set exactly while an add runs, and its
    -- indices start right after those in use. The counts asked for, the base and the limit are such
    -- that no `int` sum overflows.
    pub run_events-IsWithin :
        (es : List AddEvent) (h : Adds) → All FitsInt es → IsWithin h → IsWithin (run_events es h)
    unfolding run_events
    run_events-IsWithin [] h f w = w
    run_events-IsWithin (requested count ∷ es) h f w =
        run_events-IsWithin es _ f.1 (request-IsWithin count h f.0 w)
    run_events-IsWithin (finished provisioned stopped ∷ es) h f w =
        run_events-IsWithin es _ f.1 (finish-IsWithin h.running provisioned stopped h refl w)
