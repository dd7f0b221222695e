-- ===== src/Stats/Latency.antt =====
-- Latency samples: which bucket a sample falls into, and what a window reports of the samples
-- since it was opened.
use cks_loadtest.Base.Text.{Text}
use cks_loadtest.Base.{
  ℕ, zero, suc, ◌+◌, ◌-◌, ◌≤◌, ◌<◌, ◌^◌, ◌≡◌, refl, ap, fun_ext, ◌∙◌, List, [], ◌∷◌, arith, max,
  length, get_or, ltb, ◌==◌, if◌then◌else◌, ltb→lt, ltb→le, lt→ltb, Bool-cases, inl, inr,
}
use cks_loadtest.Base.Int.{ℤ}
use cks_loadtest.Base.Words.{Counters, bump, sum_below}
use cks_loadtest.Stats.Snap.{minus, sat_sub, CounterSnap}
use cks_loadtest.Stats.{
  Stats, latency_bounds, clamp_ms, bucket_from, record_latency_ms, record_all, load_lifetime,
  mark_window, load_window,
}

-- The first bound above `v`, counted from `i`.
record Bucket (i : ℕ) (bs : List ℕ) (v b : ℕ) : Type 0 where
  from : i ≤ b
  upto : b ≤ i + length bs
  below : b < i + length bs → v < get_or bs (b - i) 0
  above : (k : ℕ) → i + k < b → get_or bs k 0 ≤ v

Bucket-later :
    (i b : ℕ) (bs : List ℕ) (v r : ℕ) → b ≤ v → Bucket (i + 1) bs v r → Bucket i (b ∷ bs) v r
Bucket-later i b bs v r h t = record {
  from = omega arith;
  upto = omega arith;
  below = λ k. let e : r - i ≡ suc (r - (i + 1)) = omega arith in rw e (t.below (omega arith));
  above = earlier;
}
  where
    earlier : (k : ℕ) → i + k < r → get_or (b ∷ bs) k 0 ≤ v
    earlier zero k = h
    earlier (suc j) k = t.above j (omega arith)

bucket_from-Bucket : (i : ℕ) (bs : List ℕ) (v : ℕ) → Bucket i bs v (bucket_from i bs v)
unfolding bucket_from
bucket_from-Bucket i [] v = record {
  from = omega arith;
  upto = omega arith;
  below = λ h. absurd (omega arith);
  above = λ k h. absurd (omega arith);
}
bucket_from-Bucket i (b ∷ bs) v = elim (Bool-cases (ltb v b)) [
  | inl hit ↦ rw hit (record {
    from = omega arith;
    upto = omega arith;
    below = λ h. let z : i - i ≡ 0 = omega arith in rw z (ltb→lt v b hit);
    above = λ k h. absurd (omega arith);
  })
  | inr miss ↦ rw miss (Bucket-later i b bs v _ (ltb→le v b miss) (bucket_from-Bucket (i + 1) bs v))
]

abbrev pub bucket_of : ℤ → ℕ
bucket_of ms = bucket_from 0 latency_bounds (clamp_ms ms)

-- A sample adds one to the slot of its bucket alone, and that is one of the 23: its value lies
-- below the bucket's bound, if it has one, and at or above every earlier bound.
pub record_latency_ms_bucket :
    (s : Stats) (ms : ℤ)
    → (i : ℕ) × (i ≤ 22)
      × (i < 22 → clamp_ms ms < get_or latency_bounds i 0)
      × ((k : ℕ) → k < i → get_or latency_bounds k 0 ≤ clamp_ms ms)
      × ((record_latency_ms s ms).latency_hist ≡ bump s.latency_hist i)
unfolding record_latency_ms
record_latency_ms_bucket s ms =
    let t = bucket_from-Bucket 0 latency_bounds (clamp_ms ms) in
    let same : bucket_of ms - 0 ≡ bucket_of ms = omega arith in
    (
      bucket_of ms,
      omega (arith, t.upto),
      λ h. rw same at (t.below (omega arith)),
      λ k h. t.above k (omega arith),
      refl,
    )

-- What the samples come to.
abbrev pub total_ms : List ℤ → ℕ
total_ms [] = 0
total_ms (m ∷ ms) = clamp_ms m + total_ms ms

abbrev pub largest_ms : List ℤ → ℕ
largest_ms [] = 0
largest_ms (m ∷ ms) = max (clamp_ms m) (largest_ms ms)

abbrev pub in_bucket : List ℤ → Counters
in_bucket [] i = 0
in_bucket (m ∷ ms) i = let rest = in_bucket ms i in if i == bucket_of m then rest + 1 else rest

record Recorded (s t : Stats) (ms : List ℤ) : Type 0 where
  samples : t.latency_samples ≡ s.latency_samples + length ms
  sum : t.latency_sum_ms ≡ s.latency_sum_ms + total_ms ms
  largest : t.window_latency_max_ms ≡ max s.window_latency_max_ms (largest_ms ms)
  hist : (i : ℕ) → t.latency_hist i ≡ s.latency_hist i + in_bucket ms i
  origin : t.window_origin ≡ s.window_origin

-- No counter that the samples move passes 64 bits.
pub record Fits (s : Stats) (ms : List ℤ) : Type 0 where
  pub samples_fit : s.latency_samples + length ms < 2 ^ 64
  pub sum_fits : s.latency_sum_ms + total_ms ms < 2 ^ 64
  pub hist_fits : (i : ℕ) → s.latency_hist i + length ms < 2 ^ 64

bump_lem :
    (f : Counters) (i j : ℕ) → f j + 1 < 2 ^ 64 → bump f i j ≡ (if j == i then f j + 1 else f j)
unfolding bump
bump_lem f i j h = ground arith

record_one :
    (s : Stats) (m : ℤ) (ms : List ℤ)
    → Fits s (m ∷ ms)
    → Recorded s (record_latency_ms s m) (m ∷ [])
unfolding record_latency_ms
record_one s m ms f = record {
  samples = omega (arith, f.samples_fit);
  sum = omega (arith, f.sum_fits);
  largest = omega arith;
  hist = λ i. ground (arith, bump_lem s.latency_hist (bucket_of m) i, f.hist_fits i);
  origin = refl;
}

record_all-Recorded : (s : Stats) (ms : List ℤ) → Fits s ms → Recorded s (record_all s ms) ms
unfolding record_all
record_all-Recorded s [] f = record {
  samples = omega arith;
  sum = omega arith;
  largest = omega arith;
  hist = λ i. omega arith;
  origin = refl;
}
record_all-Recorded s (m ∷ ms) f =
    let one = record_one s m ms f in
    let t : Stats = record_latency_ms s m in
    let later = record_all-Recorded t ms (record {
      samples_fit = omega (arith, one.samples, f.samples_fit);
      sum_fits = omega (arith, one.sum, f.sum_fits);
      hist_fits = λ i. ground (arith, one.hist i, f.hist_fits i);
    }) in
    record {
      samples = omega (arith, one.samples, later.samples);
      sum = omega (arith, one.sum, later.sum);
      largest = omega (arith, one.largest, later.largest);
      hist = λ i. ground (arith, one.hist i, later.hist i);
      origin = later.origin ∙ one.origin;
    }

sat_sub_added : (n o k : ℕ) → n ≡ o + k → sat_sub n o ≡ k
unfolding sat_sub
sat_sub_added n o k h = ground arith

record Reported (o : CounterSnap) (t : Stats) (ms : List ℤ) : Type 0 where
  samples : t.latency_samples ≡ o.latency_samples + length ms
  sum : t.latency_sum_ms ≡ o.latency_sum_ms + total_ms ms
  largest : t.window_latency_max_ms ≡ largest_ms ms
  hist : (i : ℕ) → t.latency_hist i ≡ o.latency_hist i + in_bucket ms i
  origin : t.window_origin ≡ o

marked_Recorded :
    (s : Stats) (id : Text) (epoch_sec steady : ℕ) (ms : List ℤ)
    → Fits s ms
    → Reported (load_lifetime s) (record_all (mark_window s id epoch_sec steady) ms) ms
unfolding mark_window load_lifetime
marked_Recorded s id epoch_sec steady ms f =
    let t : Stats = mark_window s id epoch_sec steady in
    let r =
      record_all-Recorded t ms
        (record { samples_fit = f.samples_fit; sum_fits = f.sum_fits; hist_fits = f.hist_fits }) in
    record {
      samples = r.samples;
      sum = r.sum;
      largest = omega (arith, r.largest);
      hist = r.hist;
      origin = r.origin;
    }

in_bucket_total :
    (n : ℕ) (m : ℤ) (ms : List ℤ)
    → sum_below n (in_bucket (m ∷ ms))
      ≡ sum_below n (in_bucket ms) + (if ltb (bucket_of m) n then 1 else 0)
unfolding sum_below
in_bucket_total zero m ms = ground arith
in_bucket_total (suc n) m ms = ground (arith, in_bucket_total n m ms)

-- Every sample falls into one of the 23 buckets of the histogram.
sum_below-in_bucket : (ms : List ℤ) → sum_below 23 (in_bucket ms) ≡ length ms
sum_below-in_bucket [] = unfold sum_below in refl
sum_below-in_bucket (m ∷ ms) =
    let t = bucket_from-Bucket 0 latency_bounds (clamp_ms m) in
    let small : bucket_of m < 23 = omega (arith, t.upto) in
    in_bucket_total 23 m ms ∙ ground (arith, lt→ltb (bucket_of m) 23 small, sum_below-in_bucket ms)

-- A window that is opened and then gets samples reports exactly these, whatever was recorded
-- before: how many there are, their sum, their maximum, and how many fall into each bucket
-- (the 23 buckets together hold all of them), as long as no counter passes 64 bits.
pub load_window-record_all :
    (s : Stats) (id : Text) (epoch_sec steady : ℕ) (ms : List ℤ)
    → Fits s ms
    → let w = load_window (record_all (mark_window s id epoch_sec steady) ms) in
      (w.latency_samples ≡ length ms)
      × (w.latency_sum_ms ≡ total_ms ms)
      × (w.latency_max_ms ≡ largest_ms ms)
      × ((i : ℕ) → w.latency_hist i ≡ in_bucket ms i)
      × (sum_below 23 w.latency_hist ≡ length ms)
unfolding load_window load_lifetime minus
load_window-record_all s id epoch_sec steady ms f =
    let r = marked_Recorded s id epoch_sec steady ms f in
    rw r.origin (
      sat_sub_added _ _ _ r.samples,
      sat_sub_added _ _ _ r.sum,
      r.largest,
      λ i. sat_sub_added _ _ _ (r.hist i),
      ap (sum_below 23) (fun_ext (λ i. sat_sub_added _ _ _ (r.hist i))) ∙ sum_below-in_bucket ms,
    )
