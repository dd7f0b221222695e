-- ===== src/Provisioner/Pool/Filled.antt =====
-- What the threads have stored when they have all returned.
use cks_loadtest.Base.{
  ℕ, zero, suc, ◌+◌, ◌≤◌, ◌<◌, ◌≡◌, ◌≢◌, refl, ◌∙◌, Bool, true, false, ◌||◌, ◌⊎◌, inl, inr, Option,
  none, some, List, [], ◌∷◌, arith, Bool-cases, leb, ◌==◌, length, length-set, length-replicate,
  get_elem?-set_self, get_elem?-set_ne, set-cases, get_elem?-lt, replicate, get_elem?, set,
}
use cks_loadtest.Graphql.Action.{Action, Result, ok, err}
use cks_loadtest.Provisioner.Pool.{
  Thread, between, busy_at, ended, Pool, Event, turn, signal, take_offset, store, go_on, run_pool,
  start,
}

module _ {S C : Type 0} (job : ℕ → Action S C) (count : ℕ) (Good : ℕ → C → Type 0) where
  -- An offset that has been handed out is done with, or a thread is at it.
  abbrev pub IsCared : Pool S C → ℕ → Type 0
  IsCared p i =
      ((c : C) × (get_elem? p.out i ≡ some c) × Good i c)
      ⊎ ((t : ℕ) × (get_elem? p.threads t ≡ some (busy_at i)))

  -- As long as nothing failed and nobody stopped the run: every offset handed out is cared for,
  -- and a thread only returns when all have been handed out.
  pub record IsFilling (p : Pool S C) : Type 0 where
    pub manned : 0 < length p.threads
    pub room : length p.out ≡ count
    pub at_count : (t i : ℕ) → get_elem? p.threads t ≡ some (busy_at i) → i < count
    pub cared :
        p.failed ≡ false
        → p.is_stopped ≡ false
        → (i : ℕ) → i < p.next_offset
        → i < count
        → IsCared p i
    pub handed_out :
        p.failed ≡ false
        → p.is_stopped ≡ false
        → (t : ℕ) → get_elem? p.threads t ≡ some ended
        → count ≤ p.next_offset

  -- A thread whose state is not `busy_at i` may change without a loss for offset `i`.
  IsCared-moved :
      (p : Pool S C) (out : List C) (t i : ℕ) (state : Thread)
      → IsCared p i
      → ((c : C) → get_elem? p.out i ≡ some c → get_elem? out i ≡ some c)
      → get_elem? p.threads t ≢ some (busy_at i)
      → IsCared (record p { out = out; threads = set p.threads t state }) i
  IsCared-moved p out t i state (inl (c, e, good)) same ne = inl (c, same c e, good)
  IsCared-moved p out t i state (inr (t', e)) same ne =
      inr (t', get_elem?-set_ne p.threads t t' state (λ eq. ne (rw eq e)) ∙ e)

  ending :
      (t : ℕ) (p : Pool S C)
      → get_elem? p.threads t ≡ some between
      → (leb count p.next_offset || p.failed || p.is_stopped) ≡ true
      → IsFilling p
      → IsFilling (record p { threads = set p.threads t ended; next_offset = p.next_offset + 1 })
  ending t p e over h = record {
    manned = omega (arith, h.manned, length-set p.threads t ended);
    room = h.room;
    at_count = λ t' i at'. elim (set-cases p.threads t t' ended (busy_at i) at') [
      | inl new ↦ absurd (ground (arith, new))
      | inr old ↦ h.at_count t' i old
    ];
    cared = λ f s i lt below.
        IsCared-moved p p.out t i ended
          (h.cared f s i (ground (arith, over, f, s, lt, below)) below) (λ c same. same)
          (ground (arith, e));
    handed_out = λ f s t' at'. ground (arith, over, f, s);
  }

  starting :
      (t : ℕ) (p : Pool S C)
      → get_elem? p.threads t ≡ some between
      → (leb count p.next_offset || p.failed || p.is_stopped) ≡ false
      → IsFilling p
      → IsFilling (record p {
        threads = set p.threads t (busy_at p.next_offset);
        next_offset = p.next_offset + 1;
      })
  starting t p e on h = record {
    manned = omega (arith, h.manned, length-set p.threads t (busy_at p.next_offset));
    room = h.room;
    at_count = λ t' i at'. elim (set-cases p.threads t t' (busy_at p.next_offset) (busy_at i) at') [
      | inl new ↦ ground (arith, new, on)
      | inr old ↦ h.at_count t' i old
    ];
    cared = λ f s i lt below. elim (Bool-cases (i == p.next_offset)) [
      | inl new ↦ inr (
        t,
        get_elem?-set_self p.threads t (busy_at p.next_offset) (get_elem?-lt p.threads t between e)
            ∙ ground (arith, new),
      )
      | inr old ↦
          IsCared-moved p p.out t i (busy_at p.next_offset)
            (h.cared f s i (ground (arith, old, lt)) below) (λ c same. same) (ground (arith, e))
    ];
    handed_out = λ f s t' at'. elim (set-cases p.threads t t' (busy_at p.next_offset) ended at') [
      | inl new ↦ absurd (ground (arith, new))
      | inr old ↦ omega (arith, h.handed_out f s t' old)
    ];
  }

  take_offset-IsFilling :
      (t : ℕ) (p : Pool S C)
      → get_elem? p.threads t ≡ some between
      → IsFilling p
      → IsFilling (take_offset job count t p)
  unfolding take_offset
  take_offset-IsFilling t p e h =
      elim (Bool-cases (leb count p.next_offset || p.failed || p.is_stopped)) [
        | inl over ↦ rw over (ending t p e over h)
        | inr on ↦ rw on (starting t p e on h)
      ]

  store-IsFilling :
      (t i : ℕ) (r : Result C × S) (p : Pool S C)
      → get_elem? p.threads t ≡ some (busy_at i)
      → ((c : C) → r.0 ≡ ok c → Good i c)
      → IsFilling p
      → IsFilling (store job count t i r p)
  store-IsFilling t i (ok c, s) p e good h = record {
    manned = omega (arith, h.manned, length-set p.threads t between);
    room = length-set p.out i c ∙ h.room;
    at_count = λ t' j at'. elim (set-cases p.threads t t' between (busy_at j) at') [
      | inl new ↦ absurd (ground (arith, new))
      | inr old ↦ h.at_count t' j old
    ];
    cared = λ f st j lt below. elim (Bool-cases (i == j)) [
      | inl same ↦
          let e' : i ≡ j = ground (arith, same) in
          rw⁻¹ e' (
            inl (
              c,
              get_elem?-set_self p.out i c (omega (arith, h.room, h.at_count t i e)),
              good c refl,
            ))
      | inr other ↦
          IsCared-moved p (set p.out i c) t j between (h.cared f st j lt below)
            (λ c' stored. get_elem?-set_ne p.out i j c (ground (arith, other)) ∙ stored)
            (ground (arith, e, other))
    ];
    handed_out = λ f st t' at'. elim (set-cases p.threads t t' between ended at') [
      | inl new ↦ absurd (ground (arith, new))
      | inr old ↦ h.handed_out f st t' old
    ];
  }
  store-IsFilling t i (err x, s) p e good h = record {
    manned = omega (arith, h.manned, length-set p.threads t ended);
    room = h.room;
    at_count = λ t' j at'. elim (set-cases p.threads t t' ended (busy_at j) at') [
      | inl new ↦ absurd (ground (arith, new))
      | inr old ↦ h.at_count t' j old
    ];
    cared = λ f st j lt below. absurd (ground (arith, f));
    handed_out = λ f st t' at'. absurd (ground (arith, f));
  }

  go_on-IsFilling :
      ((i : ℕ) (s : S) (c : C) → (job i s).0 ≡ ok c → Good i c)
      → (t : ℕ) (o : Option Thread) (p : Pool S C) → get_elem? p.threads t ≡ o
      → IsFilling p
      → IsFilling (go_on job count t o p)
  unfolding go_on
  go_on-IsFilling good t (some between) p e h = take_offset-IsFilling t p e h
  go_on-IsFilling good t (some (busy_at i)) p e h =
      store-IsFilling t i (job i p.shared) p e (good i p.shared) h
  go_on-IsFilling good t (some ended) p e h = h
  go_on-IsFilling good t none p e h = h

  pub run_pool-IsFilling :
      ((i : ℕ) (s : S) (c : C) → (job i s).0 ≡ ok c → Good i c)
      → (es : List Event) (p : Pool S C) → IsFilling p
      → IsFilling (run_pool job count es p)
  unfolding run_pool
  run_pool-IsFilling good [] p h = h
  run_pool-IsFilling good (turn t ∷ es) p h =
      run_pool-IsFilling good es _ (go_on-IsFilling good t (get_elem? p.threads t) p refl h)
  run_pool-IsFilling good (signal ∷ es) p h = run_pool-IsFilling good es _ (record {
    manned = h.manned;
    room = h.room;
    at_count = h.at_count;
    cared = λ f st i lt below. absurd (ground (arith, st));
    handed_out = λ f st t at'. absurd (ground (arith, st));
  })

  pub start-IsFilling :
      (thread_count : ℕ) (s : S) (blank : C) (stopped : Bool)
      → 0 < thread_count
      → IsFilling (start job count thread_count s blank stopped)
  unfolding start
  start-IsFilling thread_count s blank stopped h = record {
    manned = omega (arith, h, length-replicate thread_count between);
    room = length-replicate count blank;
    at_count = λ t i at'. absurd (ground (arith, all_between thread_count t (busy_at i) at'));
    cared = λ f st i lt below. absurd (omega arith);
    handed_out = λ f st t at'. absurd (ground (arith, all_between thread_count t ended at'));
  }
    where
      all_between :
          (n t : ℕ) (x : Thread) → get_elem? (replicate n between) t ≡ some x → between ≡ x
      all_between zero t x e = cc
      all_between (suc n) zero x e = ground (arith, e)
      all_between (suc n) (suc t) x e = all_between n t x e
