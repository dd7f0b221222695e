-- ===== src/Provisioner/Pool.antt =====
-- `provisionRange` of src/Provisioner.cpp: threads that share a counter of offsets.
pub mod Filled
pub mod Joined
pub mod Turns
pub mod Range
use cks_loadtest.Base.{
  ℕ, zero, suc, ◌+◌, Bool, true, false, ◌&&◌, ◌||◌, Option, none, some, List, [], ◌∷◌,
  if◌then◌else◌, leb, replicate, get_elem?, set,
}
use cks_loadtest.Graphql.Action.{Action, Result, ok, err}

-- A thread is between two rounds of its loop, provisions the client at an offset, or has returned.
pub data Thread : Type 0 where
  between : Thread
  busy_at : ℕ → Thread
  ended : Thread

-- What the threads share: the state `S` that a job changes, the results, and the flags.
pub record Pool (S C : Type 0) : Type 0 where
  pub shared : S
  pub out : List C
  pub next_offset : ℕ
  pub failed : Bool
  pub is_stopped : Bool
  pub threads : List Thread

-- The environment lets a thread go on, or a signal sets the flag `stop`.
pub data Event : Type 0 where
  turn : ℕ → Event
  signal : Event

module _ {S C : Type 0} (job : ℕ → Action S C) (count : ℕ) where
  set_thread : ℕ → Thread → Pool S C → Pool S C
  set_thread t state p = record p { threads = set p.threads t state }

  -- The head of a round: the next offset, and whether it is one to work on.
  unfoldable pub take_offset : ℕ → Pool S C → Pool S C
  unfolding set_thread
  take_offset t p =
      set_thread t
        (if leb count p.next_offset || p.failed || p.is_stopped
          then ended
          else busy_at p.next_offset)
        (record p { next_offset = p.next_offset + 1 })

  -- What a round does with the outcome of its job.
  abbrev pub store : ℕ → ℕ → Result C × S → Pool S C → Pool S C
  store t offset (ok c, s) p = record p {
    shared = s;
    out = set p.out offset c;
    threads = set p.threads t between;
  }
  store t offset (err e, s) p = record p {
    shared = s;
    failed = true;
    threads = set p.threads t ended;
  }

  -- A job runs as one step.
  unfoldable pub go_on : ℕ → Option Thread → Pool S C → Pool S C
  go_on t (some between) p = take_offset t p
  go_on t (some (busy_at offset)) p = store t offset (job offset p.shared) p
  go_on t (some ended) p = p
  go_on t none p = p

  abbrev pub on_event : Event → Pool S C → Pool S C
  on_event (turn t) p = go_on t (get_elem? p.threads t) p
  on_event signal p = record p { is_stopped = true }

  unfoldable pub run_pool : List Event → Pool S C → Pool S C
  run_pool [] p = p
  run_pool (e ∷ es) p = run_pool es (on_event e p)

  abbrev pub is_ended : Thread → Bool
  is_ended ended = true
  is_ended between = false
  is_ended (busy_at offset) = false

  unfoldable pub all_ended : List Thread → Bool
  all_ended [] = true
  all_ended (t ∷ ts) = is_ended t && all_ended ts

  unfoldable pub start : ℕ → S → C → Bool → Pool S C
  start thread_count s blank stopped = record {
    shared = s;
    out = replicate count blank;
    next_offset = 0;
    failed = false;
    is_stopped = stopped;
    threads = replicate thread_count between;
  }

  -- What follows the joining of the threads; `none` while one of them still runs.
  unfoldable pub joined : Pool S C → Option (List C)
  joined p =
      if all_ended p.threads then some (if p.is_stopped || p.failed then [] else p.out) else none
