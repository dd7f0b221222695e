-- ===== src/Worker/Refresh/Once.antt =====
-- How often the steps of src/Worker.cpp ask for a refresh of a client's token.
pub mod Received
pub mod Sent
pub mod Run
use cks_loadtest.Base.{
  ℕ, ◌+◌, ◌≤◌, ◌≡◌, refl, ap, ◌∙◌, Bool, true, false, List, [], ◌∷◌, ◌++◌, arith, if◌then◌else◌,
}
use cks_loadtest.Platform.{Floats}
use cks_loadtest.Control.{ControlQueue, ControlRequest, Kind, reassign, refresh}
use cks_loadtest.Worker.Client.{Cell, State, waiting, active, suspended, suspend_client}
use cks_loadtest.Worker.Keeps.{bit}

abbrev pub is_refresh : Kind → Bool
is_refresh reassign = false
is_refresh refresh = true

-- The requests for a refresh that wait on the queue.
abbrev pub refreshes : List ControlRequest → ℕ
refreshes [] = 0
refreshes (r ∷ rs) = bit (is_refresh r.kind) + refreshes rs

pub refreshes-append :
    (rs : List ControlRequest) (r : ControlRequest)
    → refreshes (rs ++ (r ∷ [])) ≡ refreshes rs + bit (is_refresh r.kind)
refreshes-append [] r = omega arith
refreshes-append (q ∷ rs) r = omega (arith, refreshes-append rs r)

module _ {fl : Floats} where
  -- A refresh is asked for at most once, with the flag that it sets, and the flag stays set.
  pub record AsksOnce (x y : Cell fl) : Type 0 where
    pub asked :
        refreshes y.control.queue + bit x.client.refresh_requested
        ≤ refreshes x.control.queue + bit y.client.refresh_requested
    pub flagged : bit x.client.refresh_requested ≤ bit y.client.refresh_requested

  -- A step that leaves the queue and the flag alone.
  pub record Stands (x y : Cell fl) : Type 0 where
    pub same_queue : y.control ≡ x.control
    pub same_flag : y.client.refresh_requested ≡ x.client.refresh_requested

  pub Stands-AsksOnce : (x y : Cell fl) → Stands x y → AsksOnce x y
  Stands-AsksOnce x y s = record {
    asked = rw (s.same_queue, s.same_flag) (omega arith);
    flagged = rw s.same_flag (omega arith);
  }

  pub AsksOnce-refl : (x : Cell fl) → AsksOnce x x
  AsksOnce-refl x = record { asked = omega arith; flagged = omega arith }

  pub AsksOnce-trans : (x y z : Cell fl) → AsksOnce x y → AsksOnce y z → AsksOnce x z
  AsksOnce-trans x y z p q = record {
    asked = omega (arith, p.asked, q.asked);
    flagged = omega (arith, p.flagged, q.flagged);
  }

  -- A suspension asks for what it is told to, unless the client is suspended.
  record Suspends (k : Kind) (x y : Cell fl) : Type 0 where
    added : refreshes y.control.queue ≤ refreshes x.control.queue + bit (is_refresh k)
    same : y.client.refresh_requested ≡ x.client.refresh_requested

  suspend_at :
      (s : State) (worker slot : ℕ) (k : Kind) (x : Cell fl)
      → x.client.state ≡ s
      → Suspends k x (suspend_client worker slot k x)
  unfolding suspend_client
  suspend_at waiting worker slot k x e =
      rw (e, suspend_client)
        (record { added = omega (arith, refreshes-append x.control.queue _); same = refl })
  suspend_at active worker slot k x e =
      rw (e, suspend_client)
        (record { added = omega (arith, refreshes-append x.control.queue _); same = refl })
  suspend_at suspended worker slot k x e =
      rw (e, suspend_client) (record { added = omega arith; same = refl })

  -- A suspension that asks for another server, after a change that leaves queue and flag.
  pub reassign-AsksOnce :
      (worker slot : ℕ) (x y : Cell fl)
      → Stands x y
      → AsksOnce x (suspend_client worker slot reassign y)
  reassign-AsksOnce worker slot x y s =
      let p = suspend_at y.client.state worker slot reassign y refl in
      AsksOnce-trans x y _ (Stands-AsksOnce x y s)
        (record { asked = rw p.same (omega (arith, p.added)); flagged = rw p.same (omega arith) })

  -- A suspension that asks for a refresh, when the flag has just been set.
  pub refresh-AsksOnce :
      (worker slot : ℕ) (x y : Cell fl)
      → x.client.refresh_requested ≡ false
      → y.client.refresh_requested ≡ true
      → y.control ≡ x.control
      → AsksOnce x (suspend_client worker slot refresh y)
  refresh-AsksOnce worker slot x y before after same =
      let p = suspend_at y.client.state worker slot refresh y refl in
      let waiting_as = ap (λ (q : ControlQueue). refreshes q.queue) same in
      let unset = ap bit before in
      let set = ap bit (p.same ∙ after) in
      record {
        asked = omega (arith, waiting_as, unset, set, p.added);
        flagged = omega (arith, unset, set);
      }

  pub if-AsksOnce :
      (b : Bool) (x y z : Cell fl) → AsksOnce x y → AsksOnce x z → AsksOnce x (if b then y else z)
  if-AsksOnce true x y z p q = p
  if-AsksOnce false x y z p q = q

  pub if_second-AsksOnce {ℓ} :
      {A : Type ℓ}
      → (b : Bool) (x : Cell fl) (y z : A × Cell fl) → AsksOnce x y.1
      → AsksOnce x z.1
      → AsksOnce x (if b then y else z).1
  if_second-AsksOnce true x y z p q = p
  if_second-AsksOnce false x y z p q = q
