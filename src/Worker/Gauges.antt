-- ===== src/Worker/Gauges.antt =====
-- A worker's share of the gauges, over its whole loop.
pub mod Run
use cks_loadtest.Base.{
  ℕ, zero, suc, ◌+◌, ◌≡◌, refl, sym, ap, ◌∙◌, Bool, true, false, List, [], ◌∷◌, ◌++◌, arith, length,
  All, length-append, take,
}
use cks_loadtest.Base.Int.{ℤ, pos, ◌+ℤ◌, pos_part, neg_part, int_laws}
use cks_loadtest.Platform.{Floats, Crypto}
use cks_loadtest.Config.{Config}
use cks_loadtest.Control.{ClientUpdate, ClientCredentials}
use cks_loadtest.Worker.Client.{SimClient, Cell, is_active, is_suspended}
use cks_loadtest.Worker.Simulation.{Simulation}
use cks_loadtest.Worker.Receive.{Recv, drain_socket}
use cks_loadtest.Worker.Send.{send_due}
use cks_loadtest.Worker.Lifecycle.{activate_due, apply_update}
use cks_loadtest.Worker.Keeps.{bit, IsTidy, Keeps}
use cks_loadtest.Worker.Keeps.Receive.{drain_socket-Keeps}
use cks_loadtest.Worker.Keeps.Send.{send_due-Keeps}
use cks_loadtest.Worker.Keeps.Lifecycle.{apply_update-Keeps, activate_due-Keeps}
use cks_loadtest.Worker.Loop.{
  PendingAdd, Worker, Tick, put_cell, put_first, cell_of, new_client, each_from, each, at_slot,
  add_client, post_update, append_all, apply_pending_clients, apply_all, apply_pending_updates,
  activate_due_clients, send_due_updates, drain_events, run_round,
}

share_lem : (x y a : ℤ) (m n : ℕ) → y +ℤ pos m ≡ x +ℤ pos n → x ≡ a +ℤ pos m → y ≡ a +ℤ pos n
share_lem x y a m n p q =
    omega (int_laws, ap pos_part p, ap neg_part p, ap pos_part q, ap neg_part q)

sum_lem :
    (x y z : ℤ) (i j m n : ℕ)
    → y +ℤ pos i ≡ x +ℤ pos j
    → z +ℤ pos m ≡ y +ℤ pos n
    → z +ℤ pos (i + m) ≡ x +ℤ pos (j + n)
sum_lem x y z i j m n p q =
    omega (int_laws, ap pos_part p, ap neg_part p, ap pos_part q, ap neg_part q)

shift_lem : (x y : ℤ) (i m n : ℕ) → y +ℤ pos m ≡ x +ℤ pos n → y +ℤ pos (i + m) ≡ x +ℤ pos (i + n)
shift_lem x y i m n p = omega (int_laws, ap pos_part p, ap neg_part p)

head_lem : (x y : ℤ) (i j m : ℕ) → y +ℤ pos i ≡ x +ℤ pos j → y +ℤ pos (i + m) ≡ x +ℤ pos (j + m)
head_lem x y i j m p = omega (int_laws, ap pos_part p, ap neg_part p)

module _ {fl : Floats} where
  abbrev pub count_active : List (SimClient fl) → ℕ
  count_active [] = 0
  count_active (c ∷ cs) = bit (is_active c.state) + count_active cs

  abbrev pub count_suspended : List (SimClient fl) → ℕ
  count_suspended [] = 0
  count_suspended (c ∷ cs) = bit (is_suspended c.state) + count_suspended cs

  module _ {Gen : Type 0} where
    -- The gauges are what the other workers account for, `a` and `b`, and this worker's clients.
    pub record IsConsistent (a b : ℤ) (w : Worker fl Gen) : Type 0 where
      pub active_gauge : w.stats.active_clients ≡ a +ℤ pos (count_active w.clients)
      pub suspended_gauge : w.stats.suspended_clients ≡ b +ℤ pos (count_suspended w.clients)
      pub all_tidy : All IsTidy w.clients
      pub counted : w.client_count ≡ length w.clients

    -- What a step on the clients `cs` of `w` keeps.
    pub record Tracks (cs : List (SimClient fl)) (w v : Worker fl Gen) : Type 0 where
      track_active :
          v.stats.active_clients +ℤ pos (count_active cs)
          ≡ w.stats.active_clients +ℤ pos (count_active v.clients)
      track_suspended :
          v.stats.suspended_clients +ℤ pos (count_suspended cs)
          ≡ w.stats.suspended_clients +ℤ pos (count_suspended v.clients)
      track_tidy : All IsTidy cs → All IsTidy v.clients
      track_length : length v.clients ≡ length cs
      track_count : v.client_count ≡ w.client_count

    pub Tracks-IsConsistent :
        (a b : ℤ) (w v : Worker fl Gen)
        → Tracks w.clients w v
        → IsConsistent a b w
        → IsConsistent a b v
    Tracks-IsConsistent a b w v t i = record {
      active_gauge = share_lem _ _ a _ _ t.track_active i.active_gauge;
      suspended_gauge = share_lem _ _ b _ _ t.track_suspended i.suspended_gauge;
      all_tidy = t.track_tidy i.all_tidy;
      counted = t.track_count ∙ i.counted ∙ sym t.track_length;
    }

    pub each_from-Tracks :
        (f : ℕ → Gen → Cell fl → Gen × Cell fl)
        → ((slot : ℕ) (g : Gen) (x : Cell fl) → Keeps x (f slot g x).1)
        → (slot : ℕ) (cs : List (SimClient fl)) (w : Worker fl Gen)
        → Tracks cs w (each_from f slot cs w)
    unfolding each_from
    each_from-Tracks f k slot [] w = record {
      track_active = refl;
      track_suspended = refl;
      track_tidy = λ t. t;
      track_length = refl;
      track_count = refl;
    }
    each_from-Tracks f k slot (c ∷ cs) w =
        let r : Gen × Cell fl = f slot w.gen (cell_of w c) in
        let kept = k slot w.gen (cell_of w c) in
        let v : Worker fl Gen = record w { gen = r.0; stats = r.1.stats; control = r.1.control } in
        let rest = each_from-Tracks f k (suc slot) cs v in
        record {
          track_active = sum_lem _ _ _ _ _ _ _ kept.active_moves rest.track_active;
          track_suspended = sum_lem _ _ _ _ _ _ _ kept.suspended_moves rest.track_suspended;
          track_tidy = λ t. (kept.stays_tidy t.0, rest.track_tidy t.1);
          track_length = ap suc rest.track_length;
          track_count = rest.track_count;
        }

    pub at_slot-Tracks :
        (f : Cell fl → Cell fl)
        → ((x : Cell fl) → Keeps x (f x))
        → (slot : ℕ) (cs : List (SimClient fl)) (w : Worker fl Gen)
        → Tracks cs w (at_slot f slot cs w)
    unfolding at_slot
    at_slot-Tracks f k slot [] w = record {
      track_active = refl;
      track_suspended = refl;
      track_tidy = λ t. t;
      track_length = refl;
      track_count = refl;
    }
    at_slot-Tracks f k zero (c ∷ cs) w =
        let kept = k (cell_of w c) in
        record {
          track_active = head_lem _ _ _ _ _ kept.active_moves;
          track_suspended = head_lem _ _ _ _ _ kept.suspended_moves;
          track_tidy = λ t. (kept.stays_tidy t.0, t.1);
          track_length = refl;
          track_count = refl;
        }
    at_slot-Tracks f k (suc slot) (c ∷ cs) w =
        let rest = at_slot-Tracks f k slot cs w in
        record {
          track_active = shift_lem _ _ (bit (is_active c.state)) _ _ rest.track_active;
          track_suspended = shift_lem _ _ (bit (is_suspended c.state)) _ _ rest.track_suspended;
          track_tidy = λ t. (t.0, rest.track_tidy t.1);
          track_length = ap suc rest.track_length;
          track_count = rest.track_count;
        }
