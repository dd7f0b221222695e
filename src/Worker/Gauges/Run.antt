-- ===== src/Worker/Gauges/Run.antt =====
-- Every round of a worker keeps its share of the gauges.
use cks_loadtest.Base.{ℕ, ◌+◌, ◌≡◌, refl, List, [], ◌∷◌, ◌++◌, arith, All, take}
use cks_loadtest.Base.Int.{ℤ, int_laws}
use cks_loadtest.Platform.{Floats, Crypto}
use cks_loadtest.Config.{Config}
use cks_loadtest.Control.{ClientUpdate, ClientCredentials}
use cks_loadtest.Worker.Client.{SimClient, Cell}
use cks_loadtest.Worker.Simulation.{Simulation}
use cks_loadtest.Worker.Receive.{Recv}
use cks_loadtest.Worker.Send.{send_due}
use cks_loadtest.Worker.Lifecycle.{activate_due}
use cks_loadtest.Worker.Keeps.{IsTidy, Keeps}
use cks_loadtest.Worker.Keeps.Receive.{drain_socket-Keeps}
use cks_loadtest.Worker.Keeps.Send.{send_due-Keeps}
use cks_loadtest.Worker.Keeps.Lifecycle.{apply_update-Keeps, activate_due-Keeps}
use cks_loadtest.Worker.Loop.{
  PendingAdd, Worker, Tick, new_client, each, add_client, post_update, append_all,
  apply_pending_clients, apply_all, apply_pending_updates, activate_due_clients, send_due_updates,
  drain_events, run_round,
}
use cks_loadtest.Worker.Gauges.{
  count_active, count_suspended, IsConsistent, Tracks-IsConsistent, each_from-Tracks,
  at_slot-Tracks,
}

-- What the other threads do between two rounds of a worker, and a round.
pub data Event (fl : Floats) : Type 0 where
  client_added : ClientCredentials → ℕ → Event fl
  update_posted : ClientUpdate → Event fl
  round_run : Tick fl → Event fl

count_active-append :
    {fl : Floats} (cs ds : List (SimClient fl))
    → count_active (cs ++ ds) ≡ count_active cs + count_active ds
count_active-append [] ds = omega arith
count_active-append (c ∷ cs) ds = omega (arith, count_active-append cs ds)

count_suspended-append :
    {fl : Floats} (cs ds : List (SimClient fl))
    → count_suspended (cs ++ ds) ≡ count_suspended cs + count_suspended ds
count_suspended-append [] ds = omega arith
count_suspended-append (c ∷ cs) ds = omega (arith, count_suspended-append cs ds)

IsTidy-append :
    {fl : Floats} (cs : List (SimClient fl)) (d : SimClient fl)
    → All IsTidy cs
    → IsTidy d
    → All IsTidy (cs ++ (d ∷ []))
IsTidy-append [] d t u = (u, t)
IsTidy-append (c ∷ cs) d t u = (t.0, IsTidy-append cs d t.1 u)

module _ {fl : Floats} {Gen : Type 0} (a b : ℤ) where
  append_all-IsConsistent :
      (ps : List PendingAdd) (w : Worker fl Gen)
      → IsConsistent a b w
      → IsConsistent a b (append_all ps w)
  unfolding append_all
  append_all-IsConsistent [] w i = i
  append_all-IsConsistent (p ∷ ps) w i = append_all-IsConsistent ps _ (record {
    active_gauge =
        rw (count_active-append w.clients (new_client p ∷ []), i.active_gauge) (omega int_laws);
    suspended_gauge =
        rw (count_suspended-append w.clients (new_client p ∷ []), i.suspended_gauge)
          (omega int_laws);
    all_tidy = IsTidy-append w.clients (new_client p) i.all_tidy refl;
    counted = refl;
  })

module _ {fl : Floats} (sm : Simulation fl) (c : Crypto) (cfg : Config fl) where
  unfoldable pub run_all : List (Event fl) → Worker fl sm.Gen → Worker fl sm.Gen
  run_all [] w = w
  run_all (client_added creds at ∷ es) w = run_all es (add_client creds at w)
  run_all (update_posted u ∷ es) w = run_all es (post_update u w)
  run_all (round_run t ∷ es) w = run_all es (run_round sm c cfg t w)

module _ {fl : Floats} (sm : Simulation fl) (c : Crypto) (cfg : Config fl) (a b : ℤ) where
  apply_all-IsConsistent :
      (us : List ClientUpdate) (w : Worker fl sm.Gen)
      → IsConsistent a b w
      → IsConsistent a b (apply_all sm c cfg us w)
  unfolding apply_all
  apply_all-IsConsistent [] w i = i
  apply_all-IsConsistent (u ∷ us) w i = apply_all-IsConsistent us _ (
      Tracks-IsConsistent a b w _
        (at_slot-Tracks _ (apply_update-Keeps sm cfg w.index u.client_index u) u.client_index
          w.clients w)
        i)

  drain_events-IsConsistent :
      (es : List (ℕ × List (Recv fl))) (w : Worker fl sm.Gen)
      → IsConsistent a b w
      → IsConsistent a b (drain_events sm c cfg es w)
  unfolding drain_events
  drain_events-IsConsistent [] w i = i
  drain_events-IsConsistent ((slot, rs) ∷ es) w i = drain_events-IsConsistent es _ (
      Tracks-IsConsistent a b w _
        (at_slot-Tracks _ (drain_socket-Keeps cfg w.index slot c rs) slot w.clients w) i)

  each-IsConsistent :
      (f : ℕ → sm.Gen → Cell fl → sm.Gen × Cell fl) (w : Worker fl sm.Gen)
      → ((slot : ℕ) (g : sm.Gen) (x : Cell fl) → Keeps x (f slot g x).1)
      → IsConsistent a b w
      → IsConsistent a b (each f w)
  each-IsConsistent f w k = Tracks-IsConsistent a b w _ (each_from-Tracks f k 0 w.clients w)

  pending_clients-IsConsistent :
      (w : Worker fl sm.Gen) → IsConsistent a b w → IsConsistent a b (apply_pending_clients w)
  unfolding apply_pending_clients
  pending_clients-IsConsistent w i =
      let v : Worker fl sm.Gen = record w { pending = [] } in
      append_all-IsConsistent a b w.pending v (record {
        active_gauge = i.active_gauge;
        suspended_gauge = i.suspended_gauge;
        all_tidy = i.all_tidy;
        counted = i.counted;
      })

  pending_updates-IsConsistent :
      (w : Worker fl sm.Gen)
      → IsConsistent a b w
      → IsConsistent a b (apply_pending_updates sm c cfg w)
  unfolding apply_pending_updates
  pending_updates-IsConsistent w i =
      let v : Worker fl sm.Gen = record w { inbox = [] } in
      apply_all-IsConsistent w.inbox v (record {
        active_gauge = i.active_gauge;
        suspended_gauge = i.suspended_gauge;
        all_tidy = i.all_tidy;
        counted = i.counted;
      })

  round-IsConsistent :
      (t : Tick fl) (w : Worker fl sm.Gen)
      → IsConsistent a b w
      → IsConsistent a b (run_round sm c cfg t w)
  unfolding run_round activate_due_clients send_due_updates
  round-IsConsistent t w i =
      let u : Worker fl sm.Gen = apply_pending_updates sm c cfg (apply_pending_clients w) in
      let v : Worker fl sm.Gen = activate_due_clients sm c cfg t u in
      let z : Worker fl sm.Gen = send_due_updates sm c cfg t v in
      drain_events-IsConsistent (take 64 t.events) z (
        each-IsConsistent
          (λ slot. send_due sm c cfg v.index slot t.steady_seconds t.system_now (t.sends slot)) v
          (λ slot.
            send_due-Keeps sm c cfg v.index slot t.steady_seconds t.system_now (t.sends slot))
          (each-IsConsistent
            (λ slot.
              activate_due sm cfg u.index slot t.steady_now t.steady_seconds (t.openings slot))
            u
            (λ slot.
              activate_due-Keeps sm cfg u.index slot t.steady_now t.steady_seconds
                (t.openings slot))
            (pending_updates-IsConsistent (apply_pending_clients w)
              (pending_clients-IsConsistent w i))))

  -- However clients are added, updates posted and rounds run, whatever arrives and however the
  -- system calls turn out: `activeClients` and `suspendedClients` stay what the others account for
  -- plus the number of this worker's ACTIVE and SUSPENDED clients, a client has an open socket exactly
  -- while it is ACTIVE, and `clientCount` is the number of clients, if all this held at the start.
  pub run_all-IsConsistent :
      (es : List (Event fl)) (w : Worker fl sm.Gen)
      → IsConsistent a b w
      → IsConsistent a b (run_all sm c cfg es w)
  unfolding run_all add_client post_update
  run_all-IsConsistent [] w i = i
  run_all-IsConsistent (client_added creds at ∷ es) w i =
      run_all-IsConsistent es (add_client creds at w) (record {
        active_gauge = i.active_gauge;
        suspended_gauge = i.suspended_gauge;
        all_tidy = i.all_tidy;
        counted = i.counted;
      })
  run_all-IsConsistent (update_posted u ∷ es) w i =
      run_all-IsConsistent es (post_update u w) (record {
        active_gauge = i.active_gauge;
        suspended_gauge = i.suspended_gauge;
        all_tidy = i.all_tidy;
        counted = i.counted;
      })
  run_all-IsConsistent (round_run t ∷ es) w i = run_all-IsConsistent es _ (round-IsConsistent t w i)
