-- ===== src/Worker/Refresh/Once/Run.antt =====
-- Over whatever a client's worker does with it, and whatever fails.
use cks_loadtest.Base.{
  ℕ, ◌≡◌, refl, Bool, true, false, not, ◌||◌, Option, none, some, List, [], ◌∷◌, arith, ltb, ◌==◌,
  get_or,
}
use cks_loadtest.Platform.{Floats, Crypto}
use cks_loadtest.Config.{Config}
use cks_loadtest.Control.{ClientUpdate}
use cks_loadtest.Worker.Client.{Sim, Cell, is_waiting, with_client}
use cks_loadtest.Worker.Simulation.{Simulation}
use cks_loadtest.Worker.Receive.{Recv, drain_socket}
use cks_loadtest.Worker.Send.{Sends, send_due}
use cks_loadtest.Worker.Lifecycle.{
  Opening, open_socket, begin, arm, finish_activation, activate_due, apply_update,
}
use cks_loadtest.Worker.Refresh.Once.{
  AsksOnce, Stands, Stands-AsksOnce, AsksOnce-refl, AsksOnce-trans, reassign-AsksOnce,
  if_second-AsksOnce,
}
use cks_loadtest.Worker.Refresh.Once.Received.{drain_socket-AsksOnce}
use cks_loadtest.Worker.Refresh.Once.Sent.{send_due-AsksOnce}

-- A step of the worker on one client: an update is posted to it, or its part of a round.
pub data ClientStep {fl : Floats} (sm : Simulation fl) : Type 0 where
  updates : ClientUpdate → ClientStep sm
  activates : ℕ → fl.Double → Opening → sm.Gen → ClientStep sm
  sends : fl.Double → ℕ → Sends → sm.Gen → ClientStep sm
  receives : List (Recv fl) → ClientStep sm

module _ {fl : Floats} (sm : Simulation fl) (c : Crypto) (cfg : Config fl) (worker slot : ℕ) where
  abbrev pub run_step : ClientStep sm → Cell fl → Cell fl
  run_step (updates u) x = apply_update sm cfg worker slot u x
  run_step (activates now now_sec o g) x = (activate_due sm cfg worker slot now now_sec o g x).1
  run_step (sends now_sec sys_now out g) x =
      (send_due sm c cfg worker slot now_sec sys_now out g x).1
  run_step (receives rs) x = drain_socket cfg worker slot c rs x

  abbrev pub run_client : List (ClientStep sm) → Cell fl → Cell fl
  run_client [] x = x
  run_client (s ∷ ss) x = run_client ss (run_step s x)

  -- Every update says that the control thread has given up.
  abbrev pub IsUnanswered : List (ClientStep sm) → Type 0
  IsUnanswered [] = Unit
  IsUnanswered (updates u ∷ ss) = (u.failed ≡ true) × IsUnanswered ss
  IsUnanswered (activates now now_sec o g ∷ ss) = IsUnanswered ss
  IsUnanswered (sends now_sec sys_now out g ∷ ss) = IsUnanswered ss
  IsUnanswered (receives rs ∷ ss) = IsUnanswered ss

  failed-AsksOnce :
      (u : ClientUpdate) (x : Cell fl)
      → u.failed ≡ true
      → AsksOnce x (apply_update sm cfg worker slot u x)
  unfolding apply_update
  failed-AsksOnce u x f = rw f (AsksOnce-refl x)

  open_at :
      (o : Opening) (x : Cell fl) (s : Option ℕ)
      → o.socket_fd ≡ s
      → Stands x (open_socket cfg o x).1
  unfolding open_socket
  open_at o x none e = ground (arith, e)
  open_at o x (some fd) e = ground (arith, e)

  finish-AsksOnce :
      (x : Cell fl) (opened : Bool) (y : Cell fl)
      → Stands x y
      → AsksOnce x (finish_activation sm cfg worker slot (opened, y))
  finish-AsksOnce x true y s =
      Stands-AsksOnce x _ (record { same_queue = s.same_queue; same_flag = s.same_flag })
  finish-AsksOnce x false y s = reassign-AsksOnce worker slot x y s

  activate_due-AsksOnce :
      (now : ℕ) (now_sec : fl.Double) (o : Opening) (g : sm.Gen) (x : Cell fl)
      → AsksOnce x (activate_due sm cfg worker slot now now_sec o g x).1
  unfolding activate_due
  activate_due-AsksOnce now now_sec o g x =
      let k = x.client in
      let s : Sim fl = (begin sm cfg worker slot (get_or k.sim.uuid 0 0 == 0) now_sec g k).1 in
      let y : Cell fl = with_client x (arm sm cfg worker slot now now_sec k s) in
      let r : Bool × Cell fl = open_socket cfg o y in
      if_second-AsksOnce (not (is_waiting k.state)) x _ _ (AsksOnce-refl x) (
        if_second-AsksOnce (ltb now k.activate_at || ltb now k.creds.udp_ready_at) x _ _
          (AsksOnce-refl x)
          (AsksOnce-trans x y _
            (Stands-AsksOnce x y (record { same_queue = refl; same_flag = refl }))
            (finish-AsksOnce y r.0 r.1 (open_at o y o.socket_fd refl))))

  -- Whatever one client's worker does with it, and whatever datagrams, answers of the system and clocks
  -- it meets: until the control thread answers with something else than that it gave up, the client puts
  -- at most one request for a refresh on the control queue, and none if its flag is set at first, also
  -- after a refresh that failed; and the flag, once set, stays set.
  pub run_client-AsksOnce :
      (ss : List (ClientStep sm)) (x : Cell fl) → IsUnanswered ss → AsksOnce x (run_client ss x)
  run_client-AsksOnce [] x h = AsksOnce-refl x
  run_client-AsksOnce (updates u ∷ ss) x (f, h) =
      AsksOnce-trans x _ _ (failed-AsksOnce u x f) (run_client-AsksOnce ss _ h)
  run_client-AsksOnce (activates now now_sec o g ∷ ss) x h =
      AsksOnce-trans x _ _ (activate_due-AsksOnce now now_sec o g x) (run_client-AsksOnce ss _ h)
  run_client-AsksOnce (sends now_sec sys_now out g ∷ ss) x h =
      AsksOnce-trans x _ _ (send_due-AsksOnce sm c cfg worker slot now_sec sys_now out g x)
        (run_client-AsksOnce ss _ h)
  run_client-AsksOnce (receives rs ∷ ss) x h =
      AsksOnce-trans x _ _ (drain_socket-AsksOnce cfg worker slot c rs x)
        (run_client-AsksOnce ss _ h)
