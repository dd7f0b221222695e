-- ===== src/Control/Fifo.antt =====
-- The queue between the workers and the control thread is first in, first out.
use cks_loadtest.Base.{
  if◌then◌else◌, Bool, true, false, List, [], ◌∷◌, ◌++◌, ◌≡◌, refl, sym, ap, ◌∙◌, append_assoc,
  append-nil,
}
use cks_loadtest.Control.{
  ControlRequest, ControlQueue, Popped, blocked, closed, got, push, pop, shutdown,
}

-- What a consumer sees that takes all of `rs` from the queue, and then tries once more.
abbrev pub Drains : List ControlRequest → ControlQueue → Type 0
Drains [] q = pop q ≡ (if q.is_shutdown then closed else blocked)
Drains (r ∷ rs) q =
    (q' : ControlQueue) × (pop q ≡ got r q') × (q'.is_shutdown ≡ q.is_shutdown) × Drains rs q'

pop-Drains :
    (rs : List ControlRequest) (stopped : Bool)
    → Drains rs (record { queue = rs; is_shutdown = stopped })
unfolding pop
pop-Drains [] stopped = refl
pop-Drains (r ∷ rs) stopped =
    (record { queue = rs; is_shutdown = stopped }, refl, refl, pop-Drains rs stopped)

-- What the threads do to the queue, one at a time.
pub data QueueOp : Type 0 where
  pushes : ControlRequest → QueueOp
  pops : QueueOp
  shuts_down : QueueOp

-- What a `pop` leaves in the queue, and hands out.
abbrev pub after_pop : ControlQueue → Popped → ControlQueue
after_pop q blocked = q
after_pop q closed = q
after_pop q (got r q') = q'

abbrev pub handed : Popped → List ControlRequest
handed blocked = []
handed closed = []
handed (got r q') = r ∷ []

abbrev pub run_op : ControlQueue → QueueOp → ControlQueue
run_op q (pushes r) = push q r
run_op q pops = after_pop q (pop q)
run_op q shuts_down = shutdown q

abbrev pub taken_by : ControlQueue → QueueOp → List ControlRequest
taken_by q (pushes r) = []
taken_by q pops = handed (pop q)
taken_by q shuts_down = []

-- The requests that the pops of a run hand out, in order, and the queue that it leaves.
abbrev pub run_ops : List QueueOp → ControlQueue → List ControlRequest × ControlQueue
run_ops [] q = ([], q)
run_ops (op ∷ ops) q =
    let (taken, last) = run_ops ops (run_op q op) in (taken_by q op ++ taken, last)

-- The requests that are pushed in a run, in order.
abbrev pub pushed : List QueueOp → List ControlRequest
pushed [] = []
pushed (pushes r ∷ ops) = r ∷ pushed ops
pushed (pops ∷ ops) = pushed ops
pushed (shuts_down ∷ ops) = pushed ops

run_ops-eq :
    (ops : List QueueOp) (rs : List ControlRequest) (stopped : Bool)
    → let (taken, last) = run_ops ops (record { queue = rs; is_shutdown = stopped }) in
      taken ++ last.queue ≡ rs ++ pushed ops
unfolding pop shutdown
run_ops-eq [] rs stopped = sym (append-nil rs)
run_ops-eq (pushes r ∷ ops) rs stopped =
    run_ops-eq ops (rs ++ (r ∷ [])) stopped ∙ append_assoc rs (r ∷ []) (pushed ops)
run_ops-eq (pops ∷ ops) [] true = run_ops-eq ops [] true
run_ops-eq (pops ∷ ops) [] false = run_ops-eq ops [] false
run_ops-eq (pops ∷ ops) (r ∷ rs) stopped = ap (◌∷◌ r) (run_ops-eq ops rs stopped)
run_ops-eq (shuts_down ∷ ops) rs stopped = run_ops-eq ops rs true

-- However pushes, pops and shutdowns follow each other: the requests that were handed out, and then those
-- that wait, are those that waited at first and then those that were pushed, in order. A consumer that
-- goes on takes all that wait, also when the queue has been shut down, and only then is told that it is
-- closed, or, if it is not shut down, blocks.
pub run_ops-Drains :
    (ops : List QueueOp) (q : ControlQueue)
    → let (taken, last) = run_ops ops q in
      (taken ++ last.queue ≡ q.queue ++ pushed ops) × Drains last.queue last
run_ops-Drains ops q =
    let last = (run_ops ops q).1 in
    (run_ops-eq ops q.queue q.is_shutdown, pop-Drains last.queue last.is_shutdown)
