-- ===== src/Process/Yield.antt =====
-- What `process_yield` of kernel/process/process.c does: the ready queue is a stack, so the process
-- that gives up the processor gets it back.
use pxos.Base.{ℕ, ◌≡◌, refl, ap, ◌∙◌, arith, Option, none, some, List, ◌∷◌}
use mathlib.Core.Path.{subst}
use pxos.Heap.{add32}
use pxos.Str.Search.{Lacks}
use pxos.Process.{
  ready, running, Pcb, Pool, Manager, put, add_to_queue, remove_from_queue, process_switch,
  schedule_next_process, requeue, expire, process_scheduler, give_up, process_yield,
}
use pxos.Process.Queue.{
  IsQueue, Linked-put, put-same, add_to_queue-IsQueue, remove_from_queue-IsQueue,
}

-- The state in which the scheduler runs after the slice is given up.
abbrev gave_up : Manager → ℕ → Manager
gave_up m r = record m {
  pool = put m.pool r (record (m.pool r) { remaining_slice = 0 });
  scheduler_ticks = add32 m.scheduler_ticks 1;
}

process_yield-expire :
    (fuel : ℕ) (m : Manager) (r : ℕ)
    → m.running_process ≡ some r
    → process_yield fuel m ≡ expire fuel (gave_up m r) (some r)
unfolding process_yield process_scheduler
process_yield-expire fuel m r e = ap (give_up fuel m) e ∙ ap (expire fuel (gave_up m r)) e

expire-schedule :
    (fuel : ℕ) (n : Manager) (r : ℕ)
    → (n.pool r).remaining_slice ≡ 0
    → expire fuel n (some r) ≡ schedule_next_process fuel (requeue n r)
expire-schedule fuel n r e = ground arith

-- The pool and the queue with the running process at the head.
abbrev put_back : Manager → ℕ → Pool × Option ℕ
put_back n r = add_to_queue (put n.pool r (record (n.pool r) { state = ready })) n.ready_queue r

requeue-put_back :
    (n : Manager) (r : ℕ)
    → (n.pool r).state ≡ running
    → requeue n r ≡ record n { pool = (put_back n r).0; ready_queue = (put_back n r).1 }
unfolding requeue
requeue-put_back n r e = rw e refl

-- The state after the process at the head is switched to again.
abbrev resumed : Manager → ℕ → Manager
resumed n r =
    let (pool', queue) = remove_from_queue (put_back n r).0 (some r) r in
    process_switch (record n { pool = pool'; ready_queue = queue }) r

schedule-resumed :
    (fuel : ℕ) (n : Manager) (r : ℕ)
    → schedule_next_process fuel
        (record n { pool = (put_back n r).0; ready_queue = (put_back n r).1 })
      ≡ some (resumed n r)
unfolding schedule_next_process add_to_queue
schedule-resumed fuel n r = refl

switched-IsQueue :
    (n : Manager) (r : ℕ) (ps : List ℕ)
    → Lacks r ps
    → IsQueue n.pool n.ready_queue ps
    → IsQueue (process_switch n r).pool (process_switch n r).ready_queue ps
unfolding process_switch
switched-IsQueue n r ps out q = record {
  linked = Linked-put n.pool r _ none n.ready_queue ps out q.linked;
  distinct = q.distinct;
}

head_of : (pool : Pool) (queue : Option ℕ) (p : ℕ) → (add_to_queue pool queue p).1 ≡ some p
unfolding add_to_queue
head_of pool queue p = refl

resumed-IsQueue :
    (n : Manager) (r : ℕ) (ps : List ℕ)
    → Lacks r ps
    → IsQueue n.pool n.ready_queue ps
    → IsQueue (resumed n r).pool (resumed n r).ready_queue ps
resumed-IsQueue n r ps out q = switched-IsQueue _ r ps out (
    remove_from_queue-IsQueue (put_back n r).0 r ps (
      subst (λ h. IsQueue (put_back n r).0 h (r ∷ ps)) (head_of _ n.ready_queue r)
        (add_to_queue-IsQueue _ n.ready_queue r ps
          (record {
            linked =
                Linked-put n.pool r (record (n.pool r) { state = ready }) none n.ready_queue ps out
                  q.linked;
            distinct = q.distinct;
          })
          out)))

switched-running : (n : Manager) (r : ℕ) → ((process_switch n r).pool r).state ≡ running
unfolding process_switch
switched-running n r = ap (λ (b : Pcb). b.state) (put-same n.pool r _)

switched-current : (n : Manager) (r : ℕ) → (process_switch n r).running_process ≡ some r
unfolding process_switch
switched-current n r = refl

-- Where the running process is in the state RUNNING and not in the ready queue, `process_yield`
-- succeeds, the same process is running afterwards, and the ready queue holds the same processes in
-- the same order, however many are waiting.
pub process_yield-IsQueue :
    (fuel : ℕ) (m : Manager) (r : ℕ) (ps : List ℕ)
    → m.running_process ≡ some r
    → (m.pool r).state ≡ running
    → IsQueue m.pool m.ready_queue ps
    → Lacks r ps
    → (m' : Manager) × (process_yield fuel m ≡ some m')
      × (m'.running_process ≡ some r)
      × ((m'.pool r).state ≡ running)
      × IsQueue m'.pool m'.ready_queue ps
process_yield-IsQueue fuel m r ps e st q out = (
  resumed n r,
  process_yield-expire fuel m r e
      ∙ expire-schedule fuel n r (ap (λ (b : Pcb). b.remaining_slice) same)
      ∙ ap (schedule_next_process fuel) (requeue-put_back n r (ap (λ (b : Pcb). b.state) same ∙ st))
      ∙ schedule-resumed fuel n r,
  switched-current _ r,
  switched-running _ r,
  resumed-IsQueue n r ps out (record {
    linked =
        Linked-put m.pool r (record (m.pool r) { remaining_slice = 0 }) none m.ready_queue ps out
          q.linked;
    distinct = q.distinct;
  }),
)
  where
    n : Manager
    n = gave_up m r

    same : n.pool r ≡ record (m.pool r) { remaining_slice = 0 }
    same = put-same m.pool r (record (m.pool r) { remaining_slice = 0 })
