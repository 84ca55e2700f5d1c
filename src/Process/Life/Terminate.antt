-- ===== src/Process/Life/Terminate.antt =====
-- `process_terminate` of the running process in kernel/process/process.c.
pub mod Queues
use pxos.Base.{ℕ, ◌≡◌, refl, ap, ◌∙◌, arith, Option, none, some, List, [], ◌∷◌}
use pxos.Heap.{Heap, add32, sub32}
use pxos.Process.{
  terminated, Pcb, Pool, Manager, put, set_next, set_prev, set_prev_of, add_to_queue,
  process_get_by_pid, process_yield, give_up, process_scheduler, expire,
}
use pxos.Process.Queue.{IsQueue, Linked, Linked-put, add_to_queue-IsQueue, put-same}
use pxos.Process.Life.Terminate.Queues.{
  Same, Same-trans, put-Same, Apart, NotHead-Linked, add_to_queue-Same, Linked-Same,
}
use pxos.Str.Search.{Lacks}
use pxos.Process.Life.{
  release, detach, bury, deallocate_pcb, terminate_found, terminate_buried, finish_terminate,
  release_next, process_terminate,
}

-- What `add_to_queue` leaves of the process itself.
set_prev_of-bases :
    (pool : Pool) (queue v : Option ℕ) (p : ℕ)
    → ((set_prev_of pool queue v p).stack_base ≡ (pool p).stack_base)
      × ((set_prev_of pool queue v p).heap_base ≡ (pool p).heap_base)
unfolding put
set_prev_of-bases pool none v p = (refl, refl)
set_prev_of-bases pool (some q) v p = (ground arith, ground arith)

add_to_queue-bases :
    (pool : Pool) (queue : Option ℕ) (p : ℕ)
    → (((add_to_queue pool queue p).0 p).stack_base ≡ (pool p).stack_base)
      × (((add_to_queue pool queue p).0 p).heap_base ≡ (pool p).heap_base)
unfolding add_to_queue
add_to_queue-bases pool queue p = (
  ap (λ (b : Pcb). b.stack_base) outer ∙ mid.0 ∙ ap (λ (b : Pcb). b.stack_base) inner,
  ap (λ (b : Pcb). b.heap_base) outer ∙ mid.1 ∙ ap (λ (b : Pcb). b.heap_base) inner,
)
  where
    pool2 : Pool
    pool2 = set_prev_of (set_next pool p queue) queue (some p)

    outer : set_prev pool2 p none p ≡ record (pool2 p) { prev = none }
    outer = put-same pool2 p (record (pool2 p) { prev = none })

    mid :
        ((pool2 p).stack_base ≡ (set_next pool p queue p).stack_base)
        × ((pool2 p).heap_base ≡ (set_next pool p queue p).heap_base)
    mid = set_prev_of-bases (set_next pool p queue) queue (some p) p

    inner : set_next pool p queue p ≡ record (pool p) { next = queue }
    inner = put-same pool p (record (pool p) { next = queue })

detach-current :
    (m : Manager) (r : ℕ)
    → m.running_process ≡ some r
    → detach m r ≡ record m { running_process = none }
unfolding detach
detach-current m r e = ground arith

bury-bases :
    (m : Manager) (p : ℕ)
    → (((bury m p).pool p).stack_base ≡ (m.pool p).stack_base)
      × (((bury m p).pool p).heap_base ≡ (m.pool p).heap_base)
unfolding bury
bury-bases m p =
    let (s, h) = add_to_queue-bases (put m.pool p ended) m.terminated_queue p in
    (
      s ∙ ap (λ (b : Pcb). b.stack_base) (put-same m.pool p ended),
      h ∙ ap (λ (b : Pcb). b.heap_base) (put-same m.pool p ended),
    )
  where
    ended : Pcb
    ended = record (m.pool p) { state = terminated }

-- What `process_terminate` leaves of the running process `r`, where `kfree` leaves the heap `h`.
abbrev ended_current : Manager → ℕ → Heap → Manager
ended_current m r h =
    let m2 =
      deallocate_pcb (record (bury (record m { running_process = none }) r) { heap = h }) r in
    record m2 { process_count = sub32 m2.process_count 1 }

terminate_found-current :
    (fuel : ℕ) (m : Manager) (r : ℕ) (h : Heap)
    → m.running_process ≡ some r
    → release m.heap (m.pool r).stack_base ≡ some h
    → (m.pool r).heap_base ≡ 0
    → terminate_found fuel m r ≡ some (ended_current m r h)
unfolding terminate_found deallocate_pcb bury
terminate_found-current fuel m r h e s hb =
    ap (λ n. terminate_buried fuel (bury n r) r) (detach-current m r e)
    ∙ ap (λ b. finish_terminate fuel m1 r (release_next (m1.pool r).heap_base (release m.heap b)))
        bases.0
    ∙ ap (λ o. finish_terminate fuel m1 r (release_next (m1.pool r).heap_base o)) s
    ∙ ap (λ b. finish_terminate fuel m1 r (release h b)) (bases.1 ∙ hb)
  where
    m1 : Manager
    m1 = bury (record m { running_process = none }) r

    bases :
        ((m1.pool r).stack_base ≡ (m.pool r).stack_base)
        × ((m1.pool r).heap_base ≡ (m.pool r).heap_base)
    bases = bury-bases (record m { running_process = none }) r

process_get_by_pid-current :
    (fuel : ℕ) (m : Manager) (r : ℕ)
    → m.running_process ≡ some r
    → process_get_by_pid fuel m (m.pool r).pid ≡ some (some r)
unfolding process_get_by_pid
process_get_by_pid-current fuel m r e = ground arith

-- The pool after the running process is moved to the terminated queue.
abbrev buried_pool : Manager → ℕ → Pool
buried_pool m r =
    (add_to_queue (put m.pool r (record (m.pool r) { state = terminated })) m.terminated_queue r).0

buried-Same :
    (m : Manager) (r : ℕ) (ps ts : List ℕ)
    → Linked m.pool none m.terminated_queue ts
    → Lacks r ps
    → Apart ts ps
    → Same m.pool (buried_pool m r) ps
buried-Same m r ps ts l out apart =
    Same-trans m.pool _ (buried_pool m r) ps
      (put-Same m.pool r (record (m.pool r) { state = terminated }) ps out)
      (add_to_queue-Same _ m.terminated_queue r ps out (NotHead-Linked m.pool none _ ts ps l apart))

-- The calls that can switch to another process.
pub data Call : Type 0 where
  yield scheduler : Call

-- A sequence of them.
abbrev pub run_calls : ℕ → List Call → Manager → Option Manager
run_calls fuel [] m = some m
run_calls fuel (yield ∷ cs) m = elim (process_yield fuel m) [
  | none ↦ none
  | some m' ↦ run_calls fuel cs m'
]
run_calls fuel (scheduler ∷ cs) m = elim (process_scheduler fuel m) [
  | none ↦ none
  | some m' ↦ run_calls fuel cs m'
]

-- A manager that only counts ticks.
pub record Stuck (m n : Manager) : Type 0 where
  pub nothing_runs : n.running_process ≡ none
  pub same_queue : n.ready_queue ≡ m.ready_queue
  pub same_pool : n.pool ≡ m.pool

-- Without a running process no sequence of calls starts one.
run_calls-Stuck :
    (fuel : ℕ) (cs : List Call) (m n : Manager)
    → Stuck m n
    → (n' : Manager) × (run_calls fuel cs n ≡ some n') × Stuck m n'
unfolding process_yield process_scheduler
run_calls-Stuck fuel [] m n s = (n, refl, s)
run_calls-Stuck fuel (yield ∷ cs) m n s =
    let (n', e, s') = run_calls-Stuck fuel cs m n s in
    (
      n',
      ap (λ o. elim (give_up fuel n o) [ none ↦ none | some m' ↦ run_calls fuel cs m' ])
            s.nothing_runs
          ∙ e,
      s',
    )
run_calls-Stuck fuel (scheduler ∷ cs) m n s =
    let ticked = record n { scheduler_ticks = add32 n.scheduler_ticks 1 } in
    let (n', e, s') = run_calls-Stuck fuel cs m ticked (record {
      nothing_runs = s.nothing_runs;
      same_queue = s.same_queue;
      same_pool = s.same_pool;
    }) in
    (
      n',
      ap (λ o. elim (expire fuel ticked o) [ none ↦ none | some m' ↦ run_calls fuel cs m' ])
            s.nothing_runs
          ∙ e,
      s',
    )

-- What `process_terminate` leaves of the manager `m` with the ready queue `ps` and the terminated
-- queue `ts`.
pub record Terminated (fuel : ℕ) (m : Manager) (r : ℕ) (ps ts : List ℕ) (m' : Manager)
    : Type 0 where
  pub nothing_runs : m'.running_process ≡ none
  pub ready : IsQueue m'.pool m'.ready_queue ps
  pub unchanged : Same m.pool m'.pool ps
  pub ended : IsQueue m'.pool m'.terminated_queue (r ∷ ts)
  pub never_chosen : (cs : List Call) → (n : Manager) × (run_calls fuel cs m' ≡ some n) × Stuck m' n

-- Where `kfree` accepts the stack of the running process and it has no heap, and the ready and the
-- terminated queue are in order, have no process in common and not the running one, `process_terminate`
-- of the running process's pid succeeds. It leaves no process running, every process of the ready
-- queue, with its links, as it was, and the running one in front of the terminated queue. No sequence
-- of calls of `process_yield` and `process_scheduler` then lets a process run or changes the ready
-- queue or a process: the processes that are ready are never chosen.
pub process_terminate-process_yield :
    (fuel : ℕ) (m : Manager) (r : ℕ) (ps ts : List ℕ) (h : Heap)
    → m.running_process ≡ some r
    → release m.heap (m.pool r).stack_base ≡ some h
    → (m.pool r).heap_base ≡ 0
    → IsQueue m.pool m.ready_queue ps
    → IsQueue m.pool m.terminated_queue ts
    → Lacks r ps
    → Lacks r ts
    → Apart ts ps
    → (m' : Manager) × (process_terminate fuel m (m.pool r).pid ≡ some (none, m'))
      × Terminated fuel m r ps ts m'
unfolding process_terminate deallocate_pcb bury
process_terminate-process_yield fuel m r ps ts h e s hb ready ended out_ready out_ended apart =
    let m' = ended_current m r h in
    let same = buried-Same m r ps ts ended.linked out_ready apart in
    (
      m',
      rw (process_get_by_pid-current fuel m r e, terminate_found-current fuel m r h e s hb) refl,
      record {
        nothing_runs = refl;
        ready = record {
          linked = Linked-Same m.pool m'.pool none m.ready_queue ps same ready.linked;
          distinct = ready.distinct;
        };
        unchanged = same;
        ended =
            add_to_queue-IsQueue _ m.terminated_queue r ts
              (record {
                linked = Linked-put m.pool r _ none m.terminated_queue ts out_ended ended.linked;
                distinct = ended.distinct;
              })
              out_ended;
        never_chosen = λ cs.
            run_calls-Stuck fuel cs m' m'
              (record { nothing_runs = refl; same_queue = refl; same_pool = refl });
      },
    )
