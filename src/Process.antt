-- ===== src/Process.antt =====
-- The process manager of kernel/process/process.c: the pool of control blocks, the queues that link
-- them, and the scheduler. A pointer to a control block is its slot in `process_pool`, NULL is `none`.
-- A walk along `next` takes fuel, since the pointers can form a cycle; it gives `none` if it has not
-- ended. Left out of a control block: the registers that are written and never read (segments, flags,
-- general registers), the fields that stay 0 (`file_count`, `heap_size`) and those
-- that nothing uses. What a new stack holds is left out too.
pub mod Queue
pub mod Yield
pub mod Life
pub mod Listing
mod Tests
use pxos.Base.{
  ℕ, zero, suc, ◌+◌, ◌-◌, ◌%◌, ◌^◌, Bool, true, false, not, Option, none, some, List, [], ◌∷◌,
  replicate, ltb, leb, ◌==◌, if◌then◌else◌,
}
use pxos.Str.{strcpy, strncpy}
use pxos.Heap.{Heap, add32, sub32, kmalloc, kfree}

-- `process_state_t`, NEW .. TERMINATED
pub data ProcessState : Type 0 where
  new ready running blocked terminated : ProcessState

-- `pcb_t`
pub record Pcb : Type 0 where
  pub pid : ℕ
  pub name : List ℕ
  pub state : ProcessState
  pub priority : ℕ
  pub esp : ℕ
  pub ebp : ℕ
  pub eip : ℕ
  pub stack_base : ℕ
  pub stack_size : ℕ
  pub heap_base : ℕ
  pub creation_time : ℕ
  pub last_run_time : ℕ
  pub time_slice : ℕ
  pub remaining_slice : ℕ
  pub exit_code : ℕ
  pub cpu_time : ℕ
  pub parent : Option ℕ
  pub next : Option ℕ
  pub prev : Option ℕ

-- `process_pool`
abbrev pub Pool : Type 0
Pool = ℕ → Pcb

-- `process_manager_t`, the pool, and the heap that stacks come from.
pub record Manager : Type 0 where
  pub pool : Pool
  pub pool_used : ℕ → Bool
  pub heap : Heap
  pub running_process : Option ℕ
  pub ready_queue : Option ℕ
  pub blocked_queue : Option ℕ
  pub terminated_queue : Option ℕ
  pub next_pid : ℕ
  pub process_count : ℕ
  pub max_processes : ℕ
  pub time_slice_quantum : ℕ
  pub current_tick : ℕ
  pub scheduler_ticks : ℕ

-- The error codes that the functions return.
pub data ProcessError : Type 0 where
  not_found no_memory invalid_param queue_full : ProcessError

-- A write to a slot.
unfoldable pub put : {A : Type 0} → (ℕ → A) → ℕ → A → ℕ → A
put f i v j = if j == i then v else f j

-- `p->next = v` and `p->prev = v`
abbrev pub set_next : Pool → ℕ → Option ℕ → Pool
set_next pool p v = put pool p (record (pool p) { next = v })

abbrev pub set_prev : Pool → ℕ → Option ℕ → Pool
set_prev pool p v = put pool p (record (pool p) { prev = v })

-- `if (q) q->prev = v`
abbrev pub set_prev_of : Pool → Option ℕ → Option ℕ → Pool
set_prev_of pool none v = pool
set_prev_of pool (some p) v = set_prev pool p v

-- `add_to_queue`: the pool and the head of the queue.
unfoldable pub add_to_queue : Pool → Option ℕ → ℕ → Pool × Option ℕ
add_to_queue pool queue p =
    (set_prev (set_prev_of (set_next pool p queue) queue (some p)) p none, some p)

-- The first test of `remove_from_queue`, on `process->prev`.
abbrev pub unlink_prev : Pool → Option ℕ → ℕ → Option ℕ → Pool × Option ℕ
unlink_prev pool queue p (some l) = (set_next pool l (pool p).next, queue)
unlink_prev pool queue p none = (pool, (pool p).next)

-- `remove_from_queue`
unfoldable pub remove_from_queue : Pool → Option ℕ → ℕ → Pool × Option ℕ
remove_from_queue pool queue p =
    let (a, queue') = unlink_prev pool queue p (pool p).prev in
    (set_prev (set_next (set_prev_of a (a p).next (a p).prev) p none) p none, queue')

-- `find_process_in_queue`
unfoldable pub find_process_in_queue : ℕ → Pool → Option ℕ → ℕ → Option (Option ℕ)
find_process_in_queue zero pool queue pid = none
find_process_in_queue (suc fuel) pool none pid = some none
find_process_in_queue (suc fuel) pool (some p) pid =
    let rest = find_process_in_queue fuel pool (pool p).next pid in
    if (pool p).pid == pid then some (some p) else rest

-- `if (process) return process;` before the next search.
abbrev pub or_else : Option (Option ℕ) → Option (Option ℕ) → Option (Option ℕ)
or_else none r = none
or_else (some (some p)) r = some (some p)
or_else (some none) r = r

-- Whether the running process has a pid.
abbrev pub runs : Pool → Option ℕ → ℕ → Bool
runs pool none pid = false
runs pool (some p) pid = (pool p).pid == pid

-- `process_get_by_pid`
unfoldable pub process_get_by_pid : ℕ → Manager → ℕ → Option (Option ℕ)
process_get_by_pid fuel m pid =
    if runs m.pool m.running_process pid
    then some m.running_process
    else or_else (find_process_in_queue fuel m.pool m.ready_queue pid) (
        or_else (find_process_in_queue fuel m.pool m.blocked_queue pid)
          (find_process_in_queue fuel m.pool m.terminated_queue pid))

-- `process_switch`; saving and restoring a context do nothing.
unfoldable pub process_switch : Manager → ℕ → Manager
process_switch m p = record m {
  running_process = some p;
  pool = put m.pool p (record (m.pool p) {
    state = running;
    remaining_slice = (m.pool p).time_slice;
    last_run_time = m.current_tick;
  });
}

-- The fallback of `schedule_next_process` to what the search for the idle process gives.
abbrev pub switch_to_idle : Manager → Option (Option ℕ) → Option Manager
switch_to_idle m none = none
switch_to_idle m (some none) = some m
switch_to_idle m (some (some p)) = some (process_switch m p)

-- `schedule_next_process` on the head of the ready queue.
abbrev pub schedule_from : ℕ → Manager → Option ℕ → Option Manager
schedule_from fuel m (some p) =
    let (pool', queue) = remove_from_queue m.pool m.ready_queue p in
    some (process_switch (record m { pool = pool'; ready_queue = queue }) p)
schedule_from fuel m none = switch_to_idle m (process_get_by_pid fuel m 0)

-- `schedule_next_process`
unfoldable pub schedule_next_process : ℕ → Manager → Option Manager
schedule_next_process fuel m = schedule_from fuel m m.ready_queue

abbrev pub is_running : ProcessState → Bool
is_running running = true
is_running _ = false

-- The part of `process_scheduler` that puts the running process back.
unfoldable pub requeue : Manager → ℕ → Manager
requeue m r =
    if is_running (m.pool r).state
    then (let (pool', queue) =
          add_to_queue (put m.pool r (record (m.pool r) { state = ready })) m.ready_queue r in
        record m { pool = pool'; ready_queue = queue })
    else m

-- The test of `process_scheduler`, on the running process.
abbrev pub expire : ℕ → Manager → Option ℕ → Option Manager
expire fuel m none = some m
expire fuel m (some r) =
    if (m.pool r).remaining_slice == 0 then schedule_next_process fuel (requeue m r) else some m

-- `process_scheduler`
unfoldable pub process_scheduler : ℕ → Manager → Option Manager
process_scheduler fuel m =
    expire fuel (record m { scheduler_ticks = add32 m.scheduler_ticks 1 }) m.running_process

abbrev pub give_up : ℕ → Manager → Option ℕ → Option Manager
give_up fuel m none = some m
give_up fuel m (some r) =
    process_scheduler fuel
      (record m { pool = put m.pool r (record (m.pool r) { remaining_slice = 0 }) })

-- `process_yield`
unfoldable pub process_yield : ℕ → Manager → Option Manager
process_yield fuel m = give_up fuel m m.running_process
