-- ===== src/Process/Life.antt =====
-- The life of a process in kernel/process/process.c: the set-up of the manager, creation, termination
-- and the queries by pid.
pub mod Terminate
pub mod Create
use pxos.Base.{
  ℕ, zero, suc, ◌+◌, ◌-◌, ◌%◌, ◌^◌, Bool, true, false, not, Option, none, some, List, [], ◌∷◌,
  replicate, ltb, leb, ◌==◌, if◌then◌else◌, ◌||◌,
}
use pxos.Str.{strcpy, strncpy}
use pxos.Heap.{Heap, add32, sub32, kmalloc, kfree}
use pxos.Process.{
  ProcessState, new, ready, running, terminated, Pcb, Pool, Manager, ProcessError, not_found,
  no_memory, invalid_param, queue_full, put, add_to_queue, remove_from_queue, process_get_by_pid,
  schedule_next_process,
}

-- A control block of zero bytes.
abbrev pub zero_pcb : Pcb
zero_pcb = record {
  pid = 0;
  name = replicate 32 0;
  state = new;
  priority = 0;
  esp = 0;
  ebp = 0;
  eip = 0;
  stack_base = 0;
  stack_size = 0;
  heap_base = 0;
  creation_time = 0;
  last_run_time = 0;
  time_slice = 0;
  remaining_slice = 0;
  exit_code = 0;
  cpu_time = 0;
  parent = none;
  next = none;
  prev = none;
}

-- The loop of `allocate_pcb` from slot `i` on, `left` of them.
unfoldable pub find_unused : (ℕ → Bool) → ℕ → ℕ → Option ℕ
find_unused used zero i = none
find_unused used (suc left) i =
    let rest = find_unused used left (i + 1) in if not (used i) then some i else rest

-- The slot that the loop found is taken and zeroed.
abbrev pub take_slot : Manager → Option ℕ → Option ℕ × Manager
take_slot m none = (none, m)
take_slot m (some p) =
    (some p, record m { pool_used = put m.pool_used p true; pool = put m.pool p zero_pcb })

-- `allocate_pcb`
unfoldable pub allocate_pcb : Manager → Option ℕ × Manager
allocate_pcb m = take_slot m (find_unused m.pool_used 64 0)

-- `deallocate_pcb`
unfoldable pub deallocate_pcb : Manager → ℕ → Manager
deallocate_pcb m p = record m { pool_used = put m.pool_used p false }

-- The state that `process_manager_init` starts from.
abbrev pub cleared_manager : Heap → Manager
cleared_manager h = record {
  pool = λ i. zero_pcb;
  pool_used = λ i. false;
  heap = h;
  running_process = none;
  ready_queue = none;
  blocked_queue = none;
  terminated_queue = none;
  next_pid = 1;
  process_count = 0;
  max_processes = 64;
  time_slice_quantum = 10;
  current_tick = 0;
  scheduler_ticks = 0;
}

-- `process_manager_init`, which leaves the heap alone.
unfoldable pub process_manager_init : Heap → Option ProcessError × Manager
process_manager_init h =
    let (idle, m') = allocate_pcb (cleared_manager h) in
    elim idle [
      | none ↦ (some no_memory, m')
      | some p ↦ (
        none,
        record m' {
          pool = put m'.pool p (record (m'.pool p) {
            pid = 0;
            name = strcpy (m'.pool p).name (b'i' ∷ b'd' ∷ b'l' ∷ b'e' ∷ []);
            state = running;
            priority = 1;
            time_slice = 0;
            remaining_slice = 0;
          });
          running_process = some p;
          process_count = 1;
        },
      )
    ]

-- `setup_process_stack` on the block that `kmalloc` gives.
abbrev pub with_stack : Pcb → ℕ → Option ℕ → Pcb
with_stack b entry_point none = record b { stack_size = 4096; stack_base = 0 }
with_stack b entry_point (some base) =
    if base == 0 then record b { stack_size = 4096; stack_base = 0 } else record b {
      stack_size = 4096;
      stack_base = base;
      esp = sub32 (add32 base 4096) 16;
      ebp = sub32 (add32 base 4096) 16;
      eip = entry_point;
    }

-- `setup_process_stack`
unfoldable pub setup_process_stack : Manager → ℕ → ℕ → Manager
setup_process_stack m p entry_point =
    let (base, heap') = kmalloc m.heap 4096 in
    record m { pool = put m.pool p (with_stack (m.pool p) entry_point base); heap = heap' }

-- The fields that `process_create` sets first. The 32nd byte of the name is 0 already.
abbrev pub new_pcb : Manager → Pcb → List ℕ → ℕ → Pcb
new_pcb m b name priority = record b {
  pid = m.next_pid;
  name = strncpy b.name name 31;
  state = new;
  priority = priority;
  time_slice = m.time_slice_quantum;
  remaining_slice = m.time_slice_quantum;
  creation_time = m.current_tick;
  last_run_time = 0;
  exit_code = 0;
  cpu_time = 0;
}

-- The rest of `process_create`, with the slot.
unfoldable pub start_process : Manager → ℕ → List ℕ → ℕ → ℕ → Manager
start_process m p name entry_point priority =
    let m1 = record m {
      pool = put m.pool p (new_pcb m (m.pool p) name priority);
      next_pid = add32 m.next_pid 1;
    } in
    let m2 = setup_process_stack m1 p entry_point in
    let (pool', queue) =
      add_to_queue (put m2.pool p (record (m2.pool p) { state = ready })) m2.ready_queue p in
    record m2 { pool = pool'; ready_queue = queue; process_count = add32 m2.process_count 1 }

-- `process_create` after the allocation.
abbrev pub create_in :
    List ℕ → ℕ → ℕ → Option ℕ × Manager → Option ProcessError × Option ℕ × Manager
create_in name entry_point priority (none, m) = (some no_memory, none, m)
create_in name entry_point priority (some p, m) =
    (none, some m.next_pid, start_process m p name entry_point priority)

-- `process_create`, with the pid that it returns; an entry point 0 is NULL.
unfoldable pub process_create : Manager → List ℕ → ℕ → ℕ → Option ProcessError × Option ℕ × Manager
process_create m name entry_point priority =
    if entry_point == 0
    then (some invalid_param, none, m)
    else if leb m.max_processes m.process_count
    then (some queue_full, none, m)
    else create_in name entry_point priority (allocate_pcb m)

-- `if (base) kfree(base)`
abbrev pub release : Heap → ℕ → Option Heap
release h base = if base == 0 then some h else kfree h base

-- Whether a pointer is `running_process`.
abbrev pub is_current : Option ℕ → ℕ → Bool
is_current none p = false
is_current (some r) p = r == p

-- The removal of a process from where `process_terminate` takes it to be.
unfoldable pub detach : Manager → ℕ → Manager
detach m p =
    if is_current m.running_process p
    then record m { running_process = none }
    else let (pool1, ready') = remove_from_queue m.pool m.ready_queue p in
      let (pool2, blocked') = remove_from_queue pool1 m.blocked_queue p in
      record m { pool = pool2; ready_queue = ready'; blocked_queue = blocked' }

-- The move to the terminated queue.
unfoldable pub bury : Manager → ℕ → Manager
bury m p =
    let (pool', queue) =
      add_to_queue (put m.pool p (record (m.pool p) { state = terminated })) m.terminated_queue p in
    record m { pool = pool'; terminated_queue = queue }

-- `heap_base` is released after `stack_base`.
abbrev pub release_next : ℕ → Option Heap → Option Heap
release_next base none = none
release_next base (some h) = release h base

-- The end of `process_terminate`, on the heap after the two releases.
abbrev pub finish_terminate : ℕ → Manager → ℕ → Option Heap → Option Manager
finish_terminate fuel m p none = none
finish_terminate fuel m p (some h) =
    let m2 = deallocate_pcb (record m { heap = h }) p in
    let m3 = record m2 { process_count = sub32 m2.process_count 1 } in
    if is_current m3.running_process p then schedule_next_process fuel m3 else some m3

-- The part of `process_terminate` behind the move to the terminated queue.
abbrev pub terminate_buried : ℕ → Manager → ℕ → Option Manager
terminate_buried fuel m p =
    finish_terminate fuel m p
      (release_next (m.pool p).heap_base (release m.heap (m.pool p).stack_base))

-- `process_terminate` once the process is found. `none`: `kfree` was given no block of the heap, or
-- the search for the idle process has not ended.
unfoldable pub terminate_found : ℕ → Manager → ℕ → Option Manager
terminate_found fuel m p = terminate_buried fuel (bury (detach m p) p) p

abbrev pub succeed : Option Manager → Option (Option ProcessError × Manager)
succeed none = none
succeed (some m) = some (none, m)

abbrev pub terminate_at : ℕ → Manager → Option (Option ℕ) → Option (Option ProcessError × Manager)
terminate_at fuel m none = none
terminate_at fuel m (some none) = some (some not_found, m)
terminate_at fuel m (some (some p)) = succeed (terminate_found fuel m p)

-- `process_terminate`, and `process_kill`
unfoldable pub process_terminate : ℕ → Manager → ℕ → Option (Option ProcessError × Manager)
process_terminate fuel m pid = terminate_at fuel m (process_get_by_pid fuel m pid)

-- `process_set_priority`
unfoldable pub process_set_priority : ℕ → Manager → ℕ → ℕ → Option (Option ProcessError × Manager)
process_set_priority fuel m pid priority = elim (process_get_by_pid fuel m pid) [
  | none ↦ none
  | some none ↦ some (some not_found, m)
  | some (some p) ↦
      some (none, record m { pool = put m.pool p (record (m.pool p) { priority = priority }) })
]

-- `process_get_info`, with what goes through `info`.
unfoldable pub process_get_info : ℕ → Manager → ℕ → Option (Option ProcessError × Option Pcb)
process_get_info fuel m pid = elim (process_get_by_pid fuel m pid) [
  | none ↦ none
  | some none ↦ some (some not_found, none)
  | some (some p) ↦ some (none, some (m.pool p))
]
