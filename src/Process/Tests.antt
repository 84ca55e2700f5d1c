-- ===== src/Process/Tests.antt =====
-- The theorems of the process manager at concrete states.
use pxos.Base.{◌≡◌, refl, arith, none, some, [], ◌∷◌}
use pxos.Heap.{Heap, kmalloc, find_free_block}
use pxos.Process.{running, Manager, put, add_to_queue, process_yield}
use pxos.Process.Queue.{IsQueue}
use pxos.Process.Yield.{process_yield-IsQueue}
use pxos.Process.Life.{
  process_manager_init, allocate_pcb, find_unused, process_create, process_terminate, start_process,
  setup_process_stack,
}
use pxos.Process.Life.Create.{Creates, process_create-Creates}
use pxos.Process.Life.Terminate.{Terminated, process_terminate-process_yield}

-- The manager after its set-up, on a heap with no block.
abbrev no_heap : Heap
no_heap = record { blocks = []; used_memory = 0; free_memory = 0 }

abbrev idle_only : Manager
idle_only = (process_manager_init no_heap).1

-- One process is created behind the idle one.
abbrev one_ready : Manager
one_ready = (process_create idle_only (b's' ∷ b'h' ∷ []) 0x100000 2).2

idle_only-IsQueue : IsQueue idle_only.pool idle_only.ready_queue []
unfolding process_manager_init allocate_pcb find_unused put
idle_only-IsQueue = record { linked = refl; distinct = tt }

one_ready-IsQueue : IsQueue one_ready.pool one_ready.ready_queue (1 ∷ [])
unfolding process_manager_init allocate_pcb find_unused put process_create start_process
    setup_process_stack add_to_queue kmalloc find_free_block
one_ready-IsQueue = record { linked = (refl, refl, refl); distinct = (tt, tt) }

one_ready_current : one_ready.running_process ≡ some 0
unfolding process_manager_init allocate_pcb find_unused put process_create start_process
    setup_process_stack kmalloc find_free_block
one_ready_current = refl

one_ready_state : (one_ready.pool 0).state ≡ running
unfolding process_manager_init allocate_pcb find_unused put process_create start_process
    setup_process_stack add_to_queue kmalloc find_free_block
one_ready_state = refl

one_ready_stack : ((one_ready.pool 0).stack_base ≡ 0) × ((one_ready.pool 0).heap_base ≡ 0)
unfolding process_manager_init allocate_pcb find_unused put process_create start_process
    setup_process_stack add_to_queue kmalloc find_free_block
one_ready_stack = (refl, refl)

process_create-Creates_example :
    Creates idle_only 0x100000 [] (process_create idle_only (b's' ∷ b'h' ∷ []) 0x100000 2)
process_create-Creates_example =
    process_create-Creates idle_only (b's' ∷ b'h' ∷ []) 0x100000 2 [] idle_only-IsQueue tt

process_yield-IsQueue_example :
    (m' : Manager) × (process_yield 3 one_ready ≡ some m')
    × (m'.running_process ≡ some 0)
    × ((m'.pool 0).state ≡ running)
    × IsQueue m'.pool m'.ready_queue (1 ∷ [])
process_yield-IsQueue_example =
    process_yield-IsQueue 3 one_ready 0 (1 ∷ []) one_ready_current one_ready_state one_ready-IsQueue
      (omega arith, tt)

none_ended : IsQueue one_ready.pool one_ready.terminated_queue []
unfolding process_manager_init allocate_pcb find_unused put process_create start_process
    setup_process_stack add_to_queue kmalloc find_free_block
none_ended = record { linked = refl; distinct = tt }

process_terminate-process_yield_example :
    (m' : Manager) × (process_terminate 3 one_ready (one_ready.pool 0).pid ≡ some (none, m'))
    × Terminated 3 one_ready 0 (1 ∷ []) [] m'
process_terminate-process_yield_example =
    process_terminate-process_yield 3 one_ready 0 (1 ∷ []) [] one_ready.heap one_ready_current
      (rw (one_ready_stack.0) refl) one_ready_stack.1 one_ready-IsQueue none_ended (omega arith, tt)
      tt tt
