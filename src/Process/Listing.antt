-- ===== src/Process/Listing.antt =====
-- `process_get_list` of kernel/process/process.c. The loops end with the room for entries, so a cycle
-- of `next` pointers is walked until the room is used up.
use pxos.Base.{ℕ, zero, suc, ◌-◌, Option, none, some, List, [], ◌∷◌, ◌++◌, length}
use pxos.Process.{Pcb, Pool, Manager}

-- The loop over a queue, with the entries that there is room for.
unfoldable pub list_queue : Pool → ℕ → Option ℕ → List Pcb
list_queue pool zero queue = []
list_queue pool (suc room) none = []
list_queue pool (suc room) (some p) = pool p ∷ list_queue pool room (pool p).next

-- The running process, if there is one and room for it.
unfoldable pub list_running : Pool → ℕ → Option ℕ → List Pcb
list_running pool zero running = []
list_running pool (suc room) none = []
list_running pool (suc room) (some p) = pool p ∷ []

-- `process_get_list` with what it puts into `processes` and counts in `count`, neither of them NULL.
unfoldable pub process_get_list : Manager → ℕ → List Pcb
process_get_list m max_count =
    let first = list_running m.pool max_count m.running_process in
    let ready = list_queue m.pool (max_count - length first) m.ready_queue in
    let blocked = list_queue m.pool (max_count - length first - length ready) m.blocked_queue in
    first ++ ready ++ blocked
