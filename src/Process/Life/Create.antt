-- ===== src/Process/Life/Create.antt =====
-- `process_create` of kernel/process/process.c.
use pxos.Base.{
  ℕ, zero, suc, ◌+◌, ◌≡◌, ◌≤◌, ◌<◌, refl, sym, ap, ◌∙◌, arith, Option, none, some, true, false,
  Bool, not, List, [], ◌∷◌, ◌==◌, if_cases, leb,
}
use pxos.Str.Search.{Lacks}
use pxos.Heap.{kmalloc}
use pxos.Process.{
  ready, Pcb, Pool, Manager, ProcessError, invalid_param, queue_full, no_memory, put, add_to_queue,
}
use pxos.Process.Queue.{IsQueue, Linked-put, put-same, add_to_queue-IsQueue, add_to_queue_self}
use pxos.Process.Life.{
  zero_pcb, find_unused, take_slot, allocate_pcb, with_stack, setup_process_stack, new_pcb,
  start_process, create_in, process_create,
}

-- Every process of a list has its slot marked as used.
abbrev pub InUse : (ℕ → Bool) → List ℕ → Type 0
InUse used [] = Unit {0}
InUse used (p ∷ ps) = (used p ≡ true) × InUse used ps

unused-Lacks : (used : ℕ → Bool) (p : ℕ) (ps : List ℕ) → used p ≡ false → InUse used ps → Lacks p ps
unused-Lacks used p [] f u = tt
unused-Lacks used p (x ∷ xs) f u =
    (λ e. absurd (true_false (sym u.0 ∙ ap used e ∙ f)), unused-Lacks used p xs f u.1)
  where
    true_false : true ≡ false → ⊥
    true_false z = cc

InUse-put : (used : ℕ → Bool) (p : ℕ) (ps : List ℕ) → InUse used ps → InUse (put used p true) ps
unfolding put
InUse-put used p [] u = tt
InUse-put used p (x ∷ xs) u = (ground arith, InUse-put used p xs u.1)

put-true : (used : ℕ → Bool) (p : ℕ) → put used p true p ≡ true
unfolding put
put-true used p = ground arith

-- What the search for a slot may find.
abbrev Unused : (ℕ → Bool) → ℕ → Option ℕ → Type 0
Unused used end none = Unit {0}
Unused used end (some p) = (used p ≡ false) × (p < end)

find_unused-Unused :
    (used : ℕ → Bool) (left i : ℕ) → Unused used (i + left) (find_unused used left i)
unfolding find_unused
find_unused-Unused used zero i = tt
find_unused-Unused used (suc left) i =
    if_cases (Unused used (i + suc left)) (not (used i)) _ _ (λ t. (ground arith, omega arith))
      (λ t. later (find_unused used left (i + 1)) (find_unused-Unused used left (i + 1)))
  where
    later : (o : Option ℕ) → Unused used (i + 1 + left) o → Unused used (i + suc left) o
    later none h = tt
    later (some p) h = (h.0, omega (arith, h.1))

-- What `process_create` may do to a manager with the ready queue `ps`.
pub data Creates (m : Manager) (entry_point : ℕ) (ps : List ℕ)
    : Option ProcessError × Option ℕ × Manager → Type 0 where
  no_entry : entry_point ≡ 0 → Creates m entry_point ps (some invalid_param, none, m)
  full : m.max_processes ≤ m.process_count → Creates m entry_point ps (some queue_full, none, m)
  no_slot : find_unused m.pool_used 64 0 ≡ none → Creates m entry_point ps (some no_memory, none, m)
  created :
      (p : ℕ) (m' : Manager)
      → m.pool_used p ≡ false
      → p < 64
      → IsQueue m'.pool m'.ready_queue (p ∷ ps)
      → InUse m'.pool_used (p ∷ ps)
      → (m'.pool p).pid ≡ m.next_pid
      → (m'.pool p).state ≡ ready
      → Creates m entry_point ps (none, some m.next_pid, m')

-- The manager after a slot is taken.
abbrev with_slot : Manager → ℕ → Manager
with_slot m p = record m { pool_used = put m.pool_used p true; pool = put m.pool p zero_pcb }

IsQueue-put :
    (pool : Pool) (p : ℕ) (b : Pcb) (head : Option ℕ) (ps : List ℕ)
    → Lacks p ps
    → IsQueue pool head ps
    → IsQueue (put pool p b) head ps
IsQueue-put pool p b head ps out q = record {
  linked = Linked-put pool p b none head ps out q.linked;
  distinct = q.distinct;
}

start_process-created :
    (m : Manager) (p : ℕ) (name : List ℕ) (entry_point priority : ℕ) (ps : List ℕ)
    → m.pool_used p ≡ false
    → p < 64
    → IsQueue m.pool m.ready_queue ps
    → InUse m.pool_used ps
    → Creates m entry_point ps
        (none, some m.next_pid, start_process (with_slot m p) p name entry_point priority)
unfolding start_process setup_process_stack
start_process-created m p name entry_point priority ps f lt q u =
    created p (start_process (with_slot m p) p name entry_point priority) f lt
      (add_to_queue-IsQueue pool4 m.ready_queue p ps laid out)
      (put-true m.pool_used p, InUse-put m.pool_used p ps u) (ap (λ (b : Pcb). b.pid) self ∙ pid_is)
      (ap (λ (b : Pcb). b.state) self ∙ ap (λ (b : Pcb). b.state) (put-same pool3 p ready_pcb))
  where
    out : Lacks p ps
    out = unused-Lacks m.pool_used p ps f u

    pool1 : Pool
    pool1 = put m.pool p zero_pcb

    new_block : Pcb
    new_block = new_pcb (with_slot m p) (pool1 p) name priority

    pool2 : Pool
    pool2 = put pool1 p new_block

    stacked : Pcb
    stacked = with_stack (pool2 p) entry_point (kmalloc m.heap 4096).0

    pool3 : Pool
    pool3 = put pool2 p stacked

    ready_pcb : Pcb
    ready_pcb = record (pool3 p) { state = ready }

    pool4 : Pool
    pool4 = put pool3 p ready_pcb

    laid : IsQueue pool4 m.ready_queue ps
    laid = IsQueue-put pool3 p ready_pcb m.ready_queue ps out (
        IsQueue-put pool2 p stacked m.ready_queue ps out (
          IsQueue-put pool1 p new_block m.ready_queue ps out
            (IsQueue-put m.pool p zero_pcb m.ready_queue ps out q)))

    self :
        (add_to_queue pool4 m.ready_queue p).0 p
        ≡ record (pool4 p) { next = m.ready_queue; prev = none }
    self = add_to_queue_self pool4 m.ready_queue p ps laid out

    stack_pid : (b : Pcb) (o : Option ℕ) → (with_stack b entry_point o).pid ≡ b.pid
    stack_pid b none = refl
    stack_pid b (some a) =
        if_cases (λ (c : Pcb). c.pid ≡ b.pid) (a == 0) _ _ (λ t. refl) (λ t. refl)

    pid_is : (pool4 p).pid ≡ m.next_pid
    pid_is =
        ap (λ (b : Pcb). b.pid)
          (put-same pool3 p ready_pcb
            ∙ ap (λ (b : Pcb). record b { state = ready }) (put-same pool2 p stacked))
        ∙ stack_pid (pool2 p) (kmalloc m.heap 4096).0
        ∙ ap (λ (b : Pcb). b.pid) (put-same pool1 p new_block)

create_in-Creates :
    (m : Manager) (name : List ℕ) (entry_point priority : ℕ) (ps : List ℕ) (o : Option ℕ)
    → find_unused m.pool_used 64 0 ≡ o
    → Unused m.pool_used 64 o
    → IsQueue m.pool m.ready_queue ps
    → InUse m.pool_used ps
    → Creates m entry_point ps (create_in name entry_point priority (take_slot m o))
create_in-Creates m name entry_point priority ps none e s q u = no_slot e
create_in-Creates m name entry_point priority ps (some p) e s q u =
    start_process-created m p name entry_point priority ps s.0 s.1 q u

-- Where the processes of the ready queue hold slots that are marked as used, `process_create` either
-- fails for one of its three reasons and changes nothing; or it takes a free slot, returns the next
-- pid, and the ready queue is the old one with the new process, of that pid and in the state READY,
-- in front; all its processes hold used slots again.
pub process_create-Creates :
    (m : Manager) (name : List ℕ) (entry_point priority : ℕ) (ps : List ℕ)
    → IsQueue m.pool m.ready_queue ps
    → InUse m.pool_used ps
    → Creates m entry_point ps (process_create m name entry_point priority)
unfolding process_create allocate_pcb
process_create-Creates m name entry_point priority ps q u =
    if_cases (Creates m entry_point ps) (entry_point == 0) _ _ (λ t. no_entry (ground arith))
      λ t.
        if_cases (Creates m entry_point ps) (leb m.max_processes m.process_count) _ _
          (λ f. full (ground arith))
          (λ f.
            create_in-Creates m name entry_point priority ps (find_unused m.pool_used 64 0) refl
              (find_unused-Unused m.pool_used 64 0) q u)
