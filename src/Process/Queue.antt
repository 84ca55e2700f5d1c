-- ===== src/Process/Queue.antt =====
-- The queues of kernel/process/process.c as lists of slots.
use pxos.Base.{
  ℕ, zero, suc, ◌≡◌, ◌≢◌, ◌<◌, refl, sym, ap, ◌∙◌, arith, length, Bool-cases, inl, inr, Option,
  none, some, List, [], ◌∷◌, ◌==◌, if◌then◌else◌,
}
use mathlib.Core.Path.{subst}
use pxos.Str.Search.{Lacks}
use pxos.Process.{
  Pcb, Pool, put, set_next, set_prev, set_prev_of, add_to_queue, unlink_prev, remove_from_queue,
  find_process_in_queue,
}

-- From `head` on the `next` pointers lead through the slots of the list, and the `prev` pointers
-- back, the first one to `back`.
abbrev pub Linked : Pool → Option ℕ → Option ℕ → List ℕ → Type 0
Linked pool back head [] = head ≡ none
Linked pool back head (p ∷ ps) =
    (head ≡ some p) × ((pool p).prev ≡ back) × Linked pool (some p) (pool p).next ps

abbrev pub Distinct : List ℕ → Type 0
Distinct [] = Unit {0}
Distinct (p ∷ ps) = Lacks p ps × Distinct ps

pub record IsQueue (pool : Pool) (head : Option ℕ) (ps : List ℕ) : Type 0 where
  pub linked : Linked pool none head ps
  pub distinct : Distinct ps

pub put-same : (pool : Pool) (p : ℕ) (b : Pcb) → put pool p b p ≡ b
unfolding put
put-same pool p b = ground arith

pub put-ne : (pool : Pool) (p x : ℕ) (b : Pcb) → x ≢ p → put pool p b x ≡ pool x
unfolding put
put-ne pool p x b h = ground arith

pub Linked-put :
    (pool : Pool) (p : ℕ) (b : Pcb) (back head : Option ℕ) (ps : List ℕ)
    → Lacks p ps
    → Linked pool back head ps
    → Linked (put pool p b) back head ps
Linked-put pool p b back head [] l q = q
Linked-put pool p b back head (x ∷ xs) l q =
    rw (put-ne pool p x b l.0) (q.0, q.1, Linked-put pool p b (some x) (pool x).next xs l.1 q.2)

pub Linked-shift :
    (pool : Pool) (back : Option ℕ) (ps : List ℕ) {head head' : Option ℕ}
    → head ≡ head'
    → Linked pool back head ps
    → Linked pool back head' ps
Linked-shift pool back ps e q = subst (λ h. Linked pool back h ps) e q

-- The head of a queue gets another element in front of it.
Linked-back :
    (pool : Pool) (head : Option ℕ) (ps : List ℕ) (back back' : Option ℕ)
    → Distinct ps
    → Linked pool back head ps
    → Linked (set_prev_of pool head back') back' head ps
Linked-back pool head [] back back' d q = q
Linked-back pool head (x ∷ xs) back back' d q =
    subst (λ h. Linked (set_prev_of pool h back') back' h (x ∷ xs)) (sym q.0)
      (
        refl,
        ap (λ (b : Pcb). b.prev) same,
        Linked-shift (set_prev pool x back') (some x) xs (ap (λ (b : Pcb). b.next) (sym same)) (
            Linked-put pool x (record (pool x) { prev = back' }) (some x) (pool x).next xs d.0 q.2),
      )
  where
    same : set_prev pool x back' x ≡ record (pool x) { prev = back' }
    same = put-same pool x (record (pool x) { prev = back' })

set_prev_of-next :
    (pool : Pool) (head v : Option ℕ) (x : ℕ) → (set_prev_of pool head v x).next ≡ (pool x).next
unfolding put
set_prev_of-next pool none v x = refl
set_prev_of-next pool (some p) v x = ground arith

-- `add_to_queue` of a process that is not in the queue puts it at the head: the queue is a stack.
pub add_to_queue-IsQueue :
    (pool : Pool) (queue : Option ℕ) (p : ℕ) (ps : List ℕ)
    → IsQueue pool queue ps
    → Lacks p ps
    → (let (pool', queue') = add_to_queue pool queue p in IsQueue pool' queue' (p ∷ ps))
unfolding add_to_queue
add_to_queue-IsQueue pool queue p ps q out = record {
  linked = (
    refl,
    ap (λ (b : Pcb). b.prev) same,
    Linked-shift (set_prev pool2 p none) (some p) ps (sym (ap (λ (b : Pcb). b.next) same ∙ next_is))
        (Linked-put pool2 p (record (pool2 p) { prev = none }) (some p) queue ps out
          (Linked-back pool1 queue ps none (some p) q.distinct
            (Linked-put pool p (record (pool p) { next = queue }) none queue ps out q.linked))),
  );
  distinct = (out, q.distinct);
}
  where
    pool1 : Pool
    pool1 = set_next pool p queue

    pool2 : Pool
    pool2 = set_prev_of pool1 queue (some p)

    same : set_prev pool2 p none p ≡ record (pool2 p) { prev = none }
    same = put-same pool2 p (record (pool2 p) { prev = none })

    next_is : (pool2 p).next ≡ queue
    next_is =
        set_prev_of-next pool1 queue (some p) p
        ∙ ap (λ (b : Pcb). b.next) (put-same pool p (record (pool p) { next = queue }))

-- The pool and the queue when the first element is taken out.
without_head : Pool → ℕ → Pool × Option ℕ
without_head pool p =
    (set_prev (set_next (set_prev_of pool (pool p).next none) p none) p none, (pool p).next)

remove_from_queue-without_head :
    (pool : Pool) (queue : Option ℕ) (p : ℕ)
    → (pool p).prev ≡ none
    → remove_from_queue pool queue p ≡ without_head pool p
unfolding remove_from_queue without_head
remove_from_queue-without_head pool queue p e =
    ap (λ v. finish (unlink_prev pool queue p v)) e
    ∙ ap
        (λ v. (set_prev (set_next (set_prev_of pool (pool p).next v) p none) p none, (pool p).next))
        e
  where
    finish : Pool × Option ℕ → Pool × Option ℕ
    finish r = (set_prev (set_next (set_prev_of r.0 (r.0 p).next (r.0 p).prev) p none) p none, r.1)

without_head-IsQueue :
    (pool : Pool) (p : ℕ) (ps : List ℕ)
    → IsQueue pool (some p) (p ∷ ps)
    → IsQueue (without_head pool p).0 (without_head pool p).1 ps
unfolding without_head
without_head-IsQueue pool p ps q = record {
  linked =
      Linked-put pool2 p (record (pool2 p) { prev = none }) none (pool p).next ps q.distinct.0
        (Linked-put pool1 p (record (pool1 p) { next = none }) none (pool p).next ps q.distinct.0
          (Linked-back pool (pool p).next ps (some p) none q.distinct.1 q.linked.2));
  distinct = q.distinct.1;
}
  where
    pool1 : Pool
    pool1 = set_prev_of pool (pool p).next none

    pool2 : Pool
    pool2 = set_next pool1 p none

-- `remove_from_queue` of the head leaves the rest.
pub remove_from_queue-IsQueue :
    (pool : Pool) (p : ℕ) (ps : List ℕ)
    → IsQueue pool (some p) (p ∷ ps)
    → (let (pool', queue') = remove_from_queue pool (some p) p in IsQueue pool' queue' ps)
remove_from_queue-IsQueue pool p ps q =
    subst (λ (r : Pool × Option ℕ). IsQueue r.0 r.1 ps)
      (sym (remove_from_queue-without_head pool (some p) p q.linked.1))
      (without_head-IsQueue pool p ps q)

-- The first slot of the list with a pid.
abbrev pub first_with : Pool → ℕ → List ℕ → Option ℕ
first_with pool pid [] = none
first_with pool pid (p ∷ ps) = if (pool p).pid == pid then some p else first_with pool pid ps

find_process_in_queue-Linked :
    (fuel : ℕ) (pool : Pool) (back head : Option ℕ) (ps : List ℕ) (pid : ℕ)
    → Linked pool back head ps
    → length ps < fuel
    → find_process_in_queue fuel pool head pid ≡ some (first_with pool pid ps)
unfolding find_process_in_queue
find_process_in_queue-Linked zero pool back head ps pid q lt = absurd (omega arith)
find_process_in_queue-Linked (suc fuel) pool back head [] pid q lt = rw q refl
find_process_in_queue-Linked (suc fuel) pool back head (p ∷ ps) pid q lt =
    rw (q.0, find_process_in_queue-Linked fuel pool (some p) (pool p).next ps pid q.2 (omega arith))
      (elim (Bool-cases ((pool p).pid == pid)) [ inl e ↦ rw e refl | inr e ↦ rw e refl ])

-- On a queue, `find_process_in_queue` ends within one step for each process and one more, and gives
-- the first process from the head that has the pid, or NULL if none has it.
pub find_process_in_queue-first_with :
    (fuel : ℕ) (pool : Pool) (head : Option ℕ) (ps : List ℕ) (pid : ℕ)
    → IsQueue pool head ps
    → length ps < fuel
    → find_process_in_queue fuel pool head pid ≡ some (first_with pool pid ps)
find_process_in_queue-first_with fuel pool head ps pid q lt =
    find_process_in_queue-Linked fuel pool none head ps pid q.linked lt

-- What `add_to_queue` leaves of the process itself.
pub add_to_queue_self :
    (pool : Pool) (queue : Option ℕ) (p : ℕ) (ps : List ℕ)
    → IsQueue pool queue ps
    → Lacks p ps
    → (add_to_queue pool queue p).0 p ≡ record (pool p) { next = queue; prev = none }
unfolding add_to_queue
add_to_queue_self pool queue p ps q out =
    put-same _ p _
    ∙ ap (λ (b : Pcb). record b { prev = none })
        (apart ps q.linked out ∙ put-same pool p (record (pool p) { next = queue }))
  where
    pool1 : Pool
    pool1 = set_next pool p queue

    apart :
        (xs : List ℕ)
        → Linked pool none queue xs
        → Lacks p xs
        → set_prev_of pool1 queue (some p) p ≡ pool1 p
    apart [] l o = ap (λ h. set_prev_of pool1 h (some p) p) l
    apart (x ∷ xs) l o =
        ap (λ h. set_prev_of pool1 h (some p) p) l.0
        ∙ put-ne pool1 x p (record (pool1 x) { prev = some p }) (λ e. o.0 (sym e))
