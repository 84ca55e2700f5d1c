-- ===== src/Process/Life/Terminate/Queues.antt =====
-- What a process that is added to one queue of kernel/process/process.c leaves of another.
use pxos.Base.{ℕ, ◌≡◌, refl, sym, ap, ◌∙◌, Option, none, some, List, [], ◌∷◌}
use mathlib.Core.Path.{subst}
use pxos.Str.Search.{Lacks}
use pxos.Process.{Pcb, Pool, put, set_next, set_prev, set_prev_of, add_to_queue}
use pxos.Process.Queue.{Linked, Linked-shift, put-ne}

-- Every process of the list is as it was.
abbrev pub Same : Pool → Pool → List ℕ → Type 0
Same pool pool' [] = Unit {0}
Same pool pool' (p ∷ ps) = (pool' p ≡ pool p) × Same pool pool' ps

-- The lists have no process in common.
abbrev pub Apart : List ℕ → List ℕ → Type 0
Apart [] ps = Unit {0}
Apart (t ∷ ts) ps = Lacks t ps × Apart ts ps

-- The head of a queue is not in the list.
abbrev pub NotHead : Option ℕ → List ℕ → Type 0
NotHead none ps = Unit {0}
NotHead (some t) ps = Lacks t ps

pub NotHead-Linked :
    (pool : Pool) (back head : Option ℕ) (ts ps : List ℕ)
    → Linked pool back head ts
    → Apart ts ps
    → NotHead head ps
NotHead-Linked pool back head [] ps l a = subst (λ h. NotHead h ps) (sym l) tt
NotHead-Linked pool back head (t ∷ ts) ps l a = subst (λ h. NotHead h ps) (sym l.0) a.0

pub Same-trans : (a b c : Pool) (ps : List ℕ) → Same a b ps → Same b c ps → Same a c ps
Same-trans a b c [] s t = tt
Same-trans a b c (p ∷ ps) s t = (t.0 ∙ s.0, Same-trans a b c ps s.1 t.1)

pub put-Same :
    (pool : Pool) (r : ℕ) (b : Pcb) (ps : List ℕ) → Lacks r ps → Same pool (put pool r b) ps
put-Same pool r b [] out = tt
put-Same pool r b (p ∷ ps) out = (put-ne pool r p b out.0, put-Same pool r b ps out.1)

set_prev_of-Same :
    (pool : Pool) (head v : Option ℕ) (ps : List ℕ)
    → NotHead head ps
    → Same pool (set_prev_of pool head v) ps
set_prev_of-Same pool none v [] n = tt
set_prev_of-Same pool none v (p ∷ ps) n = (refl, set_prev_of-Same pool none v ps tt)
set_prev_of-Same pool (some t) v ps n = put-Same pool t (record (pool t) { prev = v }) ps n

-- `add_to_queue` changes only the process that is added and the head of the queue.
pub add_to_queue-Same :
    (pool : Pool) (queue : Option ℕ) (r : ℕ) (ps : List ℕ)
    → Lacks r ps
    → NotHead queue ps
    → Same pool (add_to_queue pool queue r).0 ps
unfolding add_to_queue
add_to_queue-Same pool queue r ps out n =
    let pool1 = set_next pool r queue in
    let pool2 = set_prev_of pool1 queue (some r) in
    Same-trans pool pool1 (set_prev pool2 r none) ps
      (put-Same pool r (record (pool r) { next = queue }) ps out)
      (Same-trans pool1 pool2 (set_prev pool2 r none) ps
        (set_prev_of-Same pool1 queue (some r) ps n)
        (put-Same pool2 r (record (pool2 r) { prev = none }) ps out))

pub Linked-Same :
    (pool pool' : Pool) (back head : Option ℕ) (ps : List ℕ)
    → Same pool pool' ps
    → Linked pool back head ps
    → Linked pool' back head ps
Linked-Same pool pool' back head [] s l = l
Linked-Same pool pool' back head (p ∷ ps) s l = (
  l.0,
  ap (λ (b : Pcb). b.prev) s.0 ∙ l.1,
  Linked-shift pool' (some p) ps (ap (λ (b : Pcb). b.next) (sym s.0))
      (Linked-Same pool pool' (some p) (pool p).next ps s.1 l.2),
)
