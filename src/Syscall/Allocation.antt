-- ===== src/Syscall/Allocation.antt =====
-- Allocation and release of memory through the system calls of kernel/syscall.c.
use mathlib.Core.Path.{subst}
use pxos.Base.{
  ℕ, ◌+◌, ◌^◌, ◌≡◌, ◌≢◌, ◌≤◌, ◌<◌, sym, ap, ◌∙◌, arith, Option, none, some, List, [], ◌∷◌, ◌==◌,
  ltb, if_true, if_false, inl, inr,
}
use pxos.Base.Int.{pos}
use pxos.Heap.{Heap, Block, heap_start, heap_size, kmalloc, kfree}
use pxos.Heap.Layout.{Layout, Layout-le}
use pxos.Heap.Api.{
  IsValid, Has, Allocates, empty, refused, granted, kmalloc-Allocates, kmalloc_zero,
}
use pxos.Heap.Free.{kfree-kmalloc}
use pxos.Syscall.{
  Kernel, Machine, Result, Entry, Args, Table, syscall_success, int32, syscall_find, execute_entry,
  syscall_execute,
}
use pxos.Syscall.Memory.{with_heap, allocated_result, freed_result, sys_malloc, sys_free}
use pxos.Syscall.Init.{registrations, syscall_init}
use pxos.Syscall.Lookup.{lookup, find-syscall_init, execute_entry-result, handler_result}

Has-within :
    (b : Block) (bs : List Block) (low high : ℕ)
    → Layout low bs high
    → Has b bs
    → (low < b.start_addr) × (b.start_addr ≤ high)
Has-within b [] low high l h = absurd h
Has-within b (c ∷ bs) low high l (inl e) =
    let le = Layout-le (c.start_addr + c.size) bs high l.1 in
    let same = ap (λ (d : Block). d.start_addr) e in
    (omega (arith, same, l.0), omega (arith, same, le))
Has-within b (c ∷ bs) low high l (inr h) =
    let rest = Has-within b bs (c.start_addr + c.size) high l.1 h in
    (omega (arith, rest.0, l.0), rest.1)

-- A pointer that `kmalloc` returns lies in the heap.
InHeap : Option ℕ × Heap → Type 0
InHeap (none, h) = 0 ≤ 0
InHeap (some p, h) = (0 < p) × (p < 2 ^ 31)

Allocates-InHeap : (h : Heap) (size : ℕ) {r : Option ℕ × Heap} → Allocates h size r → InHeap r
unfolding InHeap
Allocates-InHeap h size (empty z) = omega arith
Allocates-InHeap h size (refused n) = omega arith
Allocates-InHeap h size (granted b h' v has ty le keeps) =
    let w = Has-within b h'.blocks heap_start (heap_start + heap_size) v.layout has in
    (omega (arith, w.0), omega (arith, w.1))

kmalloc-InHeap :
    (h : Heap) (size p : ℕ) (h' : Heap)
    → IsValid h
    → kmalloc h size ≡ (some p, h')
    → (0 < p) × (p < 2 ^ 31)
unfolding InHeap
kmalloc-InHeap h size p h' v e =
    subst InHeap e (Allocates-InHeap h size (kmalloc-Allocates h size v))

-- The arguments of a call with one argument.
abbrev pub call : ℕ → ℕ → Args
call n a = record { syscall_num = n; arg1 = a; arg2 = 0; arg3 = 0; arg4 = 0; arg5 = 0 }

-- The table after `syscall_init` and calls with arguments that were kept last.
abbrev pub after : Machine → Table → Args → Table
after c t a = record (syscall_init c t) { current_syscall_args = a }

find-after :
    (c : Machine) (t : Table) (a : Args) (n : ℕ)
    → syscall_find (after c t a) n ≡ lookup (registrations c) n
unfolding syscall_find
find-after c t a n = find-syscall_init c t n

positive_size : (h : Heap) (size p : ℕ) (h' : Heap) → kmalloc h size ≡ (some p, h') → size ≢ 0
positive_size h size p h' e z = absurd (none_some (sym (kmalloc_zero h size z) ∙ e))
  where
    none_some : ◌≡◌ {A = Option ℕ × Heap} (none, h) (some p, h') → ⊥
    none_some q = cc

sys_malloc-some :
    (c : Machine) (k : Kernel) (size p : ℕ) (h' : Heap)
    → IsValid k.processes.heap
    → kmalloc k.processes.heap size ≡ (some p, h')
    → sys_malloc c size 0 0 0 0 k ≡ some (pos p, with_heap k h')
unfolding sys_malloc int32
sys_malloc-some c k size p h' v e =
    if_false {b = size == 0} _ _ (ground (arith, positive_size k.processes.heap size p h' e))
    ∙ ap (allocated_result k) e
    ∙ ap (λ r. some (r, with_heap k h'))
        (if_true {b = ltb p (2 ^ 31)} _ _
          (ground (arith, (kmalloc-InHeap k.processes.heap size p h' v e).1)))

sys_free-some :
    (c : Machine) (k : Kernel) (p : ℕ) (h : Heap)
    → 0 < p
    → kfree k.processes.heap p ≡ some h
    → sys_free c p 0 0 0 0 k ≡ some (syscall_success, with_heap k h)
unfolding sys_free
sys_free-some c k p h pos_p e =
    if_false {b = p == 0} _ _ (ground (arith, pos_p)) ∙ ap (freed_result k) e

-- A call of `malloc` and one of `free` with the pointer, right after `syscall_init`.
pub record Undone (c : Machine) (t : Table) (k : Kernel) (size p : ℕ) : Type 0 where
  pub middle : Kernel
  pub last : Kernel
  pub allocates :
      syscall_execute (syscall_init c t) k (call 30 size)
      ≡ some (pos p, after c t (call 30 size), middle)
  pub frees :
      syscall_execute (after c t (call 30 size)) middle (call 31 p)
      ≡ some (syscall_success, after c t (call 31 p), last)
  pub same_blocks : last.processes.heap.blocks ≡ k.processes.heap.blocks

execute_found :
    (t : Table) (k : Kernel) (a : Args) (e : Entry) (o : Result)
    → syscall_find t a.syscall_num ≡ some e
    → e.handler a.arg1 a.arg2 a.arg3 a.arg4 a.arg5 k ≡ o
    → syscall_execute t k a ≡ handler_result t a o
unfolding syscall_execute
execute_found t k a e o f h = ap (execute_entry t k a) f ∙ execute_entry-result t k a e o h

-- After `syscall_init`, on a heap in order where `kmalloc` has a block for the size, system call 30
-- returns its pointer, and system call 31 with that pointer succeeds and brings back the list of
-- blocks that was there before.
pub syscall_free-malloc :
    (c : Machine) (t : Table) (k : Kernel) (size p : ℕ) (h' : Heap)
    → IsValid k.processes.heap
    → kmalloc k.processes.heap size ≡ (some p, h')
    → Undone c t k size p
syscall_free-malloc c t k size p h' v e =
    let (h'', freed, same) = kfree-kmalloc k.processes.heap size p h' v e in
    let in_heap = kmalloc-InHeap k.processes.heap size p h' v e in
    record {
      middle = with_heap k h';
      last = with_heap (with_heap k h') h'';
      allocates =
          execute_found (syscall_init c t) k (call 30 size) _ _ (find-syscall_init c t 30)
            (sys_malloc-some c k size p h' v e);
      frees =
          execute_found (after c t (call 30 size)) (with_heap k h') (call 31 p) _ _
            (find-after c t (call 30 size) 31)
            (sys_free-some c (with_heap k h') p h'' in_heap.0 freed);
      same_blocks = same;
    }
