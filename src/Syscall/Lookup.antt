-- ===== src/Syscall/Lookup.antt =====
-- What the table of kernel/syscall.c holds, and what `syscall_execute` does with a number.
use mathlib.Core.Path.{subst}
use pxos.Base.{
  ℕ, ◌≡◌, ◌≤◌, ◌<◌, refl, sym, ap, ◌∙◌, arith, Option, none, some, List, [], ◌∷◌, leb, ◌==◌,
  if◌then◌else◌, if_cases, if_true, if_false, Option-cases, inl, inr, ◌≢◌,
}
use native.Mathlib.Decide.{ℕ_discrete}
use pxos.Base.Int.{ℤ}
use pxos.Syscall.{
  Kernel, Machine, Result, Entry, Args, Table, syscall_invalid, is_none, register_new,
  syscall_register, syscall_find, execute_entry, syscall_execute,
}
use pxos.Syscall.Init.{registrations, register_all, syscall_init}

-- The first entry of a list for a number.
abbrev pub lookup : List (ℕ × Entry) → ℕ → Option Entry
lookup [] n = none
lookup ((m, e) ∷ rs) n = if m == n then some e else lookup rs n

abbrev or_entry : Option Entry → Option Entry → Option Entry
or_entry (some e) o = some e
or_entry none o = o

or_entry-none : (o : Option Entry) → or_entry o none ≡ o
or_entry-none none = refl
or_entry-none (some e) = refl

find_below : (t : Table) (n : ℕ) → n < 64 → syscall_find t n ≡ t.syscall_table n
unfolding syscall_find
find_below t n h = if_false {b = leb 64 n} _ _ (ground (arith, h))

register_free :
    (t : Table) (m : ℕ) (e : Entry)
    → m < 64
    → t.syscall_table m ≡ none
    → (syscall_register t m (some e)).1 ≡ register_new t m e
unfolding syscall_register
register_free t m e h z =
    ap (λ (r : ℤ × Table). r.1)
      (if_false {b = leb 64 m} _ _ (ground (arith, h)) ∙ if_true _ _ (ap is_none z))

register_taken :
    (t : Table) (m : ℕ) (e e' : Entry)
    → m < 64
    → t.syscall_table m ≡ some e'
    → (syscall_register t m (some e)).1 ≡ t
unfolding syscall_register
register_taken t m e e' h z =
    ap (λ (r : ℤ × Table). r.1)
      (if_false {b = leb 64 m} _ _ (ground (arith, h)) ∙ if_false _ _ (ap is_none z))

find-register_ne :
    (t : Table) (m n : ℕ) (e : Entry)
    → m ≢ n
    → syscall_find (register_new t m e) n ≡ syscall_find t n
unfolding syscall_find register_new
find-register_ne t m n e ne =
    ap (λ o. if leb 64 n then none else o) (if_false {b = n == m} _ _ (ground (arith, ne)))

find-register_self :
    (t : Table) (m : ℕ) (e : Entry) → m < 64 → syscall_find (register_new t m e) m ≡ some e
unfolding register_new
find-register_self t m e h =
    find_below (register_new t m e) m h ∙ if_true {b = m == m} _ _ (ground arith)

if_same : (m n : ℕ) (e : Entry) → m ≡ n → (if m == n then some e else none) ≡ some e
if_same m n e h = if_true {b = m == n} _ _ (ground (arith, h))

if_apart :
    (m n : ℕ) (e : Entry) → m ≢ n → ◌≡◌ {A = Option Entry} (if m == n then some e else none) none
if_apart m n e h = if_false {b = m == n} _ _ (ground (arith, h))

-- A registration fills a free slot and leaves the others alone.
find-register :
    (t : Table) (m n : ℕ) (e : Entry)
    → m < 64
    → syscall_find (syscall_register t m (some e)).1 n
      ≡ or_entry (syscall_find t n) (if m == n then some e else none)
find-register t m n e h = elim (Option-cases (t.syscall_table m)) [
  | inl free ↦ ap (λ u. syscall_find u n) (register_free t m e h free) ∙ elim (ℕ_discrete m n) [
    | yes same ↦
        subst
          (λ k.
            syscall_find (register_new t m e) k
            ≡ or_entry (syscall_find t k) (if m == k then some e else none))
          same
          (find-register_self t m e h
            ∙ sym (
                ap (λ o. or_entry o (if m == m then some e else none)) (find_below t m h ∙ free)
                ∙ if_same m m e refl))
    | no ne ↦
        find-register_ne t m n e ne
        ∙ sym (
            ap (or_entry (syscall_find t n)) (if_apart m n e ne) ∙ or_entry-none (syscall_find t n))
  ]
  | inr (e', taken) ↦
      ap (λ u. syscall_find u n) (register_taken t m e e' h taken) ∙ elim (ℕ_discrete m n) [
        | yes same ↦
            subst
              (λ k.
                syscall_find t k ≡ or_entry (syscall_find t k) (if m == k then some e else none))
              same
              (ap (λ o. o) (find_below t m h ∙ taken)
                ∙ sym (
                    ap (λ o. or_entry o (if m == m then some e else none))
                      (find_below t m h ∙ taken)))
        | no ne ↦ sym (
            ap (or_entry (syscall_find t n)) (if_apart m n e ne) ∙ or_entry-none (syscall_find t n))
      ]
]

-- Every number of a list is one that the table has a slot for.
InRange : List (ℕ × Entry) → Type 0
InRange [] = 0 ≤ 0
InRange ((m, e) ∷ rs) = (m < 64) × InRange rs

or_entry_assoc : (a b c : Option Entry) → or_entry (or_entry a b) c ≡ or_entry a (or_entry b c)
or_entry_assoc none b c = refl
or_entry_assoc (some e) b c = refl

or_lookup :
    (m n : ℕ) (e : Entry) (rs : List (ℕ × Entry))
    → or_entry (if m == n then some e else none) (lookup rs n) ≡ lookup ((m, e) ∷ rs) n
or_lookup m n e rs =
    if_cases (λ o. or_entry (if m == n then some e else none) (lookup rs n) ≡ o) (m == n) _ _
      (λ t. ap (λ o. or_entry o (lookup rs n)) (if_true _ _ t))
      (λ f. ap (λ o. or_entry o (lookup rs n)) (if_false _ _ f))

find-register_all :
    (t : Table) (rs : List (ℕ × Entry)) (n : ℕ)
    → InRange rs
    → syscall_find (register_all t rs) n ≡ or_entry (syscall_find t n) (lookup rs n)
unfolding InRange register_all
find-register_all t [] n h = sym (or_entry-none (syscall_find t n))
find-register_all t ((m, e) ∷ rs) n h =
    find-register_all (syscall_register t m (some e)).1 rs n h.1
    ∙ ap (λ o. or_entry o (lookup rs n)) (find-register t m n e h.0)
    ∙ or_entry_assoc (syscall_find t n) (if m == n then some e else none) (lookup rs n)
    ∙ ap (or_entry (syscall_find t n)) (or_lookup m n e rs)

registrations-InRange : (c : Machine) → InRange (registrations c)
unfolding InRange
registrations-InRange c = ground arith

cleared_find :
    (t : Table) (n : ℕ)
    → syscall_find (record t { syscall_table = λ j. none; syscall_count = 0 }) n ≡ none
unfolding syscall_find
cleared_find t n = ground arith

pub find-syscall_init :
    (c : Machine) (t : Table) (n : ℕ)
    → syscall_find (syscall_init c t) n ≡ lookup (registrations c) n
unfolding syscall_init
find-syscall_init c t n =
    find-register_all (record t { syscall_table = λ j. none; syscall_count = 0 }) (registrations c)
      n (registrations-InRange c)
    ∙ ap (λ o. or_entry o (lookup (registrations c) n)) (cleared_find t n)

-- What a system call may do after `syscall_init`.
pub data Executes (c : Machine) (t : Table) (k : Kernel) (a : Args)
    : Option (ℤ × Table × Kernel) → Type 0 where
  invalid :
      lookup (registrations c) a.syscall_num ≡ none
      → Executes c t k a (some (syscall_invalid, syscall_init c t, k))
  returned :
      (e : Entry) (r : ℤ) (k' : Kernel)
      → lookup (registrations c) a.syscall_num ≡ some e
      → e.handler a.arg1 a.arg2 a.arg3 a.arg4 a.arg5 k ≡ some (r, k')
      → Executes c t k a (some (r, record (syscall_init c t) { current_syscall_args = a }, k'))
  without_result :
      (e : Entry)
      → lookup (registrations c) a.syscall_num ≡ some e
      → e.handler a.arg1 a.arg2 a.arg3 a.arg4 a.arg5 k ≡ none
      → Executes c t k a none

abbrev pub handler_result : Table → Args → Result → Option (ℤ × Table × Kernel)
handler_result t a none = none
handler_result t a (some (r, k')) = some (r, record t { current_syscall_args = a }, k')

pub execute_entry-result :
    (t : Table) (k : Kernel) (a : Args) (e : Entry) (o : Result)
    → e.handler a.arg1 a.arg2 a.arg3 a.arg4 a.arg5 k ≡ o
    → execute_entry t k a (some e) ≡ handler_result t a o
unfolding execute_entry
execute_entry-result t k a e none h = rw h refl
execute_entry-result t k a e (some (r, k')) h = rw h refl

handler_result-Executes :
    (c : Machine) (t : Table) (k : Kernel) (a : Args) (e : Entry) (o : Result)
    → lookup (registrations c) a.syscall_num ≡ some e
    → e.handler a.arg1 a.arg2 a.arg3 a.arg4 a.arg5 k ≡ o
    → Executes c t k a (handler_result (syscall_init c t) a o)
handler_result-Executes c t k a e none f h = without_result e f h
handler_result-Executes c t k a e (some (r, k')) f h = returned e r k' f h

execute_entry-Executes :
    (c : Machine) (t : Table) (k : Kernel) (a : Args) (o : Option Entry)
    → lookup (registrations c) a.syscall_num ≡ o
    → Executes c t k a (execute_entry (syscall_init c t) k a o)
unfolding execute_entry
execute_entry-Executes c t k a none f = invalid f
execute_entry-Executes c t k a (some e) f =
    let o = e.handler a.arg1 a.arg2 a.arg3 a.arg4 a.arg5 k in
    subst (Executes c t k a) (sym (execute_entry-result (syscall_init c t) k a e o refl))
      (handler_result-Executes c t k a e o f refl)

-- After `syscall_init`, whatever the table held before, a system call whose number is not among the 29
-- registered ones gives SYSCALL_INVALID and changes neither the table nor the kernel's state; any
-- other runs the handler registered first for its number, with the five arguments, gives its result
-- and its state, and of the table changes only the arguments that are kept.
pub syscall_execute-Executes :
    (c : Machine) (t : Table) (k : Kernel) (a : Args)
    → Executes c t k a (syscall_execute (syscall_init c t) k a)
unfolding syscall_execute
syscall_execute-Executes c t k a =
    subst (λ o. Executes c t k a (execute_entry (syscall_init c t) k a o))
      (sym (find-syscall_init c t a.syscall_num))
      (execute_entry-Executes c t k a (lookup (registrations c) a.syscall_num) refl)
