-- ===== src/Life/Fork.antt =====
-- kernel/process/process.c: `proc_fork`.
use sugimotos.Prelude.{
  ℕ, ◌+◌, ◌^◌, ◌≤◌, ◌<◌, ◌≡◌, ◌≢◌, refl, sym, ap, ◌∙◌, true, not, ◌||◌, set, Option, none, some,
  arith, inl, inr, Bool-cases, add32, sub32,
}
use sugimotos.Proc.{runnable, is_unused, Process, zero_process, proc_at, proc_max}
use sugimotos.Vma.User.{UserSections}
use sugimotos.UserSpace.Calls.{proc_vm_clone}
use sugimotos.Life.{
  System, procs_of, arch_user_stack_pointer, arch_clone_user_context, proc_sp_within_user_stack,
}
use sugimotos.Life.Slots.{alloc_process_slot, init_process_common}
use sugimotos.Life.Calls.{
  put, give_up, with_stack, finish_fork, fork_child, fork_into, fork_from, proc_fork,
}
use sugimotos.Life.Ensures.{Ensures, then_do-Ensures, any-Ensures, mono-Ensures}
use sugimotos.Life.Stack.{Emptied, Stacked, give_up-Emptied, with_stack-Stacked}
use sugimotos.Life.Table.{IsProcs, FirstUnused, alloc_process_slot-FirstUnused, set-set, set_same}

add_sub : (a b : ℕ) → a ≤ b → b < 2 ^ 32 → add32 a (sub32 b a) ≡ b
add_sub a b l small = omega arith

-- The child of `parent` in slot `i`: it will return 0 where the parent called, on the same stack
-- addresses, with the same areas and files.
pub record Child (parent : Process) (i : ℕ) (child : Process) : Type 0 where
  pub numbered : child.pid ≡ i + 1
  pub ready : child.state ≡ runnable
  pub of_parent : child.parent_pid ≡ parent.pid
  pub same_priority : child.priority ≡ parent.priority
  pub full_budget : child.budget ≡ parent.priority
  pub user : child.is_user ≡ true
  pub own_table : child.satp ≢ 0
  pub same_stack :
      (child.user_stack_base ≡ parent.user_stack_base)
      × (child.user_stack_pages ≡ parent.user_stack_pages)
      × (child.user_stack_paddr ≡ parent.user_stack_paddr)
  pub returns_zero : child.trap_frame ≡ record (parent.trap_frame) { a0 = 0 }
  pub resumes : (child.sepc ≡ parent.trap_frame.sepc) × (child.has_trap_frame ≡ true)
  pub same_areas : child.vmas ≡ parent.vmas
  pub same_files : child.fds ≡ parent.fds

-- What a return of the call has done to the table.
abbrev pub Forked : System → System × Option ℕ → Type 0
Forked s (t, none) = procs_of t ≡ procs_of s
Forked s (t, some pid) =
    (cur : ℕ) × (i : ℕ) × (child : Process) × (s.kernel.current_proc ≡ some cur)
    × (is_unused (proc_at (procs_of s) i).state ≡ true)
    × (i < proc_max)
    × (pid ≡ i + 1)
    × Child (proc_at (procs_of s) cur) i child
    × (procs_of t ≡ set (procs_of s) i child)

module _ (ram top rodata_start rodata_end : ℕ) (u : UserSections) (s : System)
    (v : IsProcs (procs_of s)) where
  -- Slot `i` was empty, so emptying it again restores the table.
  restored :
      (i : ℕ) (t : System)
      → i < proc_max
      → is_unused (proc_at (procs_of s) i).state ≡ true
      → Emptied s i t
      → procs_of t ≡ procs_of s
  restored i t l e h =
      h
      ∙ ap (λ p. set (procs_of s) i p) (sym ((v.slots i l).empty e))
      ∙ set_same (procs_of s) i (omega (arith, v.size))

  module _ (cur i : ℕ) (now : s.kernel.current_proc ≡ some cur) (l : i < proc_max)
      (e : is_unused (proc_at (procs_of s) i).state ≡ true)
      (sp_small : (proc_at (procs_of s) cur).trap_frame.sp < 2 ^ 32) where
    abbrev parent : Process
    parent = proc_at (procs_of s) cur

    abbrev start : Process
    start = record (init_process_common (i + 1) parent.pid true parent.priority) {
      user_stack_pages = parent.user_stack_pages;
    }

    -- The slot is emptied again.
    gone :
        (t : System) (p : Process)
        → procs_of t ≡ set (procs_of s) i p
        → (r : System × Option ℕ) → (r.1 ≡ none) × Emptied t i r.0
        → Forked s r
    gone t p h (t', none) (_, f) =
        restored i t' l e
          (f ∙ ap (λ ps. set ps i zero_process) h ∙ set-set (procs_of s) i p zero_process)
    gone t p h (t', some pid) (g, _) = absurd (ground (arith, g))

    module _ (p : Process) (paddr satp : ℕ)
        (q : p ≡ record start {
          user_stack_paddr = paddr;
          user_stack_base = parent.user_stack_base;
          satp = satp;
        }) where
      numbered : p.pid ≡ i + 1
      unfolding init_process_common
      numbered = ap (λ (x : Process). x.pid) q

      is_Child :
          parent.user_stack_base ≤ parent.trap_frame.sp
          → satp ≢ 0
          → Child parent i
              (record (arch_clone_user_context
                (record p { vmas = parent.vmas; fds = parent.fds })
                parent
                (add32 p.user_stack_base (sub32 parent.trap_frame.sp parent.user_stack_base))) {
                  user_stack_paddr = parent.user_stack_paddr;
                })
      unfolding init_process_common arch_clone_user_context
      is_Child above ns =
          let base : p.user_stack_base ≡ parent.user_stack_base =
            ap (λ (x : Process). x.user_stack_base) q in
          let same_sp : add32 p.user_stack_base (sub32 parent.trap_frame.sp parent.user_stack_base)
              ≡ parent.trap_frame.sp =
            ap (λ b. add32 b (sub32 parent.trap_frame.sp parent.user_stack_base)) base
            ∙ add_sub parent.user_stack_base parent.trap_frame.sp above sp_small in
          record {
            numbered = numbered;
            ready = ap (λ (x : Process). x.state) q;
            of_parent = ap (λ (x : Process). x.parent_pid) q;
            same_priority = ap (λ (x : Process). x.priority) q;
            full_budget = ap (λ (x : Process). x.budget) q;
            user = ap (λ (x : Process). x.is_user) q;
            own_table = λ z. ns (sym (ap (λ (x : Process). x.satp) q) ∙ z);
            same_stack = (base, ap (λ (x : Process). x.user_stack_pages) q, refl);
            returns_zero = ap (λ x. record (parent.trap_frame) { a0 = 0; sp = x }) same_sp;
            resumes = (refl, refl);
            same_areas = refl;
            same_files = refl;
          }

    fork_child-Forked :
        (r : System × Option Process)
        → Stacked s i start parent.user_stack_base r
        → Ensures (fork_child ram top rodata_start rodata_end u parent i r) (Forked s)
    unfolding fork_child finish_fork arch_user_stack_pointer proc_sp_within_user_stack
        arch_clone_user_context
    fork_child-Forked (t, none) h = restored i t l e h
    fork_child-Forked (t, some p) (paddr, satp, np, ns, q, h) =
        let c : Process = record p { vmas = parent.vmas; fds = parent.fds } in
        let sp = add32 p.user_stack_base (sub32 parent.trap_frame.sp parent.user_stack_base) in
        let cloned = arch_clone_user_context c parent sp in
        elim (Bool-cases
          (not (proc_sp_within_user_stack parent (arch_user_stack_pointer parent)))) [
            | inl x ↦ rw x (
                mono-Ensures (give_up ram top rodata_start rodata_end u (put t t.machine i c) i) _ _
                  (give_up-Emptied ram top rodata_start rodata_end u t t.machine i c) (gone t p h))
            | inr x ↦ rw x (
                then_do-Ensures (proc_vm_clone ram top t.machine parent cloned) _ (λ _. Unit {0})
                  (Forked s) (any-Ensures _)
                  λ (m, ok) _. elim (Bool-cases ok) [
                    | inl y ↦ rw y (
                      cur,
                      i,
                      record cloned { user_stack_paddr = parent.user_stack_paddr },
                      now,
                      e,
                      l,
                      numbered p paddr satp q,
                      is_Child p paddr satp q (ground (arith, x)) ns,
                      ap
                            (λ ps.
                              set ps i
                                (record cloned { user_stack_paddr = parent.user_stack_paddr }))
                            h
                          ∙ set-set (procs_of s) i p _,
                    )
                    | inr y ↦ rw y (
                        mono-Ensures
                          (give_up ram top rodata_start rodata_end u (put t m i cloned) i) _ _
                          (give_up-Emptied ram top rodata_start rodata_end u t m i cloned)
                          (gone t p h))
                  ])
          ]

  fork_into-Forked :
      (cur : ℕ) (o : Option ℕ)
      → s.kernel.current_proc ≡ some cur
      → (proc_at (procs_of s) cur).trap_frame.sp < 2 ^ 32
      → FirstUnused (procs_of s) 0 o
      → Ensures
          (fork_into ram top rodata_start rodata_end u s (proc_at (procs_of s) cur) o)
          (Forked s)
  unfolding fork_into
  fork_into-Forked cur none now small f = refl
  fork_into-Forked cur (some i) now small (j, e, l, q) =
      let same : j ≡ i = omega (arith, e) in
      let room : i < proc_max = omega (arith, e, v.size) in
      let p : Process = start cur i now room (rw same at q) small in
      let base = (proc_at (procs_of s) cur).user_stack_base in
      then_do-Ensures (with_stack ram top rodata_start rodata_end u s i p base) _
        (Stacked s i p base) (Forked s)
        (with_stack-Stacked ram top rodata_start rodata_end u s i p base)
        (fork_child-Forked cur i now room (rw same at q) small)

  fork_from-Forked :
      (o : Option ℕ)
      → s.kernel.current_proc ≡ o
      → ((cur : ℕ)
          → s.kernel.current_proc ≡ some cur
          → (proc_at (procs_of s) cur).trap_frame.sp < 2 ^ 32)
      → Ensures (fork_from ram top rodata_start rodata_end u s o) (Forked s)
  unfolding fork_from
  fork_from-Forked none now small = refl
  fork_from-Forked (some cur) now small =
      let parent = proc_at (procs_of s) cur in
      elim (Bool-cases (not parent.is_user || not parent.has_trap_frame)) [
        | inl x ↦ rw x refl
        | inr x ↦ rw x (
            fork_into-Forked cur (alloc_process_slot (procs_of s)) now (small cur now)
              (alloc_process_slot-FirstUnused (procs_of s)))
      ]

  pub proc_fork-Forked :
      ((cur : ℕ)
        → s.kernel.current_proc ≡ some cur
        → (proc_at (procs_of s) cur).trap_frame.sp < 2 ^ 32)
      → Ensures (proc_fork ram top rodata_start rodata_end u s) (Forked s)
  unfolding proc_fork
  proc_fork-Forked small = fork_from-Forked s.kernel.current_proc refl small
