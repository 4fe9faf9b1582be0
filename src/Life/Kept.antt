-- ===== src/Life/Kept.antt =====
-- kernel/process/process.c: the calls that make and change processes keep the table sound.
use sugimotos.Prelude.{
  ℕ, ◌+◌, ◌≡◌, refl, sym, ap, ◌∙◌, true, false, not, List, set, Option, none, some, arith, inl, inr,
  Bool-cases, Option-cases, ◌==◌, length-set, get_or-set, sub32, mul32, page_size,
}
use sugimotos.Proc.{is_unused, Process, zero_process, proc_at}
use sugimotos.Vma.User.{UserSections, proc_vm_init, proc_user_exec_argv_ok}
use sugimotos.Vm.{Machine}
use sugimotos.UserSpace.Calls.{reset_areas, proc_vm_reset}
use sugimotos.Life.{
  System, procs_of, user_stack_top, user_stack_pages_def, proc_priority_def, arch_init_user_context,
  proc_user_stack_end,
}
use sugimotos.Life.Slots.{alloc_process_slot, init_process_common}
use sugimotos.Life.Calls.{
  put, create_process, give_up, with_stack, finish_create, create_user_process, finish_exec,
  exec_from, proc_exec,
}
use sugimotos.Life.Ensures.{Ensures, then_do-Ensures, any-Ensures, mono-Ensures}
use sugimotos.Life.Table.{
  IsProcs, FirstUnused, alloc_process_slot-FirstUnused, set-IsProcs, zero-IsSlot, used-IsSlot,
  set-set,
}
use sugimotos.Life.Stack.{Stacked, give_up-Emptied, with_stack-Stacked}

-- A slot is emptied.
pub emptied-IsProcs : (ps : List Process) (i : ℕ) → IsProcs ps → IsProcs (set ps i zero_process)
emptied-IsProcs ps i v = record {
  size = length-set ps i zero_process ∙ v.size;
  slots = λ j l. elim (get_or-set ps i j zero_process zero_process) [
    | inl (_, e, _) ↦ rw e (zero-IsSlot j)
    | inr (inl (_, e)) ↦ rw e (v.slots j l)
    | inr (inr (_, e, _, _)) ↦ rw e (zero-IsSlot j)
  ];
}

-- A process that is there changes, and keeps its pid.
pub changed-IsProcs :
    (ps : List Process) (i : ℕ) (p : Process)
    → IsProcs ps
    → is_unused (proc_at ps i).state ≡ false
    → is_unused p.state ≡ false
    → p.pid ≡ (proc_at ps i).pid
    → IsProcs (set ps i p)
changed-IsProcs ps i p v live used e = record {
  size = length-set ps i p ∙ v.size;
  slots = λ j l. elim (get_or-set ps i j p zero_process) [
    | inl (same, q, _) ↦ rw q (
        used-IsSlot j p used
          (e ∙ (v.slots i (omega (arith, l, same))).numbered live ∙ ap (λ k. k + 1) same))
    | inr (inl (_, q)) ↦ rw q (v.slots j l)
    | inr (inr (_, q, _, _)) ↦ rw q (zero-IsSlot j)
  ];
}

pub live_here :
    (ps : List Process) (i : ℕ) (p : Process)
    → is_unused (proc_at ps i).state ≡ false
    → is_unused p.state ≡ false
    → is_unused (proc_at (set ps i p) i).state ≡ false
unfolding zero_process
live_here ps i p live used = elim (get_or-set ps i i p zero_process) [
  | inl (_, e, _) ↦ ap (λ (q : Process). is_unused q.state) e ∙ used
  | inr (inl (n, _)) ↦ absurd (n refl)
  | inr (inr (_, _, e, _)) ↦
      absurd (ground (arith, sym (ap (λ (q : Process). is_unused q.state) e) ∙ live))
]

-- A new process is put into the slot that was found for it.
filled-IsProcs :
    (ps : List Process) (i : ℕ) (p : Process)
    → IsProcs ps
    → FirstUnused ps 0 (some i)
    → is_unused p.state ≡ false
    → p.pid ≡ i + 1
    → IsProcs (set ps i p)
filled-IsProcs ps i p v (j, e, l, _) used q =
    set-IsProcs ps i p v (omega (arith, v.size)) (used-IsSlot i p used q)

pub create_process-IsProcs :
    (s : System) → IsProcs (procs_of s) → IsProcs (procs_of (create_process s).0)
unfolding create_process init_process_common
create_process-IsProcs s v = elim (Option-cases (alloc_process_slot (procs_of s))) [
  | inl e ↦ rw (e, create_process) v
  | inr (i, e) ↦
      let f : FirstUnused (procs_of s) 0 (some i) =
        rw e at (alloc_process_slot-FirstUnused (procs_of s)) in
      rw (e, create_process) (filled-IsProcs (procs_of s) i _ v f refl refl)
]

module _ (ram top rodata_start rodata_end : ℕ) (u : UserSections) where
  -- The end of a call that fails, with the process `r` in the slot.
  give_up-IsProcs :
      (s : System) (m : Machine) (i : ℕ) (p : Process)
      → IsProcs (procs_of s)
      → Ensures
          (give_up ram top rodata_start rodata_end u (put s m i p) i)
          (λ (t, _). IsProcs (procs_of t))
  give_up-IsProcs s m i p v =
      mono-Ensures (give_up ram top rodata_start rodata_end u (put s m i p) i) _ _
        (give_up-Emptied ram top rodata_start rodata_end u s m i p)
        λ t (_, e). rw e (emptied-IsProcs (procs_of s) i v)

  module _ (s : System) (entry i : ℕ) (p : Process) (base : ℕ) (v : IsProcs (procs_of s))
      (f : FirstUnused (procs_of s) 0 (some i)) (used : is_unused p.state ≡ false)
      (numbered : p.pid ≡ i + 1) where
    finish_create-IsProcs :
        (r : System × Option Process)
        → Stacked s i p base r
        → Ensures
            (finish_create ram top rodata_start rodata_end u entry i r)
            (λ (t, _). IsProcs (procs_of t))
    unfolding finish_create arch_init_user_context
    finish_create-IsProcs (t, none) h = rw h (emptied-IsProcs (procs_of s) i v)
    finish_create-IsProcs (t, some r) (paddr, satp, _, _, q, h) =
        let here : is_unused r.state ≡ false = ap (λ (x : Process). is_unused x.state) q ∙ used in
        let pid : r.pid ≡ i + 1 = ap (λ (x : Process). x.pid) q ∙ numbered in
        let start : Process = record r { vmas = (proc_vm_init u r).0 } in
        let filled : (x : Process)
            → is_unused x.state ≡ false
            → x.pid ≡ i + 1
            → IsProcs (set (procs_of t) i x) =
          λ x e g.
            rw h (rw (set-set (procs_of s) i r x) (filled-IsProcs (procs_of s) i x v f e g)) in
        let sound : IsProcs (procs_of t) = rw h (filled-IsProcs (procs_of s) i r v f here pid) in
        elim (Bool-cases (proc_vm_init u r).1) [
          | inl x ↦
              rw x (
                filled (arch_init_user_context start entry (proc_user_stack_end start) 0 0) here
                  pid)
          | inr x ↦ rw x (give_up-IsProcs t t.machine i start sound)
        ]

  pub create_user_process-IsProcs :
      (s : System) (entry : ℕ)
      → IsProcs (procs_of s)
      → Ensures
          (create_user_process ram top rodata_start rodata_end u s entry)
          (λ (t, _). IsProcs (procs_of t))
  unfolding create_user_process init_process_common
  create_user_process-IsProcs s entry v = elim (Option-cases (alloc_process_slot (procs_of s))) [
    | inl e ↦ rw (e, create_user_process) v
    | inr (i, e) ↦
        let f : FirstUnused (procs_of s) 0 (some i) =
          rw e at (alloc_process_slot-FirstUnused (procs_of s)) in
        let p : Process = record (init_process_common (i + 1) 0 true proc_priority_def) {
          user_stack_pages = user_stack_pages_def;
        } in
        let base : ℕ = sub32 user_stack_top (mul32 p.user_stack_pages page_size) in
        rw (e, create_user_process)
          (then_do-Ensures (with_stack ram top rodata_start rodata_end u s i p base) _
            (Stacked s i p base) _ (with_stack-Stacked ram top rodata_start rodata_end u s i p base)
            (finish_create-IsProcs s entry i p base v f refl refl))
  ]

  reset-same :
      (m : Machine) (p : Process)
      → Ensures (proc_vm_reset ram top m p) (λ (_, q). (q.pid ≡ p.pid) × (q.state ≡ p.state))
  unfolding proc_vm_reset
  reset-same m p =
      then_do-Ensures (reset_areas ram top p.vmas m p.satp) _ (λ _. Unit {0}) _ (any-Ensures _)
        λ _ _. (refl, refl)

  finish_exec-IsProcs :
      (s : System) (cur entry argc argv : ℕ)
      → is_unused (proc_at (procs_of s) cur).state ≡ false
      → IsProcs (procs_of s)
      → Ensures
          (finish_exec ram top rodata_start rodata_end u s cur entry argc argv)
          (λ (t, _). IsProcs (procs_of t))
  unfolding finish_exec arch_init_user_context
  finish_exec-IsProcs s cur entry argc argv live v =
      then_do-Ensures (proc_vm_reset ram top s.machine (proc_at (procs_of s) cur)) _ _ _
        (reset-same s.machine (proc_at (procs_of s) cur))
        λ (m, p) (pid, state).
          let live' : is_unused p.state ≡ false = ap is_unused state ∙ live in
          let q : Process = record p { vmas = (proc_vm_init u p).0 } in
          elim (Bool-cases (proc_vm_init u p).1) [
            | inl x ↦ rw x (
                changed-IsProcs (procs_of s) cur
                  (arch_init_user_context q entry (proc_user_stack_end q) argc argv) v live live'
                  pid)
            | inr x ↦ rw x (changed-IsProcs (procs_of s) cur q v live live' pid)
          ]

  module _ (load load_word : ℕ → ℕ) where
    exec_from-IsProcs :
        (s : System) (o : Option ℕ) (entry argv : ℕ)
        → ((cur : ℕ) → o ≡ some cur → is_unused (proc_at (procs_of s) cur).state ≡ false)
        → IsProcs (procs_of s)
        → Ensures
            (exec_from ram top rodata_start rodata_end u load load_word s o entry argv)
            (λ (t, _). IsProcs (procs_of t))
    unfolding exec_from
    exec_from-IsProcs s none entry argv live v = v
    exec_from-IsProcs s (some cur) entry argv live v =
        let p : Process = proc_at (procs_of s) cur in
        elim (Bool-cases (not p.is_user)) [
          | inl x ↦ rw x v
          | inr x ↦ elim (Bool-cases (entry == 0)) [
            | inl y ↦ rw (x, y) v
            | inr y ↦ elim (Option-cases (proc_user_exec_argv_ok load load_word (some p) argv)) [
              | inl e ↦ rw (x, y, e) v
              | inr (argc, e) ↦
                  rw (x, y, e) (finish_exec-IsProcs s cur entry argc argv (live cur refl) v)
            ]
          ]
        ]

    pub proc_exec-IsProcs :
        (s : System) (entry argv : ℕ)
        → ((cur : ℕ)
            → s.kernel.current_proc ≡ some cur
            → is_unused (proc_at (procs_of s) cur).state ≡ false)
        → IsProcs (procs_of s)
        → Ensures
            (proc_exec ram top rodata_start rodata_end u load load_word s entry argv)
            (λ (t, _). IsProcs (procs_of t))
    unfolding proc_exec
    proc_exec-IsProcs s entry argv live v =
        exec_from-IsProcs s s.kernel.current_proc entry argv live v
