-- ===== src/Life/Calls.antt =====
-- kernel/process/process.c: the calls. A slot is an index, and `none` is NULL or -1.
use sugimotos.Prelude.{
  ℕ, zero, suc, ◌+◌, Bool, true, false, not, ◌||◌, List, Option, none, some, set, ◌==◌,
  if◌then◌else◌, page_size, sub32, add32, mul32,
}
use sugimotos.Prelude.Int.{pos}
use sugimotos.Proc.{runnable, zombie, is_blocked, Process, proc_at, fd_max}
use sugimotos.PageAlloc.{Outcome, returns}
use sugimotos.Fs.{Fs, fd_at, current_fds}
use sugimotos.Fs.Calls.{fs_close}
use sugimotos.Vma.User.{UserSections, proc_vm_init, proc_user_exec_argv_ok}
use sugimotos.Vm.{Machine}
use sugimotos.Vm.Build.{vm_kernel_satp, vm_build_user_satp}
use sugimotos.UserSpace.{then_do}
use sugimotos.UserSpace.Calls.{proc_vm_release, proc_vm_clone, proc_vm_reset}
use sugimotos.Life.{
  System, procs_of, put_procs, fs_of, put_fs, user_stack_pages_def, user_stack_top,
  proc_priority_min, proc_priority_def, arch_init_user_context, arch_user_stack_pointer,
  arch_clone_user_context, proc_user_stack_end, proc_sp_within_user_stack, alloc_stack,
}
use sugimotos.Life.Slots.{
  alloc_process_slot, find_process_by_pid, init_process_common, mark_process_unused,
}

-- The system with another memory, and with the process in slot `i` given anew.
abbrev pub put : System → Machine → ℕ → Process → System
put s m i p = record (put_procs s (set (procs_of s) i p)) { machine = m }

unfoldable pub create_process : System → System × Option ℕ
create_process s = elim (alloc_process_slot (procs_of s)) [
  | none ↦ (s, none)
  | some i ↦
      let p = init_process_common (i + 1) 0 false proc_priority_min in
      (put s s.machine i (record p { satp = vm_kernel_satp s.machine }), some i)
]

-- The loop of `proc_exit` over the descriptors, for `n` of them from `fd` on.
unfoldable pub close_all : ℕ → Fs → ℕ → Fs
close_all zero f fd = f
close_all (suc n) f fd =
    let closed = if (fd_at (current_fds f) fd).used then (fs_close f (pos fd)).0 else f in
    close_all n closed (fd + 1)

-- `if (parent && parent->state == PROC_BLOCKED) parent->state = PROC_RUNNABLE;`
unfoldable pub wake_parent : List Process → Option ℕ → List Process
wake_parent ps none = ps
wake_parent ps (some i) =
    let p = proc_at ps i in
    if is_blocked p.state then set ps i (record p { state = runnable }) else ps

-- `proc_exit` of the process in slot `cur`, with the bits of the status, up to its first call of
-- `yield`, which does not return.
unfoldable pub proc_exit : System → ℕ → ℕ → System
proc_exit s₀ cur status =
    let s = put_fs s₀ (close_all fd_max (fs_of s₀ cur) 0) in
    let ps =
      set (procs_of s) cur
        (record (proc_at (procs_of s) cur) { exit_status = status; state = zombie }) in
    put_procs s (wake_parent ps (find_process_by_pid ps (proc_at ps cur).parent_pid))

-- The linker's symbols: `__free_ram`, `__free_ram_end`, `__rodata_start`, `__rodata_end` and those of
-- the user programs.
module _ (free_ram free_ram_end rodata_start rodata_end : ℕ) (u : UserSections) where
  unfoldable pub reset_process_with_released_resources : System → ℕ → Outcome System
  reset_process_with_released_resources s i =
      then_do (proc_vm_release free_ram free_ram_end s.machine (proc_at (procs_of s) i))
        λ m. returns (record (put_procs s (mark_process_unused (procs_of s) i)) { machine = m })

  -- The failure of a call that has filled slot `i`.
  unfoldable pub give_up : System → ℕ → Outcome (System × Option ℕ)
  give_up s i = then_do (reset_process_with_released_resources s i) λ s'. returns (s', none)

  -- The stack of the process in slot `i`, and its page table; `none` is the failure of either.
  unfoldable pub with_stack : System → ℕ → Process → ℕ → Outcome (System × Option Process)
  with_stack s i p base =
      let (m, paddr) = alloc_stack free_ram free_ram_end s.machine p.user_stack_pages in
      let q : Process = record p { user_stack_paddr = paddr; user_stack_base = base } in
      let built =
        vm_build_user_satp free_ram free_ram_end rodata_start rodata_end u m base paddr
          p.user_stack_pages in
      if paddr == 0
      then returns (record (put_procs s (mark_process_unused (procs_of s) i)) { machine = m }, none)
      else then_do built (λ (m', satp).
        let r : Process = record q { satp = satp } in
        if satp == 0
        then then_do (give_up (put s m' i r) i) (λ (s', _). returns (s', none))
        else returns (put s m' i r, some r))

  -- The end of `create_user_process`.
  unfoldable pub finish_create : ℕ → ℕ → System × Option Process → Outcome (System × Option ℕ)
  finish_create entry_pc i (s, none) = returns (s, none)
  finish_create entry_pc i (s, some p) =
      let (vmas, ok) = proc_vm_init u p in
      let q : Process = record p { vmas = vmas } in
      let started = arch_init_user_context q entry_pc (proc_user_stack_end q) 0 0 in
      if ok then returns (put s s.machine i started, some i) else give_up (put s s.machine i q) i

  unfoldable pub create_user_process : System → ℕ → Outcome (System × Option ℕ)
  create_user_process s entry_pc = elim (alloc_process_slot (procs_of s)) [
    | none ↦ returns (s, none)
    | some i ↦
        let p : Process = record (init_process_common (i + 1) 0 true proc_priority_def) {
          user_stack_pages = user_stack_pages_def;
        } in
        then_do (with_stack s i p (sub32 user_stack_top (mul32 p.user_stack_pages page_size)))
          (finish_create entry_pc i)
  ]

  -- The end of `proc_fork`, from the call of `proc_vm_clone` for the child in slot `i` on.
  unfoldable pub finish_fork : System → ℕ → Process → Process → Outcome (System × Option ℕ)
  finish_fork s i parent child =
      then_do (proc_vm_clone free_ram free_ram_end s.machine parent child) λ (m, ok).
        if ok
        then returns (
          put s m i (record child { user_stack_paddr = parent.user_stack_paddr }),
          some child.pid,
        )
        else give_up (put s m i child) i

  -- The middle of `proc_fork`.
  unfoldable pub fork_child : Process → ℕ → System × Option Process → Outcome (System × Option ℕ)
  fork_child parent i (s, none) = returns (s, none)
  fork_child parent i (s, some p) =
      let child : Process = record p { vmas = parent.vmas; fds = parent.fds } in
      let parent_sp = arch_user_stack_pointer parent in
      let sp = add32 child.user_stack_base (sub32 parent_sp parent.user_stack_base) in
      if not (proc_sp_within_user_stack parent parent_sp)
      then give_up (put s s.machine i child) i
      else finish_fork s i parent (arch_clone_user_context child parent sp)

  -- `proc_fork` of a user process into slot `i`, if there is one.
  unfoldable pub fork_into : System → Process → Option ℕ → Outcome (System × Option ℕ)
  fork_into s parent none = returns (s, none)
  fork_into s parent (some i) =
      let p : Process = record (init_process_common (i + 1) parent.pid true parent.priority) {
        user_stack_pages = parent.user_stack_pages;
      } in
      then_do (with_stack s i p parent.user_stack_base) (fork_child parent i)

  unfoldable pub fork_from : System → Option ℕ → Outcome (System × Option ℕ)
  fork_from s none = returns (s, none)
  fork_from s (some cur) =
      let parent = proc_at (procs_of s) cur in
      if not parent.is_user || not parent.has_trap_frame
      then returns (s, none)
      else fork_into s parent (alloc_process_slot (procs_of s))

  -- The result is the child's pid.
  unfoldable pub proc_fork : System → Outcome (System × Option ℕ)
  proc_fork s = fork_from s s.kernel.current_proc

  -- The end of `proc_exec`, with the arguments counted. The Boolean is false where it returns -1.
  unfoldable pub finish_exec : System → ℕ → ℕ → ℕ → ℕ → Outcome (System × Bool)
  finish_exec s cur entry_pc argc argv =
      then_do (proc_vm_reset free_ram free_ram_end s.machine (proc_at (procs_of s) cur)) λ (m, p).
        let (vmas, ok) = proc_vm_init u p in
        let q : Process = record p { vmas = vmas } in
        let started = arch_init_user_context q entry_pc (proc_user_stack_end q) argc argv in
        if ok then returns (put s m cur started, true) else returns (put s m cur q, false)

  -- `load` and `load_word` read the memory of the current process.
  module _ (load load_word : ℕ → ℕ) where
    unfoldable pub exec_from : System → Option ℕ → ℕ → ℕ → Outcome (System × Bool)
    exec_from s none entry_pc argv = returns (s, false)
    exec_from s (some cur) entry_pc argv =
        let p = proc_at (procs_of s) cur in
        if not p.is_user
        then returns (s, false)
        else if entry_pc == 0
        then returns (s, false)
        else elim (proc_user_exec_argv_ok load load_word (some p) argv) [
          | none ↦ returns (s, false)
          | some argc ↦ finish_exec s cur entry_pc argc argv
        ]

    unfoldable pub proc_exec : System → ℕ → ℕ → Outcome (System × Bool)
    proc_exec s entry_pc argv = exec_from s s.kernel.current_proc entry_pc argv
