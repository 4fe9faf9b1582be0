-- ===== src/Life/Tests.antt =====
-- Runs of kernel/process/process.c on the machine of Vm/Sample.
use sugimotos.Prelude.{
  ℕ, ◌<◌, ◌≡◌, refl, true, false, List, [], ◌∷◌, Option, none, some, arith, inl, set, replicate,
}
use sugimotos.Prelude.Int.{pos, negsuc}
use sugimotos.Proc.{
  runnable, blocked, zombie, is_unused, is_runnable, Process, zero_process, proc_at, proc_max,
}
use sugimotos.PageAlloc.{Outcome, panic, returns}
use sugimotos.Life.{System, procs_of}
use sugimotos.Life.Calls.{create_process, proc_fork, proc_exit}
use sugimotos.Life.Wait.{is_waited, proc_waitpid, wait_again}
use sugimotos.Life.Ensures.{Ensures}
use sugimotos.Life.Waitpid.{Reaped, WaitCases, proc_waitpid-cases}
use sugimotos.Life.Table.{IsProcs, set-IsProcs, used-IsSlot}
use sugimotos.Life.Exit.{Exited, proc_exit-Exited}
use sugimotos.Life.Awaited.{proc_exit_ends_wait}
use sugimotos.Life.Steps.{creates, Reach, start, later, zeros-IsProcs, Reach_unique_pids}
use sugimotos.Prelude.Bits.{has_bit}
use sugimotos.PageAlloc.Runs.{take_run}
use sugimotos.PageAlloc.Calls.{
  init_allocator_if_needed, page_idx_if_managed, mark_allocated, bump, alloc_pages_try,
}
use sugimotos.Vma.{page_floor, page_ceil}
use sugimotos.Vm.{
  store, clear_page, copy_page, pte_from_pa, pte_perm_from_flags, vm_make_satp, vm_root_from_satp,
}
use sugimotos.Vm.Table.{
  query_l0, query_l1, query_root, vm_query_user_page, split_loop, new_l0, alloc_page, l0_for,
  vm_map_page,
}
use sugimotos.Vm.Build.{
  range_4m_loop, vm_map_range_4m, map_kernel, vm_init, vm_kernel_satp, range_4k_loop,
  vm_map_range_4k, vm_map_identity_segment, map_segments, segments, user_root, map_user,
  finish_user, vm_build_user_satp,
}
use sugimotos.UserSpace.Calls.{proc_vm_clone, clone_areas}
use sugimotos.Life.{
  clear_pages, alloc_stack, arch_user_stack_pointer, arch_clone_user_context,
  proc_sp_within_user_stack, proc_user_stack_end,
}
use sugimotos.Life.Slots.{alloc_process_slot, alloc_from, init_process_common}
use sugimotos.Life.Calls.{fork_from, fork_into, fork_child, finish_fork, with_stack}
use sugimotos.Vm.Sample.{ram, top, sections, built}

abbrev empty : List Process
empty = replicate proc_max zero_process

-- A process with two pages of stack, in the middle of a system call, with one open file.
abbrev shell : Process
shell = record zero_process {
  pid = 1;
  state = runnable;
  priority = 4;
  budget = 4;
  is_user = true;
  user_stack_base = 0x3ffff000;
  user_stack_paddr = 0x80010000;
  user_stack_pages = 1;
  has_trap_frame = true;
  satp = built.1;
  trap_frame = record { sp = 0x3ffffff0; a0 = 7; a1 = 0; sepc = 0x80018010; sstatus = 0x20 };
  fds = record { used = true; inode = pos 0; offset = 3; flags = 1 } ∷ [];
}

-- Its child.
abbrev app : Process
app = record shell { pid = 2; parent_pid = 1 }

abbrev system : List Process → ℕ → System
system ps cur = record {
  kernel = record { procs = ps; current_proc = some cur; idle_proc = none; satp = 0 };
  machine = built.0;
  inodes = [];
  fs_initialized = true;
  ext4_ready = false;
}

-- The shell alone; the shell that sleeps while its child runs; and the child dead.
abbrev alone : System
alone = system (set empty 0 shell) 0

abbrev waiting : System
waiting = system (set (set empty 0 (record shell { state = blocked })) 1 app) 1

abbrev dead : System
dead = system (set (set empty 0 shell) 1 (record app { state = zombie; exit_status = 42 })) 0

pid_of : Outcome (System × Option ℕ) → Option ℕ
pid_of panic = none
pid_of (returns (t, r)) = r

waiting-IsProcs : IsProcs (procs_of waiting)
waiting-IsProcs =
    set-IsProcs (set empty 0 (record shell { state = blocked })) 1 app
      (set-IsProcs empty 0 (record shell { state = blocked }) zeros-IsProcs (omega arith)
        (used-IsSlot 0 (record shell { state = blocked }) refl refl))
      (omega arith) (used-IsSlot 1 app refl refl)

-- The child gets the second slot.
forks : pid_of (proc_fork ram top 0x80016000 0x80017000 sections alone) ≡ some 2
unfolding pid_of proc_fork fork_from fork_into fork_child finish_fork with_stack alloc_stack
    clear_pages alloc_process_slot alloc_from init_process_common arch_user_stack_pointer
    arch_clone_user_context proc_sp_within_user_stack proc_user_stack_end proc_vm_clone clone_areas
    vm_init alloc_page alloc_pages_try init_allocator_if_needed bump take_run mark_allocated
    page_idx_if_managed vm_query_user_page vm_kernel_satp query_root query_l1 query_l0 map_kernel
    vm_map_range_4m range_4m_loop store clear_page pte_from_pa pte_perm_from_flags has_bit
    vm_make_satp vm_root_from_satp vm_build_user_satp finish_user map_user user_root segments
    map_segments vm_map_identity_segment vm_map_range_4k range_4k_loop vm_map_page l0_for new_l0
    split_loop copy_page page_floor page_ceil zero_process
forks = refl

proc_exit-Exited_example : Exited waiting 1 42 (proc_exit waiting 1 42)
proc_exit-Exited_example = proc_exit-Exited waiting 1 waiting-IsProcs (omega arith) refl 42

proc_exit_ends_wait_example :
    let t = proc_exit waiting 1 42 in
    (is_runnable (proc_at (procs_of t) 0).state ≡ true)
    × ((j : ℕ) × Reaped ram top t 0 (negsuc 0) 0 j (wait_again ram top t 0 (negsuc 0) 0))
unfolding is_waited
proc_exit_ends_wait_example =
    proc_exit_ends_wait ram top waiting 1 0 (negsuc 0) 42 waiting-IsProcs (omega arith)
      (omega arith) refl refl refl

proc_waitpid-cases_example :
    WaitCases ram top dead 0 (pos 2) 0 (proc_waitpid ram top dead 0 (pos 2) 0)
proc_waitpid-cases_example = proc_waitpid-cases ram top dead 0 (pos 2) 0 (inl refl)

-- A zombie whose parent's pid is 0.
abbrev orphaned : System
orphaned = system (set (set empty 0 shell) 1 (record app { state = zombie; parent_pid = 0 })) 0

abbrev none_yet : System
none_yet = system empty 0

abbrev two_created : System
two_created = (create_process (create_process none_yet).0).0

two_steps : Reach ram top 0x80016000 0x80017000 sections (λ a. 0) (λ a. 0) none_yet two_created
two_steps = later (later start creates) creates

Reach_unique_pids_example :
    IsProcs (procs_of two_created)
    × ((i j : ℕ)
        → i < proc_max
        → j < proc_max
        → is_unused (proc_at (procs_of two_created) i).state ≡ false
        → is_unused (proc_at (procs_of two_created) j).state ≡ false
        → (proc_at (procs_of two_created) i).pid ≡ (proc_at (procs_of two_created) j).pid
        → i ≡ j)
Reach_unique_pids_example =
    Reach_unique_pids ram top 0x80016000 0x80017000 sections (λ a. 0) (λ a. 0) none_yet two_created
      refl two_steps
