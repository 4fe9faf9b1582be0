-- ===== src/Life.antt =====
-- kernel/process/process.c and arch/riscv32/process.c: processes are created, forked, replaced, ended
-- and waited for. The kernel stack of a process and `arch_init_switch_context`, which fills it for the
-- assembly of switch_context, are left out.
pub mod Slots
pub mod Calls
pub mod Wait
pub mod Waited
pub mod Waitpid
pub mod Table
pub mod Ensures
pub mod Stack
pub mod Fork
pub mod Closed
pub mod Exit
pub mod Awaited
pub mod Orphans
pub mod Kept
pub mod KeptWait
pub mod Steps
mod Tests
use sugimotos.Prelude.{
  ℕ, zero, suc, ◌+◌, ◌-◌, ◌*◌, Bool, true, false, List, Option, none, some, set, leb, ◌&&◌, ◌==◌,
  if◌then◌else◌, page_size, add32, mul32,
}
use sugimotos.Proc.{Process, Kernel, TrapFrame, zero_frame, zero_process, proc_at}
use sugimotos.PageAlloc.Calls.{alloc_pages_try}
use sugimotos.Fs.{Fs, Inode}
use sugimotos.Vm.{Memory, Machine, clear_page}

-- The processes, the memory and the files.
pub record System : Type 0 where
  pub kernel : Kernel
  pub machine : Machine
  pub inodes : List Inode
  pub fs_initialized : Bool
  pub ext4_ready : Bool

abbrev pub procs_of : System → List Process
procs_of s = s.kernel.procs

abbrev pub put_procs : System → List Process → System
put_procs s ps = record s { kernel = record (s.kernel) { procs = ps } }

-- The state that the file calls of the process in slot `current` see, and the state afterwards.
abbrev pub fs_of : System → ℕ → Fs
fs_of s current = record {
  inodes = s.inodes;
  fs_initialized = s.fs_initialized;
  ext4_ready = s.ext4_ready;
  procs = procs_of s;
  current = current;
}

abbrev pub put_fs : System → Fs → System
put_fs s f = record (put_procs s f.procs) {
  inodes = f.inodes;
  fs_initialized = f.fs_initialized;
  ext4_ready = f.ext4_ready;
}

abbrev pub user_stack_pages_def : ℕ
user_stack_pages_def = 2

abbrev pub user_stack_top : ℕ
user_stack_top = 0x40000000

abbrev pub proc_priority_min : ℕ
proc_priority_min = 1

abbrev pub proc_priority_def : ℕ
proc_priority_def = 4

unfoldable pub clear_pages : ℕ → Memory → ℕ → Memory
clear_pages zero m page = m
clear_pages (suc n) m page = clear_pages n (clear_page m page) (page + page_size)

-- `SSTATUS_SPIE`
abbrev pub sstatus_spie : ℕ
sstatus_spie = 0x20

unfoldable pub arch_init_user_context : Process → ℕ → ℕ → ℕ → ℕ → Process
arch_init_user_context p entry stack_top argc argv = record p {
  trap_frame = record zero_frame {
    sp = stack_top;
    a0 = argc;
    a1 = argv;
    sepc = entry;
    sstatus = sstatus_spie;
  };
  sepc = entry;
  has_trap_frame = true;
}

unfoldable pub arch_user_stack_pointer : Process → ℕ
arch_user_stack_pointer p = p.trap_frame.sp

unfoldable pub arch_clone_user_context : Process → Process → ℕ → Process
arch_clone_user_context child parent child_sp = record child {
  trap_frame = record (parent.trap_frame) { a0 = 0; sp = child_sp };
  sepc = parent.trap_frame.sepc;
  has_trap_frame = true;
}

unfoldable pub proc_user_stack_end : Process → ℕ
proc_user_stack_end p = add32 p.user_stack_base (mul32 p.user_stack_pages page_size)

unfoldable pub proc_sp_within_user_stack : Process → ℕ → Bool
proc_sp_within_user_stack p sp = leb p.user_stack_base sp && leb sp (proc_user_stack_end p)

-- `alloc_pages_try(n)` with the pages it clears.
unfoldable pub alloc_stack : ℕ → ℕ → Machine → ℕ → Machine × ℕ
alloc_stack free_ram free_ram_end s n =
    let (pages, pa) = alloc_pages_try free_ram free_ram_end s.pages n in
    if pa == 0
    then (record s { pages = pages }, 0)
    else (record s { pages = pages; memory = clear_pages n s.memory pa }, pa)
