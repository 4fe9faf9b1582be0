-- ===== src/Proc.antt =====
-- kernel/include/kernel/proc.h: the process table that the scheduler, the wait queues, the file
-- layer and the process calls share. A `struct process *` into the table is the index of its slot,
-- NULL is `none`. The kernel stack and `sp` belong to the assembly of switch_context and are left
-- out; `pid`, `parent_pid`, `priority` and `budget` are ints that the code never makes negative.
use sugimotos.Prelude.{ℕ, Bool, true, false, List, Option, replicate, get_or}
use sugimotos.Prelude.Int.{ℤ, pos}

pub data ProcState : Type 0 where
  unused runnable blocked zombie : ProcState

abbrev pub is_unused : ProcState → Bool
is_unused unused = true
is_unused _ = false

abbrev pub is_runnable : ProcState → Bool
is_runnable runnable = true
is_runnable _ = false

abbrev pub is_blocked : ProcState → Bool
is_blocked blocked = true
is_blocked _ = false

abbrev pub is_zombie : ProcState → Bool
is_zombie zombie = true
is_zombie _ = false

abbrev pub proc_max : ℕ
proc_max = 8

abbrev pub fd_max : ℕ
fd_max = 16

abbrev pub proc_vma_max : ℕ
proc_vma_max = 16

-- `struct file_desc`. A negative inode stands for a file of the ext4 volume.
pub record FileDesc : Type 0 where
  pub used : Bool
  pub inode : ℤ
  pub offset : ℕ
  pub flags : ℕ

abbrev pub closed : FileDesc
closed = record { used = false; inode = pos 0; offset = 0; flags = 0 }

-- `struct user_vma`: the bytes from `start` up to `end`.
pub record UserVma : Type 0 where
  pub used : Bool
  pub start : ℕ
  pub end : ℕ
  pub prot : ℕ

abbrev pub no_vma : UserVma
no_vma = record { used = false; start = 0; end = 0; prot = 0 }

-- The registers of `struct trap_frame` that C code reads or writes.
pub record TrapFrame : Type 0 where
  pub sp : ℕ
  pub a0 : ℕ
  pub a1 : ℕ
  pub sepc : ℕ
  pub sstatus : ℕ

abbrev pub zero_frame : TrapFrame
zero_frame = record { sp = 0; a0 = 0; a1 = 0; sepc = 0; sstatus = 0 }

-- `struct process`
pub record Process : Type 0 where
  pub pid : ℕ
  pub state : ProcState
  pub priority : ℕ
  pub budget : ℕ
  pub parent_pid : ℕ
  pub exit_status : ℕ
  pub is_user : Bool
  pub user_stack_base : ℕ
  pub user_stack_paddr : ℕ
  pub user_stack_pages : ℕ
  pub has_trap_frame : Bool
  pub sepc : ℕ
  pub satp : ℕ
  pub trap_frame : TrapFrame
  pub vmas : List UserVma
  pub fds : List FileDesc

-- What `memset(proc, 0, sizeof(*proc))` leaves.
unfoldable pub zero_process : Process
zero_process = record {
  pid = 0;
  state = unused;
  priority = 0;
  budget = 0;
  parent_pid = 0;
  exit_status = 0;
  is_user = false;
  user_stack_base = 0;
  user_stack_paddr = 0;
  user_stack_pages = 0;
  has_trap_frame = false;
  sepc = 0;
  satp = 0;
  trap_frame = zero_frame;
  vmas = replicate proc_vma_max no_vma;
  fds = replicate fd_max closed;
}

-- `procs`, `current_proc` and `idle_proc`, with the satp register.
pub record Kernel : Type 0 where
  pub procs : List Process
  pub current_proc : Option ℕ
  pub idle_proc : Option ℕ
  pub satp : ℕ

abbrev pub proc_at : List Process → ℕ → Process
proc_at ps i = get_or ps i zero_process
