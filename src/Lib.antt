-- ===== src/Lib.antt =====
-- Verification of Sugimotos, a small kernel in C for 32-bit RISC-V with one processor.
--
-- The kernel runs up to eight processes. They are created, fork, replace their program, end, and are
-- waited for; a timer interrupt, a system call or a wait makes the running process call `yield`, and the
-- scheduler chooses the next one. Processes share a RAM file system through the descriptors in their
-- process entries, wait for each other on wait queues, read input events from one ring, and own an
-- address space: areas (VMAs), and a two-level page table that shares the kernel's 4 MiB pages. The pages
-- come from one allocator that counts references to each page; a fork shares pages, and the page fault
-- handler copies a shared page when it is written.
--
-- The modules and the code they are about:
--   Prelude    what all of them share: lists, options and tests over native numbers, 32-bit words
--              (`add32` and the like have the wrap-around written out), single bits and integers.
--   Proc       kernel/include/kernel/proc.h: the process table. `Kernel` has `procs`, `current_proc`,
--              `idle_proc` and satp; a process pointer is its index, and NULL is `none`.
--   Sched      kernel/process/sched.c: `yield` up to the call of `switch_context`.
--   Waitq      kernel/process/waitq.c: sleeping and waking. What happens while a process sleeps is
--              a function from the world to the world, an argument of `waitq_sleep`.
--   Event      kernel/event/event.c: the kernel event ring, with a queue as its abstract view
--              (Event/Spec).
--   Fs         fs/fs.c: the file calls (Fs/Calls) over a table of 32 files of 1024 bytes and the
--              descriptors of the processes. Fs/History has the calls as steps.
--   Vma        mm/process_vm.c: the table of areas, the tests of ranges and user pointers, the areas of a
--              new process, `proc_munmap` and `proc_mmap`.
--   Vm         mm/vm.c: the page tables, in a memory of words (`Machine`). Vm/Table has the walk, the
--              map and the unmap of one page, Vm/Build the tables of the kernel and of a process. Their
--              abstract view is the translation of every address, which `updated` changes at one page.
--   PageAlloc  mm/page_alloc.c: the page allocator: the list of free runs (PageAlloc/Runs) and the
--              calls (PageAlloc/Calls).
--   UserSpace  mm/process_vm.c: the calls that change page tables and references: release, reset, clone
--              and the page fault handler with copy on write (UserSpace/Calls).
--   Usercopy   mm/usercopy.c: the copies to and from the memory of the current process.
--   Life       kernel/process/process.c and arch/riscv32/process.c: the life of a process over all of
--              the above (`System`). Life/Slots has the table, Life/Calls create, fork, exec and exit,
--              Life/Wait the waits and the sweep of orphans; Life/Steps has the calls as a step
--              relation. Also `has_live_app_proc` of kernel/main.c.
-- Beside the definitions each module has its proofs, in files named for what they are about, and runs
-- at concrete inputs in Tests. Vm/Sample has the machines that several Tests share.
--
-- How the code is rendered. Each function is a function from the state before to the state after and
-- the result, all its early returns included; -1 and NULL are `none`, `false` or a constructor, as the
-- comment there says, and PANIC is the outcome `panic`. Fields keep the C names. A C string is the list
-- of its bytes before the NUL. A section of code under a lock with the interrupts off is one step. A call
-- that yields stops there, with what follows the yield as a function of its own.
--
-- Loops over a table recurse on the list or on the count of rounds. Four loops are on fuel:
-- `range_loop` of `proc_vma_range_ok`, whose position rises in each round, so that the length of the
-- range is enough; `free_range_loop` of `proc_find_free_mmap_range`, whose address rises and stays
-- within the mmap region, so that its size is enough; and the loops of `vm_map_range_4k` and
-- `vm_map_range_4m`, with one round for each page.
--
-- What is an interface, a record of operations that the code calls: `Fs.Ext4`, the queries on the
-- ext4 volume of fs/ext4.c, which `fs_init` never mounts; and `Vma.Pages`, the page table and the return
-- of a page, which `proc_munmap` calls and which `UserSpace.machine_pages` fills with Vm and PageAlloc.
-- The linker's symbols for the memory and the sections are arguments of what uses them.
--
-- What is not modelled: the assembly that switches contexts and enters traps, with the kernel stacks and
-- `arch_init_switch_context`, which fills them; the satp register and the flush of the translation cache;
-- the devices and their drivers, the window manager, the system call layer, ext4, printf and the user
-- programs.
pub mod Prelude
pub mod Proc
pub mod Event
pub mod Sched
pub mod Waitq
pub mod Fs
pub mod Vma
pub mod Vm
pub mod PageAlloc
pub mod UserSpace
pub mod Usercopy
pub mod Life
