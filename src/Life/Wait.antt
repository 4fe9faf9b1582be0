-- ===== src/Life/Wait.antt =====
-- kernel/process/process.c: `proc_waitpid`, and the zombies that nobody waits for.
use sugimotos.Prelude.{
  ℕ, zero, suc, ◌+◌, Bool, true, false, not, ◌&&◌, ◌||◌, List, [], ◌∷◌, Option, none, some, set,
  ◌==◌, if◌then◌else◌,
}
use sugimotos.Prelude.Int.{ℤ, pos, negsuc}
use sugimotos.Proc.{runnable, blocked, is_unused, is_zombie, Process, proc_at, proc_max}
use sugimotos.PageAlloc.{Outcome, returns}
use sugimotos.UserSpace.{then_do}
use sugimotos.UserSpace.Calls.{proc_vm_release}
use sugimotos.Life.{System, procs_of, put_procs}
use sugimotos.Life.Slots.{mark_process_unused}

-- `&procs[i]` is the pointer; NULL is none of them.
abbrev pub is_slot : Option ℕ → ℕ → Bool
is_slot none i = false
is_slot (some j) i = i == j

abbrev pub wnohang : ℕ
wnohang = 1

-- The process is a child that the wait is for: any one, unless `pid` is positive.
unfoldable pub is_waited : ℕ → ℤ → Process → Bool
is_waited own (pos (suc pid)) p =
    not (is_unused p.state) && (p.parent_pid == own) && (p.pid == suc pid)
is_waited own pid p = not (is_unused p.state) && (p.parent_pid == own)

-- One round of the loop over the slots from `i` on: `has_child`, and the slot of the zombie.
unfoldable pub wait_scan : List Process → ℕ → ℤ → ℕ → Bool × Option ℕ
wait_scan [] own pid i = (false, none)
wait_scan (p ∷ ps) own pid i =
    let (has_child, found) = wait_scan ps own pid (i + 1) in
    if not (is_waited own pid p)
    then (has_child, found)
    else if is_zombie p.state
    then (true, some i)
    else (true, found)

-- What a round comes to: the pid and the status of a child, -1, 0, or the call of `yield`.
pub data WaitResult : Type 0 where
  reaped : (pid status : ℕ) → WaitResult
  failed none_exited sleeps : WaitResult

-- The end of a round without a zombie.
unfoldable pub no_zombie : System → ℕ → Bool → ℕ → System × WaitResult
no_zombie s cur has_child options =
    let p = proc_at (procs_of s) cur in
    if not has_child
    then (s, failed)
    else if options == wnohang
    then (s, none_exited)
    else (put_procs s (set (procs_of s) cur (record p { state = blocked })), sleeps)

-- The linker's `__free_ram` and `__free_ram_end`.
module _ (free_ram free_ram_end : ℕ) where
  unfoldable pub reap : System → ℕ → Outcome (System × WaitResult)
  reap s i =
      let p = proc_at (procs_of s) i in
      then_do (proc_vm_release free_ram free_ram_end s.machine p) λ m. returns (
        record (put_procs s (mark_process_unused (procs_of s) i)) { machine = m },
        reaped p.pid p.exit_status,
      )

  -- `proc_waitpid` of the process in slot `cur`, up to its return or its call of `yield`. Options other
  -- than WNOHANG are refused.
  unfoldable pub proc_waitpid : System → ℕ → ℤ → ℕ → Outcome (System × WaitResult)
  proc_waitpid s cur pid options =
      let (has_child, found) = wait_scan (procs_of s) (proc_at (procs_of s) cur).pid pid 0 in
      if not (options == 0) && not (options == wnohang)
      then returns (s, failed)
      else elim found [ some i ↦ reap s i | none ↦ returns (no_zombie s cur has_child options) ]

  -- What follows the call of `yield`: the process is runnable again, and the next round begins.
  unfoldable pub wait_again : System → ℕ → ℤ → ℕ → Outcome (System × WaitResult)
  wait_again s cur pid options =
      let p = proc_at (procs_of s) cur in
      proc_waitpid (put_procs s (set (procs_of s) cur (record p { state = runnable }))) cur pid
        options

  unfoldable pub proc_wait : System → ℕ → Outcome (System × WaitResult)
  proc_wait s cur = proc_waitpid s cur (negsuc 0) 0

  -- The loop of `proc_reap_orphan_zombies` over `n` slots from `i` on.
  unfoldable pub reap_loop : ℕ → System → ℕ → Outcome System
  reap_loop zero s i = returns s
  reap_loop (suc n) s i =
      let p = proc_at (procs_of s) i in
      let released =
        then_do (proc_vm_release free_ram free_ram_end s.machine p) λ m.
          returns (record (put_procs s (mark_process_unused (procs_of s) i)) { machine = m }) in
      if is_slot s.kernel.idle_proc i
      then reap_loop n s (i + 1)
      else if not (is_zombie p.state) || not p.is_user || not (p.parent_pid == 0)
      then reap_loop n s (i + 1)
      else then_do released λ s'. reap_loop n s' (i + 1)

  unfoldable pub proc_reap_orphan_zombies : System → Outcome System
  proc_reap_orphan_zombies s = reap_loop proc_max s 0
