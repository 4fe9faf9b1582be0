-- ===== src/Life/Orphans.antt =====
-- kernel/process/process.c: `proc_reap_orphan_zombies`.
use sugimotos.Prelude.{ℕ, ◌≤◌, ◌<◌, ◌≡◌, ◌⊎◌, Bool, not, ◌&&◌, Option, ◌==◌, if◌then◌else◌, set}
use sugimotos.Proc.{is_zombie, Process, zero_process, proc_at}
use sugimotos.Vm.{Machine}
use sugimotos.PageAlloc.{Outcome, returns}
use sugimotos.Life.{System, procs_of, put_procs}
use sugimotos.Life.Slots.{mark_process_unused}
use sugimotos.Life.Wait.{is_slot}
use sugimotos.Life.Ensures.{Ensures}

-- A zombie of a user program without a parent, which is not the idle process.
pub is_orphan : Option ℕ → ℕ → Process → Bool
is_orphan idle i p = not (is_slot idle i) && is_zombie p.state && p.is_user && (p.parent_pid == 0)

-- What the sweep leaves of a slot.
abbrev pub swept : Option ℕ → ℕ → Process → Process
swept idle i p = if is_orphan idle i p then zero_process else p

-- What the rounds for the slots from `i` up to `end` leave.
record Swept (s : System) (i end : ℕ) (t : System) : Type 0 where
  pub same_idle : t.kernel.idle_proc ≡ s.kernel.idle_proc
  pub inside :
      (j : ℕ)
      → i ≤ j
      → j < end
      → proc_at (procs_of t) j ≡ swept s.kernel.idle_proc j (proc_at (procs_of s) j)
  pub outside : (j : ℕ) → (j < i) ⊎ (end ≤ j) → proc_at (procs_of t) j ≡ proc_at (procs_of s) j

abbrev Freed : System → ℕ → System → Type 0
Freed s i t =
    (t.kernel.idle_proc ≡ s.kernel.idle_proc) × (procs_of t ≡ set (procs_of s) i zero_process)

abbrev pub released : System → ℕ → Machine → Outcome System
released s i m = returns (record (put_procs s (mark_process_unused (procs_of s) i)) { machine = m })
