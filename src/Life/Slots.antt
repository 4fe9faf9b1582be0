-- ===== src/Life/Slots.antt =====
-- kernel/process/process.c: the slots of the process table. `memset(proc, 0, ...)` is `zero_process`.
use sugimotos.Prelude.{
  ℕ, ◌+◌, Bool, true, false, not, ◌&&◌, List, [], ◌∷◌, Option, none, some, set, ◌==◌, if◌then◌else◌,
}
use sugimotos.Proc.{runnable, is_unused, is_runnable, is_blocked, Process, zero_process}

-- The loops run over the array; the argument `i` is the index of its next entry.
unfoldable pub alloc_from : List Process → ℕ → Option ℕ
alloc_from [] i = none
alloc_from (p ∷ ps) i = if is_unused p.state then some i else alloc_from ps (i + 1)

unfoldable pub alloc_process_slot : List Process → Option ℕ
alloc_process_slot ps = alloc_from ps 0

unfoldable pub find_from : List Process → ℕ → ℕ → Option ℕ
find_from [] pid i = none
find_from (p ∷ ps) pid i =
    if not (is_unused p.state) && (p.pid == pid) then some i else find_from ps pid (i + 1)

unfoldable pub find_process_by_pid : List Process → ℕ → Option ℕ
find_process_by_pid ps pid = find_from ps pid 0

unfoldable pub init_process_common : ℕ → ℕ → Bool → ℕ → Process
init_process_common pid parent_pid is_user priority = record zero_process {
  pid = pid;
  state = runnable;
  priority = priority;
  budget = priority;
  parent_pid = parent_pid;
  is_user = is_user;
}

unfoldable pub mark_process_unused : List Process → ℕ → List Process
mark_process_unused ps i = set ps i zero_process

-- kernel/main.c: some process other than those of pid 0 can still run.
unfoldable pub has_live_app_proc : List Process → Bool
has_live_app_proc [] = false
has_live_app_proc (p ∷ ps) =
    if p.pid == 0
    then has_live_app_proc ps
    else if is_runnable p.state
    then true
    else if is_blocked p.state
    then true
    else has_live_app_proc ps
