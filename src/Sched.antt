-- ===== src/Sched.antt =====
-- kernel/process/sched.c: the choice of the next process, by budget and round robin.
pub mod Pick
pub mod Yield
mod Tests
use sugimotos.Prelude.{
  ℕ, zero, suc, ◌+◌, ◌-◌, ◌%◌, ◌<◌, Bool, true, false, not, ◌&&◌, List, [], ◌∷◌, map, set, Option,
  none, some, ltb, ◌==◌, if◌then◌else◌,
}
use mathlib.Core.Option
use sugimotos.Proc.{ProcState, runnable, is_runnable, Process, Kernel, proc_at, proc_max}

pub is_schedulable : Process → Bool
is_schedulable p = is_runnable p.state && ltb 0 p.pid

pub is_eligible_for_pick : Process → Bool
is_eligible_for_pick p = is_schedulable p && ltb 0 p.budget

-- The slot that round `i` of the loop looks at.
abbrev pub slot : ℕ → ℕ → ℕ
slot start i = (start + i) % proc_max

-- `best_idx` and `best_budget`; `none` is their start, -1 and -1.
pub record Best : Type 0 where
  pub idx : ℕ
  pub budget : ℕ

abbrev better : ℕ → Option Best → Bool
better budget none = true
better budget (some b) = ltb b.budget budget

pub pick_round : List Process → ℕ → ℕ → Option Best → Option Best
pick_round ps start i best =
    let p = proc_at ps (slot start i) in
    if not (is_eligible_for_pick p)
    then best
    else if better p.budget best
    then some (record { idx = slot start i; budget = p.budget })
    else best

-- The rounds `i` to `i + n - 1` of the loop.
pub pick_rounds : List Process → ℕ → ℕ → ℕ → Option Best → Option Best
pick_rounds ps start zero i best = best
pick_rounds ps start (suc n) i best = pick_rounds ps start n (i + 1) (pick_round ps start i best)

-- `none` is -1.
pub pick_next_runnable_index : List Process → ℕ → Option ℕ
pick_next_runnable_index ps start =
    Option.map (λ (b : Best). b.idx) (pick_rounds ps start proc_max 1 none)

pub refill : Process → Process
refill p =
    if not (is_schedulable p)
    then p
    else let priority = if ltb p.priority 1 then 1 else p.priority in
      record p { priority = priority; budget = priority }

pub refill_budgets : List Process → List Process
refill_budgets = map refill

-- `current_proc->budget--`, if it may run on.
charge : List Process → ℕ → List Process
charge ps cur =
    let p = proc_at ps cur in
    if is_eligible_for_pick p then set ps cur (record p { budget = p.budget - 1 }) else ps

-- The table after the refill that may be needed, and the index picked.
choose : List Process → ℕ → List Process × Option ℕ
choose ps cur = elim (pick_next_runnable_index ps cur) [
  | some i ↦ (ps, some i)
  | none ↦ (refill_budgets ps, pick_next_runnable_index (refill_budgets ps) cur)
]

abbrev same_slot : Option ℕ → ℕ → Bool
same_slot none cur = false
same_slot (some i) cur = i == cur

abbrev satp_of : List Process → Option ℕ → ℕ
satp_of ps none = 0
satp_of ps (some i) = (proc_at ps i).satp

-- The state when `switch_context` is called, or at the early return.
switch_to : Kernel → List Process → ℕ → Option ℕ → Kernel
switch_to k ps cur next =
    if same_slot next cur
    then record k { procs = ps }
    else record k { procs = ps; current_proc = next; satp = satp_of ps next }

abbrev or_idle : Option ℕ → Option ℕ → Option ℕ
or_idle none idle = idle
or_idle (some i) idle = some i

yield_from : Kernel → ℕ → Kernel
yield_from k cur =
    let (ps, next) = choose (charge k.procs cur) cur in
    switch_to k ps cur (or_idle next k.idle_proc)

-- `yield` is called with a current process only.
pub yield : Kernel → Kernel
yield k = elim k.current_proc [ none ↦ k | some cur ↦ yield_from k cur ]
