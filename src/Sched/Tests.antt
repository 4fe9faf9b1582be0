-- ===== src/Sched/Tests.antt =====
-- Runs of kernel/process/sched.c on small process tables.
use sugimotos.Prelude.{ℕ, zero, suc, ◌<◌, ◌≡◌, refl, true, false, List, [], ◌∷◌, some, arith}
use sugimotos.Proc.{Process, Kernel, runnable, blocked, zero_process, proc_at}
use sugimotos.Sched.{
  is_schedulable, is_eligible_for_pick, pick_round, pick_rounds, pick_next_runnable_index, charge,
  choose, switch_to, yield_from, yield,
}
use sugimotos.Sched.Pick.{PickResult, pick_next_runnable_index-PickResult}
use sugimotos.Sched.Yield.{yield_runs}

abbrev idle : Process
idle = record zero_process { pid = 1; state = runnable; priority = 1; budget = 0; satp = 7 }

abbrev shell : Process
shell = record zero_process { pid = 2; state = runnable; priority = 4; budget = 2; satp = 8 }

abbrev sleeper : Process
sleeper = record zero_process { pid = 3; state = blocked; priority = 4; budget = 4 }

abbrev table : List Process
table =
    idle ∷ shell ∷ sleeper ∷ zero_process ∷ zero_process ∷ zero_process ∷ zero_process
    ∷ zero_process ∷ []

abbrev kernel : Kernel
kernel = record { procs = table; current_proc = some 0; idle_proc = some 0; satp = 7 }

abbrev asleep : Kernel
asleep = record kernel {
  procs =
      record idle { state = blocked }
      ∷ sleeper
      ∷ sleeper
      ∷ zero_process
      ∷ zero_process
      ∷ zero_process
      ∷ zero_process
      ∷ zero_process
      ∷ [];
  current_proc = some 1;
}

to_shell : (yield kernel).current_proc ≡ some 1
unfolding yield yield_from charge choose switch_to pick_next_runnable_index pick_rounds pick_round
    is_eligible_for_pick is_schedulable zero_process
to_shell = refl

-- The sleeper has the largest budget, and is passed over.
picks_shell : pick_next_runnable_index table 0 ≡ some 1
unfolding pick_next_runnable_index pick_rounds pick_round is_eligible_for_pick is_schedulable
    zero_process
picks_shell = refl

yield_runs_example :
    (n : ℕ) × (n < 8)
    × ((yield kernel).current_proc ≡ some n)
    × (is_schedulable (proc_at (yield kernel).procs n) ≡ true)
unfolding is_schedulable
yield_runs_example = yield_runs kernel 0 1 refl (omega arith) (omega arith) refl

none_runnable : (j : ℕ) → j < 8 → is_schedulable (proc_at asleep.procs j) ≡ false
unfolding is_schedulable zero_process
none_runnable zero h = refl
none_runnable (suc zero) h = refl
none_runnable (suc (suc zero)) h = refl
none_runnable (suc (suc (suc zero))) h = refl
none_runnable (suc (suc (suc (suc zero)))) h = refl
none_runnable (suc (suc (suc (suc (suc zero))))) h = refl
none_runnable (suc (suc (suc (suc (suc (suc zero)))))) h = refl
none_runnable (suc (suc (suc (suc (suc (suc (suc zero))))))) h = refl
none_runnable (suc (suc (suc (suc (suc (suc (suc (suc j)))))))) h = refl

pick_next_runnable_index-PickResult_example : PickResult table 0 (pick_next_runnable_index table 0)
pick_next_runnable_index-PickResult_example = pick_next_runnable_index-PickResult table 0
