-- ===== src/Waitq.antt =====
-- kernel/process/waitq.c: a wait queue is an array of eight process pointers under a lock. What is
-- done under the lock is one step. A Boolean argument says whether the pointer `q` is not NULL.
pub mod Room
pub mod Sleep
pub mod Wake
mod Tests
use sugimotos.Prelude.{
  ℕ, Bool, true, false, List, [], ◌∷◌, set, replicate, Option, none, some, ◌==◌, if◌then◌else◌,
}
use sugimotos.Proc.{ProcState, runnable, blocked, is_blocked, Process, Kernel, proc_at, proc_max}

-- `struct waitq`
abbrev pub Waiters : Type 0
Waiters = List (Option ℕ)

-- The process table and the queue.
pub record World : Type 0 where
  pub kernel : Kernel
  pub waiters : Waiters

pub waitq_init : Bool → Waiters → Waiters
waitq_init false q = q
waitq_init true q = replicate proc_max none

abbrev points_to : Option ℕ → ℕ → Bool
points_to none p = false
points_to (some i) p = i == p

pub waitq_contains : Waiters → ℕ → Bool
waitq_contains [] p = false
waitq_contains (w ∷ ws) p = if points_to w p then true else waitq_contains ws p

-- The loop that puts the process in the first free place, if there is one.
pub put_first_free : Waiters → ℕ → Waiters
put_first_free [] p = []
put_first_free (none ∷ ws) p = some p ∷ ws
put_first_free (some i ∷ ws) p = some i ∷ put_first_free ws p

pub enqueue : Waiters → ℕ → Waiters
enqueue q p = if waitq_contains q p then q else put_first_free q p

pub set_state : List Process → ℕ → ProcState → List Process
set_state ps i s = set ps i (record (proc_at ps i) { state = s })

-- Up to the call of `yield`.
pub sleep_begin : World → ℕ → World
sleep_begin w cur = record {
  kernel = record (w.kernel) { procs = set_state w.kernel.procs cur blocked };
  waiters = enqueue w.waiters cur;
}

abbrev wake_if_blocked : List Process → ℕ → List Process
wake_if_blocked ps i = if is_blocked (proc_at ps i).state then set_state ps i runnable else ps

-- After `yield` has returned.
pub sleep_end : World → World
sleep_end w = elim w.kernel.current_proc [
  | none ↦ w
  | some cur ↦ record w {
    kernel = record (w.kernel) { procs = wake_if_blocked w.kernel.procs cur };
  }
]

abbrev same_proc : Option ℕ → ℕ → Bool
same_proc none p = false
same_proc (some i) p = i == p

-- `resume` is what the call of `yield` does to the world until it returns to this process: the
-- switch of kernel/process/sched.c and all that the other processes do meanwhile.
pub waitq_sleep : (World → World) → Bool → World → World
waitq_sleep resume false w = w
waitq_sleep resume true w = elim w.kernel.current_proc [
  | none ↦ w
  | some cur ↦
      if same_proc w.kernel.idle_proc cur then w else sleep_end (resume (sleep_begin w cur))
]

-- The loop of `waitq_wake_all`, over the rest of the array.
pub wake_list : List Process → Waiters → List Process
wake_list ps [] = ps
wake_list ps (none ∷ ws) = wake_list ps ws
wake_list ps (some i ∷ ws) = wake_list (wake_if_blocked ps i) ws

pub clear_all : Waiters → Waiters
clear_all [] = []
clear_all (w ∷ ws) = none ∷ clear_all ws

pub waitq_wake_all : Bool → World → World
waitq_wake_all false w = w
waitq_wake_all true w = record {
  kernel = record (w.kernel) { procs = wake_list w.kernel.procs w.waiters };
  waiters = clear_all w.waiters;
}
