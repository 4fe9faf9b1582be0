-- ===== src/Life/Steps.antt =====
-- kernel/process/process.c: the calls on the process table as steps, in any order.
use sugimotos.Prelude.{
  ℕ, ◌<◌, ◌≡◌, refl, ap, ◌^◌, Bool, false, replicate, length-replicate, Option, none, some, arith,
  zero, suc,
}
use mathlib.Core.Path.{subst}
use sugimotos.Prelude.Int.{ℤ}
use sugimotos.Proc.{is_unused, zero_process, proc_at, proc_max}
use sugimotos.PageAlloc.{Outcome, returns}
use sugimotos.Vma.User.{UserSections}
use sugimotos.Life.{System, procs_of}
use sugimotos.Life.Calls.{create_process, create_user_process, proc_fork, proc_exec, proc_exit}
use sugimotos.Life.Wait.{WaitResult, proc_waitpid, wait_again, proc_reap_orphan_zombies}
use sugimotos.Life.Ensures.{Ensures}
use sugimotos.Life.Table.{IsProcs, zero-IsSlot, set-IsProcs, used-IsSlot}
use sugimotos.Life.Fork.{Forked, proc_fork-Forked}
use sugimotos.Life.Exit.{proc_exit-Exited}
use sugimotos.Life.Kept.{create_process-IsProcs, create_user_process-IsProcs, proc_exec-IsProcs}
use sugimotos.Life.KeptWait.{
  proc_waitpid-IsProcs, wait_again-IsProcs, proc_reap_orphan_zombies-IsProcs,
}

-- The process that runs is there.
abbrev pub Runs : System → ℕ → Type 0
Runs s cur =
    (s.kernel.current_proc ≡ some cur)
    × (is_unused (proc_at (procs_of s) cur).state ≡ false)
    × (cur < proc_max)

zero_at : (n i : ℕ) → proc_at (replicate n zero_process) i ≡ zero_process
zero_at zero i = refl
zero_at (suc n) zero = refl
zero_at (suc n) (suc i) = zero_at n i

pub zeros-IsProcs : IsProcs (replicate proc_max zero_process)
zeros-IsProcs = record {
  size = length-replicate proc_max zero_process;
  slots = λ i l. rw (zero_at proc_max i) (zero-IsSlot i);
}

-- The linker's symbols, and the reads of the user's memory.
module _ (ram top rodata_start rodata_end : ℕ) (u : UserSections) (load load_word : ℕ → ℕ) where
  -- A call of the process that runs, or a switch to another one. A system that has panicked takes no
  -- step.
  pub data Step (s : System) : System → Type 0 where
    creates : Step s (create_process s).0
    creates_user :
        {t : System} (entry : ℕ) {r : Option ℕ}
        → create_user_process ram top rodata_start rodata_end u s entry ≡ returns (t, r)
        → Step s t
    forks :
        {t : System} {cur : ℕ} {r : Option ℕ}
        → Runs s cur
        → (proc_at (procs_of s) cur).trap_frame.sp < 2 ^ 32
        → proc_fork ram top rodata_start rodata_end u s ≡ returns (t, r)
        → Step s t
    execs :
        {t : System} {cur : ℕ} (entry argv : ℕ) {ok : Bool}
        → Runs s cur
        → proc_exec ram top rodata_start rodata_end u load load_word s entry argv ≡ returns (t, ok)
        → Step s t
    exits : {cur : ℕ} (status : ℕ) → Runs s cur → Step s (proc_exit s cur status)
    waits :
        {t : System} {cur : ℕ} (pid : ℤ) (options : ℕ) {r : WaitResult}
        → Runs s cur
        → proc_waitpid ram top s cur pid options ≡ returns (t, r)
        → Step s t
    resumes :
        {t : System} {cur : ℕ} (pid : ℤ) (options : ℕ) {r : WaitResult}
        → Runs s cur
        → wait_again ram top s cur pid options ≡ returns (t, r)
        → Step s t
    sweeps : {t : System} → proc_reap_orphan_zombies ram top s ≡ returns t → Step s t
    switches :
        (o : Option ℕ) → Step s (record s { kernel = record (s.kernel) { current_proc = o } })

  pub data Reach (s : System) : System → Type 0 where
    start : Reach s s
    later : {t : System} {r : System} → Reach s t → Step t r → Reach s r

  -- What holds of every return holds of this one.
  returned :
      {A : Type 0} (o : Outcome A) (P : A → Type 0) (a : A) → Ensures o P → o ≡ returns a → P a
  returned o P a h e = subst (λ x. Ensures x P) e h

  child-IsProcs :
      (s t : System) (r : Option ℕ) → IsProcs (procs_of s) → Forked s (t, r) → IsProcs (procs_of t)
  child-IsProcs s t none v h = rw h v
  child-IsProcs s t (some pid) v (cur, i, child, _, _, l, _, c, h) =
      rw h (
        set-IsProcs (procs_of s) i child v l
          (used-IsSlot i child (ap is_unused c.ready) c.numbered))

  Step-IsProcs : (s t : System) → Step s t → IsProcs (procs_of s) → IsProcs (procs_of t)
  Step-IsProcs s t creates v = create_process-IsProcs s v
  Step-IsProcs s t (creates_user entry e) v =
      returned _ _ _ (create_user_process-IsProcs ram top rodata_start rodata_end u s entry v) e
  Step-IsProcs s t (forks {cur} {r} (now, _, _) small e) v =
      let sp_small : (c : ℕ)
          → s.kernel.current_proc ≡ some c
          → (proc_at (procs_of s) c).trap_frame.sp < 2 ^ 32 =
        λ c f. let same : cur ≡ c = cc in rw (← same) small in
      child-IsProcs s t r v
        (returned _ _ _ (proc_fork-Forked ram top rodata_start rodata_end u s v sp_small) e)
  Step-IsProcs s t (execs {cur} entry argv (now, live, _) e) v =
      let still : (c : ℕ)
          → s.kernel.current_proc ≡ some c
          → is_unused (proc_at (procs_of s) c).state ≡ false =
        λ c f. let same : cur ≡ c = cc in rw (← same) live in
      returned _ _ _
        (proc_exec-IsProcs ram top rodata_start rodata_end u load load_word s entry argv still v) e
  Step-IsProcs s t (exits {cur} status (_, live, l)) v =
      (proc_exit-Exited s cur v l live status).sound
  Step-IsProcs s t (waits {cur = cur} pid options (_, live, _) e) v =
      returned _ _ _ (proc_waitpid-IsProcs ram top cur s pid options live v) e
  Step-IsProcs s t (resumes {cur = cur} pid options (_, live, _) e) v =
      returned _ _ _ (wait_again-IsProcs ram top cur s pid options live v) e
  Step-IsProcs s t (sweeps e) v = returned _ _ _ (proc_reap_orphan_zombies-IsProcs ram top s v) e
  Step-IsProcs s t (switches o) v = v

  Reach-IsProcs : (s t : System) → Reach s t → IsProcs (procs_of s) → IsProcs (procs_of t)
  Reach-IsProcs s t start v = v
  Reach-IsProcs s t (later {t = r} h p) v = Step-IsProcs r t p (Reach-IsProcs s r h v)

  -- From a system without processes, whatever calls of create, fork, exec, exit, wait and the sweep of
  -- orphans there are, in whatever order and by whatever processes, as long as none panics and the
  -- stack pointer of a process that forks has 32 bits: the table stays sound, with every empty slot
  -- zero, and no two slots have processes of the same pid.
  pub Reach_unique_pids :
      (s t : System)
      → procs_of s ≡ replicate proc_max zero_process
      → Reach s t
      → IsProcs (procs_of t)
        × ((i j : ℕ)
            → i < proc_max
            → j < proc_max
            → is_unused (proc_at (procs_of t) i).state ≡ false
            → is_unused (proc_at (procs_of t) j).state ≡ false
            → (proc_at (procs_of t) i).pid ≡ (proc_at (procs_of t) j).pid
            → i ≡ j)
  Reach_unique_pids s t e h =
      let v : IsProcs (procs_of t) = Reach-IsProcs s t h (rw e zeros-IsProcs) in
      (v, λ i j l m a b q. omega (arith, q, (v.slots i l).numbered a, (v.slots j m).numbered b))
