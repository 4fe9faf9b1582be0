-- ===== src/Life/KeptWait.antt =====
-- kernel/process/process.c: waits and sweeps keep the process table sound.
use sugimotos.Prelude.{
  ℕ, zero, suc, ◌+◌, ◌≡◌, refl, Bool, false, not, ◌&&◌, ◌||◌, set, inl, inr, Bool-cases,
  Option-cases, ◌==◌,
}
use sugimotos.Prelude.Int.{ℤ}
use sugimotos.Proc.{ProcState, runnable, blocked, is_unused, is_zombie, Process, proc_at, proc_max}
use sugimotos.UserSpace.{then_do}
use sugimotos.UserSpace.Calls.{proc_vm_release}
use sugimotos.Life.{System, procs_of, put_procs}
use sugimotos.Life.Slots.{mark_process_unused}
use sugimotos.Life.Wait.{
  wait_scan, WaitResult, wnohang, is_slot, no_zombie, reap, proc_waitpid, wait_again, reap_loop,
  proc_reap_orphan_zombies,
}
use sugimotos.Life.Orphans.{released}
use sugimotos.Life.Ensures.{Ensures, then_do-Ensures, any-Ensures}
use sugimotos.Life.Table.{IsProcs}
use sugimotos.Life.Kept.{emptied-IsProcs, changed-IsProcs, live_here}

module _ (ram top : ℕ) where
  module _ (cur : ℕ) where
    abbrev Sound : System × WaitResult → Type 0
    Sound (t, _) = IsProcs (procs_of t)

    reap-IsProcs : (s : System) (i : ℕ) → IsProcs (procs_of s) → Ensures (reap ram top s i) Sound
    unfolding reap mark_process_unused
    reap-IsProcs s i v =
        then_do-Ensures (proc_vm_release ram top s.machine (proc_at (procs_of s) i)) _
          (λ _. Unit {0}) Sound (any-Ensures _) (λ m _. emptied-IsProcs (procs_of s) i v)

    -- A change of the state of the waiting process.
    state-IsProcs :
        (s : System) (p : ProcState)
        → is_unused p ≡ false
        → is_unused (proc_at (procs_of s) cur).state ≡ false
        → IsProcs (procs_of s)
        → IsProcs (set (procs_of s) cur (record (proc_at (procs_of s) cur) { state = p }))
    state-IsProcs s p e live v = changed-IsProcs (procs_of s) cur _ v live e refl

    no_zombie-IsProcs :
        (s : System) (has_child : Bool) (options : ℕ)
        → is_unused (proc_at (procs_of s) cur).state ≡ false
        → IsProcs (procs_of s)
        → Sound (no_zombie s cur has_child options)
    unfolding no_zombie
    no_zombie-IsProcs s has_child options live v = elim (Bool-cases (not has_child)) [
      | inl x ↦ rw x v
      | inr x ↦ elim (Bool-cases (options == wnohang)) [
        | inl y ↦ rw (x, y) v
        | inr y ↦ rw (x, y) (state-IsProcs s blocked refl live v)
      ]
    ]

    pub proc_waitpid-IsProcs :
        (s : System) (pid : ℤ) (options : ℕ)
        → is_unused (proc_at (procs_of s) cur).state ≡ false
        → IsProcs (procs_of s)
        → Ensures (proc_waitpid ram top s cur pid options) Sound
    unfolding proc_waitpid
    proc_waitpid-IsProcs s pid options live v =
        let own : ℕ = (proc_at (procs_of s) cur).pid in
        elim (Bool-cases (not (options == 0) && not (options == wnohang))) [
          | inl x ↦ rw x v
          | inr x ↦ elim (Option-cases (wait_scan (procs_of s) own pid 0).1) [
            | inl e ↦ rw (x, e) (no_zombie-IsProcs s _ options live v)
            | inr (i, e) ↦ rw (x, e) (reap-IsProcs s i v)
          ]
        ]

    pub wait_again-IsProcs :
        (s : System) (pid : ℤ) (options : ℕ)
        → is_unused (proc_at (procs_of s) cur).state ≡ false
        → IsProcs (procs_of s)
        → Ensures (wait_again ram top s cur pid options) Sound
    unfolding wait_again
    wait_again-IsProcs s pid options live v =
        let sound = state-IsProcs s runnable refl live v in
        proc_waitpid-IsProcs
          (put_procs s
            (set (procs_of s) cur (record (proc_at (procs_of s) cur) { state = runnable })))
          pid options (live_here (procs_of s) cur _ live refl) sound

  reap_loop-IsProcs :
      (n : ℕ) (s : System) (i : ℕ)
      → IsProcs (procs_of s)
      → Ensures (reap_loop ram top n s i) (λ t. IsProcs (procs_of t))
  unfolding reap_loop mark_process_unused
  reap_loop-IsProcs zero s i v = v
  reap_loop-IsProcs (suc n) s i v =
      let p : Process = proc_at (procs_of s) i in
      elim (Bool-cases (is_slot s.kernel.idle_proc i)) [
        | inl x ↦ rw x (reap_loop-IsProcs n s (i + 1) v)
        | inr x ↦
            elim (Bool-cases
              (not (is_zombie p.state) || not p.is_user || not (p.parent_pid == 0))) [
                | inl y ↦ rw (x, y) (reap_loop-IsProcs n s (i + 1) v)
                | inr y ↦
                    rw (x, y)
                      (then_do-Ensures
                        (then_do (proc_vm_release ram top s.machine p) (released s i)) _
                        (λ t. IsProcs (procs_of t)) _
                        (then_do-Ensures (proc_vm_release ram top s.machine p) (released s i)
                          (λ _. Unit {0}) _ (any-Ensures _)
                          (λ m _. emptied-IsProcs (procs_of s) i v))
                        (λ t w. reap_loop-IsProcs n t (i + 1) w))
              ]
      ]

  pub proc_reap_orphan_zombies-IsProcs :
      (s : System)
      → IsProcs (procs_of s)
      → Ensures (proc_reap_orphan_zombies ram top s) (λ t. IsProcs (procs_of t))
  unfolding proc_reap_orphan_zombies
  proc_reap_orphan_zombies-IsProcs s v = reap_loop-IsProcs proc_max s 0 v
