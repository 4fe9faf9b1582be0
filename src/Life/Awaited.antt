-- ===== src/Life/Awaited.antt =====
-- kernel/process/process.c: `proc_exit`, and the parent that waits for the process.
use sugimotos.Prelude.{
  ℕ, zero, suc, ◌<◌, ◌≡◌, ◌≢◌, refl, sym, ap, ◌∙◌, true, false, List, length, set, arith, inl, inr,
}
use mathlib.Core.Path.{subst}
use sugimotos.Prelude.Int.{ℤ, pos, negsuc}
use sugimotos.Proc.{
  ProcState, unused, runnable, blocked, zombie, is_unused, is_runnable, is_blocked, is_zombie,
  Process, proc_at, proc_max,
}
use sugimotos.PageAlloc.{Outcome}
use sugimotos.Life.{System, procs_of, put_procs}
use sugimotos.Life.Calls.{proc_exit}
use sugimotos.Life.Wait.{is_waited, WaitResult, wait_again, proc_waitpid}
use sugimotos.Life.Waitpid.{Reaped, proc_waitpid-cases}
use sugimotos.Life.Table.{IsProcs, set_same}
use sugimotos.Life.Exit.{Exited, used_blocked, proc_exit-Exited}

runnable_blocked : (p : ProcState) → is_runnable p ≡ true → is_blocked p ≡ false
runnable_blocked runnable e = refl
runnable_blocked unused e = absurd (ground arith)
runnable_blocked blocked e = absurd (ground arith)
runnable_blocked zombie e = absurd (ground arith)

same_waited :
    (own : ℕ) (pid : ℤ) (p q : Process)
    → is_unused q.state ≡ false
    → q.pid ≡ p.pid
    → q.parent_pid ≡ p.parent_pid
    → is_waited own pid p ≡ true
    → is_waited own pid q ≡ true
unfolding is_waited
same_waited own (pos zero) p q u e f w = ground (arith, u, e, f, w)
same_waited own (pos (suc n)) p q u e f w = ground (arith, u, e, f, w)
same_waited own (negsuc n) p q u e f w = ground (arith, u, e, f, w)

waited_parent :
    (own : ℕ) (pid : ℤ) (p : Process)
    → is_waited own pid p ≡ true
    → (p.parent_pid ≡ own) × (is_unused p.state ≡ false)
unfolding is_waited
waited_parent own (pos zero) p w = (ground (arith, w), ground (arith, w))
waited_parent own (pos (suc n)) p w = (ground (arith, w), ground (arith, w))
waited_parent own (negsuc n) p w = (ground (arith, w), ground (arith, w))

-- In a sound table, a process that sleeps in `proc_waitpid` for a runnable child, be it for any child
-- or for this one, is made runnable by the `proc_exit` of that child, and its next round finds a zombie
-- to reap, whose memory it then releases: no end of a child is missed.
pub proc_exit_ends_wait :
    (ram top : ℕ) (s : System) (cur par : ℕ) (pid : ℤ) (status : ℕ)
    → IsProcs (procs_of s)
    → cur < proc_max
    → par < proc_max
    → is_runnable (proc_at (procs_of s) cur).state ≡ true
    → is_blocked (proc_at (procs_of s) par).state ≡ true
    → is_waited (proc_at (procs_of s) par).pid pid (proc_at (procs_of s) cur) ≡ true
    → let t = proc_exit s cur status in
      (is_runnable (proc_at (procs_of t) par).state ≡ true)
      × ((j : ℕ) × Reaped ram top t par pid 0 j (wait_again ram top t par pid 0))
unfolding wait_again
proc_exit_ends_wait ram top s cur par pid status v l m run sleep wait =
    let t = proc_exit s cur status in
    let (child_of, live) =
      waited_parent (proc_at (procs_of s) par).pid pid (proc_at (procs_of s) cur) wait in
    let x : Exited s cur status t = proc_exit-Exited s cur v l live status in
    let other : par ≢ cur = λ z. ground (
      arith,
      sym sleep ∙ ap (λ i. is_blocked (proc_at (procs_of s) i).state) z ∙ runnable_blocked _ run,
    ) in
    let parent : Process = record (proc_at (procs_of s) par) { state = runnable } in
    let awake : proc_at (procs_of t) par ≡ parent = elim (x.others par m other) [
      | inl (_, _, _, e) ↦ e
      | inr (_, n) ↦ absurd (
          ground
            (arith, sleep, n (used_blocked (proc_at (procs_of s) par).state sleep) (sym child_of)))
    ] in
    let size : par < length (procs_of t) = omega (arith, m, x.sound.size) in
    let again : wait_again ram top t par pid 0 ≡ proc_waitpid ram top t par pid 0 =
      ap {A = List Process} {B = Outcome (System × WaitResult)}
        (λ ps. proc_waitpid ram top (put_procs t ps) par pid 0)
        (ap {A = Process} {B = List Process}
            (λ p. set (procs_of t) par (record p { state = runnable })) awake
          ∙ ap (λ p. set (procs_of t) par p) (sym awake)
          ∙ set_same (procs_of t) par size) in
    let dead = x.dead in
    let child : is_waited (proc_at (procs_of t) par).pid pid (proc_at (procs_of t) cur) ≡ true =
      ap (λ (p : Process). is_waited p.pid pid (proc_at (procs_of t) cur)) awake
      ∙ same_waited (proc_at (procs_of s) par).pid pid (proc_at (procs_of s) cur)
          (proc_at (procs_of t) cur) (ap (λ (p : Process). is_unused p.state) dead)
          (ap (λ (p : Process). p.pid) dead) (ap (λ (p : Process). p.parent_pid) dead) wait in
    let is_dead : is_zombie (proc_at (procs_of t) cur).state ≡ true =
      ap (λ (p : Process). is_zombie p.state) dead in
    let here : cur < length (procs_of t) = omega (arith, l, x.sound.size) in
    (
      ap (λ (p : Process). is_runnable p.state) awake,
      elim (proc_waitpid-cases ram top t par pid 0 (inl refl)) [
        | inl (j, r) ↦ (j, subst (Reaped ram top t par pid 0 j) (sym again) r)
        | inr (inl (n, _)) ↦ absurd (n cur (here, child))
        | inr (inr (_, z, _)) ↦ absurd (ground (arith, sym is_dead ∙ z cur (here, child)))
      ],
    )
