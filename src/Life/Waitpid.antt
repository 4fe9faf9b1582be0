-- ===== src/Life/Waitpid.antt =====
-- kernel/process/process.c: the outcomes of `proc_waitpid`.
use sugimotos.Prelude.{
  ℕ, ◌≡◌, ◌≢◌, ◌⊎◌, refl, sym, Bool, true, false, not, ◌&&◌, set, Option, none, some, arith, inl,
  inr, ◌==◌, if◌then◌else◌, get_or-set_self, get_or-set_ne,
}
use sugimotos.Prelude.Int.{ℤ}
use sugimotos.Proc.{ProcState, blocked, is_zombie, zero_process, proc_at}
use sugimotos.PageAlloc.{Outcome, returns}
use sugimotos.UserSpace.{then_do}
use sugimotos.UserSpace.Calls.{proc_vm_release}
use sugimotos.Life.{System, procs_of, put_procs}
use sugimotos.Life.Slots.{mark_process_unused}
use sugimotos.Life.Wait.{
  wait_scan, WaitResult, reaped, failed, none_exited, sleeps, wnohang, no_zombie, reap,
  proc_waitpid,
}
use sugimotos.Life.Waited.{Waited, Scanned, wait_scan-Scanned}

module _ (ram top : ℕ) (s : System) (cur : ℕ) (pid : ℤ) (options : ℕ) where
  abbrev own : ℕ
  own = (proc_at (procs_of s) cur).pid

  abbrev IsChild : ℕ → Type 0
  IsChild = Waited (procs_of s) own pid

  abbrev state_of : ℕ → ProcState
  state_of j = (proc_at (procs_of s) j).state

  -- The zombie in slot `j` is gone: its memory is released, and where that does not panic its pid and
  -- its status are the result, its slot is empty, and no other slot has changed.
  pub record Reaped (j : ℕ) (o : Outcome (System × WaitResult)) : Type 0 where
    pub child : IsChild j
    pub dead : is_zombie (state_of j) ≡ true
    pub result :
        o
        ≡ then_do (proc_vm_release ram top s.machine (proc_at (procs_of s) j)) (λ m. returns (
          record (put_procs s (mark_process_unused (procs_of s) j)) { machine = m },
          reaped (proc_at (procs_of s) j).pid (proc_at (procs_of s) j).exit_status,
        ))
    pub emptied : proc_at (mark_process_unused (procs_of s) j) j ≡ zero_process
    pub others :
        (i : ℕ) → i ≢ j → proc_at (mark_process_unused (procs_of s) j) i ≡ proc_at (procs_of s) i

  reap-Reaped : (j : ℕ) → IsChild j → is_zombie (state_of j) ≡ true → Reaped j (reap ram top s j)
  unfolding reap mark_process_unused
  reap-Reaped j (l, w) z = record {
    child = (l, w);
    dead = z;
    result = refl;
    emptied = get_or-set_self (procs_of s) j zero_process zero_process l;
    others = λ i n. get_or-set_ne (procs_of s) j i zero_process zero_process (λ e. n (sym e));
  }

  -- The outcomes of a round: a zombie is reaped, there is nothing to wait for, or all children run.
  abbrev pub WaitCases : Outcome (System × WaitResult) → Type 0
  WaitCases o =
      ((j : ℕ) × Reaped j o)
      ⊎ (((j : ℕ) → ¬ IsChild j) × (o ≡ returns (s, failed)))
      ⊎ (((j : ℕ) × IsChild j)
          × ((j : ℕ) → IsChild j → is_zombie (state_of j) ≡ false)
          × (((options ≡ wnohang) × (o ≡ returns (s, none_exited)))
              ⊎ ((options ≡ 0)
                  × (o
                      ≡ returns (
                        put_procs s (
                            set (procs_of s) cur
                              (record (proc_at (procs_of s) cur) { state = blocked })),
                        sleeps,
                      )))))

  -- Where the options are 0 or WNOHANG, `proc_waitpid` reaps a zombie among the children that it waits
  -- for, if there is one: unless the release of its memory panics, it returns the pid and the status and
  -- empties the slot, and no other. If it waits for no process at all it returns -1. If all these
  -- children still run, it returns 0 under WNOHANG, and else it blocks the process, and only that one,
  -- and yields.
  pub proc_waitpid-cases :
      (options ≡ 0) ⊎ (options ≡ wnohang) → WaitCases (proc_waitpid ram top s cur pid options)
  unfolding proc_waitpid no_zombie
  proc_waitpid-cases kind =
      go (wait_scan (procs_of s) own pid 0) (wait_scan-Scanned own pid (procs_of s) 0)
    where
      ok : (not (options == 0) && not (options == wnohang)) ≡ false
      ok = ground (arith, kind)

      Rest : Bool × Option ℕ → Outcome (System × WaitResult)
      Rest (has_child, found) =
          if not (options == 0) && not (options == wnohang)
          then returns (s, failed)
          else elim found [
            | some i ↦ reap ram top s i
            | none ↦ returns (no_zombie s cur has_child options)
          ]

      go : (r : Bool × Option ℕ) → Scanned (procs_of s) own pid 0 r → WaitCases (Rest r)
      go (b, some k) (j, e, w, z, _) =
          let same : k ≡ j = omega (arith, e) in rw ok (inl (j, rw same (reap-Reaped j w z)))
      go (true, none) (inl (_, c), z) =
          rw ok (
            inr (inr (c, z, elim kind [ inl e ↦ inr (e, rw e refl) | inr e ↦ inl (e, rw e refl) ])))
      go (true, none) (inr (f, _), z) = absurd (ground arith)
      go (false, none) (inl (f, _), z) = absurd (ground arith)
      go (false, none) (inr (_, n), z) = rw ok (inr (inl (n, refl)))
