-- ===== src/Life/Stack.antt =====
-- kernel/process/process.c: the stack and the page table of a new process, and the way back.
use sugimotos.Prelude.{
  ℕ, ◌≡◌, ◌≢◌, refl, set, Option, none, some, arith, inl, inr, Bool-cases, ◌==◌,
}
use sugimotos.Proc.{Process, zero_process, proc_at}
use sugimotos.Vma.User.{UserSections}
use sugimotos.Vm.{Machine}
use sugimotos.Vm.Build.{vm_build_user_satp}
use sugimotos.UserSpace.Calls.{proc_vm_release}
use sugimotos.Life.{System, procs_of, alloc_stack}
use sugimotos.Life.Slots.{mark_process_unused}
use sugimotos.Life.Calls.{put, reset_process_with_released_resources, give_up, with_stack}
use sugimotos.Life.Ensures.{Ensures, then_do-Ensures, any-Ensures, mono-Ensures}
use sugimotos.Life.Table.{set-set}

-- Slot `i` is empty, and no other slot has changed.
abbrev pub Emptied : System → ℕ → System → Type 0
Emptied s i t = procs_of t ≡ set (procs_of s) i zero_process

-- The process `p` with a stack and a page table is in slot `i`; or the slot is empty.
abbrev pub Stacked : System → ℕ → Process → ℕ → System × Option Process → Type 0
Stacked s i p base (t, none) = Emptied s i t
Stacked s i p base (t, some r) =
    (paddr : ℕ) × (satp : ℕ) × (paddr ≢ 0)
    × (satp ≢ 0)
    × (r ≡ record p { user_stack_paddr = paddr; user_stack_base = base; satp = satp })
    × (procs_of t ≡ set (procs_of s) i r)

module _ (ram top rodata_start rodata_end : ℕ) (u : UserSections) where
  pub give_up-Emptied :
      (s : System) (m : Machine) (i : ℕ) (p : Process)
      → Ensures
          (give_up ram top rodata_start rodata_end u (put s m i p) i)
          (λ (t, r). (r ≡ none) × Emptied s i t)
  unfolding give_up reset_process_with_released_resources mark_process_unused
  give_up-Emptied s m i p =
      then_do-Ensures
        (reset_process_with_released_resources ram top rodata_start rodata_end u (put s m i p) i) _
        (Emptied s i) _
        (then_do-Ensures (proc_vm_release ram top m (proc_at (procs_of (put s m i p)) i)) _
          (λ _. Unit {0}) (Emptied s i) (any-Ensures _)
          (λ m' _. set-set (procs_of s) i p zero_process))
        (λ t h. (refl, h))

  pub with_stack-Stacked :
      (s : System) (i : ℕ) (p : Process) (base : ℕ)
      → Ensures (with_stack ram top rodata_start rodata_end u s i p base) (Stacked s i p base)
  unfolding with_stack mark_process_unused
  with_stack-Stacked s i p base =
      let a : Machine × ℕ = alloc_stack ram top s.machine p.user_stack_pages in
      elim (Bool-cases (a.1 == 0)) [
        | inl x ↦ rw x refl
        | inr x ↦ rw x (
            then_do-Ensures
              (vm_build_user_satp ram top rodata_start rodata_end u a.0 base a.1 p.user_stack_pages)
              _ (λ _. Unit {0}) (Stacked s i p base) (any-Ensures _)
              (λ (m', satp) _.
                let r : Process = record p {
                  user_stack_paddr = a.1;
                  user_stack_base = base;
                  satp = satp;
                } in
                elim (Bool-cases (satp == 0)) [
                  | inl y ↦ rw y (
                      then_do-Ensures (give_up ram top rodata_start rodata_end u (put s m' i r) i) _
                        (λ (t, _). Emptied s i t) (Stacked s i p base) (mono_emptied m' r)
                        (λ (t, _) h. h))
                  | inr y ↦ rw y (
                    a.1,
                    satp,
                    (λ z. ground (arith, x, z)),
                    (λ z. ground (arith, y, z)),
                    refl,
                    refl,
                  )
                ]))
      ]
    where
      mono_emptied :
          (m' : Machine) (r : Process)
          → Ensures
              (give_up ram top rodata_start rodata_end u (put s m' i r) i)
              (λ (t, _). Emptied s i t)
      mono_emptied m' r =
          mono-Ensures (give_up ram top rodata_start rodata_end u (put s m' i r) i) _ _
            (give_up-Emptied s m' i r) (λ (t, _) (_, h). h)
