-- ===== src/UserSpace/Serve.antt =====
-- mm/process_vm.c: `proc_handle_user_page_fault`.
use sugimotos.Prelude.{
  ℕ, ◌%◌, ◌^◌, ◌≤◌, ◌<◌, ◌≡◌, refl, true, false, not, ◌&&◌, some, arith, inl, inr, Bool-cases,
  Option-cases, page_size, ◌==◌, bit_and,
}
use sugimotos.Prelude.Bits.{has_bit}
use sugimotos.Proc.{UserVma, Process}
use sugimotos.PageAlloc.{returns, page_run_size}
use sugimotos.PageAlloc.State.{IsAllocator}
use sugimotos.Vma.{vma_at, page_floor, vma_prot_r, vma_prot_w, vma_prot_x}
use sugimotos.Vma.Table.{proc_find_vma_index}
use sugimotos.Vm.{Machine, vm_root_from_satp}
use sugimotos.Vm.Space.{IsSpace}
use sugimotos.Vm.UserPage.{translation}
use sugimotos.UserSpace.Calls.{
  pte_w_bit, prot_to_query_bits, proc_try_cow_fault, fault_in, proc_handle_user_page_fault,
}
use sugimotos.UserSpace.Outside.{UserPage}
use sugimotos.UserSpace.Fault.{IsAccess, Served, Steady-refl, Refused-refl, zero_page}
use sugimotos.UserSpace.Cow.{cow_copy-Served}

-- A page that `va` is mapped to is not the allocator's, or is in use and no part of the table.
abbrev pub IsUserPage : ℕ → Machine → ℕ → ℕ → Type 0
IsUserPage ram s satp va =
    (pa prot : ℕ)
    → translation s satp va ≡ some (pa, prot)
    → UserPage ram s (vm_root_from_satp satp) pa

module _ (ram top : ℕ) (al : ram % page_size ≡ 0) (lo : page_run_size ≤ ram) (up : ram ≤ top)
    (hi : top < 2 ^ 32) (s : Machine) (v : IsAllocator ram top s.pages) where
  module _ (satp : ℕ) (w : IsSpace ram s (vm_root_from_satp satp)) (va : ℕ)
      (va_page : va % page_size ≡ 0) (small : va < 2 ^ 32) (mapped : IsUserPage ram s satp va) where
    refused : (access : ℕ) → Served ram top s satp va access (returns (s, false))
    refused access = (s, false, refl, Refused-refl ram top al lo up hi s v satp w va va_page small)

    already :
        (access pa prot : ℕ)
        → translation s satp va ≡ some (pa, prot)
        → bit_and prot (prot_to_query_bits access) ≡ prot_to_query_bits access
        → Served ram top s satp va access (returns (s, true))
    already access pa prot e b = (
      s,
      true,
      refl,
      record {
        steady = Steady-refl ram top al lo up hi s v satp w va va_page small;
        pa = pa;
        prot = prot;
        maps = e;
        allows = b;
        others = λ a h n. refl;
        content = inr (pa, prot, e, λ i h. refl);
      },
    )

    proc_try_cow_fault-Served :
        (area : UserVma) (access : ℕ)
        → IsAccess access
        → (bit_and area.prot access == access) ≡ true
        → Served ram top s satp va access (proc_try_cow_fault ram top s satp va area)
    unfolding proc_try_cow_fault
    proc_try_cow_fault-Served area access kind allowed =
        elim (Bool-cases (has_bit area.prot vma_prot_w)) [
          | inl x ↦ elim (Option-cases (translation s satp va)) [
            | inl e ↦ rw (x, e) (refused access)
            | inr ((pa, prot), e) ↦ elim (Bool-cases (has_bit prot pte_w_bit)) [
              | inl y ↦ rw (x, e) (rw y (refused access))
              | inr y ↦
                  rw (x, e)
                    (rw y (
                      cow_copy-Served ram top al lo up hi s v satp w va va_page small pa
                        (mapped pa prot e) prot e area.prot access kind allowed))
            ]
          ]
          | inr x ↦ rw x (refused access)
        ]

    fault_in-Served :
        (area : UserVma) (access : ℕ)
        → IsAccess access
        → Served ram top s satp va access (fault_in ram top s satp va access area)
    unfolding fault_in
    fault_in-Served area access kind =
        elim (Bool-cases (not (bit_and area.prot access == access))) [
          | inl x ↦ rw x (refused access)
          | inr x ↦
              let allowed : (bit_and area.prot access == access) ≡ true = ground (arith, x) in
              elim (Option-cases (translation s satp va)) [
                | inl e ↦
                    rw (x, e)
                      (zero_page ram top al lo up hi s v satp w va va_page small area.prot access
                        kind allowed e)
                | inr ((pa, prot), e) ↦
                    elim (Bool-cases
                      (bit_and prot (prot_to_query_bits access) == prot_to_query_bits access)) [
                        | inl y ↦ rw (x, e) (rw y (already access pa prot e (ground (arith, y))))
                        | inr y ↦ elim (Bool-cases (access == vma_prot_w)) [
                          | inl z ↦
                              rw (x, e)
                                (rw (y, z) (proc_try_cow_fault-Served area access kind allowed))
                          | inr z ↦ rw (x, e) (rw (y, z) (refused access))
                        ]
                      ]
              ]
        ]

  -- `proc_handle_user_page_fault` of a process, at an address of 32 bits, never panics, on a sound
  -- allocator and a sound page table, if a page that the address is mapped to is no part of that table
  -- and in use, or not the allocator's. If it returns -1, every translation is what it was. If it
  -- returns 0, the address translates with the permission for the access, to the page it was mapped to,
  -- to a copy of it, or to a page of zeros where nothing was mapped; every translation of other pages
  -- is what it was. In both cases no page that was in use has changed, save those of the page table.
  pub proc_handle_user_page_fault-Served :
      (p : Process) (fault_addr access : ℕ)
      → IsSpace ram s (vm_root_from_satp p.satp)
      → fault_addr < 2 ^ 32
      → IsUserPage ram s p.satp (page_floor fault_addr)
      → Served ram top s p.satp
          (page_floor fault_addr)
          access
          (proc_handle_user_page_fault ram top s (some p) fault_addr access)
  unfolding proc_handle_user_page_fault
  proc_handle_user_page_fault-Served p fault_addr access w small mapped =
      let va : ℕ = page_floor fault_addr in
      let va_page : va % page_size ≡ 0 = unfold page_floor in omega arith in
      let va_small : va < 2 ^ 32 = unfold page_floor in omega arith in
      let none_mapped = refused p.satp w va va_page va_small mapped access in
      elim (Bool-cases (not p.is_user)) [
        | inl x ↦ rw x none_mapped
        | inr x ↦
            elim (Bool-cases (
              not (access == vma_prot_x)
              && not (access == vma_prot_r)
              && not (access == vma_prot_w))) [
                | inl y ↦ rw (x, y) none_mapped
                | inr y ↦ elim (Option-cases (proc_find_vma_index p.vmas va)) [
                  | inl e ↦ rw (x, y, e) none_mapped
                  | inr (i, e) ↦
                      rw (x, y, e)
                        (fault_in-Served p.satp w va va_page va_small mapped (vma_at p.vmas i)
                          access (ground (arith, y)))
                ]
              ]
      ]
