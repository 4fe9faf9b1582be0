-- ===== src/UserSpace/Calls.antt =====
-- mm/process_vm.c: the calls.
use sugimotos.Prelude.{
  ℕ, zero, suc, ◌+◌, ◌-◌, ◌/◌, Bool, true, false, not, ◌&&◌, ◌||◌, List, [], ◌∷◌, Option, none,
  some, ltb, leb, ◌==◌, if◌then◌else◌, bit_and, page_size, add32,
}
use sugimotos.Prelude.Bits.{has_bit}
use sugimotos.Proc.{UserVma, Process, no_vma}
use sugimotos.PageAlloc.{Outcome, returns}
use sugimotos.PageAlloc.Calls.{free_pages}
use sugimotos.Vma.{
  vma_at, page_floor, vma_prot_r, vma_prot_w, vma_prot_x, user_mmap_base, user_mmap_end,
}
use sugimotos.Vma.Table.{proc_find_vma_index}
use sugimotos.Vm.{Machine, copy_page, or_if}
use sugimotos.Vm.Table.{vm_query_user_page, vm_unmap_user_page, vm_map_user_page, alloc_page}
use sugimotos.UserSpace.{then_do, with_pages, free_page, inc_ref, dec_ref}

-- `PTE_W_BIT`
abbrev pub pte_w_bit : ℕ
pte_w_bit = 4

-- `~VMA_PROT_W`
abbrev pub not_prot_w : ℕ
not_prot_w = 0xfffffffd

unfoldable pub prot_to_query_bits : ℕ → ℕ
prot_to_query_bits prot =
    or_if prot vma_prot_x 0x8 (or_if prot vma_prot_w 0x4 (or_if prot vma_prot_r 0x2 0))

-- The number of pages that a loop from `from` up to `to` visits.
abbrev pub page_count : ℕ → ℕ → ℕ
page_count from to = (to - from + (page_size - 1)) / page_size

-- The linker's `__free_ram` and `__free_ram_end`.
module _ (free_ram free_ram_end : ℕ) where
  -- The body of the loops of `proc_vm_release` and `proc_vm_reset`.
  unfoldable pub release_page : Machine → ℕ → ℕ → Outcome Machine
  release_page s satp va = elim (vm_query_user_page s.memory satp va) [
    | none ↦ returns s
    | some (pa, _) ↦
        let (memory, ok) = vm_unmap_user_page s.memory satp va in
        if ok
        then free_page free_ram free_ram_end (record s { memory = memory }) pa
        else returns (record s { memory = memory })
  ]

  -- The loop over `n` pages from `va` on.
  unfoldable pub release_pages : ℕ → Machine → ℕ → ℕ → Outcome Machine
  release_pages zero s satp va = returns s
  release_pages (suc n) s satp va =
      then_do (release_page s satp va) λ s'. release_pages n s' satp (add32 va page_size)

  unfoldable pub release_areas : List UserVma → Machine → ℕ → Outcome Machine
  release_areas [] s satp = returns s
  release_areas (v ∷ vs) s satp =
      let released = release_pages (page_count v.start v.end) s satp v.start in
      if not v.used
      then release_areas vs s satp
      else if ltb v.start user_mmap_base || ltb user_mmap_end v.end
      then release_areas vs s satp
      else then_do released λ s'. release_areas vs s' satp

  unfoldable pub proc_vm_release : Machine → Process → Outcome Machine
  proc_vm_release s p =
      if not p.is_user
      then returns s
      else then_do (release_areas p.vmas s p.satp) λ s'.
        if p.satp == 0
        then if not (p.user_stack_paddr == 0) && ltb 0 p.user_stack_pages
          then with_pages s'
              (free_pages free_ram free_ram_end s'.pages p.user_stack_paddr p.user_stack_pages)
          else returns s'
        else release_pages p.user_stack_pages s' p.satp p.user_stack_base

  -- The areas afterwards.
  unfoldable pub reset_areas : List UserVma → Machine → ℕ → Outcome (Machine × List UserVma)
  reset_areas [] s satp = returns (s, [])
  reset_areas (v ∷ vs) s satp =
      let mapped = v.used && (leb user_mmap_base v.start && leb v.end user_mmap_end) in
      let released : Outcome Machine =
        if mapped then release_pages (page_count v.start v.end) s satp v.start else returns s in
      then_do released λ s'.
        then_do (reset_areas vs s' satp)
          λ (s'', ws). returns (s'', (if mapped then no_vma else v) ∷ ws)

  unfoldable pub proc_vm_reset : Machine → Process → Outcome (Machine × Process)
  proc_vm_reset s p =
      then_do (reset_areas p.vmas s p.satp) λ (s', vs). returns (s', record p { vmas = vs })

  -- The end of `clone_page`, with the page mapped in the child or not; the Boolean is false where the
  -- call returns -1.
  unfoldable pub finish_clone : Machine × Bool → ℕ → Option (ℕ × ℕ) → Outcome (Machine × Bool)
  finish_clone (s, false) pa old =
      then_do (dec_ref free_ram free_ram_end s pa) λ s'. returns (s', false)
  finish_clone (s, true) pa none = returns (s, true)
  finish_clone (s, true) pa (some (old_pa, _)) =
      let freed = free_page free_ram free_ram_end s old_pa in
      if old_pa == pa then returns (s, true) else then_do freed λ s'. returns (s', true)

  -- The body of the loop of `proc_vm_clone`.
  unfoldable pub clone_page : Machine → ℕ → ℕ → ℕ → ℕ → Outcome (Machine × Bool)
  clone_page s parent child va cow_prot = elim (vm_query_user_page s.memory parent va) [
    | none ↦ returns (s, true)
    | some (pa, _) ↦
        let old = vm_query_user_page s.memory child va in
        let (s', ok) = vm_map_user_page free_ram free_ram_end s parent va pa cow_prot in
        if not ok
        then returns (s', false)
        else then_do (inc_ref free_ram free_ram_end s' pa) λ s''.
          finish_clone (vm_map_user_page free_ram free_ram_end s'' child va pa cow_prot) pa old
  ]

  -- The loop over `n` pages from `va` on.
  unfoldable pub clone_pages : ℕ → Machine → ℕ → ℕ → ℕ → ℕ → Outcome (Machine × Bool)
  clone_pages zero s parent child va cow_prot = returns (s, true)
  clone_pages (suc n) s parent child va cow_prot =
      then_do (clone_page s parent child va cow_prot) λ (s', ok).
        let rest = clone_pages n s' parent child (add32 va page_size) cow_prot in
        if ok then rest else returns (s', false)

  -- The loop over the areas of the parent.
  unfoldable pub clone_areas : List UserVma → Machine → ℕ → ℕ → Outcome (Machine × Bool)
  clone_areas [] s parent child = returns (s, true)
  clone_areas (v ∷ vs) s parent child =
      let cloned =
        clone_pages (page_count v.start v.end) s parent child v.start (bit_and v.prot not_prot_w) in
      if not v.used || not (has_bit v.prot vma_prot_w)
      then clone_areas vs s parent child
      else then_do cloned
          λ (s', ok). if ok then clone_areas vs s' parent child else returns (s', false)

  unfoldable pub proc_vm_clone : Machine → Process → Process → Outcome (Machine × Bool)
  proc_vm_clone s parent child = clone_areas parent.vmas s parent.satp child.satp

  -- The page at `pa`, which is new, is mapped at `va`, or given back.
  unfoldable pub map_or_free : Machine → ℕ → ℕ → ℕ → ℕ → Outcome (Machine × Bool)
  map_or_free s satp va pa prot =
      let (s', ok) = vm_map_user_page free_ram free_ram_end s satp va pa prot in
      if ok
      then returns (s', true)
      else then_do (free_page free_ram free_ram_end s' pa) λ s''. returns (s'', false)

  -- The end of `proc_try_cow_fault`, from the allocation on.
  unfoldable pub cow_copy : Machine → ℕ → ℕ → ℕ → ℕ → Outcome (Machine × Bool)
  cow_copy s satp va old_pa prot =
      let (s', new_pa) = alloc_page free_ram free_ram_end s in
      let copied : Machine = record s' { memory = copy_page s'.memory new_pa old_pa } in
      if new_pa == 0
      then returns (s', false)
      else then_do (map_or_free copied satp va new_pa prot) (λ (s'', ok).
        if ok
        then then_do (dec_ref free_ram free_ram_end s'' old_pa) (λ t. returns (t, true))
        else returns (s'', false))

  unfoldable pub proc_try_cow_fault : Machine → ℕ → ℕ → UserVma → Outcome (Machine × Bool)
  proc_try_cow_fault s satp va v =
      if not (has_bit v.prot vma_prot_w)
      then returns (s, false)
      else elim (vm_query_user_page s.memory satp va) [
        | none ↦ returns (s, false)
        | some (old_pa, mapped) ↦
            if has_bit mapped pte_w_bit
            then returns (s, false)
            else cow_copy s satp va old_pa v.prot
      ]

  -- `proc_handle_user_page_fault` with the area `v` found, for the page at `va`.
  unfoldable pub fault_in : Machine → ℕ → ℕ → ℕ → UserVma → Outcome (Machine × Bool)
  fault_in s satp va access v =
      let bits = prot_to_query_bits access in
      if not (bit_and v.prot access == access)
      then returns (s, false)
      else elim (vm_query_user_page s.memory satp va) [
        | some (_, mapped) ↦
            if bit_and mapped bits == bits
            then returns (s, true)
            else if access == vma_prot_w
            then proc_try_cow_fault s satp va v
            else returns (s, false)
        | none ↦
            let (s', pa) = alloc_page free_ram free_ram_end s in
            if pa == 0 then returns (s', false) else map_or_free s' satp va pa v.prot
      ]

  -- `none` is the NULL of `current_proc`; the Boolean is false where it returns -1.
  unfoldable pub proc_handle_user_page_fault :
      Machine → Option Process → ℕ → ℕ → Outcome (Machine × Bool)
  proc_handle_user_page_fault s none fault_addr access = returns (s, false)
  proc_handle_user_page_fault s (some p) fault_addr access =
      let va = page_floor fault_addr in
      if not p.is_user
      then returns (s, false)
      else if not (access == vma_prot_x) && not (access == vma_prot_r) && not (access == vma_prot_w)
      then returns (s, false)
      else elim (proc_find_vma_index p.vmas va) [
        | none ↦ returns (s, false)
        | some i ↦ fault_in s p.satp va access (vma_at p.vmas i)
      ]
