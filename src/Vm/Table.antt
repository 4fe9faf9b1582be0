-- ===== src/Vm/Table.antt =====
-- mm/vm.c: one entry of a page table is read, written and cleared.
use sugimotos.Prelude.{
  ℕ, zero, suc, ◌+◌, ◌*◌, ◌/◌, ◌%◌, Bool, true, false, not, ◌&&◌, ◌||◌, Option, none, some, ◌==◌,
  if◌then◌else◌, bit_or, page_size, add32,
}
use sugimotos.Vma.{is_aligned, vma_prot_r, vma_prot_w, vma_prot_x}
use sugimotos.PageAlloc.Calls.{alloc_pages_try}
use sugimotos.Vm.{
  Memory, Machine, store, clear_page, is_valid, is_leaf, prot_of, pte_pa, pte_from_pa, or_if,
  pte_perm_from_flags, vpn1_of, vpn0_of, vm_root_from_satp, vm_flg_r, vm_flg_w, vm_flg_x, vm_flg_u,
}

-- The end of `vm_query_user_page`: what the entry `pte0` of a second-level table gives.
unfoldable pub query_l0 : ℕ → ℕ → Option (ℕ × ℕ)
query_l0 pte0 va =
    if not (is_valid pte0) || not (is_leaf pte0)
    then none
    else some (bit_or (pte_pa pte0) (va % page_size), prot_of pte0)

-- The same from the first-level entry on.
unfoldable pub query_l1 : Memory → ℕ → ℕ → Option (ℕ × ℕ)
query_l1 m pte1 va =
    if not (is_valid pte1)
    then none
    else if is_leaf pte1
    then some (bit_or (pte_pa pte1) (va % 0x400000), prot_of pte1)
    else query_l0 (m (pte_pa pte1 + vpn0_of va * 4)) va

-- The same for the table at `root`.
unfoldable pub query_root : Memory → ℕ → ℕ → Option (ℕ × ℕ)
query_root m root va = query_l1 m (m (root + vpn1_of va * 4)) va

-- `*pa_out` and `*prot_out`; `none` is the return of 0.
unfoldable pub vm_query_user_page : Memory → ℕ → ℕ → Option (ℕ × ℕ)
vm_query_user_page m satp va = query_root m (vm_root_from_satp satp) va

-- False where it returns -1.
unfoldable pub vm_unmap_user_page : Memory → ℕ → ℕ → Memory × Bool
vm_unmap_user_page m satp va =
    let root = vm_root_from_satp satp in
    let pte1 = m (root + vpn1_of va * 4) in
    if not (is_aligned va)
    then (m, false)
    else if not (is_valid pte1)
    then (m, true)
    else if is_leaf pte1
    then (m, false)
    else (store m (pte_pa pte1 + vpn0_of va * 4) 0, true)

-- The loop that fills a second-level table with the 4 KiB pages of a 4 MiB page, for `n` entries from
-- entry `i` on.
unfoldable pub split_loop : ℕ → Memory → ℕ → ℕ → ℕ → ℕ → Memory
split_loop zero m l0 pa4m perm i = m
split_loop (suc n) m l0 pa4m perm i =
    split_loop n (store m (l0 + i * 4) (pte_from_pa (add32 pa4m (i * page_size)) perm)) l0 pa4m perm
      (i + 1)

-- `pte1 & (PTE_R | PTE_W | PTE_X | PTE_U | PTE_A | PTE_D)`
abbrev pub perm_of : ℕ → ℕ
perm_of pte = prot_of pte + pte / 64 % 4 * 64

-- `((pte1 >> 10) << 12) & ~0x003fffff`
abbrev pub pa4m_of : ℕ → ℕ
pa4m_of pte = pte_pa pte / 0x400000 * 0x400000

-- The new second-level table at `l0_pa`, from its allocation to its entry in the root.
unfoldable pub new_l0 : Memory → ℕ → ℕ → ℕ → Memory
new_l0 m root vpn1 l0_pa =
    let pte1 = m (root + vpn1 * 4) in
    let cleared = clear_page m l0_pa in
    let filled : Memory =
      if is_valid pte1 && is_leaf pte1
      then split_loop 1024 cleared l0_pa (pa4m_of pte1) (perm_of pte1) 0
      else cleared in
    store filled (root + vpn1 * 4) (bit_or (l0_pa / page_size * 0x400) 0x1)

-- The flags that `vm_map_user_page` makes of `prot`.
unfoldable pub user_flags : ℕ → ℕ
user_flags prot =
    bit_or
      (or_if prot vma_prot_x vm_flg_x
        (or_if prot vma_prot_w vm_flg_w (or_if prot vma_prot_r vm_flg_r 0)))
      vm_flg_u

-- The linker's `__free_ram` and `__free_ram_end`.
module _ (free_ram free_ram_end : ℕ) where
  -- `alloc_pages_try(1)`, which clears the page it returns.
  unfoldable pub alloc_page : Machine → Machine × ℕ
  alloc_page s =
      let (pages, pa) = alloc_pages_try free_ram free_ram_end s.pages 1 in
      if pa == 0
      then (record s { pages = pages }, 0)
      else (record s { pages = pages; memory = clear_page s.memory pa }, pa)

  -- The second-level table for the entry `vpn1`; `none` is the return of -1.
  unfoldable pub l0_for : Machine → ℕ → ℕ → Machine × Option ℕ
  l0_for s root vpn1 =
      let pte1 = s.memory (root + vpn1 * 4) in
      let (s', l0_pa) = alloc_page s in
      if not (is_valid pte1) || is_leaf pte1
      then if l0_pa == 0
        then (s', none)
        else (record s' { memory = new_l0 s'.memory root vpn1 l0_pa }, some l0_pa)
      else (s, some (pte_pa pte1))

  -- The Boolean is false where it returns -1.
  unfoldable pub vm_map_page : Machine → ℕ → ℕ → ℕ → ℕ → Machine × Bool
  vm_map_page s root va pa flags =
      let (s', l0) = l0_for s root (vpn1_of va) in
      elim l0 [
        | none ↦ (s', false)
        | some l0 ↦ (
          record s' {
            memory =
                store s'.memory (l0 + vpn0_of va * 4) (pte_from_pa pa (pte_perm_from_flags flags));
          },
          true,
        )
      ]

  unfoldable pub vm_map_user_page : Machine → ℕ → ℕ → ℕ → ℕ → Machine × Bool
  vm_map_user_page s satp va pa prot =
      if not (is_aligned va) || not (is_aligned pa)
      then (s, false)
      else vm_map_page s (vm_root_from_satp satp) va pa (user_flags prot)
