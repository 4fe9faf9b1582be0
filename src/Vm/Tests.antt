-- ===== src/Vm/Tests.antt =====
-- Runs of mm/vm.c, on 32 pages of memory.
use sugimotos.Prelude.{
  ℕ, ◌%◌, ◌≡◌, ◌≢◌, ◌⊎◌, refl, sym, ◌∙◌, true, false, none, some, arith, page_size, page_size,
}
use sugimotos.PageAlloc.{returns}
use sugimotos.PageAlloc.Calls.{
  init_allocator_if_needed, page_idx_if_managed, mark_allocated, bump, alloc_pages_try,
}
use sugimotos.PageAlloc.Runs.{take_run}
use sugimotos.Vma.{page_floor, page_ceil}
use sugimotos.Prelude.Bits.{has_bit}
use sugimotos.Vm.{
  Machine, store, clear_page, copy_page, pte_from_pa, pte_perm_from_flags, vm_make_satp,
  vm_root_from_satp, vpn1_of, is_valid, is_leaf,
}
use sugimotos.Vm.Table.{
  query_l0, query_l1, query_root, vm_query_user_page, vm_map_user_page, vm_unmap_user_page,
  split_loop, new_l0, alloc_page, l0_for, vm_map_page, user_flags,
}
use sugimotos.Vm.Build.{
  range_4m_loop, vm_map_range_4m, map_kernel, vm_init, vm_kernel_satp, range_4k_loop,
  vm_map_range_4k, vm_map_identity_segment, map_segments, segments, user_root, map_user,
  finish_user, vm_build_user_satp,
}
use sugimotos.Vm.Space.{IsSpace, Apart}
use sugimotos.Vm.Map.{Mapped}
use sugimotos.Vm.Entry.{mapped_to, user_perm}
use sugimotos.Vm.UserPage.{
  translation, vm_map_user_page-updated, vm_unmap_user_page-updated, vm_map_user_page_isolated,
}
use sugimotos.Vm.Entry.{vm_root_from_satp-make}
use sugimotos.Vm.Tree.{entry_at}
use sugimotos.Vm.Isolation.{Untouched-IsSpace, NewTable-Apart}
use sugimotos.Vm.Untouched.{Untouched, NewTable}
use sugimotos.Vm.Built.{vm_build_user_satp-NewTable}
use sugimotos.Vm.Sample.{
  ram, top, booted, booted_lem, sections, built, sections-AreAddresses, stack_view, built_lem,
}

-- The console and the memory.
kernel_maps :
    (vm_query_user_page booted.memory (vm_kernel_satp booted) 0x10000123 ≡ some (0x10000123, 6))
    × (vm_query_user_page booted.memory (vm_kernel_satp booted) 0x83ffffff ≡ some (0x83ffffff, 14))
    × (vm_query_user_page booted.memory (vm_kernel_satp booted) 0x40000000 ≡ none)
unfolding vm_init alloc_page alloc_pages_try init_allocator_if_needed bump take_run mark_allocated
    page_idx_if_managed vm_query_user_page vm_kernel_satp query_root query_l1 query_l0 map_kernel
    vm_map_range_4m range_4m_loop store clear_page pte_from_pa pte_perm_from_flags has_bit
    vm_make_satp vm_root_from_satp
kernel_maps = (refl, refl, refl)

user_maps :
    (vm_query_user_page (built.0).memory built.1 0x3ffff010 ≡ some (0x80010010, 0x16))
    × (vm_query_user_page (built.0).memory built.1 0x80018004 ≡ some (0x80018004, 0x1a))
    × (vm_query_user_page (built.0).memory built.1 0x80000004 ≡ some (0x80000004, 14))
unfolding vm_init alloc_page alloc_pages_try init_allocator_if_needed bump take_run mark_allocated
    page_idx_if_managed vm_query_user_page vm_kernel_satp query_root query_l1 query_l0 map_kernel
    vm_map_range_4m range_4m_loop store clear_page pte_from_pa pte_perm_from_flags has_bit
    vm_make_satp vm_root_from_satp vm_build_user_satp finish_user map_user user_root segments
    map_segments vm_map_identity_segment vm_map_range_4k range_4k_loop vm_map_page l0_for new_l0
    split_loop copy_page page_floor page_ceil
user_maps = (refl, refl, refl)

vm_build_user_satp-NewTable_example :
    (t : Machine) × (satp : ℕ) × (vm_build_user_satp ram top 0x80016000 0x80017000 sections booted
        0x3ffff000 0x80010000 1
      ≡ returns (t, satp))
    × Untouched ram top booted t
    × ((satp ≡ 0) ⊎ NewTable ram booted satp stack_view t)
vm_build_user_satp-NewTable_example =
    vm_build_user_satp-NewTable ram top refl (omega arith) (omega arith) (omega arith) booted
      booted_lem.0 booted_lem.1 0x80016000 0x80017000 sections 0x3ffff000 0x80010000 1
      sections-AreAddresses refl refl (omega arith) (omega arith) (omega arith)

vm_map_user_page-updated_example :
    (vm_map_user_page ram top built.0 built.1 0x20000000 0x80011000 3 ≡ (built.0, false))
    ⊎ ((t : Machine) × (vm_map_user_page ram top built.0 built.1 0x20000000 0x80011000 3
          ≡ (t, true))
        × (0x20000000 % page_size ≡ 0)
        × (0x80011000 % page_size ≡ 0)
        × Mapped ram top built.0
            (vm_root_from_satp built.1)
            0x20000000
            (mapped_to 0x80011000 (user_perm 3))
            t)
vm_map_user_page-updated_example =
    vm_map_user_page-updated ram top refl (omega arith) (omega arith) (omega arith) built.0 built.1
      0x20000000 0x80011000 3 built_lem.0.allocator built_lem.1.space (omega arith) (omega arith)

vm_unmap_user_page-updated_example :
    let (memory, ok) = vm_unmap_user_page (built.0).memory built.1 0x3ffff000 in
    let pte = entry_at (built.0).memory (vm_root_from_satp built.1) (vpn1_of 0x3ffff000) in
    ((ok ≡ false)
      × (memory ≡ (built.0).memory)
      × ((0x3ffff000 % page_size ≢ 0) ⊎ ((is_valid pte ≡ true) × (is_leaf pte ≡ true))))
    ⊎ ((ok ≡ true)
        × Mapped ram top built.0
            (vm_root_from_satp built.1)
            0x3ffff000
            (λ a. none)
            (record (built.0) { memory = memory }))
vm_unmap_user_page-updated_example =
    vm_unmap_user_page-updated ram top refl (omega arith) (omega arith) (omega arith) built.0
      built.1 0x3ffff000 built_lem.0.allocator built_lem.1.space (omega arith)

-- The kernel's table beside that of the process.
abbrev kernel_satp : ℕ
kernel_satp = vm_make_satp booted.kernel_root_pt

kernel-IsSpace :
    IsSpace ram built.0 (vm_root_from_satp kernel_satp)
    × Apart (built.0).memory (vm_root_from_satp built.1) (vm_root_from_satp kernel_satp)
kernel-IsSpace =
    let k = booted_lem.1.space in
    let back = vm_root_from_satp-make booted.kernel_root_pt k.table.aligned k.table.small in
    let size : (built.0).pages.managed_page_count ≡ booted.pages.managed_page_count =
      built_lem.0.allocator.managed ∙ sym booted_lem.0.managed in
    rw back (
      Untouched-IsSpace booted built.0 size built_lem.0 booted.kernel_root_pt k,
      NewTable-Apart booted built.0 size built_lem.0 booted.kernel_root_pt k built.1 stack_view
          built_lem.1,
    )

abbrev mapped : Machine
mapped = (vm_map_user_page ram top built.0 built.1 0x20000000 0x80011000 3).0

maps : (vm_map_user_page ram top built.0 built.1 0x20000000 0x80011000 3).1 ≡ true
unfolding vm_init alloc_page alloc_pages_try init_allocator_if_needed bump take_run mark_allocated
    page_idx_if_managed vm_query_user_page vm_kernel_satp query_root query_l1 query_l0 map_kernel
    vm_map_range_4m range_4m_loop store clear_page pte_from_pa pte_perm_from_flags has_bit
    vm_make_satp vm_root_from_satp vm_build_user_satp finish_user map_user user_root segments
    map_segments vm_map_identity_segment vm_map_range_4k range_4k_loop vm_map_page l0_for new_l0
    split_loop copy_page page_floor page_ceil vm_map_user_page user_flags
maps = refl

vm_map_user_page_isolated_example :
    ((a : ℕ) → translation mapped kernel_satp a ≡ translation built.0 kernel_satp a)
    × IsSpace ram mapped (vm_root_from_satp kernel_satp)
    × Apart mapped.memory (vm_root_from_satp built.1) (vm_root_from_satp kernel_satp)
vm_map_user_page_isolated_example =
    vm_map_user_page_isolated ram top refl (omega arith) (omega arith) (omega arith) built.0 mapped
      built.1 kernel_satp 0x20000000 0x80011000 3 built_lem.0.allocator built_lem.1.space
      kernel-IsSpace.0 kernel-IsSpace.1 (omega arith) (omega arith) (λ i. (mapped, maps i))
