-- ===== src/UserSpace/Tests.antt =====
-- Runs of mm/process_vm.c on the machine of Vm/Sample.
use sugimotos.Prelude.{◌≡◌, refl, sym, ◌∙◌, true, [], ◌∷◌, none, some, arith}
use sugimotos.Prelude.Bits.{has_bit}
use sugimotos.Proc.{Process, zero_process}
use sugimotos.PageAlloc.Runs.{take_run}
use sugimotos.PageAlloc.Calls.{
  init_allocator_if_needed, page_idx_if_managed, mark_allocated, bump, alloc_pages_try,
}
use sugimotos.Vma.{page_floor, page_ceil}
use sugimotos.Vm.{
  store, clear_page, copy_page, pte_from_pa, pte_perm_from_flags, vm_make_satp, vm_root_from_satp,
}
use sugimotos.Vm.Table.{
  query_l0, query_l1, query_root, vm_query_user_page, split_loop, new_l0, alloc_page, l0_for,
  vm_map_page,
}
use sugimotos.Vm.Build.{
  range_4m_loop, vm_map_range_4m, map_kernel, vm_init, vm_kernel_satp, range_4k_loop,
  vm_map_range_4k, vm_map_identity_segment, map_segments, segments, user_root, map_user,
  finish_user, vm_build_user_satp,
}
use sugimotos.Vm.UserPage.{translation}
use sugimotos.Vm.Sample.{ram, top, built, built_lem}
use sugimotos.UserSpace.Calls.{proc_handle_user_page_fault}
use sugimotos.UserSpace.Fault.{Served}
use sugimotos.UserSpace.Serve.{IsUserPage, proc_handle_user_page_fault-Served}

-- A process with a page of memory at 0x20000000 that it has not touched yet.
abbrev user : Process
user = record zero_process {
  pid = 1;
  is_user = true;
  satp = built.1;
  vmas = record { used = true; start = 0x20000000; end = 0x20001000; prot = 3 } ∷ [];
}

unmapped : translation built.0 built.1 0x20000000 ≡ none
unfolding vm_init alloc_page alloc_pages_try init_allocator_if_needed bump take_run mark_allocated
    page_idx_if_managed vm_query_user_page vm_kernel_satp query_root query_l1 query_l0 map_kernel
    vm_map_range_4m range_4m_loop store clear_page pte_from_pa pte_perm_from_flags has_bit
    vm_make_satp vm_root_from_satp vm_build_user_satp finish_user map_user user_root segments
    map_segments vm_map_identity_segment vm_map_range_4k range_4k_loop vm_map_page l0_for new_l0
    split_loop copy_page page_floor page_ceil
unmapped = refl

first_touch : IsUserPage ram built.0 built.1 0x20000000
first_touch = λ pa prot e. absurd (ground (arith, sym unmapped ∙ e))

proc_handle_user_page_fault-Served_example :
    Served ram top built.0 built.1
      (page_floor 0x20000123)
      2
      (proc_handle_user_page_fault ram top built.0 (some user) 0x20000123 2)
unfolding page_floor
proc_handle_user_page_fault-Served_example =
    proc_handle_user_page_fault-Served ram top refl (omega arith) (omega arith) (omega arith)
      built.0 built_lem.0.allocator user 0x20000123 2 built_lem.1.space (omega arith) first_touch
