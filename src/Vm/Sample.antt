-- ===== src/Vm/Sample.antt =====
-- Machines for the runs of mm/vm.c and of what uses it: 32 pages of memory, the kernel's page table in
-- them, and the table of a process.
use sugimotos.Prelude.{ℕ, ◌≡◌, refl, sym, ap, ◌∙◌, true, false, [], Option, ◌==◌, arith, inl, inr}
use sugimotos.PageAlloc.{Allocator, Outcome, panic, returns}
use sugimotos.PageAlloc.Calls.{
  init_allocator_if_needed, page_idx_if_managed, mark_allocated, bump, alloc_pages_try,
}
use sugimotos.PageAlloc.State.{IsAllocator}
use sugimotos.PageAlloc.Runs.{take_run}
use sugimotos.PageAlloc.Start.{init-IsAllocator}
use sugimotos.Vma.User.{UserSections}
use sugimotos.Vma.{page_floor, page_ceil}
use sugimotos.Prelude.Bits.{has_bit}
use sugimotos.Vm.{
  Machine, store, clear_page, copy_page, pte_from_pa, pte_perm_from_flags, vm_make_satp,
  vm_root_from_satp,
}
use sugimotos.Vm.Table.{
  query_l0, query_l1, query_root, vm_query_user_page, split_loop, new_l0, alloc_page, l0_for,
  vm_map_page,
}
use sugimotos.Vm.Build.{
  range_4m_loop, vm_map_range_4m, map_kernel, vm_init, vm_kernel_satp, range_4k_loop,
  vm_map_range_4k, vm_map_identity_segment, map_segments, segments, user_root, map_user,
  finish_user, vm_build_user_satp,
}
use sugimotos.Vm.User.{AreAddresses, user_view}
use sugimotos.Vm.Init.{vm_init-IsKernel}
use sugimotos.Vm.Untouched.{IsKernel, Untouched, NewTable}
use sugimotos.Vm.Built.{vm_build_user_satp-NewTable}

abbrev pub ram : ℕ
ram = 0x80000000

abbrev pub top : ℕ
top = 0x80020000

abbrev blank : Allocator
blank = record {
  free_runs = [];
  free_meta_nodes = 0;
  next_paddr = 0;
  meta_top = 0;
  allocator_initialized = false;
  page_refcnt = [];
  managed_page_count = 0;
  free_meta_oom_warned = false;
}

-- The memory holds no particular values.
abbrev pub fresh : Machine
fresh = record {
  memory = λ a. a;
  pages = (init_allocator_if_needed ram top blank).0;
  kernel_root_pt = 0;
  kernel_satp_value = 0;
}

initialized : (init_allocator_if_needed ram top blank).1 ≡ true
unfolding init_allocator_if_needed
initialized = refl

pub fresh-IsAllocator : IsAllocator ram top fresh.pages
fresh-IsAllocator =
    init-IsAllocator ram top refl (omega arith) (omega arith) (omega arith) blank refl initialized

abbrev pub booted : Machine
booted = (vm_init ram top fresh).0

boots : (vm_init ram top fresh).1 ≡ true
unfolding vm_init alloc_page alloc_pages_try init_allocator_if_needed bump take_run mark_allocated
    page_idx_if_managed
boots = refl

pub booted_lem : IsAllocator ram top booted.pages × IsKernel ram booted
booted_lem =
    elim (vm_init-IsKernel ram top refl (omega arith) (omega arith) (omega arith) fresh
      fresh-IsAllocator) [
        | inl e ↦ let no : false ≡ true = sym (ap (λ r. r.1) e) ∙ boots in absurd (ground arith)
        | inr (t, e, v, k, _) ↦
            let same : t ≡ booted = sym (ap (λ r. r.0) e) in (rw same at v, rw same at k)
      ]

abbrev pub sections : UserSections
sections = record {
  text_start = 0x80018000;
  text_end = 0x80019800;
  rodata_start = 0x8001a000;
  rodata_end = 0x8001a000;
  data_start = 0x8001a000;
  data_end = 0x8001a010;
  bss_start = 0x8001b000;
  bss_end = 0x8001b000;
}

abbrev pub result : Outcome (Machine × ℕ) → Machine × ℕ
result panic = (booted, 0)
result (returns r) = r

-- A process whose stack is the page at 0x80010000.
abbrev pub built : Machine × ℕ
built =
    result
      (vm_build_user_satp ram top 0x80016000 0x80017000 sections booted 0x3ffff000 0x80010000 1)

pub sections-AreAddresses : AreAddresses 0x80016000 0x80017000 sections
sections-AreAddresses = record {
  rodata = omega arith;
  text = omega arith;
  user_rodata = omega arith;
  user_data = omega arith;
  bss = omega arith;
}

abbrev pub stack_view : ℕ → Option (ℕ × ℕ)
stack_view =
    user_view 0x80016000 0x80017000 sections 0x3ffff000 0x80010000 1
      (query_root booted.memory booted.kernel_root_pt)

built_some : (built.1 == 0) ≡ false
unfolding vm_init alloc_page alloc_pages_try init_allocator_if_needed bump take_run mark_allocated
    page_idx_if_managed vm_query_user_page vm_kernel_satp query_root query_l1 query_l0 map_kernel
    vm_map_range_4m range_4m_loop store clear_page pte_from_pa pte_perm_from_flags has_bit
    vm_make_satp vm_root_from_satp vm_build_user_satp finish_user map_user user_root segments
    map_segments vm_map_identity_segment vm_map_range_4k range_4k_loop vm_map_page l0_for new_l0
    split_loop copy_page page_floor page_ceil
built_some = refl

pub built_lem : Untouched ram top booted built.0 × NewTable ram booted built.1 stack_view built.0
built_lem =
    let (t, satp, e, u, o) =
      vm_build_user_satp-NewTable ram top refl (omega arith) (omega arith) (omega arith) booted
        booted_lem.0 booted_lem.1 0x80016000 0x80017000 sections 0x3ffff000 0x80010000 1
        sections-AreAddresses refl refl (omega arith) (omega arith) (omega arith) in
    let same : built ≡ (t, satp) = ap result e in
    let table : NewTable ram booted satp stack_view t = elim o [
      | inl z ↦ absurd (ground (arith, built_some, sym (ap (λ r. r.1) same), z))
      | inr n ↦ n
    ] in
    rw same (u, table)
