-- ===== src/Vma/Tests.antt =====
-- Runs of mm/process_vm.c.
use sugimotos.Prelude.{
  ℕ, ◌+◌, ◌^◌, ◌<◌, ◌≡◌, ◌↔◌, ◌⊎◌, refl, Bool, true, List, replicate, Option, none, some, arith,
  bit_and,
}
use sugimotos.Proc.{UserVma, Process, zero_process, no_vma, proc_vma_max}
use sugimotos.Vma.{Pages, page_ceil, page_floor}
use sugimotos.Vma.Inv.{IsVmas, Holds, empty-IsVmas}
use sugimotos.Vma.Table.{
  find_free_from, proc_find_free_vma_slot, conflicts, proc_add_vma, proc_vma_range_ok,
}
use sugimotos.Vma.Range.{Covered, proc_vma_range_ok_iff}
use sugimotos.Vma.Add.{proc_add_vma_adds}
use sugimotos.Vma.Munmap.{
  cut_vma, munmap_slot, munmap_loop, finish_munmap, unmap_pages, proc_munmap,
}
use sugimotos.Vma.Unmapped.{Unmapped, proc_munmap_wraps}
use sugimotos.Vma.Mmap.{
  first_overlap, free_range_loop, proc_find_free_mmap_range, choose_addr, map_at, map_anywhere,
  proc_mmap,
}
use sugimotos.Vma.Free.{FirstFree, proc_find_free_mmap_range-FirstFree}
use sugimotos.Vma.User.{
  UserSections, proc_user_cstr_ok, cstr_loop, argv_loop, proc_user_exec_argv_ok, add_section,
  proc_vm_init,
}
use sugimotos.Vma.Pointers.{
  EndsWithin, ArgvEnds, proc_user_cstr_ok_iff, proc_user_exec_argv_ok-ArgvEnds,
}
use sugimotos.Vma.Init.{InSection, proc_vm_init_areas}
use sugimotos.Vma.Table.{range_loop, proc_find_vma_index, find_vma_from}
use sugimotos.Prelude.{◌==◌, if◌then◌else◌, add32, mul32, page_size}
use sugimotos.Vma.Mapped.{Mapped, NoneHeld, proc_mmap-Mapped}

abbrev no_areas : List UserVma
no_areas = replicate proc_vma_max no_vma

abbrev get : Option (List UserVma) → List UserVma
get none = no_areas
get (some vs) = vs

-- Four pages at the start of the mmap region.
abbrev one_area : List UserVma
one_area = get (proc_add_vma no_areas 0x20000000 0x20004000 3)

one_area-added : proc_add_vma no_areas 0x20000000 0x20004000 3 ≡ some one_area
unfolding proc_add_vma conflicts proc_find_free_vma_slot find_free_from
one_area-added = refl

one_area-IsVmas : IsVmas one_area
one_area-IsVmas =
    (proc_add_vma_adds no_areas one_area 0x20000000 0x20004000 3 empty-IsVmas (omega arith)
      one_area-added).0

abbrev user : Process
user = record zero_process { is_user = true; vmas = one_area }

-- A memory in which nothing is mapped.
abbrev no_pages : Pages Bool
no_pages = record {
  query_user_page = λ m satp va. none;
  unmap_user_page = λ m satp va. none;
  free_page = λ m pa. m;
}

proc_vma_range_ok_iff_example : (proc_vma_range_ok user 0x20000ff0 32 1 ≡ true) ↔ (
    (user.is_user ≡ true)
    × (0 < 32)
    × (0x20000ff0 + 32 < 2 ^ 32)
    × Covered user.vmas 0x20000ff0 (0x20000ff0 + 32) 1)
proc_vma_range_ok_iff_example =
    proc_vma_range_ok_iff user 0x20000ff0 32 1 one_area-IsVmas (omega arith) (omega arith)

splits : (proc_munmap no_pages true user 0x20001000 4000).2 ≡ true
unfolding proc_munmap munmap_loop munmap_slot cut_vma finish_munmap unmap_pages page_ceil page_floor
    proc_add_vma conflicts proc_find_free_vma_slot find_free_from
splits = refl

proc_munmap_wraps_example :
    proc_munmap no_pages true user 0x20001000 0xfffffff0 ≡ (true, user, true)
proc_munmap_wraps_example =
    proc_munmap_wraps no_pages true user 0x20001000 0xfffffff0 refl (omega arith) (omega arith)
      (omega arith) (omega arith) (omega arith)

proc_find_free_mmap_range-FirstFree_example :
    FirstFree one_area 0x2000 (proc_find_free_mmap_range one_area 0x2000)
proc_find_free_mmap_range-FirstFree_example =
    proc_find_free_mmap_range-FirstFree one_area 0x2000 one_area-IsVmas (omega arith)

maps : (proc_mmap no_pages true user 0 5000 1 2).2 ≡ some 0x20004000
unfolding proc_mmap map_anywhere choose_addr proc_find_free_mmap_range free_range_loop first_overlap
    map_at page_ceil page_floor proc_add_vma conflicts proc_find_free_vma_slot find_free_from
maps = refl

proc_mmap-Mapped_example :
    Mapped user.vmas (proc_mmap no_pages true user 0 5000 1 2).1.vmas 0x20004000 (page_ceil 5000) 1
    × (bit_and 2 4 ≡ 0 → NoneHeld user.vmas 0x20004000 (0x20004000 + page_ceil 5000))
proc_mmap-Mapped_example =
    proc_mmap-Mapped no_pages true user one_area-IsVmas 0 5000 1 2 0x20004000 (omega arith) maps

-- The string "a" lies at the start of the area.
abbrev memory : ℕ → ℕ
memory a = if a == 0x20000000 then b'a' else 0

proc_user_cstr_ok_iff_example :
    (proc_user_cstr_ok memory (some user) 0x20000000 16 ≡ true)
    ↔ EndsWithin memory user 0x20000000 0 16
proc_user_cstr_ok_iff_example = proc_user_cstr_ok_iff memory user 0x20000000 16 refl (omega arith)

-- One argument, the string at the start of the area; its vector lies 256 bytes further on.
abbrev words : ℕ → ℕ
words a = if a == 0x20000100 then 0x20000000 else 0

one_argument : proc_user_exec_argv_ok memory words (some user) 0x20000100 ≡ some 1
unfolding proc_user_exec_argv_ok argv_loop proc_user_cstr_ok cstr_loop proc_vma_range_ok range_loop
    proc_find_vma_index find_vma_from proc_add_vma conflicts proc_find_free_vma_slot find_free_from
one_argument = refl

proc_user_exec_argv_ok-ArgvEnds_example : ArgvEnds memory words user 0x20000100 0 32 1
proc_user_exec_argv_ok-ArgvEnds_example =
    proc_user_exec_argv_ok-ArgvEnds memory words user 0x20000100 1 (omega arith) one_argument

abbrev sections : UserSections
sections = record {
  text_start = 0x80300000;
  text_end = 0x80304321;
  rodata_start = 0x80305000;
  rodata_end = 0x80305100;
  data_start = 0x80306000;
  data_end = 0x80306000;
  bss_start = 0x80306000;
  bss_end = 0x80307010;
}

abbrev fresh : Process
fresh = record zero_process { is_user = true; user_stack_base = 0x7fff0000; user_stack_pages = 4 }

proc_vm_init_succeeds : (proc_vm_init sections fresh).1 ≡ true
unfolding proc_vm_init add_section page_floor page_ceil proc_add_vma conflicts
    proc_find_free_vma_slot find_free_from
proc_vm_init_succeeds = refl

proc_vm_init_areas_example :
    let (vs, ok) = proc_vm_init sections fresh in
    IsVmas vs
    × (ok ≡ true
        → (b q : ℕ)
        → Holds vs b q ↔ (
            InSection (page_floor 0x80300000) (page_ceil 0x80304321) 5 b q
            ⊎ InSection (page_floor 0x80305000) (page_ceil 0x80305100) 1 b q
            ⊎ InSection (page_floor 0x80306000) (page_ceil 0x80306000) 3 b q
            ⊎ InSection (page_floor 0x80306000) (page_ceil 0x80307010) 3 b q
            ⊎ InSection 0x7fff0000 (add32 0x7fff0000 (mul32 4 page_size)) 3 b q))
proc_vm_init_areas_example = proc_vm_init_areas sections fresh
