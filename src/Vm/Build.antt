-- ===== src/Vm/Build.antt =====
-- mm/vm.c: ranges of pages are mapped, and the tables of the kernel and of a process are built.
use sugimotos.Prelude.{
  ℕ, zero, suc, ◌+◌, ◌-◌, ◌*◌, ◌/◌, Bool, true, false, not, List, [], ◌∷◌, ltb, leb, ◌==◌,
  if◌then◌else◌, page_size, add32, sub32, mul32,
}
use sugimotos.PageAlloc.{Outcome, panic, returns}
use sugimotos.PageAlloc.Calls.{free_pages}
use sugimotos.Vma.{page_floor, page_ceil}
use sugimotos.Vma.User.{UserSections}
use sugimotos.Vm.{
  Memory, Machine, store, clear_page, copy_page, pte_from_pa, pte_perm_from_flags, vpn1_of,
  vm_make_satp, vm_flg_r, vm_flg_w, vm_flg_x, vm_flg_u,
}
use sugimotos.Vm.Table.{alloc_page, vm_map_page}

-- The loop of `vm_map_range_4m` from `off` on, with fuel: one round for each 4 MiB is enough, and all
-- calls are for whole ones.
unfoldable pub range_4m_loop : ℕ → Memory → ℕ → ℕ → ℕ → ℕ → ℕ → ℕ → Memory
range_4m_loop zero m root va pa off len perm = m
range_4m_loop (suc fuel) m root va pa off len perm =
    let entry = pte_from_pa (add32 pa off) perm in
    if ltb off len
    then range_4m_loop fuel (store m (root + vpn1_of (add32 va off) * 4) entry) root va pa
        (add32 off 0x400000) len perm
    else m

unfoldable pub vm_map_range_4m : Memory → ℕ → ℕ → ℕ → ℕ → ℕ → Memory
vm_map_range_4m m root va pa len flags =
    range_4m_loop (len / 0x400000) m root va pa 0 len (pte_perm_from_flags flags)

unfoldable pub vm_kernel_satp : Machine → ℕ
vm_kernel_satp s = s.kernel_satp_value

-- The four ranges that `vm_init` maps to themselves.
unfoldable pub map_kernel : Memory → ℕ → Memory
map_kernel m root =
    let rw = vm_flg_r + vm_flg_w in
    let m1 = vm_map_range_4m m root 0x02000000 0x02000000 0x00400000 rw in
    let m2 = vm_map_range_4m m1 root 0x0c000000 0x0c000000 0x00400000 rw in
    let m3 = vm_map_range_4m m2 root 0x10000000 0x10000000 0x02000000 rw in
    vm_map_range_4m m3 root 0x80000000 0x80000000 0x04000000 (rw + vm_flg_x)

-- `struct vm_identity_segment`
pub record Segment : Type 0 where
  pub start : ℕ
  pub end : ℕ
  pub flags : ℕ

-- The new root: cleared, and filled from the kernel's.
unfoldable pub user_root : Machine → ℕ → Machine
user_root s root = record s { memory = copy_page (clear_page s.memory root) root s.kernel_root_pt }

-- The linker's `__rodata_start` and `__rodata_end`, and those of the user programs.
module _ (rodata_start rodata_end : ℕ) (u : UserSections) where
  unfoldable pub segments : List Segment
  segments =
      record {
        start = page_floor rodata_start;
        end = page_ceil rodata_end;
        flags = vm_flg_r + vm_flg_u;
      }
      ∷ record {
        start = page_floor u.text_start;
        end = page_ceil u.text_end;
        flags = vm_flg_r + vm_flg_x + vm_flg_u;
      }
      ∷ record {
        start = page_floor u.rodata_start;
        end = page_ceil u.rodata_end;
        flags = vm_flg_r + vm_flg_u;
      }
      ∷ record {
        start = page_floor u.data_start;
        end = page_ceil u.data_end;
        flags = vm_flg_r + vm_flg_w + vm_flg_u;
      }
      ∷ record {
        start = page_floor u.bss_start;
        end = page_ceil u.bss_end;
        flags = vm_flg_r + vm_flg_w + vm_flg_u;
      }
      ∷ []

-- The linker's `__free_ram` and `__free_ram_end`.
module _ (free_ram free_ram_end : ℕ) where
  -- The loop of `vm_map_range_4k` from `off` on, with fuel: one round for each page is enough, for a
  -- length of at most 2 ^ 32 - 4096, from where on `off` would wrap. The Boolean is false where it
  -- returns -1.
  unfoldable pub range_4k_loop : ℕ → Machine → ℕ → ℕ → ℕ → ℕ → ℕ → ℕ → Machine × Bool
  range_4k_loop zero s root va pa off len flags = (s, not (ltb off len))
  range_4k_loop (suc fuel) s root va pa off len flags =
      let (s', ok) = vm_map_page free_ram free_ram_end s root (add32 va off) (add32 pa off) flags in
      let rest = range_4k_loop fuel s' root va pa (add32 off page_size) len flags in
      if ltb off len then if ok then rest else (s', false) else (s, true)

  unfoldable pub vm_map_range_4k : Machine → ℕ → ℕ → ℕ → ℕ → ℕ → Machine × Bool
  vm_map_range_4k s root va pa len flags =
      range_4k_loop ((len + (page_size - 1)) / page_size) s root va pa 0 len flags

  unfoldable pub vm_map_identity_segment : Machine → ℕ → ℕ → ℕ → ℕ → Machine × Bool
  vm_map_identity_segment s root start end_ flags =
      if leb end_ start
      then (s, true)
      else vm_map_range_4k s root start start (sub32 end_ start) flags

  -- The Boolean is false where it returns -1. `vm_activate` writes the satp register.
  unfoldable pub vm_init : Machine → Machine × Bool
  vm_init s =
      let (s', root_pa) = alloc_page free_ram free_ram_end s in
      if root_pa == 0 then (s', false) else (
        record s' {
          memory = map_kernel (clear_page s'.memory root_pa) root_pa;
          kernel_root_pt = root_pa;
          kernel_satp_value = vm_make_satp root_pa;
        },
        true,
      )

  -- The loop over `segments`.
  unfoldable pub map_segments : List Segment → Machine → ℕ → Machine × Bool
  map_segments [] s root = (s, true)
  map_segments (g ∷ gs) s root =
      let (s', ok) = vm_map_identity_segment s root g.start g.end g.flags in
      if ok then map_segments gs s' root else (s', false)

  -- The end of the call: at `fail` only the root is given back.
  unfoldable pub finish_user : ℕ → Machine × Bool → Outcome (Machine × ℕ)
  finish_user root (s, true) = returns (s, vm_make_satp root)
  finish_user root (s, false) = elim (free_pages free_ram free_ram_end s.pages root 1) [
    | panic ↦ panic
    | returns pages ↦ returns (record s { pages = pages }, 0)
  ]

  module _ (rodata_start rodata_end : ℕ) (u : UserSections) where
    -- The segments and the stack.
    unfoldable pub map_user : Machine → ℕ → ℕ → ℕ → ℕ → Machine × Bool
    map_user s root base paddr pages =
        let (s', ok) = map_segments (segments rodata_start rodata_end u) s root in
        let mapped =
          vm_map_range_4k s' root base paddr (mul32 pages page_size)
            (vm_flg_r + vm_flg_w + vm_flg_u) in
        if ok then if ltb 0 pages then mapped else (s', true) else (s', false)

    -- 0 is the failure.
    unfoldable pub vm_build_user_satp : Machine → ℕ → ℕ → ℕ → Outcome (Machine × ℕ)
    vm_build_user_satp s base paddr pages =
        let (s', root) = alloc_page free_ram free_ram_end s in
        if root == 0
        then returns (s', 0)
        else finish_user root (map_user (user_root s' root) root base paddr pages)
