-- ===== src/Vma/Mmap.antt =====
-- mm/process_vm.c: `proc_mmap`.
use sugimotos.Prelude.{
  ℕ, zero, suc, ◌+◌, ◌-◌, not, ◌||◌, ◌&&◌, List, [], ◌∷◌, Option, none, some, ltb, leb, ◌==◌,
  if◌then◌else◌, add32, bit_and,
}
use sugimotos.Proc.{UserVma, Process}
use sugimotos.Vma.{Pages, is_aligned, page_ceil, user_mmap_base, user_mmap_end, map_fixed}
use sugimotos.Vma.Table.{proc_range_overlaps_any_vma, proc_add_vma}
use sugimotos.Vma.Munmap.{proc_munmap}

-- The end of the first area that the range overlaps.
unfoldable pub first_overlap : List UserVma → ℕ → ℕ → Option ℕ
first_overlap [] addr end_ = none
first_overlap (v ∷ vs) addr end_ =
    if v.used && (ltb addr v.end && ltb v.start end_)
    then some v.end
    else first_overlap vs addr end_

-- The loop of `proc_find_free_mmap_range`, with fuel.
unfoldable pub free_range_loop : ℕ → List UserVma → ℕ → ℕ → Option ℕ
free_range_loop zero vs addr len = none
free_range_loop (suc fuel) vs addr len =
    if ltb (add32 addr len) addr || ltb user_mmap_end (add32 addr len)
    then none
    else elim (first_overlap vs addr (add32 addr len)) [
      | none ↦ some addr
      | some ve ↦ free_range_loop fuel vs (page_ceil ve) len
    ]

-- Each round raises `addr`, which stays up to the end of the region: its size is fuel enough.
unfoldable pub proc_find_free_mmap_range : List UserVma → ℕ → Option ℕ
proc_find_free_mmap_range vs len =
    free_range_loop (user_mmap_end - user_mmap_base + 1) vs user_mmap_base len

-- The address without `MAP_FIXED`: the hint if it will do, else the first free one.
unfoldable pub choose_addr : List UserVma → ℕ → ℕ → Option ℕ
choose_addr vs hint len =
    let end_ = add32 hint len in
    if (not (hint == 0) && is_aligned hint)
      && (leb user_mmap_base hint
          && leb end_ user_mmap_end
          && leb hint end_
          && not (proc_range_overlaps_any_vma vs hint end_))
    then some hint
    else proc_find_free_mmap_range vs len

-- The end of `proc_mmap`: the area is added.
unfoldable pub map_at : Process → ℕ → ℕ → ℕ → Process × Option ℕ
map_at p addr len prot = elim (proc_add_vma p.vmas addr (add32 addr len) prot) [
  | none ↦ (p, none)
  | some vs ↦ (record p { vmas = vs }, some addr)
]

module _ {M : Type 0} (pages : Pages M) where
  unfoldable pub map_fixed_at : M → Process → ℕ → ℕ → ℕ → M × Process × Option ℕ
  map_fixed_at m p addr len prot =
      let (m', p', ok) = proc_munmap pages m p addr len in
      if not (is_aligned addr)
      then (m, p, none)
      else if ltb addr user_mmap_base
          || ltb user_mmap_end (add32 addr len)
          || ltb (add32 addr len) addr
      then (m, p, none)
      else if not ok
      then (m', p', none)
      else (m', (map_at p' addr len prot).0, (map_at p' addr len prot).1)

  unfoldable pub map_anywhere : M → Process → ℕ → ℕ → ℕ → M × Process × Option ℕ
  map_anywhere m p hint len prot = elim (choose_addr p.vmas hint len) [
    | none ↦ (m, p, none)
    | some addr ↦ (m, (map_at p addr len prot).0, (map_at p addr len prot).1)
  ]

  -- The call for the process `p`; `none` is -1.
  unfoldable pub proc_mmap : M → Process → ℕ → ℕ → ℕ → ℕ → M × Process × Option ℕ
  proc_mmap m p hint len prot flags =
      if not p.is_user
      then (m, p, none)
      else if len == 0
      then (m, p, none)
      else if leb 8 prot || prot == 0
      then (m, p, none)
      else if not (bit_and flags map_fixed == 0)
      then map_fixed_at m p hint (page_ceil len) prot
      else map_anywhere m p hint (page_ceil len) prot
