-- ===== src/Vma/Munmap.antt =====
-- mm/process_vm.c: `proc_munmap`.
use sugimotos.Prelude.{
  ℕ, zero, suc, ◌+◌, ◌-◌, ◌/◌, Bool, true, false, not, ◌||◌, ◌&&◌, List, Option, none, some, ltb,
  leb, ◌==◌, if◌then◌else◌, set, add32, page_size,
}
use sugimotos.Proc.{UserVma, Process, no_vma, proc_vma_max}
use sugimotos.Vma.{Pages, vma_at, is_aligned, page_ceil, user_mmap_base, user_mmap_end}
use sugimotos.Vma.Table.{proc_find_free_vma_slot}

-- The change of area `i`, where `cut_s` up to `cut_e` is to go from it. `none` is the return of -1.
unfoldable pub cut_vma : List UserVma → ℕ → ℕ → ℕ → List UserVma × Option Bool
cut_vma vs i cut_s cut_e =
    let v = vma_at vs i in
    if cut_s == v.start && cut_e == v.end
    then (set vs i no_vma, some true)
    else if cut_s == v.start
    then (set vs i (record v { start = cut_e }), some true)
    else if cut_e == v.end
    then (set vs i (record v { end = cut_s }), some true)
    else elim (proc_find_free_vma_slot vs) [
      | none ↦ (vs, none)
      | some j ↦ (
        set (set vs j (record { used = true; start = cut_e; end = v.end; prot = v.prot })) i
            (record v { end = cut_s }),
        some true,
      )
    ]

-- The body of the first loop for area `i`, and whether it changed the area.
unfoldable pub munmap_slot : List UserVma → ℕ → ℕ → ℕ → List UserVma × Option Bool
munmap_slot vs i addr end_ =
    let v = vma_at vs i in
    if not v.used
    then (vs, some false)
    else if leb v.end addr || leb end_ v.start
    then (vs, some false)
    else let cut_s = if ltb v.start addr then addr else v.start in
      let cut_e = if ltb end_ v.end then end_ else v.end in
      if leb cut_e cut_s then (vs, some false) else cut_vma vs i cut_s cut_e

-- The first loop, for `n` areas from area `i` on.
unfoldable pub munmap_loop : ℕ → ℕ → List UserVma → Bool → ℕ → ℕ → List UserVma × Option Bool
munmap_loop zero i vs changed addr end_ = (vs, some changed)
munmap_loop (suc n) i vs changed addr end_ =
    let (vs', r) = munmap_slot vs i addr end_ in
    elim r [ none ↦ (vs', none) | some c ↦ munmap_loop n (i + 1) vs' (changed || c) addr end_ ]

module _ {M : Type 0} (pages : Pages M) where
  -- The second loop, for `n` pages from `va` on.
  unfoldable pub unmap_pages : ℕ → M → ℕ → ℕ → M
  unmap_pages zero m satp va = m
  unmap_pages (suc n) m satp va =
      let m' : M = elim (pages.query_user_page m satp va) [
        | none ↦ m
        | some pa ↦ elim (pages.unmap_user_page m satp va) [
          | none ↦ m
          | some m1 ↦ pages.free_page m1 pa
        ]
      ] in
      unmap_pages n m' satp (va + page_size)

  -- The end of the call, from the outcome of the first loop on.
  unfoldable pub finish_munmap :
      M → Process → ℕ → ℕ → List UserVma × Option Bool → M × Process × Bool
  finish_munmap m p addr end_ (vs, none) = (m, record p { vmas = vs }, false)
  finish_munmap m p addr end_ (vs, some false) = (m, record p { vmas = vs }, true)
  finish_munmap m p addr end_ (vs, some true) =
      (unmap_pages ((end_ - addr) / page_size) m p.satp addr, record p { vmas = vs }, true)

  -- The call for the process `p`: the memory and the process afterwards, and whether it returns 0.
  unfoldable pub proc_munmap : M → Process → ℕ → ℕ → M × Process × Bool
  proc_munmap m p addr len =
      let end_ = add32 addr (page_ceil len) in
      if not p.is_user || not (is_aligned addr) || len == 0
      then (m, p, false)
      else if ltb end_ addr
      then (m, p, false)
      else if ltb addr user_mmap_base || ltb user_mmap_end end_
      then (m, p, false)
      else finish_munmap m p addr end_ (munmap_loop proc_vma_max 0 p.vmas false addr end_)
