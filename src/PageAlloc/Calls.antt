-- ===== src/PageAlloc/Calls.antt =====
-- mm/page_alloc.c: the calls.
use sugimotos.Prelude.{
  ℕ, zero, suc, ◌+◌, ◌-◌, ◌*◌, ◌/◌, ◌%◌, ◌^◌, Bool, true, false, not, ◌||◌, [], Option, none, some,
  ltb, leb, ◌==◌, if◌then◌else◌, add32, sub32, mul32, page_size, get_or, set, replicate,
}
use sugimotos.PageAlloc.{Allocator, Outcome, panic, returns, page_run_size}
use sugimotos.PageAlloc.Runs.{
  Plan, overlap, grown, merged, needs_first, needs_node, insert_page, coalesce_free_runs, take_run,
}

unfoldable pub alloc_run_node : Allocator → Allocator × Bool
alloc_run_node s =
    let new_top = sub32 s.meta_top page_run_size / 4 * 4 in
    if ltb 0 s.free_meta_nodes
    then (record s { free_meta_nodes = s.free_meta_nodes - 1 }, true)
    else if leb new_top s.next_paddr
    then (s, false)
    else (record s { meta_top = new_top }, true)

-- The Boolean is false where it returns -1.
unfoldable pub apply_plan : Allocator → Plan → Outcome (Allocator × Bool)
apply_plan s overlap = panic
apply_plan s (grown rs) = returns (record s { free_runs = rs }, true)
apply_plan s (merged rs) =
    returns (record s { free_runs = rs; free_meta_nodes = s.free_meta_nodes + 1 }, true)
apply_plan s (needs_first rs) =
    let (s', ok) = alloc_run_node s in
    if ok then returns (record s' { free_runs = rs }, true) else returns (s', false)
apply_plan s (needs_node rs) =
    let (s', ok) = alloc_run_node s in
    let (joined, released) = coalesce_free_runs rs in
    if ok
    then returns
        (record s' { free_runs = joined; free_meta_nodes = s'.free_meta_nodes + released }, true)
    else returns (s', false)

unfoldable pub free_single_page_raw : Allocator → ℕ → Outcome (Allocator × Bool)
free_single_page_raw s paddr = apply_plan s (insert_page s.free_runs paddr)

-- The linker's `__free_ram` and `__free_ram_end`.
module _ (free_ram free_ram_end : ℕ) where
  unfoldable pub init_allocator_if_needed : Allocator → Allocator × Bool
  init_allocator_if_needed s =
      let count = (free_ram_end - free_ram) / page_size in
      let ref_top = sub32 free_ram_end (mul32 count 2) / 4 * 4 in
      let blank : Allocator = record s {
        free_runs = [];
        free_meta_nodes = 0;
        next_paddr = free_ram;
        meta_top = free_ram_end;
        managed_page_count = count;
      } in
      if s.allocator_initialized
      then (s, true)
      else if leb ref_top free_ram
      then (blank, false)
      else (
        record blank {
          meta_top = ref_top;
          page_refcnt = replicate count 0;
          allocator_initialized = true;
        },
        true,
      )

  unfoldable pub page_idx_if_managed : Allocator → ℕ → Option ℕ
  page_idx_if_managed s paddr =
      let idx = (paddr - free_ram) / page_size in
      if ltb paddr free_ram || leb free_ram_end paddr
      then none
      else if not (paddr % page_size == 0)
      then none
      else if leb s.managed_page_count idx
      then none
      else some idx

  -- The loop that gives `n` pages from `paddr` on the count 1.
  unfoldable pub mark_allocated : ℕ → Allocator → ℕ → Allocator
  mark_allocated zero s paddr = s
  mark_allocated (suc n) s paddr =
      let s' : Allocator = elim (page_idx_if_managed s paddr) [
        | none ↦ s
        | some idx ↦ record s { page_refcnt = set s.page_refcnt idx 1 }
      ] in
      mark_allocated n s' (add32 paddr page_size)

  -- The pages come from the memory that was never given out.
  unfoldable pub bump : Allocator → ℕ → Allocator × ℕ
  bump s n =
      let new_next = add32 s.next_paddr (mul32 n page_size) in
      if ltb s.meta_top new_next || ltb new_next s.next_paddr
      then (s, 0)
      else (mark_allocated n (record s { next_paddr = new_next }) s.next_paddr, s.next_paddr)

  -- 0 is the failure. The pages are cleared too, which the model of their contents is not part of.
  unfoldable pub alloc_pages_try : Allocator → ℕ → Allocator × ℕ
  alloc_pages_try s₀ n =
      let (s, ok) = init_allocator_if_needed s₀ in
      if not ok then (s, 0) else if n == 0 then (s, 0) else elim (take_run s.free_runs n) [
        | none ↦ bump s n
        | some (paddr, rs, emptied) ↦
            let nodes = if emptied then s.free_meta_nodes + 1 else s.free_meta_nodes in
            (mark_allocated n (record s { free_runs = rs; free_meta_nodes = nodes }) paddr, paddr)
      ]

  unfoldable pub alloc_pages : Allocator → ℕ → Allocator × ℕ
  alloc_pages s n = alloc_pages_try s n

  -- The end of `free_pages` and `page_dec_ref` for one page: where no node can be had, the page is
  -- leaked with the count 1.
  unfoldable pub or_leak : Allocator → ℕ → Outcome (Allocator × Bool) → Outcome Allocator
  or_leak s idx panic = panic
  or_leak s idx (returns (s', true)) = returns s'
  or_leak s idx (returns (s', false)) =
      returns (record s' { page_refcnt = set s'.page_refcnt idx 1; free_meta_oom_warned = true })

  unfoldable pub drop_ref : Allocator → ℕ → ℕ → Outcome Allocator
  drop_ref s idx paddr =
      let count = get_or s.page_refcnt idx 0 in
      let s' : Allocator = record s { page_refcnt = set s.page_refcnt idx (count - 1) } in
      if count == 0
      then panic
      else if count == 1
      then or_leak s' idx (free_single_page_raw s' paddr)
      else returns s'

  unfoldable pub free_loop : ℕ → Allocator → ℕ → Outcome Allocator
  free_loop zero s paddr = returns s
  free_loop (suc n) s paddr = elim (page_idx_if_managed s paddr) [
    | none ↦ free_loop n s (add32 paddr page_size)
    | some idx ↦ elim (drop_ref s idx paddr) [
      | panic ↦ panic
      | returns s' ↦ free_loop n s' (add32 paddr page_size)
    ]
  ]

  unfoldable pub free_pages : Allocator → ℕ → ℕ → Outcome Allocator
  free_pages s₀ paddr n =
      let (s, ok) = init_allocator_if_needed s₀ in
      if not ok
      then panic
      else if n == 0
      then panic
      else if not (paddr % page_size == 0)
      then panic
      else if ltb paddr free_ram || ltb free_ram_end (paddr + n * page_size)
      then panic
      else free_loop n s paddr

  unfoldable pub page_inc_ref : Allocator → ℕ → Outcome Allocator
  page_inc_ref s₀ paddr =
      let (s, ok) = init_allocator_if_needed s₀ in
      if not ok then panic else elim (page_idx_if_managed s paddr) [
        | none ↦ returns s
        | some idx ↦
            let count = get_or s.page_refcnt idx 0 in
            if count == 0
            then panic
            else returns (record s { page_refcnt = set s.page_refcnt idx ((count + 1) % 2 ^ 16) })
      ]

  unfoldable pub page_dec_ref : Allocator → ℕ → Outcome Allocator
  page_dec_ref s₀ paddr =
      let (s, ok) = init_allocator_if_needed s₀ in
      if not ok
      then panic
      else elim (page_idx_if_managed s paddr) [ none ↦ returns s | some idx ↦ drop_ref s idx paddr ]
