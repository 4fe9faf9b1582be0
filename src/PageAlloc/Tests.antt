-- ===== src/PageAlloc/Tests.antt =====
-- Runs of mm/page_alloc.c, on eight pages of memory.
use sugimotos.Prelude.{ℕ, ◌^◌, ◌≡◌, refl, true, false, List, [], ◌∷◌, arith}
use sugimotos.PageAlloc.{PageRun, Allocator}
use sugimotos.PageAlloc.State.{IsAllocator}
use sugimotos.PageAlloc.Alloc.{Allocated, alloc_pages_try-Allocated}
use sugimotos.PageAlloc.Start.{init-IsAllocator, alloc_pages_try_wraps}
use sugimotos.PageAlloc.Calls.{init_allocator_if_needed, alloc_pages_try}

abbrev ram : ℕ
ram = 0x10000

abbrev top : ℕ
top = 0x18000

abbrev boot : Allocator
boot = record {
  free_runs = [];
  free_meta_nodes = 0;
  next_paddr = 0;
  meta_top = 0;
  allocator_initialized = false;
  page_refcnt = [];
  managed_page_count = 0;
  free_meta_oom_warned = false;
}

abbrev first : Allocator
first = (init_allocator_if_needed ram top boot).0

starts : (init_allocator_if_needed ram top boot).1 ≡ true
unfolding init_allocator_if_needed
starts = refl

first-IsAllocator : IsAllocator ram top first
first-IsAllocator =
    init-IsAllocator ram top refl (omega arith) (omega arith) (omega arith) boot refl starts

-- Three pages are given out.
abbrev three : Allocator
three = (alloc_pages_try ram top first 3).0

alloc_pages_try-Allocated_example :
    Allocated ram top refl
      (omega arith)
      (omega arith)
      (omega arith)
      first
      3
      (alloc_pages_try ram top first 3)
alloc_pages_try-Allocated_example =
    alloc_pages_try-Allocated ram top refl (omega arith) (omega arith) (omega arith) first
      first-IsAllocator 3 (omega arith) (omega arith)

alloc_pages_try_wraps_example :
    let (t, a) = alloc_pages_try ram top first (2 ^ 20) in
    (a ≡ first.next_paddr) × (t.next_paddr ≡ first.next_paddr)
alloc_pages_try_wraps_example =
    alloc_pages_try_wraps ram top refl (omega arith) (omega arith) (omega arith) first
      first-IsAllocator

-- Two runs with one page between them.
abbrev two_runs : List PageRun
two_runs = record { base = 0x10000; pages = 1 } ∷ record { base = 0x12000; pages = 2 } ∷ []
