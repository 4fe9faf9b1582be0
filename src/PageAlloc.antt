-- ===== src/PageAlloc.antt =====
-- mm/page_alloc.c: the page allocator. Free pages are kept as a sorted list of runs, each page has a
-- reference count, and the nodes of the list are taken from the top of the same memory downwards.
-- The lock makes each call one step.
pub mod Runs
pub mod Calls
pub mod Sorted
pub mod Take
pub mod Coalesce
pub mod State
pub mod Drop
pub mod Release
pub mod Give
pub mod Alloc
pub mod Start
mod Tests
use sugimotos.Prelude.{ℕ, ◌+◌, ◌*◌, Bool, List, page_size}

-- `struct page_run`: `pages` pages from address `base` on. The list itself stands for `next`.
pub record PageRun : Type 0 where
  pub base : ℕ
  pub pages : ℕ

-- The address after a run, which the code computes in 64 bits.
abbrev pub run_end : PageRun → ℕ
run_end r = r.base + r.pages * page_size

-- The static variables. Of the list of spare nodes only the length matters.
pub record Allocator : Type 0 where
  pub free_runs : List PageRun
  pub free_meta_nodes : ℕ
  pub next_paddr : ℕ
  pub meta_top : ℕ
  pub allocator_initialized : Bool
  pub page_refcnt : List ℕ
  pub managed_page_count : ℕ
  pub free_meta_oom_warned : Bool

-- `sizeof(struct page_run)` on the 32-bit machine.
abbrev pub page_run_size : ℕ
page_run_size = 12

-- What a call does that may stop the machine.
pub data Outcome {ℓ} (A : Type ℓ) : Type ℓ where
  panic : Outcome A
  returns : A → Outcome A
