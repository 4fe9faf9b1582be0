-- ===== src/PageAlloc/State.antt =====
-- mm/page_alloc.c: the invariant of the allocator, and the return of one page to it.
use sugimotos.Prelude.{
  ℕ, ◌+◌, ◌-◌, ◌*◌, ◌/◌, ◌%◌, ◌^◌, ◌≤◌, ◌<◌, ◌≡◌, ◌↔◌, ◌⊎◌, refl, Bool, true, false, List, length,
  get_or, arith, inl, inr, Bool-cases, ltb, leb, if◌then◌else◌, page_size, sub32,
}
use sugimotos.PageAlloc.{PageRun, Allocator, returns, page_run_size}
use sugimotos.PageAlloc.Sorted.{IsRuns, InRuns, InPage, Planned}
use sugimotos.PageAlloc.Coalesce.{coalesce_free_runs-Coalesced}
use sugimotos.PageAlloc.Runs.{
  Plan, overlap, grown, merged, needs_first, needs_node, coalesce_free_runs,
}
use sugimotos.PageAlloc.Calls.{alloc_run_node, apply_plan}

-- The reference count of page `idx`.
abbrev pub ref_of : Allocator → ℕ → ℕ
ref_of s idx = get_or s.page_refcnt idx 0

-- Page `idx` is free: in a run, or never given out.
abbrev pub Available : ℕ → Allocator → ℕ → Type 0
Available ram s idx =
    InRuns s.free_runs (ram + idx * page_size) ⊎ (s.next_paddr ≤ ram + idx * page_size)

-- Between the linker's symbols `ram` and `top`: the runs are sorted and below the memory never given
-- out, which is below the nodes; and exactly the pages that are free have the count 0.
pub record IsAllocator (ram top : ℕ) (s : Allocator) : Type 0 where
  pub ready : s.allocator_initialized ≡ true
  pub runs : IsRuns ram s.free_runs s.next_paddr
  pub next_aligned : s.next_paddr % page_size ≡ 0
  pub next_room : s.next_paddr ≤ s.meta_top
  pub meta_room : s.meta_top ≤ top
  pub managed : s.managed_page_count ≡ (top - ram) / page_size
  pub counts : length s.page_refcnt ≡ s.managed_page_count
  pub in_use : (idx : ℕ) → idx < s.managed_page_count → (ref_of s idx ≡ 0) ↔ Available ram s idx

-- What taking a node leaves alone.
pub record SamePages (s t : Allocator) : Type 0 where
  pub same_init : t.allocator_initialized ≡ s.allocator_initialized
  pub same_next : t.next_paddr ≡ s.next_paddr
  pub same_counts : t.page_refcnt ≡ s.page_refcnt
  pub same_managed : t.managed_page_count ≡ s.managed_page_count
  pub lower : t.meta_top ≤ s.meta_top
  pub above : s.next_paddr ≤ t.meta_top

alloc_run_node-SamePages :
    (s : Allocator)
    → s.next_paddr ≤ s.meta_top
    → s.meta_top < 2 ^ 32
    → page_run_size ≤ s.meta_top
    → let (t, ok) = alloc_run_node s in SamePages s t × (t.free_runs ≡ s.free_runs)
unfolding alloc_run_node
alloc_run_node-SamePages s a b c = elim (Bool-cases (ltb 0 s.free_meta_nodes)) [
  | inl x ↦ rw x (
    record {
      same_init = refl;
      same_next = refl;
      same_counts = refl;
      same_managed = refl;
      lower = omega arith;
      above = a;
    },
    refl,
  )
  | inr x ↦ elim (Bool-cases (leb (sub32 s.meta_top page_run_size / 4 * 4) s.next_paddr)) [
    | inl y ↦
        rw (x, y)
          (
            record {
              same_init = refl;
              same_next = refl;
              same_counts = refl;
              same_managed = refl;
              lower = omega arith;
              above = a;
            },
            refl,
          )
    | inr y ↦
        rw (x, y)
          (
            record {
              same_init = refl;
              same_next = refl;
              same_counts = refl;
              same_managed = refl;
              lower = omega arith;
              above = ground arith;
            },
            refl,
          )
  ]
]

with_list :
    {s t : Allocator} {rs : List PageRun} {m : ℕ}
    → SamePages s t
    → SamePages s (record t { free_runs = rs; free_meta_nodes = m })
with_list k = record {
  same_init = k.same_init;
  same_next = k.same_next;
  same_counts = k.same_counts;
  same_managed = k.same_managed;
  lower = k.lower;
  above = k.above;
}

-- A page that was not free is returned, or no node could be had for it; there is no panic.
abbrev pub Returned : ℕ → Allocator → ℕ → Allocator × Bool → Type 0
Returned ram s paddr (t, true) =
    SamePages s t
    × IsRuns ram t.free_runs t.next_paddr
    × ((a : ℕ) → InRuns t.free_runs a ↔ (InRuns s.free_runs a ⊎ InPage paddr a))
Returned ram s paddr (t, false) = SamePages s t × (t.free_runs ≡ s.free_runs)

module _ (ram paddr : ℕ) (s : Allocator) (a : s.next_paddr ≤ s.meta_top) (b : s.meta_top < 2 ^ 32)
    (c : page_run_size ≤ s.meta_top) where
  pub apply_plan-Returned :
      (p : Plan)
      → Planned ram s.free_runs paddr s.next_paddr p
      → ¬ InRuns s.free_runs paddr
      → (r : Allocator × Bool) × (apply_plan s p ≡ returns r) × Returned ram s paddr r
  unfolding apply_plan
  apply_plan-Returned overlap h n = absurd (n h)
  apply_plan-Returned (grown rs) (v, _, f) n = (
    (record s { free_runs = rs }, true),
    refl,
    (
      record {
        same_init = refl;
        same_next = refl;
        same_counts = refl;
        same_managed = refl;
        lower = omega arith;
        above = a;
      },
      v,
      f,
    ),
  )
  apply_plan-Returned (merged rs) (v, _, f) n = (
    (record s { free_runs = rs; free_meta_nodes = s.free_meta_nodes + 1 }, true),
    refl,
    (
      record {
        same_init = refl;
        same_next = refl;
        same_counts = refl;
        same_managed = refl;
        lower = omega arith;
        above = a;
      },
      v,
      f,
    ),
  )
  apply_plan-Returned (needs_first rs) (v, _, f) n =
      go (alloc_run_node s) (alloc_run_node-SamePages s a b c)
    where
      go :
          (r : Allocator × Bool)
          → SamePages s r.0 × (r.0.free_runs ≡ s.free_runs)
          → (x : Allocator × Bool) × ((if r.1
                then returns (record (r.0) { free_runs = rs }, true)
                else returns (r.0, false))
              ≡ returns x)
            × Returned ram s paddr x
      go (t, true) (k, _) =
          ((record t { free_runs = rs }, true), refl, (with_list k, rw (k.same_next) v, f))
      go (t, false) k = ((t, false), refl, k)
  apply_plan-Returned (needs_node rs) (v, _, f) n =
      go (alloc_run_node s) (alloc_run_node-SamePages s a b c)
    where
      go :
          (r : Allocator × Bool)
          → SamePages s r.0 × (r.0.free_runs ≡ s.free_runs)
          → (x : Allocator × Bool) × ((if r.1
                then returns (
                  record (r.0) {
                    free_runs = (coalesce_free_runs rs).0;
                    free_meta_nodes = r.0.free_meta_nodes + (coalesce_free_runs rs).1;
                  },
                  true,
                )
                else returns (r.0, false))
              ≡ returns x)
            × Returned ram s paddr x
      go (t, true) (k, _) =
          let (w, g, _) = coalesce_free_runs-Coalesced rs ram s.next_paddr v (omega arith) in
          (
            (
              record t {
                free_runs = (coalesce_free_runs rs).0;
                free_meta_nodes = t.free_meta_nodes + (coalesce_free_runs rs).1;
              },
              true,
            ),
            refl,
            (with_list k, rw (k.same_next) w, λ q. ground (arith, f q, g q)),
          )
      go (t, false) k = ((t, false), refl, k)
