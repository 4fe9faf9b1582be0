-- ===== src/Vm/NewPage.antt =====
-- mm/vm.c: the page that `alloc_pages_try(1)` gives, with its contents.
use sugimotos.Prelude.{
  ℕ, ◌+◌, ◌*◌, ◌%◌, ◌^◌, ◌≤◌, ◌<◌, ◌≡◌, ◌≢◌, ◌⊎◌, refl, sym, ap, ◌∙◌, false, arith, inl, inr,
  page_size, ◌==◌, if◌then◌else◌,
}
use native.Mathlib.Decide.{ℕ_discrete}
use sugimotos.PageAlloc.{Allocator, page_run_size}
use sugimotos.PageAlloc.State.{IsAllocator, ref_of}
use sugimotos.PageAlloc.Alloc.{Given, alloc_pages_try-Allocated}
use sugimotos.PageAlloc.Calls.{alloc_pages_try}
use sugimotos.Vm.{Machine, clear_page}
use sugimotos.Vm.Table.{alloc_page}
use sugimotos.Vm.Tree.{TablePage, SamePage, query_root-frame}
use sugimotos.Vm.Table.{query_root}
use sugimotos.Vm.Split.{clear_page_out}
use sugimotos.Vm.Space.{InUse, IsSpace, Kept, old_page, same-IsSpace}

module _ (ram top : ℕ) (al : ram % page_size ≡ 0) (lo : page_run_size ≤ ram) (up : ram ≤ top)
    (hi : top < 2 ^ 32) where
  -- The machine after page `idx` was given out, and cleared.
  abbrev pub with_page : Machine → Allocator → ℕ → Machine
  with_page s pages idx = record s {
    pages = pages;
    memory = clear_page s.memory (ram + idx * page_size);
  }

  module _ (s : Machine) (v : IsAllocator ram top s.pages) where
    -- Nothing has changed, or a page that was free is in use and cleared.
    pub alloc_page-cases :
        (alloc_page ram top s ≡ (s, 0))
        ⊎ ((pages : Allocator) × (idx : ℕ) × Given ram top al lo up hi s.pages idx 1 pages
            × (alloc_page ram top s ≡ (with_page s pages idx, ram + idx * page_size)))
    unfolding alloc_page
    alloc_page-cases =
        elim (alloc_pages_try-Allocated ram top al lo up hi s.pages v 1 (omega arith)
          (omega arith)) [
            | inl (zero_pa, same, _, _) ↦
                let q : alloc_pages_try ram top s.pages 1 ≡ (s.pages, 0) =
                  λ i. (same i, zero_pa i) in
                inl (ap rest q)
            | inr (idx, pa, given) ↦
                let pages : Allocator = (alloc_pages_try ram top s.pages 1).0 in
                let q : alloc_pages_try ram top s.pages 1 ≡ (pages, ram + idx * page_size) =
                  λ i. (pages, pa i) in
                inr (pages, idx, given, ap rest q ∙ rw (nonzero idx) refl)
          ]
      where
        rest : Allocator × ℕ → Machine × ℕ
        rest (pages, pa) =
            if pa == 0
            then (record s { pages = pages }, 0)
            else (record s { pages = pages; memory = clear_page s.memory pa }, pa)

        nonzero : (idx : ℕ) → (ram + idx * page_size == 0) ≡ false
        nonzero idx = ground arith

    module _ (pages : Allocator) (idx : ℕ) (g : Given ram top al lo up hi s.pages idx 1 pages) where
      pub page_aligned : (ram + idx * page_size) % page_size ≡ 0
      page_aligned = omega arith

      pub page_small : ram + idx * page_size < 2 ^ 32
      page_small = omega (arith, g.room, v.managed)

      -- The page was not in use.
      pub page_fresh : ¬ InUse ram s.pages (ram + idx * page_size)
      page_fresh (j, l, e, n) = n (g.were_free j (omega arith) (omega arith))

      pub page_held : InUse ram pages (ram + idx * page_size)
      page_held = (
        idx,
        omega (arith, g.room, g.valid.managed, v.managed),
        refl,
        λ z. ground (arith, g.inside idx (omega arith) (omega arith)),
      )

      pub page_counts : (j : ℕ) → ref_of s.pages j ≢ 0 → ref_of pages j ≡ ref_of s.pages j
      page_counts j n = elim (ℕ_discrete j idx) [
        | yes e ↦
            absurd (n (ap (λ i. ref_of s.pages i) e ∙ g.were_free idx (omega arith) (omega arith)))
        | no e ↦ g.outside j (ground arith)
      ]

      pub page_managed : pages.managed_page_count ≡ s.pages.managed_page_count
      page_managed = g.valid.managed ∙ sym v.managed

      pub page_InUse : (p : ℕ) → InUse ram s.pages p → InUse ram pages p
      page_InUse p (j, l, e, n) =
          (j, omega (arith, page_managed), e, λ z. n (sym (page_counts j n) ∙ z))

      -- The words of the pages in use stay.
      pub page_same :
          (p : ℕ) → InUse ram s.pages p → SamePage s.memory (with_page s pages idx).memory p
      page_same p (j, l, e, n) =
          clear_page_out s.memory p (ram + idx * page_size) (omega arith) page_aligned
            λ q. page_fresh (rw q at (InUse_at p j l e n))
        where
          InUse_at :
              (p j : ℕ)
              → j < s.pages.managed_page_count
              → p ≡ ram + j * page_size
              → ref_of s.pages j ≢ 0
              → InUse ram s.pages p
          InUse_at p j l e n = (j, l, e, n)

      module _ (root : ℕ) (w : IsSpace ram s root) where
        table_same :
            (p : ℕ) → TablePage s.memory root p → SamePage s.memory (with_page s pages idx).memory p
        table_same p q = page_same p (w.held p q)

        pub with_page_page :
            (p : ℕ) → TablePage (with_page s pages idx).memory root p → TablePage s.memory root p
        with_page_page = old_page root s (with_page s pages idx) w table_same

        pub with_page-IsSpace : IsSpace ram (with_page s pages idx) root
        with_page-IsSpace =
            same-IsSpace root s (with_page s pages idx) w table_same
              λ p q. page_InUse p (w.held p q)

        pub with_page-Kept : Kept ram top root s (with_page s pages idx)
        with_page-Kept = record {
          allocator = g.valid;
          managed = page_managed;
          counts = page_counts;
          outside = λ p u n. page_same p u;
          pages = λ p q. inl (with_page_page p q);
          same_root_pt = refl;
        }

        pub query_root-with_page :
            (a : ℕ) → query_root (with_page s pages idx).memory root a ≡ query_root s.memory root a
        query_root-with_page a =
            query_root-frame s.memory (with_page s pages idx).memory root a table_same
