-- ===== src/PageAlloc/Give.antt =====
-- mm/page_alloc.c: pages are given the count 1.
use sugimotos.Prelude.{
  ℕ, zero, suc, ◌+◌, ◌-◌, ◌*◌, ◌/◌, ◌%◌, ◌^◌, ◌≤◌, ◌<◌, ◌≡◌, ◌⊎◌, refl, ◌∙◌, false, not, ◌||◌,
  length, set, some, arith, inl, ltb, leb, ◌==◌, page_size, add32, length-set, get_or-set_self,
  get_or-set_ne,
}
use native.Mathlib.Decide.{ℕ_discrete}
use sugimotos.PageAlloc.{Allocator, page_run_size}
use sugimotos.PageAlloc.State.{ref_of}
use sugimotos.PageAlloc.Calls.{page_idx_if_managed, mark_allocated}

module _ (ram top : ℕ) (al : ram % page_size ≡ 0) (lo : page_run_size ≤ ram) (up : ram ≤ top)
    (hi : top < 2 ^ 32) where
  page_idx_if_managed-page :
      (s : Allocator) (idx : ℕ)
      → s.managed_page_count ≡ (top - ram) / page_size
      → idx < s.managed_page_count
      → page_idx_if_managed ram top s (ram + idx * page_size) ≡ some idx
  unfolding page_idx_if_managed
  page_idx_if_managed-page s idx m l =
      let q : (ram + idx * page_size - ram) / page_size ≡ idx = omega arith in
      let a : ltb (ram + idx * page_size) ram || leb top (ram + idx * page_size) ≡ false =
        ground arith in
      let b : not ((ram + idx * page_size) % page_size == 0) ≡ false = ground arith in
      let c : leb s.managed_page_count idx ≡ false = ground arith in rw (q, a, b, c) refl

  -- The pages from `idx` on have the count 1, and nothing else has changed.
  pub record Marked (s : Allocator) (idx n : ℕ) (t : Allocator) : Type 0 where
    pub inside : (j : ℕ) → idx ≤ j → j < idx + n → ref_of t j ≡ 1
    pub outside : (j : ℕ) → (j < idx) ⊎ (idx + n ≤ j) → ref_of t j ≡ ref_of s j
    pub size : length t.page_refcnt ≡ length s.page_refcnt
    pub init : t.allocator_initialized ≡ s.allocator_initialized
    pub runs : t.free_runs ≡ s.free_runs
    pub next : t.next_paddr ≡ s.next_paddr
    pub meta : t.meta_top ≡ s.meta_top
    pub managed : t.managed_page_count ≡ s.managed_page_count

  pub mark_allocated-Marked :
      (n : ℕ) (s : Allocator) (idx : ℕ)
      → s.managed_page_count ≡ (top - ram) / page_size
      → length s.page_refcnt ≡ s.managed_page_count
      → idx + n ≤ s.managed_page_count
      → Marked s idx n (mark_allocated ram top n s (ram + idx * page_size))
  unfolding mark_allocated
  mark_allocated-Marked zero s idx m c l = record {
    inside = λ j a b. absurd (omega arith);
    outside = λ j o. refl;
    size = refl;
    init = refl;
    runs = refl;
    next = refl;
    meta = refl;
    managed = refl;
  }
  mark_allocated-Marked (suc n) s idx m c l =
      let t : Allocator = record s { page_refcnt = set s.page_refcnt idx 1 } in
      let r =
        mark_allocated-Marked n t (idx + 1) m (length-set s.page_refcnt idx 1 ∙ c) (omega arith) in
      let step : add32 (ram + idx * page_size) page_size ≡ ram + (idx + 1) * page_size =
        omega arith in
      rw (page_idx_if_managed-page s idx m (omega arith), mark_allocated)
        (rw step (record {
          inside = λ j a b. elim (ℕ_discrete j idx) [
            | yes e ↦ rw e (
                r.outside idx (inl (omega arith))
                ∙ get_or-set_self s.page_refcnt idx 1 0 (omega arith))
            | no e ↦ r.inside j (omega arith) (omega arith)
          ];
          outside = λ j o.
              r.outside j (ground arith)
              ∙ get_or-set_ne s.page_refcnt idx j 1 0 (λ e. ground arith);
          size = r.size ∙ length-set s.page_refcnt idx 1;
          init = r.init;
          runs = r.runs;
          next = r.next;
          meta = r.meta;
          managed = r.managed;
        }))
