-- ===== src/PageAlloc/Release.antt =====
-- mm/page_alloc.c: `page_dec_ref` and `free_pages` on a sound allocator.
use sugimotos.Prelude.{
  ℕ, zero, suc, ◌+◌, ◌-◌, ◌*◌, ◌/◌, ◌%◌, ◌^◌, ◌≤◌, ◌<◌, ◌≡◌, ◌≢◌, ◌⊎◌, refl, sym, ap, ◌∙◌, Bool,
  true, false, not, ◌||◌, none, some, arith, inl, inr, Bool-cases, ltb, leb, ◌==◌, if◌then◌else◌,
  page_size, add32,
}
use sugimotos.PageAlloc.{Allocator, Outcome, panic, returns, page_run_size}
use sugimotos.PageAlloc.State.{IsAllocator, ref_of}
use sugimotos.PageAlloc.Drop.{Dropped, drop_ref-Dropped}
use sugimotos.PageAlloc.Calls.{
  init_allocator_if_needed, page_idx_if_managed, drop_ref, free_loop, free_pages, page_dec_ref,
}

module _ (ram top : ℕ) (al : ram % page_size ≡ 0) (lo : page_run_size ≤ ram) (up : ram ≤ top)
    (hi : top < 2 ^ 32) where
  pub page_idx-page :
      (s : Allocator) (idx : ℕ)
      → IsAllocator ram top s
      → idx < s.managed_page_count
      → page_idx_if_managed ram top s (ram + idx * page_size) ≡ some idx
  unfolding page_idx_if_managed
  page_idx-page s idx v l =
      let m = v.managed in
      let q : (ram + idx * page_size - ram) / page_size ≡ idx = omega arith in
      let a : ltb (ram + idx * page_size) ram || leb top (ram + idx * page_size) ≡ false =
        ground arith in
      let b : not ((ram + idx * page_size) % page_size == 0) ≡ false = ground arith in
      let c : leb s.managed_page_count idx ≡ false = ground arith in rw (q, a, b, c) refl

  pub init-ready :
      (s : Allocator) → IsAllocator ram top s → init_allocator_if_needed ram top s ≡ (s, true)
  unfolding init_allocator_if_needed
  init-ready s v = simp (v.ready)

  page_dec_ref-drop_ref :
      (s : Allocator) (idx : ℕ)
      → IsAllocator ram top s
      → idx < s.managed_page_count
      → page_dec_ref ram top s (ram + idx * page_size)
        ≡ drop_ref ram top s idx (ram + idx * page_size)
  unfolding page_dec_ref
  page_dec_ref-drop_ref s idx v l =
      ap {A = Allocator × Bool} {B = Outcome Allocator}
        (λ r.
          if not r.1
          then panic
          else elim (page_idx_if_managed ram top r.0 (ram + idx * page_size)) [
            | none ↦ returns r.0
            | some i ↦ drop_ref ram top r.0 i (ram + idx * page_size)
          ])
        (init-ready s v)
      ∙ rw (page_idx-page s idx v l) refl

  -- On a sound allocator, `page_dec_ref` of a managed page panics if the count is 0. Else it returns:
  -- the allocator stays sound, the count of the page is one less (or stays 1, where no list node can
  -- be had for the page), and no other count changes.
  pub page_dec_ref_lem :
      (s : Allocator) (idx : ℕ)
      → IsAllocator ram top s
      → idx < s.managed_page_count
      → (ref_of s idx ≡ 0 → page_dec_ref ram top s (ram + idx * page_size) ≡ panic)
        × (ref_of s idx ≢ 0
            → (t : Allocator) × (page_dec_ref ram top s (ram + idx * page_size) ≡ returns t)
              × Dropped ram top s idx t)
  page_dec_ref_lem s idx v l = (
    λ z. page_dec_ref-drop_ref s idx v l ∙ (unfold drop_ref in rw z refl),
    λ n.
        let (t, e, d) = drop_ref-Dropped ram top al lo hi s v idx l n in
        (t, page_dec_ref-drop_ref s idx v l ∙ e, d),
  )

  -- What the return of the pages from `idx` on leaves.
  pub record Released (s : Allocator) (idx n : ℕ) (t : Allocator) : Type 0 where
    pub valid : IsAllocator ram top t
    pub others : (j : ℕ) → (j < idx) ⊎ (idx + n ≤ j) → ref_of t j ≡ ref_of s j
    pub own :
        (j : ℕ)
        → idx ≤ j
        → j < idx + n
        → (ref_of t j ≡ ref_of s j - 1) ⊎ ((ref_of s j ≡ 1) × (ref_of t j ≡ 1))
    pub same_size : t.managed_page_count ≡ s.managed_page_count

  free_loop-Released :
      (n : ℕ) (s : Allocator) (idx : ℕ)
      → IsAllocator ram top s
      → idx + n ≤ s.managed_page_count
      → ((j : ℕ) → idx ≤ j → j < idx + n → ref_of s j ≢ 0)
      → (t : Allocator) × (free_loop ram top n s (ram + idx * page_size) ≡ returns t)
        × Released s idx n t
  unfolding free_loop
  free_loop-Released zero s idx v l h = (
    s,
    refl,
    record {
      valid = v;
      others = λ j o. refl;
      own = λ j a b. absurd (omega arith);
      same_size = refl;
    },
  )
  free_loop-Released (suc n) s idx v l h =
      let (t, e, d) =
        drop_ref-Dropped ram top al lo hi s v idx (omega arith)
          (h idx (omega arith) (omega arith)) in
      let size : t.managed_page_count ≡ s.managed_page_count = d.valid.managed ∙ sym v.managed in
      let (u, f, r) =
        free_loop-Released n t (idx + 1) d.valid (omega arith)
          (λ j a b z. h j (omega arith) (omega arith) (sym (d.others j (omega arith)) ∙ z)) in
      let m = v.managed in
      let next : add32 (ram + idx * page_size) page_size ≡ ram + (idx + 1) * page_size =
        omega arith in
      (
        u,
        rw (page_idx-page s idx v (omega arith), free_loop) (rw (e, free_loop) (rw (next, f) refl)),
        record {
          valid = r.valid;
          others = λ j o. r.others j (ground arith) ∙ d.others j (ground arith);
          own = λ j a b. elim (Bool-cases (j == idx)) [
            | inl x ↦
                let same : j ≡ idx = ground arith in
                let kept : ref_of u idx ≡ ref_of t idx = r.others idx (inl (omega arith)) in
                rw (same, kept) d.own
            | inr x ↦ rw (← d.others j (ground arith)) (r.own j (ground arith) (omega arith))
          ];
          same_size = r.same_size ∙ size;
        },
      )

  pub free_pages-Released :
      (s : Allocator) (idx n : ℕ)
      → IsAllocator ram top s
      → 0 < n
      → idx + n ≤ s.managed_page_count
      → ((j : ℕ) → idx ≤ j → j < idx + n → ref_of s j ≢ 0)
      → (t : Allocator) × (free_pages ram top s (ram + idx * page_size) n ≡ returns t)
        × Released s idx n t
  unfolding free_pages
  free_pages-Released s idx n v p l h =
      let (t, e, r) = free_loop-Released n s idx v l h in
      let m = v.managed in
      let a : (n == 0) ≡ false = ground arith in
      let b : not ((ram + idx * page_size) % page_size == 0) ≡ false = ground arith in
      let c : ltb (ram + idx * page_size) ram || ltb top (ram + idx * page_size + n * page_size)
          ≡ false =
        ground arith in
      (
        t,
        ap {A = Allocator × Bool} {B = Outcome Allocator}
              (λ q.
                if not q.1
                then panic
                else if n == 0
                then panic
                else if not ((ram + idx * page_size) % page_size == 0)
                then panic
                else if ltb (ram + idx * page_size) ram
                    || ltb top (ram + idx * page_size + n * page_size)
                then panic
                else free_loop ram top n q.0 (ram + idx * page_size))
              (init-ready s v)
            ∙ rw (a, b, c) e,
        r,
      )
