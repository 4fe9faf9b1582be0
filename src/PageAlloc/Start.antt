-- ===== src/PageAlloc/Start.antt =====
-- mm/page_alloc.c: the allocator after its first call, one more reference, and a request too large.
use sugimotos.Prelude.{
  ℕ, zero, suc, ◌+◌, ◌-◌, ◌*◌, ◌/◌, ◌%◌, ◌^◌, ◌≤◌, ◌<◌, ◌≡◌, ◌≢◌, refl, ap, ◌∙◌, Bool, true, false,
  not, ◌||◌, List, replicate, length-replicate, get_or, set, Option, none, some, arith, inl, inr,
  Bool-cases, Option-cases, ltb, leb, ◌==◌, if◌then◌else◌, page_size, sub32, mul32, add32,
}
use sugimotos.PageAlloc.{PageRun, Allocator, Outcome, panic, returns, page_run_size}
use sugimotos.PageAlloc.Take.{Taken, take_run-Taken}
use sugimotos.PageAlloc.State.{IsAllocator, ref_of}
use sugimotos.PageAlloc.Drop.{counted, counted-IsAllocator, ref_of-counted, ref_of-counted_ne}
use sugimotos.PageAlloc.Release.{init-ready, page_idx-page}
use sugimotos.PageAlloc.Alloc.{alloc_pages_try-take_run}
use sugimotos.PageAlloc.Runs.{take_run}
use sugimotos.PageAlloc.Calls.{
  init_allocator_if_needed, page_idx_if_managed, mark_allocated, bump, alloc_pages_try,
  page_inc_ref,
}

no_refs : (n j : ℕ) → get_or {A = ℕ} (replicate n 0) j 0 ≡ 0
no_refs zero j = refl
no_refs (suc n) zero = refl
no_refs (suc n) (suc j) = no_refs n j

module _ (ram top : ℕ) (al : ram % page_size ≡ 0) (lo : page_run_size ≤ ram) (up : ram ≤ top)
    (hi : top < 2 ^ 32) where
  -- The first call, if the counts fit in the memory, leaves a sound allocator.
  pub init-IsAllocator :
      (s : Allocator)
      → s.allocator_initialized ≡ false
      → (init_allocator_if_needed ram top s).1 ≡ true
      → IsAllocator ram top (init_allocator_if_needed ram top s).0
  unfolding init_allocator_if_needed
  init-IsAllocator s e h =
      let count : ℕ = (top - ram) / page_size in
      elim (Bool-cases (leb (sub32 top (mul32 count 2) / 4 * 4) ram)) [
        | inl x ↦ absurd (ground (arith, simp (e, x) at h))
        | inr x ↦
            simp (e, x)
              (record {
                ready = refl;
                runs = omega arith;
                next_aligned = al;
                next_room = ground arith;
                meta_room = omega arith;
                managed = refl;
                counts = length-replicate {A = ℕ} count 0;
                in_use = λ j l. (λ _. inr (omega arith), λ _. no_refs count j);
              })
      ]

  mark_allocated_next :
      (n : ℕ) (s : Allocator) (a : ℕ) → (mark_allocated ram top n s a).next_paddr ≡ s.next_paddr
  unfolding mark_allocated
  mark_allocated_next zero s a = refl
  mark_allocated_next (suc n) s a = elim (Option-cases (page_idx_if_managed ram top s a)) [
    | inl e ↦ rw (e, mark_allocated) (mark_allocated_next n s (add32 a page_size))
    | inr (i, e) ↦ rw (e, mark_allocated) (mark_allocated_next n _ (add32 a page_size))
  ]

  module _ (s : Allocator) (v : IsAllocator ram top s) where
    -- A request for 2 ^ 20 pages, 4 GiB, never fails, since their size wraps around to 0: it returns
    -- the next address that was never given out, and a later request gets the same address.
    pub alloc_pages_try_wraps :
        let (t, a) = alloc_pages_try ram top s (2 ^ 20) in
        (a ≡ s.next_paddr) × (t.next_paddr ≡ s.next_paddr)
    unfolding bump
    alloc_pages_try_wraps =
        let e : take_run s.free_runs (2 ^ 20) ≡ none =
          no_run (take_run s.free_runs (2 ^ 20))
            (take_run-Taken s.free_runs ram s.next_paddr (2 ^ 20) v.runs bound (omega arith)) in
        let w : add32 s.next_paddr (mul32 (2 ^ 20) page_size) ≡ s.next_paddr = omega arith in
        let x : ltb s.meta_top s.next_paddr || ltb s.next_paddr s.next_paddr ≡ false =
          ground (arith, v.next_room) in
        rw (alloc_pages_try-take_run ram top al lo up hi s v (2 ^ 20) (omega arith), e)
          (rw (w, x) (refl, mark_allocated_next (2 ^ 20) s s.next_paddr))
      where
        bound : s.next_paddr < 2 ^ 32
        bound = omega (arith, v.next_room, v.meta_room)

        no_run :
            (o : Option (ℕ × List PageRun × Bool))
            → Taken ram s.free_runs s.next_paddr (2 ^ 20) o
            → o ≡ none
        no_run none t = refl
        no_run (some (paddr, rs, emptied)) (_, _, _, d, _, _) = absurd (omega arith)

    -- On a sound allocator, one more reference to a page: a panic where the count is 0; else, for a
    -- count below 2 ^ 16 - 1, the count goes up by one and the allocator stays sound.
    pub page_inc_ref_lem :
        (idx : ℕ)
        → idx < s.managed_page_count
        → (ref_of s idx ≡ 0 → page_inc_ref ram top s (ram + idx * page_size) ≡ panic)
          × (ref_of s idx ≢ 0
              → ref_of s idx < 2 ^ 16 - 1
              → (t : Allocator) × (page_inc_ref ram top s (ram + idx * page_size) ≡ returns t)
                × IsAllocator ram top t
                × (ref_of t idx ≡ ref_of s idx + 1)
                × ((j : ℕ) → j ≢ idx → ref_of t j ≡ ref_of s j))
    page_inc_ref_lem idx l = (
      λ z. ready ∙ rw z refl,
      λ n b.
          let x : (ref_of s idx == 0) ≡ false = ground arith in
          let w : (ref_of s idx + 1) % 2 ^ 16 ≡ ref_of s idx + 1 = omega arith in
          (
            counted ram top al lo hi s v idx l n (ref_of s idx + 1),
            ready ∙ rw (x, w) (unfold counted in refl),
            counted-IsAllocator ram top al lo hi s v idx l n (ref_of s idx + 1) (ground arith),
            ref_of-counted ram top al lo hi s v idx l n (ref_of s idx + 1),
            ref_of-counted_ne ram top al lo hi s v idx l n (ref_of s idx + 1),
          ),
    )
      where
        after : ℕ → Allocator → Outcome Allocator
        after i q =
            if get_or q.page_refcnt i 0 == 0
            then panic
            else returns (record q {
              page_refcnt = set q.page_refcnt i ((get_or q.page_refcnt i 0 + 1) % 2 ^ 16);
            })

        rest : Allocator × Bool → Outcome Allocator
        rest q =
            if not q.1
            then panic
            else elim (page_idx_if_managed ram top q.0 (ram + idx * page_size)) [
              | none ↦ returns q.0
              | some i ↦ after i q.0
            ]

        ready : page_inc_ref ram top s (ram + idx * page_size) ≡ after idx s
        ready =
            unfold page_inc_ref in
            ap {A = Allocator × Bool} {B = Outcome Allocator} rest
              (init-ready ram top al lo up hi s v)
            ∙ rw (page_idx-page ram top al lo up hi s idx v l) refl
