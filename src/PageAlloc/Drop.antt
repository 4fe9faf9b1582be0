-- ===== src/PageAlloc/Drop.antt =====
-- mm/page_alloc.c: a reference to a page is dropped.
use sugimotos.Prelude.{
  ℕ, ◌+◌, ◌-◌, ◌*◌, ◌%◌, ◌^◌, ◌≤◌, ◌<◌, ◌≡◌, ◌≢◌, ◌↔◌, ◌⊎◌, refl, sym, ap, ◌∙◌, Bool, true, false,
  length, get_or, set, arith, inl, inr, Bool-cases, ◌==◌, page_size, length-set, get_or-set_self,
  get_or-set_ne,
}
use native.Mathlib.Decide.{ℕ_discrete}
use sugimotos.PageAlloc.{Allocator, returns, page_run_size}
use sugimotos.PageAlloc.Sorted.{IsRuns, InRuns, InPage, insert_page-Planned}
use sugimotos.PageAlloc.Take.{runs_bound}
use sugimotos.PageAlloc.Runs.{insert_page}
use sugimotos.PageAlloc.State.{
  IsAllocator, ref_of, Available, SamePages, Returned, apply_plan-Returned,
}
use sugimotos.PageAlloc.Calls.{free_single_page_raw, or_leak, drop_ref}

-- What the drop of a reference to page `idx` leaves.
pub record Dropped (ram top : ℕ) (s : Allocator) (idx : ℕ) (t : Allocator) : Type 0 where
  pub valid : IsAllocator ram top t
  pub others : (j : ℕ) → j ≢ idx → ref_of t j ≡ ref_of s j
  pub own : (ref_of t idx ≡ ref_of s idx - 1) ⊎ ((ref_of s idx ≡ 1) × (ref_of t idx ≡ 1))

module _ (ram top : ℕ) (al : ram % page_size ≡ 0) (lo : page_run_size ≤ ram) (hi : top < 2 ^ 32)
    (s : Allocator) (v : IsAllocator ram top s) (idx : ℕ) (l : idx < s.managed_page_count)
    (held : ref_of s idx ≢ 0) where
  paddr : ℕ
  paddr = ram + idx * page_size

  unfoldable pub counted : ℕ → Allocator
  counted n = record s { page_refcnt = set s.page_refcnt idx n }

  pub ref_of-counted : (n : ℕ) → ref_of (counted n) idx ≡ n
  unfolding counted
  ref_of-counted n = get_or-set_self s.page_refcnt idx n 0 (omega (arith, v.counts))

  pub ref_of-counted_ne : (n j : ℕ) → j ≢ idx → ref_of (counted n) j ≡ ref_of s j
  unfolding counted
  ref_of-counted_ne n j m = get_or-set_ne s.page_refcnt idx j n 0 (λ e. m (sym e))

  not_free : ¬ Available ram s idx
  not_free h = held ((v.in_use idx l).1 h)

  length-counted : (n : ℕ) → length (counted n).page_refcnt ≡ s.managed_page_count
  unfolding counted
  length-counted n = length-set s.page_refcnt idx n ∙ v.counts

  -- More references are left.
  pub counted-IsAllocator : (n : ℕ) → n ≢ 0 → IsAllocator ram top (counted n)
  unfolding counted
  counted-IsAllocator n m = record {
    ready = v.ready;
    runs = v.runs;
    next_aligned = v.next_aligned;
    next_room = v.next_room;
    meta_room = v.meta_room;
    managed = v.managed;
    counts = length-counted n;
    in_use = λ j k. elim (ℕ_discrete j idx) [
      | yes e ↦
          (λ z. absurd (m (sym (ref_of-counted n) ∙ rw e at z)), λ a. absurd (not_free (rw e at a)))
      | no e ↦ rw (ref_of-counted_ne n j e) (v.in_use j k)
    ];
  }

  returned :
      (r : Allocator × Bool) × (free_single_page_raw (counted 0) paddr ≡ returns r)
      × Returned ram (counted 0) paddr r
  unfolding free_single_page_raw counted paddr
  returned =
      let low : ram ≤ s.next_paddr = runs_bound ram s.next_paddr s.free_runs v.runs in
      let inside : ram + idx * page_size < s.next_paddr = ground (arith, not_free) in
      apply_plan-Returned ram paddr (counted 0) v.next_room (omega (arith, v.meta_room))
        (omega (arith, v.next_room)) (insert_page s.free_runs paddr)
        (insert_page-Planned s.free_runs ram s.next_paddr paddr v.runs (omega arith) (omega arith)
          (omega (arith, v.next_aligned)))
        (λ h. not_free (inl h))

  -- The pages that another page's return leaves alone.
  other_page : (j : ℕ) → j ≢ idx → ¬ InPage paddr (ram + j * page_size)
  unfolding paddr
  other_page j n (a, b) = omega arith

  module _ (t : Allocator) (k : SamePages (counted 0) t) where
    ref_of-same : (j : ℕ) → ref_of t j ≡ ref_of (counted 0) j
    ref_of-same j = ap (λ l. get_or l j 0) k.same_counts

    freed-IsAllocator :
        IsRuns ram t.free_runs t.next_paddr
        → ((a : ℕ) → InRuns t.free_runs a ↔ (InRuns s.free_runs a ⊎ InPage paddr a))
        → IsAllocator ram top t
    freed-IsAllocator w f = record {
      ready = k.same_init ∙ (unfold counted in v.ready);
      runs = w;
      next_aligned = unfold counted in rw (k.same_next) v.next_aligned;
      next_room = unfold counted in omega (arith, k.above, k.same_next);
      meta_room = unfold counted in omega (arith, k.lower, v.meta_room);
      managed = unfold counted in k.same_managed ∙ v.managed;
      counts =
          ap (λ c. length c) k.same_counts
          ∙ length-counted 0
          ∙ sym (unfold counted in k.same_managed);
      in_use = λ j m. elim (ℕ_discrete j idx) [
        | yes e ↦ (
          λ _.
              inl (
                (f (ram + j * page_size)).1
                  (inr (unfold paddr in rw e (omega arith, omega arith)))),
          λ _. ref_of-same j ∙ rw e (ref_of-counted 0),
        )
        | no e ↦
            let refs : ref_of t j ≡ ref_of s j = ref_of-same j ∙ ref_of-counted_ne 0 j e in
            let m' : j < s.managed_page_count = unfold counted in omega (arith, k.same_managed) in
            let next : t.next_paddr ≡ s.next_paddr = unfold counted in k.same_next in
            ground (arith, v.in_use j m', f (ram + j * page_size), other_page j e, refs, next)
      ];
    }

    leaked : Allocator
    leaked = record t { page_refcnt = set t.page_refcnt idx 1; free_meta_oom_warned = true }

    ref_of-leaked : ref_of s idx ≡ 1 → (j : ℕ) → ref_of leaked j ≡ ref_of s j
    unfolding leaked counted
    ref_of-leaked one j = elim (ℕ_discrete j idx) [
      | yes e ↦ rw e (
          get_or-set_self t.page_refcnt idx 1 0
            (omega (arith, ap (λ c. length c) k.same_counts, length-counted 0))
          ∙ sym one)
      | no e ↦
          get_or-set_ne t.page_refcnt idx j 1 0 (λ q. e (sym q))
          ∙ ref_of-same j
          ∙ ref_of-counted_ne 0 j e
    ]

    leaked-IsAllocator : ref_of s idx ≡ 1 → t.free_runs ≡ s.free_runs → IsAllocator ram top leaked
    unfolding leaked
    leaked-IsAllocator one e = record {
      ready = k.same_init ∙ (unfold counted in v.ready);
      runs = unfold counted in rw (e, k.same_next) v.runs;
      next_aligned = unfold counted in rw (k.same_next) v.next_aligned;
      next_room = unfold counted in omega (arith, k.above, k.same_next);
      meta_room = unfold counted in omega (arith, k.lower, v.meta_room);
      managed = unfold counted in k.same_managed ∙ v.managed;
      counts =
          length-set t.page_refcnt idx 1
          ∙ ap (λ c. length c) k.same_counts
          ∙ length-counted 0
          ∙ sym (unfold counted in k.same_managed);
      in_use = λ j m.
          let m' : j < s.managed_page_count = unfold counted in omega (arith, k.same_managed) in
          let next : t.next_paddr ≡ s.next_paddr = unfold counted in k.same_next in
          rw (ref_of-leaked one j, e, next) (v.in_use j m');
    }

  last-Dropped :
      (r : Allocator × Bool)
      → ref_of s idx ≡ 1
      → Returned ram (counted 0) paddr r
      → (t : Allocator) × (or_leak ram top (counted 0) idx (returns r) ≡ returns t)
        × Dropped ram top s idx t
  unfolding or_leak leaked
  last-Dropped (t, true) one (k, w, f) = (
    t,
    refl,
    record {
      valid = freed-IsAllocator t k w (unfold counted in f);
      others = λ j n. ref_of-same t k j ∙ ref_of-counted_ne 0 j n;
      own = inl (ref_of-same t k idx ∙ ref_of-counted 0 ∙ sym (omega (arith, one)));
    },
  )
  last-Dropped (t, false) one (k, e) = (
    leaked t k,
    refl,
    record {
      valid = leaked-IsAllocator t k one (unfold counted in e);
      others = λ j n. ref_of-leaked t k one j;
      own = inr (one, ref_of-leaked t k one idx ∙ one);
    },
  )

  -- A page in use loses one reference, and with the last one it is free, unless no node can be had.
  pub drop_ref-Dropped :
      (t : Allocator) × (drop_ref ram top s idx (ram + idx * page_size) ≡ returns t)
      × Dropped ram top s idx t
  unfolding drop_ref paddr
  drop_ref-Dropped = elim (Bool-cases (ref_of s idx == 0)) [
    | inl x ↦ absurd (held (ground arith))
    | inr x ↦ elim (Bool-cases (ref_of s idx == 1)) [
      | inl y ↦
          let one : ref_of s idx ≡ 1 = ground arith in
          let (r, e, ret) = returned in
          let (t, f, d) = last-Dropped r one ret in
          (t, rw (x, y) (unfold counted in rw (one) (rw e f)), d)
      | inr y ↦ (
        counted (ref_of s idx - 1),
        rw (x, y) (unfold counted in refl),
        record {
          valid = counted-IsAllocator (ref_of s idx - 1) (ground arith);
          others = ref_of-counted_ne (ref_of s idx - 1);
          own = inl (ref_of-counted (ref_of s idx - 1));
        },
      )
    ]
  ]
