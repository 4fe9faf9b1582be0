-- ===== src/PageAlloc/Alloc.antt =====
-- mm/page_alloc.c: `alloc_pages_try` on a sound allocator.
use sugimotos.Prelude.{
  ℕ, ◌+◌, ◌-◌, ◌*◌, ◌/◌, ◌%◌, ◌^◌, ◌≤◌, ◌<◌, ◌≡◌, ◌↔◌, ◌⊎◌, refl, sym, ap, ◌∙◌, Bool, false, not,
  ◌||◌, ◌&&◌, List, [], ◌∷◌, Option, none, some, arith, inl, inr, Bool-cases, ltb, leb, ◌==◌,
  if◌then◌else◌, page_size, add32, mul32,
}
use sugimotos.PageAlloc.{PageRun, Allocator, page_run_size, run_end}
use sugimotos.PageAlloc.Sorted.{IsRuns, InRuns}
use sugimotos.PageAlloc.Take.{Taken, InRange, AllShorter, take_run-Taken, runs_bound}
use sugimotos.PageAlloc.State.{IsAllocator, ref_of, Available}
use sugimotos.PageAlloc.Release.{init-ready}
use sugimotos.PageAlloc.Give.{Marked, mark_allocated-Marked}
use sugimotos.PageAlloc.Runs.{take_run}
use sugimotos.PageAlloc.Calls.{mark_allocated, bump, alloc_pages_try}

pub raise_bound :
    (lo hi hi' : ℕ) (rs : List PageRun) → hi ≤ hi' → IsRuns lo rs hi → IsRuns lo rs hi'
raise_bound lo hi hi' [] l v = omega arith
raise_bound lo hi hi' (r ∷ rs) l (x, y, z, w) = (x, y, z, raise_bound (run_end r) hi hi' rs l w)

-- Nothing above the last run is in the list.
pub runs_above : (lo hi a : ℕ) (rs : List PageRun) → IsRuns lo rs hi → hi ≤ a → ¬ InRuns rs a
runs_above lo hi a [] v l h = h
runs_above lo hi a (r ∷ rs) (x, y, z, w) l (inl (b, c)) =
    omega (arith, runs_bound (run_end r) hi rs w)
runs_above lo hi a (r ∷ rs) (x, y, z, w) l (inr h) = runs_above (run_end r) hi a rs w l h

module _ (ram top : ℕ) (al : ram % page_size ≡ 0) (lo : page_run_size ≤ ram) (up : ram ≤ top)
    (hi : top < 2 ^ 32) where
  -- What an allocation of `n` pages at page `idx` has done: they were all free, now they have the
  -- count 1, and no other count has changed.
  pub record Given (s : Allocator) (idx n : ℕ) (t : Allocator) : Type 0 where
    pub valid : IsAllocator ram top t
    pub room : idx + n ≤ s.managed_page_count
    pub were_free : (j : ℕ) → idx ≤ j → j < idx + n → ref_of s j ≡ 0
    pub inside : (j : ℕ) → idx ≤ j → j < idx + n → ref_of t j ≡ 1
    pub outside : (j : ℕ) → (j < idx) ⊎ (idx + n ≤ j) → ref_of t j ≡ ref_of s j

  module _ (s : Allocator) (v : IsAllocator ram top s) (n idx : ℕ) where
    -- The pages are taken from the runs or from the memory above, and marked.
    given :
        (rs : List PageRun) (nodes next addr : ℕ)
        → addr ≡ ram + idx * page_size
        → IsRuns ram rs next
        → next % page_size ≡ 0
        → next ≤ s.meta_top
        → idx + n ≤ s.managed_page_count
        → ((j : ℕ)
            → idx ≤ j
            → j < idx + n
            → Available ram s j
              × (¬ InRuns rs (ram + j * page_size))
              × (ram + j * page_size < next))
        → ((j : ℕ)
            → (j < idx) ⊎ (idx + n ≤ j)
            → (InRuns rs (ram + j * page_size) ⊎ (next ≤ ram + j * page_size)) ↔ Available ram s j)
        → Given s idx n (
            mark_allocated ram top n
              (record s { free_runs = rs; free_meta_nodes = nodes; next_paddr = next })
              addr)
    given rs nodes next addr start w na room l inner outer = rw start (
        let u : Allocator = record s {
          free_runs = rs;
          free_meta_nodes = nodes;
          next_paddr = next;
        } in
        let t : Allocator = mark_allocated ram top n u (ram + idx * page_size) in
        let m : Marked ram top al lo up hi u idx n t =
          mark_allocated-Marked ram top al lo up hi n u idx v.managed v.counts l in
        record {
          valid = record {
            ready = m.init ∙ v.ready;
            runs = rw (m.runs, m.next) w;
            next_aligned = rw (m.next) na;
            next_room = rw (m.next, m.meta) room;
            meta_room = rw (m.meta) v.meta_room;
            managed = m.managed ∙ v.managed;
            counts = m.size ∙ v.counts ∙ sym m.managed;
            in_use = λ j k.
                rw (m.runs, m.next)
                  (elim (Bool-cases (leb idx j && ltb j (idx + n))) [
                    | inl x ↦
                        let (_, a, b) = inner j (ground arith) (ground arith) in
                        let one : ref_of t j ≡ 1 = m.inside j (ground arith) (ground arith) in
                        (λ z. absurd (omega arith), λ z. absurd (ground (arith, a)))
                    | inr x ↦
                        let k' : j < s.managed_page_count = omega (arith, m.managed) in
                        let same : ref_of t j ≡ ref_of s j = m.outside j (ground arith) in
                        let o = outer j (ground arith) in
                        rw same (λ z. o.1 ((v.in_use j k').0 z), λ z. (v.in_use j k').1 (o.0 z))
                  ]);
          };
          room = l;
          were_free = λ j a b. (v.in_use j (omega arith)).1 (inner j a b).0;
          inside = m.inside;
          outside = m.outside;
        })

  -- The outcome of a request for `n` pages: 0 and no change, where neither a run nor the memory above
  -- has them, or pages that were free.
  abbrev pub Allocated : Allocator → ℕ → Allocator × ℕ → Type 0
  Allocated s n r =
      ((r.1 ≡ 0)
        × (r.0 ≡ s)
        × AllShorter n s.free_runs
        × (s.meta_top < s.next_paddr + n * page_size))
      ⊎ ((idx : ℕ) × (r.1 ≡ ram + idx * page_size) × Given s idx n r.0)

  pub alloc_pages_try-take_run :
      (s : Allocator) (v : IsAllocator ram top s) (n : ℕ)
      → 0 < n
      → alloc_pages_try ram top s n ≡ elim (take_run s.free_runs n) [
        | none ↦ bump ram top s n
        | some (paddr, rs, emptied) ↦ (
          mark_allocated ram top n
              (record s {
                free_runs = rs;
                free_meta_nodes = if emptied then s.free_meta_nodes + 1 else s.free_meta_nodes;
              })
              paddr,
          paddr,
        )
      ]
  unfolding alloc_pages_try
  alloc_pages_try-take_run s v n p =
      ap {A = Allocator × Bool} {B = Allocator × ℕ} rest (init-ready ram top al lo up hi s v)
      ∙ rw z refl
    where
      z : (n == 0) ≡ false
      z = ground arith

      rest : Allocator × Bool → Allocator × ℕ
      rest q =
          if not q.1
          then (q.0, 0)
          else if n == 0
          then (q.0, 0)
          else elim (take_run q.0.free_runs n) [
            | none ↦ bump ram top q.0 n
            | some (paddr, rs, emptied) ↦
                let nodes = if emptied then q.0.free_meta_nodes + 1 else q.0.free_meta_nodes in
                (
                  mark_allocated ram top n
                      (record (q.0) { free_runs = rs; free_meta_nodes = nodes }) paddr,
                  paddr,
                )
          ]

  module _ (s : Allocator) (v : IsAllocator ram top s) (n : ℕ) (p : 0 < n)
      (small : n * page_size < 2 ^ 32) where
    low : ram ≤ s.next_paddr
    low = runs_bound ram s.next_paddr s.free_runs v.runs

    bump-Allocated : AllShorter n s.free_runs → Allocated s n (bump ram top s n)
    unfolding bump
    bump-Allocated short =
        elim (Bool-cases (
          ltb s.meta_top (add32 s.next_paddr (mul32 n page_size))
          || ltb (add32 s.next_paddr (mul32 n page_size)) s.next_paddr)) [
            | inl x ↦
                let b = v.next_room in
                let c = v.meta_room in rw x (inl (refl, refl, short, ground arith))
            | inr x ↦
                let b = v.next_room in
                let c = v.meta_room in
                let d = v.next_aligned in
                let m = v.managed in
                let fits : s.next_paddr + n * page_size ≤ s.meta_top = ground arith in
                let e : add32 s.next_paddr (mul32 n page_size) ≡ s.next_paddr + n * page_size =
                  omega arith in
                let idx : ℕ = (s.next_paddr - ram) / page_size in
                let start : s.next_paddr ≡ ram + idx * page_size = omega (arith, low) in
                rw (x, e)
                  (inr (
                    idx,
                    start,
                    given s v n idx s.free_runs s.free_meta_nodes (s.next_paddr + n * page_size)
                        s.next_paddr start
                        (raise_bound ram s.next_paddr (s.next_paddr + n * page_size) s.free_runs
                          (omega arith) v.runs)
                        (omega arith) fits (omega arith)
                        (λ j y z. (
                          inr (omega arith),
                          runs_above ram s.next_paddr (ram + j * page_size) s.free_runs v.runs
                              (omega arith),
                          omega arith,
                        ))
                        (λ j o. ground arith),
                  ))
          ]

    found-Allocated :
        (o : Option (ℕ × List PageRun × Bool))
        → Taken ram s.free_runs s.next_paddr n o
        → Allocated s n (elim o [
          | none ↦ bump ram top s n
          | some (paddr, rs, emptied) ↦ (
            mark_allocated ram top n
                (record s {
                  free_runs = rs;
                  free_meta_nodes = if emptied then s.free_meta_nodes + 1 else s.free_meta_nodes;
                })
                paddr,
            paddr,
          )
        ])
    found-Allocated none t = bump-Allocated t
    found-Allocated (some (paddr, rs, emptied)) (w, a, b, c, e, f) =
        let r = v.next_room in
        let q = v.meta_room in
        let m = v.managed in
        let idx : ℕ = (paddr - ram) / page_size in
        let start : paddr ≡ ram + idx * page_size = omega arith in
        inr (
          idx,
          start,
          given s v n idx rs (if emptied then s.free_meta_nodes + 1 else s.free_meta_nodes)
              s.next_paddr paddr start w v.next_aligned r (omega arith)
              (λ j y z.
                let inside : InRange paddr n (ram + j * page_size) = (omega arith, omega arith) in
                (
                  inl ((e (ram + j * page_size)).1 (inr inside)),
                  f (ram + j * page_size) inside,
                  omega arith,
                ))
              (λ j o.
                let out : ¬ InRange paddr n (ram + j * page_size) = λ (x, y). ground arith in
                ground (arith, e (ram + j * page_size), out)),
        )

    -- On a sound allocator, a request for `n` pages of less than 4 GiB either returns 0 with nothing
    -- changed, and then no run has `n` pages and they do not fit below the nodes; or it returns the
    -- address of pages that were all free: they have the count 1 now, no other count has changed, and
    -- the allocator is sound again.
    pub alloc_pages_try-Allocated : Allocated s n (alloc_pages_try ram top s n)
    alloc_pages_try-Allocated = rw (alloc_pages_try-take_run s v n p) (
        found-Allocated (take_run s.free_runs n) (
          take_run-Taken s.free_runs ram s.next_paddr n v.runs
            (omega (arith, v.next_room, v.meta_room)) p))
