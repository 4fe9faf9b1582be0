-- ===== src/PageAlloc/Sorted.antt =====
-- mm/page_alloc.c: the list of free runs stays sorted, and what the return of a page adds to it.
use sugimotos.Prelude.{
  ℕ, ◌+◌, ◌*◌, ◌%◌, ◌≤◌, ◌<◌, ◌≡◌, ◌↔◌, ◌⊎◌, List, [], ◌∷◌, arith, inl, inr, Bool-cases, ltb, ◌==◌,
  page_size,
}
use sugimotos.PageAlloc.{PageRun, run_end}
use sugimotos.PageAlloc.Runs.{
  Plan, overlap, grown, merged, needs_first, needs_node, plan_cons, insert_at, insert_after,
  insert_page,
}

-- The runs lie between `lo` and `hi`, in rising order and apart, each of whole pages and not empty.
abbrev pub IsRuns : ℕ → List PageRun → ℕ → Type 0
IsRuns lo [] hi = lo ≤ hi
IsRuns lo (r ∷ rs) hi =
    (lo ≤ r.base) × (0 < r.pages) × (r.base % page_size ≡ 0) × IsRuns (run_end r) rs hi

-- Address `a` lies in one of the runs.
abbrev pub InRuns : List PageRun → ℕ → Type 0
InRuns [] a = ⊥
InRuns (r ∷ rs) a = ((r.base ≤ a) × (a < run_end r)) ⊎ InRuns rs a

abbrev pub InPage : ℕ → ℕ → Type 0
InPage paddr a = (paddr ≤ a) × (a < paddr + page_size)

-- A page that was not free is, and nothing else has changed.
abbrev pub Inserted : ℕ → List PageRun → ℕ → ℕ → List PageRun → Type 0
Inserted lo rs paddr hi rs' =
    IsRuns lo rs' hi
    × (¬ InRuns rs paddr)
    × ((a : ℕ) → InRuns rs' a ↔ (InRuns rs a ⊎ InPage paddr a))

abbrev pub Planned : ℕ → List PageRun → ℕ → ℕ → Plan → Type 0
Planned lo rs paddr hi overlap = InRuns rs paddr
Planned lo rs paddr hi (grown rs') = Inserted lo rs paddr hi rs'
Planned lo rs paddr hi (merged rs') = Inserted lo rs paddr hi rs'
Planned lo rs paddr hi (needs_first rs') = Inserted lo rs paddr hi rs'
Planned lo rs paddr hi (needs_node rs') = Inserted lo rs paddr hi rs'

-- Nothing below the first run is in the list.
pub below : (lo hi a : ℕ) (rs : List PageRun) → IsRuns lo rs hi → a < lo → ¬ InRuns rs a
below lo hi a [] v l h = h
below lo hi a (r ∷ rs) (x, y, z, w) l (inl (b, c)) = omega arith
below lo hi a (r ∷ rs) (x, y, z, w) l (inr h) = below (run_end r) hi a rs w (omega arith) h

abbrev pub StartsFrom : ℕ → List PageRun → Type 0
StartsFrom paddr [] = Unit {0}
StartsFrom paddr (r ∷ rs) = paddr ≤ r.base

insert_at-Planned :
    (cur : PageRun) (rest : List PageRun) (lo hi paddr : ℕ)
    → IsRuns lo (cur ∷ rest) hi
    → paddr % page_size ≡ 0
    → cur.base ≤ paddr
    → StartsFrom paddr rest
    → paddr + page_size ≤ hi
    → Planned lo (cur ∷ rest) paddr hi (insert_at cur rest paddr)
unfolding insert_at
insert_at-Planned cur [] lo hi paddr (x, y, z, w) al l f h =
    elim (Bool-cases (ltb paddr (run_end cur))) [
      | inl c ↦ rw c (inl (l, ground arith))
      | inr c ↦ elim (Bool-cases (run_end cur == paddr)) [
        | inl d ↦
            rw (c, d) ((x, omega arith, z, ground arith), (λ m. ground arith), λ a. ground arith)
        | inr d ↦
            rw (c, d)
              (
                (x, y, z, (ground arith, omega arith, al, omega arith)),
                (λ m. ground arith),
                λ a. ground arith,
              )
      ]
    ]
insert_at-Planned cur (next ∷ rest) lo hi paddr (x, y, z, (x2, y2, z2, w2)) al l f h =
    elim (Bool-cases (ltb paddr (run_end cur))) [
      | inl c ↦ rw c (inl (l, ground arith))
      | inr c ↦ elim (Bool-cases (ltb next.base (paddr + page_size))) [
        | inl d ↦ rw (c, d) (inr (inl (ground arith, omega arith)))
        | inr d ↦
            let out : ¬ InRuns rest paddr = below (run_end next) hi paddr rest w2 (ground arith) in
            let clear : ¬ InRuns (cur ∷ next ∷ rest) paddr = λ m. ground (arith, out) in
            elim (Bool-cases (run_end cur == paddr)) [
              | inl e ↦
                  elim (Bool-cases (run_end (record cur { pages = cur.pages + 1 }) == next.base)) [
                    | inl g ↦
                        let same : cur.base + (cur.pages + 1 + next.pages) * page_size
                            ≡ run_end next =
                          ground arith in
                        rw (c, d, e, g) ((x, omega arith, z, rw same w2), clear, λ a. ground arith)
                    | inr g ↦
                        rw (c, d, e, g)
                          (
                            (x, omega arith, z, (ground arith, y2, z2, w2)),
                            clear,
                            λ a. ground arith,
                          )
                  ]
              | inr e ↦ elim (Bool-cases (paddr + page_size == next.base)) [
                | inl g ↦
                    let same : paddr + (next.pages + 1) * page_size ≡ run_end next = ground arith in
                    rw (c, d, e, g)
                      (
                        (x, y, z, (ground arith, omega arith, al, rw same w2)),
                        clear,
                        λ a. ground arith,
                      )
                | inr g ↦
                    rw (c, d, e, g)
                      (
                        (x, y, z, (ground arith, omega arith, al, (ground arith, y2, z2, w2))),
                        clear,
                        λ a. ground arith,
                      )
              ]
            ]
      ]
    ]

-- A run in front of a list into which the page is put.
plan_cons-Planned :
    (r : PageRun) (rs : List PageRun) (lo hi paddr : ℕ) (p : Plan)
    → IsRuns lo (r ∷ rs) hi
    → run_end r ≤ paddr
    → Planned (run_end r) rs paddr hi p
    → Planned lo (r ∷ rs) paddr hi (plan_cons r p)
unfolding plan_cons
plan_cons-Planned r rs lo hi paddr overlap v l h = inr h
plan_cons-Planned r rs lo hi paddr (grown ws) (x, y, z, _) l (a, b, c) =
    ((x, y, z, a), (λ m. ground arith), λ q. ground (arith, c q))
plan_cons-Planned r rs lo hi paddr (merged ws) (x, y, z, _) l (a, b, c) =
    ((x, y, z, a), (λ m. ground arith), λ q. ground (arith, c q))
plan_cons-Planned r rs lo hi paddr (needs_first ws) (x, y, z, _) l (a, b, c) =
    ((x, y, z, a), (λ m. ground arith), λ q. ground (arith, c q))
plan_cons-Planned r rs lo hi paddr (needs_node ws) (x, y, z, _) l (a, b, c) =
    ((x, y, z, a), (λ m. ground arith), λ q. ground (arith, c q))

insert_after-Planned :
    (cur : PageRun) (rest : List PageRun) (lo hi paddr : ℕ)
    → IsRuns lo (cur ∷ rest) hi
    → paddr % page_size ≡ 0
    → cur.base ≤ paddr
    → paddr + page_size ≤ hi
    → Planned lo (cur ∷ rest) paddr hi (insert_after cur rest paddr)
unfolding insert_after
insert_after-Planned cur [] lo hi paddr v al l h = insert_at-Planned cur [] lo hi paddr v al l tt h
insert_after-Planned cur (next ∷ rest) lo hi paddr v al l h =
    elim (Bool-cases (ltb next.base paddr)) [
      | inl e ↦ rw e (
          plan_cons-Planned cur (next ∷ rest) lo hi paddr (insert_after next rest paddr) v
            (ground (arith, v.3.0))
            (insert_after-Planned next rest (run_end cur) hi paddr v.3 al (ground arith) h))
      | inr e ↦ rw e (insert_at-Planned cur (next ∷ rest) lo hi paddr v al l (ground arith) h)
    ]

-- The return of a page to a sorted list is refused as an overlap exactly where the page is free
-- already. Else the list stays sorted, the page is free afterwards, and no other byte changes.
pub insert_page-Planned :
    (rs : List PageRun) (lo hi paddr : ℕ)
    → IsRuns lo rs hi
    → paddr % page_size ≡ 0
    → lo ≤ paddr
    → paddr + page_size ≤ hi
    → Planned lo rs paddr hi (insert_page rs paddr)
unfolding insert_page
insert_page-Planned [] lo hi paddr v al l h =
    ((l, omega arith, al, omega arith), (λ m. m), λ a. ground arith)
insert_page-Planned (first ∷ rest) lo hi paddr (x, y, z, w) al l h =
    elim (Bool-cases (ltb paddr first.base)) [
      | inr e ↦ rw e (insert_after-Planned first rest lo hi paddr (x, y, z, w) al (ground arith) h)
      | inl e ↦ elim (Bool-cases (ltb first.base (paddr + page_size))) [
        | inl d ↦ absurd (ground arith)
        | inr d ↦
            let out : ¬ InRuns rest paddr = below (run_end first) hi paddr rest w (ground arith) in
            elim (Bool-cases (paddr + page_size == first.base)) [
              | inl g ↦
                  let same : paddr + (first.pages + 1) * page_size ≡ run_end first = ground arith in
                  rw (e, d, g)
                    ((l, omega arith, al, rw same w), (λ m. ground (arith, out)), λ a. ground arith)
              | inr g ↦
                  rw (e, d, g)
                    (
                      (l, omega arith, al, (ground arith, y, z, w)),
                      (λ m. ground (arith, out)),
                      λ a. ground arith,
                    )
            ]
      ]
    ]
