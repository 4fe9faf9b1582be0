-- ===== src/PageAlloc/Coalesce.antt =====
-- mm/page_alloc.c: coalescing joins runs that touch, and changes no page.
use sugimotos.Prelude.{
  ℕ, ◌+◌, ◌*◌, ◌^◌, ◌≤◌, ◌<◌, ◌≡◌, ◌↔◌, refl, List, [], ◌∷◌, length, arith, inl, inr, Bool-cases,
  ◌==◌, page_size, add32, mul32,
}
use sugimotos.PageAlloc.{PageRun, run_end}
use sugimotos.PageAlloc.Sorted.{IsRuns, InRuns}
use sugimotos.PageAlloc.Take.{runs_bound}
use sugimotos.PageAlloc.Runs.{coalesce_from, coalesce_free_runs}

-- The same pages in a sorted list, and one node released for each that is gone.
abbrev pub Coalesced : ℕ → List PageRun → ℕ → List PageRun × ℕ → Type 0
Coalesced lo rs hi r =
    IsRuns lo r.0 hi × ((a : ℕ) → InRuns r.0 a ↔ InRuns rs a) × (length r.0 + r.1 ≡ length rs)

coalesce_from-Coalesced :
    (cur : PageRun) (rest : List PageRun) (lo hi : ℕ)
    → IsRuns lo (cur ∷ rest) hi
    → hi < 2 ^ 32
    → Coalesced lo (cur ∷ rest) hi (coalesce_from cur rest)
unfolding coalesce_from
coalesce_from-Coalesced cur [] lo hi v h = (v, (λ a. (λ x. x, λ x. x)), omega arith)
coalesce_from-Coalesced cur (next ∷ rest) lo hi (x, y, z, (x2, y2, z2, w2)) h =
    let bound : run_end next ≤ hi = runs_bound (run_end next) hi rest w2 in
    let e : add32 cur.base (mul32 cur.pages page_size) ≡ run_end cur = omega arith in
    let f : add32 cur.pages next.pages ≡ cur.pages + next.pages = omega arith in
    elim (Bool-cases (run_end cur == next.base)) [
      | inl c ↦
          let same : cur.base + (cur.pages + next.pages) * page_size ≡ run_end next =
            ground arith in
          let (a, b, d) =
            coalesce_from-Coalesced (record cur { pages = cur.pages + next.pages }) rest lo hi
              (x, omega arith, z, rw same w2) h in
          rw (e, c, f) (a, (λ q. ground (arith, b q)), omega arith)
      | inr c ↦
          let (a, b, d) = coalesce_from-Coalesced next rest (run_end cur) hi (x2, y2, z2, w2) h in
          rw (e, c) ((x, y, z, a), (λ q. ground (arith, b q)), omega arith)
    ]

pub coalesce_free_runs-Coalesced :
    (rs : List PageRun) (lo hi : ℕ)
    → IsRuns lo rs hi
    → hi < 2 ^ 32
    → Coalesced lo rs hi (coalesce_free_runs rs)
unfolding coalesce_free_runs
coalesce_free_runs-Coalesced [] lo hi v h = (v, (λ a. (λ x. x, λ x. x)), refl)
coalesce_free_runs-Coalesced (cur ∷ rest) lo hi v h = coalesce_from-Coalesced cur rest lo hi v h
