-- ===== src/PageAlloc/Take.antt =====
-- mm/page_alloc.c: what first fit takes from the list of free runs, and what coalescing leaves.
use sugimotos.Prelude.{
  ℕ, ◌+◌, ◌-◌, ◌*◌, ◌%◌, ◌^◌, ◌≤◌, ◌<◌, ◌≡◌, ◌↔◌, ◌⊎◌, Bool, List, [], ◌∷◌, Option, none, some,
  arith, inl, inr, Bool-cases, leb, ◌==◌, page_size, add32, mul32,
}
use sugimotos.PageAlloc.{PageRun, run_end}
use sugimotos.PageAlloc.Sorted.{IsRuns, InRuns, below}
use sugimotos.PageAlloc.Runs.{take_run}

abbrev pub InRange : ℕ → ℕ → ℕ → Type 0
InRange start n a = (start ≤ a) × (a < start + n * page_size)

-- No run has `n` pages.
abbrev pub AllShorter : ℕ → List PageRun → Type 0
AllShorter n [] = Unit {0}
AllShorter n (r ∷ rs) = (r.pages < n) × AllShorter n rs

-- What a search for `n` pages returns: pages that were free and are no more, or that no run has them.
abbrev pub Taken : ℕ → List PageRun → ℕ → ℕ → Option (ℕ × List PageRun × Bool) → Type 0
Taken lo rs hi n none = AllShorter n rs
Taken lo rs hi n (some (paddr, rs', emptied)) =
    IsRuns lo rs' hi
    × (lo ≤ paddr)
    × (paddr % page_size ≡ 0)
    × (paddr + n * page_size ≤ hi)
    × ((a : ℕ) → InRuns rs a ↔ (InRuns rs' a ⊎ InRange paddr n a))
    × ((a : ℕ) → InRange paddr n a → ¬ InRuns rs' a)

pub runs_bound : (lo hi : ℕ) (rs : List PageRun) → IsRuns lo rs hi → lo ≤ hi
runs_bound lo hi [] v = v
runs_bound lo hi (r ∷ rs) (x, y, z, w) = omega (arith, runs_bound (run_end r) hi rs w)

pub lower_bound :
    (lo lo' hi : ℕ) (rs : List PageRun) → lo' ≤ lo → IsRuns lo rs hi → IsRuns lo' rs hi
lower_bound lo lo' hi [] l v = omega arith
lower_bound lo lo' hi (r ∷ rs) l (x, y, z, w) = (omega arith, y, z, w)

take_cons-Taken :
    (r : PageRun) (rs : List PageRun) (lo hi n : ℕ) (o : Option (ℕ × List PageRun × Bool))
    → 0 < n
    → IsRuns lo (r ∷ rs) hi
    → r.pages < n
    → Taken (run_end r) rs hi n o
    → Taken lo
        (r ∷ rs)
        hi
        n
        (elim o [ none ↦ none | some (paddr, ws, emptied) ↦ some (paddr, r ∷ ws, emptied) ])
take_cons-Taken r rs lo hi n none p v l t = (l, t)
take_cons-Taken r rs lo hi n (some (paddr, ws, emptied)) p (x, y, z, w) l (a, b, c, d, e, f) =
    ((x, y, z, a), omega arith, c, d, (λ q. ground (arith, e q)), λ q m. λ k. ground (arith, f q m))

-- First fit returns whole pages that were free, and takes exactly them from the list, which stays
-- sorted; or it returns nothing, and then no run has as many pages.
pub take_run-Taken :
    (rs : List PageRun) (lo hi n : ℕ)
    → IsRuns lo rs hi
    → hi < 2 ^ 32
    → 0 < n
    → Taken lo rs hi n (take_run rs n)
unfolding take_run
take_run-Taken [] lo hi n v h p = tt
take_run-Taken (cur ∷ rest) lo hi n (x, y, z, w) h p = elim (Bool-cases (leb n cur.pages)) [
  | inr c ↦ rw c (
      take_cons-Taken cur rest lo hi n (take_run rest n) p (x, y, z, w) (ground arith)
        (take_run-Taken rest (run_end cur) hi n w h p))
  | inl c ↦
      let top : run_end cur ≤ hi = runs_bound (run_end cur) hi rest w in
      let le : n ≤ cur.pages = ground arith in
      let gone : (a : ℕ) → InRange cur.base n a → ¬ InRuns rest a =
        λ a m. below (run_end cur) hi a rest w (omega arith) in
      elim (Bool-cases (cur.pages == n)) [
        | inl d ↦
            let same : cur.pages ≡ n = ground arith in
            rw (c, d)
              (
                lower_bound (run_end cur) lo hi rest (omega arith) w,
                x,
                z,
                omega arith,
                (λ a. ground arith),
                gone,
              )
        | inr d ↦
            let e : add32 cur.base (mul32 n page_size) ≡ cur.base + n * page_size = omega arith in
            let f : cur.base + n * page_size + (cur.pages - n) * page_size ≡ run_end cur =
              omega arith in
            let more : n < cur.pages = ground arith in
            rw (c, d, e)
              (
                (omega arith, omega arith, omega arith, rw f w),
                x,
                z,
                omega arith,
                (λ a. ground (arith, f)),
                λ a m. λ k. ground (arith, gone a m),
              )
      ]
]
