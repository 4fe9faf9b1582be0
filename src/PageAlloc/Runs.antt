-- ===== src/PageAlloc/Runs.antt =====
-- mm/page_alloc.c: the changes of the list of free runs.
use sugimotos.Prelude.{
  ℕ, ◌+◌, ◌-◌, Bool, true, false, List, [], ◌∷◌, Option, none, some, ltb, leb, ◌==◌, if◌then◌else◌,
  add32, mul32, page_size,
}
use sugimotos.PageAlloc.{PageRun, run_end}

-- `coalesce_free_runs` from node `cur` on, and how many nodes it releases.
unfoldable pub coalesce_from : PageRun → List PageRun → List PageRun × ℕ
coalesce_from cur [] = (cur ∷ [], 0)
coalesce_from cur (next ∷ rest) =
    let joined = coalesce_from (record cur { pages = add32 cur.pages next.pages }) rest in
    let apart = coalesce_from next rest in
    if add32 cur.base (mul32 cur.pages page_size) == next.base
    then (joined.0, joined.1 + 1)
    else (cur ∷ apart.0, apart.1)

unfoldable pub coalesce_free_runs : List PageRun → List PageRun × ℕ
coalesce_free_runs [] = ([], 0)
coalesce_free_runs (cur ∷ rest) = coalesce_from cur rest

-- What the return of a page does to the list: an overlap with a free page, no change of the nodes, a
-- node released, or a node that is to be taken first, for the first run or for a later one.
pub data Plan : Type 0 where
  overlap : Plan
  grown : List PageRun → Plan
  merged : List PageRun → Plan
  needs_first : List PageRun → Plan
  needs_node : List PageRun → Plan

unfoldable pub plan_cons : PageRun → Plan → Plan
plan_cons r overlap = overlap
plan_cons r (grown rs) = grown (r ∷ rs)
plan_cons r (merged rs) = merged (r ∷ rs)
plan_cons r (needs_first rs) = needs_first (r ∷ rs)
plan_cons r (needs_node rs) = needs_node (r ∷ rs)

abbrev pub one_page : ℕ → PageRun
one_page paddr = record { base = paddr; pages = 1 }

-- The end of `free_single_page_raw`, at the node `cur` before the page; `rest` follows it.
unfoldable pub insert_at : PageRun → List PageRun → ℕ → Plan
insert_at cur [] paddr =
    if ltb paddr (run_end cur)
    then overlap
    else if run_end cur == paddr
    then grown (record cur { pages = cur.pages + 1 } ∷ [])
    else needs_node (cur ∷ one_page paddr ∷ [])
insert_at cur (next ∷ rest) paddr =
    if ltb paddr (run_end cur)
    then overlap
    else if ltb next.base (paddr + page_size)
    then overlap
    else if run_end cur == paddr
    then (if run_end (record cur { pages = cur.pages + 1 }) == next.base
        then merged (record cur { pages = cur.pages + 1 + next.pages } ∷ rest)
        else grown (record cur { pages = cur.pages + 1 } ∷ next ∷ rest))
    else if paddr + page_size == next.base
    then grown (cur ∷ record { base = paddr; pages = next.pages + 1 } ∷ rest)
    else needs_node (cur ∷ one_page paddr ∷ next ∷ rest)

-- The walk to the last node whose run starts before the page.
unfoldable pub insert_after : PageRun → List PageRun → ℕ → Plan
insert_after cur [] paddr = insert_at cur [] paddr
insert_after cur (next ∷ rest) paddr =
    if ltb next.base paddr
    then plan_cons cur (insert_after next rest paddr)
    else insert_at cur (next ∷ rest) paddr

unfoldable pub insert_page : List PageRun → ℕ → Plan
insert_page [] paddr = needs_first (one_page paddr ∷ [])
insert_page (first ∷ rest) paddr =
    if ltb paddr first.base
    then (if ltb first.base (paddr + page_size)
        then overlap
        else if paddr + page_size == first.base
        then grown (record { base = paddr; pages = first.pages + 1 } ∷ rest)
        else needs_first (one_page paddr ∷ first ∷ rest))
    else insert_after first rest paddr

-- The first run that holds `n` pages gives up its first `n`: their address, the list afterwards, and
-- whether a node is released.
unfoldable pub take_run : List PageRun → ℕ → Option (ℕ × List PageRun × Bool)
take_run [] n = none
take_run (cur ∷ rest) n =
    if leb n cur.pages
    then (if cur.pages == n
        then some (cur.base, rest, true)
        else some (
          cur.base,
          record { base = add32 cur.base (mul32 n page_size); pages = cur.pages - n } ∷ rest,
          false,
        ))
    else elim (take_run rest n) [
      | none ↦ none
      | some (paddr, rs, emptied) ↦ some (paddr, cur ∷ rs, emptied)
    ]
