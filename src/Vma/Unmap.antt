-- ===== src/Vma/Unmap.antt =====
-- mm/process_vm.c: what `proc_munmap` does to the areas of the process.
use sugimotos.Prelude.{
  ℕ, zero, suc, ◌+◌, ◌%◌, ◌^◌, ◌≤◌, ◌<◌, ◌≡◌, ◌≢◌, ◌⊎◌, refl, Bool, false, ◌||◌, ◌==◌, leb, ltb,
  if◌then◌else◌, List, Option, none, some, arith, inl, inr, Bool-cases, page_size,
}
use sugimotos.Proc.{UserVma, proc_vma_max}
use sugimotos.Vma.{vma_at, page_ceil, page_floor}
use sugimotos.Vma.Inv.{IsVmas, Holds}
use sugimotos.Vma.Shrink.{used_room}
use sugimotos.Vma.Trim.{Outside, Trimmed, no_change, two_changes}
use sugimotos.Vma.Cut.{StartsAt, EndsAt, cut_vma-Trimmed}
use sugimotos.Vma.Munmap.{munmap_slot, munmap_loop}

module _ (addr end_ : ℕ) (al : addr % page_size ≡ 0) (el : end_ % page_size ≡ 0) where
  munmap_slot-Trimmed :
      (vs : List UserVma) (i : ℕ)
      → IsVmas vs
      → let (vs', r) = munmap_slot vs i addr end_ in
        Trimmed vs vs' addr end_ × (r ≢ none → Outside addr end_ (vma_at vs' i))
  unfolding munmap_slot
  munmap_slot-Trimmed vs i v = elim (Bool-cases (vma_at vs i).used) [
    | inr u ↦ rw u (no_change vs addr end_ v, λ _ w. absurd (ground arith))
    | inl u ↦ elim (Bool-cases (leb (vma_at vs i).end addr || leb end_ (vma_at vs i).start)) [
      | inl x ↦ rw (u, x) (no_change vs addr end_ v, λ _ _ b l g. ground arith)
      | inr x ↦
          let cut_s : ℕ = if ltb (vma_at vs i).start addr then addr else (vma_at vs i).start in
          let cut_e : ℕ = if ltb end_ (vma_at vs i).end then end_ else (vma_at vs i).end in
          elim (Bool-cases (leb cut_e cut_s)) [
            | inl y ↦
                rw (u, x, y)
                  (no_change vs addr end_ v, λ _ _ b l g. ground (arith, (v.area i).nonempty u))
            | inr y ↦
                let s : StartsAt addr (vma_at vs i) cut_s = ground arith in
                let e : EndsAt end_ (vma_at vs i) cut_e = ground arith in
                rw (u, x, y)
                  (cut_vma-Trimmed vs i addr end_ v al el cut_s cut_e u s e (ground arith))
          ]
    ]
  ]

  munmap_loop-Trimmed :
      (n i : ℕ) (vs : List UserVma) (changed : Bool)
      → IsVmas vs
      → ((j : ℕ) → j < i → Outside addr end_ (vma_at vs j))
      → let (vs', r) = munmap_loop n i vs changed addr end_ in
        Trimmed vs vs' addr end_
        × (r ≢ none → (j : ℕ) → j < i + n → Outside addr end_ (vma_at vs' j))
  unfolding munmap_loop
  munmap_loop-Trimmed zero i vs changed v o = (no_change vs addr end_ v, λ _ j l. o j (omega arith))
  munmap_loop-Trimmed (suc n) i vs changed v o =
      go (munmap_slot vs i addr end_) (munmap_slot-Trimmed vs i v)
        (λ ws c. munmap_loop-Trimmed n (i + 1) ws (changed || c))
    where
      finish : List UserVma × Option Bool → List UserVma × Option Bool
      finish r = elim r.1 [
        | none ↦ (r.0, none)
        | some c ↦ munmap_loop n (i + 1) r.0 (changed || c) addr end_
      ]

      go :
          (r : List UserVma × Option Bool)
          → Trimmed vs r.0 addr end_ × (r.1 ≢ none → Outside addr end_ (vma_at r.0 i))
          → ((ws : List UserVma) (c : Bool)
              → IsVmas ws
              → ((j : ℕ) → j < i + 1 → Outside addr end_ (vma_at ws j))
              → let (us, q) = munmap_loop n (i + 1) ws (changed || c) addr end_ in
                Trimmed ws us addr end_
                × (q ≢ none → (j : ℕ) → j < i + 1 + n → Outside addr end_ (vma_at us j)))
          → Trimmed vs (finish r).0 addr end_
            × ((finish r).1 ≢ none
                → (j : ℕ) → j < i + suc n
                → Outside addr end_ (vma_at (finish r).0 j))
      go (ws, none) (t, _) _ = (t, λ x. absurd (x refl))
      go (ws, some c) (t, d) next =
          let before : (j : ℕ) → j < i + 1 → Outside addr end_ (vma_at ws j) = λ j l.
            elim (Bool-cases (j == i)) [
              | inl e ↦ let same : j ≡ i = ground arith in rw same (d (λ x. cc))
              | inr e ↦ t.stays j (o j (ground arith))
            ] in
          let (t', d') = next ws c t.valid before in
          (
            two_changes vs ws (munmap_loop n (i + 1) ws (changed || c) addr end_).0 addr end_ t t',
            λ x j l. d' x j (omega arith),
          )

pub page_ceil_lem : (a : ℕ) → (page_ceil a % page_size ≡ 0) × (page_ceil a < 2 ^ 32)
unfolding page_ceil page_floor
page_ceil_lem a = (omega arith, omega arith)

-- What the guards of `proc_munmap` have established where the loop runs.
module _ (vs : List UserVma) (addr end_ : ℕ) (v : IsVmas vs) (al : addr % page_size ≡ 0)
    (el : end_ % page_size ≡ 0) where
  pub loop_done :
      Trimmed vs (munmap_loop proc_vma_max 0 vs false addr end_).0 addr end_
      × ((munmap_loop proc_vma_max 0 vs false addr end_).1 ≢ none
          → (b q : ℕ) → Holds (munmap_loop proc_vma_max 0 vs false addr end_).0 b q
          → (b < addr) ⊎ (end_ ≤ b))
  loop_done =
      let (t, d) =
        munmap_loop-Trimmed addr end_ al el proc_vma_max 0 vs false v
          (λ j l. absurd (omega arith)) in
      (
        t,
        λ n b q (j, u, l, g, _).
            d n j
              (omega (
                arith,
                used_room (munmap_loop proc_vma_max 0 vs false addr end_).0 j u,
                t.valid.count,
              ))
              u b l g,
      )
