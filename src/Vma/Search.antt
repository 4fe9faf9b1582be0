-- ===== src/Vma/Search.antt =====
-- mm/process_vm.c: what the searches of the table find.
use sugimotos.Prelude.{
  ℕ, zero, suc, ◌+◌, ◌≤◌, ◌<◌, ◌≡◌, refl, true, false, not, ◌&&◌, ◌||◌, List, [], ◌∷◌, length, none,
  some, arith, ◌⊎◌, inl, inr, Bool-cases, leb, ltb,
}
use sugimotos.Proc.{UserVma}
use sugimotos.Vma.{vma_at}
use sugimotos.Vma.Table.{
  find_free_from, proc_find_free_vma_slot, find_vma_from, proc_find_vma_index,
  proc_range_overlaps_any_vma, conflicts,
}

find_free_from-some :
    (vs : List UserVma) (k : ℕ) {i : ℕ}
    → find_free_from vs k ≡ some i
    → (j : ℕ) × (i ≡ k + j) × ((vma_at vs j).used ≡ false) × (j < length vs)
unfolding find_free_from
find_free_from-some [] k h = absurd (ground arith)
find_free_from-some (v ∷ vs) k h = elim (Bool-cases v.used) [
  | inl e ↦
      let (j, a, b, d) = find_free_from-some vs (k + 1) (rw e at h) in
      (suc j, omega arith, b, omega arith)
  | inr e ↦ (0, ground arith, e, omega arith)
]

pub proc_find_free_vma_slot-some :
    (vs : List UserVma) {i : ℕ}
    → proc_find_free_vma_slot vs ≡ some i
    → ((vma_at vs i).used ≡ false) × (i < length vs)
unfolding proc_find_free_vma_slot
proc_find_free_vma_slot-some vs {i} h =
    let (j, a, b, d) = find_free_from-some vs 0 h in let e : i ≡ j = omega arith in rw e (b, d)

find_vma_from-some :
    (vs : List UserVma) (addr k : ℕ) {i : ℕ}
    → find_vma_from vs addr k ≡ some i
    → (j : ℕ) × (i ≡ k + j)
      × ((vma_at vs j).used ≡ true)
      × ((vma_at vs j).start ≤ addr)
      × (addr < (vma_at vs j).end)
unfolding find_vma_from
find_vma_from-some [] addr k h = absurd (ground arith)
find_vma_from-some (v ∷ vs) addr k h =
    elim (Bool-cases (v.used && (leb v.start addr && ltb addr v.end))) [
      | inl e ↦ (0, ground arith, ground arith, ground arith, ground arith)
      | inr e ↦
          let (j, a, b, c, d) = find_vma_from-some vs addr (k + 1) (rw e at h) in
          (suc j, omega arith, b, c, d)
    ]

pub proc_find_vma_index-some :
    (vs : List UserVma) (addr : ℕ) {i : ℕ}
    → proc_find_vma_index vs addr ≡ some i
    → ((vma_at vs i).used ≡ true) × ((vma_at vs i).start ≤ addr) × (addr < (vma_at vs i).end)
unfolding proc_find_vma_index
proc_find_vma_index-some vs addr {i} h =
    let (j, a, b, c, d) = find_vma_from-some vs addr 0 h in
    let e : i ≡ j = omega arith in rw e (b, c, d)

find_vma_from-none :
    (vs : List UserVma) (addr k j : ℕ)
    → find_vma_from vs addr k ≡ none
    → (vma_at vs j).used ≡ true
    → (vma_at vs j).start ≤ addr
    → (vma_at vs j).end ≤ addr
unfolding find_vma_from
find_vma_from-none [] addr k j h u l = absurd (ground arith)
find_vma_from-none (v ∷ vs) addr k zero h u l = ground arith
find_vma_from-none (v ∷ vs) addr k (suc j) h u l =
    find_vma_from-none vs addr (k + 1) j (ground arith) u l

pub proc_find_vma_index-none :
    (vs : List UserVma) (addr j : ℕ)
    → proc_find_vma_index vs addr ≡ none
    → (vma_at vs j).used ≡ true
    → (vma_at vs j).start ≤ addr
    → (vma_at vs j).end ≤ addr
unfolding proc_find_vma_index
proc_find_vma_index-none vs addr j h u l = find_vma_from-none vs addr 0 j h u l

-- Neither loop over the table reports a conflict, where every used area is apart from the range.
pub conflicts-false :
    (vs : List UserVma) (start end_ j : ℕ)
    → conflicts vs start end_ ≡ false
    → (vma_at vs j).used ≡ true
    → (end_ ≤ (vma_at vs j).start) ⊎ ((vma_at vs j).end ≤ start)
unfolding conflicts
conflicts-false [] start end_ j h u = absurd (ground arith)
conflicts-false (v ∷ vs) start end_ zero h u = ground arith
conflicts-false (v ∷ vs) start end_ (suc j) h u = conflicts-false vs start end_ j (ground arith) u

pub conflicts-true :
    (vs : List UserVma) (start end_ : ℕ)
    → conflicts vs start end_ ≡ true
    → (j : ℕ) × ((vma_at vs j).used ≡ true)
      × ((vma_at vs j).start < end_)
      × (start < (vma_at vs j).end)
unfolding conflicts
conflicts-true [] start end_ h = absurd (ground arith)
conflicts-true (v ∷ vs) start end_ h =
    elim (Bool-cases (v.used && not (leb end_ v.start || leb v.end start))) [
      | inl e ↦ (0, ground arith, ground arith, ground arith)
      | inr e ↦ let (j, a, b, c) = conflicts-true vs start end_ (rw e at h) in (suc j, a, b, c)
    ]

-- The two loops that look for an overlap agree.
pub proc_range_overlaps_any_vma-conflicts :
    (vs : List UserVma) (start end_ : ℕ)
    → proc_range_overlaps_any_vma vs start end_ ≡ conflicts vs start end_
unfolding proc_range_overlaps_any_vma conflicts
proc_range_overlaps_any_vma-conflicts [] start end_ = refl
proc_range_overlaps_any_vma-conflicts (v ∷ vs) start end_ =
    ground (arith, proc_range_overlaps_any_vma-conflicts vs start end_)
