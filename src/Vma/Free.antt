-- ===== src/Vma/Free.antt =====
-- mm/process_vm.c: what `proc_find_free_mmap_range` finds.
use sugimotos.Prelude.{
  ℕ, zero, suc, ◌+◌, ◌-◌, ◌%◌, ◌^◌, ◌≤◌, ◌<◌, ◌≡◌, ◌⊎◌, true, ◌||◌, ◌&&◌, ltb, List, [], ◌∷◌,
  Option, none, some, arith, inl, inr, Bool-cases, Option-cases, page_size, add32,
}
use sugimotos.Proc.{UserVma}
use sugimotos.Vma.{vma_at, page_ceil, page_floor, user_mmap_base, user_mmap_end}
use sugimotos.Vma.Inv.{IsVmas}
use sugimotos.Vma.Mmap.{first_overlap, free_range_loop, proc_find_free_mmap_range}

-- Some used area shares a byte with the range.
abbrev pub Overlaps : List UserVma → ℕ → ℕ → Type 0
Overlaps vs start end_ =
    (j : ℕ) × ((vma_at vs j).used ≡ true)
    × (start < (vma_at vs j).end)
    × ((vma_at vs j).start < end_)

abbrev pub IsFree : List UserVma → ℕ → ℕ → Type 0
IsFree vs start end_ =
    (j : ℕ) → (vma_at vs j).used ≡ true → ((vma_at vs j).end ≤ start) ⊎ (end_ ≤ (vma_at vs j).start)

first_overlap-some :
    (vs : List UserVma) (start end_ : ℕ) {ve : ℕ}
    → first_overlap vs start end_ ≡ some ve
    → (j : ℕ) × ((vma_at vs j).used ≡ true)
      × ((vma_at vs j).end ≡ ve)
      × (start < ve)
      × ((vma_at vs j).start < end_)
unfolding first_overlap
first_overlap-some [] start end_ h = absurd (ground arith)
first_overlap-some (v ∷ vs) start end_ h =
    elim (Bool-cases (v.used && (ltb start v.end && ltb v.start end_))) [
      | inl e ↦ (0, ground arith, ground arith, ground arith, ground arith)
      | inr e ↦
          let (j, a, b, c, d) = first_overlap-some vs start end_ (rw e at h) in (suc j, a, b, c, d)
    ]

first_overlap-none :
    (vs : List UserVma) (start end_ : ℕ) → first_overlap vs start end_ ≡ none → IsFree vs start end_
unfolding first_overlap
first_overlap-none [] start end_ h j u = absurd (ground arith)
first_overlap-none (v ∷ vs) start end_ h zero u = ground arith
first_overlap-none (v ∷ vs) start end_ h (suc j) u =
    first_overlap-none vs start end_ (ground arith) j u

-- The first address of the region with `len` free bytes, or that there is none.
abbrev pub FirstFree : List UserVma → ℕ → Option ℕ → Type 0
FirstFree vs len none =
    (x : ℕ) → user_mmap_base ≤ x → x + len ≤ user_mmap_end → Overlaps vs x (x + len)
FirstFree vs len (some a) =
    (user_mmap_base ≤ a)
    × (a % page_size ≡ 0)
    × (a + len ≤ user_mmap_end)
    × IsFree vs a (a + len)
    × ((x : ℕ) → user_mmap_base ≤ x → x < a → Overlaps vs x (x + len))

pub page_ceil-aligned : (a : ℕ) → a % page_size ≡ 0 → a < 2 ^ 32 → page_ceil a ≡ a
unfolding page_ceil page_floor
page_ceil-aligned a h l = omega arith

free_range_loop-FirstFree :
    (fuel : ℕ) (vs : List UserVma) (addr len : ℕ)
    → IsVmas vs
    → user_mmap_end < addr + fuel
    → user_mmap_base ≤ addr
    → addr < 2 ^ 32
    → addr % page_size ≡ 0
    → len < 2 ^ 32
    → ((x : ℕ) → user_mmap_base ≤ x → x < addr → Overlaps vs x (x + len))
    → FirstFree vs len (free_range_loop fuel vs addr len)
unfolding free_range_loop
free_range_loop-FirstFree zero vs addr len v f lo hi al ll before =
    λ x b e. before x b (omega arith)
free_range_loop-FirstFree (suc fuel) vs addr len v f lo hi al ll before =
    elim (Bool-cases (ltb (add32 addr len) addr || ltb user_mmap_end (add32 addr len))) [
      | inl g ↦ rw g (λ x b e. before x b (ground arith))
      | inr g ↦
          let s : add32 addr len ≡ addr + len = ground arith in
          let t : addr + len ≤ user_mmap_end = ground arith in
          elim (Option-cases (first_overlap vs addr (addr + len))) [
            | inl o ↦ rw (g, s, o) (lo, al, t, first_overlap-none vs addr (addr + len) o, before)
            | inr (ve, o) ↦
                let (j, u, q, m, n) = first_overlap-some vs addr (addr + len) o in
                let ea : ve % page_size ≡ 0 = rw q at ((v.area j).end_aligned u) in
                let eb : ve < 2 ^ 32 = rw q at ((v.area j).bounded u) in
                rw (g, s, o, page_ceil-aligned ve ea eb)
                  (free_range_loop-FirstFree fuel vs ve len v (omega arith) (omega arith) eb ea ll
                    (λ x b l. elim (Bool-cases (ltb x addr)) [
                      | inl y ↦ before x b (ground arith)
                      | inr y ↦ (j, u, omega arith, ground arith)
                    ]))
          ]
    ]

-- `proc_find_free_mmap_range` ends within its fuel with the least address of the mmap region at
-- which `len` bytes are free, a whole page; and where it fails, every range of `len` bytes of the
-- region, at whatever address, overlaps an area.
pub proc_find_free_mmap_range-FirstFree :
    (vs : List UserVma) (len : ℕ)
    → IsVmas vs
    → len < 2 ^ 32
    → FirstFree vs len (proc_find_free_mmap_range vs len)
unfolding proc_find_free_mmap_range
proc_find_free_mmap_range-FirstFree vs len v l =
    free_range_loop-FirstFree (user_mmap_end - user_mmap_base + 1) vs user_mmap_base len v
      (omega arith) (omega arith) (omega arith) (omega arith) l (λ x a b. absurd (omega arith))
