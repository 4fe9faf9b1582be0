-- ===== src/Vma/Unmapped.antt =====
-- mm/process_vm.c: what a call of `proc_munmap` does to the areas of the process.
use sugimotos.Prelude.{
  ℕ, zero, suc, ◌+◌, ◌-◌, ◌%◌, ◌^◌, ◌≤◌, ◌<◌, ◌≡◌, ◌≢◌, ◌⊎◌, refl, ap, ◌∙◌, Bool, true, false, not,
  ◌||◌, ◌==◌, leb, ltb, List, Option, none, some, arith, inl, inr, Bool-cases, page_size, add32,
}
use sugimotos.Proc.{UserVma, Process, proc_vma_max}
use sugimotos.Vma.{Pages, vma_at, page_ceil, page_floor, is_aligned, user_mmap_base, user_mmap_end}
use sugimotos.Vma.Inv.{IsVmas, Holds}
use sugimotos.Vma.Trim.{Trimmed}
use sugimotos.Vma.Unmap.{page_ceil_lem, loop_done}
use sugimotos.Vma.Munmap.{munmap_slot, munmap_loop, finish_munmap, proc_munmap}

-- What a call may do to the table, whether it returns 0 or -1.
abbrev pub Unmapped : List UserVma → List UserVma → ℕ → ℕ → Bool → Type 0
Unmapped vs vs' addr end_ ok =
    IsVmas vs'
    × ((b q : ℕ) → Holds vs' b q → Holds vs b q)
    × ((b q : ℕ) → Holds vs b q → (b < addr) ⊎ (end_ ≤ b) → Holds vs' b q)
    × (ok ≡ true → (b q : ℕ) → Holds vs' b q → (b < addr) ⊎ (end_ ≤ b))

refused : (vs : List UserVma) (addr end_ : ℕ) → IsVmas vs → Unmapped vs vs addr end_ false
refused vs addr end_ v = (v, (λ b q h. h), (λ b q h _. h), λ e. absurd (ground arith))

finished :
    {M : Type 0} (pages : Pages M) (m : M) (p : Process) (addr end_ : ℕ)
    (r : List UserVma × Option Bool)
    → Trimmed p.vmas r.0 addr end_
    → (r.1 ≢ none → (b q : ℕ) → Holds r.0 b q → (b < addr) ⊎ (end_ ≤ b))
    → let (m', p', ok) = finish_munmap pages m p addr end_ r in Unmapped p.vmas p'.vmas addr end_ ok
unfolding finish_munmap
finished pages m p addr end_ (vs, none) t d = (t.valid, t.old, t.kept, λ e. absurd (ground arith))
finished pages m p addr end_ (vs, some false) t d = (t.valid, t.old, t.kept, λ _. d (λ x. cc))
finished pages m p addr end_ (vs, some true) t d = (t.valid, t.old, t.kept, λ _. d (λ x. cc))

pub proc_munmap_clears :
    {M : Type 0} (pages : Pages M) (m : M) (p : Process) (addr len : ℕ)
    → IsVmas p.vmas
    → addr < 2 ^ 32
    → let (m', p', ok) = proc_munmap pages m p addr len in
      Unmapped p.vmas p'.vmas addr (addr + page_ceil len) ok
unfolding proc_munmap
proc_munmap_clears pages m p addr len v a =
    elim (Bool-cases (not p.is_user || not (is_aligned addr) || len == 0)) [
      | inl x ↦ rw x (refused p.vmas addr (addr + page_ceil len) v)
      | inr x ↦ elim (Bool-cases (ltb (add32 addr (page_ceil len)) addr)) [
        | inl y ↦ rw (x, y) (refused p.vmas addr (addr + page_ceil len) v)
        | inr y ↦
            elim (Bool-cases
              (ltb addr user_mmap_base || ltb user_mmap_end (add32 addr (page_ceil len)))) [
                | inl z ↦ rw (x, y, z) (refused p.vmas addr (addr + page_ceil len) v)
                | inr z ↦
                    let (c, s) = page_ceil_lem len in
                    let al : addr % page_size ≡ 0 = ground arith in
                    let e : add32 addr (page_ceil len) ≡ addr + page_ceil len = ground arith in
                    let el : (addr + page_ceil len) % page_size ≡ 0 = omega arith in
                    let (t, d) = loop_done p.vmas addr (addr + page_ceil len) v al el in
                    rw (x, y, z, e)
                      (finished pages m p addr (addr + page_ceil len)
                        (munmap_loop proc_vma_max 0 p.vmas false addr (addr + page_ceil len)) t d)
              ]
      ]
    ]

munmap_slot_empty : (vs : List UserVma) (i addr : ℕ) → munmap_slot vs i addr addr ≡ (vs, some false)
unfolding munmap_slot
munmap_slot_empty vs i addr = elim (Bool-cases (vma_at vs i).used) [
  | inr u ↦ rw u refl
  | inl u ↦ elim (Bool-cases (leb (vma_at vs i).end addr || leb addr (vma_at vs i).start)) [
    | inl x ↦ rw (u, x) refl
    | inr x ↦
        let s : ltb (vma_at vs i).start addr ≡ true = ground arith in
        let e : ltb addr (vma_at vs i).end ≡ true = ground arith in
        let y : leb addr addr ≡ true = ground arith in rw (u, x, s, e, y) refl
  ]
]

munmap_loop_empty :
    (n i : ℕ) (vs : List UserVma) (addr : ℕ) → munmap_loop n i vs false addr addr ≡ (vs, some false)
unfolding munmap_loop
munmap_loop_empty zero i vs addr = refl
munmap_loop_empty (suc n) i vs addr =
    ap {A = List UserVma × Option Bool} {B = List UserVma × Option Bool}
      (λ r. elim r.1 [
        | none ↦ (r.0, none)
        | some c ↦ munmap_loop n (i + 1) r.0 (false || c) addr addr
      ])
      (munmap_slot_empty vs i addr)
    ∙ munmap_loop_empty n (i + 1) vs addr

-- For a length in the last page below 2 ^ 32, the rounding up wraps around to 0: the call returns 0
-- at any page of the region, and has changed nothing.
pub proc_munmap_wraps :
    {M : Type 0} (pages : Pages M) (m : M) (p : Process) (addr len : ℕ)
    → p.is_user ≡ true
    → addr % page_size ≡ 0
    → user_mmap_base ≤ addr
    → addr ≤ user_mmap_end
    → 2 ^ 32 - page_size < len
    → len < 2 ^ 32
    → proc_munmap pages m p addr len ≡ (m, p, true)
unfolding proc_munmap page_ceil page_floor finish_munmap
proc_munmap_wraps pages m p addr len u al lo hi l1 l2 =
    let e : add32 addr (page_ceil len) ≡ addr = omega arith in
    let x : not p.is_user || not (is_aligned addr) || len == 0 ≡ false = ground arith in
    let y : ltb addr addr ≡ false = ground arith in
    let z : ltb addr user_mmap_base || ltb user_mmap_end addr ≡ false = ground arith in
    rw (e, x, y, z, munmap_loop_empty proc_vma_max 0 p.vmas addr) refl
