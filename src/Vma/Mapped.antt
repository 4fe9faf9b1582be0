-- ===== src/Vma/Mapped.antt =====
-- mm/process_vm.c: what `proc_mmap` does to the areas of the process.
use sugimotos.Prelude.{
  ℕ, ◌+◌, ◌%◌, ◌^◌, ◌≤◌, ◌<◌, ◌≡◌, ◌⊎◌, ◌↔◌, false, not, ◌||◌, ◌&&◌, ◌==◌, leb, ltb, List, some,
  arith, inl, inr, Bool-cases, Option-cases, page_size, add32, bit_and,
}
use sugimotos.Proc.{UserVma, Process}
use sugimotos.Vma.{Pages, page_ceil, user_mmap_base, user_mmap_end, is_aligned, map_fixed}
use sugimotos.Vma.Inv.{IsVmas, Holds}
use sugimotos.Vma.Add.{proc_add_vma-some, proc_add_vma_adds}
use sugimotos.Vma.Free.{page_ceil-aligned, FirstFree, proc_find_free_mmap_range-FirstFree}
use sugimotos.Vma.Unmap.{page_ceil_lem}
use sugimotos.Vma.Unmapped.{Unmapped, proc_munmap_clears}
use sugimotos.Vma.Table.{proc_add_vma, proc_range_overlaps_any_vma}
use sugimotos.Vma.Munmap.{proc_munmap}
use sugimotos.Vma.Mmap.{
  proc_find_free_mmap_range, choose_addr, map_at, map_fixed_at, map_anywhere, proc_mmap,
}

-- What a call that returns `a` has done with the table.
pub record Mapped (vs vs' : List UserVma) (a size prot : ℕ) : Type 0 where
  pub valid : IsVmas vs'
  pub in_region :
      (user_mmap_base ≤ a) × (a + size ≤ user_mmap_end) × (a % page_size ≡ 0) × (0 < size)
  pub inside : (b q : ℕ) → a ≤ b → b < a + size → Holds vs' b q ↔ (q ≡ prot)
  pub outside : (b q : ℕ) → (b < a) ⊎ (a + size ≤ b) → Holds vs' b q ↔ Holds vs b q

abbrev pub NoneHeld : List UserVma → ℕ → ℕ → Type 0
NoneHeld vs start end_ = (b q : ℕ) → start ≤ b → b < end_ → ¬ Holds vs b q

map_at-Mapped :
    (vs : List UserVma) (p : Process) (addr len prot a : ℕ)
    → IsVmas p.vmas
    → user_mmap_base ≤ addr
    → addr + len ≤ user_mmap_end
    → ((b q : ℕ) → (b < addr) ⊎ (addr + len ≤ b) → Holds p.vmas b q ↔ Holds vs b q)
    → (map_at p addr len prot).1 ≡ some a
    → Mapped vs (map_at p addr len prot).0.vmas a len prot × NoneHeld p.vmas a (a + len)
unfolding map_at
map_at-Mapped vs p addr len prot a v lo hi same h =
    let e : add32 addr len ≡ addr + len = omega arith in
    elim (Option-cases (proc_add_vma p.vmas addr (addr + len) prot)) [
      | inl x ↦ absurd (ground (arith, rw (e, map_at, x) at h))
      | inr (ws, x) ↦
          let ea : addr ≡ a = ground (arith, rw (e, map_at, x) at h) in
          let (lt, al, _, _, _, _, _, _) = proc_add_vma-some p.vmas ws addr (addr + len) prot x in
          let (w, holds, clear) =
            proc_add_vma_adds p.vmas ws addr (addr + len) prot v (omega arith) x in
          rw (← ea, e, map_at, x)
            (
              record {
                valid = w;
                in_region = (lo, hi, al, omega arith);
                inside = λ b q m n. (
                  λ y. elim ((holds b q).0 y) [
                    | inl z ↦ absurd (clear b q m n z)
                    | inr (_, _, z) ↦ z
                  ],
                  λ y. (holds b q).1 (inr (m, n, y)),
                );
                outside = λ b q o. (
                  λ y. elim ((holds b q).0 y) [
                    | inl z ↦ (same b q o).0 z
                    | inr (m, n, _) ↦ absurd (ground arith)
                  ],
                  λ y. (holds b q).1 (inl ((same b q o).1 y)),
                );
              },
              clear,
            )
    ]

choose_addr_lem :
    (vs : List UserVma) (hint len a : ℕ)
    → IsVmas vs
    → hint < 2 ^ 32
    → len < 2 ^ 32
    → choose_addr vs hint len ≡ some a
    → (user_mmap_base ≤ a) × (a + len ≤ user_mmap_end)
unfolding choose_addr
choose_addr_lem vs hint len a v hi l h =
    elim (Bool-cases (
      (not (hint == 0) && is_aligned hint)
      && (leb user_mmap_base hint
          && leb (add32 hint len) user_mmap_end
          && leb hint (add32 hint len)
          && not (proc_range_overlaps_any_vma vs hint (add32 hint len))))) [
            | inl c ↦
                let same : hint ≡ a = ground (arith, rw c at h) in
                let lo : user_mmap_base ≤ hint = ground arith in
                let wrap : hint ≤ add32 hint len = ground arith in
                let up : add32 hint len ≤ user_mmap_end = ground arith in (omega arith, omega arith)
            | inr c ↦
                let found : proc_find_free_mmap_range vs len ≡ some a = rw c at h in
                let first : FirstFree vs len (some a) =
                  rw found at (proc_find_free_mmap_range-FirstFree vs len v l) in
                let (x, _, y, _, _) = first in (x, y)
          ]

module _ {M : Type 0} (pages : Pages M) (m : M) (p : Process) (v : IsVmas p.vmas) where
  map_anywhere-Mapped :
      (hint len prot a : ℕ)
      → hint < 2 ^ 32
      → len < 2 ^ 32
      → (map_anywhere pages m p hint len prot).2 ≡ some a
      → Mapped p.vmas (map_anywhere pages m p hint len prot).1.vmas a len prot
        × NoneHeld p.vmas a (a + len)
  unfolding map_anywhere
  map_anywhere-Mapped hint len prot a hl l h = elim (Option-cases (choose_addr p.vmas hint len)) [
    | inl e ↦ absurd (ground (arith, rw (e, map_anywhere) at h))
    | inr (x, e) ↦
        let (lo, hi) = choose_addr_lem p.vmas hint len x v hl l e in
        rw (e, map_anywhere)
          (map_at-Mapped p.vmas p x len prot a v lo hi (λ b q o. (λ y. y, λ y. y))
            (rw (e, map_anywhere) at h))
  ]

  map_fixed_at-Mapped :
      (addr len prot a : ℕ)
      → addr < 2 ^ 32
      → (map_fixed_at pages m p addr len prot).2 ≡ some a
      → len < 2 ^ 32
      → len % page_size ≡ 0
      → Mapped p.vmas (map_fixed_at pages m p addr len prot).1.vmas a len prot
  unfolding map_fixed_at
  map_fixed_at-Mapped addr len prot a al h l whole = elim (Bool-cases (not (is_aligned addr))) [
    | inl x ↦ absurd (ground (arith, rw (x, map_fixed_at) at h))
    | inr x ↦
        elim (Bool-cases (
          ltb addr user_mmap_base
          || ltb user_mmap_end (add32 addr len)
          || ltb (add32 addr len) addr)) [
            | inl y ↦ absurd (ground (arith, rw (x, y, map_fixed_at) at h))
            | inr y ↦ elim (Bool-cases (not (proc_munmap pages m p addr len).2)) [
              | inl z ↦ absurd (ground (arith, rw (x, y, z, map_fixed_at) at h))
              | inr z ↦
                  let e : add32 addr len ≡ addr + len = ground arith in
                  let (w, old, kept, _) : Unmapped p.vmas (proc_munmap pages m p addr len).1.vmas
                      addr (addr + len) (proc_munmap pages m p addr len).2 =
                    rw (page_ceil-aligned len whole l) at
                      (proc_munmap_clears pages m p addr len v al) in
                  rw (x, y, z)
                    (map_at-Mapped p.vmas (proc_munmap pages m p addr len).1 addr len prot a w
                      (ground arith) (ground arith) (λ b q o. (old b q, λ t. kept b q t o))
                      (rw (x, y, z, map_fixed_at) at h)).0
            ]
          ]
  ]

  -- A `proc_mmap` of 32-bit arguments that returns an address has put there a range of whole pages
  -- inside the mmap region. All its bytes have the protection asked for, all others what they had,
  -- and the table stays well-formed; and without `MAP_FIXED` no byte of the range was in use before.
  pub proc_mmap-Mapped :
      (hint len prot flags a : ℕ)
      → hint < 2 ^ 32
      → (proc_mmap pages m p hint len prot flags).2 ≡ some a
      → Mapped p.vmas (proc_mmap pages m p hint len prot flags).1.vmas a (page_ceil len) prot
        × (bit_and flags map_fixed ≡ 0 → NoneHeld p.vmas a (a + page_ceil len))
  unfolding proc_mmap
  proc_mmap-Mapped hint len prot flags a hl h =
      let (whole, l) = page_ceil_lem len in
      let u : (not p.is_user) ≡ false = ground arith in
      let z : (len == 0) ≡ false = ground arith in
      let g : (leb 8 prot || prot == 0) ≡ false = ground arith in
      elim (Bool-cases (not (bit_and flags map_fixed == 0))) [
        | inl x ↦
            rw (u, z, g, x)
              (
                map_fixed_at-Mapped hint (page_ceil len) prot a hl (rw (u, z, g, x, proc_mmap) at h)
                    l whole,
                λ n. absurd (ground arith),
              )
        | inr x ↦
            let (mapped, none_held) =
              map_anywhere-Mapped hint (page_ceil len) prot a hl l
                (rw (u, z, g, x, proc_mmap) at h) in
            rw (u, z, g, x) (mapped, λ _. none_held)
      ]
