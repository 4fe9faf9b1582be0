-- ===== src/Vma/Range.antt =====
-- mm/process_vm.c: what `proc_vma_range_ok` decides.
use native.Mathlib.Decide.{ℕ_discrete}
use sugimotos.Prelude.{
  ℕ, zero, suc, ◌+◌, ◌-◌, ◌^◌, ◌≤◌, ◌<◌, ◌≡◌, ◌↔◌, refl, true, List, arith, inl, inr, Bool-cases,
  Option-cases, ltb, bit_and, add32,
}
use sugimotos.Proc.{UserVma, Process}
use sugimotos.Vma.{vma_at}
use sugimotos.Vma.Inv.{IsVmas, Holds}
use sugimotos.Vma.Search.{proc_find_vma_index-some, proc_find_vma_index-none}
use sugimotos.Vma.Table.{proc_find_vma_index, range_loop, proc_vma_range_ok}

-- Every byte of the range lies in an area that has all the bits of `need`.
abbrev pub Covered : List UserVma → ℕ → ℕ → ℕ → Type 0
Covered vs start end_ need =
    (b : ℕ) → start ≤ b → b < end_ → (p : ℕ) × Holds vs b p × (bit_and p need ≡ need)

-- Areas that share a byte are one.
pub same_area :
    (vs : List UserVma) (b i j : ℕ)
    → IsVmas vs
    → (vma_at vs i).used ≡ true
    → (vma_at vs i).start ≤ b
    → b < (vma_at vs i).end
    → (vma_at vs j).used ≡ true
    → (vma_at vs j).start ≤ b
    → b < (vma_at vs j).end
    → i ≡ j
same_area vs b i j v u l g w m h = elim (ℕ_discrete i j) [
  | yes e ↦ e
  | no n ↦ elim (v.apart i j n u w) [ inl x ↦ absurd (omega arith) | inr x ↦ absurd (omega arith) ]
]

range_loop_sound :
    (fuel : ℕ) (vs : List UserVma) (cur end_ need : ℕ)
    → range_loop fuel vs cur end_ need ≡ true
    → Covered vs cur end_ need
unfolding range_loop
range_loop_sound zero vs cur end_ need h b l g = absurd (ground arith)
range_loop_sound (suc fuel) vs cur end_ need h b l g =
    elim (Option-cases (proc_find_vma_index vs cur)) [
      | inl e ↦ absurd (ground arith)
      | inr (i, e) ↦
          let (u, s, t) = proc_find_vma_index-some vs cur e in
          let bits : bit_and (vma_at vs i).prot need ≡ need = ground arith in
          elim (Bool-cases (ltb b (vma_at vs i).end)) [
            | inl x ↦ ((vma_at vs i).prot, (i, u, omega arith, ground arith, refl), bits)
            | inr x ↦
                let on : range_loop fuel vs (vma_at vs i).end end_ need ≡ true = ground arith in
                range_loop_sound fuel vs (vma_at vs i).end end_ need on b (ground arith) g
          ]
    ]

range_loop_complete :
    (fuel : ℕ) (vs : List UserVma) (cur end_ need : ℕ)
    → IsVmas vs
    → end_ - cur ≤ fuel
    → Covered vs cur end_ need
    → range_loop fuel vs cur end_ need ≡ true
unfolding range_loop
range_loop_complete zero vs cur end_ need v f c = ground arith
range_loop_complete (suc fuel) vs cur end_ need v f c = elim (Bool-cases (ltb cur end_)) [
  | inr x ↦ rw x refl
  | inl x ↦
      let (p, (j, u, l, g, q), bits) = c cur (omega arith) (ground arith) in
      elim (Option-cases (proc_find_vma_index vs cur)) [
        | inl e ↦ absurd (omega (arith, proc_find_vma_index-none vs cur j e u l))
        | inr (i, e) ↦
            let (a, s, t) = proc_find_vma_index-some vs cur e in
            let same : i ≡ j = same_area vs cur i j v a s t u l g in
            let allowed : bit_and (vma_at vs i).prot need ≡ need = rw (same, q) bits in
            let rest : range_loop fuel vs (vma_at vs i).end end_ need ≡ true =
              range_loop_complete fuel vs (vma_at vs i).end end_ need v (ground arith)
                (λ b m n. c b (omega arith) n) in
            ground arith
      ]
]

-- For 32-bit arguments, `proc_vma_range_ok` accepts exactly the ranges of a user process that are
-- not empty, do not wrap around, and of which every byte lies in an area with all the bits asked
-- for; ranges over several areas included.
pub proc_vma_range_ok_iff :
    (p : Process) (addr len need : ℕ)
    → IsVmas p.vmas
    → addr < 2 ^ 32
    → len < 2 ^ 32
    → (proc_vma_range_ok p addr len need ≡ true) ↔ (
        (p.is_user ≡ true)
        × (0 < len)
        × (addr + len < 2 ^ 32)
        × Covered p.vmas addr (addr + len) need)
unfolding proc_vma_range_ok
proc_vma_range_ok_iff p addr len need v a l = (there, back)
  where
    there :
        proc_vma_range_ok p addr len need ≡ true
        → (p.is_user ≡ true)
          × (0 < len)
          × (addr + len < 2 ^ 32)
          × Covered p.vmas addr (addr + len) need
    there h =
        let u : p.is_user ≡ true = ground arith in
        let z : 0 < len = ground arith in
        let w : addr + len < 2 ^ 32 = ground arith in
        let e : add32 addr len ≡ addr + len = omega arith in
        let on : range_loop (add32 addr len - addr) p.vmas addr (add32 addr len) need ≡ true =
          ground arith in
        (u, z, w, range_loop_sound (addr + len - addr) p.vmas addr (addr + len) need (rw e at on))

    back :
        (p.is_user ≡ true)
          × (0 < len)
          × (addr + len < 2 ^ 32)
          × Covered p.vmas addr (addr + len) need
        → proc_vma_range_ok p addr len need ≡ true
    back (u, z, w, c) =
        let e : add32 addr len ≡ addr + len = omega arith in
        let on : range_loop (add32 addr len - addr) p.vmas addr (add32 addr len) need ≡ true =
          rw e (
            range_loop_complete (addr + len - addr) p.vmas addr (addr + len) need v (omega arith)
              c) in
        ground arith
