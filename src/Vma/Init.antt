-- ===== src/Vma/Init.antt =====
-- mm/process_vm.c: the areas that `proc_vm_init` gives to a new process.
use sugimotos.Prelude.{
  ℕ, ◌^◌, ◌≤◌, ◌<◌, ◌≡◌, ◌↔◌, ◌⊎◌, refl, Bool, true, false, List, replicate, arith, inl, inr,
  Bool-cases, Option-cases, ltb, add32, mul32, page_size,
}
use sugimotos.Proc.{UserVma, Process, no_vma, proc_vma_max}
use sugimotos.Vma.{page_floor, page_ceil}
use sugimotos.Vma.Inv.{IsVmas, Holds, empty-IsVmas, vma_at-replicate}
use sugimotos.Vma.Add.{proc_add_vma_adds}
use sugimotos.Vma.Unmap.{page_ceil_lem}
use sugimotos.Vma.Table.{proc_add_vma}
use sugimotos.Vma.User.{UserSections, add_section, proc_vm_init}

-- Byte `b` is in the range, whose protection is `q`.
abbrev pub InSection : ℕ → ℕ → ℕ → ℕ → ℕ → Type 0
InSection start end_ prot b q = (start ≤ b) × (b < end_) × (q ≡ prot)

-- What one test adds, if the call goes on.
abbrev pub SectionAdded : List UserVma × Bool → ℕ → ℕ → ℕ → List UserVma × Bool → Type 0
SectionAdded r start end_ prot r' =
    (IsVmas r.0 → IsVmas r'.0)
    × (r'.1 ≡ true
        → IsVmas r.0
        → (r.1 ≡ true)
          × ((b q : ℕ) → Holds r'.0 b q ↔ (Holds r.0 b q ⊎ InSection start end_ prot b q)))

add_section-SectionAdded :
    (r : List UserVma × Bool) (start end_ prot : ℕ)
    → end_ < 2 ^ 32
    → SectionAdded r start end_ prot (add_section r start end_ prot)
unfolding add_section
add_section-SectionAdded (vs, false) start end_ prot l = ((λ v. v), λ e. absurd (ground arith))
add_section-SectionAdded (vs, true) start end_ prot l = elim (Bool-cases (ltb start end_)) [
  | inr x ↦ rw x ((λ v. v), λ _ v. (refl, λ b q. ground arith))
  | inl x ↦ elim (Option-cases (proc_add_vma vs start end_ prot)) [
    | inl e ↦ rw (x, e) ((λ v. v), λ t. absurd (ground arith))
    | inr (ws, e) ↦
        rw (x, e)
          (
            (λ v. (proc_add_vma_adds vs ws start end_ prot v l e).0),
            λ _ v. (refl, (proc_add_vma_adds vs ws start end_ prot v l e).1),
          )
  ]
]

nothing_held : (b q : ℕ) → ¬ Holds (replicate proc_vma_max no_vma) b q
nothing_held b q (i, u, _, _, _) =
    absurd (ground (arith, rw (vma_at-replicate proc_vma_max i) at u))

-- Whatever the linker's symbols and the stack, `proc_vm_init` leaves a well-formed table. Where it
-- returns 0, exactly the pages of the text may be read and run, those of the read-only data be read,
-- and those of the data, the bss and the stack be read and written.
pub proc_vm_init_areas :
    (u : UserSections) (p : Process)
    → let (vs, ok) = proc_vm_init u p in
      IsVmas vs
      × (ok ≡ true
          → (b q : ℕ)
          → Holds vs b q ↔ (
              InSection (page_floor u.text_start) (page_ceil u.text_end) 5 b q
              ⊎ InSection (page_floor u.rodata_start) (page_ceil u.rodata_end) 1 b q
              ⊎ InSection (page_floor u.data_start) (page_ceil u.data_end) 3 b q
              ⊎ InSection (page_floor u.bss_start) (page_ceil u.bss_end) 3 b q
              ⊎ InSection p.user_stack_base
                  (add32 p.user_stack_base (mul32 p.user_stack_pages page_size))
                  3
                  b
                  q))
unfolding proc_vm_init
proc_vm_init_areas u p =
    let r0 : List UserVma × Bool = (replicate proc_vma_max no_vma, true) in
    let r1 : List UserVma × Bool =
      add_section r0 (page_floor u.text_start) (page_ceil u.text_end) 5 in
    let r2 : List UserVma × Bool =
      add_section r1 (page_floor u.rodata_start) (page_ceil u.rodata_end) 1 in
    let r3 : List UserVma × Bool =
      add_section r2 (page_floor u.data_start) (page_ceil u.data_end) 3 in
    let r4 : List UserVma × Bool =
      add_section r3 (page_floor u.bss_start) (page_ceil u.bss_end) 3 in
    let stack_end : ℕ = add32 p.user_stack_base (mul32 p.user_stack_pages page_size) in
    let (v1, h1) =
      add_section-SectionAdded r0 (page_floor u.text_start) (page_ceil u.text_end) 5
        (page_ceil_lem u.text_end).1 in
    let (v2, h2) =
      add_section-SectionAdded r1 (page_floor u.rodata_start) (page_ceil u.rodata_end) 1
        (page_ceil_lem u.rodata_end).1 in
    let (v3, h3) =
      add_section-SectionAdded r2 (page_floor u.data_start) (page_ceil u.data_end) 3
        (page_ceil_lem u.data_end).1 in
    let (v4, h4) =
      add_section-SectionAdded r3 (page_floor u.bss_start) (page_ceil u.bss_end) 3
        (page_ceil_lem u.bss_end).1 in
    let (v5, h5) = add_section-SectionAdded r4 p.user_stack_base stack_end 3 (omega arith) in
    let w1 = v1 empty-IsVmas in
    let w2 = v2 w1 in
    let w3 = v3 w2 in
    let w4 = v4 w3 in
    (
      v5 w4,
      λ ok b q.
          let (e4, i5) = h5 ok w4 in
          let (e3, i4) = h4 e4 w3 in
          let (e2, i3) = h3 e3 w2 in
          let (e1, i2) = h2 e2 w1 in
          let (_, i1) = h1 e1 empty-IsVmas in
          ground (arith, i5 b q, i4 b q, i3 b q, i2 b q, i1 b q, nothing_held b q),
    )
