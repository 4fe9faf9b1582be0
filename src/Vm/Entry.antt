-- ===== src/Vm/Entry.antt =====
-- mm/vm.c: what the bits of a page table entry say.
use sugimotos.Prelude.{
  ℕ, ◌+◌, ◌*◌, ◌/◌, ◌%◌, ◌^◌, ◌<◌, ◌≡◌, ◌≢◌, refl, ap, true, not, Option, none, some, arith, inl,
  inr, Bool-cases, ◌==◌, if◌then◌else◌, bit_or, page_size,
}
use sugimotos.Prelude.Bits.{has_bit, bit_or-add, all_below-each}
use sugimotos.Vma.{vma_prot_r, vma_prot_w, vma_prot_x}
use sugimotos.Vm.{
  is_valid, is_leaf, prot_of, pte_pa, with_vad, pte_from_pa, pte_perm_from_flags, vm_make_satp,
  vm_root_from_satp,
}
use sugimotos.Vm.Table.{query_l0, user_flags}

-- The permission bits with V, A and D, as a sum.
abbrev pub vad_sum : ℕ → ℕ
vad_sum perm = perm / 2 % 32 * 2 + 193

with_vad-sum : (perm : ℕ) → perm < 256 → with_vad perm ≡ vad_sum perm
with_vad-sum perm h =
    let same : (with_vad perm == vad_sum perm) ≡ true =
      all_below-each 256 (λ p. with_vad p == vad_sum p) refl perm h in
    ground arith

pub pte_from_pa-sum :
    (pa perm : ℕ) → perm < 256 → pte_from_pa pa perm ≡ pa / page_size * 0x400 + vad_sum perm
unfolding pte_from_pa
pte_from_pa-sum pa perm h =
    rw (with_vad-sum perm h) (bit_or-add 10 (pa / page_size) _ _ (omega arith) (omega arith))

-- The parts of an entry that was made for the page `pa`.
pub pte_from_pa-parts :
    (pa perm : ℕ)
    → pa < 2 ^ 32
    → perm < 256
    → let pte = pte_from_pa pa perm in
      (is_valid pte ≡ true)
      × (is_leaf pte ≡ not (perm / 2 % 8 == 0))
      × (prot_of pte ≡ perm / 2 % 16 * 2)
      × (pte_pa pte ≡ pa / page_size * page_size)
pte_from_pa-parts pa perm h k =
    rw (pte_from_pa-sum pa perm k)
      (ground arith, ap (λ x. not (x == 0)) (omega arith), omega arith, omega arith)

-- What a page mapped to `pa` with the permissions `perm` gives: nothing without R, W or X.
abbrev pub mapped_to : ℕ → ℕ → ℕ → Option (ℕ × ℕ)
mapped_to pa perm va =
    if perm / 2 % 8 == 0
    then none
    else some (pa / page_size * page_size + va % page_size, perm / 2 % 16 * 2)

pub page_or : (x va : ℕ) → bit_or (x * page_size) (va % page_size) ≡ x * page_size + va % page_size
page_or x va = bit_or-add 12 x _ _ (omega arith) (omega arith)

pub superpage_or : (x va : ℕ) → bit_or (x * 0x400000) (va % 0x400000) ≡ x * 0x400000 + va % 0x400000
superpage_or x va = bit_or-add 22 x _ _ (omega arith) (omega arith)

pub query_l0-mapped :
    (pa perm va : ℕ)
    → pa < 2 ^ 32
    → perm < 256
    → query_l0 (pte_from_pa pa perm) va ≡ mapped_to pa perm va
unfolding query_l0
query_l0-mapped pa perm va h k =
    let (a, b, c, d) = pte_from_pa-parts pa perm h k in
    rw (a, b, c, d, page_or (pa / page_size) va)
      (elim (Bool-cases (perm / 2 % 8 == 0)) [ inl e ↦ rw e refl | inr e ↦ rw e refl ])

-- The permission bits that `prot` asks for, for user pages.
abbrev pub user_perm : ℕ → ℕ
user_perm prot =
    (if has_bit prot vma_prot_r then 0x2 else 0)
    + (if has_bit prot vma_prot_w then 0x4 else 0)
    + (if has_bit prot vma_prot_x then 0x8 else 0)
    + 0x10

pub user_perm_lt : (prot : ℕ) → user_perm prot < 256
user_perm_lt prot = ground arith

pub user_flags-perm : (prot : ℕ) → pte_perm_from_flags (user_flags prot) ≡ user_perm prot
unfolding pte_perm_from_flags user_flags
user_flags-perm prot = elim (Bool-cases (has_bit prot vma_prot_r)) [
  | inl r ↦ elim (Bool-cases (has_bit prot vma_prot_w)) [
    | inl w ↦ elim (Bool-cases (has_bit prot vma_prot_x)) [
      | inl x ↦ rw (r, w, x) (unfold has_bit in refl)
      | inr x ↦ rw (r, w, x) (unfold has_bit in refl)
    ]
    | inr w ↦ elim (Bool-cases (has_bit prot vma_prot_x)) [
      | inl x ↦ rw (r, w, x) (unfold has_bit in refl)
      | inr x ↦ rw (r, w, x) (unfold has_bit in refl)
    ]
  ]
  | inr r ↦ elim (Bool-cases (has_bit prot vma_prot_w)) [
    | inl w ↦ elim (Bool-cases (has_bit prot vma_prot_x)) [
      | inl x ↦ rw (r, w, x) (unfold has_bit in refl)
      | inr x ↦ rw (r, w, x) (unfold has_bit in refl)
    ]
    | inr w ↦ elim (Bool-cases (has_bit prot vma_prot_x)) [
      | inl x ↦ rw (r, w, x) (unfold has_bit in refl)
      | inr x ↦ rw (r, w, x) (unfold has_bit in refl)
    ]
  ]
]

-- The root of a table comes back from the satp value made of it.
pub vm_root_from_satp-make :
    (root : ℕ) → root % page_size ≡ 0 → root < 2 ^ 32 → vm_root_from_satp (vm_make_satp root) ≡ root
unfolding vm_root_from_satp vm_make_satp
vm_root_from_satp-make root al h =
    let e : bit_or 0x80000000 (root / page_size) ≡ 0x80000000 + root / page_size =
      bit_or-add 31 1 0x80000000 _ (omega arith) (omega arith) in
    rw e (omega arith)

pub vm_make_satp_ne : (root : ℕ) → root < 2 ^ 32 → vm_make_satp root ≢ 0
unfolding vm_make_satp
vm_make_satp_ne root h =
    rw (bit_or-add 31 1 0x80000000 (root / page_size) (omega arith) (omega arith)) (omega arith)
