-- ===== src/Vm/Kernel.antt =====
-- mm/vm.c: the kernel's own table, of 4 MiB pages.
use sugimotos.Prelude.{
  ℕ, zero, suc, ◌+◌, ◌-◌, ◌*◌, ◌/◌, ◌%◌, ◌^◌, ◌≤◌, ◌<◌, ◌≡◌, ◌≢◌, ◌⊎◌, refl, ap, ◌∙◌, true, false,
  arith, inl, inr, Bool-cases, ltb, page_size, ◌==◌, add32, bit_or,
}
use native.Mathlib.Decide.{ℕ_discrete}
use sugimotos.Prelude.Bits.{bit_or-add}
use sugimotos.Vm.{Memory, store, is_valid, is_leaf, pte_pa, pte_from_pa, vpn1_of}
use sugimotos.Vm.Table.{query_root, query_l1}
use sugimotos.Vm.Build.{range_4m_loop}
use sugimotos.Vm.Entry.{mapped_to, pte_from_pa-parts}
use sugimotos.Vm.Tree.{entry_at, SamePage, store_at, store_ne, store_page, query_l1-other}
use sugimotos.Vm.Range.{in_range, range_updated}

-- No entry, or an aligned 4 MiB page.
abbrev pub IsFlat : ℕ → Type 0
IsFlat pte = (is_valid pte ≡ false) ⊎ ((is_leaf pte ≡ true) × (pte_pa pte % 0x400000 ≡ 0))

abbrev pub FlatRoot : Memory → ℕ → Type 0
FlatRoot m root = (i : ℕ) → i < 1024 → IsFlat (entry_at m root i)

pub not_pointer : (pte : ℕ) → IsFlat pte → (is_valid pte ≡ false) ⊎ (is_leaf pte ≡ true)
not_pointer pte (inl v) = inl v
not_pointer pte (inr (l, _)) = inr l

-- The entry of a 4 MiB page translates to it.
superpage_mapped :
    (m : Memory) (pa perm a : ℕ)
    → pa < 2 ^ 32
    → pa % 0x400000 ≡ 0
    → perm < 256
    → (perm / 2 % 8 == 0) ≡ false
    → query_l1 m (pte_from_pa pa perm) a ≡ mapped_to (pa + a % 0x400000) perm a
unfolding query_l1
superpage_mapped m pa perm a h al k some_perm =
    let (v, l, p, t) = pte_from_pa-parts pa perm h k in
    let base : pa / page_size * page_size ≡ pa = omega arith in
    let sum : bit_or pa (a % 0x400000) ≡ pa + a % 0x400000 =
      bit_or-add 22 (pa / 0x400000) _ _ (omega arith) (omega arith) in
    let same : (pa + a % 0x400000) / page_size * page_size + a % page_size ≡ pa + a % 0x400000 =
      omega arith in
    rw (v, l, some_perm, t, p, base, sum, same) refl

module _ (root : ℕ) (al : root % page_size ≡ 0) (va pa len perm : ℕ) (va_al : va % 0x400000 ≡ 0)
    (pa_al : pa % 0x400000 ≡ 0) (len_al : len % 0x400000 ≡ 0) (va_end : va + len ≤ 2 ^ 32)
    (pa_end : pa + len ≤ 2 ^ 32) (len_small : len < 2 ^ 32) (perm_small : perm < 256)
    (some_perm : (perm / 2 % 8 == 0) ≡ false) where
  -- What the loop makes of the memory.
  pub record FlatMapped (m : Memory) (off : ℕ) (m' : Memory) : Type 0 where
    pub flat : FlatRoot m' root
    pub others : (p : ℕ) → p % page_size ≡ 0 → p ≢ root → SamePage m m' p
    pub changed :
        (a : ℕ)
        → a < 2 ^ 32
        → query_root m' root a
          ≡ range_updated (va + off) (va + len) va pa perm (query_root m root) a

  abbrev entry : ℕ → ℕ
  entry off = pte_from_pa (pa + off) perm

  abbrev stored : Memory → ℕ → Memory
  stored m off = store m (root + vpn1_of (va + off) * 4) (entry off)

  stored_flat :
      (m : Memory) (off : ℕ)
      → FlatRoot m root
      → off % 0x400000 ≡ 0
      → off < len
      → FlatRoot (stored m off) root
  stored_flat m off f o l i h = elim (ℕ_discrete i (vpn1_of (va + off))) [
    | yes e ↦
        let (v, leaf, p, t) = pte_from_pa-parts (pa + off) perm (omega arith) perm_small in
        rw e (
          rw (store_at m (root + vpn1_of (va + off) * 4) (entry off))
            (inr (rw (leaf, some_perm) refl, rw t (omega arith))))
    | no e ↦
        rw (store_ne m (root + vpn1_of (va + off) * 4) (entry off) (root + i * 4) (omega arith))
          (f i h)
  ]

  stored_changed :
      (m : Memory) (off a : ℕ)
      → FlatRoot m root
      → off % 0x400000 ≡ 0
      → off < len
      → a < 2 ^ 32
      → range_updated
          (va + (off + 0x400000))
          (va + len)
          va
          pa
          perm
          (query_root (stored m off) root)
          a
        ≡ range_updated (va + off) (va + len) va pa perm (query_root m root) a
  unfolding query_root
  stored_changed m off a f o l h = elim (ℕ_discrete (vpn1_of a) (vpn1_of (va + off))) [
    | yes e ↦
        let within : in_range (va + off) (va + len) a ≡ true = ground arith in
        let before : in_range (va + (off + 0x400000)) (va + len) a ≡ false = ground arith in
        let place : pa + off + a % 0x400000 ≡ pa + (a - va) = omega arith in
        rw (within, before)
          (ap (λ i. query_l1 (stored m off) (entry_at (stored m off) root i) a) e
            ∙ ap (λ x. query_l1 (stored m off) x a)
                (store_at m (root + vpn1_of (va + off) * 4) (entry off))
            ∙ superpage_mapped (stored m off) (pa + off) perm a (omega arith) (omega arith)
                perm_small some_perm
            ∙ ap (λ p. mapped_to p perm a) place)
    | no e ↦
        let same : in_range (va + off) (va + len) a
            ≡ in_range (va + (off + 0x400000)) (va + len) a =
          ground arith in
        let kept : entry_at (stored m off) root (vpn1_of a) ≡ entry_at m root (vpn1_of a) =
          store_ne m (root + vpn1_of (va + off) * 4) (entry off) (root + vpn1_of a * 4)
            (omega arith) in
        let flat : IsFlat (entry_at m root (vpn1_of a)) = f (vpn1_of a) (omega arith) in
        let read : query_l1 (stored m off) (entry_at m root (vpn1_of a)) a
            ≡ query_l1 m (entry_at m root (vpn1_of a)) a =
          query_l1-other m (stored m off) (entry_at m root (vpn1_of a)) a (not_pointer _ flat) in
        rw (same, kept, read) refl
  ]

  nothing_left : (m : Memory) (off : ℕ) → FlatRoot m root → len ≤ off → FlatMapped m off m
  nothing_left m off f l = record {
    flat = f;
    others = λ p a n i h. refl;
    changed = λ a h.
        let outside : in_range (va + off) (va + len) a ≡ false = ground arith in rw outside refl;
  }

  pub range_4m_loop-FlatMapped :
      (fuel : ℕ) (m : Memory) (off : ℕ)
      → FlatRoot m root
      → off % 0x400000 ≡ 0
      → off ≤ len
      → len ≤ off + fuel * 0x400000
      → FlatMapped m off (range_4m_loop fuel m root va pa off len perm)
  unfolding range_4m_loop
  range_4m_loop-FlatMapped zero m off f o l h = nothing_left m off f (omega arith)
  range_4m_loop-FlatMapped (suc fuel) m off f o l h = elim (Bool-cases (ltb off len)) [
    | inl x ↦
        let less : off < len = ground arith in
        let va_sum : add32 va off ≡ va + off = omega arith in
        let pa_sum : add32 pa off ≡ pa + off = omega arith in
        let next : add32 off 0x400000 ≡ off + 0x400000 = omega arith in
        let r =
          range_4m_loop-FlatMapped fuel (stored m off) (off + 0x400000) (stored_flat m off f o less)
            (omega arith) (omega arith) (omega arith) in
        rw (x, va_sum, pa_sum, next)
          (record {
            flat = r.flat;
            others = λ p a n i k.
                r.others p a n i k
                ∙ store_page m p root (vpn1_of (va + off)) (entry off) a al n (omega arith) i k;
            changed = λ a k. r.changed a k ∙ stored_changed m off a f o less k;
          })
    | inr x ↦ rw x (nothing_left m off f (ground arith))
  ]
