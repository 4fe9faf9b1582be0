-- ===== src/Vm/Split.antt =====
-- mm/vm.c: a new second-level table takes the place of an empty entry or of a 4 MiB page.
use sugimotos.Prelude.{
  ℕ, zero, suc, ◌+◌, ◌*◌, ◌/◌, ◌%◌, ◌^◌, ◌≤◌, ◌<◌, ◌≡◌, ◌≢◌, ◌⊎◌, refl, sym, ap, ◌∙◌, true, false,
  ◌&&◌, arith, some, inl, inr, Bool-cases, ◌==◌, if◌then◌else◌, page_size, add32, bit_or,
}
use sugimotos.Prelude.Bits.{bit_or-add}
use native.Mathlib.Decide.{ℕ_discrete}
use sugimotos.Vm.{
  Memory, store, clear_page, in_page, is_valid, is_leaf, prot_of, pte_pa, pte_from_pa, vpn1_of,
  vpn0_of,
}
use sugimotos.Vm.Table.{query_l0, query_l1, query_root, split_loop, perm_of, pa4m_of, new_l0}
use sugimotos.Vm.Entry.{query_l0-mapped}
use sugimotos.Vm.Tree.{
  entry_at, IsPointer, IsTable, TablePage, SamePage, store_at, store_page, store_ne, pages_apart,
  query_l1-pointer, query_root-words,
}

split_loop_ne :
    (n : ℕ) (m : Memory) (l0 pa perm i a : ℕ)
    → ((j : ℕ) → j < i + n → a ≢ l0 + j * 4)
    → split_loop n m l0 pa perm i a ≡ m a
unfolding split_loop
split_loop_ne zero m l0 pa perm i a out = refl
split_loop_ne (suc n) m l0 pa perm i a out =
    split_loop_ne n (store m (l0 + i * 4) (pte_from_pa (add32 pa (i * page_size)) perm)) l0 pa perm
      (i + 1) a (λ j h. out j (omega arith))
    ∙ store_ne m (l0 + i * 4) (pte_from_pa (add32 pa (i * page_size)) perm) a (out i (omega arith))

-- What was written before the loop came to entry `i` stays.
split_loop_before :
    (n : ℕ) (m : Memory) (l0 pa perm i j : ℕ)
    → j < i
    → split_loop n m l0 pa perm i (l0 + j * 4) ≡ m (l0 + j * 4)
unfolding split_loop
split_loop_before zero m l0 pa perm i j h = refl
split_loop_before (suc n) m l0 pa perm i j h =
    split_loop_before n (store m (l0 + i * 4) (pte_from_pa (add32 pa (i * page_size)) perm)) l0 pa
      perm (i + 1) j (omega arith)
    ∙ store_ne m (l0 + i * 4) (pte_from_pa (add32 pa (i * page_size)) perm) (l0 + j * 4)
        (omega arith)

split_loop_at :
    (n : ℕ) (m : Memory) (l0 pa perm i j : ℕ)
    → i ≤ j
    → j < i + n
    → split_loop n m l0 pa perm i (l0 + j * 4) ≡ pte_from_pa (add32 pa (j * page_size)) perm
unfolding split_loop
split_loop_at zero m l0 pa perm i j h k = absurd (omega arith)
split_loop_at (suc n) m l0 pa perm i j h k = elim (ℕ_discrete i j) [
  | yes e ↦ rw e (
      split_loop_before n (store m (l0 + j * 4) (pte_from_pa (add32 pa (j * page_size)) perm)) l0 pa
        perm (j + 1) j (omega arith)
      ∙ store_at m (l0 + j * 4) (pte_from_pa (add32 pa (j * page_size)) perm))
  | no e ↦
      split_loop_at n (store m (l0 + i * 4) (pte_from_pa (add32 pa (i * page_size)) perm)) l0 pa
        perm (i + 1) j (omega arith) (omega arith)
]

-- The entry that leads to the new table.
abbrev pub pointer_to : ℕ → ℕ
pointer_to page = bit_or (page / page_size * 0x400) 0x1

pub pointer_to-IsPointer :
    (page : ℕ)
    → page % page_size ≡ 0
    → page < 2 ^ 32
    → IsPointer (pointer_to page) × (pte_pa (pointer_to page) ≡ page)
pointer_to-IsPointer page a h =
    let e : pointer_to page ≡ page / page_size * 0x400 + 1 =
      bit_or-add 10 (page / page_size) _ _ (omega arith) (omega arith) in
    rw e ((ground arith, ground arith), omega arith)

pub clear_page_in : (m : Memory) (page i : ℕ) → i < 1024 → entry_at (clear_page m page) page i ≡ 0
unfolding clear_page
clear_page_in m page i h = ground arith

pub clear_page_out :
    (m : Memory) (p page : ℕ)
    → p % page_size ≡ 0
    → page % page_size ≡ 0
    → p ≢ page
    → SamePage m (clear_page m page) p
unfolding clear_page
clear_page_out m p page a b n i h =
    let out : in_page page (p + i * 4) ≡ false = ground arith in rw out refl

-- Each 4 KiB page of a 4 MiB page goes where the whole went.
split_entry :
    (pte a : ℕ)
    → pte_pa pte % 0x400000 ≡ 0
    → is_leaf pte ≡ true
    → query_l0 (pte_from_pa (add32 (pa4m_of pte) (vpn0_of a * page_size)) (perm_of pte)) a
      ≡ some (bit_or (pte_pa pte) (a % 0x400000), prot_of pte)
split_entry pte a whole leaf =
    let pa : ℕ = add32 (pa4m_of pte) (vpn0_of a * page_size) in
    let some_perm : (perm_of pte / 2 % 8 == 0) ≡ false = ground arith in
    let sum : bit_or (pte_pa pte) (a % 0x400000) ≡ pte_pa pte + a % 0x400000 =
      bit_or-add 22 (pte_pa pte / 0x400000) _ _ (omega arith) (omega arith) in
    let address : pa / page_size * page_size + a % page_size ≡ pte_pa pte + a % 0x400000 =
      omega arith in
    let prot : perm_of pte / 2 % 16 * 2 ≡ prot_of pte = omega arith in
    query_l0-mapped pa (perm_of pte) a (omega arith) (omega arith)
    ∙ rw (some_perm, sum, address, prot) refl

-- The place of the entry, and a page that is no part of the table and not in use by it.
module _ (m : Memory) (root : ℕ) (t : IsTable m root) (i1 : ℕ) (k1 : i1 < 1024) (page : ℕ)
    (al : page % page_size ≡ 0) (sm : page < 2 ^ 32) (fresh : ¬ TablePage m root page) where
  abbrev pte1 : ℕ
  pte1 = entry_at m root i1

  abbrev pub grown : Memory
  grown = new_l0 m root i1 page

  abbrev filled : Memory
  filled =
      if is_valid pte1 && is_leaf pte1
      then split_loop 1024 (clear_page m page) page (pa4m_of pte1) (perm_of pte1) 0
      else clear_page m page

  filled_out : (p : ℕ) → p % page_size ≡ 0 → p ≢ page → SamePage m filled p
  filled_out p a n i h = elim (Bool-cases (is_valid pte1 && is_leaf pte1)) [
    | inl x ↦ rw x (
        split_loop_ne 1024 (clear_page m page) page (pa4m_of pte1) (perm_of pte1) 0 (p + i * 4)
          (λ j l. pages_apart p page i j a al n h l)
        ∙ clear_page_out m p page a al n i h)
    | inr x ↦ rw x (clear_page_out m p page a al n i h)
  ]

  -- No word outside the root and the new page changes.
  pub grown_out : (p : ℕ) → p % page_size ≡ 0 → p ≢ page → p ≢ root → SamePage m grown p
  unfolding new_l0
  grown_out p a n r i h =
      store_page filled p root i1 (pointer_to page) a t.aligned r k1 i h ∙ filled_out p a n i h

  pub grown_pointer : entry_at grown root i1 ≡ pointer_to page
  unfolding new_l0
  grown_pointer = store_at filled (root + i1 * 4) (pointer_to page)

  pub grown-root : (i : ℕ) → i < 1024 → i ≢ i1 → entry_at grown root i ≡ entry_at m root i
  unfolding new_l0
  grown-root i h n =
      store_ne filled (root + i1 * 4) (pointer_to page) (root + i * 4) (omega arith)
      ∙ filled_out root t.aligned (λ e. fresh (inl (sym e))) i h

  grown_entry : (j : ℕ) → j < 1024 → entry_at grown page j ≡ entry_at filled page j
  unfolding new_l0
  grown_entry j h =
      store_page filled page root i1 (pointer_to page) al t.aligned (λ e. fresh (inl e)) k1 j h

  -- The new table translates as the entry did.
  pub new_table :
      (a : ℕ)
      → (is_valid pte1 ≡ false) ⊎ (is_leaf pte1 ≡ true)
      → query_l0 (entry_at grown page (vpn0_of a)) a ≡ query_l1 m pte1 a
  unfolding query_l1
  new_table a other = elim (Bool-cases (is_valid pte1)) [
    | inl v ↦ elim (Bool-cases (is_leaf pte1)) [
      | inl l ↦
          let whole : pte_pa pte1 % 0x400000 ≡ 0 = t.superpages i1 k1 v l in
          let split =
            split_loop_at 1024 (clear_page m page) page (pa4m_of pte1) (perm_of pte1) 0 (vpn0_of a)
              (omega arith) (omega arith) in
          let both : (is_valid pte1 && is_leaf pte1) ≡ true = rw (v, l) refl in
          let entry : entry_at filled page (vpn0_of a)
              ≡ pte_from_pa (add32 (pa4m_of pte1) (vpn0_of a * page_size)) (perm_of pte1) =
            rw both split in
          rw (v, l)
            (ap (λ x. query_l0 x a) (grown_entry (vpn0_of a) (omega arith) ∙ entry)
              ∙ split_entry pte1 a whole l)
      | inr l ↦ absurd (ground arith)
    ]
    | inr v ↦
        let neither : (is_valid pte1 && is_leaf pte1) ≡ false = rw v refl in
        let entry : entry_at filled page (vpn0_of a) ≡ 0 =
          rw neither (clear_page_in m page (vpn0_of a) (omega arith)) in
        rw v (
          ap (λ x. query_l0 x a) (grown_entry (vpn0_of a) (omega arith) ∙ entry)
          ∙ (unfold query_l0 in refl))
  ]

  -- No translation changes.
  pub query_root-grown :
      (a : ℕ)
      → (is_valid pte1 ≡ false) ⊎ (is_leaf pte1 ≡ true)
      → query_root grown root a ≡ query_root m root a
  query_root-grown a other = elim (ℕ_discrete (vpn1_of a) i1) [
    | yes e ↦
        let (pointer, target) = pointer_to-IsPointer page al sm in
        unfold query_root in
        rw e (
          ap (λ x. query_l1 grown x a) grown_pointer
          ∙ query_l1-pointer grown (pointer_to page) a pointer
          ∙ ap (λ x. query_l0 (entry_at grown x (vpn0_of a)) a) target
          ∙ new_table a other)
    | no e ↦ query_root-words m grown root a (grown-root (vpn1_of a) (omega arith) e) λ p.
        grown_out (pte_pa (entry_at m root (vpn1_of a))) (omega arith)
          (λ q. fresh (inr (vpn1_of a, omega arith, p, sym q)))
          (t.below_root (vpn1_of a) (omega arith) p) (vpn0_of a) (omega arith)
  ]

  -- Where a pointer of the new root leads.
  pub grown_target :
      (i : ℕ)
      → i < 1024
      → IsPointer (entry_at grown root i)
      → ((i ≡ i1) × (pte_pa (entry_at grown root i) ≡ page))
        ⊎ ((i ≢ i1)
            × IsPointer (entry_at m root i)
            × (pte_pa (entry_at grown root i) ≡ pte_pa (entry_at m root i)))
  grown_target i h p = elim (ℕ_discrete i i1) [
    | yes e ↦
        let (_, target) = pointer_to-IsPointer page al sm in
        inl (e, ap (λ i. pte_pa (entry_at grown root i)) e ∙ ap pte_pa grown_pointer ∙ target)
    | no e ↦ inr (e, rw (grown-root i h e) at p, ap pte_pa (grown-root i h e))
  ]

  pub grown-IsTable : IsTable grown root
  grown-IsTable = record {
    aligned = t.aligned;
    small = t.small;
    superpages = λ i h v l. elim (ℕ_discrete i i1) [
      | yes e ↦
          let ((_, not_leaf), _) = pointer_to-IsPointer page al sm in
          let leaf : is_leaf (pointer_to page) ≡ true = rw (e, grown_pointer) at l in
          absurd (ground arith)
      | no e ↦
          rw (grown-root i h e)
            (t.superpages i h (rw (grown-root i h e) at v) (rw (grown-root i h e) at l))
    ];
    below_root = λ i h p q. elim (grown_target i h p) [
      | inl (_, e) ↦ fresh (inl (sym e ∙ q))
      | inr (_, o, e) ↦ t.below_root i h o (sym e ∙ q)
    ];
    apart = λ i j h k n p q r. elim (grown_target i h p) [
      | inl (a, e) ↦ elim (grown_target j k q) [
        | inl (b, _) ↦ n (a ∙ sym b)
        | inr (_, o, f) ↦ fresh (inr (j, k, o, sym e ∙ r ∙ f))
      ]
      | inr (_, o, e) ↦ elim (grown_target j k q) [
        | inl (_, f) ↦ fresh (inr (i, h, o, sym f ∙ sym r ∙ e))
        | inr (_, w, f) ↦ t.apart i j h k n o w (sym e ∙ r ∙ f)
      ]
    ];
  }

  -- The new table has the pages of the old one, and `page`.
  pub grown-page : (p : ℕ) → TablePage grown root p → TablePage m root p ⊎ (p ≡ page)
  grown-page p (inl e) = inl (inl e)
  grown-page p (inr (i, h, q, e)) = elim (grown_target i h q) [
    | inl (_, f) ↦ inr (e ∙ f)
    | inr (_, o, f) ↦ inl (inr (i, h, o, e ∙ f))
  ]
