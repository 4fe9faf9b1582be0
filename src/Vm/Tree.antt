-- ===== src/Vm/Tree.antt =====
-- mm/vm.c: the shape of a page table in memory, and what a translation reads of it.
use sugimotos.Prelude.{
  ℕ, ◌+◌, ◌*◌, ◌%◌, ◌^◌, ◌<◌, ◌≡◌, ◌≢◌, ◌⊎◌, refl, sym, ap, ◌∙◌, true, false, arith, inl, inr,
  Bool-cases, page_size,
}
use sugimotos.Vm.{Memory, store, is_valid, is_leaf, pte_pa, vpn1_of, vpn0_of}
use sugimotos.Vm.Table.{query_l0, query_l1, query_root}

abbrev pub entry_at : Memory → ℕ → ℕ → ℕ
entry_at m page i = m (page + i * 4)

-- The entry leads to a second-level table.
abbrev pub IsPointer : ℕ → Type 0
IsPointer pte = (is_valid pte ≡ true) × (is_leaf pte ≡ false)

-- A root on a page of its own, whose 4 MiB pages are aligned and whose second-level tables are on
-- pages of their own.
pub record IsTable (m : Memory) (root : ℕ) : Type 0 where
  pub aligned : root % page_size ≡ 0
  pub small : root < 2 ^ 32
  pub superpages :
      (i : ℕ)
      → i < 1024
      → is_valid (entry_at m root i) ≡ true
      → is_leaf (entry_at m root i) ≡ true
      → pte_pa (entry_at m root i) % 0x400000 ≡ 0
  pub below_root :
      (i : ℕ) → i < 1024 → IsPointer (entry_at m root i) → pte_pa (entry_at m root i) ≢ root
  pub apart :
      (i j : ℕ)
      → i < 1024
      → j < 1024
      → i ≢ j
      → IsPointer (entry_at m root i)
      → IsPointer (entry_at m root j)
      → pte_pa (entry_at m root i) ≢ pte_pa (entry_at m root j)

-- The pages that the table consists of.
abbrev pub TablePage : Memory → ℕ → ℕ → Type 0
TablePage m root page =
    (page ≡ root)
    ⊎ ((i : ℕ) × (i < 1024) × IsPointer (entry_at m root i) × (page ≡ pte_pa (entry_at m root i)))

-- Two memories have the same entries in a page.
abbrev pub SamePage : Memory → Memory → ℕ → Type 0
SamePage m m' page = (i : ℕ) → i < 1024 → entry_at m' page i ≡ entry_at m page i

pub store_at : (m : Memory) (a v : ℕ) → store m a v a ≡ v
unfolding store
store_at m a v = ground arith

pub store_ne : (m : Memory) (a v b : ℕ) → b ≢ a → store m a v b ≡ m b
unfolding store
store_ne m a v b n = ground arith

-- Words of different pages are different.
pub pages_apart :
    (p q i j : ℕ)
    → p % page_size ≡ 0
    → q % page_size ≡ 0
    → p ≢ q
    → i < 1024
    → j < 1024
    → p + i * 4 ≢ q + j * 4
pages_apart p q i j a b n h k e = omega arith

-- A store changes no word of another page.
pub store_page :
    (m : Memory) (p q j v : ℕ)
    → p % page_size ≡ 0
    → q % page_size ≡ 0
    → p ≢ q
    → j < 1024
    → SamePage m (store m (q + j * 4) v) p
store_page m p q j v a b n h i k =
    store_ne m (q + j * 4) v (p + i * 4) (pages_apart p q i j a b n k h)

pub query_l1-pointer :
    (m : Memory) (pte va : ℕ)
    → IsPointer pte
    → query_l1 m pte va ≡ query_l0 (entry_at m (pte_pa pte) (vpn0_of va)) va
unfolding query_l1
query_l1-pointer m pte va (a, b) = rw (a, b) refl

-- Where the entry is no pointer, the memory is not read again.
pub query_l1-other :
    (m m' : Memory) (pte va : ℕ)
    → (is_valid pte ≡ false) ⊎ (is_leaf pte ≡ true)
    → query_l1 m' pte va ≡ query_l1 m pte va
unfolding query_l1
query_l1-other m m' pte va (inl a) = rw a refl
query_l1-other m m' pte va (inr b) = elim (Bool-cases (is_valid pte)) [
  | inl a ↦ rw (a, b) refl
  | inr a ↦ rw a refl
]

pub IsPointer-cases : (pte : ℕ) → IsPointer pte ⊎ ((is_valid pte ≡ false) ⊎ (is_leaf pte ≡ true))
IsPointer-cases pte = elim (Bool-cases (is_valid pte)) [
  | inl a ↦ elim (Bool-cases (is_leaf pte)) [ inl b ↦ inr (inr b) | inr b ↦ inl (a, b) ]
  | inr a ↦ inr (inl a)
]

-- A translation reads one word of the root, and one of the table that it leads to.
pub query_root-words :
    (m m' : Memory) (root va : ℕ)
    → entry_at m' root (vpn1_of va) ≡ entry_at m root (vpn1_of va)
    → (let pte = entry_at m root (vpn1_of va) in
        IsPointer pte
        → entry_at m' (pte_pa pte) (vpn0_of va) ≡ entry_at m (pte_pa pte) (vpn0_of va))
    → query_root m' root va ≡ query_root m root va
unfolding query_root
query_root-words m m' root va e same = rw e (elim (IsPointer-cases (entry_at m root (vpn1_of va))) [
  | inl p ↦
      query_l1-pointer m' (entry_at m root (vpn1_of va)) va p
      ∙ ap (λ x. query_l0 x va) (same p)
      ∙ sym (query_l1-pointer m (entry_at m root (vpn1_of va)) va p)
  | inr o ↦ query_l1-other m m' (entry_at m root (vpn1_of va)) va o
])

pub query_root-frame :
    (m m' : Memory) (root va : ℕ)
    → ((page : ℕ) → TablePage m root page → SamePage m m' page)
    → query_root m' root va ≡ query_root m root va
query_root-frame m m' root va same =
    query_root-words m m' root va (same root (inl refl) (vpn1_of va) (omega arith)) λ p.
      same (pte_pa (entry_at m root (vpn1_of va))) (inr (vpn1_of va, omega arith, p, refl))
        (vpn0_of va) (omega arith)

-- A table whose root reads the same is a table.
pub same-IsTable :
    (m m' : Memory) (root : ℕ) → IsTable m root → SamePage m m' root → IsTable m' root
same-IsTable m m' root t same = record {
  aligned = t.aligned;
  small = t.small;
  superpages =
      λ i k a b. rw (same i k) (t.superpages i k (rw (same i k) at a) (rw (same i k) at b));
  below_root = λ i k p. rw (same i k) (t.below_root i k (rw (same i k) at p));
  apart = λ i j k l n p q.
      rw (same i k, same j l) (t.apart i j k l n (rw (same i k) at p) (rw (same j l) at q));
}
