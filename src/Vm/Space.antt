-- ===== src/Vm/Space.antt =====
-- mm/vm.c: a page table whose pages are in use in the page allocator, and what a change to one table
-- leaves alone.
use sugimotos.Prelude.{ℕ, ◌+◌, ◌*◌, ◌<◌, ◌≡◌, ◌≢◌, ◌⊎◌, refl, sym, ◌∙◌, arith, inl, inr, page_size}
use sugimotos.PageAlloc.{Allocator}
use sugimotos.PageAlloc.State.{IsAllocator, ref_of}
use sugimotos.Vm.{Memory, Machine}
use sugimotos.Vm.Table.{query_root}
use sugimotos.Vm.Tree.{IsTable, TablePage, SamePage, query_root-frame, same-IsTable}

-- The page at `p` is managed and has a reference.
abbrev pub InUse : ℕ → Allocator → ℕ → Type 0
InUse ram s p =
    (idx : ℕ) × (idx < s.managed_page_count) × (p ≡ ram + idx * page_size) × (ref_of s idx ≢ 0)

-- A root table whose pages are all in use.
pub record IsSpace (ram : ℕ) (s : Machine) (root : ℕ) : Type 0 where
  pub table : IsTable s.memory root
  pub held : (p : ℕ) → TablePage s.memory root p → InUse ram s.pages p

-- From `s` to `t`, only the table at `root` has changed, with pages that were free: the allocator is
-- sound, no count of a page in use has changed, and neither has any word of such a page outside the
-- table.
pub record Kept (ram top root : ℕ) (s t : Machine) : Type 0 where
  pub allocator : IsAllocator ram top t.pages
  pub managed : t.pages.managed_page_count ≡ s.pages.managed_page_count
  pub counts : (idx : ℕ) → ref_of s.pages idx ≢ 0 → ref_of t.pages idx ≡ ref_of s.pages idx
  pub outside :
      (p : ℕ) → InUse ram s.pages p → ¬ TablePage s.memory root p → SamePage s.memory t.memory p
  pub pages :
      (p : ℕ) → TablePage t.memory root p → TablePage s.memory root p ⊎ ¬ InUse ram s.pages p
  pub same_root_pt : t.kernel_root_pt ≡ s.kernel_root_pt

module _ {ram top root : ℕ} where
  pub Kept-refl : (s : Machine) → IsAllocator ram top s.pages → Kept ram top root s s
  Kept-refl s v = record {
    allocator = v;
    managed = refl;
    counts = λ idx n. refl;
    outside = λ p u n i h. refl;
    pages = λ p h. inl h;
    same_root_pt = refl;
  }

  pub InUse-Kept :
      (s t : Machine) (p : ℕ) → Kept ram top root s t → InUse ram s.pages p → InUse ram t.pages p
  InUse-Kept s t p k (idx, l, e, n) =
      (idx, omega (arith, k.managed), e, λ z. n (sym (k.counts idx n) ∙ z))

  pub Kept-trans :
      (s t u : Machine) → Kept ram top root s t → Kept ram top root t u → Kept ram top root s u
  Kept-trans s t u k l = record {
    allocator = l.allocator;
    managed = l.managed ∙ k.managed;
    counts = λ idx n. l.counts idx (λ z. n (sym (k.counts idx n) ∙ z)) ∙ k.counts idx n;
    outside = λ p h n i b.
        l.outside p (InUse-Kept s t p k h) (λ q. elim (k.pages p q) [ inl a ↦ n a | inr a ↦ a h ]) i
          b
        ∙ k.outside p h n i b;
    pages = λ p q. elim (l.pages p q) [
      | inl a ↦ k.pages p a
      | inr a ↦ inr (λ h. a (InUse-Kept s t p k h))
    ];
    same_root_pt = l.same_root_pt ∙ k.same_root_pt;
  }

-- A table whose pages read the same, and are still in use, stays a table with the same pages.
module _ {ram : ℕ} (root : ℕ) (s t : Machine) (w : IsSpace ram s root)
    (same : (p : ℕ) → TablePage s.memory root p → SamePage s.memory t.memory p) where
  pub old_page : (p : ℕ) → TablePage t.memory root p → TablePage s.memory root p
  old_page p (inl e) = inl e
  old_page p (inr (i, h, q, e)) =
      let entry = same root (inl refl) i h in inr (i, h, rw entry at q, rw entry at e)

  pub same-IsSpace :
      ((p : ℕ) → TablePage s.memory root p → InUse ram t.pages p) → IsSpace ram t root
  same-IsSpace held = record {
    table = same-IsTable s.memory t.memory root w.table (same root (inl refl));
    held = λ p q. held p (old_page p q);
  }

-- The two tables share no page.
abbrev pub Apart : Memory → ℕ → ℕ → Type 0
Apart m root other = (p : ℕ) → TablePage m root p → ¬ TablePage m other p

-- Another table that shares no page with the one changed stays: its shape, its pages and all its
-- translations.
module _ {ram top root : ℕ} (other : ℕ) (s t : Machine) (k : Kept ram top root s t)
    (v : IsSpace ram s other) (apart : Apart s.memory root other) where
  other_same : (p : ℕ) → TablePage s.memory other p → SamePage s.memory t.memory p
  other_same p q = k.outside p (v.held p q) (λ a. apart p a q)

  pub other-IsSpace : IsSpace ram t other
  other-IsSpace = same-IsSpace other s t v other_same λ p q. InUse-Kept s t p k (v.held p q)

  pub other-Apart : Apart t.memory root other
  other-Apart p a b =
      let c = old_page other s t v other_same p b in
      elim (k.pages p a) [ inl d ↦ apart p d c | inr d ↦ d (v.held p c) ]

  pub query_root-other : (a : ℕ) → query_root t.memory other a ≡ query_root s.memory other a
  query_root-other a = query_root-frame s.memory t.memory other a other_same
