-- ===== src/Vm/Isolation.antt =====
-- mm/vm.c: the tables that were there before a new one was built.
use sugimotos.Prelude.{ℕ, ◌≡◌, sym, ◌∙◌, Option, arith}
use sugimotos.Vm.{Machine, vm_root_from_satp}
use sugimotos.Vm.Table.{query_root}
use sugimotos.Vm.Tree.{TablePage, SamePage, query_root-frame}
use sugimotos.Vm.Space.{InUse, IsSpace, Apart, old_page, same-IsSpace}
use sugimotos.Vm.Untouched.{Untouched, NewTable}

module _ {ram top : ℕ} (s t : Machine)
    (same_size : t.pages.managed_page_count ≡ s.pages.managed_page_count)
    (k : Untouched ram top s t) where
  InUse-Untouched : (p : ℕ) → InUse ram s.pages p → InUse ram t.pages p
  InUse-Untouched p (idx, l, e, n) =
      (idx, omega (arith, same_size), e, λ z. n (sym (k.counts idx n) ∙ z))

  module _ (root : ℕ) (w : IsSpace ram s root) where
    same_words : (p : ℕ) → TablePage s.memory root p → SamePage s.memory t.memory p
    same_words p q = k.words p (w.held p q)

    pub Untouched-IsSpace : IsSpace ram t root
    Untouched-IsSpace = same-IsSpace root s t w same_words λ p q. InUse-Untouched p (w.held p q)

    pub query_root-Untouched : (a : ℕ) → query_root t.memory root a ≡ query_root s.memory root a
    query_root-Untouched a = query_root-frame s.memory t.memory root a same_words

    pub NewTable-Apart :
        (satp : ℕ) (view : ℕ → Option (ℕ × ℕ))
        → NewTable ram s satp view t
        → Apart t.memory (vm_root_from_satp satp) root
    NewTable-Apart satp view n p a b = n.new p a (w.held p (old_page root s t w same_words p b))
