-- ===== src/Vm/Write.antt =====
-- mm/vm.c: a write to an entry of a second-level table.
use sugimotos.Prelude.{
  ℕ, ◌+◌, ◌*◌, ◌/◌, ◌^◌, ◌<◌, ◌≡◌, sym, ap, ◌∙◌, true, false, arith, Option, ◌==◌, if◌then◌else◌,
  page_size,
}
use native.Mathlib.Decide.{ℕ_discrete}
use sugimotos.Vm.{Memory, store, pte_pa, vpn1_of, vpn0_of}
use sugimotos.Vm.Table.{query_l0, query_l1, query_root}
use sugimotos.Vm.Tree.{
  entry_at, IsPointer, IsTable, SamePage, store_at, store_page, query_l1-pointer, query_root-words,
  same-IsTable, store_ne,
}

-- The translation with one page changed: the page of `va` is now what `own` says.
abbrev pub updated : (ℕ → Option (ℕ × ℕ)) → ℕ → (ℕ → Option (ℕ × ℕ)) → ℕ → Option (ℕ × ℕ)
updated own va rest a = if a / page_size == va / page_size then own a else rest a

module _ (m : Memory) (root : ℕ) (t : IsTable m root) (va pte : ℕ)
    (p : IsPointer (entry_at m root (vpn1_of va))) where
  abbrev pub written : Memory
  written = store m (pte_pa (entry_at m root (vpn1_of va)) + vpn0_of va * 4) pte

  pub written-root : SamePage m written root
  written-root =
      store_page m root (pte_pa (entry_at m root (vpn1_of va))) (vpn0_of va) pte t.aligned
        (omega arith) (λ e. t.below_root (vpn1_of va) (omega arith) p (sym e)) (omega arith)

  pub written-IsTable : IsTable written root
  written-IsTable = same-IsTable m written root t written-root

  elsewhere :
      (a : ℕ)
      → va < 2 ^ 32
      → a < 2 ^ 32
      → (a / page_size == va / page_size) ≡ false
      → (let pte = entry_at m root (vpn1_of a) in
          IsPointer pte
          → entry_at written (pte_pa pte) (vpn0_of a) ≡ entry_at m (pte_pa pte) (vpn0_of a))
      → query_root written root a ≡ updated (query_l0 pte) va (query_root m root) a
  elsewhere a h k other same =
      rw other (query_root-words m written root a (written-root (vpn1_of a) (omega arith)) same)

  pub query_root-written :
      (a : ℕ)
      → va < 2 ^ 32
      → a < 2 ^ 32
      → query_root written root a ≡ updated (query_l0 pte) va (query_root m root) a
  unfolding query_root
  query_root-written a h k = elim (ℕ_discrete (vpn1_of a) (vpn1_of va)) [
    | yes e ↦ elim (ℕ_discrete (vpn0_of a) (vpn0_of va)) [
      | yes f ↦
          let same : (a / page_size == va / page_size) ≡ true = ground arith in
          rw same (
            ap (λ x. query_l1 written x a) (written-root (vpn1_of a) (omega arith))
            ∙ ap (λ i. query_l1 written (entry_at m root i) a) e
            ∙ query_l1-pointer written (entry_at m root (vpn1_of va)) a p
            ∙ ap (λ i. query_l0 (entry_at written (pte_pa (entry_at m root (vpn1_of va))) i) a) f
            ∙ ap (λ x. query_l0 x a)
                (store_at m (pte_pa (entry_at m root (vpn1_of va)) + vpn0_of va * 4) pte))
      | no f ↦ elsewhere a h k (ground arith) λ q. rw e (
          store_ne m (pte_pa (entry_at m root (vpn1_of va)) + vpn0_of va * 4) pte
            (pte_pa (entry_at m root (vpn1_of va)) + vpn0_of a * 4) (omega arith))
    ]
    | no e ↦ elsewhere a h k (ground arith) λ q.
        store_page m (pte_pa (entry_at m root (vpn1_of a))) (pte_pa (entry_at m root (vpn1_of va)))
          (vpn0_of va) pte (omega arith) (omega arith)
          (t.apart (vpn1_of a) (vpn1_of va) (omega arith) (omega arith) e q p) (omega arith)
          (vpn0_of a) (omega arith)
  ]
