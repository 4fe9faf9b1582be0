-- ===== src/Vm/Map.antt =====
-- mm/vm.c: `vm_map_page` changes the translation of one page.
use sugimotos.Prelude.{
  ℕ, ◌+◌, ◌*◌, ◌%◌, ◌^◌, ◌≤◌, ◌<◌, ◌≡◌, ◌⊎◌, refl, ap, ◌∙◌, Bool, true, false, Option, none, some,
  arith, inl, inr, page_size,
}
use sugimotos.PageAlloc.{page_run_size}
use sugimotos.PageAlloc.State.{IsAllocator}
use sugimotos.Vm.{Machine, store, pte_pa, pte_from_pa, pte_perm_from_flags, vpn1_of, vpn0_of}
use sugimotos.Vm.Table.{query_l0, query_root, vm_map_page}
use sugimotos.Vm.Entry.{mapped_to, query_l0-mapped}
use sugimotos.Vm.Tree.{entry_at, IsPointer, TablePage, store_page}
use sugimotos.Vm.Write.{updated, written, written-root, written-IsTable, query_root-written}
use sugimotos.Vm.Level.{l0_for-cases}
use sugimotos.Vm.Space.{InUse, IsSpace, Kept, Kept-trans}

-- From `s` to `t`, the page of `va` in the table at `root` has come to be what `own` says, and
-- nothing else has changed.
pub record Mapped (ram top : ℕ) (s : Machine) (root va : ℕ) (own : ℕ → Option (ℕ × ℕ)) (t : Machine)
    : Type 0 where
  pub space : IsSpace ram t root
  pub kept : Kept ram top root s t
  pub changed :
      (a : ℕ)
      → a < 2 ^ 32
      → query_root t.memory root a ≡ updated own va (query_root s.memory root) a

module _ (ram top : ℕ) (al : ram % page_size ≡ 0) (lo : page_run_size ≤ ram) (up : ram ≤ top)
    (hi : top < 2 ^ 32) where
  -- A word of the second-level table that `va` leads to is written.
  pub write-Mapped :
      (s : Machine) (root va pte : ℕ)
      → IsAllocator ram top s.pages
      → IsSpace ram s root
      → IsPointer (entry_at s.memory root (vpn1_of va))
      → va < 2 ^ 32
      → Mapped ram top s root va (query_l0 pte) (record s {
        memory = store s.memory (pte_pa (entry_at s.memory root (vpn1_of va)) + vpn0_of va * 4) pte;
      })
  write-Mapped s root va pte v w p h =
      let l0 : ℕ = pte_pa (entry_at s.memory root (vpn1_of va)) in
      let same = written-root s.memory root w.table va pte p in
      let page : (q : ℕ)
          → TablePage (written s.memory root w.table va pte p) root q
          → TablePage s.memory root q =
        λ q a. elim a [
          | inl e ↦ inl e
          | inr (i, b, c, e) ↦ inr (i, b, rw (same i b) at c, rw (same i b) at e)
        ] in
      record {
        space = record {
          table = written-IsTable s.memory root w.table va pte p;
          held = λ q a. w.held q (page q a);
        };
        kept = record {
          allocator = v;
          managed = refl;
          counts = λ idx n. refl;
          outside = λ q u n.
              store_page s.memory q l0 (vpn0_of va) pte (InUse_aligned q u) (omega arith)
                (λ e. n (inr (vpn1_of va, omega arith, p, e))) (omega arith);
          pages = λ q a. inl (page q a);
          same_root_pt = refl;
        };
        changed = λ a k. query_root-written s.memory root w.table va pte p a h k;
      }
    where
      InUse_aligned : (q : ℕ) → InUse ram s.pages q → q % page_size ≡ 0
      InUse_aligned q (j, _, e, _) = omega arith

  -- On a sound allocator, `vm_map_page` in a table whose pages are in use returns -1, with nothing
  -- changed, or 0: then the page of `va` translates to the page of `pa` with these permissions (to
  -- nothing, if they have none of R, W and X), every other translation of the table is what it was,
  -- also where a 4 MiB page was split, the table's pages are in use and apart, and no word of a page
  -- that was in use outside the table has changed.
  pub vm_map_page-Mapped :
      (s : Machine) (root va pa flags : ℕ)
      → IsAllocator ram top s.pages
      → IsSpace ram s root
      → va < 2 ^ 32
      → pa < 2 ^ 32
      → pte_perm_from_flags flags < 256
      → (vm_map_page ram top s root va pa flags ≡ (s, false))
        ⊎ ((t : Machine) × (vm_map_page ram top s root va pa flags ≡ (t, true))
            × Mapped ram top s root va (mapped_to pa (pte_perm_from_flags flags)) t)
  unfolding vm_map_page
  vm_map_page-Mapped s root va pa flags v w h k b =
      elim (l0_for-cases ram top al lo up hi s v root w (vpn1_of va) (omega arith)) [
        | inl e ↦ inl (ap rest e)
        | inr (t, l0, e, l) ↦ inr (
          record t {
            memory =
                store t.memory (l0 + vpn0_of va * 4) (pte_from_pa pa (pte_perm_from_flags flags));
          },
          ap rest e,
          rw (← l.target) (
              let pte : ℕ = pte_from_pa pa (pte_perm_from_flags flags) in
              let w1 = write-Mapped t root va pte l.kept.allocator l.space l.pointer h in
              record {
                space = w1.space;
                kept = Kept-trans s t _ l.kept w1.kept;
                changed = λ a m.
                    w1.changed a m
                    ∙ rw (query_l0-mapped pa (pte_perm_from_flags flags) a k b, l.same a) refl;
              }),
        )
      ]
    where
      rest : Machine × Option ℕ → Machine × Bool
      rest (s', none) = (s', false)
      rest (s', some l0) = (
        record s' {
          memory =
              store s'.memory (l0 + vpn0_of va * 4) (pte_from_pa pa (pte_perm_from_flags flags));
        },
        true,
      )
