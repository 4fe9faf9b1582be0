-- ===== src/UserSpace/Cow.antt =====
-- mm/process_vm.c: a page that is shared is copied on the first write.
use sugimotos.Prelude.{
  ℕ, ◌+◌, ◌*◌, ◌/◌, ◌%◌, ◌^◌, ◌≤◌, ◌<◌, ◌≡◌, ◌≢◌, refl, sym, ap, ◌∙◌, Bool, true, false, some,
  arith, inl, inr, page_size, ◌==◌, if◌then◌else◌, bit_and,
}
use sugimotos.PageAlloc.{Allocator, Outcome, returns, page_run_size}
use sugimotos.PageAlloc.State.{IsAllocator, ref_of}
use sugimotos.PageAlloc.Alloc.{Given}
use sugimotos.PageAlloc.Release.{page_dec_ref_lem}
use sugimotos.Vm.{Machine, Memory, clear_page, copy_page, vm_root_from_satp}
use sugimotos.Vm.Entry.{user_perm}
use sugimotos.Vm.Tree.{entry_at, TablePage, SamePage}
use sugimotos.Vm.Split.{clear_page_out}
use sugimotos.Vm.Space.{InUse, IsSpace, same-IsSpace}
use sugimotos.Vm.NewPage.{alloc_page-cases, page_aligned, page_fresh, page_same}
use sugimotos.Vm.Untouched.{copy_page_in, copy_page_out}
use sugimotos.Vm.UserPage.{translation}
use sugimotos.UserSpace.{then_do, with_pages, dec_ref}
use sugimotos.UserSpace.Calls.{map_or_free, cow_copy}
use sugimotos.UserSpace.Place.{Placed, Refused, map_or_free-cases}
use sugimotos.PageAlloc.Drop.{Dropped}
use sugimotos.UserSpace.Outside.{UserPage, page_dec_ref-Outside}
use sugimotos.UserSpace.Fault.{
  IsAccess, user_perm-Allows, Faulted, Served, Refused-refl, Placed-maps,
}

module _ (ram top : ℕ) (al : ram % page_size ≡ 0) (lo : page_run_size ≤ ram) (up : ram ≤ top)
    (hi : top < 2 ^ 32) (s : Machine) (v : IsAllocator ram top s.pages) (satp : ℕ)
    (w : IsSpace ram s (vm_root_from_satp satp)) (va : ℕ) (va_page : va % page_size ≡ 0)
    (small : va < 2 ^ 32) where
  module _ (old : ℕ) (user_page : UserPage ram s (vm_root_from_satp satp) old) (mapped : ℕ)
      (was : translation s satp va ≡ some (old, mapped)) where
    abbrev page : ℕ → ℕ
    page idx = ram + idx * page_size

    module _ (pages : Allocator) (idx : ℕ) (g : Given ram top al lo up hi s.pages idx 1 pages) where
      abbrev copied : Memory
      copied = copy_page (clear_page s.memory (page idx)) (page idx) old

      InUse_aligned : (p : ℕ) → InUse ram s.pages p → p % page_size ≡ 0
      InUse_aligned p (k, _, e, _) = omega arith

      keep : (p : ℕ) → InUse ram s.pages p → SamePage s.memory copied p
      keep p u i h =
          copy_page_out (clear_page s.memory (page idx)) p (page idx) old (InUse_aligned p u)
            (page_aligned ram top al lo up hi s v pages idx g)
            (λ e. page_fresh ram top al lo up hi s v pages idx g (rw e at u)) i h
          ∙ page_same ram top al lo up hi s v pages idx g p u i h

      -- The old page is not the new one.
      old_apart : (old % page_size ≡ 0) × (old ≢ page idx)
      old_apart = elim user_page [
        | inl (u, _) ↦
            (InUse_aligned old u, λ e. page_fresh ram top al lo up hi s v pages idx g (rw e at u))
        | inr (a, other) ↦ (a, other idx (omega (arith, g.room)))
      ]

      copied_content : (i : ℕ) → i < 1024 → entry_at copied (page idx) i ≡ entry_at s.memory old i
      copied_content i h =
          let (a, n) = old_apart in
          copy_page_in (clear_page s.memory (page idx)) (page idx) old i h
          ∙ clear_page_out s.memory old (page idx) a
              (page_aligned ram top al lo up hi s v pages idx g) n i h

      abbrev CopyPlaced : ℕ → Machine → Type 0
      CopyPlaced prot =
          Placed ram top al lo up hi s v satp w pages idx g copied keep va (user_perm prot)

      -- The copy is mapped; only the counts are still to change.
      copy_Faulted :
          (prot access : ℕ) (t : Machine)
          → IsAccess access
          → (bit_and prot access == access) ≡ true
          → CopyPlaced prot t
          → (after : Allocator) → IsAllocator ram top after
          → IsSpace ram (record t { pages = after }) (vm_root_from_satp satp)
          → Faulted ram top s satp va access (record t { pages = after })
      copy_Faulted prot access t kind allowed m after sound space =
          let (maps, others) =
            Placed-maps ram top al lo up hi s v satp w va va_page small pages idx g copied keep prot
              access t kind allowed m in
          let (bits, _) = user_perm-Allows prot access kind allowed in
          record {
            steady = record { allocator = sound; space = space; words = m.steady.words };
            pa = page idx;
            prot = user_perm prot / 2 % 16 * 2;
            maps = maps;
            allows = bits;
            others = others;
            content = inr (old, mapped, was, λ i h. m.content i h ∙ copied_content i h);
          }

      -- Every page but the old one stays in use, and the old one is not in the table.
      still-IsSpace :
          (prot j : ℕ) (t : Machine)
          → CopyPlaced prot t
          → (after : Allocator) → Dropped ram top t.pages j after
          → old ≡ ram + j * page_size
          → InUse ram s.pages old
          → ¬ TablePage s.memory (vm_root_from_satp satp) old
          → IsSpace ram (record t { pages = after }) (vm_root_from_satp satp)
      still-IsSpace prot j t m after d place u apart =
          same-IsSpace (vm_root_from_satp satp) t (record t { pages = after }) m.steady.space
            (λ p q i h. refl) λ p q. held p (not_old p q) (m.steady.space.held p q)
        where
          not_old : (p : ℕ) → TablePage t.memory (vm_root_from_satp satp) p → p ≢ old
          not_old p q e = elim (m.new_pages p q) [ inl a ↦ apart (rw e at a) | inr n ↦ n (rw e u) ]

          held : (p : ℕ) → p ≢ old → InUse ram t.pages p → InUse ram after p
          held p ne (k, l, e, n) =
              let other : k ≢ j = λ q. ne (e ∙ rw q (sym place)) in
              (
                k,
                omega (arith, d.valid.managed, m.steady.allocator.managed),
                e,
                λ z. n (sym (d.others k other) ∙ z),
              )

      -- The old page loses the reference of this table, if it is the allocator's.
      dropped :
          (prot access : ℕ) (t : Machine)
          → IsAccess access
          → (bit_and prot access == access) ≡ true
          → CopyPlaced prot t
          → UserPage ram s (vm_root_from_satp satp) old
          → (u : Machine) × (dec_ref ram top t old ≡ returns u) × Faulted ram top s satp va access u
      dropped prot access t kind allowed m (inl (u, apart)) =
          let (j, l, e, n) = u in
          let nonzero : ref_of t.pages j ≢ 0 = λ z. n (sym (m.counts j n) ∙ z) in
          let (_, in_use) =
            page_dec_ref_lem ram top al lo up hi t.pages j m.steady.allocator
              (omega (arith, m.managed)) in
          let (after, f, d) = in_use nonzero in
          let step : dec_ref ram top t (ram + j * page_size)
              ≡ returns (record t { pages = after }) =
            ap {A = Outcome Allocator} {B = Outcome Machine} (λ o. with_pages t o) f in
          (
            record t { pages = after },
            ap (λ x. dec_ref ram top t x) e ∙ step,
            copy_Faulted prot access t kind allowed m after d.valid
                (still-IsSpace prot j t m after d e u apart),
          )
      dropped prot access t kind allowed m (inr (a, other)) = (
        t,
        ap {A = Outcome Allocator} {B = Outcome Machine} (λ o. with_pages t o)
            (page_dec_ref-Outside ram top al lo up hi t.pages m.steady.allocator old
              (a, λ idx l. other idx (omega (arith, m.managed)))),
        copy_Faulted prot access t kind allowed m t.pages m.steady.allocator m.steady.space,
      )

    -- A copy of the page that was mapped.
    pub cow_copy-Served :
        (prot access : ℕ)
        → IsAccess access
        → (bit_and prot access == access) ≡ true
        → Served ram top s satp va access (cow_copy ram top s satp va old prot)
    unfolding cow_copy
    cow_copy-Served prot access kind allowed = elim (alloc_page-cases ram top al lo up hi s v) [
      | inl q ↦ (s, false, ap rest q, Refused-refl ram top al lo up hi s v satp w va va_page small)
      | inr (pages, idx, g, q) ↦
          let (t, ok, f, r) =
            map_or_free-cases ram top al lo up hi s v satp w pages idx g (copied pages idx g)
              (keep pages idx g) va prot small in
          let (u, ok', e, h) = finish pages idx g t ok r in
          (
            u,
            ok',
            ap rest q
                ∙ rw (nonzero idx) (
                    ap {A = Outcome (Machine × Bool)} {B = Outcome (Machine × Bool)}
                      (λ o. then_do o drop_old) f
                    ∙ e),
            h,
          )
    ]
      where
        drop_old : Machine × Bool → Outcome (Machine × Bool)
        drop_old (s'', ok) =
            if ok
            then then_do (dec_ref ram top s'' old) (λ t. returns (t, true))
            else returns (s'', false)

        rest : Machine × ℕ → Outcome (Machine × Bool)
        rest (s', new_pa) =
            if new_pa == 0
            then returns (s', false)
            else then_do
                (map_or_free ram top (record s' { memory = copy_page s'.memory new_pa old }) satp va
                  new_pa prot)
                drop_old

        nonzero : (idx : ℕ) → (ram + idx * page_size == 0) ≡ false
        nonzero idx = ground arith

        finish :
            (pages : Allocator) (idx : ℕ) (g : Given ram top al lo up hi s.pages idx 1 pages)
            (t : Machine) (ok : Bool)
            → (if ok then CopyPlaced pages idx g prot t else Refused ram top s satp t)
            → Served ram top s satp va access (drop_old (t, ok))
        finish pages idx g t true m =
            let (u, e, f) = dropped pages idx g prot access t kind allowed m user_page in
            (
              u,
              true,
              ap {A = Outcome Machine} {B = Outcome (Machine × Bool)}
                  (λ o. then_do o λ t. returns (t, true)) e,
              f,
            )
        finish pages idx g t false r = (t, false, refl, r)
