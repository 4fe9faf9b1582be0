-- ===== src/Vm/UserPage.antt =====
-- mm/vm.c: `vm_map_user_page` and `vm_unmap_user_page` as updates of a map from virtual pages to
-- physical pages and permissions.
use sugimotos.Prelude.{
  ℕ, ◌/◌, ◌%◌, ◌^◌, ◌≤◌, ◌<◌, ◌≡◌, ◌≢◌, ◌⊎◌, refl, sym, ap, ◌∙◌, true, false, not, ◌||◌, Option,
  none, arith, inl, inr, Bool-cases, page_size, ◌==◌,
}
use sugimotos.PageAlloc.{page_run_size}
use sugimotos.PageAlloc.State.{IsAllocator}
use sugimotos.Vma.{is_aligned}
use sugimotos.Vm.{Memory, Machine, is_valid, is_leaf, vpn1_of, vm_root_from_satp}
use sugimotos.Vm.Table.{
  query_l0, query_l1, query_root, vm_query_user_page, vm_map_user_page, vm_unmap_user_page,
  user_flags,
}
use sugimotos.Vm.Entry.{mapped_to, user_perm, user_flags-perm, user_perm_lt}
use sugimotos.Vm.Tree.{entry_at}
use sugimotos.Vm.Write.{updated}
use sugimotos.Vm.Space.{
  IsSpace, Apart, Kept, Kept-refl, query_root-other, other-IsSpace, other-Apart,
}
use sugimotos.Vm.Map.{Mapped, vm_map_page-Mapped, write-Mapped}

-- The abstract page table of a process: what each address translates to.
abbrev pub translation : Machine → ℕ → ℕ → Option (ℕ × ℕ)
translation s satp = vm_query_user_page s.memory satp

-- Where the root has no entry for `va`, its page translates to nothing.
nothing_there :
    (m : Memory) (root va a : ℕ)
    → va < 2 ^ 32
    → a < 2 ^ 32
    → is_valid (entry_at m root (vpn1_of va)) ≡ false
    → query_root m root a ≡ updated (λ a. none) va (query_root m root) a
unfolding query_root query_l1
nothing_there m root va a h k v = elim (Bool-cases (a / page_size == va / page_size)) [
  | inl e ↦ let same : vpn1_of a ≡ vpn1_of va = ground arith in rw e (rw same (rw v refl))
  | inr e ↦ rw e refl
]

module _ (ram top : ℕ) (al : ram % page_size ≡ 0) (lo : page_run_size ≤ ram) (up : ram ≤ top)
    (hi : top < 2 ^ 32) where
  -- On a sound allocator, `vm_map_user_page` of a table whose pages are in use returns -1 and changes
  -- nothing; or both addresses are aligned and it returns 0: the page of `va` then translates to `pa`
  -- with the permissions of `prot` and U (to nothing, if `prot` has none of R, W and X), and every
  -- other address as before.
  pub vm_map_user_page-updated :
      (s : Machine) (satp va pa prot : ℕ)
      → IsAllocator ram top s.pages
      → IsSpace ram s (vm_root_from_satp satp)
      → va < 2 ^ 32
      → pa < 2 ^ 32
      → (vm_map_user_page ram top s satp va pa prot ≡ (s, false))
        ⊎ ((t : Machine) × (vm_map_user_page ram top s satp va pa prot ≡ (t, true))
            × (va % page_size ≡ 0)
            × (pa % page_size ≡ 0)
            × Mapped ram top s (vm_root_from_satp satp) va (mapped_to pa (user_perm prot)) t)
  unfolding vm_map_user_page
  vm_map_user_page-updated s satp va pa prot v w h k =
      elim (Bool-cases (not (is_aligned va) || not (is_aligned pa))) [
        | inl x ↦ inl (rw x refl)
        | inr x ↦
            elim (vm_map_page-Mapped ram top al lo up hi s (vm_root_from_satp satp) va pa
              (user_flags prot) v w h k (rw (user_flags-perm prot) (user_perm_lt prot))) [
                | inl e ↦ inl (rw x e)
                | inr (t, e, m) ↦
                    inr (t, rw x e, ground arith, ground arith, rw (user_flags-perm prot) at m)
              ]
      ]

  -- On a sound allocator, for a table whose pages are in use, `vm_unmap_user_page` returns -1 only for
  -- an address that is not aligned or lies in a 4 MiB page, with nothing changed; otherwise it returns
  -- 0, the page of `va` translates to nothing, and every other address as before.
  pub vm_unmap_user_page-updated :
      (s : Machine) (satp va : ℕ)
      → IsAllocator ram top s.pages
      → IsSpace ram s (vm_root_from_satp satp)
      → va < 2 ^ 32
      → let (memory, ok) = vm_unmap_user_page s.memory satp va in
        let pte = entry_at s.memory (vm_root_from_satp satp) (vpn1_of va) in
        ((ok ≡ false)
          × (memory ≡ s.memory)
          × ((va % page_size ≢ 0) ⊎ ((is_valid pte ≡ true) × (is_leaf pte ≡ true))))
        ⊎ ((ok ≡ true)
            × Mapped ram top s
                (vm_root_from_satp satp)
                va
                (λ a. none)
                (record s { memory = memory }))
  unfolding vm_unmap_user_page
  vm_unmap_user_page-updated s satp va v w h = elim (Bool-cases (not (is_aligned va))) [
    | inl x ↦ rw x (inl (refl, refl, inl (ground arith)))
    | inr x ↦
        let pte : ℕ = entry_at s.memory (vm_root_from_satp satp) (vpn1_of va) in
        elim (Bool-cases (is_valid pte)) [
          | inl y ↦ elim (Bool-cases (is_leaf pte)) [
            | inl z ↦ rw (x, y, z) (inl (refl, refl, inr (refl, refl)))
            | inr z ↦
                rw (x, y, z)
                  (inr (
                    refl,
                    unfold query_l0 in
                        write-Mapped ram top al lo up hi s (vm_root_from_satp satp) va 0 v w (y, z)
                          h,
                  ))
          ]
          | inr y ↦
              rw (x, y)
                (inr (
                  refl,
                  record {
                    space = w;
                    kept = Kept-refl s v;
                    changed = λ a k. nothing_there s.memory (vm_root_from_satp satp) va a h k y;
                  },
                ))
        ]
  ]

  -- On a sound allocator, where `vm_map_user_page` returns 0, a page table that shares no page with the
  -- one that it maps in keeps all its translations, its shape and its pages, and the two still share no
  -- page, with the pages of both tables in use before.
  pub vm_map_user_page_isolated :
      (s t : Machine) (satp other va pa prot : ℕ)
      → IsAllocator ram top s.pages
      → IsSpace ram s (vm_root_from_satp satp)
      → IsSpace ram s (vm_root_from_satp other)
      → Apart s.memory (vm_root_from_satp satp) (vm_root_from_satp other)
      → va < 2 ^ 32
      → pa < 2 ^ 32
      → vm_map_user_page ram top s satp va pa prot ≡ (t, true)
      → ((a : ℕ) → translation t other a ≡ translation s other a)
        × IsSpace ram t (vm_root_from_satp other)
        × Apart t.memory (vm_root_from_satp satp) (vm_root_from_satp other)
  unfolding vm_query_user_page
  vm_map_user_page_isolated s t satp other va pa prot v w u apart h k e =
      elim (vm_map_user_page-updated s satp va pa prot v w h k) [
        | inl f ↦ let clash : true ≡ false = ap (λ r. r.1) (sym e ∙ f) in absurd (ground arith)
        | inr (t', f, _, _, m) ↦
            let same : t' ≡ t = ap (λ r. r.0) (sym f ∙ e) in
            let kept : Kept ram top (vm_root_from_satp satp) s t = rw same at m.kept in
            (
              query_root-other (vm_root_from_satp other) s t kept u apart,
              other-IsSpace (vm_root_from_satp other) s t kept u apart,
              other-Apart (vm_root_from_satp other) s t kept u apart,
            )
      ]
