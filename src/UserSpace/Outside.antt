-- ===== src/UserSpace/Outside.antt =====
-- mm/page_alloc.c: pages that the allocator does not manage, such as those of the kernel's image.
use sugimotos.Prelude.{
  ℕ, ◌+◌, ◌-◌, ◌*◌, ◌/◌, ◌%◌, ◌^◌, ◌≤◌, ◌<◌, ◌≡◌, ◌≢◌, ◌⊎◌, refl, ap, ◌∙◌, Bool, false, not, ◌||◌,
  none, some, arith, inl, inr, Bool-cases, ltb, leb, page_size, ◌==◌, if◌then◌else◌, get_or, set,
}
use sugimotos.PageAlloc.{Allocator, Outcome, panic, returns, page_run_size}
use sugimotos.PageAlloc.State.{IsAllocator}
use sugimotos.PageAlloc.Release.{init-ready}
use sugimotos.PageAlloc.Calls.{page_idx_if_managed, page_inc_ref, page_dec_ref, drop_ref}
use sugimotos.Vm.{Machine}
use sugimotos.Vm.Tree.{TablePage}
use sugimotos.Vm.Space.{InUse}

-- A page at `pa` that is none of the allocator's.
abbrev pub Outside : ℕ → Allocator → ℕ → Type 0
Outside ram s pa =
    (pa % page_size ≡ 0) × ((idx : ℕ) → idx < s.managed_page_count → pa ≢ ram + idx * page_size)

-- A page that a process has mapped: it is not the allocator's, or it is in use and no part of the page
-- table.
abbrev pub UserPage : ℕ → Machine → ℕ → ℕ → Type 0
UserPage ram s root pa =
    (InUse ram s.pages pa × (¬ TablePage s.memory root pa)) ⊎ Outside ram s.pages pa

module _ (ram top : ℕ) (al : ram % page_size ≡ 0) (lo : page_run_size ≤ ram) (up : ram ≤ top)
    (hi : top < 2 ^ 32) (s : Allocator) (v : IsAllocator ram top s) (pa : ℕ)
    (out : Outside ram s pa) where
  unmanaged : page_idx_if_managed ram top s pa ≡ none
  unfolding page_idx_if_managed
  unmanaged =
      let idx : ℕ = (pa - ram) / page_size in
      let (aligned, other) = out in
      let page : not (pa % page_size == 0) ≡ false = ground (arith, aligned) in
      elim (Bool-cases (ltb pa ram || leb top pa)) [
        | inl x ↦ rw x refl
        | inr x ↦ elim (Bool-cases (leb s.managed_page_count idx)) [
          | inl y ↦ rw (x, page, y) refl
          | inr y ↦
              let place : pa ≡ ram + idx * page_size = ground (arith, aligned, x) in
              absurd (other idx (ground (arith, y)) place)
        ]
      ]

  -- The counting calls leave the allocator alone.
  pub page_inc_ref-Outside : page_inc_ref ram top s pa ≡ returns s
  unfolding page_inc_ref
  page_inc_ref-Outside =
      ap {A = Allocator × Bool} {B = Outcome Allocator}
        (λ r. if not r.1 then panic else elim (page_idx_if_managed ram top r.0 pa) [
          | none ↦ returns r.0
          | some idx ↦
              let count = get_or r.0.page_refcnt idx 0 in
              if count == 0
              then panic
              else returns
                  (record (r.0) { page_refcnt = set r.0.page_refcnt idx ((count + 1) % 2 ^ 16) })
        ])
        (init-ready ram top al lo up hi s v)
      ∙ rw unmanaged refl

  pub page_dec_ref-Outside : page_dec_ref ram top s pa ≡ returns s
  unfolding page_dec_ref
  page_dec_ref-Outside =
      ap {A = Allocator × Bool} {B = Outcome Allocator}
        (λ r. if not r.1 then panic else elim (page_idx_if_managed ram top r.0 pa) [
          | none ↦ returns r.0
          | some i ↦ drop_ref ram top r.0 i pa
        ])
        (init-ready ram top al lo up hi s v)
      ∙ rw unmanaged refl
