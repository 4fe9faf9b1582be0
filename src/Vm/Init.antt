-- ===== src/Vm/Init.antt =====
-- mm/vm.c: `vm_init` builds the kernel's table.
use sugimotos.Prelude.{
  ℕ, ◌+◌, ◌*◌, ◌%◌, ◌^◌, ◌≤◌, ◌<◌, ◌≡◌, ◌≢◌, ◌⊎◌, refl, ap, ◌∙◌, Bool, true, false, none, arith,
  inl, inr, page_size, ◌==◌, if◌then◌else◌,
}
use sugimotos.Prelude.Bits.{has_bit}
use sugimotos.PageAlloc.{Allocator, page_run_size}
use sugimotos.PageAlloc.State.{IsAllocator}
use sugimotos.PageAlloc.Alloc.{Given}
use sugimotos.Vm.{Memory, Machine, clear_page, pte_perm_from_flags, vm_make_satp, vpn1_of}
use sugimotos.Vm.Table.{vm_query_user_page, query_root, query_l1}
use sugimotos.Vm.Build.{vm_map_range_4m, map_kernel, vm_init, vm_kernel_satp}
use sugimotos.Vm.Entry.{vm_root_from_satp-make}
use sugimotos.Vm.Tree.{entry_at, IsPointer, SamePage}
use sugimotos.Vm.Split.{clear_page_in}
use sugimotos.Vm.NewPage.{with_page, alloc_page-cases, page_aligned, page_small, page_held}
use sugimotos.Vm.Range.{View, range_updated}
use sugimotos.Vm.Untouched.{IsKernel}
use sugimotos.Vm.Kernel.{FlatRoot, range_4m_loop-FlatMapped}

-- The devices with R and W, and the memory with R, W and X, each at its own address; and no other.
abbrev pub kernel_view : View
kernel_view = range_updated 0x80000000 0x84000000 0x80000000 0x80000000 0xe (
    range_updated 0x10000000 0x12000000 0x10000000 0x10000000 0x6 (
      range_updated 0x0c000000 0x0c400000 0x0c000000 0x0c000000 0x6
        (range_updated 0x02000000 0x02400000 0x02000000 0x02000000 0x6 (λ a. none))))

perm_rw : pte_perm_from_flags 3 ≡ 0x6
unfolding pte_perm_from_flags has_bit
perm_rw = refl

perm_rwx : pte_perm_from_flags 7 ≡ 0xe
unfolding pte_perm_from_flags has_bit
perm_rwx = refl

module _ (root : ℕ) (al : root % page_size ≡ 0) (m : Memory)
    (blank : (i : ℕ) → i < 1024 → entry_at m root i ≡ 0) where
  blank-FlatRoot : FlatRoot m root
  blank-FlatRoot i h = inl (rw (blank i h) refl)

  blank_view : (a : ℕ) → query_root m root a ≡ none
  unfolding query_root query_l1
  blank_view a = rw (blank (vpn1_of a) (omega arith)) refl

  map_kernel_lem :
      FlatRoot (map_kernel m root) root
      × ((p : ℕ) → p % page_size ≡ 0 → p ≢ root → SamePage m (map_kernel m root) p)
      × ((a : ℕ) → a < 2 ^ 32 → query_root (map_kernel m root) root a ≡ kernel_view a)
  unfolding map_kernel vm_map_range_4m
  map_kernel_lem =
      rw (perm_rw, perm_rwx)
        (let r1 =
            range_4m_loop-FlatMapped root al 0x02000000 0x02000000 0x00400000 0x6 refl refl refl
              (omega arith) (omega arith) (omega arith) (omega arith) refl 1 m 0 blank-FlatRoot refl
              (omega arith) (omega arith) in
          let r2 =
            range_4m_loop-FlatMapped root al 0x0c000000 0x0c000000 0x00400000 0x6 refl refl refl
              (omega arith) (omega arith) (omega arith) (omega arith) refl 1 _ 0 r1.flat refl
              (omega arith) (omega arith) in
          let r3 =
            range_4m_loop-FlatMapped root al 0x10000000 0x10000000 0x02000000 0x6 refl refl refl
              (omega arith) (omega arith) (omega arith) (omega arith) refl 8 _ 0 r2.flat refl
              (omega arith) (omega arith) in
          let r4 =
            range_4m_loop-FlatMapped root al 0x80000000 0x80000000 0x04000000 0xe refl refl refl
              (omega arith) (omega arith) (omega arith) (omega arith) refl 16 _ 0 r3.flat refl
              (omega arith) (omega arith) in
          (
            r4.flat,
            λ p a n i h.
                r4.others p a n i h
                ∙ r3.others p a n i h
                ∙ r2.others p a n i h
                ∙ r1.others p a n i h,
            λ a h.
                r4.changed a h
                ∙ rw (r3.changed a h)
                    (rw (r2.changed a h) (rw (r1.changed a h) (rw (blank_view a) refl))),
          ))

module _ (ram top : ℕ) (al : ram % page_size ≡ 0) (lo : page_run_size ≤ ram) (up : ram ≤ top)
    (hi : top < 2 ^ 32) (s : Machine) (v : IsAllocator ram top s.pages) where
  module _ (pages : Allocator) (idx : ℕ) (g : Given ram top al lo up hi s.pages idx 1 pages) where
    abbrev page : ℕ
    page = ram + idx * page_size

    abbrev s1 : Machine
    s1 = with_page ram top al lo up hi s pages idx

    abbrev started : Machine
    started = record s1 {
      memory = map_kernel (clear_page s1.memory page) page;
      kernel_root_pt = page;
      kernel_satp_value = vm_make_satp page;
    }

    started_lem :
        IsKernel ram started
        × ((a : ℕ)
            → a < 2 ^ 32
            → vm_query_user_page started.memory (vm_kernel_satp started) a ≡ kernel_view a)
    unfolding vm_query_user_page vm_kernel_satp
    started_lem =
        let aligned : page % page_size ≡ 0 = page_aligned ram top al lo up hi s v pages idx g in
        let small : page < 2 ^ 32 = page_small ram top al lo up hi s v pages idx g in
        let (flat, _, view) =
          map_kernel_lem page aligned (clear_page s1.memory page) (clear_page_in s1.memory page) in
        let no_pointer : (i : ℕ) → i < 1024 → ¬ IsPointer (entry_at started.memory page i) =
          λ i h (p, q). elim (flat i h) [
            | inl x ↦ ground (arith, p, x)
            | inr (x, _) ↦ ground (arith, q, x)
          ] in
        (
          record {
            space = record {
              table = record {
                aligned = aligned;
                small = small;
                superpages = λ i h a b. elim (flat i h) [
                  | inl x ↦ absurd (ground (arith, a, x))
                  | inr (_, x) ↦ x
                ];
                below_root = λ i h p. absurd (no_pointer i h p);
                apart = λ i j h l n p. absurd (no_pointer i h p);
              };
              held = λ p q. elim q [
                | inl e ↦ rw e (page_held ram top al lo up hi s v pages idx g)
                | inr (i, h, o, _) ↦ absurd (no_pointer i h o)
              ];
            };
            flat = no_pointer;
          },
          rw (vm_root_from_satp-make page aligned small) view,
        )

  pub vm_init-IsKernel :
      (vm_init ram top s ≡ (s, false))
      ⊎ ((t : Machine) × (vm_init ram top s ≡ (t, true))
          × IsAllocator ram top t.pages
          × IsKernel ram t
          × ((a : ℕ)
              → a < 2 ^ 32
              → vm_query_user_page t.memory (vm_kernel_satp t) a ≡ kernel_view a))
  unfolding vm_init
  vm_init-IsKernel = elim (alloc_page-cases ram top al lo up hi s v) [
    | inl e ↦ inl (ap rest e)
    | inr (pages, idx, g, e) ↦
        let (kernel, view) = started_lem pages idx g in
        inr (started pages idx g, ap rest e ∙ rw (nonzero idx) refl, g.valid, kernel, view)
  ]
    where
      rest : Machine × ℕ → Machine × Bool
      rest (s', root_pa) = if root_pa == 0 then (s', false) else (
        record s' {
          memory = map_kernel (clear_page s'.memory root_pa) root_pa;
          kernel_root_pt = root_pa;
          kernel_satp_value = vm_make_satp root_pa;
        },
        true,
      )

      nonzero : (idx : ℕ) → (ram + idx * page_size == 0) ≡ false
      nonzero idx = ground arith
