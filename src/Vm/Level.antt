-- ===== src/Vm/Level.antt =====
-- mm/vm.c: the second-level table that an entry of the root leads to, made where there is none.
use sugimotos.Prelude.{
  ℕ, ◌+◌, ◌*◌, ◌%◌, ◌^◌, ◌≤◌, ◌<◌, ◌≡◌, ◌⊎◌, refl, ap, ◌∙◌, true, false, not, ◌||◌, Option, none,
  some, arith, inl, inr, page_size, ◌==◌, if◌then◌else◌,
}
use sugimotos.PageAlloc.{Allocator, page_run_size}
use sugimotos.PageAlloc.State.{IsAllocator}
use sugimotos.PageAlloc.Alloc.{Given}
use sugimotos.Vm.{Machine, is_valid, is_leaf, pte_pa}
use sugimotos.Vm.Table.{query_root, new_l0, l0_for}
use sugimotos.Vm.Tree.{entry_at, IsPointer, TablePage, IsPointer-cases}
use sugimotos.Vm.Split.{
  pointer_to-IsPointer, grown_out, grown_pointer, grown-IsTable, grown-page, query_root-grown,
}
use sugimotos.Vm.Space.{InUse, IsSpace, Kept, Kept-refl}
use sugimotos.Vm.NewPage.{
  with_page, alloc_page-cases, page_aligned, page_small, page_fresh, page_held, page_same,
  with_page_page, with_page-IsSpace, with_page-Kept, query_root-with_page,
}

module _ (ram top : ℕ) (al : ram % page_size ≡ 0) (lo : page_run_size ≤ ram) (up : ram ≤ top)
    (hi : top < 2 ^ 32) where
  -- In `t` entry `i` of the root leads to the table at `l0`, with all translations as in `s`.
  pub record L0 (s : Machine) (root i l0 : ℕ) (t : Machine) : Type 0 where
    pub space : IsSpace ram t root
    pub kept : Kept ram top root s t
    pub pointer : IsPointer (entry_at t.memory root i)
    pub target : pte_pa (entry_at t.memory root i) ≡ l0
    pub same : (a : ℕ) → query_root t.memory root a ≡ query_root s.memory root a

  module _ (s : Machine) (v : IsAllocator ram top s.pages) (root : ℕ) (w : IsSpace ram s root)
      (i : ℕ) (k : i < 1024) where
    module _ (pages : Allocator) (idx : ℕ) (g : Given ram top al lo up hi s.pages idx 1 pages)
        (other : (is_valid (entry_at s.memory root i) ≡ false)
          ⊎ (is_leaf (entry_at s.memory root i) ≡ true)) where
      abbrev page : ℕ
      page = ram + idx * page_size

      abbrev s1 : Machine
      s1 = with_page ram top al lo up hi s pages idx

      abbrev grown_machine : Machine
      grown_machine = record s1 { memory = new_l0 s1.memory root i page }

      w1 : IsSpace ram s1 root
      w1 = with_page-IsSpace ram top al lo up hi s v pages idx g root w

      fresh : ¬ TablePage s1.memory root page
      fresh q =
          page_fresh ram top al lo up hi s v pages idx g
            (w.held page (with_page_page ram top al lo up hi s v pages idx g root w page q))

      root_same : entry_at s1.memory root i ≡ entry_at s.memory root i
      root_same = page_same ram top al lo up hi s v pages idx g root (w.held root (inl refl)) i k

      grown_held : (p : ℕ) → TablePage grown_machine.memory root p → InUse ram pages p
      grown_held p q =
          elim (grown-page s1.memory root w1.table i k page
            (page_aligned ram top al lo up hi s v pages idx g)
            (page_small ram top al lo up hi s v pages idx g) fresh p q) [
              | inl a ↦ w1.held p a
              | inr e ↦ rw e (page_held ram top al lo up hi s v pages idx g)
            ]

      grown-Kept : Kept ram top root s grown_machine
      grown-Kept =
          let aligned = page_aligned ram top al lo up hi s v pages idx g in
          let small = page_small ram top al lo up hi s v pages idx g in
          let new : ¬ InUse ram s.pages page = page_fresh ram top al lo up hi s v pages idx g in
          let given = with_page-Kept ram top al lo up hi s v pages idx g root w in
          record {
            allocator = given.allocator;
            managed = given.managed;
            counts = given.counts;
            outside = λ p u n j h.
                grown_out s1.memory root w1.table i k page aligned small fresh p (InUse_aligned p u)
                  (λ e. new (rw e at u)) (λ e. n (inl e)) j h
                ∙ given.outside p u n j h;
            pages = λ p q.
                elim (grown-page s1.memory root w1.table i k page aligned small fresh p q) [
                  | inl a ↦ given.pages p a
                  | inr e ↦ inr (λ u. new (rw e at u))
                ];
            same_root_pt = refl;
          }
        where
          InUse_aligned : (p : ℕ) → InUse ram s.pages p → p % page_size ≡ 0
          InUse_aligned p (j, _, e, _) = omega arith

      grown-L0 : L0 s root i page grown_machine
      grown-L0 =
          let aligned = page_aligned ram top al lo up hi s v pages idx g in
          let small = page_small ram top al lo up hi s v pages idx g in
          let (pointer, target) = pointer_to-IsPointer page aligned small in
          let entry = grown_pointer s1.memory root w1.table i k page aligned small fresh in
          record {
            space = record {
              table = grown-IsTable s1.memory root w1.table i k page aligned small fresh;
              held = grown_held;
            };
            kept = grown-Kept;
            pointer = rw entry pointer;
            target = rw entry target;
            same = λ a.
                query_root-grown s1.memory root w1.table i k page aligned small fresh a
                  (rw root_same other)
                ∙ query_root-with_page ram top al lo up hi s v pages idx g root w a;
          }

    -- There is no page for a second-level table, and then nothing has changed; or the entry leads to
    -- one.
    pub l0_for-cases :
        (l0_for ram top s root i ≡ (s, none))
        ⊎ ((t : Machine) × (l0 : ℕ) × (l0_for ram top s root i ≡ (t, some l0)) × L0 s root i l0 t)
    unfolding l0_for
    l0_for-cases = elim (IsPointer-cases (entry_at s.memory root i)) [
      | inl (a, b) ↦ inr (
        s,
        pte_pa (entry_at s.memory root i),
        rw (a, b) refl,
        record {
          space = w;
          kept = Kept-refl s v;
          pointer = (a, b);
          target = refl;
          same = λ a. refl;
        },
      )
      | inr other ↦
          let missing : (not (is_valid (entry_at s.memory root i))
                || is_leaf (entry_at s.memory root i))
              ≡ true =
            ground arith in
          elim (alloc_page-cases ram top al lo up hi s v) [
            | inl e ↦ inl (ap rest e ∙ rw missing refl)
            | inr (pages, idx, g, e) ↦ inr (
              grown_machine pages idx g other,
              ram + idx * page_size,
              ap rest e ∙ rw (missing, nonzero idx) refl,
              grown-L0 pages idx g other,
            )
          ]
    ]
      where
        rest : Machine × ℕ → Machine × Option ℕ
        rest (s', l0_pa) =
            if not (is_valid (entry_at s.memory root i)) || is_leaf (entry_at s.memory root i)
            then if l0_pa == 0
              then (s', none)
              else (record s' { memory = new_l0 s'.memory root i l0_pa }, some l0_pa)
            else (s, some (pte_pa (entry_at s.memory root i)))

        nonzero : (idx : ℕ) → (ram + idx * page_size == 0) ≡ false
        nonzero idx = ground arith
