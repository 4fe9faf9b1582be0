-- ===== src/UserSpace/Place.antt =====
-- mm/process_vm.c: a page that was just allocated is mapped, or given back.
use sugimotos.Prelude.{
  ℕ, ◌+◌, ◌*◌, ◌%◌, ◌^◌, ◌≤◌, ◌<◌, ◌≡◌, ◌≢◌, ◌⊎◌, refl, sym, ap, ◌∙◌, Bool, true, false, arith, inl,
  inr, page_size, if◌then◌else◌,
}
use native.Mathlib.Decide.{ℕ_discrete}
use sugimotos.PageAlloc.{Allocator, Outcome, returns, page_run_size}
use sugimotos.PageAlloc.State.{IsAllocator, ref_of}
use sugimotos.PageAlloc.Alloc.{Given}
use sugimotos.PageAlloc.Release.{free_pages-Released}
use sugimotos.Vm.{Memory, Machine, vm_root_from_satp}
use sugimotos.Vm.Table.{vm_query_user_page}
use sugimotos.Vm.Entry.{mapped_to, user_perm}
use sugimotos.Vm.Tree.{TablePage, SamePage, query_root-frame}
use sugimotos.Vm.Write.{updated}
use sugimotos.Vm.Space.{InUse, IsSpace, old_page, same-IsSpace}
use sugimotos.Vm.NewPage.{page_small, page_fresh, page_held, page_InUse, page_counts, page_managed}
use sugimotos.Vm.Map.{Mapped}
use sugimotos.Vm.UserPage.{translation, vm_map_user_page-updated}
use sugimotos.UserSpace.{then_do, with_pages, free_page}
use sugimotos.UserSpace.Calls.{map_or_free}

-- From `s` to `t`, the allocator and the table at `root` are sound, and no word of a page that was in
-- use has changed outside that table.
pub record Steady (ram top root : ℕ) (s t : Machine) : Type 0 where
  pub allocator : IsAllocator ram top t.pages
  pub space : IsSpace ram t root
  pub words :
      (p : ℕ) → InUse ram s.pages p → ¬ TablePage s.memory root p → SamePage s.memory t.memory p

-- The call has failed: nothing is mapped otherwise than before.
pub record Refused (ram top : ℕ) (s : Machine) (satp : ℕ) (t : Machine) : Type 0 where
  pub steady : Steady ram top (vm_root_from_satp satp) s t
  pub unchanged : (a : ℕ) → translation t satp a ≡ translation s satp a

module _ (ram top : ℕ) (al : ram % page_size ≡ 0) (lo : page_run_size ≤ ram) (up : ram ≤ top)
    (hi : top < 2 ^ 32) (s : Machine) (v : IsAllocator ram top s.pages) (satp : ℕ)
    (w : IsSpace ram s (vm_root_from_satp satp)) (pages : Allocator) (idx : ℕ)
    (g : Given ram top al lo up hi s.pages idx 1 pages) (memory : Memory)
    (keep : (p : ℕ) → InUse ram s.pages p → SamePage s.memory memory p) where
  abbrev root : ℕ
  root = vm_root_from_satp satp

  abbrev page : ℕ
  page = ram + idx * page_size

  -- The machine with the page allocated and filled.
  abbrev pub filled : Machine
  filled = record s { pages = pages; memory = memory }

  table_same : (p : ℕ) → TablePage s.memory root p → SamePage s.memory memory p
  table_same p q = keep p (w.held p q)

  filled-IsSpace : IsSpace ram filled root
  filled-IsSpace =
      same-IsSpace root s filled w table_same
        λ p q. page_InUse ram top al lo up hi s v pages idx g p (w.held p q)

  not_table : ¬ TablePage memory root page
  not_table q =
      page_fresh ram top al lo up hi s v pages idx g
        (w.held page (old_page root s filled w table_same page q))

  filled-translation : (a : ℕ) → translation filled satp a ≡ translation s satp a
  unfolding vm_query_user_page
  filled-translation a = query_root-frame s.memory memory root a table_same

  -- The page is mapped, with its contents, and all else is as it was.
  pub record Placed (va perm : ℕ) (t : Machine) : Type 0 where
    pub steady : Steady ram top root s t
    pub changed :
        (a : ℕ)
        → a < 2 ^ 32
        → translation t satp a ≡ updated (mapped_to page perm) va (translation s satp) a
    pub managed : t.pages.managed_page_count ≡ s.pages.managed_page_count
    pub counts : (j : ℕ) → ref_of s.pages j ≢ 0 → ref_of t.pages j ≡ ref_of s.pages j
    pub content : SamePage memory t.memory page
    pub new_pages :
        (p : ℕ) → TablePage t.memory root p → TablePage s.memory root p ⊎ ¬ InUse ram s.pages p

  Mapped-Placed :
      (va prot : ℕ) (t : Machine)
      → Mapped ram top filled root va (mapped_to page (user_perm prot)) t
      → Placed va (user_perm prot) t
  unfolding vm_query_user_page
  Mapped-Placed va prot t m = record {
    steady = record {
      allocator = m.kept.allocator;
      space = m.space;
      words = λ p u n i h.
          m.kept.outside p (page_InUse ram top al lo up hi s v pages idx g p u)
            (λ q. n (old_page root s filled w table_same p q)) i h
          ∙ keep p u i h;
    };
    changed = λ a h. m.changed a h ∙ rw (filled-translation a) refl;
    managed = m.kept.managed ∙ page_managed ram top al lo up hi s v pages idx g;
    counts = λ j n.
        let given : ref_of pages j ≡ ref_of s.pages j =
          page_counts ram top al lo up hi s v pages idx g j n in
        m.kept.counts j (λ z. n (sym given ∙ z)) ∙ given;
    content = m.kept.outside page (page_held ram top al lo up hi s v pages idx g) not_table;
    new_pages = λ p q. elim (m.kept.pages p q) [
      | inl a ↦ inl (old_page root s filled w table_same p a)
      | inr n ↦ inr (λ u. n (page_InUse ram top al lo up hi s v pages idx g p u))
    ];
  }

  freed-Refused :
      (t : Machine) × (free_page ram top filled page ≡ returns t) × Refused ram top s satp t
  freed-Refused =
      let one : ref_of pages idx ≡ 1 = g.inside idx (omega arith) (omega arith) in
      let (freed, e, r) =
        free_pages-Released ram top al lo up hi pages idx 1 g.valid (omega arith)
          (omega (arith, g.room, g.valid.managed, v.managed))
          (λ j a b. let same : j ≡ idx = omega arith in rw same (omega (arith, one))) in
      let t : Machine = record filled { pages = freed } in
      let held : (p : ℕ) → InUse ram s.pages p → InUse ram freed p = λ p (j, l, q, n).
        let count : ref_of freed j ≡ ref_of s.pages j =
          r.others j (elsewhere j n) ∙ page_counts ram top al lo up hi s v pages idx g j n in
        (j, omega (arith, r.valid.managed, v.managed), q, λ z. n (sym count ∙ z)) in
      (
        t,
        ap {A = Outcome Allocator} {B = Outcome Machine} (λ o. with_pages filled o) e,
        record {
          steady = record {
            allocator = r.valid;
            space = same-IsSpace root s t w table_same λ p q. held p (w.held p q);
            words = λ p u n. keep p u;
          };
          unchanged = filled-translation;
        },
      )
    where
      elsewhere : (j : ℕ) → ref_of s.pages j ≢ 0 → (j < idx) ⊎ (idx + 1 ≤ j)
      elsewhere j n = elim (ℕ_discrete j idx) [
        | yes e ↦
            absurd (n (ap (λ i. ref_of s.pages i) e ∙ g.were_free idx (omega arith) (omega arith)))
        | no e ↦ ground arith
      ]

  pub map_or_free-cases :
      (va prot : ℕ)
      → va < 2 ^ 32
      → (t : Machine) × (ok : Bool) × (map_or_free ram top filled satp va page prot
          ≡ returns (t, ok))
        × (if ok then Placed va (user_perm prot) t else Refused ram top s satp t)
  unfolding map_or_free
  map_or_free-cases va prot h =
      elim (vm_map_user_page-updated ram top al lo up hi filled satp va page prot g.valid
        filled-IsSpace h (page_small ram top al lo up hi s v pages idx g)) [
          | inl e ↦
              let (t, f, r) = freed-Refused in
              (
                t,
                false,
                ap rest e
                    ∙ ap {A = Outcome Machine} {B = Outcome (Machine × Bool)}
                        (λ o. then_do o λ s''. returns (s'', false)) f,
                r,
              )
          | inr (t, e, _, _, m) ↦ (t, true, ap rest e, Mapped-Placed va prot t m)
        ]
    where
      rest : Machine × Bool → Outcome (Machine × Bool)
      rest (s', ok) =
          if ok
          then returns (s', true)
          else then_do (free_page ram top s' page) λ s''. returns (s'', false)
