-- ===== src/Vm/Built.antt =====
-- mm/vm.c: `vm_build_user_satp` builds the page table of a new process.
use sugimotos.Prelude.{
  ℕ, ◌+◌, ◌*◌, ◌%◌, ◌^◌, ◌≤◌, ◌<◌, ◌≡◌, ◌≢◌, ◌⊎◌, Option, refl, sym, ap, ◌∙◌, Bool, true, false,
  arith, inl, inr, Bool-cases, page_size, ◌==◌, if◌then◌else◌,
}
use native.Mathlib.Decide.{ℕ_discrete}
use sugimotos.PageAlloc.{Allocator, Outcome, panic, returns, page_run_size}
use sugimotos.PageAlloc.State.{IsAllocator, ref_of}
use sugimotos.PageAlloc.Alloc.{Given}
use sugimotos.PageAlloc.Release.{free_pages-Released}
use sugimotos.Vma.User.{UserSections}
use sugimotos.Vm.{Machine, clear_page, vm_make_satp, vm_root_from_satp, vpn1_of}
use sugimotos.Vm.Table.{vm_query_user_page, query_root}
use sugimotos.Vm.Build.{user_root, map_user, finish_user, vm_build_user_satp}
use sugimotos.Vm.Entry.{vm_make_satp_ne, vm_root_from_satp-make}
use sugimotos.Vm.Tree.{entry_at, IsPointer, TablePage, SamePage, IsPointer-cases, query_l1-other}
use sugimotos.Vm.Split.{clear_page_out}
use sugimotos.Vm.Space.{InUse, IsSpace, Kept}
use sugimotos.Vm.NewPage.{
  with_page, alloc_page-cases, page_aligned, page_small, page_fresh, page_held, page_same,
  page_InUse, page_counts,
}
use sugimotos.Vm.User.{AreAddresses, user_view, map_user-Viewed, user_view_ext}
use sugimotos.Vm.Untouched.{Untouched, IsKernel, copy_page_in, copy_page_out, NewTable}

module _ (ram top : ℕ) (al : ram % page_size ≡ 0) (lo : page_run_size ≤ ram) (up : ram ≤ top)
    (hi : top < 2 ^ 32) (s : Machine) (v : IsAllocator ram top s.pages) (k : IsKernel ram s) where
  module _ (pages : Allocator) (idx : ℕ) (g : Given ram top al lo up hi s.pages idx 1 pages) where
    abbrev page : ℕ
    page = ram + idx * page_size

    abbrev s1 : Machine
    s1 = with_page ram top al lo up hi s pages idx

    abbrev s2 : Machine
    s2 = user_root s1 page

    aligned : page % page_size ≡ 0
    aligned = page_aligned ram top al lo up hi s v pages idx g

    fresh : ¬ InUse ram s.pages page
    fresh = page_fresh ram top al lo up hi s v pages idx g

    InUse_aligned : (p : ℕ) → InUse ram s.pages p → p % page_size ≡ 0
    InUse_aligned p (j, _, e, _) = omega arith

    InUse_other : (p : ℕ) → InUse ram s.pages p → p ≢ page
    InUse_other p u e = fresh (rw e at u)

    kernel_held : InUse ram s.pages s.kernel_root_pt
    kernel_held = k.space.held s.kernel_root_pt (inl refl)

    cleared : (p : ℕ) → InUse ram s.pages p → SamePage s.memory (clear_page s1.memory page) p
    cleared p u i h =
        clear_page_out s1.memory p page (InUse_aligned p u) aligned (InUse_other p u) i h
        ∙ page_same ram top al lo up hi s v pages idx g p u i h

    root_words : (p : ℕ) → InUse ram s.pages p → SamePage s.memory s2.memory p
    unfolding user_root
    root_words p u i h =
        copy_page_out (clear_page s1.memory page) p page s.kernel_root_pt (InUse_aligned p u)
          aligned (InUse_other p u) i h
        ∙ cleared p u i h

    root_copied :
        (i : ℕ) → i < 1024 → entry_at s2.memory page i ≡ entry_at s.memory s.kernel_root_pt i
    unfolding user_root
    root_copied i h =
        copy_page_in (clear_page s1.memory page) page s.kernel_root_pt i h
        ∙ cleared s.kernel_root_pt kernel_held i h

    flat : (i : ℕ) → i < 1024 → ¬ IsPointer (entry_at s2.memory page i)
    flat i h p = k.flat i h (rw (root_copied i h) at p)

    root-IsSpace : IsSpace ram s2 page
    unfolding user_root
    root-IsSpace = record {
      table = record {
        aligned = aligned;
        small = page_small ram top al lo up hi s v pages idx g;
        superpages = λ i h a b.
            rw (root_copied i h) (
              k.space.table.superpages i h (rw (root_copied i h) at a) (rw (root_copied i h) at b));
        below_root = λ i h p. absurd (flat i h p);
        apart = λ i j h l n p. absurd (flat i h p);
      };
      held = λ p q. elim q [
        | inl e ↦ rw e (page_held ram top al lo up hi s v pages idx g)
        | inr (i, h, o, _) ↦ absurd (flat i h o)
      ];
    }

    query_root-copied :
        (a : ℕ) → query_root s2.memory page a ≡ query_root s.memory s.kernel_root_pt a
    unfolding query_root
    query_root-copied a =
        let i : ℕ = vpn1_of a in
        let h : i < 1024 = omega arith in
        rw (root_copied i h) (elim (IsPointer-cases (entry_at s.memory s.kernel_root_pt i)) [
          | inl p ↦ absurd (k.flat i h p)
          | inr o ↦ query_l1-other s.memory s2.memory (entry_at s.memory s.kernel_root_pt i) a o
        ])

    root_page :
        (t : Machine) (p : ℕ)
        → Kept ram top page s2 t
        → TablePage t.memory page p
        → ¬ InUse ram s.pages p
    unfolding user_root
    root_page t p m q u = elim (m.pages p q) [
      | inl (inl e) ↦ InUse_other p u e
      | inl (inr (i, h, o, _)) ↦ flat i h o
      | inr n ↦ n (page_InUse ram top al lo up hi s v pages idx g p u)
    ]

    Kept-Untouched : (t : Machine) → Kept ram top page s2 t → Untouched ram top s t
    unfolding user_root
    Kept-Untouched t m = record {
      allocator = m.allocator;
      counts = λ j n.
          let given : ref_of pages j ≡ ref_of s.pages j =
            page_counts ram top al lo up hi s v pages idx g j n in
          m.counts j (λ z. n (sym given ∙ z)) ∙ given;
      words = λ p u i h.
          m.outside p (page_InUse ram top al lo up hi s v pages idx g p u)
            (λ q. elim q [ inl e ↦ InUse_other p u e | inr (i, l, o, _) ↦ flat i l o ]) i h
          ∙ root_words p u i h;
      same_root_pt = m.same_root_pt;
    }

    -- At `fail` the root's page is given back.
    fails :
        (t : Machine)
        → Kept ram top page s2 t
        → (u : Machine) × (finish_user ram top page (t, false) ≡ returns (u, 0))
          × Untouched ram top s u
    unfolding finish_user user_root
    fails t m =
        let one : ref_of pages idx ≡ 1 = g.inside idx (omega arith) (omega arith) in
        let still : ref_of t.pages idx ≡ ref_of pages idx = m.counts idx (omega (arith, one)) in
        let (freed, e, r) =
          free_pages-Released ram top al lo up hi t.pages idx 1 m.allocator (omega arith)
            (omega (arith, g.room, g.valid.managed, v.managed, m.managed))
            (λ j a b. let same : j ≡ idx = omega arith in rw same (omega (arith, one, still))) in
        let w : Untouched ram top s t = Kept-Untouched t m in
        (
          record t { pages = freed },
          ap {A = Outcome Allocator} {B = Outcome (Machine × ℕ)}
              (λ o. elim o [
                | panic ↦ panic
                | returns pages ↦ returns (record t { pages = pages }, 0)
              ])
              e,
          record {
            allocator = r.valid;
            counts = λ j n. r.others j (apart j n) ∙ w.counts j n;
            words = w.words;
            same_root_pt = w.same_root_pt;
          },
        )
      where
        apart : (j : ℕ) → ref_of s.pages j ≢ 0 → (j < idx) ⊎ (idx + 1 ≤ j)
        apart j n = elim (ℕ_discrete j idx) [
          | yes e ↦
              absurd
                (n (ap (λ i. ref_of s.pages i) e ∙ g.were_free idx (omega arith) (omega arith)))
          | no e ↦ ground arith
        ]

    succeeds :
        (t : Machine) (view : ℕ → Option (ℕ × ℕ))
        → IsSpace ram t page
        → Kept ram top page s2 t
        → ((a : ℕ) → a < 2 ^ 32 → query_root t.memory page a ≡ view a)
        → NewTable ram s (vm_make_satp page) view t
    unfolding vm_query_user_page
    succeeds t view w m c =
        let back : vm_root_from_satp (vm_make_satp page) ≡ page =
          vm_root_from_satp-make page aligned (page_small ram top al lo up hi s v pages idx g) in
        record {
          nonzero = vm_make_satp_ne page (page_small ram top al lo up hi s v pages idx g);
          space = rw back w;
          new = rw back (λ p q. root_page t p m q);
          translates = rw back c;
        }

  finish_ok :
      (root : ℕ) (r : Machine × Bool)
      → r.1 ≡ true
      → finish_user ram top root r ≡ returns (r.0, vm_make_satp root)
  unfolding finish_user
  finish_ok root (t, true) e = refl
  finish_ok root (t, false) e = absurd (ground arith)

  finish_failed :
      (root : ℕ) (r : Machine × Bool)
      → r.1 ≡ false
      → finish_user ram top root r ≡ finish_user ram top root (r.0, false)
  finish_failed root (t, true) e = absurd (ground arith)
  finish_failed root (t, false) e = refl

  -- On a sound allocator whose kernel table has 4 MiB pages only, `vm_build_user_satp` with a stack of
  -- whole pages returns: it never panics, and no page that was in use loses a reference or changes.
  -- The result is 0, or a table of pages that were free, in which the stack goes to the pages given
  -- with R, W and U, outside it each segment to itself with its flags, and every other address where
  -- the kernel's table sends it.
  pub vm_build_user_satp-NewTable :
      (rodata_start rodata_end : ℕ) (u : UserSections) (base paddr n : ℕ)
      → AreAddresses rodata_start rodata_end u
      → base % page_size ≡ 0
      → paddr % page_size ≡ 0
      → n < 2 ^ 20
      → base + n * page_size ≤ 2 ^ 32
      → paddr + n * page_size ≤ 2 ^ 32
      → (t : Machine) × (satp : ℕ) × (vm_build_user_satp ram top rodata_start rodata_end u s base
            paddr n
          ≡ returns (t, satp))
        × Untouched ram top s t
        × ((satp ≡ 0)
            ⊎ NewTable ram s satp
                (user_view rodata_start rodata_end u base paddr n
                  (query_root s.memory s.kernel_root_pt))
                t)
  unfolding vm_build_user_satp
  vm_build_user_satp-NewTable rodata_start rodata_end u base paddr n a b c d e f =
      elim (alloc_page-cases ram top al lo up hi s v) [
        | inl q ↦ (
          s,
          0,
          ap rest q,
          record {
            allocator = v;
            counts = λ j m. refl;
            words = λ p w i h. refl;
            same_root_pt = refl;
          },
          inl refl,
        )
        | inr (pages, idx, g, q) ↦
            let first =
              map_user-Viewed ram top al lo up hi rodata_start rodata_end u a (s2 pages idx g)
                (page pages idx g) base paddr n (unfold user_root in g.valid)
                (root-IsSpace pages idx g) b c d e f in
            let r : Machine × Bool =
              map_user ram top rodata_start rodata_end u (s2 pages idx g) (page pages idx g) base
                paddr n in
            elim (Bool-cases (r.1)) [
              | inl x ↦ (
                r.0,
                vm_make_satp (page pages idx g),
                ap rest q ∙ rw (nonzero idx) (finish_ok (page pages idx g) r x),
                Kept-Untouched pages idx g (r.0) first.kept,
                inr (
                    succeeds pages idx g (r.0) _ first.space first.kept λ a' h.
                      first.changed x a' h
                      ∙ user_view_ext ram top al lo up hi rodata_start rodata_end u a base paddr n _
                          _ a' (query_root-copied pages idx g a')),
              )
              | inr x ↦
                  let (t, o, w) = fails pages idx g (r.0) first.kept in
                  (
                    t,
                    0,
                    ap rest q ∙ rw (nonzero idx) (finish_failed (page pages idx g) r x ∙ o),
                    w,
                    inl refl,
                  )
            ]
      ]
    where
      rest : Machine × ℕ → Outcome (Machine × ℕ)
      rest (s', root) =
          if root == 0
          then returns (s', 0)
          else finish_user ram top root
              (map_user ram top rodata_start rodata_end u (user_root s' root) root base paddr n)

      nonzero : (idx : ℕ) → (ram + idx * page_size == 0) ≡ false
      nonzero idx = ground arith
