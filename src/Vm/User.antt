-- ===== src/Vm/User.antt =====
-- mm/vm.c: the segments and the stack of a process are mapped in a new table.
use sugimotos.Prelude.{
  ℕ, ◌+◌, ◌-◌, ◌*◌, ◌%◌, ◌^◌, ◌≤◌, ◌<◌, ◌≡◌, refl, ◌∙◌, Bool, false, List, [], ◌∷◌, arith, inl, inr,
  Bool-cases, ltb, leb, page_size, sub32, mul32,
}
use sugimotos.Prelude.Bits.{has_bit}
use sugimotos.PageAlloc.{page_run_size}
use sugimotos.PageAlloc.State.{IsAllocator}
use sugimotos.Vma.{page_floor, page_ceil}
use sugimotos.Vma.User.{UserSections}
use sugimotos.Vm.{Machine, pte_perm_from_flags}
use sugimotos.Vm.Build.{Segment, vm_map_identity_segment, map_segments, segments, map_user}
use sugimotos.Vm.Space.{IsSpace, Kept-refl, Kept-trans}
use sugimotos.Vm.Range.{View, Viewed, in_range, range_updated, vm_map_range_4k-RangeMapped}

-- What the segments make of a translation.
abbrev pub segments_view : List Segment → View → View
segments_view [] rest = rest
segments_view (g ∷ gs) rest =
    segments_view gs
      (range_updated g.start g.end g.start g.start (pte_perm_from_flags g.flags) rest)

-- Whole pages below 4 GiB, with flags that are known.
abbrev pub IsSegment : Segment → Type 0
IsSegment g =
    (g.start % page_size ≡ 0)
    × (g.end % page_size ≡ 0)
    × (g.end < 2 ^ 32)
    × (g.start < 2 ^ 32)
    × (pte_perm_from_flags g.flags < 256)

abbrev pub AreSegments : List Segment → Type 0
AreSegments [] = Unit {0}
AreSegments (g ∷ gs) = IsSegment g × AreSegments gs

-- What a process sees: the stack of `pages` pages, the segments, and for the rest what the kernel
-- sees.
module _ (rodata_start rodata_end : ℕ) (u : UserSections) where
  abbrev pub stack_perm : ℕ
  stack_perm = 0x16

  abbrev pub user_view : ℕ → ℕ → ℕ → View → View
  user_view base paddr pages rest =
      range_updated base (base + pages * page_size) base paddr stack_perm
        (segments_view (segments rodata_start rodata_end u) rest)

  -- The linker's symbols are addresses.
  pub record AreAddresses : Type 0 where
    pub rodata : rodata_start < 2 ^ 32
    pub text : u.text_start < 2 ^ 32
    pub user_rodata : u.rodata_start < 2 ^ 32
    pub user_data : u.data_start < 2 ^ 32
    pub bss : u.bss_start < 2 ^ 32

module _ (ram top : ℕ) (al : ram % page_size ≡ 0) (lo : page_run_size ≤ ram) (up : ram ≤ top)
    (hi : top < 2 ^ 32) where
  segment-Viewed :
      (s : Machine) (root : ℕ) (g : Segment)
      → IsAllocator ram top s.pages
      → IsSpace ram s root
      → IsSegment g
      → let (t, ok) = vm_map_identity_segment ram top s root g.start g.end g.flags in
        Viewed ram top s root
          (range_updated g.start g.end g.start g.start (pte_perm_from_flags g.flags))
          t
          ok
  unfolding vm_map_identity_segment
  segment-Viewed s root g v w (a, b, c, d, e) = elim (Bool-cases (leb g.end g.start)) [
    | inl x ↦ rw x (record {
      space = w;
      kept = Kept-refl s v;
      changed =
          λ _ a h. let outside : in_range g.start g.end a ≡ false = ground arith in rw outside refl;
    })
    | inr x ↦
        let size : sub32 g.end g.start ≡ g.end - g.start = ground arith in
        let end_ : g.start + (g.end - g.start) ≡ g.end = ground arith in
        let r =
          vm_map_range_4k-RangeMapped ram top al lo up hi root g.start g.start (g.end - g.start)
            g.flags a a (ground arith) (ground arith) (ground arith) (ground arith) e s v w in
        rw (x, size) (record { space = r.space; kept = r.kept; changed = rw end_ at r.changed })
  ]

  -- The views agree on equal translations.
  view_ext :
      (gs : List Segment) (f g : View) (a : ℕ)
      → f a ≡ g a
      → segments_view gs f a ≡ segments_view gs g a
  view_ext [] f g a e = e
  view_ext (s ∷ gs) f g a e =
      view_ext gs (range_updated s.start s.end s.start s.start (pte_perm_from_flags s.flags) f)
        (range_updated s.start s.end s.start s.start (pte_perm_from_flags s.flags) g) a (rw e refl)

  pub map_segments-Viewed :
      (gs : List Segment) (s : Machine) (root : ℕ)
      → IsAllocator ram top s.pages
      → IsSpace ram s root
      → AreSegments gs
      → let (t, ok) = map_segments ram top gs s root in
        Viewed ram top s root (segments_view gs) t ok
  unfolding map_segments
  map_segments-Viewed [] s root v w u = record {
    space = w;
    kept = Kept-refl s v;
    changed = λ _ a h. refl;
  }
  map_segments-Viewed (g ∷ gs) s root v w (u, us) =
      let q : Machine × Bool = vm_map_identity_segment ram top s root g.start g.end g.flags in
      let first = segment-Viewed s root g v w u in
      elim (Bool-cases (q.1)) [
        | inl x ↦
            let r = map_segments-Viewed gs (q.0) root first.kept.allocator first.space us in
            rw x (record {
              space = r.space;
              kept = Kept-trans s (q.0) _ first.kept r.kept;
              changed = λ ok a h. r.changed ok a h ∙ view_ext gs _ _ a (first.changed x a h);
            })
        | inr x ↦ rw x (record {
          space = first.space;
          kept = first.kept;
          changed = λ no. absurd (ground arith);
        })
      ]

  perm_r : pte_perm_from_flags 9 ≡ 0x12
  unfolding pte_perm_from_flags has_bit
  perm_r = refl

  perm_rx : pte_perm_from_flags 13 ≡ 0x1a
  unfolding pte_perm_from_flags has_bit
  perm_rx = refl

  perm_rw : pte_perm_from_flags 11 ≡ 0x16
  unfolding pte_perm_from_flags has_bit
  perm_rw = refl

  whole-IsSegment :
      (from to flags : ℕ)
      → from < 2 ^ 32
      → pte_perm_from_flags flags < 256
      → IsSegment (record { start = page_floor from; end = page_ceil to; flags = flags })
  unfolding page_floor page_ceil
  whole-IsSegment from to flags h k = (omega arith, omega arith, omega arith, omega arith, k)

  module _ (rodata_start rodata_end : ℕ) (u : UserSections)
      (a : AreAddresses rodata_start rodata_end u) where
    segments-AreSegments : AreSegments (segments rodata_start rodata_end u)
    unfolding segments
    segments-AreSegments = (
      whole-IsSegment rodata_start rodata_end 9 a.rodata (omega (arith, perm_r)),
      (
        whole-IsSegment u.text_start u.text_end 13 a.text (omega (arith, perm_rx)),
        (
          whole-IsSegment u.rodata_start u.rodata_end 9 a.user_rodata (omega (arith, perm_r)),
          (
            whole-IsSegment u.data_start u.data_end 11 a.user_data (omega (arith, perm_rw)),
            (whole-IsSegment u.bss_start u.bss_end 11 a.bss (omega (arith, perm_rw)), tt),
          ),
        ),
      ),
    )

    pub map_user-Viewed :
        (s : Machine) (root base paddr pages : ℕ)
        → IsAllocator ram top s.pages
        → IsSpace ram s root
        → base % page_size ≡ 0
        → paddr % page_size ≡ 0
        → pages < 2 ^ 20
        → base + pages * page_size ≤ 2 ^ 32
        → paddr + pages * page_size ≤ 2 ^ 32
        → let (t, ok) = map_user ram top rodata_start rodata_end u s root base paddr pages in
          Viewed ram top s root (user_view rodata_start rodata_end u base paddr pages) t ok
    unfolding map_user
    map_user-Viewed s root base paddr pages v w b c d e f =
        let q : Machine × Bool = map_segments ram top (segments rodata_start rodata_end u) s root in
        let first =
          map_segments-Viewed (segments rodata_start rodata_end u) s root v w
            segments-AreSegments in
        let size : mul32 pages page_size ≡ pages * page_size = omega arith in
        elim (Bool-cases (q.1)) [
          | inl x ↦ elim (Bool-cases (ltb 0 pages)) [
            | inl y ↦
                let r =
                  vm_map_range_4k-RangeMapped ram top al lo up hi root base paddr
                    (pages * page_size) 11 b c (omega arith) e f (omega arith)
                    (omega (arith, perm_rw)) (q.0) first.kept.allocator first.space in
                rw (x, y, size)
                  (record {
                    space = r.space;
                    kept = Kept-trans s (q.0) _ first.kept r.kept;
                    changed = λ ok a h. r.changed ok a h ∙ rw (perm_rw, first.changed x a h) refl;
                  })
            | inr y ↦
                rw (x, y)
                  (record {
                    space = first.space;
                    kept = first.kept;
                    changed = λ _ a h.
                        let outside : in_range base (base + pages * page_size) a ≡ false =
                          ground arith in
                        rw outside (first.changed x a h);
                  })
          ]
          | inr x ↦ rw x (record {
            space = first.space;
            kept = first.kept;
            changed = λ no. absurd (ground arith);
          })
        ]

    -- The view at an address depends on the translation there only.
    pub user_view_ext :
        (base paddr pages : ℕ) (f g : View) (x : ℕ)
        → f x ≡ g x
        → user_view rodata_start rodata_end u base paddr pages f x
          ≡ user_view rodata_start rodata_end u base paddr pages g x
    user_view_ext base paddr pages f g x e =
        rw (view_ext (segments rodata_start rodata_end u) f g x e) refl
