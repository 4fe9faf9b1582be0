-- ===== src/Vm/Range.antt =====
-- mm/vm.c: `vm_map_range_4k` changes the translations of a range of pages.
use sugimotos.Prelude.{
  ℕ, zero, suc, ◌+◌, ◌-◌, ◌*◌, ◌/◌, ◌%◌, ◌^◌, ◌≤◌, ◌<◌, ◌≡◌, refl, ◌∙◌, Bool, true, false, not,
  ◌&&◌, Option, arith, inl, inr, Bool-cases, ltb, leb, page_size, ◌==◌, if◌then◌else◌, add32,
}
use sugimotos.PageAlloc.{page_run_size}
use sugimotos.PageAlloc.State.{IsAllocator}
use sugimotos.Vm.{Machine, pte_perm_from_flags}
use sugimotos.Vm.Table.{query_root}
use sugimotos.Vm.Build.{range_4k_loop, vm_map_range_4k}
use sugimotos.Vm.Entry.{mapped_to}
use sugimotos.Vm.Write.{updated}
use sugimotos.Vm.Space.{IsSpace, Kept, Kept-refl, Kept-trans}
use sugimotos.Vm.Map.{vm_map_page-Mapped}

abbrev pub View : Type 0
View = ℕ → Option (ℕ × ℕ)

abbrev pub in_range : ℕ → ℕ → ℕ → Bool
in_range from to a = leb from a && ltb a to

-- The translation with the addresses `from` up to `to` mapped to `pa` on, which belongs to `va`.
abbrev pub range_updated : ℕ → ℕ → ℕ → ℕ → ℕ → View → View
range_updated from to va pa perm rest a =
    if in_range from to a then mapped_to (pa + (a - va)) perm a else rest a

-- The table is sound and nothing else has changed; and where the call succeeds, the translation is
-- `view` of what it was.
pub record Viewed (ram top : ℕ) (s : Machine) (root : ℕ) (view : View → View) (t : Machine)
    (ok : Bool) : Type 0 where
  pub space : IsSpace ram t root
  pub kept : Kept ram top root s t
  pub changed :
      ok ≡ true
      → (a : ℕ) → a < 2 ^ 32
      → query_root t.memory root a ≡ view (query_root s.memory root) a

abbrev pub RangeMapped : ℕ → ℕ → Machine → ℕ → ℕ → ℕ → ℕ → ℕ → ℕ → Machine → Bool → Type 0
RangeMapped ram top s root from to va pa perm =
    Viewed ram top s root (range_updated from to va pa perm)

module _ (ram top : ℕ) (al : ram % page_size ≡ 0) (lo : page_run_size ≤ ram) (up : ram ≤ top)
    (hi : top < 2 ^ 32) where
  module _ (root va pa len flags : ℕ) (va_page : va % page_size ≡ 0) (pa_page : pa % page_size ≡ 0)
      (whole : len % page_size ≡ 0) (va_end : va + len ≤ 2 ^ 32) (pa_end : pa + len ≤ 2 ^ 32)
      (len_small : len < 2 ^ 32) (perm_small : pte_perm_from_flags flags < 256) where
    abbrev perm : ℕ
    perm = pte_perm_from_flags flags

    -- One page more at the front of a range.
    one_more :
        (off a : ℕ) (rest : ℕ → Option (ℕ × ℕ))
        → off % page_size ≡ 0
        → off < len
        → a < 2 ^ 32
        → range_updated
            (va + (off + page_size))
            (va + len)
            va
            pa
            perm
            (updated (mapped_to (pa + off) perm) (va + off) rest)
            a
          ≡ range_updated (va + off) (va + len) va pa perm rest a
    one_more off a rest o l h = elim (Bool-cases (a / page_size == (va + off) / page_size)) [
      | inl e ↦
          let within : in_range (va + off) (va + len) a ≡ true = ground arith in
          let before : in_range (va + (off + page_size)) (va + len) a ≡ false = ground arith in
          let same : (pa + (a - va)) / page_size * page_size ≡ (pa + off) / page_size * page_size =
            ground arith in
          rw (e, within, before, same) refl
      | inr e ↦
          let same : in_range (va + off) (va + len) a
              ≡ in_range (va + (off + page_size)) (va + len) a =
            ground arith in
          rw (e, same) refl
    ]

    nothing_left :
        (s : Machine) (off : ℕ)
        → IsAllocator ram top s.pages
        → IsSpace ram s root
        → len ≤ off
        → (ok : Bool) → RangeMapped ram top s root (va + off) (va + len) va pa perm s ok
    nothing_left s off v w l ok = record {
      space = w;
      kept = Kept-refl s v;
      changed = λ _ a h.
          let outside : in_range (va + off) (va + len) a ≡ false = ground arith in rw outside refl;
    }

    pub range_4k_loop-RangeMapped :
        (fuel : ℕ) (s : Machine) (off : ℕ)
        → IsAllocator ram top s.pages
        → IsSpace ram s root
        → off % page_size ≡ 0
        → off ≤ len
        → len ≤ off + fuel * page_size
        → let (t, ok) = range_4k_loop ram top fuel s root va pa off len flags in
          RangeMapped ram top s root (va + off) (va + len) va pa perm t ok
    unfolding range_4k_loop
    range_4k_loop-RangeMapped zero s off v w o l f =
        nothing_left s off v w (omega arith) (not (ltb off len))
    range_4k_loop-RangeMapped (suc fuel) s off v w o l f = elim (Bool-cases (ltb off len)) [
      | inl x ↦
          let va_sum : add32 va off ≡ va + off = ground arith in
          let pa_sum : add32 pa off ≡ pa + off = ground arith in
          let off_sum : add32 off page_size ≡ off + page_size = ground arith in
          elim (vm_map_page-Mapped ram top al lo up hi s root (add32 va off) (add32 pa off) flags v
            w (omega arith) (omega arith) perm_small) [
              | inl e ↦
                  rw (x, e)
                    (record {
                      space = w;
                      kept = Kept-refl s v;
                      changed = λ no. absurd (ground arith);
                    })
              | inr (t, e, m) ↦
                  let r =
                    range_4k_loop-RangeMapped fuel t (off + page_size) m.kept.allocator m.space
                      (omega arith) (ground arith) (omega arith) in
                  rw (x, e, off_sum)
                    (record {
                      space = r.space;
                      kept = Kept-trans s t _ m.kept r.kept;
                      changed = λ ok a h.
                          r.changed ok a h
                          ∙ rw (m.changed a h, va_sum, pa_sum)
                              (one_more off a (query_root s.memory root) o (ground arith) h);
                    })
            ]
      | inr x ↦ rw x (nothing_left s off v w (ground arith) true)
    ]

    -- `vm_map_range_4k` of whole pages.
    pub vm_map_range_4k-RangeMapped :
        (s : Machine)
        → IsAllocator ram top s.pages
        → IsSpace ram s root
        → let (t, ok) = vm_map_range_4k ram top s root va pa len flags in
          RangeMapped ram top s root va (va + len) va pa perm t ok
    unfolding vm_map_range_4k
    vm_map_range_4k-RangeMapped s v w =
        let start : va + 0 ≡ va = omega arith in
        rw start at (
          range_4k_loop-RangeMapped ((len + (page_size - 1)) / page_size) s 0 v w refl (omega arith)
            (omega arith))
