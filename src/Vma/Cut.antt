-- ===== src/Vma/Cut.antt =====
-- mm/process_vm.c: what the loop of `proc_munmap` does to one area.
use sugimotos.Prelude.{
  ℕ, ◌%◌, ◌^◌, ◌≤◌, ◌<◌, ◌≡◌, ◌≢◌, ◌⊎◌, refl, ap, true, ◌==◌, List, set, none, arith, inl, inr,
  Bool-cases, Option-cases, page_size,
}
use sugimotos.Proc.{UserVma, no_vma}
use sugimotos.Vma.{vma_at}
use sugimotos.Vma.Inv.{IsVmas, IsArea, no_vma-IsArea}
use sugimotos.Vma.Shrink.{IsPart}
use sugimotos.Vma.Search.{proc_find_free_vma_slot-some}
use sugimotos.Vma.Table.{proc_find_free_vma_slot}
use sugimotos.Vma.Munmap.{cut_vma}
use sugimotos.Vma.Trim.{Outside, Trimmed, no_change, part_left, parts_left, set_self-Outside}

-- Where the cut starts, and where it ends.
abbrev pub StartsAt : ℕ → UserVma → ℕ → Type 0
StartsAt addr v cut_s = ((cut_s ≡ addr) × (v.start < addr)) ⊎ ((cut_s ≡ v.start) × (addr ≤ v.start))

abbrev pub EndsAt : ℕ → UserVma → ℕ → Type 0
EndsAt end_ v cut_e = ((cut_e ≡ end_) × (end_ < v.end)) ⊎ ((cut_e ≡ v.end) × (v.end ≤ end_))

module _ (vs : List UserVma) (i addr end_ : ℕ) (v : IsVmas vs) (al : addr % page_size ≡ 0)
    (el : end_ % page_size ≡ 0) (cut_s cut_e : ℕ) (u : (vma_at vs i).used ≡ true)
    (s : StartsAt addr (vma_at vs i) cut_s) (e : EndsAt end_ (vma_at vs i) cut_e)
    (lt : cut_s < cut_e) where
  old : UserVma
  old = vma_at vs i

  head : UserVma
  head = record old { end = cut_s }

  tail : UserVma
  tail = record { used = true; start = cut_e; end = old.end; prot = old.prot }

  moved_start : record old { start = cut_e } ≡ tail
  unfolding tail old
  moved_start = ap (λ t. record { used = t; start = cut_e; end = old.end; prot = old.prot }) u

  cut_s_aligned : cut_s % page_size ≡ 0
  cut_s_aligned = elim s [ inl (x, _) ↦ rw x al | inr (x, _) ↦ rw x ((v.area i).start_aligned u) ]

  cut_e_aligned : cut_e % page_size ≡ 0
  cut_e_aligned = elim e [ inl (x, _) ↦ rw x el | inr (x, _) ↦ rw x ((v.area i).end_aligned u) ]

  cut_in_area : (old.start ≤ cut_s) × (cut_e ≤ old.end) × (old.end < 2 ^ 32)
  unfolding old
  cut_in_area = (ground arith, ground arith, (v.area i).bounded u)

  head-IsArea : old.start ≢ cut_s → IsArea head
  unfolding head old
  head-IsArea n = record {
    nonempty = λ _. omega (arith, cut_in_area.0, n);
    start_aligned = λ _. (v.area i).start_aligned u;
    end_aligned = λ _. cut_s_aligned;
    bounded = λ _. omega (arith, cut_in_area.1, cut_in_area.2);
  }

  tail-IsArea : old.end ≢ cut_e → IsArea tail
  unfolding tail old
  tail-IsArea n = record {
    nonempty = λ _. omega (arith, cut_in_area.1, n);
    start_aligned = λ _. cut_e_aligned;
    end_aligned = λ _. (v.area i).end_aligned u;
    bounded = λ _. (v.area i).bounded u;
  }

  head-IsPart : IsPart head (vma_at vs i)
  unfolding head old
  head-IsPart _ = (u, omega arith, omega (arith, lt, cut_in_area.1), refl)

  tail-IsPart : IsPart tail (vma_at vs i)
  unfolding tail old
  tail-IsPart _ = (u, omega (arith, lt, cut_in_area.0), omega arith, refl)

  head-Outside : Outside addr end_ head
  unfolding head old
  head-Outside _ b l g = ground arith

  tail-Outside : Outside addr end_ tail
  unfolding tail old
  tail-Outside _ b l g = ground arith

  pub cut_vma-Trimmed :
      let (vs', r) = cut_vma vs i cut_s cut_e in
      Trimmed vs vs' addr end_ × (r ≢ none → Outside addr end_ (vma_at vs' i))
  unfolding cut_vma head tail old
  cut_vma-Trimmed = elim (Bool-cases (cut_s == (vma_at vs i).start)) [
    | inl x ↦ elim (Bool-cases (cut_e == (vma_at vs i).end)) [
      | inl y ↦
          rw (x, y)
            (
              part_left vs i addr end_ v no_vma no_vma-IsArea (λ n. absurd (ground arith))
                  (λ n. absurd (ground arith)) (λ b l g o. absurd (ground arith)),
              λ _. set_self-Outside vs i addr end_ no_vma (λ n. absurd (ground arith)),
            )
      | inr y ↦
          rw (x, y)
            (rw moved_start (
              part_left vs i addr end_ v tail (tail-IsArea (ground arith)) tail-IsPart tail-Outside
                  (λ b l g o. (refl, ground arith, g)),
              λ _. set_self-Outside vs i addr end_ tail tail-Outside,
            ))
    ]
    | inr x ↦ elim (Bool-cases (cut_e == (vma_at vs i).end)) [
      | inl y ↦
          rw (x, y)
            (
              part_left vs i addr end_ v head (head-IsArea (ground arith)) head-IsPart head-Outside
                  (λ b l g o. (u, l, ground arith)),
              λ _. set_self-Outside vs i addr end_ head head-Outside,
            )
      | inr y ↦ elim (Option-cases (proc_find_free_vma_slot vs)) [
        | inl z ↦ rw (x, y, z) (no_change vs addr end_ v, λ n. absurd (n refl))
        | inr (j, z) ↦
            let (free, room) = proc_find_free_vma_slot-some vs z in
            rw (x, y, z)
              (
                parts_left vs i addr end_ v j head tail u free room (head-IsArea (ground arith))
                    head-IsPart head-Outside (tail-IsArea (ground arith)) tail-IsPart tail-Outside
                    refl (omega arith) (λ b l g o. ground arith),
                λ _. set_self-Outside (set vs j tail) i addr end_ head head-Outside,
              )
      ]
    ]
  ]
