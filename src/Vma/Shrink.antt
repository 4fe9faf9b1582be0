-- ===== src/Vma/Shrink.antt =====
-- mm/process_vm.c: an area that becomes smaller.
use sugimotos.Prelude.{
  ℕ, ◌≤◌, ◌<◌, ◌≡◌, refl, sym, ◌∙◌, true, List, length, set, arith, inl, inr, get_or-set,
}
use sugimotos.Proc.{UserVma, no_vma}
use sugimotos.Vma.{vma_at}
use sugimotos.Vma.Inv.{IsVmas, IsArea, Holds, AreApart, set-IsVmas, vma_at-set}

-- `w` is a part of `v`, or unused.
abbrev pub IsPart : UserVma → UserVma → Type 0
IsPart w v =
    w.used ≡ true → (v.used ≡ true) × (v.start ≤ w.start) × (w.end ≤ v.end) × (w.prot ≡ v.prot)

pub part_apart :
    (w v u : UserVma) → (v.start ≤ w.start) → (w.end ≤ v.end) → AreApart v u → AreApart w u
part_apart w v u a b (inl h) = inl (omega arith)
part_apart w v u a b (inr h) = inr (omega arith)

-- A used entry is one of the table.
pub used_room : (vs : List UserVma) (i : ℕ) → (vma_at vs i).used ≡ true → i < length vs
used_room vs i u = elim (get_or-set vs i i no_vma no_vma) [
  | inl (_, _, l) ↦ l
  | inr (inl (n, _)) ↦ absurd (n refl)
  | inr (inr (_, _, x, _)) ↦ absurd (ground (arith, rw x at u))
]

module _ (vs : List UserVma) (i : ℕ) (w : UserVma) (v : IsVmas vs) (proper : IsArea w)
    (part : IsPart w (vma_at vs i)) where
  pub shrunk-IsVmas : IsVmas (set vs i w)
  shrunk-IsVmas = set-IsVmas vs i w v proper (λ j n u x.
      let (a, b, c, _) = part u in part_apart w (vma_at vs i) (vma_at vs j) b c (v.apart i j n a x))

  pub shrunk_old : (b p : ℕ) → Holds (set vs i w) b p → Holds vs b p
  shrunk_old b p (j, u, l, g, q) = elim (vma_at-set vs i j w) [
    | inl (_, x) ↦
        let (a, c, d, e) = part (rw x at u) in
        (i, a, omega (arith, rw x at l), omega (arith, rw x at g), sym e ∙ rw x at q)
    | inr (inl (_, x)) ↦ (j, rw x at u, rw x at l, rw x at g, rw x at q)
    | inr (inr x) ↦ absurd (ground (arith, rw x at u))
  ]

  -- A byte is kept if, should it be of the old area, it is of the new one.
  pub shrunk_kept :
      (b p : ℕ)
      → Holds vs b p
      → ((vma_at vs i).start ≤ b
          → b < (vma_at vs i).end
          → (w.used ≡ true) × (w.start ≤ b) × (b < w.end))
      → Holds (set vs i w) b p
  shrunk_kept b p (j, u, l, g, q) k = elim (get_or-set vs i j w no_vma) [
    | inl (e, x, _) ↦
        let (a, c, d) = k (rw e l) (rw e g) in
        let (_, _, _, f) = part a in (j, rw x a, rw x c, rw x d, rw x (f ∙ rw e q))
    | inr (inl (_, x)) ↦ (j, rw x u, rw x l, rw x g, rw x q)
    | inr (inr (_, _, x, _)) ↦ absurd (ground (arith, rw x at u))
  ]
