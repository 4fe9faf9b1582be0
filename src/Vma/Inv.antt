-- ===== src/Vma/Inv.antt =====
-- mm/process_vm.c: the invariant of the table of areas, and the change of one entry.
use sugimotos.Prelude.{
  ℕ, zero, suc, ◌%◌, ◌^◌, ◌≤◌, ◌<◌, ◌≡◌, ◌≢◌, refl, sym, ◌∙◌, true, List, length, set, get_or-set,
  length-set, replicate, arith, ◌⊎◌, inl, inr, page_size,
}
use sugimotos.Proc.{UserVma, no_vma, proc_vma_max}
use sugimotos.Vma.{vma_at}

-- A used area is a range of whole pages below 2 ^ 32 that is not empty.
pub record IsArea (v : UserVma) : Type 0 where
  pub nonempty : v.used ≡ true → v.start < v.end
  pub start_aligned : v.used ≡ true → v.start % page_size ≡ 0
  pub end_aligned : v.used ≡ true → v.end % page_size ≡ 0
  pub bounded : v.used ≡ true → v.end < 2 ^ 32

abbrev pub AreApart : UserVma → UserVma → Type 0
AreApart v w = (v.end ≤ w.start) ⊎ (w.end ≤ v.start)

pub record IsVmas (vs : List UserVma) : Type 0 where
  pub count : length vs ≡ proc_vma_max
  pub area : (i : ℕ) → IsArea (vma_at vs i)
  pub apart :
      (i j : ℕ)
      → i ≢ j
      → (vma_at vs i).used ≡ true
      → (vma_at vs j).used ≡ true
      → AreApart (vma_at vs i) (vma_at vs j)

-- Byte `b` lies in a used area of protection `p`.
abbrev pub Holds : List UserVma → ℕ → ℕ → Type 0
Holds vs b p =
    (i : ℕ) × ((vma_at vs i).used ≡ true)
    × ((vma_at vs i).start ≤ b)
    × (b < (vma_at vs i).end)
    × ((vma_at vs i).prot ≡ p)

pub no_vma-IsArea : IsArea no_vma
no_vma-IsArea = record {
  nonempty = λ e. absurd (ground arith);
  start_aligned = λ e. absurd (ground arith);
  end_aligned = λ e. absurd (ground arith);
  bounded = λ e. absurd (ground arith);
}

pub apart_sym : (v w : UserVma) → AreApart v w → AreApart w v
apart_sym v w (inl h) = inr h
apart_sym v w (inr h) = inl h

-- Entry `j` after a write: the new area, the old one, or, out of range, none.
pub vma_at-set :
    (vs : List UserVma) (i j : ℕ) (v : UserVma)
    → ((i ≡ j) × (vma_at (set vs i v) j ≡ v))
      ⊎ ((i ≢ j) × (vma_at (set vs i v) j ≡ vma_at vs j))
      ⊎ (vma_at (set vs i v) j ≡ no_vma)
vma_at-set vs i j v = elim (get_or-set vs i j v no_vma) [
  | inl (e, x, _) ↦ inl (e, x)
  | inr (inl (n, x)) ↦ inr (inl (n, x))
  | inr (inr (_, x, _, _)) ↦ inr (inr x)
]

module _ (vs : List UserVma) (i : ℕ) (v : UserVma) (valid : IsVmas vs) (proper : IsArea v)
    (clear : (j : ℕ)
      → i ≢ j
      → v.used ≡ true
      → (vma_at vs j).used ≡ true
      → AreApart v (vma_at vs j)) where
  set-IsArea : (j : ℕ) → IsArea (vma_at (set vs i v) j)
  set-IsArea j = elim (vma_at-set vs i j v) [
    | inl (_, x) ↦ rw x proper
    | inr (inl (_, x)) ↦ rw x (valid.area j)
    | inr (inr x) ↦ rw x no_vma-IsArea
  ]

  set_apart :
      (j k : ℕ)
      → j ≢ k
      → (vma_at (set vs i v) j).used ≡ true
      → (vma_at (set vs i v) k).used ≡ true
      → AreApart (vma_at (set vs i v) j) (vma_at (set vs i v) k)
  set_apart j k n u w = elim (vma_at-set vs i j v) [
    | inl (e, x) ↦ elim (vma_at-set vs i k v) [
      | inl (f, y) ↦ absurd (n (sym e ∙ f))
      | inr (inl (m, y)) ↦ rw (x, y) (clear k m (rw x at u) (rw y at w))
      | inr (inr y) ↦ absurd (ground (arith, rw y at w))
    ]
    | inr (inl (m, x)) ↦ elim (vma_at-set vs i k v) [
      | inl (f, y) ↦ rw (x, y) (apart_sym v (vma_at vs j) (clear j m (rw y at w) (rw x at u)))
      | inr (inl (m', y)) ↦ rw (x, y) (valid.apart j k n (rw x at u) (rw y at w))
      | inr (inr y) ↦ absurd (ground (arith, rw y at w))
    ]
    | inr (inr x) ↦ absurd (ground (arith, rw x at u))
  ]

  -- An entry may be given anew, if its area is proper and apart from all others.
  pub set-IsVmas : IsVmas (set vs i v)
  set-IsVmas = record {
    count = omega (arith, length-set vs i v, valid.count);
    area = set-IsArea;
    apart = set_apart;
  }

pub vma_at-replicate : (n i : ℕ) → vma_at (replicate n no_vma) i ≡ no_vma
vma_at-replicate zero i = refl
vma_at-replicate (suc n) zero = refl
vma_at-replicate (suc n) (suc i) = vma_at-replicate n i

pub empty-IsVmas : IsVmas (replicate proc_vma_max no_vma)
empty-IsVmas = record {
  count = refl;
  area = λ i. rw (vma_at-replicate proc_vma_max i) no_vma-IsArea;
  apart = λ i j n u w. absurd (ground (arith, rw (vma_at-replicate proc_vma_max i) at u));
}
