-- ===== src/Vma/Trim.antt =====
-- mm/process_vm.c: an area that is cut into none, one or two parts.
use sugimotos.Prelude.{
  ℕ, ◌≤◌, ◌<◌, ◌≡◌, ◌≢◌, ◌⊎◌, refl, sym, ap, ◌∙◌, true, false, ◌&&◌, leb, ltb, List, length,
  length-set, set, set_comm, arith, inl, inr, Bool-cases, get_or-set_ne,
}
use sugimotos.Proc.{UserVma, no_vma}
use sugimotos.Vma.{vma_at}
use sugimotos.Vma.Inv.{IsVmas, IsArea, Holds, AreApart, vma_at-set}
use sugimotos.Vma.Shrink.{IsPart, part_apart, shrunk-IsVmas, shrunk_old, shrunk_kept}
use sugimotos.Vma.Range.{same_area}
use sugimotos.Vma.Add.{put_new-IsVmas, put_new_holds}

-- No byte of the area is in the range.
abbrev pub Outside : ℕ → ℕ → UserVma → Type 0
Outside addr end_ v = v.used ≡ true → (b : ℕ) → v.start ≤ b → b < v.end → (b < addr) ⊎ (end_ ≤ b)

-- The change of the table by a part of the loop: bytes outside the range are kept, and none is new.
pub record Trimmed (vs vs' : List UserVma) (addr end_ : ℕ) : Type 0 where
  pub valid : IsVmas vs'
  pub old : (b p : ℕ) → Holds vs' b p → Holds vs b p
  pub kept : (b p : ℕ) → Holds vs b p → (b < addr) ⊎ (end_ ≤ b) → Holds vs' b p
  pub stays : (j : ℕ) → Outside addr end_ (vma_at vs j) → Outside addr end_ (vma_at vs' j)

pub no_change : (vs : List UserVma) (addr end_ : ℕ) → IsVmas vs → Trimmed vs vs addr end_
no_change vs addr end_ v = record {
  valid = v;
  old = λ b p h. h;
  kept = λ b p h _. h;
  stays = λ j h. h;
}

pub two_changes :
    (vs ws us : List UserVma) (addr end_ : ℕ)
    → Trimmed vs ws addr end_
    → Trimmed ws us addr end_
    → Trimmed vs us addr end_
two_changes vs ws us addr end_ s t = record {
  valid = t.valid;
  old = λ b p h. s.old b p (t.old b p h);
  kept = λ b p h o. t.kept b p (s.kept b p h o) o;
  stays = λ j h. t.stays j (s.stays j h);
}

set-Outside :
    (vs : List UserVma) (i j addr end_ : ℕ) (w : UserVma)
    → Outside addr end_ w
    → (Outside addr end_ (vma_at vs j))
    → Outside addr end_ (vma_at (set vs i w) j)
set-Outside vs i j addr end_ w o h = elim (vma_at-set vs i j w) [
  | inl (_, x) ↦ rw x o
  | inr (inl (_, x)) ↦ rw x h
  | inr (inr x) ↦ rw x (λ u. absurd (ground arith))
]

module _ (vs : List UserVma) (i addr end_ : ℕ) (v : IsVmas vs) where
  -- One part of the area is left, or none.
  pub part_left :
      (w : UserVma)
      → IsArea w
      → IsPart w (vma_at vs i)
      → Outside addr end_ w
      → ((b : ℕ)
          → (vma_at vs i).start ≤ b
          → b < (vma_at vs i).end
          → (b < addr) ⊎ (end_ ≤ b)
          → (w.used ≡ true) × (w.start ≤ b) × (b < w.end))
      → Trimmed vs (set vs i w) addr end_
  part_left w proper part out whole = record {
    valid = shrunk-IsVmas vs i w v proper part;
    old = shrunk_old vs i w v proper part;
    kept = λ b p h o. shrunk_kept vs i w v proper part b p h (λ l g. whole b l g o);
    stays = λ j h. set-Outside vs i j addr end_ w out h;
  }

  -- Two parts of the area are left, the second in an entry that was free.
  pub parts_left :
      (j : ℕ) (head tail : UserVma)
      → (vma_at vs i).used ≡ true
      → (vma_at vs j).used ≡ false
      → j < length vs
      → IsArea head
      → IsPart head (vma_at vs i)
      → Outside addr end_ head
      → IsArea tail
      → IsPart tail (vma_at vs i)
      → Outside addr end_ tail
      → tail.used ≡ true
      → head.end ≤ tail.start
      → ((b : ℕ)
          → (vma_at vs i).start ≤ b
          → b < (vma_at vs i).end
          → (b < addr) ⊎ (end_ ≤ b)
          → ((head.used ≡ true) × (head.start ≤ b) × (b < head.end))
            ⊎ ((tail.start ≤ b) × (b < tail.end)))
      → Trimmed vs (set (set vs j tail) i head) addr end_
  parts_left j head tail live free room ha hp ho ta tp to lt split whole =
      rw (← set_comm vs i j head tail n) (record {
        valid = put_new-IsVmas ws j tail valid' ta lt free' room' clear;
        old = old';
        kept = kept';
        stays =
            λ k h. set-Outside ws j k addr end_ tail to (set-Outside vs i k addr end_ head ho h);
      })
    where
      n : i ≢ j
      n e = absurd (ground (arith, rw e at live))

      ws : List UserVma
      ws = set vs i head

      valid' : IsVmas ws
      valid' = shrunk-IsVmas vs i head v ha hp

      free' : (vma_at ws j).used ≡ false
      free' = ap (λ (u : UserVma). u.used) (get_or-set_ne vs i j head no_vma n) ∙ free

      room' : j < length ws
      room' = omega (arith, length-set vs i head)

      clear : (k : ℕ) → (vma_at ws k).used ≡ true → AreApart tail (vma_at ws k)
      clear k u = elim (vma_at-set vs i k head) [
        | inl (_, x) ↦ rw x (inr split)
        | inr (inl (m, x)) ↦
            let (a, b, c, _) = tp lt in
            rw x (part_apart tail (vma_at vs i) (vma_at vs k) b c (v.apart i k m a (rw x at u)))
        | inr (inr x) ↦ absurd (ground (arith, rw x at u))
      ]

      old' : (b p : ℕ) → Holds (set ws j tail) b p → Holds vs b p
      old' b p h = elim ((put_new_holds ws j tail valid' ta lt free' room' clear b p).0 h) [
        | inl x ↦ shrunk_old vs i head v ha hp b p x
        | inr (l, g, q) ↦ let (a, c, d, e) = tp lt in (i, a, omega arith, omega arith, sym (q ∙ e))
      ]

      kept' : (b p : ℕ) → Holds vs b p → (b < addr) ⊎ (end_ ≤ b) → Holds (set ws j tail) b p
      kept' b p (k, u, l, g, q) o = elim (Bool-cases (leb tail.start b && ltb b tail.end)) [
        | inl x ↦
            let (a, c, d, e) = tp lt in
            let s : tail.start ≤ b = ground arith in
            let t : b < tail.end = ground arith in
            let same : i ≡ k = same_area vs b i k v a (omega arith) (omega arith) u l g in
            (put_new_holds ws j tail valid' ta lt free' room' clear b p).1
              (inr (s, t, sym (e ∙ rw same q)))
        | inr x ↦ (put_new_holds ws j tail valid' ta lt free' room' clear b p).1 (
            inl (
              shrunk_kept vs i head v ha hp b p (k, u, l, g, q)
                (λ m n'. elim (whole b m n' o) [ inl y ↦ y | inr (y, z) ↦ absurd (ground arith) ])))
      ]

pub set_self-Outside :
    (vs : List UserVma) (i addr end_ : ℕ) (w : UserVma)
    → Outside addr end_ w
    → Outside addr end_ (vma_at (set vs i w) i)
set_self-Outside vs i addr end_ w o = elim (vma_at-set vs i i w) [
  | inl (_, x) ↦ rw x o
  | inr (inl (n, _)) ↦ absurd (n refl)
  | inr (inr x) ↦ rw x (λ u. absurd (ground arith))
]
