-- ===== src/Vma/Add.antt =====
-- mm/process_vm.c: what `proc_add_vma` does to the table.
use sugimotos.Prelude.{
  ℕ, ◌%◌, ◌^◌, ◌≤◌, ◌<◌, ◌≡◌, ◌≢◌, ◌↔◌, ◌⊎◌, refl, sym, true, false, List, length, set, some, arith,
  inl, inr, Option-cases, page_size, get_or-set_self, get_or-set_ne,
}
use sugimotos.Proc.{UserVma, no_vma}
use sugimotos.Vma.{vma_at}
use sugimotos.Vma.Inv.{IsVmas, IsArea, Holds, AreApart, set-IsVmas, vma_at-set}
use sugimotos.Vma.Search.{proc_find_free_vma_slot-some, conflicts-false}
use sugimotos.Vma.Table.{proc_find_free_vma_slot, conflicts, proc_add_vma}

-- What a call that succeeds has checked, and what it has written.
pub proc_add_vma-some :
    (vs vs' : List UserVma) (start end_ prot : ℕ)
    → proc_add_vma vs start end_ prot ≡ some vs'
    → (start < end_)
      × (start % page_size ≡ 0)
      × (end_ % page_size ≡ 0)
      × (conflicts vs start end_ ≡ false)
      × (i : ℕ) × ((vma_at vs i).used ≡ false)
      × (i < length vs)
      × (vs' ≡ set vs i (record { used = true; start = start; end = end_; prot = prot }))
unfolding proc_add_vma
proc_add_vma-some vs vs' start end_ prot h =
    let a : start < end_ = ground arith in
    let b : start % page_size ≡ 0 = ground arith in
    let c : end_ % page_size ≡ 0 = ground arith in
    let d : conflicts vs start end_ ≡ false = ground arith in
    elim (Option-cases (proc_find_free_vma_slot vs)) [
      | inl e ↦ absurd (ground arith)
      | inr (i, e) ↦
          let (u, l) = proc_find_free_vma_slot-some vs e in (a, b, c, d, i, u, l, ground arith)
    ]

-- The table with a new area in an unused entry.
module _ (vs : List UserVma) (i : ℕ) (new : UserVma) (v : IsVmas vs) (proper : IsArea new)
    (live : new.used ≡ true) (free : (vma_at vs i).used ≡ false) (room : i < length vs)
    (clear : (j : ℕ) → (vma_at vs j).used ≡ true → AreApart new (vma_at vs j)) where
  pub put_new-IsVmas : IsVmas (set vs i new)
  put_new-IsVmas = set-IsVmas vs i new v proper (λ j _ _ w. clear j w)

  pub put_new_holds :
      (b p : ℕ)
      → Holds (set vs i new) b p
        ↔ (Holds vs b p ⊎ ((new.start ≤ b) × (b < new.end) × (p ≡ new.prot)))
  put_new_holds b p = (there, back)
    where
      there :
          Holds (set vs i new) b p
          → Holds vs b p ⊎ ((new.start ≤ b) × (b < new.end) × (p ≡ new.prot))
      there (j, u, l, g, q) = elim (vma_at-set vs i j new) [
        | inl (_, x) ↦ inr (rw x at l, rw x at g, sym (rw x at q))
        | inr (inl (_, x)) ↦ inl (j, rw x at u, rw x at l, rw x at g, rw x at q)
        | inr (inr x) ↦ absurd (ground (arith, rw x at u))
      ]

      at_new : vma_at (set vs i new) i ≡ new
      at_new = get_or-set_self vs i new no_vma room

      back :
          Holds vs b p ⊎ ((new.start ≤ b) × (b < new.end) × (p ≡ new.prot))
          → Holds (set vs i new) b p
      back (inr (l, g, q)) = (i, rw at_new live, rw at_new l, rw at_new g, rw at_new (sym q))
      back (inl (j, u, l, g, q)) =
          let n : i ≢ j = λ (e : i ≡ j). absurd (ground (arith, rw (← e) at u)) in
          let x : vma_at (set vs i new) j ≡ vma_at vs j = get_or-set_ne vs i j new no_vma n in
          (j, rw x u, rw x l, rw x g, rw x q)

-- A call of `proc_add_vma` that succeeds was given a range of whole pages that no area overlapped. It
-- keeps the table well-formed, and afterwards the bytes of the range have the new protection and all
-- other bytes what they had.
pub proc_add_vma_adds :
    (vs vs' : List UserVma) (start end_ prot : ℕ)
    → IsVmas vs
    → end_ < 2 ^ 32
    → proc_add_vma vs start end_ prot ≡ some vs'
    → IsVmas vs'
      × ((b p : ℕ) → Holds vs' b p ↔ (Holds vs b p ⊎ ((start ≤ b) × (b < end_) × (p ≡ prot))))
      × ((b p : ℕ) → start ≤ b → b < end_ → ¬ Holds vs b p)
proc_add_vma_adds vs vs' start end_ prot v bound h =
    let (a, b, c, d, i, u, l, e) = proc_add_vma-some vs vs' start end_ prot h in
    let new : UserVma = record { used = true; start = start; end = end_; prot = prot } in
    let proper : IsArea new = record {
      nonempty = λ _. a;
      start_aligned = λ _. b;
      end_aligned = λ _. c;
      bounded = λ _. bound;
    } in
    let clear : (j : ℕ) → (vma_at vs j).used ≡ true → AreApart new (vma_at vs j) =
      λ j w. conflicts-false vs start end_ j d w in
    rw e (
      put_new-IsVmas vs i new v proper refl u l clear,
      put_new_holds vs i new v proper refl u l clear,
      λ x p m n (j, w, s, t, _). elim (clear j w) [ inl y ↦ omega arith | inr y ↦ omega arith ],
    )
