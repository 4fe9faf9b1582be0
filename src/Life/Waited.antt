-- ===== src/Life/Waited.antt =====
-- kernel/process/process.c: what `proc_waitpid` finds.
use sugimotos.Prelude.{
  ℕ, zero, suc, ◌+◌, ◌<◌, ◌≡◌, ◌⊎◌, refl, Bool, true, false, List, [], ◌∷◌, length, Option, none,
  some, arith, inl, inr, Bool-cases,
}
use sugimotos.Prelude.Int.{ℤ}
use sugimotos.Proc.{is_zombie, Process, proc_at}
use sugimotos.Life.Wait.{is_waited, wait_scan}

-- The process in slot `j` is one that is waited for.
abbrev pub Waited : List Process → ℕ → ℤ → ℕ → Type 0
Waited ps own pid j = (j < length ps) × (is_waited own pid (proc_at ps j) ≡ true)

-- What a scan that began at slot `i` has found.
abbrev pub Scanned : List Process → ℕ → ℤ → ℕ → Bool × Option ℕ → Type 0
Scanned ps own pid i (has_child, none) =
    (((has_child ≡ true) × ((j : ℕ) × Waited ps own pid j))
      ⊎ ((has_child ≡ false) × ((j : ℕ) → ¬ Waited ps own pid j)))
    × ((j : ℕ) → Waited ps own pid j → is_zombie (proc_at ps j).state ≡ false)
Scanned ps own pid i (has_child, some k) =
    (j : ℕ) × (k ≡ i + j)
    × Waited ps own pid j
    × (is_zombie (proc_at ps j).state ≡ true)
    × ((l : ℕ) → l < j → Waited ps own pid l → is_zombie (proc_at ps l).state ≡ false)

module _ (own : ℕ) (pid : ℤ) where
  -- A slot in front that is not waited for.
  skip_Scanned :
      (p : Process) (ps : List Process) (i : ℕ) (r : Bool × Option ℕ)
      → is_waited own pid p ≡ false
      → Scanned ps own pid (i + 1) r
      → Scanned (p ∷ ps) own pid i r
  skip_Scanned p ps i (b, none) e (o, z) = (
    elim o [
      | inl (f, (j, w)) ↦ inl (f, (suc j, (omega arith, w.1)))
      | inr (f, n) ↦ inr (f, none_here n)
    ],
    none_dead,
  )
    where
      none_here : ((j : ℕ) → ¬ Waited ps own pid j) → (j : ℕ) → ¬ Waited (p ∷ ps) own pid j
      none_here n zero (_, q) = ground (arith, e, q)
      none_here n (suc j) (l, q) = n j (omega arith, q)

      none_dead : (j : ℕ) → Waited (p ∷ ps) own pid j → is_zombie (proc_at (p ∷ ps) j).state ≡ false
      none_dead zero (_, q) = absurd (ground (arith, e, q))
      none_dead (suc j) (l, q) = z j (omega arith, q)
  skip_Scanned p ps i (b, some k) e (j, f, (l, q), z, first) =
      (suc j, omega arith, (omega arith, q), z, before)
    where
      before :
          (m : ℕ)
          → m < suc j
          → Waited (p ∷ ps) own pid m
          → is_zombie (proc_at (p ∷ ps) m).state ≡ false
      before zero _ (_, q) = absurd (ground (arith, e, q))
      before (suc m) n (l, q) = first m (omega arith) (omega arith, q)

  -- A child in front that still runs.
  child_Scanned :
      (p : Process) (ps : List Process) (i : ℕ) (r : Bool × Option ℕ)
      → is_waited own pid p ≡ true
      → is_zombie p.state ≡ false
      → Scanned ps own pid (i + 1) r
      → Scanned (p ∷ ps) own pid i (true, r.1)
  child_Scanned p ps i (b, none) e f (o, z) = (inl (refl, (0, (omega arith, e))), none_dead)
    where
      none_dead : (j : ℕ) → Waited (p ∷ ps) own pid j → is_zombie (proc_at (p ∷ ps) j).state ≡ false
      none_dead zero w = f
      none_dead (suc j) (l, q) = z j (omega arith, q)
  child_Scanned p ps i (b, some k) e f (j, g, (l, q), z, first) =
      (suc j, omega arith, (omega arith, q), z, before)
    where
      before :
          (m : ℕ)
          → m < suc j
          → Waited (p ∷ ps) own pid m
          → is_zombie (proc_at (p ∷ ps) m).state ≡ false
      before zero _ w = f
      before (suc m) n (l, q) = first m (omega arith) (omega arith, q)

  -- The scan finds the first zombie that is waited for, and knows whether any process is.
  pub wait_scan-Scanned :
      (ps : List Process) (i : ℕ) → Scanned ps own pid i (wait_scan ps own pid i)
  unfolding wait_scan
  wait_scan-Scanned [] i = (inr (refl, λ j (l, _). omega arith), λ j (l, _). absurd (omega arith))
  wait_scan-Scanned (p ∷ ps) i = elim (Bool-cases (is_waited own pid p)) [
    | inl x ↦ elim (Bool-cases (is_zombie p.state)) [
      | inl y ↦ rw (x, y) (0, omega arith, (omega arith, x), y, λ l n. absurd (omega arith))
      | inr y ↦ rw (x, y) (child_Scanned p ps i _ x y (wait_scan-Scanned ps (i + 1)))
    ]
    | inr x ↦ rw x (skip_Scanned p ps i _ x (wait_scan-Scanned ps (i + 1)))
  ]
