-- ===== src/Life/Table.antt =====
-- kernel/process/process.c: the invariant of the process table.
use sugimotos.Prelude.{
  ℕ, zero, suc, ◌+◌, ◌<◌, ◌≡◌, ◌⊎◌, refl, sym, ap, ◌∙◌, true, false, not, ◌&&◌, List, [], ◌∷◌,
  length, set, Option, none, some, arith, inl, inr, Bool-cases, ◌==◌, length-set, get_or-set_self,
  get_or-set_ne,
}
use native.Mathlib.Decide.{ℕ_discrete}
use sugimotos.Proc.{is_unused, Process, zero_process, proc_at, proc_max}
use sugimotos.Life.Slots.{alloc_from, alloc_process_slot, find_from, find_process_by_pid}

-- An empty slot is all zeros, and the pid of any other is one more than its index.
pub record IsSlot (i : ℕ) (p : Process) : Type 0 where
  pub empty : is_unused p.state ≡ true → p ≡ zero_process
  pub numbered : is_unused p.state ≡ false → p.pid ≡ i + 1

pub record IsProcs (ps : List Process) : Type 0 where
  pub size : length ps ≡ proc_max
  pub slots : (i : ℕ) → i < proc_max → IsSlot i (proc_at ps i)

-- What the search for an empty slot from index `i` on returns.
abbrev pub FirstUnused : List Process → ℕ → Option ℕ → Type 0
FirstUnused ps i none = (j : ℕ) → j < length ps → is_unused (proc_at ps j).state ≡ false
FirstUnused ps i (some k) =
    (j : ℕ) × (k ≡ i + j) × (j < length ps) × (is_unused (proc_at ps j).state ≡ true)

next_FirstUnused :
    (p : Process) (ps : List Process) (i : ℕ) (o : Option ℕ)
    → is_unused p.state ≡ false
    → FirstUnused ps (i + 1) o
    → FirstUnused (p ∷ ps) i o
next_FirstUnused p ps i none e f = go
  where
    go : (j : ℕ) → j < length (p ∷ ps) → is_unused (proc_at (p ∷ ps) j).state ≡ false
    go zero l = e
    go (suc j) l = f j (omega arith)
next_FirstUnused p ps i (some k) e (j, q, l, u) = (suc j, omega arith, omega arith, u)

alloc_from-FirstUnused : (ps : List Process) (i : ℕ) → FirstUnused ps i (alloc_from ps i)
unfolding alloc_from
alloc_from-FirstUnused [] i = λ j l. absurd (omega arith)
alloc_from-FirstUnused (p ∷ ps) i = elim (Bool-cases (is_unused p.state)) [
  | inl x ↦ rw x (0, omega arith, omega arith, x)
  | inr x ↦ rw x (next_FirstUnused p ps i _ x (alloc_from-FirstUnused ps (i + 1)))
]

pub alloc_process_slot-FirstUnused : (ps : List Process) → FirstUnused ps 0 (alloc_process_slot ps)
unfolding alloc_process_slot
alloc_process_slot-FirstUnused ps = alloc_from-FirstUnused ps 0

-- A slot given anew keeps the invariant, if its new content does.
pub set-IsProcs :
    (ps : List Process) (i : ℕ) (p : Process)
    → IsProcs ps
    → i < proc_max
    → IsSlot i p
    → IsProcs (set ps i p)
set-IsProcs ps i p v l s = record {
  size = length-set ps i p ∙ v.size;
  slots = λ j k. elim (ℕ_discrete i j) [
    | yes e ↦ rw (← e) (rw (get_or-set_self ps i p zero_process (omega (arith, v.size))) s)
    | no e ↦ rw (get_or-set_ne ps i j p zero_process e) (v.slots j k)
  ];
}

pub zero-IsSlot : (i : ℕ) → IsSlot i zero_process
unfolding zero_process
zero-IsSlot i = record { empty = λ _. refl; numbered = λ e. absurd (ground arith) }

pub used-IsSlot : (i : ℕ) (p : Process) → is_unused p.state ≡ false → p.pid ≡ i + 1 → IsSlot i p
used-IsSlot i p u e = record { empty = λ z. absurd (ground (arith, u, z)); numbered = λ _. e }

-- The table with an empty slot given anew and emptied again is what it was.
set_comes_back :
    (ps : List Process) (i : ℕ) (p : Process)
    → i < length ps
    → set (set ps i p) i (proc_at ps i) ≡ ps
set_comes_back [] i p l = refl
set_comes_back (q ∷ ps) zero p l = refl
set_comes_back (q ∷ ps) (suc i) p l = ap (λ x. q ∷ x) (set_comes_back ps i p (omega arith))

pub set_same : (ps : List Process) (i : ℕ) → i < length ps → set ps i (proc_at ps i) ≡ ps
set_same [] i l = refl
set_same (q ∷ ps) zero l = refl
set_same (q ∷ ps) (suc i) l = ap (λ x. q ∷ x) (set_same ps i (omega arith))

pub set-set : (ps : List Process) (i : ℕ) (p q : Process) → set (set ps i p) i q ≡ set ps i q
set-set [] i p q = refl
set-set (r ∷ ps) zero p q = refl
set-set (r ∷ ps) (suc i) p q = ap (λ x. r ∷ x) (set-set ps i p q)

-- What the search for a pid from index `i` on returns.
abbrev HasPid : List Process → ℕ → ℕ → Type 0
HasPid ps pid j =
    (j < length ps) × (is_unused (proc_at ps j).state ≡ false) × ((proc_at ps j).pid ≡ pid)

abbrev Found : List Process → ℕ → ℕ → Option ℕ → Type 0
Found ps pid i none = (j : ℕ) → ¬ HasPid ps pid j
Found ps pid i (some k) = (j : ℕ) × (k ≡ i + j) × HasPid ps pid j

next_Found :
    (p : Process) (ps : List Process) (pid i : ℕ) (o : Option ℕ)
    → (not (is_unused p.state) && (p.pid == pid)) ≡ false
    → Found ps pid (i + 1) o
    → Found (p ∷ ps) pid i o
next_Found p ps pid i none e f = go
  where
    go : (j : ℕ) → ¬ HasPid (p ∷ ps) pid j
    go zero (l, u, q) = ground (arith, e, u, q)
    go (suc j) (l, u, q) = f j (omega arith, u, q)
next_Found p ps pid i (some k) e (j, q, (l, u, r)) = (suc j, omega arith, (omega arith, u, r))

find_from-Found : (ps : List Process) (pid i : ℕ) → Found ps pid i (find_from ps pid i)
unfolding find_from
find_from-Found [] pid i = λ j (l, _, _). omega arith
find_from-Found (p ∷ ps) pid i = elim (Bool-cases (not (is_unused p.state) && (p.pid == pid))) [
  | inl x ↦ rw x (0, omega arith, (omega arith, ground (arith, x), ground (arith, x)))
  | inr x ↦ rw x (next_Found p ps pid i _ x (find_from-Found ps pid (i + 1)))
]

-- In a sound table, the search for a pid returns the slot one below it, if that is in use, and else
-- nothing: there is at most one process of each pid.
pub find_process_by_pid_unique :
    (ps : List Process) (pid : ℕ)
    → IsProcs ps
    → ((i : ℕ) × (find_process_by_pid ps pid ≡ some i)
        × (pid ≡ i + 1)
        × (i < proc_max)
        × (is_unused (proc_at ps i).state ≡ false))
      ⊎ ((find_process_by_pid ps pid ≡ none)
          × ((i : ℕ)
              → i < proc_max
              → (proc_at ps i).pid ≡ pid
              → is_unused (proc_at ps i).state ≡ true))
unfolding find_process_by_pid
find_process_by_pid_unique ps pid v = go (find_from ps pid 0) (find_from-Found ps pid 0)
  where
    go :
        (o : Option ℕ)
        → Found ps pid 0 o
        → ((i : ℕ) × (o ≡ some i)
            × (pid ≡ i + 1)
            × (i < proc_max)
            × (is_unused (proc_at ps i).state ≡ false))
          ⊎ ((o ≡ none)
              × ((i : ℕ)
                  → i < proc_max
                  → (proc_at ps i).pid ≡ pid
                  → is_unused (proc_at ps i).state ≡ true))
    go none n = inr (
      refl,
      λ i l e. elim (Bool-cases (is_unused (proc_at ps i).state)) [
        | inl u ↦ u
        | inr u ↦ absurd (n i (omega (arith, v.size), u, e))
      ],
    )
    go (some k) (j, e, (l, u, q)) =
        let here : j < proc_max = omega (arith, v.size) in
        let slot = v.slots j here in
        let same : k ≡ j = omega (arith, e) in
        inl (j, ap some same, sym q ∙ slot.numbered u, here, u)
