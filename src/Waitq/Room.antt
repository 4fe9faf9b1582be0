-- ===== src/Waitq/Room.antt =====
-- kernel/process/waitq.c: a wait queue never runs out of places, since it has one for each process.
use sugimotos.Prelude.{
  ℕ, zero, suc, ◌≤◌, ◌<◌, ◌≡◌, ◌≢◌, refl, List, [], ◌∷◌, length, none, some, arith, ◌==◌,
  if◌then◌else◌,
}
use sugimotos.Proc.{proc_max}
use sugimotos.Waitq.{Waiters}

-- No entry is `p`.
abbrev pub Lacks : ℕ → List ℕ → Type 0
Lacks p [] = Unit {0}
Lacks p (x ∷ xs) = (x ≢ p) × Lacks p xs

abbrev pub Distinct : List ℕ → Type 0
Distinct [] = Unit {0}
Distinct (x ∷ xs) = Lacks x xs × Distinct xs

abbrev pub Below : ℕ → List ℕ → Type 0
Below n [] = Unit {0}
Below n (x ∷ xs) = (x < n) × Below n xs

without : ℕ → List ℕ → List ℕ
without p [] = []
without p (x ∷ xs) = if x == p then without p xs else x ∷ without p xs

Lacks-without : (p q : ℕ) (xs : List ℕ) → Lacks q xs → Lacks q (without p xs)
unfolding without
Lacks-without p q [] h = tt
Lacks-without p q (x ∷ xs) h = ground (arith, Lacks-without p q xs h.1)

Distinct-without : (p : ℕ) (xs : List ℕ) → Distinct xs → Distinct (without p xs)
unfolding without
Distinct-without p [] h = tt
Distinct-without p (x ∷ xs) h = ground (arith, Distinct-without p xs h.1, Lacks-without p x xs h.0)

Below-without : (n : ℕ) (xs : List ℕ) → Below (suc n) xs → Below n (without n xs)
unfolding without
Below-without n [] h = tt
Below-without n (x ∷ xs) h = ground (arith, Below-without n xs h.1)

without_lacking : (p : ℕ) (xs : List ℕ) → Lacks p xs → without p xs ≡ xs
unfolding without
without_lacking p [] h = refl
without_lacking p (x ∷ xs) h = ground (arith, without_lacking p xs h.1)

length-without : (p : ℕ) (xs : List ℕ) → Distinct xs → length xs ≤ suc (length (without p xs))
unfolding without
length-without p [] h = omega arith
length-without p (x ∷ xs) h = ground (arith, length-without p xs h.1, without_lacking p xs)

-- Pigeonholes: distinct numbers below `n` are at most `n` many.
pub length-Distinct : (n : ℕ) (xs : List ℕ) → Below n xs → Distinct xs → length xs ≤ n
length-Distinct zero [] b d = omega arith
length-Distinct zero (x ∷ xs) b d = absurd (omega arith)
length-Distinct (suc n) xs b d = omega (
  arith,
  length-without n xs d,
  length-Distinct n (without n xs) (Below-without n xs b) (Distinct-without n xs d),
)

-- The processes that a queue holds.
abbrev pub members : Waiters → List ℕ
members [] = []
members (none ∷ ws) = members ws
members (some i ∷ ws) = i ∷ members ws

-- The queue of a kernel with eight process slots.
pub record IsQueue (q : Waiters) : Type 0 where
  pub places : length q ≡ proc_max
  pub in_table : Below proc_max (members q)
  pub distinct : Distinct (members q)
