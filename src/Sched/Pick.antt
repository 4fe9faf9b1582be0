-- ===== src/Sched/Pick.antt =====
-- kernel/process/sched.c: what `pick_next_runnable_index` returns.
use mathlib.Core.Option
use mathlib.Core.Path.{subst}
use native.Mathlib.Decide.{dec_lt}
use sugimotos.Prelude.{
  ℕ, zero, suc, ◌+◌, ◌≤◌, ◌<◌, ◌≡◌, refl, sym, ap, ◌∙◌, ltb→lt, Bool, true, false, List, Option,
  none, some, arith, Bool-cases, inl, inr, ◌⊎◌, ltb,
}
use sugimotos.Proc.{Process, proc_at, proc_max}
use sugimotos.Sched.{
  Best, slot, is_eligible_for_pick, pick_round, pick_rounds, pick_next_runnable_index,
}

module _ (ps : List Process) (start : ℕ) where
  abbrev eligible_at : ℕ → Bool
  eligible_at i = is_eligible_for_pick (proc_at ps (slot start i))

  abbrev budget_at : ℕ → ℕ
  budget_at i = (proc_at ps (slot start i)).budget

  -- The best of the rounds from 1 up to `lim`, found in round `i`.
  record PickedIn (lim : ℕ) (b : Best) (i : ℕ) : Type 0 where
    from_one : 1 ≤ i
    in_time : i < lim
    here : b.idx ≡ slot start i
    eligible : eligible_at i ≡ true
    its_budget : budget_at i ≡ b.budget
    largest : (j : ℕ) → 1 ≤ j → j < lim → eligible_at j ≡ true → budget_at j ≤ b.budget
    first : (j : ℕ) → 1 ≤ j → j < i → eligible_at j ≡ true → budget_at j < b.budget

  abbrev PickInv : ℕ → Option Best → Type 0
  PickInv lim none = (j : ℕ) → 1 ≤ j → j < lim → eligible_at j ≡ false
  PickInv lim (some b) = (i : ℕ) × PickedIn lim b i

  last_or_before : (i j : ℕ) → j < i + 1 → (j < i) ⊎ (j ≡ i)
  last_or_before i j h = elim (dec_lt j i) [ yes p ↦ inl p | no p ↦ inr (omega arith) ]

  skip :
      (i : ℕ) (best : Option Best)
      → 1 ≤ i
      → eligible_at i ≡ false
      → PickInv i best
      → PickInv (i + 1) best
  skip i none h e v = λ j p q. elim (last_or_before i j q) [ inl l ↦ v j p l | inr l ↦ rw l e ]
  skip i (some b) h e (r, v) = (
    r,
    record {
      from_one = v.from_one;
      in_time = omega arith;
      here = v.here;
      eligible = v.eligible;
      its_budget = v.its_budget;
      largest = λ j p q t. elim (last_or_before i j q) [
        | inl l ↦ v.largest j p l t
        | inr l ↦ ground (arith, ap eligible_at l)
      ];
      first = v.first;
    },
  )

  take_none :
      (i : ℕ) (b : Best)
      → 1 ≤ i
      → eligible_at i ≡ true
      → b.idx ≡ slot start i
      → b.budget ≡ budget_at i
      → PickInv i none
      → PickedIn (i + 1) b i
  take_none i b h e x y v = record {
    from_one = h;
    in_time = omega arith;
    here = x;
    eligible = e;
    its_budget = sym y;
    largest = λ j p q t. elim (last_or_before i j q) [
      | inl l ↦ ground (arith, v j p l)
      | inr l ↦ ground (arith, ap budget_at l)
    ];
    first = λ j p q t. ground (arith, v j p q);
  }

  take_better :
      (i r : ℕ) (old b : Best)
      → 1 ≤ i
      → eligible_at i ≡ true
      → b.idx ≡ slot start i
      → b.budget ≡ budget_at i
      → old.budget < b.budget
      → PickedIn i old r
      → PickedIn (i + 1) b i
  take_better i r old b h e x y lt v = record {
    from_one = h;
    in_time = omega arith;
    here = x;
    eligible = e;
    its_budget = sym y;
    largest = λ j p q t. elim (last_or_before i j q) [
      | inl l ↦ omega (arith, v.largest j p l t)
      | inr l ↦ ground (arith, ap budget_at l)
    ];
    first = λ j p q t. omega (arith, v.largest j p q t);
  }

  keep_old :
      (i r : ℕ) (old : Best)
      → 1 ≤ i
      → budget_at i ≤ old.budget
      → PickedIn i old r
      → PickedIn (i + 1) old r
  keep_old i r old h le v = record {
    from_one = v.from_one;
    in_time = omega (arith, v.in_time);
    here = v.here;
    eligible = v.eligible;
    its_budget = v.its_budget;
    largest = λ j p q t. elim (last_or_before i j q) [
      | inl l ↦ v.largest j p l t
      | inr l ↦ ground (arith, ap budget_at l)
    ];
    first = v.first;
  }

  pick_round-PickInv :
      (i : ℕ) (best : Option Best)
      → 1 ≤ i
      → PickInv i best
      → PickInv (i + 1) (pick_round ps start i best)
  unfolding pick_round
  pick_round-PickInv i none h v = elim (Bool-cases (eligible_at i)) [
    | inl e ↦ rw e (i, take_none i _ h e refl refl v)
    | inr e ↦ rw e (skip i none h e v)
  ]
  pick_round-PickInv i (some old) h (r, v) = elim (Bool-cases (eligible_at i)) [
    | inl e ↦ elim (Bool-cases (ltb old.budget (budget_at i))) [
      | inl lt ↦ rw (e, lt) (i, take_better i r old _ h e refl refl (ltb→lt _ _ lt) v)
      | inr ge ↦ rw (e, ge) (r, keep_old i r old h (ground arith) v)
    ]
    | inr e ↦ rw e (skip i (some old) h e (r, v))
  ]

  pick_rounds-PickInv :
      (n i lim : ℕ) (best : Option Best)
      → 1 ≤ i
      → i + n ≡ lim
      → PickInv i best
      → PickInv lim (pick_rounds ps start n i best)
  unfolding pick_rounds
  pick_rounds-PickInv zero i lim best h e v =
      let e' : i ≡ lim = omega arith in subst (λ k. PickInv k best) e' v
  pick_rounds-PickInv (suc n) i lim best h e v =
      pick_rounds-PickInv n (i + 1) lim _ (omega arith) (omega arith)
        (pick_round-PickInv i best h v)

  -- What an index returned by the search is: the eligible process with the largest budget and, of
  -- those, the first one round from the slot after `start`.
  abbrev pub IsBestFrom : ℕ → Type 0
  IsBestFrom idx =
      (i : ℕ) × (1 ≤ i)
      × (i ≤ proc_max)
      × (idx ≡ slot start i)
      × (is_eligible_for_pick (proc_at ps idx) ≡ true)
      × ((j : ℕ)
          → 1 ≤ j
          → j ≤ proc_max
          → is_eligible_for_pick (proc_at ps (slot start j)) ≡ true
          → (proc_at ps (slot start j)).budget ≤ (proc_at ps idx).budget)
      × ((j : ℕ)
          → 1 ≤ j
          → j < i
          → is_eligible_for_pick (proc_at ps (slot start j)) ≡ true
          → (proc_at ps (slot start j)).budget < (proc_at ps idx).budget)

  abbrev pub NoneEligible : Type 0
  NoneEligible =
      (j : ℕ) → 1 ≤ j → j ≤ proc_max → is_eligible_for_pick (proc_at ps (slot start j)) ≡ false

  abbrev pub PickResult : Option ℕ → Type 0
  PickResult none = NoneEligible
  PickResult (some idx) = IsBestFrom idx

  PickInv-PickResult :
      (best : Option Best) → PickInv 9 best → PickResult (Option.map (λ (b : Best). b.idx) best)
  PickInv-PickResult none v = λ j p q. v j p (omega arith)
  PickInv-PickResult (some b) (i, v) =
      let budget : (proc_at ps b.idx).budget ≡ b.budget =
        ap (λ k. (proc_at ps k).budget) v.here ∙ v.its_budget in
      (
        i,
        v.from_one,
        omega (arith, v.in_time),
        v.here,
        ap (λ k. is_eligible_for_pick (proc_at ps k)) v.here ∙ v.eligible,
        (λ j p q t. omega (arith, v.largest j p (omega arith) t)),
        (λ j p q t. omega (arith, v.first j p q t)),
      )

  -- `pick_next_runnable_index` returns -1 only when none of the eight slots holds an eligible
  -- process; else it returns the eligible process with the largest budget, and of several such
  -- the first one round from the slot after `start`.
  pub pick_next_runnable_index-PickResult : PickResult (pick_next_runnable_index ps start)
  unfolding pick_next_runnable_index
  pick_next_runnable_index-PickResult =
      PickInv-PickResult _
        (pick_rounds-PickInv proc_max 1 9 none (omega arith) refl (λ j p q. absurd (omega arith)))
