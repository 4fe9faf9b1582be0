-- ===== src/Sched/Yield.antt =====
-- kernel/process/sched.c: who runs after `yield`.
use sugimotos.Prelude.{
  ℕ, ◌+◌, ◌-◌, ◌%◌, ◌≤◌, ◌<◌, ◌≡◌, refl, sym, ap, ◌∙◌, true, false, List, map, Option, none, some,
  arith, inl, inr, get_or, get_or-map, get_or-set, Option-cases,
}
use sugimotos.Proc.{Process, Kernel, proc_at, proc_max, zero_process}
use sugimotos.Sched.{
  slot, is_schedulable, is_eligible_for_pick, pick_next_runnable_index, refill, refill_budgets,
  charge, choose, yield, yield_from, switch_to, or_idle,
}
use sugimotos.Sched.Pick.{PickResult, IsBestFrom, NoneEligible, pick_next_runnable_index-PickResult}

-- `q` is `p` but for the priority and the budget.
abbrev pub SameBut : Process → Process → Type 0
SameBut p q = q ≡ record p { priority = q.priority; budget = q.budget }

schedulable-SameBut : (p q : Process) → SameBut p q → is_schedulable q ≡ is_schedulable p
unfolding is_schedulable
schedulable-SameBut p q h = ground arith

SameBut-trans : (p q r : Process) → SameBut p q → SameBut q r → SameBut p r
SameBut-trans p q r h g = ground arith

SameBut-refill : (p : Process) → SameBut p (refill p)
unfolding refill
SameBut-refill p = ground arith

eligible-refill : (p : Process) → is_eligible_for_pick (refill p) ≡ is_schedulable p
unfolding refill is_schedulable is_eligible_for_pick
eligible-refill p = ground arith

refill-zero_process : refill zero_process ≡ zero_process
unfolding refill is_schedulable zero_process
refill-zero_process = refl

proc_at-refill_budgets :
    (ps : List Process) (j : ℕ) → proc_at (refill_budgets ps) j ≡ refill (proc_at ps j)
unfolding refill_budgets
proc_at-refill_budgets ps j =
    ap (get_or (map refill ps) j) (sym refill-zero_process) ∙ get_or-map refill ps j zero_process

SameBut-refill_budgets :
    (ps : List Process) (j : ℕ) → SameBut (proc_at ps j) (proc_at (refill_budgets ps) j)
SameBut-refill_budgets ps j = rw (proc_at-refill_budgets ps j) (SameBut-refill (proc_at ps j))

SameBut-charge :
    (ps : List Process) (cur j : ℕ) → SameBut (proc_at ps j) (proc_at (charge ps cur) j)
unfolding charge
SameBut-charge ps cur j =
    let p = proc_at ps cur in
    ground (arith, get_or-set ps cur j (record p { budget = p.budget - 1 }) zero_process)

-- Every slot is looked at in some round.
slot-round :
    (cur j : ℕ)
    → cur < proc_max
    → j < proc_max
    → (i : ℕ) × (1 ≤ i) × (i ≤ proc_max) × (slot cur i ≡ j)
slot-round cur j h g = ((j + 7 - cur) % 8 + 1, omega arith, omega arith, omega arith)

-- A search for the runnable process after a refill finds one if there is one.
none_schedulable :
    (ps : List Process) (cur : ℕ)
    → cur < proc_max
    → NoneEligible (refill_budgets ps) cur
    → (j : ℕ) → j < proc_max
    → is_schedulable (proc_at ps j) ≡ false
none_schedulable ps cur h v j g =
    let (i, p, q, e) = slot-round cur j h g in
    sym (eligible-refill (proc_at ps j))
    ∙ ap is_eligible_for_pick (sym (proc_at-refill_budgets ps j))
    ∙ ap (λ k. is_eligible_for_pick (proc_at (refill_budgets ps) k)) (sym e)
    ∙ v i p q

-- What `choose` hands on: a schedulable process, or the news that there is none.
abbrev ChooseResult : List Process → List Process × Option ℕ → Type 0
ChooseResult ps (qs, none) = (j : ℕ) → j < proc_max → is_schedulable (proc_at ps j) ≡ false
ChooseResult ps (qs, some n) = (n < proc_max) × (is_schedulable (proc_at qs n) ≡ true)

eligible→schedulable : (p : Process) → is_eligible_for_pick p ≡ true → is_schedulable p ≡ true
unfolding is_eligible_for_pick
eligible→schedulable p h = ground arith

best→schedulable :
    (ps : List Process) (cur n : ℕ)
    → IsBestFrom ps cur n
    → (n < proc_max) × (is_schedulable (proc_at ps n) ≡ true)
best→schedulable ps cur n (i, p, q, e, h, _, _) =
    (omega arith, eligible→schedulable (proc_at ps n) h)

choose-ChooseResult :
    (ps : List Process) (cur : ℕ) → cur < proc_max → ChooseResult ps (choose ps cur)
unfolding choose
choose-ChooseResult ps cur h =
    first (pick_next_runnable_index ps cur) (pick_next_runnable_index-PickResult ps cur)
  where
    second :
        (r : Option ℕ)
        → PickResult (refill_budgets ps) cur r
        → ChooseResult ps (refill_budgets ps, r)
    second none v = none_schedulable ps cur h v
    second (some n) v = best→schedulable (refill_budgets ps) cur n v

    first :
        (r : Option ℕ)
        → PickResult ps cur r
        → ChooseResult ps (elim r [
          | some i ↦ (ps, some i)
          | none ↦ (refill_budgets ps, pick_next_runnable_index (refill_budgets ps) cur)
        ])
    first none v =
        second (pick_next_runnable_index (refill_budgets ps) cur)
          (pick_next_runnable_index-PickResult (refill_budgets ps) cur)
    first (some n) v = best→schedulable ps cur n v

switch_to-next :
    (k : Kernel) (ps : List Process) (cur : ℕ) (next : Option ℕ)
    → k.current_proc ≡ some cur
    → ((switch_to k ps cur next).current_proc ≡ next) × ((switch_to k ps cur next).procs ≡ ps)
unfolding switch_to
switch_to-next k ps cur none e = (refl, refl)
switch_to-next k ps cur (some i) e = ground arith

yield_current : (k : Kernel) (cur : ℕ) → k.current_proc ≡ some cur → yield k ≡ yield_from k cur
unfolding yield
yield_current k cur e =
    ap {A = Option ℕ} {B = Kernel} (λ o. elim o [ none ↦ k | some c ↦ yield_from k c ]) e

SameBut-choose :
    (ps : List Process) (cur j : ℕ) → SameBut (proc_at ps j) (proc_at (choose ps cur).0 j)
unfolding choose
SameBut-choose ps cur j = go (pick_next_runnable_index ps cur)
  where
    go :
        (r : Option ℕ)
        → let c : List Process × Option ℕ = elim r [
          | some i ↦ (ps, some i)
          | none ↦ (refill_budgets ps, pick_next_runnable_index (refill_budgets ps) cur)
        ] in
          SameBut (proc_at ps j) (proc_at c.0 j)
    go none = SameBut-refill_budgets ps j
    go (some i) = refl

-- The table that `yield` leaves, once the process to run is chosen.
SameBut-chosen :
    (ps : List Process) (cur j : ℕ)
    → SameBut (proc_at ps j) (proc_at (choose (charge ps cur) cur).0 j)
SameBut-chosen ps cur j =
    SameBut-trans (proc_at ps j) (proc_at (charge ps cur) j)
      (proc_at (choose (charge ps cur) cur).0 j) (SameBut-charge ps cur j)
      (SameBut-choose (charge ps cur) cur j)

yield_idle : (k : Kernel) → k.current_proc ≡ none → yield k ≡ k
unfolding yield
yield_idle k e =
    ap {A = Option ℕ} {B = Kernel} (λ o. elim o [ none ↦ k | some c ↦ yield_from k c ]) e

-- While a process is runnable, `yield` leaves the processor to a runnable process of the table.
pub yield_runs :
    (k : Kernel) (cur j : ℕ)
    → k.current_proc ≡ some cur
    → cur < proc_max
    → j < proc_max
    → is_schedulable (proc_at k.procs j) ≡ true
    → (n : ℕ) × (n < proc_max)
      × ((yield k).current_proc ≡ some n)
      × (is_schedulable (proc_at (yield k).procs n) ≡ true)
unfolding yield_from
yield_runs k cur j e h g s =
    rw (yield_current k cur e) (go (choose ps cur) (choose-ChooseResult ps cur h))
  where
    ps : List Process
    ps = charge k.procs cur

    go :
        (r : List Process × Option ℕ)
        → ChooseResult ps r
        → let k' = switch_to k r.0 cur (or_idle r.1 k.idle_proc) in
          (n : ℕ) × (n < proc_max)
          × (k'.current_proc ≡ some n)
          × (is_schedulable (proc_at k'.procs n) ≡ true)
    go (qs, none) v =
        let same : is_schedulable (proc_at (charge k.procs cur) j)
            ≡ is_schedulable (proc_at k.procs j) =
          schedulable-SameBut _ _ (SameBut-charge k.procs cur j) in
        absurd (ground (arith, v j g))
    go (qs, some n) (p, t) =
        let (c, d) = switch_to-next k qs cur (some n) e in
        (n, p, c, ap (λ l. is_schedulable (proc_at l n)) d ∙ t)

-- With no runnable process `yield` goes to the idle process.
pub yield_idles :
    (k : Kernel) (cur : ℕ)
    → k.current_proc ≡ some cur
    → cur < proc_max
    → ((j : ℕ) → j < proc_max → is_schedulable (proc_at k.procs j) ≡ false)
    → (yield k).current_proc ≡ k.idle_proc
unfolding yield_from
yield_idles k cur e h s =
    rw (yield_current k cur e) (go (choose ps cur) refl (choose-ChooseResult ps cur h))
  where
    ps : List Process
    ps = charge k.procs cur

    go :
        (r : List Process × Option ℕ)
        → choose ps cur ≡ r
        → ChooseResult ps r
        → (switch_to k r.0 cur (or_idle r.1 k.idle_proc)).current_proc ≡ k.idle_proc
    go (qs, none) x v = (switch_to-next k qs cur k.idle_proc e).0
    go (qs, some n) x (p, t) =
        let same : is_schedulable (proc_at (choose ps cur).0 n)
            ≡ is_schedulable (proc_at k.procs n) =
          schedulable-SameBut _ _ (SameBut-chosen k.procs cur n) in
        let found : is_schedulable (proc_at (choose ps cur).0 n) ≡ is_schedulable (proc_at qs n) =
          ap (λ (r : List Process × Option ℕ). is_schedulable (proc_at r.0 n)) x in
        absurd (ground (arith, s n p))

-- `yield` changes nothing of any process but its priority and its budget.
pub yield_keeps : (k : Kernel) (j : ℕ) → SameBut (proc_at k.procs j) (proc_at (yield k).procs j)
unfolding yield_from
yield_keeps k j = elim (Option-cases k.current_proc) [
  | inl e ↦ rw (yield_idle k e) refl
  | inr (cur, e) ↦ rw (yield_current k cur e) (
      rw
        (switch_to-next k (choose (charge k.procs cur) cur).0 cur
          (or_idle (choose (charge k.procs cur) cur).1 k.idle_proc) e).1
        (SameBut-chosen k.procs cur j))
]
