-- ===== src/Waitq/Wake.antt =====
-- kernel/process/waitq.c: what `waitq_wake_all` does, and that no wake-up is lost.
use sugimotos.Prelude.{
  ℕ, ◌≡◌, refl, ap, ◌∙◌, Bool, true, false, ◌&&◌, ◌||◌, List, [], ◌∷◌, none, some, arith,
  Bool-cases, inl, inr, ◌==◌, if◌then◌else◌, get_or-set,
}
use sugimotos.Proc.{Process, runnable, is_blocked, proc_at, zero_process}
use sugimotos.Waitq.{
  Waiters, World, waitq_contains, set_state, wake_if_blocked, wake_list, clear_all, waitq_wake_all,
  sleep_begin, waitq_sleep, sleep_end, same_proc,
}

-- A process that is woken if `b` holds.
abbrev pub woken : Bool → Process → Process
woken b p = if b && is_blocked p.state then record p { state = runnable } else p

wake_if_blocked-woken :
    (ps : List Process) (i j : ℕ) → proc_at (wake_if_blocked ps i) j ≡ woken (i == j) (proc_at ps j)
unfolding set_state zero_process
wake_if_blocked-woken ps i j = elim (Bool-cases (is_blocked (proc_at ps i).state)) [
  | inl e ↦
      rw e (
        ground (arith, get_or-set ps i j (record (proc_at ps i) { state = runnable }) zero_process))
  | inr e ↦ rw e (ground arith)
]

woken-woken : (a b : Bool) (p : Process) → woken a (woken b p) ≡ woken (b || a) p
woken-woken a b p = ground arith

wake_list-woken :
    (ws : Waiters) (ps : List Process) (j : ℕ)
    → proc_at (wake_list ps ws) j ≡ woken (waitq_contains ws j) (proc_at ps j)
unfolding wake_list waitq_contains
wake_list-woken [] ps j = refl
wake_list-woken (none ∷ ws) ps j = wake_list-woken ws ps j
wake_list-woken (some i ∷ ws) ps j =
    wake_list-woken ws (wake_if_blocked ps i) j
    ∙ ap (woken (waitq_contains ws j)) (wake_if_blocked-woken ps i j)
    ∙ woken-woken (waitq_contains ws j) (i == j) (proc_at ps j)
    ∙ ground arith

clear_all_empty : (ws : Waiters) (j : ℕ) → waitq_contains (clear_all ws) j ≡ false
unfolding clear_all waitq_contains
clear_all_empty [] j = refl
clear_all_empty (w ∷ ws) j = clear_all_empty ws j

-- `waitq_wake_all` makes each blocked process of the queue runnable, changes no other process and
-- no other field, and leaves the queue empty.
pub waitq_wake_all_lem :
    (w : World) (j : ℕ)
    → let w' = waitq_wake_all true w in
      (proc_at w'.kernel.procs j ≡ woken (waitq_contains w.waiters j) (proc_at w.kernel.procs j))
      × (waitq_contains w'.waiters j ≡ false)
unfolding waitq_wake_all
waitq_wake_all_lem w j = (wake_list-woken w.waiters w.kernel.procs j, clear_all_empty w.waiters j)

-- A process that slept is not blocked when `waitq_sleep` returns to it, whoever woke it and
-- whatever ran meanwhile.
pub waitq_sleep_awake :
    (resume : World → World) (w : World) (cur : ℕ)
    → w.kernel.current_proc ≡ some cur
    → same_proc w.kernel.idle_proc cur ≡ false
    → (resume (sleep_begin w cur)).kernel.current_proc ≡ some cur
    → is_blocked (proc_at (waitq_sleep resume true w).kernel.procs cur).state ≡ false
unfolding waitq_sleep sleep_end
waitq_sleep_awake resume w cur e n back =
    rw (e, waitq_sleep) (rw n (rw (back, sleep_end) (unblocked (resume (sleep_begin w cur)))))
  where
    unblocked :
        (v : World) → is_blocked (proc_at (wake_if_blocked v.kernel.procs cur) cur).state ≡ false
    unblocked v = ground (arith, wake_if_blocked-woken v.kernel.procs cur cur)
