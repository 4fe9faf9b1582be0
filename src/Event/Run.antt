-- ===== src/Event/Run.antt =====
-- Whole histories of calls of kernel/event/event.c, against those of the abstract queue.
use sugimotos.Prelude.{
  ℕ, suc, ◌+◌, ◌^◌, ◌≤◌, ◌<◌, ◌≡◌, refl, Bool, true, false, List, [], ◌∷◌, ◌++◌, length, arith,
  ◌==◌, ◌%◌, if◌then◌else◌,
}
use sugimotos.Event.{
  KEvent, EventState, PopResult, invalid, empty, popped, kevent_init, kevent_push, kevent_pop,
}
use sugimotos.Event.Spec.{Fifo, drop_oldest}
use sugimotos.Event.Spec
use sugimotos.Event.Refine.{
  IsValid, view, kevent_init-IsValid, kevent_push-IsValid, kevent_pop-IsValid, kevent_push_refines,
  kevent_pop_refines,
}

-- A call of the queue. The Boolean of `pops` says whether `out` is not NULL.
pub data Call : Type 0 where
  pushes : ℕ → ℕ → ℕ → ℕ → ℕ → Call
  pops : Bool → Call

-- The results of the `kevent_pop` calls, in order.
unfoldable pub run : EventState → List Call → List PopResult
run s [] = []
run s (pushes t a b c d ∷ cs) = run (kevent_push s t a b c d) cs
run s (pops out ∷ cs) = let (r, s') = kevent_pop out s in r ∷ run s' cs

unfoldable pub run_spec : Fifo → List Call → List PopResult
run_spec f [] = []
run_spec f (pushes t a b c d ∷ cs) = run_spec (Spec.push f t a b c d) cs
run_spec f (pops out ∷ cs) = let (r, f') = Spec.pop out f in r ∷ run_spec f' cs

-- No history of calls tells a valid ring from the abstract queue of the events that it holds: each
-- `kevent_pop` returns the same code and the same event.
pub run_refines : (cs : List Call) (s : EventState) → IsValid s → run s cs ≡ run_spec (view s) cs
unfolding run run_spec
run_refines [] s v = refl
run_refines (pushes t a b c d ∷ cs) s v = rw (
  run_refines cs (kevent_push s t a b c d) (kevent_push-IsValid s t a b c d v),
  kevent_push_refines s t a b c d v,
)
run_refines (pops out ∷ cs) s v =
    rw (
      run_refines cs (kevent_pop out s).1 (kevent_pop-IsValid out s v),
      ← kevent_pop_refines out s v,
    )

-- The sequence numbers rise, from `lo` on and below `hi`.
abbrev pub Rising : ℕ → ℕ → List KEvent → Type 0
Rising lo hi [] = lo ≤ hi
Rising lo hi (x ∷ xs) = (lo ≤ x.seq) × Rising (suc x.seq) hi xs

Rising-le : (lo hi : ℕ) (xs : List KEvent) → Rising lo hi xs → lo ≤ hi
Rising-le lo hi [] r = r
Rising-le lo hi (x ∷ xs) r = omega (arith, Rising-le (suc x.seq) hi xs r.1)

Rising-append :
    (lo hi : ℕ) (xs : List KEvent) (x : KEvent)
    → Rising lo hi xs
    → x.seq ≡ hi
    → Rising lo (suc hi) (xs ++ x ∷ [])
Rising-append lo hi [] x r e = omega arith
Rising-append lo hi (y ∷ ys) x r e = (r.0, Rising-append (suc y.seq) hi ys x r.1 e)

Rising-drop_oldest :
    (lo hi : ℕ) (xs : List KEvent) → Rising lo hi xs → Rising lo hi (drop_oldest xs)
unfolding drop_oldest
Rising-drop_oldest lo hi [] r = r
Rising-drop_oldest lo hi (x ∷ []) r = omega arith
Rising-drop_oldest lo hi (x ∷ y ∷ ys) r = (omega arith, r.1.1)

-- The events popped rise in their sequence numbers, from `lo` on.
abbrev pub RisingResults : ℕ → List PopResult → Type 0
RisingResults lo [] = Unit {0}
RisingResults lo (popped x ∷ rs) = (lo ≤ x.seq) × RisingResults (suc x.seq) rs
RisingResults lo (empty ∷ rs) = RisingResults lo rs
RisingResults lo (invalid ∷ rs) = RisingResults lo rs

kept-Rising :
    (full : Bool) (lo hi : ℕ) (xs : List KEvent)
    → Rising lo hi xs
    → Rising lo hi (if full then drop_oldest xs else xs)
kept-Rising true lo hi xs r = Rising-drop_oldest lo hi xs r
kept-Rising false lo hi xs r = r

push-Rising :
    (f : Fifo) (t a b c d lo : ℕ)
    → suc f.seq < 2 ^ 64
    → Rising lo f.seq f.items
    → let g = Spec.push f t a b c d in (g.seq ≡ suc f.seq) × Rising lo g.seq g.items
unfolding Spec.push
push-Rising f t a b c d lo h r =
    let e : (f.seq + 1) % 2 ^ 64 ≡ suc f.seq = omega arith in
    (
      e,
      rw e (
          Rising-append lo f.seq _ _ (kept-Rising (length f.items == 127) lo f.seq f.items r) refl),
    )

run_spec-RisingResults :
    (cs : List Call) (xs : List KEvent) (n lo : ℕ)
    → n + length cs < 2 ^ 64
    → Rising lo n xs
    → RisingResults lo (run_spec (record { items = xs; seq = n }) cs)
unfolding run_spec Spec.pop
run_spec-RisingResults [] xs n lo h r = tt
run_spec-RisingResults (pushes t a b c d ∷ cs) xs n lo h r =
    let f : Fifo = record { items = xs; seq = n } in
    let g = Spec.push f t a b c d in
    let (e, r') = push-Rising f t a b c d lo (omega arith) r in
    run_spec-RisingResults cs g.items g.seq lo (omega arith) r'
run_spec-RisingResults (pops false ∷ cs) xs n lo h r =
    run_spec-RisingResults cs xs n lo (omega arith) r
run_spec-RisingResults (pops true ∷ cs) [] n lo h r =
    run_spec-RisingResults cs [] n lo (omega arith) r
run_spec-RisingResults (pops true ∷ cs) (x ∷ xs) n lo h r =
    (r.0, run_spec-RisingResults cs xs n (suc x.seq) (omega arith) r.1)

-- After `kevent_init`, in fewer than 2 ^ 64 calls, the events that `kevent_pop` hands out come in
-- strictly rising order of their sequence numbers: none comes twice, and none overtakes another,
-- also where pushes on a full ring dropped some.
pub run-kevent_init-RisingResults :
    (s : EventState) (cs : List Call)
    → length cs < 2 ^ 64
    → RisingResults 0 (run (kevent_init s) cs)
unfolding kevent_init
run-kevent_init-RisingResults s cs h =
    rw (run_refines cs (kevent_init s) (kevent_init-IsValid s))
      (run_spec-RisingResults cs [] 0 0 (omega arith) (omega arith))
