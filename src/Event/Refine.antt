-- ===== src/Event/Refine.antt =====
-- kernel/event/event.c refines the abstract queue of Event/Spec.antt.
use sugimotos.Prelude.{
  ℕ, zero, suc, ◌+◌, ◌-◌, ◌%◌, ◌<◌, ◌≡◌, ◌≢◌, refl, ap, Bool, true, false, List, [], ◌∷◌, ◌++◌,
  length, get_or, set, arith, get_or-set_self, get_or-set_ne, length-set, length-replicate,
}
use sugimotos.Event.{
  KEvent, EventState, kevent_q_cap, zero_event, kevent_init, kevent_push, kevent_pop, next_slot,
}
use sugimotos.Event.Spec.{Fifo, drop_oldest}
use sugimotos.Event.Spec

-- The `n` events from slot `h` on, round the ring.
abbrev pub window : List KEvent → ℕ → ℕ → List KEvent
window q h zero = []
window q h (suc n) = get_or q h zero_event ∷ window q ((h + 1) % kevent_q_cap) n

-- How many events the ring holds.
abbrev pub held : EventState → ℕ
held s = (s.tail + kevent_q_cap - s.head) % kevent_q_cap

abbrev pub view : EventState → Fifo
view s = record { items = window s.q s.head (held s); seq = s.seq }

pub record IsValid (s : EventState) : Type 0 where
  pub slots : length s.q ≡ kevent_q_cap
  pub head_in : s.head < kevent_q_cap
  pub tail_in : s.tail < kevent_q_cap

pub kevent_init-IsValid : (s : EventState) → IsValid (kevent_init s)
unfolding kevent_init
kevent_init-IsValid s = omega (arith, length-replicate kevent_q_cap zero_event)

pub kevent_push-IsValid :
    (s : EventState) (t a b c d : ℕ) → IsValid s → IsValid (kevent_push s t a b c d)
unfolding kevent_push
kevent_push-IsValid s t a b c d v =
    ground
      (arith, length-set s.q s.tail (record { type_ = t; a = a; b = b; c = c; d = d; seq = s.seq }))

pub kevent_pop-IsValid : (out : Bool) (s : EventState) → IsValid s → IsValid (kevent_pop out s).1
unfolding kevent_pop
kevent_pop-IsValid false s v = v
kevent_pop-IsValid true s v = ground arith

pub length-window : (q : List KEvent) (h n : ℕ) → length (window q h n) ≡ n
length-window q h zero = refl
length-window q h (suc n) = ap suc (length-window q ((h + 1) % kevent_q_cap) n)

-- Writing just past a window extends it by that event.
window-set :
    (q : List KEvent) (x : KEvent) (n h i : ℕ)
    → length q ≡ kevent_q_cap
    → h < kevent_q_cap
    → n < kevent_q_cap
    → i ≡ (h + n) % kevent_q_cap
    → window (set q i x) h (suc n) ≡ window q h n ++ x ∷ []
window-set q x zero h i hq hh hn e =
    let here : h ≡ i = omega arith in
    ap (λ y. y ∷ []) (rw (here, get_or-set_self q i x zero_event (omega arith)))
window-set q x (suc n) h i hq hh hn e =
    let apart : i ≢ h = omega arith in
    rw (get_or-set_ne q i h x zero_event apart) (
      ap (λ l. get_or q h zero_event ∷ l)
        (window-set q x n ((h + 1) % kevent_q_cap) i hq (omega arith) (omega arith) (omega arith)))

window-drop :
    (q : List KEvent) (h n : ℕ)
    → drop_oldest (window q h (suc n)) ≡ window q ((h + 1) % kevent_q_cap) n
unfolding drop_oldest
window-drop q h n = refl

-- A ring of 127 events: the oldest one goes.
push_full :
    (s : EventState) (x : KEvent)
    → IsValid s
    → next_slot s.tail ≡ s.head
    → window
        (set s.q s.tail x)
        (next_slot s.head)
        ((next_slot s.tail + kevent_q_cap - next_slot s.head) % kevent_q_cap)
      ≡ drop_oldest (window s.q s.head (held s)) ++ x ∷ []
push_full s x v e =
    let new : (next_slot s.tail + kevent_q_cap - next_slot s.head) % kevent_q_cap ≡ 127 =
      omega arith in
    let old : held s ≡ 127 = omega arith in
    let slot : next_slot s.head ≡ (s.head + 1) % kevent_q_cap = omega arith in
    rw (new, old, slot)
      (rw (window-drop s.q s.head 126) (
        window-set s.q x 126 ((s.head + 1) % kevent_q_cap) s.tail v.slots (omega arith)
          (omega arith) (omega arith)))

-- A ring with room.
push_room :
    (s : EventState) (x : KEvent)
    → IsValid s
    → next_slot s.tail ≢ s.head
    → window (set s.q s.tail x) s.head ((next_slot s.tail + kevent_q_cap - s.head) % kevent_q_cap)
      ≡ window s.q s.head (held s) ++ x ∷ []
push_room s x v e =
    let new : (next_slot s.tail + kevent_q_cap - s.head) % kevent_q_cap ≡ suc (held s) =
      omega arith in
    rw new (window-set s.q x (held s) s.head s.tail v.slots v.head_in (omega arith) (omega arith))

-- `kevent_push` is `Spec.push`.
pub kevent_push_refines :
    (s : EventState) (t a b c d : ℕ)
    → IsValid s
    → view (kevent_push s t a b c d) ≡ Spec.push (view s) t a b c d
unfolding kevent_push Spec.push
kevent_push_refines s t a b c d v = ground (
  arith,
  length-window s.q s.head (held s),
  push_full s (record { type_ = t; a = a; b = b; c = c; d = d; seq = s.seq }) v,
  push_room s (record { type_ = t; a = a; b = b; c = c; d = d; seq = s.seq }) v,
)

window_of_ne_zero :
    (q : List KEvent) (h n : ℕ)
    → n ≢ 0
    → window q h n ≡ get_or q h zero_event ∷ window q ((h + 1) % kevent_q_cap) (n - 1)
window_of_ne_zero q h zero p = absurd (p refl)
window_of_ne_zero q h (suc n) p = ap (λ k. window q h (suc k)) (omega arith)

-- `kevent_pop` is `Spec.pop`.
pub kevent_pop_refines :
    (out : Bool) (s : EventState)
    → IsValid s
    → let (r, s') = kevent_pop out s in (r, view s') ≡ Spec.pop out (view s)
unfolding kevent_pop Spec.pop
kevent_pop_refines false s v = refl
kevent_pop_refines true s v = ground (arith, window_of_ne_zero s.q s.head (held s))
