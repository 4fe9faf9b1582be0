-- ===== src/Event.antt =====
-- kernel/event/event.c: the kernel event queue, a ring of 128 slots under a lock. Each function is
-- one critical section, so the lock and the interrupt flag need no model.
pub mod Spec
pub mod Refine
pub mod Run
mod Tests
use sugimotos.Prelude.{
  ℕ, ◌+◌, ◌%◌, ◌^◌, Bool, true, false, List, replicate, get_or, set, ◌==◌, if◌then◌else◌, add32,
}

-- `struct k_event`
pub record KEvent : Type 0 where
  pub type_ : ℕ
  pub a : ℕ
  pub b : ℕ
  pub c : ℕ
  pub d : ℕ
  pub seq : ℕ

abbrev pub kevent_q_cap : ℕ
kevent_q_cap = 128

abbrev pub zero_event : KEvent
zero_event = record { type_ = 0; a = 0; b = 0; c = 0; d = 0; seq = 0 }

-- `g_q`, `g_head`, `g_tail` and `g_seq`
pub record EventState : Type 0 where
  pub q : List KEvent
  pub head : ℕ
  pub tail : ℕ
  pub seq : ℕ

pub kevent_init : EventState → EventState
kevent_init s = record s { q = replicate kevent_q_cap zero_event; head = 0; tail = 0; seq = 0 }

-- The slot after `i`, round the ring.
abbrev pub next_slot : ℕ → ℕ
next_slot i = add32 i 1 % kevent_q_cap

-- It always returns 0. A full ring gives up its oldest event.
pub kevent_push : EventState → ℕ → ℕ → ℕ → ℕ → ℕ → EventState
kevent_push s type_ a b c d =
    let next = next_slot s.tail in
    record {
      q = set s.q s.tail (record { type_ = type_; a = a; b = b; c = c; d = d; seq = s.seq });
      head = if next == s.head then next_slot s.head else s.head;
      tail = next;
      seq = (s.seq + 1) % 2 ^ 64;
    }

-- What `kevent_pop` returns: -1, 0, or 1 with what it writes to `*out`.
pub data PopResult : Type 0 where
  invalid : PopResult
  empty : PopResult
  popped : KEvent → PopResult

-- The Boolean says whether `out` is not NULL.
pub kevent_pop : Bool → EventState → PopResult × EventState
kevent_pop false s = (invalid, s)
kevent_pop true s =
    if s.head == s.tail
    then (empty, s)
    else (popped (get_or s.q s.head zero_event), record s { head = next_slot s.head })
