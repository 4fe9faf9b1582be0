-- ===== src/Event/Spec.antt =====
-- The abstract queue of kernel/event/event.c: at most 127 events, oldest first, which drops its
-- oldest event to take a new one.
use sugimotos.Prelude.{
  ℕ, ◌+◌, ◌%◌, ◌^◌, List, [], ◌∷◌, ◌++◌, length, ◌==◌, if◌then◌else◌, Bool, true, false,
}
use sugimotos.Event.{KEvent, PopResult, invalid, empty, popped}

pub record Fifo : Type 0 where
  pub items : List KEvent
  pub seq : ℕ

unfoldable pub drop_oldest : List KEvent → List KEvent
drop_oldest [] = []
drop_oldest (x ∷ xs) = xs

unfoldable pub push : Fifo → ℕ → ℕ → ℕ → ℕ → ℕ → Fifo
push f type_ a b c d =
    let kept = if length f.items == 127 then drop_oldest f.items else f.items in
    record {
      items = kept ++ record { type_ = type_; a = a; b = b; c = c; d = d; seq = f.seq } ∷ [];
      seq = (f.seq + 1) % 2 ^ 64;
    }

take_oldest : List KEvent → ℕ → PopResult × Fifo
take_oldest [] n = (empty, record { items = []; seq = n })
take_oldest (x ∷ xs) n = (popped x, record { items = xs; seq = n })

unfoldable pub pop : Bool → Fifo → PopResult × Fifo
unfolding take_oldest
pop false f = (invalid, f)
pop true f = take_oldest f.items f.seq
