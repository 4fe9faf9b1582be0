-- ===== src/Event/Tests.antt =====
-- Runs of kernel/event/event.c at concrete inputs.
use sugimotos.Prelude.{◌≡◌, refl, true, false, List, [], ◌∷◌, replicate, length-replicate, arith}
use sugimotos.Event.{
  EventState, invalid, empty, popped, kevent_q_cap, zero_event, kevent_init, kevent_push,
  kevent_pop,
}
use sugimotos.Event.Refine.{IsValid, view}
use sugimotos.Event.Run.{
  Call, pushes, pops, run, run_spec, run_refines, RisingResults, run-kevent_init-RisingResults,
}

abbrev blank : EventState
blank = record { q = replicate kevent_q_cap zero_event; head = 0; tail = 0; seq = 0 }

-- The ring after 127 pushes: full.
abbrev full_ring : EventState
full_ring = record { q = replicate kevent_q_cap zero_event; head = 1; tail = 0; seq = 127 }

full_ring-IsValid : IsValid full_ring
full_ring-IsValid = omega (arith, length-replicate kevent_q_cap zero_event)

blank-IsValid : IsValid blank
blank-IsValid = omega (arith, length-replicate kevent_q_cap zero_event)

abbrev calls : List Call
calls =
    pops true
    ∷ pushes 1 2 3 4 5
    ∷ pushes 2 0 0 0 0
    ∷ pops false
    ∷ pops true
    ∷ pops true
    ∷ pops true
    ∷ []

run-calls :
    run blank calls
    ≡ empty
      ∷ invalid
      ∷ popped (record { type_ = 1; a = 2; b = 3; c = 4; d = 5; seq = 0 })
      ∷ popped (record { type_ = 2; a = 0; b = 0; c = 0; d = 0; seq = 1 })
      ∷ empty
      ∷ []
unfolding run kevent_push kevent_pop
run-calls = refl

-- A push on a full ring moves the head on.
full_ring_drops : (kevent_push full_ring 9 0 0 0 0).head ≡ 2
unfolding kevent_push
full_ring_drops = refl

run_refines_example : run blank calls ≡ run_spec (view blank) calls
run_refines_example = run_refines calls blank blank-IsValid

run-kevent_init-RisingResults_example : RisingResults 0 (run (kevent_init full_ring) calls)
run-kevent_init-RisingResults_example = run-kevent_init-RisingResults full_ring calls (omega arith)
