-- ===== src/Waitq/Tests.antt =====
-- Runs of kernel/process/waitq.c.
use sugimotos.Prelude.{◌≡◌, refl, [], ◌∷◌, none, some}
use sugimotos.Proc.{Process, Kernel, runnable, zero_process}
use sugimotos.Waitq.{World, Waiters, waitq_contains, enqueue, put_first_free, sleep_begin}

abbrev running : Process
running = record zero_process { pid = 1; state = runnable; priority = 1; budget = 1 }

abbrev kernel : Kernel
kernel = record {
  procs = running ∷ running ∷ running ∷ running ∷ running ∷ running ∷ running ∷ running ∷ [];
  current_proc = some 2;
  idle_proc = some 0;
  satp = 0;
}

-- Two processes wait, with a free place between them.
abbrev queue : Waiters
queue = some 5 ∷ none ∷ some 1 ∷ none ∷ none ∷ none ∷ none ∷ none ∷ []

abbrev world : World
world = record { kernel = kernel; waiters = queue }

takes_first_free :
    (sleep_begin world 2).waiters ≡ some 5 ∷ some 2 ∷ some 1 ∷ none ∷ none ∷ none ∷ none ∷ none ∷ []
unfolding sleep_begin enqueue put_first_free waitq_contains
takes_first_free = refl
