-- ===== src/UserSpace.antt =====
-- mm/process_vm.c: the calls that change the page table of a process and the references of its pages.
-- The areas themselves are in Vma, the page tables in Vm.
pub mod Calls
pub mod Outside
pub mod Place
pub mod Fault
pub mod Cow
pub mod Serve
mod Tests
use sugimotos.Prelude.{ℕ, ◌+◌, Bool, true, false, Option, none, some}
use sugimotos.PageAlloc.{Allocator, Outcome, panic, returns}
use sugimotos.PageAlloc.Calls.{free_pages, page_inc_ref, page_dec_ref}
use sugimotos.Vma.{Pages}
use sugimotos.Vm.{Machine}
use sugimotos.Vm.Table.{vm_query_user_page, vm_unmap_user_page}

-- The rest of a call that may panic.
abbrev pub then_do {ℓ κ} : {A : Type ℓ} {B : Type κ} → Outcome A → (A → Outcome B) → Outcome B
then_do panic k = panic
then_do (returns a) k = k a

-- The calls of the page allocator, with the memory around them.
abbrev pub with_pages : Machine → Outcome Allocator → Outcome Machine
with_pages s o = then_do o λ pages. returns (record s { pages = pages })

module _ (free_ram free_ram_end : ℕ) where
  abbrev pub free_page : Machine → ℕ → Outcome Machine
  free_page s pa = with_pages s (free_pages free_ram free_ram_end s.pages pa 1)

  abbrev pub inc_ref : Machine → ℕ → Outcome Machine
  inc_ref s pa = with_pages s (page_inc_ref free_ram free_ram_end s.pages pa)

  abbrev pub dec_ref : Machine → ℕ → Outcome Machine
  dec_ref s pa = with_pages s (page_dec_ref free_ram free_ram_end s.pages pa)

  -- The page tables and the allocator as `proc_munmap` and `proc_mmap` use them. After a panic there is
  -- no machine to look at.
  abbrev query_outcome : Outcome Machine → ℕ → ℕ → Option ℕ
  query_outcome panic satp va = none
  query_outcome (returns s) satp va = elim (vm_query_user_page s.memory satp va) [
    | none ↦ none
    | some (pa, _) ↦ some pa
  ]

  abbrev unmap_outcome : Outcome Machine → ℕ → ℕ → Option (Outcome Machine)
  unmap_outcome panic satp va = none
  unmap_outcome (returns s) satp va =
      let (memory, ok) = vm_unmap_user_page s.memory satp va in
      elim ok [ true ↦ some (returns (record s { memory = memory })) | false ↦ none ]

  pub machine_pages : Pages (Outcome Machine)
  machine_pages = record {
    query_user_page = query_outcome;
    unmap_user_page = unmap_outcome;
    free_page = λ o pa. then_do o λ s. free_page s pa;
  }
