-- ===== src/Vm/Untouched.antt =====
-- mm/vm.c: what a new page table leaves alone, and what it is.
use sugimotos.Prelude.{
  ℕ, ◌+◌, ◌-◌, ◌*◌, ◌%◌, ◌^◌, ◌<◌, ◌≡◌, ◌≢◌, Option, refl, ap, true, false, arith, page_size,
}
use sugimotos.PageAlloc.State.{IsAllocator, ref_of}
use sugimotos.Vm.{Machine, Memory, copy_page, in_page, vm_root_from_satp}
use sugimotos.Vm.Table.{vm_query_user_page}
use sugimotos.Vm.Tree.{entry_at, IsPointer, TablePage, SamePage}
use sugimotos.Vm.Space.{InUse, IsSpace}

-- From `s` to `t`, no page that was in use has lost a reference or changed a word.
pub record Untouched (ram top : ℕ) (s t : Machine) : Type 0 where
  pub allocator : IsAllocator ram top t.pages
  pub counts : (idx : ℕ) → ref_of s.pages idx ≢ 0 → ref_of t.pages idx ≡ ref_of s.pages idx
  pub words : (p : ℕ) → InUse ram s.pages p → SamePage s.memory t.memory p
  pub same_root_pt : t.kernel_root_pt ≡ s.kernel_root_pt

-- The kernel's table, which has 4 MiB pages only.
pub record IsKernel (ram : ℕ) (s : Machine) : Type 0 where
  pub space : IsSpace ram s s.kernel_root_pt
  pub flat : (i : ℕ) → i < 1024 → ¬ IsPointer (entry_at s.memory s.kernel_root_pt i)

-- The copy of a page reads as the page.
pub copy_page_in :
    (m : Memory) (to from i : ℕ)
    → i < 1024
    → entry_at (copy_page m to from) to i ≡ entry_at m from i
unfolding copy_page
copy_page_in m to from i h =
    let inside : in_page to (to + i * 4) ≡ true = ground arith in
    let place : from + (to + i * 4 - to) ≡ from + i * 4 = omega arith in rw inside (ap m place)

pub copy_page_out :
    (m : Memory) (p to from : ℕ)
    → p % page_size ≡ 0
    → to % page_size ≡ 0
    → p ≢ to
    → SamePage m (copy_page m to from) p
unfolding copy_page
copy_page_out m p to from a b n i h =
    let out : in_page to (p + i * 4) ≡ false = ground arith in rw out refl

-- A table of pages that were free, which translates to `view`.
pub record NewTable (ram : ℕ) (s : Machine) (satp : ℕ) (view : ℕ → Option (ℕ × ℕ)) (t : Machine)
    : Type 0 where
  pub nonzero : satp ≢ 0
  pub space : IsSpace ram t (vm_root_from_satp satp)
  pub new : (p : ℕ) → TablePage t.memory (vm_root_from_satp satp) p → ¬ InUse ram s.pages p
  pub translates : (a : ℕ) → a < 2 ^ 32 → vm_query_user_page t.memory satp a ≡ view a
