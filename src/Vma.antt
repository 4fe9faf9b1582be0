-- ===== src/Vma.antt =====
-- mm/process_vm.c: the areas of a process's address space (VMAs). The page table and the page
-- allocator behind `proc_munmap` are an interface.
pub mod Table
pub mod Munmap
pub mod Mmap
pub mod Inv
pub mod Search
pub mod Range
pub mod Add
pub mod Shrink
pub mod Trim
pub mod Cut
pub mod Unmap
pub mod Unmapped
pub mod Free
pub mod Mapped
pub mod User
pub mod Pointers
pub mod Init
mod Tests
use sugimotos.Prelude.{
  ℕ, zero, suc, ◌+◌, ◌-◌, ◌*◌, ◌/◌, ◌%◌, Bool, true, false, List, Option, none, some, get_or, ◌==◌,
  add32, page_size,
}
use sugimotos.Proc.{UserVma, no_vma}

abbrev pub user_mmap_base : ℕ
user_mmap_base = 0x20000000

abbrev pub user_mmap_end : ℕ
user_mmap_end = 0x3f000000

abbrev pub vma_prot_r : ℕ
vma_prot_r = 1

abbrev pub vma_prot_w : ℕ
vma_prot_w = 2

abbrev pub vma_prot_x : ℕ
vma_prot_x = 4

abbrev pub map_fixed : ℕ
map_fixed = 4

abbrev pub vma_at : List UserVma → ℕ → UserVma
vma_at vs i = get_or vs i no_vma

-- `is_aligned(value, PAGE_SIZE)`
abbrev pub is_aligned : ℕ → Bool
is_aligned a = a % page_size == 0

-- `value & ~(PAGE_SIZE - 1)`
unfoldable pub page_floor : ℕ → ℕ
page_floor a = a / page_size * page_size

unfoldable pub page_ceil : ℕ → ℕ
page_ceil a = page_floor (add32 a (page_size - 1))

-- What `proc_munmap` uses of mm/vm.c and mm/page_alloc.c, over a memory `M`: the physical page that
-- a virtual one is mapped to, the memory with that mapping gone, and with a physical page free.
pub record Pages (M : Type 0) : Type 0 where
  pub query_user_page : M → ℕ → ℕ → Option ℕ
  pub unmap_user_page : M → ℕ → ℕ → Option M
  pub free_page : M → ℕ → M
