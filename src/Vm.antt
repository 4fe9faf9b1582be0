-- ===== src/Vm.antt =====
-- mm/vm.c: the Sv32 page tables of the kernel and of the user processes, in physical memory. The
-- memory is a function from addresses to the words there; a `uint32_t *` is an address.
pub mod Table
pub mod Build
pub mod Entry
pub mod Tree
pub mod Write
pub mod Split
pub mod Space
pub mod NewPage
pub mod Level
pub mod Map
pub mod UserPage
pub mod Range
pub mod User
pub mod Kernel
pub mod Untouched
pub mod Built
pub mod Init
pub mod Isolation
pub mod Sample
mod Tests
use sugimotos.Prelude.{
  ℕ, ◌+◌, ◌-◌, ◌*◌, ◌/◌, ◌%◌, Bool, not, ◌&&◌, ltb, leb, ◌==◌, if◌then◌else◌, bit_or, u32,
  page_size,
}
use sugimotos.Prelude.Bits.{has_bit}
use sugimotos.PageAlloc.{Allocator}

abbrev pub Memory : Type 0
Memory = ℕ → ℕ

-- The memory, the page allocator over it and the static variables of mm/vm.c. The allocator's own
-- nodes and counts also lie in the memory, above the pages it gives out; they are kept in `pages`.
pub record Machine : Type 0 where
  pub memory : Memory
  pub pages : Allocator
  pub kernel_root_pt : ℕ
  pub kernel_satp_value : ℕ

abbrev pub in_page : ℕ → ℕ → Bool
in_page page a = leb page a && ltb a (page + page_size)

-- `*a = v`
unfoldable pub store : Memory → ℕ → ℕ → Memory
store m a v b = if b == a then v else m b

-- `memset(page, 0, PAGE_SIZE)`
unfoldable pub clear_page : Memory → ℕ → Memory
clear_page m page b = if in_page page b then 0 else m b

-- `memcpy(to, from, PAGE_SIZE)`
unfoldable pub copy_page : Memory → ℕ → ℕ → Memory
copy_page m to from b = if in_page to b then m (from + (b - to)) else m b

-- The bits of a page table entry: V is bit 0, R, W and X are 1 to 3, U is 4, A is 6 and D is 7.
-- An `&` with neighbouring bits is a division and a remainder.
abbrev pub is_valid : ℕ → Bool
is_valid pte = not (pte % 2 == 0)

abbrev pub is_leaf : ℕ → Bool
is_leaf pte = not (pte / 2 % 8 == 0)

-- `pte & (PTE_R | PTE_W | PTE_X | PTE_U)`
abbrev pub prot_of : ℕ → ℕ
prot_of pte = pte / 2 % 16 * 2

-- `(pte >> 10) << 12`
abbrev pub pte_pa : ℕ → ℕ
pte_pa pte = u32 (pte / 0x400 * page_size)

-- `perm | PTE_V | PTE_A | PTE_D`
abbrev pub with_vad : ℕ → ℕ
with_vad perm = bit_or (bit_or (bit_or perm 0x1) 0x40) 0x80

unfoldable pub pte_from_pa : ℕ → ℕ → ℕ
pte_from_pa pa perm = bit_or (pa / page_size * 0x400) (with_vad perm)

abbrev pub vm_flg_r : ℕ
vm_flg_r = 1

abbrev pub vm_flg_w : ℕ
vm_flg_w = 2

abbrev pub vm_flg_x : ℕ
vm_flg_x = 4

abbrev pub vm_flg_u : ℕ
vm_flg_u = 8

-- `if (flags & bit) p |= value;`
abbrev pub or_if : ℕ → ℕ → ℕ → ℕ → ℕ
or_if flags bit value p = if has_bit flags bit then bit_or p value else p

unfoldable pub pte_perm_from_flags : ℕ → ℕ
pte_perm_from_flags flags =
    or_if flags vm_flg_u 0x10
      (or_if flags vm_flg_x 0x8 (or_if flags vm_flg_w 0x4 (or_if flags vm_flg_r 0x2 0)))

-- The two parts of a virtual page number.
abbrev pub vpn1_of : ℕ → ℕ
vpn1_of va = va / 0x400000 % 0x400

abbrev pub vpn0_of : ℕ → ℕ
vpn0_of va = va / page_size % 0x400

-- `SATP_MODE_SV32 | (root_pa >> 12)`
unfoldable pub vm_make_satp : ℕ → ℕ
vm_make_satp root_pa = bit_or 0x80000000 (root_pa / page_size)

unfoldable pub vm_root_from_satp : ℕ → ℕ
vm_root_from_satp satp = u32 (satp % 0x400000 * page_size)
