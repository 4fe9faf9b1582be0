-- ===== src/Usercopy/Tests.antt =====
-- Runs of mm/usercopy.c.
use sugimotos.Prelude.{
  ℕ, ◌+◌, ◌≤◌, ◌<◌, ◌≡◌, ◌≢◌, ◌⊎◌, refl, true, List, [], ◌∷◌, get_or, replicate, none, some, arith,
  ◌==◌, if◌then◌else◌,
}
use sugimotos.Proc.{UserVma, Process, zero_process, no_vma, proc_vma_max}
use sugimotos.Vma.{vma_prot_w}
use sugimotos.Vma.Inv.{IsVmas, empty-IsVmas}
use sugimotos.Vma.Range.{Covered}
use sugimotos.Vma.Add.{proc_add_vma_adds}
use sugimotos.Vma.Table.{
  proc_add_vma, conflicts, proc_find_free_vma_slot, find_free_from, proc_vma_range_ok, range_loop,
  proc_find_vma_index, find_vma_from,
}
use sugimotos.Vma.User.{proc_user_readable_ok, proc_user_writable_ok, range_allowed}
use sugimotos.Usercopy.{write_bytes, copy_to_user, string_loop, copy_string_from_user}
use sugimotos.Usercopy.Copies.{copy_to_user_writes}

abbrev no_areas : List UserVma
no_areas = replicate proc_vma_max no_vma

abbrev one_page : List UserVma
one_page = elim (proc_add_vma no_areas 0x20000000 0x20001000 3) [ none ↦ no_areas | some vs ↦ vs ]

one_page-added : proc_add_vma no_areas 0x20000000 0x20001000 3 ≡ some one_page
unfolding proc_add_vma conflicts proc_find_free_vma_slot find_free_from
one_page-added = refl

one_page-IsVmas : IsVmas one_page
one_page-IsVmas =
    (proc_add_vma_adds no_areas one_page 0x20000000 0x20001000 3 empty-IsVmas (omega arith)
      one_page-added).0

abbrev user : Process
user = record zero_process { is_user = true; vmas = one_page }

-- The string "ab" lies at the end of the page but one byte.
abbrev memory : ℕ → ℕ
memory a = if a == 0x20000ffd then b'a' else if a == 0x20000ffe then b'b' else 0

abbrev place : ℕ
place = 0x20000010

abbrev two_bytes : List ℕ
two_bytes = 7 ∷ 8 ∷ []

copied :
    copy_to_user memory (some user) place true two_bytes ≡ some (write_bytes memory place two_bytes)
unfolding copy_to_user proc_user_writable_ok range_allowed proc_vma_range_ok range_loop
    proc_find_vma_index find_vma_from proc_add_vma conflicts proc_find_free_vma_slot find_free_from
copied = refl

copy_to_user_writes_example :
    (place ≢ 0)
    × Covered user.vmas place (place + 2) vma_prot_w
    × ((i : ℕ) → i < 2 → write_bytes memory place two_bytes (place + i) ≡ get_or two_bytes i 0)
    × ((a : ℕ) → (a < place) ⊎ (place + 2 ≤ a) → write_bytes memory place two_bytes a ≡ memory a)
copy_to_user_writes_example =
    copy_to_user_writes memory (write_bytes memory place two_bytes) user place true two_bytes
      one_page-IsVmas refl (omega arith) (omega arith) (omega arith) copied

string_copied : copy_string_from_user memory (some user) true 0x20000ffd 8 ≡ some (b'a' ∷ b'b' ∷ [])
unfolding copy_string_from_user string_loop proc_user_readable_ok range_allowed proc_vma_range_ok
    range_loop proc_find_vma_index find_vma_from proc_add_vma conflicts proc_find_free_vma_slot
    find_free_from
string_copied = refl
