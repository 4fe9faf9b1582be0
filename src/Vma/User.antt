-- ===== src/Vma/User.antt =====
-- mm/process_vm.c: the tests of pointers from user programs, and the areas of a new process.
use sugimotos.Prelude.{
  ℕ, zero, suc, ◌+◌, ◌*◌, Bool, true, false, not, List, replicate, Option, none, some, ltb, ◌==◌,
  if◌then◌else◌, add32, mul32, page_size,
}
use sugimotos.Proc.{UserVma, Process, no_vma, proc_vma_max}
use sugimotos.Vma.{page_floor, page_ceil, vma_prot_r, vma_prot_w, vma_prot_x}
use sugimotos.Vma.Table.{proc_add_vma, proc_vma_range_ok}

-- The current process is an argument; `none` is NULL. A kernel process may use any pointer.
unfoldable pub range_allowed : Option Process → ℕ → ℕ → ℕ → Bool
range_allowed none addr len need = true
range_allowed (some p) addr len need =
    if not p.is_user then true else proc_vma_range_ok p addr len need

unfoldable pub proc_user_writable_ok : Option Process → ℕ → ℕ → Bool
proc_user_writable_ok p addr len = range_allowed p addr len vma_prot_w

unfoldable pub proc_user_readable_ok : Option Process → ℕ → ℕ → Bool
proc_user_readable_ok p addr len = range_allowed p addr len vma_prot_r

-- `load` is the byte at an address.
module _ (load : ℕ → ℕ) where
  -- The loop of `proc_user_cstr_ok`, for `n` bytes from byte `i` on.
  unfoldable pub cstr_loop : ℕ → Process → ℕ → ℕ → Bool
  cstr_loop zero p addr i = false
  cstr_loop (suc n) p addr i =
      let rest = cstr_loop n p addr (i + 1) in
      if not (proc_vma_range_ok p (add32 addr i) 1 vma_prot_r)
      then false
      else if load (add32 addr i) == 0
      then true
      else rest

  unfoldable pub proc_user_cstr_ok : Option Process → ℕ → ℕ → Bool
  proc_user_cstr_ok none addr max_len = true
  proc_user_cstr_ok (some p) addr max_len =
      if not p.is_user
      then true
      else if max_len == 0
      then false
      else if not (proc_vma_range_ok p addr 1 vma_prot_r)
      then false
      else cstr_loop max_len p addr 0

  -- `load_word` is the word at an address. The loop of `proc_user_exec_argv_ok`, for `n` words from
  -- word `i` on; the result is the number of arguments, and `none` is -1.
  module _ (load_word : ℕ → ℕ) where
    unfoldable pub argv_loop : ℕ → Process → ℕ → ℕ → Option ℕ
    argv_loop zero p argv_ptr i = none
    argv_loop (suc n) p argv_ptr i =
        let slot = add32 argv_ptr (i * 4) in
        let rest = argv_loop n p argv_ptr (i + 1) in
        if not (proc_vma_range_ok p slot 4 vma_prot_r)
        then none
        else if load_word slot == 0
        then some i
        else if not (proc_user_cstr_ok (some p) (load_word slot) 128)
        then none
        else rest

    unfoldable pub proc_user_exec_argv_ok : Option Process → ℕ → Option ℕ
    proc_user_exec_argv_ok none argv_ptr = none
    proc_user_exec_argv_ok (some p) argv_ptr =
        if not p.is_user then none else if argv_ptr == 0 then some 0 else argv_loop 32 p argv_ptr 0

-- The linker's symbols for the sections of the user programs.
pub record UserSections : Type 0 where
  pub text_start : ℕ
  pub text_end : ℕ
  pub rodata_start : ℕ
  pub rodata_end : ℕ
  pub data_start : ℕ
  pub data_end : ℕ
  pub bss_start : ℕ
  pub bss_end : ℕ

-- One test of `proc_vm_init`: the table afterwards, and whether the call goes on.
unfoldable pub add_section : List UserVma × Bool → ℕ → ℕ → ℕ → List UserVma × Bool
add_section (vs, false) start end_ prot = (vs, false)
add_section (vs, true) start end_ prot =
    let added : List UserVma × Bool = elim (proc_add_vma vs start end_ prot) [
      | none ↦ (vs, false)
      | some ws ↦ (ws, true)
    ] in
    if ltb start end_ then added else (vs, true)

-- The areas of the process afterwards, and whether it returns 0.
unfoldable pub proc_vm_init : UserSections → Process → List UserVma × Bool
proc_vm_init u p =
    let r0 : List UserVma × Bool = (replicate proc_vma_max no_vma, true) in
    let r1 =
      add_section r0 (page_floor u.text_start) (page_ceil u.text_end) (vma_prot_r + vma_prot_x) in
    let r2 = add_section r1 (page_floor u.rodata_start) (page_ceil u.rodata_end) vma_prot_r in
    let r3 =
      add_section r2 (page_floor u.data_start) (page_ceil u.data_end) (vma_prot_r + vma_prot_w) in
    let r4 =
      add_section r3 (page_floor u.bss_start) (page_ceil u.bss_end) (vma_prot_r + vma_prot_w) in
    add_section r4 p.user_stack_base (add32 p.user_stack_base (mul32 p.user_stack_pages page_size))
      (vma_prot_r + vma_prot_w)
