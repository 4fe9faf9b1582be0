-- ===== src/Usercopy.antt =====
-- mm/usercopy.c: copies between the kernel and the memory of the current process. The memory is the
-- byte at each address; a kernel buffer is the list of its bytes, and a Boolean says whether its
-- pointer is not NULL.
pub mod Copies
mod Tests
use sugimotos.Prelude.{
  ℕ, zero, suc, ◌+◌, ◌-◌, Bool, true, false, not, ◌&&◌, ◌||◌, List, [], ◌∷◌, length, get_or, Option,
  none, some, ltb, leb, ◌==◌, if◌then◌else◌, add32,
}
use sugimotos.Proc.{Process}
use sugimotos.Vma.User.{proc_user_readable_ok, proc_user_writable_ok}

-- `memcpy` out of the memory.
unfoldable pub read_bytes : (ℕ → ℕ) → ℕ → ℕ → List ℕ
read_bytes mem src zero = []
read_bytes mem src (suc n) = mem src ∷ read_bytes mem (src + 1) n

-- `memcpy` into the memory.
unfoldable pub write_bytes : (ℕ → ℕ) → ℕ → List ℕ → ℕ → ℕ
write_bytes mem dst bs a =
    if leb dst a && ltb a (dst + length bs) then get_or bs (a - dst) 0 else mem a

-- The bytes that are put in the buffer; `none` is -1.
unfoldable pub copy_from_user : (ℕ → ℕ) → Option Process → Bool → ℕ → ℕ → Option (List ℕ)
copy_from_user mem p dst src len =
    if len == 0
    then some []
    else if not dst || src == 0 || not (proc_user_readable_ok p src len)
    then none
    else some (read_bytes mem src len)

-- The memory afterwards; `none` is -1.
unfoldable pub copy_to_user : (ℕ → ℕ) → Option Process → ℕ → Bool → List ℕ → Option (ℕ → ℕ)
copy_to_user mem p dst src bs =
    if length bs == 0
    then some mem
    else if dst == 0 || not src || not (proc_user_writable_ok p dst (length bs))
    then none
    else some (write_bytes mem dst bs)

-- The loop of `copy_string_from_user`, for `n` bytes from byte `i` on: the bytes before the NUL.
unfoldable pub string_loop : (ℕ → ℕ) → Option Process → ℕ → ℕ → ℕ → Option (List ℕ)
string_loop mem p zero src i = none
string_loop mem p (suc n) src i =
    let rest : Option (List ℕ) = elim (string_loop mem p n src (i + 1)) [
      | none ↦ none
      | some bs ↦ some (mem (add32 src i) ∷ bs)
    ] in
    if ltb (add32 src i) src || not (proc_user_readable_ok p (add32 src i) 1)
    then none
    else if mem (add32 src i) == 0
    then some []
    else rest

unfoldable pub copy_string_from_user : (ℕ → ℕ) → Option Process → Bool → ℕ → ℕ → Option (List ℕ)
copy_string_from_user mem p dst src capacity =
    if not dst || src == 0 || capacity == 0 then none else string_loop mem p capacity src 0
