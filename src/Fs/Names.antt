-- ===== src/Fs/Names.antt =====
-- fs/fs.c: strings, and the file name that a path stands for.
use sugimotos.Prelude.{
  ℕ, ◌+◌, Bool, true, false, List, [], ◌∷◌, Option, none, some, leb, ◌==◌, if◌then◌else◌,
}
use mathlib.Core.Option
use sugimotos.Fs.{ramfs_name_max}

-- `str_len` of an array that holds the string is the length of the list.
unfoldable pub str_eq : List ℕ → List ℕ → Bool
str_eq [] [] = true
str_eq [] (b ∷ bs) = false
str_eq (a ∷ s) [] = false
str_eq (a ∷ s) (b ∷ bs) = if a == b then str_eq s bs else false

abbrev pub slash : ℕ
slash = b'/'

unfoldable pub skip_slashes : List ℕ → List ℕ
skip_slashes [] = []
skip_slashes (c ∷ p) = if c == slash then skip_slashes p else c ∷ p

-- The copying loop, with `i` bytes copied, and the test after it: the rest of the path must be the
-- name, of at most 31 bytes.
unfoldable pub copy_name : List ℕ → ℕ → Option (List ℕ)
copy_name [] i = some []
copy_name (c ∷ p) i =
    if c == slash
    then none
    else if leb ramfs_name_max (i + 1)
    then none
    else Option.map (λ n. c ∷ n) (copy_name p (i + 1))

unfoldable pub name_of : List ℕ → Option (List ℕ)
name_of [] = none
name_of (c ∷ p) = copy_name (c ∷ p) 0

-- `none` as an argument is the null pointer.
unfoldable pub normalize_name : Option (List ℕ) → Option (List ℕ)
normalize_name none = none
normalize_name (some path) = name_of (skip_slashes path)
