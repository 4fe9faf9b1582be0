-- ===== src/Fs/Table.antt =====
-- fs/fs.c: the tables of inodes and of file descriptors.
use sugimotos.Prelude.{
  ℕ, ◌+◌, Bool, true, false, not, ◌&&◌, List, [], ◌∷◌, Option, none, some, ltb, if◌then◌else◌,
}
use sugimotos.Prelude.Int.{ℤ, pos, negsuc}
use sugimotos.Proc.{FileDesc, fd_max}
use sugimotos.Fs.{Fs, Inode, fd_at, current_fds, put_fd}
use sugimotos.Fs.Names.{str_eq}

-- The loops run over the array; the argument `i` is the index of its next entry.
unfoldable pub find_from : List Inode → List ℕ → ℕ → Option ℕ
find_from [] name i = none
find_from (n ∷ ns) name i =
    if n.used && str_eq n.name name then some i else find_from ns name (i + 1)

unfoldable pub find_inode_by_name : List Inode → List ℕ → Option ℕ
find_inode_by_name ns name = find_from ns name 0

unfoldable pub free_inode_from : List Inode → ℕ → Option ℕ
free_inode_from [] i = none
free_inode_from (n ∷ ns) i = if not n.used then some i else free_inode_from ns (i + 1)

unfoldable pub alloc_inode : List Inode → Option ℕ
alloc_inode ns = free_inode_from ns 0

unfoldable pub free_fd_from : List FileDesc → ℕ → Option ℕ
free_fd_from [] i = none
free_fd_from (d ∷ ds) i = if not d.used then some i else free_fd_from ds (i + 1)

unfoldable pub alloc_fd : List FileDesc → Option ℕ
alloc_fd ds = free_fd_from ds 0

unfoldable pub is_ext_fd : FileDesc → Bool
is_ext_fd d = elim d.inode [ pos i ↦ false | negsuc i ↦ true ]

unfoldable pub valid_fd_index : ℤ → Bool
valid_fd_index (pos fd) = ltb fd fd_max
valid_fd_index (negsuc n) = false

abbrev pub fd_index : ℤ → ℕ
fd_index (pos fd) = fd
fd_index (negsuc n) = 0

-- The index of an open descriptor of the current process; `none` is the null pointer.
unfoldable pub get_open_fd : Fs → ℤ → Option ℕ
get_open_fd s fd =
    if not (valid_fd_index fd)
    then none
    else if (fd_at (current_fds s) (fd_index fd)).used
    then some (fd_index fd)
    else none

-- The descriptor that it opens, or `none` when all are in use.
unfoldable pub install_fd : Fs → ℤ → ℕ → ℕ → Fs × Option ℕ
install_fd s inode flags offset = elim (alloc_fd (current_fds s)) [
  | none ↦ (s, none)
  | some fd ↦
      (put_fd s fd (record { used = true; inode = inode; offset = offset; flags = flags }), some fd)
]
