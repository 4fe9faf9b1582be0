-- ===== src/Fs/Tests.antt =====
-- Runs of fs/fs.c.
use sugimotos.Prelude.{
  ℕ, zero, suc, ap, ◌+◌, ◌<◌, ◌≡◌, ◌≢◌, refl, true, false, List, [], ◌∷◌, ◌++◌, ◌↔◌, sym, ◌∙◌,
  length, replicate, Option, none, some, arith, ◌||◌, ◌==◌,
}
use sugimotos.Prelude.Int.{pos}
use sugimotos.Proc.{FileDesc, zero_process}
use sugimotos.Fs.{
  Fs, Ext4, zero_inode, inode_at, current_fds, fd_at, put_fd, put_inode, o_rdonly, o_rdwr, o_creat,
  o_trunc, has_flag, access_mode,
}
use sugimotos.Fs.Names.{slash, str_eq, skip_slashes, copy_name, name_of, normalize_name}
use sugimotos.Fs.Path.{IsName, normalize_name_iff}
use sugimotos.Fs.Table.{
  find_from, find_inode_by_name, free_inode_from, alloc_inode, free_fd_from, alloc_fd, get_open_fd,
  valid_fd_index, install_fd,
}
use sugimotos.Fs.Inv.{IsFs, fd_of, fd_at-zero_process}
use sugimotos.Fs.Calls.{
  fs_init, fs_open, fs_read, fs_write, fs_unlink, fs_rename, fs_listdir, open_name,
  open_ext4_readonly, open_ramfs, ensure_ramfs_inode, open_inode, overwrite, ext4_part, readme_name,
}
use sugimotos.Fs.History.{FsCall, opens, writes, step, run, run-fs_init-IsFs}
use sugimotos.Fs.Contents.{fs_write_read}
use sugimotos.Fs.Open.{Opened, fs_open-Opened}
use sugimotos.Prelude.{inl}
use sugimotos.Fs.OpenOk.{fs_open_succeeds}
use sugimotos.Fs.OpenFull.{fs_open_creates_and_fails}
use sugimotos.Fs.Unlink.{fs_unlink_gone}
use sugimotos.Fs.Rename.{fs_rename_moves}
use sugimotos.Fs.Listing.{listing, fs_listdir_whole}
use sugimotos.Proc.{fd_max}
use sugimotos.Fs.{o_wronly, o_append}

abbrev volume : Ext4
volume = record {
  lookup = λ name. none;
  read_file = λ index offset len. none;
  listdir = λ len. none;
}

abbrev boot : Fs
boot = record {
  inodes = [];
  fs_initialized = false;
  ext4_ready = false;
  procs = zero_process ∷ zero_process ∷ [];
  current = 1;
}

abbrev slash_a : Option (List ℕ)
slash_a = some (b'/' ∷ b'a' ∷ [])

abbrev name_a : List ℕ
name_a = b'a' ∷ []

abbrev two_opens : List FsCall
two_opens = opens slash_a (o_rdwr + o_creat) ∷ opens slash_a o_rdonly ∷ []

abbrev two_open : Fs
two_open = run volume (fs_init boot) two_opens

shut : (p k : ℕ) → (fd_of boot.procs p k).used ≡ false
shut zero k = ap (λ d. d.used) (fd_at-zero_process k)
shut (suc zero) k = ap (λ d. d.used) (fd_at-zero_process k)
shut (suc (suc p)) k = ap (λ d. d.used) (fd_at-zero_process k)

run-fs_init-IsFs_example : IsFs (run volume (fs_init boot) two_opens)
run-fs_init-IsFs_example = run-fs_init-IsFs volume boot two_opens refl shut

two_open-IsFs : IsFs two_open
two_open-IsFs = run-fs_init-IsFs volume boot two_opens refl shut

abbrev fd_a : FileDesc
fd_a = fd_at (current_fds two_open) 0

abbrev fd_b : FileDesc
fd_b = fd_at (current_fds two_open) 1

two_open_state :
    (get_open_fd two_open (pos 0) ≡ some 0)
    × (get_open_fd two_open (pos 1) ≡ some 1)
    × (fd_a ≡ record { used = true; inode = pos 1; offset = 0; flags = o_rdwr + o_creat })
    × (fd_b ≡ record { used = true; inode = pos 1; offset = 0; flags = o_rdonly })
    × (find_inode_by_name two_open.inodes name_a ≡ some 1)
    × ((access_mode (fd_at (current_fds two_open) 0).flags == o_wronly
          || access_mode (fd_at (current_fds two_open) 0).flags == o_rdwr)
        ≡ true)
    × ((access_mode (fd_at (current_fds two_open) 1).flags == o_wronly) ≡ false)
    × (has_flag (fd_at (current_fds two_open) 0).flags o_append ≡ false)
    × (ext4_part volume two_open 64 ≡ [])
unfolding run step fs_init alloc_inode free_inode_from zero_inode fs_open normalize_name name_of
    skip_slashes copy_name open_name find_inode_by_name find_from str_eq open_ext4_readonly
    open_ramfs ensure_ramfs_inode open_inode install_fd alloc_fd free_fd_from put_fd put_inode
    has_flag access_mode overwrite get_open_fd valid_fd_index zero_process
two_open_state = (refl, refl, refl, refl, refl, refl, refl, refl, refl)

fs_write_read_example :
    let (s', r) = fs_write two_open (pos 0) (some (7 ∷ 8 ∷ 9 ∷ [])) in
    (r ≡ some 3) × ((fs_read volume s' (pos 1) true 3).1 ≡ some (7 ∷ 8 ∷ 9 ∷ []))
fs_write_read_example =
    let (a, b, c, d, _, e, f, g, _) = two_open_state in
    fs_write_read volume two_open 0 1 1 (7 ∷ 8 ∷ 9 ∷ []) two_open-IsFs a b (omega arith)
      (ap (λ x. x.inode) c) (ap (λ x. x.inode) d) e f g
      (ap (λ x. x.offset) d ∙ sym (ap (λ x. x.offset) c)) (omega arith)
      (omega (arith, ap (λ x. x.offset) c))

fs_unlink_gone_example :
    let (s', r) = fs_unlink two_open slash_a in
    (r ≡ some 0)
    × (find_inode_by_name s'.inodes name_a ≡ none)
    × ((p k : ℕ) → (fd_of s'.procs p k).used ≡ true → (fd_of s'.procs p k).inode ≢ pos 1)
    × ((j : ℕ) → j ≢ 1 → inode_at s'.inodes j ≡ inode_at two_open.inodes j)
    × ((p k : ℕ)
        → (fd_of two_open.procs p k).inode ≢ pos 1
        → fd_of s'.procs p k ≡ fd_of two_open.procs p k)
unfolding normalize_name name_of skip_slashes copy_name
fs_unlink_gone_example =
    fs_unlink_gone two_open slash_a name_a 1 two_open-IsFs refl two_open_state.4

name_b_free : find_inode_by_name two_open.inodes (b'b' ∷ []) ≡ none
unfolding run step fs_init alloc_inode free_inode_from zero_inode fs_open normalize_name name_of
    skip_slashes copy_name open_name find_inode_by_name find_from str_eq open_ext4_readonly
    open_ramfs ensure_ramfs_inode open_inode install_fd alloc_fd free_fd_from put_fd put_inode
    has_flag access_mode overwrite get_open_fd valid_fd_index zero_process
name_b_free = refl

fs_rename_moves_example :
    let new : List ℕ = b'b' ∷ [] in
    let (s', r) = fs_rename two_open slash_a (some new) in
    (r ≡ some 0)
    × (find_inode_by_name s'.inodes new ≡ some 1)
    × (find_inode_by_name s'.inodes name_a ≡ none)
    × (inode_at s'.inodes 1 ≡ record (inode_at two_open.inodes 1) { name = new })
    × ((j : ℕ) → j ≢ 1 → inode_at s'.inodes j ≡ inode_at two_open.inodes j)
    × (s'.procs ≡ two_open.procs)
unfolding normalize_name name_of skip_slashes copy_name
fs_rename_moves_example =
    fs_rename_moves two_open slash_a (some (b'b' ∷ [])) name_a (b'b' ∷ []) 1 two_open-IsFs refl refl
      (ground arith) two_open_state.4 name_b_free

normalize_name_iff_example :
    (normalize_name (some (b'/' ∷ b'/' ∷ b'a' ∷ [])) ≡ some name_a)
    ↔ (IsName name_a × ((k : ℕ) × (b'/' ∷ b'/' ∷ b'a' ∷ [] ≡ replicate k slash ++ name_a)))
normalize_name_iff_example = normalize_name_iff (b'/' ∷ b'/' ∷ b'a' ∷ []) name_a

fs_open_truncates : (fs_open volume two_open slash_a (o_wronly + o_trunc)).1 ≡ some 2
unfolding run step fs_init alloc_inode free_inode_from zero_inode fs_open normalize_name name_of
    skip_slashes copy_name open_name find_inode_by_name find_from str_eq open_ext4_readonly
    open_ramfs ensure_ramfs_inode open_inode install_fd alloc_fd free_fd_from put_fd put_inode
    has_flag access_mode overwrite get_open_fd valid_fd_index zero_process
fs_open_truncates = refl

fs_open-Opened_example :
    (name : List ℕ) × (i : ℕ) × (normalize_name slash_a ≡ some name)
    × Opened two_open
        (fs_open volume two_open slash_a (o_wronly + o_trunc)).0
        name
        (o_wronly + o_trunc)
        i
        2
unfolding run step fs_init alloc_inode free_inode_from zero_inode fs_open normalize_name name_of
    skip_slashes copy_name open_name find_inode_by_name find_from str_eq open_ext4_readonly
    open_ramfs ensure_ramfs_inode open_inode install_fd alloc_fd free_fd_from put_fd put_inode
    has_flag access_mode overwrite get_open_fd valid_fd_index zero_process
fs_open-Opened_example =
    fs_open-Opened volume two_open slash_a (o_wronly + o_trunc) 2 two_open-IsFs (omega arith) refl
      fs_open_truncates

-- All descriptors of the process are open.
abbrev full : Fs
full = run volume (fs_init boot) (replicate fd_max (opens (some readme_name) o_rdonly))

full_state :
    (alloc_fd (current_fds full) ≡ none)
    × (find_inode_by_name full.inodes name_a ≡ none)
    × (alloc_inode full.inodes ≡ some 1)
    × (full.ext4_ready ≡ false)
unfolding run step fs_init alloc_inode free_inode_from zero_inode fs_open normalize_name name_of
    skip_slashes copy_name open_name find_inode_by_name find_from str_eq open_ext4_readonly
    open_ramfs ensure_ramfs_inode open_inode install_fd alloc_fd free_fd_from put_fd put_inode
    has_flag access_mode overwrite get_open_fd valid_fd_index zero_process
full_state = (refl, refl, refl, refl)

fs_open_creates_and_fails_example :
    let (s', r) = fs_open volume full slash_a o_creat in
    (r ≡ none) × ((inode_at s'.inodes 1).used ≡ true) × ((inode_at s'.inodes 1).name ≡ name_a)
unfolding normalize_name name_of skip_slashes copy_name has_flag
fs_open_creates_and_fails_example =
    let (a, b, c, d) = full_state in
    fs_open_creates_and_fails volume full slash_a name_a o_creat 1
      (run-fs_init-IsFs volume boot (replicate fd_max (opens (some readme_name) o_rdonly)) refl
        shut)
      d refl b refl c a

-- Three bytes are written, and then the file is opened anew and emptied.
abbrev emptied_calls : List FsCall
emptied_calls =
    opens slash_a (o_rdwr + o_creat)
    ∷ writes (pos 0) (some (7 ∷ 8 ∷ 9 ∷ []))
    ∷ opens slash_a (o_rdwr + o_trunc)
    ∷ []

abbrev emptied : Fs
emptied = run volume (fs_init boot) emptied_calls

fs_listdir_whole_example :
    (out : List ℕ) × (fs_listdir volume two_open true 64 ≡ some out)
    × (length out < 64)
    × (length (ext4_part volume two_open 64) + length (listing two_open.inodes) < 64
        → out ≡ ext4_part volume two_open 64 ++ listing two_open.inodes)
fs_listdir_whole_example =
    fs_listdir_whole volume two_open 64 (omega arith) (rw two_open_state.8 (omega arith))

two_open_free : (alloc_fd (current_fds two_open) ≡ some 2) × (two_open.ext4_ready ≡ false)
unfolding run step fs_init alloc_inode free_inode_from zero_inode fs_open normalize_name name_of
    skip_slashes copy_name open_name find_inode_by_name find_from str_eq open_ext4_readonly
    open_ramfs ensure_ramfs_inode open_inode install_fd alloc_fd free_fd_from put_fd put_inode
    has_flag access_mode overwrite get_open_fd valid_fd_index zero_process
two_open_free = (refl, refl)

fs_open_succeeds_example : (fs_open volume two_open slash_a o_rdonly).1 ≡ some 2
unfolding normalize_name name_of skip_slashes copy_name
fs_open_succeeds_example =
    fs_open_succeeds volume two_open slash_a name_a o_rdonly 1 2 two_open_free.1 refl
      two_open_free.0 (inl two_open_state.4)
