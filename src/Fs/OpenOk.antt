-- ===== src/Fs/OpenOk.antt =====
-- fs/fs.c: when `fs_open` returns a descriptor.
use sugimotos.Prelude.{
  ℕ, ◌≡◌, ◌⊎◌, refl, ap, true, false, List, Option, none, some, inl, inr, Bool-cases,
}
use sugimotos.Prelude.Int.{ℤ, pos}
use sugimotos.Fs.{Fs, Ext4, current_fds, put_inode, has_flag, o_trunc, o_creat}
use sugimotos.Fs.Names.{normalize_name}
use sugimotos.Fs.Table.{install_fd, alloc_fd, alloc_inode, find_inode_by_name}
use sugimotos.Fs.Open.{open_name-open_ramfs}
use sugimotos.Fs.OpenFull.{open_ramfs_creates}
use sugimotos.Fs.Calls.{open_inode, ensure_ramfs_inode, open_ramfs, fs_open}

install_fd_returns :
    (s : Fs) (inode : ℤ) (flags offset k : ℕ)
    → alloc_fd (current_fds s) ≡ some k
    → (install_fd s inode flags offset).1 ≡ some k
unfolding install_fd
install_fd_returns s inode flags offset k e = rw (e, install_fd) refl

open_inode_returns :
    (s : Fs) (i flags k : ℕ) → alloc_fd (current_fds s) ≡ some k → (open_inode s i flags).1 ≡ some k
unfolding open_inode
open_inode_returns s i flags k e = elim (Bool-cases (has_flag flags o_trunc)) [
  | inl x ↦ rw x (install_fd_returns _ (pos i) flags _ k (unfold put_inode in e))
  | inr x ↦ rw x (install_fd_returns s (pos i) flags _ k e)
]

ensure_finds :
    (s : Fs) (name : List ℕ) (flags i : ℕ)
    → find_inode_by_name s.inodes name ≡ some i
    → ensure_ramfs_inode s name flags ≡ (s, some i)
unfolding ensure_ramfs_inode
ensure_finds s name flags i e = rw (e, ensure_ramfs_inode) refl

open_ramfs_finds :
    (ext4 : Ext4) (s : Fs) (name : List ℕ) (flags i : ℕ)
    → find_inode_by_name s.inodes name ≡ some i
    → open_ramfs ext4 s name flags ≡ open_inode s i flags
unfolding open_ramfs
open_ramfs_finds ext4 s name flags i e =
    ap {A = Fs × Option ℕ} {B = Fs × Option ℕ}
      (λ r. elim r.1 [ none ↦ (r.0, none) | some j ↦ open_inode r.0 j flags ])
      (ensure_finds s name flags i e)

-- While the ext4 volume is not mounted, `fs_open` of a good name returns the first free descriptor
-- whenever there is one and the file is there, or `O_CREAT` is given and an inode is free.
pub fs_open_succeeds :
    (ext4 : Ext4) (s : Fs) (path : Option (List ℕ)) (name : List ℕ) (flags i k : ℕ)
    → s.ext4_ready ≡ false
    → normalize_name path ≡ some name
    → alloc_fd (current_fds s) ≡ some k
    → (find_inode_by_name s.inodes name ≡ some i)
      ⊎ ((find_inode_by_name s.inodes name ≡ none)
          × (has_flag flags o_creat ≡ true)
          × (alloc_inode s.inodes ≡ some i))
    → (fs_open ext4 s path flags).1 ≡ some k
unfolding fs_open
fs_open_succeeds ext4 s path name flags i k x e f (inl g) =
    rw (e, fs_open)
      (rw (open_name-open_ramfs ext4 s name flags x)
        (rw (open_ramfs_finds ext4 s name flags i g) (open_inode_returns s i flags k f)))
fs_open_succeeds ext4 s path name flags i k x e f (inr (g, c, a)) =
    rw (e, fs_open)
      (rw (open_name-open_ramfs ext4 s name flags x) (
        rw (open_ramfs_creates ext4 s name flags i g c a)
          (open_inode_returns _ i flags k (unfold put_inode in f))))
