-- ===== src/Fs/OpenFull.antt =====
-- fs/fs.c: what an `fs_open` that finds no free descriptor leaves behind.
use sugimotos.Prelude.{
  ℕ, ◌<◌, ◌≡◌, refl, ap, ◌∙◌, true, false, List, length, Option, none, some, inl, inr, Bool-cases,
}
use sugimotos.Fs.{
  Fs, Inode, Ext4, inode_at, current_fds, put_inode, zero_inode, has_flag, o_trunc, o_creat,
}
use sugimotos.Fs.Names.{normalize_name}
use sugimotos.Fs.Table.{install_fd, alloc_fd, alloc_inode, find_inode_by_name}
use sugimotos.Fs.Lookup.{alloc_inode-some}
use sugimotos.Fs.Inv.{IsFs, inode_at-put_self}
use sugimotos.Fs.Contents.{used_in_range}
use sugimotos.Fs.Calls.{open_inode, ensure_ramfs_inode, open_ramfs, fs_open}
use sugimotos.Fs.Open.{open_name-open_ramfs}

ensure_creates :
    (s : Fs) (name : List ℕ) (flags i : ℕ)
    → find_inode_by_name s.inodes name ≡ none
    → has_flag flags o_creat ≡ true
    → alloc_inode s.inodes ≡ some i
    → ensure_ramfs_inode s name flags
      ≡ (put_inode s i (record zero_inode { used = true; name = name }), some i)
unfolding ensure_ramfs_inode
ensure_creates s name flags i f c a =
    rw (f, ensure_ramfs_inode) (rw (c, a, ensure_ramfs_inode) refl)

pub open_ramfs_creates :
    (ext4 : Ext4) (s : Fs) (name : List ℕ) (flags i : ℕ)
    → find_inode_by_name s.inodes name ≡ none
    → has_flag flags o_creat ≡ true
    → alloc_inode s.inodes ≡ some i
    → open_ramfs ext4 s name flags
      ≡ open_inode (put_inode s i (record zero_inode { used = true; name = name })) i flags
unfolding open_ramfs
open_ramfs_creates ext4 s name flags i f c a =
    ap {A = Fs × Option ℕ} {B = Fs × Option ℕ}
      (λ r. elim r.1 [ none ↦ (r.0, none) | some j ↦ open_inode r.0 j flags ])
      (ensure_creates s name flags i f c a)

open_inode_full :
    (s : Fs) (i flags : ℕ)
    → i < length s.inodes
    → alloc_fd (current_fds s) ≡ none
    → let (s', r) = open_inode s i flags in
      (r ≡ none)
      × ((inode_at s'.inodes i).used ≡ (inode_at s.inodes i).used)
      × ((inode_at s'.inodes i).name ≡ (inode_at s.inodes i).name)
unfolding open_inode install_fd put_inode
open_inode_full s i flags l d = elim (Bool-cases (has_flag flags o_trunc)) [
  | inl e ↦
      let new = inode_at-put_self s i (record (inode_at s.inodes i) { size = 0 }) l in
      rw e
        (rw (d, install_fd) (refl, ap (λ (n : Inode). n.used) new, ap (λ (n : Inode). n.name) new))
  | inr e ↦ rw e (rw (d, install_fd) (refl, refl, refl))
]

-- Where a file of a new name can be made and no descriptor is free, an
-- `fs_open` with `O_CREAT` returns -1, and yet the new file is in the table afterwards.
pub fs_open_creates_and_fails :
    (ext4 : Ext4) (s : Fs) (path : Option (List ℕ)) (name : List ℕ) (flags i : ℕ)
    → IsFs s
    → s.ext4_ready ≡ false
    → normalize_name path ≡ some name
    → find_inode_by_name s.inodes name ≡ none
    → has_flag flags o_creat ≡ true
    → alloc_inode s.inodes ≡ some i
    → alloc_fd (current_fds s) ≡ none
    → let (s', r) = fs_open ext4 s path flags in
      (r ≡ none) × ((inode_at s'.inodes i).used ≡ true) × ((inode_at s'.inodes i).name ≡ name)
unfolding fs_open put_inode
fs_open_creates_and_fails ext4 s path name flags i v x e f c a d =
    let n : Inode = record zero_inode { used = true; name = name } in
    let l = (alloc_inode-some s.inodes a).1 in
    let new : inode_at (put_inode s i n).inodes i ≡ n = inode_at-put_self s i n l in
    let there = used_in_range (put_inode s i n).inodes i (ap (λ (m : Inode). m.used) new) in
    let (r, u, w) = open_inode_full (put_inode s i n) i flags there d in
    rw (e, fs_open)
      (rw (open_name-open_ramfs ext4 s name flags x) (
        rw (open_ramfs_creates ext4 s name flags i f c a)
          (r, u ∙ ap (λ (m : Inode). m.used) new, w ∙ ap (λ (m : Inode). m.name) new)))
