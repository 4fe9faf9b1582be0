-- ===== src/Fs/Steps.antt =====
-- fs/fs.c: each of the file calls keeps the invariant, and so does any history of them.
use sugimotos.Prelude.{
  ℕ, ◌<◌, ◌≡◌, refl, ap, Bool, true, false, not, List, length, Option, none, some, arith,
  Bool-cases, Option-cases, inl, inr, length-replicate, ◌==◌, ◌||◌,
}
use sugimotos.Prelude.Int.{ℤ, pos, negsuc, ℤ-cases}
use sugimotos.Proc.{closed}
use sugimotos.Fs.{
  Fs, Inode, Ext4, inode_at, fd_at, current_fds, zero_inode, put_inode, ramfs_data_max, has_flag,
  access_mode, o_rdonly, o_creat, o_wronly, o_rdwr,
}
use sugimotos.Fs.Names.{normalize_name}
use sugimotos.Fs.Path.{IsName}
use sugimotos.Fs.Table.{find_inode_by_name, alloc_inode, get_open_fd, valid_fd_index}
use sugimotos.Fs.Lookup.{find_inode_by_name-some, find_inode_by_name-none, alloc_inode-some}
use sugimotos.Fs.Inv.{IsInode, IsFs, put_fd-IsFs, put_inode-IsFs, inode_at-put_self}
use sugimotos.Fs.Keep.{
  install_fd-IsFs, normalize_name-IsName, open_inode-IsFs, write_inode-IsFs, read_inode-IsFs,
}
use sugimotos.Fs.Calls.{
  ensure_ramfs_inode, open_inode, fs_close, fs_write, open_ext4_readonly, open_ramfs, open_name,
  fs_open, read_ext4, fs_read,
}

pub get_open_fd-some :
    (s : Fs) (fd : ℤ) (k : ℕ)
    → get_open_fd s fd ≡ some k
    → ((fd_at (current_fds s) k).used ≡ true) × (fd ≡ pos k)
unfolding get_open_fd valid_fd_index
get_open_fd-some s (pos n) k h = ground arith
get_open_fd-some s (negsuc n) k h = absurd (ground arith)

-- What `ensure_ramfs_inode` hands on: nothing, or a used file of that name.
abbrev pub Ensured : Fs → List ℕ → Fs × Option ℕ → Type 0
Ensured s name (s', none) = s' ≡ s
Ensured s name (s', some i) =
    IsFs s' × ((inode_at s'.inodes i).used ≡ true) × ((inode_at s'.inodes i).name ≡ name)

zero_inode-IsInode :
    (name : List ℕ) → IsName name → IsInode (record zero_inode { used = true; name = name })
unfolding zero_inode
zero_inode-IsInode name v = record {
  buffer = length-replicate {A = ℕ} ramfs_data_max 0;
  fits = omega arith;
  named = λ _. v;
}

created-Ensured :
    (s : Fs) (name : List ℕ) (i : ℕ)
    → IsFs s
    → IsName name
    → find_inode_by_name s.inodes name ≡ none
    → i < length s.inodes
    → Ensured s name (put_inode s i (record zero_inode { used = true; name = name }), some i)
created-Ensured s name i v nm e l =
    let n : Inode = record zero_inode { used = true; name = name } in
    let proper = zero_inode-IsInode name nm in
    let new : inode_at (put_inode s i n).inodes i ≡ n = inode_at-put_self s i n l in
    (
      put_inode-IsFs s i n v proper refl (λ j _ u. find_inode_by_name-none s.inodes name j e u),
      ap (λ (m : Inode). m.used) new,
      ap (λ (m : Inode). m.name) new,
    )

pub ensure_ramfs_inode-Ensured :
    (s : Fs) (name : List ℕ) (flags : ℕ)
    → IsFs s
    → IsName name
    → Ensured s name (ensure_ramfs_inode s name flags)
unfolding ensure_ramfs_inode
ensure_ramfs_inode-Ensured s name flags v nm =
    elim (Option-cases (find_inode_by_name s.inodes name)) [
      | inr (i, e) ↦
          let (a, b, c) = find_inode_by_name-some s.inodes name e in
          rw (e, ensure_ramfs_inode) (v, a, b)
      | inl e ↦ elim (Bool-cases (has_flag flags o_creat)) [
        | inl c ↦ elim (Option-cases (alloc_inode s.inodes)) [
          | inl d ↦ rw (e, ensure_ramfs_inode) (rw (c, d, ensure_ramfs_inode) refl)
          | inr (i, d) ↦
              rw (e, ensure_ramfs_inode)
                (rw (c, d, ensure_ramfs_inode)
                  (created-Ensured s name i v nm e (alloc_inode-some s.inodes d).1))
        ]
        | inr c ↦ rw (e, ensure_ramfs_inode) (rw c refl)
      ]
    ]

open_ramfs-IsFs :
    (ext4 : Ext4) (s : Fs) (name : List ℕ) (flags : ℕ)
    → IsFs s
    → IsName name
    → IsFs (open_ramfs ext4 s name flags).0
unfolding open_ramfs
open_ramfs-IsFs ext4 s name flags v nm =
    go (ensure_ramfs_inode s name flags) (ensure_ramfs_inode-Ensured s name flags v nm)
  where
    go :
        (r : Fs × Option ℕ)
        → Ensured s name r
        → IsFs
            (let out : Fs × Option ℕ = elim r.1 [
              | none ↦ (r.0, none)
              | some i ↦ open_inode r.0 i flags
            ] in
              out).0
    go (s', none) e = rw e v
    go (s', some i) (v', u, _) = open_inode-IsFs s' i v' u flags

open_ext4_readonly-IsFs :
    (ext4 : Ext4) (s : Fs) (name : List ℕ) (flags : ℕ)
    → IsFs s
    → IsFs (open_ext4_readonly ext4 s name flags).0
unfolding open_ext4_readonly
open_ext4_readonly-IsFs ext4 s name flags v = elim (Bool-cases s.ext4_ready) [
  | inr e ↦ simp e v
  | inl e ↦ elim (Bool-cases (not (access_mode flags == o_rdonly) || has_flag flags o_creat)) [
    | inl d ↦ simp e (rw d v)
    | inr d ↦ elim (Option-cases (ext4.lookup name)) [
      | inl n ↦ simp e (rw d (rw (n, open_ext4_readonly) v))
      | inr (i, n) ↦
          simp e
            (rw d (rw (n, open_ext4_readonly) (install_fd-IsFs s (negsuc i) flags 0 v (λ j q. cc))))
    ]
  ]
]

open_name-IsFs :
    (ext4 : Ext4) (s : Fs) (name : List ℕ) (flags : ℕ)
    → IsFs s
    → IsName name
    → IsFs (open_name ext4 s name flags).0
unfolding open_name
open_name-IsFs ext4 s name flags v nm = elim (Option-cases (find_inode_by_name s.inodes name)) [
  | inr (i, e) ↦ rw (e, open_name) (open_ramfs-IsFs ext4 s name flags v nm)
  | inl e ↦ elim (Option-cases (open_ext4_readonly ext4 s name flags).1) [
    | inr (fd, d) ↦ rw (e, open_name) (rw (d, open_name) v')
    | inl d ↦ rw (e, open_name) (rw (d, open_name) (open_ramfs-IsFs ext4 _ name flags v' nm))
  ]
]
  where
    v' : IsFs (open_ext4_readonly ext4 s name flags).0
    v' = open_ext4_readonly-IsFs ext4 s name flags v

pub fs_open-IsFs :
    (ext4 : Ext4) (s : Fs) (path : Option (List ℕ)) (flags : ℕ)
    → IsFs s
    → IsFs (fs_open ext4 s path flags).0
unfolding fs_open
fs_open-IsFs ext4 s path flags v = elim (Option-cases (normalize_name path)) [
  | inl e ↦ rw (e, fs_open) v
  | inr (n, e) ↦ rw (e, fs_open) (open_name-IsFs ext4 s n flags v (normalize_name-IsName path n e))
]

pub fs_close-IsFs : (s : Fs) (fd : ℤ) → IsFs s → IsFs (fs_close s fd).0
unfolding fs_close
fs_close-IsFs s fd v = elim (Option-cases (get_open_fd s fd)) [
  | inl e ↦ rw (e, fs_close) v
  | inr (k, e) ↦ rw (e, fs_close) (put_fd-IsFs s k closed v (λ i u _. cc))
]

pub fs_write-IsFs : (s : Fs) (fd : ℤ) (buf : Option (List ℕ)) → IsFs s → IsFs (fs_write s fd buf).0
unfolding fs_write
fs_write-IsFs s fd none v = v
fs_write-IsFs s fd (some buf) v = elim (Option-cases (get_open_fd s fd)) [
  | inl e ↦ rw (e, fs_write) v
  | inr (k, e) ↦ elim (ℤ-cases (fd_at (current_fds s) k).inode) [
    | inr (n, d) ↦ rw (e, fs_write) (rw (d, fs_write) v)
    | inl (i, d) ↦
        let d' = fd_at (current_fds s) k in
        elim (Bool-cases (access_mode d'.flags == o_wronly || access_mode d'.flags == o_rdwr)) [
          | inr m ↦ rw (e, fs_write) (rw (d, fs_write) (rw m v))
          | inl m ↦
              let used = v.descriptors s.current k i (get_open_fd-some s fd k e).0 d in
              rw (e, fs_write) (rw (d, fs_write) (rw m (write_inode-IsFs s i v used k buf)))
        ]
  ]
]

read_ext4-IsFs : (ext4 : Ext4) (s : Fs) (k n len : ℕ) → IsFs s → IsFs (read_ext4 ext4 s k n len).0
unfolding read_ext4
read_ext4-IsFs ext4 s k n len v =
    elim (Option-cases (ext4.read_file n (fd_at (current_fds s) k).offset len)) [
      | inl e ↦ rw (e, read_ext4) v
      | inr (bs, e) ↦ rw (e, read_ext4) (put_fd-IsFs s k _ v (v.descriptors s.current k))
    ]

pub fs_read-IsFs :
    (ext4 : Ext4) (s : Fs) (fd : ℤ) (buf : Bool) (len : ℕ)
    → IsFs s
    → IsFs (fs_read ext4 s fd buf len).0
unfolding fs_read
fs_read-IsFs ext4 s fd false len v = v
fs_read-IsFs ext4 s fd true len v = elim (Option-cases (get_open_fd s fd)) [
  | inl e ↦ rw (e, fs_read) v
  | inr (k, e) ↦ elim (Bool-cases (access_mode (fd_at (current_fds s) k).flags == o_wronly)) [
    | inl m ↦ rw (e, fs_read) (rw m v)
    | inr m ↦ elim (ℤ-cases (fd_at (current_fds s) k).inode) [
      | inr (n, d) ↦ rw (e, fs_read) (rw m (rw (d, fs_read) (read_ext4-IsFs ext4 s k n len v)))
      | inl (i, d) ↦
          let used = v.descriptors s.current k i (get_open_fd-some s fd k e).0 d in
          rw (e, fs_read) (rw m (rw (d, fs_read) (read_inode-IsFs s i v used k len)))
    ]
  ]
]
