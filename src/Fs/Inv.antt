-- ===== src/Fs/Inv.antt =====
-- fs/fs.c: the invariant of the file system, and the two kinds of update that keep it.
use native.Mathlib.Decide.{ℕ_discrete}
use sugimotos.Prelude.{
  ℕ, zero, suc, ◌≤◌, ◌<◌, ◌≡◌, ◌≢◌, refl, sym, true, List, length, set, get_or-set, get_or-set_self,
  replicate, arith, ◌⊎◌, inl, inr, length-set,
}
use sugimotos.Prelude.Int.{pos}
use sugimotos.Proc.{Process, FileDesc, closed, proc_at, zero_process, fd_max}
use sugimotos.Fs.{
  Fs, Inode, inode_at, fd_at, zero_inode, put_fd, put_inode, ramfs_max_files, ramfs_data_max,
}
use sugimotos.Fs.Path.{IsName}

-- A file's buffer is whole, its size fits, and a used one has a proper name.
pub record IsInode (n : Inode) : Type 0 where
  pub buffer : length n.bytes ≡ ramfs_data_max
  pub fits : n.size ≤ ramfs_data_max
  pub named : n.used ≡ true → IsName n.name

-- Descriptor `k` of the process in slot `p`.
abbrev pub fd_of : List Process → ℕ → ℕ → FileDesc
fd_of ps p k = fd_at (proc_at ps p).fds k

pub record IsFs (s : Fs) : Type 0 where
  pub files : length s.inodes ≡ ramfs_max_files
  pub inode : (i : ℕ) → IsInode (inode_at s.inodes i)
  pub unique :
      (i j : ℕ)
      → (inode_at s.inodes i).used ≡ true
      → (inode_at s.inodes j).used ≡ true
      → (inode_at s.inodes i).name ≡ (inode_at s.inodes j).name
      → i ≡ j
  pub descriptors :
      (p k i : ℕ)
      → (fd_of s.procs p k).used ≡ true
      → (fd_of s.procs p k).inode ≡ pos i
      → (inode_at s.inodes i).used ≡ true

fd_at-replicate : (n k : ℕ) → fd_at (replicate n closed) k ≡ closed
fd_at-replicate zero k = refl
fd_at-replicate (suc n) zero = refl
fd_at-replicate (suc n) (suc k) = fd_at-replicate n k

pub fd_at-zero_process : (k : ℕ) → fd_at zero_process.fds k ≡ closed
unfolding zero_process
fd_at-zero_process k = fd_at-replicate fd_max k

-- A write of a descriptor shows at its place alone.
pub fd_of-put_fd :
    (s : Fs) (fd : ℕ) (d : FileDesc) (p k : ℕ)
    → ((fd_of (put_fd s fd d).procs p k ≡ d) × (p ≡ s.current) × (k ≡ fd))
      ⊎ (fd_of (put_fd s fd d).procs p k ≡ fd_of s.procs p k)
unfolding put_fd
fd_of-put_fd s fd d p k =
    let old = proc_at s.procs s.current in
    ground (
      arith,
      get_or-set s.procs s.current p (record old { fds = set old.fds fd d }) zero_process,
      get_or-set old.fds fd k d closed,
    )

put_fd-descriptors :
    (s : Fs) (fd : ℕ) (d : FileDesc)
    → IsFs s
    → ((i : ℕ) → d.used ≡ true → d.inode ≡ pos i → (inode_at s.inodes i).used ≡ true)
    → (p k i : ℕ) → (fd_of (put_fd s fd d).procs p k).used ≡ true
    → (fd_of (put_fd s fd d).procs p k).inode ≡ pos i
    → (inode_at s.inodes i).used ≡ true
put_fd-descriptors s fd d v ok p k i u e = elim (fd_of-put_fd s fd d p k) [
  | inl (x, _, _) ↦ ok i (rw x at u) (rw x at e)
  | inr x ↦ v.descriptors p k i (rw x at u) (rw x at e)
]

-- A descriptor may be given anew, if it is closed or of a used file.
pub put_fd-IsFs :
    (s : Fs) (fd : ℕ) (d : FileDesc)
    → IsFs s
    → ((i : ℕ) → d.used ≡ true → d.inode ≡ pos i → (inode_at s.inodes i).used ≡ true)
    → IsFs (put_fd s fd d)
unfolding put_fd
put_fd-IsFs s fd d v ok = record {
  files = v.files;
  inode = v.inode;
  unique = v.unique;
  descriptors = put_fd-descriptors s fd d v ok;
}

pub inode_at-put_self :
    (s : Fs) (i : ℕ) (n : Inode) → i < length s.inodes → inode_at (put_inode s i n).inodes i ≡ n
unfolding put_inode
inode_at-put_self s i n h = get_or-set_self s.inodes i n zero_inode h

-- Under the name `n.name` there is no file but, perhaps, file `i`.
abbrev pub FreshName : Fs → ℕ → Inode → Type 0
FreshName s i n =
    (j : ℕ) → j ≢ i → (inode_at s.inodes j).used ≡ true → (inode_at s.inodes j).name ≢ n.name

module _ (s : Fs) (i : ℕ) (n : Inode) (v : IsFs s) (proper : IsInode n) (live : n.used ≡ true) where
  inode_at-put :
      (j : ℕ)
      → (inode_at (put_inode s i n).inodes j ≡ n) × (i ≡ j)
        ⊎ (inode_at (put_inode s i n).inodes j ≡ inode_at s.inodes j)
  unfolding put_inode
  inode_at-put j = ground (arith, get_or-set s.inodes i j n zero_inode)

  put_inode-IsInode : (j : ℕ) → IsInode (inode_at (put_inode s i n).inodes j)
  put_inode-IsInode j = elim (inode_at-put j) [
    | inl (x, _) ↦ rw x proper
    | inr x ↦ rw x (v.inode j)
  ]

  pub put_inode_used :
      (j : ℕ)
      → (inode_at s.inodes j).used ≡ true
      → (inode_at (put_inode s i n).inodes j).used ≡ true
  put_inode_used j u = elim (inode_at-put j) [ inl (x, _) ↦ rw x live | inr x ↦ rw x u ]

  put_inode_unique :
      FreshName s i n
      → (j k : ℕ) → (inode_at (put_inode s i n).inodes j).used ≡ true
      → (inode_at (put_inode s i n).inodes k).used ≡ true
      → (inode_at (put_inode s i n).inodes j).name ≡ (inode_at (put_inode s i n).inodes k).name
      → j ≡ k
  put_inode_unique fresh j k u w e = elim (inode_at-put j) [
    | inl (x, p) ↦ elim (inode_at-put k) [
      | inl (y, q) ↦ omega arith
      | inr y ↦ elim (ℕ_discrete k i) [
        | yes r ↦ omega arith
        | no r ↦ absurd (fresh k r (rw y at w) (sym (rw (x, y) at e)))
      ]
    ]
    | inr x ↦ elim (inode_at-put k) [
      | inl (y, q) ↦ elim (ℕ_discrete j i) [
        | yes r ↦ omega arith
        | no r ↦ absurd (fresh j r (rw x at u) (rw (x, y) at e))
      ]
      | inr y ↦ v.unique j k (rw x at u) (rw y at w) (rw (x, y) at e)
    ]
  ]

  -- A file may be given anew, if its name stays its own.
  pub put_inode-IsFs : FreshName s i n → IsFs (put_inode s i n)
  unfolding put_inode
  put_inode-IsFs fresh = record {
    files = omega (arith, length-set s.inodes i n, v.files);
    inode = put_inode-IsInode;
    unique = put_inode_unique fresh;
    descriptors = λ p k j u e. put_inode_used j (v.descriptors p k j u e);
  }
