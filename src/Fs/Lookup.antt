-- ===== src/Fs/Lookup.antt =====
-- fs/fs.c: what the searches of the tables find.
use sugimotos.Prelude.{
  ℕ, zero, suc, ◌+◌, ◌<◌, ◌≡◌, ◌≢◌, true, false, List, [], ◌∷◌, length, none, some, arith, ◌&&◌,
  Bool-cases, inl, inr,
}
use sugimotos.Proc.{FileDesc}
use sugimotos.Fs.{Inode, inode_at, fd_at, zero_inode}
use sugimotos.Fs.Names.{str_eq}
use sugimotos.Fs.Path.{str_eq_iff}
use sugimotos.Fs.Table.{
  find_from, find_inode_by_name, free_inode_from, alloc_inode, free_fd_from, alloc_fd,
}

find_from-some :
    (ns : List Inode) (name : List ℕ) (k : ℕ) {i : ℕ}
    → find_from ns name k ≡ some i
    → (j : ℕ) × (i ≡ k + j)
      × ((inode_at ns j).used ≡ true)
      × ((inode_at ns j).name ≡ name)
      × (j < length ns)
unfolding find_from zero_inode
find_from-some [] name k h = absurd (ground arith)
find_from-some (n ∷ ns) name k h = elim (Bool-cases (n.used && str_eq n.name name)) [
  | inl e ↦ (0, ground arith, ground arith, ground (arith, str_eq_iff n.name name), omega arith)
  | inr e ↦
      let (j, a, b, c, d) = find_from-some ns name (k + 1) (rw e at h) in
      (suc j, omega arith, b, c, omega arith)
]

find_from-none :
    (ns : List Inode) (name : List ℕ) (k j : ℕ)
    → find_from ns name k ≡ none
    → (inode_at ns j).used ≡ true
    → (inode_at ns j).name ≢ name
unfolding find_from zero_inode
find_from-none [] name k j h u = absurd (ground arith)
find_from-none (n ∷ ns) name k zero h u = ground (arith, str_eq_iff n.name name)
find_from-none (n ∷ ns) name k (suc j) h u = find_from-none ns name (k + 1) j (ground arith) u

pub find_inode_by_name-some :
    (ns : List Inode) (name : List ℕ) {i : ℕ}
    → find_inode_by_name ns name ≡ some i
    → ((inode_at ns i).used ≡ true) × ((inode_at ns i).name ≡ name) × (i < length ns)
unfolding find_inode_by_name
find_inode_by_name-some ns name {i} h =
    let (j, a, b, c, d) = find_from-some ns name 0 h in
    let e : i ≡ j = omega arith in rw e (b, c, d)

pub find_inode_by_name-none :
    (ns : List Inode) (name : List ℕ) (j : ℕ)
    → find_inode_by_name ns name ≡ none
    → (inode_at ns j).used ≡ true
    → (inode_at ns j).name ≢ name
unfolding find_inode_by_name
find_inode_by_name-none ns name j h u = find_from-none ns name 0 j h u

free_inode_from-some :
    (ns : List Inode) (k : ℕ) {i : ℕ}
    → free_inode_from ns k ≡ some i
    → (j : ℕ) × (i ≡ k + j) × ((inode_at ns j).used ≡ false) × (j < length ns)
unfolding free_inode_from
free_inode_from-some [] k h = absurd (ground arith)
free_inode_from-some (n ∷ ns) k h = elim (Bool-cases n.used) [
  | inl e ↦
      let (j, a, b, d) = free_inode_from-some ns (k + 1) (rw e at h) in
      (suc j, omega arith, b, omega arith)
  | inr e ↦ (0, ground arith, e, omega arith)
]

pub alloc_inode-some :
    (ns : List Inode) {i : ℕ}
    → alloc_inode ns ≡ some i
    → ((inode_at ns i).used ≡ false) × (i < length ns)
unfolding alloc_inode
alloc_inode-some ns {i} h =
    let (j, a, b, d) = free_inode_from-some ns 0 h in let e : i ≡ j = omega arith in rw e (b, d)

free_fd_from-some :
    (ds : List FileDesc) (k : ℕ) {i : ℕ}
    → free_fd_from ds k ≡ some i
    → (j : ℕ) × (i ≡ k + j) × ((fd_at ds j).used ≡ false) × (j < length ds)
unfolding free_fd_from
free_fd_from-some [] k h = absurd (ground arith)
free_fd_from-some (n ∷ ns) k h = elim (Bool-cases n.used) [
  | inl e ↦
      let (j, a, b, d) = free_fd_from-some ns (k + 1) (rw e at h) in
      (suc j, omega arith, b, omega arith)
  | inr e ↦ (0, ground arith, e, omega arith)
]

pub alloc_fd-some :
    (ds : List FileDesc) {i : ℕ}
    → alloc_fd ds ≡ some i
    → ((fd_at ds i).used ≡ false) × (i < length ds)
unfolding alloc_fd
alloc_fd-some ds {i} h =
    let (j, a, b, d) = free_fd_from-some ds 0 h in let e : i ≡ j = omega arith in rw e (b, d)
