-- ===== src/Fs/Unlink.antt =====
-- fs/fs.c: removing and renaming files.
use sugimotos.Prelude.{
  ℕ, ◌≡◌, ◌≢◌, refl, sym, ap, ◌∙◌, true, List, get_or, set, get_or-set, Option, none, some, arith,
  Bool-cases, Option-cases, inl, inr, length-set, length-replicate, map, get_or-map,
}
use sugimotos.Prelude.Int.{pos}
use sugimotos.Proc.{Process, FileDesc, closed, proc_at, zero_process}
use sugimotos.Fs.{Fs, Inode, inode_at, fd_at, zero_inode, put_inode, ramfs_data_max}
use sugimotos.Fs.Names.{normalize_name, str_eq}
use sugimotos.Fs.Path.{IsName}
use sugimotos.Fs.Table.{find_inode_by_name}
use sugimotos.Fs.Lookup.{find_inode_by_name-some, find_inode_by_name-none}
use sugimotos.Fs.Inv.{IsInode, IsFs, fd_of, put_inode-IsFs}
use sugimotos.Fs.Keep.{normalize_name-IsName}
use sugimotos.Fs.Calls.{release_fd, release_process, release_fds, fs_unlink, rename_to, fs_rename}

-- What the loops of `fs_unlink` make of each descriptor.
pub fd_of-release_fds :
    (i : ℕ) (ps : List Process) (p k : ℕ)
    → fd_of (release_fds i ps) p k ≡ release_fd i (fd_of ps p k)
unfolding release_fds
fd_of-release_fds i ps p k =
    ap (λ (q : Process). fd_at q.fds k)
      (ap (get_or (map (release_process i) ps) p) blank
        ∙ get_or-map (release_process i) ps p zero_process)
    ∙ one (proc_at ps p)
  where
    blank : zero_process ≡ release_process i zero_process
    blank = unfold release_process release_fd zero_process in refl

    one : (q : Process) → fd_at (release_process i q).fds k ≡ release_fd i (fd_at q.fds k)
    one q = unfold release_process release_fd in get_or-map (release_fd i) q.fds k closed

-- A descriptor that is still open afterwards is of another file.
pub release_fd_open :
    (i j : ℕ) (d : FileDesc)
    → (release_fd i d).used ≡ true
    → (release_fd i d).inode ≡ pos j
    → (d.used ≡ true) × (d.inode ≡ pos j) × (j ≢ i)
unfolding release_fd
release_fd_open i j d u e = ground arith

pub zero_inode-IsInode : IsInode zero_inode
unfolding zero_inode
zero_inode-IsInode = record {
  buffer = length-replicate {A = ℕ} ramfs_data_max 0;
  fits = omega arith;
  named = λ e. cc;
}

module _ (s : Fs) (i : ℕ) (v : IsFs s) where
  removed : Fs
  removed = record s { procs = release_fds i s.procs; inodes = set s.inodes i zero_inode }

  inode_at-removed :
      (j : ℕ)
      → (inode_at removed.inodes j).used ≡ true
      → (inode_at removed.inodes j ≡ inode_at s.inodes j) × (j ≢ i)
  unfolding removed zero_inode
  inode_at-removed j u = ground (arith, get_or-set s.inodes i j zero_inode zero_inode)

  removed-IsInode : (j : ℕ) → IsInode (inode_at removed.inodes j)
  unfolding removed
  removed-IsInode j = elim (get_or-set s.inodes i j zero_inode zero_inode) [
    | inl (_, x, _) ↦ rw x zero_inode-IsInode
    | inr (inl (_, x)) ↦ rw x (v.inode j)
    | inr (inr (_, x, _, _)) ↦ rw x zero_inode-IsInode
  ]

  removed_unique :
      (j k : ℕ)
      → (inode_at removed.inodes j).used ≡ true
      → (inode_at removed.inodes k).used ≡ true
      → (inode_at removed.inodes j).name ≡ (inode_at removed.inodes k).name
      → j ≡ k
  removed_unique j k u w e =
      let (x, _) = inode_at-removed j u in
      let (y, _) = inode_at-removed k w in v.unique j k (rw x at u) (rw y at w) (rw (x, y) at e)

  inode_at-other : (j : ℕ) → j ≢ i → inode_at removed.inodes j ≡ inode_at s.inodes j
  unfolding removed
  inode_at-other j n = ground (arith, get_or-set s.inodes i j zero_inode zero_inode)

  removed_fd :
      (p k j : ℕ)
      → (fd_of removed.procs p k).used ≡ true
      → (fd_of removed.procs p k).inode ≡ pos j
      → ((fd_of s.procs p k).used ≡ true) × ((fd_of s.procs p k).inode ≡ pos j) × (j ≢ i)
  unfolding removed
  removed_fd p k j u e =
      let x = fd_of-release_fds i s.procs p k in
      release_fd_open i j (fd_of s.procs p k) (rw x at u) (rw x at e)

  removed-IsFs : IsFs removed
  unfolding removed
  removed-IsFs = record {
    files = omega (arith, length-set s.inodes i zero_inode, v.files);
    inode = removed-IsInode;
    unique = removed_unique;
    descriptors = λ p k j u e.
        let (a, b, n) = removed_fd p k j u e in
        let same : inode_at removed.inodes j ≡ inode_at s.inodes j = inode_at-other j n in
        rw same (v.descriptors p k j a b);
  }

  removed_name :
      (name : List ℕ)
      → (inode_at s.inodes i).used ≡ true
      → (inode_at s.inodes i).name ≡ name
      → find_inode_by_name removed.inodes name ≡ none
  removed_name name u e = elim (Option-cases (find_inode_by_name removed.inodes name)) [
    | inl h ↦ h
    | inr (j, h) ↦
        let (a, b, _) = find_inode_by_name-some removed.inodes name h in
        let (x, n) = inode_at-removed j a in
        absurd (n (v.unique j i (rw x at a) u (ap (λ (m : Inode). m.name) (sym x) ∙ b ∙ sym e)))
  ]

pub fs_unlink-IsFs : (s : Fs) (path : Option (List ℕ)) → IsFs s → IsFs (fs_unlink s path).0
unfolding fs_unlink
fs_unlink-IsFs s path v = elim (Option-cases (normalize_name path)) [
  | inl e ↦ rw (e, fs_unlink) v
  | inr (n, e) ↦ elim (Option-cases (find_inode_by_name s.inodes n)) [
    | inl d ↦ rw (e, fs_unlink) (rw (d, fs_unlink) v)
    | inr (i, d) ↦ rw (e, fs_unlink) (rw (d, fs_unlink) (unfold removed in removed-IsFs s i v))
  ]
]

-- `fs_unlink` of a file that is there returns 0. Its name is gone, no descriptor of any process is
-- open on its inode any more, and all other files and the descriptors of other inodes are as they
-- were.
pub fs_unlink_gone :
    (s : Fs) (path : Option (List ℕ)) (name : List ℕ) (i : ℕ)
    → IsFs s
    → normalize_name path ≡ some name
    → find_inode_by_name s.inodes name ≡ some i
    → let (s', r) = fs_unlink s path in
      (r ≡ some 0)
      × (find_inode_by_name s'.inodes name ≡ none)
      × ((p k : ℕ) → (fd_of s'.procs p k).used ≡ true → (fd_of s'.procs p k).inode ≢ pos i)
      × ((j : ℕ) → j ≢ i → inode_at s'.inodes j ≡ inode_at s.inodes j)
      × ((p k : ℕ) → (fd_of s.procs p k).inode ≢ pos i → fd_of s'.procs p k ≡ fd_of s.procs p k)
unfolding fs_unlink removed
fs_unlink_gone s path name i v e d =
    let (a, b, _) = find_inode_by_name-some s.inodes name d in
    rw (e, fs_unlink)
      (rw (d, fs_unlink)
        (
          refl,
          removed_name s i v name a b,
          (λ p k u q. (removed_fd s i v p k i u q).2 refl),
          inode_at-other s i v,
          (λ p k n. fd_of-release_fds i s.procs p k ∙ untouched (fd_of s.procs p k) n),
        ))
  where
    untouched : (f : FileDesc) → f.inode ≢ pos i → release_fd i f ≡ f
    untouched f n = unfold release_fd in ground arith

-- A rename gives one file a name that no other has.
pub renamed-IsFs :
    (s : Fs) (i : ℕ) (new : List ℕ)
    → IsFs s
    → IsName new
    → (inode_at s.inodes i).used ≡ true
    → find_inode_by_name s.inodes new ≡ none
    → IsFs (put_inode s i (record (inode_at s.inodes i) { name = new }))
renamed-IsFs s i new v nm u d =
    put_inode-IsFs s i (record (inode_at s.inodes i) { name = new }) v
      (record { buffer = (v.inode i).buffer; fits = (v.inode i).fits; named = λ _. nm }) u
      (λ j _ w. find_inode_by_name-none s.inodes new j d w)

rename_to-IsFs : (s : Fs) (old new : List ℕ) → IsFs s → IsName new → IsFs (rename_to s old new).0
unfolding rename_to
rename_to-IsFs s old new v nm = elim (Bool-cases (str_eq old new)) [
  | inl q ↦ rw q v
  | inr q ↦ elim (Option-cases (find_inode_by_name s.inodes old)) [
    | inl e ↦ rw q (rw (e, rename_to) v)
    | inr (i, e) ↦ elim (Option-cases (find_inode_by_name s.inodes new)) [
      | inr (j, d) ↦ rw q (rw (e, rename_to) (rw (d, rename_to) v))
      | inl d ↦ rw q (
          rw (e, rename_to)
            (rw (d, rename_to)
              (renamed-IsFs s i new v nm (find_inode_by_name-some s.inodes old e).0 d)))
    ]
  ]
]

pub fs_rename-IsFs : (s : Fs) (old new : Option (List ℕ)) → IsFs s → IsFs (fs_rename s old new).0
unfolding fs_rename
fs_rename-IsFs s old new v = elim (Option-cases (normalize_name old)) [
  | inl e ↦ rw (e, fs_rename) v
  | inr (o, e) ↦ elim (Option-cases (normalize_name new)) [
    | inl d ↦ rw (e, fs_rename) (rw (d, fs_rename) v)
    | inr (n, d) ↦
        rw (e, fs_rename)
          (rw (d, fs_rename) (rename_to-IsFs s o n v (normalize_name-IsName new n d)))
  ]
]
