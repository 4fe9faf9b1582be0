-- ===== src/Fs/Open.antt =====
-- fs/fs.c: what `fs_open` opens.
use sugimotos.Prelude.{
  ℕ, ◌<◌, ◌≡◌, refl, sym, ap, ap₂, ◌∙◌, true, false, List, length, Option, none, some, arith, inl,
  inr, if◌then◌else◌, Option-cases, Bool-cases, get_or-set_self,
}
use sugimotos.Prelude.Int.{ℤ, pos}
use sugimotos.Proc.{Process, FileDesc, closed, proc_at, zero_process}
use sugimotos.Fs.{
  Fs, Inode, Ext4, inode_at, fd_at, current_fds, put_fd, put_inode, has_flag, o_append, o_trunc,
}
use sugimotos.Fs.Names.{normalize_name}
use sugimotos.Fs.Path.{IsName}
use sugimotos.Fs.Table.{install_fd, alloc_fd, find_inode_by_name}
use sugimotos.Fs.Lookup.{alloc_fd-some}
use sugimotos.Fs.Inv.{IsFs, inode_at-put_self}
use sugimotos.Fs.Keep.{normalize_name-IsName}
use sugimotos.Fs.Contents.{used_in_range}
use sugimotos.Fs.Steps.{Ensured, ensure_ramfs_inode-Ensured}
use sugimotos.Fs.Calls.{
  open_inode, ensure_ramfs_inode, open_ramfs, open_name, open_ext4_readonly, fs_open,
}

-- The state in which the descriptor is taken, after the truncation that may be asked for.
abbrev pub truncated : Fs → ℕ → ℕ → Fs
truncated s i flags =
    if has_flag flags o_trunc then put_inode s i (record (inode_at s.inodes i) { size = 0 }) else s

-- What an `fs_open` that returns descriptor `k` has done, when it found or made file `i` in `s`.
pub record Opened (before s' : Fs) (name : List ℕ) (flags i k : ℕ) : Type 0 where
  pub was_free : (fd_at (current_fds before) k).used ≡ false
  pub live : (inode_at s'.inodes i).used ≡ true
  pub its_name : (inode_at s'.inodes i).name ≡ name
  pub desc : fd_at (current_fds s') k ≡ record {
    used = true;
    inode = pos i;
    offset = if has_flag flags o_append then (inode_at s'.inodes i).size else 0;
    flags = flags;
  }
  pub emptied : has_flag flags o_trunc ≡ true → (inode_at s'.inodes i).size ≡ 0

-- A descriptor that is put where there is room for it is there.
fd_at-put_fd_self :
    (s : Fs) (k : ℕ) (d : FileDesc)
    → s.current < length s.procs
    → k < length (current_fds s)
    → fd_at (current_fds (put_fd s k d)) k ≡ d
unfolding put_fd
fd_at-put_fd_self s k d c h =
    ap (λ (p : Process). fd_at p.fds k) (get_or-set_self s.procs s.current _ zero_process c)
    ∙ get_or-set_self (current_fds s) k d closed h

install_fd-some :
    (s : Fs) (inode : ℤ) (flags offset k : ℕ)
    → s.current < length s.procs
    → (install_fd s inode flags offset).1 ≡ some k
    → let s' = (install_fd s inode flags offset).0 in
      ((fd_at (current_fds s) k).used ≡ false)
      × (fd_at (current_fds s') k
          ≡ record { used = true; inode = inode; offset = offset; flags = flags })
      × (s'.inodes ≡ s.inodes)
unfolding install_fd put_fd
install_fd-some s inode flags offset k c h = elim (Option-cases (alloc_fd (current_fds s))) [
  | inl e ↦ absurd (cc (rw (e, install_fd) at h))
  | inr (j, e) ↦
      let h' : some j ≡ some k = rw (e, install_fd) at h in
      let same : j ≡ k = ground arith in
      let (free, l) = alloc_fd-some (current_fds s) e in
      rw (e, install_fd) (rw (← same) (free, fd_at-put_fd_self s j _ c l, refl))
]

-- The end of `fs_open`, on file `m`.
opened :
    (s s1 : Fs) (m : Inode) (name : List ℕ) (i flags k : ℕ)
    → current_fds s1 ≡ current_fds s
    → s1.current < length s1.procs
    → inode_at s1.inodes i ≡ m
    → m.used ≡ true
    → m.name ≡ name
    → (has_flag flags o_trunc ≡ true → m.size ≡ 0)
    → (install_fd s1 (pos i) flags (if has_flag flags o_append then m.size else 0)).1 ≡ some k
    → Opened s
        (install_fd s1 (pos i) flags (if has_flag flags o_append then m.size else 0)).0
        name
        flags
        i
        k
opened s s1 m name i flags k same c x u n z h =
    let offset : ℕ = if has_flag flags o_append then m.size else 0 in
    let s' : Fs = (install_fd s1 (pos i) flags offset).0 in
    let (free, slot, kept) = install_fd-some s1 (pos i) flags offset k c h in
    let y : inode_at s'.inodes i ≡ m = ap (λ l. inode_at l i) kept ∙ x in
    record {
      was_free = ap (λ l. (fd_at l k).used) (sym same) ∙ free;
      live = rw y u;
      its_name = rw y n;
      desc = rw y slot;
      emptied = rw y z;
    }

module _ (s : Fs) (i flags k : ℕ) (name : List ℕ) (c : s.current < length s.procs)
    (u : (inode_at s.inodes i).used ≡ true) (n : (inode_at s.inodes i).name ≡ name) where
  open_inode-Opened :
      (open_inode s i flags).1 ≡ some k → Opened s (open_inode s i flags).0 name flags i k
  unfolding open_inode
  open_inode-Opened h = elim (Bool-cases (has_flag flags o_trunc)) [
    | inl e ↦
        let m : Inode = record (inode_at s.inodes i) { size = 0 } in
        rw e (
          opened s (put_inode s i m) m name i flags k (unfold put_inode in refl)
            (unfold put_inode in c) (inode_at-put_self s i m (used_in_range s.inodes i u)) u n
            (λ _. refl) (rw e at h))
    | inr e ↦ rw e (
        opened s s (inode_at s.inodes i) name i flags k refl c refl u n
          (λ t. absurd (ground (arith, t, e))) (rw e at h))
  ]

ensure_keeps_procs :
    (s : Fs) (name : List ℕ) (flags : ℕ)
    → let s' = (ensure_ramfs_inode s name flags).0 in
      (s'.procs ≡ s.procs) × (s'.current ≡ s.current)
unfolding ensure_ramfs_inode put_inode
ensure_keeps_procs s name flags = ground arith

no_ext4 :
    (ext4 : Ext4) (s : Fs) (name : List ℕ) (flags : ℕ)
    → s.ext4_ready ≡ false
    → open_ext4_readonly ext4 s name flags ≡ (s, none)
unfolding open_ext4_readonly
no_ext4 ext4 s name flags e = simp e

pub open_name-open_ramfs :
    (ext4 : Ext4) (s : Fs) (name : List ℕ) (flags : ℕ)
    → s.ext4_ready ≡ false
    → open_name ext4 s name flags ≡ open_ramfs ext4 s name flags
unfolding open_name
open_name-open_ramfs ext4 s name flags e = elim (Option-cases (find_inode_by_name s.inodes name)) [
  | inr (i, f) ↦ rw (f, open_name) refl
  | inl f ↦
      rw (f, open_name)
        (ap {A = Fs × Option ℕ} {B = Fs × Option ℕ}
          (λ r. elim r.1 [ some fd ↦ (r.0, some fd) | none ↦ open_ramfs ext4 r.0 name flags ])
          (no_ext4 ext4 s name flags e))
]

open_ramfs-Opened :
    (ext4 : Ext4) (s : Fs) (name : List ℕ) (flags k : ℕ)
    → IsFs s
    → IsName name
    → s.current < length s.procs
    → (open_ramfs ext4 s name flags).1 ≡ some k
    → (i : ℕ) × Opened s (open_ramfs ext4 s name flags).0 name flags i k
unfolding open_ramfs
open_ramfs-Opened ext4 s name flags k v nm c =
    go (ensure_ramfs_inode s name flags) (ensure_ramfs_inode-Ensured s name flags v nm)
      (ensure_keeps_procs s name flags)
  where
    finish : Fs × Option ℕ → Fs × Option ℕ
    finish r = elim r.1 [ none ↦ (r.0, none) | some i ↦ open_inode r.0 i flags ]

    go :
        (r : Fs × Option ℕ)
        → Ensured s name r
        → (r.0.procs ≡ s.procs) × (r.0.current ≡ s.current)
        → (finish r).1 ≡ some k
        → (i : ℕ) × Opened s (finish r).0 name flags i k
    go (s1, none) e p h = absurd (cc h)
    go (s1, some i) (_, u, n) (p, q) h =
        let o : Opened s1 (open_inode s1 i flags).0 name flags i k =
          open_inode-Opened s1 i flags k name (rw (p, q) c) u n h in
        (
          i,
          record {
            was_free =
                ap (λ d. d.used) (ap₂ (λ ps cur. fd_at (proc_at ps cur).fds k) (sym p) (sym q))
                ∙ o.was_free;
            live = o.live;
            its_name = o.its_name;
            desc = o.desc;
            emptied = o.emptied;
          },
        )

-- While the ext4 volume is not mounted, an `fs_open` that returns a descriptor has taken one that
-- was free, on a used file of exactly the name that the path stands for. The descriptor stands at
-- the end of the file under `O_APPEND`, else at its start, and under `O_TRUNC` the file is empty.
pub fs_open-Opened :
    (ext4 : Ext4) (s : Fs) (path : Option (List ℕ)) (flags k : ℕ)
    → IsFs s
    → s.current < length s.procs
    → s.ext4_ready ≡ false
    → (fs_open ext4 s path flags).1 ≡ some k
    → (name : List ℕ) × (i : ℕ) × (normalize_name path ≡ some name)
      × Opened s (fs_open ext4 s path flags).0 name flags i k
unfolding fs_open
fs_open-Opened ext4 s path flags k v c x h = elim (Option-cases (normalize_name path)) [
  | inl e ↦ absurd (cc (rw (e, fs_open) at h))
  | inr (name, e) ↦
      let h' : (open_ramfs ext4 s name flags).1 ≡ some k =
        rw (open_name-open_ramfs ext4 s name flags x) at (rw (e, fs_open) at h) in
      let (i, o) =
        open_ramfs-Opened ext4 s name flags k v (normalize_name-IsName path name e) c h' in
      (name, i, e, rw (e, fs_open) (rw (open_name-open_ramfs ext4 s name flags x) o))
]
