-- ===== src/Fs/History.antt =====
-- fs/fs.c: the invariant holds after any history of file calls.
use sugimotos.Prelude.{
  ℕ, zero, suc, ◌≡◌, refl, Bool, true, false, List, [], ◌∷◌, length, replicate, Option, arith, ◌∙◌,
  length-replicate,
}
use sugimotos.Prelude.Int.{ℤ}
use sugimotos.Fs.{Fs, Ext4, Inode, inode_at, zero_inode, ramfs_data_max}
use sugimotos.Fs.Table.{alloc_inode, free_inode_from}
use sugimotos.Fs.Inv.{IsInode, IsFs, fd_of}
use sugimotos.Fs.Keep.{length-overwrite}
use sugimotos.Fs.Steps.{fs_open-IsFs, fs_close-IsFs, fs_read-IsFs, fs_write-IsFs}
use sugimotos.Fs.Unlink.{fs_unlink-IsFs, fs_rename-IsFs, zero_inode-IsInode}
use sugimotos.Fs.Calls.{
  fs_init, fs_open, fs_close, fs_read, fs_write, fs_unlink, fs_rename, overwrite, readme_name,
  readme_text,
}

-- A file call, or a switch of the current process.
pub data FsCall : Type 0 where
  opens : Option (List ℕ) → ℕ → FsCall
  closes : ℤ → FsCall
  reads : ℤ → Bool → ℕ → FsCall
  writes : ℤ → Option (List ℕ) → FsCall
  unlinks : Option (List ℕ) → FsCall
  renames : Option (List ℕ) → Option (List ℕ) → FsCall
  switches : ℕ → FsCall

unfoldable pub step : Ext4 → Fs → FsCall → Fs
step ext4 s (opens path flags) = (fs_open ext4 s path flags).0
step ext4 s (closes fd) = (fs_close s fd).0
step ext4 s (reads fd buf len) = (fs_read ext4 s fd buf len).0
step ext4 s (writes fd buf) = (fs_write s fd buf).0
step ext4 s (unlinks path) = (fs_unlink s path).0
step ext4 s (renames old new) = (fs_rename s old new).0
step ext4 s (switches p) = record s { current = p }

unfoldable pub run : Ext4 → Fs → List FsCall → Fs
run ext4 s [] = s
run ext4 s (c ∷ cs) = run ext4 (step ext4 s c) cs

switch-IsFs : (s : Fs) (p : ℕ) → IsFs s → IsFs (record s { current = p })
switch-IsFs s p v = record {
  files = v.files;
  inode = v.inode;
  unique = v.unique;
  descriptors = v.descriptors;
}

-- Every file call keeps the invariant: 32 whole buffers, sizes within them, names proper and
-- unique, and no descriptor open on an unused inode.
pub step-IsFs : (ext4 : Ext4) (s : Fs) (c : FsCall) → IsFs s → IsFs (step ext4 s c)
unfolding step
step-IsFs ext4 s (opens path flags) v = fs_open-IsFs ext4 s path flags v
step-IsFs ext4 s (closes fd) v = fs_close-IsFs s fd v
step-IsFs ext4 s (reads fd buf len) v = fs_read-IsFs ext4 s fd buf len v
step-IsFs ext4 s (writes fd buf) v = fs_write-IsFs s fd buf v
step-IsFs ext4 s (unlinks path) v = fs_unlink-IsFs s path v
step-IsFs ext4 s (renames old new) v = fs_rename-IsFs s old new v
step-IsFs ext4 s (switches p) v = switch-IsFs s p v

run-IsFs : (ext4 : Ext4) (cs : List FsCall) (s : Fs) → IsFs s → IsFs (run ext4 s cs)
unfolding run
run-IsFs ext4 [] s v = v
run-IsFs ext4 (c ∷ cs) s v = run-IsFs ext4 cs (step ext4 s c) (step-IsFs ext4 s c v)

abbrev readme_inode : Inode
readme_inode = record {
  used = true;
  name = readme_name;
  bytes = overwrite (replicate ramfs_data_max 0) 0 readme_text;
  size = length readme_text;
}

readme_inode-IsInode : IsInode readme_inode
readme_inode-IsInode = record {
  buffer =
      length-overwrite (replicate ramfs_data_max 0) 0 readme_text
      ∙ length-replicate {A = ℕ} ramfs_data_max 0;
  fits = omega arith;
  named = λ _. record { nonempty = λ e. cc; short = omega arith; flat = omega arith };
}

blank_inodes : (n j : ℕ) → inode_at (replicate n zero_inode) j ≡ zero_inode
blank_inodes zero j = refl
blank_inodes (suc n) zero = refl
blank_inodes (suc n) (suc j) = blank_inodes n j

-- The table that `fs_init` leaves.
init_inodes :
    (s : Fs)
    → s.fs_initialized ≡ false
    → (fs_init s).inodes ≡ readme_inode ∷ replicate 31 zero_inode
unfolding fs_init alloc_inode free_inode_from zero_inode
init_inodes s e = simp e

init_procs : (s : Fs) → (fs_init s).procs ≡ s.procs
unfolding fs_init
init_procs s = ground arith

init-IsInode : (j : ℕ) → IsInode (inode_at (readme_inode ∷ replicate 31 zero_inode) j)
init-IsInode zero = readme_inode-IsInode
init-IsInode (suc j) = rw (blank_inodes 31 j) zero_inode-IsInode

only_readme : (j : ℕ) → (inode_at (readme_inode ∷ replicate 31 zero_inode) j).used ≡ true → j ≡ 0
only_readme zero u = refl
only_readme (suc j) u = absurd (unused (rw (blank_inodes 31 j) at u))
  where
    unused : zero_inode.used ≡ true → ⊥
    unused h = unfold zero_inode in cc h

pub fs_init-IsFs :
    (s : Fs)
    → s.fs_initialized ≡ false
    → ((p k : ℕ) → (fd_of s.procs p k).used ≡ false)
    → IsFs (fs_init s)
fs_init-IsFs s e shut = record {
  files = rw (init_inodes s e) (omega arith);
  inode = rw (init_inodes s e) init-IsInode;
  unique = rw (init_inodes s e) (λ i j u w _. omega (arith, only_readme i u, only_readme j w));
  descriptors = λ p k i u q.
      let open_ : (fd_of s.procs p k).used ≡ true = rw (init_procs s) at u in
      absurd (ground (arith, shut p k));
}

-- After `fs_init` at boot, when no descriptor is open, every history of file calls keeps the
-- invariant: sizes fit their buffers, names are proper and unique, and each open descriptor is of a
-- used file.
pub run-fs_init-IsFs :
    (ext4 : Ext4) (s : Fs) (cs : List FsCall)
    → s.fs_initialized ≡ false
    → ((p k : ℕ) → (fd_of s.procs p k).used ≡ false)
    → IsFs (run ext4 (fs_init s) cs)
run-fs_init-IsFs ext4 s cs e shut = run-IsFs ext4 cs (fs_init s) (fs_init-IsFs s e shut)
