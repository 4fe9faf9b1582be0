-- ===== src/Fs/Keep.antt =====
-- fs/fs.c: every file call keeps the invariant.
use sugimotos.Prelude.{
  ℕ, zero, suc, ◌+◌, ◌-◌, ◌≤◌, ◌≡◌, refl, ap, ◌∙◌, true, List, [], ◌∷◌, length, Option, none, some,
  arith, Bool-cases, Option-cases, inl, inr, take, if◌then◌else◌, leb, ltb, min,
}
use sugimotos.Prelude.Int.{ℤ, pos}
use sugimotos.Fs.{
  Fs, Inode, inode_at, fd_at, current_fds, put_fd, put_inode, ramfs_data_max, has_flag, o_trunc,
  o_append,
}
use sugimotos.Fs.Names.{normalize_name}
use sugimotos.Fs.Path.{IsName, normalize_name_iff}
use sugimotos.Fs.Table.{alloc_fd, install_fd}
use sugimotos.Fs.Inv.{IsInode, IsFs, FreshName, put_fd-IsFs, put_inode-IsFs, put_inode_used}
use sugimotos.Fs.Calls.{overwrite, open_inode, write_inode, read_inode}

-- The bytes of a fresh buffer, and of one that was written to.
pub length-overwrite :
    (xs : List ℕ) (at : ℕ) (bs : List ℕ) → length (overwrite xs at bs) ≡ length xs
unfolding overwrite
length-overwrite [] at bs = refl
length-overwrite (x ∷ xs) zero [] = refl
length-overwrite (x ∷ xs) zero (b ∷ bs) = ap suc (length-overwrite xs zero bs)
length-overwrite (x ∷ xs) (suc at) bs = ap suc (length-overwrite xs at bs)

pub normalize_name-IsName :
    (path : Option (List ℕ)) (n : List ℕ) → normalize_name path ≡ some n → IsName n
unfolding normalize_name
normalize_name-IsName none n h = absurd (ground arith)
normalize_name-IsName (some p) n h = ((normalize_name_iff p n).0 h).0

abbrev pub UsedFile : Fs → ℤ → Type 0
UsedFile s inode = (i : ℕ) → inode ≡ pos i → (inode_at s.inodes i).used ≡ true

pub install_fd-IsFs :
    (s : Fs) (inode : ℤ) (flags offset : ℕ)
    → IsFs s
    → UsedFile s inode
    → IsFs (install_fd s inode flags offset).0
unfolding install_fd
install_fd-IsFs s inode flags offset v ok = elim (Option-cases (alloc_fd (current_fds s))) [
  | inl e ↦ rw (e, install_fd) v
  | inr (fd, e) ↦ rw (e, install_fd) (put_fd-IsFs s fd _ v (λ i _. ok i))
]

pub fresh_same_name :
    (s : Fs) (i : ℕ) (n : Inode)
    → IsFs s
    → (inode_at s.inodes i).used ≡ true
    → n.name ≡ (inode_at s.inodes i).name
    → FreshName s i n
fresh_same_name s i n v u e = λ j r w q. r (v.unique j i w u (q ∙ e))

pub used_pos : (s : Fs) (i : ℕ) → (inode_at s.inodes i).used ≡ true → UsedFile s (pos i)
used_pos s i u = λ j q. let e : i ≡ j = ground arith in rw (← e) u

-- A file with its contents or its size given anew.
rewritten-IsInode :
    (n : Inode) (bs : List ℕ) (size : ℕ)
    → IsInode n
    → length bs ≡ ramfs_data_max
    → size ≤ ramfs_data_max
    → IsInode (record n { bytes = bs; size = size })
rewritten-IsInode n bs size v l h = record { buffer = l; fits = h; named = v.named }

module _ (s : Fs) (i : ℕ) (v : IsFs s) (u : (inode_at s.inodes i).used ≡ true) where
  rewrite-IsFs :
      (bs : List ℕ) (size : ℕ)
      → length bs ≡ ramfs_data_max
      → size ≤ ramfs_data_max
      → let s' = put_inode s i (record (inode_at s.inodes i) { bytes = bs; size = size }) in
        IsFs s' × ((inode_at s'.inodes i).used ≡ true)
  rewrite-IsFs bs size l h =
      let n : Inode = record (inode_at s.inodes i) { bytes = bs; size = size } in
      let proper : IsInode n = rewritten-IsInode (inode_at s.inodes i) bs size (v.inode i) l h in
      (
        put_inode-IsFs s i n v proper u (fresh_same_name s i n v u refl),
        put_inode_used s i n v proper u i u,
      )

module _ (s : Fs) (i : ℕ) (v : IsFs s) (u : (inode_at s.inodes i).used ≡ true) where
  pub open_inode-IsFs : (flags : ℕ) → IsFs (open_inode s i flags).0
  unfolding open_inode
  open_inode-IsFs flags = elim (Bool-cases (has_flag flags o_trunc)) [
    | inl e ↦
        let bs = (inode_at s.inodes i).bytes in
        let s' : Fs = put_inode s i (record (inode_at s.inodes i) { size = 0 }) in
        let (v', u') = rewrite-IsFs s i v u bs 0 (v.inode i).buffer (omega arith) in
        rw e (install_fd-IsFs s' (pos i) flags _ v' (used_pos s' i u'))
    | inr e ↦ rw e (install_fd-IsFs s (pos i) flags _ v (used_pos s i u))
  ]

  -- A descriptor moves to another offset.
  pub moved-IsFs :
      (fd offset : ℕ) → IsFs (put_fd s fd (record (fd_at (current_fds s) fd) { offset = offset }))
  moved-IsFs fd offset = put_fd-IsFs s fd _ v (v.descriptors s.current fd)

  pub write_inode-IsFs : (fd : ℕ) (buf : List ℕ) → IsFs (write_inode s fd i buf).0
  unfolding write_inode put_fd
  write_inode-IsFs fd buf =
      let d = fd_at (current_fds s) fd in
      let n = inode_at s.inodes i in
      let offset : ℕ = if has_flag d.flags o_append then n.size else d.offset in
      let count : ℕ = min (length buf) (ramfs_data_max - offset) in
      let size : ℕ = if ltb n.size (offset + count) then offset + count else n.size in
      let fits = (v.inode i).fits in
      elim (Bool-cases (leb ramfs_data_max offset)) [
        | inl e ↦ rw e (moved-IsFs fd offset)
        | inr e ↦
            rw e
              (rewrite-IsFs (put_fd s fd (record d { offset = offset + count })) i
                (moved-IsFs fd (offset + count)) u (overwrite n.bytes offset (take count buf)) size
                (length-overwrite n.bytes offset (take count buf) ∙ (v.inode i).buffer)
                (ground arith)).0
      ]

  pub read_inode-IsFs : (fd len : ℕ) → IsFs (read_inode s fd i len).0
  unfolding read_inode
  read_inode-IsFs fd len =
      let d = fd_at (current_fds s) fd in
      let n = inode_at s.inodes i in
      elim (Bool-cases (leb n.size d.offset)) [ inl e ↦ rw e v | inr e ↦ rw e (moved-IsFs fd _) ]
