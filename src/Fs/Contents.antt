-- ===== src/Fs/Contents.antt =====
-- fs/fs.c: what is written is what is read.
use sugimotos.Prelude.{
  ℕ, zero, suc, ◌+◌, ◌-◌, ◌≤◌, ◌<◌, ◌≡◌, ◌≢◌, refl, ap, ◌∙◌, true, false, List, [], ◌∷◌, length,
  Option, some, arith, take, drop, min, inl, inr, leb, ltb, ◌==◌, ◌||◌, if◌then◌else◌,
}
use sugimotos.Prelude.Int.{pos}
use sugimotos.Proc.{FileDesc}
use sugimotos.Fs.{
  Fs, Inode, Ext4, inode_at, fd_at, current_fds, put_fd, put_inode, zero_inode, ramfs_data_max,
  has_flag, access_mode, o_wronly, o_rdwr, o_append,
}
use sugimotos.Fs.Table.{get_open_fd}
use sugimotos.Fs.Steps.{get_open_fd-some}
use sugimotos.Fs.Inv.{IsFs, fd_of-put_fd, inode_at-put_self}
use sugimotos.Fs.Calls.{overwrite, write_inode, read_inode, fs_write, fs_read}

-- The bytes written stand where they were written.
take-drop-overwrite :
    (xs : List ℕ) (at : ℕ) (bs : List ℕ)
    → at + length bs ≤ length xs
    → take (length bs) (drop at (overwrite xs at bs)) ≡ bs
unfolding overwrite
take-drop-overwrite [] zero [] h = refl
take-drop-overwrite [] zero (b ∷ bs) h = absurd (omega arith)
take-drop-overwrite [] (suc at) bs h = absurd (omega arith)
take-drop-overwrite (x ∷ xs) zero [] h = refl
take-drop-overwrite (x ∷ xs) zero (b ∷ bs) h =
    ap (λ l. b ∷ l) (take-drop-overwrite xs zero bs (omega arith))
take-drop-overwrite (x ∷ xs) (suc at) bs h = take-drop-overwrite xs at bs (omega arith)

take_all : (xs : List ℕ) → take (length xs) xs ≡ xs
take_all [] = refl
take_all (x ∷ xs) = ap (λ l. x ∷ l) (take_all xs)

-- Bytes before and behind the write are as they were.
pub overwrite_outside :
    (xs : List ℕ) (at : ℕ) (bs : List ℕ)
    → (take at (overwrite xs at bs) ≡ take at xs)
      × (drop (at + length bs) (overwrite xs at bs) ≡ drop (at + length bs) xs)
unfolding overwrite
overwrite_outside [] at bs = (refl, refl)
overwrite_outside (x ∷ xs) zero [] = (refl, refl)
overwrite_outside (x ∷ xs) zero (b ∷ bs) =
    let e : 0 + suc (length bs) ≡ suc (0 + length bs) = omega arith in
    rw e (refl, (overwrite_outside xs 0 bs).1)
overwrite_outside (x ∷ xs) (suc at) bs =
    let e : suc at + length bs ≡ suc (at + length bs) = omega arith in
    let (before, behind) = overwrite_outside xs at bs in rw e (ap (λ l. x ∷ l) before, behind)

pub fd_at-put_fd_ne :
    (s : Fs) (a b : ℕ) (d : FileDesc)
    → b ≢ a
    → fd_at (current_fds (put_fd s a d)) b ≡ fd_at (current_fds s) b
fd_at-put_fd_ne s a b d n = elim (fd_of-put_fd s a d s.current b) [
  | inl (_, _, e) ↦ absurd (n e)
  | inr e ↦ unfold put_fd in unfold put_fd in e
]

-- A write through descriptor `a` that fits, and does not append.
module _ (s : Fs) (a i : ℕ) (buf : List ℕ) (v : IsFs s)
    (fits : (fd_at (current_fds s) a).offset + length buf ≤ ramfs_data_max)
    (some_room : (fd_at (current_fds s) a).offset < ramfs_data_max)
    (plain : has_flag (fd_at (current_fds s) a).flags o_append ≡ false)
    (in_range : i < length s.inodes) where
  abbrev pub start : ℕ
  start = (fd_at (current_fds s) a).offset

  pub write_inode_fits : write_inode s a i buf ≡ (
    put_inode
        (put_fd s a (record (fd_at (current_fds s) a) { offset = start + length buf }))
        i
        (record (inode_at s.inodes i) {
          bytes = overwrite (inode_at s.inodes i).bytes start buf;
          size =
              if ltb (inode_at s.inodes i).size (start + length buf)
              then start + length buf
              else (inode_at s.inodes i).size;
        }),
    some (length buf),
  )
  unfolding write_inode
  write_inode_fits =
      let room : leb ramfs_data_max start ≡ false = ground arith in
      let count : min (length buf) (ramfs_data_max - start) ≡ length buf = omega arith in
      rw plain (rw room (rw count (rw (take_all buf) refl)))

pub used_in_range : (ns : List Inode) (i : ℕ) → (inode_at ns i).used ≡ true → i < length ns
unfolding zero_inode
used_in_range [] i u = absurd (cc u)
used_in_range (n ∷ ns) zero u = omega arith
used_in_range (n ∷ ns) (suc i) u = omega (arith, used_in_range ns i u)

pub fs_write-write_inode :
    (s : Fs) (a i : ℕ) (buf : List ℕ)
    → get_open_fd s (pos a) ≡ some a
    → (fd_at (current_fds s) a).inode ≡ pos i
    → (access_mode (fd_at (current_fds s) a).flags == o_wronly
        || access_mode (fd_at (current_fds s) a).flags == o_rdwr)
      ≡ true
    → fs_write s (pos a) (some buf) ≡ write_inode s a i buf
unfolding fs_write
fs_write-write_inode s a i buf o f m = rw (o, fs_write) (rw (f, fs_write) (rw m refl))

fs_read-read_inode :
    (ext4 : Ext4) (s : Fs) (b i len : ℕ)
    → get_open_fd s (pos b) ≡ some b
    → (fd_at (current_fds s) b).inode ≡ pos i
    → (access_mode (fd_at (current_fds s) b).flags == o_wronly) ≡ false
    → fs_read ext4 s (pos b) true len ≡ read_inode s b i len
unfolding fs_read
fs_read-read_inode ext4 s b i len o f m = rw (o, fs_read) (rw m (rw (f, fs_read) refl))

-- A read of bytes that the file holds.
read_inode_holds :
    (s : Fs) (b i len : ℕ)
    → 0 < len
    → (fd_at (current_fds s) b).offset + len ≤ (inode_at s.inodes i).size
    → (read_inode s b i len).1
      ≡ some (take len (drop (fd_at (current_fds s) b).offset (inode_at s.inodes i).bytes))
unfolding read_inode
read_inode_holds s b i len pos_ h =
    let d = fd_at (current_fds s) b in
    let n = inode_at s.inodes i in
    let more : leb n.size d.offset ≡ false = ground arith in
    let count : min len (n.size - d.offset) ≡ len = omega arith in rw more (rw count refl)

-- A descriptor of the file at hand, in the state after the write.
pub get_open_fd_same :
    (s t : Fs) (b : ℕ)
    → fd_at (current_fds t) b ≡ fd_at (current_fds s) b
    → get_open_fd t (pos b) ≡ get_open_fd s (pos b)
unfolding get_open_fd
get_open_fd_same s t b e = rw e refl

pub read_back :
    (ext4 : Ext4) (t : Fs) (b i len : ℕ) (d : FileDesc) (n : Inode)
    → get_open_fd t (pos b) ≡ some b
    → fd_at (current_fds t) b ≡ d
    → inode_at t.inodes i ≡ n
    → d.inode ≡ pos i
    → (access_mode d.flags == o_wronly) ≡ false
    → 0 < len
    → d.offset + len ≤ n.size
    → (fs_read ext4 t (pos b) true len).1 ≡ some (take len (drop d.offset n.bytes))
read_back ext4 t b i len d n ob ed en f rd full h =
    let f' : (fd_at (current_fds t) b).inode ≡ pos i = rw ed f in
    let rd' : (access_mode (fd_at (current_fds t) b).flags == o_wronly) ≡ false = rw ed rd in
    let h' : (fd_at (current_fds t) b).offset + len ≤ (inode_at t.inodes i).size = rw (ed, en) h in
    ap (λ (r : Fs × Option (List ℕ)). r.1) (fs_read-read_inode ext4 t b i len ob f' rd')
    ∙ read_inode_holds t b i len full h'
    ∙ rw (ed, en) refl

-- A write that fits, through a descriptor that does not append, is taken whole; and a read of as
-- many bytes through another descriptor of the process that stands at the same offset of the same
-- file returns exactly the bytes written.
pub fs_write_read :
    (ext4 : Ext4) (s : Fs) (a b i : ℕ) (buf : List ℕ)
    → IsFs s
    → get_open_fd s (pos a) ≡ some a
    → get_open_fd s (pos b) ≡ some b
    → b ≢ a
    → (fd_at (current_fds s) a).inode ≡ pos i
    → (fd_at (current_fds s) b).inode ≡ pos i
    → (access_mode (fd_at (current_fds s) a).flags == o_wronly
        || access_mode (fd_at (current_fds s) a).flags == o_rdwr)
      ≡ true
    → (access_mode (fd_at (current_fds s) b).flags == o_wronly) ≡ false
    → has_flag (fd_at (current_fds s) a).flags o_append ≡ false
    → (fd_at (current_fds s) b).offset ≡ (fd_at (current_fds s) a).offset
    → 0 < length buf
    → (fd_at (current_fds s) a).offset + length buf ≤ ramfs_data_max
    → let (s', r) = fs_write s (pos a) (some buf) in
      (r ≡ some (length buf)) × ((fs_read ext4 s' (pos b) true (length buf)).1 ≡ some buf)
fs_write_read ext4 s a b i buf v oa ob ne fa fb wr rd plain same full fits =
    rw (fs_write-write_inode s a i buf oa fa wr) (
      rw (write_inode_fits s a i buf v fits (omega arith) plain range) (
        refl,
        read_back ext4 s' b i (length buf) (fd_at (current_fds s) b) n
              (get_open_fd_same s s' b kept ∙ ob) kept new fb rd full (ground (arith, same))
            ∙ ap (λ l. some l)
                (rw same (take-drop-overwrite (inode_at s.inodes i).bytes start buf room)),
      ))
  where
    range : i < length s.inodes
    range =
        used_in_range s.inodes i
          (v.descriptors s.current a i (get_open_fd-some s (pos a) a oa).0 fa)

    start : ℕ
    start = (fd_at (current_fds s) a).offset

    n : Inode
    n = record (inode_at s.inodes i) {
      bytes = overwrite (inode_at s.inodes i).bytes start buf;
      size =
          if ltb (inode_at s.inodes i).size (start + length buf)
          then start + length buf
          else (inode_at s.inodes i).size;
    }

    s1 : Fs
    s1 = put_fd s a (record (fd_at (current_fds s) a) { offset = start + length buf })

    s' : Fs
    s' = put_inode s1 i n

    kept : fd_at (current_fds s') b ≡ fd_at (current_fds s) b
    kept = unfold put_inode in fd_at-put_fd_ne s a b _ ne

    new : inode_at s'.inodes i ≡ n
    new = inode_at-put_self s1 i n (unfold put_fd in range)

    room : start + length buf ≤ length (inode_at s.inodes i).bytes
    room = omega (arith, (v.inode i).buffer)
