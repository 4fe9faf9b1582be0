-- ===== src/Fs/Listing.antt =====
-- fs/fs.c: what `fs_listdir` puts in the buffer.
use sugimotos.Prelude.{
  ℕ, ◌+◌, ◌<◌, ◌≡◌, refl, sym, ◌∙◌, true, false, List, [], ◌∷◌, ◌++◌, length, some, arith,
  Bool-cases, inl, inr, if◌then◌else◌, length-append, leb, ◌==◌,
}
use mathlib.Core.List.{append-nil, append_assoc}
use sugimotos.Fs.{Fs, Inode, Ext4}
use sugimotos.Fs.Calls.{list_inodes, fs_listdir, ext4_part}

-- The whole listing: a line for each used file.
abbrev pub entry : Inode → List ℕ
entry n = if n.used then n.name ++ 10 ∷ [] else []

abbrev pub listing : List Inode → List ℕ
listing [] = []
listing (n ∷ ns) = entry n ++ listing ns

line-length : (out name : List ℕ) → length (out ++ name ++ 10 ∷ []) ≡ length out + length name + 1
line-length out name =
    let e : length (out ++ name ++ 10 ∷ []) ≡ length (out ++ name) + 1 =
      length-append (out ++ name) (10 ∷ []) in
    let f : length (out ++ name) ≡ length out + length name = length-append out name in omega arith

list_inodes_fits :
    (ns : List Inode) (out : List ℕ) (len : ℕ)
    → length out < len
    → length (list_inodes ns out len) < len
unfolding list_inodes
list_inodes_fits [] out len h = h
list_inodes_fits (n ∷ ns) out len h = elim (Bool-cases n.used) [
  | inr u ↦ rw u (list_inodes_fits ns out len h)
  | inl u ↦ elim (Bool-cases (leb len (length out + length n.name + 1))) [
    | inl l ↦ rw (u, l) h
    | inr l ↦
        let e : length (out ++ n.name ++ 10 ∷ []) ≡ length out + length n.name + 1 =
          line-length out n.name in
        let b : length (out ++ n.name ++ 10 ∷ []) < len = ground arith in
        rw (u, l) (list_inodes_fits ns (out ++ n.name ++ 10 ∷ []) len b)
  ]
]

list_inodes_whole :
    (ns : List Inode) (out : List ℕ) (len : ℕ)
    → length out + length (listing ns) < len
    → list_inodes ns out len ≡ out ++ listing ns
unfolding list_inodes
list_inodes_whole [] out len h = sym (append-nil out)
list_inodes_whole (n ∷ ns) out len h = elim (Bool-cases n.used) [
  | inr u ↦ rw u (list_inodes_whole ns out len (rw u at h))
  | inl u ↦
      let h' : length out + length ((n.name ++ 10 ∷ []) ++ listing ns) < len = rw u at h in
      let e : length (out ++ n.name ++ 10 ∷ []) ≡ length out + length n.name + 1 =
        line-length out n.name in
      let f : length ((n.name ++ 10 ∷ []) ++ listing ns)
          ≡ length (n.name ++ 10 ∷ []) + length (listing ns) =
        length-append (n.name ++ 10 ∷ []) (listing ns) in
      let g : length (n.name ++ 10 ∷ []) ≡ length n.name + 1 = length-append n.name (10 ∷ []) in
      let l : leb len (length out + length n.name + 1) ≡ false = ground arith in
      let b : length (out ++ n.name ++ 10 ∷ []) + length (listing ns) < len = omega arith in
      rw (u, l)
        (list_inodes_whole ns (out ++ n.name ++ 10 ∷ []) len b
          ∙ rw (
            append_assoc (out ++ n.name) (10 ∷ []) (listing ns),
            append_assoc out n.name ((10 ∷ []) ++ listing ns),
            append_assoc n.name (10 ∷ []) (listing ns),
          ))
]

-- A directory listing that returns is shorter than the buffer, so that its NUL fits; and where there
-- is room for it, it is the ext4 part and then a line for every file, in the table's order.
pub fs_listdir_whole :
    (ext4 : Ext4) (s : Fs) (len : ℕ)
    → 0 < len
    → length (ext4_part ext4 s len) < len
    → (out : List ℕ) × (fs_listdir ext4 s true len ≡ some out)
      × (length out < len)
      × (length (ext4_part ext4 s len) + length (listing s.inodes) < len
          → out ≡ ext4_part ext4 s len ++ listing s.inodes)
unfolding fs_listdir
fs_listdir_whole ext4 s len p h =
    let z : len == 0 ≡ false = ground arith in
    (
      list_inodes s.inodes (ext4_part ext4 s len) len,
      rw z refl,
      list_inodes_fits s.inodes (ext4_part ext4 s len) len h,
      list_inodes_whole s.inodes (ext4_part ext4 s len) len,
    )
