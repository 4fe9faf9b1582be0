-- ===== src/Fs/Calls.antt =====
-- fs/fs.c: the file calls.
use sugimotos.Prelude.{
  ℕ, zero, suc, ◌+◌, ◌-◌, Bool, true, false, not, ◌&&◌, ◌||◌, List, [], ◌∷◌, ◌++◌, map, length,
  take, drop, replicate, set, Option, none, some, ltb, leb, ◌==◌, if◌then◌else◌, min, add32,
}
use sugimotos.Prelude.Int.{ℤ, pos, negsuc}
use sugimotos.Proc.{Process, FileDesc, closed}
use sugimotos.Fs.{
  Fs, Inode, Ext4, zero_inode, inode_at, fd_at, current_fds, put_fd, put_inode, ramfs_max_files,
  ramfs_data_max, o_rdonly, o_wronly, o_rdwr, o_creat, o_trunc, o_append, has_flag, access_mode,
}
use sugimotos.Fs.Names.{str_eq, normalize_name}
use sugimotos.Fs.Table.{find_inode_by_name, alloc_inode, get_open_fd, install_fd}

-- `memcpy(&xs[at], bs, n)` for the bytes `bs`.
unfoldable pub overwrite : List ℕ → ℕ → List ℕ → List ℕ
overwrite [] at bs = []
overwrite (x ∷ xs) zero [] = x ∷ xs
overwrite (x ∷ xs) zero (b ∷ bs) = b ∷ overwrite xs zero bs
overwrite (x ∷ xs) (suc at) bs = x ∷ overwrite xs at bs

abbrev pub readme_name : List ℕ
readme_name = b'R' ∷ b'E' ∷ b'A' ∷ b'D' ∷ b'M' ∷ b'E' ∷ []

abbrev pub readme_text : List ℕ
readme_text = b'r' ∷ b'a' ∷ b'm' ∷ b'f' ∷ b's' ∷ 32 ∷ b'r' ∷ b'e' ∷ b'a' ∷ b'd' ∷ b'y' ∷ 10 ∷ []

unfoldable pub fs_init : Fs → Fs
fs_init s =
    if s.fs_initialized
    then s
    else let blank = replicate ramfs_max_files zero_inode in
      let readme : List Inode = elim (alloc_inode blank) [
        | none ↦ blank
        | some i ↦ set blank i (record {
          used = true;
          name = readme_name;
          bytes = overwrite (replicate ramfs_data_max 0) 0 readme_text;
          size = length readme_text;
        })
      ] in
      record s { inodes = readme; ext4_ready = false; fs_initialized = true }

-- The inode of that name, made anew under `O_CREAT`.
unfoldable pub ensure_ramfs_inode : Fs → List ℕ → ℕ → Fs × Option ℕ
ensure_ramfs_inode s name flags = elim (find_inode_by_name s.inodes name) [
  | some i ↦ (s, some i)
  | none ↦ if not (has_flag flags o_creat) then (s, none) else elim (alloc_inode s.inodes) [
    | none ↦ (s, none)
    | some i ↦ (put_inode s i (record zero_inode { used = true; name = name }), some i)
  ]
]

-- The end of `fs_open`, with the inode at hand.
unfoldable pub open_inode : Fs → ℕ → ℕ → Fs × Option ℕ
open_inode s i flags =
    let n = inode_at s.inodes i in
    let size = if has_flag flags o_trunc then 0 else n.size in
    let s' = if has_flag flags o_trunc then put_inode s i (record n { size = 0 }) else s in
    install_fd s' (pos i) flags (if has_flag flags o_append then size else 0)

unfoldable pub fs_close : Fs → ℤ → Fs × Option ℕ
fs_close s fd = elim (get_open_fd s fd) [ none ↦ (s, none) | some i ↦ (put_fd s i closed, some 0) ]

-- The write once its descriptor is known to be writable and of the RAM file system. It returns the
-- number of bytes written.
unfoldable pub write_inode : Fs → ℕ → ℕ → List ℕ → Fs × Option ℕ
write_inode s fd i buf =
    let d = fd_at (current_fds s) fd in
    let n = inode_at s.inodes i in
    let offset = if has_flag d.flags o_append then n.size else d.offset in
    if leb ramfs_data_max offset
    then (put_fd s fd (record d { offset = offset }), some 0)
    else let count = min (length buf) (ramfs_data_max - offset) in
      let end_ = offset + count in
      let n' = record n {
        bytes = overwrite n.bytes offset (take count buf);
        size = if ltb n.size end_ then end_ else n.size;
      } in
      (put_inode (put_fd s fd (record d { offset = end_ })) i n', some count)

-- The list holds the `len` bytes at `buf`; `none` is the null pointer.
unfoldable pub fs_write : Fs → ℤ → Option (List ℕ) → Fs × Option ℕ
fs_write s fd none = (s, none)
fs_write s fd (some buf) = elim (get_open_fd s fd) [
  | none ↦ (s, none)
  | some k ↦
      let d = fd_at (current_fds s) k in
      elim d.inode [
        | negsuc e ↦ (s, none)
        | pos i ↦
            if access_mode d.flags == o_wronly || access_mode d.flags == o_rdwr
            then write_inode s k i buf
            else (s, none)
      ]
]

unfoldable pub release_fd : ℕ → FileDesc → FileDesc
release_fd inode d = elim d.inode [
  | negsuc e ↦ d
  | pos i ↦ if d.used && i == inode then record d { used = false } else d
]

unfoldable pub release_process : ℕ → Process → Process
release_process inode p = record p { fds = map (release_fd inode) p.fds }

-- The two loops over the descriptors of all processes.
unfoldable pub release_fds : ℕ → List Process → List Process
release_fds inode ps = map (release_process inode) ps

unfoldable pub fs_unlink : Fs → Option (List ℕ) → Fs × Option ℕ
fs_unlink s path = elim (normalize_name path) [
  | none ↦ (s, none)
  | some name ↦ elim (find_inode_by_name s.inodes name) [
    | none ↦ (s, none)
    | some i ↦
        (record s { procs = release_fds i s.procs; inodes = set s.inodes i zero_inode }, some 0)
  ]
]

-- The rename of one name to another.
unfoldable pub rename_to : Fs → List ℕ → List ℕ → Fs × Option ℕ
rename_to s old new =
    if str_eq old new then (s, some 0) else elim (find_inode_by_name s.inodes old) [
      | none ↦ (s, none)
      | some i ↦ elim (find_inode_by_name s.inodes new) [
        | some j ↦ (s, none)
        | none ↦ (put_inode s i (record (inode_at s.inodes i) { name = new }), some 0)
      ]
    ]

unfoldable pub fs_rename : Fs → Option (List ℕ) → Option (List ℕ) → Fs × Option ℕ
fs_rename s old_path new_path = elim (normalize_name old_path) [
  | none ↦ (s, none)
  | some old ↦ elim (normalize_name new_path) [ none ↦ (s, none) | some new ↦ rename_to s old new ]
]

-- The listing loop over the rest of the inodes, with the bytes put out so far.
unfoldable pub list_inodes : List Inode → List ℕ → ℕ → List ℕ
list_inodes [] out len = out
list_inodes (n ∷ ns) out len =
    let rest = list_inodes ns (if n.used then out ++ n.name ++ 10 ∷ [] else out) len in
    if n.used && leb len (length out + length n.name + 1) then out else rest

-- The bytes that a read puts in the buffer; their number is what the call returns.
unfoldable pub read_inode : Fs → ℕ → ℕ → ℕ → Fs × Option (List ℕ)
read_inode s fd i len =
    let d = fd_at (current_fds s) fd in
    let n = inode_at s.inodes i in
    if leb n.size d.offset
    then (s, some [])
    else let count = min len (n.size - d.offset) in
      (
        put_fd s fd (record d { offset = d.offset + count }),
        some (take count (drop d.offset n.bytes)),
      )

module _ (ext4 : Ext4) where
  unfoldable pub open_ext4_readonly : Fs → List ℕ → ℕ → Fs × Option ℕ
  open_ext4_readonly s name flags =
      if not s.ext4_ready
      then (s, none)
      else if not (access_mode flags == o_rdonly) || has_flag flags o_creat
      then (s, none)
      else elim (ext4.lookup name) [
        | none ↦ (s, none)
        | some index ↦ install_fd s (negsuc index) flags 0
      ]

  -- From `ensure_ramfs_inode` on.
  unfoldable pub open_ramfs : Fs → List ℕ → ℕ → Fs × Option ℕ
  open_ramfs s name flags =
      let (s', r) = ensure_ramfs_inode s name flags in
      elim r [ none ↦ (s', none) | some i ↦ open_inode s' i flags ]

  unfoldable pub open_name : Fs → List ℕ → ℕ → Fs × Option ℕ
  open_name s name flags = elim (find_inode_by_name s.inodes name) [
    | some i ↦ open_ramfs s name flags
    | none ↦
        let (s', r) = open_ext4_readonly s name flags in
        elim r [ some fd ↦ (s', some fd) | none ↦ open_ramfs s' name flags ]
  ]

  unfoldable pub fs_open : Fs → Option (List ℕ) → ℕ → Fs × Option ℕ
  fs_open s path flags = elim (normalize_name path) [
    | none ↦ (s, none)
    | some name ↦ open_name s name flags
  ]

  unfoldable pub read_ext4 : Fs → ℕ → ℕ → ℕ → Fs × Option (List ℕ)
  read_ext4 s fd index len =
      let d = fd_at (current_fds s) fd in
      elim (ext4.read_file index d.offset len) [
        | none ↦ (s, none)
        | some bs ↦ (put_fd s fd (record d { offset = add32 d.offset (length bs) }), some bs)
      ]

  -- The Boolean says whether `buf` is not NULL.
  unfoldable pub fs_read : Fs → ℤ → Bool → ℕ → Fs × Option (List ℕ)
  fs_read s fd false len = (s, none)
  fs_read s fd true len = elim (get_open_fd s fd) [
    | none ↦ (s, none)
    | some k ↦
        let d = fd_at (current_fds s) k in
        if access_mode d.flags == o_wronly
        then (s, none)
        else elim d.inode [ negsuc e ↦ read_ext4 s k e len | pos i ↦ read_inode s k i len ]
  ]

  abbrev pub ext4_part : Fs → ℕ → List ℕ
  ext4_part s len =
      let listed : List ℕ = elim (ext4.listdir len) [ none ↦ [] | some bs ↦ bs ] in
      if s.ext4_ready then listed else []

  -- The bytes put in the buffer; their number is what the call returns. A NUL follows where there
  -- is room.
  unfoldable pub fs_listdir : Fs → Bool → ℕ → Option (List ℕ)
  fs_listdir s buf len =
      if not buf || len == 0 then none else some (list_inodes s.inodes (ext4_part s len) len)
