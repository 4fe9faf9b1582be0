-- ===== src/Fs.antt =====
-- fs/fs.c: the file calls over a RAM file system of 32 files of 1024 bytes, with a read-only ext4
-- volume behind it. A C string is the list of its bytes before the NUL; -1 is `none`. The calls
-- run with a current process.
pub mod Names
pub mod Table
pub mod Calls
pub mod Path
pub mod Lookup
pub mod Inv
pub mod Keep
pub mod Steps
pub mod Unlink
pub mod History
pub mod Contents
pub mod Open
pub mod OpenFull
pub mod OpenOk
pub mod Stale
pub mod Listing
pub mod Rename
mod Tests
use sugimotos.Prelude.{
  ℕ, Bool, true, false, List, [], ◌∷◌, length, get_or, set, replicate, Option, none, some, bit_and,
  not, ◌==◌,
}
use sugimotos.Proc.{Process, FileDesc, closed, proc_at}

abbrev pub ramfs_max_files : ℕ
ramfs_max_files = 32

abbrev pub ramfs_name_max : ℕ
ramfs_name_max = 32

abbrev pub ramfs_data_max : ℕ
ramfs_data_max = 1024

-- `struct ramfs_inode`
pub record Inode : Type 0 where
  pub used : Bool
  pub name : List ℕ
  pub bytes : List ℕ
  pub size : ℕ

unfoldable pub zero_inode : Inode
zero_inode = record { used = false; name = []; bytes = replicate ramfs_data_max 0; size = 0 }

-- `inodes`, `fs_initialized`, `ext4_ready`, and the process table with its file descriptors.
pub record Fs : Type 0 where
  pub inodes : List Inode
  pub fs_initialized : Bool
  pub ext4_ready : Bool
  pub procs : List Process
  pub current : ℕ

-- What the file calls use of fs/ext4.c, on the mounted volume: the index of a root file, the bytes
-- read from it, and the listing that fits in a buffer.
pub record Ext4 : Type 0 where
  pub lookup : List ℕ → Option ℕ
  pub read_file : ℕ → ℕ → ℕ → Option (List ℕ)
  pub listdir : ℕ → Option (List ℕ)

abbrev pub inode_at : List Inode → ℕ → Inode
inode_at ns i = get_or ns i zero_inode

abbrev pub fd_at : List FileDesc → ℕ → FileDesc
fd_at ds i = get_or ds i closed

abbrev pub current_fds : Fs → List FileDesc
current_fds s = (proc_at s.procs s.current).fds

-- The state with descriptor `fd` of the current process given anew.
unfoldable pub put_fd : Fs → ℕ → FileDesc → Fs
put_fd s fd d =
    let p = proc_at s.procs s.current in
    record s { procs = set s.procs s.current (record p { fds = set p.fds fd d }) }

pub put_inode : Fs → ℕ → Inode → Fs
put_inode s i n = record s { inodes = set s.inodes i n }

abbrev pub o_rdonly : ℕ
o_rdonly = 0x1

abbrev pub o_wronly : ℕ
o_wronly = 0x2

abbrev pub o_rdwr : ℕ
o_rdwr = 0x3

abbrev pub o_creat : ℕ
o_creat = 0x100

abbrev pub o_trunc : ℕ
o_trunc = 0x200

abbrev pub o_append : ℕ
o_append = 0x400

-- `flags & bit`, as a condition.
pub has_flag : ℕ → ℕ → Bool
has_flag flags bit = not (bit_and flags bit == 0)

-- `flags & 0x3`
pub access_mode : ℕ → ℕ
access_mode flags = bit_and flags 0x3
