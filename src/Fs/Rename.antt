-- ===== src/Fs/Rename.antt =====
-- fs/fs.c: what `fs_rename` does to the table of files.
use native.Mathlib.Decide.{ℕ_discrete}
use sugimotos.Prelude.{
  ℕ, ◌≡◌, ◌≢◌, refl, sym, ap, ◌∙◌, true, false, List, get_or-set, Option, none, some, arith,
  Option-cases, inl, inr,
}
use sugimotos.Fs.{Fs, inode_at, put_inode, zero_inode}
use sugimotos.Fs.Names.{normalize_name, str_eq}
use sugimotos.Fs.Path.{IsName, str_eq_iff}
use sugimotos.Fs.Table.{find_inode_by_name}
use sugimotos.Fs.Lookup.{find_inode_by_name-some, find_inode_by_name-none}
use sugimotos.Fs.Inv.{IsFs, inode_at-put_self}
use sugimotos.Fs.Calls.{rename_to, fs_rename}
use sugimotos.Fs.Unlink.{renamed-IsFs}
use sugimotos.Fs.Keep.{normalize_name-IsName}

-- Under the invariant a used file is the one that the search for its name finds.
find_inode_by_name-own :
    (s : Fs) (i : ℕ) (name : List ℕ)
    → IsFs s
    → (inode_at s.inodes i).used ≡ true
    → (inode_at s.inodes i).name ≡ name
    → find_inode_by_name s.inodes name ≡ some i
find_inode_by_name-own s i name v u e = elim (Option-cases (find_inode_by_name s.inodes name)) [
  | inl h ↦ absurd (find_inode_by_name-none s.inodes name i h u e)
  | inr (j, h) ↦
      let (a, b, _) = find_inode_by_name-some s.inodes name h in
      let same : j ≡ i = v.unique j i a u (b ∙ sym e) in h ∙ ap some same
]

module _ (s : Fs) (i : ℕ) (old new : List ℕ) (v : IsFs s) (proper : IsName new) (differ : old ≢ new)
    (found : find_inode_by_name s.inodes old ≡ some i)
    (free : find_inode_by_name s.inodes new ≡ none) where
  renamed : Fs
  renamed = put_inode s i (record (inode_at s.inodes i) { name = new })

  was_used : (inode_at s.inodes i).used ≡ true
  was_used = (find_inode_by_name-some s.inodes old found).0

  inode_at-renamed : inode_at renamed.inodes i ≡ record (inode_at s.inodes i) { name = new }
  unfolding renamed
  inode_at-renamed =
      inode_at-put_self s i (record (inode_at s.inodes i) { name = new })
        (find_inode_by_name-some s.inodes old found).2

  inode_at-renamed_other : (j : ℕ) → j ≢ i → inode_at renamed.inodes j ≡ inode_at s.inodes j
  unfolding renamed put_inode
  inode_at-renamed_other j n =
      ground
        (arith, get_or-set s.inodes i j (record (inode_at s.inodes i) { name = new }) zero_inode)

  find-renamed_new : find_inode_by_name renamed.inodes new ≡ some i
  unfolding renamed
  find-renamed_new =
      find_inode_by_name-own renamed i new (renamed-IsFs s i new v proper was_used free)
        (rw inode_at-renamed was_used) (rw inode_at-renamed refl)

  find-renamed_old : find_inode_by_name renamed.inodes old ≡ none
  find-renamed_old = elim (Option-cases (find_inode_by_name renamed.inodes old)) [
    | inl h ↦ h
    | inr (j, h) ↦
        let (a, b, _) = find_inode_by_name-some renamed.inodes old h in
        absurd (elim (ℕ_discrete j i) [
          | yes e ↦ differ (sym (rw (e, inode_at-renamed) at b))
          | no n ↦
              let x = inode_at-renamed_other j n in
              n (
                v.unique j i (rw x at a) was_used
                  (rw x at b ∙ sym (find_inode_by_name-some s.inodes old found).1))
        ])
  ]

-- `fs_rename` of a file that is there to another name that is free returns 0: the new name finds the
-- same inode, the old name finds nothing, the content and the descriptors are as they were, and so
-- are all other files.
pub fs_rename_moves :
    (s : Fs) (old_path new_path : Option (List ℕ)) (old new : List ℕ) (i : ℕ)
    → IsFs s
    → normalize_name old_path ≡ some old
    → normalize_name new_path ≡ some new
    → old ≢ new
    → find_inode_by_name s.inodes old ≡ some i
    → find_inode_by_name s.inodes new ≡ none
    → let (s', r) = fs_rename s old_path new_path in
      (r ≡ some 0)
      × (find_inode_by_name s'.inodes new ≡ some i)
      × (find_inode_by_name s'.inodes old ≡ none)
      × (inode_at s'.inodes i ≡ record (inode_at s.inodes i) { name = new })
      × ((j : ℕ) → j ≢ i → inode_at s'.inodes j ≡ inode_at s.inodes j)
      × (s'.procs ≡ s.procs)
unfolding fs_rename rename_to renamed put_inode
fs_rename_moves s old_path new_path old new i v e f n d g =
    rw (e, fs_rename)
      (rw (f, fs_rename)
        (rw (q, rename_to)
          (rw (d, rename_to)
            (rw (g, rename_to)
              (
                refl,
                find-renamed_new s i old new v p n d g,
                find-renamed_old s i old new v p n d g,
                inode_at-renamed s i old new v p n d g,
                inode_at-renamed_other s i old new v p n d g,
                refl,
              )))))
  where
    p : IsName new
    p = normalize_name-IsName new_path new f

    q : str_eq old new ≡ false
    q = ground (arith, str_eq_iff old new)
