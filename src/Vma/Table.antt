-- ===== src/Vma/Table.antt =====
-- mm/process_vm.c: the table of areas, searched and added to.
use sugimotos.Prelude.{
  ℕ, zero, suc, ◌+◌, ◌-◌, Bool, true, false, not, ◌&&◌, ◌||◌, List, [], ◌∷◌, Option, none, some,
  ltb, leb, ◌==◌, if◌then◌else◌, bit_and, set, add32,
}
use sugimotos.Proc.{UserVma, Process}
use sugimotos.Vma.{vma_at, is_aligned}

-- The loops run over the array; the argument `i` is the index of its next entry.
unfoldable pub find_free_from : List UserVma → ℕ → Option ℕ
find_free_from [] i = none
find_free_from (v ∷ vs) i = if v.used then find_free_from vs (i + 1) else some i

unfoldable pub proc_find_free_vma_slot : List UserVma → Option ℕ
proc_find_free_vma_slot vs = find_free_from vs 0

unfoldable pub find_vma_from : List UserVma → ℕ → ℕ → Option ℕ
find_vma_from [] addr i = none
find_vma_from (v ∷ vs) addr i =
    if v.used && (leb v.start addr && ltb addr v.end) then some i else find_vma_from vs addr (i + 1)

unfoldable pub proc_find_vma_index : List UserVma → ℕ → Option ℕ
proc_find_vma_index vs addr = find_vma_from vs addr 0

unfoldable pub proc_range_overlaps_any_vma : List UserVma → ℕ → ℕ → Bool
proc_range_overlaps_any_vma [] start end_ = false
proc_range_overlaps_any_vma (v ∷ vs) start end_ =
    if v.used && (ltb start v.end && ltb v.start end_)
    then true
    else proc_range_overlaps_any_vma vs start end_

-- The first loop of `proc_add_vma`.
unfoldable pub conflicts : List UserVma → ℕ → ℕ → Bool
conflicts [] start end_ = false
conflicts (v ∷ vs) start end_ =
    if v.used && not (leb end_ v.start || leb v.end start) then true else conflicts vs start end_

unfoldable pub proc_add_vma : List UserVma → ℕ → ℕ → ℕ → Option (List UserVma)
proc_add_vma vs start end_ prot =
    if leb end_ start
    then none
    else if not (is_aligned start) || not (is_aligned end_)
    then none
    else if conflicts vs start end_
    then none
    else elim (proc_find_free_vma_slot vs) [
      | none ↦ none
      | some i ↦ some (set vs i (record { used = true; start = start; end = end_; prot = prot }))
    ]

-- The loop of `proc_vma_range_ok` from `cur` on, with fuel.
unfoldable pub range_loop : ℕ → List UserVma → ℕ → ℕ → ℕ → Bool
range_loop zero vs cur end_ need = not (ltb cur end_)
range_loop (suc fuel) vs cur end_ need =
    if not (ltb cur end_) then true else elim (proc_find_vma_index vs cur) [
      | none ↦ false
      | some i ↦
          let v = vma_at vs i in
          if not (bit_and v.prot need == need)
          then false
          else if leb end_ v.end
          then true
          else range_loop fuel vs v.end end_ need
    ]

-- Each round of the loop raises `cur`, so the length of the range is fuel enough.
unfoldable pub proc_vma_range_ok : Process → ℕ → ℕ → ℕ → Bool
proc_vma_range_ok p addr len need =
    if not p.is_user
    then false
    else if len == 0
    then false
    else let end_ = add32 addr len in
      if ltb end_ addr then false else range_loop (end_ - addr) p.vmas addr end_ need
