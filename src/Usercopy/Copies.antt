-- ===== src/Usercopy/Copies.antt =====
-- mm/usercopy.c: what the copies have read and written.
use sugimotos.Prelude.{
  ℕ, zero, suc, ◌+◌, ◌-◌, ◌^◌, ◌≤◌, ◌<◌, ◌≡◌, ◌≢◌, ◌⊎◌, refl, sym, ap, ◌∙◌, Bool, true, false, ◌&&◌,
  List, [], ◌∷◌, length, get_or, Option, none, some, arith, inl, inr, Bool-cases, Option-cases, ltb,
  leb, ◌==◌, add32,
}
use sugimotos.Proc.{Process}
use sugimotos.Vma.{vma_prot_w}
use sugimotos.Vma.Inv.{IsVmas}
use sugimotos.Vma.Range.{Covered, proc_vma_range_ok_iff}
use sugimotos.Vma.User.{proc_user_readable_ok, proc_user_writable_ok, range_allowed}
use sugimotos.Usercopy.{write_bytes, copy_to_user, string_loop, copy_string_from_user}

allowed-Covered :
    (p : Process) (addr len need : ℕ)
    → IsVmas p.vmas
    → p.is_user ≡ true
    → addr < 2 ^ 32
    → len < 2 ^ 32
    → range_allowed (some p) addr len need ≡ true
    → (addr + len < 2 ^ 32) × Covered p.vmas addr (addr + len) need
unfolding range_allowed
allowed-Covered p addr len need v u a l h =
    let (_, _, w, c) = (proc_vma_range_ok_iff p addr len need v a l).0 (ground arith) in (w, c)

-- Where `copy_to_user` of a user process returns 0, every byte written lies in a writable area of
-- the process; the bytes are those of the buffer, and the rest of the memory is as it was.
pub copy_to_user_writes :
    (mem mem' : ℕ → ℕ) (p : Process) (dst : ℕ) (src : Bool) (bs : List ℕ)
    → IsVmas p.vmas
    → p.is_user ≡ true
    → dst < 2 ^ 32
    → length bs < 2 ^ 32
    → 0 < length bs
    → copy_to_user mem (some p) dst src bs ≡ some mem'
    → (dst ≢ 0)
      × Covered p.vmas dst (dst + length bs) vma_prot_w
      × ((i : ℕ) → i < length bs → mem' (dst + i) ≡ get_or bs i 0)
      × ((a : ℕ) → (a < dst) ⊎ (dst + length bs ≤ a) → mem' a ≡ mem a)
unfolding copy_to_user proc_user_writable_ok write_bytes
copy_to_user_writes mem mem' p dst src bs v u a l z h =
    let ok : range_allowed (some p) dst (length bs) vma_prot_w ≡ true = ground arith in
    let same : some (write_bytes mem dst bs) ≡ some mem' = ground arith in
    let at_ : (x : ℕ) → write_bytes mem dst bs x ≡ mem' x =
      λ x. ap (λ o. elim o [ none ↦ mem x | some f ↦ f x ]) same in
    (
      (λ e. absurd (ground arith)),
      (allowed-Covered p dst (length bs) vma_prot_w v u a l ok).1,
      (λ i m.
          let e : dst + i - dst ≡ i = omega arith in
          let t : leb dst (dst + i) && ltb (dst + i) (dst + length bs) ≡ true = ground arith in
          sym (at_ (dst + i)) ∙ rw (t, e) refl),
      λ x o.
          let t : leb dst x && ltb x (dst + length bs) ≡ false = ground arith in
          sym (at_ x) ∙ rw t refl,
    )

-- The bytes `bs` stand in the memory from byte `i` of the string on, none is 0, a 0 follows within
-- `n` bytes, and the process may read all of them.
abbrev pub StringAt : (ℕ → ℕ) → Option Process → ℕ → ℕ → ℕ → List ℕ → Type 0
StringAt mem p src i n bs =
    (length bs < n)
    × (mem (add32 src (i + length bs)) ≡ 0)
    × ((j : ℕ) → j < length bs → (get_or bs j 0 ≡ mem (add32 src (i + j))) × (get_or bs j 0 ≢ 0))
    × ((j : ℕ) → j ≤ length bs → proc_user_readable_ok p (add32 src (i + j)) 1 ≡ true)

string_cons-StringAt :
    (mem : ℕ → ℕ) (p : Option Process) (n src i : ℕ) (cs : List ℕ)
    → proc_user_readable_ok p (add32 src i) 1 ≡ true
    → mem (add32 src i) ≢ 0
    → StringAt mem p src (i + 1) n cs
    → StringAt mem p src i (suc n) (mem (add32 src i) ∷ cs)
string_cons-StringAt mem p n src i cs ok full (a, b, c, d) =
    (omega arith, rw last b, bytes, readable)
  where
    last : i + suc (length cs) ≡ i + 1 + length cs
    last = omega arith

    here : i + 0 ≡ i
    here = omega arith

    shift : (j : ℕ) → i + suc j ≡ i + 1 + j
    shift j = omega arith

    bytes :
        (j : ℕ)
        → j < suc (length cs)
        → (get_or (mem (add32 src i) ∷ cs) j 0 ≡ mem (add32 src (i + j)))
          × (get_or (mem (add32 src i) ∷ cs) j 0 ≢ 0)
    bytes zero m = (rw here refl, full)
    bytes (suc j) m = rw (shift j) (c j (omega arith))

    readable : (j : ℕ) → j ≤ suc (length cs) → proc_user_readable_ok p (add32 src (i + j)) 1 ≡ true
    readable zero m = rw here ok
    readable (suc j) m = rw (shift j) (d j (omega arith))

string_loop-StringAt :
    (mem : ℕ → ℕ) (p : Option Process) (n src i : ℕ) (bs : List ℕ)
    → string_loop mem p n src i ≡ some bs
    → StringAt mem p src i n bs
unfolding string_loop
string_loop-StringAt mem p zero src i bs h = absurd (ground arith)
string_loop-StringAt mem p (suc n) src i bs h =
    let ok : proc_user_readable_ok p (add32 src i) 1 ≡ true = ground arith in
    elim (Bool-cases (mem (add32 src i) == 0)) [
      | inl z ↦
          let none_left : [] ≡ bs = ground arith in
          let here : i + 0 ≡ i = omega arith in
          let nul : mem (add32 src i) ≡ 0 = ground arith in
          rw (← none_left) (
            omega arith,
            rw here nul,
            (λ j m. absurd (omega arith)),
            λ j m. let e : i + j ≡ i = omega arith in rw e ok,
          )
      | inr z ↦ elim (Option-cases (string_loop mem p n src (i + 1))) [
        | inl e ↦ absurd (ground arith)
        | inr (cs, e) ↦
            let joined : (mem (add32 src i) ∷ cs) ≡ bs = ground arith in
            rw (← joined) (
              string_cons-StringAt mem p n src i cs ok (ground arith)
                (string_loop-StringAt mem p n src (i + 1) cs e))
      ]
    ]

-- Where `copy_string_from_user` returns 0, what it has put in the buffer before the NUL are the bytes
-- of the user's string up to its first NUL, fewer than the capacity, and the process may read each
-- of them and the NUL.
pub copy_string_from_user-StringAt :
    (mem : ℕ → ℕ) (p : Option Process) (dst : Bool) (src capacity : ℕ) (bs : List ℕ)
    → copy_string_from_user mem p dst src capacity ≡ some bs
    → StringAt mem p src 0 capacity bs
unfolding copy_string_from_user
copy_string_from_user-StringAt mem p dst src capacity bs h =
    string_loop-StringAt mem p capacity src 0 bs (ground arith)
