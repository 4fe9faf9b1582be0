-- ===== src/Vma/Pointers.antt =====
-- mm/process_vm.c: what the tests of user strings and argument vectors decide.
use sugimotos.Prelude.{
  ℕ, zero, suc, ◌+◌, ◌*◌, ◌^◌, ◌≤◌, ◌<◌, ◌≡◌, ◌≢◌, ◌↔◌, refl, true, false, some, arith, inl, inr,
  Bool-cases, ◌==◌, add32,
}
use sugimotos.Proc.{Process}
use sugimotos.Vma.{vma_prot_r}
use sugimotos.Vma.Table.{proc_vma_range_ok}
use sugimotos.Vma.User.{cstr_loop, proc_user_cstr_ok, argv_loop, proc_user_exec_argv_ok}

-- Byte `i` of the string may be read.
abbrev pub ByteOk : Process → ℕ → ℕ → Type 0
ByteOk p addr i = proc_vma_range_ok p (add32 addr i) 1 vma_prot_r ≡ true

-- There is a NUL among the `n` bytes from byte `i` on, all bytes up to the first may be read, and
-- `k` is its place.
abbrev pub EndsWithin : (ℕ → ℕ) → Process → ℕ → ℕ → ℕ → Type 0
EndsWithin load p addr i n =
    (k : ℕ) × (i ≤ k)
    × (k < i + n)
    × (load (add32 addr k) ≡ 0)
    × ((j : ℕ) → i ≤ j → j < k → load (add32 addr j) ≢ 0)
    × ((j : ℕ) → i ≤ j → j ≤ k → ByteOk p addr j)

module _ (load : ℕ → ℕ) (p : Process) (addr : ℕ) where
  cstr_loop_iff : (n i : ℕ) → (cstr_loop load n p addr i ≡ true) ↔ EndsWithin load p addr i n
  unfolding cstr_loop
  cstr_loop_iff zero i = ((λ h. absurd (ground arith)), λ (k, a, b, _, _, _). absurd (omega arith))
  cstr_loop_iff (suc n) i = (there (cstr_loop_iff n (i + 1)).0, back (cstr_loop_iff n (i + 1)).1)
    where
      there :
          (cstr_loop load n p addr (i + 1) ≡ true → EndsWithin load p addr (i + 1) n)
          → cstr_loop load (suc n) p addr i ≡ true
          → EndsWithin load p addr i (suc n)
      there ih h =
          let ok : ByteOk p addr i = ground arith in
          elim (Bool-cases (load (add32 addr i) == 0)) [
            | inl z ↦ (
              i,
              omega arith,
              omega arith,
              ground arith,
              (λ j a b. absurd (omega arith)),
              λ j a b. let e : j ≡ i = omega arith in rw e ok,
            )
            | inr z ↦
                let (k, a, b, c, d, e) = ih (ground arith) in
                (
                  k,
                  omega arith,
                  omega arith,
                  c,
                  (λ j x y. elim (Bool-cases (j == i)) [
                    | inl q ↦ let s : j ≡ i = ground arith in rw s (ground arith)
                    | inr q ↦ d j (ground arith) y
                  ]),
                  λ j x y. elim (Bool-cases (j == i)) [
                    | inl q ↦ let s : j ≡ i = ground arith in rw s ok
                    | inr q ↦ e j (ground arith) y
                  ],
                )
          ]

      back :
          (EndsWithin load p addr (i + 1) n → cstr_loop load n p addr (i + 1) ≡ true)
          → EndsWithin load p addr i (suc n)
          → cstr_loop load (suc n) p addr i ≡ true
      back ih (k, a, b, c, d, e) =
          let ok = e i (omega arith) a in
          elim (Bool-cases (load (add32 addr i) == 0)) [
            | inl z ↦ rw (ok, z) refl
            | inr z ↦ elim (Bool-cases (k == i)) [
              | inl q ↦ let s : k ≡ i = ground arith in absurd (ground (arith, rw s at c))
              | inr q ↦
                  rw (ok, z)
                    (ih (
                      k,
                      ground arith,
                      omega arith,
                      c,
                      (λ j x y. d j (omega arith) y),
                      λ j x y. e j (omega arith) y,
                    ))
            ]
          ]

  -- For a user process, `proc_user_cstr_ok` accepts exactly the strings that end within the bound
  -- and of which all bytes up to the NUL may be read.
  pub proc_user_cstr_ok_iff :
      (max_len : ℕ)
      → p.is_user ≡ true
      → addr < 2 ^ 32
      → (proc_user_cstr_ok load (some p) addr max_len ≡ true) ↔ EndsWithin load p addr 0 max_len
  unfolding proc_user_cstr_ok
  proc_user_cstr_ok_iff max_len u l = (there, back)
    where
      there : proc_user_cstr_ok load (some p) addr max_len ≡ true → EndsWithin load p addr 0 max_len
      there h = (cstr_loop_iff max_len 0).0 (ground arith)

      back : EndsWithin load p addr 0 max_len → proc_user_cstr_ok load (some p) addr max_len ≡ true
      back (k, a, b, c, d, e) =
          let loop : cstr_loop load max_len p addr 0 ≡ true =
            (cstr_loop_iff max_len 0).1 (k, a, b, c, d, e) in
          let same : add32 addr 0 ≡ addr = omega arith in
          let ok : proc_vma_range_ok p addr 1 vma_prot_r ≡ true =
            rw same at (e 0 (omega arith) (omega arith)) in
          let some_len : (max_len == 0) ≡ false = ground arith in simp (u, some_len, ok) loop

-- The argument vector has `k` arguments, counted from word `i` on, within `n` words: word `k` is the
-- first that is 0, the words up to it may be read, and each before it points to a good string.
abbrev pub ArgvEnds : (ℕ → ℕ) → (ℕ → ℕ) → Process → ℕ → ℕ → ℕ → ℕ → Type 0
ArgvEnds load load_word p argv_ptr i n k =
    (i ≤ k)
    × (k < i + n)
    × (load_word (add32 argv_ptr (k * 4)) ≡ 0)
    × ((j : ℕ)
        → i ≤ j
        → j < k
        → (load_word (add32 argv_ptr (j * 4)) ≢ 0)
          × (proc_user_cstr_ok load (some p) (load_word (add32 argv_ptr (j * 4))) 128 ≡ true))
    × ((j : ℕ) → i ≤ j → j ≤ k → proc_vma_range_ok p (add32 argv_ptr (j * 4)) 4 vma_prot_r ≡ true)

module _ (load load_word : ℕ → ℕ) (p : Process) (argv_ptr : ℕ) where
  argv_loop-ArgvEnds :
      (n i k : ℕ)
      → argv_loop load load_word n p argv_ptr i ≡ some k
      → ArgvEnds load load_word p argv_ptr i n k
  unfolding argv_loop
  argv_loop-ArgvEnds zero i k h = absurd (ground arith)
  argv_loop-ArgvEnds (suc n) i k h =
      let ok : proc_vma_range_ok p (add32 argv_ptr (i * 4)) 4 vma_prot_r ≡ true = ground arith in
      elim (Bool-cases (load_word (add32 argv_ptr (i * 4)) == 0)) [
        | inl z ↦
            let same : i ≡ k = ground arith in
            rw (← same) (
              omega arith,
              omega arith,
              ground arith,
              (λ j a b. absurd (omega arith)),
              λ j a b. let e : j ≡ i = omega arith in rw e ok,
            )
        | inr z ↦
            let good : proc_user_cstr_ok load (some p) (load_word (add32 argv_ptr (i * 4))) 128
                ≡ true =
              ground arith in
            let full : load_word (add32 argv_ptr (i * 4)) ≢ 0 = λ e. absurd (ground arith) in
            let (a, b, c, d, e) = argv_loop-ArgvEnds n (i + 1) k (ground arith) in
            (
              omega arith,
              omega arith,
              c,
              (λ j x y. elim (Bool-cases (j == i)) [
                | inl q ↦ let s : j ≡ i = ground arith in rw s (full, good)
                | inr q ↦ d j (ground arith) y
              ]),
              λ j x y. elim (Bool-cases (j == i)) [
                | inl q ↦ let s : j ≡ i = ground arith in rw s ok
                | inr q ↦ e j (ground arith) y
              ],
            )
      ]

  -- Where `proc_user_exec_argv_ok` accepts a vector that is not NULL, it returns the number of its
  -- arguments, at most 31: that word is the first that is 0, all words up to it may be read, and
  -- each argument is a string that ends within 128 bytes that may be read.
  pub proc_user_exec_argv_ok-ArgvEnds :
      (k : ℕ)
      → argv_ptr ≢ 0
      → proc_user_exec_argv_ok load load_word (some p) argv_ptr ≡ some k
      → ArgvEnds load load_word p argv_ptr 0 32 k
  unfolding proc_user_exec_argv_ok
  proc_user_exec_argv_ok-ArgvEnds k n h = argv_loop-ArgvEnds 32 0 k (ground arith)
