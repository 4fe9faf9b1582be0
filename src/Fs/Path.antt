-- ===== src/Fs/Path.antt =====
-- fs/fs.c: which file name a path stands for.
use sugimotos.Prelude.{
  ℕ, zero, suc, ◌+◌, ◌<◌, ◌≡◌, ◌≢◌, ◌↔◌, refl, true, List, [], ◌∷◌, ◌++◌, length, replicate, some,
  arith, ◌==◌, Bool-cases, Option-cases, inl, inr,
}
use sugimotos.Fs.{ramfs_name_max}
use sugimotos.Fs.Names.{slash, str_eq, skip_slashes, copy_name, name_of, normalize_name}

pub str_eq_iff : (a b : List ℕ) → (str_eq a b ≡ true) ↔ (a ≡ b)
unfolding str_eq
str_eq_iff [] [] = ground arith
str_eq_iff [] (b ∷ bs) = ground arith
str_eq_iff (a ∷ s) [] = ground arith
str_eq_iff (a ∷ s) (b ∷ bs) = ground (arith, str_eq_iff s bs)

-- No byte is a slash.
abbrev pub NoSlash : List ℕ → Type 0
NoSlash [] = Unit {0}
NoSlash (c ∷ cs) = (c ≢ slash) × NoSlash cs

-- What a file may be called.
pub record IsName (n : List ℕ) : Type 0 where
  pub nonempty : n ≢ []
  pub short : length n < ramfs_name_max
  pub flat : NoSlash n

copy_name-some :
    (p : List ℕ) (i : ℕ) {n : List ℕ}
    → i < ramfs_name_max
    → copy_name p i ≡ some n
    → (n ≡ p) × NoSlash p × (i + length p < ramfs_name_max)
unfolding copy_name
copy_name-some [] i l h = ground arith
copy_name-some (c ∷ p) i l h = elim (Option-cases (copy_name p (i + 1))) [
  | inl e ↦ absurd (ground arith)
  | inr (m, e) ↦ ground (arith, copy_name-some p (i + 1) {n = m})
]

copy_name_accepts : (n : List ℕ) (i : ℕ) → NoSlash n → i + length n < 32 → copy_name n i ≡ some n
unfolding copy_name
copy_name_accepts [] i f h = refl
copy_name_accepts (c ∷ n) i f h = ground (arith, copy_name_accepts n (i + 1) f.1)

skip_slashes_flat : (n : List ℕ) → NoSlash n → skip_slashes n ≡ n
unfolding skip_slashes
skip_slashes_flat [] f = refl
skip_slashes_flat (c ∷ n) f = ground arith

skip_slashes_leading : (k : ℕ) (n : List ℕ) → skip_slashes (replicate k slash ++ n) ≡ skip_slashes n
unfolding skip_slashes
skip_slashes_leading zero n = refl
skip_slashes_leading (suc k) n = skip_slashes_leading k n

-- What `skip_slashes` leaves begins with no slash, and was preceded by slashes alone.
skip_slashes-split : (p : List ℕ) → (k : ℕ) × (p ≡ replicate k slash ++ skip_slashes p)
unfolding skip_slashes
skip_slashes-split [] = (0, refl)
skip_slashes-split (c ∷ p) = elim (Bool-cases (c == slash)) [
  | inl e ↦ let (k, h) = skip_slashes-split p in (suc k, rw e (ground arith))
  | inr e ↦ (0, rw e refl)
]

name_of_accepts : (n : List ℕ) → IsName n → name_of n ≡ some n
unfolding name_of
name_of_accepts [] v = absurd (v.nonempty refl)
name_of_accepts (c ∷ n) v = copy_name_accepts (c ∷ n) 0 v.flat (omega (arith, v.short))

name_of-some : (p : List ℕ) {n : List ℕ} → name_of p ≡ some n → (n ≡ p) × IsName p
unfolding name_of
name_of-some [] h = cc
name_of-some (c ∷ p) h =
    let (e, f, l) = copy_name-some (c ∷ p) 0 (omega arith) h in
    (e, record { nonempty = λ q. cc; short = omega arith; flat = f })

-- `normalize_name` accepts a path exactly when it is some slashes and then a name of 1 to 31 bytes
-- without a slash, and then returns that name.
pub normalize_name_iff :
    (path n : List ℕ)
    → (normalize_name (some path) ≡ some n)
      ↔ (IsName n × ((k : ℕ) × (path ≡ replicate k slash ++ n)))
unfolding normalize_name
normalize_name_iff path n = (there, back)
  where
    there :
        name_of (skip_slashes path) ≡ some n
        → IsName n × ((k : ℕ) × (path ≡ replicate k slash ++ n))
    there h =
        let (e, v) = name_of-some (skip_slashes path) h in
        let (k, s) = skip_slashes-split path in (rw e v, (k, rw e s))

    back :
        IsName n × ((k : ℕ) × (path ≡ replicate k slash ++ n))
        → name_of (skip_slashes path) ≡ some n
    back (v, (k, e)) =
        rw (e, skip_slashes_leading k n, skip_slashes_flat n v.flat) (name_of_accepts n v)
