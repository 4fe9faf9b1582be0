-- ===== src/Life/Closed.antt =====
-- kernel/process/process.c: the descriptors that `proc_exit` closes.
use sugimotos.Prelude.{
  ℕ, zero, suc, ◌+◌, ◌≤◌, ◌<◌, ◌≡◌, refl, sym, ap, ◌∙◌, true, false, List, length, set, some, arith,
  inl, inr, Bool-cases, ltb, length-set, get_or-set, get_or-set_self, get_or-set_ne,
}
use native.Mathlib.Decide.{ℕ_discrete}
use sugimotos.Prelude.Int.{pos}
use sugimotos.Proc.{FileDesc, closed, Process, zero_process, proc_at, fd_max}
use sugimotos.Fs.{Fs, fd_at, current_fds, put_fd}
use sugimotos.Fs.Table.{valid_fd_index, get_open_fd}
use sugimotos.Fs.Calls.{fs_close}
use sugimotos.Life.Calls.{close_all}
use sugimotos.Life.Table.{set-set, set_same}

-- The state with other descriptors for the current process.
abbrev pub with_fds : Fs → List FileDesc → Fs
with_fds f ds = record f {
  procs = set f.procs f.current (record (proc_at f.procs f.current) { fds = ds });
}

-- The descriptors `ds` are those of `f`, save that the ones from `fd` up to `end` are closed.
pub record AreClosed (f : Fs) (fd end : ℕ) (ds : List FileDesc) : Type 0 where
  pub shut : (j : ℕ) → fd ≤ j → j < end → (fd_at ds j).used ≡ false
  pub below : (j : ℕ) → j < fd → fd_at ds j ≡ fd_at (current_fds f) j

opened :
    (f : Fs) (fd : ℕ)
    → fd < fd_max
    → (fd_at (current_fds f) fd).used ≡ true
    → get_open_fd f (pos fd) ≡ some fd
unfolding get_open_fd valid_fd_index
opened f fd l u = let valid : ltb fd fd_max ≡ true = ground arith in rw (valid, u) refl

used_closes :
    (f : Fs) (fd : ℕ)
    → fd < fd_max
    → (fd_at (current_fds f) fd).used ≡ true
    → (fs_close f (pos fd)).0 ≡ with_fds f (set (current_fds f) fd closed)
unfolding fs_close put_fd
used_closes f fd l u = rw (opened f fd l u, fs_close) refl

closed_at : (ds : List FileDesc) (fd : ℕ) → (fd_at (set ds fd closed) fd).used ≡ false
closed_at ds fd = elim (get_or-set ds fd fd closed closed) [
  | inl (_, e, _) ↦ ap (λ (d : FileDesc). d.used) e
  | inr (inl (n, _)) ↦ absurd (n refl)
  | inr (inr (_, e, _, _)) ↦ ap (λ (d : FileDesc). d.used) e
]

module _ (f : Fs) (cs : List FileDesc) (l : f.current < length f.procs) where
  given : proc_at (with_fds f cs).procs f.current ≡ record (proc_at f.procs f.current) { fds = cs }
  given =
      get_or-set_self f.procs f.current (record (proc_at f.procs f.current) { fds = cs })
        zero_process l

  current_fds-with_fds : current_fds (with_fds f cs) ≡ cs
  current_fds-with_fds = ap (λ (p : Process). p.fds) given

with_fds_twice :
    (f : Fs) (cs ds : List FileDesc)
    → f.current < length f.procs
    → with_fds (with_fds f cs) ds ≡ with_fds f ds
with_fds_twice f cs ds l =
    let p : Process = proc_at f.procs f.current in
    ap {A = Process} {B = Fs}
      (λ q. record f {
        procs =
            set (set f.procs f.current (record p { fds = cs })) f.current (record q { fds = ds });
      })
      (given f cs l)
    ∙ ap (λ ps. record f { procs = ps }) (set-set f.procs f.current _ _)

-- The loop closes the descriptors that it runs over, and changes nothing else.
pub close_all-AreClosed :
    (n : ℕ) (f : Fs) (fd : ℕ)
    → f.current < length f.procs
    → fd + n ≤ fd_max
    → (ds : List FileDesc) × (close_all n f fd ≡ with_fds f ds) × AreClosed f fd (fd + n) ds
unfolding close_all
close_all-AreClosed zero f fd l b = (
  current_fds f,
  sym (ap (λ ps. record f { procs = ps }) (set_same f.procs f.current l)),
  record { shut = λ j lo hi. absurd (omega arith); below = λ j h. refl },
)
close_all-AreClosed (suc n) f fd l b = elim (Bool-cases (fd_at (current_fds f) fd).used) [
  | inl x ↦
      let cs : List FileDesc = set (current_fds f) fd closed in
      let (ds, e, a) =
        close_all-AreClosed n (with_fds f cs) (fd + 1)
          (omega (
            arith,
            l,
            length-set f.procs f.current (record (proc_at f.procs f.current) { fds = cs }),
          ))
          (omega arith) in
      let again : close_all n (fs_close f (pos fd)).0 (fd + 1) ≡ with_fds f ds =
        ap (λ g. close_all n g (fd + 1)) (used_closes f fd (omega arith) x)
        ∙ e
        ∙ with_fds_twice f cs ds l in
      let same : current_fds (with_fds f cs) ≡ cs = current_fds-with_fds f cs l in
      rw x (
        ds,
        again,
        record {
          shut = λ j lo hi. elim (ℕ_discrete j fd) [
            | yes q ↦ rw q (
                ap (λ (d : FileDesc). d.used) (a.below fd (omega arith))
                ∙ ap (λ xs. (fd_at xs fd).used) same
                ∙ closed_at (current_fds f) fd)
            | no q ↦ a.shut j (omega arith) (omega arith)
          ];
          below = λ j h.
              a.below j (omega arith)
              ∙ ap (λ xs. fd_at xs j) same
              ∙ get_or-set_ne (current_fds f) fd j closed closed (λ z. omega (arith, z));
        },
      )
  | inr x ↦
      let (ds, e, a) = close_all-AreClosed n f (fd + 1) l (omega arith) in
      rw x (
        ds,
        e,
        record {
          shut = λ j lo hi. elim (ℕ_discrete j fd) [
            | yes q ↦ rw q (ap (λ (d : FileDesc). d.used) (a.below fd (omega arith)) ∙ x)
            | no q ↦ a.shut j (omega arith) (omega arith)
          ];
          below = λ j h. a.below j (omega arith);
        },
      )
]
