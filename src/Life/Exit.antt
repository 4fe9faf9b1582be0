-- ===== src/Life/Exit.antt =====
-- kernel/process/process.c: `proc_exit`.
use sugimotos.Prelude.{
  ℕ, ◌+◌, ◌<◌, ◌≡◌, ◌≢◌, ◌⊎◌, refl, sym, ap, ◌∙◌, true, false, List, length, set, Option, arith,
  inl, inr, Bool-cases, length-set, get_or-set_self, get_or-set_ne,
}
use native.Mathlib.Decide.{ℕ_discrete}
use sugimotos.Proc.{
  ProcState, unused, runnable, blocked, zombie, is_unused, is_blocked, FileDesc, Process,
  zero_process, proc_at, proc_max, fd_max,
}
use sugimotos.Fs.{Fs, fd_at}
use sugimotos.Life.{System, procs_of, put_procs, fs_of, put_fs}
use sugimotos.Life.Slots.{find_process_by_pid}
use sugimotos.Life.Calls.{wake_parent, proc_exit}
use sugimotos.Life.Closed.{with_fds, close_all-AreClosed}
use sugimotos.Life.Table.{IsProcs, set-IsProcs, used-IsSlot, find_process_by_pid_unique, set-set}

-- The process that has ended, with its descriptors `ds`.
abbrev pub ended : Process → List FileDesc → ℕ → Process
ended p ds status = record p { fds = ds; exit_status = status; state = zombie }

-- What `proc_exit` leaves of slot `j` of another process: it is runnable where it was blocked and is
-- the parent, and else what it was.
abbrev pub Left : System → ℕ → ℕ → Process → Type 0
Left s cur j q =
    let p = proc_at (procs_of s) j in
    let parent = (proc_at (procs_of s) cur).parent_pid in
    ((is_blocked p.state ≡ true)
      × (is_unused p.state ≡ false)
      × (p.pid ≡ parent)
      × (q ≡ record p { state = runnable }))
    ⊎ ((q ≡ p) × ((is_unused p.state ≡ false) → (p.pid ≡ parent) → is_blocked p.state ≡ false))

pub record Exited (s : System) (cur status : ℕ) (t : System) : Type 0 where
  pub fds : List FileDesc
  pub closed_all : (fd : ℕ) → fd < fd_max → (fd_at fds fd).used ≡ false
  pub dead : proc_at (procs_of t) cur ≡ ended (proc_at (procs_of s) cur) fds status
  pub others : (j : ℕ) → j < proc_max → j ≢ cur → Left s cur j (proc_at (procs_of t) j)
  pub sound : IsProcs (procs_of t)
  pub same_machine : t.machine ≡ s.machine
  pub same_inodes : t.inodes ≡ s.inodes

pub used_blocked : (p : ProcState) → is_blocked p ≡ true → is_unused p ≡ false
used_blocked blocked e = refl
used_blocked unused e = absurd (ground arith)
used_blocked runnable e = absurd (ground arith)
used_blocked zombie e = absurd (ground arith)

module _ (s : System) (cur : ℕ) (v : IsProcs (procs_of s)) (l : cur < proc_max)
    (live : is_unused (proc_at (procs_of s) cur).state ≡ false) (status : ℕ) where
  module _ (ds : List FileDesc) where
    abbrev gone : Process
    gone = ended (proc_at (procs_of s) cur) ds status

    abbrev table : List Process
    table = set (procs_of s) cur gone

    table-IsProcs : IsProcs table
    table-IsProcs =
        set-IsProcs (procs_of s) cur gone v l
          (used-IsSlot cur gone refl ((v.slots cur l).numbered live))

    here : proc_at table cur ≡ gone
    here = get_or-set_self (procs_of s) cur gone zero_process (omega (arith, l, v.size))

    there : (j : ℕ) → j ≢ cur → proc_at table j ≡ proc_at (procs_of s) j
    there j n = get_or-set_ne (procs_of s) cur j gone zero_process (λ e. n (sym e))

    -- The parent is looked for in the table where the process is dead already.
    abbrev parent : Option ℕ
    parent = find_process_by_pid table (proc_at (procs_of s) cur).parent_pid

    abbrev woken : List Process
    woken = wake_parent table parent

    unmoved :
        (e : woken ≡ table)
        → ((j : ℕ)
            → j < proc_max
            → j ≢ cur
            → is_unused (proc_at (procs_of s) j).state ≡ false
            → (proc_at (procs_of s) j).pid ≡ (proc_at (procs_of s) cur).parent_pid
            → is_blocked (proc_at (procs_of s) j).state ≡ false)
        → (proc_at woken cur ≡ gone)
          × ((j : ℕ) → j < proc_max → j ≢ cur → Left s cur j (proc_at woken j))
          × IsProcs woken
    unmoved e h = (
      ap (λ ps. proc_at ps cur) e ∙ here,
      λ j k n. inr (ap (λ ps. proc_at ps j) e ∙ there j n, h j k n),
      rw e table-IsProcs,
    )

    not_blocked :
        (i j : ℕ)
        → j < proc_max
        → j ≢ cur
        → is_unused (proc_at (procs_of s) j).state ≡ false
        → (proc_at (procs_of s) j).pid ≡ i + 1
        → is_blocked (proc_at table i).state ≡ false
        → is_blocked (proc_at (procs_of s) j).state ≡ false
    not_blocked i j m n u q x =
        let same : i ≡ j = omega (arith, (v.slots j m).numbered u, q) in
        sym (ap (λ (p : Process). is_blocked p.state) (there j n))
        ∙ ap (λ k. is_blocked (proc_at table k).state) (sym same)
        ∙ x

    woken_parent :
        (i : ℕ)
        → i < proc_max
        → (proc_at (procs_of s) cur).parent_pid ≡ i + 1
        → is_blocked (proc_at table i).state ≡ true
        → woken ≡ set table i (record (proc_at table i) { state = runnable })
        → (proc_at woken cur ≡ gone)
          × ((j : ℕ) → j < proc_max → j ≢ cur → Left s cur j (proc_at woken j))
          × IsProcs woken
    woken_parent i k q x e =
        let awake : Process = record (proc_at table i) { state = runnable } in
        let other : i ≢ cur = λ z. ground (
          arith,
          sym x
              ∙ ap (λ m. is_blocked (proc_at table m).state) z
              ∙ ap (λ (p : Process). is_blocked p.state) here,
        ) in
        let blocked_i : is_blocked (proc_at (procs_of s) i).state ≡ true =
          sym (ap (λ (p : Process). is_blocked p.state) (there i other)) ∙ x in
        let used_i = used_blocked (proc_at (procs_of s) i).state blocked_i in
        let pid_i = (v.slots i k).numbered used_i in
        let size : i < length table = omega (arith, k, v.size, length-set (procs_of s) cur gone) in
        (
          ap (λ ps. proc_at ps cur) e ∙ get_or-set_ne table i cur awake zero_process other ∙ here,
          λ j m n. elim (ℕ_discrete j i) [
            | yes z ↦ rw z (
                inl (
                  blocked_i,
                  used_i,
                  pid_i ∙ sym q,
                  ap (λ ps. proc_at ps i) e
                      ∙ get_or-set_self table i awake zero_process size
                      ∙ ap {A = Process} {B = Process} (λ p. record p { state = runnable })
                          (there i other),
                ))
            | no z ↦ inr (
              ap (λ ps. proc_at ps j) e
                  ∙ get_or-set_ne table i j awake zero_process (λ y. z (sym y))
                  ∙ there j n,
              λ u g. absurd (z (omega (arith, (v.slots j m).numbered u, g, q))),
            )
          ],
          rw e (
              set-IsProcs table i awake table-IsProcs k
                (used-IsSlot i awake refl (ap (λ (p : Process). p.pid) (there i other) ∙ pid_i))),
        )

    wakes :
        (proc_at woken cur ≡ gone)
        × ((j : ℕ) → j < proc_max → j ≢ cur → Left s cur j (proc_at woken j))
        × IsProcs woken
    unfolding wake_parent
    wakes =
        elim (find_process_by_pid_unique table (proc_at (procs_of s) cur).parent_pid
          table-IsProcs) [
            | inl (i, e, q, k, u) ↦ elim (Bool-cases (is_blocked (proc_at table i).state)) [
              | inl x ↦ woken_parent i k q x (rw e (rw x refl))
              | inr x ↦ unmoved (rw e (rw x refl)) (λ j m n w g. not_blocked i j m n w (g ∙ q) x)
            ]
            | inr (e, h) ↦ unmoved (rw e refl) λ j k n u q. absurd (
                ground (
                  arith,
                  sym u
                      ∙ sym (ap (λ (p : Process). is_unused p.state) (there j n))
                      ∙ h j k (ap (λ (p : Process). p.pid) (there j n) ∙ q),
                ))
          ]

  finish : Fs → System
  finish f =
      let s' : System = put_fs s f in
      let ps : List Process =
        set (procs_of s') cur
          (record (proc_at (procs_of s') cur) { exit_status = status; state = zombie }) in
      put_procs s' (wake_parent ps (find_process_by_pid ps (proc_at ps cur).parent_pid))

  finished : (ds : List FileDesc) → procs_of (finish (with_fds (fs_of s cur) ds)) ≡ woken ds
  unfolding finish
  finished ds =
      let p : Process = record (proc_at (procs_of s) cur) { fds = ds } in
      let size : cur < length (procs_of s) = omega (arith, l, v.size) in
      let tables : set (set (procs_of s) cur p) cur
            (record (proc_at (set (procs_of s) cur p) cur) { exit_status = status; state = zombie })
          ≡ table ds =
        ap {A = Process} {B = List Process}
          (λ q.
            set (set (procs_of s) cur p) cur (record q { exit_status = status; state = zombie }))
          (get_or-set_self (procs_of s) cur p zero_process size)
        ∙ set-set (procs_of s) cur p _ in
      ap (λ ps. wake_parent ps (find_process_by_pid ps (proc_at ps cur).parent_pid)) tables
      ∙ ap (λ (q : Process). wake_parent (table ds) (find_process_by_pid (table ds) q.parent_pid))
          (here ds)

  -- `proc_exit` of a live process of a sound table leaves a zombie with that status, all of whose
  -- descriptors are closed. It makes the parent runnable if that is blocked, and changes no other
  -- process, no file and nothing in memory: the pages of the zombie are still its own. The table stays
  -- sound.
  pub proc_exit-Exited : Exited s cur status (proc_exit s cur status)
  unfolding proc_exit finish
  proc_exit-Exited =
      let (ds, e, a) =
        close_all-AreClosed fd_max (fs_of s cur) 0 (omega (arith, l, v.size)) (omega arith) in
      let same : proc_exit s cur status ≡ finish (with_fds (fs_of s cur) ds) = ap finish e in
      let (dead, others, sound) = wakes ds in
      let procs : procs_of (proc_exit s cur status) ≡ woken ds = ap procs_of same ∙ finished ds in
      record {
        fds = ds;
        closed_all = λ fd h. a.shut fd (omega arith) h;
        dead = ap (λ ps. proc_at ps cur) procs ∙ dead;
        others = λ j m n. rw procs (others j m n);
        sound = rw procs sound;
        same_machine = ap (λ (t : System). t.machine) same;
        same_inodes = ap (λ (t : System). t.inodes) same;
      }
