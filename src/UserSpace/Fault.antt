-- ===== src/UserSpace/Fault.antt =====
-- mm/process_vm.c: what a page fault leaves: a new page of zeros, or a copy of a shared page.
use sugimotos.Prelude.{
  ℕ, ◌+◌, ◌*◌, ◌/◌, ◌%◌, ◌^◌, ◌≤◌, ◌<◌, ◌≡◌, ◌≢◌, ◌⊎◌, refl, ap, ◌∙◌, Bool, true, false, none, some,
  arith, inl, inr, page_size, ◌==◌, if◌then◌else◌, bit_and,
}
use sugimotos.Prelude.Bits.{has_bit}
use sugimotos.PageAlloc.{Allocator, Outcome, returns, page_run_size}
use sugimotos.PageAlloc.State.{IsAllocator}
use sugimotos.PageAlloc.Alloc.{Given}
use sugimotos.Vma.{vma_prot_r, vma_prot_w, vma_prot_x}
use sugimotos.Vm.{Machine, Memory, clear_page, vm_root_from_satp}
use sugimotos.Vm.Table.{alloc_page}
use sugimotos.Vm.Entry.{user_perm}
use sugimotos.Vm.Tree.{entry_at, SamePage}
use sugimotos.Vm.Split.{clear_page_in}
use sugimotos.Vm.Space.{InUse, IsSpace}
use sugimotos.Vm.NewPage.{alloc_page-cases, page_same}
use sugimotos.Vm.UserPage.{translation}
use sugimotos.UserSpace.Calls.{prot_to_query_bits, map_or_free}
use sugimotos.UserSpace.Place.{Steady, Placed, Refused, map_or_free-cases}

-- The permissions of a user page, from what `prot` asks for.
abbrev perm_of_bits : Bool → Bool → Bool → ℕ
perm_of_bits r w x = (if r then 0x2 else 0) + (if w then 0x4 else 0) + (if x then 0x8 else 0) + 0x10

abbrev pub Allows : ℕ → ℕ → Type 0
Allows perm bits = (bit_and (perm / 2 % 16 * 2) bits ≡ bits) × ((perm / 2 % 8 == 0) ≡ false)

Allows-r : (w x : Bool) → Allows (perm_of_bits true w x) 0x2
Allows-r true true = (refl, refl)
Allows-r true false = (refl, refl)
Allows-r false true = (refl, refl)
Allows-r false false = (refl, refl)

Allows-w : (r x : Bool) → Allows (perm_of_bits r true x) 0x4
Allows-w true true = (refl, refl)
Allows-w true false = (refl, refl)
Allows-w false true = (refl, refl)
Allows-w false false = (refl, refl)

Allows-x : (r w : Bool) → Allows (perm_of_bits r w true) 0x8
Allows-x true true = (refl, refl)
Allows-x true false = (refl, refl)
Allows-x false true = (refl, refl)
Allows-x false false = (refl, refl)

-- An access of one kind.
abbrev pub IsAccess : ℕ → Type 0
IsAccess access = (access ≡ vma_prot_r) ⊎ (access ≡ vma_prot_w) ⊎ (access ≡ vma_prot_x)

-- An area that allows the access gets pages that allow it.
pub user_perm-Allows :
    (prot access : ℕ)
    → IsAccess access
    → (bit_and prot access == access) ≡ true
    → Allows (user_perm prot) (prot_to_query_bits access)
unfolding prot_to_query_bits has_bit
user_perm-Allows prot access (inl e) h =
    let same : bit_and prot access ≡ access = ground (arith, h) in
    let bit : has_bit prot vma_prot_r ≡ true = ground (arith, rw e at same) in
    rw (e, bit) (Allows-r (has_bit prot vma_prot_w) (has_bit prot vma_prot_x))
user_perm-Allows prot access (inr (inl e)) h =
    let same : bit_and prot access ≡ access = ground (arith, h) in
    let bit : has_bit prot vma_prot_w ≡ true = ground (arith, rw e at same) in
    rw (e, bit) (Allows-w (has_bit prot vma_prot_r) (has_bit prot vma_prot_x))
user_perm-Allows prot access (inr (inr e)) h =
    let same : bit_and prot access ≡ access = ground (arith, h) in
    let bit : has_bit prot vma_prot_x ≡ true = ground (arith, rw e at same) in
    rw (e, bit) (Allows-x (has_bit prot vma_prot_r) (has_bit prot vma_prot_w))

-- What a fault that was served leaves at the page of `va`: a translation that allows the access. The
-- page behind it is the one that was mapped, or a copy of it, or a new one, full of zeros.
pub record Faulted (ram top : ℕ) (s : Machine) (satp va access : ℕ) (t : Machine) : Type 0 where
  pub steady : Steady ram top (vm_root_from_satp satp) s t
  pub pa : ℕ
  pub prot : ℕ
  pub maps : translation t satp va ≡ some (pa, prot)
  pub allows : bit_and prot (prot_to_query_bits access) ≡ prot_to_query_bits access
  pub others :
      (a : ℕ)
      → a < 2 ^ 32
      → a / page_size ≢ va / page_size
      → translation t satp a ≡ translation s satp a
  pub content :
      ((translation s satp va ≡ none) × ((i : ℕ) → i < 1024 → entry_at t.memory pa i ≡ 0))
      ⊎ ((old : ℕ) × (mapped : ℕ) × (translation s satp va ≡ some (old, mapped))
          × ((i : ℕ) → i < 1024 → entry_at t.memory pa i ≡ entry_at s.memory old i))

-- A result that is another where the call succeeds.
pub on_success :
    {A B : Type 0} (C : Type 0) (ok : Bool)
    → (A → B)
    → (if ok then A else C)
    → (if ok then B else C)
on_success C true f a = f a
on_success C false f c = c

abbrev pub Served : ℕ → ℕ → Machine → ℕ → ℕ → ℕ → Outcome (Machine × Bool) → Type 0
Served ram top s satp va access o =
    (t : Machine) × (ok : Bool) × (o ≡ returns (t, ok))
    × (if ok then Faulted ram top s satp va access t else Refused ram top s satp t)

module _ (ram top : ℕ) (al : ram % page_size ≡ 0) (lo : page_run_size ≤ ram) (up : ram ≤ top)
    (hi : top < 2 ^ 32) (s : Machine) (v : IsAllocator ram top s.pages) (satp : ℕ)
    (w : IsSpace ram s (vm_root_from_satp satp)) (va : ℕ) (va_page : va % page_size ≡ 0)
    (small : va < 2 ^ 32) where
  pub Steady-refl : Steady ram top (vm_root_from_satp satp) s s
  Steady-refl = record { allocator = v; space = w; words = λ p u n i h. refl }

  pub Refused-refl : Refused ram top s satp s
  Refused-refl = record { steady = Steady-refl; unchanged = λ a. refl }

  abbrev page : ℕ → ℕ
  page idx = ram + idx * page_size

  -- A page placed at `va` with the permissions of an area that allows the access.
  pub Placed-maps :
      (pages : Allocator) (idx : ℕ) (g : Given ram top al lo up hi s.pages idx 1 pages)
      (memory : Memory) (keep : (p : ℕ) → InUse ram s.pages p → SamePage s.memory memory p)
      (prot access : ℕ) (t : Machine)
      → IsAccess access
      → (bit_and prot access == access) ≡ true
      → Placed ram top al lo up hi s v satp w pages idx g memory keep va (user_perm prot) t
      → (translation t satp va ≡ some (page idx, user_perm prot / 2 % 16 * 2))
        × ((a : ℕ)
            → a < 2 ^ 32
            → a / page_size ≢ va / page_size
            → translation t satp a ≡ translation s satp a)
  Placed-maps pages idx g memory keep prot access t kind allowed m =
      let (_, some_perm) = user_perm-Allows prot access kind allowed in
      let here : (va / page_size == va / page_size) ≡ true = ground arith in
      let place : page idx / page_size * page_size + va % page_size ≡ page idx = omega arith in
      (
        m.changed va small ∙ rw (here, some_perm, place) refl,
        λ a h n.
            let elsewhere : (a / page_size == va / page_size) ≡ false = ground arith in
            m.changed a h ∙ rw elsewhere refl,
      )

  zero_Faulted :
      (pages : Allocator) (idx : ℕ) (g : Given ram top al lo up hi s.pages idx 1 pages)
      (prot access : ℕ) (t : Machine)
      → IsAccess access
      → (bit_and prot access == access) ≡ true
      → translation s satp va ≡ none
      → Placed ram top al lo up hi s v satp w pages idx g
          (clear_page s.memory (page idx))
          (page_same ram top al lo up hi s v pages idx g)
          va
          (user_perm prot)
          t
      → Faulted ram top s satp va access t
  zero_Faulted pages idx g prot access t kind allowed e m =
      let (maps, others) =
        Placed-maps pages idx g (clear_page s.memory (page idx))
          (page_same ram top al lo up hi s v pages idx g) prot access t kind allowed m in
      let (bits, _) = user_perm-Allows prot access kind allowed in
      record {
        steady = m.steady;
        pa = page idx;
        prot = user_perm prot / 2 % 16 * 2;
        maps = maps;
        allows = bits;
        others = others;
        content = inl (e, λ i h. m.content i h ∙ clear_page_in s.memory (page idx) i h);
      }

  -- A page of zeros, where nothing was mapped.
  pub zero_page :
      (prot access : ℕ)
      → IsAccess access
      → (bit_and prot access == access) ≡ true
      → translation s satp va ≡ none
      → Served ram top s satp va access (
          let (s', pa) = alloc_page ram top s in
          if pa == 0 then returns (s', false) else map_or_free ram top s' satp va pa prot)
  zero_page prot access kind allowed e = elim (alloc_page-cases ram top al lo up hi s v) [
    | inl q ↦ (s, false, ap rest q, Refused-refl)
    | inr (pages, idx, g, q) ↦
        let memory : Memory = clear_page s.memory (page idx) in
        let keep : (p : ℕ) → InUse ram s.pages p → SamePage s.memory memory p =
          page_same ram top al lo up hi s v pages idx g in
        let (t, ok, f, r) =
          map_or_free-cases ram top al lo up hi s v satp w pages idx g memory keep va prot small in
        (
          t,
          ok,
          ap rest q ∙ rw (nonzero idx) f,
          on_success _ ok (zero_Faulted pages idx g prot access t kind allowed e) r,
        )
  ]
    where
      rest : Machine × ℕ → Outcome (Machine × Bool)
      rest (s', pa) =
          if pa == 0 then returns (s', false) else map_or_free ram top s' satp va pa prot

      nonzero : (idx : ℕ) → (ram + idx * page_size == 0) ≡ false
      nonzero idx = ground arith
