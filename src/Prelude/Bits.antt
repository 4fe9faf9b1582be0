-- ===== src/Prelude/Bits.antt =====
-- Bitwise operations: the or of numbers that share no bits, and tests of single bits.
use Prim.Native.Nat.{
  ℕ, zero, suc, ◌+◌, ◌*◌, ◌/◌, ◌%◌, ◌≤◌, ◌<◌, bit_and, bit_or, digits, max, bit_or-bitwise,
}
use mathlib.Core.Path.{◌≡◌, refl, sym, ap, ◌∙◌}
use mathlib.Core.Logic.{inl, inr}
use mathlib.Core.Bool.{Bool, true, not, ◌&&◌}
use native.Mathlib.Omega.{arith}
use sugimotos.Prelude.Tests.{◌==◌, Bool-cases}

-- `flags & bit`, as a condition.
unfoldable pub has_bit : ℕ → ℕ → Bool
has_bit flags bit = not (bit_and flags bit == 0)

-- The count of digits to go does not matter, if it is large enough.
digits_enough :
    (n m a b : ℕ) → a ≤ n → a ≤ m → digits (λ b. b) max n a b ≡ digits (λ b. b) max m a b
digits_enough zero zero a b h k = refl
digits_enough zero (suc m) zero b h k = refl
digits_enough zero (suc m) (suc a) b h k = absurd (omega arith)
digits_enough (suc n) zero zero b h k = refl
digits_enough (suc n) zero (suc a) b h k = absurd (omega arith)
digits_enough (suc n) (suc m) zero b h k = refl
digits_enough (suc n) (suc m) (suc a) b h k =
    ap (λ d. d * 2 + max (suc a % 2) (b % 2))
      (digits_enough n m (suc a / 2) (b / 2) (omega arith) (omega arith))

digits_self : (n a : ℕ) → a ≤ n → digits (λ b. b) max n a 0 ≡ a
digits_self zero a h = omega arith
digits_self (suc n) zero h = refl
digits_self (suc n) (suc a) h =
    ap (λ d. d * 2 + max (suc a % 2) 0) (digits_self n (suc a / 2) (omega arith)) ∙ omega arith

or_zero : (b : ℕ) → bit_or 0 b ≡ 0 + b
or_zero b = bit_or-bitwise 0 b ∙ omega arith

or_step : (a b : ℕ) → bit_or (suc a) b ≡ bit_or (suc a / 2) (b / 2) * 2 + max (suc a % 2) (b % 2)
or_step a b =
    bit_or-bitwise (suc a) b
    ∙ ap (λ d. d * 2 + max (suc a % 2) (b % 2))
        (digits_enough a (suc a / 2) (suc a / 2) (b / 2) (omega arith) (omega arith))
    ∙ sym (ap (λ d. d * 2 + max (suc a % 2) (b % 2)) (bit_or-bitwise (suc a / 2) (b / 2)))

-- a * 2 ^ k
abbrev pub shifted : ℕ → ℕ → ℕ
shifted zero a = a
shifted (suc k) a = shifted k a * 2

or_even : (a x b : ℕ) → a ≡ x * 2 → bit_or x (b / 2) ≡ x + b / 2 → bit_or a b ≡ a + b
or_even zero x b e h = or_zero b
or_even (suc a) x b e h =
    or_step a b
    ∙ ap {A = ℕ} {B = ℕ} (λ y. bit_or y (b / 2) * 2 + max (suc a % 2) (b % 2)) half
    ∙ omega (arith, h)
  where
    half : suc a / 2 ≡ x
    half = omega arith

or_self : (a : ℕ) → bit_or a 0 ≡ a
or_self a = bit_or-bitwise a 0 ∙ digits_self a a (omega arith)

bit_or-shifted : (k a b : ℕ) → b < shifted k 1 → bit_or (shifted k a) b ≡ shifted k a + b
bit_or-shifted zero zero b h = or_zero b
bit_or-shifted zero (suc a) b h =
    let none_left : b ≡ 0 = omega arith in rw none_left (or_self (suc a) ∙ omega arith)
bit_or-shifted (suc k) a b h =
    or_even (shifted (suc k) a) (shifted k a) b refl (bit_or-shifted k a (b / 2) (omega arith))

-- The or of a multiple of 2 ^ k and a number below 2 ^ k is their sum.
pub bit_or-add : (k a c b : ℕ) → shifted k a ≡ c → b < shifted k 1 → bit_or c b ≡ c + b
bit_or-add k a c b e h = rw e at (bit_or-shifted k a b h)

-- A test that holds of all numbers below `n`.
abbrev pub all_below : ℕ → (ℕ → Bool) → Bool
all_below zero f = true
all_below (suc n) f = f n && all_below n f

pub all_below-each : (n : ℕ) (f : ℕ → Bool) → all_below n f ≡ true → (i : ℕ) → i < n → f i ≡ true
all_below-each zero f h i l = absurd (omega arith)
all_below-each (suc n) f h i l = elim (Bool-cases (f n)) [
  | inl e ↦ elim (Bool-cases (i == n)) [
    | inl x ↦ ground arith
    | inr x ↦ all_below-each n f (ground arith) i (ground arith)
  ]
  | inr e ↦ ground arith
]
