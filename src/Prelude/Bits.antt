-- ===== src/Prelude/Bits.antt =====
-- Bit operations at the masks that the program uses: `|` of disjoint bits is a sum, and `&` with
-- a mask of ones is a remainder.
use Prim.Native.Nat.{
  ℕ, zero, suc, ◌+◌, ◌*◌, ◌/◌, ◌%◌, ◌≤◌, ◌<◌, min, max, bit_and, bit_or, bitwise, digits,
  bit_and-bitwise, bit_or-bitwise,
}
use mathlib.Core.Path.{◌≡◌, refl, ◌∙◌}
use mathlib.Core.Logic.{◌⊎◌, inl, inr}
use native.Mathlib.Nat.{le_refl}
use native.Mathlib.Omega.{arith}

-- The native operations recurse on fuel; more of it than the first number changes nothing.
module _ (rest : ℕ → ℕ) (op : ℕ → ℕ → ℕ) where
  one_more : (fuel x y : ℕ) → x ≤ fuel → digits rest op (suc fuel) x y ≡ digits rest op fuel x y
  one_more fuel zero y h = one_more_zero fuel y
    where
      one_more_zero : (fuel y : ℕ) → digits rest op (suc fuel) zero y ≡ digits rest op fuel zero y
      one_more_zero zero y = refl
      one_more_zero (suc fuel) y = refl
  one_more zero (suc x) y h = absurd (omega arith)
  one_more (suc fuel) (suc x) y h = rw (one_more fuel (suc x / 2) (y / 2) (omega arith))

  enough : (fuel x y : ℕ) → x ≤ fuel → digits rest op fuel x y ≡ bitwise rest op x y
  enough zero x y h = let e : x ≡ 0 = omega arith in rw e
  enough (suc fuel) x y h = elim (last_or_less x fuel h) [
    | inl last ↦ rw last
    | inr less ↦ one_more fuel x y less ∙ enough fuel x y less
  ]
    where
      last_or_less : (x fuel : ℕ) → x ≤ suc fuel → (x ≡ suc fuel) ⊎ (x ≤ fuel)
      last_or_less x fuel h = ground arith

  lowest :
      (x y : ℕ)
      → bitwise rest op (suc x) y ≡ op (suc x % 2) (y % 2) + 2 * bitwise rest op (suc x / 2) (y / 2)
  lowest x y = omega (arith, enough x (suc x / 2) (y / 2) (omega arith))

-- One digit of each operation.
bit_or-digit : (x y : ℕ) → bit_or x y ≡ max (x % 2) (y % 2) + 2 * bit_or (x / 2) (y / 2)
bit_or-digit zero y = simp bit_or-bitwise (omega arith)
bit_or-digit (suc x) y = simp bit_or-bitwise (lowest (λ d. d) max x y)

bit_and-digit : (x y : ℕ) → bit_and x y ≡ min (x % 2) (y % 2) + 2 * bit_and (x / 2) (y / 2)
bit_and-digit zero y = simp bit_and-bitwise (omega arith)
bit_and-digit (suc x) y = simp bit_and-bitwise (lowest (λ d. 0) min x y)

-- `a` shifted left by `k` bits, one bit at a time.
abbrev shifted : ℕ → ℕ → ℕ
shifted zero a = a
shifted (suc k) a = 2 * shifted k a

with_zero : (bound x : ℕ) → x ≤ bound → (bit_or x 0 ≡ x) × (bit_and x 0 ≡ 0)
with_zero bound zero h = (refl, refl)
with_zero zero (suc x) h = absurd (omega arith)
with_zero (suc bound) (suc x) h =
    let (kept, cleared) = with_zero bound (suc x / 2) (omega arith) in
    (omega (arith, bit_or-digit (suc x) 0, kept), omega (arith, bit_and-digit (suc x) 0, cleared))

bit_or-shifted : (k a s : ℕ) → s < shifted k 1 → bit_or (shifted k a) s ≡ shifted k a + s
bit_or-shifted zero a zero h = omega (arith, (with_zero a a (le_refl a)).0)
bit_or-shifted zero a (suc s) h = absurd (omega arith)
bit_or-shifted (suc k) a s h =
    let e : 2 * shifted k a / 2 ≡ shifted k a = omega arith in
    let step : bit_or (2 * shifted k a) s
        ≡ max (2 * shifted k a % 2) (s % 2) + 2 * bit_or (2 * shifted k a / 2) (s / 2) =
      bit_or-digit (2 * shifted k a) s in
    omega (arith, rw e at step, bit_or-shifted k a (s / 2) (omega arith))

-- `c | s` where `c` is a multiple of 2 ^ 16 and `s` has 16 bits.
pub bit_or-low16 : (c s : ℕ) → c % 65536 ≡ 0 → s < 65536 → bit_or c s ≡ c + s
bit_or-low16 c s m h =
    let e : 65536 * (c / 65536) ≡ c = omega arith in
    rw (← e) (
      let low : shifted 16 (c / 65536) ≡ 65536 * (c / 65536) = omega arith in
      rw (← low) (bit_or-shifted 16 (c / 65536) s (omega arith)))

-- A mask of `k` ones.
abbrev ones : ℕ → ℕ
ones zero = 0
ones (suc k) = 2 * ones k + 1

-- The lowest `k` bits, one at a time.
abbrev low : ℕ → ℕ → ℕ
low zero a = 0
low (suc k) a = 2 * low k (a / 2) + a % 2

bit_and-ones : (k a : ℕ) → bit_and a (ones k) ≡ low k a
bit_and-ones zero a = (with_zero a a (le_refl a)).1
bit_and-ones (suc k) a =
    let e : (2 * ones k + 1) / 2 ≡ ones k = omega arith in
    let step : bit_and a (2 * ones k + 1)
        ≡ min (a % 2) ((2 * ones k + 1) % 2) + 2 * bit_and (a / 2) ((2 * ones k + 1) / 2) =
      bit_and-digit a (2 * ones k + 1) in
    omega (arith, rw e at step, bit_and-ones k (a / 2))

pub bit_and-low16 : (a : ℕ) → bit_and a 65535 ≡ a % 65536
bit_and-low16 a = omega (arith, bit_and-ones 16 a)

bit_and-low5 : (a : ℕ) → bit_and a 31 ≡ a % 32
bit_and-low5 a = omega (arith, bit_and-ones 5 a)
