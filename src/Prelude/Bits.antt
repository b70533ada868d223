-- ===== src/Prelude/Bits.antt =====
-- Laws of the bit operations: the lowest digit, disjoint fields, low masks and finite tables.
use Prim.Native.Nat.{
  ℕ, zero, suc, ◌+◌, ◌*◌, ◌/◌, ◌%◌, ◌^◌, ◌-◌, ◌≤◌, ◌<◌, min, max, digits, bit_and, bit_or,
  bit_and-bitwise, bit_or-bitwise,
}
use mathlib.Core.Path.{◌≡◌, refl, ap, ◌∙◌}
use mathlib.Core.Bool.{Bool, true, ◌&&◌}
use native.Mathlib.Nat.{pow-suc, one-le-pow}
use native.Mathlib.Omega.{arith}

-- A property of every number below `n`, by evaluation.
unfoldable pub all_below : ℕ → (ℕ → Bool) → Bool
all_below zero p = true
all_below (suc n) p = p n && all_below n p

pub all_below-elim : (n : ℕ) (p : ℕ → Bool) (x : ℕ) → all_below n p ≡ true → x < n → p x ≡ true
unfolding all_below
all_below-elim zero p x h lt = absurd (omega arith)
all_below-elim (suc n) p x h lt = ground (arith, all_below-elim n p x)

-- The recursion on binary digits does not depend on its fuel.
digits_enough :
    (z : ℕ → ℕ) (f : ℕ → ℕ → ℕ) (n k a b : ℕ) → a ≤ n → a ≤ k → digits z f n a b ≡ digits z f k a b
digits_enough z f zero zero zero b h l = refl
digits_enough z f zero zero (suc a) b h l = absurd (omega arith)
digits_enough z f zero (suc k) zero b h l = refl
digits_enough z f zero (suc k) (suc a) b h l = absurd (omega arith)
digits_enough z f (suc n) zero zero b h l = refl
digits_enough z f (suc n) zero (suc a) b h l = absurd (omega arith)
digits_enough z f (suc n) (suc k) zero b h l = refl
digits_enough z f (suc n) (suc k) (suc a) b h l =
    omega (arith, digits_enough z f n k (suc a / 2) (b / 2) (omega arith) (omega arith))

-- Both operations from the halves of the numbers and their lowest digits.
halves :
    (a b : ℕ)
    → (bit_or a b ≡ bit_or (a / 2) (b / 2) * 2 + max (a % 2) (b % 2))
      × (bit_and a b ≡ bit_and (a / 2) (b / 2) * 2 + min (a % 2) (b % 2))
halves zero b =
    let or = bit_or-bitwise 0 in
    let and = bit_and-bitwise 0 in
    (omega (arith, or b, or (b / 2)), omega (arith, and b, and (b / 2)))
halves (suc n) b =
    let h = suc n / 2 in
    let less : h ≤ n = omega arith in
    let same = λ (z : ℕ → ℕ) (f : ℕ → ℕ → ℕ). digits_enough z f n h h (b / 2) less (omega arith) in
    (
      omega (arith, same (λ y. y) max, bit_or-bitwise (suc n) b, bit_or-bitwise h (b / 2)),
      omega (arith, same (λ _. 0) min, bit_and-bitwise (suc n) b, bit_and-bitwise h (b / 2)),
    )

pub bit_or-halves : (a b : ℕ) → bit_or a b ≡ bit_or (a / 2) (b / 2) * 2 + max (a % 2) (b % 2)
bit_or-halves a b = (halves a b).0

pub bit_and-halves : (a b : ℕ) → bit_and a b ≡ bit_and (a / 2) (b / 2) * 2 + min (a % 2) (b % 2)
bit_and-halves a b = (halves a b).1

-- Zero on the right, for every number up to a bound.
with_zero : (bound a : ℕ) → a ≤ bound → (bit_or a 0 ≡ a) × (bit_and a 0 ≡ 0)
with_zero bound zero small = (refl, refl)
with_zero zero (suc k) small = absurd (omega arith)
with_zero (suc bound) (suc k) small =
    let (or, and) = with_zero bound (suc k / 2) (omega arith) in
    (omega (arith, or, bit_or-halves (suc k) 0), omega (arith, and, bit_and-halves (suc k) 0))

pub bit_or-zero : (a : ℕ) → bit_or a 0 ≡ a
bit_or-zero a = (with_zero a a (omega arith)).0

pub bit_and-zero : (a : ℕ) → bit_and a 0 ≡ 0
bit_and-zero a = (with_zero a a (omega arith)).1

-- `(hi << k) | lo` is a sum when `lo` fits in `k` bits.
pub bit_or-add : (k hi lo : ℕ) → lo < 2 ^ k → bit_or (hi * 2 ^ k) lo ≡ hi * 2 ^ k + lo
bit_or-add zero hi lo h = let none : lo ≡ 0 = omega arith in ground (arith, bit_or-zero (hi * 1))
bit_or-add (suc k) hi lo h =
    let twice : hi * 2 ^ suc k ≡ 2 * (hi * 2 ^ k) =
      omega (arith, ap (λ (t : ℕ). hi * t) (pow-suc 2 k)) in
    ground (arith, pow-suc 2 k, twice, bit_or-halves (hi * 2 ^ suc k) lo, bit_or-add k hi (lo / 2))

mul-add-mod : (q p s : ℕ) → s < p → (q * p + s) % p ≡ s
mul-add-mod q p s h = grind arith

halves-mod : (a p : ℕ) → 0 < p → a % (2 * p) ≡ a / 2 % p * 2 + a % 2
halves-mod a p h =
    let q = a / 2 / p in
    let r = a / 2 % p in
    let whole : a / 2 ≡ q * p + r = grind arith in
    let split : a ≡ q * (2 * p) + (r * 2 + a % 2) = omega (arith, whole) in
    ap (λ t. t % (2 * p)) split ∙ mul-add-mod q (2 * p) (r * 2 + a % 2) (grind arith)

-- A mask of `k` low ones is the remainder by `2 ^ k`.
pub bit_and-mask : (k a : ℕ) → bit_and a (2 ^ k - 1) ≡ a % 2 ^ k
bit_and-mask zero a = omega (arith, bit_and-zero a)
bit_and-mask (suc k) a = ground (
  arith,
  pow-suc 2 k,
  one-le-pow k 2,
  bit_and-halves a (2 ^ suc k - 1),
  bit_and-mask k (a / 2),
  halves-mod a (2 ^ k),
  ap (λ t. a % t) (pow-suc 2 k),
)
