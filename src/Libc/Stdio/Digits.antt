-- ===== src/Libc/Stdio/Digits.antt =====
-- The digits of `putiradix`.
use oldasternix.Prelude.{
  ℕ, zero, suc, ◌+◌, ◌-◌, ◌*◌, ◌/◌, ◌%◌, ◌^◌, ◌≤◌, ◌<◌, ◌≡◌, ap, ◌==◌, ltb, if◌then◌else◌,
  Bool-cases, ◌⊎◌, inl, inr, List, [], ◌∷◌, length, arith,
}
use native.Mathlib.Nat.{pow-suc}
use oldasternix.Libc.Stdio.{digits_loop, digits}
use oldasternix.Kernel.Console.Typing.{AllAscii}

-- The number that digits stand for, lowest first; `alpha` is the digit ten.
pub digit_value : ℕ → ℕ → ℕ
digit_value alpha c = if ltb c 58 then c - 48 else c - alpha + 10

pub value : ℕ → ℕ → List ℕ → ℕ
unfolding digit_value
value r alpha [] = 0
value r alpha (c ∷ cs) = digit_value alpha c + r * value r alpha cs

div-lt : (x r p : ℕ) → 1 < r → x < 2 * p → x / r < p
div-lt x r p h l = grind arith

div-mod : (x r : ℕ) → 0 < r → x % r + r * (x / r) ≡ x
div-mod x r h = grind arith

mod-lt : (x r : ℕ) → 0 < r → x % r < r
mod-lt x r h = grind arith

-- The character of a digit, and its value.
digit_value-char :
    (d r alpha : ℕ)
    → d < r
    → r ≤ 16
    → (r ≤ 10) ⊎ (58 ≤ alpha)
    → digit_value alpha (if ltb d 10 then 48 + d else alpha + d - 10) ≡ d
unfolding digit_value
digit_value-char d r alpha h hi letters = ground arith

digits_loop-value :
    (f x r alpha : ℕ)
    → 1 < r
    → r ≤ 16
    → (r ≤ 10) ⊎ (58 ≤ alpha)
    → x < 2 ^ f
    → value r alpha (digits_loop f x r alpha) ≡ x
unfolding value digits_loop
digits_loop-value zero x r alpha lo hi letters small = ground arith
digits_loop-value (suc f) x r alpha lo hi letters small =
    let d = digit_value-char (x % r) r alpha (mod-lt x r (omega arith)) hi letters in
    let whole = div-mod x r (omega arith) in
    let half = div-lt x r (2 ^ f) lo (omega (arith, pow-suc 2 f)) in
    elim (Bool-cases (x / r == 0)) [
      | inl last ↦
          let none : x / r ≡ 0 = ground arith in
          rw last (rw d (omega (arith, whole, ap (λ t. r * t) none)))
      | inr more ↦
          rw more (rw d (rw (digits_loop-value f (x / r) r alpha lo hi letters half) whole))
    ]

div-lt_eighth : (x r p : ℕ) → 8 ≤ r → x < 8 * p → x / r < p
div-lt_eighth x r p h l = grind arith

digits_loop-length :
    (f k x r alpha : ℕ) → 8 ≤ r → x < 8 ^ suc k → length (digits_loop f x r alpha) ≤ suc k
unfolding digits_loop
digits_loop-length zero k x r alpha lo small = omega arith
digits_loop-length (suc f) zero x r alpha lo small =
    let last : x / r ≡ 0 = omega (arith, div-lt_eighth x r 1 lo (omega arith)) in
    rw last (omega arith)
digits_loop-length (suc f) (suc k) x r alpha lo small =
    let part = div-lt_eighth x r (8 ^ suc k) lo (omega (arith, pow-suc 8 (suc k))) in
    let rest = digits_loop-length f k (x / r) r alpha lo part in
    elim (Bool-cases (x / r == 0)) [
      | inl last ↦ rw last (omega arith)
      | inr more ↦ rw more (omega (arith, rest))
    ]

digits_loop-AllAscii :
    (f x r alpha : ℕ) → 0 < r → r ≤ 16 → alpha ≤ 97 → AllAscii (digits_loop f x r alpha)
unfolding digits_loop
digits_loop-AllAscii zero x r alpha lo hi letters = tt
digits_loop-AllAscii (suc f) x r alpha lo hi letters =
    let rest = digits_loop-AllAscii f (x / r) r alpha lo hi letters in
    let small = mod-lt x r lo in
    elim (Bool-cases (x / r == 0)) [
      | inl last ↦ rw last (ground (arith, small), tt)
      | inr more ↦ rw more (ground (arith, small), rest)
    ]

pub digits-AllAscii : (x r alpha : ℕ) → 0 < r → r ≤ 16 → alpha ≤ 97 → AllAscii (digits x r alpha)
unfolding digits
digits-AllAscii x r alpha lo hi letters = digits_loop-AllAscii 32 x r alpha lo hi letters

-- The digits of a 32-bit number in a radix from 8 to 16 stand for that number, and there are at
-- most 11. Where the radix is above 10, the digit ten is a character behind the figures.
pub digits-value :
    (x r alpha : ℕ)
    → 8 ≤ r
    → r ≤ 16
    → (r ≤ 10) ⊎ (58 ≤ alpha)
    → x < 2 ^ 32
    → (value r alpha (digits x r alpha) ≡ x) × (length (digits x r alpha) ≤ 11)
unfolding digits
digits-value x r alpha lo hi letters small = (
  digits_loop-value 32 x r alpha (omega arith) hi letters small,
  digits_loop-length 32 10 x r alpha lo (omega arith),
)
