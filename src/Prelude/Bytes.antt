-- ===== src/Prelude/Bytes.antt =====
-- The bits of a byte: setting, clearing and testing one.
use Prim.Native.Nat.{bit_and, bit_or, ℕ, ◌-◌, ◌/◌, ◌%◌, ◌^◌, ◌<◌}
use mathlib.Core.Path.{◌≡◌, refl}
use mathlib.Core.Bool.{Bool, true, false, not, ◌&&◌}
use native.Mathlib.Omega.{arith}
use oldasternix.Prelude.Tests.{◌==◌, if◌then◌else◌, xor}
use oldasternix.Prelude.Bits.{all_below, all_below-elim}
use oldasternix.Prelude.Word.{u8}

-- Bit `i` of `v` is one.
abbrev pub has_bit : ℕ → ℕ → Bool
has_bit v i = v / 2 ^ i % 2 == 1

abbrev pub set_bit : ℕ → ℕ → ℕ
set_bit v i = u8 (bit_or v (2 ^ i))

abbrev pub clear_bit : ℕ → ℕ → ℕ
clear_bit v i = u8 (bit_and v (4294967295 - 2 ^ i))

abbrev agree : Bool → Bool → Bool
agree a b = not (xor a b)

abbrev bit_law : ℕ → ℕ → ℕ → Bool
bit_law v i j =
    agree (has_bit (set_bit v i) j) (if i == j then true else has_bit v j)
    && agree (has_bit (clear_bit v i) j) (if i == j then false else has_bit v j)

bit_table : all_below 256 (λ v. all_below 8 (λ i. all_below 8 (λ j. bit_law v i j))) ≡ true
unfolding all_below
bit_table = refl

-- A bit that is set or cleared, and the other bits.
pub has_bit-set_bit :
    (v i j : ℕ)
    → v < 256
    → i < 8
    → j < 8
    → (has_bit (set_bit v i) j ≡ (if i == j then true else has_bit v j))
      × (has_bit (clear_bit v i) j ≡ (if i == j then false else has_bit v j))
has_bit-set_bit v i j hv hi hj =
    let law : bit_law v i j ≡ true =
      all_below-elim 8 (λ j. bit_law v i j) j
        (all_below-elim 8 (λ i. all_below 8 (λ j. bit_law v i j)) i
          (all_below-elim 256 (λ v. all_below 8 (λ i. all_below 8 (λ j. bit_law v i j))) v bit_table
            hv)
          hi)
        hj in
    ground (arith, law)
