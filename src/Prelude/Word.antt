-- ===== src/Prelude/Word.antt =====
-- Machine words of the i686: `uint8_t`, `uint16_t`, `uint32_t` and the signed readings.
use Prim.Native.Nat.{ℕ, ◌-◌, ◌%◌}
use oldasternix.Prelude.Tests.{ltb, if◌then◌else◌}
use oldasternix.Prelude.Int.{ℤ, pos, negsuc}

abbrev pub u8 : ℕ → ℕ
u8 n = n % 256

abbrev pub u16 : ℕ → ℕ
u16 n = n % 65536

abbrev pub u32 : ℕ → ℕ
u32 n = n % 4294967296

-- The `char` that a byte stands for: `char` is signed on i686.
abbrev pub schar : ℕ → ℤ
schar b = if ltb b 128 then pos b else negsuc (255 - b)

-- A `size_t` or `uint32_t` returned as an `int`.
abbrev pub to_int : ℕ → ℤ
to_int n = let w = u32 n in if ltb w 2147483648 then pos w else negsuc (4294967295 - w)
