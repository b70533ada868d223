-- ===== src/Kernel/Device.antt =====
-- Device numbers: kernel/include/drivers/major.h, and `dev_t` of kernel/include/types.h.
use Prim.Native.Nat.{bit_or}
use oldasternix.Prelude.{ℕ, ◌*◌, ◌/◌, ◌%◌, ◌^◌, ◌<◌, ◌≡◌, arith}
use oldasternix.Prelude.Bits.{bit_or-add}
use oldasternix.Prelude.Word.{u8, u32}

-- `DEV(major, minor)`, stored in a `dev_t`.
pub dev : ℕ → ℕ → ℕ
dev major minor = u32 (bit_or (minor * 2 ^ 8) major)

-- `MAJOR(dev)` and `MINOR(dev)`.
pub major : ℕ → ℕ
major d = u8 d

unfoldable pub minor : ℕ → ℕ
minor d = d / 2 ^ 8

abbrev pub null_dev : ℕ
null_dev = 0

abbrev pub chr_memdev : ℕ
chr_memdev = 1

abbrev pub chr_tty : ℕ
chr_tty = 2

abbrev pub blk_ramdisk : ℕ
blk_ramdisk = 1

-- A device number gives back the major (below 2^8) and minor (below 2^24) that it was made of.
pub major-minor-dev :
    (a b : ℕ) → a < 256 → b < 2 ^ 24 → (major (dev a b) ≡ a) × (minor (dev a b) ≡ b)
unfolding dev major minor
major-minor-dev a b ha hb = omega (arith, bit_or-add 8 b a ha)

-- Every 32-bit device number is made of its major and its minor.
pub dev-major-minor : (d : ℕ) → d < 2 ^ 32 → dev (major d) (minor d) ≡ d
unfolding dev major minor
dev-major-minor d h = omega (arith, bit_or-add 8 (d / 256) (d % 256) (omega arith))
