-- ===== src/Kernel/Ports.antt =====
-- Port I/O: kernel/arch/i686/include/x86/pio.h, and the `/dev/port` device of
-- kernel/arch/i686/drivers/char/memdev_x86.c. What the hardware answers to an `inb` is a parameter:
-- a function of the port and of all that happened on the bus before, newest first.
pub mod Device
use oldasternix.Prelude.{ℕ, zero, suc, ◌+◌, ◌-◌, List, ◌∷◌, ltb, if◌then◌else◌, arith}
use oldasternix.Prelude.Int.{ℤ, pos, neg}
use oldasternix.Prelude.Word.{u8, u16}

pub data Event : Type 0 where
  wrote : (port value : ℕ) → Event
  read : (port value : ℕ) → Event

abbrev pub Bus : Type 0
Bus = List Event

abbrev pub Hardware : Type 0
Hardware = Bus → ℕ → ℕ

unfoldable pub outb : ℕ → ℕ → Bus → Bus
outb port val bus = wrote (u16 port) (u8 val) ∷ bus

-- `inb` returns the byte, and its reading is itself an event.
unfoldable pub inb : Hardware → ℕ → Bus → ℕ × Bus
inb hw port bus = let val = u8 (hw bus (u16 port)) in (val, read (u16 port) val ∷ bus)

-- `io_wait`: a write to the unused port 0x80.
unfoldable pub io_wait : Bus → Bus
unfolding outb
io_wait bus = outb 0x80 0 bus
