-- ===== src/Kernel/Machine.antt =====
-- The state that the drivers share: memory, the I/O bus, and the static variables of the driver
-- files. The memory holds the arrays `input_queue` (kernel/drivers/kb.c) and the VGA buffer.
use oldasternix.Prelude.{ℕ, Bool, false, []}
use oldasternix.Kernel.Ports.{Bus}
use oldasternix.Libc.Memory.{Memory}

-- `struct ramdisk` of kernel/drivers/block/ramdisk.c.
pub record RamDisk : Type 0 where
  pub blksize : ℕ
  pub bufs : ℕ
  pub size : ℕ

pub record Machine : Type 0 where
  pub memory : Memory
  pub bus : Bus
  -- kernel/drivers/char/memdev.c: the `seed` of `urandom_read`
  pub seed : ℕ
  -- kernel/drivers/block/ramdisk.c
  pub ramdisks : ℕ → RamDisk
  pub rd_idx : ℕ
  -- kernel/drivers/kb.c; `input_queue` is the address of the array, which nothing changes
  pub input_queue : ℕ
  pub queue_idx : ℕ
  pub modifiers : ℕ
  -- kernel/arch/i686/drivers/tty.c: where the VGA buffer is mapped, `pos`, `processing_sequence`
  pub vga_buffer : ℕ
  pub cursor : ℕ
  pub processing_sequence : Bool

-- The statics before any call: `seed` has its initialiser, all else is zero.
abbrev pub at_boot : Memory → ℕ → ℕ → Machine
at_boot m queue vga = record {
  memory = m;
  bus = [];
  seed = 62521;
  ramdisks = λ _. record { blksize = 0; bufs = 0; size = 0 };
  rd_idx = 0;
  input_queue = queue;
  queue_idx = 0;
  modifiers = 0;
  vga_buffer = vga;
  cursor = 0;
  processing_sequence = false;
}
