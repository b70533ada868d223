-- ===== src/Kernel/Memdev.antt =====
-- The memory devices of kernel/drivers/char/memdev.c: /dev/null, zero, full, port and urandom.
pub mod Random
use oldasternix.Prelude.{ℕ, zero, suc, ◌+◌, ◌*◌, ◌%◌, ◌==◌, if◌then◌else◌}
use oldasternix.Prelude.Int.{ℤ, pos, neg}
use oldasternix.Prelude.Word.{u8, to_int}
use oldasternix.Libc.Memory.{Memory, poke}
use oldasternix.Libc.Block.{memset}
use oldasternix.Kernel.Errno.{enospc, enodev}
use oldasternix.Kernel.Device.{minor}
use oldasternix.Kernel.Drivers.{CharDriver}
use oldasternix.Kernel.Machine.{Machine}
use oldasternix.Kernel.Ports.{Hardware}
use oldasternix.Kernel.Ports.Device.{port_read, port_write}

-- `enum memdev_type`.
abbrev pub null_minor : ℕ
null_minor = 1

abbrev pub zero_minor : ℕ
zero_minor = 2

abbrev pub full_minor : ℕ
full_minor = 3

abbrev pub port_minor : ℕ
port_minor = 4

abbrev pub random_minor : ℕ
random_minor = 5

abbrev pub urandom_minor : ℕ
urandom_minor = 6

pub null_read : ℕ → Machine → ℤ × Machine
null_read n w = (pos 0, w)

pub null_write : ℕ → Machine → ℤ × Machine
null_write n w = (to_int n, w)

pub zero_read : ℕ → ℕ → Machine → ℤ × Machine
zero_read buf n w = (to_int n, record w { memory = memset w.memory buf 0 n })

pub full_write : ℕ → Machine → ℤ × Machine
full_write n w = (neg enospc, w)

-- The linear congruential generator. The sum stays far below 2^31 (`Random`).
pub next_seed : ℕ → ℕ
next_seed seed = (9735 * seed + 13997) % 19468

-- The loop of `urandom_read`, with the rounds left: the memory and the seed.
pub urandom_loop : ℕ → ℕ → Memory → ℕ → Memory × ℕ
urandom_loop zero buf m seed = (m, seed)
urandom_loop (suc k) buf m seed =
    urandom_loop k (buf + 1) (poke m buf (u8 (next_seed seed))) (next_seed seed)

pub urandom_read : ℕ → ℕ → Machine → ℤ × Machine
unfolding urandom_loop next_seed
urandom_read buf n w =
    let (m, seed) = urandom_loop n buf w.memory w.seed in
    (to_int n, record w { memory = m; seed = seed })

module _ (hw : Hardware) where
  unfoldable pub memdev_read : ℕ → ℕ → ℕ → ℕ → Machine → ℤ × Machine
  unfolding null_read zero_read urandom_read
  memdev_read dev off buf n w =
      if minor dev == null_minor
      then null_read n w
      else if minor dev == full_minor
      then zero_read buf n w
      else if minor dev == zero_minor
      then zero_read buf n w
      else if minor dev == port_minor
      then (let (r, (m, bus)) = port_read hw off buf n (w.memory, w.bus) in
          (r, record w { memory = m; bus = bus }))
      else if minor dev == urandom_minor
      then urandom_read buf n w
      else (neg enodev, w)

  unfoldable pub memdev_write : ℕ → ℕ → ℕ → ℕ → Machine → ℤ × Machine
  unfolding null_write full_write
  memdev_write dev off buf n w =
      if minor dev == null_minor
      then null_write n w
      else if minor dev == zero_minor
      then null_write n w
      else if minor dev == urandom_minor
      then null_write n w
      else if minor dev == full_minor
      then full_write n w
      else if minor dev == port_minor
      then (let (r, bus) = port_write off buf n w.memory w.bus in (r, record w { bus = bus }))
      else (neg enodev, w)

  abbrev pub memdev_driver : CharDriver Machine
  memdev_driver = record { read = memdev_read; write = memdev_write }
